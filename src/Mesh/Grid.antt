-- ===== src/Mesh/Grid.antt =====
-- Numbers and triples of them, to run graphics/src/SubMesh.cc and graphics/src/Mesh.cc on.
use ign_common.Common.{ℕ, ◌+◌, ◌-◌, ◌*◌, ◌/◌, Bool, ◌&&◌, ltb, ◌==◌}
use ign_common.Mesh.SubMesh.{Geometry}

pub record Triple : Type 0 where
  pub x : ℕ
  pub y : ℕ
  pub z : ℕ

abbrev pub triple : ℕ → ℕ → ℕ → Triple
triple a b c = record { x = a; y = b; z = c }

abbrev pub same : Triple → Triple → Bool
same v w = (v.x == w.x) && (v.y == w.y) && (v.z == w.z)

-- The negative of a number is zero, and the largest is 1000.
abbrev pub grid : Geometry
grid = record {
  Real = ℕ;
  Vector = Triple;
  TexCoord = ℕ × ℕ;
  number = λ n. n;
  half = 1;
  tiny = 1;
  pi = 3;
  max_f = 1000;
  big = 1000;
  lt = ltb;
  neg = λ n. 0;
  add = λ a b. a + b;
  sub = λ a b. a - b;
  mul = λ a b. a * b;
  div = λ a b. a / b;
  abs = λ a. a;
  sqrt = λ a. a;
  acos = λ a. a;
  to_float = λ a. a;
  vector = triple;
  x = λ v. v.x;
  y = λ v. v.y;
  z = λ v. v.z;
  origin = triple 0 0 0;
  plus = λ v w. triple (v.x + w.x) (v.y + w.y) (v.z + w.z);
  minus = λ v w. triple (v.x - w.x) (v.y - w.y) (v.z - w.z);
  times = λ v w. triple (v.x * w.x) (v.y * w.y) (v.z * w.z);
  by = λ v r. triple (v.x * r) (v.y * r) (v.z * r);
  cross = λ v w. triple (v.y * w.z) (v.z * w.x) (v.x * w.y);
  dot = λ v w. v.x * w.x + v.y * w.y + v.z * w.z;
  face_normal = λ u v w. triple 1 2 3;
  normalize = λ v. v;
  is_same = same;
  equal = same;
  tex_coord = λ u v. (u, v);
  tex_origin = (0, 0);
}
