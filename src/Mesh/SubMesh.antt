-- ===== src/Mesh/SubMesh.antt =====
-- graphics/src/SubMesh.cc: one part of a mesh. Vectors of C++ have fewer than 2^32 entries. The
-- numbers and the vectors of space are parameters.
use ign_common.Common.{
  ℕ, ◌+◌, ◌-◌, ◌%◌, ◌^◌, Bool, true, false, List, [], ◌∷◌, ◌++◌, ltb, leb, if◌then◌else◌, length,
  get_or, set,
}
use ign_common.Common.Int.{ℤ, pos, negsuc}
use ign_common.Common.Text.{Bytes}

-- What the meshes use of double and float, of Vector3d and of Vector2d.
pub record Geometry : Type 1 where
  pub Real : Type 0
  pub Vector : Type 0
  pub TexCoord : Type 0
  pub number : ℕ → Real
  pub half : Real
  pub tiny : Real
  pub pi : Real
  pub max_f : Real
  pub big : Real
  pub lt : Real → Real → Bool
  pub neg : Real → Real
  pub add : Real → Real → Real
  pub sub : Real → Real → Real
  pub mul : Real → Real → Real
  pub div : Real → Real → Real
  pub abs : Real → Real
  pub sqrt : Real → Real
  pub acos : Real → Real
  pub to_float : Real → Real
  pub vector : Real → Real → Real → Vector
  pub x : Vector → Real
  pub y : Vector → Real
  pub z : Vector → Real
  pub origin : Vector
  pub plus : Vector → Vector → Vector
  pub minus : Vector → Vector → Vector
  pub times : Vector → Vector → Vector
  pub by : Vector → Real → Vector
  pub cross : Vector → Vector → Vector
  pub dot : Vector → Vector → Real
  pub face_normal : Vector → Vector → Vector → Vector
  pub normalize : Vector → Vector
  pub is_same : Vector → Vector → Bool
  pub equal : Vector → Vector → Bool
  pub tex_coord : Real → Real → TexCoord
  pub tex_origin : TexCoord

pub data PrimitiveType : Type 0 where
  points lines line_strips triangles tri_fans tri_strips : PrimitiveType

-- The conversions between int and unsigned int.
unfoldable pub to_int : ℕ → ℤ
to_int n = if ltb n (2 ^ 31) then pos n else negsuc (2 ^ 32 - 1 - n)

unfoldable pub to_unsigned : ℤ → ℕ
to_unsigned (pos n) = n % 2 ^ 32
to_unsigned (negsuc n) = 2 ^ 32 - 1 - n % 2 ^ 32

-- size() as an unsigned int.
unfoldable pub count : {A : Type 0} → List A → ℕ
count xs = length xs % 2 ^ 32

-- An entry, or a default when the index is too large.
unfoldable pub at : {A : Type 0} → A → List A → ℕ → A
at other xs i = if leb (length xs) i then other else get_or xs i other

-- A write, which an index that is too large stops.
unfoldable pub put : {A : Type 0} → List A → ℕ → A → List A
put xs i v = if leb (length xs) i then xs else set xs i v

unfoldable pub max_loop : ℕ → List ℕ → ℕ
max_loop m [] = m
max_loop m (i ∷ is) = max_loop (if ltb m i then i else m) is

module _ (g : Geometry) where
  open g use {
    Real, Vector, TexCoord, number, half, tiny, pi, max_f, lt, neg, add, sub, mul, div, abs, sqrt,
    acos, to_float, vector, x, y, z, origin, plus, minus, times, by, cross, dot, face_normal,
    normalize, is_same, equal, tex_coord, tex_origin,
  }

  pub record NodeAssignment : Type 0 where
    pub vertex_index : ℕ
    pub node_index : ℕ
    pub weight : Real

  pub record SubMesh : Type 0 where
    pub vertices : List Vector
    pub normals : List Vector
    pub tex_coords : List TexCoord
    pub indices : List ℕ
    pub node_assignments : List NodeAssignment
    pub primitive_type : PrimitiveType
    pub material_index : ℤ
    pub name : Bytes

  -- The constructors.
  abbrev pub named_sub_mesh : Bytes → SubMesh
  named_sub_mesh name = record {
    vertices = [];
    normals = [];
    tex_coords = [];
    indices = [];
    node_assignments = [];
    primitive_type = triangles;
    material_index = negsuc 0;
    name = name;
  }

  abbrev pub new_sub_mesh : SubMesh
  new_sub_mesh = named_sub_mesh []

  unfoldable pub copy : SubMesh → SubMesh
  copy s = record new_sub_mesh {
    name = s.name;
    material_index = s.material_index;
    primitive_type = s.primitive_type;
    node_assignments = [] ++ s.node_assignments;
    indices = [] ++ s.indices;
    normals = [] ++ s.normals;
    tex_coords = [] ++ s.tex_coords;
    vertices = [] ++ s.vertices;
  }

  -- std::max and std::min
  abbrev pub max_of : Real → Real → Real
  max_of a b = if lt a b then b else a

  abbrev pub min_of : Real → Real → Real
  min_of a b = if lt b a then b else a

  pub set_primitive_type : PrimitiveType → SubMesh → SubMesh
  set_primitive_type t s = record s { primitive_type = t }

  unfoldable pub add_index : ℕ → SubMesh → SubMesh
  add_index i s = record s { indices = s.indices ++ i ∷ [] }

  unfoldable pub add_vertex : Vector → SubMesh → SubMesh
  add_vertex v s = record s { vertices = s.vertices ++ v ∷ [] }

  unfoldable pub add_vertex_xyz : Real → Real → Real → SubMesh → SubMesh
  unfolding add_vertex
  add_vertex_xyz a b c s = add_vertex (vector a b c) s

  unfoldable pub add_normal : Vector → SubMesh → SubMesh
  add_normal n s = record s { normals = s.normals ++ n ∷ [] }

  unfoldable pub add_normal_xyz : Real → Real → Real → SubMesh → SubMesh
  unfolding add_normal
  add_normal_xyz a b c s = add_normal (vector a b c) s

  unfoldable pub add_tex_coord_uv : Real → Real → SubMesh → SubMesh
  add_tex_coord_uv u v s = record s { tex_coords = s.tex_coords ++ tex_coord u v ∷ [] }

  unfoldable pub add_tex_coord : TexCoord → SubMesh → SubMesh
  add_tex_coord uv s = record s { tex_coords = s.tex_coords ++ uv ∷ [] }

  pub add_node_assignment : ℕ → ℕ → Real → SubMesh → SubMesh
  add_node_assignment vertex node weight s = record s {
    node_assignments =
        s.node_assignments
        ++ (record { vertex_index = vertex; node_index = node; weight = weight }) ∷ [];
  }

  pub vertex : SubMesh → ℕ → Vector
  unfolding at
  vertex s i = at origin s.vertices i

  pub has_vertex : SubMesh → ℕ → Bool
  has_vertex s i = ltb i (length s.vertices)

  pub set_vertex : ℕ → Vector → SubMesh → SubMesh
  unfolding put
  set_vertex i v s = record s { vertices = put s.vertices i v }

  unfoldable pub normal : SubMesh → ℕ → Vector
  unfolding at
  normal s i = at origin s.normals i

  pub has_normal : SubMesh → ℕ → Bool
  has_normal s i = ltb i (length s.normals)

  pub has_tex_coord : SubMesh → ℕ → Bool
  has_tex_coord s i = ltb i (length s.tex_coords)

  pub has_node_assignment : SubMesh → ℕ → Bool
  has_node_assignment s i = ltb i (length s.node_assignments)

  unfoldable pub set_normal : ℕ → Vector → SubMesh → SubMesh
  unfolding put
  set_normal i n s = record s { normals = put s.normals i n }

  pub tex_coord_at : SubMesh → ℕ → TexCoord
  unfolding at
  tex_coord_at s i = at tex_origin s.tex_coords i

  pub set_tex_coord : ℕ → TexCoord → SubMesh → SubMesh
  unfolding put
  set_tex_coord i t s = record s { tex_coords = put s.tex_coords i t }

  -- -1 when the index is too large.
  unfoldable pub index : SubMesh → ℕ → ℤ
  index s i = if leb (length s.indices) i then negsuc 0 else to_int (get_or s.indices i 0)

  pub set_index : ℕ → ℕ → SubMesh → SubMesh
  unfolding put
  set_index i k s = record s { indices = put s.indices i k }

  pub node_assignment_by_index : SubMesh → ℕ → NodeAssignment
  unfolding at
  node_assignment_by_index s i =
      at (record { vertex_index = 0; node_index = 0; weight = number 0 }) s.node_assignments i

  abbrev pub lift_max : Vector → Vector → Vector
  lift_max m v = vector (max_of (x m) (x v)) (max_of (y m) (y v)) (max_of (z m) (z v))

  abbrev pub lift_min : Vector → Vector → Vector
  lift_min m v = vector (min_of (x m) (x v)) (min_of (y m) (y v)) (min_of (z m) (z v))

  abbrev pub fold : (Vector → Vector → Vector) → Vector → List Vector → Vector
  fold f m [] = m
  fold f m (v ∷ vs) = fold f (f m v) vs

  -- The loop of Max and that of Min, over the vertices or over the extremes of parts.
  unfoldable pub max_over : List Vector → Vector
  max_over [] = origin
  max_over (v ∷ vs) = fold lift_max (vector (neg max_f) (neg max_f) (neg max_f)) (v ∷ vs)

  unfoldable pub min_over : List Vector → Vector
  min_over [] = origin
  min_over (v ∷ vs) = fold lift_min (vector max_f max_f max_f) (v ∷ vs)

  unfoldable pub max : SubMesh → Vector
  unfolding max_over
  max s = max_over s.vertices

  unfoldable pub min : SubMesh → Vector
  unfolding min_over
  min s = min_over s.vertices

  unfoldable pub vertex_count : SubMesh → ℕ
  unfolding count
  vertex_count s = count s.vertices

  pub normal_count : SubMesh → ℕ
  unfolding count
  normal_count s = count s.normals

  unfoldable pub index_count : SubMesh → ℕ
  unfolding count
  index_count s = count s.indices

  pub tex_coord_count : SubMesh → ℕ
  unfolding count
  tex_coord_count s = count s.tex_coords

  pub node_assignments_count : SubMesh → ℕ
  unfolding count
  node_assignments_count s = count s.node_assignments

  -- max_element, and 0 without indices
  unfoldable pub max_index : SubMesh → ℕ
  unfolding max_loop
  max_index s = elim s.indices [ [] ↦ 0 | i ∷ is ↦ max_loop i is ]

  unfoldable pub set_material_index : ℕ → SubMesh → SubMesh
  unfolding to_int
  set_material_index i s = record s { material_index = to_int i }

  unfoldable pub material_index : SubMesh → ℕ
  unfolding to_unsigned
  material_index s = to_unsigned s.material_index

  has_equal : Vector → List Vector → Bool
  has_equal v [] = false
  has_equal v (w ∷ ws) = if equal v w then true else has_equal v ws

  pub has_vertex_at : SubMesh → Vector → Bool
  unfolding has_equal
  has_vertex_at s v = has_equal v s.vertices

  find_equal : ℕ → Vector → List Vector → ℤ
  find_equal i v [] = negsuc 0
  find_equal i v (w ∷ ws) = if equal v w then to_int i else find_equal (i + 1) v ws

  pub index_of_vertex : SubMesh → Vector → ℤ
  unfolding find_equal
  index_of_vertex s v = find_equal 0 v s.vertices
