-- ===== src/Mesh/Shape.antt =====
-- graphics/src/SubMesh.cc: the arrays, the normals, the moves and the volume of a part of a mesh.
-- Reading past the end of a C++ vector makes an operation `none`.
use ign_common.Common.{
  ℕ, ◌-◌, ◌%◌, Bool, true, false, ◌||◌, Option, none, some, List, [], ◌∷◌, ◌++◌, map, ltb, ◌==◌,
  if◌then◌else◌, length, get_elem?, take, replicate,
}
use mathlib.Core.Option
use ign_common.Common.Int.{ℤ}
use ign_common.Mesh.SubMesh.{
  Geometry, SubMesh, PrimitiveType, triangles, to_int, add_tex_coord_uv, max, min, max_of, min_of,
}

-- resize of a vector
abbrev pub resize : {A : Type 0} → A → ℕ → List A → List A
resize a n xs = take n xs ++ replicate (n - length xs) a

module _ (g : Geometry) where
  open g use {
    Real, Vector, number, half, tiny, pi, add, sub, mul, div, abs, sqrt, acos, neg, to_float, x, y,
    z, origin, plus, minus, times, by, cross, dot, face_normal, normalize, is_same, vector,
  }

  -- The three entries of the vertex array that a vertex fills.
  abbrev pub flat : List Vector → List Real
  flat [] = []
  flat (v ∷ vs) = to_float (x v) ∷ to_float (y v) ∷ to_float (z v) ∷ flat vs

  -- The two arrays behind the pointers, `none` for a null pointer.
  pub record Arrays : Type 0 where
    pub vert_arr : Option (List Real)
    pub ind_arr : Option (List ℤ)

  unfoldable pub fill_arrays : SubMesh g → Arrays → Arrays
  fill_arrays s old = elim s.vertices [
    | [] ↦ old
    | v ∷ vs ↦ elim s.indices [
      | [] ↦ old
      | i ∷ is ↦ record {
        vert_arr = some (flat (v ∷ vs));
        ind_arr = some (to_int i ∷ map to_int is);
      }
    ]
  ]

  abbrev pub touches : Vector → Vector → Vector → Vector → Bool
  touches v v1 v2 v3 = is_same v v1 || is_same v v2 || is_same v v3

  -- The inner loop of RecalculateNormals: a face's normal is added at each vertex that it touches.
  unfoldable pub spread :
      Vector → Vector → Vector → Vector → List Vector → List Vector → Option (List Vector)
  spread n v1 v2 v3 [] ns = some ns
  spread n v1 v2 v3 (v ∷ vs) [] = none
  spread n v1 v2 v3 (v ∷ vs) (m ∷ ns) =
      Option.map (λ ms. (if touches v v1 v2 v3 then plus m n else m) ∷ ms) (spread n v1 v2 v3 vs ns)

  -- The three corners of a face.
  abbrev pub corners : List Vector → ℕ → ℕ → ℕ → Option (Vector × Vector × Vector)
  corners vs i j k = elim (get_elem? vs i) [
    | none ↦ none
    | some v1 ↦ elim (get_elem? vs j) [
      | none ↦ none
      | some v2 ↦ elim (get_elem? vs k) [ none ↦ none | some v3 ↦ some (v1, v2, v3) ]
    ]
  ]

  -- The outer loop of RecalculateNormals.
  unfoldable pub face_loop : List Vector → List ℕ → List Vector → Option (List Vector)
  unfolding spread
  face_loop vs [] ns = some ns
  face_loop vs (i ∷ []) ns = none
  face_loop vs (i ∷ j ∷ []) ns = none
  face_loop vs (i ∷ j ∷ k ∷ is) ns = elim (corners vs i j k) [
    | none ↦ none
    | some (v1, v2, v3) ↦ elim (spread (face_normal v1 v2 v3) v1 v2 v3 vs ns) [
      | none ↦ none
      | some ns' ↦ face_loop vs is ns'
    ]
  ]

  -- The normals that the faces are added to.
  unfoldable pub cleared : SubMesh g → List Vector
  cleared s =
      let ns = map (λ n. vector (number 0) (number 0) (number 0)) s.normals in
      if length ns == length s.vertices then ns else resize origin (length s.vertices) ns

  unfoldable pub recalculate_normals : SubMesh g → Option (SubMesh g)
  unfolding face_loop cleared
  recalculate_normals s =
      if ltb (length s.normals) 3
      then some s
      else Option.map (λ ns. record s { normals = map normalize ns })
          (face_loop s.vertices s.indices (cleared s))

  -- The texture coordinates of a vertex.
  abbrev sphere_u : Real → Real → Real
  sphere_u c r = div (acos (min_of g (number 1) (max_of g (neg (number 1)) (div c r)))) pi

  abbrev radius : Real → Real → Real → Real
  radius a b c = max_of g tiny (sqrt (add (add (mul a a) (mul b b)) (mul c c)))

  sphere_loop : Vector → List Vector → SubMesh g → SubMesh g
  unfolding add_tex_coord_uv
  sphere_loop center [] s = s
  sphere_loop center (v ∷ vs) s =
      let a = sub (x v) (x center) in
      let b = sub (y v) (y center) in
      let c = sub (z v) (z center) in
      let r = radius a b c in
      sphere_loop center vs (add_tex_coord_uv g (sphere_u c r) (sphere_u b r) s)

  unfoldable pub gen_spherical_tex_coord : Vector → SubMesh g → SubMesh g
  unfolding sphere_loop
  gen_spherical_tex_coord center s = sphere_loop center s.vertices (record s { tex_coords = [] })

  unfoldable pub scale : Vector → SubMesh g → SubMesh g
  scale factor s = record s { vertices = map (λ v. times v factor) s.vertices }

  pub scale_by : Real → SubMesh g → SubMesh g
  scale_by factor s = record s { vertices = map (λ v. by v factor) s.vertices }

  unfoldable pub translate : Vector → SubMesh g → SubMesh g
  translate vec s = record s { vertices = map (λ v. plus v vec) s.vertices }

  pub center : Vector → SubMesh g → SubMesh g
  unfolding translate max min
  center c s =
      let low = min g s in
      let mid = by (minus (max g s) low) half in translate (minus c (plus low mid)) s

  pub set_name : List ℕ → SubMesh g → SubMesh g
  set_name name s = record s { name = name }

  -- The loop of Volume.
  unfoldable pub volume_loop : List Vector → List ℕ → Real → Option Real
  volume_loop vs [] volume = some volume
  volume_loop vs (i ∷ []) volume = none
  volume_loop vs (i ∷ j ∷ []) volume = none
  volume_loop vs (i ∷ j ∷ k ∷ is) volume = elim (corners vs i j k) [
    | none ↦ none
    | some (v1, v2, v3) ↦
        volume_loop vs is (add volume (abs (div (dot (cross v1 v2) v3) (number 6))))
  ]

  abbrev pub is_triangles : PrimitiveType → Bool
  is_triangles triangles = true
  is_triangles t = false

  -- Zero when the part is not made of triangles.
  unfoldable pub volume : SubMesh g → Option Real
  unfolding volume_loop
  volume s =
      let sum = volume_loop s.vertices s.indices (number 0) in
      if is_triangles s.primitive_type
      then if length s.indices % 3 == 0 then sum else some (number 0)
      else some (number 0)
