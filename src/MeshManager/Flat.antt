-- ===== src/MeshManager/Flat.antt =====
-- graphics/src/MeshManager.cc: the box, the camera and the plane.
use ign_common.Common.{
  ℕ, zero, suc, ◌+◌, ◌-◌, ◌*◌, Bool, true, false, Option, none, some, List, [], ◌∷◌, if◌then◌else◌,
  get_or, leb, ◌^◌,
}
use ign_common.Mesh.SubMesh.{
  Geometry, SubMesh, new_sub_mesh, add_vertex, add_normal, add_tex_coord_uv, add_index,
}
use ign_common.MeshManager.Strips.{rounds, add_point, add_triangle}

-- The arrays of CreateBox and CreateCamera: the signs of the vertices, the faces and the indices.
abbrev pub corner_signs : List (Bool × Bool × Bool)
corner_signs =
    (false, false, false)
    ∷ (false, false, true)
    ∷ (true, false, true)
    ∷ (true, false, false)
    ∷ (false, true, false)
    ∷ (false, true, true)
    ∷ (true, true, true)
    ∷ (true, true, false)
    ∷ []

abbrev pub box_faces : List (List ℕ)
box_faces =
    (2 ∷ 1 ∷ 0 ∷ 3 ∷ [])
    ∷ (5 ∷ 6 ∷ 7 ∷ 4 ∷ [])
    ∷ (2 ∷ 6 ∷ 5 ∷ 1 ∷ [])
    ∷ (1 ∷ 5 ∷ 4 ∷ 0 ∷ [])
    ∷ (0 ∷ 4 ∷ 7 ∷ 3 ∷ [])
    ∷ (6 ∷ 2 ∷ 3 ∷ 7 ∷ [])
    ∷ []

abbrev pub box_indices : List ℕ
box_indices =
    0 ∷ 1 ∷ 2 ∷ 2 ∷ 3 ∷ 0 ∷ 4 ∷ 5 ∷ 7 ∷ 7 ∷ 5 ∷ 6 ∷ 11 ∷ 8 ∷ 9 ∷ 9 ∷ 10 ∷ 11 ∷ 12 ∷ 13 ∷ 15 ∷ 15
    ∷ 13 ∷ 14 ∷ 16 ∷ 17 ∷ 18 ∷ 18 ∷ 19 ∷ 16 ∷ 21 ∷ 22 ∷ 23 ∷ 23 ∷ 20 ∷ 21 ∷ []

module _ (g : Geometry) where
  open g use {
    Real, Vector, number, half, neg, mul, sub, div, to_float, vector, cross, normalize, by,
  }

  unfoldable pub add_indices : List ℕ → SubMesh g → SubMesh g
  unfolding add_index
  add_indices [] s = s
  add_indices (i ∷ is) s = add_indices is (add_index g i s)

  abbrev pub signed : Real → Bool → Real
  signed r b = if b then r else neg r

  -- A vertex of the arrays, each coordinate with its factor; the faces name no other.
  abbrev pub corner : Real → Real → Real → ℕ → Vector
  corner a b c i =
      let (p, q, r) = get_or corner_signs i (false, false, false) in
      vector (to_float (mul (signed (number 1) p) a)) (to_float (mul (signed (number 1) q) b))
        (to_float (mul (signed (number 1) r) c))

  abbrev pub box_normals : List Vector
  box_normals =
      let o = number 0 in
      let i = number 1 in
      vector o (neg i) o
      ∷ vector o i o
      ∷ vector o o i
      ∷ vector (neg i) o o
      ∷ vector o o (neg i)
      ∷ vector i o o
      ∷ []

  -- The vertices of one face, with its normal.
  unfoldable pub box_face :
      (ℕ → Vector) → Vector → List ℕ → List (Real × Real) → SubMesh g → SubMesh g
  unfolding add_point
  box_face at n (i ∷ is) ((a, b) ∷ ts) s = box_face at n is ts (add_point g (at i) n a b s)
  box_face at n is ts s = s

  unfoldable pub box_loop :
      (ℕ → Vector) → List (Real × Real) → List (List ℕ) → List Vector → SubMesh g → SubMesh g
  unfolding box_face
  box_loop at ts (f ∷ fs) (n ∷ ns) s = box_loop at ts fs ns (box_face at n f ts s)
  box_loop at ts fs ns s = s

  -- CreateBox, with the sides and the texture coordinates.
  unfoldable pub box_part : Real → Real → Real → Real → Real → SubMesh g
  unfolding box_loop add_indices
  box_part a b c u v =
      let o = number 0 in
      let ts = (u, o) ∷ (o, o) ∷ (o, v) ∷ (u, v) ∷ [] in
      add_indices box_indices (
        box_loop (corner (mul a half) (mul b half) (mul c half)) ts box_faces box_normals
          (new_sub_mesh g))

  -- The vertices of one face of the camera, each with its own normal.
  unfoldable pub camera_face : (ℕ → Vector) → (ℕ → Vector) → List ℕ → SubMesh g → SubMesh g
  unfolding add_vertex add_normal
  camera_face at normal_at [] s = s
  camera_face at normal_at (i ∷ is) s =
      camera_face at normal_at is (add_normal g (normal_at i) (add_vertex g (at i) s))

  unfoldable pub camera_loop : (ℕ → Vector) → (ℕ → Vector) → List (List ℕ) → SubMesh g → SubMesh g
  unfolding camera_face
  camera_loop at normal_at [] s = s
  camera_loop at normal_at (f ∷ fs) s = camera_loop at normal_at fs (camera_face at normal_at f s)

  -- CreateCamera before RecalculateNormals; `slope` is the 0.577350f of its normals.
  unfoldable pub camera_part : Real → Real → SubMesh g
  unfolding camera_loop add_indices
  camera_part slope scale =
      let size = mul scale half in
      let normal_at : ℕ → Vector = λ i.
        let (p, q, r) = get_or corner_signs i (false, false, false) in
        vector (signed slope p) (signed slope q) (signed slope r) in
      add_indices box_indices
        (camera_loop (corner size size size) normal_at box_faces (new_sub_mesh g))

  -- The two triangles of a cell of Tesselate2DMesh, from row `v` to row `w`; Tesselate2DMesh is undefined
  -- where the products are no int.
  unfoldable pub cell : ℕ → ℕ → ℕ → ℕ → SubMesh g → SubMesh g
  unfolding add_triangle
  cell width v w u s =
      add_triangle g (w * width + (u + 1)) (v * width + u) (v * width + (u + 1))
        (add_triangle g (w * width + u) (v * width + u) (w * width + (u + 1)) s)

  -- The first iteration goes up the rows, the second down.
  unfoldable pub tesselate_up : ℕ → ℕ → SubMesh g → SubMesh g
  unfolding rounds cell
  tesselate_up width height s =
      rounds (λ v t. rounds (cell width v (v + 1)) (width - 1) 0 t) (height - 1) 0 s

  unfoldable pub tesselate_down : ℕ → ℕ → SubMesh g → SubMesh g
  unfolding rounds cell
  tesselate_down width height s =
      rounds (λ k t. rounds (cell width (height - 1 - k) (height - 1 - k - 1)) (width - 1) 0 t)
        (height - 1) 0 s

  -- Tesselate2DMesh. With one row there is nothing to do; without a row, or with more rows and no column,
  -- its loops do not end. The greatest of its int products is the last vertex.
  unfoldable pub tesselate_2d_mesh : ℕ → ℕ → Bool → SubMesh g → Option (SubMesh g)
  unfolding tesselate_up tesselate_down
  tesselate_2d_mesh width zero double_sided s = none
  tesselate_2d_mesh width (suc zero) double_sided s = some s
  tesselate_2d_mesh zero (suc (suc h)) double_sided s = none
  tesselate_2d_mesh (suc w) (suc (suc h)) double_sided s =
      let t = tesselate_up (suc w) (suc (suc h)) s in
      if leb (suc w * suc (suc h)) (2 ^ 31)
      then some (if double_sided then tesselate_down (suc w) (suc (suc h)) t else t)
      else none

  -- What CreatePlane uses of Matrix4d, and of double.
  pub record Plane : Type 1 where
    pub Matrix : Type 0
    pub perpendicular : Vector → Vector
    pub axes : Vector → Vector → Vector → Matrix
    pub translation : Vector → Matrix
    pub times_matrix : Matrix → Matrix → Matrix
    pub transform_affine : Matrix → Vector → Option Vector
    pub thickness : Real
    -- The number of the integers from 0 to a number.
    pub steps : Real → ℕ
    -- static_cast<int>
    pub truncate : Real → ℕ

  module _ (pl : Plane) where
    open pl use {
      Matrix, perpendicular, axes, translation, times_matrix, transform_affine, thickness,
    }

    unfoldable pub plane_transform : Vector → Real → Matrix
    plane_transform n d =
        let z_axis = normalize n in
        let y_axis = perpendicular z_axis in
        let x_axis = cross y_axis z_axis in
        times_matrix (translation (by n (neg d))) (axes x_axis y_axis z_axis)

    -- One round of the inner loop; a transform that fails skips the rest of it.
    unfoldable pub plane_point :
        Matrix
        → (ℕ → Real)
        → (ℕ → Real)
        → Real
        → (ℕ → Real)
        → (ℕ → Real)
        → ℕ
        → ℕ
        → SubMesh g
        → SubMesh g
    unfolding add_vertex add_normal add_tex_coord_uv
    plane_point m at_x at_y at_z tex_x tex_y j i s =
        elim (transform_affine m (vector (at_x i) (at_y j) at_z)) [
          | none ↦ s
          | some v ↦
              let t = add_vertex g v s in
              elim (transform_affine m (vector (number 0) (number 0) (number 1))) [
                | none ↦ t
                | some n ↦ add_tex_coord_uv g (tex_x i) (tex_y j) (add_normal g n t)
              ]
        ]

    -- CreatePlane: the normal, the distance, the size, the segments and the tiling.
    unfoldable pub plane_part :
        Vector → Real → Real × Real → Real × Real → Real × Real → Option (SubMesh g)
    unfolding rounds plane_point plane_transform tesselate_2d_mesh
    plane_part n d (size_x, size_y) (seg_x, seg_y) (tile_x, tile_y) =
        let m = plane_transform n d in
        let at_x : ℕ → Real =
          λ i. sub (mul (number i) (div size_x seg_x)) (div size_x (number 2)) in
        let at_y : ℕ → Real =
          λ j. sub (mul (number j) (div size_y seg_y)) (div size_y (number 2)) in
        let tex_x : ℕ → Real = λ i. mul (number i) (div tile_x seg_x) in
        let tex_y : ℕ → Real = λ j. sub (number 1) (mul (number j) (div tile_y seg_y)) in
        let layer : ℕ → SubMesh g → SubMesh g = λ k.
          rounds
            (λ j.
              rounds (plane_point m at_x at_y (neg (mul (number k) thickness)) tex_x tex_y j)
                (pl.steps seg_x) 0)
            (pl.steps seg_y) 0 in
        tesselate_2d_mesh (pl.truncate (g.add seg_x (number 1)))
          (pl.truncate (g.add seg_y (number 1))) false (rounds layer 2 0 (new_sub_mesh g))
