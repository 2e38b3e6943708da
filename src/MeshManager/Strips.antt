-- ===== src/MeshManager/Strips.antt =====
-- graphics/src/MeshManager.cc: the sphere, the cylinder, the cone and the tube. The counts of rings and
-- segments are natural numbers; the sums of unsigned int wrap around.
use ign_common.Common.{ℕ, zero, suc, ◌+◌, ◌-◌, ◌%◌, ◌^◌, Bool, ◌==◌, if◌then◌else◌}
use ign_common.Mesh.SubMesh.{
  Geometry, SubMesh, new_sub_mesh, add_vertex, add_normal, add_tex_coord_uv, add_index,
  vertex_count,
}

-- The rounds of a for loop from `i` on.
unfoldable pub rounds : {S : Type 0} → (ℕ → S → S) → ℕ → ℕ → S → S
rounds f zero i s = s
rounds f (suc n) i s = rounds f n (suc i) (f i s)

-- A sum of unsigned int.
abbrev pub word : ℕ → ℕ
word n = n % 2 ^ 32

module _ (g : Geometry) where
  open g use {
    Real, Vector, number, pi, add, sub, mul, div, to_float, vector, plus, origin, normalize, z,
  }

  -- What the shapes use of float, and of the division of a vector.
  pub record Floats : Type 0 where
    pub fmul : Real → Real → Real
    pub fdiv : Real → Real → Real
    pub sinf : Real → Real
    pub cosf : Real → Real
    pub over : Vector → Real → Vector
    pub is_full_turn : Real → Bool

  -- A part that grows, and the index of its next vertex.
  pub record Strip : Type 0 where
    pub part : SubMesh g
    pub vertice_index : ℕ

  abbrev pub new_strip : Strip
  new_strip = record { part = new_sub_mesh g; vertice_index = 0 }

  -- A vertex with its normal and its texture coordinates.
  unfoldable pub add_point : Vector → Vector → Real → Real → SubMesh g → SubMesh g
  unfolding add_vertex add_normal add_tex_coord_uv
  add_point v n a b s = add_tex_coord_uv g a b (add_normal g n (add_vertex g v s))

  unfoldable pub add_triangle : ℕ → ℕ → ℕ → SubMesh g → SubMesh g
  unfolding add_index
  add_triangle a b c s = add_index g (word c) (add_index g (word b) (add_index g (word a) s))

  -- The two triangles between a vertex, the next one and those of the next ring.
  abbrev pub add_quad : ℕ → ℕ → SubMesh g → SubMesh g
  add_quad segments v s =
      add_triangle (v + segments + 1) (v + 1) v (add_triangle (v + segments + 1) v (v + segments) s)

  abbrev pub advance : SubMesh g → ℕ → Strip
  advance s v = record { part = s; vertice_index = word (v + 1) }

  module _ (fl : Floats) where
    open fl use {fmul, fdiv, sinf, cosf, over, is_full_turn}

    abbrev pub ratio : ℕ → ℕ → Real
    ratio a b = fdiv (number a) (number b)

    abbrev pub seg_angle : ℕ → ℕ → Real
    seg_angle segments seg =
        fmul (number seg) (to_float (div (mul (number 2) pi) (number segments)))

    -- One round of the inner loop of CreateSphere.
    unfoldable pub sphere_point : Real → ℕ → ℕ → ℕ → ℕ → Strip → Strip
    unfolding add_point add_triangle
    sphere_point radius rings segments ring seg st =
        let angle = fmul (number ring) (to_float (div pi (number rings))) in
        let r0 = fmul radius (sinf angle) in
        let vert =
          vector (fmul r0 (sinf (seg_angle segments seg))) (fmul radius (cosf angle))
            (fmul r0 (cosf (seg_angle segments seg))) in
        let s = add_point vert (normalize vert) (ratio seg segments) (ratio ring rings) st.part in
        if ring == rings
        then record st { part = s }
        else advance (add_quad segments st.vertice_index s) st.vertice_index

    unfoldable pub sphere_part : Real → ℕ → ℕ → SubMesh g
    unfolding rounds sphere_point
    sphere_part radius rings segments =
        (rounds (λ ring st. rounds (sphere_point radius rings segments ring) (segments + 1) 0 st)
          (rings + 1) 0 new_strip).part

    -- `ring * height/rings - height/2.0`
    abbrev pub ring_z : Real → ℕ → ℕ → Real
    ring_z height rings ring =
        sub (fdiv (fmul (number ring) height) (number rings)) (div height (number 2))

    -- One round of the inner loop of CreateCylinder.
    unfoldable pub cylinder_point : Real → Real → ℕ → ℕ → ℕ → ℕ → Strip → Strip
    unfolding add_point add_triangle
    cylinder_point radius height rings segments ring seg st =
        let a = fmul radius (sinf (seg_angle segments seg)) in
        let b = fmul radius (cosf (seg_angle segments seg)) in
        let s =
          add_point (vector a b (ring_z height rings ring)) (normalize (vector a b (number 0)))
            (ratio seg segments) (ratio ring rings) st.part in
        if ring == rings
        then record st { part = s }
        else advance (add_quad segments st.vertice_index s) st.vertice_index

    -- One round of a loop over the vertices of a cap.
    unfoldable pub cap_point : Real → Real → Real → Real → ℕ → ℕ → SubMesh g → SubMesh g
    unfolding add_point
    cap_point radius at_z up v segments seg s =
        add_point
          (vector (fmul radius (sinf (seg_angle segments seg)))
            (fmul radius (cosf (seg_angle segments seg))) at_z)
          (vector (number 0) (number 0) up) (ratio seg segments) v s

    -- `verticeIndex - segments + seg` and one less.
    abbrev pub fan_index : ℕ → ℕ → ℕ → ℕ
    fan_index v segments seg = word (v + (2 ^ 32 - segments % 2 ^ 32) + seg)

    abbrev pub fan_before : ℕ → ℕ → ℕ → ℕ
    fan_before v segments seg = word (v + (2 ^ 32 - segments % 2 ^ 32) + seg + (2 ^ 32 - 1))

    unfoldable pub top_fan : ℕ → ℕ → ℕ → SubMesh g → SubMesh g
    unfolding add_triangle
    top_fan v segments seg s =
        add_triangle v (fan_index v segments seg) (fan_before v segments seg) s

    unfoldable pub bottom_fan : ℕ → ℕ → ℕ → SubMesh g → SubMesh g
    unfolding add_triangle
    bottom_fan v segments seg s =
        add_triangle v (fan_before v segments seg) (fan_index v segments seg) s

    -- VertexCount() - 1
    abbrev pub last_vertex : SubMesh g → ℕ
    last_vertex s = word (vertex_count g s + (2 ^ 32 - 1))

    -- A cap of CreateCylinder: its ring, its middle and its fan.
    unfoldable pub cap :
        (ℕ → ℕ → ℕ → SubMesh g → SubMesh g) → Real → Real → Real → Real → ℕ → SubMesh g → SubMesh g
    unfolding rounds cap_point add_point
    cap fan radius at_z up v segments s =
        let ring = rounds (cap_point radius at_z up v segments) (segments + 1) 0 s in
        let closed =
          add_point (vector (number 0) (number 0) at_z) (vector (number 0) (number 0) up) (number 0)
            (number 0) ring in
        rounds (fan (last_vertex closed) segments) segments 0 closed

    unfoldable pub cylinder_part : Real → Real → ℕ → ℕ → SubMesh g
    unfolding rounds cylinder_point cap top_fan bottom_fan
    cylinder_part radius height rings segments =
        let side =
          rounds
            (λ ring st.
              rounds (cylinder_point radius height rings segments ring) (segments + 1) 0 st)
            (rings + 1) 0 new_strip in
        let top =
          cap top_fan radius (div height (number 2)) (number 1) (number 1) segments side.part in
        cap bottom_fan radius (div (g.neg height) (number 2)) (g.neg (number 1)) (number 0) segments
          top
