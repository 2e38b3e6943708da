-- ===== src/MeshManager/Round.antt =====
-- The indices of the sphere and the cylinder of graphics/src/MeshManager.cc.
use ign_common.Common.{
  ℕ, suc, ◌+◌, ◌*◌, ◌^◌, ◌≤◌, ◌<◌, ◌≡◌, refl, false, arith, ◌==◌, inl, inr, Bool-cases,
}
use ign_common.Mesh.SubMesh.{Geometry, SubMesh, vertex_count, count}
use ign_common.MeshManager.Strips.{
  Floats, Strip, new_strip, add_quad, sphere_point, sphere_part, cylinder_point, cylinder_part, cap,
  cap_point, top_fan, fan_index, fan_before, bottom_fan,
}
use ign_common.MeshManager.Built.{
  IsBuilt, IsBuilt-count, IsGrown, rounds-keeps, grid-keeps, rows, add_point-IsBuilt,
  add_triangle-IsBuilt, advance-IsGrown,
}

module _ (g : Geometry) where
  pub add_quad-IsBuilt :
      (n b segments v : ℕ) (s : SubMesh g)
      → v + segments + 1 < b
      → 0 < segments
      → IsBuilt g n b s
      → IsBuilt g n b (add_quad g segments v s)
  add_quad-IsBuilt n b segments v s l z h =
      add_triangle-IsBuilt g n b (v + segments + 1) (v + 1) v _ (omega arith) (omega arith)
        (omega arith)
        (add_triangle-IsBuilt g n b (v + segments + 1) v (v + segments) s (omega arith)
          (omega arith) (omega arith) h)

  pub new_strip-IsGrown : (b : ℕ) → IsGrown g 0 b (new_strip g)
  new_strip-IsGrown b = record {
    built = record { vertex = refl; normal = refl; faces = tt };
    behind = omega arith;
  }

  module _ (fl : Floats g) where
    sphere_point-IsGrown :
        (radius : g.Real) (rings segments ring seg n b : ℕ) (st : Strip g)
        → 0 < segments
        → ((ring == rings) ≡ false → n + segments + 1 < b)
        → IsGrown g n b st
        → IsGrown g (suc n) b (sphere_point g fl radius rings segments ring seg st)
    unfolding sphere_point
    sphere_point-IsGrown radius rings segments ring seg n b st z l h =
        let hb = h.behind in
        let p = add_point-IsBuilt g n b _ _ _ _ st.part h.built in
        elim (Bool-cases (ring == rings)) [
          | inl e ↦ rw e (record { built = p; behind = omega arith })
          | inr e ↦
              let le = l e in
              rw e (
                advance-IsGrown g n b st.vertice_index _
                  (add_quad-IsBuilt (suc n) b segments st.vertice_index _ (omega arith) z p) hb)
        ]

    -- CreateSphere with at least one segment: the part has (rings + 1) * (segments + 1) vertices and as
    -- many normals, and its indices are triangles of these vertices.
    pub sphere_part_lem :
        (radius : g.Real) (rings segments : ℕ)
        → 0 < segments
        → IsBuilt g
            ((rings + 1) * (segments + 1))
            ((rings + 1) * (segments + 1))
            (sphere_part g fl radius rings segments)
    unfolding sphere_part
    sphere_part_lem radius rings segments z =
        let t = segments + 1 in
        let b = (rings + 1) * t in
        IsBuilt-count g (0 + b) b b _ (omega arith)
          (grid-keeps g (λ n st. IsGrown g n b st) (sphere_point g fl radius rings segments)
            (rings + 1) t 0 (new_strip g)
            (λ ring seg u x y h.
              sphere_point-IsGrown radius rings segments ring seg (0 + ring * t + seg) b u z
                (λ e.
                  let r = rows ring rings t (ground (arith, e, x)) in
                  let c : (rings + 1) * t ≡ rings * t + t = omega arith in omega arith)
                h)
            (new_strip-IsGrown b)).built

    cylinder_point-IsGrown :
        (radius height : g.Real) (rings segments ring seg n b : ℕ) (st : Strip g)
        → 0 < segments
        → ((ring == rings) ≡ false → n + segments + 1 < b)
        → IsGrown g n b st
        → IsGrown g (suc n) b (cylinder_point g fl radius height rings segments ring seg st)
    unfolding cylinder_point
    cylinder_point-IsGrown radius height rings segments ring seg n b st z l h =
        let hb = h.behind in
        let p = add_point-IsBuilt g n b _ _ _ _ st.part h.built in
        elim (Bool-cases (ring == rings)) [
          | inl e ↦ rw e (record { built = p; behind = omega arith })
          | inr e ↦
              let le = l e in
              rw e (
                advance-IsGrown g n b st.vertice_index _
                  (add_quad-IsBuilt (suc n) b segments st.vertice_index _ (omega arith) z p) hb)
        ]

    -- The indices of a fan around `v`, which stands behind a ring that starts at `o`.
    pub fan_index_lem :
        (o segments seg v : ℕ)
        → v ≡ o + segments + 1
        → v < 2 ^ 32
        → seg < segments
        → fan_index g fl v segments seg ≡ o + seg + 1
    fan_index_lem o segments seg v e l x = omega arith

    pub fan_before_lem :
        (o segments seg v : ℕ)
        → v ≡ o + segments + 1
        → v < 2 ^ 32
        → seg < segments
        → fan_before g fl v segments seg ≡ o + seg
    fan_before_lem o segments seg v e l x = omega arith

    -- A fan adds triangles of its vertices.
    abbrev pub IsFan : (ℕ → ℕ → ℕ → SubMesh g → SubMesh g) → Type 0
    IsFan fan =
        (n b o segments seg v : ℕ) (s : SubMesh g)
        → v ≡ o + segments + 1
        → v < 2 ^ 32
        → v < b
        → seg < segments
        → IsBuilt g n b s
        → IsBuilt g n b (fan v segments seg s)

    pub top_fan-IsFan : IsFan (top_fan g fl)
    unfolding top_fan
    top_fan-IsFan n b o segments seg v s e l m x h =
        let i = fan_index_lem o segments seg v e l x in
        let j = fan_before_lem o segments seg v e l x in
        add_triangle-IsBuilt g n b _ _ _ s m (omega arith) (omega arith) h

    bottom_fan-IsFan : IsFan (bottom_fan g fl)
    unfolding bottom_fan
    bottom_fan-IsFan n b o segments seg v s e l m x h =
        let i = fan_index_lem o segments seg v e l x in
        let j = fan_before_lem o segments seg v e l x in
        add_triangle-IsBuilt g n b _ _ _ s m (omega arith) (omega arith) h

    cap-IsBuilt :
        (fan : ℕ → ℕ → ℕ → SubMesh g → SubMesh g)
        → IsFan fan
        → (radius at_z up v : g.Real) (segments n b : ℕ) (s : SubMesh g) → n + segments + 2 ≤ b
        → n + segments + 2 < 2 ^ 32
        → IsBuilt g n b s
        → IsBuilt g (n + segments + 2) b (cap g fl fan radius at_z up v segments s)
    unfolding cap cap_point vertex_count count
    cap-IsBuilt fan f radius at_z up v segments n b s l w h =
        let r =
          rounds-keeps (λ k t. IsBuilt g (n + k) b t) (cap_point g fl radius at_z up v segments)
            (segments + 1) 0 s
            (λ k t x y q.
              IsBuilt-count g (suc (n + k)) (n + suc k) b _ (omega arith)
                (add_point-IsBuilt g (n + k) b _ _ _ _ t q))
            (IsBuilt-count g n (n + 0) b s (omega arith) h) in
        let c =
          IsBuilt-count g (suc (n + (0 + (segments + 1)))) (n + segments + 2) b _ (omega arith)
            (add_point-IsBuilt g (n + (0 + (segments + 1))) b _ _ _ _ _ r) in
        let cv = c.vertex in
        rounds-keeps (λ k t. IsBuilt g (n + segments + 2) b t) _ segments 0 _
          (λ k t x y q.
            f (n + segments + 2) b n segments k _ t (omega arith) (omega arith) (omega arith)
              (omega arith) q)
          c

    -- CreateCylinder with at least one segment and fewer than 2^32 vertices: the part has two rings
    -- and two middles more than a sphere, as many normals, and triangles of these vertices.
    pub cylinder_part_lem :
        (radius height : g.Real) (rings segments : ℕ)
        → 0 < segments
        → (rings + 3) * (segments + 1) + 2 < 2 ^ 32
        → IsBuilt g
            ((rings + 3) * (segments + 1) + 2)
            ((rings + 3) * (segments + 1) + 2)
            (cylinder_part g fl radius height rings segments)
    unfolding cylinder_part
    cylinder_part_lem radius height rings segments z w =
        let t = segments + 1 in
        let b = (rings + 3) * t + 2 in
        let n = 0 + (rings + 1) * t in
        let c : (rings + 1) * t ≡ rings * t + t = omega arith in
        let d : b ≡ rings * t + 3 * t + 2 = omega arith in
        let side =
          grid-keeps g (λ n st. IsGrown g n b st) (cylinder_point g fl radius height rings segments)
            (rings + 1) t 0 (new_strip g)
            (λ ring seg u x y h.
              cylinder_point-IsGrown radius height rings segments ring seg (0 + ring * t + seg) b u
                z (λ e. let r = rows ring rings t (ground (arith, e, x)) in omega arith) h)
            (new_strip-IsGrown b) in
        let top =
          cap-IsBuilt (top_fan g fl) top_fan-IsFan _ _ _ _ segments n b _ (omega arith)
            (omega arith) side.built in
        IsBuilt-count g (n + segments + 2 + segments + 2) b b _ (omega arith) (
          cap-IsBuilt (bottom_fan g fl) bottom_fan-IsFan _ _ _ _ segments (n + segments + 2) b _
            (omega arith) (omega arith) top)
