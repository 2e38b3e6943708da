-- ===== src/MeshManager/Tubular.antt =====
-- The indices of the tube of graphics/src/MeshManager.cc.
use ign_common.Common.{
  ℕ, suc, ◌+◌, ◌-◌, ◌*◌, ◌≤◌, ◌<◌, ◌≡◌, refl, ap, true, false, arith, ◌==◌, if◌then◌else◌, inl, inr,
  Bool-cases, ltb,
}
use ign_common.Mesh.SubMesh.{Geometry, SubMesh}
use ign_common.MeshManager.Strips.{Floats, Strip, new_strip, add_triangle}
use ign_common.MeshManager.Cones.{
  tube_side, tube_top, tube_bottom, tube_vertex, outer_point, inner_point, close_ends, at_least_one,
  at_least_three, tube_part,
}
use ign_common.MeshManager.Built.{
  IsBuilt, IsBuilt-count, IsGrown, rounds-keeps, grid-keeps, rows, mono, add_point-IsBuilt,
  add_triangle-IsBuilt, advance-IsGrown,
}
use ign_common.MeshManager.Round.{new_strip-IsGrown}
use ign_common.MeshManager.Conical.{at_least_three-positive}

module _ (g : Geometry) (fl : Floats g) where
  tube_side-IsBuilt :
      (segments seg v n b : ℕ) (s : SubMesh g)
      → v + segments + 1 < b
      → 0 < segments
      → IsBuilt g n b s
      → IsBuilt g n b (tube_side g fl segments seg v s)
  unfolding tube_side
  tube_side-IsBuilt segments seg v n b s l z h = elim (Bool-cases (seg == 0)) [
    | inl e ↦ elim (Bool-cases (seg == segments)) [
      | inl d ↦ rw (e, d) h
      | inr d ↦ rw (e, d) (second n b v segments s l z h)
    ]
    | inr e ↦ elim (Bool-cases (seg == segments)) [
      | inl d ↦ rw (e, d) (first n b v segments s l z h)
      | inr d ↦ rw (e, d) (second n b v segments _ l z (first n b v segments s l z h))
    ]
  ]
    where
      first :
          (n b v segments : ℕ) (s : SubMesh g)
          → v + segments + 1 < b
          → 0 < segments
          → IsBuilt g n b s
          → IsBuilt g n b (add_triangle g (v + segments + 1) v (v + segments) s)
      first n b v segments s l z h =
          add_triangle-IsBuilt g n b _ _ _ s l (omega arith) (omega arith) h

      second :
          (n b v segments : ℕ) (s : SubMesh g)
          → v + segments + 1 < b
          → 0 < segments
          → IsBuilt g n b s
          → IsBuilt g n b (add_triangle g (v + segments + 1) (v + 1) v s)
      second n b v segments s l z h =
          add_triangle-IsBuilt g n b _ _ _ s l (omega arith) (omega arith) h

  tube_top-IsBuilt :
      (segments seg v n b : ℕ) (s : SubMesh g)
      → ((seg == segments) ≡ false → v + segments + 2 < b)
      → IsBuilt g n b s
      → IsBuilt g n b (tube_top g fl segments seg v s)
  unfolding tube_top
  tube_top-IsBuilt segments seg v n b s l h = elim (Bool-cases (seg == segments)) [
    | inl e ↦ rw e h
    | inr e ↦
        let le = l e in
        rw e (
          add_triangle-IsBuilt g n b _ _ _ _ (omega arith) (omega arith) (omega arith)
            (add_triangle-IsBuilt g n b _ _ _ s (omega arith) (omega arith) (omega arith) h))
  ]

  tube_bottom-IsBuilt :
      (rings segments seg v n b : ℕ) (s : SubMesh g)
      → (ltb seg segments ≡ true → v + (segments + 1) * ((rings + 1) * 2 - 1) + 1 < b)
      → 0 < b
      → v + 1 < b
      → IsBuilt g n b s
      → IsBuilt g n b (tube_bottom g fl rings segments seg v s)
  unfolding tube_bottom
  tube_bottom-IsBuilt rings segments seg v n b s l z o h = elim (Bool-cases (ltb seg segments)) [
    | inr e ↦ rw e h
    | inl e ↦
        let le = l e in
        rw e (
          add_triangle-IsBuilt g n b _ _ _ _ le (omega arith) o
            (add_triangle-IsBuilt g n b _ _ _ s o (omega arith) (omega arith) h))
  ]

  -- The vertex `n` of the first grid: its segment and its ring.
  record IsPlace (rings segments ring seg n b : ℕ) : Type 0 where
    pub within : seg ≤ segments
    pub ring_within : ring ≤ rings
    pub place : n ≡ ring * (segments + 1) + seg
    pub all : b ≡ 2 * ((rings + 1) * (segments + 1))

  outer_sides-IsBuilt :
      (rings segments ring seg n b v : ℕ) (s : SubMesh g)
      → IsPlace rings segments ring seg n b
      → 0 < segments
      → v ≤ n
      → IsBuilt g (suc n) b s
      → IsBuilt g (suc n) b (
          if ring == rings then tube_top g fl segments seg v s else tube_side g fl segments seg v s)
  outer_sides-IsBuilt rings segments ring seg n b v s p z l h =
      let px = p.within in
      let pr = p.ring_within in
      let pe = p.place in
      let pb = p.all in
      let t = segments + 1 in
      let c : b ≡ 2 * (rings * t) + 2 * t = omega arith in
      elim (Bool-cases (ring == rings)) [
        | inl e ↦
            let k : ring ≡ rings = ground (arith, e) in
            let m : ring * t ≡ rings * t = ap (λ j. j * t) k in
            rw e (
              tube_top-IsBuilt segments seg v (suc n) b s
                (λ d. let y : seg < segments = ground (arith, d, px) in omega arith) h)
        | inr e ↦
            let y : ring < rings = ground (arith, e, pr) in
            let m = rows ring rings t y in
            rw e (tube_side-IsBuilt segments seg v (suc n) b s (omega arith) z h)
      ]

  outer_bottom-IsBuilt :
      (rings segments ring seg n b v : ℕ) (s : SubMesh g)
      → IsPlace rings segments ring seg n b
      → v ≤ n
      → IsBuilt g (suc n) b s
      → IsBuilt g (suc n) b (if ring == 0 then tube_bottom g fl rings segments seg v s else s)
  outer_bottom-IsBuilt rings segments ring seg n b v s p l h =
      let px = p.within in
      let pe = p.place in
      let pb = p.all in
      let t = segments + 1 in
      let c : b ≡ 2 * (rings * t) + 2 * t = omega arith in
      elim (Bool-cases (ring == 0)) [
        | inr e ↦ rw e h
        | inl e ↦
            let k : ring ≡ 0 = ground (arith, e) in
            let m : ring * t ≡ 0 * t = ap (λ j. j * t) k in
            let d : (rings + 1) * 2 - 1 ≡ 2 * rings + 1 = omega arith in
            let f : t * ((rings + 1) * 2 - 1) ≡ t * (2 * rings + 1) = ap (λ j. t * j) d in
            let q : t * (2 * rings + 1) ≡ 2 * (rings * t) + t = omega arith in
            rw e (
              tube_bottom-IsBuilt rings segments seg v (suc n) b s
                (λ u. let y : seg < segments = ground (arith, u) in omega arith) (omega arith)
                (omega arith) h)
      ]

  outer_point-IsGrown :
      (arc radius height : g.Real) (rings segments ring seg n b : ℕ) (st : Strip g)
      → IsPlace rings segments ring seg n b
      → 0 < segments
      → IsGrown g n b st
      → IsGrown g (suc n) b (outer_point g fl arc radius height rings segments ring seg st)
  unfolding outer_point tube_vertex
  outer_point-IsGrown arc radius height rings segments ring seg n b st p z h =
      let v = st.vertice_index in
      let q = add_point-IsBuilt g n b _ _ _ _ st.part h.built in
      advance-IsGrown g n b v _
        (outer_bottom-IsBuilt rings segments ring seg n b v _ p h.behind
          (outer_sides-IsBuilt rings segments ring seg n b v _ p z h.behind q))
        h.behind

  inner_point-IsGrown :
      (arc radius height : g.Real) (rings segments ring seg n b : ℕ) (st : Strip g)
      → 0 < segments
      → ((ring == rings) ≡ false → n + segments + 1 < b)
      → IsGrown g n b st
      → IsGrown g (suc n) b (inner_point g fl arc radius height rings segments ring seg st)
  unfolding inner_point tube_vertex
  inner_point-IsGrown arc radius height rings segments ring seg n b st z l h =
      let hb = h.behind in
      let p = add_point-IsBuilt g n b _ _ _ _ st.part h.built in
      elim (Bool-cases (ring == rings)) [
        | inl e ↦ rw e (advance-IsGrown g n b st.vertice_index _ p hb)
        | inr e ↦
            let le = l e in
            rw e (
              advance-IsGrown g n b st.vertice_index _
                (tube_side-IsBuilt segments seg st.vertice_index (suc n) b _ (omega arith) z p) hb)
      ]

  close_ends-IsBuilt :
      (rings segments ring n b : ℕ) (s : SubMesh g)
      → ring < rings
      → b ≡ 2 * ((rings + 1) * (segments + 1))
      → IsBuilt g n b s
      → IsBuilt g n b (close_ends g fl rings segments ring s)
  unfolding close_ends
  close_ends-IsBuilt rings segments ring n b s l e h =
      let t = segments + 1 in
      let c : b ≡ t * (2 * rings + 1) + t = omega arith in
      let near = mono ((rings + 1) * 2 - 1 - ring) (2 * rings + 1) t (omega arith) in
      let far = mono ((rings + 1) * 2 - 2 - ring) (2 * rings + 1) t (omega arith) in
      let up = mono (ring + 1) (2 * rings + 1) t (omega arith) in
      let down = mono ring (2 * rings + 1) t (omega arith) in
      add_triangle-IsBuilt g n b _ _ _ _ (omega arith) (omega arith) (omega arith) (
        add_triangle-IsBuilt g n b _ _ _ _ (omega arith) (omega arith) (omega arith) (
          add_triangle-IsBuilt g n b _ _ _ _ (omega arith) (omega arith) (omega arith)
            (add_triangle-IsBuilt g n b _ _ _ s (omega arith) (omega arith) (omega arith) h)))

  -- CreateTube before RecalculateNormals: with the counts of rings and segments that it uses, the part
  -- has two grids of vertices, as many normals, and triangles of these vertices.
  pub tube_part_lem :
      (inner_radius outer_radius height : g.Real) (rings segments : ℕ) (arc : g.Real)
      → IsBuilt g
          (2 * ((at_least_one rings + 1) * (at_least_three segments + 1)))
          (2 * ((at_least_one rings + 1) * (at_least_three segments + 1)))
          (tube_part g fl inner_radius outer_radius height rings segments arc)
  unfolding tube_part
  tube_part_lem inner_radius outer_radius height rings_ segments_ arc =
      let rings = at_least_one rings_ in
      let segments = at_least_three segments_ in
      let z = at_least_three-positive segments_ in
      let t = segments + 1 in
      let n = (rings + 1) * t in
      let b = 2 * n in
      let c : n ≡ rings * t + t = omega arith in
      let outer =
        grid-keeps g (λ m st. IsGrown g m b st)
          (outer_point g fl arc outer_radius height rings segments) (rings + 1) t 0 (new_strip g)
          (λ ring seg u x y h.
            outer_point-IsGrown arc outer_radius height rings segments ring seg (0 + ring * t + seg)
              b u
              (record {
                within = omega arith;
                ring_within = omega arith;
                place = omega arith;
                all = refl;
              })
              z h)
          (new_strip-IsGrown g b) in
      let inner =
        grid-keeps g (λ m st. IsGrown g m b st)
          (inner_point g fl arc inner_radius height rings segments) (rings + 1) t (0 + n) _
          (λ ring seg u x y h.
            inner_point-IsGrown arc inner_radius height rings segments ring seg
              (0 + n + ring * t + seg) b u z
              (λ e. let r = rows ring rings t (ground (arith, e, x)) in omega arith) h)
          outer in
      let built = IsBuilt-count g (0 + n + n) b b _ (omega arith) inner.built in
      elim (Bool-cases (fl.is_full_turn arc)) [
        | inl e ↦ rw e built
        | inr e ↦ rw e (
            rounds-keeps (λ k s. IsBuilt g b b s) (close_ends g fl rings segments) rings 0 _
              (λ k s x y h. close_ends-IsBuilt rings segments k b b s (omega arith) refl h) built)
      ]
