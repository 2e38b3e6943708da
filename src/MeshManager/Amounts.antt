-- ===== src/MeshManager/Amounts.antt =====
-- The number of indices of the tube of graphics/src/MeshManager.cc.
use ign_common.Common.{
  ℕ, zero, suc, ◌+◌, ◌*◌, ◌≤◌, ◌≡◌, refl, true, false, arith, ◌==◌, ltb, if◌then◌else◌, length,
  length-append, inl, inr, Bool, Bool-cases,
}
use ign_common.Mesh.SubMesh.{Geometry, SubMesh, add_vertex, add_normal, add_tex_coord_uv, add_index}
use ign_common.MeshManager.Strips.{
  Floats, Strip, rounds, add_triangle, add_point, new_strip, ring_z,
}
use ign_common.MeshManager.Cones.{
  tube_side, tube_top, tube_bottom, tube_vertex, outer_point, inner_point, close_ends, at_least_one,
  at_least_three, tube_part,
}
use ign_common.MeshManager.Built.{mono}

at_least_three-four : (n : ℕ) → 4 ≤ at_least_three n + 1
unfolding at_least_three
at_least_three-four n = ground arith

-- Rounds that each add no more than an amount.
rounds-bounded :
    {S : Type 0} (size : S → ℕ) (f : ℕ → S → S) (c n i : ℕ) (s : S)
    → ((k : ℕ) (t : S) → size (f k t) ≤ size t + c)
    → size (rounds f n i s) ≤ size s + n * c
unfolding rounds
rounds-bounded size f c zero i s k = omega arith
rounds-bounded size f c (suc n) i s k =
    omega (arith, rounds-bounded size f c n (suc i) (f i s) k, k i s)

module _ (g : Geometry) (fl : Floats g) where
  abbrev amount : SubMesh g → ℕ
  amount s = length s.indices

  triangle-amount : (i j k : ℕ) (s : SubMesh g) → amount (add_triangle g i j k s) ≡ amount s + 3
  unfolding add_triangle add_index
  triangle-amount i j k s = rw (length-append, length-append, length-append) (omega arith)

  either-amount :
      (b : Bool) (x y s : SubMesh g) (c : ℕ)
      → amount x ≤ amount s + c
      → amount y ≤ amount s + c
      → amount (if b then x else y) ≤ amount s + c
  either-amount true x y s c h k = h
  either-amount false x y s c h k = k

  two_triangles :
      (i j k a b c : ℕ) (s : SubMesh g)
      → amount (add_triangle g i j k (add_triangle g a b c s)) ≤ amount s + 6
  two_triangles i j k a b c s =
      omega (arith, triangle-amount i j k (add_triangle g a b c s), triangle-amount a b c s)

  tube_side-amount :
      (segments seg v : ℕ) (s : SubMesh g) → amount (tube_side g fl segments seg v s) ≤ amount s + 6
  unfolding tube_side
  tube_side-amount segments seg v s =
      let w = v + segments in
      let first = add_triangle g (w + 1) v w s in
      let t = if seg == 0 then s else first in
      let p : amount t ≤ amount s + 3 =
        either-amount (seg == 0) s first s 3 (omega arith)
          (omega (arith, triangle-amount (w + 1) v w s)) in
      either-amount (seg == segments) t (add_triangle g (w + 1) (v + 1) v t) s 6 (omega arith)
        (omega (arith, triangle-amount (w + 1) (v + 1) v t))

  tube_top-amount :
      (segments seg v : ℕ) (s : SubMesh g) → amount (tube_top g fl segments seg v s) ≤ amount s + 6
  unfolding tube_top
  tube_top-amount segments seg v s =
      either-amount (seg == segments) s _ s 6 (omega arith) (two_triangles _ _ _ _ _ _ s)

  tube_bottom-amount :
      (rings segments seg v : ℕ) (s : SubMesh g)
      → amount (tube_bottom g fl rings segments seg v s) ≤ amount s + 6
  unfolding tube_bottom
  tube_bottom-amount rings segments seg v s =
      either-amount (ltb seg segments) _ s s 6 (two_triangles _ _ _ _ _ _ s) (omega arith)

  tube_vertex-amount :
      (arc radius at_z : g.Real) (rings segments ring seg : ℕ) (s : SubMesh g)
      → amount (tube_vertex g fl arc radius at_z rings segments ring seg s) ≡ amount s
  unfolding tube_vertex add_point add_vertex add_normal add_tex_coord_uv
  tube_vertex-amount arc radius at_z rings segments ring seg s = refl

  outer_point-amount :
      (arc radius height : g.Real) (rings segments ring seg : ℕ) (st : Strip g)
      → amount (outer_point g fl arc radius height rings segments ring seg st).part
        ≤ amount st.part + 12
  unfolding outer_point
  outer_point-amount arc radius height rings segments ring seg st =
      let v = st.vertice_index in
      let at_z = ring_z g fl height rings ring in
      let s = tube_vertex g fl arc radius at_z rings segments ring seg st.part in
      let top = tube_top g fl segments seg v s in
      let side = tube_side g fl segments seg v s in
      let t = if ring == rings then top else side in
      let p =
        either-amount (ring == rings) top side s 6 (tube_top-amount segments seg v s)
          (tube_side-amount segments seg v s) in
      let q = tube_bottom-amount rings segments seg v t in
      let r =
        either-amount (ring == 0) (tube_bottom g fl rings segments seg v t) t s 12
          (omega (arith, p, q)) (omega (arith, p)) in
      omega (arith, r, tube_vertex-amount arc radius at_z rings segments ring seg st.part)

  inner_point-amount :
      (arc radius height : g.Real) (rings segments ring seg : ℕ) (st : Strip g)
      → amount (inner_point g fl arc radius height rings segments ring seg st).part
        ≤ amount st.part + 6
  unfolding inner_point
  inner_point-amount arc radius height rings segments ring seg st =
      let at_z =
        g.sub (g.div height (g.number 2))
          (fl.fdiv (fl.fmul (g.number ring) height) (g.number rings)) in
      let s = tube_vertex g fl arc radius at_z rings segments ring seg st.part in
      let r =
        either-amount (ring == rings) s (tube_side g fl segments seg st.vertice_index s) s 6
          (omega arith) (tube_side-amount segments seg st.vertice_index s) in
      omega (arith, r, tube_vertex-amount arc radius at_z rings segments ring seg st.part)

  close_ends-amount :
      (rings segments ring : ℕ) (s : SubMesh g)
      → amount (close_ends g fl rings segments ring s) ≤ amount s + 12
  unfolding close_ends
  close_ends-amount rings segments ring s =
      rw (triangle-amount, triangle-amount, triangle-amount, triangle-amount) (omega arith)

  -- CreateTube adds no more than 21 indices for each vertex of one of its two grids.
  pub tube_part-amount :
      (inner_radius outer_radius height : g.Real) (rings segments : ℕ) (arc : g.Real)
      → amount (tube_part g fl inner_radius outer_radius height rings segments arc)
        ≤ 21 * ((at_least_one rings + 1) * (at_least_three segments + 1))
  unfolding tube_part
  tube_part-amount inner_radius outer_radius height rings_ segments_ arc =
      let rings = at_least_one rings_ in
      let segments = at_least_three segments_ in
      let t = segments + 1 in
      let size : Strip g → ℕ = λ st. amount st.part in
      let outer_row = outer_point g fl arc outer_radius height rings segments in
      let inner_row = inner_point g fl arc inner_radius height rings segments in
      let outer = rounds (λ ring st. rounds (outer_row ring) t 0 st) (rings + 1) 0 (new_strip g) in
      let inner = rounds (λ ring st. rounds (inner_row ring) t 0 st) (rings + 1) 0 outer in
      let a =
        rounds-bounded size (λ ring st. rounds (outer_row ring) t 0 st) (t * 12) (rings + 1) 0
          (new_strip g)
          (λ k u.
            rounds-bounded size (outer_row k) 12 t 0 u
              (λ j w. outer_point-amount arc outer_radius height rings segments k j w)) in
      let b =
        rounds-bounded size (λ ring st. rounds (inner_row ring) t 0 st) (t * 6) (rings + 1) 0 outer
          (λ k u.
            rounds-bounded size (inner_row k) 6 t 0 u
              (λ j w. inner_point-amount arc inner_radius height rings segments k j w)) in
      let c =
        rounds-bounded amount (close_ends g fl rings segments) 12 rings 0 inner.part
          (λ k u. close_ends-amount rings segments k u) in
      let four = mono 4 t (rings + 1) (at_least_three-four segments_) in
      elim (Bool-cases (fl.is_full_turn arc)) [
        | inl e ↦ rw e (omega arith)
        | inr e ↦ rw e (omega arith)
      ]
