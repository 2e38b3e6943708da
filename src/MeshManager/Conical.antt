-- ===== src/MeshManager/Conical.antt =====
-- The indices of the cone of graphics/src/MeshManager.cc.
use ign_common.Common.{
  ℕ, zero, suc, ◌+◌, ◌-◌, ◌*◌, ◌/◌, ◌^◌, ◌≤◌, ◌<◌, ◌≡◌, refl, ap, true, false, arith, ◌==◌, length,
  inl, inr, Bool-cases, leb, length-set,
}
use ign_common.Mesh.SubMesh.{Geometry, SubMesh, index_count, set_normal, put}
use ign_common.MeshManager.Strips.{Floats, Strip, new_strip}
use ign_common.MeshManager.Cones.{
  cone_point, base_fan, fix_normal, fix_normals, cone_caps, at_least_three, cone_part,
}
use ign_common.MeshManager.Built.{
  IsBuilt, IsBuilt-count, rounds-keeps, grid-keeps, rows, add_point-IsBuilt, add_triangle-IsBuilt,
}
use ign_common.MeshManager.Round.{add_quad-IsBuilt, new_strip-IsGrown, top_fan-IsFan}

pub at_least_three-positive : (segments : ℕ) → 0 < at_least_three segments
unfolding at_least_three
at_least_three-positive segments = ground arith

module _ (g : Geometry) (fl : Floats g) where
  -- A strip of the cone: the next index stops at the first vertex of the last ring.
  record IsConical (last n b : ℕ) (st : Strip g) : Type 0 where
    pub built : IsBuilt g n b st.part
    pub before : n ≤ last → st.vertice_index ≡ n
    pub behind : last ≤ n → st.vertice_index ≡ last

  cone_point-IsConical :
      (radius height : g.Real) (rings segments ring seg last n b : ℕ) (st : Strip g)
      → 0 < segments
      → ((ring == rings - 1) ≡ true → last ≤ n)
      → ((ring == rings - 1) ≡ false → n < last)
      → last + segments + 1 ≤ b
      → last < 2 ^ 32
      → IsConical last n b st
      → IsConical last (suc n) b (cone_point g fl radius height rings segments ring seg st)
  unfolding cone_point
  cone_point-IsConical radius height rings segments ring seg last n b st z l k w c h =
      let p = add_point-IsBuilt g n b _ _ _ _ st.part h.built in
      elim (Bool-cases (ring == rings - 1)) [
        | inl e ↦
            let le = l e in
            let i = h.behind le in
            rw e (record { built = p; before = λ a. absurd (omega arith); behind = λ a. i })
        | inr e ↦
            let le = k e in
            let i = h.before (omega arith) in
            rw e (record {
              built = add_quad-IsBuilt g (suc n) b segments st.vertice_index _ (omega arith) z p;
              before = λ a. omega arith;
              behind = λ a. omega arith;
            })
      ]

  base_fan-IsBuilt :
      (n b v seg : ℕ) (s : SubMesh g)
      → v < b
      → seg + 1 < b
      → IsBuilt g n b s
      → IsBuilt g n b (base_fan g fl v seg s)
  unfolding base_fan
  base_fan-IsBuilt n b v seg s l m h =
      add_triangle-IsBuilt g n b v seg (seg + 1) s l (omega arith) m h

  set_normal-IsBuilt :
      (n b i : ℕ) (v : g.Vector) (s : SubMesh g)
      → IsBuilt g n b s
      → IsBuilt g n b (set_normal g i v s)
  unfolding set_normal put
  set_normal-IsBuilt n b i v s h =
      let hn = h.normal in
      record {
        vertex = h.vertex;
        normal = elim (Bool-cases (leb (length s.normals) i)) [
          | inl e ↦ rw e hn
          | inr e ↦ rw (e, length-set s.normals i v) hn
        ];
        faces = h.faces;
      }

  fix_normals-IsBuilt :
      (n b : ℕ) (s : SubMesh g) → IsBuilt g n b s → IsBuilt g n b (fix_normals g fl s)
  unfolding fix_normals fix_normal
  fix_normals-IsBuilt n b s h =
      rounds-keeps (λ k t. IsBuilt g n b t) (λ k t. fix_normal g fl (3 * k) t)
        ((index_count g s - 1) / 3) 0 s
        (λ k t x y q.
          set_normal-IsBuilt n b _ _ _
            (set_normal-IsBuilt n b _ _ _ (set_normal-IsBuilt n b _ _ _ q)))
        h

  cone_caps-IsBuilt :
      (height : g.Real) (segments n o b : ℕ) (st : Strip g)
      → b ≡ n + 2
      → n ≡ o + segments + 1
      → b < 2 ^ 32
      → st.vertice_index ≡ o
      → IsBuilt g n b st.part
      → IsBuilt g b b (cone_caps g fl height segments st)
  unfolding cone_caps
  cone_caps-IsBuilt height segments n o b st e f w v h =
      let p = add_point-IsBuilt g (suc n) b _ _ _ _ _ (add_point-IsBuilt g n b _ _ _ _ st.part h) in
      let q =
        rounds-keeps (λ k t. IsBuilt g (suc (suc n)) b t) _ segments 0 _
          (λ k t x y r.
            top_fan-IsFan g fl (suc (suc n)) b o segments k _ t (omega arith) (omega arith)
              (omega arith) (omega arith) r)
          p in
      IsBuilt-count g (suc (suc n)) b b _ (omega arith) (
        rounds-keeps (λ k t. IsBuilt g (suc (suc n)) b t) _ segments 0 _
          (λ k t x y r. base_fan-IsBuilt (suc (suc n)) b _ k t (omega arith) (omega arith) r) q)

  -- CreateCone with a ring and fewer than 2^32 vertices, before RecalculateNormals: the part has a
  -- vertex for each segment of each ring, the closing ones, the tip and the base, as many normals, and
  -- triangles of these vertices.
  pub cone_part_lem :
      (radius height : g.Real) (rings segments : ℕ)
      → 0 < rings
      → rings * (at_least_three segments + 1) + 2 < 2 ^ 32
      → IsBuilt g
          (rings * (at_least_three segments + 1) + 2)
          (rings * (at_least_three segments + 1) + 2)
          (cone_part g fl radius height rings segments)
  unfolding cone_part
  cone_part_lem radius height (suc r) segments l w =
      let n = at_least_three segments in
      let t = n + 1 in
      let b = suc r * t + 2 in
      let last = r * t in
      let c : suc r * t ≡ r * t + t = omega arith in
      let z : 0 < n = at_least_three-positive segments in
      let side =
        grid-keeps g (λ m st. IsConical last m b st) (cone_point g fl radius height (suc r) n)
          (suc r) t 0 (new_strip g)
          (λ ring seg u x y h.
            cone_point-IsConical radius height (suc r) n ring seg last (0 + ring * t + seg) b u z
              (λ e.
                let k : ring ≡ r = ground (arith, e) in
                let m : ring * t ≡ r * t = ap (λ j. j * t) k in omega arith)
              (λ e. let m = rows ring r t (ground (arith, e, x)) in omega arith) (omega arith)
              (omega arith) h)
          (record {
            built = (new_strip-IsGrown g b).built;
            before = λ a. refl;
            behind = λ a. omega arith;
          }) in
      let at_last = side.behind (omega arith) in
      fix_normals-IsBuilt b b _ (
        cone_caps-IsBuilt height n (0 + suc r * t) last b _ (omega arith) (omega arith)
          (omega arith) at_last side.built)
  cone_part_lem radius height zero segments l w = absurd (omega arith)
