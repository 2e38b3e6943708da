-- ===== src/Mesh/Arrays.antt =====
-- FillArrays of graphics/src/Mesh.cc puts the parts of a mesh behind each other.
use ign_common.Common.{
  ℕ, zero, suc, ◌+◌, ◌*◌, ◌%◌, ◌^◌, ◌<◌, ◌≡◌, refl, sym, ◌∙◌, ap, true, false, Option, none, some,
  List, [], ◌∷◌, ◌++◌, map, leb, ltb, arith, length, get_elem?, get_or, drop, inl, inr,
  length-append, length-map,
}
use mathlib.Core.List.{append_assoc}
use ign_common.Common.Int.{ℤ, pos}
use ign_common.Mesh.SubMesh.{
  Geometry, SubMesh, to_int, to_unsigned, index, max_index, vertex_count, index_count, count,
}
use ign_common.Mesh.Shape.{fill_arrays, flat}
use ign_common.Mesh.Whole.{
  Mesh, index_loop, copied, behind, part_loop, mesh_fill_arrays, fitting, sum_counts,
}
use ign_common.Mesh.Lists.{List-cases, drop-step, drop-length, map-append, get_elem?-between}

abbrev pub AreBelow : ℕ → List ℕ → Type 0
AreBelow n [] = Unit
AreBelow n (i ∷ is) = (i < n) × AreBelow n is

AreBelow-get_or : (n : ℕ) (is : List ℕ) (k : ℕ) → AreBelow n is → k < length is → get_or is k 0 < n
AreBelow-get_or n [] k a h = absurd (omega arith)
AreBelow-get_or n (i ∷ is) zero a h = a.0
AreBelow-get_or n (i ∷ is) (suc k) a h = AreBelow-get_or n is k a.1 (omega arith)

module _ (g : Geometry) where
  open g use {Real, Vector}

  -- The indices are in range and the last vertex is used.
  pub record IsPacked (s : SubMesh g) : Type 0 where
    pub below : AreBelow (length s.vertices) s.indices
    pub last : max_index g s + 1 ≡ length s.vertices
    pub used : 0 < length s.indices
    pub short : length s.indices < 2 ^ 32

  abbrev pub ArePacked : List (SubMesh g) → Type 0
  ArePacked [] = Unit
  ArePacked (s ∷ ss) = IsPacked s × ArePacked ss

  abbrev pub all_vertices : List (SubMesh g) → List Vector
  all_vertices [] = []
  all_vertices (s ∷ ss) = s.vertices ++ all_vertices ss

  -- The indices of the parts, each past the vertices of the parts before it.
  abbrev shifted : ℕ → List (SubMesh g) → List ℕ
  shifted o [] = []
  shifted o (s ∷ ss) = map (λ i. i + o) s.indices ++ shifted (o + length s.vertices) ss

  -- The vertices at the indices of the parts.
  abbrev pub corners_of : List (SubMesh g) → List (Option Vector)
  corners_of [] = []
  corners_of (s ∷ ss) = map (get_elem? s.vertices) s.indices ++ corners_of ss

  flat-append : (us vs : List Vector) → flat g (us ++ vs) ≡ flat g us ++ flat g vs
  flat-append [] vs = refl
  flat-append (u ∷ us) vs = rw (flat-append us vs) refl

  fill_arrays-packed :
      (s : SubMesh g)
      → 0 < length s.vertices
      → 0 < length s.indices
      → (fill_arrays g s (record { vert_arr = none; ind_arr = none })).vert_arr
        ≡ some (flat g s.vertices)
  unfolding fill_arrays
  fill_arrays-packed s a b = elim (List-cases s.vertices) [
    | inl x ↦ absurd (omega (arith, ap (λ (l : List Vector). length l) x))
    | inr (v, vs, x) ↦ elim (List-cases s.indices) [
      | inl y ↦ absurd (omega (arith, ap (λ (l : List ℕ). length l) y))
      | inr (i, is, y) ↦ rw (x, y) refl
    ]
  ]

  copied-some : (n : ℕ) (arr : Option (List Real)) → 0 < n → copied g n arr ≡ arr
  copied-some zero arr h = absurd (omega arith)
  copied-some (suc n) arr h = refl

  -- One round of the loop over the indices.
  shift_index :
      (s : SubMesh g) (k o i : ℕ)
      → k < length s.indices
      → get_or s.indices k 0 ≡ i
      → i + o < 2 ^ 31
      → to_int ((to_unsigned (index g s k) + o) % 2 ^ 32) ≡ pos (i + o)
  unfolding index to_int to_unsigned
  shift_index s k o i h e l =
      let t : leb (length s.indices) k ≡ false = ground (arith, h) in
      let u : ltb i (2 ^ 31) ≡ true = ground (arith, l) in
      let v : i % 2 ^ 32 ≡ i = omega arith in
      let w : (i + o) % 2 ^ 32 ≡ i + o = omega arith in
      let x : ltb (i + o) (2 ^ 31) ≡ true = ground (arith, l) in rw (t, e, u, v, w, x) refl

  index_loop-shifted :
      (s : SubMesh g) (n k o : ℕ)
      → n + k ≡ length s.indices
      → AreBelow (length s.vertices) s.indices
      → o + length s.vertices < 2 ^ 31
      → index_loop g n k o s ≡ map pos (map (λ i. i + o) (drop k s.indices))
  unfolding index_loop
  index_loop-shifted s zero k o e b l =
      ap (λ (is : List ℕ). map pos (map (λ i. i + o) is))
        (sym (drop-length s.indices k (omega arith)))
  index_loop-shifted s (suc n) k o e b l =
      let i = get_or s.indices k 0 in
      let m = AreBelow-get_or (length s.vertices) s.indices k b (omega arith) in
      let rest = index_loop-shifted s n (k + 1) o (omega arith) b l in
      rw (shift_index s k o i (omega arith) refl (omega arith), rest)
        (ap (λ (is : List ℕ). map pos (map (λ i. i + o) is))
          (sym (drop-step 0 s.indices k (omega arith))))

  part_loop-shifted :
      (ss : List (SubMesh g)) (o : ℕ)
      → ArePacked ss
      → o + length (all_vertices ss) < 2 ^ 31
      → part_loop g ss o ≡ some (flat g (all_vertices ss), map pos (shifted o ss))
  unfolding part_loop vertex_count index_count count
  part_loop-shifted [] o p l = refl
  part_loop-shifted (s ∷ ss) o (p, ps) l =
      let n = length s.vertices in
      let c = length-append s.vertices (all_vertices ss) in
      let pl = p.last in
      let pu = p.used in
      let psh = p.short in
      let off : (o + max_index g s + 1) % 2 ^ 32 ≡ o + n = omega arith in
      let vc : n % 2 ^ 32 ≡ n = omega arith in
      let ic : length s.indices % 2 ^ 32 ≡ length s.indices = omega arith in
      let rest = part_loop-shifted ss (o + n) ps (omega arith) in
      let fl = flat g s.vertices in
      let own = map pos (map (λ i. i + o) s.indices) in
      let next = part_loop g ss ((o + max_index g s + 1) % 2 ^ 32) in
      let got = (fill_arrays g s (record { vert_arr = none; ind_arr = none })).vert_arr in
      let first =
        copied-some (n % 2 ^ 32 * 3) got (omega arith) ∙ fill_arrays-packed s (omega arith) pu in
      let is =
        ap (λ (k : ℕ). index_loop g k 0 o s) ic
        ∙ index_loop-shifted s (length s.indices) 0 o (omega arith) p.below (omega arith) in
      ap
        (λ (x : Option (List Real)).
          behind g x (index_loop g (length s.indices % 2 ^ 32) 0 o s) next)
        first
      ∙ ap (λ (x : List ℤ). behind g (some fl) x next) is
      ∙ ap (behind g (some fl) own) (ap (part_loop g ss) off ∙ rest)
      ∙ rw
          (
            flat-append s.vertices (all_vertices ss),
            map-append pos (map (λ i. i + o) s.indices) (shifted (o + n) ss),
          )
          refl

  map-between :
      (us xs ys : List Vector) (is : List ℕ)
      → AreBelow (length xs) is
      → map (get_elem? (us ++ xs ++ ys)) (map (λ i. i + length us) is) ≡ map (get_elem? xs) is
  map-between us xs ys [] b = refl
  map-between us xs ys (i ∷ is) b =
      rw (get_elem?-between us xs ys i b.0, map-between us xs ys is b.1) refl

  shifted-corners_of :
      (us : List Vector) (ss : List (SubMesh g)) (o : ℕ)
      → o ≡ length us
      → ArePacked ss
      → map (get_elem? (us ++ all_vertices ss)) (shifted o ss) ≡ corners_of ss
  shifted-corners_of us [] o e p = refl
  shifted-corners_of us (s ∷ ss) o e (p, ps) =
      let vs = s.vertices in
      let c = length-append us vs in
      let rest = shifted-corners_of (us ++ vs) ss (o + length vs) (omega arith) ps in
      let a = append_assoc us vs (all_vertices ss) in
      let at_all = get_elem? (us ++ vs ++ all_vertices ss) in
      let later = shifted (o + length vs) ss in
      ap (λ (l : List Vector). map (get_elem? l) (shifted o (s ∷ ss))) (sym a)
      ∙ map-append at_all (map (λ i. i + o) s.indices) later
      ∙ ap (λ (l : List (Option Vector)). l ++ map at_all later)
          (ap (λ (k : ℕ). map at_all (map (λ i. i + k) s.indices)) e
            ∙ map-between us vs (all_vertices ss) s.indices p.below)
      ∙ ap (λ (l : List (Option Vector)). map (get_elem? vs) s.indices ++ l) rest

  sum_counts-total :
      (ss : List (SubMesh g)) (a : ℕ)
      → ArePacked ss
      → (a + length (all_vertices ss)) < 2 ^ 32
      → sum_counts g (vertex_count g) ss a ≡ a + length (all_vertices ss)
  unfolding sum_counts vertex_count count
  sum_counts-total [] a p l = omega arith
  sum_counts-total (s ∷ ss) a (p, ps) l =
      let n = length s.vertices in
      let c = length-append s.vertices (all_vertices ss) in
      let e : (a + n % 2 ^ 32) % 2 ^ 32 ≡ a + n = omega arith in
      ap (sum_counts g (vertex_count g) ss) e
      ∙ sum_counts-total ss (a + n) ps (omega arith)
      ∙ omega arith

  sum_counts-corners :
      (ss : List (SubMesh g)) (a : ℕ)
      → a + length (corners_of ss) < 2 ^ 32
      → sum_counts g (index_count g) ss a ≡ a + length (corners_of ss)
  unfolding sum_counts index_count count
  sum_counts-corners [] a l = omega arith
  sum_counts-corners (s ∷ ss) a l =
      let n = length s.indices in
      let c = length-append (map (get_elem? s.vertices) s.indices) (corners_of ss) in
      let d = length-map s.indices (get_elem? s.vertices) in
      let e : (a + n % 2 ^ 32) % 2 ^ 32 ≡ a + n = omega arith in
      ap (sum_counts g (index_count g) ss) e
      ∙ sum_counts-corners ss (a + n) (omega arith)
      ∙ omega arith

  length-flat : (vs : List Vector) → length (flat g vs) ≡ length vs * 3
  length-flat [] = refl
  length-flat (v ∷ vs) = omega (arith, length-flat vs)

  length-shifted : (ss : List (SubMesh g)) (o : ℕ) → length (shifted o ss) ≡ length (corners_of ss)
  length-shifted [] o = refl
  length-shifted (s ∷ ss) o =
      rw
        (
          length-append (map (λ i. i + o) s.indices) (shifted (o + length s.vertices) ss),
          length-append (map (get_elem? s.vertices) s.indices) (corners_of ss),
          length-map s.indices (λ i. i + o),
          length-map s.indices (get_elem? s.vertices),
          length-shifted ss (o + length s.vertices),
        )
        refl

  fitting-some :
      (verts inds : ℕ) (vs : List Real) (is : List ℤ)
      → length vs ≡ verts
      → length is ≡ inds
      → fitting g verts inds (some (vs, is))
        ≡ some (record { vert_arr = some vs; ind_arr = some is })
  fitting-some verts inds vs is a b =
      let x : leb (length vs) verts ≡ true = ground (arith, a) in
      let y : leb (length is) inds ≡ true = ground (arith, b) in rw (x, y) refl

  -- FillArrays of a mesh whose parts each have indices, all in range and the last vertex among them, with fewer than 2^32 coordinates and fewer than 2^32
  -- indices together: it is defined, its vertex array holds the vertices of the parts, and each index of
  -- the index array names there the vertex that it names in its part.
  pub mesh_fill_arrays_lem :
      (m : Mesh g)
      → ArePacked m.submeshes
      → length (all_vertices m.submeshes) * 3 < 2 ^ 32
      → length (corners_of m.submeshes) < 2 ^ 32
      → (is : List ℕ) × (mesh_fill_arrays g m
          ≡ some (record {
            vert_arr = some (flat g (all_vertices m.submeshes));
            ind_arr = some (map pos is);
          }))
        × (map (get_elem? (all_vertices m.submeshes)) is ≡ corners_of m.submeshes)
  unfolding mesh_fill_arrays
  mesh_fill_arrays_lem m p l k =
      let ss = m.submeshes in
      let e = part_loop-shifted ss 0 p (omega arith) in
      let vc = sum_counts-total ss 0 p (omega arith) in
      let ic = sum_counts-corners ss 0 (omega arith) in
      let fl = length-flat (all_vertices ss) in
      (
        shifted 0 ss,
        ap (fitting g _ _) e
            ∙ fitting-some _ _ (flat g (all_vertices ss)) (map pos (shifted 0 ss)) (omega arith)
                (length-map (shifted 0 ss) pos ∙ length-shifted ss 0 ∙ omega (arith, ic)),
        shifted-corners_of [] ss 0 refl p,
      )
