-- ===== src/MeshManager/Built.antt =====
-- What the loops of graphics/src/MeshManager.cc keep of the part that they build.
use ign_common.Common.{
  ℕ, zero, suc, ◌+◌, ◌*◌, ◌≤◌, ◌<◌, ◌≡◌, ap, inl, inr, Bool-cases, List, [], ◌∷◌, ◌++◌, arith, ◌==◌,
  length, length-append,
}
use mathlib.Core.Path.{subst}
use ign_common.Mesh.SubMesh.{Geometry, SubMesh, add_vertex, add_normal, add_index, add_tex_coord_uv}
use ign_common.Mesh.Normals.{AreFaces}
use ign_common.MeshManager.Strips.{Strip, rounds, word, add_point, add_triangle, advance}

-- An invariant of the rounds of a loop.
pub rounds-keeps :
    {S : Type 0} (P : ℕ → S → Type 0) (f : ℕ → S → S) (n i : ℕ) (s : S)
    → ((k : ℕ) (t : S) → i ≤ k → k < i + n → P k t → P (suc k) (f k t))
    → P i s
    → P (i + n) (rounds f n i s)
unfolding rounds
rounds-keeps P f zero i s k p = let e : i ≡ i + 0 = omega arith in subst (λ m. P m s) e p
rounds-keeps P f (suc n) i s k p =
    let e : suc i + n ≡ i + suc n = omega arith in
    subst (λ m. P m (rounds f n (suc i) (f i s))) e
      (rounds-keeps P f n (suc i) (f i s) (λ j t a b q. k j t (omega arith) (omega arith) q)
        (k i s (omega arith) (omega arith) p))

pub rows : (i n t : ℕ) → i < n → i * t + t ≤ n * t
rows i zero t l = absurd (omega arith)
rows i (suc n) t l = elim (Bool-cases (i == n)) [
  | inl e ↦
      let k : i ≡ n = ground (arith, e) in let m : i * t ≡ n * t = ap (λ j. j * t) k in omega arith
  | inr e ↦ let m = rows i n t (ground (arith, e, l)) in omega arith
]

pub mono : (a b t : ℕ) → a ≤ b → t * a ≤ t * b
mono a b t l = let r = rows a (suc b) t (omega arith) in omega arith

AreFaces-triangle :
    (n a b c : ℕ) (is : List ℕ)
    → AreFaces n is
    → a < n
    → b < n
    → c < n
    → AreFaces n (is ++ a ∷ [] ++ b ∷ [] ++ c ∷ [])
AreFaces-triangle n a b c [] f x y z = (x, y, z, tt)
AreFaces-triangle n a b c (i ∷ []) f x y z = absurd f
AreFaces-triangle n a b c (i ∷ j ∷ []) f x y z = absurd f
AreFaces-triangle n a b c (i ∷ j ∷ k ∷ is) (u, v, w, f) x y z =
    (u, v, w, AreFaces-triangle n a b c is f x y z)

pub word_le : (n : ℕ) → word n ≤ n
word_le n = omega arith

module _ (g : Geometry) where
  -- A part with `n` vertices and normals, whose indices are faces below `b`.
  pub record IsBuilt (n b : ℕ) (s : SubMesh g) : Type 0 where
    pub vertex : length s.vertices ≡ n
    pub normal : length s.normals ≡ n
    pub faces : AreFaces b s.indices

  pub IsBuilt-count : (m n b : ℕ) (s : SubMesh g) → m ≡ n → IsBuilt m b s → IsBuilt n b s
  IsBuilt-count m n b s e = subst (λ k. IsBuilt k b s) e

  pub add_point-IsBuilt :
      (n b : ℕ) (v m : g.Vector) (p q : g.Real) (s : SubMesh g)
      → IsBuilt n b s
      → IsBuilt (suc n) b (add_point g v m p q s)
  unfolding add_point add_vertex add_normal add_tex_coord_uv
  add_point-IsBuilt n b v m p q s h =
      let hv = h.vertex in
      let hn = h.normal in
      record {
        vertex = omega (arith, length-append s.vertices (v ∷ []));
        normal = omega (arith, length-append s.normals (m ∷ []));
        faces = h.faces;
      }

  pub add_triangle-IsBuilt :
      (n b i j k : ℕ) (s : SubMesh g)
      → i < b
      → j < b
      → k < b
      → IsBuilt n b s
      → IsBuilt n b (add_triangle g i j k s)
  unfolding add_triangle add_index
  add_triangle-IsBuilt n b i j k s x y z h =
      let wi = word_le i in
      let wj = word_le j in
      let wk = word_le k in
      record {
        vertex = h.vertex;
        normal = h.normal;
        faces =
            AreFaces-triangle b (word i) (word j) (word k) s.indices h.faces (omega arith)
              (omega arith) (omega arith);
      }

  -- A strip whose next index is not past its vertices.
  pub record IsGrown (n b : ℕ) (st : Strip g) : Type 0 where
    pub built : IsBuilt n b st.part
    pub behind : st.vertice_index ≤ n

  pub advance-IsGrown :
      (n b v : ℕ) (s : SubMesh g) → IsBuilt (suc n) b s → v ≤ n → IsGrown (suc n) b (advance g s v)
  advance-IsGrown n b v s h l =
      let w = word_le (v + 1) in record { built = h; behind = omega arith }

  -- The rings of a grid with `t` vertices each, from the vertex `o` on.
  pub grid-keeps :
      (P : ℕ → Strip g → Type 0) (f : ℕ → ℕ → Strip g → Strip g) (r t o : ℕ) (st : Strip g)
      → ((ring seg : ℕ) (u : Strip g)
          → ring < r
          → seg < t
          → P (o + ring * t + seg) u
          → P (suc (o + ring * t + seg)) (f ring seg u))
      → P o st
      → P (o + r * t) (rounds (λ ring u. rounds (f ring) t 0 u) r 0 st)
  grid-keeps P f r t o st k p =
      let e : o ≡ o + 0 * t = omega arith in
      let c : o + (0 + r) * t ≡ o + r * t = omega arith in
      subst (λ m. P m (rounds (λ ring u. rounds (f ring) t 0 u) r 0 st)) c
        (rounds-keeps (λ ring u. P (o + ring * t) u) (λ ring u. rounds (f ring) t 0 u) r 0 st row
          (subst (λ m. P m st) e p))
    where
      row :
          (ring : ℕ) (u : Strip g)
          → 0 ≤ ring
          → ring < 0 + r
          → P (o + ring * t) u
          → P (o + suc ring * t) (rounds (f ring) t 0 u)
      row ring u a b q =
          let e : o + ring * t ≡ o + ring * t + 0 = omega arith in
          let c : o + ring * t + (0 + t) ≡ o + suc ring * t = omega arith in
          subst (λ m. P m (rounds (f ring) t 0 u)) c
            (rounds-keeps (λ seg v. P (o + ring * t + seg) v) (f ring) t 0 u
              (λ seg v x y z.
                let d : suc (o + ring * t + seg) ≡ o + ring * t + suc seg = omega arith in
                subst (λ m. P m (f ring seg v)) d (k ring seg v (omega arith) (omega arith) z))
              (subst (λ m. P m u) e q))
