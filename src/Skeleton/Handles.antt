-- ===== src/Skeleton/Handles.antt =====
-- Skeleton::BuildNodeMap of graphics/src/Skeleton.cc numbers the nodes of the tree in preorder.
use ign_common.Common.{
  ℕ, zero, suc, ◌+◌, ◌-◌, ◌<◌, ◌≡◌, refl, sym, ◌∙◌, ap, false, Option, none, some, List, [], ◌∷◌,
  ◌++◌, arith, ltb, ◌==◌, if◌then◌else◌, length, get_elem?, inl, inr, Option-cases, Bool-cases,
}
use mathlib.Core.Option
use mathlib.Core.Option.{some-injective}
use mathlib.Core.List.{append-nil}
use ign_common.Common.Distinct.{contains, IsDistinct}
use ign_common.Common.OrdMap.{OrdMap, find, insert, IsSorted}
use ign_common.Common.OrdMap.Laws.{find-insert, insert-IsSorted}
use ign_common.Skeleton.Node.{
  Space, SkeletonNode, Store, write, modify, children_of, set_handle, each,
}
use ign_common.Skeleton.Walk.{
  Tree, Forest, branch, bare, plant, preorder, preorder_all, root, roots, size, HasTree, HasForest,
  KeepsChildren, walk-preorder,
}
use ign_common.Skeleton.Writes.{write_self, write-map}
use ign_common.Skeleton.Whole.{Skeleton, Build, register, visit_all, build_node_map}

-- An entry of the map behind a run over `ps` that started with the handle `i`.
abbrev pub numbered : ℕ → List ℕ → ℕ → Option ℕ → Option ℕ
numbered i ps k old =
    if ltb k i then old else elim (get_elem? ps (k - i)) [ none ↦ old | some p ↦ some p ]

numbered-step :
    (i p k : ℕ) (ps : List ℕ) (old : Option ℕ)
    → numbered (i + 1) ps k (if i == k then some p else old) ≡ numbered i (p ∷ ps) k old
numbered-step i p k ps old = elim (Bool-cases (ltb i k)) [
  | inl e ↦ let s : k - i ≡ suc (k - (i + 1)) = ground (arith, e) in rw s (ground (arith, e))
  | inr e ↦ elim (Bool-cases (i == k)) [
    | inl q ↦ let s : k - i ≡ 0 = ground (arith, q) in rw s (ground (arith, e, q))
    | inr q ↦ ground (arith, e, q)
  ]
]

module _ (sp : Space) where
  -- Every node is there.
  abbrev pub AreThere : Store sp → List ℕ → Type 0
  AreThere h [] = Unit
  AreThere h (p ∷ ps) = ((n : SkeletonNode sp) × (h.cell p ≡ some n)) × AreThere h ps

  AreThere-write :
      (h : Store sp) (q : ℕ) (m : SkeletonNode sp) (ps : List ℕ)
      → AreThere h ps
      → AreThere (write sp q m h) ps
  AreThere-write h q m [] a = tt
  AreThere-write h q m (p ∷ ps) a = elim (Bool-cases (p == q)) [
    | inl e ↦ ((m, rw e refl), AreThere-write h q m ps a.1)
    | inr e ↦ ((a.0.0, rw e a.0.1), AreThere-write h q m ps a.1)
  ]

  abbrev pub handle_of : Store sp → ℕ → Option ℕ
  handle_of h p = elim (h.cell p) [ none ↦ none | some n ↦ n.handle ]

  abbrev pub forget : SkeletonNode sp → SkeletonNode sp
  forget n = record n { handle = none }

  -- What a run of the rounds over `ps` has done.
  pub record Registered (ps : List ℕ) (b b' : Build sp) : Type 0 where
    pub next : b'.handle ≡ b.handle + length ps
    pub map : (k : ℕ) → find k b'.nodes ≡ numbered b.handle ps k (find k b.nodes)
    pub sorted : IsSorted b'.nodes
    pub handles : (j p : ℕ) → get_elem? ps j ≡ some p → handle_of b'.store p ≡ some (b.handle + j)
    pub others : (q : ℕ) → contains q ps ≡ false → b'.store.cell q ≡ b.store.cell q
    pub same : (q : ℕ) → Option.map forget (b'.store.cell q) ≡ Option.map forget (b.store.cell q)

  handles_cons :
      (ps : List ℕ) (p i : ℕ) (h : Store sp)
      → handle_of h p ≡ some i
      → ((j q : ℕ) → get_elem? ps j ≡ some q → handle_of h q ≡ some (i + 1 + j))
      → (j q : ℕ) → get_elem? (p ∷ ps) j ≡ some q
      → handle_of h q ≡ some (i + j)
  handles_cons ps p i h e f zero q g =
      let k : p ≡ q = some-injective _ _ g in
      let l : i + 0 ≡ i = omega arith in rw l (ap (handle_of h) (sym k) ∙ e)
  handles_cons ps p i h e f (suc j) q g =
      let l : i + 1 + j ≡ i + suc j = omega arith in f j q g ∙ ap some l

  register_lem :
      (p : ℕ) (n : SkeletonNode sp) (b : Build sp)
      → b.store.cell p ≡ some n
      → register sp p b
        ≡ some (record {
          store = write sp p (record n { handle = some b.handle }) b.store;
          handle = b.handle + 1;
          nodes = insert b.handle p b.nodes;
        })
  unfolding register set_handle modify
  register_lem p n b e = rw (e, register, set_handle, modify) refl

  -- A run over distinct nodes that are there ends, and numbers them from the next handle on.
  pub register-Registered :
      (ps : List ℕ) (b : Build sp)
      → AreThere b.store ps
      → IsDistinct ps
      → IsSorted b.nodes
      → (b' : Build sp) × (each (register sp) ps b ≡ some b') × Registered ps b b'
  unfolding each
  register-Registered [] b a d s = (
    b,
    refl,
    record {
      next = omega arith;
      map = λ k. ground arith;
      sorted = s;
      handles = λ j p h. cc;
      others = λ q h. refl;
      same = λ q. refl;
    },
  )
  register-Registered (p ∷ ps) b a d s =
      let n = a.0.0 in
      let m : SkeletonNode sp = record n { handle = some b.handle } in
      let c : Build sp = record {
        store = write sp p m b.store;
        handle = b.handle + 1;
        nodes = insert b.handle p b.nodes;
      } in
      let (b', e, r) =
        register-Registered ps c (AreThere-write b.store p m ps a.1) d.1
          (insert-IsSorted b.handle p b.nodes s) in
      (
        b',
        rw (register_lem p n b a.0.1, each) e,
        record {
          next = omega (arith, r.next);
          map = λ k.
              r.map k
              ∙ ap (numbered (b.handle + 1) ps k) (find-insert b.handle k p b.nodes s)
              ∙ numbered-step b.handle p k ps (find k b.nodes);
          sorted = r.sorted;
          handles =
              handles_cons ps p b.handle b'.store
                (ap (λ x. elim x [ none ↦ none | some n' ↦ n'.handle ])
                  (r.others p d.0 ∙ write_self sp b.store p m))
                r.handles;
          others = λ q h. ground (arith, r.others q, h);
          same = λ q. r.same q ∙ write-map sp forget b.store p q n m a.0.1 refl;
        },
      )

module _ (sp : Space) where
  register-KeepsChildren : KeepsChildren sp {S = Build sp} (λ b. b.store) (register sp)
  unfolding register set_handle modify
  register-KeepsChildren p q b b' e = elim (Option-cases (b.store.cell p)) [
    | inl x ↦
        let k : ◌≡◌ {A = Option (Build sp)} none (some b') =
          rw (x, register, set_handle, modify) at e in
        cc
    | inr (n, x) ↦
        let k = sym (register_lem sp p n b x) ∙ e in
        ap (λ (c : Build sp). children_of sp c.store q) (sym (some-injective _ _ k))
        ∙ write-map sp (λ (m : SkeletonNode sp). m.children) b.store p q n
            (record n { handle = some b.handle }) x refl
  ]

  AreThere-append :
      (h : Store sp) (ps qs : List ℕ)
      → AreThere sp h ps
      → AreThere sp h qs
      → AreThere sp h (ps ++ qs)
  AreThere-append h [] qs a b = b
  AreThere-append h (p ∷ ps) qs a b = (a.0, AreThere-append h ps qs a.1 b)

  pub there-children :
      (h : Store sp) (p : ℕ) (cs : List ℕ)
      → children_of sp h p ≡ some cs
      → (n : SkeletonNode sp) × (h.cell p ≡ some n)
  there-children h p cs c = elim (Option-cases (h.cell p)) [
    | inl x ↦ let k : ◌≡◌ {A = Option (List ℕ)} none (some cs) = rw x at c in cc
    | inr (n, x) ↦ (n, x)
  ]

  mutual
    pub there-tree : (h : Store sp) (t : Tree) → HasTree sp h t → AreThere sp h (preorder t)
    there-tree h (branch p f) (c, r) = (there-children h p (roots f) c, there-forest h f r)

    pub there-forest :
        (h : Store sp) (f : Forest) → HasForest sp h f → AreThere sp h (preorder_all f)
    there-forest h bare r = tt
    there-forest h (plant t f) (a, b) =
        AreThere-append h (preorder t) (preorder_all f) (there-tree h t a) (there-forest h f b)

numbered_zero :
    (ps : List ℕ) (k : ℕ) (old : Option ℕ)
    → numbered 0 ps k old ≡ elim (get_elem? ps k) [ none ↦ old | some p ↦ some p ]
numbered_zero ps k old =
    let s : k - 0 ≡ k = omega arith in let l : ltb k 0 ≡ false = ground arith in rw (l, s) refl

module _ (sp : Space) (Animation : Type 0) where
  -- BuildNodeMap on a skeleton whose root has a tree of distinct nodes: with more fuel than nodes it
  -- ends; the handle of each node is its place in the preorder, the map has the node of each handle,
  -- entries of the old map past the last handle stay, and nothing but handles of these nodes changes.
  pub build_node_map_lem :
      (fuel : ℕ) (t : Tree) (sk : Skeleton sp Animation) (h : Store sp)
      → sk.root ≡ some (root t)
      → HasTree sp h t
      → IsDistinct (preorder t)
      → IsSorted sk.nodes
      → size t < fuel
      → (m : OrdMap ℕ) × (h' : Store sp) × (build_node_map sp Animation fuel sk h
          ≡ some (record sk { nodes = m }, h'))
        × ((k : ℕ)
            → find k m
              ≡ elim (get_elem? (preorder t) k) [ none ↦ find k sk.nodes | some p ↦ some p ])
        × ((j p : ℕ) → get_elem? (preorder t) j ≡ some p → handle_of sp h' p ≡ some j)
        × ((q : ℕ) → contains q (preorder t) ≡ false → h'.cell q ≡ h.cell q)
        × ((q : ℕ) → Option.map (forget sp) (h'.cell q) ≡ Option.map (forget sp) (h.cell q))
  unfolding build_node_map visit_all
  build_node_map_lem fuel t sk h e a d s l =
      let b : Build sp = record { store = h; handle = 0; nodes = sk.nodes } in
      let (b', q, r) = register-Registered sp (preorder t) b (there-tree sp h t a) d s in
      let w =
        walk-preorder sp (λ (c : Build sp). c.store) (register sp) (register-KeepsChildren sp)
          (plant t bare) fuel b (a, tt) (omega arith)
        ∙ ap (λ ps. each (register sp) ps b) (append-nil (preorder t))
        ∙ q in
      let v = ap (λ x. visit_all sp fuel x b) e ∙ w in
      (
        b'.nodes,
        b'.store,
        rw (v, build_node_map) refl,
        λ k. r.map k ∙ numbered_zero (preorder t) k (find k sk.nodes),
        λ j p g. r.handles j p g ∙ ap some (omega arith),
        r.others,
        r.same,
      )
