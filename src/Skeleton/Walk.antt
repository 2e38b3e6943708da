-- ===== src/Skeleton/Walk.antt =====
-- The walk of graphics/src/SkeletonNode.cc and graphics/src/Skeleton.cc takes the nodes of a tree in
-- preorder.
use ign_common.Common.{
  ℕ, suc, ◌+◌, ◌-◌, ◌<◌, ◌≡◌, refl, sym, ◌∙◌, ap, Option, none, some, List, [], ◌∷◌, ◌++◌, arith,
  inl, inr, Option-cases,
}
use mathlib.Core.List.{reverse, reverse-append, reverse-reverse, append_assoc, append-nil}
use mathlib.Core.Option.{some-injective}
use ign_common.Skeleton.Node.{Space, Store, children_of, push_loop, push_children, walk, each}

-- A tree of addresses.
mutual
  pub data Tree : Type 0 where
    branch : ℕ → Forest → Tree

  pub data Forest : Type 0 where
    bare : Forest
    plant : Tree → Forest → Forest

abbrev mutual
  pub preorder : Tree → List ℕ
  preorder (branch p f) = p ∷ preorder_all f

  pub preorder_all : Forest → List ℕ
  preorder_all bare = []
  preorder_all (plant t f) = preorder t ++ preorder_all f

abbrev pub root : Tree → ℕ
root (branch p f) = p

abbrev pub roots : Forest → List ℕ
roots bare = []
roots (plant t f) = root t ∷ roots f

abbrev mutual
  pub size : Tree → ℕ
  size (branch p f) = suc (size_all f)

  pub size_all : Forest → ℕ
  size_all bare = 0
  size_all (plant t f) = size t + size_all f

push_loop-reverse : (cs v : List ℕ) → push_loop cs v ≡ reverse cs ++ v
unfolding push_loop
push_loop-reverse [] v = refl
push_loop-reverse (c ∷ cs) v =
    push_loop-reverse cs (c ∷ v)
    ∙ sym (append_assoc (reverse cs) (c ∷ []) v)
    ∙ ap (λ l. l ++ v) (sym (reverse-append (c ∷ []) cs))

push_children-append : (cs v : List ℕ) → push_children cs v ≡ cs ++ v
unfolding push_children
push_children-append cs v = push_loop-reverse (reverse cs) v ∙ ap (λ l. l ++ v) (reverse-reverse cs)

module _ {S : Type 0} (body : ℕ → S → Option S) where
  pub each-none : (ps qs : List ℕ) (s : S) → each body ps s ≡ none → each body (ps ++ qs) s ≡ none
  unfolding each
  each-none [] qs s h = cc
  each-none (p ∷ ps) qs s h = elim (Option-cases (body p s)) [
    | inl e ↦ rw (e, each) refl
    | inr (s', e) ↦ rw (e, each) (each-none ps qs s' (rw (e, each) at h))
  ]

  pub each-some :
      (ps qs : List ℕ) (s s' : S)
      → each body ps s ≡ some s'
      → each body (ps ++ qs) s ≡ each body qs s'
  unfolding each
  each-some [] qs s s' h = ap (each body qs) (some-injective _ _ h)
  each-some (p ∷ ps) qs s s' h = elim (Option-cases (body p s)) [
    | inl e ↦ let k : ◌≡◌ {A = Option S} none (some s') = rw (e, each) at h in cc
    | inr (t, e) ↦ rw (e, each) (each-some ps qs t s' (rw (e, each) at h))
  ]

module _ (sp : Space) where
  -- The store has the tree: the children of each node are the roots below it.
  abbrev mutual
    pub HasTree : Store sp → Tree → Type 0
    HasTree h (branch p f) = (children_of sp h p ≡ some (roots f)) × HasForest h f

    pub HasForest : Store sp → Forest → Type 0
    HasForest h bare = Unit
    HasForest h (plant t f) = HasTree h t × HasForest h f

  -- A body that leaves the children of every node alone.
  abbrev pub KeepsChildren : {S : Type 0} → (S → Store sp) → (ℕ → S → Option S) → Type 0
  KeepsChildren {S} store body =
      (p q : ℕ) (s s' : S)
      → body p s ≡ some s'
      → children_of sp (store s') q ≡ children_of sp (store s) q

  abbrev SameChildren : Store sp → Store sp → Type 0
  SameChildren h h' = (q : ℕ) → children_of sp h' q ≡ children_of sp h q

  mutual
    HasTree-same : (h h' : Store sp) (t : Tree) → SameChildren h h' → HasTree h t → HasTree h' t
    HasTree-same h h' (branch p f) e (c, r) = (e p ∙ c, HasForest-same h h' f e r)

    HasForest-same :
        (h h' : Store sp) (f : Forest) → SameChildren h h' → HasForest h f → HasForest h' f
    HasForest-same h h' bare e r = tt
    HasForest-same h h' (plant t f) e (a, b) = (HasTree-same h h' t e a, HasForest-same h h' f e b)

module _ (sp : Space) {S : Type 0} (store : S → Store sp) (body : ℕ → S → Option S)
    (keeps : KeepsChildren sp store body) where
  each-SameChildren :
      (ps : List ℕ) (s s' : S) → each body ps s ≡ some s' → SameChildren sp (store s) (store s')
  unfolding each
  each-SameChildren [] s s' h q = ap (λ x. children_of sp (store x) q) (sym (some-injective _ _ h))
  each-SameChildren (p ∷ ps) s s' h q = elim (Option-cases (body p s)) [
    | inl e ↦ let k : ◌≡◌ {A = Option S} none (some s') = rw (e, each) at h in cc
    | inr (t, e) ↦ each-SameChildren ps t s' (rw (e, each) at h) q ∙ keeps p q s t e
  ]

  -- What the walk does behind a part of its list.
  then_walk : ℕ → List ℕ → Option S → Option S
  then_walk fuel v none = none
  then_walk fuel v (some s) = walk sp store body fuel v s

  walk-step :
      (n p : ℕ) (cs v : List ℕ) (s s' : S)
      → children_of sp (store s) p ≡ some cs
      → body p s ≡ some s'
      → walk sp store body (suc n) (p ∷ v) s ≡ walk sp store body n (cs ++ v) s'
  unfolding walk
  walk-step n p cs v s s' c e =
      rw (c, e, walk) (ap (λ l. walk sp store body n l s') (push_children-append cs v))

  walk-stop :
      (n p : ℕ) (cs v : List ℕ) (s : S)
      → children_of sp (store s) p ≡ some cs
      → body p s ≡ none
      → walk sp store body (suc n) (p ∷ v) s ≡ none
  unfolding walk
  walk-stop n p cs v s c e = rw (c, e, walk) refl

  mutual
    unfolding each then_walk

    walk-tree :
        (t : Tree) (v : List ℕ) (n fuel : ℕ) (s : S)
        → HasTree sp (store s) t
        → n ≡ size t + fuel
        → walk sp store body n (root t ∷ v) s ≡ then_walk fuel v (each body (preorder t) s)
    walk-tree (branch p f) v n fuel s (c, r) e =
        let k : n ≡ suc (size_all f + fuel) = omega arith in
        let below = walk-forest f v (size_all f + fuel) fuel in
        elim (Option-cases (body p s)) [
          | inl b ↦ rw (k, b, each) (walk-stop (size_all f + fuel) p (roots f) v s c b)
          | inr (s', b) ↦
              rw (k, b, each)
                (walk-step (size_all f + fuel) p (roots f) v s s' c b
                  ∙ below s' (HasForest-same sp (store s) (store s') f (λ q. keeps p q s s' b) r)
                      refl)
        ]

    walk-forest :
        (f : Forest) (v : List ℕ) (n fuel : ℕ) (s : S)
        → HasForest sp (store s) f
        → n ≡ size_all f + fuel
        → walk sp store body n (roots f ++ v) s ≡ then_walk fuel v (each body (preorder_all f) s)
    walk-forest bare v n fuel s r e = let k : n ≡ fuel = omega arith in rw k refl
    walk-forest (plant t f) v n fuel s (a, b) e =
        let first = walk-tree t (roots f ++ v) n (size_all f + fuel) s a (omega arith) in
        let rest = walk-forest f v (size_all f + fuel) fuel in
        elim (Option-cases (each body (preorder t) s)) [
          | inl x ↦
              first
              ∙ ap (then_walk (size_all f + fuel) (roots f ++ v)) x
              ∙ ap (then_walk fuel v) (sym (each-none body (preorder t) (preorder_all f) s x))
          | inr (s', x) ↦
              first
              ∙ ap (then_walk (size_all f + fuel) (roots f ++ v)) x
              ∙ rest s'
                  (HasForest-same sp (store s) (store s') f (each-SameChildren (preorder t) s s' x)
                    b)
                  refl
              ∙ ap (then_walk fuel v) (sym (each-some body (preorder t) (preorder_all f) s s' x))
        ]

  -- With more fuel than nodes the walk over a forest runs the body on its preorder.
  pub walk-preorder :
      (f : Forest) (fuel : ℕ) (s : S)
      → HasForest sp (store s) f
      → size_all f < fuel
      → walk sp store body fuel (roots f) s ≡ each body (preorder_all f) s
  unfolding walk then_walk
  walk-preorder f fuel s h b =
      let k : fuel - size_all f ≡ suc (fuel - size_all f - 1) = omega arith in
      let e = walk-forest f [] fuel (fuel - size_all f) s h (omega arith) in
      ap (λ l. walk sp store body fuel l s) (sym (append-nil (roots f)))
      ∙ e
      ∙ ap (λ m. then_walk m [] (each body (preorder_all f) s)) k
      ∙ done (each body (preorder_all f) s)
    where
      done : (r : Option S) → then_walk (suc (fuel - size_all f - 1)) [] r ≡ r
      done none = refl
      done (some t) = refl
