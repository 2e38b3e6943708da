-- ===== src/Skeleton/Transforms.antt =====
-- SkeletonNode::UpdateChildrenTransforms of graphics/src/SkeletonNode.cc settles the nodes below a
-- node.
use ign_common.Common.{
  ℕ, ◌<◌, ◌≡◌, refl, sym, ◌∙◌, ap, true, false, Option, none, some, List, [], ◌∷◌, ◌++◌, arith,
  ◌==◌, inl, inr, Option-cases,
}
use mathlib.Core.Option
use mathlib.Core.Option.{some-injective}
use ign_common.Common.Distinct.{
  contains, contains-append, IsDistinct, IsDistinct-front, IsDistinct-back, IsDistinct-apart,
  apart-contains, AreApart,
}
use ign_common.Skeleton.Node.{
  model_above, Space, SkeletonNode, Store, write, children_of, each, update_transform,
  update_children_transforms, walk,
}
use ign_common.Skeleton.Walk.{
  Forest, branch, bare, plant, preorder_all, roots, size_all, HasForest, KeepsChildren,
  walk-preorder, each-some,
}
use ign_common.Skeleton.Writes.{write_other, write_self, write-map}
use ign_common.Skeleton.Handles.{AreThere, there-forest, there-children}

contains_below :
    (r p : ℕ) (gs fs : List ℕ) → contains r gs ≡ true → contains r (p ∷ gs ++ fs) ≡ true
contains_below r p gs fs h = ground (arith, contains-append r gs fs, h)

contains_beside :
    (r p : ℕ) (gs fs : List ℕ) → contains r fs ≡ true → contains r (p ∷ gs ++ fs) ≡ true
contains_beside r p gs fs h = ground (arith, contains-append r gs fs, h)

-- What a list of distinct addresses says of its parts.
record Parts (q p : ℕ) (gs fs : List ℕ) : Type 0 where
  pub below : (p == q) ≡ false
  pub inside : contains q gs ≡ false
  pub outside : contains q fs ≡ false
  pub first : contains p gs ≡ false
  pub next : contains p fs ≡ false
  pub inner : IsDistinct gs
  pub outer : IsDistinct fs
  pub apart : AreApart gs fs

outside_all :
    (r p : ℕ) (gs fs : List ℕ)
    → contains r (p ∷ gs ++ fs) ≡ false
    → ((r == p) ≡ false) × (contains r gs ≡ false) × (contains r fs ≡ false)
outside_all r p gs fs h = ground (arith, contains-append r gs fs, h)

parts : (q p : ℕ) (gs fs : List ℕ) → IsDistinct (q ∷ p ∷ gs ++ fs) → Parts q p gs fs
parts q p gs fs d =
    let (u, v, w) = outside_all q p gs fs d.0 in
    record {
      below = ground (arith, u);
      inside = v;
      outside = w;
      first = ground (arith, contains-append p gs fs, d.1.0);
      next = ground (arith, contains-append p gs fs, d.1.0);
      inner = IsDistinct-front gs fs d.1.1;
      outer = IsDistinct-back gs fs d.1.1;
      apart = IsDistinct-apart gs fs d.1.1;
    }

module _ (sp : Space) where
  open sp use {mul}

  -- The model transform of the child is that of its parent times its own transform.
  abbrev pub Follows : Store sp → ℕ → ℕ → Type 0
  Follows h q p =
      (m : SkeletonNode sp) × (n : SkeletonNode sp) × (h.cell q ≡ some m)
      × (h.cell p ≡ some n)
      × (n.model_transform ≡ mul m.model_transform n.transform)

  abbrev pub AreSettled : Store sp → ℕ → Forest → Type 0
  AreSettled h q bare = Unit
  AreSettled h q (plant (branch p g) f) = Follows h q p × AreSettled h p g × AreSettled h q f

  abbrev pub parent_of : Store sp → ℕ → Option (Option ℕ)
  parent_of h p = Option.map (λ (n : SkeletonNode sp). n.parent) (h.cell p)

  -- The nodes of the forest have the parents that it says.
  abbrev pub HaveParents : Store sp → ℕ → Forest → Type 0
  HaveParents h q bare = Unit
  HaveParents h q (plant (branch p g) f) =
      (parent_of h p ≡ some (some q)) × HaveParents h p g × HaveParents h q f

  abbrev pub forget_model : SkeletonNode sp → SkeletonNode sp
  forget_model n = record n { model_transform = sp.null }

  abbrev pub AreSame : Store sp → Store sp → Type 0
  AreSame h h' = (r : ℕ) → Option.map forget_model (h'.cell r) ≡ Option.map forget_model (h.cell r)

  there-same :
      (h h' : Store sp) (r : ℕ) (n : SkeletonNode sp)
      → AreSame h h'
      → h.cell r ≡ some n
      → (n' : SkeletonNode sp) × (h'.cell r ≡ some n')
  there-same h h' r n s e = elim (Option-cases (h'.cell r)) [
    | inl x ↦
        let k : ◌≡◌ {A = Option (SkeletonNode sp)} none (some (forget_model n)) =
          ap (Option.map forget_model) (sym x) ∙ s r ∙ ap (Option.map forget_model) e in
        cc
    | inr (n', x) ↦ (n', x)
  ]

  parent_of-forget :
      (x : Option (SkeletonNode sp))
      → Option.map (λ (n : SkeletonNode sp). n.parent) x
        ≡ Option.map (λ (n : SkeletonNode sp). n.parent) (Option.map forget_model x)
  parent_of-forget none = refl
  parent_of-forget (some n) = refl

  parent_of-same : (h h' : Store sp) (r : ℕ) → AreSame h h' → parent_of h' r ≡ parent_of h r
  parent_of-same h h' r s =
      parent_of-forget (h'.cell r)
      ∙ ap (Option.map (λ (n : SkeletonNode sp). n.parent)) (s r)
      ∙ sym (parent_of-forget (h.cell r))

  AreThere-same :
      (h h' : Store sp) (ps : List ℕ) → AreSame h h' → AreThere sp h ps → AreThere sp h' ps
  AreThere-same h h' [] s a = tt
  AreThere-same h h' (p ∷ ps) s a = (there-same h h' p a.0.0 s a.0.1, AreThere-same h h' ps s a.1)

  HaveParents-same :
      (h h' : Store sp) (q : ℕ) (f : Forest) → AreSame h h' → HaveParents h q f → HaveParents h' q f
  HaveParents-same h h' q bare s a = tt
  HaveParents-same h h' q (plant (branch p g) f) s (a, b, c) =
      (parent_of-same h h' p s ∙ a, HaveParents-same h h' p g s b, HaveParents-same h h' q f s c)

  -- Settled nodes stay so while their cells and that of their parent stay.
  AreSettled-kept :
      (h h' : Store sp) (q : ℕ) (f : Forest)
      → h'.cell q ≡ h.cell q
      → ((r : ℕ) → contains r (preorder_all f) ≡ true → h'.cell r ≡ h.cell r)
      → AreSettled h q f
      → AreSettled h' q f
  AreSettled-kept h h' q bare e k a = tt
  AreSettled-kept h h' q (plant (branch p g) f) e k ((m, n, x, y, z), b, c) =
      let kp : h'.cell p ≡ h.cell p = k p (ground arith) in
      (
        (m, n, e ∙ x, kp ∙ y, z),
        AreSettled-kept h h' p g kp
            (λ r i. k r (contains_below r p (preorder_all g) (preorder_all f) i)) b,
        AreSettled-kept h h' q f e
            (λ r i. k r (contains_beside r p (preorder_all g) (preorder_all f) i)) c,
      )

  -- One round: the node has a parent that is there, and another address.
  round :
      (h : Store sp) (q p : ℕ) (m n : SkeletonNode sp)
      → h.cell q ≡ some m
      → h.cell p ≡ some n
      → n.parent ≡ some q
      → (p == q) ≡ false
      → (h' : Store sp) × (update_transform sp p h ≡ some h')
        × Follows h' q p
        × ((r : ℕ) → (r == p) ≡ false → h'.cell r ≡ h.cell r)
        × AreSame h h'
  unfolding update_transform
  round h q p m n x y z d =
      let n' : SkeletonNode sp = record n { model_transform = mul m.model_transform n.transform } in
      let w : model_above sp n.parent h ≡ some m.model_transform =
        ap (λ t. model_above sp t h) z ∙ rw x refl in
      (
        write sp p n' h,
        rw (y, w, update_transform) refl,
        (m, n', write_other sp h p q n' (ground (arith, d)) ∙ x, write_self sp h p n', refl),
        λ r e. write_other sp h p r n' e,
        λ r. write-map sp forget_model h p r n n' y refl,
      )

  -- What a run over the nodes of a forest has done.
  pub record Settled (q : ℕ) (f : Forest) (h h' : Store sp) : Type 0 where
    pub settled : AreSettled h' q f
    pub others : (r : ℕ) → contains r (preorder_all f) ≡ false → h'.cell r ≡ h.cell r
    pub same : AreSame h h'

  AreThere-front : (h : Store sp) (ps qs : List ℕ) → AreThere sp h (ps ++ qs) → AreThere sp h ps
  AreThere-front h [] qs a = tt
  AreThere-front h (p ∷ ps) qs a = (a.0, AreThere-front h ps qs a.1)

  AreThere-back : (h : Store sp) (ps qs : List ℕ) → AreThere sp h (ps ++ qs) → AreThere sp h qs
  AreThere-back h [] qs a = a
  AreThere-back h (p ∷ ps) qs a = AreThere-back h ps qs a.1

  parent_is :
      (h : Store sp) (p q : ℕ) (n : SkeletonNode sp)
      → h.cell p ≡ some n
      → parent_of h p ≡ some (some q)
      → n.parent ≡ some q
  parent_is h p q n e b =
      some-injective _ _ (sym (ap (Option.map (λ (k : SkeletonNode sp). k.parent)) e) ∙ b)

  settle :
      (f : Forest) (q : ℕ) (m : SkeletonNode sp) (h : Store sp)
      → h.cell q ≡ some m
      → AreThere sp h (preorder_all f)
      → HaveParents h q f
      → IsDistinct (q ∷ preorder_all f)
      → (h' : Store sp) × (each (update_transform sp) (preorder_all f) h ≡ some h')
        × Settled q f h h'
  unfolding each
  settle bare q m h x a b d =
      (h, refl, record { settled = tt; others = λ r i. refl; same = λ r. refl })
  settle (plant (branch p g) f) q m h x a (b, bg, bf) d =
      let gs = preorder_all g in
      let fs = preorder_all f in
      let v = parts q p gs fs d in
      let n = a.0.0 in
      let (h1, e1, (m1, n1, x1, y1, z1), o1, k1) =
        round h q p m n x a.0.1 (parent_is h p q n a.0.1 b) v.below in
      let (h2, e2, r2) =
        settle g p n1 h1 y1 (AreThere-same h h1 gs k1 (AreThere-front h gs fs a.1))
          (HaveParents-same h h1 p g k1 bg) (v.first, v.inner) in
      let k2 : AreSame h h2 = λ r. r2.same r ∙ k1 r in
      let (h3, e3, r3) =
        settle f q m1 h2 (r2.others q v.inside ∙ x1)
          (AreThere-same h h2 fs k2 (AreThere-back h gs fs a.1)) (HaveParents-same h h2 q f k2 bf)
          (v.outside, v.outer) in
      (
        h3,
        rw (e1, each) (each-some (update_transform sp) gs fs h1 h2 e2 ∙ e3),
        record {
          settled = (
            (
              m1,
              n1,
              r3.others q v.outside ∙ r2.others q v.inside ∙ x1,
              r3.others p v.next ∙ r2.others p v.first ∙ y1,
              z1,
            ),
            AreSettled-kept h2 h3 p g (r3.others p v.next)
                (λ r i. r3.others r (apart-contains r gs fs v.apart i)) r2.settled,
            r3.settled,
          );
          others = λ r i.
              let (u, w, t) = outside_all r p gs fs i in r3.others r t ∙ r2.others r w ∙ o1 r u;
          same = λ r. r3.same r ∙ k2 r;
        },
      )

  -- A round that ends found its node and the node's parent.
  update_transform-cells :
      (p : ℕ) (h h' : Store sp)
      → update_transform sp p h ≡ some h'
      → (n : SkeletonNode sp) × (m : sp.Matrix) × (h.cell p ≡ some n)
        × (model_above sp n.parent h ≡ some m)
  unfolding update_transform
  update_transform-cells p h h' e = elim (Option-cases (h.cell p)) [
    | inl x ↦
        let k : ◌≡◌ {A = Option (Store sp)} none (some h') = rw (x, update_transform) at e in cc
    | inr (n, x) ↦ elim (Option-cases (model_above sp n.parent h)) [
      | inl y ↦
          let k : ◌≡◌ {A = Option (Store sp)} none (some h') = rw (x, y, update_transform) at e in
          cc
      | inr (m, y) ↦ (n, m, x, y)
    ]
  ]

  update_transform-KeepsChildren : KeepsChildren sp {S = Store sp} (λ h. h) (update_transform sp)
  unfolding update_transform
  update_transform-KeepsChildren p q h h' e =
      let (n, m, x, y) = update_transform-cells p h h' e in
      let k : some (write sp p (record n { model_transform = mul m n.transform }) h) ≡ some h' =
        rw (x, y, update_transform) at e in
      ap (λ (k : Store sp). children_of sp k q) (sym (some-injective _ _ k))
      ∙ write-map sp (λ (k : SkeletonNode sp). k.children) h p q n
          (record n { model_transform = mul m n.transform }) x refl

  -- UpdateChildrenTransforms at the root of a tree of distinct nodes, whose children and parents agree
  -- with each other: with more fuel than nodes below the root it ends, and the model transform of each
  -- node below the root is that of its parent times its own transform. Other nodes do not change, and
  -- nothing but the model transform changes of these.
  pub update_children_transforms_lem :
      (fuel p : ℕ) (f : Forest) (h : Store sp)
      → children_of sp h p ≡ some (roots f)
      → HasForest sp h f
      → HaveParents h p f
      → IsDistinct (p ∷ preorder_all f)
      → size_all f < fuel
      → (h' : Store sp) × (update_children_transforms sp fuel p h ≡ some h')
        × AreSettled h' p f
        × ((r : ℕ) → contains r (preorder_all f) ≡ false → h'.cell r ≡ h.cell r)
        × AreSame h h'
  unfolding update_children_transforms
  update_children_transforms_lem fuel p f h c a b d l =
      let (n, x) = there-children sp h p (roots f) c in
      let (h', e, r) = settle f p n h x (there-forest sp h f a) b d in
      let cs : n.children ≡ roots f =
        some-injective _ _ (sym (ap (Option.map (λ (k : SkeletonNode sp). k.children)) x) ∙ c) in
      let w =
        walk-preorder sp (λ (k : Store sp). k) (update_transform sp) update_transform-KeepsChildren
          f fuel h a l
        ∙ e in
      (
        h',
        rw (x, update_children_transforms)
            (ap (λ l. walk sp (λ (k : Store sp). k) (update_transform sp) fuel l h) cs ∙ w),
        r.settled,
        r.others,
        r.same,
      )
