-- ===== src/Skeleton/Writes.antt =====
-- The cells of a store of graphics/src/SkeletonNode.cc behind a write.
use ign_common.Common.{
  ℕ, ◌≡◌, refl, sym, ◌∙◌, ap, true, false, some, arith, ◌==◌, inl, inr, Bool-cases,
}
use mathlib.Core.Option
use ign_common.Skeleton.Node.{Space, SkeletonNode, Store, write}

module _ (sp : Space) where
  pub write_other :
      (h : Store sp) (p r : ℕ) (n : SkeletonNode sp)
      → (r == p) ≡ false
      → (write sp p n h).cell r ≡ h.cell r
  write_other h p r n e = rw e refl

  pub write_self : (h : Store sp) (p : ℕ) (n : SkeletonNode sp) → (write sp p n h).cell p ≡ some n
  write_self h p n = let u : (p == p) ≡ true = ground arith in rw u refl

  -- A write that keeps a part of the node keeps that part of every node.
  pub write-map :
      {B : Type 0} (f : SkeletonNode sp → B) (h : Store sp) (p q : ℕ) (n m : SkeletonNode sp)
      → h.cell p ≡ some n
      → f m ≡ f n
      → Option.map f ((write sp p m h).cell q) ≡ Option.map f (h.cell q)
  write-map f h p q n m e g = elim (Bool-cases (q == p)) [
    | inl t ↦
        let k : q ≡ p = ground (arith, t) in
        rw t (ap some g ∙ sym (ap (Option.map f) (ap h.cell k ∙ e)))
    | inr t ↦ rw t refl
  ]
