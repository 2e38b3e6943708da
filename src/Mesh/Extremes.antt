-- ===== src/Mesh/Extremes.antt =====
-- The best entry of a list by a strict comparison, as the loops of Max and Min of
-- graphics/src/SubMesh.cc find it.
use ign_common.Common.{
  ◌≡◌, refl, sym, ◌∙◌, ap, ◌⊎◌, inl, inr, Bool, true, false, List, [], ◌∷◌, map, if◌then◌else◌,
  Bool-cases,
}

abbrev pub All : {A : Type 0} → (A → Type 0) → List A → Type 0
All P [] = Unit
All P (x ∷ xs) = P x × All P xs

abbrev pub Any : {A : Type 0} → (A → Type 0) → List A → Type 0
Any P [] = ⊥
Any P (x ∷ xs) = P x ⊎ Any P xs

pub All-map :
    {A B : Type 0} (f : A → B) (P : B → Type 0) (xs : List A)
    → All P (map f xs)
    → All (λ x. P (f x)) xs
All-map f P [] a = tt
All-map f P (x ∷ xs) a = (a.0, All-map f P xs a.1)

pub map-All :
    {A B : Type 0} (f : A → B) (P : A → Type 0) (Q : B → Type 0) (xs : List A)
    → ((x : A) → P x → Q (f x))
    → All P xs
    → All Q (map f xs)
map-All f P Q [] k a = tt
map-All f P Q (x ∷ xs) k a = (k x a.0, map-All f P Q xs k a.1)

pub Any-map :
    {A B : Type 0} (f : A → B) (P : B → Type 0) (xs : List A)
    → Any P (map f xs)
    → Any (λ x. P (f x)) xs
Any-map f P [] a = a
Any-map f P (x ∷ xs) (inl a) = inl a
Any-map f P (x ∷ xs) (inr a) = inr (Any-map f P xs a)

-- An order by its strict comparison.
pub record IsStrict {R : Type 0} (lt : R → R → Bool) : Type 0 where
  pub asym : (a b : R) → lt a b ≡ true → lt b a ≡ false
  pub trans : (a b c : R) → lt a b ≡ false → lt b c ≡ false → lt a c ≡ false
  pub total : (a b : R) → lt a b ≡ false → lt b a ≡ false → a ≡ b

module _ {R : Type 0} (lt : R → R → Bool) (o : IsStrict lt) where
  abbrev pub best : R → List R → R
  best m [] = m
  best m (a ∷ xs) = best (if lt m a then a else m) xs

  irrefl : (a : R) → lt a a ≡ false
  irrefl a = elim (Bool-cases (lt a a)) [ inl t ↦ o.asym a a t | inr t ↦ t ]

  pick :
      (m a : R)
      → (lt (if lt m a then a else m) m ≡ false) × (lt (if lt m a then a else m) a ≡ false)
  pick m a = elim (Bool-cases (lt m a)) [
    | inl t ↦ rw t (o.asym m a t, irrefl a)
    | inr t ↦ rw t (irrefl m, t)
  ]

  -- Nothing beats the best, and the best is the start or one of the others.
  best-beats :
      (m : R) (xs : List R) → (lt (best m xs) m ≡ false) × All (λ a. lt (best m xs) a ≡ false) xs
  best-beats m [] = (irrefl m, tt)
  best-beats m (a ∷ xs) =
      let (p, q) = pick m a in
      let (b, r) = best-beats (if lt m a then a else m) xs in
      (o.trans _ _ _ b p, (o.trans _ _ _ b q, r))

  best-found : (m : R) (xs : List R) → (best m xs ≡ m) ⊎ Any (λ a. a ≡ best m xs) xs
  best-found m [] = inl refl
  best-found m (a ∷ xs) = elim (best-found (if lt m a then a else m) xs) [
    | inr k ↦ inr (inr k)
    | inl e ↦ elim (Bool-cases (lt m a)) [
      | inl t ↦ inr (inl (sym (e ∙ rw t refl)))
      | inr t ↦ inl (e ∙ rw t refl)
    ]
  ]

  -- A start that none of the others is worse than is found among them as well.
  pub best_lem :
      (m a : R) (xs : List R)
      → All (λ b. lt b m ≡ false) (a ∷ xs)
      → All (λ b. lt (best m (a ∷ xs)) b ≡ false) (a ∷ xs) × Any (λ b. b ≡ best m (a ∷ xs)) (a ∷ xs)
  best_lem m a xs w =
      let (p, q) = best-beats m (a ∷ xs) in
      (
        q,
        elim (best-found m (a ∷ xs)) [
          | inr k ↦ k
          | inl e ↦ inl (o.total a _ (ap (lt a) e ∙ w.0) q.0)
        ],
      )
