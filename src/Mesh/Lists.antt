-- ===== src/Mesh/Lists.antt =====
-- Lists under the loops of graphics/src/SubMesh.cc and graphics/src/Mesh.cc.
use ign_common.Common.{
  ℕ, zero, suc, ◌+◌, ◌-◌, ◌≤◌, ◌<◌, ◌≡◌, refl, ◌∙◌, ap, Option, none, some, List, [], ◌∷◌, ◌++◌,
  map, arith, ◌==◌, if◌then◌else◌, length, get_elem?, get_or, take, drop, replicate, inl, inr,
  Bool-cases, length-replicate, ◌⊎◌,
}
use ign_common.Mesh.Shape.{resize}

abbrev pub zip_with : {A B : Type 0} → (A → B → B) → List A → List B → List B
zip_with f [] bs = []
zip_with f (a ∷ xs) [] = []
zip_with f (a ∷ xs) (b ∷ bs) = f a b ∷ zip_with f xs bs

pub length-zip_with :
    {A B : Type 0} (f : A → B → B) (xs : List A) (bs : List B)
    → length bs ≡ length xs
    → length (zip_with f xs bs) ≡ length xs
length-zip_with f [] bs e = refl
length-zip_with f (a ∷ xs) [] e = absurd (omega arith)
length-zip_with f (a ∷ xs) (b ∷ bs) e = ap suc (length-zip_with f xs bs (omega arith))

pub zip_with-zip_with :
    {A B : Type 0} (f f' : A → B → B) (xs : List A) (bs : List B)
    → zip_with f xs (zip_with f' xs bs) ≡ zip_with (λ a b. f a (f' a b)) xs bs
zip_with-zip_with f f' [] bs = refl
zip_with-zip_with f f' (a ∷ xs) [] = refl
zip_with-zip_with f f' (a ∷ xs) (b ∷ bs) = ap (λ l. f a (f' a b) ∷ l) (zip_with-zip_with f f' xs bs)

pub zip_with-id :
    {A B : Type 0} (xs : List A) (bs : List B)
    → length bs ≡ length xs
    → zip_with (λ a b. b) xs bs ≡ bs
zip_with-id [] [] e = refl
zip_with-id [] (b ∷ bs) e = absurd (omega arith)
zip_with-id (a ∷ xs) [] e = absurd (omega arith)
zip_with-id (a ∷ xs) (b ∷ bs) e = ap (λ l. b ∷ l) (zip_with-id xs bs (omega arith))

pub zip_with-replicate :
    {A B : Type 0} (f : A → B → B) (xs : List A) (b : B)
    → zip_with f xs (replicate (length xs) b) ≡ map (λ a. f a b) xs
zip_with-replicate f [] b = refl
zip_with-replicate f (a ∷ xs) b = ap (λ l. f a b ∷ l) (zip_with-replicate f xs b)

pub get_elem?-some :
    {A : Type 0} (xs : List A) (i : ℕ) → i < length xs → (x : A) × (get_elem? xs i ≡ some x)
get_elem?-some [] i h = absurd (omega arith)
get_elem?-some (x ∷ xs) zero h = (x, refl)
get_elem?-some (x ∷ xs) (suc i) h = get_elem?-some xs i (omega arith)

pub get_elem?-below :
    {A : Type 0} (xs : List A) (i : ℕ) (x : A) → get_elem? xs i ≡ some x → i < length xs
get_elem?-below {A} [] i x h = let k : ◌≡◌ {A = Option A} none (some x) = h in cc
get_elem?-below (y ∷ xs) zero x h = omega arith
get_elem?-below (y ∷ xs) (suc i) x h = let k = get_elem?-below xs i x h in omega arith

pub map-constant : {A B : Type 0} (b : B) (xs : List A) → map (λ _. b) xs ≡ replicate (length xs) b
map-constant b [] = refl
map-constant b (x ∷ xs) = ap (λ l. b ∷ l) (map-constant b xs)

resize-replicate : {A : Type 0} (a : A) (n k : ℕ) → resize a n (replicate k a) ≡ replicate n a
resize-replicate a zero k =
    let e : 0 - length (replicate k a) ≡ 0 = omega arith in ap (λ n. replicate n a) e
resize-replicate a (suc n) zero =
    let e : suc n - 0 ≡ suc n = omega arith in ap (λ m. replicate m a) e
resize-replicate a (suc n) (suc k) =
    let e : suc n - suc (length (replicate k a)) ≡ n - length (replicate k a) = omega arith in
    ap (λ m. a ∷ take n (replicate k a) ++ replicate m a) e
    ∙ ap (λ l. a ∷ l) (resize-replicate a n k)

pub resize-constant :
    {A : Type 0} (a : A) (n k : ℕ) (xs : List A)
    → xs ≡ replicate k a
    → (if length xs == n then xs else resize a n xs) ≡ replicate n a
resize-constant {A} a n k xs e =
    ap (λ (l : List A). if length l == n then l else resize a n l) e
    ∙ elim (Bool-cases (length (replicate k a) == n)) [
      | inl t ↦ rw t (ap (λ m. replicate m a) (ground (arith, t, length-replicate k a)))
      | inr t ↦ rw t (resize-replicate a n k)
    ]

pub map-map :
    {A B C : Type 0} (f : A → B) (h : B → C) (xs : List A)
    → map h (map f xs) ≡ map (λ x. h (f x)) xs
map-map f h [] = refl
map-map f h (x ∷ xs) = ap (λ l. h (f x) ∷ l) (map-map f h xs)

pub List-cases : {A : Type 0} (xs : List A) → (xs ≡ []) ⊎ ((x : A) × (ys : List A) × (xs ≡ x ∷ ys))
List-cases [] = inl refl
List-cases (x ∷ xs) = inr (x, xs, refl)

pub drop-step :
    {A : Type 0} (a : A) (xs : List A) (k : ℕ)
    → k < length xs
    → drop k xs ≡ get_or xs k a ∷ drop (k + 1) xs
drop-step a [] k h = absurd (omega arith)
drop-step a (x ∷ xs) zero h = refl
drop-step a (x ∷ xs) (suc k) h =
    let e : suc k + 1 ≡ suc (k + 1) = omega arith in rw e (drop-step a xs k (omega arith))

pub drop-length : {A : Type 0} (xs : List A) (k : ℕ) → length xs ≤ k → drop k xs ≡ []
drop-length [] zero h = refl
drop-length [] (suc k) h = refl
drop-length (x ∷ xs) zero h = absurd (omega arith)
drop-length (x ∷ xs) (suc k) h = drop-length xs k (omega arith)

pub map-append :
    {A B : Type 0} (f : A → B) (xs ys : List A) → map f (xs ++ ys) ≡ map f xs ++ map f ys
map-append f [] ys = refl
map-append f (x ∷ xs) ys = ap (λ l. f x ∷ l) (map-append f xs ys)

-- Entries of a list between two others.
pub get_elem?-between :
    {A : Type 0} (us xs ys : List A) (i : ℕ)
    → i < length xs
    → get_elem? (us ++ xs ++ ys) (i + length us) ≡ get_elem? xs i
get_elem?-between [] xs ys i h =
    let e : i + 0 ≡ i = omega arith in ap (get_elem? (xs ++ ys)) e ∙ front xs ys i h
  where
    front :
        {A : Type 0} (xs ys : List A) (i : ℕ)
        → i < length xs
        → get_elem? (xs ++ ys) i ≡ get_elem? xs i
    front [] ys i h = absurd (omega arith)
    front (x ∷ xs) ys zero h = refl
    front (x ∷ xs) ys (suc i) h = front xs ys i (omega arith)
get_elem?-between (u ∷ us) xs ys i h =
    let e : i + suc (length us) ≡ suc (i + length us) = omega arith in
    ap (get_elem? (u ∷ us ++ xs ++ ys)) e ∙ get_elem?-between us xs ys i h
