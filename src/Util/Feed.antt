-- ===== src/Util/Feed.antt =====
-- The steps of Sha1::Byte and Sha1::Digest of src/Util.cc, on the bytes alone.
use ign_common.Common.{
  ℕ, zero, suc, ◌+◌, ◌-◌, ◌*◌, ◌/◌, ◌%◌, ◌^◌, ◌≤◌, ◌<◌, ◌≡◌, refl, sym, ◌∙◌, ap, Bool, true, false,
  Option, none, some, [], ◌∷◌, ◌++◌, ltb, leb, ◌==◌, if◌then◌else◌, length, take, drop, replicate,
  arith, inl, inr, Bool-cases, length-append, length-replicate,
}
use mathlib.Core.Bool.{not}
use mathlib.Core.List.{append_assoc}
use mathlib.Core.Path.{subst}
use ign_common.Common.Text.{Bytes, take-append, drop-append}
use ign_common.Util.Sha1.{
  Hash, Sha1, compress, byte, count_byte, message_loop, zeros_while, pad, bytes_loop,
}

abbrev pub hash_blocks : ℕ → Hash → Bytes → Hash
hash_blocks zero h m = h
hash_blocks (suc n) h m = hash_blocks n (compress h (take 64 m)) (drop 64 m)

-- The hash and the bytes of the block are all that Byte depends on.
pub feed_byte : ℕ → Hash × Bytes → Hash × Bytes
feed_byte x (h, b) =
    if length (b ++ x ∷ []) == 64 then (compress h (b ++ x ∷ []), []) else (h, b ++ x ∷ [])

abbrev pub feed : Bytes → Hash × Bytes → Hash × Bytes
feed [] v = v
feed (x ∷ xs) v = feed xs (feed_byte x v)

abbrev pub view : Hash × Sha1 → Hash × Bytes
view st = (st.0, st.1.block)

pub feed-append : (xs ys : Bytes) (v : Hash × Bytes) → feed (xs ++ ys) v ≡ feed ys (feed xs v)
feed-append [] ys v = refl
feed-append (x ∷ xs) ys v = feed-append xs ys (feed_byte x v)

pub byte-feed : (x : ℕ) (st : Hash × Sha1) → view (byte x st) ≡ feed_byte x (view st)
unfolding byte feed_byte
byte-feed x (h, s) = elim (Bool-cases (length (s.block ++ x ∷ []) == 64)) [
  | inl e ↦ rw e refl
  | inr e ↦ rw e refl
]

-- The index moves on by one, back to zero at the end of a block.
pub feed_byte-length :
    (x : ℕ) (v : Hash × Bytes) → length v.1 < 64 → length (feed_byte x v).1 ≡ (length v.1 + 1) % 64
unfolding feed_byte
feed_byte-length x (h, b) l =
    let c = length-append b (x ∷ []) in
    elim (Bool-cases (length (b ++ x ∷ []) == 64)) [
      | inl e ↦ let d : length (b ++ x ∷ []) ≡ 64 = ground (arith, e) in rw e (omega arith)
      | inr e ↦ let d : length b < 63 = ground (arith, e, c, l) in rw e (omega arith)
    ]

pub feed-length :
    (xs : Bytes) (v : Hash × Bytes)
    → length v.1 < 64
    → length (feed xs v).1 ≡ (length v.1 + length xs) % 64
feed-length [] v l = omega arith
feed-length (x ∷ xs) v l =
    let c = feed_byte-length x v l in
    let d = feed-length xs (feed_byte x v) (omega arith) in omega arith

pub feed_byte-full :
    (x : ℕ) (h : Hash) (b : Bytes)
    → (length (b ++ x ∷ []) == 64) ≡ true
    → feed_byte x (h, b) ≡ (compress h (b ++ x ∷ []), [])
unfolding feed_byte
feed_byte-full x h b e = rw e refl

pub feed_byte-part :
    (x : ℕ) (h : Hash) (b : Bytes)
    → (length (b ++ x ∷ []) == 64) ≡ false
    → feed_byte x (h, b) ≡ (h, b ++ x ∷ [])
unfolding feed_byte
feed_byte-part x h b e = rw e refl

-- Whole blocks of bytes are compressed one after the other.
pub feed-hash_blocks :
    (m : Bytes) (n : ℕ) (h : Hash) (b : Bytes)
    → length b + length m ≡ 64 * n
    → length b < 64
    → (feed m (h, b)).0 ≡ hash_blocks n h (b ++ m)
feed-hash_blocks [] zero h b e l = refl
feed-hash_blocks [] (suc n) h b e l = absurd (omega arith)
feed-hash_blocks (x ∷ xs) zero h b e l = absurd (omega arith)
feed-hash_blocks (x ∷ xs) (suc n) h b e l =
    let c = length-append b (x ∷ []) in
    let a = append_assoc b (x ∷ []) xs in
    let next = feed-hash_blocks xs in
    elim (Bool-cases (length (b ++ x ∷ []) == 64)) [
      | inl t ↦
          let d : length (b ++ x ∷ []) ≡ 64 = ground (arith, t) in
          let u : take 64 (b ++ x ∷ xs) ≡ b ++ x ∷ [] =
            ap (take 64) (sym a)
            ∙ ap (λ k. take k (b ++ x ∷ [] ++ xs)) (sym d)
            ∙ take-append (b ++ x ∷ []) xs in
          let v : drop 64 (b ++ x ∷ xs) ≡ xs =
            ap (drop 64) (sym a)
            ∙ ap (λ k. drop k (b ++ x ∷ [] ++ xs)) (sym d)
            ∙ drop-append (b ++ x ∷ []) xs in
          ap (λ (w : Hash × Bytes). (feed xs w).0) (feed_byte-full x h b t)
          ∙ next n (compress h (b ++ x ∷ [])) [] (omega arith) (omega arith)
          ∙ ap (λ k. hash_blocks n (compress h k) xs) (sym u)
          ∙ ap (hash_blocks n (compress h (take 64 (b ++ x ∷ xs)))) (sym v)
      | inr t ↦
          let d : length b < 63 = ground (arith, t, c, l) in
          ap (λ (w : Hash × Bytes). (feed xs w).0) (feed_byte-part x h b t)
          ∙ next (suc n) h (b ++ x ∷ []) (omega arith) (omega arith)
          ∙ ap (hash_blocks (suc n) h) a
    ]

pub record IsCounted (n : ℕ) (s : Sha1) : Type 0 where
  pub low : s.bit_count_low ≡ 8 * n % 2 ^ 32
  pub high : s.bit_count_high ≡ 8 * n / 2 ^ 32

pub byte-IsCounted : (x n : ℕ) (st : Hash × Sha1) → IsCounted n st.1 → IsCounted n (byte x st).1
unfolding byte
byte-IsCounted x n (h, s) c = elim (Bool-cases (length (s.block ++ x ∷ []) == 64)) [
  | inl e ↦ rw e (record { low = c.low; high = c.high })
  | inr e ↦ rw e (record { low = c.low; high = c.high })
]

pub count_byte-IsCounted :
    (n : ℕ) (s : Sha1)
    → IsCounted n s
    → 8 * (n + 1) < 2 ^ 64
    → (s' : Sha1) × (count_byte s ≡ some s') × (s'.block ≡ s.block) × IsCounted (n + 1) s'
unfolding count_byte
count_byte-IsCounted n s c l =
    let cl = c.low in
    let ch = c.high in
    elim (Bool-cases (ltb s.bit_count_low 0xFFFFFFF8)) [
      | inl e ↦
          let d : s.bit_count_low < 0xFFFFFFF8 = ground (arith, e) in
          (
            record s { bit_count_low = s.bit_count_low + 8 },
            rw e refl,
            refl,
            record { low = omega arith; high = omega arith },
          )
      | inr e ↦
          let d : 0xFFFFFFF8 ≤ s.bit_count_low = ground (arith, e) in
          let q : s.bit_count_high ≤ 0xFFFFFFFE = omega arith in
          let f : leb s.bit_count_high 0xFFFFFFFE ≡ true = ground (arith, q) in
          (
            record s { bit_count_low = 0; bit_count_high = s.bit_count_high + 1 },
            rw (e, f) refl,
            refl,
            record { low = omega arith; high = omega arith },
          )
    ]

pub message_loop-feed :
    (xs : Bytes) (n : ℕ) (st : Hash × Sha1)
    → IsCounted n st.1
    → 8 * (n + length xs) < 2 ^ 64
    → (st' : Hash × Sha1) × (message_loop xs st ≡ some st')
      × (view st' ≡ feed xs (view st))
      × IsCounted (n + length xs) st'.1
unfolding message_loop
message_loop-feed [] n st c l = (st, refl, refl, subst (λ k. IsCounted k st.1) (omega arith) c)
message_loop-feed (x ∷ xs) n st c l =
    let st1 = byte x st in
    let (s2, e, k, d) = count_byte-IsCounted n st1.1 (byte-IsCounted x n st c) (omega arith) in
    let (st', f, v, g) = message_loop-feed xs (n + 1) (st1.0, s2) d (omega arith) in
    let m : n + 1 + length xs ≡ n + suc (length xs) = omega arith in
    (
      st',
      ap
            (λ (o : Option Sha1). elim o as (λ _. Option (Hash × Sha1)) [
              | none ↦ none
              | some s' ↦ message_loop xs (st1.0, s')
            ])
            e
          ∙ f,
      v ∙ ap (λ (b : Bytes). feed xs (st1.0, b)) k ∙ ap (feed xs) (byte-feed x st),
      subst (λ j. IsCounted j st'.1) m g,
    )

pub zeros_while-feed :
    (k fuel : ℕ) (p : ℕ → Bool) (st : Hash × Sha1)
    → length st.1.block < 64
    → k ≤ fuel
    → ((j : ℕ) → j < k → p ((length st.1.block + j) % 64) ≡ true)
    → p ((length st.1.block + k) % 64) ≡ false
    → view (zeros_while fuel p st) ≡ feed (replicate k 0) (view st)
unfolding zeros_while
zeros_while-feed zero zero p st l f t e = refl
zeros_while-feed zero (suc fuel) p st l f t e =
    let i : (length st.1.block + 0) % 64 ≡ length st.1.block = omega arith in
    let d : p (length st.1.block) ≡ false = ap p (sym i) ∙ e in rw d refl
zeros_while-feed (suc k) zero p st l f t e = absurd (omega arith)
zeros_while-feed (suc k) (suc fuel) p st l f t e =
    let n = length st.1.block in
    let i : (n + 0) % 64 ≡ n = omega arith in
    let d : p n ≡ true = ap p (sym i) ∙ t 0 (omega arith) in
    let b : length (byte 0 st).1.block ≡ (n + 1) % 64 =
      ap (λ (v : Hash × Bytes). length v.1) (byte-feed 0 st) ∙ feed_byte-length 0 (view st) l in
    let rest =
      zeros_while-feed k fuel p (byte 0 st) (omega arith) (omega arith)
        (λ j m.
          let q : (length (byte 0 st).1.block + j) % 64 ≡ (n + suc j) % 64 = omega arith in
          ap p q ∙ t (suc j) (omega arith))
        (let q : (length (byte 0 st).1.block + k) % 64 ≡ (n + suc k) % 64 = omega arith in
          ap p q ∙ e) in
    rw d (rest ∙ ap (feed (replicate k 0)) (byte-feed 0 st))

pub zeros_while-IsCounted :
    (fuel n : ℕ) (p : ℕ → Bool) (st : Hash × Sha1)
    → IsCounted n st.1
    → IsCounted n (zeros_while fuel p st).1
unfolding zeros_while
zeros_while-IsCounted zero n p st c = c
zeros_while-IsCounted (suc fuel) n p st c =
    let rest = zeros_while-IsCounted fuel n p (byte 0 st) (byte-IsCounted 0 n st c) in
    elim (Bool-cases (p (length st.1.block))) [ inl e ↦ rw e rest | inr e ↦ rw e c ]

pub replicate-add : (j k : ℕ) → replicate j 0 ++ replicate k 0 ≡ replicate {A = ℕ} (j + k) 0
replicate-add zero k = ap (λ n. replicate n 0) (omega arith)
replicate-add (suc j) k =
    let e : suc (j + k) ≡ suc j + k = omega arith in
    ap (λ l. 0 ∷ l) (replicate-add j k) ∙ ap (λ n. replicate n 0) e

pub below_56 : (x : ℕ) → x < 56 → ltb x 56 ≡ true
below_56 x l = ground (arith, l)

pub beyond_56 : (x : ℕ) → 56 ≤ x → ltb x 56 ≡ false
beyond_56 x l = ground (arith, l)

pub positive : (x : ℕ) → 0 < x → not (x == 0) ≡ true
positive x l = ground (arith, l)

pub at_zero : (x : ℕ) → x ≡ 0 → not (x == 0) ≡ false
at_zero x l = ground (arith, l)

pub pad-feed :
    (n : ℕ) (st : Hash × Sha1)
    → length st.1.block < 64
    → IsCounted n st.1
    → (view (pad st) ≡ feed (replicate ((120 - length st.1.block) % 64) 0) (view st))
      × IsCounted n (pad st).1
unfolding pad
pad-feed n st l c =
    let i = length st.1.block in
    elim (Bool-cases (ltb 56 i)) [
      | inr e ↦
          let q : i ≤ 56 = ground (arith, e) in
          let r : 56 - i ≡ (120 - i) % 64 = omega arith in
          (
            rw e (
                zeros_while-feed (56 - i) 64 (λ j. ltb j 56) st l (omega arith)
                  (λ j m. below_56 _ (omega arith)) (beyond_56 _ (omega arith))
                ∙ ap (λ k. feed (replicate k 0) (view st)) r),
            rw e (zeros_while-IsCounted 64 n (λ j. ltb j 56) st c),
          )
      | inl e ↦
          let q : 56 < i = ground (arith, e) in
          let st1 = zeros_while 64 (λ j. not (j == 0)) st in
          let r : 64 - i + 56 ≡ (120 - i) % 64 = omega arith in
          let v : view st1 ≡ feed (replicate (64 - i) 0) (view st) =
            zeros_while-feed (64 - i) 64 (λ j. not (j == 0)) st l (omega arith)
              (λ j m. positive _ (omega arith)) (at_zero _ (omega arith)) in
          let m =
            ap (λ (w : Hash × Bytes). length w.1) v
            ∙ feed-length (replicate (64 - i) 0) (view st) l in
          let d = length-replicate {A = ℕ} (64 - i) 0 in
          let z : length st1.1.block ≡ 0 = omega arith in
          (
            rw e (
                zeros_while-feed 56 64 (λ j. ltb j 56) st1 (omega arith) (omega arith)
                  (λ j m. below_56 _ (omega arith)) (beyond_56 _ (omega arith))
                ∙ ap (feed (replicate 56 0)) v
                ∙ sym (feed-append (replicate (64 - i) 0) (replicate 56 0) (view st))
                ∙ ap (λ l. feed l (view st)) (replicate-add (64 - i) 56)
                ∙ ap (λ k. feed (replicate k 0) (view st)) r),
            rw e (
                zeros_while-IsCounted 64 n (λ j. ltb j 56) st1
                  (zeros_while-IsCounted 64 n (λ j. not (j == 0)) st c)),
          )
    ]

pub bytes_loop-feed : (m : Bytes) (st : Hash × Sha1) → view (bytes_loop m st) ≡ feed m (view st)
unfolding bytes_loop
bytes_loop-feed [] st = refl
bytes_loop-feed (x ∷ xs) st = bytes_loop-feed xs (byte x st) ∙ ap (feed xs) (byte-feed x st)
