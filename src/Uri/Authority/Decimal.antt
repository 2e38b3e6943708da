-- ===== src/Uri/Authority/Decimal.antt =====
-- stoi reads back what to_string writes, as src/URI.cc uses them for a port.
use ign_common.Common.{
  ℕ, zero, suc, ◌+◌, ◌-◌, ◌*◌, ◌/◌, ◌%◌, ◌<◌, ◌≡◌, refl, sym, ◌∙◌, ap, true, false, some, [], ◌∷◌,
  arith, ◌==◌, ltb, Bool-cases, inl, inr,
}
use ign_common.Common.Int.{pos}
use ign_common.Common.Text.{Bytes, All, Lacks}
use ign_common.Util.{is_space, take_while, drop_while}
use ign_common.Uri.Authority.{digits_loop, to_string, is_digit, value_loop, int_of, signed_of, stoi}

AreDigits : Bytes → Type 0
AreDigits = All (λ c. is_digit c ≡ true)

digits_loop-value :
    (fuel n : ℕ) (s : Bytes) → n < fuel → value_loop 0 (digits_loop fuel n s) ≡ value_loop n s
unfolding digits_loop value_loop
digits_loop-value zero n s h = absurd (omega arith)
digits_loop-value (suc fuel) n s h = elim (Bool-cases (ltb n 10)) [
  | inl e ↦
      let q : 0 * 10 + (48 + n - 48) ≡ n = omega arith in
      rw (digits_loop, e) (ap (λ m. value_loop m s) q)
  | inr e ↦
      let l : n / 10 < fuel = ground (arith, e) in
      let q : n / 10 * 10 + (48 + n % 10 - 48) ≡ n = omega arith in
      rw (digits_loop, e)
        (digits_loop-value fuel (n / 10) ((b'0' + n % 10) ∷ s) l ∙ ap (λ m. value_loop m s) q)
]

-- The digits are there, and digits they are.
digits_loop-AreDigits :
    (fuel n : ℕ) (s : Bytes)
    → n < fuel
    → AreDigits s
    → (c : ℕ) × (t : Bytes) × (digits_loop fuel n s ≡ c ∷ t) × AreDigits (c ∷ t)
unfolding digits_loop AreDigits
digits_loop-AreDigits zero n s h a = absurd (omega arith)
digits_loop-AreDigits (suc fuel) n s h a =
    let r = digits_loop-AreDigits fuel (n / 10) ((b'0' + n % 10) ∷ s) in
    elim (Bool-cases (ltb n 10)) [
      | inl e ↦ (b'0' + n, s, rw (digits_loop, e) refl, (ground (arith, e), a))
      | inr e ↦
          let (c, t, q, d) = r (ground (arith, e)) (ground arith, a) in
          (c, t, rw (digits_loop, e) q, d)
    ]

take_while-AreDigits : (s : Bytes) → AreDigits s → take_while is_digit s ≡ s
unfolding AreDigits
take_while-AreDigits [] h = refl
take_while-AreDigits (c ∷ s) h = rw (h.0, take_while-AreDigits s h.1) refl

stoi-digits :
    (c : ℕ) (t : Bytes)
    → AreDigits (c ∷ t)
    → value_loop 0 (c ∷ t) < 2147483648
    → stoi (c ∷ t) ≡ some (pos (value_loop 0 (c ∷ t)))
unfolding stoi signed_of int_of AreDigits is_space
stoi-digits c t h l =
    let sp : is_space c ≡ false = ground (arith, h.0) in
    let mi : (c == b'-') ≡ false = ground (arith, h.0) in
    let pl : (c == b'+') ≡ false = ground (arith, h.0) in
    let sm : ltb (value_loop 0 (c ∷ t)) 2147483648 ≡ true = ground (arith, l) in
    let drop : drop_while is_space (c ∷ t) ≡ c ∷ t = rw sp refl in
    let sign : signed_of (c ∷ t) ≡ int_of false (take_while is_digit (c ∷ t)) =
      rw (signed_of, mi, pl) refl in
    let fits : int_of false (c ∷ t) ≡ some (pos (value_loop 0 (c ∷ t))) = rw (int_of, sm) refl in
    ap signed_of drop ∙ sign ∙ ap (int_of false) (take_while-AreDigits (c ∷ t) h) ∙ fits

-- stoi reads a number back that fits into 31 bits.
pub stoi-to_string : (n : ℕ) → n < 2147483648 → stoi (to_string (pos n)) ≡ some (pos n)
unfolding to_string value_loop
stoi-to_string n l =
    let (c, t, q, d) = digits_loop-AreDigits (suc n) n [] (omega arith) (unfold AreDigits in tt) in
    let v : value_loop 0 (c ∷ t) ≡ n =
      ap (value_loop 0) (sym q) ∙ digits_loop-value (suc n) n [] (omega arith) in
    rw q (stoi-digits c t d (omega (arith, v)) ∙ ap (λ m. some (pos m)) v)

AreDigits-Lacks : (s : Bytes) (x : ℕ) → is_digit x ≡ false → AreDigits s → Lacks x s
unfolding AreDigits
AreDigits-Lacks [] x e h = tt
AreDigits-Lacks (c ∷ s) x e h =
    (λ q. let k : is_digit x ≡ true = rw q at h.0 in cc, AreDigits-Lacks s x e h.1)

-- No character but digits is written for a natural number.
pub to_string-Lacks : (n x : ℕ) → is_digit x ≡ false → Lacks x (to_string (pos n))
unfolding to_string
to_string-Lacks n x e =
    let (c, t, q, d) = digits_loop-AreDigits (suc n) n [] (omega arith) (unfold AreDigits in tt) in
    rw q (AreDigits-Lacks (c ∷ t) x e d)
