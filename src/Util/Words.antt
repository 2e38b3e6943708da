-- ===== src/Util/Words.antt =====
-- split of src/Util.cc on words that are joined by one delimiter.
use ign_common.Common.{
  ℕ, zero, suc, ◌<◌, ◌≡◌, ◌≢◌, refl, sym, ◌∙◌, ap, Bool, true, false, some, List, [], ◌∷◌, ◌++◌,
  arith, if◌then◌else◌, length, length-append,
}
use mathlib.Core.Bool.{not}
use mathlib.Core.List.{append_assoc, append-nil}
use ign_common.Common.Text.{Bytes, All, Lacks, one_of}
use ign_common.Util.{drop_while, take_while, word_of, strtok, c_str, split_loop, split}

module _ (d : ℕ) where
  -- A word is not empty and does not hold the delimiter.
  abbrev pub IsToken : Bytes → Type 0
  IsToken w = (w ≢ []) × Lacks d w

  -- The words with the delimiter between them, and after the last one.
  abbrev pub join_end : List Bytes → Bytes
  join_end [] = []
  join_end (w ∷ ws) = w ++ d ∷ join_end ws

  -- The words with the delimiter between them.
  abbrev pub join : List Bytes → Bytes
  join [] = []
  join (w ∷ []) = w
  join (w ∷ v ∷ ws) = w ++ d ∷ join (v ∷ ws)

  -- The words with the delimiter before each.
  abbrev pub after : List Bytes → Bytes
  after [] = []
  after (w ∷ ws) = d ∷ w ++ after ws

  pub join-after : (w : Bytes) (ws : List Bytes) → join (w ∷ ws) ≡ w ++ after ws
  join-after w [] = sym (append-nil w)
  join-after w (v ∷ ws) = ap (λ t. w ++ d ∷ t) (join-after v ws)

  pub join_end-after : (w : Bytes) (ws : List Bytes) → join_end (w ∷ ws) ≡ (w ++ after ws) ++ d ∷ []
  join_end-after w [] = ap (λ t. t ++ d ∷ []) (sym (append-nil w))
  join_end-after w (v ∷ ws) =
      ap (λ t. w ++ d ∷ t) (join_end-after v ws) ∙ sym (append_assoc w (d ∷ v ++ after ws) (d ∷ []))

  abbrev nd : ℕ → Bool
  nd c = not (one_of (d ∷ []) c)

  take_while-end : (w s : Bytes) → Lacks d w → take_while nd (w ++ d ∷ s) ≡ w
  take_while-end [] s h = ground arith
  take_while-end (c ∷ w) s h = ground (arith, h.0, take_while-end w s h.1)

  drop_while-end : (w s : Bytes) → Lacks d w → drop_while nd (w ++ d ∷ s) ≡ d ∷ s
  drop_while-end [] s h = ground arith
  drop_while-end (c ∷ w) s h = ground (arith, h.0, drop_while-end w s h.1)

  take_while-all : (w : Bytes) → Lacks d w → take_while nd w ≡ w
  take_while-all [] h = refl
  take_while-all (c ∷ w) h = ground (arith, h.0, take_while-all w h.1)

  drop_while-all : (w : Bytes) → Lacks d w → drop_while nd w ≡ []
  drop_while-all [] h = refl
  drop_while-all (c ∷ w) h = ground (arith, h.0, drop_while-all w h.1)

  skip_nothing :
      (c : ℕ) (w s : Bytes)
      → Lacks d (c ∷ w)
      → drop_while (one_of (d ∷ [])) (c ∷ w ++ s) ≡ c ∷ w ++ s
  skip_nothing c w s h = ground (arith, h.0)

  strtok_word : (w s : Bytes) → IsToken w → strtok (d ∷ []) (w ++ d ∷ s) ≡ some (w, s)
  unfolding strtok word_of
  strtok_word [] s h = absurd (h.0 refl)
  strtok_word (c ∷ w) s h =
      rw (skip_nothing c w (d ∷ s) h.1, take_while-end (c ∷ w) s h.1, drop_while-end (c ∷ w) s h.1)
        refl

  strtok_last : (w : Bytes) → IsToken w → strtok (d ∷ []) w ≡ some (w, [])
  unfolding strtok word_of
  strtok_last [] h = absurd (h.0 refl)
  strtok_last (c ∷ w) h =
      let skip : drop_while (one_of (d ∷ [])) (c ∷ w) ≡ c ∷ w = ground (arith, h.1.0) in
      rw (skip, take_while-all (c ∷ w) h.1, drop_while-all (c ∷ w) h.1) refl

  strtok_lead : (s : Bytes) → strtok (d ∷ []) (d ∷ s) ≡ strtok (d ∷ []) s
  unfolding strtok
  strtok_lead s =
      let skip : drop_while (one_of (d ∷ [])) (d ∷ s) ≡ drop_while (one_of (d ∷ [])) s =
        ground arith in
      rw skip refl

  split_loop-lead :
      (fuel : ℕ) (s : Bytes) (tokens : List Bytes)
      → split_loop fuel (d ∷ []) (d ∷ s) tokens ≡ split_loop fuel (d ∷ []) s tokens
  unfolding split_loop
  split_loop-lead zero s tokens = refl
  split_loop-lead (suc fuel) s tokens = rw (strtok_lead s, split_loop) refl

  split_loop-join_end :
      (fuel : ℕ) (ws tokens : List Bytes)
      → All IsToken ws
      → length (join_end ws) < fuel
      → split_loop fuel (d ∷ []) (join_end ws) tokens ≡ some (tokens ++ ws)
  unfolding split_loop
  split_loop-join_end zero ws tokens h b = absurd (omega arith)
  split_loop-join_end (suc fuel) [] tokens h b =
      unfold strtok word_of in ap some (sym (append-nil tokens))
  split_loop-join_end (suc fuel) (w ∷ ws) tokens h b =
      rw (strtok_word w (join_end ws) h.0, split_loop)
        (split_loop-join_end fuel ws (tokens ++ w ∷ []) h.1
            (omega (arith, length-append w (d ∷ join_end ws)))
          ∙ ap some (append_assoc tokens (w ∷ []) ws))

  split_loop-join :
      (fuel : ℕ) (ws tokens : List Bytes)
      → All IsToken ws
      → length (join ws) < fuel
      → split_loop fuel (d ∷ []) (join ws) tokens ≡ some (tokens ++ ws)
  unfolding split_loop
  split_loop-join zero ws tokens h b = absurd (omega arith)
  split_loop-join (suc fuel) [] tokens h b =
      unfold strtok word_of in ap some (sym (append-nil tokens))
  split_loop-join (suc fuel) ([] ∷ []) tokens h b = absurd (h.0.0 refl)
  split_loop-join (suc fuel) ((c ∷ w) ∷ []) tokens h b =
      rw (strtok_last (c ∷ w) h.0, split_loop)
        (split_loop-join_end fuel [] (tokens ++ (c ∷ w) ∷ []) tt (omega arith)
          ∙ ap some (append-nil (tokens ++ (c ∷ w) ∷ [])))
  split_loop-join (suc fuel) (w ∷ v ∷ ws) tokens h b =
      rw (strtok_word w (join (v ∷ ws)) h.0, split_loop)
        (split_loop-join fuel (v ∷ ws) (tokens ++ w ∷ []) h.1
            (omega (arith, length-append w (d ∷ join (v ∷ ws))))
          ∙ ap some (append_assoc tokens (w ∷ []) (v ∷ ws)))

  c_str_self : (s : Bytes) → Lacks 0 s → c_str s ≡ s
  c_str_self [] h = refl
  c_str_self (c ∷ s) h = ground (arith, h.0, c_str_self s h.1)

  -- The words with the delimiter between them, before the first one and after the last one.
  abbrev pub spell : Bool → Bool → List Bytes → Bytes
  spell lead trail ws = let s = if trail then join_end ws else join ws in if lead then d ∷ s else s

  split_loop-spell :
      (fuel : ℕ) (lead trail : Bool) (ws : List Bytes)
      → All IsToken ws
      → length (spell lead trail ws) < fuel
      → split_loop fuel (d ∷ []) (spell lead trail ws) [] ≡ some ws
  split_loop-spell fuel false false ws h b = split_loop-join fuel ws [] h b
  split_loop-spell fuel false true ws h b = split_loop-join_end fuel ws [] h b
  split_loop-spell fuel true false ws h b =
      split_loop-lead fuel (join ws) [] ∙ split_loop-join fuel ws [] h (omega arith)
  split_loop-spell fuel true true ws h b =
      split_loop-lead fuel (join_end ws) [] ∙ split_loop-join_end fuel ws [] h (omega arith)

  -- split returns the words of a text without zero bytes that a delimiter joins.
  pub split-spell :
      (lead trail : Bool) (ws : List Bytes)
      → All IsToken ws
      → Lacks 0 (spell lead trail ws)
      → 0 < d
      → split (spell lead trail ws) (d ∷ []) ≡ some ws
  unfolding split
  split-spell lead trail ws h z n =
      rw (c_str_self (spell lead trail ws) z, c_str_self (d ∷ []) ((λ e. omega (arith, e)), tt))
        (split_loop-spell (suc (length (spell lead trail ws))) lead trail ws h (omega arith))
