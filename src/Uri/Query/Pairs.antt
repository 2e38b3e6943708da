-- ===== src/Uri/Query/Pairs.antt =====
-- URIQuery::Parse of src/URI.cc reads back what URIQuery::Str writes.
use ign_common.Common.{
  ℕ, ◌≡◌, ◌≢◌, refl, sym, ◌∙◌, ap, true, false, some, List, [], ◌∷◌, ◌++◌, arith, map,
}
use mathlib.Core.List.{append_assoc, append-nil}
use ign_common.Common.Text.{Bytes, codes, Lacks-append, Lacks-front, Lacks-back, All, Lacks}
use ign_common.Util.{trimmed}
use ign_common.Util.Trimming.{trimmed-Lacks}
use ign_common.Uri.Chars.{allowed_after-Lacks}
use ign_common.Util.Words.{IsToken, after, join-after, join, split-spell}
use ign_common.Uri.Query.{
  UriQuery, valid_after, query_chars, pair_text, str_loop, str, valid, insert_piece, insert_pieces,
  parse_valid, parse, clear,
}

-- A key is not empty, and neither a key nor a value holds a separator.
abbrev pub IsPair : Bytes × Bytes → Type 0
IsPair (key, value) =
    (key ≢ []) × Lacks b'=' key × Lacks b'&' key × Lacks b'=' value × Lacks b'&' value

-- A pair's text is a piece of the query.
pair_text-IsToken : (v : Bytes × Bytes) → IsPair v → IsToken b'&' (pair_text v)
pair_text-IsToken ([], value) h = absurd (h.0 refl)
pair_text-IsToken (c ∷ key, []) h = (λ e. cc, h.2)
pair_text-IsToken (c ∷ key, d ∷ value) h =
    (λ e. cc, Lacks-append b'&' (c ∷ key) (b'=' ∷ d ∷ value) h.2 (omega arith, h.4))

insert_piece-pair_text :
    (q : UriQuery) (v : Bytes × Bytes)
    → IsPair v
    → Lacks 0 (pair_text v)
    → insert_piece q (pair_text v) ≡ some (record { values = q.values ++ v ∷ [] })
unfolding insert_piece
insert_piece-pair_text q ([], value) h z = absurd (h.0 refl)
insert_piece-pair_text q (c ∷ key, []) h z =
    rw
      (insert_piece, split-spell b'=' false false ((c ∷ key) ∷ []) ((h.0, h.1), tt) z (omega arith))
      refl
insert_piece-pair_text q (c ∷ key, d ∷ value) h z =
    rw
      (
        insert_piece,
        split-spell b'=' false false ((c ∷ key) ∷ (d ∷ value) ∷ [])
            ((h.0, h.1), ((λ e. cc, h.3), tt)) z (omega arith),
      )
      refl

insert_pieces-pairs :
    (q : UriQuery) (vs : List (Bytes × Bytes))
    → All IsPair vs
    → All (λ v. Lacks 0 (pair_text v)) vs
    → insert_pieces q (map pair_text vs) ≡ some (record { values = q.values ++ vs })
unfolding insert_pieces
insert_pieces-pairs q [] h z = ap (λ x. some (record { values = x })) (sym (append-nil q.values))
insert_pieces-pairs q (v ∷ vs) h z =
    rw (insert_pieces, insert_piece-pair_text q v h.0 z.0)
      (insert_pieces-pairs (record { values = q.values ++ v ∷ [] }) vs h.1 z.1
        ∙ ap (λ x. some (record { values = x })) (append_assoc q.values (v ∷ []) vs))

str_loop-pairs :
    (vs : List (Bytes × Bytes)) (c : ℕ) (r : Bytes)
    → str_loop (codes "&") vs (b'?' ∷ c ∷ r) ≡ (b'?' ∷ c ∷ r) ++ after b'&' (map pair_text vs)
unfolding str_loop
str_loop-pairs [] c r = sym (append-nil (b'?' ∷ c ∷ r))
str_loop-pairs (v ∷ vs) c r =
    str_loop-pairs vs c ((r ++ codes "&") ++ pair_text v)
    ∙ ap (λ t. b'?' ∷ c ∷ t)
        (append_assoc (r ++ codes "&") (pair_text v) (after b'&' (map pair_text vs))
          ∙ append_assoc r (codes "&") (pair_text v ++ after b'&' (map pair_text vs)))

str-join :
    (v : Bytes × Bytes) (vs : List (Bytes × Bytes))
    → IsPair v
    → str (codes "&") (record { values = v ∷ vs }) ≡ b'?' ∷ join b'&' (map pair_text (v ∷ vs))
unfolding str str_loop
str-join ([], value) vs h = absurd (h.0 refl)
str-join (c ∷ key, []) vs h =
    str_loop-pairs vs c key
    ∙ ap (λ t. b'?' ∷ t) (sym (join-after b'&' (c ∷ key) (map pair_text vs)))
str-join (c ∷ key, d ∷ value) vs h =
    str_loop-pairs vs c (key ++ b'=' ∷ d ∷ value)
    ∙ ap (λ t. b'?' ∷ t) (sym (join-after b'&' (pair_text (c ∷ key, d ∷ value)) (map pair_text vs)))

tokens : (vs : List (Bytes × Bytes)) → All IsPair vs → All (IsToken b'&') (map pair_text vs)
tokens [] h = tt
tokens (v ∷ vs) h = (pair_text-IsToken v h.0, tokens vs h.1)

pieces-Lacks :
    (vs : List (Bytes × Bytes))
    → Lacks 0 (join b'&' (map pair_text vs))
    → All (λ v. Lacks 0 (pair_text v)) vs
pieces-Lacks [] z = tt
pieces-Lacks (v ∷ []) z = (z, tt)
pieces-Lacks (v ∷ w ∷ vs) z =
    (Lacks-front 0 (pair_text v) _ z, pieces-Lacks (w ∷ vs) (Lacks-back 0 (pair_text v) _ z).1)

valid_after-Lacks : (c : ℕ) (s : Bytes) → c ≢ 0 → valid_after c s ≡ true → Lacks 0 s
unfolding valid_after
valid_after-Lacks c [] n h = tt
valid_after-Lacks c (x ∷ s) n h =
    (ground (arith, h, n), allowed_after-Lacks query_chars x s refl (ground (arith, h)))

-- A valid query has no zero byte.
valid-Lacks : (s : Bytes) → valid s ≡ true → Lacks 0 s
unfolding valid
valid-Lacks s h = trimmed-Lacks s (valid_after-Lacks b'?' (trimmed s) (omega arith) h)

-- Parse reads a query back from what Str writes, whatever the query it is read into, when there is
-- a pair, no key is empty, no key or value holds = or &, and the text is valid.
pub parse-str_pairs :
    (q r : UriQuery)
    → q.values ≢ []
    → All IsPair q.values
    → valid (str (codes "&") q) ≡ true
    → parse (str (codes "&") q) r ≡ some (true, q)
unfolding parse parse_valid
parse-str_pairs q r n h k = go q.values refl
  where
    go : (vs : List (Bytes × Bytes)) → q.values ≡ vs → parse (str (codes "&") q) r ≡ some (true, q)
    go [] e = absurd (n e)
    go (v ∷ vs) e =
        let a : All IsPair (v ∷ vs) = rw e at h in
        let s : str (codes "&") q ≡ b'?' ∷ join b'&' (map pair_text (v ∷ vs)) =
          ap (λ x. str (codes "&") (record { values = x })) e ∙ str-join v vs a.0 in
        let w : valid (b'?' ∷ join b'&' (map pair_text (v ∷ vs))) ≡ true = rw s at k in
        let z : Lacks 0 (join b'&' (map pair_text (v ∷ vs))) = (valid-Lacks _ w).1 in
        rw
          (
            s,
            w,
            parse,
            parse_valid,
            split-spell b'&' false false (map pair_text (v ∷ vs)) (tokens (v ∷ vs) a) z
                (omega arith),
            insert_pieces-pairs (clear r) (v ∷ vs) a (pieces-Lacks (v ∷ vs) z),
          )
          (ap (λ x. some (true, record { values = x })) (sym e))
