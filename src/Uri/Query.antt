-- ===== src/Uri/Query.antt =====
-- URIQuery of src/URI.cc: the keys of a query with their values, in order. A function that can
-- throw, loop or read out of bounds returns `none` there.
pub mod Pairs
use ign_common.Common.{
  ℕ, Bool, true, false, Option, none, some, List, [], ◌∷◌, ◌++◌, ◌==◌, if◌then◌else◌, drop,
}
use mathlib.Core.Bool.{not}
use ign_common.Common.Text.{Bytes, codes, eqb, is_empty, is_some}
use ign_common.Util.{trimmed, split}
use ign_common.Uri.Chars.{find_first_not_of}

pub record UriQuery : Type 0 where
  pub values : List (Bytes × Bytes)

abbrev pub insert : UriQuery → Bytes → Bytes → UriQuery
insert q key value = record { values = q.values ++ (key, value) ∷ [] }

-- One pair of Str.
abbrev pub pair_text : Bytes × Bytes → Bytes
pair_text (key, value) = if is_empty value then key else key ++ b'=' ∷ value

-- The loop of Str: a delimiter comes before every pair that does not find a single question mark.
unfoldable pub str_loop : Bytes → List (Bytes × Bytes) → Bytes → Bytes
str_loop delim [] result = result
str_loop delim (value ∷ values) result =
    str_loop delim values
      ((if not (eqb result (codes "?")) then result ++ delim else result) ++ pair_text value)

unfoldable pub str : Bytes → UriQuery → Bytes
unfolding str_loop
str delim q = elim q.values [ [] ↦ [] | v ∷ vs ↦ str_loop delim (v ∷ vs) (codes "?") ]

abbrev pub clear : UriQuery → UriQuery
clear q = record { values = [] }

abbrev pub assign : UriQuery → UriQuery → UriQuery
assign q other = record { values = other.values }

abbrev pub equal : UriQuery → UriQuery → Bool
unfolding str
equal q other = eqb (str (codes "&") q) (str (codes "&") other)

abbrev pub query_chars : Bytes
query_chars =
    codes "qwertzuiopasdfghjklyxcvbnmQWERTZUIOPASDFGHJKLYXCVBNM0123456789/?:@%-._~!$&'()*+,;="

-- The test of a text that is not blank: it starts with `c`, and what follows is allowed.
unfoldable pub valid_after : ℕ → Bytes → Bool
unfolding find_first_not_of
valid_after c [] = true
valid_after c (x ∷ s) =
    if x == c then not (is_some (find_first_not_of query_chars (x ∷ s) 1)) else false

unfoldable pub valid : Bytes → Bool
unfolding valid_after
valid s = valid_after b'?' (trimmed s)

-- A piece between two & is a key and a value when = splits it in two, and else a key.
insert_piece : UriQuery → Bytes → Option UriQuery
insert_piece q piece = elim (split piece (codes "=")) [
  | none ↦ none
  | some [] ↦ some (insert q piece [])
  | some (k ∷ []) ↦ some (insert q piece [])
  | some (k ∷ v ∷ []) ↦ some (insert q k v)
  | some (k ∷ v ∷ w ∷ ws) ↦ some (insert q piece [])
]

insert_pieces : UriQuery → List Bytes → Option UriQuery
unfolding insert_piece
insert_pieces q [] = some q
insert_pieces q (piece ∷ pieces) = elim (insert_piece q piece) [
  | none ↦ none
  | some r ↦ insert_pieces r pieces
]

-- Parse, after the test.
parse_valid : UriQuery → Bytes → Option UriQuery
unfolding insert_pieces
parse_valid q [] = some (clear q)
parse_valid q (c ∷ s) = elim (split s (codes "&")) [
  | none ↦ none
  | some pieces ↦ insert_pieces (clear q) pieces
]

unfoldable pub parse : Bytes → UriQuery → Option (Bool × UriQuery)
unfolding parse_valid
parse s q =
    if valid s
    then elim (parse_valid q s) [ none ↦ none | some r ↦ some (true, r) ]
    else some (false, q)
