-- ===== src/Uri/Path.antt =====
-- URIPath of src/URI.cc: the parts of a path, whether it starts with a slash, and whether it ends
-- with one. A function that can throw, loop or read out of bounds returns `none` there.
pub mod Parts
pub mod RoundTrip
pub mod Copies
use ign_common.Common.{
  ℕ, zero, suc, Bool, true, false, ◌&&◌, ◌||◌, Option, none, some, List, [], ◌∷◌, ◌++◌, ◌==◌,
  if◌then◌else◌, length, drop,
}
use mathlib.Core.Bool.{not}
use mathlib.Core.Option
use ign_common.Common.Text.{Bytes, codes, eqb, is_empty, find_char, take_upto, substr, is_some}
use ign_common.Util.{trimmed, split, replace_all}
use ign_common.Uri.Chars.{find_first_not_of}

pub record UriPath : Type 0 where
  pub path : List Bytes
  pub is_absolute : Bool
  pub trailing_slash : Bool

abbrev pub empty_path : UriPath
empty_path = record { path = []; is_absolute = false; trailing_slash = false }

-- The first character is `c`.
abbrev pub starts : ℕ → Bytes → Bool
starts c [] = false
starts c (x ∷ s) = x == c

abbrev pub is_string_absolute : Bytes → Bool
is_string_absolute s = starts b'/' s

-- The slashes of a part become %2F.
unfoldable pub encode_part : Bytes → Option Bytes
encode_part part =
    if is_some (find_char part b'/' 0)
    then replace_all part (codes "/") (codes "%2F")
    else some part

pub push_front : UriPath → Bytes → Option UriPath
unfolding encode_part
push_front p [] = some p
push_front p (c ∷ s) =
    let part = if c == b'/' then s else c ∷ s in
    elim (encode_part part) [
      | none ↦ none
      | some e ↦ some record p {
        path = if is_empty e then p.path else e ∷ p.path;
        is_absolute = (c == b'/') || p.is_absolute;
      }
    ]

-- An empty part is pushed when it is what a slash leaves.
unfoldable pub push_back : UriPath → Bytes → Option UriPath
push_back p [] = some p
push_back p (c ∷ s) =
    let strip = (length p.path == 0) && (c == b'/') in
    elim (encode_part (if strip then s else c ∷ s)) [
      | none ↦ none
      | some e ↦ some record p { path = p.path ++ e ∷ []; is_absolute = strip || p.is_absolute }
    ]

abbrev pub divide_assign : UriPath → Bytes → Option UriPath
divide_assign p part = push_back p part

unfoldable pub str_loop : Bytes → Bool → List Bytes → Bytes → Bytes
str_loop delim first [] result = result
str_loop delim first (part ∷ parts) result =
    str_loop delim false parts ((if first then result else result ++ delim) ++ part)

unfoldable pub str : Bytes → UriPath → Bytes
unfolding str_loop
str delim p =
    let result = str_loop delim true p.path (if p.is_absolute then codes "/" else []) in
    if p.trailing_slash then result ++ codes "/" else result

-- operator=: the trailing slash of the target stays.
abbrev pub assign : UriPath → UriPath → UriPath
assign p q = record p { path = q.path; is_absolute = q.is_absolute }

-- The copy constructor, and operator/ on a copy.
abbrev pub copy : UriPath → UriPath
copy q = assign empty_path q

abbrev pub divide : UriPath → Bytes → Option UriPath
divide p part = divide_assign (copy p) part

abbrev pub clear : UriPath → UriPath
clear p = record p { path = []; is_absolute = false }

abbrev pub eqb_list : List Bytes → List Bytes → Bool
eqb_list [] [] = true
eqb_list [] (w ∷ ws) = false
eqb_list (v ∷ vs) [] = false
eqb_list (v ∷ vs) (w ∷ ws) = eqb v w && eqb_list vs ws

abbrev pub eqb_bool : Bool → Bool → Bool
eqb_bool true b = b
eqb_bool false b = not b

abbrev pub equal : UriPath → UriPath → Bool
equal p q = eqb_list p.path q.path && eqb_bool p.is_absolute q.is_absolute

abbrev pub path_chars : Bytes
path_chars =
    codes "qwertzuiopasdfghjklyxcvbnmQWERTZUIOPASDFGHJKLYXCVBNM0123456789/:@%-._~!$&'()*+,;=[] "

abbrev pub first_chars : Bytes
first_chars = codes "qwertzuiopasdfghjklyxcvbnmQWERTZUIOPASDFGHJKLYXCVBNM0123456789:%+[/"

unfoldable pub valid : Bytes → Bool
unfolding find_first_not_of
valid s =
    let str = trimmed s in
    if is_empty str && not (is_empty s)
    then false
    else if is_some (find_first_not_of path_chars str 0)
    then false
    else not (is_some (find_first_not_of first_chars (substr str 0 (some 1)) 0))

push_all : UriPath → List Bytes → Option UriPath
push_all p [] = some p
push_all p (w ∷ ws) = elim (push_back p w) [ none ↦ none | some q ↦ push_all q ws ]

-- back() of an empty string is undefined.
abbrev pub back : Bytes → Option ℕ
back [] = none
back (c ∷ []) = some c
back (c ∷ d ∷ s) = back (d ∷ s)

-- The end of Parse.
finish : Bytes → UriPath → Option (Bool × UriPath)
finish s p = elim (back s) [
  | none ↦ none
  | some c ↦ some (
    true,
    record p {
      is_absolute = is_string_absolute s;
      trailing_slash = (c == b'/') && not (length s == 1);
    },
  )
]

-- Parse: whether the text is accepted, and the path behind the call.
unfoldable pub parse : Bytes → UriPath → Option (Bool × UriPath)
unfolding push_all finish
parse s p =
    if valid s
    then elim (split s (codes "/")) [
      | none ↦ none
      | some parts ↦ elim (push_all (clear p) parts) [ none ↦ none | some q ↦ finish s q ]
    ]
    else some (false, p)
