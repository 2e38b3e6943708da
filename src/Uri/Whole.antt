-- ===== src/Uri/Whole.antt =====
-- URI of src/URI.cc: a text is cut into scheme, authority, path, query and fragment. A function that
-- throws or reads out of bounds returns `none` there.
pub mod Cuts
use ign_common.Common.{
  ℕ, zero, suc, ◌+◌, ◌-◌, Bool, true, false, ◌&&◌, ◌||◌, Option, none, some, List, [], ◌∷◌, ◌++◌,
  ◌==◌, if◌then◌else◌, length, drop, get_elem?,
}
use mathlib.Core.Bool.{not}
use ign_common.Common.Text.{Bytes, codes, eqb, is_empty, is_some, find_char, take_upto, erase_front}
use ign_common.Util.{trimmed, find_text}
use ign_common.Uri.Chars.{find_first_of}
use ign_common.Uri.Authority.{UriAuthority}
use ign_common.Uri.Authority
use ign_common.Uri.Path.{UriPath}
use ign_common.Uri.Path
use ign_common.Uri.Query.{UriQuery}
use ign_common.Uri.Query
use ign_common.Uri.Fragment.{UriFragment}
use ign_common.Uri.Fragment

pub record Uri : Type 0 where
  pub scheme : Bytes
  pub authority : UriAuthority
  pub path : UriPath
  pub query : UriQuery
  pub fragment : UriFragment

-- The path, query and fragment of a text, as Valid and Parse both cut them.
pub record Tail : Type 0 where
  pub path_text : Bytes
  pub query_text : Bytes
  pub fragment_text : Bytes

unfoldable pub cut_query : Bytes → Bytes × Bytes
cut_query s =
    if is_some (find_char s b'?' 0)
    then (take_upto (find_char s b'#' 0) s, erase_front (find_char s b'#' 0) s)
    else ([], s)

unfoldable pub cut : Bytes → Tail
unfolding cut_query find_first_of
cut s =
    let path_end = find_first_of (codes "?#") s 0 in
    let (query, rest) = cut_query (erase_front path_end s) in
    record {
      path_text = take_upto path_end s;
      query_text = query;
      fragment_text = if is_some (find_char rest b'#' 0) then rest else [];
    }

pub str : Uri → Bytes
unfolding Authority.str Path.str Query.str
str u =
    (if is_empty u.scheme then [] else u.scheme ++ codes ":")
    ++ (Authority.str u.authority
        ++ (Path.str (codes "/") u.path
            ++ (Query.str (codes "&") u.query ++ Fragment.str u.fragment)))

abbrev pub clear : Uri → Uri
clear u = record {
  scheme = [];
  authority = Authority.clear u.authority;
  path = Path.clear u.path;
  query = Query.clear u.query;
  fragment = Fragment.clear u.fragment;
}

-- operator=, through the assignments of the parts.
abbrev pub assign : Uri → Uri → Uri
assign u v = record {
  scheme = v.scheme;
  authority = Authority.assign u.authority v.authority;
  path = Path.assign u.path v.path;
  query = Query.assign u.query v.query;
  fragment = Fragment.assign u.fragment v.fragment;
}

abbrev pub equal : Uri → Uri → Bool
equal u v =
    eqb u.scheme v.scheme
    && Authority.equal u.authority v.authority
    && Path.equal u.path v.path
    && Query.equal u.query v.query
    && Fragment.equal u.fragment v.fragment

abbrev is_at : Option ℕ → ℕ → Bool
is_at none n = false
is_at (some m) n = m == n

-- The end of Valid, with the authority that was found.
valid_parts : Bool → Bool → Bytes → Bytes → Bool
unfolding cut Authority.valid Path.valid Query.valid Fragment.valid
valid_parts is_file present authority s =
    let t = cut s in
    if (not is_file || present) && not (Authority.valid authority is_file)
    then false
    else Path.valid t.path_text && Query.valid t.query_text && Fragment.valid t.fragment_text

valid_behind : Bytes → Bytes → Bool
unfolding valid_parts find_first_of
valid_behind scheme s =
    let is_file = eqb scheme (codes "file") in
    let authority_end = find_first_of (codes "/?#") s 2 in
    if is_at (find_text s (codes "//") 0) 0
    then if not is_file && is_at authority_end 2
      then false
      else valid_parts is_file true (take_upto authority_end s) (erase_front authority_end s)
    else valid_parts is_file false [] s

unfoldable pub valid : Bytes → Bool
unfolding valid_behind
valid text =
    let s = trimmed text in
    elim (find_char s b':' 0) [
      | none ↦ false
      | some i ↦ if i == 0 then false else valid_behind (take_upto (some i) s) (drop (i + 1) s)
    ]

-- The last return of Parse: a part is parsed when the parts before it were.
parse_tail : Tail → Uri → Option (Bool × Uri)
unfolding Path.parse Query.parse Fragment.parse
parse_tail t u = elim (Path.parse t.path_text u.path) [
  | none ↦ none
  | some (false, p) ↦ some (false, record u { path = p })
  | some (true, p) ↦ elim (Query.parse t.query_text u.query) [
    | none ↦ none
    | some (false, q) ↦ some (false, record u { path = p; query = q })
    | some (true, q) ↦
        let (done, f) = Fragment.parse t.fragment_text u.fragment in
        some (done, record u { path = p; query = q; fragment = f })
  ]
]

parse_parts : Bytes → Bool → Bytes → Bytes → Uri → Option (Bool × Uri)
unfolding parse_tail cut Authority.parse
parse_parts scheme present authority s u =
    let is_file = eqb scheme (codes "file") in
    let cleared = record (clear u) { scheme = scheme } in
    if not is_file || present
    then elim (Authority.parse authority is_file cleared.authority) [
      | none ↦ none
      | some (false, a) ↦ some (false, record cleared { authority = a })
      | some (true, a) ↦ parse_tail (cut s) (record cleared { authority = a })
    ]
    else parse_tail (cut s) cleared

abbrev char_is : Bytes → ℕ → ℕ → Bool
char_is s i c = elim (get_elem? s i) [ none ↦ false | some x ↦ x == c ]

-- The authority: with no end the source reads before the text, and a colon before a slash is a
-- drive of Windows.
parse_behind : Bytes → Bytes → Uri → Option (Bool × Uri)
unfolding parse_parts find_first_of
parse_behind scheme s u =
    if is_at (find_text s (codes "//") 0) 0
    then elim (find_first_of (codes "/?#") s 2) [
      | none ↦ none
      | some e ↦
          if char_is s (e - 1) b':' && char_is s e b'/'
          then parse_parts scheme false [] (drop 2 s) u
          else if not (eqb scheme (codes "file")) && (e == 2)
          then some (false, u)
          else parse_parts scheme true (take_upto (some e) s) (drop e s) u
    ]
    else parse_parts scheme false [] s u

-- Parse: whether the text is accepted, and the address behind the call. Without a colon the scheme
-- is the whole text, and the position behind it wraps around to 0.
unfoldable pub parse : Bytes → Uri → Option (Bool × Uri)
unfolding parse_behind
parse text u =
    if valid text
    then elim (find_char text b':' 0) [
      | none ↦ parse_behind text text u
      | some i ↦ parse_behind (take_upto (some i) text) (drop (i + 1) text) u
    ]
    else some (false, u)
