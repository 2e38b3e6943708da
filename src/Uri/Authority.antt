-- ===== src/Uri/Authority.antt =====
-- URIAuthority of src/URI.cc: the user, the host and the port. A function that throws returns `none`
-- there. The standard library's stoi and to_string are written out.
pub mod Decimal
pub mod RoundTrip
use ign_common.Common.{
  ℕ, zero, suc, ◌+◌, ◌-◌, ◌*◌, ◌/◌, ◌%◌, Bool, true, false, ◌&&◌, ◌||◌, Option, none, some, [], ◌∷◌,
  ◌++◌, ◌==◌, ltb, leb, if◌then◌else◌, length,
}
use mathlib.Core.Bool.{not}
use ign_common.Common.Int.{ℤ, pos, negsuc, pos_part, neg_part}
use ign_common.Common.Text.{Bytes, codes, eqb, is_empty, is_some, find_char, substr}
use ign_common.Util.{trimmed, is_space, find_text, take_while, drop_while}
use ign_common.Uri.Chars.{find_first_not_of}

pub record UriAuthority : Type 0 where
  pub user_info : Bytes
  pub host : Bytes
  pub port : Option ℤ
  pub empty_host_valid : Bool
  pub has_empty_host : Bool

-- Clear, on any authority.
abbrev pub clear : UriAuthority → UriAuthority
clear a = record {
  user_info = [];
  host = [];
  port = none;
  empty_host_valid = false;
  has_empty_host = false;
}

abbrev pub set_user_info : UriAuthority → Bytes → UriAuthority
set_user_info a s = record a { user_info = s }

abbrev pub set_host : UriAuthority → Bytes → UriAuthority
set_host a s = record a { host = s }

abbrev pub set_port : UriAuthority → ℤ → UriAuthority
set_port a n = record a { port = some n }

abbrev pub set_empty_host_valid : UriAuthority → Bool → UriAuthority
set_empty_host_valid a b = record a { empty_host_valid = b }

-- operator=
abbrev pub assign : UriAuthority → UriAuthority → UriAuthority
assign a b = record {
  user_info = b.user_info;
  host = b.host;
  port = b.port;
  empty_host_valid = b.empty_host_valid;
  has_empty_host = b.has_empty_host;
}

abbrev eqb_port : Option ℤ → Option ℤ → Bool
eqb_port none none = true
eqb_port none (some m) = false
eqb_port (some n) none = false
eqb_port (some n) (some m) = (pos_part n == pos_part m) && (neg_part n == neg_part m)

abbrev eqb_bool : Bool → Bool → Bool
eqb_bool true b = b
eqb_bool false b = not b

-- operator==: whether the host was set to empty is not compared.
abbrev pub equal : UriAuthority → UriAuthority → Bool
equal a b =
    eqb a.user_info b.user_info
    && eqb a.host b.host
    && eqb_port a.port b.port
    && eqb_bool a.empty_host_valid b.empty_host_valid

-- The decimal digits of a number, in front of a text; a digit less is left in each round.
digits_loop : ℕ → ℕ → Bytes → Bytes
digits_loop zero n s = s
digits_loop (suc fuel) n s =
    let rest = digits_loop fuel (n / 10) in
    if ltb n 10 then (b'0' + n) ∷ s else rest ((b'0' + n % 10) ∷ s)

unfoldable pub to_string : ℤ → Bytes
unfolding digits_loop
to_string (pos n) = digits_loop (suc n) n []
to_string (negsuc n) = b'-' ∷ digits_loop (suc (suc n)) (suc n) []

abbrev is_digit : ℕ → Bool
is_digit c = leb b'0' c && leb c b'9'

value_loop : ℕ → Bytes → ℕ
value_loop n [] = n
value_loop n (c ∷ s) = value_loop (n * 10 + (c - b'0')) s

-- An int of 32 bits, from its sign and its digits.
int_of : Bool → Bytes → Option ℤ
int_of negative [] = none
int_of false (c ∷ s) =
    let n = value_loop 0 (c ∷ s) in if ltb n 2147483648 then some (pos n) else none
int_of true (c ∷ s) =
    let n = value_loop 0 (c ∷ s) in
    if leb n 2147483648 then some (if n == 0 then pos 0 else negsuc (n - 1)) else none

signed_of : Bytes → Option ℤ
unfolding int_of value_loop
signed_of [] = none
signed_of (c ∷ s) =
    if c == b'-'
    then int_of true (take_while is_digit s)
    else int_of false (take_while is_digit (if c == b'+' then s else c ∷ s))

-- stoi; `none` where it throws.
unfoldable pub stoi : Bytes → Option ℤ
unfolding signed_of
stoi s = signed_of (drop_while is_space s)

abbrev port_text : Option ℤ → Bytes
port_text none = []
port_text (some n) = b':' ∷ to_string n

unfoldable pub str : UriAuthority → Bytes
str a =
    if not (is_empty a.host) || (a.empty_host_valid && a.has_empty_host)
    then codes "//"
      ++ ((if is_empty a.user_info then [] else a.user_info ++ codes "@")
          ++ (a.host ++ port_text a.port))
    else []

abbrev user_chars : Bytes
user_chars = codes "qwertzuiopasdfghjklyxcvbnmQWERTZUIOPASDFGHJKLYXCVBNM0123456789-._~%!$&'()*+,;="

abbrev host_chars : Bytes
host_chars = codes "qwertzuiopasdfghjklyxcvbnmQWERTZUIOPASDFGHJKLYXCVBNM0123456789%-._[] :"

abbrev is_zero : Option ℕ → Bool
is_zero none = false
is_zero (some n) = n == 0

-- The host that Valid finds from a position on; `none` when a bracket is not closed. The length in
-- brackets is the position of the closing one, as the source has it.
host_of : Bytes → ℕ → Option Bytes
host_of s from = elim (find_char s b'[' from) [
  | some i ↦ elim (find_char s b']' i) [ none ↦ none | some j ↦ some (substr s i (some j)) ]
  | none ↦ elim (find_char s b':' from) [
    | some i ↦ some (substr s from (some (i - from)))
    | none ↦ some (substr s from none)
  ]
]

valid_port : Bytes → ℕ → Bool
unfolding find_first_not_of
valid_port s from = elim (find_char s b':' from) [
  | none ↦ true
  | some i ↦ not (is_some (find_first_not_of (codes "0123456789") (substr s (i + 1) none) 1))
]

valid_host : Bytes → Bool → ℕ → Bool
unfolding find_first_not_of host_of valid_port
valid_host s allow_empty from = elim (host_of s from) [
  | none ↦ false
  | some host ↦
      if is_empty host && not allow_empty
      then false
      else if is_some (find_first_not_of host_chars host 1)
      then false
      else valid_port s (from + length host)
]

-- Behind the two slashes. Every position is inside the text from here on.
valid_user : Bytes → Bool → Bool
unfolding find_first_not_of valid_host
valid_user s allow_empty = elim (find_char s b'@' 2) [
  | none ↦ valid_host s allow_empty 2
  | some i ↦
      if is_some (find_first_not_of user_chars (substr s 2 (some (i - 2))) 1)
      then false
      else valid_host s allow_empty (i + 1)
]

unfoldable pub valid : Bytes → Bool → Bool
unfolding valid_user
valid text allow_empty =
    let s = trimmed text in
    if is_empty s
    then true
    else if is_zero (find_text s (codes "//") 0)
    then valid_user s allow_empty
    else false

-- substr throws when the position is past the end.
abbrev pub checked_substr : Bytes → ℕ → Option ℕ → Option Bytes
checked_substr s from n = if ltb (length s) from then none else some (substr s from n)

parse_port : Bytes → ℕ → Option ℤ
parse_port s from = elim (find_char s b':' from) [
  | none ↦ none
  | some i ↦ stoi (substr s (i + 1) none)
]

parse_host : Bytes → ℕ → Option Bytes
parse_host s from = elim (find_char s b'[' from) [
  | some i ↦ checked_substr s i (find_char s b']' i)
  | none ↦ elim (find_char s b':' from) [
    | some i ↦ checked_substr s from (some (i - from))
    | none ↦ checked_substr s from none
  ]
]

-- The host and the port, behind the user.
parse_rest : Bytes → UriAuthority → ℕ → Option (Bool × UriAuthority)
unfolding parse_port parse_host
parse_rest s a from = elim (parse_host s from) [
  | none ↦ none
  | some h ↦ some (true, record a { host = h; port = parse_port s (from + length h) })
]

-- A position below 2 makes the length wrap around and takes all.
parse_user : Bytes → UriAuthority → Option (Bool × UriAuthority)
unfolding parse_rest
parse_user s a = elim (find_char s b'@' 0) [
  | none ↦ parse_rest s a 2
  | some i ↦ elim (checked_substr s 2 (if ltb i 2 then none else some (i - 2))) [
    | none ↦ none
    | some u ↦ parse_rest s (record a { user_info = u }) (i + 1)
  ]
]

-- Parse: whether the text is accepted, and the authority behind the call.
unfoldable pub parse : Bytes → Bool → UriAuthority → Option (Bool × UriAuthority)
unfolding parse_user
parse s allow_empty a =
    let cleared = record (clear a) { empty_host_valid = allow_empty } in
    if valid s allow_empty
    then if is_empty s || eqb s (codes "//")
      then some (true, record cleared { has_empty_host = true })
      else parse_user s cleared
    else some (false, a)
