-- ===== src/Uri/Authority/RoundTrip.antt =====
-- URIAuthority::Parse of src/URI.cc reads back what URIAuthority::Str writes.
use ign_common.Common.{
  ℕ, ◌+◌, ◌-◌, ◌<◌, ◌≡◌, ◌≢◌, refl, sym, ◌∙◌, ap, true, false, ◌||◌, Option, none, some, [], ◌∷◌,
  ◌++◌, arith, ◌==◌, ltb, if◌then◌else◌, length, length-append, take, drop,
}
use mathlib.Core.List.{append_assoc, append-nil}
use ign_common.Common.Int.{ℤ, pos, negsuc}
use ign_common.Common.Text.{
  Bytes, codes, eqb, is_empty, Lacks, Lacks-append, index_where, find_char, substr, take-append,
  drop-append,
}
use ign_common.Uri.Authority.{
  UriAuthority, port_text, to_string, stoi, str, valid, checked_substr, parse_port, parse_host,
  parse_rest, parse_user, parse, clear,
}
use ign_common.Uri.Authority.Decimal.{stoi-to_string, to_string-Lacks}

index-found :
    (c : ℕ) (w t : Bytes) → Lacks c w → index_where (λ x. x == c) (w ++ c ∷ t) ≡ some (length w)
index-found c [] t h = ground arith
index-found c (x ∷ w) t h = ground (arith, h.0, index-found c w t h.1)

index-none : (c : ℕ) (w : Bytes) → Lacks c w → index_where (λ x. x == c) w ≡ none
index-none c [] h = refl
index-none c (x ∷ w) h = ground (arith, h.0, index-none c w h.1)

find_char-found :
    (c : ℕ) (pre w t : Bytes)
    → Lacks c w
    → find_char (pre ++ (w ++ c ∷ t)) c (length pre) ≡ some (length pre + length w)
find_char-found c pre w t h = rw (drop-append pre (w ++ c ∷ t), index-found c w t h) refl

find_char-none : (c : ℕ) (pre w : Bytes) → Lacks c w → find_char (pre ++ w) c (length pre) ≡ none
find_char-none c pre w h = rw (drop-append pre w, index-none c w h) refl

checked-at :
    (pre s : Bytes) (n : Option ℕ)
    → checked_substr (pre ++ s) (length pre) n ≡ some (substr (pre ++ s) (length pre) n)
checked-at pre s n =
    let e : ltb (length (pre ++ s)) (length pre) ≡ false = ground (arith, length-append pre s) in
    rw e refl

-- The host between a position and the end or a colon.
parse_host-end :
    (pre host : Bytes)
    → Lacks b'[' host
    → Lacks b':' host
    → parse_host (pre ++ host) (length pre) ≡ some host
unfolding parse_host
parse_host-end pre host h k =
    rw (parse_host, find_char-none b'[' pre host h, find_char-none b':' pre host k)
      (checked-at pre host none ∙ ap some (drop-append pre host))

parse_host-colon :
    (pre host port : Bytes)
    → Lacks b'[' host
    → Lacks b'[' port
    → Lacks b':' host
    → parse_host (pre ++ (host ++ b':' ∷ port)) (length pre) ≡ some host
unfolding parse_host
parse_host-colon pre host port h p k =
    let l : length pre + length host - length pre ≡ length host = omega arith in
    let none_found : Lacks b'[' (host ++ b':' ∷ port) =
      Lacks-append b'[' host (b':' ∷ port) h (omega arith, p) in
    rw
      (
        parse_host,
        find_char-none b'[' pre (host ++ b':' ∷ port) none_found,
        find_char-found b':' pre host port k,
      )
      (checked-at pre (host ++ b':' ∷ port) (some (length pre + length host - length pre))
        ∙ ap (λ n. some (take n (drop (length pre) (pre ++ (host ++ b':' ∷ port))))) l
        ∙ ap (λ s. some (take (length host) s)) (drop-append pre (host ++ b':' ∷ port))
        ∙ ap some (take-append host (b':' ∷ port)))

-- A port that is not set, or not negative and of 31 bits.
abbrev pub IsPort : Option ℤ → Type 0
IsPort none = Unit
IsPort (some (pos n)) = n < 2147483648
IsPort (some (negsuc n)) = 0 < 0

parse_port-end : (s : Bytes) → parse_port s (length s) ≡ none
unfolding parse_port
parse_port-end s =
    let e : find_char s b':' (length s) ≡ none =
      ap (λ t. find_char t b':' (length s)) (sym (append-nil s)) ∙ find_char-none b':' s [] tt in
    rw (parse_port, e) refl

parse_port-colon : (s port : Bytes) → parse_port (s ++ b':' ∷ port) (length s) ≡ stoi port
unfolding parse_port
parse_port-colon s port =
    let l : length s + 0 + 1 ≡ length (s ++ b':' ∷ []) =
      omega (arith, length-append s (b':' ∷ [])) in
    let q : drop (length s + 0 + 1) (s ++ b':' ∷ port) ≡ port =
      ap (λ n. drop n (s ++ b':' ∷ port)) l
      ∙ ap (drop (length (s ++ b':' ∷ []))) (sym (append_assoc s (b':' ∷ []) port))
      ∙ drop-append (s ++ b':' ∷ []) port in
    rw (parse_port, find_char-found b':' s [] port tt) (ap stoi q)

parse_rest-end :
    (pre host : Bytes) (a : UriAuthority)
    → Lacks b'[' host
    → Lacks b':' host
    → parse_rest (pre ++ host) a (length pre) ≡ some (true, record a { host = host; port = none })
unfolding parse_rest
parse_rest-end pre host a h k =
    let l : length pre + length host ≡ length (pre ++ host) =
      omega (arith, length-append pre host) in
    rw (parse_rest, parse_host-end pre host h k, l, parse_port-end (pre ++ host)) refl

parse_rest-port :
    (pre host : Bytes) (port : Option ℤ) (a : UriAuthority)
    → Lacks b'[' host
    → Lacks b':' host
    → IsPort port
    → parse_rest (pre ++ (host ++ port_text port)) a (length pre)
      ≡ some (true, record a { host = host; port = port })
unfolding parse_rest
parse_rest-port pre host none a h k p =
    ap (λ s. parse_rest (pre ++ s) a (length pre)) (append-nil host) ∙ parse_rest-end pre host a h k
parse_rest-port pre host (some (pos n)) a h k p =
    let l : length pre + length host ≡ length (pre ++ host) =
      omega (arith, length-append pre host) in
    let d = to_string (pos n) in
    let q : parse_port (pre ++ (host ++ b':' ∷ d)) (length pre + length host) ≡ some (pos n) =
      ap (λ s. parse_port s (length pre + length host)) (sym (append_assoc pre host (b':' ∷ d)))
      ∙ ap (parse_port ((pre ++ host) ++ b':' ∷ d)) l
      ∙ parse_port-colon (pre ++ host) d
      ∙ stoi-to_string n p in
    rw (parse_rest, parse_host-colon pre host d h (to_string-Lacks n b'[' refl) k, q) refl
parse_rest-port pre host (some (negsuc n)) a h k p = absurd (omega arith)

-- The text behind the two slashes.
abbrev rest_text : Bytes → Bytes → Option ℤ → Bytes
rest_text user host port =
    (if is_empty user then [] else user ++ codes "@") ++ (host ++ port_text port)

port-Lacks : (port : Option ℤ) → IsPort port → Lacks b'@' (port_text port)
port-Lacks none p = tt
port-Lacks (some (pos n)) p = (omega arith, to_string-Lacks n b'@' refl)
port-Lacks (some (negsuc n)) p = absurd (omega arith)

parse_user-port :
    (user host : Bytes) (port : Option ℤ) (a : UriAuthority)
    → a.user_info ≡ []
    → Lacks b'@' user
    → Lacks b'@' host
    → Lacks b'[' host
    → Lacks b':' host
    → IsPort port
    → parse_user (codes "//" ++ rest_text user host port) a
      ≡ some (true, record a { user_info = user; host = host; port = port })
unfolding parse_user
parse_user-port [] host port a e u v h k p =
    let text = host ++ port_text port in
    let no_user : find_char (codes "//" ++ text) b'@' 0 ≡ none =
      find_char-none b'@' [] (codes "//" ++ text) (
        omega arith,
        (omega arith, Lacks-append b'@' host (port_text port) v (port-Lacks port p)),
      ) in
    rw (parse_user, no_user)
      (parse_rest-port (codes "//") host port a h k p
        ∙ ap (λ x. some (true, record a { user_info = x; host = host; port = port })) e)
parse_user-port (c ∷ t) host port a e u v h k p =
    let user = c ∷ t in
    let text = host ++ port_text port in
    let s : codes "//" ++ rest_text user host port ≡ (codes "//" ++ user) ++ b'@' ∷ text =
      ap (λ x. codes "//" ++ x) (append_assoc user (codes "@") text) in
    let found : find_char ((codes "//" ++ user) ++ b'@' ∷ text) b'@' 0 ≡ some (length user + 2) =
      find_char-found b'@' [] (codes "//" ++ user) text (omega arith, (omega arith, u))
      ∙ ap some (omega arith) in
    let far : ltb (length user + 2) 2 ≡ false = ground arith in
    let n : length user + 2 - 2 ≡ length user = omega arith in
    let taken : checked_substr ((codes "//" ++ user) ++ b'@' ∷ text) 2 (some (length user + 2 - 2))
        ≡ some user =
      checked-at (codes "//") (user ++ b'@' ∷ text) (some (length user + 2 - 2))
      ∙ ap (λ m. some (take m (user ++ b'@' ∷ text))) n
      ∙ ap some (take-append user (b'@' ∷ text)) in
    let at : length user + 2 + 1 ≡ length ((codes "//" ++ user) ++ b'@' ∷ []) =
      omega (arith, length-append (codes "//" ++ user) (b'@' ∷ [])) in
    let b : UriAuthority = record a { user_info = user } in
    ap (λ x. parse_user x a) s
    ∙ rw (parse_user, found, far, taken)
        (ap (λ x. parse_rest x b (length user + 2 + 1))
            (sym (append_assoc (codes "//" ++ user) (b'@' ∷ []) text))
          ∙ ap (parse_rest (((codes "//" ++ user) ++ b'@' ∷ []) ++ text) b) at
          ∙ parse_rest-port ((codes "//" ++ user) ++ b'@' ∷ []) host port b h k p)

str-rest_text :
    (a : UriAuthority) → a.host ≢ [] → str a ≡ codes "//" ++ rest_text a.user_info a.host a.port
unfolding str
str-rest_text a n = go a.host refl
  where
    go : (h : Bytes) → a.host ≡ h → str a ≡ codes "//" ++ rest_text a.user_info a.host a.port
    go [] e = absurd (n e)
    go (c ∷ t) e = let f : is_empty a.host ≡ false = ap is_empty e in rw (str, f) refl

rest_text-some :
    (user host : Bytes) (port : Option ℤ)
    → host ≢ []
    → (is_empty (codes "//" ++ rest_text user host port)
        || eqb (codes "//" ++ rest_text user host port) (codes "//"))
      ≡ false
rest_text-some user [] port n = absurd (n refl)
rest_text-some [] (c ∷ t) port n = refl
rest_text-some (x ∷ user) (c ∷ t) port n = refl

-- Parse reads an authority back from what Str writes, whatever the authority it is read into, when
-- the host is not empty and holds no @, [ or :, the user holds no @, the port is not set or is not
-- negative, the host was not set to empty, and the text is valid.
pub parse-str_authority :
    (a b : UriAuthority)
    → a.host ≢ []
    → Lacks b'@' a.user_info
    → Lacks b'@' a.host
    → Lacks b'[' a.host
    → Lacks b':' a.host
    → IsPort a.port
    → a.has_empty_host ≡ false
    → valid (str a) a.empty_host_valid ≡ true
    → parse (str a) a.empty_host_valid b ≡ some (true, a)
unfolding parse
parse-str_authority a b n u v h k p z w =
    let s = str-rest_text a n in
    let cleared : UriAuthority = record (clear b) { empty_host_valid = a.empty_host_valid } in
    let q : parse_user (str a) cleared ≡ some (true, a) =
      ap (λ t. parse_user t cleared) s
      ∙ parse_user-port a.user_info a.host a.port cleared refl u v h k p
      ∙ ap (λ x. some (true, record a { has_empty_host = x })) (sym z) in
    let f : (is_empty (str a) || eqb (str a) (codes "//")) ≡ false =
      ap (λ t. is_empty t || eqb t (codes "//")) s ∙ rest_text-some a.user_info a.host a.port n in
    rw (parse, w, f) q
