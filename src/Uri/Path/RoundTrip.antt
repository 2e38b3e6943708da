-- ===== src/Uri/Path/RoundTrip.antt =====
-- URIPath::Parse of src/URI.cc reads back what URIPath::Str writes.
use ign_common.Common.{
  ℕ, ◌≡◌, ◌≢◌, refl, sym, ◌∙◌, ap, Bool, true, false, some, List, [], ◌∷◌, ◌++◌, arith, ◌==◌,
  if◌then◌else◌, length, length-append,
}
use mathlib.Core.List.{append_assoc, append-nil}
use ign_common.Common.Text.{Bytes, codes, All, Lacks, is_some}
use ign_common.Util.{trimmed}
use ign_common.Util.Trimming.{trimmed-Lacks}
use ign_common.Util.Words.{
  IsToken, after, join-after, join_end-after, join, join_end, spell, split-spell,
}
use ign_common.Uri.Chars.{find_first_not_of, allowed-All, allowed-Lacks}
use ign_common.Uri.Path.{
  UriPath, push_all, str, str_loop, valid, path_chars, back, finish, parse, clear,
  is_string_absolute,
}
use ign_common.Uri.Path.Parts.{push_back-plain}

abbrev IsPart : Bytes → Type 0
IsPart = IsToken b'/'

push_all-plain :
    (p : UriPath) (ws : List Bytes)
    → All IsPart ws
    → push_all p ws ≡ some record p { path = p.path ++ ws }
unfolding push_all
push_all-plain p [] h = ap (λ x. some (record p { path = x })) (sym (append-nil p.path))
push_all-plain p (w ∷ ws) h =
    rw (push_back-plain p w h.0.0 h.0.1, push_all)
      (push_all-plain (record p { path = p.path ++ w ∷ [] }) ws h.1
        ∙ ap (λ x. some (record p { path = x })) (append_assoc p.path (w ∷ []) ws))

str_loop-after :
    (ws : List Bytes) (r : Bytes) → str_loop (codes "/") false ws r ≡ r ++ after b'/' ws
unfolding str_loop
str_loop-after [] r = sym (append-nil r)
str_loop-after (w ∷ ws) r =
    str_loop-after ws ((r ++ codes "/") ++ w)
    ∙ append_assoc (r ++ codes "/") w (after b'/' ws)
    ∙ append_assoc r (codes "/") (w ++ after b'/' ws)

str-spell :
    (p : UriPath) (w : Bytes) (ws : List Bytes)
    → p.path ≡ w ∷ ws
    → str (codes "/") p ≡ spell b'/' p.is_absolute p.trailing_slash p.path
unfolding str str_loop
str-spell p w ws e = rw e (go p.is_absolute p.trailing_slash)
  where
    go :
        (a t : Bool)
        → (if t
            then str_loop (codes "/") true (w ∷ ws) (if a then codes "/" else []) ++ codes "/"
            else str_loop (codes "/") true (w ∷ ws) (if a then codes "/" else []))
          ≡ spell b'/' a t (w ∷ ws)
    go false false = str_loop-after ws w ∙ sym (join-after b'/' w ws)
    go false true = ap (λ s. s ++ codes "/") (str_loop-after ws w) ∙ sym (join_end-after b'/' w ws)
    go true false = str_loop-after ws (b'/' ∷ w) ∙ ap (λ s. b'/' ∷ s) (sym (join-after b'/' w ws))
    go true true =
        ap (λ s. s ++ codes "/") (str_loop-after ws (b'/' ∷ w))
        ∙ ap (λ s. b'/' ∷ s) (sym (join_end-after b'/' w ws))

back-cons : (c : ℕ) (s : Bytes) (x : ℕ) → back s ≡ some x → back (c ∷ s) ≡ some x
back-cons c [] x h = cc
back-cons c (d ∷ s) x h = h

back-append : (s t : Bytes) (x : ℕ) → back t ≡ some x → back (s ++ t) ≡ some x
back-append [] t x h = h
back-append (c ∷ s) t x h = back-cons c (s ++ t) x (back-append s t x h)

back-part : (w : Bytes) → IsPart w → (c : ℕ) × (back w ≡ some c) × (c ≢ b'/')
back-part [] h = absurd (h.0 refl)
back-part (c ∷ []) h = (c, refl, h.1.0)
back-part (c ∷ d ∷ w) h = back-part (d ∷ w) (λ e. cc, h.1.1)

back-join :
    (w : Bytes) (ws : List Bytes)
    → All IsPart (w ∷ ws)
    → (c : ℕ) × (back (join b'/' (w ∷ ws)) ≡ some c) × (c ≢ b'/')
back-join w [] h = back-part w h.0
back-join w (v ∷ ws) h =
    let (c, e, n) = back-join v ws h.1 in
    (c, back-append w (b'/' ∷ join b'/' (v ∷ ws)) c (back-cons b'/' (join b'/' (v ∷ ws)) c e), n)

back-join_end : (w : Bytes) (ws : List Bytes) → back (join_end b'/' (w ∷ ws)) ≡ some b'/'
back-join_end w [] = back-append w (codes "/") b'/' refl
back-join_end w (v ∷ ws) =
    back-append w (b'/' ∷ join_end b'/' (v ∷ ws)) b'/'
      (back-cons b'/' (join_end b'/' (v ∷ ws)) b'/' (back-join_end v ws))

valid-allowed :
    (s : Bytes) → valid s ≡ true → is_some (find_first_not_of path_chars (trimmed s) 0) ≡ false
unfolding valid find_first_not_of
valid-allowed s h = ground (arith, h)

-- A valid path has no zero byte.
pub valid-Lacks : (s : Bytes) → valid s ≡ true → Lacks 0 s
valid-Lacks s h = trimmed-Lacks s (
    allowed-Lacks path_chars (trimmed s) refl
      (allowed-All path_chars (trimmed s) (valid-allowed s h)))

starts-join :
    (w : Bytes) (ws : List Bytes) → IsPart w → is_string_absolute (join b'/' (w ∷ ws)) ≡ false
starts-join [] ws h = absurd (h.0 refl)
starts-join (c ∷ w) [] h = ground (arith, h.1.0)
starts-join (c ∷ w) (v ∷ ws) h = ground (arith, h.1.0)

starts-join_end :
    (w : Bytes) (ws : List Bytes) → IsPart w → is_string_absolute (join_end b'/' (w ∷ ws)) ≡ false
starts-join_end [] ws h = absurd (h.0 refl)
starts-join_end (c ∷ w) ws h = ground (arith, h.1.0)

long-join_end :
    (w : Bytes) (ws : List Bytes) → IsPart w → (length (join_end b'/' (w ∷ ws)) == 1) ≡ false
long-join_end [] ws h = absurd (h.0 refl)
long-join_end (c ∷ w) ws h = ground (arith, length-append w (b'/' ∷ join_end b'/' ws))

finish-spell :
    (p : UriPath) (a t : Bool) (w : Bytes) (ws : List Bytes)
    → All IsPart (w ∷ ws)
    → finish (spell b'/' a t (w ∷ ws)) p
      ≡ some (true, record { path = p.path; is_absolute = a; trailing_slash = t })
unfolding finish
finish-spell p false false w ws h =
    let (c, e, n) = back-join w ws h in
    let m : (c == b'/') ≡ false = ground (arith, n) in rw (finish, e, starts-join w ws h.0, m) refl
finish-spell p true false w ws h =
    let (c, e, n) = back-join w ws h in
    let m : (c == b'/') ≡ false = ground (arith, n) in
    rw (finish, back-cons b'/' (join b'/' (w ∷ ws)) c e, m) refl
finish-spell p false true w ws h =
    rw (finish, back-join_end w ws, starts-join_end w ws h.0, long-join_end w ws h.0) refl
finish-spell p true true w ws h =
    let l : (length (b'/' ∷ join_end b'/' (w ∷ ws)) == 1) ≡ false =
      ground (arith, length-append w (b'/' ∷ join_end b'/' ws)) in
    rw (finish, back-cons b'/' (join_end b'/' (w ∷ ws)) b'/' (back-join_end w ws), l) refl

-- Parse reads a path back from what Str writes with slashes, whatever the path it is read into,
-- when the path has a part, each part is not empty and holds no slash, and the text is valid.
pub parse-str :
    (p q : UriPath)
    → p.path ≢ []
    → All (IsToken b'/') p.path
    → valid (str (codes "/") p) ≡ true
    → parse (str (codes "/") p) q ≡ some (true, p)
unfolding parse
parse-str p q n h v = go p.path refl
  where
    go : (ws : List Bytes) → p.path ≡ ws → parse (str (codes "/") p) q ≡ some (true, p)
    go [] e = absurd (n e)
    go (w ∷ ws) e =
        let z : Lacks 0 (spell b'/' p.is_absolute p.trailing_slash p.path) =
          rw (sym (str-spell p w ws e)) (valid-Lacks (str (codes "/") p) v) in
        let r : UriPath = record q { path = p.path; is_absolute = false } in
        let f : finish (str (codes "/") p) r ≡ some (true, p) =
          ap (λ t. finish t r) (str-spell p w ws e)
          ∙ ap (λ x. finish (spell b'/' p.is_absolute p.trailing_slash x) r) e
          ∙ finish-spell r p.is_absolute p.trailing_slash w ws (rw e at h) in
        rw
          (
            parse,
            v,
            str-spell p w ws e,
            split-spell b'/' p.is_absolute p.trailing_slash p.path h z (omega arith),
            push_all-plain (clear q) p.path h,
          )
          f
