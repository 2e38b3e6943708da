-- ===== src/Uri/Path/Parts.antt =====
-- URIPath::PushFront and URIPath::PushBack of src/URI.cc keep the slashes out of the parts.
use ign_common.Common.{
  ◌≡◌, ◌≢◌, refl, ap, false, ◌&&◌, ◌||◌, none, some, List, [], ◌∷◌, ◌++◌, arith, ◌==◌,
  if◌then◌else◌, length, Bool-cases, Option-cases, inl, inr,
}
use ign_common.Common.Text.{Bytes, codes, All, Lacks, index_where, is_empty}
use ign_common.Util.Replacing.{substitute, replace_all-substitute}
use ign_common.Uri.Path.{UriPath, encode_part, push_front, push_back}

-- A part as it is stored.
abbrev pub encoded : Bytes → Bytes
encoded = substitute b'/' (codes "%2F")

-- No part holds a slash.
abbrev pub IsClean : UriPath → Type 0
IsClean p = All (Lacks b'/') p.path

encoded-Lacks : (s : Bytes) → Lacks b'/' (encoded s)
encoded-Lacks [] = tt
encoded-Lacks (c ∷ s) = elim (Bool-cases (c == b'/')) [
  | inl h ↦ rw h (omega arith, (omega arith, (omega arith, encoded-Lacks s)))
  | inr h ↦ rw h (ground (arith, h), encoded-Lacks s)
]

encoded-none : (s : Bytes) → index_where (λ x. x == b'/') s ≡ none → encoded s ≡ s
encoded-none [] h = refl
encoded-none (c ∷ s) h = ground (arith, encoded-none s)

pub encoded_self : (s : Bytes) → Lacks b'/' s → encoded s ≡ s
encoded_self [] h = refl
encoded_self (c ∷ s) h = ground (arith, encoded_self s, h.0, h.1)

encode_part-encoded : (s : Bytes) → encode_part s ≡ some (encoded s)
unfolding encode_part
encode_part-encoded s = elim (Option-cases (index_where (λ x. x == b'/') s)) [
  | inl e ↦ rw (e, encoded-none s e) refl
  | inr (i, e) ↦ rw e (replace_all-substitute s b'/' (codes "%2F") (omega arith))
]

All-snoc :
    (ws : List Bytes) (w : Bytes)
    → All (Lacks b'/') ws
    → Lacks b'/' w
    → All (Lacks b'/') (ws ++ w ∷ [])
All-snoc [] w h k = (k, tt)
All-snoc (v ∷ ws) w h k = (h.0, All-snoc ws w h.1 k)

All-front :
    (ws : List Bytes) (w : Bytes)
    → All (Lacks b'/') ws
    → Lacks b'/' w
    → All (Lacks b'/') (if is_empty w then ws else w ∷ ws)
All-front ws [] h k = h
All-front ws (c ∷ w) h k = (k, h)

push_front-IsClean :
    (p : UriPath) (s : Bytes) → IsClean p → (q : UriPath) × (push_front p s ≡ some q) × IsClean q
unfolding push_front
push_front-IsClean p [] h = (p, refl, h)
push_front-IsClean p (c ∷ s) h =
    let part = if c == b'/' then s else c ∷ s in
    (
      record p {
        path = if is_empty (encoded part) then p.path else encoded part ∷ p.path;
        is_absolute = (c == b'/') || p.is_absolute;
      },
      rw (push_front, encode_part-encoded part) refl,
      All-front p.path (encoded part) h (encoded-Lacks part),
    )

push_back-IsClean :
    (p : UriPath) (s : Bytes) → IsClean p → (q : UriPath) × (push_back p s ≡ some q) × IsClean q
unfolding push_back
push_back-IsClean p [] h = (p, refl, h)
push_back-IsClean p (c ∷ s) h =
    let part = if (length p.path == 0) && (c == b'/') then s else c ∷ s in
    (
      record p {
        path = p.path ++ encoded part ∷ [];
        is_absolute = ((length p.path == 0) && (c == b'/')) || p.is_absolute;
      },
      rw (push_back, encode_part-encoded part) refl,
      All-snoc p.path (encoded part) h (encoded-Lacks part),
    )

-- PushFront and PushBack always return, and when no part of the path holds a slash, no part does
-- afterwards, whatever the text they push.
pub push_lem :
    (p : UriPath) (s : Bytes)
    → IsClean p
    → ((q : UriPath) × (push_front p s ≡ some q) × IsClean q)
      × ((q : UriPath) × (push_back p s ≡ some q) × IsClean q)
push_lem p s h = (push_front-IsClean p s h, push_back-IsClean p s h)

-- A part with no slash is added as it is.
pub push_back-plain :
    (p : UriPath) (s : Bytes)
    → s ≢ []
    → Lacks b'/' s
    → push_back p s ≡ some record p { path = p.path ++ s ∷ []; is_absolute = p.is_absolute }
unfolding push_back
push_back-plain p [] n h = absurd (n refl)
push_back-plain p (c ∷ s) n h =
    let e : (c == b'/') ≡ false = ground (arith, h.0) in
    let b : ((length p.path == 0) && (c == b'/')) ≡ false = rw e (ground arith) in
    rw (push_back, b, encode_part-encoded (c ∷ s), encoded_self (c ∷ s) h)
      (ap (λ x. some (record p { path = p.path ++ (c ∷ s) ∷ []; is_absolute = x || p.is_absolute }))
        b)
