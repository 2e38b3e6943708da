-- ===== src/StringUtils/Affixes.antt =====
-- StartsWith and EndsWith of src/StringUtils.cc against prefixes and suffixes.
use ign_common.Common.{
  ◌-◌, ◌≡◌, ◌↔◌, true, ◌++◌, arith, length, length-append, length-drop, take, drop,
  take-append-drop,
}
use ign_common.Common.Text.{Bytes, eqb_iff, eqb_refl, take-append, drop-append, take-all}
use ign_common.StringUtils.{starts_with, ends_with}

starts_with→prefix : (s p : Bytes) → starts_with s p ≡ true → (rest : Bytes) × (s ≡ p ++ rest)
unfolding starts_with
starts_with→prefix s p h = (
  drop (length p) s,
  ground (arith, eqb_iff (take (length p) s) p, take-append-drop (length p) s),
)

prefix→starts_with : (s p rest : Bytes) → s ≡ p ++ rest → starts_with s p ≡ true
unfolding starts_with
prefix→starts_with s p rest e =
    rw e (ground (arith, length-append p rest, take-append p rest, eqb_refl p))

-- StartsWith holds exactly for the prefixes.
pub starts_with_iff : (s p : Bytes) → (starts_with s p ≡ true) ↔ ((rest : Bytes) × (s ≡ p ++ rest))
starts_with_iff s p = (starts_with→prefix s p, λ (r, e). prefix→starts_with s p r e)

ends_with→suffix : (s p : Bytes) → ends_with s p ≡ true → (front : Bytes) × (s ≡ front ++ p)
unfolding ends_with
ends_with→suffix s p h =
    let k = length s - length p in
    (
      take k s,
      ground (
        arith,
        eqb_iff (take (length p) (drop k s)) p,
        take-append-drop k s,
        take-all (length p) (drop k s),
        length-drop k s,
      ),
    )

suffix→ends_with : (s p front : Bytes) → s ≡ front ++ p → ends_with s p ≡ true
unfolding ends_with
suffix→ends_with s p front e =
    let k : length (front ++ p) - length p ≡ length front = omega (arith, length-append front p) in
    rw (e, k)
      (ground
        (arith, length-append front p, drop-append front p, take-all (length p) p, eqb_refl p))

-- EndsWith holds exactly for the suffixes.
pub ends_with_iff : (s p : Bytes) → (ends_with s p ≡ true) ↔ ((front : Bytes) × (s ≡ front ++ p))
ends_with_iff s p = (ends_with→suffix s p, λ (r, e). suffix→ends_with s p r e)
