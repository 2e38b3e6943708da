-- ===== src/Uri/Path/Copies.antt =====
-- The copies of URIPath of src/URI.cc: operator= and operator== pass over the trailing slash.
use ign_common.Common.{◌≡◌, refl, Bool, true, false, List, [], ◌∷◌, ◌++◌}
use ign_common.Common.Text.{Bytes, codes, eqb_refl}
use ign_common.Uri.Path.{UriPath, str, copy, equal, eqb_list, eqb_bool}

eqb_list_refl : (ws : List Bytes) → eqb_list ws ws ≡ true
eqb_list_refl [] = refl
eqb_list_refl (w ∷ ws) = rw (eqb_refl w, eqb_list_refl ws) refl

eqb_bool_refl : (b : Bool) → eqb_bool b b ≡ true
eqb_bool_refl true = refl
eqb_bool_refl false = refl

-- The copy of a path that ends with a slash is equal to it by operator== but is written without that
-- slash.
pub copy-str :
    (p : UriPath) (delim : Bytes)
    → p.trailing_slash ≡ true
    → (equal (copy p) p ≡ true) × (str delim p ≡ str delim (copy p) ++ codes "/")
unfolding str
copy-str p delim h = (rw (eqb_list_refl p.path, eqb_bool_refl p.is_absolute) refl, rw h refl)
