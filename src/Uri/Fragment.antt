-- ===== src/Uri/Fragment.antt =====
-- URIFragment of src/URI.cc: the text behind the #.
use ign_common.Common.{Bool, true, false, [], ◌∷◌, drop, if◌then◌else◌}
use ign_common.Common.Text.{Bytes, eqb, is_empty}
use ign_common.Util.{trimmed}
use ign_common.Uri.Query.{valid_after}

pub record UriFragment : Type 0 where
  pub value : Bytes

abbrev pub str : UriFragment → Bytes
str f = if is_empty f.value then [] else b'#' ∷ f.value

unfoldable pub valid : Bytes → Bool
unfolding valid_after
valid s = valid_after b'#' (trimmed s)

abbrev pub clear : UriFragment → UriFragment
clear f = record { value = [] }

-- Parse: whether the text is accepted, and the fragment behind the call.
unfoldable pub parse : Bytes → UriFragment → Bool × UriFragment
parse s f =
    if valid s
    then (true, if is_empty s then clear f else record { value = drop 1 s })
    else (false, f)

abbrev pub assign : UriFragment → UriFragment → UriFragment
assign f other = record { value = other.value }

pub assign_text : UriFragment → Bytes → UriFragment
unfolding parse
assign_text f s = (parse s f).1

abbrev pub equal : UriFragment → UriFragment → Bool
equal f g = eqb (str f) (str g)
