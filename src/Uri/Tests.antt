-- ===== src/Uri/Tests.antt =====
-- Runs of src/URI.cc, and its theorems at concrete addresses.
use ign_common.Common.{◌≡◌, refl, true, false, none, some, [], ◌∷◌, ◌++◌, arith}
use ign_common.Common.Int.{pos}
use ign_common.Common.Text.{codes}
use ign_common.Util.{trimmed, ltrimmed, rtrimmed, is_space, find_text, split}
use ign_common.Uri.Chars.{find_first_not_of, find_first_of}
use ign_common.Uri.Query.{valid_after}
use ign_common.Uri.Authority.{UriAuthority}
use ign_common.Uri.Authority
use ign_common.Uri.Authority.RoundTrip.{parse-str_authority}
use ign_common.Uri.Path.{UriPath, empty_path, copy, equal, push_front, push_back}
use ign_common.Uri.Path
use ign_common.Uri.Path.RoundTrip.{parse-str}
use ign_common.Uri.Path.Copies.{copy-str}
use ign_common.Uri.Query.{UriQuery}
use ign_common.Uri.Query
use ign_common.Uri.Query.Pairs.{parse-str_pairs}
use ign_common.Uri.Fragment
use ign_common.Uri.Whole.{Uri, cut}
use ign_common.Uri.Whole
use ign_common.Uri.Whole.Cuts.{cut_lossless}

abbrev models : UriPath
models = record {
  path = codes "models" ∷ codes "box" ∷ [];
  is_absolute = true;
  trailing_slash = true;
}

abbrev two_keys : UriQuery
two_keys = record { values = (codes "a", codes "1") ∷ (codes "b", []) ∷ [] }

abbrev empty_authority : UriAuthority
empty_authority = record {
  user_info = [];
  host = [];
  port = none;
  empty_host_valid = false;
  has_empty_host = false;
}

abbrev empty_uri : Uri
empty_uri = record {
  scheme = [];
  authority = empty_authority;
  path = empty_path;
  query = record { values = [] };
  fragment = record { value = [] };
}

authority_test :
    Authority.parse (codes "//me@host:80") false empty_authority
    ≡ some (
      true,
      record empty_authority { user_info = codes "me"; host = codes "host"; port = some (pos 80) },
    )
unfolding Authority.parse Authority.valid Authority.stoi find_text find_first_not_of trimmed
    ltrimmed rtrimmed is_space
authority_test = refl

whole_test :
    Whole.parse (codes "http://host/a/?k=v#f") empty_uri
    ≡ some (
      true,
      record empty_uri {
        scheme = codes "http";
        authority = record empty_authority { host = codes "host" };
        path = record { path = codes "a" ∷ []; is_absolute = true; trailing_slash = true };
        query = record { values = (codes "k", codes "v") ∷ [] };
        fragment = record { value = codes "f" };
      },
    )
unfolding Whole.parse Whole.valid Whole.cut Authority.parse Authority.valid Path.parse Path.valid
    Path.push_back Path.encode_part Query.parse Query.valid Fragment.parse Fragment.valid
    valid_after split find_first_of find_text find_first_not_of trimmed ltrimmed rtrimmed is_space
whole_test = refl

parse-str_example : Path.parse (Path.str (codes "/") models) empty_path ≡ some (true, models)
unfolding Path.str Path.valid find_first_not_of trimmed ltrimmed rtrimmed is_space
parse-str_example =
    parse-str models empty_path (λ e. cc) (((λ e. cc), omega arith), (((λ e. cc), omega arith), tt))
      refl

copy-str_example :
    (equal (copy models) models ≡ true)
    × (Path.str (codes "/") models ≡ Path.str (codes "/") (copy models) ++ codes "/")
copy-str_example = copy-str models (codes "/") refl

parse-str_pairs_example :
    Query.parse (Query.str (codes "&") two_keys) (record { values = [] }) ≡ some (true, two_keys)
unfolding Query.str Query.valid valid_after find_first_not_of trimmed ltrimmed rtrimmed is_space
parse-str_pairs_example =
    parse-str_pairs two_keys (record { values = [] }) (λ e. cc)
      (
        ((λ e. cc), omega arith, omega arith, omega arith, omega arith),
        (((λ e. cc), omega arith, omega arith, tt, tt), tt),
      )
      refl

cut_lossless_example :
    (cut (codes "/arefl=c#d")).path_text
      ++ ((cut (codes "/arefl=c#d")).query_text ++ (cut (codes "/arefl=c#d")).fragment_text)
    ≡ codes "/arefl=c#d"
cut_lossless_example = cut_lossless (codes "/arefl=c#d")

abbrev my_host : UriAuthority
my_host = record empty_authority {
  user_info = codes "me";
  host = codes "h.org";
  port = some (pos 80);
}

parse-str_authority_example :
    Authority.parse (Authority.str my_host) false empty_authority ≡ some (true, my_host)
unfolding Authority.str Authority.valid Authority.to_string find_text find_first_not_of trimmed
    ltrimmed rtrimmed is_space
parse-str_authority_example =
    parse-str_authority my_host empty_authority (λ e. cc) (omega arith) (omega arith) (omega arith)
      (omega arith) (omega arith) refl refl
