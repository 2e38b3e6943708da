-- ===== src/SystemPaths/Tests.antt =====
-- Runs of src/SystemPaths.cc, and its theorem at a concrete list.
use ign_common.Common.{◌≡◌, refl, some, [], ◌∷◌, arith}
use ign_common.Common.Text.{codes, All}
use ign_common.StringUtils.{ends_with}
use ign_common.SystemPaths.{SystemPaths, add_file_paths, normalize_directory_path}
use ign_common.SystemPaths.Lists.{IsDirectory, IsDistinct, add_file_paths_lem}

abbrev one_path : SystemPaths
one_path = record {
  plugin_path_env = codes "P";
  file_path_env = codes "F";
  plugin_paths = [];
  file_paths = codes "/a/" ∷ [];
}

normalize_test : normalize_directory_path (codes "c:\\x") ≡ codes "c:/x/"
unfolding normalize_directory_path ends_with
normalize_test = refl

add_file_paths_lem_example :
    (t : SystemPaths) × (add_file_paths one_path (codes "/b:/a:/b/") ≡ some t)
    × IsDistinct t.file_paths
    × All IsDirectory t.file_paths
unfolding ends_with
add_file_paths_lem_example =
    add_file_paths_lem one_path (codes "/b:/a:/b/") (refl, tt) ((refl, omega arith), tt)
