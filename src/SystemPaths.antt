-- ===== src/SystemPaths.antt =====
-- The path lists of src/SystemPaths.cc: where files and plugins are searched, as on systems whose
-- paths are separated by colons. The environment and the file system are parameters.
pub mod Lists
mod Tests
use ign_common.Common.{
  ℕ, ◌+◌, ◌-◌, Bool, true, false, ◌&&◌, ◌||◌, Option, none, some, List, [], ◌∷◌, ◌++◌, ◌==◌, map,
  if◌then◌else◌, length,
}
use mathlib.Core.Bool.{not}
use mathlib.Core.Option
use ign_common.Common.Text.{Bytes, codes, eqb, is_empty, substr}
use ign_common.StringUtils.{split, starts_with, ends_with}
use ign_common.Util.{lowercase}

pub record SystemPaths : Type 0 where
  pub plugin_path_env : Bytes
  pub file_path_env : Bytes
  pub plugin_paths : List Bytes
  pub file_paths : List Bytes

abbrev pub contains : Bytes → List Bytes → Bool
contains path [] = false
contains path (p ∷ ps) = if eqb p path then true else contains path ps

abbrev pub insert_unique : Bytes → List Bytes → List Bytes
insert_unique path paths = if contains path paths then paths else paths ++ path ∷ []

abbrev pub replace_char : ℕ → ℕ → Bytes → Bytes
replace_char a b = map (λ c. if c == a then b else c)

unfoldable pub normalize_directory_path : Bytes → Bytes
normalize_directory_path path =
    let p = replace_char b'\\' b'/' path in
    if not (ends_with p (codes "/")) then p ++ codes "/" else p

insert_all : List Bytes → List Bytes → List Bytes
insert_all [] paths = paths
insert_all (p ∷ ps) paths = insert_all ps (insert_unique (normalize_directory_path p) paths)

-- The loop that AddFilePaths, AddPluginPaths and PathsFromEnv share.
unfoldable pub add_paths : Bytes → List Bytes → Option (List Bytes)
unfolding insert_all
add_paths path paths =
    if is_empty path then some paths else Option.map (λ ps. insert_all ps paths) (split path b':')

pub add_file_paths : SystemPaths → Bytes → Option SystemPaths
add_file_paths s path =
    Option.map (λ ps. record s { file_paths = ps }) (add_paths path s.file_paths)

pub add_plugin_paths : SystemPaths → Bytes → Option SystemPaths
add_plugin_paths s path =
    Option.map (λ ps. record s { plugin_paths = ps }) (add_paths path s.plugin_paths)

pub clear_file_paths : SystemPaths → SystemPaths
clear_file_paths s = record s { file_paths = [] }

pub clear_plugin_paths : SystemPaths → SystemPaths
clear_plugin_paths s = record s { plugin_paths = [] }

pub set_plugin_path_env : SystemPaths → Bytes → SystemPaths
set_plugin_path_env s name = record s { plugin_path_env = name }

-- `env` is the environment: the value of a variable that is set.
module _ (env : Bytes → Option Bytes) where
  pub set_file_path_env : SystemPaths → Bytes → Option SystemPaths
  unfolding add_file_paths clear_file_paths
  set_file_path_env s name =
      let named = record s { file_path_env = name } in
      if is_empty name then some named else elim (env name) [
        | none ↦ some (clear_file_paths named)
        | some value ↦ add_file_paths (clear_file_paths named) value
      ]

  -- PluginPaths adds what the environment has each time it is asked.
  pub load_plugin_paths : SystemPaths → Option SystemPaths
  unfolding add_plugin_paths
  load_plugin_paths s =
      if is_empty s.plugin_path_env
      then some s
      else elim (env s.plugin_path_env) [ none ↦ some s | some value ↦ add_plugin_paths s value ]

  pub paths_from_env : Bytes → Option (List Bytes)
  unfolding add_paths
  paths_from_env name = elim (env name) [ none ↦ some [] | some value ↦ add_paths value [] ]

-- `exists` is the file system.
pub locate_local_file : (Bytes → Bool) → Bytes → List Bytes → Bytes
locate_local_file exists filename [] = []
locate_local_file exists filename (path ∷ paths) =
    if exists (normalize_directory_path path ++ filename)
    then normalize_directory_path path ++ filename
    else locate_local_file exists filename paths

-- The names without what a platform adds to them.
init_names : Bytes → List Bytes
unfolding lowercase
init_names name =
    let has_lib = starts_with name (codes "lib") in
    let lower = lowercase name in
    name
    ∷ ((if has_lib && ends_with lower (codes ".so")
          then substr name 3 (some (length name - 6)) ∷ []
          else [])
        ++ ((if ends_with lower (codes ".dll")
              then substr name 0 (some (length name - 4)) ∷ []
              else [])
            ++ (if has_lib && ends_with lower (codes ".dylib")
                then substr name 3 (some (length name - 9)) ∷ []
                else [])))

base_names : Bytes → List Bytes
base_names name =
    name
    ∷ (codes "lib" ++ (name ++ codes ".so"))
    ∷ (name ++ codes ".so")
    ∷ (name ++ codes ".dll")
    ∷ (codes "lib" ++ (name ++ codes ".dylib"))
    ∷ (name ++ codes ".dylib")
    ∷ (codes "lib" ++ (name ++ codes ".SO"))
    ∷ (name ++ codes ".SO")
    ∷ (name ++ codes ".DLL")
    ∷ (codes "lib" ++ (name ++ codes ".DYLIB"))
    ∷ (name ++ codes ".DYLIB")
    ∷ []

flat_map {ℓ κ} : {A : Type ℓ} {B : Type κ} → (A → List B) → List A → List B
flat_map f [] = []
flat_map f (x ∷ xs) = f x ++ flat_map f xs

unfoldable pub generate_library_paths : SystemPaths → Bytes → List Bytes
unfolding init_names base_names flat_map
generate_library_paths s name =
    let names = flat_map base_names (init_names name) in
    flat_map (λ path. map (λ n. path ++ n) names) s.plugin_paths

first_existing : (Bytes → Bool) → List Bytes → Bytes
first_existing exists [] = []
first_existing exists (p ∷ ps) = if exists p then p else first_existing exists ps

-- FindSharedLibrary also changes the paths, which it loads from the environment.
pub find_shared_library :
    (Bytes → Option Bytes) → (Bytes → Bool) → SystemPaths → Bytes → Option (SystemPaths × Bytes)
unfolding load_plugin_paths generate_library_paths first_existing
find_shared_library env exists s name =
    if exists name
    then some (s, name)
    else Option.map (λ t. (t, first_existing exists (generate_library_paths t name)))
        (load_plugin_paths env s)
