-- ===== src/SystemPaths/Lists.antt =====
-- The path lists of src/SystemPaths.cc hold each directory once, ending with a slash.
use ign_common.Common.{
  ◌≡◌, refl, ◌∙◌, true, false, some, List, [], ◌∷◌, ◌++◌, arith, Bool-cases, inl, inr,
}
use ign_common.Common.Text.{Bytes, codes, eqb, All, Lacks, Lacks-append}
use ign_common.StringUtils.{ends_with}
use ign_common.StringUtils.Pieces.{split_lem}
use ign_common.StringUtils.Affixes.{ends_with_iff}
use ign_common.SystemPaths.{
  SystemPaths, contains, replace_char, normalize_directory_path, insert_all, add_paths,
  add_file_paths,
}

-- A directory ends with a slash and holds no backslash.
abbrev pub IsDirectory : Bytes → Type 0
IsDirectory p = (ends_with p (codes "/") ≡ true) × Lacks b'\\' p

-- No path is in the list twice.
abbrev pub IsDistinct : List Bytes → Type 0
IsDistinct [] = Unit
IsDistinct (p ∷ ps) = (contains p ps ≡ false) × IsDistinct ps

replace_char-Lacks : (s : Bytes) → Lacks b'\\' (replace_char b'\\' b'/' s)
replace_char-Lacks [] = tt
replace_char-Lacks (c ∷ s) = (ground arith, replace_char-Lacks s)

normalize_directory_path-IsDirectory : (path : Bytes) → IsDirectory (normalize_directory_path path)
unfolding normalize_directory_path
normalize_directory_path-IsDirectory path =
    let p = replace_char b'\\' b'/' path in
    elim (Bool-cases (ends_with p (codes "/"))) [
      | inl e ↦ rw e (e, replace_char-Lacks path)
      | inr e ↦ rw e (
        (ends_with_iff (p ++ codes "/") (codes "/")).1 (p, refl),
        Lacks-append b'\\' p (codes "/") (replace_char-Lacks path) (omega arith),
      )
    ]

eqb_sym : (s t : Bytes) → eqb s t ≡ eqb t s
eqb_sym [] [] = refl
eqb_sym [] (d ∷ t) = refl
eqb_sym (c ∷ s) [] = refl
eqb_sym (c ∷ s) (d ∷ t) = ground (arith, eqb_sym s t)

contains-last :
    (p q : Bytes) (ps : List Bytes)
    → contains p ps ≡ false
    → eqb q p ≡ false
    → contains p (ps ++ q ∷ []) ≡ false
contains-last p q [] h e = rw e refl
contains-last p q (r ∷ ps) h e = ground (arith, contains-last p q ps)

IsDistinct-last :
    (p : Bytes) (ps : List Bytes)
    → IsDistinct ps
    → contains p ps ≡ false
    → IsDistinct (ps ++ p ∷ [])
IsDistinct-last p [] d h = (refl, tt)
IsDistinct-last p (r ∷ ps) d h = (
  contains-last r p ps d.0 (eqb_sym p r ∙ ground (arith, h)),
  IsDistinct-last p ps d.1 (ground (arith, h)),
)

All-last :
    (p : Bytes) (ps : List Bytes)
    → All IsDirectory ps
    → IsDirectory p
    → All IsDirectory (ps ++ p ∷ [])
All-last p [] a h = (h, tt)
All-last p (r ∷ ps) a h = (a.0, All-last p ps a.1 h)

insert_all-lists :
    (ps qs : List Bytes)
    → IsDistinct qs
    → All IsDirectory qs
    → IsDistinct (insert_all ps qs) × All IsDirectory (insert_all ps qs)
unfolding insert_all
insert_all-lists [] qs d a = (d, a)
insert_all-lists (p ∷ ps) qs d a =
    let q = normalize_directory_path p in
    let same = insert_all-lists ps qs d a in
    elim (Bool-cases (contains q qs)) [
      | inl e ↦ rw (insert_all, e) same
      | inr e ↦
          rw (insert_all, e)
            (insert_all-lists ps (qs ++ q ∷ []) (IsDistinct-last q qs d e)
              (All-last q qs a (normalize_directory_path-IsDirectory p)))
    ]

-- AddFilePaths always returns, and when the file paths are directories, each once, they still are.
pub add_file_paths_lem :
    (s : SystemPaths) (path : Bytes)
    → IsDistinct s.file_paths
    → All IsDirectory s.file_paths
    → (t : SystemPaths) × (add_file_paths s path ≡ some t)
      × IsDistinct t.file_paths
      × All IsDirectory t.file_paths
unfolding add_file_paths add_paths
add_file_paths_lem s [] d a = (s, refl, d, a)
add_file_paths_lem s (c ∷ path) d a =
    let (ps, e, j, l, n) = split_lem (c ∷ path) b':' in
    let (d', a') = insert_all-lists ps s.file_paths d a in
    (
      record s { file_paths = insert_all ps s.file_paths },
      rw (add_file_paths, add_paths, e) refl,
      d',
      a',
    )
