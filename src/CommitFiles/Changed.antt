-- ===== src/CommitFiles/Changed.antt =====
-- ingest/commit_files.py: which paths `changed_files` returns.
use legal_system.Prelude.{
  String, Bool, false, not, ◌&&◌, ◌||◌, List, [], ◌∷◌, ◌++◌, ◌==◌, string_dec, contains, any, ◌≡◌,
  refl, arith, none, some,
}
use legal_system.Prelude.FilePath.{as_posix}
use legal_system.Allowlist.{Allowlist}
use legal_system.CommitFiles.{
  add_row, changed_from, changed_files, parse_name_status, is_ingestable,
}

-- A row of git's output that names the path `p` as new or changed evidence.
abbrev pub introduces : Allowlist → String → String × String → Bool
introduces allow p row = not (row.0 == "D") && (is_ingestable row.1 allow && (as_posix row.1 == p))

contains-append_one :
    (xs : List String) (a p : String) → contains (xs ++ a ∷ []) p ≡ (contains xs p || a == p)
contains-append_one [] a p = ground arith
contains-append_one (x ∷ xs) a p = ground (arith, contains-append_one xs a p)

abbrev pub IsDistinct : List String → Type 0
IsDistinct [] = Unit
IsDistinct (x ∷ xs) = (contains xs x ≡ false) × IsDistinct xs

append_one-IsDistinct :
    (xs : List String) (a : String)
    → IsDistinct xs
    → contains xs a ≡ false
    → IsDistinct (xs ++ a ∷ [])
append_one-IsDistinct [] a h n = (refl, tt)
append_one-IsDistinct (x ∷ xs) a h n =
    ground (arith, append_one-IsDistinct xs a h.1, contains-append_one xs a x)

add_row_lem :
    (allow : Allowlist) (out : List String) (row : String × String)
    → IsDistinct out
    → IsDistinct (add_row allow out row)
      × ((p : String)
          → contains (add_row allow out row) p ≡ (contains out p || introduces allow p row))
unfolding add_row string_dec
add_row_lem allow out (status, path) h = (
  ground (arith, append_one-IsDistinct out (as_posix path) h),
  λ p. ground (arith, contains-append_one out (as_posix path) p),
)

changed_from_lem :
    (allow : Allowlist) (out : List String) (rows : List (String × String))
    → IsDistinct out
    → IsDistinct (changed_from allow out rows)
      × ((p : String)
          → contains (changed_from allow out rows) p
            ≡ (contains out p || any (introduces allow p) rows))
unfolding changed_from
changed_from_lem allow out [] h = (h, λ p. ground arith)
changed_from_lem allow out (row ∷ rows) h =
    let (d, c) = add_row_lem allow out row h in
    let (d', c') = changed_from_lem allow (add_row allow out row) rows d in
    (d', λ p. ground (arith, c p, c' p))

-- `changed_files` fails exactly if git does. Otherwise it returns the paths that some row of the output
-- names as new or changed evidence, those and no others, each once.
pub changed_files_lem :
    (allow : Allowlist) (lines : List String)
    → (paths : List String) × (changed_files allow (some lines) ≡ some paths)
      × IsDistinct paths
      × ((p : String) → contains paths p ≡ any (introduces allow p) (parse_name_status lines))
      × (changed_files allow none ≡ none)
unfolding changed_files
changed_files_lem allow lines =
    let (d, c) = changed_from_lem allow [] (parse_name_status lines) tt in (_, refl, d, c, refl)
