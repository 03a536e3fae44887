-- ===== src/CommitFiles.antt =====
-- ingest/commit_files.py: the files of a commit. git is outside; the model starts from the lines that
-- `git diff-tree` prints, with `none` for the `GitResolutionError` of a git that fails.
pub mod Changed
use Prim.Native.Char.{Char, code}
use Prim.Native.String.{char_at}
use legal_system.Prelude.{
  ℕ, String, Bool, true, false, not, ◌&&◌, ◌||◌, Option, none, some, List, [], ◌∷◌, ◌++◌, ◌==◌, ◌-◌,
  leb, contains, is_some, if◌then◌else◌,
}
use legal_system.Prelude.Text.{nil, truthy}
use legal_system.Prelude.FilePath.{split, name, as_posix}
use legal_system.Allowlist.{Allowlist, tree_for, is_excluded_file}
use legal_system.Reingest.{is_media}

abbrev alphabet : String
alphabet = "ABCDEFGHIJKLMNOPQRSTUVWXYZ"

-- `s[:1].upper()`, of ASCII text.
unfoldable pub initial : String → String
initial String.[] = nil
initial (String.◌∷◌ c s) =
    String.◌∷◌
      (if leb b'a' (code c) && leb (code c) b'z' then char_at alphabet (code c - b'a') else c) nil

unfoldable pub last_of : List String → String
last_of [] = nil
last_of (f ∷ []) = f
last_of (f ∷ g ∷ fs) = last_of (g ∷ fs)

abbrev first_of : List String → String
first_of [] = nil
first_of (f ∷ fs) = f

abbrev pub statuses : List String
statuses = "A" ∷ "M" ∷ "D" ∷ "R" ∷ "C" ∷ "T" ∷ []

-- `"\t" not in line`: the split has a single field.
unfoldable pub is_unsplit : List String → Bool
is_unsplit (f ∷ g ∷ fs) = false
is_unsplit _ = true

-- `_parse_name_status`, on the lines of the text.
unfoldable pub parse_name_status : List String → List (String × String)
parse_name_status [] = []
parse_name_status (line ∷ lines) =
    let rest = parse_name_status lines in
    let fields = split 9 line in
    if not (truthy line) || is_unsplit fields
    then rest
    else if contains statuses (initial (first_of fields))
    then (initial (first_of fields), last_of fields) ∷ rest
    else rest

-- `_is_ingestable`
unfoldable pub is_ingestable : String → Allowlist → Bool
is_ingestable rel allow =
    if name rel == "metadata.yaml"
    then false
    else if is_excluded_file allow rel
    then false
    else if is_some (tree_for allow rel)
    then not (is_media rel)
    else false

-- One turn of the loop of `changed_files`; `out` also stands for `seen`.
unfoldable pub add_row : Allowlist → List String → String × String → List String
add_row allow out (status, path) =
    if status == "D"
    then out
    else if not (is_ingestable path allow)
    then out
    else if contains out (as_posix path)
    then out
    else out ++ as_posix path ∷ []

unfoldable pub changed_from : Allowlist → List String → List (String × String) → List String
changed_from allow out [] = out
changed_from allow out (row ∷ rows) = changed_from allow (add_row allow out row) rows

-- `changed_files`, on what git printed.
unfoldable pub changed_files : Allowlist → Option (List String) → Option (List String)
changed_files allow none = none
changed_files allow (some lines) = some (changed_from allow [] (parse_name_status lines))
