-- ===== src/Allowlist.antt =====
-- migrate/allowlist.py, and the `fnmatch.fnmatch` that it calls. A pattern in square brackets is read
-- letter by letter: config/evidence-allowlist.yaml has none.
use Prim.Native.Char.{code}
use legal_system.Prelude.{String, Bool, true, false, not, ◌&&◌, ◌||◌, Option, List, any, eqb}
use legal_system.Prelude.Text.{truthy}
use legal_system.Prelude.FilePath.{first_part, as_posix}
use legal_system.Prelude.Dict.{Dict, lookup}

-- The test at some end of a text, for `*`.
any_tail : (String → Bool) → String → Bool
any_tail p String.[] = p String.[]
any_tail p (String.◌∷◌ c s) = p (String.◌∷◌ c s) || any_tail p s

-- `fnmatch(name, pattern)`, the pattern first.
unfoldable pub glob : String → String → Bool
unfolding any_tail
glob String.[] s = not (truthy s)
glob (String.◌∷◌ c p) String.[] = elim (eqb (code c) b'*') [
  | true ↦ glob p String.[]
  | false ↦ false
]
glob (String.◌∷◌ c p) (String.◌∷◌ d s) = elim (eqb (code c) b'*') [
  | true ↦ any_tail (glob p) (String.◌∷◌ d s)
  | false ↦ (eqb (code c) b'?' || eqb (code c) (code d)) && glob p s
]

pub record IncludedTree : Type 0 where
  pub name : String
  pub origin : String
  pub note : String

pub record Allowlist : Type 0 where
  pub included : Dict IncludedTree
  pub excluded : Dict String
  pub exclude_globs : List String

unfoldable pub tree_for : Allowlist → String → Option IncludedTree
tree_for a rel = lookup (first_part rel) a.included

unfoldable pub is_excluded_file : Allowlist → String → Bool
is_excluded_file a rel = any (λ pattern. glob pattern (as_posix rel)) a.exclude_globs
