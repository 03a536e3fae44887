-- ===== src/Reconcile/Point.antt =====
-- ingest/reconcile.py: the test of a single path agrees with the scan of the whole tree.
use legal_system.Prelude.{String, Bool, Option, some, ◌==◌}
use legal_system.Prelude.Dict.{Dict}
use legal_system.Allowlist.{Allowlist}
use legal_system.Manifest.{Node, file}
use legal_system.Reconcile.{GapFile}

-- The content of a node, if it is a file.
text_of : Option Node → String
text_of (some (file content)) = content
text_of _ = ""

-- The file in the gap has this path.
abbrev pub names : String → GapFile → Bool
names rel g = g.raw_path == rel
