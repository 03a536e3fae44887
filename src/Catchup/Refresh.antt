-- ===== src/Catchup/Refresh.antt =====
-- ingest/catchup.py: what `refresh_provenance` registers. `known` mirrors the keys of the manifest.
use legal_system.Prelude.{String, Bool, true, false, none, some, [], contains, is_some, ◌≡◌, IsIn}
use legal_system.Prelude.Text.{lower}
use legal_system.Prelude.Dict.{Dict, lookup, has_key}
use legal_system.Sidecar.{resolve_chain}
use legal_system.Allowlist.{Allowlist}
use legal_system.Manifest.{
  Node, file, folder, Raw, layer_at, ManifestEntry, resolve_matters, evidence_tree, lower_keys,
}
use legal_system.Catchup.{Refreshing}

-- `known` holds exactly the keys of the manifest.
abbrev IsMirrored : Refreshing → Type 0
IsMirrored st = (s : String) → contains st.known s ≡ has_key s (lower_keys [] st.existing)

abbrev Keeps : Dict ManifestEntry → Dict ManifestEntry → Type 0
Keeps d d' =
    (s : String) (e : ManifestEntry)
    → lookup s (lower_keys [] d) ≡ some e
    → lookup s (lower_keys [] d') ≡ some e

abbrev is_file_node : Node → Bool
is_file_node (file c) = true
is_file_node folder = false

abbrev node_content : Node → String
node_content (file c) = c
node_content folder = ""

-- After a file: nothing is lost, and its hash is known if it is evidence.
abbrev IsAfter : Raw → Allowlist → String → (content : String) → Refreshing → Refreshing → Type 0
IsAfter raw allow rel content st st' =
    IsMirrored st'
    × Keeps st.existing st'.existing
    × (is_some (evidence_tree allow rel) ≡ true → contains st'.known (raw.digest content) ≡ true)

module _ (raw : Raw) (allow : Allowlist) (with_commit : Bool)
    (hex : (content : String) → lower (raw.digest content) ≡ raw.digest content)
    (readable : (rel : String)
      → ¬ (resolve_matters (resolve_chain (layer_at raw) rel).fields ≡ none)) where
  -- The files of `nodes` that are evidence.
  abbrev IsKnown : Refreshing → Dict Node → Type 0
  IsKnown st nodes =
      (rel content : String)
      → IsIn (rel, file content) nodes
      → is_some (evidence_tree allow rel) ≡ true
      → contains st.known (raw.digest content) ≡ true
