-- ===== src/Catchup.antt =====
-- ingest/catchup.py: one bounded pass over goldberg-raw. The walk is over the nodes of the tree, the
-- manifest file is a dictionary that is read and, if something is new, written.
pub mod Select
pub mod Refresh
pub mod Pass
pub mod Recorded
pub mod Report
pub mod Run
use legal_system.Prelude.{
  ℕ, ◌+◌, ◌-◌, String, Bool, true, false, not, ◌&&◌, ◌||◌, Option, none, some, List, [], ◌∷◌, ◌++◌,
  ◌==◌, ◌<>◌, map, contains, is_some, length, leb, count_if, if◌then◌else◌,
}
use legal_system.Prelude.Text.{truthy, lower}
use legal_system.Prelude.FilePath.{first_part, name}
use legal_system.Prelude.Dict.{Dict, lookup, has_key, insert, keys}
use legal_system.Prelude.Collect.{collect}
use legal_system.Data.{opt_or}
use legal_system.Exclusion.{ExclusionEntry, ExclusionRegistry, match}
use legal_system.Allowlist.{Allowlist, tree_for, is_excluded_file}
use legal_system.Manifest.{
  Node, file, folder, Raw, ManifestEntry, entry_is_no_index, Built, raised, skipped, built,
  build_entry, Manifest, init,
}
use legal_system.Reingest.{Services, ReingestReport, Status, no_report, is_media, reingest_from_raw}

-- `match_entry` and `excludes_entry` of exclusion_registry.py, on a manifest entry.
unfoldable pub match_entry : ExclusionRegistry → ManifestEntry → Option ExclusionEntry
match_entry r e = match r (some e.raw_path) (some e.sha256)

abbrev pub excludes_entry : ExclusionRegistry → ManifestEntry → Bool
excludes_entry r e = is_some (match_entry r e)

-- The loop of `refresh_provenance`: the manifest file, its keys, and what the pass found.
pub record Refreshing : Type 0 where
  pub existing : Dict ManifestEntry
  pub known : List String
  pub new_entries : List ManifestEntry
  pub scanned : ℕ

unfoldable pub is_scanned : Allowlist → String → Bool
is_scanned allow rel =
    if first_part rel == ".git"
    then false
    else if name rel == "metadata.yaml" || is_excluded_file allow rel
    then false
    else is_some (tree_for allow rel)

-- What the loop does with the result of `build_entry`; `none` is its exception.
unfoldable pub register : Built → Refreshing → Option Refreshing
register raised st = none
register skipped st = some st
register (built e) st = some (record st {
  new_entries = st.new_entries ++ e ∷ [];
  existing = insert e.sha256 e st.existing;
  known = e.sha256 ∷ st.known;
})

unfoldable pub refresh_file :
    Raw → Allowlist → Bool → String → (content : String) → Refreshing → Option Refreshing
refresh_file raw allow with_commit rel content st =
    if is_scanned allow rel
    then register (build_entry raw allow with_commit (some st.known) rel content)
        (record st { scanned = st.scanned + 1 })
    else some st

unfoldable pub refresh_files : Raw → Allowlist → Bool → Dict Node → Refreshing → Option Refreshing
refresh_files raw allow with_commit [] st = some st
refresh_files raw allow with_commit ((rel, folder) ∷ nodes) st =
    refresh_files raw allow with_commit nodes st
refresh_files raw allow with_commit ((rel, file content) ∷ nodes) st =
    elim (refresh_file raw allow with_commit rel content st) [
      | none ↦ none
      | some st' ↦ refresh_files raw allow with_commit nodes st'
    ]

-- `refresh_provenance`, on the manifest file (`none` if it is missing or corrupt). The file is written if
-- `new_entries` is not empty, and then holds `existing`.
unfoldable pub refresh_provenance :
    Raw → Allowlist → Option (Dict ManifestEntry) → (with_commit : Bool) → Option Refreshing
refresh_provenance raw allow manifest_file with_commit =
    let existing : Dict ManifestEntry = elim manifest_file [ none ↦ [] | some d ↦ d ] in
    refresh_files raw allow with_commit raw.nodes (record {
      existing = existing;
      known = map (λ x. lower x.0) existing;
      new_entries = [];
      scanned = 0;
    })

unfoldable pub entry_is_ingestable : ManifestEntry → Option ExclusionRegistry → Bool
entry_is_ingestable e registry =
    if (elim registry [ none ↦ false | some r ↦ excludes_entry r e ])
    then false
    else if entry_is_no_index e
    then false
    else not (is_media e.raw_path)

-- `(Path(raw_root) / raw_path).exists()`; the empty path is the root itself.
unfoldable pub source_is_present : ManifestEntry → Raw → Bool
source_is_present e raw = not (truthy e.raw_path) || has_key e.raw_path raw.nodes

abbrev is_absent_from : Option Raw → ManifestEntry → Bool
is_absent_from none e = false
is_absent_from (some raw) e = not (source_is_present e raw)

-- The tests of the loops in `select_pending` and `count_pending`.
unfoldable pub is_pending :
    (skip non_indexable : List String)
    → Option ExclusionRegistry
    → Option Raw
    → String
    → ManifestEntry
    → Bool
is_pending skip non_indexable registry raw_root sha e =
    if contains skip sha || contains non_indexable sha
    then false
    else if entry_is_ingestable e registry
    then not (is_absent_from raw_root e)
    else false

unfoldable pub select_pending :
    Manifest
    → (skip : List String) → (batch : ℕ) → (non_indexable : List String) → Option ExclusionRegistry
    → Option Raw
    → List (String × ManifestEntry)
select_pending m skip batch non_indexable registry raw_root =
    collect (λ x. is_pending skip non_indexable registry raw_root x.0 x.1) (some batch) [] m.by_sha

unfoldable pub count_pending :
    Manifest → (skip non_indexable : List String) → Option ExclusionRegistry → Option Raw → ℕ
count_pending m skip non_indexable registry raw_root =
    count_if (λ x. is_pending skip non_indexable registry raw_root x.0 x.1) m.by_sha

unfoldable pub count_missing_source :
    Manifest → (skip : List String) → Raw → Option ExclusionRegistry → ℕ
count_missing_source m skip raw registry =
    count_if
      (λ x.
        if contains skip x.0
        then false
        else if entry_is_ingestable x.1 registry
        then not (source_is_present x.1 raw)
        else false)
      m.by_sha

-- The loop of `detect_blocked_reingests`.
unfoldable pub blocked_from :
    List String
    → ExclusionRegistry
    → Dict ManifestEntry
    → List (String × ManifestEntry × ExclusionEntry)
blocked_from skip registry [] = []
blocked_from skip registry ((sha, e) ∷ d) =
    let rest = blocked_from skip registry d in
    if contains skip sha
    then rest
    else if is_media e.raw_path
    then rest
    else (elim (match_entry registry e) [ none ↦ rest | some x ↦ (sha, e, x) ∷ rest ])

unfoldable pub detect_blocked_reingests :
    Manifest → List String → ExclusionRegistry → List (String × ManifestEntry × ExclusionEntry)
detect_blocked_reingests m skip registry = blocked_from skip registry m.by_sha

-- `log_no_index_skips`, without the log.
unfoldable pub log_no_index_skips : Manifest → ℕ
log_no_index_skips m = count_if (λ x. entry_is_no_index x.1) m.by_sha
