-- ===== src/Processor/Resolve.antt =====
-- ingest/processor.py: `process_commit`, from the commit to the result of each file.
use legal_system.Prelude.{String, Bool, not, Option, none, some, List, [], ◌∷◌, ◌++◌, map, filter}
use legal_system.Prelude.Dict.{Dict, lookup, insert, has_key}
use legal_system.Allowlist.{Allowlist}
use legal_system.Manifest.{ManifestEntry, Manifest, init}
use legal_system.Reingest.{
  Status, missing, Attempt, returned, exception, Services, ReingestReport, reingest_from_raw,
}
use legal_system.Catchup.{Refreshing, refresh_provenance}
use legal_system.Catchup.Run.{written}
use legal_system.CommitFiles.{changed_files}
use legal_system.Processor.{FileResult, CommitResult}

-- `{e.get("raw_path", ""): sha for sha, e in manifest.items()}`
unfoldable pub path_to_sha : Dict String → Dict ManifestEntry → Dict String
path_to_sha acc [] = acc
path_to_sha acc ((sha, e) ∷ d) = path_to_sha (insert e.raw_path sha acc) d

-- The dictionary that `on_doc` fills.
unfoldable pub record_statuses : Dict Status → List (String × Status) → Dict Status
record_statuses acc [] = acc
record_statuses acc ((path, status) ∷ done) = record_statuses (insert path status acc) done

unfoldable pub file_results : Dict String → Dict Status → (files : List String) → List FileResult
file_results shas statuses files =
    map (λ (x : String × Status). record { raw_path = x.0; status = x.1; sha256 = lookup x.0 shas })
      statuses
    ++ map (λ (f : String). record { raw_path = f; status = missing; sha256 = lookup f shas })
        (filter (λ (f : String). not (has_key f statuses)) files)

module _ {W : Type 0} (env : Services W) (allow : Allowlist) (already_indexed : W → List String)
    (with_commit : Bool) (git : String → Option (List String)) where
  -- The end of `process_commit`, after `reingest_from_raw`.
  unfoldable pub collect_results :
      String
      → (files : List String) → Manifest
      → Option (List (String × Status))
      → Attempt CommitResult
  collect_results commit_sha files m none = exception "extraction"
  collect_results commit_sha files m (some done) = returned (record {
    commit_sha = commit_sha;
    results = file_results (path_to_sha [] m.by_sha) (record_statuses [] done) files;
  })

  abbrev statuses_of :
      Option (ReingestReport × List (String × Status)) → Option (List (String × Status))
  statuses_of none = none
  statuses_of (some x) = some x.1

  -- `process_commit`, from the resolved files on, with the manifest that was loaded.
  unfoldable pub process_files :
      String → String → Option (List String) → Manifest → W → Attempt CommitResult × W
  process_files commit_sha run_id none m w = (exception "GitResolutionError", w)
  process_files commit_sha run_id (some []) m w =
      (returned (record { commit_sha = commit_sha; results = [] }), w)
  process_files commit_sha run_id (some (f ∷ fs)) m w =
      let (r, w') = reingest_from_raw env run_id m none (some (f ∷ fs)) (already_indexed w) w in
      (collect_results commit_sha (f ∷ fs) m (statuses_of r), w')

  abbrev pub load_manifest : Option (Dict ManifestEntry) → Manifest
  load_manifest none = init []
  load_manifest (some d) = init d

  -- The end of `process_commit`, after `refresh_provenance`.
  unfoldable pub process_refreshed :
      String
      → String
      → Option (Dict ManifestEntry)
      → Option Refreshing
      → W
      → Attempt CommitResult × Option (Dict ManifestEntry) × W
  process_refreshed commit_sha run_id manifest_file none w = (exception "refresh", manifest_file, w)
  process_refreshed commit_sha run_id manifest_file (some refresh) w =
      let file = written env manifest_file refresh in
      let (r, w') =
        process_files commit_sha run_id (changed_files allow (git commit_sha)) (load_manifest file)
          w in
      (r, file, w')

  -- `process_commit` of `build_commit_processor`: the result, the manifest file, the world. `git` gives
  -- the lines of `git diff-tree` for a commit.
  unfoldable pub process_commit :
      String
      → String
      → Option (Dict ManifestEntry)
      → W
      → Attempt CommitResult × Option (Dict ManifestEntry) × W
  process_commit commit_sha run_id manifest_file w =
      process_refreshed commit_sha run_id manifest_file
        (refresh_provenance env.raw allow manifest_file with_commit) w
