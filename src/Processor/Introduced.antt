-- ===== src/Processor/Introduced.antt =====
-- ingest/processor.py: which documents the processing of a commit gives to the sinks.
use legal_system.Prelude.{
  String, Bool, true, false, Option, none, some, List, [], ◌∷◌, ◌≡◌, ap, All, contains, ◌∙◌, refl,
}
use legal_system.Prelude.Dict.{Dict}
use legal_system.Allowlist.{Allowlist}
use legal_system.Manifest.{ManifestEntry, init}
use legal_system.Document.{EnrichedDocument, DocumentMetadata}
use legal_system.Reingest.{Services, PipelineEvent, is_media}
use legal_system.Reingest.Restricted.{IsGuarded, IsAllowed, reingest_from_raw-writes_allowed}
use legal_system.Catchup.{Refreshing, refresh_provenance}
use legal_system.Catchup.Run.{written}
use legal_system.Catchup.Pass.{IsGuarded-weaken}
use legal_system.CommitFiles.{changed_files}
use legal_system.Processor.Resolve.{process_files, process_refreshed, process_commit, load_manifest}

-- A document of a file that is among the changed ones, is no medium, and is not restricted.
abbrev pub IsIntroduced : Option (List String) → EnrichedDocument → Type 0
IsIntroduced files doc =
    (fs : List String) × (files ≡ some fs)
    × (contains fs doc.raw_path ≡ true)
    × (is_media doc.raw_path ≡ false)
    × (doc.metadata.no_index ≡ false)

IsAllowed-IsIntroduced :
    (d : Dict ManifestEntry) (f : String) (fs skip : List String) (doc : EnrichedDocument)
    → IsAllowed (init d) (some (f ∷ fs)) skip doc
    → IsIntroduced (some (f ∷ fs)) doc
IsAllowed-IsIntroduced d f fs skip doc (sha, e, i, asked, new, free, medium, path, meta) =
    (f ∷ fs, refl, ap (contains (f ∷ fs)) path ∙ asked, ap is_media path ∙ medium, meta)

module _ {W : Type 0} (env : Services W) (P : W → Type 0)
    (emits : (send : PipelineEvent → W → W)
      → env.emit ≡ some send
      → (x : PipelineEvent) (v : W) → P v
      → P (send x v))
    (converts : (path : String) (v : W) → P v → P (env.convert path v).1)
    (enriches : (path content : String) (base : DocumentMetadata) (v : W)
      → P v
      → P (env.enrich path content base v).1)
    (allow : Allowlist) (already_indexed : W → List String) (with_commit : Bool)
    (git : String → Option (List String)) where
  process_files-keeps :
      (commit_sha run_id : String) (files : Option (List String)) (d : Dict ManifestEntry) (w : W)
      → All (IsGuarded P (IsIntroduced files)) env.sinks
      → P w
      → P
          (process_files env allow already_indexed with_commit git commit_sha run_id files
            (init d)
            w).1
  unfolding process_files
  process_files-keeps commit_sha run_id none d w sinks h = h
  process_files-keeps commit_sha run_id (some []) d w sinks h = h
  process_files-keeps commit_sha run_id (some (f ∷ fs)) d w sinks h =
      reingest_from_raw-writes_allowed env P d run_id none (some (f ∷ fs)) (already_indexed w) w
        emits converts enriches
        (IsGuarded-weaken P (IsIntroduced (some (f ∷ fs)))
          (IsAllowed (init d) (some (f ∷ fs)) (already_indexed w)) env.sinks
          (IsAllowed-IsIntroduced d f fs (already_indexed w)) sinks)
        h

  process_loaded-keeps :
      (commit_sha run_id : String) (files : Option (List String))
      (file : Option (Dict ManifestEntry)) (w : W)
      → All (IsGuarded P (IsIntroduced files)) env.sinks
      → P w
      → P
          (process_files env allow already_indexed with_commit git commit_sha run_id files
            (load_manifest env allow already_indexed with_commit git file)
            w).1
  process_loaded-keeps commit_sha run_id files none w sinks h =
      process_files-keeps commit_sha run_id files [] w sinks h
  process_loaded-keeps commit_sha run_id files (some d) w sinks h =
      process_files-keeps commit_sha run_id files d w sinks h

  process_refreshed-keeps :
      (commit_sha run_id : String) (file : Option (Dict ManifestEntry)) (r : Option Refreshing)
      (w : W)
      → All (IsGuarded P (IsIntroduced (changed_files allow (git commit_sha)))) env.sinks
      → P w
      → P (process_refreshed env allow already_indexed with_commit git commit_sha run_id file r w).2
  unfolding process_refreshed
  process_refreshed-keeps commit_sha run_id file none w sinks h = h
  process_refreshed-keeps commit_sha run_id file (some r) w sinks h =
      process_loaded-keeps commit_sha run_id (changed_files allow (git commit_sha))
        (written env file r) w sinks h

-- The processing of a commit keeps every property `P` of the world that events, the extraction and the
-- enrichment keep, and that each sink keeps when it removes a path or is given a document that the commit
-- introduces: of a file that `changed_files` names, that is no medium, and that is not restricted.
pub process_commit-writes_introduced :
    {W : Type 0} (env : Services W) (P : W → Type 0) (allow : Allowlist)
    (already_indexed : W → List String) (with_commit : Bool) (git : String → Option (List String))
    (commit_sha run_id : String) (file : Option (Dict ManifestEntry)) (w : W)
    → ((send : PipelineEvent → W → W)
        → env.emit ≡ some send
        → (x : PipelineEvent) (v : W) → P v
        → P (send x v))
    → ((path : String) (v : W) → P v → P (env.convert path v).1)
    → ((path content : String) (base : DocumentMetadata) (v : W)
        → P v
        → P (env.enrich path content base v).1)
    → All (IsGuarded P (IsIntroduced (changed_files allow (git commit_sha)))) env.sinks
    → P w
    → P (process_commit env allow already_indexed with_commit git commit_sha run_id file w).2
unfolding process_commit
process_commit-writes_introduced env P allow already_indexed with_commit git commit_sha run_id file
      w emits converts enriches sinks h =
    process_refreshed-keeps env P emits converts enriches allow already_indexed with_commit git
      commit_sha run_id file (refresh_provenance env.raw allow file with_commit) w sinks h
