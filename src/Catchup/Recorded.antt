-- ===== src/Catchup/Recorded.antt =====
-- exclusion_registry.py and ingest/catchup.py together: a recorded exclusion binds the next pass.
use legal_system.Prelude.{
  ℕ, String, Bool, true, false, Option, none, some, List, ◌≡◌, ◌∙◌, sym, ap, subst, is_some, arith,
  inl, inr, Bool-cases, All,
}
use legal_system.Prelude.Text.{truthy, starts_with}
use legal_system.Prelude.Dict.{Dict}
use legal_system.Prelude.Lines.{ends_line}
use legal_system.Exclusion.{
  ExclusionEntry, ExclusionRegistry, Json, recorded, load, excludes, new_entry, record_exclusion,
}
use legal_system.Exclusion.Record.{Honours, IsWritten, excluded, record_exclusion-Honours}
use legal_system.Allowlist.{Allowlist}
use legal_system.Manifest.{ManifestEntry}
use legal_system.Document.{DocumentMetadata, EnrichedDocument}
use legal_system.Reingest.{Services, PipelineEvent}
use legal_system.Reingest.Restricted.{IsGuarded}
use legal_system.Catchup.Run.{run_catchup}
use legal_system.Catchup.Pass.{IsUnrestricted, IsGuarded-weaken, run_catchup-writes_unrestricted}

-- The document does not stand under the path.
abbrev pub IsOutside : String → EnrichedDocument → Type 0
IsOutside path doc = starts_with doc.raw_path path ≡ false

IsUnrestricted-IsOutside :
    (json : Json) (path reason source file file' : String) (e : ExclusionEntry)
    (r : ExclusionRegistry)
    → Honours json path reason source file (recorded e file')
    → load json file' ≡ some r
    → (doc : EnrichedDocument) → IsUnrestricted r doc
    → IsOutside path doc
IsUnrestricted-IsOutside json path reason source file file' e r (_, _, _, _, _, held) loaded doc d =
    elim (Bool-cases (starts_with doc.raw_path path)) [
      | inl under ↦
          let barred : excludes r (some doc.raw_path) none ≡ true =
            sym (ap (excluded doc.raw_path none) loaded)
            ∙ held doc.raw_path none (ground (arith, under)) in
          ground (arith, barred, d.0)
      | inr outside ↦ outside
    ]

-- Once an exclusion has been recorded for a path that is not empty, in a registry file that can be loaded
-- and whose last line has ended, and the line of the entry is in braces, reads back and has no line break
-- in it, a pass that loads the file gives no document under that path to a sink: every property `P` of the
-- world is kept that events, the extraction and the enrichment keep, and that the sinks keep when they
-- remove a path or are given a document outside it.
pub record_exclusion-run_catchup :
    (json : Json) (path reason source : String) (sha stamp : Option String)
    (now file file' : String) (e : ExclusionEntry) (r : ExclusionRegistry)
    → truthy path ≡ true
    → ends_line file ≡ true
    → is_some (load json file) ≡ true
    → IsWritten json (new_entry path reason source sha stamp now)
    → record_exclusion json path reason source sha stamp now file ≡ recorded e file'
    → load json file' ≡ some r
    → {W : Type 0} (env : Services W) (P : W → Type 0) (allow : Allowlist)
      (manifest_file : Option (Dict ManifestEntry)) (already_indexed : W → List String) (batch : ℕ)
      (with_commit : Bool) (prefix : String) (w : W)
    → ((send : PipelineEvent → W → W)
        → env.emit ≡ some send
        → (x : PipelineEvent) (v : W) → P v
        → P (send x v))
    → ((p : String) (v : W) → P v → P (env.convert p v).1)
    → ((p content : String) (base : DocumentMetadata) (v : W)
        → P v
        → P (env.enrich p content base v).1)
    → All (IsGuarded P (IsOutside path)) env.sinks
    → P w
    → P (run_catchup env allow manifest_file already_indexed batch with_commit prefix r w).world
record_exclusion-run_catchup json path reason source sha stamp now file file' e r t ended loads
      written recorded_here loaded env P allow manifest_file already_indexed batch with_commit
      prefix w emits converts enriches sinks h =
    let honoured : Honours json path reason source file (recorded e file') =
      subst (Honours json path reason source file) recorded_here (
        record_exclusion-Honours json path reason source sha stamp now file t ended loads
          written) in
    run_catchup-writes_unrestricted env P r allow manifest_file already_indexed batch with_commit
      prefix w emits converts enriches
      (IsGuarded-weaken P (IsOutside path) (IsUnrestricted r) env.sinks
        (IsUnrestricted-IsOutside json path reason source file file' e r honoured loaded) sinks)
      h
