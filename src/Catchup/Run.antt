-- ===== src/Catchup/Run.antt =====
-- ingest/catchup.py: the pass as a whole, `run_catchup`.
use legal_system.Prelude.{
  ℕ, ◌+◌, ◌-◌, String, Bool, Option, none, some, List, [], ◌∷◌, ◌<>◌, map, contains, length, leb,
  count_if,
}
use legal_system.Prelude.Dict.{Dict}
use legal_system.Exclusion.{ExclusionRegistry}
use legal_system.Allowlist.{Allowlist}
use legal_system.Manifest.{ManifestEntry, Manifest, init}
use legal_system.Reingest.{Services, ReingestReport, no_report, reingest_from_raw}
use legal_system.Catchup.{
  Refreshing, refresh_provenance, select_pending, count_pending, count_missing_source,
  detect_blocked_reingests, log_no_index_skips,
}

pub record CatchupReport : Type 0 where
  pub run_id : String
  pub scanned : ℕ
  pub new : ℕ
  pub pending : ℕ
  pub indexed : ℕ
  pub skipped : ℕ
  pub dead_lettered : ℕ
  pub remaining_pending : ℕ
  pub no_index_skipped : ℕ
  pub deliberately_excluded : ℕ
  pub missing_source_skipped : ℕ

-- `CatchupReport.degraded`
abbrev pub degraded : CatchupReport → Bool
degraded r = leb 1 r.remaining_pending

-- A pass: its report, if it does not raise; the manifest file; the world.
pub record PassResult (W : Type 0) : Type 0 where
  pub report : Option CatchupReport
  pub manifest_file : Option (Dict ManifestEntry)
  pub world : W

module _ {W : Type 0} (env : Services W) where
  -- The call of `reingest_from_raw`, if anything is pending.
  unfoldable pub process_pending :
      String
      → Manifest
      → List (String × ManifestEntry)
      → List String
      → W
      → Option ReingestReport × W
  process_pending run_id m [] skip w = (some no_report, w)
  process_pending run_id m (x ∷ xs) skip w =
      let only = map (λ (y : String × ManifestEntry). y.1.raw_path) (x ∷ xs) in
      let (r, w') = reingest_from_raw env run_id m none (some only) skip w in
      (elim r [ none ↦ none | some (report, done) ↦ some report ], w')

  unfoldable pub make_report :
      String
      → Refreshing
      → Manifest
      → List String
      → (batch : ℕ) → ExclusionRegistry
      → ReingestReport
      → CatchupReport
  make_report run_id refresh m skip batch registry report =
      let total_pending = count_pending m skip [] (some registry) (some env.raw) in
      let pending = length (select_pending m skip batch [] (some registry) (some env.raw)) in
      record {
        run_id = run_id;
        scanned = refresh.scanned;
        new = length refresh.new_entries;
        pending = pending;
        indexed = report.indexed;
        skipped = count_if (λ x. contains skip x.0) m.by_sha;
        dead_lettered = report.failures + report.missing_file;
        remaining_pending = total_pending - pending;
        no_index_skipped = log_no_index_skips m;
        deliberately_excluded = length (detect_blocked_reingests m skip registry);
        missing_source_skipped = count_missing_source m skip env.raw (some registry);
      }

  abbrev pub written : Option (Dict ManifestEntry) → Refreshing → Option (Dict ManifestEntry)
  written manifest_file refresh = elim refresh.new_entries [
    | [] ↦ manifest_file
    | _ ∷ _ ↦ some refresh.existing
  ]

  -- `run_catchup` after `refresh_provenance`; `none` is its exception.
  unfoldable pub finish_catchup :
      String
      → Option (Dict ManifestEntry)
      → (W → List String)
      → (batch : ℕ) → ExclusionRegistry
      → Option Refreshing
      → W
      → PassResult W
  finish_catchup run_id manifest_file already_indexed batch registry none w = record {
    report = none;
    manifest_file = manifest_file;
    world = w;
  }
  finish_catchup run_id manifest_file already_indexed batch registry (some refresh) w =
      let m = init refresh.existing in
      let skip = already_indexed w in
      let (r, w') =
        process_pending run_id m (select_pending m skip batch [] (some registry) (some env.raw))
          skip w in
      record {
        report = elim r [
          | none ↦ none
          | some report ↦ some (make_report run_id refresh m skip batch registry report)
        ];
        manifest_file = written manifest_file refresh;
        world = w';
      }

  -- `run_catchup`, with a registry; `already_indexed` asks the index.
  unfoldable pub run_catchup :
      (allowlist : Allowlist)
      → Option (Dict ManifestEntry)
      → (already_indexed : W → List String) → (batch : ℕ) → (with_commit : Bool)
      → (run_id_prefix : String) → ExclusionRegistry
      → W
      → PassResult W
  run_catchup allowlist manifest_file already_indexed batch with_commit run_id_prefix registry w =
      finish_catchup (run_id_prefix <> "-" <> env.now w) manifest_file already_indexed batch
        registry (refresh_provenance env.raw allowlist manifest_file with_commit) w
