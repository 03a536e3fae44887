-- ===== src/Catchup/Report.antt =====
-- ingest/catchup.py: the numbers of a `CatchupReport`.
use legal_system.Prelude.{
  ℕ, ◌+◌, min, max, leb, String, not, ◌&&◌, some, List, [], contains, length, count_if, ◌≡◌,
}
use legal_system.Prelude.Dict.{Dict}
use legal_system.Exclusion.{ExclusionRegistry}
use legal_system.Allowlist.{Allowlist}
use legal_system.Manifest.{Raw, Manifest}
use legal_system.Catchup.{count_pending, entry_is_ingestable}
use legal_system.Catchup.Run.{CatchupReport, degraded}

-- What the report of a pass over the manifest `m` says, with `skip` indexed already.
abbrev pub IsAccount :
    Raw → ExclusionRegistry → (batch : ℕ) → List String → Manifest → CatchupReport → Type 0
IsAccount raw registry batch skip m r =
    let total = count_pending m skip [] (some registry) (some raw) in
    (r.pending ≡ min (max 1 batch) total)
    × (r.pending + r.remaining_pending ≡ total)
    × (degraded r ≡ leb (max 1 batch + 1) total)
    × (r.skipped
          + r.pending
          + r.remaining_pending
          + r.missing_source_skipped
          + count_if (λ x. not (contains skip x.0) && not (entry_is_ingestable x.1 (some registry)))
              m.by_sha
        ≡ length m.by_sha)
