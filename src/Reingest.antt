-- ===== src/Reingest.antt =====
-- migrate/reingest.py: extract, enrich and index the manifested files. Docling, the enricher, the clock
-- and the sinks are parameters that act on a world of their own, of type `W`.
pub mod Restricted
pub mod Tally
use legal_system.Prelude.{
  ℕ, zero, suc, ◌+◌, String, Bool, true, false, Option, none, some, List, [], ◌∷◌, ◌++◌, contains,
  length, leb, is_some, all, filter, not, ◌&&◌, ◌<>◌, if◌then◌else◌,
}
use legal_system.Prelude.Text.{truthy, lower, strip}
use legal_system.Prelude.FilePath.{suffix}
use legal_system.Prelude.Collect.{collect}
use legal_system.Prelude.Dict.{Dict}
use legal_system.Data.{opt_or, opt_truthy}
use legal_system.Sidecar.{Problem}
use legal_system.Manifest.{ManifestEntry, Manifest, Raw, is_file, entry_is_no_index}
use legal_system.Document.{
  DocumentMetadata, EnrichmentResult, EnrichedDocument, SinkResult, assemble, base_for_sha,
}

abbrev pub skip_ext : List String
skip_ext = ".mp4" ∷ ".mov" ∷ ".avi" ∷ ".mkv" ∷ ".webm" ∷ ".m4a" ∷ ".mp3" ∷ ".wav" ∷ ".ogg" ∷ []

-- `Path(raw_path).suffix.lower() in _SKIP_EXT`
unfoldable pub is_media : String → Bool
is_media path = contains skip_ext (lower (suffix path))

-- What `process_one` says of a file; `missing` is the processor's own.
pub data Status : Type 0 where
  indexed skipped_indexed skipped_no_index skipped_media skipped_empty missing_file sink_failed :
      Status
  missing : Status
  extract_failed error : String → Status

pub record ReingestReport : Type 0 where
  pub processed : ℕ
  pub indexed : ℕ
  pub skipped_empty : ℕ
  pub skipped_media : ℕ
  pub skipped_indexed : ℕ
  pub skipped_no_index : ℕ
  pub missing_file : ℕ
  pub failures : ℕ

abbrev pub no_report : ReingestReport
no_report = record {
  processed = 0;
  indexed = 0;
  skipped_empty = 0;
  skipped_media = 0;
  skipped_indexed = 0;
  skipped_no_index = 0;
  missing_file = 0;
  failures = 0;
}

-- The chain of tests in `tally`, after `processed += 1`.
unfoldable pub tally_status : Status → ReingestReport → ReingestReport
tally_status Status.indexed r = record r { indexed = r.indexed + 1 }
tally_status Status.skipped_empty r = record r { skipped_empty = r.skipped_empty + 1 }
tally_status Status.skipped_media r = record r { skipped_media = r.skipped_media + 1 }
tally_status Status.skipped_indexed r = record r { skipped_indexed = r.skipped_indexed + 1 }
tally_status Status.skipped_no_index r = record r { skipped_no_index = r.skipped_no_index + 1 }
tally_status Status.missing_file r = record r { missing_file = r.missing_file + 1 }
tally_status _ r = record r { failures = r.failures + 1 }

unfoldable pub tally : Status → ReingestReport → ReingestReport
tally s r = tally_status s (record r { processed = r.processed + 1 })

pub data Stage : Type 0 where
  received extracted enriched at_index : Stage

pub data EventStatus : Type 0 where
  started ok skipped failed : EventStatus

-- `PipelineEvent`, without the time stamp that `make` adds and the further keyword details.
pub record PipelineEvent : Type 0 where
  pub component : String
  pub stage : Stage
  pub status : EventStatus
  pub run_id : String
  pub raw_path : Option String
  pub sha256 : Option String
  pub reason : Option String
  pub error : Option String
  pub attempt : ℕ

-- How `convert_file` ends: with a text, with a `DoclingError`, or with another exception.
pub data Converted : Type 0 where
  markdown docling_error crashed : String → Converted

-- How a call ends that may raise: `enrich`, and `write` of a sink.
pub data Attempt (A : Type 0) : Type 0 where
  returned : A → Attempt A
  exception : String → Attempt A

pub record Sink (W : Type 0) : Type 0 where
  pub write : EnrichedDocument → W → Attempt SinkResult × W
  pub remove_by_raw_path : Option (String → W → ℕ × W)  -- only with `SupportsRawPathDeletion`

pub record Services (W : Type 0) : Type 0 where
  pub raw : Raw
  pub emit : Option (PipelineEvent → W → W)  -- `safe_emit` to a sink, if one is configured
  pub convert : String → W → Converted × W
  pub enrich : String → String → DocumentMetadata → W → Attempt EnrichmentResult × W
  pub now : W → String
  pub sinks : List (Sink W)

unfoldable pub prepend : SinkResult → Attempt (List SinkResult) → Attempt (List SinkResult)
prepend r (exception e) = exception e
prepend r (returned rs) = returned (r ∷ rs)

unfoldable pub join_details : List SinkResult → String
join_details [] = ""
join_details (r ∷ []) = opt_or "" r.detail
join_details (r ∷ s ∷ rs) = opt_or "" r.detail <> "; " <> join_details (s ∷ rs)

-- `"; ".join(r.detail for r in results if not r.ok and r.detail)`
unfoldable pub failed_details : List SinkResult → Option String
failed_details results = some (join_details (filter (λ r. not r.ok && opt_truthy r.detail) results))

abbrev pub wanted : Option (List String) → ManifestEntry → Bool
wanted none e = true
wanted (some paths) e = contains paths e.raw_path

-- The loop that selects the work list and stops at `max_docs`.
unfoldable pub select_items :
    Option ℕ → Option (List String) → Dict ManifestEntry → List (String × ManifestEntry)
select_items max_docs only d = collect (λ (_, e). wanted only e) max_docs [] d

module _ {W : Type 0} (env : Services W) where
  -- `emit(stage, status, sha, raw_path, …)`
  unfoldable pub emit_event : PipelineEvent → W → W
  emit_event event w = elim env.emit [ none ↦ w | some send ↦ send event w ]

  abbrev pub event :
      String → Stage → EventStatus → String → String → Option String → Option String → PipelineEvent
  event run_id stage status sha raw_path reason detail = record {
    component = "reingest";
    stage = stage;
    status = status;
    run_id = run_id;
    raw_path = some raw_path;
    sha256 = some sha;
    reason = reason;
    error = detail;
    attempt = 0;
  }

  -- The tombstones: each sink that can removes its records of the path.
  unfoldable pub remove_stale : String → List (Sink W) → W → W
  remove_stale path [] w = w
  remove_stale path (s ∷ ss) w = elim s.remove_by_raw_path [
    | none ↦ remove_stale path ss w
    | some remove ↦ remove_stale path ss (remove path w).1
  ]

  -- `write_to_sinks`; an exception of one sink ends it.
  unfoldable pub write_to_sinks :
      EnrichedDocument → List (Sink W) → W → Attempt (List SinkResult) × W
  write_to_sinks doc [] w = (returned [], w)
  write_to_sinks doc (s ∷ ss) w =
      let (r, w') = s.write doc w in
      let rest = write_to_sinks doc ss w' in
      elim r [ exception e ↦ (exception e, w') | returned x ↦ (prepend x rest.0, rest.1) ]

  -- The end of the `try` block, after the sinks.
  unfoldable pub finish_write :
      String → String → String → Attempt (List SinkResult) → W → Status × W
  finish_write run_id sha path (exception e) w = (
    error e,
    emit_event (event run_id enriched failed sha path (some "enrich/index error") (some e)) w,
  )
  finish_write run_id sha path (returned results) w =
      if all (λ r. r.ok) results
      then (Status.indexed, emit_event (event run_id at_index ok sha path none none) w)
      else (
        sink_failed,
        emit_event
            (event run_id at_index failed sha path (some "sink write failed")
              (failed_details results))
            w,
      )

  unfoldable pub finish_enrich :
      String
      → String
      → String
      → (content : String) → DocumentMetadata
      → Attempt EnrichmentResult
      → W
      → Status × W
  finish_enrich run_id sha path content base (exception e) w = (
    error e,
    emit_event (event run_id enriched failed sha path (some "enrich/index error") (some e)) w,
  )
  finish_enrich run_id sha path content base (returned result) w =
      let doc = assemble env.raw.digest path content base result (env.now w) in
      let (results, w') = write_to_sinks doc env.sinks w in finish_write run_id sha path results w'

  -- The loud event for a rejected layer of metadata.
  unfoldable pub report_metadata_error : String → String → String → List Problem → W → W
  report_metadata_error run_id sha path [] w = w
  report_metadata_error run_id sha path (p ∷ ps) w =
      emit_event
        (event run_id received ok sha path (some "metadata rejected (bad-key/orphan/no-reason)")
          none)
        w

  -- The `try` block; an entry that the manifest has not is its failed assertion.
  unfoldable pub index_document :
      String → Manifest → String → String → (content : String) → W → Status × W
  index_document run_id manifest sha path content w = elim (base_for_sha manifest sha) [
    | none ↦ (
      error "",
      emit_event (event run_id enriched failed sha path (some "enrich/index error") (some "")) w,
    )
    | some base ↦
        let w1 = report_metadata_error run_id sha path base.metadata_error w in
        let (r, w2) = env.enrich path content (record base { raw_path = some path }) w1 in
        finish_enrich run_id sha path content base r w2
  ]

  -- The code after `convert_file`; `none` is an exception that leaves `process_one`.
  unfoldable pub finish_convert :
      String → Manifest → String → String → Converted → W → Option Status × W
  finish_convert run_id manifest sha path (crashed e) w = (none, w)
  finish_convert run_id manifest sha path (docling_error e) w = (
    some (extract_failed e),
    emit_event (event run_id extracted failed sha path (some "docling extraction") (some e)) w,
  )
  finish_convert run_id manifest sha path (markdown content) w =
      if truthy (strip content)
      then (let (s, w') = index_document run_id manifest sha path content w in (some s, w'))
      else (
        some Status.skipped_empty,
        emit_event (event run_id extracted skipped sha path (some "empty extraction") none) w,
      )

  -- The file is there and is evidence: extract it.
  unfoldable pub extract_file : String → Manifest → String → String → W → Option Status × W
  extract_file run_id manifest sha path w =
      let (c, w') = env.convert path (emit_event (event run_id received ok sha path none none) w) in
      finish_convert run_id manifest sha path c w'

  unfoldable pub process_one :
      String
      → Manifest
      → (skip_shas : List String) → (sha : String) → ManifestEntry
      → W
      → Option Status × W
  process_one run_id manifest skip_shas sha e w =
      if contains skip_shas sha
      then (some Status.skipped_indexed, w)
      else if entry_is_no_index e
      then (
        some Status.skipped_no_index,
        emit_event
            (event run_id received skipped sha e.raw_path
              (some ("no_index: " <> opt_or "(no reason given)" e.no_index_reason)) none)
            w,
      )
      else if is_media e.raw_path
      then (
        some Status.skipped_media,
        emit_event
            (event run_id extracted skipped sha e.raw_path (some "media (no OCR-able text)") none)
            w,
      )
      else if is_file env.raw e.raw_path
      then extract_file run_id manifest sha e.raw_path w
      else (
        some Status.missing_file,
        emit_event
            (event run_id received failed sha e.raw_path (some "file missing in goldberg-raw") none)
            (remove_stale e.raw_path env.sinks w),
      )

  abbrev pub Item : Type 0
  Item = String × ManifestEntry

  -- The documents one after the other, in the order in which they complete. An exception that leaves
  -- `process_one` leaves the loop.
  unfoldable pub run_items :
      String
      → Manifest
      → List String
      → List Item
      → ReingestReport
      → List (String × Status)
      → W
      → Option (ReingestReport × List (String × Status)) × W
  run_items run_id manifest skip_shas [] report done w = (some (report, done), w)
  run_items run_id manifest skip_shas ((sha, e) ∷ items) report done w =
      let (s, w') = process_one run_id manifest skip_shas sha e w in
      elim s [
        | none ↦ (none, w')
        | some status ↦
            run_items run_id manifest skip_shas items (tally status report)
              (done ++ (e.raw_path, status) ∷ []) w'
      ]

  -- `reingest_from_raw`: the report, and the calls of `on_doc` in order.
  unfoldable pub reingest_from_raw :
      String
      → Manifest
      → (max_docs : Option ℕ) → (only : Option (List String)) → (skip_shas : List String) → W
      → Option (ReingestReport × List (String × Status)) × W
  reingest_from_raw run_id manifest max_docs only skip_shas w =
      run_items run_id manifest skip_shas (select_items max_docs only manifest.by_sha) no_report []
        w
