-- ===== src/Processor.antt =====
-- ingest/processor.py: the consumer of commit events. The broker is outside: what the code tells it, and
-- the pipeline events, are recorded in order. `W` is the world of the indexing run.
pub mod Settle
pub mod Introduced
pub mod Commit
pub mod Resolve
use legal_system.Prelude.{
  ℕ, zero, suc, ◌+◌, String, Bool, true, false, not, Option, none, some, List, [], ◌∷◌, ◌++◌, ◌<>◌,
  map, filter, any, contains, leb, length, if◌then◌else◌,
}
use legal_system.Prelude.Text.{starts_with}
use legal_system.Prelude.Dict.{Dict, lookup, insert, has_key}
use legal_system.Allowlist.{Allowlist}
use legal_system.Manifest.{ManifestEntry, Manifest, init}
use legal_system.Reingest.{
  Status, missing, sink_failed, extract_failed, error, Stage, EventStatus, PipelineEvent, Attempt,
  returned, exception, Services, ReingestReport, reingest_from_raw,
}
use legal_system.Catchup.{Refreshing, refresh_provenance}
use legal_system.Catchup.Run.{written}
use legal_system.CommitFiles.{changed_files}

-- `_TERMINAL_OK` and `_TERMINAL_MISSING_FILE`
abbrev pub is_terminal : Status → Bool
is_terminal Status.indexed = true
is_terminal Status.skipped_indexed = true
is_terminal Status.skipped_media = true
is_terminal Status.skipped_empty = true
is_terminal Status.skipped_no_index = true
is_terminal Status.missing_file = true
is_terminal _ = false

pub record FileResult : Type 0 where
  pub raw_path : String
  pub status : Status
  pub sha256 : Option String

-- `FileResult.ok`
abbrev pub is_ok : FileResult → Bool
is_ok r = is_terminal r.status

pub record CommitResult : Type 0 where
  pub commit_sha : String
  pub results : List FileResult

-- `CommitResult.failed`
abbrev pub failed_files : CommitResult → List FileResult
failed_files r = filter (λ f. not (is_ok f)) r.results

-- `CommitResult.has_failure`
abbrev pub has_failure : CommitResult → Bool
has_failure r = any (λ f. not (is_ok f)) r.results

-- `_stage_for_status`
unfoldable pub stage_for_status : Status → Stage
stage_for_status (extract_failed e) = Stage.extracted
stage_for_status (error e) = Stage.enriched
stage_for_status sink_failed = Stage.at_index
stage_for_status _ = Stage.received

-- A message: the commit that `_parse_commit_sha` reads in its data, if it can, and the number of its
-- deliveries, if the broker gives one.
pub record Message : Type 0 where
  pub commit_sha : Option String
  pub num_delivered : Option ℕ

-- `_num_delivered`
abbrev pub deliveries : Message → ℕ
deliveries m = elim m.num_delivered [ none ↦ 1 | some n ↦ n ]

-- What the processor tells the broker, and the events that it emits.
pub data Call : Type 0 where
  ack nak term : Message → Call
  emitted : PipelineEvent → Call

pub record Processor (W : Type 0) : Type 0 where
  pub last_activity : Option String
  pub last_result : Option CommitResult
  pub handled : ℕ
  pub dead_lettered : ℕ
  pub calls : List Call
  pub world : W

abbrev pub dlq_reason : String
dlq_reason = "dead-lettered: max_deliver reached"

abbrev ingest_event :
    String
    → Stage
    → Option String
    → Option String
    → String
    → Option String
    → (attempt : ℕ) → PipelineEvent
ingest_event run_id stage raw_path sha reason detail attempt = record {
  component = "ingest";
  stage = stage;
  status = EventStatus.failed;
  run_id = run_id;
  raw_path = raw_path;
  sha256 = sha;
  reason = some reason;
  error = detail;
  attempt = attempt;
}

-- The text of a failure status.
unfoldable pub status_text : Status → String
status_text (extract_failed e) = "extract-failed: " <> e
status_text (error e) = "error: " <> e
status_text sink_failed = "sink-failed"
status_text missing = "missing"
status_text Status.indexed = "indexed"
status_text Status.skipped_indexed = "skipped-indexed"
status_text Status.skipped_media = "skipped-media"
status_text Status.skipped_empty = "skipped-empty"
status_text Status.skipped_no_index = "skipped-no-index"
status_text Status.missing_file = "missing-file"

unfoldable pub dlq_event : String → (delivered : ℕ) → FileResult → Call
dlq_event run_id delivered f = emitted (
    ingest_event run_id (stage_for_status f.status) (some f.raw_path) f.sha256 dlq_reason
      (some (status_text f.status)) delivered)

-- The single event of a commit that no file is to blame for.
unfoldable pub dlq_whole :
    String → (commit_sha : String) → (exc : Option String) → (delivered : ℕ) → Call
dlq_whole run_id commit_sha exc delivered = emitted (
    ingest_event run_id Stage.received none none dlq_reason
      (some (elim exc [ none ↦ "commit " <> commit_sha | some e ↦ e ])) delivered)

-- `_emit_dlq`, on the failed files of the result, if there is one.
unfoldable pub emit_dlq :
    String
    → (commit_sha : String) → (failed : List FileResult) → (exc : Option String) → (delivered : ℕ)
    → List Call
emit_dlq run_id commit_sha [] exc delivered = dlq_whole run_id commit_sha exc delivered ∷ []
emit_dlq run_id commit_sha (f ∷ fs) exc delivered = map (dlq_event run_id delivered) (f ∷ fs)

unfoldable pub emit_poison : String → Call
emit_poison run_id =
    emitted (ingest_event run_id Stage.received none none "poison: unparseable commit event" none 0)

module _ {W : Type 0} (max_deliver : ℕ) (run_id_prefix : String) (clock : W → String)
    (process_commit : String → String → W → Attempt CommitResult × W) where
  -- The end of `_handle` for a commit that failed: retry, or terminate.
  unfoldable pub settle_failure :
      String
      → String
      → Message
      → (failed : List FileResult) → (exc : Option String) → Processor W
      → Processor W
  settle_failure run_id sha m failed exc st =
      if leb max_deliver (deliveries m)
      then record st {
        calls = st.calls ++ term m ∷ emit_dlq run_id sha failed exc (deliveries m);
        dead_lettered = st.dead_lettered + 1;
      }
      else record st { calls = st.calls ++ nak m ∷ [] }

  unfoldable pub settle :
      String → String → Message → Attempt CommitResult → Processor W → Processor W
  settle run_id sha m (returned result) st =
      if has_failure result
      then settle_failure run_id sha m (failed_files result) none st
      else record st { calls = st.calls ++ ack m ∷ [] }
  settle run_id sha m (exception e) st = settle_failure run_id sha m [] (some e) st

  abbrev result_of : Attempt CommitResult → Option CommitResult
  result_of (returned r) = some r
  result_of (exception e) = none

  unfoldable pub handle_commit : String → String → Message → Processor W → Processor W
  handle_commit run_id sha m st =
      let (r, w) = process_commit sha run_id st.world in
      settle run_id sha m r (record st {
        last_activity = some (clock w);
        last_result = result_of r;
        handled = st.handled + 1;
        world = w;
      })

  unfoldable pub handle_parsed : String → Option String → Message → Processor W → Processor W
  handle_parsed run_id none m st = record st {
    calls = st.calls ++ term m ∷ emit_poison run_id ∷ [];
    dead_lettered = st.dead_lettered + 1;
  }
  handle_parsed run_id (some sha) m st = handle_commit run_id sha m st

  -- `_handle`
  unfoldable pub handle : Message → Processor W → Processor W
  handle m st = handle_parsed (run_id_prefix <> "-" <> clock st.world) m.commit_sha m st

  -- `_handle` of a message on whose settlement the consumer raises: what comes after it is not done.
  unfoldable pub interrupted : Message → Processor W → Processor W
  unfolding handle
  interrupted m st = record (handle m st) { calls = st.calls; dead_lettered = st.dead_lettered }

  -- The loop of `process_batch`; `false` is the exception of the consumer, which ends it.
  unfoldable pub handle_all :
      (raises : Message → Bool) → List Message → Processor W → Bool × Processor W
  unfolding interrupted handle
  handle_all raises [] st = (true, st)
  handle_all raises (m ∷ ms) st =
      let rest = handle_all raises ms (handle m st) in
      if raises m then (false, interrupted m st) else rest

  -- `process_batch`, on what `fetch` gave (`none` is its exception). It returns the number of messages, or
  -- nothing where the consumer raised.
  unfoldable pub process_batch :
      (raises : Message → Bool) → Option (List Message) → Processor W → Option ℕ × Processor W
  unfolding handle_all
  process_batch raises none st = (some 0, st)
  process_batch raises (some ms) st =
      let (ok, st') = handle_all raises ms st in (if ok then some (length ms) else none, st')
