-- ===== src/Indexer.antt =====
-- sinks/elasticsearch_indexer.py, with the alarm of observability/restricted_alert.py. The client of
-- Elasticsearch and the alert log act on a world of type `W`.
pub mod Refusal
use legal_system.Prelude.{
  ℕ, String, Bool, true, false, not, Option, none, some, List, [], ◌∷◌, ◌<>◌, ◌==◌, contains,
  filter, if◌then◌else◌,
}
use legal_system.Prelude.Text.{truthy, strip}
use legal_system.Data.{opt_or}
use legal_system.Sidecar.{legally_obligatory, housekeeping, recognised_categories}
use legal_system.Exclusion.{ExclusionEntry, ExclusionRegistry, match}
use legal_system.Document.{EnrichedDocument, SinkResult}
use legal_system.Reingest.{Attempt, returned, exception, Sink}

-- `normalise_category`
unfoldable pub normalise_category : Option String → String
normalise_category category =
    let value = strip (opt_or "" category) in
    if contains recognised_categories value then value else legally_obligatory

pub data Severity : Type 0 where
  incident noise : Severity

-- `severity_for_category`
unfoldable pub severity_for_category : Option String → Severity
severity_for_category category =
    if normalise_category category == housekeeping then noise else incident

-- `BlockedReingest`, without the time stamp.
pub record BlockedReingest : Type 0 where
  pub raw_path : String
  pub reason : String
  pub source : String
  pub category : String

-- The alert that `record_blocked_reingest` makes.
unfoldable pub blocked_reingest : String → String → String → Option String → BlockedReingest
blocked_reingest raw_path reason source category = record {
  raw_path = raw_path;
  reason = if truthy reason then reason else "(no reason recorded)";
  source = source;
  category = normalise_category category;
}

abbrev pub is_incident : BlockedReingest → Bool
is_incident a = elim (severity_for_category (some a.category)) [ incident ↦ true | noise ↦ false ]

-- `partition_by_severity`
unfoldable pub partition_by_severity :
    List BlockedReingest → List BlockedReingest × List BlockedReingest
partition_by_severity items = (filter is_incident items, filter (λ a. not (is_incident a)) items)

-- What the indexer calls: `client.index`, `client.delete_by_query` and the alarm.
pub record Client (W : Type 0) : Type 0 where
  pub index : EnrichedDocument → W → Attempt Unit × W
  pub delete_by_path : String → W → Attempt ℕ × W
  pub alert : BlockedReingest → W → W

pub record ElasticsearchIndexer (W : Type 0) : Type 0 where
  pub client : Client W
  pub index_name : String
  pub registry : ExclusionRegistry

-- `_refusal`, on what the registry says: the reason of the alert, the detail of the result, the category.
unfoldable pub refusal_of :
    Option ExclusionEntry → EnrichedDocument → Option (String × String × Option String)
refusal_of (some hit) doc = some (
  "deliberately excluded (registry): " <> hit.reason,
  "refusing to index deliberately-excluded document: " <> doc.raw_path <> " (" <> hit.reason <> ")",
  none,
)
refusal_of none doc =
    let why = opt_or "(no reason given)" doc.metadata.no_index_reason in
    if doc.metadata.no_index
    then some (
      "no_index: " <> why,
      "refusing to index no_index document: " <> doc.raw_path <> " (" <> why <> ")",
      doc.metadata.no_index_category,
    )
    else none

module _ {W : Type 0} (ix : ElasticsearchIndexer W) where
  abbrev pub sink_name : String
  sink_name = "elasticsearch:" <> ix.index_name

  unfoldable pub refusal : EnrichedDocument → Option (String × String × Option String)
  refusal doc = refusal_of (match ix.registry (some doc.raw_path) doc.metadata.raw_sha256) doc

  unfoldable pub written_result : Attempt Unit → SinkResult
  written_result (returned u) = record { sink = sink_name; ok = true; detail = none }
  written_result (exception e) = record { sink = sink_name; ok = false; detail = some e }

  unfoldable pub write_unless :
      EnrichedDocument → Option (String × String × Option String) → W → SinkResult × W
  write_unless doc (some (reason, detail, category)) w = (
    record { sink = sink_name; ok = false; detail = some detail },
    ix.client.alert (blocked_reingest doc.raw_path reason sink_name category) w,
  )
  write_unless doc none w = let (r, w') = ix.client.index doc w in (written_result r, w')

  -- `write`
  unfoldable pub write : EnrichedDocument → W → SinkResult × W
  write doc w = write_unless doc (refusal doc) w

  unfoldable pub deleted : Attempt ℕ → ℕ
  deleted (returned n) = n
  deleted (exception e) = 0

  -- `remove_by_raw_path`
  unfoldable pub remove_by_raw_path : String → W → ℕ × W
  remove_by_raw_path path w = let (r, w') = ix.client.delete_by_path path w in (deleted r, w')

  -- The indexer as a sink of the run.
  unfoldable pub as_sink : Sink W
  as_sink = record {
    write = λ doc w. (returned (write doc w).0, (write doc w).1);
    remove_by_raw_path = some remove_by_raw_path;
  }
