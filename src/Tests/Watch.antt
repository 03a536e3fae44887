-- ===== src/Tests/Watch.antt =====
-- The linter, the timer, the delays and the board at concrete data.
use legal_system.Prelude.{
  ℕ, suc, ◌-◌, ◌≤◌, ◌<◌, String, Bool, not, ◌||◌, ◌==◌, Option, none, some, List, [], ◌∷◌, ◌≡◌,
  refl, inr, ltb, map, length, arith, string_dec,
}
use legal_system.Sidecar.{Layer, not_mapping, resolve_layers}
use legal_system.Sidecar.Ordinary.{is_nil, is_faulty}
use legal_system.Lint.{has_error, lint_file, is_orphan}
use legal_system.Lint.Agreement.{is_rejected, lint_file-resolve_layers}
use legal_system.Messaging.{backoff_delay, consumer_backoff, item}
use legal_system.Messaging.Backoff.{backoff_delay-consumer_backoff}
use legal_system.Health.{
  Services, answered, raised, up, ComponentHealth, outcome, probe_order, run_doctor,
}
use legal_system.Health.Board.{AreIn, IsWorst, run_doctor_lem}
use legal_system.Periodic.{Timer, stopped, run_periodic_catchup}
use legal_system.Catchup.Run.{CatchupReport}
use legal_system.Periodic.Stops.{run_periodic_catchup-IsEnd}
use legal_system.Tests.Tree.{raw}

abbrev layers : List (String × Layer)
layers = ("metadata.yaml", not_mapping) ∷ []

lint_file-resolve_layers_example :
    (has_error (lint_file raw "evidence/secret/metadata.yaml" "no_index")
      ≡ (is_orphan raw "evidence/secret/metadata.yaml" || is_faulty (raw.parse "no_index")))
    × (is_nil (resolve_layers layers).errors ≡ not (is_rejected layers))
lint_file-resolve_layers_example =
    lint_file-resolve_layers raw "evidence/secret/metadata.yaml" "no_index" layers

-- The schedule for a single delivery is not shorter than max_deliver.
test_single : consumer_backoff 1 ≡ 30 ∷ []
unfolding consumer_backoff
test_single = refl

backoff_delay-consumer_backoff_example :
    ((o : Option ℕ) → (30 ≤ backoff_delay o) × (backoff_delay o ≤ 300))
    × ((d e : ℕ) → d ≤ e → backoff_delay (some d) ≤ backoff_delay (some e))
    × ((i : ℕ)
        → i < length (consumer_backoff 5)
        → item i (consumer_backoff 5) ≡ backoff_delay (some (suc i)))
    × (1 ≤ length (consumer_backoff 5))
    × (2 ≤ 5 → length (consumer_backoff 5) < 5)
backoff_delay-consumer_backoff_example = backoff_delay-consumer_backoff 5

-- Elasticsearch is there, Docling is not, and the watcher is late.
abbrev env : Services
env = record {
  es_client = answered tt;
  cluster_health = λ with_timeout. answered "green";
  index_count = λ index. some 3;
  docling_health = raised "refused";
  docling_url = "url";
  openai_api_key = none;
  openai_models = answered 200;
  mcp_host = "0.0.0.0";
  mcp_port = "8765";
  mcp_initialize = λ host port. answered (200, none);
  newest_event = answered none;
  freshness_seconds = 900;
  show = λ n. "n";
}

abbrev is_late : String → Bool
is_late name = name == "live_index_watcher"

abbrev order : List String
order = probe_order

all_in : AreIn order probe_order
unfolding string_dec
all_in = (refl, (refl, (refl, (refl, (refl, tt)))))

run_doctor_lem_example :
    ((run_doctor env is_late order).components ≡ map (outcome env is_late) probe_order)
    × (map (λ (c : ComponentHealth). c.name) (run_doctor env is_late order).components
        ≡ probe_order)
    × IsWorst up (run_doctor env is_late order).components (run_doctor env is_late order).overall
run_doctor_lem_example = run_doctor_lem env is_late order all_in

-- The world is the number of answers to go on that are left.
abbrev report : CatchupReport
report = record {
  run_id = "run";
  scanned = 0;
  new = 0;
  pending = 0;
  indexed = 0;
  skipped = 0;
  dead_lettered = 0;
  remaining_pending = 0;
  no_index_skipped = 0;
  deliberately_excluded = 0;
  missing_source_skipped = 0;
}

-- A timer that goes on while the world is not 0.
abbrev timer : Timer ℕ
timer = record {
  should_continue = λ w. (ltb 0 w, w - 1);
  wait = λ w. w;
  run_pass = λ w. (some report, w);
  on_report = none;
}

run_periodic_catchup-IsEnd_example : run_periodic_catchup timer 3 0 5 ≡ stopped 2 0
run_periodic_catchup-IsEnd_example =
    run_periodic_catchup-IsEnd timer 3 2 0 5 1 (stopped 2 0)
      ((refl, refl), report, 3, refl, 3, refl, ((refl, refl), report, 1, refl, 1, refl, refl))
      (refl, inr (refl, refl, refl)) (omega arith)
