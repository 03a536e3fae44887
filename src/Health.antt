-- ===== src/Health.antt =====
-- observability/health.py: the board of component probes. Latencies are left out, and a detail keeps the
-- text of an exception or of a number as it is given.
pub mod Board
use legal_system.Prelude.{
  ℕ, String, ◌<>◌, Bool, true, false, not, ◌&&◌, ◌||◌, Option, none, some, List, [], ◌∷◌, ◌++◌, map,
  filter, ltb, leb, eqb, is_some, ◌==◌, if◌then◌else◌,
}
use legal_system.Prelude.Text.{nil, truthy}
use legal_system.Prelude.Words.{join, take_text}
use legal_system.Prelude.Dict.{Dict, lookup, insert}

pub data ComponentStatus : Type 0 where
  up degraded down : ComponentStatus

-- `ComponentStatus.severity`
abbrev pub severity : ComponentStatus → ℕ
severity up = 0
severity degraded = 1
severity down = 2

pub record ComponentHealth : Type 0 where
  pub name : String
  pub status : ComponentStatus
  pub detail : String
  pub inferred : Bool

pub record DoctorReport : Type 0 where
  pub components : List ComponentHealth
  pub overall : ComponentStatus

worse_of : ComponentStatus → ComponentStatus → ComponentStatus
worse_of worst status = if ltb (severity worst) (severity status) then status else worst

unfoldable pub worst_from : ComponentStatus → List ComponentStatus → ComponentStatus
unfolding worse_of
worst_from worst [] = worst
worst_from worst (status ∷ rest) = worst_from (worse_of worst status) rest

unfoldable pub worst_status : List ComponentStatus → ComponentStatus
unfolding worst_from
worst_status = worst_from up

-- What a call of a service gives: an answer, a `TypeError`, or another exception.
pub data Reply (A : Type 0) : Type 0 where
  answered : A → Reply A
  type_error : String → Reply A
  raised : String → Reply A

-- The services that the probes call.
pub record Services : Type 0 where
  -- `_es_client()`
  pub es_client : Reply Unit
  -- `client.cluster.health`, with and without the timeout: the status of the cluster.
  pub cluster_health : (with_timeout : Bool) → Reply String
  -- `client.count` on an index, as `_index_count` reads it.
  pub index_count : String → Option ℕ
  pub docling_health : Reply Bool
  pub docling_url : String
  pub openai_api_key : Option String
  -- The status code of the list of models.
  pub openai_models : Reply ℕ
  pub mcp_host : String
  pub mcp_port : String
  -- The status code of the handshake, and its session.
  pub mcp_initialize : (host port : String) → Reply (ℕ × Option String)
  -- The age of the newest event in seconds, if there is an event: none if it cannot be read.
  pub newest_event : Reply (Option (Option ℕ))
  pub freshness_seconds : ℕ
  pub show : ℕ → String

abbrev pub required_indices : List String
required_indices = "goldberg_documents" ∷ "goldberg_pipeline_events" ∷ []

abbrev health_of : String → ComponentStatus → String → ComponentHealth
health_of name status detail = record {
  name = name;
  status = status;
  detail = detail;
  inferred = false;
}

abbrev inferred_of : ComponentStatus → String → ComponentHealth
inferred_of status detail = record {
  name = "live_index_watcher";
  status = status;
  detail = detail;
  inferred = true;
}

documents : Services → Option ℕ → String
documents env none = "None"
documents env (some n) = env.show n

unfoldable pub elasticsearch_counts :
    Services → (cluster_status : String) → (missing : List String) → ComponentHealth
unfolding documents join
elasticsearch_counts env status [] = health_of "elasticsearch" up (
    "cluster "
    <> status
    <> "; "
    <> documents env (env.index_count "goldberg_documents")
    <> " documents")
elasticsearch_counts env status (index ∷ missing) =
    health_of "elasticsearch" degraded
      ("cluster " <> status <> "; missing index: " <> join ", " (index ∷ missing))

unfoldable pub elasticsearch_health : Services → Reply String → ComponentHealth
unfolding elasticsearch_counts
elasticsearch_health env (answered status) =
    elasticsearch_counts env status
      (filter (λ index. not (is_some (env.index_count index))) required_indices)
elasticsearch_health env (type_error exc) =
    health_of "elasticsearch" down ("cluster unreachable: " <> exc)
elasticsearch_health env (raised exc) =
    health_of "elasticsearch" down ("cluster unreachable: " <> exc)

-- A `TypeError` makes the call again, without the timeout.
unfoldable pub elasticsearch_retry : Services → Reply String → ComponentHealth
unfolding elasticsearch_health
elasticsearch_retry env (answered status) = elasticsearch_health env (answered status)
elasticsearch_retry env (type_error exc) = elasticsearch_health env (env.cluster_health false)
elasticsearch_retry env (raised exc) = elasticsearch_health env (raised exc)

-- With a client.
unfoldable pub probe_elasticsearch : Services → ComponentHealth
unfolding elasticsearch_retry
probe_elasticsearch env = elasticsearch_retry env (env.cluster_health true)

unfoldable pub docling_health_of : Services → Reply Bool → ComponentHealth
docling_health_of env (answered true) =
    health_of "docling" up ("health ok (" <> env.docling_url <> ")")
docling_health_of env (answered false) =
    health_of "docling" down ("health check failed (" <> env.docling_url <> ")")
docling_health_of env (type_error exc) = health_of "docling" down ("error: " <> exc)
docling_health_of env (raised exc) = health_of "docling" down ("error: " <> exc)

unfoldable pub enricher_reply : Services → Reply ℕ → ComponentHealth
enricher_reply env (answered code) =
    if eqb code 200
    then health_of "enricher" up "openai reachable (models list)"
    else health_of "enricher" down ("openai returned HTTP " <> env.show code)
enricher_reply env (type_error exc) = health_of "enricher" down ("unreachable: " <> exc)
enricher_reply env (raised exc) = health_of "enricher" down ("unreachable: " <> exc)

is_given : Option String → Bool
is_given none = false
is_given (some s) = truthy s

unfoldable pub probe_enricher : Services → ComponentHealth
unfolding enricher_reply is_given
probe_enricher env =
    if is_given env.openai_api_key
    then enricher_reply env env.openai_models
    else health_of "enricher" degraded "no OPENAI_API_KEY configured"

session_detail : Option String → String
session_detail none = nil
session_detail (some session) = if truthy session then ", session " <> take_text 8 session else nil

unfoldable pub mcp_reply : Services → (place : String) → Reply (ℕ × Option String) → ComponentHealth
unfolding session_detail
mcp_reply env place (answered (code, session)) =
    if eqb code 200
    then health_of "mcp_server" up ("handshake ok (" <> place <> ")" <> session_detail session)
    else health_of "mcp_server" down ("HTTP " <> env.show code <> " at " <> place)
mcp_reply env place (type_error exc) =
    health_of "mcp_server" down ("unreachable at " <> place <> ": " <> exc)
mcp_reply env place (raised exc) =
    health_of "mcp_server" down ("unreachable at " <> place <> ": " <> exc)

unfoldable pub probe_mcp_server : Services → ComponentHealth
unfolding mcp_reply
probe_mcp_server env =
    let host = if env.mcp_host == "0.0.0.0" then "192.168.86.31" else env.mcp_host in
    mcp_reply env (host <> ":" <> env.mcp_port) (env.mcp_initialize host env.mcp_port)

unfoldable pub watcher_event : Services → Option ℕ → ComponentHealth
watcher_event env none = inferred_of down "no recent pipeline events; watcher likely paused"
watcher_event env (some age) =
    if leb age env.freshness_seconds
    then inferred_of up (
        "last event "
        <> env.show age
        <> "s ago (< "
        <> env.show env.freshness_seconds
        <> "s window)")
    else inferred_of down "no recent pipeline events; watcher likely paused"

unfoldable pub watcher_reply : Services → Reply (Option (Option ℕ)) → ComponentHealth
unfolding watcher_event
watcher_reply env (answered none) = inferred_of down "no pipeline events; watcher likely paused"
watcher_reply env (answered (some age)) = watcher_event env age
watcher_reply env (type_error exc) = inferred_of down ("cannot read pipeline events: " <> exc)
watcher_reply env (raised exc) = inferred_of down ("cannot read pipeline events: " <> exc)

-- A probe that needs the client: `run_doctor` passes none on if the client cannot be built, and the probe
-- then builds it again, which raises.
unfoldable pub with_client : Reply Unit → ComponentHealth → Reply ComponentHealth
with_client (answered client) health = answered health
with_client (type_error exc) health = raised exc
with_client (raised exc) health = raised exc

abbrev pub probe_order : List String
probe_order = "elasticsearch" ∷ "docling" ∷ "enricher" ∷ "mcp_server" ∷ "live_index_watcher" ∷ []

-- The table of the probes.
unfoldable pub run_probe : Services → String → Reply ComponentHealth
unfolding with_client probe_elasticsearch docling_health_of probe_enricher probe_mcp_server
    watcher_reply
run_probe env name =
    if name == "elasticsearch"
    then with_client env.es_client (probe_elasticsearch env)
    else if name == "docling"
    then answered (docling_health_of env env.docling_health)
    else if name == "enricher"
    then answered (probe_enricher env)
    else if name == "mcp_server"
    then answered (probe_mcp_server env)
    else with_client env.es_client (watcher_reply env env.newest_event)

-- What `future.result()` gives.
unfoldable pub result_of : String → Reply ComponentHealth → ComponentHealth
result_of name (answered health) = health
result_of name (type_error exc) = health_of name down ("probe error: " <> exc)
result_of name (raised exc) = health_of name down ("probe error: " <> exc)

-- A probe that is done, or one that is late.
unfoldable pub outcome : Services → (late : String → Bool) → String → ComponentHealth
unfolding result_of run_probe
outcome env late name =
    if late name
    then health_of name down "probe timed out (> 10s)"
    else result_of name (run_probe env name)

-- The loops over the futures, in the order in which they come.
unfoldable pub collect_results :
    Services
    → (late : String → Bool) → (order : List String) → Dict ComponentHealth
    → Dict ComponentHealth
unfolding outcome insert
collect_results env late [] results = results
collect_results env late (name ∷ order) results =
    collect_results env late order (insert name (outcome env late name) results)

unfoldable pub board : Dict ComponentHealth → List String → List ComponentHealth
unfolding lookup
board results [] = []
board results (name ∷ names) =
    let rest = board results names in
    elim (lookup name results) [ none ↦ rest | some health ↦ health ∷ rest ]

unfoldable pub run_doctor : Services → (late : String → Bool) → (order : List String) → DoctorReport
unfolding collect_results board worst_status
run_doctor env late order =
    let components = board (collect_results env late order []) probe_order in
    record {
      components = components;
      overall = worst_status (map (λ (c : ComponentHealth). c.status) components);
    }
