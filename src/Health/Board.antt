-- ===== src/Health/Board.antt =====
-- observability/health.py: the board is complete, and its verdict is the worst.
use legal_system.Prelude.{
  ◌<>◌, ℕ, String, Bool, true, false, ◌||◌, Option, none, some, List, [], ◌∷◌, map, contains, ◌≤◌,
  ltb, leb, eqb, ◌==◌, string_dec, ==_true, ◌≡◌, ◌⊎◌, inl, inr, refl, ap, ap, ◌∙◌, arith, All, IsIn,
  Bool-cases, if◌then◌else◌,
}
use legal_system.Prelude.Dict.{Dict, lookup, insert, lookup-insert}
use legal_system.Health.{
  ComponentStatus, up, severity, ComponentHealth, Services, outcome, collect_results, board,
  worst_from, worst_status, worse_of, Reply, answered, type_error, raised, result_of, run_probe,
  with_client, elasticsearch_counts, elasticsearch_health, elasticsearch_retry, docling_health_of,
  enricher_reply, probe_enricher, probe_elasticsearch, probe_mcp_server, is_given, mcp_reply,
  watcher_event, watcher_reply, probe_order, run_doctor,
}

lookup-collect_results :
    (env : Services) (late : String → Bool) (name : String) (order : List String)
    (results : Dict ComponentHealth)
    → lookup name (collect_results env late order results)
      ≡ (if contains order name then some (outcome env late name) else lookup name results)
unfolding collect_results
lookup-collect_results env late name [] results = refl
lookup-collect_results env late name (n ∷ order) results =
    lookup-collect_results env late name order _ ∙ last_write (contains order name)
  where
    last_write :
        (later : Bool)
        → (if later
            then some (outcome env late name)
            else lookup name (insert n (outcome env late n) results))
          ≡ (if n == name || later then some (outcome env late name) else lookup name results)
    last_write true = ground arith
    last_write false = elim (Bool-cases (n == name)) [
      | inl e ↦
          lookup-insert name n (outcome env late n) results
          ∙ ap (λ (b : Bool). if b then some (outcome env late n) else lookup name results) e
          ∙ ap (λ k. some (outcome env late k)) (==_true n name e)
          ∙ ground (arith, e)
      | inr e ↦ lookup-insert name n (outcome env late n) results ∙ ground (arith, e)
    ]

-- Every probe has come in.
abbrev pub AreIn : List String → List String → Type 0
AreIn order = All (λ name. contains order name ≡ true)

board-outcome :
    (env : Services) (late : String → Bool) (order names : List String)
    → AreIn order names
    → board (collect_results env late order []) names ≡ map (outcome env late) names
unfolding board
board-outcome env late order [] h = refl
board-outcome env late order (name ∷ names) h =
    let found =
      lookup-collect_results env late name order []
      ∙ ap (λ (b : Bool). if b then some (outcome env late name) else none) h.0 in
    rw (board, found)
      (ap (λ cs. outcome env late name ∷ cs) (board-outcome env late order names h.1))

-- The status is at least as bad as `least` and as all of these, and is one of them or `least`.
abbrev pub IsWorst : (least : ComponentStatus) → List ComponentHealth → ComponentStatus → Type 0
IsWorst least cs worst =
    (severity least ≤ severity worst)
    × All (λ (c : ComponentHealth). severity c.status ≤ severity worst) cs
    × ((worst ≡ least) ⊎ IsIn worst (map (λ (c : ComponentHealth). c.status) cs))

worse_of_lem :
    (x y : ComponentStatus)
    → (severity x ≤ severity (worse_of x y))
      × (severity y ≤ severity (worse_of x y))
      × ((worse_of x y ≡ x) ⊎ (worse_of x y ≡ y))
unfolding worse_of
worse_of_lem x y = elim (Bool-cases (ltb (severity x) (severity y))) [
  | inl e ↦ rw e (ground (arith, e), omega arith, inr refl)
  | inr e ↦ rw e (omega arith, ground (arith, e), inl refl)
]

worst_from-IsWorst :
    (least : ComponentStatus) (cs : List ComponentHealth)
    → IsWorst least cs (worst_from least (map (λ (c : ComponentHealth). c.status) cs))
unfolding worst_from worse_of
worst_from-IsWorst least [] = (omega arith, tt, inl refl)
worst_from-IsWorst least (c ∷ cs) =
    let (l, a, o) = worst_from-IsWorst (worse_of least c.status) cs in
    let (x, y, e) = worse_of_lem least c.status in
    (
      omega (arith, l, x),
      (omega (arith, l, y), a),
      elim o [
        | inl p ↦ elim e [ inl q ↦ inl (p ∙ q) | inr q ↦ inr (inl (p ∙ q)) ]
        | inr i ↦ inr (inr i)
      ],
    )

-- The result of a probe carries the probe's name.
abbrev IsNamed : String → Reply ComponentHealth → Type 0
IsNamed name r = (result_of name r).name ≡ name

with_client-IsNamed :
    (name : String) (client : Reply Unit) (h : ComponentHealth)
    → h.name ≡ name
    → IsNamed name (with_client client h)
unfolding result_of with_client
with_client-IsNamed name (answered client) h e = e
with_client-IsNamed name (type_error exc) h e = refl
with_client-IsNamed name (raised exc) h e = refl

elasticsearch_counts-name :
    (env : Services) (status : String) (missing : List String)
    → (elasticsearch_counts env status missing).name ≡ "elasticsearch"
unfolding elasticsearch_counts
elasticsearch_counts-name env status [] = refl
elasticsearch_counts-name env status (index ∷ missing) = refl

elasticsearch_health-name :
    (env : Services) (r : Reply String) → (elasticsearch_health env r).name ≡ "elasticsearch"
unfolding elasticsearch_health
elasticsearch_health-name env (answered status) = elasticsearch_counts-name env status _
elasticsearch_health-name env (type_error exc) = refl
elasticsearch_health-name env (raised exc) = refl

elasticsearch_retry-name :
    (env : Services) (r : Reply String) → (elasticsearch_retry env r).name ≡ "elasticsearch"
unfolding elasticsearch_retry
elasticsearch_retry-name env (answered status) = elasticsearch_health-name env (answered status)
elasticsearch_retry-name env (type_error exc) =
    elasticsearch_health-name env (env.cluster_health false)
elasticsearch_retry-name env (raised exc) = elasticsearch_health-name env (raised exc)

docling_health_of-name :
    (env : Services) (r : Reply Bool) → (docling_health_of env r).name ≡ "docling"
unfolding docling_health_of
docling_health_of-name env (answered true) = refl
docling_health_of-name env (answered false) = refl
docling_health_of-name env (type_error exc) = refl
docling_health_of-name env (raised exc) = refl

enricher_reply-name : (env : Services) (r : Reply ℕ) → (enricher_reply env r).name ≡ "enricher"
unfolding enricher_reply
enricher_reply-name env (answered code) = elim (Bool-cases (eqb code 200)) [
  | inl e ↦ rw e refl
  | inr e ↦ rw e refl
]
enricher_reply-name env (type_error exc) = refl
enricher_reply-name env (raised exc) = refl

probe_enricher-name : (env : Services) → (probe_enricher env).name ≡ "enricher"
unfolding probe_enricher
probe_enricher-name env = elim (Bool-cases (is_given env.openai_api_key)) [
  | inl e ↦ rw e (enricher_reply-name env env.openai_models)
  | inr e ↦ rw e refl
]

mcp_reply-name :
    (env : Services) (place : String) (r : Reply (ℕ × Option String))
    → (mcp_reply env place r).name ≡ "mcp_server"
unfolding mcp_reply
mcp_reply-name env place (answered (code, session)) = elim (Bool-cases (eqb code 200)) [
  | inl e ↦ rw e refl
  | inr e ↦ rw e refl
]
mcp_reply-name env place (type_error exc) = refl
mcp_reply-name env place (raised exc) = refl

probe_mcp_server-name : (env : Services) → (probe_mcp_server env).name ≡ "mcp_server"
unfolding probe_mcp_server
probe_mcp_server-name env =
    let host = if env.mcp_host == "0.0.0.0" then "192.168.86.31" else env.mcp_host in
    mcp_reply-name env (host <> ":" <> env.mcp_port) (env.mcp_initialize host env.mcp_port)

watcher_event-name :
    (env : Services) (age : Option ℕ) → (watcher_event env age).name ≡ "live_index_watcher"
unfolding watcher_event
watcher_event-name env none = refl
watcher_event-name env (some age) = elim (Bool-cases (leb age env.freshness_seconds)) [
  | inl e ↦ rw e refl
  | inr e ↦ rw e refl
]

watcher_reply-name :
    (env : Services) (r : Reply (Option (Option ℕ)))
    → (watcher_reply env r).name ≡ "live_index_watcher"
unfolding watcher_reply
watcher_reply-name env (answered none) = refl
watcher_reply-name env (answered (some age)) = watcher_event-name env age
watcher_reply-name env (type_error exc) = refl
watcher_reply-name env (raised exc) = refl

run_probe-IsNamed : (env : Services) → All (λ name. IsNamed name (run_probe env name)) probe_order
unfolding run_probe result_of probe_elasticsearch string_dec
run_probe-IsNamed env = (
  with_client-IsNamed "elasticsearch" env.es_client (probe_elasticsearch env)
      (elasticsearch_retry-name env (env.cluster_health true)),
  (
    docling_health_of-name env env.docling_health,
    (
      probe_enricher-name env,
      (
        probe_mcp_server-name env,
        (
          with_client-IsNamed "live_index_watcher" env.es_client
              (watcher_reply env env.newest_event) (watcher_reply-name env env.newest_event),
          tt,
        ),
      ),
    ),
  ),
)

outcome-name :
    (env : Services) (late : String → Bool) (names : List String)
    → All (λ name. IsNamed name (run_probe env name)) names
    → map (λ (c : ComponentHealth). c.name) (map (outcome env late) names) ≡ names
unfolding outcome
outcome-name env late [] h = refl
outcome-name env late (name ∷ names) h =
    let rest = outcome-name env late names h.1 in
    elim (Bool-cases (late name)) [
      | inl e ↦ rw e (ap (λ ns. name ∷ ns) rest)
      | inr e ↦ rw e (cc (h.0, rest))
    ]

-- Whatever the services answer, whichever probes are late or crash, and in whatever order the results
-- come in, provided that each probe comes in: the board shows every component once, in its fixed
-- order, with the outcome of its probe, and the verdict is the worst status on the board.
pub run_doctor_lem :
    (env : Services) (late : String → Bool) (order : List String)
    → AreIn order probe_order
    → ((run_doctor env late order).components ≡ map (outcome env late) probe_order)
      × (map (λ (c : ComponentHealth). c.name) (run_doctor env late order).components ≡ probe_order)
      × IsWorst up (run_doctor env late order).components (run_doctor env late order).overall
unfolding run_doctor worst_status
run_doctor_lem env late order h =
    let shown = board-outcome env late order probe_order h in
    (
      shown,
      ap (map (λ (c : ComponentHealth). c.name)) shown
          ∙ outcome-name env late probe_order (run_probe-IsNamed env),
      worst_from-IsWorst up (board (collect_results env late order []) probe_order),
    )
