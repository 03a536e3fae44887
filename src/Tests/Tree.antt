-- ===== src/Tests/Tree.antt =====
-- A working tree of three files, one of them a metadata file that is no mapping, and the services on it.
use legal_system.Exclusion.{ExclusionEntry, Json, object, undecodable, as_dict}
use legal_system.Data.{str, get}
use legal_system.Prelude.{
  String, ◌<>◌, ◌==◌, if◌then◌else◌, true, Option, none, some, List, [], ◌∷◌, ◌++◌, ◌≡◌, refl, ap,
  subst, ◌⊎◌, inl, inr, Option-cases, All, string_dec, arith,
}
use legal_system.Prelude.Text.{lower}
use legal_system.Prelude.FilePath.{as_posix, parts, split}
use legal_system.Prelude.Dict.{lookup, IsUnique}
use legal_system.Sidecar.{absent, not_mapping, resolve_chain}
use legal_system.Sidecar.Blank.{lookup-resolve_chain-blank}
use legal_system.Allowlist.{Allowlist}
use legal_system.Manifest.{Node, Raw, file, folder, layer_at, content_of, resolve_matters, iterate}
use legal_system.Document.{EnrichedDocument}
use legal_system.Reingest.Restricted.{IsGuarded}
use legal_system.Reingest.{Services, Sink, Converted, markdown, crashed, returned, PipelineEvent}

abbrev pub raw : Raw
raw = record {
  nodes =
      ("evidence", folder)
      ∷ ("evidence/a.txt", file "alpha")
      ∷ ("evidence/secret", folder)
      ∷ ("evidence/secret/b.txt", file "beta")
      ∷ ("evidence/secret/metadata.yaml", file "no_index")
      ∷ ("evidence/talk.mp3", file "noise")
      ∷ [];
  digest = lower;
  last_commit = λ path. "c0";
  parse = λ content. not_mapping;
}

abbrev pub allow : Allowlist
allow = record {
  included = ("evidence", record { name = "evidence"; origin = "received"; note = "" }) ∷ [];
  excluded = [];
  exclude_globs = "*.tmp" ∷ [];
}

layer_at-blank : (s : String) → (layer_at raw s ≡ absent) ⊎ (layer_at raw s ≡ not_mapping)
unfolding layer_at
layer_at-blank s = elim (Option-cases (content_of raw s)) [
  | inl e ↦ rw (layer_at, e) (inl refl)
  | inr (c, e) ↦ rw (layer_at, e) (inr refl)
]

pub raw-readable :
    (rel : String) → ¬ (resolve_matters (resolve_chain (layer_at raw) rel).fields ≡ none)
unfolding resolve_matters iterate string_dec
raw-readable rel h = ground (
  arith,
  h,
  lookup-resolve_chain-blank (layer_at raw) rel "matters" layer_at-blank refl,
  lookup-resolve_chain-blank (layer_at raw) rel "case_number" layer_at-blank refl,
)

-- The world is what the sink was given.
abbrev pub World : Type 0
World = List EnrichedDocument

abbrev pub keep_sink : Sink World
keep_sink = record {
  write = λ doc w. (returned (record { sink = "memory"; ok = true; detail = none }), w ++ doc ∷ []);
  remove_by_raw_path = none;
}

abbrev pub services : Services World
services = record {
  raw = raw;
  emit = some (λ x w. w);
  convert = λ path w. (markdown path, w);
  enrich = λ path content base w. (
    returned (record {
      summary = "s";
      long_summary = none;
      keywords = [];
      entities = [];
      author = none;
      document_type = none;
      claims = [];
    }),
    w,
  );
  now = λ w. "t";
  sinks = keep_sink ∷ [];
}

abbrev IsMarkdown : Converted → Type 0
IsMarkdown (markdown c) = Unit
IsMarkdown _ = ⊥

pub services-convert :
    (path : String) (v : World) → (e : String) → ¬ ((services.convert path v).0 ≡ crashed e)
services-convert path v e p = subst IsMarkdown p tt

-- A property of every document stays true when a document that has it is added.
pub All-append_one :
    (Q : EnrichedDocument → Type 0) (w : World) (doc : EnrichedDocument)
    → All Q w
    → Q doc
    → All Q (w ++ doc ∷ [])
All-append_one Q [] doc a q = (q, tt)
All-append_one Q (x ∷ w) doc a q = (a.0, All-append_one Q w doc a.1 q)

abbrev IsNone : {A : Type 0} → Option A → Type 0
IsNone none = Unit
IsNone (some _) = ⊥

none-is-not : {A : Type 0} {a : A} → ¬ (none ≡ some a)
none-is-not p = subst IsNone p tt

pub keep_sink-IsGuarded : (Q : EnrichedDocument → Type 0) → IsGuarded (All Q) Q keep_sink
keep_sink-IsGuarded Q =
    ((λ doc q w a. All-append_one Q w doc a q), λ remove p. absurd (none-is-not p))

abbrev sent : Option (PipelineEvent → World → World) → PipelineEvent → World → World
sent none x w = w
sent (some send) x w = send x w

pub services-emit :
    (P : World → Type 0) (send : PipelineEvent → World → World)
    → services.emit ≡ some send
    → (x : PipelineEvent) (v : World) → P v
    → P (send x v)
services-emit P send p x v h =
    subst P (ap (λ (o : Option (PipelineEvent → World → World)). sent o x v) p) h

-- A json module that knows the line of one entry.
abbrev pub json_for : ExclusionEntry → Json
json_for e = record {
  dumps = λ d. "{" <> str (get "raw_path" d) <> "}";
  loads = λ s. if s == "{" <> e.raw_path <> "}" then object (as_dict e) else undecodable;
}

pub raw-posix : All (λ (n : String × Node). as_posix n.0 ≡ n.0) raw.nodes
unfolding as_posix parts split string_dec
raw-posix = (refl, (refl, (refl, (refl, (refl, (refl, tt))))))

pub raw-IsUnique : IsUnique raw.nodes
unfolding lookup string_dec
raw-IsUnique = (refl, (refl, (refl, (refl, (refl, (refl, tt))))))
