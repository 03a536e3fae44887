-- ===== src/Tests/Commits.antt =====
-- Commits, messages and reconciliations over the tree of files.
use legal_system.Prelude.{
  string_dec, All, Option, String, true, false, none, some, List, [], ◌∷◌, ◌≡◌, refl, IsIn, all,
  any, contains, map,
}
use legal_system.Prelude.Text.{lower}
use legal_system.Prelude.Dict.{lookup}
use legal_system.Manifest.{Manifest, entry_for_sha}
use legal_system.Manifest.{init as manifest_of}
use legal_system.Document.{EnrichedDocument, EnrichmentResult, assemble, base_of, base_for_sha}
use legal_system.Document.Merge.{IsFaithful, assemble-IsFaithful}
use legal_system.Reingest.{Attempt, returned, sink_failed}
use legal_system.CommitFiles.{changed_files, parse_name_status}
use legal_system.CommitFiles.Changed.{introduces, IsDistinct, changed_files_lem}
use legal_system.Processor.{FileResult, CommitResult, is_ok, Message, Processor, handle}
use legal_system.Processor.Resolve.{process_files, process_commit}
use legal_system.Processor.Settle.{IsSettled, outcome, handle-IsSettled}
use legal_system.Processor.Introduced.{IsIntroduced, process_commit-writes_introduced}
use legal_system.Processor.Commit.{is_reported, process_files-covers}
use legal_system.Reconcile.{GapReport, reconcile_gap}
use legal_system.Reconcile.Gap.{gaps, accounted, evidence_count, reconcile_gap-gaps}
use legal_system.Tests.Tree.{
  raw, allow, World, services, raw-readable, services-convert, services-emit, keep_sink-IsGuarded,
}
use legal_system.Tests.Passes.{existing, registry, entry}

-- A commit of one file that no sink takes.
abbrev failing : String → String → World → Attempt CommitResult × World
failing sha run_id w = (
  returned (record {
    commit_sha = sha;
    results =
        record { raw_path = "evidence/a.txt"; status = sink_failed; sha256 = some "alpha" } ∷ [];
  }),
  w,
)

abbrev message : Message
message = record { commit_sha = some "c1"; num_delivered = some 5 }

abbrev idle : Processor World
idle = record {
  last_activity = none;
  last_result = none;
  handled = 0;
  dead_lettered = 0;
  calls = [];
  world = [];
}

handle-IsSettled_example :
    IsSettled 5 "ingest-t" message
      (outcome 5 "ingest" (λ w. "t") failing message idle)
      idle
      (handle 5 "ingest" (λ w. "t") failing message idle)
handle-IsSettled_example = handle-IsSettled 5 "ingest" (λ w. "t") failing message idle

process_files-covers_example :
    (r : CommitResult) × ((process_files services allow
        (λ w. [])
        false
        (λ sha. none)
        "c1"
        "run"
        (some ("evidence/a.txt" ∷ []))
        (manifest_of existing)
        []).0
      ≡ returned r)
    × ((path : String)
        → contains ("evidence/a.txt" ∷ []) path ≡ true
        → (is_reported r.results path ≡ true)
          × (all is_ok r.results ≡ true
              → (f : FileResult) × IsIn f r.results × (f.raw_path ≡ path) × (is_ok f ≡ true)))
process_files-covers_example =
    process_files-covers services allow (λ w. []) false (λ sha. none) "c1" "run"
      (manifest_of existing) [] ("evidence/a.txt" ∷ []) services-convert

abbrev rows : List String
rows = "A\tevidence/a.txt" ∷ "D\tevidence/old.txt" ∷ "R100\tx.txt\tevidence/b.txt" ∷ []

changed_files_lem_example :
    (paths : List String) × (changed_files allow (some rows) ≡ some paths)
    × IsDistinct paths
    × ((p : String) → contains paths p ≡ any (introduces allow p) (parse_name_status rows))
    × (changed_files allow none ≡ none)
changed_files_lem_example = changed_files_lem allow rows

reconcile_gap-gaps_example :
    (r : GapReport) × (reconcile_gap raw allow ("BETA" ∷ []) false false (some registry) ≡ some r)
    × (r.gap ≡ gaps raw allow false (map lower ("BETA" ∷ [])) (some registry) raw.nodes)
    × (accounted r ≡ evidence_count raw allow false raw.nodes)
reconcile_gap-gaps_example =
    reconcile_gap-gaps raw allow ("BETA" ∷ []) false false (some registry) raw-readable

abbrev pub enrichment : EnrichmentResult
enrichment = record {
  summary = "s";
  long_summary = none;
  keywords = "k" ∷ [];
  entities = [];
  author = some "guess";
  document_type = none;
  claims =
      record {
        subject = "a";
        predicate = "b";
        object = "c";
        asserted_by = none;
        polarity = true;
        epistemic_status = none;
        source_span = none;
        claim_date = none;
        confidence = none;
        derived_from = [];
      }
      ∷ [];
}

-- A manifest of one restricted entry.
abbrev one_entry : Manifest
one_entry = record { by_sha = ("alpha", entry "evidence/a.txt" "alpha" true) ∷ [] }

entry_found : entry_for_sha one_entry (some "alpha") ≡ some (entry "evidence/a.txt" "alpha" true)
unfolding entry_for_sha lookup string_dec lower
entry_found = refl

base_made :
    base_for_sha one_entry "alpha" ≡ some (base_of (entry "evidence/a.txt" "alpha" true) "alpha")
unfolding base_for_sha entry_for_sha lookup string_dec lower
base_made = refl

assemble-IsFaithful_example :
    IsFaithful (entry "evidence/a.txt" "alpha" true) "evidence/a.txt" "alpha" enrichment (
      assemble lower "evidence/a.txt" "text"
        (base_of (entry "evidence/a.txt" "alpha" true) "alpha")
        enrichment
        "t")
assemble-IsFaithful_example =
    assemble-IsFaithful lower one_entry (entry "evidence/a.txt" "alpha" true)
      (base_of (entry "evidence/a.txt" "alpha" true) "alpha") "evidence/a.txt" "alpha" "text"
      enrichment "t" entry_found base_made

abbrev one_file : String → Option (List String)
one_file sha = some ("A\tevidence/secret/b.txt" ∷ "M\tevidence/a.txt" ∷ [])

abbrev IsChanged : EnrichedDocument → Type 0
IsChanged = IsIntroduced (changed_files allow (one_file "c1"))

process_commit-writes_introduced_example :
    All IsChanged (process_commit services allow (λ w. []) false one_file "c1" "run" none []).2
process_commit-writes_introduced_example =
    process_commit-writes_introduced services (All IsChanged) allow (λ w. []) false one_file "c1"
      "run" none [] (services-emit (All IsChanged)) (λ p v h. h) (λ p content base v h. h)
      (keep_sink-IsGuarded IsChanged, tt) tt
