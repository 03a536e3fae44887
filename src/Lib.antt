-- ===== src/Lib.antt =====
-- goldberg_system ingests legal evidence: files of a git working tree (goldberg-raw) are registered in a
-- provenance manifest, extracted, enriched and written to an index. What must not be indexed is said
-- twice, by a registry of deliberate exclusions and by `no_index` in the metadata files beside the
-- evidence. This library models that core: what stays out of the index, and that nothing else is lost.
--
-- The parts (paths are from the repository's root; a second one in a line stands in src/goldberg_system/
-- too):
-- - Exclusion: src/goldberg_system/exclusion_registry.py. The registry with its two dictionaries,
--   `match`, and the text of the registry file, which `record_exclusion` appends to and `load` takes
--   apart into lines.
-- - Sidecar: src/goldberg_system/metadata/sidecar.py. The chain of folder files and per-file sidecars,
--   and the fail-closed resolution of `no_index`. A layer is what YAML made of a carrier.
-- - Inheritance: src/goldberg_system/metadata/inheritance.py, the merge of a chain by the rule of each
--   field.
-- - Lint: the linter of metadata/sidecar.py, one finding per problem.
-- - Allowlist and Manifest: src/goldberg_system/migrate/allowlist.py and migrate/manifest.py.
--   `build_entry` is the derivation of an entry; `Raw` is the tree, with the hash, git and YAML as
--   functions.
-- - Document: src/goldberg_system/metadata/schema.py, enrichment/assemble.py, sinks/base.py and
--   pipeline.py, the document that is written. Of the validation of the schema the rule on the primary
--   matter is modelled.
-- - Reingest: src/goldberg_system/migrate/reingest.py. `Services` holds what stands outside: extraction,
--   enricher, event sink, clock and sinks, each a function on a world of any type. Runs are sequential:
--   with several workers the same `process_one` runs for the same entries in another order.
-- - Catchup: src/goldberg_system/ingest/catchup.py. The refresh of the manifest, the selection, the
--   counters and the pass.
-- - Reconcile: src/goldberg_system/ingest/reconcile.py. The gap between the tree and the index, and the
--   query of one path.
-- - CommitFiles and Processor: src/goldberg_system/ingest/commit_files.py and ingest/processor.py. The
--   files of a commit, and the handling of a message; the broker is the list of the calls that it gets.
-- - Indexer: src/goldberg_system/sinks/elasticsearch_indexer.py with the alarm of
--   observability/restricted_alert.py, the last guard before the client of Elasticsearch.
-- - Deindex: src/goldberg_system/deindex.py, the purge of path prefixes and its record in the registry.
-- - Writer and Source: src/goldberg_system/sinks/extracted_writer.py, the sink of the derived store, and
--   `to_es_document` of sinks/elasticsearch_indexer.py with its reader in extracted.py. A path is the
--   list of its parts, and resolving it is a parameter.
-- - Audit and Health: src/goldberg_system/observability/reconcile.py, the join of manifest and index,
--   and observability/health.py, the probes and the board. The order in which the probes come in is a
--   list.
-- - Grounding: src/goldberg_system/grounding/. The authorities that a text cites (Acts, Authorities),
--   the primary texts (Primary), the quotes (Quotes), the verdict on a quote (Classify) and `check_root`
--   (Check).
-- - Pairing: src/goldberg_system/nli/pairing.py and audience.py, the candidates for the comparison of
--   claims. Scores are a parameter with an order.
-- - Contradictions: src/goldberg_system/query.py, `contradictions` on the claims that were fetched. The
--   stem of a document (Stem) strips markers on fuel; the length of the leaf is enough.
-- - Messaging and Periodic: src/goldberg_system/messaging/client.py, the delays before a redelivery, and
--   `run_periodic_catchup` of ingest/catchup.py.
-- - Data and Prelude: values of JSON and YAML; texts, lists, dictionaries and paths of Python.
--
-- How the parts meet: `run_catchup` refreshes the manifest with `build_entry`, selects with
-- `entry_is_ingestable`, which asks the registry and the entry, and calls `reingest_from_raw`, which
-- asks the entry again. `process_commit` of the processor does the same for the files of one commit,
-- without the registry; there the indexer, itself a sink of the run, is the guard. `reconcile_gap` uses
-- the same predicate and walks the same tree.
--
-- Loops are structural recursion. `run_periodic_catchup`, which has no end of its own, runs on fuel: one
-- round more than the passes that it is told to run is enough. What the re library finds in a text, how
-- Python prints a value, what the json module writes and reads, what pydantic makes of the resolved
-- fields, and floating-point numbers are parameters. An exception that leaves a function is `none`, or a
-- constructor of its result. Sets are lists. Texts are lists of characters; case and blank space are
-- those of ASCII. Numbers are natural: `remaining_pending` is a difference that stops at 0, as in the
-- code.
--
-- Not modelled: the command line, the dashboard, the MCP server, the clients of Elasticsearch, NATS,
-- Docling and OpenAI, the queries, the delivery of alerts, the state file and the traces, the folder
-- defaults, the frontmatter text, the extraction of mails and subtitles, and the threads.
pub mod Prelude
pub mod Tests
pub mod Data
pub mod Exclusion
pub mod Sidecar
pub mod Allowlist
pub mod Manifest
pub mod Document
pub mod Reingest
pub mod Catchup
pub mod Reconcile
pub mod CommitFiles
pub mod Processor
pub mod Indexer
pub mod Deindex
pub mod Grounding
pub mod Pairing
pub mod Lint
pub mod Audit
pub mod Periodic
pub mod Messaging
pub mod Writer
pub mod Source
pub mod Contradictions
pub mod Health
pub mod Inheritance
