-- ===== src/Tests/Passes.antt =====
-- Whole passes over the tree of files.
use legal_system.Prelude.{
  ℕ, ◌+◌, min, max, String, Bool, true, false, Option, none, some, List, [], ◌∷◌, ◌++◌, ◌≡◌, refl,
  All, IsIn, inl, inr, string_dec, arith, contains, count_if, length, take, filter, map, ◌&&◌, not,
  is_some,
}
use legal_system.Prelude.Text.{starts_with, lower, strip}
use legal_system.Prelude.Dict.{Dict, lookup}
use legal_system.Exclusion.{
  ExclusionEntry, recorded, load, record_exclusion, append_exclusion, post_init, new_entry, to_json,
  as_dict, read_lines, read_parsed, from_dict, lower_or_none, init, ExclusionRegistry,
}
use legal_system.Manifest.{ManifestEntry, Manifest, entry_for_sha, make_entry, evidence_tree}
use legal_system.Manifest.{init as manifest_of}
use legal_system.Sidecar.{resolve_chain}
use legal_system.Exclusion.Record.{IsWritten}
use legal_system.Prelude.Lines.{ends_line, has_break, split_lines}
use legal_system.Prelude.Words.{onto_first}
use legal_system.Data.{opt_truthy, opt_or, get, str, str_or, is_truthy, of_opt}
use legal_system.Document.{EnrichedDocument}
use legal_system.Reingest.{is_media, Status, ReingestReport, reingest_from_raw, select_items}
use legal_system.Reingest.Restricted.{IsAllowed, reingest_from_raw-writes_allowed}
use legal_system.Reingest.Tally.{IsReportOf, reingest_from_raw-reports}
use legal_system.Catchup.{
  refresh_provenance, select_pending, excludes_entry, source_is_present, is_pending, count_pending,
  count_missing_source, entry_is_ingestable,
}
use legal_system.Catchup.Run.{run_catchup}
use legal_system.Catchup.Pass.{IsUnrestricted, run_catchup-writes_unrestricted}
use legal_system.Catchup.Recorded.{IsOutside, record_exclusion-run_catchup}
use legal_system.Catchup.Select.{
  select_pending-take, select_pending-eligible, count_pending-partition,
}
use legal_system.Tests.Tree.{
  json_for, raw, allow, services, services-convert, keep_sink-IsGuarded, services-emit,
}

abbrev undertaking : ExclusionEntry
undertaking = record {
  raw_path = "evidence/secret";
  reason = "undertaking";
  timestamp = "now";
  source = "deindex";
  raw_sha256 = none;
}

abbrev pub registry : ExclusionRegistry
registry = init (undertaking ∷ [])

abbrev registry_file : String
registry_file = "{evidence/secret}\n"

written :
    IsWritten
      (json_for undertaking)
      (new_entry "evidence/secret" "undertaking" "deindex" none none "now")
unfolding to_json as_dict new_entry post_init strip string_dec opt_truthy lower_or_none opt_or get
    str lookup has_break legal_system.Prelude.Lines.is_break of_opt
written = (refl, ("evidence/secret", refl), refl)

recording :
    record_exclusion
      (json_for undertaking)
      "evidence/secret"
      "undertaking"
      "deindex"
      none
      none
      "now"
      ""
    ≡ recorded undertaking registry_file
unfolding record_exclusion append_exclusion to_json as_dict new_entry post_init strip string_dec
    opt_truthy lower_or_none opt_or get str lookup
recording = refl

loaded : load (json_for undertaking) registry_file ≡ some registry
unfolding load read_lines read_parsed split_lines onto_first legal_system.Prelude.Lines.is_break
    strip starts_with string_dec from_dict as_dict post_init opt_truthy lower_or_none get str str_or
    is_truthy of_opt lookup
loaded = refl

empty_ended : ends_line "" ≡ true
unfolding ends_line
empty_ended = refl

empty_loads : is_some (load (json_for undertaking) "") ≡ true
unfolding load read_lines split_lines
empty_loads = refl

record_exclusion-run_catchup_example :
    All
      (IsOutside "evidence/secret")
      (run_catchup services allow none (λ w. []) 10 false "catchup" registry []).world
record_exclusion-run_catchup_example =
    record_exclusion-run_catchup (json_for undertaking) "evidence/secret" "undertaking" "deindex"
      none none "now" "" registry_file undertaking registry refl empty_ended empty_loads written
      recording loaded services (All (IsOutside "evidence/secret")) allow none (λ w. []) 10 false
      "catchup" [] (services-emit (All (IsOutside "evidence/secret"))) (λ p v h. h)
      (λ p content base v h. h) (keep_sink-IsGuarded (IsOutside "evidence/secret"), tt) tt

run_catchup-writes_unrestricted_example :
    All
      (IsUnrestricted registry)
      (run_catchup services allow none (λ w. []) 10 false "catchup" registry []).world
run_catchup-writes_unrestricted_example =
    run_catchup-writes_unrestricted services (All (IsUnrestricted registry)) registry allow none
      (λ w. []) 10 false "catchup" [] (services-emit (All (IsUnrestricted registry))) (λ p v h. h)
      (λ p content base v h. h) (keep_sink-IsGuarded (IsUnrestricted registry), tt) tt

-- An entry of the tree, with its restriction as given.
abbrev pub entry : String → String → Bool → ManifestEntry
entry path sha restricted = record {
  sha256 = sha;
  raw_path = path;
  raw_commit = "";
  size = 5;
  matters = [];
  origin = "received";
  party_role = none;
  document_type = none;
  author = none;
  claim_source = none;
  no_index = restricted;
  no_index_reason = none;
  no_index_category = none;
  notes = none;
  method = none;
  date = none;
  date_basis = none;
  date_uncertain = false;
  source_channel = none;
  obtained_note = none;
  superseded_by = none;
  metadata_error = [];
}

abbrev pub existing : Dict ManifestEntry
existing =
    ("alpha", entry "evidence/a.txt" "alpha" false)
    ∷ ("beta", entry "evidence/secret/b.txt" "beta" true)
    ∷ ("gone", entry "evidence/gone.txt" "gone" false)
    ∷ []

abbrev IsFree : EnrichedDocument → Type 0
IsFree = IsAllowed (manifest_of existing) none []

reingest_from_raw-writes_allowed_example :
    All IsFree (reingest_from_raw services "run" (manifest_of existing) none none [] []).1
reingest_from_raw-writes_allowed_example =
    reingest_from_raw-writes_allowed services (All IsFree) existing "run" none none [] []
      (services-emit (All IsFree)) (λ p v h. h) (λ p content base v h. h)
      (keep_sink-IsGuarded IsFree, tt) tt

reingest_from_raw-reports_example :
    (r : ReingestReport) × (statuses : List (String × Status)) × ((reingest_from_raw services "run"
        (manifest_of existing)
        none
        none
        []
        []).0
      ≡ some (r, statuses))
    × IsReportOf statuses r
    × (map (λ (x : String × Status). x.0) statuses
        ≡ map
            (λ (x : String × ManifestEntry). x.1.raw_path)
            (select_items none none (manifest_of existing).by_sha))
reingest_from_raw-reports_example =
    reingest_from_raw-reports services "run" (manifest_of existing) none none [] [] services-convert

select_pending-take_example :
    (select_pending (manifest_of existing) [] 0 [] (some registry) (some raw)
      ≡ take (max 1 0) (
          filter
            (λ x. is_pending [] [] (some registry) (some raw) x.0 x.1)
            (manifest_of existing).by_sha))
    × (length (select_pending (manifest_of existing) [] 0 [] (some registry) (some raw))
        ≡ min (max 1 0) (count_pending (manifest_of existing) [] [] (some registry) (some raw)))
select_pending-take_example =
    select_pending-take (manifest_of existing) [] 0 [] (some registry) (some raw)

count_pending-partition_example :
    count_if (λ x. contains [] x.0) (manifest_of existing).by_sha
      + count_pending (manifest_of existing) [] [] (some registry) (some raw)
      + count_missing_source (manifest_of existing) [] raw (some registry)
      + count_if
          (λ x. not (contains [] x.0) && not (entry_is_ingestable x.1 (some registry)))
          (manifest_of existing).by_sha
    ≡ length (manifest_of existing).by_sha
count_pending-partition_example =
    count_pending-partition (manifest_of existing) [] (some registry) raw

-- Of the tree, only the file that is neither a medium nor beside a broken metadata file is written.
written_paths :
    map
      (λ (doc : EnrichedDocument). doc.raw_path)
      (run_catchup services allow none (λ w. []) 10 false "catchup" registry []).world
    ≡ "evidence/a.txt" ∷ []
unfolding legal_system.Catchup.Run.run_catchup legal_system.Catchup.Run.finish_catchup
    legal_system.Catchup.refresh_provenance legal_system.Catchup.refresh_files
    legal_system.Catchup.refresh_file legal_system.Catchup.is_scanned
    legal_system.Prelude.string_dec legal_system.Prelude.FilePath.first_part
    legal_system.Prelude.FilePath.name legal_system.Prelude.FilePath.parts
    legal_system.Prelude.FilePath.split legal_system.Prelude.FilePath.suffix
    legal_system.Allowlist.is_excluded_file legal_system.Allowlist.glob
    legal_system.Prelude.FilePath.as_posix legal_system.Allowlist.tree_for
    legal_system.Prelude.Dict.lookup legal_system.Prelude.Dict.insert
    legal_system.Prelude.Dict.set_default legal_system.Catchup.register
    legal_system.Manifest.build_entry legal_system.Manifest.build_known
    legal_system.Manifest.evidence_tree legal_system.Manifest.finish_entry
    legal_system.Manifest.make_entry legal_system.Manifest.init legal_system.Manifest.lower_keys
    legal_system.Manifest.layer_at legal_system.Manifest.content_of
    legal_system.Manifest.resolve_matters legal_system.Manifest.iterate
    legal_system.Manifest.case_matters legal_system.Manifest.add_matters
    legal_system.Manifest.resolve_date_uncertain legal_system.Sidecar.is_sidecar_name
    legal_system.Sidecar.resolve_chain legal_system.Sidecar.chain_layers
    legal_system.Sidecar.resolve_layers legal_system.Sidecar.resolve_layer
    legal_system.Sidecar.apply legal_system.Sidecar.note_unparseable_layer
    legal_system.Sidecar.resolved_reason legal_system.Sidecar.resolved_category
    legal_system.Prelude.Text.lower legal_system.Prelude.Text.reverse
    legal_system.Prelude.Text.ends_with legal_system.Prelude.Text.starts_with
    legal_system.Prelude.Text.strip legal_system.Catchup.Run.process_pending
    legal_system.Catchup.select_pending legal_system.Prelude.Collect.collect
    legal_system.Catchup.is_pending legal_system.Catchup.entry_is_ingestable
    legal_system.Catchup.match_entry legal_system.Exclusion.match
    legal_system.Exclusion.entry_for_sha legal_system.Exclusion.entry_for_path
    legal_system.Exclusion.init legal_system.Exclusion.add legal_system.Exclusion.add_sha
    legal_system.Exclusion.post_init legal_system.Exclusion.lower_or_none legal_system.Data.get
    legal_system.Data.is_truthy legal_system.Data.of_opt legal_system.Data.str
    legal_system.Data.str_or legal_system.Data.opt_truthy legal_system.Data.opt_or
    legal_system.Data.opt_str legal_system.Data.is_truthy_value
    legal_system.Catchup.source_is_present legal_system.Reingest.is_media
    legal_system.Reingest.reingest_from_raw legal_system.Reingest.select_items
    legal_system.Reingest.run_items legal_system.Reingest.process_one
    legal_system.Reingest.extract_file legal_system.Reingest.finish_convert
    legal_system.Reingest.index_document legal_system.Reingest.report_metadata_error
    legal_system.Reingest.finish_enrich legal_system.Reingest.finish_write
    legal_system.Reingest.write_to_sinks legal_system.Reingest.prepend
    legal_system.Reingest.emit_event legal_system.Reingest.remove_stale legal_system.Reingest.tally
    legal_system.Reingest.tally_status legal_system.Document.base_for_sha
    legal_system.Document.base_of legal_system.Document.origin_of
    legal_system.Manifest.entry_for_sha legal_system.Document.assemble
    legal_system.Document.merge_enrichment legal_system.Document.union
    legal_system.Document.attribute legal_system.Document.first_of_two
written_paths = refl

selected :
    IsIn
      ("alpha", entry "evidence/a.txt" "alpha" false)
      (select_pending (manifest_of existing) [] 10 [] (some registry) (some raw))
unfolding legal_system.Catchup.Run.run_catchup legal_system.Catchup.Run.finish_catchup
    legal_system.Catchup.refresh_provenance legal_system.Catchup.refresh_files
    legal_system.Catchup.refresh_file legal_system.Catchup.is_scanned
    legal_system.Prelude.string_dec legal_system.Prelude.FilePath.first_part
    legal_system.Prelude.FilePath.name legal_system.Prelude.FilePath.parts
    legal_system.Prelude.FilePath.split legal_system.Prelude.FilePath.suffix
    legal_system.Allowlist.is_excluded_file legal_system.Allowlist.glob
    legal_system.Prelude.FilePath.as_posix legal_system.Allowlist.tree_for
    legal_system.Prelude.Dict.lookup legal_system.Prelude.Dict.insert
    legal_system.Prelude.Dict.set_default legal_system.Catchup.register
    legal_system.Manifest.build_entry legal_system.Manifest.build_known
    legal_system.Manifest.evidence_tree legal_system.Manifest.finish_entry
    legal_system.Manifest.make_entry legal_system.Manifest.init legal_system.Manifest.lower_keys
    legal_system.Manifest.layer_at legal_system.Manifest.content_of
    legal_system.Manifest.resolve_matters legal_system.Manifest.iterate
    legal_system.Manifest.case_matters legal_system.Manifest.add_matters
    legal_system.Manifest.resolve_date_uncertain legal_system.Sidecar.is_sidecar_name
    legal_system.Sidecar.resolve_chain legal_system.Sidecar.chain_layers
    legal_system.Sidecar.resolve_layers legal_system.Sidecar.resolve_layer
    legal_system.Sidecar.apply legal_system.Sidecar.note_unparseable_layer
    legal_system.Sidecar.resolved_reason legal_system.Sidecar.resolved_category
    legal_system.Prelude.Text.lower legal_system.Prelude.Text.reverse
    legal_system.Prelude.Text.ends_with legal_system.Prelude.Text.starts_with
    legal_system.Prelude.Text.strip legal_system.Catchup.Run.process_pending
    legal_system.Catchup.select_pending legal_system.Prelude.Collect.collect
    legal_system.Catchup.is_pending legal_system.Catchup.entry_is_ingestable
    legal_system.Catchup.match_entry legal_system.Exclusion.match
    legal_system.Exclusion.entry_for_sha legal_system.Exclusion.entry_for_path
    legal_system.Exclusion.init legal_system.Exclusion.add legal_system.Exclusion.add_sha
    legal_system.Exclusion.post_init legal_system.Exclusion.lower_or_none legal_system.Data.get
    legal_system.Data.is_truthy legal_system.Data.of_opt legal_system.Data.str
    legal_system.Data.str_or legal_system.Data.opt_truthy legal_system.Data.opt_or
    legal_system.Data.opt_str legal_system.Data.is_truthy_value
    legal_system.Catchup.source_is_present legal_system.Reingest.is_media
    legal_system.Reingest.reingest_from_raw legal_system.Reingest.select_items
    legal_system.Reingest.run_items legal_system.Reingest.process_one
    legal_system.Reingest.extract_file legal_system.Reingest.finish_convert
    legal_system.Reingest.index_document legal_system.Reingest.report_metadata_error
    legal_system.Reingest.finish_enrich legal_system.Reingest.finish_write
    legal_system.Reingest.write_to_sinks legal_system.Reingest.prepend
    legal_system.Reingest.emit_event legal_system.Reingest.remove_stale legal_system.Reingest.tally
    legal_system.Reingest.tally_status legal_system.Document.base_for_sha
    legal_system.Document.base_of legal_system.Document.origin_of
    legal_system.Manifest.entry_for_sha legal_system.Document.assemble
    legal_system.Document.merge_enrichment legal_system.Document.union
    legal_system.Document.attribute legal_system.Document.first_of_two
selected = inl refl

select_pending-eligible_example :
    IsIn ("alpha", entry "evidence/a.txt" "alpha" false) (manifest_of existing).by_sha
    × (contains [] "alpha" ≡ false)
    × (excludes_entry registry (entry "evidence/a.txt" "alpha" false) ≡ false)
    × (false ≡ false)
    × (is_media "evidence/a.txt" ≡ false)
    × (source_is_present (entry "evidence/a.txt" "alpha" false) raw ≡ true)
select_pending-eligible_example =
    select_pending-eligible (manifest_of existing) [] 10 [] registry raw "alpha"
      (entry "evidence/a.txt" "alpha" false) selected
