-- ===== src/Tests/Stores.antt =====
-- The extracted store, the index and the manifest at concrete data.
use legal_system.Prelude.{
  String, Bool, true, none, some, List, [], ◌∷◌, ◌++◌, ◌==◌, ◌≡◌, refl, ◌↔◌, IsIn, All, string_dec,
}
use legal_system.Prelude.Text.{nil, truthy}
use legal_system.Prelude.Dict.{Dict}
use legal_system.Data.{opt_or}
use legal_system.Document.{
  has_valid_matter, EnrichedDocument, assemble, base_of, compute_doc_id, merge_enrichment,
}
use legal_system.Reingest.Restricted.{IsGuarded}
use legal_system.Writer.{Parts, ExtractedRepoWriter, as_sink}
use legal_system.Writer.Contained.{IsUnder, as_sink-IsContained}
use legal_system.Source.{to_es_document, enriched_from_es_source}
use legal_system.Source.RoundTrip.{unrestricted, enriched_from_es_source-to_es_document}
use legal_system.Audit.{ExpectedEntry, OrphanEntry, reconcile, find_orphans, indexed_orphans}
use legal_system.Audit.Join.{IsJoin, IsOrphan, reconcile-find_orphans}
use legal_system.Tests.Passes.{entry}
use legal_system.Tests.Commits.{enrichment}

abbrev doc : EnrichedDocument
doc =
    assemble (λ s. s) "evidence/a.txt" "text"
      (base_of (entry "evidence/a.txt" "alpha" true) "alpha") enrichment "t"

-- The world is the list of the paths that were written.
abbrev Written : Type 0
Written = List Parts

abbrev writer : ExtractedRepoWriter Written
writer = record {
  root = "srv" ∷ "extracted" ∷ [];
  files = record {
    resolve = λ root rel w. root ++ rel ∷ [];
    write_text = λ dest content w. (none, dest ∷ w);
    to_frontmatter_document = λ meta markdown. markdown;
    show_path = λ path. "path";
  };
}

abbrev AreUnder : Written → Type 0
AreUnder = All (IsUnder ("srv" ∷ "extracted" ∷ []))

as_sink-IsContained_example : IsGuarded AreUnder (λ d. Unit) (as_sink writer)
as_sink-IsContained_example =
    as_sink-IsContained writer AreUnder (λ d dest w free under h. (under, h))

doc_has_id : truthy doc.doc_id ≡ true
unfolding assemble compute_doc_id
doc_has_id = refl

doc_path : doc.metadata.raw_path ≡ some doc.raw_path
unfolding assemble merge_enrichment
doc_path = refl

doc_commit : opt_or nil doc.metadata.raw_commit ≡ doc.raw_commit
unfolding assemble merge_enrichment opt_or base_of
doc_commit = refl

doc_matter : has_valid_matter doc.metadata ≡ true
unfolding has_valid_matter assemble merge_enrichment base_of
doc_matter = refl

enriched_from_es_source-to_es_document_example :
    enriched_from_es_source (to_es_document (λ s. s) doc) "id"
    ≡ some (record doc { metadata = unrestricted doc.metadata })
unfolding assemble
enriched_from_es_source-to_es_document_example =
    enriched_from_es_source-to_es_document (λ s. s) doc "id" doc_has_id refl doc_path doc_commit
      doc_matter

abbrev expected_entry : String → ExpectedEntry
expected_entry path = record { sha256 = "h"; raw_path = path; matters = [] }

abbrev expected : Dict ExpectedEntry
expected = ("b", expected_entry "b") ∷ ("a", expected_entry "a") ∷ ("c", expected_entry "c") ∷ []

abbrev indexed : Dict String
indexed = ("a", "d1") ∷ ("b", "d2") ∷ ("x", "d3") ∷ []

abbrev has_file : String → Bool
has_file path = path == "a"

test_missing : (reconcile expected indexed).missing ≡ "c" ∷ []
unfolding reconcile string_dec
test_missing = refl

reconcile-find_orphans_example :
    IsJoin expected indexed (reconcile expected indexed)
    × ((o : OrphanEntry)
        → IsIn o (find_orphans expected has_file indexed).orphans
          ↔ IsOrphan expected has_file indexed o)
    × ((o : OrphanEntry)
        → IsIn o (indexed_orphans (find_orphans expected has_file indexed))
        → IsIn o.raw_path (reconcile expected indexed).matched)
reconcile-find_orphans_example = reconcile-find_orphans expected indexed has_file
