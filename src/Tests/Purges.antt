-- ===== src/Tests/Purges.antt =====
-- The indexer and the purge at concrete data.
use legal_system.Prelude.{
  String, is_some, IsIn, inl, inr, sym, Bool, true, false, ◌||◌, Option, none, some, List, [], ◌∷◌,
  ◌++◌, map, any, ◌≡◌, refl, ap, subst, ◌⊎◌, All, string_dec,
}
use legal_system.Prelude.Text.{truthy, strip, starts_with}
use legal_system.Exclusion.{ExclusionEntry, load, to_json, as_dict, post_init, lower_or_none}
use legal_system.Exclusion.Record.{IsWritten, is_excluded}
use legal_system.Prelude.Lines.{ends_line, has_break}
use legal_system.Prelude.Dict.{lookup}
use legal_system.Data.{get, str, opt_truthy, of_opt}
use legal_system.Document.{EnrichedDocument, assemble, base_of}
use legal_system.Reingest.{returned}
use legal_system.Reingest.Restricted.{IsGuarded}
use legal_system.Indexer.{
  ElasticsearchIndexer, Client, BlockedReingest, as_sink, write, written_result,
}
use legal_system.Indexer.Refusal.{is_barred, write_lem, as_sink-IsGuarded}
use legal_system.Deindex.{Stores, Request, Purged, deindex, is_refused}
use legal_system.Deindex.Purge.{purged, deindex-registers}
use legal_system.Tests.Tree.{json_for, World, All-append_one}
use legal_system.Tests.Passes.{registry, entry}
use legal_system.Tests.Commits.{enrichment}

-- A client that keeps the documents, and no alerts.
abbrev client : Client World
client = record {
  index = λ doc w. (returned tt, w ++ doc ∷ []);
  delete_by_path = λ path w. (returned 0, w);
  alert = λ a w. w;
}

abbrev indexer : ElasticsearchIndexer World
indexer = record { client = client; index_name = "documents"; registry = registry }

abbrev secret : EnrichedDocument
secret =
    assemble (λ s. s) "evidence/secret/b.txt" "text"
      (base_of (entry "evidence/secret/b.txt" "beta" false) "beta") enrichment "t"

write_lem_example :
    (((is_barred registry secret ≡ true)
        × ((write indexer secret []).0.ok ≡ false)
        × (a : BlockedReingest) × (a.raw_path ≡ secret.raw_path)
        × ((write indexer secret []).1 ≡ []))
      ⊎ ((is_barred registry secret ≡ false)
          × (write indexer secret [] ≡ (written_result indexer (returned tt), secret ∷ []))))
write_lem_example = write_lem indexer secret []

abbrev IsOpen : EnrichedDocument → Type 0
IsOpen doc = is_barred registry doc ≡ false

as_sink-IsGuarded_example : IsGuarded (All IsOpen) (λ doc. Unit) (as_sink indexer)
as_sink-IsGuarded_example =
    as_sink-IsGuarded indexer (All IsOpen) (λ a w h. h) (λ path w h. h)
      (λ doc w free h. All-append_one IsOpen w doc h free)

abbrev stores : Stores World
stores = record { count = λ ps w. 0; delete = λ ps w. (1, []); unlink = λ p w. w }

abbrev request : Bool → Request
request dry = record {
  extracted = none;
  dry_run = dry;
  reason = some "order";
  registry_file = some "";
}

prefix_accepted : any (λ q. is_refused false (strip q)) ("evidence/secret" ∷ []) ≡ false
unfolding is_refused strip string_dec
prefix_accepted = refl

reason_given : truthy (strip "order") ≡ true
unfolding strip
reason_given = refl

abbrev is_nil : List String → Bool
is_nil [] = true
is_nil _ = false

abbrev one_prefix : List String
one_prefix = "evidence/secret" ∷ []

prefixes_given : ¬ (one_prefix ≡ [])
prefixes_given p = subst (λ b. elim b [ true ↦ ⊥ | false ↦ Unit ]) (ap is_nil p) tt

abbrev ordered : ExclusionEntry
ordered = purged "order" "t" "evidence/secret"

written :
    (p : String)
    → IsIn p (map strip one_prefix)
    → IsWritten (json_for ordered) (purged "order" "t" p)
unfolding to_json as_dict post_init strip string_dec opt_truthy lower_or_none get str lookup
    has_break legal_system.Prelude.Lines.is_break of_opt
written p (inl e) =
    subst (λ q. IsWritten (json_for ordered) (purged "order" "t" q)) (sym e)
      (refl, ("evidence/secret", refl), refl)
written p (inr i) = absurd i

empty_ended : ends_line "" ≡ true
unfolding ends_line
empty_ended = refl

empty_loads : is_some (load (json_for ordered) "") ≡ true
unfolding load legal_system.Exclusion.read_lines legal_system.Prelude.Lines.split_lines
empty_loads = refl

deindex-registers_example :
    ((r : Purged World) × (file' : String) × (deindex stores
          (json_for ordered)
          one_prefix
          false
          (request false)
          "t"
          []
        ≡ some r)
      × (r.registry_file ≡ some file')
      × (r.result.registered ≡ map strip one_prefix)
      × (is_some (load (json_for ordered) file') ≡ true)
      × ((path : String) (sha : Option String)
          → (any (λ p. starts_with path p) (map strip one_prefix)
              || is_excluded (json_for ordered) "" path sha)
            ≡ true
          → is_excluded (json_for ordered) file' path sha ≡ true))
    × ((r : Purged World) × (deindex stores
            (json_for ordered)
            one_prefix
            false
            (request true)
            "t"
            []
          ≡ some r)
        × (r.registry_file ≡ some "")
        × (r.world ≡ []))
deindex-registers_example =
    deindex-registers stores (json_for ordered) one_prefix false none "order" "t" "" [] reason_given
      prefix_accepted prefixes_given empty_ended empty_loads written
