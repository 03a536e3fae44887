-- ===== src/Reconcile.antt =====
-- ingest/reconcile.py: which files of goldberg-raw are missing from the index.
pub mod Gap
pub mod Point
use legal_system.Prelude.{
  ℕ, ◌+◌, String, Bool, true, false, not, ◌&&◌, Option, none, some, List, [], ◌∷◌, ◌++◌, ◌<>◌, map,
  contains, is_some, if◌then◌else◌,
}
use legal_system.Prelude.Text.{lower}
use legal_system.Prelude.FilePath.{first_part, as_posix}
use legal_system.Prelude.Dict.{Dict}
use legal_system.Exclusion.{ExclusionEntry, ExclusionRegistry, match}
use legal_system.Allowlist.{Allowlist}
use legal_system.Manifest.{
  Node, file, folder, Raw, content_of, ManifestEntry, entry_is_no_index, Built, raised, skipped,
  built, build_entry,
}
use legal_system.Catchup.{entry_is_ingestable, excludes_entry}

pub record GapFile : Type 0 where
  pub raw_path : String
  pub raw_sha256 : String
  pub tree : String

pub record GapReport : Type 0 where
  pub scanned : ℕ
  pub indexed_shas : ℕ
  pub gap : List GapFile
  pub skipped_no_index : ℕ
  pub skipped_media : ℕ
  pub skipped_excluded : ℕ
  pub indexed_truncated : Bool

-- `GapReport.complete`
abbrev pub complete : GapReport → Bool
complete r = elim r.gap [ [] ↦ true | _ ∷ _ ↦ false ]

-- `registry is not None and registry.excludes_entry(record)`
abbrev pub is_registered : Option ExclusionRegistry → ManifestEntry → Bool
is_registered none e = false
is_registered (some r) e = excludes_entry r e

unfoldable pub record_entry :
    (indexed : List String)
    → Option ExclusionRegistry
    → String
    → ManifestEntry
    → GapReport
    → GapReport
record_entry indexed registry rel e r =
    if entry_is_ingestable e registry
    then (if contains indexed (lower e.sha256)
        then record r { scanned = r.scanned + 1 }
        else record r {
          scanned = r.scanned + 1;
          gap =
              r.gap
              ++ record { raw_path = e.raw_path; raw_sha256 = e.sha256; tree = first_part rel }
                ∷ [];
        })
    else if is_registered registry e
    then record r { skipped_excluded = r.skipped_excluded + 1 }
    else if entry_is_no_index e
    then record r { skipped_no_index = r.skipped_no_index + 1 }
    else record r { skipped_media = r.skipped_media + 1 }

-- What the loop does with the result of `build_entry`; `none` is its exception.
unfoldable pub scan_built :
    List String → Option ExclusionRegistry → String → Built → GapReport → Option GapReport
scan_built indexed registry rel raised r = none
scan_built indexed registry rel skipped r = some r
scan_built indexed registry rel (built e) r = some (record_entry indexed registry rel e r)

-- The loop over the tree.
unfoldable pub scan :
    Raw
    → Allowlist
    → Bool
    → List String
    → Option ExclusionRegistry
    → Dict Node
    → GapReport
    → Option GapReport
scan raw allow with_commit indexed registry [] r = some r
scan raw allow with_commit indexed registry ((rel, folder) ∷ nodes) r =
    scan raw allow with_commit indexed registry nodes r
scan raw allow with_commit indexed registry ((rel, file content) ∷ nodes) r =
    elim (scan_built indexed registry rel (build_entry raw allow with_commit none rel content) r) [
      | none ↦ none
      | some r' ↦ scan raw allow with_commit indexed registry nodes r'
    ]

-- `len` of a set.
unfoldable pub count_distinct : List String → ℕ
count_distinct [] = 0
count_distinct (s ∷ ss) = let rest = count_distinct ss in if contains ss s then rest else rest + 1

unfoldable pub reconcile_gap :
    Raw
    → Allowlist
    → (indexed_shas : List String) → (with_commit indexed_truncated : Bool)
    → Option ExclusionRegistry
    → Option GapReport
reconcile_gap raw allow indexed_shas with_commit indexed_truncated registry =
    let indexed = map lower indexed_shas in
    scan raw allow with_commit indexed registry raw.nodes (record {
      scanned = 0;
      indexed_shas = count_distinct indexed;
      gap = [];
      skipped_no_index = 0;
      skipped_media = 0;
      skipped_excluded = 0;
      indexed_truncated = indexed_truncated;
    })

-- The dictionary that `classify_path` returns.
pub record PathClass : Type 0 where
  pub raw_path : String
  pub in_raw : Bool
  pub in_index : Bool
  pub raw_sha256 : Option String
  pub ingestable : Option Bool
  pub tree : String
  pub note : String
  pub invisible_gap : Bool

-- `ingestable` and `note` of a file that is there; `none` is the exception of `build_entry`.
unfoldable pub judge :
    Option ExclusionEntry → Option ExclusionRegistry → Built → Option (Bool × String)
judge hit registry raised = none
judge (some x) registry b = some (false, "deliberately excluded (registry): " <> x.reason)
judge none registry skipped =
    some (false, "excluded from ingestion (not evidence / not under an allowlisted tree)")
judge none registry (built e) = some (
    if entry_is_ingestable e registry then (true, "") else (
      false,
      if entry_is_no_index e then "restricted (no_index)" else "media (no OCR-able text)",
    ))

abbrev pub registry_hit : Option ExclusionRegistry → String → String → Option ExclusionEntry
registry_hit none path sha = none
registry_hit (some r) path sha = match r (some path) (some sha)

unfoldable pub classify_file :
    String → String → (indexed : List String) → Option (Bool × String) → Option PathClass
classify_file rel sha indexed none = none
classify_file rel sha indexed (some (ingestable, note)) = some (record {
  raw_path = as_posix rel;
  in_raw = true;
  in_index = contains indexed (lower sha);
  raw_sha256 = some sha;
  ingestable = some ingestable;
  tree = first_part rel;
  note = note;
  invisible_gap = ingestable && not (contains indexed (lower sha));
})

-- `classify_path` on the content of the file, if there is one.
unfoldable pub classify_content :
    Raw
    → String
    → (indexed_shas : List String) → Allowlist
    → Bool
    → Option ExclusionRegistry
    → (content : Option String) → Option PathClass
classify_content raw rel indexed_shas allow with_commit registry (some content) =
    let sha = raw.digest content in
    classify_file rel sha (map lower indexed_shas) (
      judge (registry_hit registry (as_posix rel) sha) registry
        (build_entry raw allow with_commit none rel content))
classify_content raw rel indexed_shas allow with_commit registry none = some (record {
  raw_path = as_posix rel;
  in_raw = false;
  in_index = false;
  raw_sha256 = none;
  ingestable = none;
  tree = first_part rel;
  note = "not present in goldberg-raw";
  invisible_gap = false;
})

unfoldable pub classify_path :
    Raw
    → (raw_path : String) → (indexed_shas : List String) → Allowlist
    → (with_commit : Bool) → Option ExclusionRegistry
    → Option PathClass
classify_path raw rel indexed_shas allow with_commit registry =
    classify_content raw rel indexed_shas allow with_commit registry (content_of raw rel)
