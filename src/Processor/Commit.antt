-- ===== src/Processor/Commit.antt =====
-- ingest/processor.py: the result of a commit names every file that the commit changed.
use legal_system.Prelude.{
  String, Bool, true, not, ◌&&◌, ◌||◌, Option, none, some, List, [], ◌∷◌, ◌++◌, map, filter, any,
  all, contains, ◌==◌, ◌≡◌, refl, ◌∙◌, inl, inr, Bool-cases, arith, IsIn,
}
use legal_system.Prelude.Dict.{Dict, lookup, has_key}
use legal_system.Allowlist.{Allowlist}
use legal_system.Manifest.{Manifest}
use legal_system.Reingest.{Status, missing, Services, returned, crashed}
use legal_system.Reingest.Tally.{reingest_from_raw-reports}
use legal_system.Processor.{FileResult, CommitResult, is_ok}
use legal_system.Processor.Resolve.{
  file_results, collect_results, process_files, path_to_sha, record_statuses,
}

-- The file has a result.
abbrev pub is_reported : List FileResult → String → Bool
is_reported rs path = any (λ (r : FileResult). r.raw_path == path) rs

any-append :
    {A : Type 0} (p : A → Bool) (xs ys : List A) → any p (xs ++ ys) ≡ (any p xs || any p ys)
any-append p [] ys = refl
any-append p (x ∷ xs) ys = ground (arith, any-append p xs ys)

any-map-lookup :
    (shas : Dict String) (path : String) (d : Dict Status)
    → is_reported
        (map
          (λ (x : String × Status). record {
            raw_path = x.0;
            status = x.1;
            sha256 = lookup x.0 shas;
          })
          d)
        path
      ≡ has_key path d
unfolding lookup
any-map-lookup shas path [] = refl
any-map-lookup shas path ((p, s) ∷ d) = ground (arith, any-map-lookup shas path d)

any-map-filter :
    (shas : Dict String) (d : Dict Status) (path : String) (files : List String)
    → is_reported
        (map
          (λ (f : String). record { raw_path = f; status = missing; sha256 = lookup f shas })
          (filter (λ (f : String). not (has_key f d)) files))
        path
      ≡ (contains files path && not (has_key path d))
any-map-filter shas d path [] = refl
any-map-filter shas d path (f ∷ files) = ground (arith, any-map-filter shas d path files)

-- Every changed file, and every file with a status, has a result, and no other.
pub file_results-IsReported :
    (shas : Dict String) (statuses : Dict Status) (files : List String) (path : String)
    → is_reported (file_results shas statuses files) path
      ≡ (has_key path statuses || contains files path)
unfolding file_results
file_results-IsReported shas statuses files path =
    any-append (λ (r : FileResult). r.raw_path == path)
      (map
        (λ (x : String × Status). record { raw_path = x.0; status = x.1; sha256 = lookup x.0 shas })
        statuses)
      (map (λ (f : String). record { raw_path = f; status = missing; sha256 = lookup f shas })
        (filter (λ (f : String). not (has_key f statuses)) files))
    ∙ ground (arith, any-map-lookup shas path statuses, any-map-filter shas statuses path files)

every_named :
    (shas : Dict String) (statuses : Dict Status) (files : List String) (path : String)
    → contains files path ≡ true
    → is_reported (file_results shas statuses files) path ≡ true
every_named shas statuses files path c =
    ground (arith, c, file_results-IsReported shas statuses files path)

all-any :
    (rs : List FileResult) (path : String)
    → all is_ok rs ≡ true
    → is_reported rs path ≡ true
    → (r : FileResult) × IsIn r rs × (r.raw_path ≡ path) × (is_ok r ≡ true)
all-any [] path a h = ground (arith, h)
all-any (r ∷ rs) path a h = elim (Bool-cases (r.raw_path == path)) [
  | inl e ↦ (r, inl refl, ground (arith, e), ground (arith, a))
  | inr e ↦
      let (s, i, p, ok) = all-any rs path (ground (arith, a)) (ground (arith, e, h)) in
      (s, inr i, p, ok)
]

-- When every failed extraction is a `DoclingError`, a run over resolved files returns a result in which
-- every one of these files is named; and if that result has no failed file, each of them has reached a
-- terminal status.
pub process_files-covers :
    {W : Type 0} (env : Services W) (allow : Allowlist) (already_indexed : W → List String)
    (with_commit : Bool) (git : String → Option (List String)) (commit_sha run_id : String)
    (m : Manifest) (w : W) (files : List String)
    → ((path : String) (v : W) → (e : String) → ¬ ((env.convert path v).0 ≡ crashed e))
    → (r : CommitResult) × ((process_files env allow already_indexed with_commit git commit_sha
          run_id
          (some files)
          m
          w).0
        ≡ returned r)
      × ((path : String)
          → contains files path ≡ true
          → (is_reported r.results path ≡ true)
            × (all is_ok r.results ≡ true
                → (f : FileResult) × IsIn f r.results × (f.raw_path ≡ path) × (is_ok f ≡ true)))
unfolding process_files collect_results
process_files-covers env allow already_indexed with_commit git commit_sha run_id m w [] converts =
    (record { commit_sha = commit_sha; results = [] }, refl, λ path c. ground (arith, c))
process_files-covers env allow already_indexed with_commit git commit_sha run_id m w (f ∷ fs)
      converts =
    let (report, done, p, _, _) =
      reingest_from_raw-reports env run_id m none (some (f ∷ fs)) (already_indexed w) w converts in
    let results = file_results (path_to_sha [] m.by_sha) (record_statuses [] done) (f ∷ fs) in
    (
      record { commit_sha = commit_sha; results = results },
      rw (process_files, p) refl,
      λ path c.
          let named =
            every_named (path_to_sha [] m.by_sha) (record_statuses [] done) (f ∷ fs) path c in
          (named, λ a. all-any results path a named),
    )
