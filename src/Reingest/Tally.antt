-- ===== src/Reingest/Tally.antt =====
-- migrate/reingest.py: what the counters of a `ReingestReport` add up to.
use legal_system.Prelude.{
  ℕ, ◌+◌, String, Bool, true, false, Option, none, some, List, [], ◌∷◌, ◌++◌, map, length, count_if,
  ◌≡◌, refl, arith, Bool-cases, append_nil, ap, sym, subst, is_some, ◌∙◌, inl, inr, length-append,
  append_assoc,
}
use legal_system.Prelude.Text.{truthy, strip}
use legal_system.Manifest.{ManifestEntry, Manifest}
use legal_system.Reingest.{
  Services, Status, extract_failed, error, missing, sink_failed, ReingestReport, no_report,
  tally_status, tally, process_one, run_items, reingest_from_raw, select_items, finish_convert,
  extract_file, Converted, markdown, docling_error, crashed, emit_event, event, Stage, ok,
}

abbrev pub tally_all : List (String × Status) → ReingestReport → ReingestReport
tally_all [] r = r
tally_all ((_, s) ∷ xs) r = tally_all xs (tally s r)

-- The counters other than `processed`, added up.
abbrev pub counted : ReingestReport → ℕ
counted r =
    r.indexed + r.skipped_empty + r.skipped_media + r.skipped_indexed + r.skipped_no_index
    + r.missing_file + r.failures

abbrev pub is_indexed : Status → Bool
is_indexed Status.indexed = true
is_indexed _ = false

abbrev pub is_missing_file : Status → Bool
is_missing_file Status.missing_file = true
is_missing_file _ = false

-- The statuses that no counter but `failures` is for.
abbrev pub is_failure : Status → Bool
is_failure sink_failed = true
is_failure missing = true
is_failure (extract_failed _) = true
is_failure (error _) = true
is_failure _ = false

tally-adds :
    (s : Status) (r : ReingestReport)
    → ((tally s r).processed ≡ r.processed + 1)
      × (counted (tally s r) ≡ counted r + 1)
      × ((tally s r).indexed ≡ r.indexed + count_if is_indexed (s ∷ []))
      × ((tally s r).missing_file ≡ r.missing_file + count_if is_missing_file (s ∷ []))
      × ((tally s r).failures ≡ r.failures + count_if is_failure (s ∷ []))
unfolding tally tally_status
tally-adds s r = ground arith

abbrev pub status_of : String × Status → Status
status_of x = x.1

-- What a report says of the documents that were processed.
abbrev pub IsReportOf : List (String × Status) → ReingestReport → Type 0
IsReportOf done r =
    (r.processed ≡ length done)
    × (counted r ≡ length done)
    × (r.indexed ≡ count_if (λ x. is_indexed (status_of x)) done)
    × (r.missing_file ≡ count_if (λ x. is_missing_file (status_of x)) done)
    × (r.failures ≡ count_if (λ x. is_failure (status_of x)) done)

count_if-append_one :
    {A : Type 0} (p : A → Bool) (xs : List A) (a : A)
    → count_if p (xs ++ a ∷ []) ≡ count_if p xs + count_if p (a ∷ [])
count_if-append_one p [] a = ground arith
count_if-append_one p (x ∷ xs) a = ground (arith, count_if-append_one p xs a)

tally-IsReportOf :
    (done : List (String × Status)) (r : ReingestReport) (path : String) (s : Status)
    → IsReportOf done r
    → IsReportOf (done ++ (path, s) ∷ []) (tally s r)
tally-IsReportOf done r path s h =
    let a = tally-adds s r in
    ground (
      arith,
      a.0,
      a.1,
      a.2,
      a.3,
      a.4,
      length-append done ((path, s) ∷ []),
      count_if-append_one (λ (x : String × Status). is_indexed (status_of x)) done (path, s),
      count_if-append_one (λ (x : String × Status). is_missing_file (status_of x)) done (path, s),
      count_if-append_one (λ (x : String × Status). is_failure (status_of x)) done (path, s),
    )

some_of_is_some : {A : Type 0} (o : Option A) → is_some o ≡ true → (a : A) × (o ≡ some a)
some_of_is_some none h = ground arith
some_of_is_some (some a) h = (a, refl)

module _ {W : Type 0} (env : Services W)
    (converts : (path : String) (w : W)
      → (e : String) → ¬ ((env.convert path w).0 ≡ crashed e)) where
  finish_convert-some :
      (run_id : String) (m : Manifest) (sha path : String) (c : Converted) (w : W)
      → ((e : String) → ¬ (c ≡ crashed e))
      → (s : Status) × ((finish_convert env run_id m sha path c w).0 ≡ some s)
  unfolding finish_convert
  finish_convert-some run_id m sha path (crashed e) w h = absurd (h e refl)
  finish_convert-some run_id m sha path (docling_error e) w h = (extract_failed e, refl)
  finish_convert-some run_id m sha path (markdown content) w h =
      elim (Bool-cases (truthy (strip content))) [
        | inl p ↦ rw p (_, refl)
        | inr p ↦ rw p (Status.skipped_empty, refl)
      ]

  process_one-is_some :
      (run_id : String) (m : Manifest) (skip_shas : List String) (sha : String) (e : ManifestEntry)
      (w : W)
      → is_some (process_one env run_id m skip_shas sha e w).0 ≡ true
  unfolding process_one extract_file
  process_one-is_some run_id m skip_shas sha e w =
      let w1 = emit_event env (event env run_id Stage.received ok sha e.raw_path none none) w in
      let (s, p) =
        finish_convert-some run_id m sha e.raw_path (env.convert e.raw_path w1).0
          (env.convert e.raw_path w1).1 (converts e.raw_path w1) in
      ground (arith, p)

  process_one-some :
      (run_id : String) (m : Manifest) (skip_shas : List String) (sha : String) (e : ManifestEntry)
      (w : W)
      → (s : Status) × ((process_one env run_id m skip_shas sha e w).0 ≡ some s)
  process_one-some run_id m skip_shas sha e w =
      some_of_is_some (process_one env run_id m skip_shas sha e w).0
        (process_one-is_some run_id m skip_shas sha e w)

  run_items-report :
      (run_id : String) (m : Manifest) (skip_shas : List String)
      (items : List (String × ManifestEntry))
      → (r : ReingestReport) (done : List (String × Status)) (w : W) → IsReportOf done r
      → (r' : ReingestReport) × (statuses : List (String × Status)) × ((run_items env run_id m
            skip_shas items r done w).0
          ≡ some (r', done ++ statuses))
        × IsReportOf (done ++ statuses) r'
        × (map (λ (x : String × Status). x.0) statuses
            ≡ map (λ (x : String × ManifestEntry). x.1.raw_path) items)
  unfolding run_items
  run_items-report run_id m skip_shas [] r done w h =
      let e = sym (append_nil done) in
      (
        r,
        [],
        ap (λ (d : List (String × Status)). some (r, d)) e,
        subst (λ d. IsReportOf d r) e h,
        refl,
      )
  run_items-report run_id m skip_shas ((sha, e) ∷ items) r done w h =
      let (s, p) = process_one-some run_id m skip_shas sha e w in
      let (r', rest, q, reported, paths) =
        run_items-report run_id m skip_shas items (tally s r) (done ++ (e.raw_path, s) ∷ [])
          (process_one env run_id m skip_shas sha e w).1 (tally-IsReportOf done r e.raw_path s h) in
      let assoc = append_assoc done ((e.raw_path, s) ∷ []) rest in
      (
        r',
        (e.raw_path, s) ∷ rest,
        rw (run_items, p) (q ∙ ap (λ (d : List (String × Status)). some (r', d)) assoc),
        subst (λ d. IsReportOf d r') assoc reported,
        ap (λ (ps : List String). e.raw_path ∷ ps) paths,
      )

-- When every failed extraction is a `DoclingError`, a run ends with a report, of one status for each
-- selected entry, in order. `processed` is the number of statuses, the other counters add up to it, and
-- `indexed`, `missing_file` and `failures` are the numbers of the statuses that they are for.
pub reingest_from_raw-reports :
    {W : Type 0} (env : Services W) (run_id : String) (m : Manifest) (max_docs : Option ℕ)
    (only : Option (List String)) (skip_shas : List String) (w : W)
    → ((path : String) (v : W) → (e : String) → ¬ ((env.convert path v).0 ≡ crashed e))
    → (r : ReingestReport) × (statuses : List (String × Status)) × ((reingest_from_raw env run_id m
          max_docs only skip_shas w).0
        ≡ some (r, statuses))
      × IsReportOf statuses r
      × (map (λ (x : String × Status). x.0) statuses
          ≡ map
              (λ (x : String × ManifestEntry). x.1.raw_path)
              (select_items max_docs only m.by_sha))
unfolding reingest_from_raw
reingest_from_raw-reports env run_id m max_docs only skip_shas w converts =
    run_items-report env converts run_id m skip_shas (select_items max_docs only m.by_sha) no_report
      [] w (refl, refl, refl, refl, refl)
