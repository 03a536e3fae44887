-- ===== src/Reingest/Restricted.antt =====
-- migrate/reingest.py: which documents reach a sink. `P` is a property of the world and `Q` one of the
-- documents that a sink may be given.
use legal_system.Prelude.{
  ℕ, String, true, false, Option, none, some, List, [], ◌∷◌, contains, ◌≡◌, refl, subst, ◌∙◌, ◌⊎◌,
  inl, inr, Bool-cases, Option-cases, All, IsIn, all,
}
use legal_system.Prelude.Text.{truthy, strip}
use legal_system.Prelude.Dict.{Dict}
use legal_system.Prelude.Collect.{collect-at_most, IsIn-at_most}
use legal_system.Sidecar.{Problem}
use legal_system.Manifest.{ManifestEntry, Manifest, entry_for_sha, is_file, init}
use legal_system.Manifest.Keyed.{entry_for_sha-listed}
use legal_system.Document.{
  DocumentMetadata, EnrichmentResult, EnrichedDocument, SinkResult, assemble, base_for_sha,
  merge_enrichment,
}
use legal_system.Document.Base.{base_no_index}
use legal_system.Reingest.{
  Services, Sink, PipelineEvent, Attempt, returned, exception, Converted, markdown, docling_error,
  crashed, Status, emit_event, remove_stale, write_to_sinks, finish_write, finish_enrich,
  report_metadata_error, index_document, finish_convert, extract_file, process_one, run_items,
  reingest_from_raw, select_items, is_media, wanted, ReingestReport, no_report,
}

-- A sink keeps `P` when it is given what `Q` allows, and when it removes.
abbrev pub IsGuarded : {W : Type 0} → (W → Type 0) → (EnrichedDocument → Type 0) → Sink W → Type 0
IsGuarded P Q s =
    ((doc : EnrichedDocument) → Q doc → (w : _) → P w → P (s.write doc w).1)
    × ((remove : _)
        → s.remove_by_raw_path ≡ some remove
        → (path : String) → (w : _) → P w
        → P (remove path w).1)

Attempt-cases :
    {A : Type 0} (r : Attempt A) → ((a : A) × (r ≡ returned a)) ⊎ ((e : String) × (r ≡ exception e))
Attempt-cases (returned a) = inl (a, refl)
Attempt-cases (exception e) = inr (e, refl)

module _ {W : Type 0} (env : Services W) (P : W → Type 0) (Q : EnrichedDocument → Type 0)
    (emit_keeps : (send : PipelineEvent → W → W)
      → env.emit ≡ some send
      → (x : PipelineEvent) (w : W) → P w
      → P (send x w))
    (convert_keeps : (path : String) (w : W) → P w → P (env.convert path w).1)
    (enrich_keeps : (path content : String) (base : DocumentMetadata) (w : W)
      → P w
      → P (env.enrich path content base w).1)
    (sinks_keep : All (IsGuarded P Q) env.sinks) where
  emit_event-keeps : (x : PipelineEvent) (w : W) → P w → P (emit_event env x w)
  unfolding emit_event
  emit_event-keeps x w h = elim (Option-cases env.emit) [
    | inl e ↦ rw e h
    | inr (send, e) ↦ rw e (emit_keeps send e x w h)
  ]

  remove_stale-keeps :
      (path : String) (ss : List (Sink W))
      → All (IsGuarded P Q) ss
      → (w : W) → P w
      → P (remove_stale env path ss w)
  unfolding remove_stale
  remove_stale-keeps path [] a w h = h
  remove_stale-keeps path (s ∷ ss) a w h = elim (Option-cases s.remove_by_raw_path) [
    | inl e ↦ rw e (remove_stale-keeps path ss a.1 w h)
    | inr (remove, e) ↦
        rw e (remove_stale-keeps path ss a.1 (remove path w).1 (a.0.1 remove e path w h))
  ]

  write_to_sinks-keeps :
      (doc : EnrichedDocument)
      → Q doc
      → (ss : List (Sink W)) → All (IsGuarded P Q) ss
      → (w : W) → P w
      → P (write_to_sinks env doc ss w).1
  unfolding write_to_sinks
  write_to_sinks-keeps doc q [] a w h = h
  write_to_sinks-keeps doc q (s ∷ ss) a w h =
      let kept = a.0.0 doc q w h in
      elim (Attempt-cases (s.write doc w).0) [
        | inl (x, e) ↦
            rw (write_to_sinks, e) (write_to_sinks-keeps doc q ss a.1 (s.write doc w).1 kept)
        | inr (x, e) ↦ rw (write_to_sinks, e) kept
      ]

  finish_write-keeps :
      (run_id sha path : String) (r : Attempt (List SinkResult)) (w : W)
      → P w
      → P (finish_write env run_id sha path r w).1
  unfolding finish_write
  finish_write-keeps run_id sha path (exception e) w h = emit_event-keeps _ w h
  finish_write-keeps run_id sha path (returned results) w h =
      elim (Bool-cases (all (λ (r : SinkResult). r.ok) results)) [
        | inl e ↦ rw e (emit_event-keeps _ w h)
        | inr e ↦ rw e (emit_event-keeps _ w h)
      ]

  report_metadata_error-keeps :
      (run_id sha path : String) (ps : List Problem) (w : W)
      → P w
      → P (report_metadata_error env run_id sha path ps w)
  unfolding report_metadata_error
  report_metadata_error-keeps run_id sha path [] w h = h
  report_metadata_error-keeps run_id sha path (p ∷ ps) w h = emit_event-keeps _ w h

  finish_enrich-keeps :
      (run_id sha path content : String) (base : DocumentMetadata)
      → ((doc : EnrichedDocument)
          → doc.raw_path ≡ path
          → doc.metadata.no_index ≡ base.no_index
          → Q doc)
      → (r : Attempt EnrichmentResult) (w : W) → P w
      → P (finish_enrich env run_id sha path content base r w).1
  unfolding finish_enrich assemble merge_enrichment
  finish_enrich-keeps run_id sha path content base q (exception e) w h = emit_event-keeps _ w h
  finish_enrich-keeps run_id sha path content base q (returned r) w h =
      finish_write-keeps run_id sha path _ _
        (write_to_sinks-keeps _ (q _ refl refl) env.sinks sinks_keep w h)

  index_document-keeps :
      (run_id : String) (m : Manifest) (sha path content : String)
      → ((base : DocumentMetadata)
          → base_for_sha m sha ≡ some base
          → (doc : EnrichedDocument) → doc.raw_path ≡ path
          → doc.metadata.no_index ≡ base.no_index
          → Q doc)
      → (w : W) → P w
      → P (index_document env run_id m sha path content w).1
  unfolding index_document
  index_document-keeps run_id m sha path content q w h = elim (Option-cases (base_for_sha m sha)) [
    | inl e ↦ rw (index_document, e) (emit_event-keeps _ w h)
    | inr (base, e) ↦
        rw (index_document, e)
          (finish_enrich-keeps run_id sha path content base (q base e) _ _ (
            enrich_keeps path content _ _
              (report_metadata_error-keeps run_id sha path base.metadata_error w h)))
  ]

  finish_convert-keeps :
      (run_id : String) (m : Manifest) (sha path : String)
      → ((base : DocumentMetadata)
          → base_for_sha m sha ≡ some base
          → (doc : EnrichedDocument) → doc.raw_path ≡ path
          → doc.metadata.no_index ≡ base.no_index
          → Q doc)
      → (c : Converted) (w : W) → P w
      → P (finish_convert env run_id m sha path c w).1
  unfolding finish_convert
  finish_convert-keeps run_id m sha path q (crashed e) w h = h
  finish_convert-keeps run_id m sha path q (docling_error e) w h = emit_event-keeps _ w h
  finish_convert-keeps run_id m sha path q (markdown content) w h =
      elim (Bool-cases (truthy (strip content))) [
        | inl e ↦ rw e (index_document-keeps run_id m sha path content q w h)
        | inr e ↦ rw e (emit_event-keeps _ w h)
      ]

  -- What `process_one` may write of an entry `e` under `sha`.
  process_one-keeps :
      (run_id : String) (m : Manifest) (skip_shas : List String) (sha : String) (e : ManifestEntry)
      → (entry_for_sha m (some sha) ≡ none) ⊎ (entry_for_sha m (some sha) ≡ some e)
      → (contains skip_shas sha ≡ false
          → e.no_index ≡ false
          → is_media e.raw_path ≡ false
          → (doc : EnrichedDocument) → doc.raw_path ≡ e.raw_path
          → doc.metadata.no_index ≡ false
          → Q doc)
      → (w : W) → P w
      → P (process_one env run_id m skip_shas sha e w).1
  unfolding process_one extract_file
  process_one-keeps run_id m skip_shas sha e listed q w h =
      elim (Bool-cases (contains skip_shas sha)) [
        | inl a ↦ rw a h
        | inr a ↦ elim (Bool-cases e.no_index) [
          | inl b ↦ rw (a, b) (emit_event-keeps _ w h)
          | inr b ↦ elim (Bool-cases (is_media e.raw_path)) [
            | inl c ↦ rw (a, b, c) (emit_event-keeps _ w h)
            | inr c ↦ elim (Bool-cases (is_file env.raw e.raw_path)) [
              | inl d ↦
                  rw (a, b, c, d)
                    (finish_convert-keeps run_id m sha e.raw_path
                      (λ base found doc p n.
                        q a b c doc p (n ∙ base_no_index m sha e base listed found ∙ b))
                      _ _ (convert_keeps e.raw_path _ (emit_event-keeps _ w h)))
              | inr d ↦
                  rw (a, b, c, d)
                    (emit_event-keeps _ _ (remove_stale-keeps e.raw_path env.sinks sinks_keep w h))
            ]
          ]
        ]
      ]

  run_items-keeps :
      (run_id : String) (m : Manifest) (skip_shas : List String)
      (items : List (String × ManifestEntry))
      → ((sha : String) (e : ManifestEntry)
          → IsIn (sha, e) items
          → (entry_for_sha m (some sha) ≡ none) ⊎ (entry_for_sha m (some sha) ≡ some e))
      → ((sha : String) (e : ManifestEntry)
          → IsIn (sha, e) items
          → contains skip_shas sha ≡ false
          → e.no_index ≡ false
          → is_media e.raw_path ≡ false
          → (doc : EnrichedDocument) → doc.raw_path ≡ e.raw_path
          → doc.metadata.no_index ≡ false
          → Q doc)
      → (report : ReingestReport) (done : List (String × Status)) (w : W) → P w
      → P (run_items env run_id m skip_shas items report done w).1
  unfolding run_items
  run_items-keeps run_id m skip_shas [] listed q report done w h = h
  run_items-keeps run_id m skip_shas ((sha, e) ∷ items) listed q report done w h =
      let kept =
        process_one-keeps run_id m skip_shas sha e (listed sha e (inl refl)) (q sha e (inl refl)) w
          h in
      elim (Option-cases (process_one env run_id m skip_shas sha e w).0) [
        | inl p ↦ rw (run_items, p) kept
        | inr (s, p) ↦
            rw (run_items, p)
              (run_items-keeps run_id m skip_shas items (λ j f i. listed j f (inr i))
                (λ j f i. q j f (inr i)) _ _ _ kept)
      ]

IsIn-select_items :
    (sha : String) (e : ManifestEntry) (max_docs : Option ℕ) (only : Option (List String))
    (d : Dict ManifestEntry)
    → IsIn (sha, e) (select_items max_docs only d)
    → IsIn (sha, e) d × (wanted only e ≡ true)
unfolding select_items
IsIn-select_items sha e max_docs only d i =
    IsIn-at_most (sha, e) (λ (x : String × ManifestEntry). wanted only x.1) max_docs d
      (subst (IsIn (sha, e))
        (collect-at_most (λ (x : String × ManifestEntry). wanted only x.1) max_docs d) i)

-- A document that a run on this manifest may write: it is made of an entry that the run was asked for,
-- that is not indexed yet, not restricted and no medium, and its own metadata are not restricted either.
abbrev pub IsAllowed : Manifest → Option (List String) → List String → EnrichedDocument → Type 0
IsAllowed m only skip_shas doc =
    (sha : String) × (e : ManifestEntry) × IsIn (sha, e) m.by_sha
    × (wanted only e ≡ true)
    × (contains skip_shas sha ≡ false)
    × (e.no_index ≡ false)
    × (is_media e.raw_path ≡ false)
    × (doc.raw_path ≡ e.raw_path)
    × (doc.metadata.no_index ≡ false)

-- A run keeps every property `P` of the world that events, the extraction and the enrichment keep, and
-- that each sink keeps when it removes a path or is given an allowed document: nothing else is written.
pub reingest_from_raw-writes_allowed :
    {W : Type 0} (env : Services W) (P : W → Type 0) (d : Dict ManifestEntry) (run_id : String)
    (max_docs : Option ℕ) (only : Option (List String)) (skip_shas : List String) (w : W)
    → ((send : PipelineEvent → W → W)
        → env.emit ≡ some send
        → (x : PipelineEvent) (v : W) → P v
        → P (send x v))
    → ((path : String) (v : W) → P v → P (env.convert path v).1)
    → ((path content : String) (base : DocumentMetadata) (v : W)
        → P v
        → P (env.enrich path content base v).1)
    → All (IsGuarded P (IsAllowed (init d) only skip_shas)) env.sinks
    → P w
    → P (reingest_from_raw env run_id (init d) max_docs only skip_shas w).1
unfolding reingest_from_raw
reingest_from_raw-writes_allowed env P d run_id max_docs only skip_shas w emits converts enriches
      sinks h =
    run_items-keeps env P (IsAllowed (init d) only skip_shas) emits converts enriches sinks run_id
      (init d) skip_shas (select_items max_docs only (init d).by_sha)
      (λ sha e i.
        entry_for_sha-listed d sha e (IsIn-select_items sha e max_docs only (init d).by_sha i).0)
      (λ sha e i a b c doc p n.
        let found = IsIn-select_items sha e max_docs only (init d).by_sha i in
        (sha, e, found.0, found.1, a, b, c, p, n))
      no_report [] w h
