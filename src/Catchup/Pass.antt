-- ===== src/Catchup/Pass.antt =====
-- ingest/catchup.py: what a whole pass writes, and what it reports.
use legal_system.Prelude.{
  ℕ, String, Bool, true, false, ◌||◌, ◌==◌, Option, none, some, List, [], ◌∷◌, map, contains, ◌≡◌,
  refl, sym, ◌∙◌, subst, inl, inr, arith, IsIn, All, Bool-cases,
}
use legal_system.Prelude.Dict.{Dict}
use legal_system.Exclusion.{ExclusionRegistry, match, excludes, entry_for_sha}
use legal_system.Allowlist.{Allowlist}
use legal_system.Manifest.{ManifestEntry, Manifest, init}
use legal_system.Document.{DocumentMetadata, EnrichedDocument}
use legal_system.Reingest.{Services, Sink, PipelineEvent, is_media}
use legal_system.Reingest.Restricted.{IsGuarded, IsAllowed, reingest_from_raw-writes_allowed}
use legal_system.Catchup.{
  match_entry, excludes_entry, select_pending, Refreshing, refresh_provenance,
}
use legal_system.Catchup.Run.{process_pending, finish_catchup, run_catchup}
use legal_system.Catchup.Select.{select_pending-eligible}

-- Outside the registry's paths, not restricted and no medium.
abbrev pub IsUnrestricted : ExclusionRegistry → EnrichedDocument → Type 0
IsUnrestricted registry doc =
    (excludes registry (some doc.raw_path) none ≡ false)
    × (doc.metadata.no_index ≡ false)
    × (is_media doc.raw_path ≡ false)

excludes_entry-path :
    (r : ExclusionRegistry) (e : ManifestEntry)
    → excludes_entry r e ≡ false
    → excludes r (some e.raw_path) none ≡ false
unfolding match_entry excludes match entry_for_sha
excludes_entry-path r e h = ground (arith, h)

==_sound : (s t : String) → (s == t) ≡ true → s ≡ t
==_sound s t h = ground (arith, h)

rest_contains : {b c : Bool} → b ≡ false → (b || c) ≡ true → c ≡ true
rest_contains e h = ground (arith, e, h)

contains-map :
    {A : Type 0} (f : A → String) (s : String) (xs : List A)
    → contains (map f xs) s ≡ true
    → (a : A) × IsIn a xs × (f a ≡ s)
contains-map f s [] h = ground (arith, h)
contains-map f s (x ∷ xs) h = elim (Bool-cases (f x == s)) [
  | inl e ↦ (x, inl refl, ==_sound (f x) s e)
  | inr e ↦ let (a, i, p) = contains-map f s xs (rest_contains e h) in (a, inr i, p)
]

pub IsGuarded-weaken :
    {W : Type 0} (P : W → Type 0) (Q R : EnrichedDocument → Type 0) (ss : List (Sink W))
    → ((doc : EnrichedDocument) → R doc → Q doc)
    → All (IsGuarded P Q) ss
    → All (IsGuarded P R) ss
IsGuarded-weaken P Q R [] r a = tt
IsGuarded-weaken P Q R (s ∷ ss) r a =
    ((λ doc d. a.0.0 doc (r doc d), a.0.1), IsGuarded-weaken P Q R ss r a.1)

module _ {W : Type 0} (env : Services W) (P : W → Type 0) (registry : ExclusionRegistry)
    (emits : (send : PipelineEvent → W → W)
      → env.emit ≡ some send
      → (x : PipelineEvent) (v : W) → P v
      → P (send x v))
    (converts : (path : String) (v : W) → P v → P (env.convert path v).1)
    (enriches : (path content : String) (base : DocumentMetadata) (v : W)
      → P v
      → P (env.enrich path content base v).1)
    (sinks : All (IsGuarded P (IsUnrestricted registry)) env.sinks) where
  -- The entries that stand behind a work list are free.
  abbrev IsFree : ManifestEntry → Type 0
  IsFree e = excludes_entry registry e ≡ false

  IsAllowed-IsUnrestricted :
      (m : Manifest) (pending : List (String × ManifestEntry)) (skip : List String)
      → ((sha : String) (e : ManifestEntry) → IsIn (sha, e) pending → IsFree e)
      → (doc : EnrichedDocument)
      → IsAllowed m (some (map (λ (y : String × ManifestEntry). y.1.raw_path) pending)) skip doc
      → IsUnrestricted registry doc
  IsAllowed-IsUnrestricted m pending skip free doc
        (sha, e, listed, asked, new, open_entry, text_file, path, open_doc) =
      let ((sha', e'), i, same) =
        contains-map (λ (y : String × ManifestEntry). y.1.raw_path) e.raw_path pending asked in
      (
        subst (λ q. excludes registry (some q) none ≡ false) (same ∙ sym path)
            (excludes_entry-path registry e' (free sha' e' i)),
        open_doc,
        subst (λ q. is_media q ≡ false) (sym path) text_file,
      )

  process_pending-keeps :
      (run_id : String) (d : Dict ManifestEntry) (pending : List (String × ManifestEntry))
      (skip : List String) (w : W)
      → ((sha : String) (e : ManifestEntry) → IsIn (sha, e) pending → IsFree e)
      → P w
      → P (process_pending env run_id (init d) pending skip w).1
  unfolding process_pending
  process_pending-keeps run_id d [] skip w free h = h
  process_pending-keeps run_id d (x ∷ xs) skip w free h =
      let only = map (λ (y : String × ManifestEntry). y.1.raw_path) (x ∷ xs) in
      reingest_from_raw-writes_allowed env P d run_id none (some only) skip w emits converts
        enriches
        (IsGuarded-weaken P (IsUnrestricted registry) (IsAllowed (init d) (some only) skip)
          env.sinks (IsAllowed-IsUnrestricted (init d) (x ∷ xs) skip free) sinks)
        h

  finish_catchup-keeps :
      (run_id : String) (manifest_file : Option (Dict ManifestEntry))
      (already_indexed : W → List String) (batch : ℕ) (refresh : Option Refreshing) (w : W)
      → P w
      → P (finish_catchup env run_id manifest_file already_indexed batch registry refresh w).world
  unfolding finish_catchup
  finish_catchup-keeps run_id manifest_file already_indexed batch none w h = h
  finish_catchup-keeps run_id manifest_file already_indexed batch (some refresh) w h =
      process_pending-keeps run_id refresh.existing
        (select_pending (init refresh.existing) (already_indexed w) batch [] (some registry)
          (some env.raw))
        (already_indexed w) w
        (λ sha e i.
          (select_pending-eligible (init refresh.existing) (already_indexed w) batch [] registry
            env.raw sha e i).2)
        h

-- A pass keeps every property `P` of the world that events, the extraction and the enrichment keep, and
-- that each sink keeps when it removes a path or is given an unrestricted document: no document under a
-- path of the registry, no restricted document and no medium is given to a sink.
pub run_catchup-writes_unrestricted :
    {W : Type 0} (env : Services W) (P : W → Type 0) (registry : ExclusionRegistry)
    (allow : Allowlist) (manifest_file : Option (Dict ManifestEntry))
    (already_indexed : W → List String) (batch : ℕ) (with_commit : Bool) (prefix : String) (w : W)
    → ((send : PipelineEvent → W → W)
        → env.emit ≡ some send
        → (x : PipelineEvent) (v : W) → P v
        → P (send x v))
    → ((path : String) (v : W) → P v → P (env.convert path v).1)
    → ((path content : String) (base : DocumentMetadata) (v : W)
        → P v
        → P (env.enrich path content base v).1)
    → All (IsGuarded P (IsUnrestricted registry)) env.sinks
    → P w
    → P
        (run_catchup env allow manifest_file already_indexed batch with_commit prefix registry
          w).world
unfolding run_catchup
run_catchup-writes_unrestricted env P registry allow manifest_file already_indexed batch with_commit
      prefix w emits converts enriches sinks h =
    finish_catchup-keeps env P registry emits converts enriches sinks _ manifest_file
      already_indexed batch (refresh_provenance env.raw allow manifest_file with_commit) w h
