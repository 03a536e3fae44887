-- ===== src/Indexer/Refusal.antt =====
-- sinks/elasticsearch_indexer.py: whoever calls it, the indexer does not index what is excluded.
use legal_system.Prelude.{
  ℕ, String, Bool, true, false, ◌||◌, Option, none, some, ◌≡◌, refl, sym, ◌∙◌, ap, subst, ◌⊎◌, inl,
  inr, ◌==◌, string_dec, Option-cases, is_some, arith, if◌then◌else◌,
}
use legal_system.Prelude.Text.{strip}
use legal_system.Data.{opt_or}
use legal_system.Sidecar.{legally_obligatory, housekeeping}
use legal_system.Exclusion.{ExclusionRegistry, match, excludes}
use legal_system.Document.{EnrichedDocument, SinkResult}
use legal_system.Reingest.Restricted.{IsGuarded}
use legal_system.Indexer.{
  ElasticsearchIndexer, refusal, refusal_of, write, write_unless, written_result,
  remove_by_raw_path, as_sink, BlockedReingest, severity_for_category, normalise_category,
  blocked_reingest, incident, noise,
}

-- The document must not be indexed.
abbrev pub is_barred : ExclusionRegistry → EnrichedDocument → Bool
is_barred registry doc =
    excludes registry (some doc.raw_path) doc.metadata.raw_sha256 || doc.metadata.no_index

module _ {W : Type 0} (ix : ElasticsearchIndexer W) (doc : EnrichedDocument) (w : W) where
  is_some-refusal : is_some (refusal ix doc) ≡ is_barred ix.registry doc
  unfolding refusal refusal_of excludes
  is_some-refusal =
      elim (Option-cases (match ix.registry (some doc.raw_path) doc.metadata.raw_sha256)) [
        | inl e ↦ rw e (ground arith)
        | inr (x, e) ↦ rw e refl
      ]

  -- A barred document is refused: the result is a failure, and the only thing that happens is one alert
  -- that names its path. Any other document is given to the client, and nothing else happens.
  pub write_lem :
      (((is_barred ix.registry doc ≡ true)
          × ((write ix doc w).0.ok ≡ false)
          × (a : BlockedReingest) × (a.raw_path ≡ doc.raw_path)
          × ((write ix doc w).1 ≡ ix.client.alert a w))
        ⊎ ((is_barred ix.registry doc ≡ false)
            × ((write ix doc w)
                ≡ (written_result ix (ix.client.index doc w).0, (ix.client.index doc w).1))))
  unfolding write write_unless blocked_reingest
  write_lem = elim (Option-cases (refusal ix doc)) [
    | inl e ↦ rw e (
        inr (
          sym is_some-refusal ∙ ap (λ (o : Option (String × String × Option String)). is_some o) e,
          refl,
        ))
    | inr ((reason, detail, category), e) ↦ rw e (
        inl (
          sym is_some-refusal ∙ ap (λ (o : Option (String × String × Option String)). is_some o) e,
          refl,
          _,
          refl,
          refl,
        ))
  ]

abbrev removed : {W : Type 0} → Option (String → W → ℕ × W) → String → W → W
removed none path w = w
removed (some remove) path w = (remove path w).1

-- Without any selection before it: an indexer keeps every property `P` of the world that alerts and
-- deletions keep, and that its client keeps when it is given a document that is not barred.
pub as_sink-IsGuarded :
    {W : Type 0} (ix : ElasticsearchIndexer W) (P : W → Type 0)
    → ((a : BlockedReingest) (w : W) → P w → P (ix.client.alert a w))
    → ((path : String) (w : W) → P w → P (ix.client.delete_by_path path w).1)
    → ((doc : EnrichedDocument) (w : W)
        → is_barred ix.registry doc ≡ false
        → P w
        → P (ix.client.index doc w).1)
    → IsGuarded P (λ doc. Unit) (as_sink ix)
unfolding as_sink remove_by_raw_path
as_sink-IsGuarded ix P alerts deletes indexes = (
  (λ doc u w h. elim (write_lem ix doc w) [
    | inl (barred, failed, a, path, p) ↦ subst P (sym p) (alerts a w h)
    | inr (free, p) ↦ subst P (sym (ap (λ (x : SinkResult × _). x.1) p)) (indexes doc w free h)
  ]),
  λ remove p path w h. subst P (ap (λ o. removed o path w) p) (deletes path w h),
)

classes_differ : (legally_obligatory == housekeeping) ≡ false
unfolding string_dec
classes_differ = refl

-- An alert is noise only if the category, without the blank space around it, is `housekeeping`; in every
-- other case, a missing or unknown one included, it is an incident.
pub severity_for_category_lem :
    (category : Option String)
    → severity_for_category category
      ≡ (if strip (opt_or "" category) == housekeeping then noise else incident)
unfolding severity_for_category normalise_category
severity_for_category_lem category = ground (arith, classes_differ)
