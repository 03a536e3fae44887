-- ===== src/Document/Base.antt =====
-- The metadata that `Manifest.base_for_sha` starts from.
use legal_system.Prelude.{
  String, Bool, false, Option, none, some, ◌≡◌, refl, sym, ap, subst, ◌∙◌, ◌⊎◌, inl, inr,
}
use legal_system.Manifest.{ManifestEntry, Manifest, entry_for_sha}
use legal_system.Document.{DocumentMetadata, base_for_sha, base_of}

none-ne-some : {A : Type 0} {a : A} → ¬ (none ≡ some a)
none-ne-some p = subst (λ o. elim o [ none ↦ Unit | some _ ↦ ⊥ ]) p tt

abbrev no_index_of : Option DocumentMetadata → Bool
no_index_of none = false
no_index_of (some base) = base.no_index

base_for_sha-some :
    (m : Manifest) (sha : String) (e : ManifestEntry)
    → entry_for_sha m (some sha) ≡ some e
    → base_for_sha m sha ≡ some (base_of e sha)
unfolding base_for_sha base_of
base_for_sha-some m sha e h = rw (base_for_sha, h) refl

base_for_sha-none :
    (m : Manifest) (sha : String) → entry_for_sha m (some sha) ≡ none → base_for_sha m sha ≡ none
unfolding base_for_sha
base_for_sha-none m sha h = rw (base_for_sha, h) refl

pub base_no_index :
    (m : Manifest) (sha : String) (e : ManifestEntry) (base : DocumentMetadata)
    → (entry_for_sha m (some sha) ≡ none) ⊎ (entry_for_sha m (some sha) ≡ some e)
    → base_for_sha m sha ≡ some base
    → base.no_index ≡ e.no_index
unfolding base_of
base_no_index m sha e base (inl h) found =
    absurd (none-ne-some (sym (base_for_sha-none m sha h) ∙ found))
base_no_index m sha e base (inr h) found = ap no_index_of (sym found ∙ base_for_sha-some m sha e h)
