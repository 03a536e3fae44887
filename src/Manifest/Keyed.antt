-- ===== src/Manifest/Keyed.antt =====
-- The keys of a manifest: `Manifest.__init__` writes them in lower case, each once.
use legal_system.Prelude.{
  String, none, some, [], ◌∷◌, ◌≡◌, sym, ap, ◌⊎◌, inl, inr, IsIn, arith, ◌∙◌,
}
use legal_system.Prelude.Text.{lower, lower_idem}
use legal_system.Prelude.Dict.{Dict, insert, IsUnique, insert-IsUnique, lookup-IsIn, IsIn-insert}
use legal_system.Manifest.{ManifestEntry, lower_keys, init, entry_for_sha}

abbrev IsLower : Dict ManifestEntry → Type 0
IsLower d = (k : String) (e : ManifestEntry) → IsIn (k, e) d → lower k ≡ k

lower_keys-IsUnique : (acc d : Dict ManifestEntry) → IsUnique acc → IsUnique (lower_keys acc d)
unfolding lower_keys
lower_keys-IsUnique acc [] h = h
lower_keys-IsUnique acc ((k, e) ∷ d) h =
    lower_keys-IsUnique (insert (lower k) e acc) d (insert-IsUnique (lower k) e acc h)

insert-IsLower :
    (k : String) (e : ManifestEntry) (d : Dict ManifestEntry)
    → IsLower d
    → IsLower (insert (lower k) e d)
insert-IsLower k e d h j f i = elim (IsIn-insert (j, f) (lower k) e d i) [
  | inl p ↦
      ap (λ (x : String × ManifestEntry). lower x.0) p
      ∙ lower_idem k
      ∙ sym (ap (λ (x : String × ManifestEntry). x.0) p)
  | inr q ↦ h j f q
]

lower_keys-IsLower : (acc d : Dict ManifestEntry) → IsLower acc → IsLower (lower_keys acc d)
unfolding lower_keys
lower_keys-IsLower acc [] h = h
lower_keys-IsLower acc ((k, e) ∷ d) h =
    lower_keys-IsLower (insert (lower k) e acc) d (insert-IsLower k e acc h)

-- An entry that the manifest lists under a hash is the one found by that hash, unless the hash is empty.
pub entry_for_sha-listed :
    (d : Dict ManifestEntry) (sha : String) (e : ManifestEntry)
    → IsIn (sha, e) (init d).by_sha
    → (entry_for_sha (init d) (some sha) ≡ none) ⊎ (entry_for_sha (init d) (some sha) ≡ some e)
unfolding init entry_for_sha
entry_for_sha-listed d sha e i = ground (
  arith,
  lower_keys-IsLower [] d (λ k f n. absurd n) sha e i,
  lookup-IsIn sha e (lower_keys [] d) (lower_keys-IsUnique [] d tt) i,
)
