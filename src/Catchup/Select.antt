-- ===== src/Catchup/Select.antt =====
-- ingest/catchup.py: what `select_pending` selects, and that no entry of the manifest goes uncounted.
use legal_system.Prelude.{
  ℕ, ◌+◌, min, max, String, true, false, not, ◌&&◌, Option, some, List, [], ◌∷◌, contains, length,
  take, filter, count_if, ◌≡◌, refl, ◌∙◌, ap, subst, arith, IsIn, length-filter, length-take,
  if◌then◌else◌,
}
use legal_system.Prelude.Collect.{collect-at_most, IsIn-at_most}
use legal_system.Prelude.Dict.{Dict}
use legal_system.Exclusion.{ExclusionRegistry}
use legal_system.Manifest.{Raw, ManifestEntry, Manifest}
use legal_system.Reingest.{is_media}
use legal_system.Catchup.{
  excludes_entry, entry_is_ingestable, source_is_present, is_pending, select_pending, count_pending,
  count_missing_source, blocked_from,
}

-- The selection is the first pending entries of the manifest in its order, `max 1 batch` of them at most;
-- it is as long as that bound and the number of pending entries allow.
pub select_pending-take :
    (m : Manifest) (skip : List String) (batch : ℕ) (non_indexable : List String)
    (registry : Option ExclusionRegistry) (raw_root : Option Raw)
    → (select_pending m skip batch non_indexable registry raw_root
        ≡ take
            (max 1 batch)
            (filter (λ x. is_pending skip non_indexable registry raw_root x.0 x.1) m.by_sha))
      × (length (select_pending m skip batch non_indexable registry raw_root)
          ≡ min (max 1 batch) (count_pending m skip non_indexable registry raw_root))
unfolding select_pending count_pending
select_pending-take m skip batch non_indexable registry raw_root =
    let p =
      λ (x : String × ManifestEntry). is_pending skip non_indexable registry raw_root x.0 x.1 in
    let e = collect-at_most p (some batch) m.by_sha in
    (
      e,
      ap length e
          ∙ length-take (max 1 batch) (filter p m.by_sha)
          ∙ ap (min (max 1 batch)) (length-filter p m.by_sha),
    )

is_pending-true :
    (skip non_indexable : List String) (registry : ExclusionRegistry) (raw : Raw) (sha : String)
    (e : ManifestEntry)
    → is_pending skip non_indexable (some registry) (some raw) sha e ≡ true
    → (contains skip sha ≡ false)
      × (excludes_entry registry e ≡ false)
      × (e.no_index ≡ false)
      × (is_media e.raw_path ≡ false)
      × (source_is_present e raw ≡ true)
unfolding is_pending entry_is_ingestable
is_pending-true skip non_indexable registry raw sha e h = ground (arith, h)

-- An entry that a pass selects is one of the manifest, is not indexed yet, is not excluded by the
-- registry, not restricted and no medium, and its source is there.
pub select_pending-eligible :
    (m : Manifest) (skip : List String) (batch : ℕ) (non_indexable : List String)
    (registry : ExclusionRegistry) (raw : Raw) (sha : String) (e : ManifestEntry)
    → IsIn (sha, e) (select_pending m skip batch non_indexable (some registry) (some raw))
    → IsIn (sha, e) m.by_sha
      × (contains skip sha ≡ false)
      × (excludes_entry registry e ≡ false)
      × (e.no_index ≡ false)
      × (is_media e.raw_path ≡ false)
      × (source_is_present e raw ≡ true)
unfolding select_pending
select_pending-eligible m skip batch non_indexable registry raw sha e i =
    let p = λ (x : String × ManifestEntry).
      is_pending skip non_indexable (some registry) (some raw) x.0 x.1 in
    let (listed, passes) =
      IsIn-at_most (sha, e) p (some batch) m.by_sha
        (subst (IsIn (sha, e)) (collect-at_most p (some batch) m.by_sha) i) in
    let (a, b, c, d, f) = is_pending-true skip non_indexable registry raw sha e passes in
    (listed, a, b, c, d, f)

count_if-partition :
    (skip : List String) (registry : Option ExclusionRegistry) (raw : Raw) (d : Dict ManifestEntry)
    → count_if (λ x. contains skip x.0) d
        + count_if (λ x. is_pending skip [] registry (some raw) x.0 x.1) d
        + count_if
            (λ x.
              if contains skip x.0
              then false
              else if entry_is_ingestable x.1 registry
              then not (source_is_present x.1 raw)
              else false)
            d
        + count_if (λ x. not (contains skip x.0) && not (entry_is_ingestable x.1 registry)) d
      ≡ length d
unfolding is_pending
count_if-partition skip registry raw [] = omega arith
count_if-partition skip registry raw ((sha, e) ∷ d) =
    ground (arith, count_if-partition skip registry raw d)

-- Each entry of the manifest is counted once: as indexed already, as pending, as one whose source is
-- gone, or as one that is not to be indexed.
pub count_pending-partition :
    (m : Manifest) (skip : List String) (registry : Option ExclusionRegistry) (raw : Raw)
    → count_if (λ x. contains skip x.0) m.by_sha
        + count_pending m skip [] registry (some raw)
        + count_missing_source m skip raw registry
        + count_if (λ x. not (contains skip x.0) && not (entry_is_ingestable x.1 registry)) m.by_sha
      ≡ length m.by_sha
unfolding count_pending count_missing_source
count_pending-partition m skip registry raw = count_if-partition skip registry raw m.by_sha

blocked_from-count :
    (skip : List String) (registry : ExclusionRegistry) (d : Dict ManifestEntry)
    → length (blocked_from skip registry d)
      ≡ count_if
          (λ x.
            not (contains skip x.0) && (not (is_media x.1.raw_path) && excludes_entry registry x.1))
          d
unfolding blocked_from
blocked_from-count skip registry [] = refl
blocked_from-count skip registry ((sha, e) ∷ d) = ground (arith, blocked_from-count skip registry d)
