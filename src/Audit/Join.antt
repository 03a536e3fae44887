-- ===== src/Audit/Join.antt =====
-- observability/reconcile.py: what the join and the search for orphans find.
use legal_system.Prelude.{
  ◌+◌, String, Bool, true, false, not, List, [], ◌∷◌, filter, length, length-filter, count_if,
  count_if-add-not, is_some, ◌≡◌, ◌⊎◌, ◌↔◌, inl, inr, refl, sym, ap, ap, ◌∙◌, subst, arith, IsIn,
  IsIn-filter, Bool-cases,
}
use legal_system.Prelude.Dict.{Dict, lookup, has_key, keys}
use legal_system.Prelude.Sort.{sort_by, text_le, sort_by-IsIn, sort_by-count_if}
use legal_system.Audit.{
  ExpectedEntry, ReconciliationReport, OrphanEntry, indexed_orphans, path_le, orphans_of,
  find_orphans, outside, inside, reconcile,
}

IsIn-keys : {V : Type 0} (k : String) (d : Dict V) → IsIn k (keys d) ↔ (has_key k d ≡ true)
unfolding lookup
IsIn-keys k [] = ground arith
IsIn-keys k ((j, v) ∷ d) = ground (arith, IsIn-keys k d)

outside_lem :
    {V : Type 0} (p : String) (paths : List String) (d : Dict V)
    → IsIn p (outside paths d) ↔ (IsIn p paths × (has_key p d ≡ false))
unfolding outside
outside_lem p paths d = ground (
  arith,
  sort_by-IsIn text_le p (filter (λ q. not (has_key q d)) paths),
  IsIn-filter p (λ q. not (has_key q d)) paths,
)

inside_lem :
    {V : Type 0} (p : String) (paths : List String) (d : Dict V)
    → IsIn p (inside paths d) ↔ (IsIn p paths × (has_key p d ≡ true))
unfolding inside
inside_lem p paths d = ground (
  arith,
  sort_by-IsIn text_le p (filter (λ q. has_key q d) paths),
  IsIn-filter p (λ q. has_key q d) paths,
)

IsIn-key :
    (k : String) (entry : ExpectedEntry) (d : Dict ExpectedEntry)
    → IsIn (k, entry) d
    → IsIn k (keys d)
IsIn-key k entry ((j, v) ∷ d) (inl e) = inl (ap (λ (y : String × ExpectedEntry). y.0) e)
IsIn-key k entry ((j, v) ∷ d) (inr i) = inr (IsIn-key k entry d i)
IsIn-key k entry [] i = absurd i

-- A path that both hold, that only the manifest holds, and that only the index holds.
abbrev pub IsJoin : Dict ExpectedEntry → Dict String → ReconciliationReport → Type 0
IsJoin expected indexed r =
    ((p : String) → IsIn p r.matched ↔ ((has_key p expected ≡ true) × (has_key p indexed ≡ true)))
    × ((p : String)
        → IsIn p r.missing ↔ ((has_key p expected ≡ true) × (has_key p indexed ≡ false)))
    × ((p : String) → IsIn p r.extra ↔ ((has_key p indexed ≡ true) × (has_key p expected ≡ false)))
    × (length r.matched + length r.missing ≡ r.expected_count)

count_all : (xs : List String) → count_if (λ x. true) xs ≡ length xs
count_all [] = refl
count_all (x ∷ xs) = ground (arith, count_all xs)

length-sort_by : (xs : List String) → length (sort_by text_le xs) ≡ length xs
length-sort_by xs =
    sym (count_all (sort_by text_le xs)) ∙ sort_by-count_if text_le (λ x. true) xs ∙ count_all xs

length-keys : (expected : Dict ExpectedEntry) → length (keys expected) ≡ length expected
length-keys [] = refl
length-keys (x ∷ expected) = ground (arith, length-keys expected)

lengths :
    (paths : List String) (d : Dict String)
    → length (inside paths d) + length (outside paths d) ≡ length paths
unfolding inside outside
lengths paths d = omega (
  arith,
  length-sort_by (filter (λ p. has_key p d) paths),
  length-sort_by (filter (λ p. not (has_key p d)) paths),
  length-filter (λ p. has_key p d) paths,
  length-filter (λ p. not (has_key p d)) paths,
  count_if-add-not (λ p. has_key p d) paths,
)

reconcile-IsJoin :
    (expected : Dict ExpectedEntry) (indexed : Dict String)
    → IsJoin expected indexed (reconcile expected indexed)
unfolding reconcile
reconcile-IsJoin expected indexed = (
  λ p. ground (arith, inside_lem p (keys expected) indexed, IsIn-keys p expected),
  λ p. ground (arith, outside_lem p (keys expected) indexed, IsIn-keys p expected),
  λ p. ground (arith, outside_lem p (keys indexed) expected, IsIn-keys p indexed),
  lengths (keys expected) indexed ∙ length-keys expected,
)

-- The orphan that an entry of the manifest makes.
abbrev pub orphan : Dict String → String → ExpectedEntry → OrphanEntry
orphan indexed rp entry = record {
  raw_path = rp;
  sha256 = entry.sha256;
  doc_id = lookup rp indexed;
}

-- The entry of the manifest has no file, and says what the index has under its path.
abbrev pub IsOrphan :
    Dict ExpectedEntry → (is_file : String → Bool) → (indexed : Dict String) → OrphanEntry → Type 0
IsOrphan expected is_file indexed o =
    (entry : ExpectedEntry) × IsIn (o.raw_path, entry) expected
    × (is_file o.raw_path ≡ false)
    × (o ≡ orphan indexed o.raw_path entry)

module _ (is_file : String → Bool) (indexed : Dict String) where
  orphans_of-IsOrphan :
      (o : OrphanEntry) (expected : Dict ExpectedEntry)
      → IsIn o (orphans_of is_file indexed expected)
      → IsOrphan expected is_file indexed o
  unfolding orphans_of
  orphans_of-IsOrphan o [] i = absurd i
  orphans_of-IsOrphan o ((rp, entry) ∷ expected) i = elim (Bool-cases (is_file rp)) [
    | inl e ↦ let (x, j, f, s) = orphans_of-IsOrphan o expected (ground arith) in (x, inr j, f, s)
    | inr e ↦ elim (split_head e i) [
      | inl q ↦ (
        entry,
        inl (ap (λ (y : OrphanEntry). (y.raw_path, entry)) q),
        ap (λ (y : OrphanEntry). is_file y.raw_path) q ∙ e,
        q ∙ ap (λ (y : OrphanEntry). orphan indexed y.raw_path entry) (sym q),
      )
      | inr i' ↦ let (x, j, f, s) = orphans_of-IsOrphan o expected i' in (x, inr j, f, s)
    ]
  ]
    where
      split_head :
          is_file rp ≡ false
          → IsIn o (orphans_of is_file indexed ((rp, entry) ∷ expected))
          → (o ≡ orphan indexed rp entry) ⊎ IsIn o (orphans_of is_file indexed expected)
      split_head e j = ground arith

  IsIn-orphans_of :
      (rp : String) (entry : ExpectedEntry) (expected : Dict ExpectedEntry)
      → IsIn (rp, entry) expected
      → is_file rp ≡ false
      → IsIn (orphan indexed rp entry) (orphans_of is_file indexed expected)
  unfolding orphans_of
  IsIn-orphans_of rp entry ((q, x) ∷ expected) (inl e) f =
      let g = ap (λ (y : String × ExpectedEntry). is_file y.0) (sym e) ∙ f in
      rw g (inl (ap (λ (y : String × ExpectedEntry). orphan indexed y.0 y.1) e))
  IsIn-orphans_of rp entry ((q, x) ∷ expected) (inr i) f =
      let rest = IsIn-orphans_of rp entry expected i f in
      elim (Bool-cases (is_file q)) [ inl e ↦ rw e rest | inr e ↦ rw e (inr rest) ]
  IsIn-orphans_of rp entry [] i f = absurd i

-- The join is right: the matched, missing and extra paths are those that both the manifest and the index
-- have, only the manifest has, and only the index has; matched and missing together are as many as
-- the manifest has entries. The orphans are exactly the entries of the manifest that have no file in
-- the tree, and every one that the index still has is a matched path, so the join reports none of
-- them.
pub reconcile-find_orphans :
    (expected : Dict ExpectedEntry) (indexed : Dict String) (is_file : String → Bool)
    → IsJoin expected indexed (reconcile expected indexed)
      × ((o : OrphanEntry)
          → IsIn o (find_orphans expected is_file indexed).orphans
            ↔ IsOrphan expected is_file indexed o)
      × ((o : OrphanEntry)
          → IsIn o (indexed_orphans (find_orphans expected is_file indexed))
          → IsIn o.raw_path (reconcile expected indexed).matched)
unfolding find_orphans
reconcile-find_orphans expected indexed is_file =
    let sorted_entries = sort_by path_le expected in
    let join = reconcile-IsJoin expected indexed in
    let only : (o : OrphanEntry)
        → IsIn o (orphans_of is_file indexed sorted_entries)
        → IsOrphan expected is_file indexed o =
      λ o i.
        let (entry, j, f, q) = orphans_of-IsOrphan is_file indexed o sorted_entries i in
        (entry, (sort_by-IsIn path_le (o.raw_path, entry) expected).0 j, f, q) in
    (
      join,
      λ o. (
        only o,
        λ (entry, j, f, q).
            subst (λ x. IsIn x (orphans_of is_file indexed sorted_entries)) (sym q)
              (IsIn-orphans_of is_file indexed o.raw_path entry sorted_entries
                ((sort_by-IsIn path_le (o.raw_path, entry) expected).1 j) f),
      ),
      λ o i.
          let (k, present) =
            (IsIn-filter o (λ (x : OrphanEntry). is_some x.doc_id)
                (orphans_of is_file indexed sorted_entries)).0
              i in
          let (entry, j, f, q) = only o k in
          (join.0 o.raw_path).1 (
            (IsIn-keys o.raw_path expected).0 (IsIn-key o.raw_path entry expected j),
            sym (ap (λ (x : OrphanEntry). is_some x.doc_id) q) ∙ present,
          ),
    )
