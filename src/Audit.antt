-- ===== src/Audit.antt =====
-- observability/reconcile.py: the manifest, the index and the tree against each other.
pub mod Join
use legal_system.Prelude.{
  ℕ, ◌+◌, String, Bool, true, false, not, ◌&&◌, Option, none, some, List, [], ◌∷◌, ◌++◌, map,
  filter, length, leb, is_some, if◌then◌else◌,
}
use legal_system.Prelude.Text.{truthy}
use legal_system.Prelude.Dict.{Dict, lookup, insert, has_key, keys}
use legal_system.Prelude.Sort.{sort_by, text_le}

-- What is read of an entry of the manifest.
pub record ExpectedEntry : Type 0 where
  pub sha256 : String
  pub raw_path : String
  pub matters : List String

pub record ReconciliationReport : Type 0 where
  pub expected_count : ℕ
  pub actual_count : ℕ
  pub matched : List String
  pub missing : List String
  pub extra : List String
  pub missing_by_matter : Dict ℕ

-- `ReconciliationReport.complete`
abbrev pub complete : ReconciliationReport → Bool
complete r = elim r.missing [ [] ↦ true | _ ∷ _ ↦ false ]

pub record OrphanEntry : Type 0 where
  pub raw_path : String
  pub sha256 : String
  pub doc_id : Option String

pub record OrphanReport : Type 0 where
  pub checked : ℕ
  pub orphans : List OrphanEntry

-- `OrphanReport.indexed_orphans`
abbrev pub indexed_orphans : OrphanReport → List OrphanEntry
indexed_orphans r = filter (λ (o : OrphanEntry). is_some o.doc_id) r.orphans

abbrev pub path_le : {V : Type 0} → String × V → String × V → Bool
path_le x y = text_le x.0 y.0

-- The loop over the sorted entries; `is_file` asks the tree.
unfoldable pub orphans_of :
    (is_file : String → Bool) → (indexed : Dict String) → Dict ExpectedEntry → List OrphanEntry
unfolding lookup
orphans_of is_file indexed [] = []
orphans_of is_file indexed ((rp, entry) ∷ rest) =
    let more = orphans_of is_file indexed rest in
    if is_file rp
    then more
    else record { raw_path = rp; sha256 = entry.sha256; doc_id = lookup rp indexed } ∷ more

unfoldable pub find_orphans :
    Dict ExpectedEntry → (is_file : String → Bool) → (indexed : Dict String) → OrphanReport
unfolding orphans_of sort_by
find_orphans expected is_file indexed = record {
  checked = length expected;
  orphans = orphans_of is_file indexed (sort_by path_le expected);
}

-- What a hit of the search carries.
pub record Hit : Type 0 where
  pub id : String
  pub raw_path : Option String
  pub doc_id : Option String

or_id : Option String → String → String
or_id none id = id
or_id (some d) id = d

add_hit : Option String → String → Dict String → Dict String
unfolding insert
add_hit none doc_id out = out
add_hit (some rp) doc_id out = if truthy rp then insert rp doc_id out else out

unfoldable pub indexed_from : Dict String → List Hit → Dict String
unfolding add_hit or_id
indexed_from out [] = out
indexed_from out (h ∷ hits) = indexed_from (add_hit h.raw_path (or_id h.doc_id h.id) out) hits

-- `all_indexed_raw_paths` on the hits that the client returns.
unfoldable pub all_indexed_raw_paths : List Hit → Dict String
unfolding indexed_from
all_indexed_raw_paths hits = indexed_from [] hits

-- `entry.get("matters") or ["(none)"]`
matters_of : Option ExpectedEntry → List String
matters_of none = "(none)" ∷ []
matters_of (some entry) = elim entry.matters [ [] ↦ "(none)" ∷ [] | m ∷ ms ↦ m ∷ ms ]

or_zero : Option ℕ → ℕ
or_zero none = 0
or_zero (some n) = n

unfoldable pub count_matters : List String → Dict ℕ → Dict ℕ
unfolding insert lookup or_zero
count_matters [] counts = counts
count_matters (m ∷ ms) counts = count_matters ms (insert m (or_zero (lookup m counts) + 1) counts)

unfoldable pub count_missing : Dict ExpectedEntry → List String → Dict ℕ → Dict ℕ
unfolding lookup count_matters matters_of
count_missing expected [] counts = counts
count_missing expected (rp ∷ missing) counts =
    count_missing expected missing (count_matters (matters_of (lookup rp expected)) counts)

abbrev more_first : String × ℕ → String × ℕ → Bool
more_first x y = leb y.1 x.1

-- `a - b` and `a & b` on the sets of the keys of dictionaries, sorted.
unfoldable pub outside : {V : Type 0} → List String → Dict V → List String
unfolding sort_by lookup
outside paths d = sort_by text_le (filter (λ p. not (has_key p d)) paths)

unfoldable pub inside : {V : Type 0} → List String → Dict V → List String
unfolding sort_by lookup
inside paths d = sort_by text_le (filter (λ p. has_key p d) paths)

unfoldable pub reconcile : Dict ExpectedEntry → Dict String → ReconciliationReport
unfolding outside inside count_missing sort_by
reconcile expected indexed =
    let missing = outside (keys expected) indexed in
    record {
      expected_count = length expected;
      actual_count = length indexed;
      matched = inside (keys expected) indexed;
      missing = missing;
      extra = outside (keys indexed) expected;
      missing_by_matter = sort_by more_first (count_missing expected missing []);
    }

-- `expected_from_manifest`, on the values of the manifest.
unfoldable pub expected_from : Dict ExpectedEntry → List ExpectedEntry → Dict ExpectedEntry
unfolding insert
expected_from expected [] = expected
expected_from expected (entry ∷ entries) =
    expected_from (if truthy entry.raw_path then insert entry.raw_path entry expected else expected)
      entries
