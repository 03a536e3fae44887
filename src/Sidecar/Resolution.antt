-- ===== src/Sidecar/Resolution.antt =====
-- The exclusion dimension of metadata/sidecar.py fails closed: what a chain resolves to for `no_index`,
-- against a reading of its layers one by one.
use mathlib.Core.List.{foldl}
use legal_system.Prelude.{
  String, ◌≡◌, refl, Bool, true, false, not, ◌&&◌, ◌||◌, Option, none, some, List, [], ◌∷◌, ◌==◌,
  arith, any, sorted-filter_cases, inl, inr, is_some, string_dec, if◌then◌else◌,
}
use legal_system.Prelude.Dict.{Dict, lookup, insert, lookup-insert, keys}
use legal_system.Data.{bool, text, Value, one, items, mapping}
use legal_system.Sidecar.{
  Layer, absent, malformed, not_mapping, fields, NoIndexResolution, ChainState, start, no_index_key,
  no_index_reason_key, no_index_category_key, is_no_index_key, typos, examine, examine_typos,
  examine_value, examine_reason, examine_category, resolve_layer, resolve_layers, merge_known,
  apply, merge_layer, merge_value, note_unparseable_layer, union, old_items, resolved_reason,
  resolved_category,
}

-- A key that looks like `no_index` and is spelled otherwise.
abbrev pub is_typo : String → Bool
is_typo k = is_no_index_key k && not (k == no_index_key)

-- Any value of `no_index` but a clean `false`.
abbrev pub is_unsafe : Option Value → Bool
is_unsafe none = false
is_unsafe (some (one (bool b))) = b
is_unsafe (some v) = true

-- A layer that sets `no_index`, or may have been meant to.
abbrev pub attempts : Layer → Bool
attempts absent = false
attempts (malformed e) = true
attempts not_mapping = true
attempts (fields d) = any is_typo (keys d) || is_unsafe (lookup no_index_key d)

-- A layer that speaks of `no_index` at all.
abbrev pub mentions : Layer → Bool
mentions absent = false
mentions (malformed e) = true
mentions not_mapping = true
mentions (fields d) = any is_typo (keys d) || is_some (lookup no_index_key d)

pub examine_typos_lem :
    (source : String) (d : Dict Value) (r : NoIndexResolution)
    → ((examine_typos source (typos d) r).latched ≡ (r.latched || any is_typo (keys d)))
      × ((examine_typos source (typos d) r).mentioned ≡ (r.mentioned || any is_typo (keys d)))
      × ((examine_typos source (typos d) r).ambiguous ≡ (r.ambiguous || any is_typo (keys d)))
unfolding examine_typos typos
examine_typos_lem source d r = elim (sorted-filter_cases is_typo (keys d)) [
  | inl (none_listed, absent_key) ↦ rw none_listed (rw absent_key (ground arith))
  | inr (k, ks, listed, present) ↦ rw listed (rw present (ground arith))
]

examine_value_lem :
    (source : String) (v reason : Option Value) (r : NoIndexResolution)
    → ((examine_value source v reason r).latched ≡ (r.latched || is_unsafe v))
      × ((examine_value source v reason r).mentioned ≡ (r.mentioned || is_some v))
unfolding examine_value examine_reason
examine_value_lem source v reason r = ground arith

examine_category_lem :
    (source : String) (c : Option Value) (r : NoIndexResolution)
    → ((examine_category source c r).latched ≡ r.latched)
      × ((examine_category source c r).mentioned ≡ r.mentioned)
      × ((examine_category source c r).ambiguous ≡ r.ambiguous)
unfolding examine_category
examine_category_lem source c r = ground arith

pub examine_lem :
    (d : Dict Value) (source : String) (r : NoIndexResolution)
    → ((examine d source r).latched ≡ (r.latched || attempts (fields d)))
      × ((examine d source r).mentioned ≡ (r.mentioned || mentions (fields d)))
unfolding examine
examine_lem d source r =
    let s = examine_typos source (typos d) r in
    let v = lookup no_index_key d in
    let reason = lookup no_index_reason_key d in
    ground (
      arith,
      examine_typos_lem source d r,
      examine_value_lem source v reason s,
      examine_category_lem source (lookup no_index_category_key d)
          (examine_value source v reason s),
    )

resolve_layer_lem :
    (s : ChainState) (source : String) (l : Layer)
    → ((resolve_layer s (source, l)).no_index.latched ≡ (s.no_index.latched || attempts l))
      × ((resolve_layer s (source, l)).no_index.mentioned ≡ (s.no_index.mentioned || mentions l))
unfolding resolve_layer merge_known note_unparseable_layer
resolve_layer_lem s source absent = ground arith
resolve_layer_lem s source (malformed e) = ground arith
resolve_layer_lem s source not_mapping = ground arith
resolve_layer_lem s source (fields d) = ground (arith, examine_lem d source s.no_index)

abbrev pub layer_of : String × Layer → Layer
layer_of (source, l) = l

pub fold_lem :
    (ls : List (String × Layer)) (s : ChainState)
    → ((foldl resolve_layer s ls).no_index.latched
        ≡ (s.no_index.latched || any (λ l. attempts (layer_of l)) ls))
      × ((foldl resolve_layer s ls).no_index.mentioned
          ≡ (s.no_index.mentioned || any (λ l. mentions (layer_of l)) ls))
fold_lem [] s = ground arith
fold_lem ((source, l) ∷ ls) s =
    ground (arith, resolve_layer_lem s source l, fold_lem ls (resolve_layer s (source, l)))

-- A key that no layer has is not in the merge.
merge_value_ne :
    (j k : String) (v : Value) (merged : Dict Value)
    → (j == k) ≡ false
    → lookup k (merge_value j v merged) ≡ lookup k merged
unfolding merge_value
merge_value_ne j k (mapping keys printed) merged h =
    ground (arith, lookup-insert k j (mapping keys printed) merged)
merge_value_ne j k (one v) merged h = ground (arith, lookup-insert k j (one v) merged)
merge_value_ne j k (items vs printed) merged h = ground (
  arith,
  lookup-insert k j (items (union (old_items (lookup j merged)) vs) printed) merged,
  lookup-insert k j (items vs printed) merged,
)

merge_layer_absent :
    (k : String) (d merged : Dict Value)
    → lookup k d ≡ none
    → lookup k (merge_layer merged d) ≡ lookup k merged
unfolding merge_layer lookup
merge_layer_absent k [] merged h = refl
merge_layer_absent k ((j, v) ∷ d) merged h =
    ground (arith, merge_layer_absent k d (merge_value j v merged), merge_value_ne j k v merged)

resolve_layer_merged :
    (s : ChainState) (source : String) (l : Layer)
    → mentions l ≡ false
    → lookup no_index_key (resolve_layer s (source, l)).merged ≡ lookup no_index_key s.merged
unfolding resolve_layer merge_known
resolve_layer_merged s source absent h = refl
resolve_layer_merged s source (malformed e) h = refl
resolve_layer_merged s source not_mapping h = refl
resolve_layer_merged s source (fields d) h =
    ground (arith, merge_layer_absent no_index_key d s.merged)

fold_merged :
    (ls : List (String × Layer)) (s : ChainState)
    → any (λ l. mentions (layer_of l)) ls ≡ false
    → lookup no_index_key (foldl resolve_layer s ls).merged ≡ lookup no_index_key s.merged
fold_merged [] s h = refl
fold_merged ((source, l) ∷ ls) s h =
    ground (arith, fold_merged ls (resolve_layer s (source, l)), resolve_layer_merged s source l)

lookup-apply :
    (r : NoIndexResolution) (merged : Dict Value)
    → lookup no_index_key (apply r merged) ≡ (
        if r.latched
        then some (one (bool true))
        else if r.mentioned
        then some (one (bool false))
        else lookup no_index_key merged)
unfolding apply string_dec
lookup-apply r merged = ground (
  arith,
  lookup-insert no_index_key no_index_key (one (bool true)) merged,
  lookup-insert no_index_key no_index_key (one (bool false)) merged,
  lookup-insert no_index_key no_index_reason_key (one (text (resolved_reason r)))
      (insert no_index_key (one (bool true)) merged),
  lookup-insert no_index_key no_index_category_key (one (text (resolved_category r))) (
      insert no_index_reason_key (one (text (resolved_reason r)))
        (insert no_index_key (one (bool true)) merged)),
)

-- A chain resolves to `no_index: true` exactly if some layer sets it or may have been meant to: it does
-- not parse, is no mapping, has a misspelt key, or has any value but a clean `false`. Otherwise it
-- resolves to `false` if a layer says so, and has no such field if none does.
pub resolve_layers-no_index :
    (ls : List (String × Layer))
    → lookup no_index_key (resolve_layers ls).fields ≡ (
        if any (λ l. attempts (layer_of l)) ls
        then some (one (bool true))
        else if any (λ l. mentions (layer_of l)) ls
        then some (one (bool false))
        else none)
unfolding resolve_layers lookup
resolve_layers-no_index ls =
    let s = foldl resolve_layer start ls in
    ground (arith, lookup-apply s.no_index s.merged, fold_lem ls start, fold_merged ls start)
