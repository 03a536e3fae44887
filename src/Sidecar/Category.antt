-- ===== src/Sidecar/Category.antt =====
-- The class of an exclusion in metadata/sidecar.py, and the fields and errors that a chain leaves.
use mathlib.Core.List.{foldl}
use legal_system.Prelude.{
  String, ◌≡◌, refl, Bool, true, false, not, ◌&&◌, ◌||◌, Option, none, some, List, [], ◌∷◌, ◌==◌,
  arith, any, contains, sorted-filter_cases, inl, inr, string_dec, if◌then◌else◌,
}
use legal_system.Prelude.Text.{truthy, truthy_of_eq, truthy_of_contains}
use legal_system.Prelude.Dict.{Dict, lookup, insert, lookup-insert, keys}
use legal_system.Data.{bool, text, Value, one}
use legal_system.Sidecar.{
  Layer, absent, malformed, not_mapping, fields, NoIndexResolution, ChainState, start, no_index_key,
  no_index_reason_key, no_index_category_key, legally_obligatory, housekeeping,
  recognised_categories, typos, trimmed, examine, examine_typos, examine_value, examine_reason,
  examine_category, resolve_layer, resolve_layers, merge_known, apply, note_unparseable_layer,
  resolved_reason, resolved_category,
}
use legal_system.Sidecar.Resolution.{is_typo, attempts, layer_of, fold_lem, examine_typos_lem}

-- A value of `no_index` with its reason that does not settle the matter.
abbrev pub is_unsure : Option Value → Option Value → Bool
is_unsure none reason = false
is_unsure (some (one (bool b))) reason = b && not (truthy (trimmed reason))
is_unsure (some v) reason = true

abbrev pub is_unknown_category : String → Bool
is_unknown_category c = truthy c && not (contains recognised_categories c)

-- A layer that leaves a doubt about an exclusion or its class.
abbrev pub is_doubtful : Layer → Bool
is_doubtful absent = false
is_doubtful (malformed e) = true
is_doubtful not_mapping = true
is_doubtful (fields d) =
    any is_typo (keys d)
    || is_unsure (lookup no_index_key d) (lookup no_index_reason_key d)
    || is_unknown_category (trimmed (lookup no_index_category_key d))

-- The layer gives this class.
abbrev pub says : String → Layer → Bool
says c (fields d) = c == trimmed (lookup no_index_category_key d)
says c _ = false

abbrev doubt : NoIndexResolution → Bool
doubt r = r.ambiguous || r.unknown_category

examine_typos_rest :
    (source : String) (d : Dict Value) (r : NoIndexResolution)
    → ((examine_typos source (typos d) r).unknown_category ≡ r.unknown_category)
      × ((examine_typos source (typos d) r).explicit_categories ≡ r.explicit_categories)
unfolding examine_typos typos
examine_typos_rest source d r = elim (sorted-filter_cases is_typo (keys d)) [
  | inl (none_listed, absent_key) ↦ rw none_listed (refl, refl)
  | inr (k, ks, listed, present) ↦ rw listed (refl, refl)
]

examine_value_rest :
    (source : String) (v reason : Option Value) (r : NoIndexResolution)
    → ((examine_value source v reason r).ambiguous ≡ (r.ambiguous || is_unsure v reason))
      × ((examine_value source v reason r).unknown_category ≡ r.unknown_category)
      × ((examine_value source v reason r).explicit_categories ≡ r.explicit_categories)
unfolding examine_value examine_reason
examine_value_rest source v reason r = ground arith

examine_category_rest :
    (source : String) (c : Option Value) (r : NoIndexResolution) (k : String)
    → contains recognised_categories k ≡ true
    → (doubt (examine_category source c r) ≡ (doubt r || is_unknown_category (trimmed c)))
      × (contains (examine_category source c r).explicit_categories k
          ≡ (contains r.explicit_categories k || k == trimmed c))
unfolding examine_category
examine_category_rest source c r k h =
    ground (arith, truthy_of_contains recognised_categories k refl h, truthy_of_eq k (trimmed c))

examine_rest :
    (d : Dict Value) (source : String) (r : NoIndexResolution) (k : String)
    → contains recognised_categories k ≡ true
    → (doubt (examine d source r) ≡ (doubt r || is_doubtful (fields d)))
      × (contains (examine d source r).explicit_categories k
          ≡ (contains r.explicit_categories k || says k (fields d)))
unfolding examine
examine_rest d source r k h =
    let s = examine_typos source (typos d) r in
    let v = lookup no_index_key d in
    let reason = lookup no_index_reason_key d in
    ground (
      arith,
      examine_typos_lem source d r,
      examine_typos_rest source d r,
      examine_value_rest source v reason s,
      examine_category_rest source (lookup no_index_category_key d)
          (examine_value source v reason s) k h,
    )

resolve_layer_rest :
    (s : ChainState) (source : String) (l : Layer) (k : String)
    → contains recognised_categories k ≡ true
    → (doubt (resolve_layer s (source, l)).no_index ≡ (doubt s.no_index || is_doubtful l))
      × (contains (resolve_layer s (source, l)).no_index.explicit_categories k
          ≡ (contains s.no_index.explicit_categories k || says k l))
unfolding resolve_layer merge_known note_unparseable_layer
resolve_layer_rest s source absent k h = ground arith
resolve_layer_rest s source (malformed e) k h = ground arith
resolve_layer_rest s source not_mapping k h = ground arith
resolve_layer_rest s source (fields d) k h = ground (arith, examine_rest d source s.no_index k h)

fold_rest :
    (ls : List (String × Layer)) (s : ChainState) (k : String)
    → contains recognised_categories k ≡ true
    → (doubt (foldl resolve_layer s ls).no_index
        ≡ (doubt s.no_index || any (λ l. is_doubtful (layer_of l)) ls))
      × (contains (foldl resolve_layer s ls).no_index.explicit_categories k
          ≡ (contains s.no_index.explicit_categories k || any (λ l. says k (layer_of l)) ls))
fold_rest [] s k h = ground arith
fold_rest ((source, l) ∷ ls) s k h =
    ground
      (arith, resolve_layer_rest s source l k h, fold_rest ls (resolve_layer s (source, l)) k h)

-- The class of an excluded chain, read off its layers one by one.
abbrev pub class_of : List (String × Layer) → String
class_of ls =
    if any (λ l. is_doubtful (layer_of l)) ls || any (λ l. says legally_obligatory (layer_of l)) ls
    then legally_obligatory
    else if any (λ l. says housekeeping (layer_of l)) ls
    then housekeeping
    else legally_obligatory

lookup-apply_category :
    (r : NoIndexResolution) (merged : Dict Value)
    → r.latched ≡ true
    → lookup no_index_category_key (apply r merged) ≡ some (one (text (resolved_category r)))
unfolding apply string_dec
lookup-apply_category r merged h = ground (
  arith,
  lookup-insert no_index_category_key no_index_category_key (one (text (resolved_category r))) (
      insert no_index_reason_key (one (text (resolved_reason r)))
        (insert no_index_key (one (bool true)) merged)),
)

-- An excluded chain is `housekeeping` only if some layer says so, no layer says `legally_obligatory`, and
-- no layer leaves a doubt: one that does not parse, a misspelt key, an unclean value, a missing reason or
-- an unknown class. In every other case it is `legally_obligatory`.
pub resolve_layers-category :
    (ls : List (String × Layer))
    → any (λ l. attempts (layer_of l)) ls ≡ true
    → lookup no_index_category_key (resolve_layers ls).fields ≡ some (one (text (class_of ls)))
unfolding resolve_layers resolved_category string_dec
resolve_layers-category ls h =
    let s = foldl resolve_layer start ls in
    ground (
      arith,
      lookup-apply_category s.no_index s.merged,
      fold_lem ls start,
      fold_rest ls start legally_obligatory refl,
      fold_rest ls start housekeeping refl,
    )
