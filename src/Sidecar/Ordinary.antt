-- ===== src/Sidecar/Ordinary.antt =====
-- The ordinary fields of metadata/sidecar.py fail open: a layer with an unknown key is dropped whole,
-- and every layer that is not clean leaves an error.
use mathlib.Core.List.{foldl}
use legal_system.Prelude.{
  String, ◌≡◌, refl, Bool, true, false, not, ◌&&◌, ◌||◌, Option, none, some, List, [], ◌∷◌, ◌++◌,
  arith, any, contains, sorted-filter_cases, inl, inr, if◌then◌else◌,
}
use legal_system.Prelude.Dict.{Dict, lookup, insert, lookup-insert, keys}
use legal_system.Data.{bool, text, Value, one}
use legal_system.Sidecar.{
  Layer, absent, malformed, not_mapping, fields, Problem, NoIndexResolution, ChainState,
  suspected_typo, unclean_value, missing_reason, unrecognised_category, unknown_keys,
  malformed_yaml, no_mapping, start, no_index_key, no_index_reason_key, no_index_category_key,
  allowed_keys, is_no_index_key, typos, unknown, trimmed, examine, examine_typos, examine_value,
  examine_reason, examine_category, merge_layer, resolve_layer, resolve_layers, merge_known, apply,
  note_unparseable_layer, resolved_reason, resolved_category,
}
use legal_system.Sidecar.Resolution.{is_typo, layer_of}
use legal_system.Sidecar.Category.{is_doubtful, is_unsure, is_unknown_category}

abbrev pub is_unknown : String → Bool
is_unknown k = not (contains allowed_keys k) && not (is_no_index_key k)

-- The mapping of a layer all of whose keys are known.
abbrev pub accepted : Layer → Dict Value
accepted (fields d) = if any is_unknown (keys d) then [] else d
accepted _ = []

resolve_layer-accepted :
    (s : ChainState) (source : String) (l : Layer)
    → (resolve_layer s (source, l)).merged ≡ merge_layer s.merged (accepted l)
unfolding resolve_layer merge_known unknown merge_layer
resolve_layer-accepted s source absent = refl
resolve_layer-accepted s source (malformed e) = refl
resolve_layer-accepted s source not_mapping = refl
resolve_layer-accepted s source (fields d) = elim (sorted-filter_cases is_unknown (keys d)) [
  | inl (none_listed, known) ↦ rw (none_listed, known) refl
  | inr (k, ks, listed, present) ↦ rw (listed, present) refl
]

-- The accepted mappings laid over one another, the most specific last.
abbrev pub overlay : Dict Value → List (String × Layer) → Dict Value
overlay merged [] = merged
overlay merged ((source, l) ∷ ls) = overlay (merge_layer merged (accepted l)) ls

fold-overlay :
    (ls : List (String × Layer)) (s : ChainState)
    → (foldl resolve_layer s ls).merged ≡ overlay s.merged ls
fold-overlay [] s = refl
fold-overlay ((source, l) ∷ ls) s =
    rw (fold-overlay ls (resolve_layer s (source, l)), resolve_layer-accepted s source l) refl

abbrev pub is_exclusion_field : String → Bool
is_exclusion_field k = contains (no_index_key ∷ no_index_reason_key ∷ no_index_category_key ∷ []) k

lookup-apply_other :
    (k : String) (r : NoIndexResolution) (merged : Dict Value)
    → is_exclusion_field k ≡ false
    → lookup k (apply r merged) ≡ lookup k merged
unfolding apply
lookup-apply_other k r merged h =
    let m = insert no_index_key (one (bool true)) merged in
    let m' = insert no_index_reason_key (one (text (resolved_reason r))) m in
    ground (
      arith,
      lookup-insert k no_index_key (one (bool true)) merged,
      lookup-insert k no_index_key (one (bool false)) merged,
      lookup-insert k no_index_reason_key (one (text (resolved_reason r))) m,
      lookup-insert k no_index_category_key (one (text (resolved_category r))) m',
    )

pub resolve_layers-overlay :
    (ls : List (String × Layer)) (k : String)
    → is_exclusion_field k ≡ false
    → lookup k (resolve_layers ls).fields ≡ lookup k (overlay [] ls)
unfolding resolve_layers
resolve_layers-overlay ls k h =
    let s = foldl resolve_layer start ls in
    rw (lookup-apply_other k s.no_index s.merged h, fold-overlay ls start) refl

abbrev pub is_nil : List Problem → Bool
is_nil [] = true
is_nil (p ∷ ps) = false

is_nil-append : (ps qs : List Problem) → is_nil (ps ++ qs) ≡ (is_nil ps && is_nil qs)
is_nil-append [] qs = refl
is_nil-append (p ∷ ps) qs = refl

-- A layer that is there and has anything wrong with it.
abbrev pub is_faulty : Layer → Bool
is_faulty (fields d) = any is_unknown (keys d) || is_doubtful (fields d)
is_faulty l = is_doubtful l

typos_errors :
    (d : Dict Value) (source : String) (r : NoIndexResolution)
    → is_nil (examine_typos source (typos d) r).errors
      ≡ (is_nil r.errors && not (any is_typo (keys d)))
unfolding examine_typos typos
typos_errors d source r = elim (sorted-filter_cases is_typo (keys d)) [
  | inl (none_listed, known) ↦ rw none_listed (rw known (ground arith))
  | inr (k, ks, listed, present) ↦
      rw listed
        (rw present (ground (arith, is_nil-append r.errors (suspected_typo source (k ∷ ks) ∷ []))))
]

value_errors :
    (source : String) (v reason : Option Value) (r : NoIndexResolution)
    → is_nil (examine_value source v reason r).errors
      ≡ (is_nil r.errors && not (is_unsure v reason))
unfolding examine_value examine_reason
value_errors source none reason r = ground arith
value_errors source (some v) reason r = ground (
  arith,
  is_nil-append r.errors (unclean_value source v ∷ []),
  is_nil-append r.errors (missing_reason source ∷ []),
)

category_errors :
    (source : String) (c : Option Value) (r : NoIndexResolution)
    → is_nil (examine_category source c r).errors
      ≡ (is_nil r.errors && not (is_unknown_category (trimmed c)))
unfolding examine_category
category_errors source c r =
    ground (arith, is_nil-append r.errors (unrecognised_category source (trimmed c) ∷ []))

pub examine_errors :
    (d : Dict Value) (source : String) (r : NoIndexResolution)
    → is_nil (examine d source r).errors ≡ (is_nil r.errors && not (is_doubtful (fields d)))
unfolding examine
examine_errors d source r =
    let s = examine_typos source (typos d) r in
    let v = lookup no_index_key d in
    let reason = lookup no_index_reason_key d in
    ground (
      arith,
      typos_errors d source r,
      value_errors source v reason s,
      category_errors source (lookup no_index_category_key d) (examine_value source v reason s),
    )

abbrev clean : ChainState → Bool
clean s = is_nil s.errors && is_nil s.no_index.errors

merge_known_errors :
    (source : String) (d : Dict Value) (s : ChainState)
    → clean (merge_known source d (unknown d) s) ≡ (clean s && not (any is_unknown (keys d)))
unfolding merge_known unknown
merge_known_errors source d s = elim (sorted-filter_cases is_unknown (keys d)) [
  | inl (none_listed, known) ↦ rw none_listed (rw known (ground arith))
  | inr (k, ks, listed, present) ↦
      rw listed
        (rw present (ground (arith, is_nil-append s.errors (unknown_keys source (k ∷ ks) ∷ []))))
]

resolve_layer_errors :
    (s : ChainState) (source : String) (l : Layer)
    → clean (resolve_layer s (source, l)) ≡ (clean s && not (is_faulty l))
unfolding resolve_layer note_unparseable_layer
resolve_layer_errors s source absent = ground arith
resolve_layer_errors s source (malformed e) =
    ground (arith, is_nil-append s.errors (malformed_yaml source e ∷ []))
resolve_layer_errors s source not_mapping =
    ground (arith, is_nil-append s.errors (no_mapping source ∷ []))
resolve_layer_errors s source (fields d) =
    let r = examine d source s.no_index in
    ground (
      arith,
      merge_known_errors source d (record s { no_index = r }),
      examine_errors d source s.no_index,
    )

fold_errors :
    (ls : List (String × Layer)) (s : ChainState)
    → clean (foldl resolve_layer s ls) ≡ (clean s && not (any (λ l. is_faulty (layer_of l)) ls))
fold_errors [] s = ground arith
fold_errors ((source, l) ∷ ls) s =
    ground (arith, resolve_layer_errors s source l, fold_errors ls (resolve_layer s (source, l)))

-- A chain leaves no error exactly if no layer is faulty: each layer that does not parse, has an unknown
-- or misspelt key, or leaves a doubt about an exclusion or its class is reported.
pub resolve_layers-errors :
    (ls : List (String × Layer))
    → is_nil (resolve_layers ls).errors ≡ not (any (λ l. is_faulty (layer_of l)) ls)
unfolding resolve_layers
resolve_layers-errors ls =
    let s = foldl resolve_layer start ls in
    ground (arith, is_nil-append s.errors s.no_index.errors, fold_errors ls start)
