-- ===== src/Sidecar.antt =====
-- metadata/sidecar.py: the metadata chain of a file. A layer is what `is_file` and `yaml.safe_load` give
-- for one carrier; the texts of the errors are kept as data.
pub mod Resolution
pub mod Category
pub mod Ordinary
pub mod Blank
use mathlib.Core.List.{foldl, ◌++◌}
use legal_system.Prelude.{
  String, ◌<>◌, Bool, true, false, not, ◌&&◌, ◌||◌, Option, none, some, List, [], ◌∷◌, ◌==◌,
  contains, any, filter, is_some, sorted, if◌then◌else◌,
}
use legal_system.Prelude.Text.{truthy, lower, strip, ends_with, drop_separators}
use legal_system.Prelude.FilePath.{parts, as_posix}
use legal_system.Prelude.Dict.{Dict, lookup, insert, keys}
use legal_system.Data.{
  Scalar, null, bool, text, Value, one, items, mapping, scalar_eq, str_value, is_truthy_value,
}

abbrev pub sidecar_suffix : String
sidecar_suffix = ".metadata.yaml"

abbrev pub folder_metadata_name : String
folder_metadata_name = "metadata.yaml"

abbrev pub no_index_key : String
no_index_key = "no_index"

abbrev pub no_index_reason_key : String
no_index_reason_key = "no_index_reason"

abbrev pub no_index_category_key : String
no_index_category_key = "no_index_category"

abbrev pub legally_obligatory : String
legally_obligatory = "legally_obligatory"

abbrev pub housekeeping : String
housekeeping = "housekeeping"

abbrev pub recognised_categories : List String
recognised_categories = legally_obligatory ∷ housekeeping ∷ []

abbrev pub allowed_keys : List String
allowed_keys =
    "case_number" ∷ "matters" ∷ "primary_matter" ∷ "origin" ∷ "role" ∷ "topic" ∷ "date"
    ∷ "party_role" ∷ "parties" ∷ "document_type" ∷ "keywords" ∷ "author" ∷ "claim_source"
    ∷ no_index_key ∷ no_index_reason_key ∷ no_index_category_key ∷ "notes" ∷ "method" ∷ "date_basis"
    ∷ "date_uncertain" ∷ "source_channel" ∷ "obtained_note" ∷ "superseded_by" ∷ []

abbrev pub list_keys : List String
list_keys = "matters" ∷ "parties" ∷ "keywords" ∷ []

unfoldable pub is_no_index_key : String → Bool
is_no_index_key key = drop_separators (lower key) == "noindex"

unfoldable pub is_sidecar_name : String → Bool
is_sidecar_name name = name == folder_metadata_name || ends_with name sidecar_suffix

pub data Layer : Type 0 where
  absent : Layer
  malformed : String → Layer
  not_mapping : Layer
  fields : Dict Value → Layer

pub data Problem : Type 0 where
  malformed_yaml : (source exception : String) → Problem
  no_mapping : (source : String) → Problem
  unparseable : (source : String) → Problem
  unknown_keys : (source : String) → List String → Problem
  suspected_typo : (source : String) → List String → Problem
  unclean_value : (source : String) → Value → Problem
  missing_reason : (source : String) → Problem
  unrecognised_category : (source category : String) → Problem

-- `_NoIndexResolution`
pub record NoIndexResolution : Type 0 where
  pub latched : Bool
  pub mentioned : Bool
  pub ambiguous : Bool
  pub unknown_category : Bool
  pub explicit_reason : Option String
  pub explicit_categories : List String
  pub errors : List Problem

abbrev pub unresolved : NoIndexResolution
unresolved = record {
  latched = false;
  mentioned = false;
  ambiguous = false;
  unknown_category = false;
  explicit_reason = none;
  explicit_categories = [];
  errors = [];
}

unfoldable pub note_unparseable_layer : String → NoIndexResolution → NoIndexResolution
note_unparseable_layer source r = record r {
  latched = true;
  mentioned = true;
  ambiguous = true;
  errors = r.errors ++ unparseable source ∷ [];
}

-- The keys that a writer may have meant for `no_index`.
unfoldable pub typos : Dict Value → List String
typos d = sorted (filter (λ k. is_no_index_key k && not (k == no_index_key)) (keys d))

unfoldable pub examine_typos : String → List String → NoIndexResolution → NoIndexResolution
examine_typos source [] r = r
examine_typos source (k ∷ ks) r = record r {
  latched = true;
  mentioned = true;
  ambiguous = true;
  errors = r.errors ++ suspected_typo source (k ∷ ks) ∷ [];
}

-- The trimmed text of a value, or the empty text for none.
unfoldable pub trimmed : Option Value → String
trimmed none = ""
trimmed (some (one null)) = ""
trimmed (some v) = strip (str_value v)

unfoldable pub examine_reason : String → Option Value → NoIndexResolution → NoIndexResolution
examine_reason source reason r =
    if truthy (trimmed reason)
    then record r { explicit_reason = some (trimmed reason) }
    else record r { ambiguous = true; errors = r.errors ++ missing_reason source ∷ [] }

unfoldable pub examine_value :
    String → Option Value → Option Value → NoIndexResolution → NoIndexResolution
examine_value source none reason r = r
examine_value source (some (one (bool true))) reason r =
    examine_reason source reason (record r { mentioned = true; latched = true })
examine_value source (some (one (bool false))) reason r = record r { mentioned = true }
examine_value source (some v) reason r = record r {
  mentioned = true;
  latched = true;
  ambiguous = true;
  errors = r.errors ++ unclean_value source v ∷ [];
}

unfoldable pub examine_category : String → Option Value → NoIndexResolution → NoIndexResolution
examine_category source category r =
    let c = trimmed category in
    if truthy c
    then (if contains recognised_categories c
        then record r { explicit_categories = c ∷ r.explicit_categories }
        else record r {
          unknown_category = true;
          errors = r.errors ++ unrecognised_category source c ∷ [];
        })
    else r

-- `examine`, on the raw keys of one layer.
unfoldable pub examine : Dict Value → String → NoIndexResolution → NoIndexResolution
examine d source r = examine_category source (lookup no_index_category_key d) (
    examine_value source (lookup no_index_key d) (lookup no_index_reason_key d)
      (examine_typos source (typos d) r))

abbrev pub fail_closed_reason : String
fail_closed_reason =
    "fail-closed: an apparent exclusion could not be confirmed safe (see metadata_error)"

unfoldable pub resolved_reason : NoIndexResolution → String
resolved_reason r = elim r.explicit_reason [
  | none ↦ fail_closed_reason
  | some reason ↦ if truthy reason then reason else fail_closed_reason
]

-- `explicit_categories == {CATEGORY_HOUSEKEEPING}` is tested by its members.
unfoldable pub resolved_category : NoIndexResolution → String
resolved_category r =
    if r.ambiguous || r.unknown_category || contains r.explicit_categories legally_obligatory
    then legally_obligatory
    else if contains r.explicit_categories housekeeping
    then housekeeping
    else legally_obligatory

unfoldable pub apply : NoIndexResolution → Dict Value → Dict Value
apply r merged =
    if r.latched
    then insert no_index_category_key (one (text (resolved_category r))) (
        insert no_index_reason_key (one (text (resolved_reason r)))
          (insert no_index_key (one (bool true)) merged))
    else if r.mentioned
    then insert no_index_key (one (bool false)) merged
    else merged

-- `validate_layer(..., ignore_no_index_variants=True)`: the unknown keys of a layer.
unfoldable pub unknown : Dict Value → List String
unknown d = sorted (filter (λ k. not (contains allowed_keys k) && not (is_no_index_key k)) (keys d))

unfoldable pub union : List Scalar → List Scalar → List Scalar
union base [] = base
union base (v ∷ vs) = union (if any (scalar_eq v) base then base else base ++ v ∷ []) vs

unfoldable pub old_items : Option Value → List Scalar
old_items (some (items vs printed)) = vs
old_items _ = []

unfoldable pub is_unset : Value → Bool
is_unset (one null) = true
is_unset (one (text s)) = not (truthy s)
is_unset v = false

-- The body of the loop of `_merge_layer`. `printed` is not kept for a list that was put together.
unfoldable pub merge_value : String → Value → Dict Value → Dict Value
merge_value key (items vs printed) merged =
    if contains list_keys key
    then insert key (items (union (old_items (lookup key merged)) vs) printed) merged
    else insert key (items vs printed) merged
merge_value key (mapping keys printed) merged = insert key (mapping keys printed) merged
merge_value key (one v) merged = if is_unset (one v) then merged else insert key (one v) merged

unfoldable pub merge_layer : Dict Value → Dict Value → Dict Value
merge_layer merged [] = merged
merge_layer merged ((k, v) ∷ d) = merge_layer (merge_value k v merged) d

-- The folders of a path from the root down, each with its `metadata.yaml`.
folder_layers : String → List String → List String
folder_layers cur [] = []
folder_layers cur (name ∷ []) = []
folder_layers cur (p ∷ q ∷ ps) =
    let next = cur <> p <> "/" in (next <> folder_metadata_name) ∷ folder_layers next (q ∷ ps)

-- `_chain_layers(rel, root)`, least specific first.
unfoldable pub chain_layers : String → List String
unfolding folder_layers
chain_layers rel =
    folder_metadata_name ∷ (folder_layers "" (parts rel) ++ (as_posix rel <> sidecar_suffix) ∷ [])

pub record ChainState : Type 0 where
  pub merged : Dict Value
  pub errors : List Problem
  pub no_index : NoIndexResolution

-- The end of the loop's body: a layer with unknown keys is dropped whole.
unfoldable pub merge_known : String → Dict Value → List String → ChainState → ChainState
merge_known source d [] s = record s { merged = merge_layer s.merged d }
merge_known source d (k ∷ ks) s = record s {
  errors = s.errors ++ unknown_keys source (k ∷ ks) ∷ [];
}

-- The body of the loop of `resolve_chain`.
unfoldable pub resolve_layer : ChainState → String × Layer → ChainState
resolve_layer s (source, absent) = s
resolve_layer s (source, malformed exception) = record s {
  errors = s.errors ++ malformed_yaml source exception ∷ [];
  no_index = note_unparseable_layer source s.no_index;
}
resolve_layer s (source, not_mapping) = record s {
  errors = s.errors ++ no_mapping source ∷ [];
  no_index = note_unparseable_layer source s.no_index;
}
resolve_layer s (source, fields d) =
    merge_known source d (unknown d) (record s { no_index = examine d source s.no_index })

pub record ResolvedMetadata : Type 0 where
  pub fields : Dict Value
  pub errors : List Problem

abbrev pub start : ChainState
start = record { merged = []; errors = []; no_index = unresolved }

-- `resolve_chain` over the layers of a chain with their names.
unfoldable pub resolve_layers : List (String × Layer) → ResolvedMetadata
resolve_layers ls =
    let s = foldl resolve_layer start ls in
    record { fields = apply s.no_index s.merged; errors = s.errors ++ s.no_index.errors }

named : (String → Layer) → List String → List (String × Layer)
named layer [] = []
named layer (source ∷ sources) = (source, layer source) ∷ named layer sources

unfoldable pub resolve_chain : (String → Layer) → String → ResolvedMetadata
unfolding named
resolve_chain layer rel = resolve_layers (named layer (chain_layers rel))
