-- ===== src/Inheritance.antt =====
-- metadata/inheritance.py: the merge of a chain of `metadata.yaml` mappings by the rule of each field. What
-- pydantic makes of the resolved fields is a parameter.
pub mod Rules
pub mod Resolved
use legal_system.Prelude.{
  ℕ, String, Bool, true, false, not, ◌&&◌, ◌||◌, Option, none, some, List, [], ◌∷◌, ◌++◌, map, any,
  filter, contains, length, ltb, ◌==◌, if◌then◌else◌,
}
use legal_system.Prelude.Dict.{Dict, lookup, has_key}
use legal_system.Manifest.{characters}
use legal_system.Data.{
  Scalar, null, bool, text, other, Value, one, items, mapping, scalar_eq, is_truthy_value,
}

-- The fields of `DocumentMetadata`.
abbrev model_fields : List String
model_fields =
    "document_type" ∷ "party_role" ∷ "parties" ∷ "keywords" ∷ "date" ∷ "topic" ∷ "summary"
    ∷ "long_summary" ∷ "skip" ∷ "skip_patterns" ∷ "files" ∷ "author" ∷ "notes" ∷ "method"
    ∷ "date_basis" ∷ "date_uncertain" ∷ "source_channel" ∷ "obtained_note" ∷ "superseded_by"
    ∷ "metadata_error" ∷ "claim_source" ∷ "no_index" ∷ "no_index_reason" ∷ "no_index_category"
    ∷ "matters" ∷ "primary_matter" ∷ "origin" ∷ "role" ∷ "entities" ∷ "claims" ∷ "raw_path"
    ∷ "raw_commit" ∷ "raw_sha256" ∷ "ingested_at" ∷ "papra_document_id" ∷ "relates_to" ∷ "handling"
    ∷ []

-- `key in known`
unfoldable pub is_known : String → Bool
is_known = contains model_fields

-- The branch of the loop body that a field takes.
pub data Rule : Type 0 where
  union_rule leaf_rule latch_rule last_rule locked_rule : Rule

unfoldable pub is_list_field : String → Bool
is_list_field =
    contains ("parties" ∷ "keywords" ∷ "skip_patterns" ∷ "matters" ∷ "entities" ∷ "relates_to" ∷ [])

unfoldable pub rule_of : String → Rule
unfolding is_list_field
rule_of key =
    if is_list_field key
    then union_rule
    else if contains ("summary" ∷ "files" ∷ []) key
    then leaf_rule
    else if key == "skip"
    then latch_rule
    else if contains ("date" ∷ "topic" ∷ []) key
    then last_rule
    else locked_rule

-- What a field resolves to.
pub data Field : Type 0 where
  value : Value → Field
  union : List Scalar → Field

-- What becomes of a key: a conflict, an error of a loop over what is no collection, no value, a value.
pub data Outcome : Type 0 where
  disagree not_iterable unset : Outcome
  set : Field → Outcome

-- The keys of a layer, after those seen before.
unfoldable pub add_keys : List String → Dict Value → List String
add_keys seen [] = seen
add_keys seen ((k, v) ∷ d) =
    add_keys (if is_known k && not (contains seen k) then seen ++ k ∷ [] else seen) d

unfoldable pub keys_from : List String → List (Dict Value) → List String
unfolding add_keys
keys_from seen [] = seen
keys_from seen (d ∷ ds) = keys_from (add_keys seen d) ds

-- `present`, from the root on.
unfoldable pub present : String → List (Dict Value) → List Value
unfolding lookup
present key [] = []
present key (d ∷ ds) = elim (lookup key d) [ none ↦ present key ds | some v ↦ v ∷ present key ds ]

-- What a loop over a value meets; `none` is the `TypeError` of a value that cannot be iterated.
unfoldable pub scalars_of : Value → Option (List Scalar)
unfolding characters
scalars_of (items vs printed) = some vs
scalars_of (mapping keys printed) = some keys
scalars_of (one (text s)) = some (map text (characters s))
scalars_of (one v) = none

unfoldable pub add_items : List Scalar → List Scalar → List Scalar
unfolding scalar_eq
add_items merged [] = merged
add_items merged (x ∷ xs) =
    add_items (if any (scalar_eq x) merged then merged else merged ++ x ∷ []) xs

-- `_union`, onto what is merged.
unfoldable pub merge_values : List Scalar → List Value → Outcome
unfolding scalars_of add_items
merge_values merged [] = set (union merged)
merge_values merged (v ∷ vs) = elim (scalars_of v) [
  | none ↦ not_iterable
  | some xs ↦ merge_values (add_items merged xs) vs
]

-- `_hashable`, where the text that `repr` prints stands for a list or a mapping.
unfoldable pub hashable : Value → Scalar
hashable (one v) = v
hashable (items vs printed) = text printed
hashable (mapping keys printed) = text printed

unfoldable pub is_null : Value → Bool
is_null (one null) = true
is_null _ = false

-- `distinct`, onto what it holds.
unfoldable pub distinct : List Scalar → List Value → List Scalar
unfolding hashable is_null scalar_eq
distinct seen [] = seen
distinct seen (v ∷ vs) =
    distinct (if is_null v || any (scalar_eq (hashable v)) seen then seen else hashable v ∷ seen) vs

-- `present[-1][1]`
unfoldable pub last_value : List Value → Outcome
last_value [] = unset
last_value (v ∷ []) = set (value v)
last_value (v ∷ w ∷ vs) = last_value (w ∷ vs)

-- `layers[-1]`
unfoldable pub leaf_of : List (Dict Value) → Dict Value
leaf_of [] = []
leaf_of (d ∷ []) = d
leaf_of (d ∷ e ∷ ds) = leaf_of (e ∷ ds)

unfoldable pub leaf_value : Option Value → Outcome
leaf_value none = unset
leaf_value (some v) = set (value v)

unfoldable pub by_rule : Rule → List Value → (leaf : Option Value) → Outcome
unfolding merge_values is_truthy_value distinct last_value leaf_value
by_rule union_rule vs leaf = merge_values [] vs
by_rule leaf_rule vs leaf = leaf_value leaf
by_rule latch_rule vs leaf = set (value (one (bool (any is_truthy_value vs))))
by_rule last_rule vs leaf = last_value vs
by_rule locked_rule vs leaf = if ltb 1 (length (distinct [] vs)) then disagree else last_value vs

unfoldable pub resolve_field : String → List (Dict Value) → Outcome
unfolding by_rule rule_of present lookup leaf_of
resolve_field key layers = by_rule (rule_of key) (present key layers) (lookup key (leaf_of layers))

-- What the resolution ends in: the conflict of a locked field, a `TypeError`, or the fields.
pub data Resolution : Type 0 where
  inheritance_conflict : String → Resolution
  type_error : Resolution
  resolved : Dict Field → Resolution

unfoldable pub with_field : String → Field → Resolution → Resolution
with_field key f (resolved d) = resolved ((key, f) ∷ d)
with_field key f r = r

-- The second loop; the keys are distinct.
unfoldable pub resolve_keys : List (Dict Value) → List String → Resolution
unfolding resolve_field with_field
resolve_keys layers [] = resolved []
resolve_keys layers (key ∷ keys) =
    let rest = resolve_keys layers keys in
    elim (resolve_field key layers) [
      | disagree ↦ inheritance_conflict key
      | not_iterable ↦ type_error
      | unset ↦ rest
      | set f ↦ with_field key f rest
    ]

-- How `resolve_metadata` ends: with the `DocumentMetadata`, or with an exception.
pub data Ending (M : Type 0) : Type 0 where
  metadata : M → Ending M
  locked_conflict : String → Ending M
  union_error validation_error : Ending M

-- `DocumentMetadata(**resolved)`; `schema` is what pydantic makes of the fields, `none` its
-- `ValidationError`.
unfoldable pub build : {M : Type 0} → (schema : Dict Field → Option M) → Resolution → Ending M
build schema (inheritance_conflict key) = locked_conflict key
build schema type_error = union_error
build schema (resolved d) = elim (schema d) [ none ↦ validation_error | some m ↦ metadata m ]

unfoldable pub resolve_metadata :
    {M : Type 0} → (schema : Dict Field → Option M) → List (Dict Value) → Ending M
unfolding build resolve_keys keys_from
resolve_metadata schema layers = build schema (resolve_keys layers (keys_from [] layers))
