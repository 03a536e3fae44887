-- ===== src/Inheritance/Resolved.antt =====
-- metadata/inheritance.py: `resolve_metadata` on a chain of layers.
use legal_system.Prelude.{
  String, Bool, true, false, not, ◌&&◌, ◌||◌, Option, none, some, List, [], ◌∷◌, ◌++◌, any,
  contains, ◌==◌, ==_true, ==_refl, if◌then◌else◌, ◌≡◌, inl, inr, refl, sym, ap, subst, ◌∙◌, arith,
  Bool-cases, Option-cases,
}
use legal_system.Prelude.Dict.{Dict, lookup, has_key}
use legal_system.Data.{Value}
use legal_system.Inheritance.{
  is_known, union_rule, leaf_rule, locked_rule, rule_of, Field, Outcome, disagree, not_iterable,
  unset, set, add_keys, keys_from, present, leaf_of, resolve_field, Resolution, Ending, metadata,
  locked_conflict, union_error, validation_error, build, inheritance_conflict, type_error, resolved,
  with_field, resolve_keys, resolve_metadata,
}
use legal_system.Inheritance.Rules.{is_barren, IsAgreed, IsInherited, IsOutcome, by_rule-IsOutcome}

contains-append_one :
    (xs : List String) (j k : String) → contains (xs ++ j ∷ []) k ≡ (contains xs k || j == k)
contains-append_one [] j k = ground arith
contains-append_one (x ∷ xs) j k = ground (arith, contains-append_one xs j k)

contains-add_keys :
    (k : String) (seen : List String) (d : Dict Value)
    → contains (add_keys seen d) k ≡ (contains seen k || is_known k && has_key k d)
unfolding add_keys lookup
contains-add_keys k seen [] = ground arith
contains-add_keys k seen ((j, v) ∷ d) =
    let rest =
      contains-add_keys k (if is_known j && not (contains seen j) then seen ++ j ∷ [] else seen)
        d in
    elim (Bool-cases (j == k)) [
      | inl e ↦
          let p = ==_true j k e in
          ground (arith, rest, e, ap is_known p, ap (contains seen) p, contains-append_one seen j k)
      | inr e ↦ ground (arith, rest, e, contains-append_one seen j k)
    ]

-- Some layer has the field, and the schema knows it.
abbrev pub is_given : String → List (Dict Value) → Bool
is_given k layers = is_known k && any (has_key k) layers

contains-keys_from :
    (k : String) (seen : List String) (layers : List (Dict Value))
    → contains (keys_from seen layers) k ≡ (contains seen k || is_given k layers)
unfolding keys_from
contains-keys_from k seen [] = ground arith
contains-keys_from k seen (d ∷ layers) =
    ground (arith, contains-keys_from k (add_keys seen d) layers, contains-add_keys k seen d)

absent-present :
    (k : String) (layers : List (Dict Value))
    → present k layers ≡ []
    → any (has_key k) layers ≡ false
unfolding present
absent-present k [] h = refl
absent-present k (d ∷ layers) h = ground (arith, h, absent-present k layers)

-- What the rule of a field says of it, where some layer has it; the result has no other field.
abbrev pub IsEntry : List (Dict Value) → String → (given : Bool) → Option Field → Type 0
IsEntry layers key true (some f) =
    IsInherited (rule_of key) (present key layers) (lookup key (leaf_of layers)) f
IsEntry layers key true none = (rule_of key ≡ leaf_rule) × (lookup key (leaf_of layers) ≡ none)
IsEntry layers key false o = o ≡ none

-- The fields that are resolved, a conflict that is one, and an error that a union of what is no
-- collection makes.
abbrev pub IsResolution : List (Dict Value) → String → (given : Bool) → Resolution → Type 0
IsResolution layers key given (resolved d) = IsEntry layers key given (lookup key d)
IsResolution layers key given (inheritance_conflict k) =
    (is_given k layers ≡ true) × (rule_of k ≡ locked_rule) × ¬ IsAgreed (present k layers)
IsResolution layers key given type_error =
    (k : String) × (is_given k layers ≡ true)
    × (rule_of k ≡ union_rule)
    × (any is_barren (present k layers) ≡ true)

module _ (layers : List (Dict Value)) (k key : String) (given : is_given k layers ≡ true) where
  unset_none :
      IsOutcome (rule_of k) (present k layers) (lookup k (leaf_of layers)) unset
      → IsEntry layers k true none
  unset_none (inl h) = h
  unset_none (inr h) = absurd (ground (arith, given, absent-present k layers h))

  unset-IsEntry :
      (b : Bool) (o : Option Field)
      → IsOutcome (rule_of k) (present k layers) (lookup k (leaf_of layers)) unset
      → IsEntry layers key b o
      → IsEntry layers key (k == key || b) o
  unset-IsEntry true o j h = elim (Bool-cases (k == key)) [ inl e ↦ rw e h | inr e ↦ rw e h ]
  unset-IsEntry false o j h = elim (Bool-cases (k == key)) [
    | inl e ↦ rw (e, h) (subst (λ x. IsEntry layers x true none) (==_true k key e) (unset_none j))
    | inr e ↦ rw e h
  ]

  set-IsEntry :
      (b : Bool) (f : Field) (o : Option Field)
      → IsInherited (rule_of k) (present k layers) (lookup k (leaf_of layers)) f
      → IsEntry layers key b o
      → IsEntry layers key (k == key || b) (if k == key then some f else o)
  set-IsEntry b f o j h = elim (Bool-cases (k == key)) [
    | inl e ↦ rw e (subst (λ x. IsEntry layers x true (some f)) (==_true k key e) j)
    | inr e ↦ rw e h
  ]

  step :
      (b : Bool) (o : Outcome) (r : Resolution)
      → IsOutcome (rule_of k) (present k layers) (lookup k (leaf_of layers)) o
      → IsResolution layers key b r
      → IsResolution layers key (k == key || b) (elim o [
        | disagree ↦ inheritance_conflict k
        | not_iterable ↦ type_error
        | unset ↦ r
        | set f ↦ with_field k f r
      ])
  unfolding with_field lookup
  step b disagree r j h = (given, j.0, j.1)
  step b not_iterable r j h = (k, given, j.0, j.1)
  step b unset (resolved d) j h = unset-IsEntry b (lookup key d) j h
  step b unset (inheritance_conflict c) j h = h
  step b unset type_error j h = h
  step b (set f) (resolved d) j h = set-IsEntry b f (lookup key d) j h
  step b (set f) (inheritance_conflict c) j h = h
  step b (set f) type_error j h = h

resolve_keys-IsResolution :
    (layers : List (Dict Value)) (key : String) (keys : List String)
    → ((k : String) → contains keys k ≡ true → is_given k layers ≡ true)
    → IsResolution layers key (contains keys key) (resolve_keys layers keys)
unfolding resolve_keys resolve_field lookup
resolve_keys-IsResolution layers key [] given = refl
resolve_keys-IsResolution layers key (k ∷ keys) given =
    step layers k key (given k (ground (arith, ==_refl k))) (contains keys key)
      (resolve_field k layers) (resolve_keys layers keys)
      (by_rule-IsOutcome (rule_of k) (present k layers) (lookup k (leaf_of layers)))
      (resolve_keys-IsResolution layers key keys (λ j h. given j (ground (arith, h))))

-- The ending: the metadata that the schema makes of the resolved fields, a conflict that is one, an error
-- that a union of what is no collection makes, or the refusal of the schema.
abbrev pub IsEnding :
    {M : Type 0} → (schema : Dict Field → Option M) → List (Dict Value) → Ending M → Type 0
IsEnding schema layers (metadata m) =
    (d : Dict Field) × (schema d ≡ some m)
    × ((key : String) → IsEntry layers key (is_given key layers) (lookup key d))
IsEnding schema layers validation_error =
    (d : Dict Field) × (schema d ≡ none)
    × ((key : String) → IsEntry layers key (is_given key layers) (lookup key d))
IsEnding schema layers (locked_conflict k) =
    (is_given k layers ≡ true) × (rule_of k ≡ locked_rule) × ¬ IsAgreed (present k layers)
IsEnding schema layers union_error =
    (k : String) × (is_given k layers ≡ true)
    × (rule_of k ≡ union_rule)
    × (any is_barren (present k layers) ≡ true)

build-IsEnding :
    {M : Type 0} (schema : Dict Field → Option M) (layers : List (Dict Value)) (r : Resolution)
    → ((key : String) → IsResolution layers key (is_given key layers) r)
    → IsEnding schema layers (build schema r)
unfolding build
build-IsEnding schema layers (inheritance_conflict k) h = h k
build-IsEnding schema layers type_error h = h ""
build-IsEnding schema layers (resolved d) h = elim (Option-cases (schema d)) [
  | inl e ↦ rw (build, e) (d, e, h)
  | inr (m, e) ↦ rw (build, e) (d, e, h)
]

-- The resolution of a chain ends in one of four ways. It resolves the fields that the schema knows and
-- some layer has, each as its rule says, and no other, and the schema makes the metadata of them, or
-- refuses them; or it reports a conflict on a locked field, for which two layers have different values;
-- or a value that a union takes cannot be iterated.
pub resolve_metadata-IsEnding :
    {M : Type 0} (schema : Dict Field → Option M) (layers : List (Dict Value))
    → IsEnding schema layers (resolve_metadata schema layers)
unfolding resolve_metadata
resolve_metadata-IsEnding schema layers =
    build-IsEnding schema layers (resolve_keys layers (keys_from [] layers)) (λ key.
      subst (λ b. IsResolution layers key b (resolve_keys layers (keys_from [] layers)))
        (contains-keys_from key [] layers)
        (resolve_keys-IsResolution layers key (keys_from [] layers)
          (λ k h. sym (contains-keys_from k [] layers) ∙ h)))
