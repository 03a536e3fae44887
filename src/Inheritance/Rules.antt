-- ===== src/Inheritance/Rules.antt =====
-- metadata/inheritance.py: what each rule of the inheritance makes of a field.
use legal_system.Prelude.{
  ℕ, String, Bool, true, false, not, ◌&&◌, ◌||◌, Option, none, some, List, [], ◌∷◌, ◌++◌, any,
  any-append, length, ltb, eqb, ◌==◌, IsIn, any-IsIn, ◌≡◌, ◌⊎◌, inl, inr, refl, ap, subst, ◌∙◌,
  arith, Bool-cases, Option-cases,
}
use legal_system.Data.{Scalar, null, bool, text, other, Value, one, scalar_eq, is_truthy_value}
use legal_system.Inheritance.{
  Rule, union_rule, leaf_rule, latch_rule, last_rule, locked_rule, Field, value, union, Outcome,
  disagree, not_iterable, unset, set, scalars_of, add_items, merge_values, hashable, is_null,
  distinct, last_value, leaf_value, by_rule,
}

-- What `==` compares of a scalar.
tag : Scalar → ℕ
tag null = 0
tag (bool true) = 1
tag (bool false) = 2
tag (text s) = 3
tag (other s b) = 4

printed : Scalar → String
printed (text s) = s
printed (other s b) = s
printed _ = ""

scalar_eq-code : (x y : Scalar) → scalar_eq x y ≡ (eqb (tag x) (tag y) && printed x == printed y)
unfolding scalar_eq tag printed
scalar_eq-code null null = ground arith
scalar_eq-code null (bool true) = ground arith
scalar_eq-code null (bool false) = ground arith
scalar_eq-code null (text t) = ground arith
scalar_eq-code null (other t q) = ground arith
scalar_eq-code (bool true) null = ground arith
scalar_eq-code (bool true) (bool true) = ground arith
scalar_eq-code (bool true) (bool false) = ground arith
scalar_eq-code (bool true) (text t) = ground arith
scalar_eq-code (bool true) (other t q) = ground arith
scalar_eq-code (bool false) null = ground arith
scalar_eq-code (bool false) (bool true) = ground arith
scalar_eq-code (bool false) (bool false) = ground arith
scalar_eq-code (bool false) (text t) = ground arith
scalar_eq-code (bool false) (other t q) = ground arith
scalar_eq-code (text s) null = ground arith
scalar_eq-code (text s) (bool true) = ground arith
scalar_eq-code (text s) (bool false) = ground arith
scalar_eq-code (text s) (text t) = ground arith
scalar_eq-code (text s) (other t q) = ground arith
scalar_eq-code (other s p) null = ground arith
scalar_eq-code (other s p) (bool true) = ground arith
scalar_eq-code (other s p) (bool false) = ground arith
scalar_eq-code (other s p) (text t) = ground arith
scalar_eq-code (other s p) (other t q) = ground arith

scalar_eq_join :
    (x y z : Scalar) → scalar_eq x z ≡ true → scalar_eq y z ≡ true → scalar_eq x y ≡ true
scalar_eq_join x y z h k =
    ground (arith, h, k, scalar_eq-code x y, scalar_eq-code x z, scalar_eq-code y z)

scalar_eq_trans :
    (x y z : Scalar) → scalar_eq x y ≡ true → scalar_eq y z ≡ true → scalar_eq x z ≡ true
scalar_eq_trans x y z h k =
    ground (arith, h, k, scalar_eq-code x y, scalar_eq-code x z, scalar_eq-code y z)

any-scalar_eq_trans :
    (x y : Scalar) (zs : List Scalar)
    → scalar_eq x y ≡ true
    → any (scalar_eq y) zs ≡ true
    → any (scalar_eq x) zs ≡ true
any-scalar_eq_trans x y [] h k = ground arith
any-scalar_eq_trans x y (z ∷ zs) h k = elim (Bool-cases (scalar_eq y z)) [
  | inl e ↦ ground (arith, scalar_eq_trans x y z h e)
  | inr e ↦ ground (arith, any-scalar_eq_trans x y zs h (ground arith))
]

-- A union holds what its parts hold.
any-add_items :
    (x : Scalar) (merged xs : List Scalar)
    → any (scalar_eq x) (add_items merged xs) ≡ (any (scalar_eq x) merged || any (scalar_eq x) xs)
unfolding add_items
any-add_items x merged [] = ground arith
any-add_items x merged (y ∷ xs) = elim (Bool-cases (any (scalar_eq y) merged)) [
  | inl e ↦ ground (arith, any-add_items x merged xs, any-scalar_eq_trans x y merged)
  | inr e ↦
      ground
        (arith, any-add_items x (merged ++ y ∷ []) xs, any-append (scalar_eq x) merged (y ∷ []))
]

abbrev pub gives : Scalar → Value → Bool
gives x v = elim (scalars_of v) [ none ↦ false | some xs ↦ any (scalar_eq x) xs ]

abbrev pub is_barren : Value → Bool
is_barren v = elim (scalars_of v) [ none ↦ true | some xs ↦ false ]

-- The outcome of a union, onto what is merged.
abbrev IsUnion : List Scalar → List Value → Outcome → Type 0
IsUnion merged vs (set f) =
    (xs : List Scalar) × (f ≡ union xs)
    × ((x : Scalar) → any (scalar_eq x) xs ≡ (any (scalar_eq x) merged || any (gives x) vs))
IsUnion merged vs not_iterable = any is_barren vs ≡ true
IsUnion merged vs _ = ⊥

gives-some :
    (x : Scalar) (v : Value) (xs : List Scalar)
    → scalars_of v ≡ some xs
    → gives x v ≡ any (scalar_eq x) xs
gives-some x v xs e = rw (gives, e) refl

IsUnion-later :
    (merged xs : List Scalar) (v : Value) (vs : List Value) (o : Outcome)
    → scalars_of v ≡ some xs
    → IsUnion (add_items merged xs) vs o
    → IsUnion merged (v ∷ vs) o
IsUnion-later merged xs v vs (set f) e (ys, p, q) =
    (ys, p, λ x. ground (arith, q x, any-add_items x merged xs, gives-some x v xs e))
IsUnion-later merged xs v vs not_iterable e h = ground (arith, h)
IsUnion-later merged xs v vs disagree e h = absurd h
IsUnion-later merged xs v vs unset e h = absurd h

merge_values-IsUnion :
    (merged : List Scalar) (vs : List Value) → IsUnion merged vs (merge_values merged vs)
unfolding merge_values
merge_values-IsUnion merged [] = (merged, refl, λ x. ground arith)
merge_values-IsUnion merged (v ∷ vs) = elim (Option-cases (scalars_of v)) [
  | inl e ↦ rw (merge_values, e) (ground arith)
  | inr (xs, e) ↦ subst (IsUnion merged (v ∷ vs)) (rw (merge_values, e) refl) (
      IsUnion-later merged xs v vs (merge_values (add_items merged xs) vs) e
        (merge_values-IsUnion (add_items merged xs) vs))
]

-- The value of the last layer that has the field.
abbrev pub IsLast : List Value → Field → Type 0
IsLast vs f = (before : List Value) × (v : Value) × (vs ≡ before ++ v ∷ []) × (f ≡ value v)

abbrev IsLastOf : List Value → Outcome → Type 0
IsLastOf vs (set f) = IsLast vs f
IsLastOf vs unset = vs ≡ []
IsLastOf vs _ = ⊥

IsLastOf-later :
    (v w : Value) (vs : List Value) (o : Outcome) → IsLastOf (w ∷ vs) o → IsLastOf (v ∷ w ∷ vs) o
IsLastOf-later v w vs (set f) (before, x, p, q) = (v ∷ before, x, ap (λ xs. v ∷ xs) p, q)
IsLastOf-later v w vs unset h = ground arith
IsLastOf-later v w vs disagree h = absurd h
IsLastOf-later v w vs not_iterable h = absurd h

last_value-IsLastOf : (vs : List Value) → IsLastOf vs (last_value vs)
unfolding last_value
last_value-IsLastOf [] = refl
last_value-IsLastOf (v ∷ []) = ([], v, refl, refl)
last_value-IsLastOf (v ∷ w ∷ vs) =
    IsLastOf-later v w vs (last_value (w ∷ vs)) (last_value-IsLastOf (w ∷ vs))

any-distinct :
    (x : Scalar) (seen : List Scalar) (vs : List Value)
    → any (scalar_eq x) (distinct seen vs)
      ≡ (any (scalar_eq x) seen || any (λ v. not (is_null v) && scalar_eq x (hashable v)) vs)
unfolding distinct
any-distinct x seen [] = ground arith
any-distinct x seen (v ∷ vs) = elim (Bool-cases (any (scalar_eq (hashable v)) seen)) [
  | inl e ↦ ground (arith, any-distinct x seen vs, any-scalar_eq_trans x (hashable v) seen)
  | inr e ↦ ground (arith, any-distinct x seen vs, any-distinct x (hashable v ∷ seen) vs)
]

-- Two values of a locked field that are not null are equal.
abbrev agree : Value → Value → Bool
agree v w = is_null v || is_null w || scalar_eq (hashable v) (hashable w)

abbrev pub IsAgreed : List Value → Type 0
IsAgreed vs = (v : Value) → IsIn v vs → (w : Value) → IsIn w vs → agree v w ≡ true

scalar_eq_refl : (x : Scalar) → scalar_eq x x ≡ true
scalar_eq_refl x = ground (arith, scalar_eq-code x x)

distinct_one :
    (m : Value) (vs : List Value)
    → is_null m ≡ false
    → ((v : Value) → IsIn v vs → agree v m ≡ true)
    → distinct (hashable m ∷ []) vs ≡ hashable m ∷ []
unfolding distinct
distinct_one m [] h agreed = refl
distinct_one m (v ∷ vs) h agreed =
    let rest = distinct_one m vs h (λ w i. agreed w (inr i)) in
    ground (arith, rest, h, agreed v (inl refl))

distinct-agreed : (vs : List Value) → IsAgreed vs → ltb 1 (length (distinct [] vs)) ≡ false
unfolding distinct
distinct-agreed [] agreed = refl
distinct-agreed (v ∷ vs) agreed = elim (Bool-cases (is_null v)) [
  | inl e ↦ rw (distinct, e) (distinct-agreed vs (λ w i u j. agreed w (inr i) u (inr j)))
  | inr e ↦
      let same = distinct_one v vs e (λ w i. agreed w (inr i) v (inl refl)) in
      rw (distinct, e, same) refl
]

at_most_one :
    (x y : Scalar) (ms : List Scalar)
    → ltb 1 (length ms) ≡ false
    → any (scalar_eq x) ms ≡ true
    → any (scalar_eq y) ms ≡ true
    → scalar_eq x y ≡ true
at_most_one x y [] h i j = ground arith
at_most_one x y (m ∷ []) h i j = ground (arith, i, j, scalar_eq_join x y m)
at_most_one x y (m ∷ n ∷ ms) h i j = ground (arith, h)

held :
    (v : Value) (vs : List Value)
    → IsIn v vs
    → is_null v ≡ false
    → any (λ w. not (is_null w) && scalar_eq (hashable v) (hashable w)) vs ≡ true
held v vs i h =
    any-IsIn (λ w. not (is_null w) && scalar_eq (hashable v) (hashable w)) v vs i
      (ground (arith, h, scalar_eq_refl (hashable v)))

distinct-IsAgreed : (vs : List Value) → ltb 1 (length (distinct [] vs)) ≡ false → IsAgreed vs
distinct-IsAgreed vs h v i w j = elim (Bool-cases (is_null v || is_null w)) [
  | inl e ↦ ground (arith, e)
  | inr e ↦ ground (
    arith,
    e,
    at_most_one (hashable v) (hashable w) (distinct [] vs) h
        (any-distinct (hashable v) [] vs ∙ held v vs i (ground (arith, e)))
        (any-distinct (hashable w) [] vs ∙ held w vs j (ground (arith, e))),
  )
]

-- What the rule makes of the values that the layers have for a field, from the root on: a union holds
-- exactly what the values hold; a field of the leaf has its value; a latch is set exactly if some value
-- is truthy; any other field has the last value, and one that is locked has no two that differ.
abbrev pub IsInherited : Rule → List Value → (leaf : Option Value) → Field → Type 0
IsInherited union_rule vs leaf f =
    (xs : List Scalar) × (f ≡ union xs) × ((x : Scalar) → any (scalar_eq x) xs ≡ any (gives x) vs)
IsInherited leaf_rule vs leaf f = (v : Value) × (leaf ≡ some v) × (f ≡ value v)
IsInherited latch_rule vs leaf f = f ≡ value (one (bool (any is_truthy_value vs)))
IsInherited last_rule vs leaf f = IsLast vs f
IsInherited locked_rule vs leaf f = IsLast vs f × IsAgreed vs

abbrev pub IsOutcome : Rule → List Value → (leaf : Option Value) → Outcome → Type 0
IsOutcome rule vs leaf disagree = (rule ≡ locked_rule) × ¬ IsAgreed vs
IsOutcome rule vs leaf not_iterable = (rule ≡ union_rule) × (any is_barren vs ≡ true)
IsOutcome rule vs leaf unset = ((rule ≡ leaf_rule) × (leaf ≡ none)) ⊎ (vs ≡ [])
IsOutcome rule vs leaf (set f) = IsInherited rule vs leaf f

union_outcome :
    (vs : List Value) (leaf : Option Value) (o : Outcome)
    → IsUnion [] vs o
    → IsOutcome union_rule vs leaf o
union_outcome vs leaf (set f) (xs, p, q) = (xs, p, λ x. q x)
union_outcome vs leaf not_iterable h = (refl, h)
union_outcome vs leaf disagree h = absurd h
union_outcome vs leaf unset h = absurd h

last_outcome :
    (vs : List Value) (leaf : Option Value) (o : Outcome)
    → IsLastOf vs o
    → IsOutcome last_rule vs leaf o
last_outcome vs leaf (set f) h = h
last_outcome vs leaf unset h = inr h
last_outcome vs leaf disagree h = absurd h
last_outcome vs leaf not_iterable h = absurd h

locked_outcome :
    (vs : List Value) (leaf : Option Value) (o : Outcome)
    → IsAgreed vs
    → IsLastOf vs o
    → IsOutcome locked_rule vs leaf o
locked_outcome vs leaf (set f) agreed h = (h, agreed)
locked_outcome vs leaf unset agreed h = inr h
locked_outcome vs leaf disagree agreed h = absurd h
locked_outcome vs leaf not_iterable agreed h = absurd h

leaf_value-IsOutcome :
    (vs : List Value) (leaf : Option Value) → IsOutcome leaf_rule vs leaf (leaf_value leaf)
unfolding leaf_value
leaf_value-IsOutcome vs none = inl (refl, refl)
leaf_value-IsOutcome vs (some v) = (v, refl, refl)

pub by_rule-IsOutcome :
    (rule : Rule) (vs : List Value) (leaf : Option Value)
    → IsOutcome rule vs leaf (by_rule rule vs leaf)
unfolding by_rule
by_rule-IsOutcome union_rule vs leaf =
    union_outcome vs leaf (merge_values [] vs) (merge_values-IsUnion [] vs)
by_rule-IsOutcome leaf_rule vs leaf = leaf_value-IsOutcome vs leaf
by_rule-IsOutcome latch_rule vs leaf = refl
by_rule-IsOutcome last_rule vs leaf = last_outcome vs leaf (last_value vs) (last_value-IsLastOf vs)
by_rule-IsOutcome locked_rule vs leaf = elim (Bool-cases (ltb 1 (length (distinct [] vs)))) [
  | inl e ↦ rw (by_rule, e) (refl, λ agreed. ground (arith, e, distinct-agreed vs agreed))
  | inr e ↦
      rw (by_rule, e)
        (locked_outcome vs leaf (last_value vs) (distinct-IsAgreed vs e) (last_value-IsLastOf vs))
]
