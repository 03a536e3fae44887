-- ===== src/Prelude/Lists.antt =====
-- Lists under Boolean tests, and their lengths as native numbers.
use Prim.Native.Nat.{ℕ, zero, suc, ◌+◌, min, Ordering}
use Prim.Native.String.{String, compare}
use mathlib.Core.Path.{◌≡◌, refl, sym}
use mathlib.Core.Logic.{◌⊎◌, ◌↔◌, inl, inr}
use mathlib.Core.Bool.{Bool, true, false, not, ◌&&◌, ◌||◌}
use mathlib.Core.List.{List, [], ◌∷◌, ◌++◌}
use mathlib.Core.Option.{Option, none, some}
use native.Mathlib.Omega.{arith}
use legal_system.Prelude.Tests.{◌==◌, Bool-cases, if◌then◌else◌, is_some}

-- `sorted(xs)` by code points, as an insertion sort.
insert_sorted : String → List String → List String
insert_sorted s [] = s ∷ []
insert_sorted s (x ∷ xs) =
    let rest = insert_sorted s xs in elim (compare s x) [ Ordering.gt ↦ x ∷ rest | _ ↦ s ∷ x ∷ xs ]

unfoldable pub sorted : List String → List String
unfolding insert_sorted
sorted [] = []
sorted (x ∷ xs) = insert_sorted x (sorted xs)

-- `x in xs`
abbrev pub contains : List String → String → Bool
contains [] s = false
contains (x ∷ xs) s = x == s || contains xs s

module _ {ℓ} {A : Type ℓ} where
  abbrev pub length : List A → ℕ
  length [] = 0
  length (x ∷ xs) = suc (length xs)

  abbrev pub take : ℕ → List A → List A
  take zero xs = []
  take (suc n) [] = []
  take (suc n) (x ∷ xs) = x ∷ take n xs

  abbrev pub any : (A → Bool) → List A → Bool
  any p [] = false
  any p (x ∷ xs) = p x || any p xs

  abbrev pub all : (A → Bool) → List A → Bool
  all p [] = true
  all p (x ∷ xs) = p x && all p xs

  -- `[x for x in xs if p(x)]`
  abbrev pub filter : (A → Bool) → List A → List A
  filter p [] = []
  filter p (x ∷ xs) = let rest = filter p xs in if p x then x ∷ rest else rest

  -- `sum(1 for x in xs if p(x))`
  abbrev pub count_if : (A → Bool) → List A → ℕ
  count_if p [] = 0
  count_if p (x ∷ xs) = let rest = count_if p xs in if p x then suc rest else rest

  -- `next((x for x in xs if p(x)), None)`
  abbrev pub find : (A → Bool) → List A → Option A
  find p [] = none
  find p (x ∷ xs) = if p x then some x else find p xs

  pub find-append_one :
      (p : A → Bool) (xs : List A) (a : A)
      → find p (xs ++ a ∷ [])
        ≡ (if is_some (find p xs) then find p xs else if p a then some a else none)
  find-append_one p [] a = refl
  find-append_one p (x ∷ xs) a = ground (arith, find-append_one p xs a)

  pub is_some-find : (p : A → Bool) (xs : List A) → is_some (find p xs) ≡ any p xs
  is_some-find p [] = refl
  is_some-find p (x ∷ xs) = ground (arith, is_some-find p xs)

  pub any-append : (p : A → Bool) (xs ys : List A) → any p (xs ++ ys) ≡ (any p xs || any p ys)
  any-append p [] ys = refl
  any-append p (x ∷ xs) ys = ground (arith, any-append p xs ys)

  pub count_if-append :
      (p : A → Bool) (xs ys : List A) → count_if p (xs ++ ys) ≡ count_if p xs + count_if p ys
  count_if-append p [] ys = omega arith
  count_if-append p (x ∷ xs) ys = ground (arith, count_if-append p xs ys)

  pub any-count_if : (p : A → Bool) (xs : List A) → (any p xs ≡ false) ↔ (count_if p xs ≡ 0)
  any-count_if p [] = ground arith
  any-count_if p (x ∷ xs) = ground (arith, any-count_if p xs)

  abbrev pub All {κ} : (A → Type κ) → List A → Type κ
  All P [] = Unit
  All P (x ∷ xs) = P x × All P xs

  pub length-filter : (p : A → Bool) (xs : List A) → length (filter p xs) ≡ count_if p xs
  length-filter p [] = refl
  length-filter p (x ∷ xs) = ground (arith, length-filter p xs)

  pub count_if-add-not :
      (p : A → Bool) (xs : List A) → count_if p xs + count_if (λ x. not (p x)) xs ≡ length xs
  count_if-add-not p [] = omega arith
  count_if-add-not p (x ∷ xs) = ground (arith, count_if-add-not p xs)

  pub length-take : (n : ℕ) (xs : List A) → length (take n xs) ≡ min n (length xs)
  length-take zero xs = omega arith
  length-take (suc n) [] = omega arith
  length-take (suc n) (x ∷ xs) = omega (arith, length-take n xs)

  pub length-append : (xs ys : List A) → length (xs ++ ys) ≡ length xs + length ys
  length-append [] ys = omega arith
  length-append (x ∷ xs) ys = omega (arith, length-append xs ys)

  pub append_assoc : (xs ys zs : List A) → (xs ++ ys) ++ zs ≡ xs ++ (ys ++ zs)
  append_assoc [] ys zs = refl
  append_assoc (x ∷ xs) ys zs = cc (append_assoc xs ys zs)

  pub append_nil : (xs : List A) → xs ++ [] ≡ xs
  append_nil [] = refl
  append_nil (x ∷ xs) = cc (append_nil xs)

module _ {A : Type 0} where
  -- Membership by recursion, which the tactics take apart.
  abbrev pub IsIn : A → List A → Type 0
  IsIn a [] = ⊥
  IsIn a (x ∷ xs) = (a ≡ x) ⊎ IsIn a xs

  pub any-IsIn : (p : A → Bool) (a : A) (xs : List A) → IsIn a xs → p a ≡ true → any p xs ≡ true
  any-IsIn p a (x ∷ xs) (inl e) h = rw (sym e, h) refl
  any-IsIn p a (x ∷ xs) (inr i) h = ground (arith, any-IsIn p a xs i h)
  any-IsIn p a [] i h = absurd i

  pub IsIn-filter :
      (a : A) (p : A → Bool) (xs : List A) → IsIn a (filter p xs) ↔ (IsIn a xs × (p a ≡ true))
  IsIn-filter a p [] = (λ h. absurd h, λ h. h.0)
  IsIn-filter a p (x ∷ xs) = ground (arith, IsIn-filter a p xs)

  pub IsIn-take : (a : A) (n : ℕ) (xs : List A) → IsIn a (take n xs) → IsIn a xs
  IsIn-take a zero xs h = absurd h
  IsIn-take a (suc n) [] h = h
  IsIn-take a (suc n) (x ∷ xs) (inl e) = inl e
  IsIn-take a (suc n) (x ∷ xs) (inr h) = inr (IsIn-take a n xs h)

  pub IsIn-append_left : (a : A) (xs ys : List A) → IsIn a xs → IsIn a (xs ++ ys)
  IsIn-append_left a (x ∷ xs) ys (inl e) = inl e
  IsIn-append_left a (x ∷ xs) ys (inr h) = inr (IsIn-append_left a xs ys h)
  IsIn-append_left a [] ys h = absurd h

  pub IsIn-append_right : (a : A) (xs ys : List A) → IsIn a ys → IsIn a (xs ++ ys)
  IsIn-append_right a [] ys h = h
  IsIn-append_right a (x ∷ xs) ys h = inr (IsIn-append_right a xs ys h)

  -- `a` stands before `b` in the list.
  abbrev pub Precedes : A → A → List A → Type 0
  Precedes a b [] = ⊥
  Precedes a b (x ∷ xs) = ((a ≡ x) × IsIn b xs) ⊎ Precedes a b xs

  pub IsIn-append_cases : (a : A) (xs ys : List A) → IsIn a (xs ++ ys) → IsIn a xs ⊎ IsIn a ys
  IsIn-append_cases a [] ys i = inr i
  IsIn-append_cases a (x ∷ xs) ys (inl e) = inl (inl e)
  IsIn-append_cases a (x ∷ xs) ys (inr i) = elim (IsIn-append_cases a xs ys i) [
    | inl j ↦ inl (inr j)
    | inr j ↦ inr j
  ]

insert_sorted-ne-nil :
    (s : String) (xs : List String)
    → (y : String) × (ys : List String) × (insert_sorted s xs ≡ y ∷ ys)
unfolding insert_sorted
insert_sorted-ne-nil s [] = (s, [], refl)
insert_sorted-ne-nil s (x ∷ xs) =
    elim (compare s x)
      as (λ o.
        (y : String) × (ys : List String) × ((elim o [
          | Ordering.gt ↦ x ∷ insert_sorted s xs
          | _ ↦ s ∷ x ∷ xs
        ])
          ≡ y ∷ ys)) [
            | Ordering.lt ↦ (s, x ∷ xs, refl)
            | Ordering.eq ↦ (s, x ∷ xs, refl)
            | Ordering.gt ↦ (x, insert_sorted s xs, refl)
          ]

-- Whether anything passes a test can be read off the sorted list of what passes it.
pub sorted-filter_cases :
    (p : String → Bool) (xs : List String)
    → ((sorted (filter p xs) ≡ []) × (any p xs ≡ false))
      ⊎ ((y : String) × (ys : List String) × (sorted (filter p xs) ≡ y ∷ ys) × (any p xs ≡ true))
unfolding sorted
sorted-filter_cases p [] = inl (refl, refl)
sorted-filter_cases p (x ∷ xs) = elim (Bool-cases (p x)) [
  | inl e ↦
      let (y, ys, listed) = insert_sorted-ne-nil x (sorted (filter p xs)) in
      rw e (inr (y, ys, listed, refl))
  | inr e ↦ rw e (sorted-filter_cases p xs)
]
