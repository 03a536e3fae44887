-- ===== src/Prelude/Sort.antt =====
-- Python's stable `sorted` with a key, as an insertion sort under a test for "not after".
use Prim.Native.Nat.{Ordering, compare as compare_ℕ}
use Prim.Native.Char.{code}
use Prim.Native.String.{String}
use mathlib.Core.Path.{◌≡◌, refl}
use mathlib.Core.Logic.{◌↔◌, inl, inr}
use mathlib.Core.Bool.{Bool, true, false}
use mathlib.Core.List.{List, [], ◌∷◌}
use native.Mathlib.Omega.{arith}
use legal_system.Prelude.Tests.{if◌then◌else◌, Bool-cases}
use legal_system.Prelude.Lists.{count_if, All, IsIn}

-- `s <= t` on texts, by code points.
unfoldable pub text_le : String → String → Bool
text_le String.[] t = true
text_le (String.◌∷◌ c s) String.[] = false
text_le (String.◌∷◌ c s) (String.◌∷◌ d t) = elim (compare_ℕ (code c) (code d)) [
  | Ordering.lt ↦ true
  | Ordering.eq ↦ text_le s t
  | Ordering.gt ↦ false
]

pub text_le_total : (s t : String) → text_le s t ≡ false → text_le t s ≡ true
unfolding text_le
text_le_total String.[] String.[] h = ground arith
text_le_total String.[] (String.◌∷◌ d t) h = ground arith
text_le_total (String.◌∷◌ c s) String.[] h = refl
text_le_total (String.◌∷◌ c s) (String.◌∷◌ d t) h = ground (arith, text_le_total s t)

pub text_le_trans : (s t u : String) → text_le s t ≡ true → text_le t u ≡ true → text_le s u ≡ true
unfolding text_le
text_le_trans String.[] t u h k = refl
text_le_trans (String.◌∷◌ c s) String.[] u h k = ground arith
text_le_trans (String.◌∷◌ c s) (String.◌∷◌ d t) String.[] h k = ground arith
text_le_trans (String.◌∷◌ c s) (String.◌∷◌ d t) (String.◌∷◌ e u) h k =
    ground (arith, text_le_trans s t u)

module _ {A : Type 0} (le : A → A → Bool) where
  -- Before the first element that it is not after.
  unfoldable pub insert_by : A → List A → List A
  insert_by a [] = a ∷ []
  insert_by a (x ∷ xs) = let rest = insert_by a xs in if le a x then a ∷ x ∷ xs else x ∷ rest

  -- `sorted(xs, key=...)`, where `le a b` is `key(a) <= key(b)`.
  unfoldable pub sort_by : List A → List A
  unfolding insert_by
  sort_by [] = []
  sort_by (x ∷ xs) = insert_by x (sort_by xs)

  -- Nothing stands before something that it is strictly after.
  abbrev pub IsSorted : List A → Type 0
  IsSorted [] = Unit
  IsSorted (x ∷ xs) = All (λ y. le x y ≡ true) xs × IsSorted xs

  insert_by-count_if :
      (p : A → Bool) (a : A) (xs : List A) → count_if p (insert_by a xs) ≡ count_if p (a ∷ xs)
  unfolding insert_by
  insert_by-count_if p a [] = refl
  insert_by-count_if p a (x ∷ xs) = ground (arith, insert_by-count_if p a xs)

  -- Sorting keeps every element as often as it was there.
  pub sort_by-count_if : (p : A → Bool) (xs : List A) → count_if p (sort_by xs) ≡ count_if p xs
  unfolding sort_by
  sort_by-count_if p [] = refl
  sort_by-count_if p (x ∷ xs) =
      ground (arith, insert_by-count_if p x (sort_by xs), sort_by-count_if p xs)

  insert_by-IsIn : (b a : A) (xs : List A) → IsIn b (insert_by a xs) ↔ IsIn b (a ∷ xs)
  unfolding insert_by
  insert_by-IsIn b a [] = (λ h. h, λ h. h)
  insert_by-IsIn b a (x ∷ xs) = ground (arith, insert_by-IsIn b a xs)

  pub sort_by-IsIn : (b : A) (xs : List A) → IsIn b (sort_by xs) ↔ IsIn b xs
  unfolding sort_by
  sort_by-IsIn b [] = (λ h. h, λ h. h)
  sort_by-IsIn b (x ∷ xs) = ground (arith, insert_by-IsIn b x (sort_by xs), sort_by-IsIn b xs)

  insert_by-All : (P : A → Type 0) (a : A) (xs : List A) → P a → All P xs → All P (insert_by a xs)
  unfolding insert_by
  insert_by-All P a [] q h = (q, tt)
  insert_by-All P a (x ∷ xs) q h = elim (Bool-cases (le a x)) [
    | inl e ↦ rw e (q, h)
    | inr e ↦ rw e (h.0, insert_by-All P a xs q h.1)
  ]

  pub sort_by-All : (P : A → Type 0) (xs : List A) → All P xs → All P (sort_by xs)
  unfolding sort_by
  sort_by-All P [] h = tt
  sort_by-All P (x ∷ xs) h = insert_by-All P x (sort_by xs) h.0 (sort_by-All P xs h.1)

  module _ (total : (a b : A) → le a b ≡ false → le b a ≡ true)
      (trans : (a b c : A) → le a b ≡ true → le b c ≡ true → le a c ≡ true) where
    All-trans :
        (a x : A) (xs : List A)
        → le a x ≡ true
        → All (λ y. le x y ≡ true) xs
        → All (λ y. le a y ≡ true) xs
    All-trans a x [] h k = tt
    All-trans a x (y ∷ ys) h k = (trans a x y h k.0, All-trans a x ys h k.1)

    insert_by-IsSorted : (a : A) (xs : List A) → IsSorted xs → IsSorted (insert_by a xs)
    unfolding insert_by
    insert_by-IsSorted a [] h = (tt, tt)
    insert_by-IsSorted a (x ∷ xs) h = elim (Bool-cases (le a x)) [
      | inl e ↦ rw e ((e, All-trans a x xs e h.0), h)
      | inr e ↦
          rw e
            (insert_by-All (λ y. le x y ≡ true) a xs (total a x e) h.0, insert_by-IsSorted a xs h.1)
    ]

    pub sort_by-IsSorted : (xs : List A) → IsSorted (sort_by xs)
    unfolding sort_by
    sort_by-IsSorted [] = tt
    sort_by-IsSorted (x ∷ xs) = insert_by-IsSorted x (sort_by xs) (sort_by-IsSorted xs)
