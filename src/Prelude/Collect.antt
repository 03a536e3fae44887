-- ===== src/Prelude/Collect.antt =====
-- The loop that appends what passes a test and breaks when the list has reached its limit.
use Prim.Native.Nat.{ℕ, zero, suc, ◌+◌, max}
use mathlib.Core.Path.{◌≡◌, sym}
use mathlib.Core.Bool.{Bool, true, false}
use mathlib.Core.Option.{Option, none, some}
use mathlib.Core.List.{List, [], ◌∷◌, ◌++◌}
use native.Mathlib.Omega.{arith}
use legal_system.Prelude.Tests.{leb}
use legal_system.Prelude.Lists.{
  length, take, filter, length-append, append_assoc, append_nil, IsIn, IsIn-take, IsIn-filter,
}

module _ {A : Type 0} where
  -- `limit is not None and len(acc) >= limit`
  abbrev pub is_full : Option ℕ → List A → Bool
  is_full none acc = false
  is_full (some n) acc = leb n (length acc)

  -- `for x in xs: if not p(x): continue; acc.append(x); if <full>: break`
  unfoldable pub collect : (A → Bool) → Option ℕ → List A → List A → List A
  collect p limit acc [] = acc
  collect p limit acc (x ∷ xs) = elim (p x) [
    | false ↦ collect p limit acc xs
    | true ↦ elim (is_full limit (acc ++ x ∷ [])) [
      | true ↦ acc ++ x ∷ []
      | false ↦ collect p limit (acc ++ x ∷ []) xs
    ]
  ]

  -- The first elements that pass, at least one even when the limit is 0.
  abbrev pub at_most : Option ℕ → List A → List A
  at_most none xs = xs
  at_most (some n) xs = take (max 1 n) xs

  collect-none : (p : A → Bool) (acc xs : List A) → collect p none acc xs ≡ acc ++ filter p xs
  unfolding collect
  collect-none p acc [] = sym (append_nil acc)
  collect-none p acc (x ∷ xs) = ground (
    arith,
    collect-none p acc xs,
    collect-none p (acc ++ x ∷ []) xs,
    append_assoc acc (x ∷ []) (filter p xs),
  )

  -- With room for `suc k` more.
  collect-some :
      (p : A → Bool) (n : ℕ) (acc xs : List A) (k : ℕ)
      → max 1 n ≡ suc k + length acc
      → collect p (some n) acc xs ≡ acc ++ take (suc k) (filter p xs)
  unfolding collect
  collect-some p n acc [] k h = sym (append_nil acc)
  collect-some p n acc (x ∷ xs) zero h =
      ground (arith, collect-some p n acc xs zero h, length-append acc (x ∷ []))
  collect-some p n acc (x ∷ xs) (suc k) h = ground (
    arith,
    collect-some p n acc xs (suc k) h,
    length-append acc (x ∷ []),
    collect-some p n (acc ++ x ∷ []) xs k,
    append_assoc acc (x ∷ []) (take (suc k) (filter p xs)),
  )

  pub collect-at_most :
      (p : A → Bool) (limit : Option ℕ) (xs : List A)
      → collect p limit [] xs ≡ at_most limit (filter p xs)
  collect-at_most p none xs = collect-none p [] xs
  collect-at_most p (some zero) xs = collect-some p 0 [] xs 0 (omega arith)
  collect-at_most p (some (suc n)) xs = ground (arith, collect-some p (suc n) [] xs n)

  pub IsIn-at_most :
      (a : A) (p : A → Bool) (limit : Option ℕ) (xs : List A)
      → IsIn a (at_most limit (filter p xs))
      → IsIn a xs × (p a ≡ true)
  IsIn-at_most a p none xs h = (IsIn-filter a p xs).0 h
  IsIn-at_most a p (some n) xs h = (IsIn-filter a p xs).0 (IsIn-take a (max 1 n) (filter p xs) h)
