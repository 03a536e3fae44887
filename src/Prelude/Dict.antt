-- ===== src/Prelude/Dict.antt =====
-- Python's `dict` with text keys, in insertion order.
use legal_system.Prelude.Tests.{◌==◌, if◌then◌else◌, is_some}
use Prim.Native.String.{String}
use legal_system.Prelude.Lists.{IsIn}
use mathlib.Core.Logic.{◌⊎◌, inl, inr}
use mathlib.Core.Path.{◌≡◌, refl, ap}
use mathlib.Core.Bool.{Bool}
use mathlib.Core.Option.{Option, none, some}
use mathlib.Core.List.{List, [], ◌∷◌, map}
use native.Mathlib.Omega.{arith}

abbrev pub Dict {ℓ} : Type ℓ → Type ℓ
Dict V = List (String × V)

module _ {ℓ} {V : Type ℓ} where
  -- `d.get(k)`
  unfoldable pub lookup : String → Dict V → Option V
  lookup k [] = none
  lookup k ((j, v) ∷ d) = if j == k then some v else lookup k d

  -- `k in d`
  abbrev pub has_key : String → Dict V → Bool
  has_key k d = is_some (lookup k d)

  -- `d[k] = v`: an old key keeps its place.
  unfoldable pub insert : String → V → Dict V → Dict V
  insert k v [] = (k, v) ∷ []
  insert k v ((j, w) ∷ d) = if j == k then (j, v) ∷ d else (j, w) ∷ insert k v d

  -- `d.setdefault(k, v)`: the first writer wins.
  unfoldable pub set_default : String → V → Dict V → Dict V
  unfolding insert lookup
  set_default k v d = if has_key k d then d else insert k v d

  pub lookup-insert :
      (j k : String) (v : V) (d : Dict V)
      → lookup j (insert k v d) ≡ (if k == j then some v else lookup j d)
  unfolding lookup insert
  lookup-insert j k v [] = refl
  lookup-insert j k v ((i, w) ∷ d) = ground (arith, lookup-insert j k v d)

  pub lookup-set_default :
      (j k : String) (v : V) (d : Dict V)
      → lookup j (set_default k v d)
        ≡ (if has_key j d then lookup j d else if k == j then some v else none)
  unfolding set_default
  lookup-set_default j k v d = ground (arith, lookup-insert j k v d)

  abbrev pub keys : Dict V → List String
  keys = map (λ (k, _). k)

module _ {V : Type 0} where
  -- No key stands twice.
  abbrev pub IsUnique : Dict V → Type 0
  IsUnique [] = Unit
  IsUnique ((k, v) ∷ d) = (lookup k d ≡ none) × IsUnique d

  pub insert-IsUnique : (k : String) (v : V) (d : Dict V) → IsUnique d → IsUnique (insert k v d)
  unfolding lookup insert
  insert-IsUnique k v [] h = (refl, tt)
  insert-IsUnique k v ((j, w) ∷ d) h =
      ground (arith, insert-IsUnique k v d h.1, lookup-insert j k v d)

  pub lookup-IsIn :
      (k : String) (v : V) (d : Dict V) → IsUnique d → IsIn (k, v) d → lookup k d ≡ some v
  unfolding lookup
  lookup-IsIn k v [] h i = absurd i
  lookup-IsIn k v ((j, w) ∷ d) h (inl e) =
      ground (arith, ap (λ (y : String × V). y.0) e, ap (λ (y : String × V). y.1) e)
  lookup-IsIn k v ((j, w) ∷ d) h (inr i) = ground (arith, h.0, lookup-IsIn k v d h.1 i)

  -- What stands in a dictionary after an insertion is what was inserted, or stood there before.
  pub IsIn-insert :
      (x : String × V) (k : String) (v : V) (d : Dict V)
      → IsIn x (insert k v d)
      → (x ≡ (k, v)) ⊎ IsIn x d
  unfolding insert
  IsIn-insert x k v [] i = i
  IsIn-insert x k v ((j, w) ∷ d) i = ground (arith, IsIn-insert x k v d)
