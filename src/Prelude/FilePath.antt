-- ===== src/Prelude/FilePath.antt =====
-- `pathlib.PurePosixPath` on relative paths, as their texts.
use Prim.Native.Char.{Char, code}
use Prim.Native.Nat.{ℕ, ◌-◌}
use Prim.Native.String.{String, ◌++◌ as ◌<>◌}
use mathlib.Core.Bool.{not, ◌&&◌}
use mathlib.Core.List.{List, [], ◌∷◌}
use legal_system.Prelude.Lists.{filter}
use legal_system.Prelude.Tests.{eqb, ◌==◌, if◌then◌else◌}
use legal_system.Prelude.Text.{nil, truthy, reverse}
use legal_system.Prelude.Words.{take_text, text_length}

-- A character in front of the first piece.
push : Char → List String → List String
push c [] = String.◌∷◌ c nil ∷ []
push c (p ∷ ps) = String.◌∷◌ c p ∷ ps

-- `s.split(sep)` for a separator of one character.
unfoldable pub split : ℕ → String → List String
unfolding push
split sep String.[] = nil ∷ []
split sep (String.◌∷◌ c s) =
    let rest = split sep s in if eqb (code c) sep then nil ∷ rest else push c rest

-- `Path(s).parts`
unfoldable pub parts : String → List String
unfolding split
parts s = filter (λ p. truthy p && not (p == ".")) (split b'/' s)

join_parts : List String → String
join_parts [] = nil
join_parts (p ∷ []) = p
join_parts (p ∷ q ∷ ps) = p <> "/" <> join_parts (q ∷ ps)

-- `Path(s).as_posix()`
unfoldable pub as_posix : String → String
unfolding join_parts parts
as_posix s = elim (parts s) [ [] ↦ "." | p ∷ ps ↦ join_parts (p ∷ ps) ]

last : List String → String
last [] = nil
last (p ∷ []) = p
last (p ∷ q ∷ ps) = last (q ∷ ps)

-- `Path(s).parts[0]`, or the empty text.
unfoldable pub first_part : String → String
unfolding parts
first_part s = elim (parts s) [ [] ↦ nil | p ∷ ps ↦ p ]

-- `Path(s).name`
unfoldable pub name : String → String
unfolding last parts
name s = last (parts s)

-- The suffix of a name that is read backwards: `ext` is what has been read of it.
suffix_from : String → String → String
suffix_from ext String.[] = nil
suffix_from ext (String.◌∷◌ c rest) =
    let more = suffix_from (String.◌∷◌ c ext) rest in
    if eqb (code c) b'.'
    then (if truthy ext && truthy rest then String.◌∷◌ c ext else nil)
    else more

-- `Path(s).suffix`: from the last dot, which neither begins nor ends the name.
unfoldable pub suffix : String → String
unfolding suffix_from name reverse
suffix s = suffix_from nil (reverse (name s))

-- `Path(s).stem`: the name without its suffix.
unfoldable pub stem : String → String
unfolding name suffix suffix_from take_text
stem s = take_text (text_length (name s) - text_length (suffix s)) (name s)
