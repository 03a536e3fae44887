-- ===== src/Prelude/Lines.antt =====
-- The lines of a text as `str.splitlines` finds them, and a file that lines are appended to.
use Prim.Native.Char.{Char, code}
use Prim.Native.Nat.{ℕ}
use Prim.Native.String.{String, ◌++◌ as ◌<>◌}
use mathlib.Core.Path.{◌≡◌, refl, ap, ◌∙◌, sym}
use mathlib.Core.Logic.{inl, inr}
use mathlib.Core.Bool.{Bool, true, false, ◌&&◌, ◌||◌}
use mathlib.Core.List.{List, [], ◌∷◌, ◌++◌}
use native.Mathlib.Omega.{arith}
use text.Mathlib.TextLemmas.{nil-append, cons-append, append_assoc}
use legal_system.Prelude.Tests.{leb, eqb, if◌then◌else◌, Bool-cases}
use legal_system.Prelude.Text.{nil}
use legal_system.Prelude.Words.{onto_first}

-- The characters that end a line. A carriage return with its line feed makes an empty line more here.
unfoldable pub is_break : ℕ → Bool
is_break n =
    (leb 10 n && leb n 13) || (leb 28 n && leb n 30) || eqb n 0x85 || eqb n 0x2028 || eqb n 0x2029

-- `s.splitlines()`
unfoldable pub split_lines : String → List String
unfolding onto_first
split_lines String.[] = []
split_lines (String.◌∷◌ c s) =
    let rest = split_lines s in if is_break (code c) then nil ∷ rest else onto_first c rest

unfoldable pub has_break : String → Bool
has_break String.[] = false
has_break (String.◌∷◌ c s) = is_break (code c) || has_break s

-- The text is empty or ends with the end of a line.
unfoldable pub ends_line : String → Bool
ends_line String.[] = true
ends_line (String.◌∷◌ c String.[]) = is_break (code c)
ends_line (String.◌∷◌ c (String.◌∷◌ d s)) = ends_line (String.◌∷◌ d s)

onto_first-append :
    (c d : Char) (s : String) (ms : List String)
    → onto_first c (split_lines (String.◌∷◌ d s) ++ ms)
      ≡ onto_first c (split_lines (String.◌∷◌ d s)) ++ ms
unfolding split_lines onto_first
onto_first-append c d s ms = elim (Bool-cases (is_break (code d))) [
  | inl e ↦ rw e refl
  | inr e ↦ rw e (onto_line (split_lines s))
]
  where
    onto_line :
        (ls : List String)
        → onto_first c (onto_first d ls ++ ms) ≡ onto_first c (onto_first d ls) ++ ms
    onto_line [] = refl
    onto_line (l ∷ ls) = refl

-- What is appended to a file whose last line has ended leaves its lines as they are.
pub split_lines-append :
    (s t : String) → ends_line s ≡ true → split_lines (s <> t) ≡ split_lines s ++ split_lines t
unfolding split_lines ends_line
split_lines-append String.[] t h = rw (nil-append t) refl
split_lines-append (String.◌∷◌ c String.[]) t h = rw (cons-append c "" t, nil-append t, h) refl
split_lines-append (String.◌∷◌ c (String.◌∷◌ d s)) t h =
    let rest = split_lines-append (String.◌∷◌ d s) t h in
    elim (Bool-cases (is_break (code c))) [
      | inl e ↦ rw (cons-append c (String.◌∷◌ d s) t, e) (ap (λ ls. nil ∷ ls) rest)
      | inr e ↦
          rw (cons-append c (String.◌∷◌ d s) t, e)
            (ap (onto_first c) rest ∙ onto_first-append c d s (split_lines t))
    ]

pub split_lines-line : (l : String) → has_break l ≡ false → split_lines (l <> "\n") ≡ l ∷ []
unfolding split_lines has_break is_break onto_first
split_lines-line String.[] h = refl
split_lines-line (String.◌∷◌ c s) h =
    let rest = split_lines-line s (ground (arith, h)) in
    let plain : is_break (code c) ≡ false = ground (arith, h) in
    rw (cons-append c s "\n", plain, rest) refl

ends_line-last : (s : String) → ends_line (s <> "\n") ≡ true
unfolding ends_line is_break
ends_line-last String.[] = refl
ends_line-last (String.◌∷◌ c String.[]) = rw (cons-append c "" "\n") refl
ends_line-last (String.◌∷◌ c (String.◌∷◌ d s)) =
    let shifted = cons-append d s "\n" in
    ap ends_line (cons-append c (String.◌∷◌ d s) "\n" ∙ ap (λ x. String.◌∷◌ c x) shifted)
    ∙ ap ends_line (sym shifted)
    ∙ ends_line-last (String.◌∷◌ d s)

pub ends_line-line : (s l : String) → ends_line (s <> l <> "\n") ≡ true
ends_line-line s l = ap ends_line (sym (append_assoc s l "\n")) ∙ ends_line-last (s <> l)
