-- ===== src/Prelude/Text.antt =====
-- Python's `str` methods that the program calls, on texts as lists of characters. `lower` and `strip`
-- are those of ASCII text: hashes, file extensions, metadata keys and reasons.
use Prim.Native.Char.{Char, code}
use Prim.Native.String.{String, char_at, ◌++◌ as ◌<>◌}
use legal_system.Prelude.Tests.{leb, eqb, ◌==◌, string_dec, if◌then◌else◌}
use legal_system.Prelude.Lists.{contains, all}
use Prim.Native.Nat.{ℕ, zero, suc, ◌-◌, ◌<◌}
use mathlib.Core.Path.{◌≡◌, refl, subst, sym, ap, ◌∙◌}
use mathlib.Core.Bool.{Bool, true, false, not, ◌&&◌, ◌||◌}
use mathlib.Core.List.{List, [], ◌∷◌}
use native.Mathlib.Omega.{arith}
use text.Mathlib.TextLemmas.{nil-append, cons-append, append-nil}

abbrev pub nil : String
nil = String.[]

-- Truth of a text, as in `if not s`.
abbrev pub truthy : String → Bool
truthy String.[] = false
truthy (String.◌∷◌ c s) = true

abbrev alphabet : String
alphabet = "abcdefghijklmnopqrstuvwxyz"

pub is_upper : ℕ → Bool
is_upper n = leb b'A' n && leb n b'Z'

pub lower_char : Char → Char
unfolding is_upper
lower_char c = if is_upper (code c) then char_at alphabet (code c - b'A') else c

-- `s.lower()`
unfoldable pub lower : String → String
unfolding lower_char
lower String.[] = String.[]
lower (String.◌∷◌ c s) = String.◌∷◌ (lower_char c) (lower s)

-- `s.startswith(p)`
unfoldable pub starts_with : String → String → Bool
starts_with s String.[] = true
starts_with String.[] (String.◌∷◌ d p) = false
starts_with (String.◌∷◌ c s) (String.◌∷◌ d p) = eqb (code c) (code d) && starts_with s p

-- `s[::-1]`, onto a text.
reverse_onto : String → String → String
reverse_onto t String.[] = t
reverse_onto t (String.◌∷◌ c s) = reverse_onto (String.◌∷◌ c t) s

unfoldable pub reverse : String → String
unfolding reverse_onto
reverse s = reverse_onto String.[] s

-- `s.endswith(p)`
unfoldable pub ends_with : String → String → Bool
unfolding reverse starts_with
ends_with s p = starts_with (reverse s) (reverse p)

unfoldable pub is_space : ℕ → Bool
is_space n = eqb n 32 || (leb 9 n && leb n 13) || (leb 28 n && leb n 31)

unfoldable pub strip_left : String → String
unfolding is_space
strip_left String.[] = String.[]
strip_left (String.◌∷◌ c s) =
    let rest = strip_left s in if is_space (code c) then rest else String.◌∷◌ c s

-- `s.strip()`
unfoldable pub strip : String → String
unfolding strip_left reverse
strip s = reverse (strip_left (reverse (strip_left s)))

pub starts_with_refl : (s : String) → starts_with s s ≡ true
unfolding starts_with
starts_with_refl String.[] = refl
starts_with_refl (String.◌∷◌ c s) = ground (arith, starts_with_refl s)

pub starts_with_trans :
    (s p q : String) → starts_with s p ≡ true → starts_with p q ≡ true → starts_with s q ≡ true
unfolding starts_with
starts_with_trans s p String.[] h k = refl
starts_with_trans s String.[] (String.◌∷◌ e q) h k = cc
starts_with_trans String.[] (String.◌∷◌ d p) (String.◌∷◌ e q) h k = cc
starts_with_trans (String.◌∷◌ c s) (String.◌∷◌ d p) (String.◌∷◌ e q) h k =
    ground (arith, starts_with_trans s p q)

-- No letter of the alphabet is a capital.
abbrev is_small : ℕ → Bool
is_small n = not (is_upper (code (char_at alphabet n)))

first_are_small : ℕ → Bool
first_are_small zero = true
first_are_small (suc k) = if is_small k then first_are_small k else false

small-first_are_small : (k j : ℕ) → j < k → first_are_small k ≡ true → is_small j ≡ true
unfolding first_are_small
small-first_are_small (suc k) j below h = ground (arith, small-first_are_small k j)
small-first_are_small zero j below h = ground arith

alphabet_small : first_are_small 26 ≡ true
unfolding first_are_small is_upper
alphabet_small = refl

lower_char_idem : (c : Char) → lower_char (lower_char c) ≡ lower_char c
unfolding lower_char is_upper
lower_char_idem c =
    let rank = code c - b'A' in ground (arith, small-first_are_small 26 rank, alphabet_small)

-- Lower-casing twice is lower-casing once.
pub lower_idem : (s : String) → lower (lower s) ≡ lower s
unfolding lower
lower_idem String.[] = refl
lower_idem (String.◌∷◌ c s) = cc (lower_char_idem c, lower_idem s)

pub truthy-lower : (s : String) → truthy (lower s) ≡ truthy s
unfolding lower
truthy-lower String.[] = refl
truthy-lower (String.◌∷◌ c s) = refl

-- `re.sub(r"[\s_\-]+", "", s)`
unfoldable pub drop_separators : String → String
unfolding is_space
drop_separators String.[] = nil
drop_separators (String.◌∷◌ c s) =
    let rest = drop_separators s in
    if is_space (code c) || eqb (code c) b'_' || eqb (code c) b'-' then rest else String.◌∷◌ c rest

pub truthy_of_eq : (s t : String) → truthy s ≡ true → (s == t) ≡ true → truthy t ≡ true
truthy_of_eq s t h e = elim (string_dec s t) [
  | yes p ↦ subst (λ u. truthy u ≡ true) p h
  | no n ↦ ground arith
]

pub truthy_of_contains :
    (ks : List String) (s : String) → all truthy ks ≡ true → contains ks s ≡ true → truthy s ≡ true
truthy_of_contains [] s h c = cc
truthy_of_contains (k ∷ ks) s h c = ground (arith, truthy_of_eq k s, truthy_of_contains ks s)

newlines_left : String → String
newlines_left String.[] = String.[]
newlines_left (String.◌∷◌ c s) =
    let rest = newlines_left s in if eqb (code c) 10 then rest else String.◌∷◌ c s

-- `s.rstrip("\n")`
unfoldable pub strip_newlines : String → String
unfolding newlines_left reverse
strip_newlines s = reverse (newlines_left (reverse s))

reverse_onto-append : (u s t : String) → reverse_onto u (s <> t) ≡ reverse_onto (reverse_onto u s) t
unfolding reverse_onto
reverse_onto-append u String.[] t = rw (nil-append t) refl
reverse_onto-append u (String.◌∷◌ c s) t =
    rw (cons-append c s t) (reverse_onto-append (String.◌∷◌ c u) s t)

reverse_onto_twice : (v u s : String) → reverse_onto v (reverse_onto u s) ≡ reverse_onto (s <> v) u
unfolding reverse_onto
reverse_onto_twice v u String.[] = rw (nil-append v) refl
reverse_onto_twice v u (String.◌∷◌ c s) =
    rw (cons-append c s v) (reverse_onto_twice v (String.◌∷◌ c u) s)

strip-brace :
    (s t : String) → reverse_onto nil s ≡ String.◌∷◌ "}" t → reverse (strip_left (reverse s)) ≡ s
unfolding reverse reverse_onto strip_left is_space
strip-brace s t e = rw e (sym (rw e refl) ∙ reverse_onto_twice nil nil s ∙ append-nil s)

pub braces-cons : (t : String) → "{" <> t <> "}" ≡ String.◌∷◌ "{" (t <> "}")
braces-cons t = cons-append "{" "" (t <> "}") ∙ ap (λ s. String.◌∷◌ "{" s) (nil-append (t <> "}"))

-- A text in braces has no blank space around it.
pub strip-braces : (t : String) → strip ("{" <> t <> "}") ≡ "{" <> t <> "}"
unfolding strip reverse reverse_onto strip_left is_space
strip-braces t =
    subst (λ s. strip s ≡ s) (sym (braces-cons t))
      (strip-brace (String.◌∷◌ "{" (t <> "}")) (reverse_onto "{" t) (reverse_onto-append "{" t "}"))
