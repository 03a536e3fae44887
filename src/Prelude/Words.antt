-- ===== src/Prelude/Words.antt =====
-- More of Python's `str`: words, lines, slices, occurrences. Letters and digits are those of ASCII.
use Prim.Native.Char.{Char, code}
use Prim.Native.Nat.{ℕ, zero, suc, ◌-◌}
use Prim.Native.String.{String, char_at, ◌++◌ as ◌<>◌}
use mathlib.Core.Bool.{Bool, true, false, not, ◌&&◌, ◌||◌}
use mathlib.Core.List.{List, [], ◌∷◌}
use legal_system.Prelude.Tests.{leb, eqb, if◌then◌else◌}
use legal_system.Prelude.Text.{nil, truthy, starts_with, is_space}

-- `len(s)`
abbrev pub text_length : String → ℕ
text_length String.[] = 0
text_length (String.◌∷◌ c s) = suc (text_length s)

-- `s[n:]`
unfoldable pub drop_text : ℕ → String → String
drop_text zero s = s
drop_text (suc n) String.[] = nil
drop_text (suc n) (String.◌∷◌ c s) = drop_text n s

-- `s[:n]`
unfoldable pub take_text : ℕ → String → String
take_text zero s = nil
take_text (suc n) String.[] = nil
take_text (suc n) (String.◌∷◌ c s) = String.◌∷◌ c (take_text n s)

-- `s[a:b]`
unfoldable pub slice_text : ℕ → ℕ → String → String
unfolding drop_text take_text
slice_text a b s = take_text (b - a) (drop_text a s)

-- `p in s`
unfoldable pub has_text : String → String → Bool
unfolding starts_with
has_text p String.[] = starts_with String.[] p
has_text p (String.◌∷◌ c s) = starts_with (String.◌∷◌ c s) p || has_text p s

unfoldable pub is_digit : ℕ → Bool
is_digit n = leb b'0' n && leb n b'9'

pub is_alpha : ℕ → Bool
is_alpha n = leb b'A' n && leb n b'Z' || leb b'a' n && leb n b'z'

-- `c.isalnum()`
unfoldable pub is_alnum : ℕ → Bool
unfolding is_digit is_alpha
is_alnum n = is_digit n || is_alpha n

all_digits : String → Bool
unfolding is_digit
all_digits String.[] = true
all_digits (String.◌∷◌ c s) = is_digit (code c) && all_digits s

-- `s.isdigit()`
unfoldable pub isdigit : String → Bool
unfolding all_digits
isdigit s = truthy s && all_digits s

-- `sum(c.isalpha() for c in s)`
unfoldable pub count_letters : String → ℕ
unfolding is_alpha
count_letters String.[] = 0
count_letters (String.◌∷◌ c s) =
    let rest = count_letters s in if is_alpha (code c) then suc rest else rest

capitals : String
capitals = "ABCDEFGHIJKLMNOPQRSTUVWXYZ"

upper_char : Char → Char
unfolding capitals
upper_char c =
    if leb b'a' (code c) && leb (code c) b'z' then char_at capitals (code c - b'a') else c

-- `s.upper()`
unfoldable pub upper : String → String
unfolding upper_char
upper String.[] = nil
upper (String.◌∷◌ c s) = String.◌∷◌ (upper_char c) (upper s)

-- `c` in front of the first piece.
unfoldable pub onto_first : Char → List String → List String
onto_first c [] = String.◌∷◌ c nil ∷ []
onto_first c (p ∷ ps) = String.◌∷◌ c p ∷ ps

-- The first character passes the test.
begins : (ℕ → Bool) → String → Bool
begins p String.[] = false
begins p (String.◌∷◌ c s) = p (code c)

-- The maximal runs of characters that pass the test.
unfoldable pub runs : (ℕ → Bool) → String → List String
unfolding onto_first begins
runs p String.[] = []
runs p (String.◌∷◌ c s) =
    let rest = runs p s in
    if not (p (code c))
    then rest
    else if begins p s
    then onto_first c rest
    else String.◌∷◌ c nil ∷ rest

-- `s.split()`
unfoldable pub words : String → List String
unfolding is_space runs
words s = runs (λ n. not (is_space n)) s

-- `sep.join(ss)`
unfoldable pub join : String → List String → String
join sep [] = nil
join sep (s ∷ []) = s
join sep (s ∷ t ∷ ss) = s <> sep <> join sep (t ∷ ss)

-- `s.splitlines()`, for lines that end in a line feed.
unfoldable pub splitlines : String → List String
unfolding onto_first
splitlines String.[] = []
splitlines (String.◌∷◌ c s) =
    let rest = splitlines s in if eqb (code c) 10 then nil ∷ rest else onto_first c rest

-- `s.replace("_", " ")`
unfoldable pub spaces_for_underscores : String → String
spaces_for_underscores String.[] = nil
spaces_for_underscores (String.◌∷◌ c s) =
    if eqb (code c) b'_'
    then " " <> spaces_for_underscores s
    else String.◌∷◌ c (spaces_for_underscores s)
