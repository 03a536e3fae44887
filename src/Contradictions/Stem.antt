-- ===== src/Contradictions/Stem.antt =====
-- query.py: `_doc_stem`, the identity of a document without the marks of its representation, and the words
-- that negate a predicate. A path has no line breaks.
use Prim.Native.Char.{Char, code}
use legal_system.Prelude.{
  ℕ, zero, suc, ◌≤◌, ◌<◌, String, Bool, true, false, ◌&&◌, ◌||◌, Option, none, some, List, [], ◌∷◌,
  ◌≡◌, inl, inr, refl, arith, any, filter, contains, leb, eqb, Option-cases, if◌then◌else◌,
}
use legal_system.Prelude.Text.{nil, truthy, lower, starts_with, ends_with, reverse}
use legal_system.Prelude.Words.{text_length, drop_text, join, runs, is_digit, is_alnum}
use legal_system.Prelude.FilePath.{split}

abbrev format_exts : List String
format_exts =
    "pdf" ∷ "md" ∷ "txt" ∷ "ocr" ∷ "tsv" ∷ "eml" ∷ "docx" ∷ "doc" ∷ "pptx" ∷ "json" ∷ "vtt" ∷ "srt"
    ∷ "html" ∷ "htm" ∷ "rtf" ∷ "csv" ∷ []

abbrev format_dir_tokens : List String
format_dir_tokens =
    "pdf_original" ∷ "ocr_output" ∷ "markdown" ∷ "md" ∷ "text" ∷ "txt" ∷ "tsv" ∷ "ocr" ∷ "images"
    ∷ "img" ∷ "original" ∷ []

-- A match of `_FORMAT_DIR_RE`.
is_ocr_dir : String → Bool
unfolding starts_with ends_with
is_ocr_dir d = leb 5 (text_length d) && (starts_with d "ocr_" || ends_with d "_ocr")

unfoldable pub is_format_dir : String → Bool
unfolding is_ocr_dir lower
is_format_dir d = contains format_dir_tokens (lower d) || is_ocr_dir (lower d)

-- The pieces of a leaf after its first dot without the extensions at their end, however many there are.
unfoldable pub without_exts : List String → List String
without_exts [] = []
without_exts (p ∷ ps) = elim (without_exts ps) [
  | [] ↦ if contains format_exts p then [] else p ∷ []
  | q ∷ qs ↦ p ∷ q ∷ qs
]

-- The first loop.
unfoldable pub strip_exts : String → String
unfolding without_exts split join
strip_exts leaf = elim (split b'.' leaf) [ [] ↦ nil | p ∷ ps ↦ join "." (p ∷ without_exts ps) ]

-- `[ _\-]*`, in a leaf that is read backwards.
unfoldable pub drop_separators : String → String
drop_separators String.[] = nil
drop_separators (String.◌∷◌ c s) =
    let rest = drop_separators s in
    if eqb (code c) b' ' || eqb (code c) b'_' || eqb (code c) b'-' then rest else String.◌∷◌ c s

-- What stands in front of a number in brackets, behind whose bracket the leaf is read backwards.
unfoldable pub before_number : (digits : Bool) → String → Option String
before_number digits String.[] = none
before_number digits (String.◌∷◌ c s) =
    let more = before_number true s in
    if is_digit (code c) then more else if digits && eqb (code c) b'(' then some s else none

unfoldable pub before_brackets : String → Option String
unfolding before_number is_digit
before_brackets String.[] = none
before_brackets (String.◌∷◌ c s) = if eqb (code c) b')' then before_number false s else none

-- What stands in front of a marker at the end of a leaf, which is read backwards.
unfoldable pub before_marker : String → Option String
unfolding starts_with drop_text before_brackets
before_marker leaf =
    if starts_with leaf "rco"
    then some (drop_text 3 leaf)
    else if starts_with leaf "lanigiro"
    then some (drop_text 8 leaf)
    else if starts_with leaf "ypoc"
    then some (drop_text 4 leaf)
    else before_brackets leaf

-- The second loop, on fuel, on a leaf that is read backwards.
unfoldable pub strip_markers : (fuel : ℕ) → String → String
unfolding before_marker drop_separators
strip_markers zero leaf = leaf
strip_markers (suc fuel) leaf = elim (before_marker leaf) [
  | none ↦ leaf
  | some rest ↦ strip_markers fuel (drop_separators rest)
]

unfoldable pub stem_leaf : String → String
unfolding strip_exts strip_markers reverse lower
stem_leaf leaf =
    let bare = reverse (strip_exts (lower leaf)) in reverse (strip_markers (text_length bare) bare)

-- The directories that are kept, and the stem of the leaf.
unfoldable pub stem_parts : List String → List String
unfolding is_format_dir stem_leaf
stem_parts [] = []
stem_parts (leaf ∷ []) = stem_leaf leaf ∷ []
stem_parts (d ∷ p ∷ ps) =
    let rest = stem_parts (p ∷ ps) in if is_format_dir d then rest else d ∷ rest

unfoldable pub doc_stem : Option String → String
unfolding stem_parts split join
doc_stem none = nil
doc_stem (some raw_path) = join "/" (stem_parts (filter truthy (split b'/' raw_path)))

-- One of the alternatives of `_NEGATION_RE`, from a word boundary to the next.
unfoldable pub is_negation_word : String → Bool
unfolding starts_with
is_negation_word w =
    contains
      ("not" ∷ "no" ∷ "never" ∷ "none" ∷ "deny" ∷ "denies" ∷ "denied" ∷ "without" ∷ "fail" ∷ "fails"
        ∷ "failed" ∷ [])
      w
    || any (starts_with w) ("refus" ∷ "declin" ∷ "lack" ∷ [])

-- `bool(_NEGATION_RE.search(text))`
unfoldable pub has_negation : String → Bool
unfolding is_negation_word runs is_alnum
has_negation text = any is_negation_word (runs (λ n. is_alnum n || eqb n b'_') text)

text_length-drop_text : (n : ℕ) (s : String) → text_length (drop_text n s) ≤ text_length s
unfolding drop_text
text_length-drop_text zero s = omega arith
text_length-drop_text (suc n) String.[] = omega arith
text_length-drop_text (suc n) (String.◌∷◌ c s) = omega (arith, text_length-drop_text n s)

text_length-drop_separators : (s : String) → text_length (drop_separators s) ≤ text_length s
unfolding drop_separators
text_length-drop_separators String.[] = omega arith
text_length-drop_separators (String.◌∷◌ c s) = ground (arith, text_length-drop_separators s)

text_length-before_number :
    (digits : Bool) (s t : String) → before_number digits s ≡ some t → text_length t < text_length s
unfolding before_number is_digit
text_length-before_number digits String.[] t h = ground arith
text_length-before_number digits (String.◌∷◌ c s) t h =
    ground (arith, h, text_length-before_number true s t)

text_length-before_brackets :
    (s t : String) → before_brackets s ≡ some t → text_length t < text_length s
unfolding before_brackets
text_length-before_brackets String.[] t h = ground arith
text_length-before_brackets (String.◌∷◌ c s) t h =
    ground (arith, h, text_length-before_number false s t)

text_length-starts_with :
    (n : ℕ) (s : String) (c : Char) (p : String)
    → starts_with s (String.◌∷◌ c p) ≡ true
    → text_length (drop_text (suc n) s) < text_length s
unfolding starts_with drop_text
text_length-starts_with n String.[] c p h = ground arith
text_length-starts_with n (String.◌∷◌ d s) c p h = omega (arith, text_length-drop_text n s)

text_length-before_marker :
    (s t : String) → before_marker s ≡ some t → text_length t < text_length s
unfolding before_marker
text_length-before_marker s t h = ground (
  arith,
  h,
  text_length-starts_with 2 s "r" "co",
  text_length-starts_with 7 s "l" "anigiro",
  text_length-starts_with 3 s "y" "poc",
  text_length-before_brackets s t,
)

-- With as much fuel as the leaf is long, no marker is left.
pub before_marker-strip_markers :
    (fuel : ℕ) (leaf : String)
    → text_length leaf ≤ fuel
    → before_marker (strip_markers fuel leaf) ≡ none
unfolding strip_markers
before_marker-strip_markers zero String.[] h = refl
before_marker-strip_markers zero (String.◌∷◌ c leaf) h = absurd (omega (arith, h))
before_marker-strip_markers (suc fuel) leaf h = elim (Option-cases (before_marker leaf)) [
  | inl e ↦ rw (strip_markers, e) e
  | inr (rest, e) ↦
      rw (strip_markers, e)
        (before_marker-strip_markers fuel (drop_separators rest) (
          omega
            (arith, h, text_length-before_marker leaf rest e, text_length-drop_separators rest)))
]
