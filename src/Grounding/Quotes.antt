-- ===== src/Grounding/Quotes.antt =====
-- grounding/quotes.py: the quoted spans of a document.
pub mod Longest
use legal_system.Prelude.{
  ℕ, ◌+◌, ◌≤◌, String, Bool, true, false, not, ◌&&◌, ◌||◌, Option, none, some, List, [], ◌∷◌, ◌++◌,
  ltb, leb, eqb, ◌≡◌, ◌⊎◌, ◌↔◌, refl, inl, inr, arith, Bool-cases, Option-cases, length, All, IsIn,
  if◌then◌else◌,
}
use legal_system.Prelude.Words.{has_text, text_length, count_letters}
use legal_system.Prelude.Sort.{sort_by, IsSorted, sort_by-IsSorted, sort_by-All, sort_by-IsIn}
use legal_system.Grounding.Primary.{normalize_quote}

-- The group of a match, and its place.
pub record Span : Type 0 where
  pub text : String
  pub start : ℕ
  pub stop : ℕ

-- What `re` finds for the patterns of this file.
pub record Marks : Type 0 where
  pub double_quoted : String → List Span
  pub blockquoted : String → List Span
  pub is_navigation : String → Bool
  pub year_tags : String → ℕ

abbrev pub min_quote_chars : ℕ
min_quote_chars = 25

abbrev pub max_quote_chars : ℕ
max_quote_chars = 1500

pub record Quote : Type 0 where
  pub raw : String
  pub normalized : String
  pub start : ℕ
  pub stop : ℕ

unfoldable pub looks_like_prose : Marks → (raw normalized : String) → Bool
unfolding has_text count_letters
looks_like_prose re raw normalized =
    if has_text "\n\n" raw
    then false
    else if re.is_navigation raw
    then false
    else if leb 3 (re.year_tags raw)
    then false
    else leb (text_length normalized) (count_letters normalized + count_letters normalized)

unfoldable pub add : Marks → Span → List Quote → List Quote
unfolding looks_like_prose
add re span spans =
    let normalized = normalize_quote span.text in
    if ltb (text_length normalized) min_quote_chars || ltb max_quote_chars (text_length normalized)
    then spans
    else if not (looks_like_prose re span.text normalized)
    then spans
    else spans
      ++ record { raw = span.text; normalized = normalized; start = span.start; stop = span.stop }
        ∷ []

unfoldable pub add_spans : Marks → List Span → List Quote → List Quote
unfolding add
add_spans re [] spans = spans
add_spans re (m ∷ ms) spans = add_spans re ms (add re m spans)

-- `best[q.start] = q` where that is empty or holds a shorter span; `best` keeps the order of its keys.
unfoldable pub keep_longest : Quote → List Quote → List Quote
keep_longest q [] = q ∷ []
keep_longest q (b ∷ best) =
    let rest = keep_longest q best in
    if eqb b.start q.start
    then (if ltb (text_length b.raw) (text_length q.raw) then q else b) ∷ best
    else b ∷ rest

unfoldable pub longest : List Quote → List Quote → List Quote
unfolding keep_longest
longest best [] = best
longest best (q ∷ qs) = longest (keep_longest q best) qs

abbrev pub starts_no_later : Quote → Quote → Bool
starts_no_later a b = leb a.start b.start

unfoldable pub find_quotes : Marks → String → List Quote
unfolding add_spans longest sort_by
find_quotes re text =
    sort_by starts_no_later
      (longest [] (add_spans re (re.blockquoted text) (add_spans re (re.double_quoted text) [])))
