-- ===== src/Grounding/Quotes/Longest.antt =====
-- grounding/quotes.py: what `find_quotes` keeps of the spans that are found.
use legal_system.Prelude.{
  ℕ, ◌≤◌, ◌<◌, max, String, Bool, true, ◌&&◌, ◌||◌, List, [], ◌∷◌, ◌++◌, ltb, leb, eqb, ◌≡◌, ◌⊎◌,
  refl, inl, inr, arith, Bool-cases, All, any, any-append, any-IsIn, any-count_if, append_nil, IsIn,
  count_if, if◌then◌else◌,
}
use legal_system.Prelude.Words.{text_length}
use legal_system.Prelude.Sort.{sort_by, IsSorted, sort_by-IsSorted, sort_by-All, sort_by-count_if}
use legal_system.Grounding.Primary.{normalize_quote}
use legal_system.Grounding.Quotes.{
  Span, Marks, Quote, min_quote_chars, max_quote_chars, looks_like_prose, add, add_spans,
  keep_longest, longest, starts_no_later, find_quotes,
}

-- The guards that a kept span has passed.
abbrev pub IsPassage : Marks → Quote → Type 0
IsPassage re q =
    (q.normalized ≡ normalize_quote q.raw)
    × (min_quote_chars ≤ text_length q.normalized)
    × (text_length q.normalized ≤ max_quote_chars)
    × (looks_like_prose re q.raw q.normalized ≡ true)

All-append :
    {A : Type 0} (P : A → Type 0) (xs : List A) (a : A) → All P xs → P a → All P (xs ++ a ∷ [])
All-append P [] a h p = (p, tt)
All-append P (x ∷ xs) a h p = (h.0, All-append P xs a h.1 p)

add-IsPassage :
    (re : Marks) (span : Span) (spans : List Quote)
    → All (IsPassage re) spans
    → All (IsPassage re) (add re span spans)
unfolding add
add-IsPassage re span spans h =
    let normalized = normalize_quote span.text in
    elim (Bool-cases (
      ltb (text_length normalized) min_quote_chars
      || ltb max_quote_chars (text_length normalized))) [
        | inl e ↦ rw e h
        | inr e ↦ elim (Bool-cases (looks_like_prose re span.text normalized)) [
          | inr d ↦ rw (e, d) h
          | inl d ↦
              rw (e, d) (All-append (IsPassage re) spans _ h (refl, ground arith, ground arith, d))
        ]
      ]

add_spans-IsPassage :
    (re : Marks) (ms : List Span) (spans : List Quote)
    → All (IsPassage re) spans
    → All (IsPassage re) (add_spans re ms spans)
unfolding add_spans
add_spans-IsPassage re [] spans h = h
add_spans-IsPassage re (m ∷ ms) spans h =
    add_spans-IsPassage re ms (add re m spans) (add-IsPassage re m spans h)

-- The number of quotes that start at a place.
abbrev starting : ℕ → List Quote → ℕ
starting n = count_if (λ (r : Quote). eqb r.start n)

starting-keep_longest :
    (n : ℕ) (q : Quote) (best : List Quote)
    → starting n (keep_longest q best)
      ≡ (if eqb q.start n then max 1 (starting n best) else starting n best)
unfolding keep_longest
starting-keep_longest n q [] = ground arith
starting-keep_longest n q (b ∷ best) = ground (arith, starting-keep_longest n q best)

starting-longest :
    (n : ℕ) (best qs : List Quote) → starting n best ≤ 1 → starting n (longest best qs) ≤ 1
unfolding longest
starting-longest n best [] h = h
starting-longest n best (q ∷ qs) h =
    starting-longest n (keep_longest q best) qs (ground (arith, starting-keep_longest n q best))

keep_longest-All :
    (P : Quote → Type 0) (q : Quote) (best : List Quote)
    → P q
    → All P best
    → All P (keep_longest q best)
unfolding keep_longest
keep_longest-All P q [] p h = (p, tt)
keep_longest-All P q (b ∷ best) p h = elim (Bool-cases (eqb b.start q.start)) [
  | inr e ↦ rw e (h.0, keep_longest-All P q best p h.1)
  | inl e ↦ elim (Bool-cases (ltb (text_length b.raw) (text_length q.raw))) [
    | inl d ↦ rw (e, d) (p, h.1)
    | inr d ↦ rw (e, d) (h.0, h.1)
  ]
]

longest-All :
    (P : Quote → Type 0) (best qs : List Quote) → All P best → All P qs → All P (longest best qs)
unfolding longest
longest-All P best [] h k = h
longest-All P best (q ∷ qs) h k =
    longest-All P (keep_longest q best) qs (keep_longest-All P q best k.0 h) k.1

-- Some quote of the list starts at the same place and is at least as long.
abbrev pub covers : (start size : ℕ) → List Quote → Bool
covers start size = any (λ (b : Quote). eqb b.start start && leb size (text_length b.raw))

covers-keep_longest :
    (start size : ℕ) (q : Quote) (best : List Quote)
    → covers start size (keep_longest q best) ≡ covers start size (q ∷ best)
unfolding keep_longest
covers-keep_longest start size q [] = refl
covers-keep_longest start size q (b ∷ best) = ground (arith, covers-keep_longest start size q best)

covers-longest :
    (start size : ℕ) (best qs : List Quote)
    → covers start size (longest best qs) ≡ covers start size (qs ++ best)
unfolding longest
covers-longest start size best [] = refl
covers-longest start size best (q ∷ qs) = ground (
  arith,
  covers-longest start size (keep_longest q best) qs,
  covers-keep_longest start size q best,
  any-append (λ (b : Quote). eqb b.start start && leb size (text_length b.raw)) qs best,
  any-append (λ (b : Quote). eqb b.start start && leb size (text_length b.raw)) qs
      (keep_longest q best),
)

-- The spans that pass the guards, in the order of their matches.
abbrev pub is_passage : Marks → Span → Bool
is_passage re m =
    let normalized = normalize_quote m.text in
    leb min_quote_chars (text_length normalized)
    && leb (text_length normalized) max_quote_chars
    && looks_like_prose re m.text normalized

covers-add :
    (start size : ℕ) (re : Marks) (m : Span) (spans : List Quote)
    → covers start size (add re m spans) ≡ (
        covers start size spans
        || is_passage re m && (eqb m.start start && leb size (text_length m.text)))
unfolding add
covers-add start size re m spans = ground (
  arith,
  any-append (λ (b : Quote). eqb b.start start && leb size (text_length b.raw)) spans
      (record { raw = m.text; normalized = normalize_quote m.text; start = m.start; stop = m.stop }
        ∷ []),
)

covers-add_spans :
    (start size : ℕ) (re : Marks) (ms : List Span) (spans : List Quote)
    → covers start size (add_spans re ms spans) ≡ (
        covers start size spans
        || any
            (λ (m : Span). is_passage re m && (eqb m.start start && leb size (text_length m.text)))
            ms)
unfolding add_spans
covers-add_spans start size re [] spans = ground arith
covers-add_spans start size re (m ∷ ms) spans =
    ground
      (arith, covers-add_spans start size re ms (add re m spans), covers-add start size re m spans)

-- Each quote starts before all that follow it.
abbrev pub IsAscending : List Quote → Type 0
IsAscending [] = Unit
IsAscending (q ∷ qs) = All (λ (r : Quote). q.start < r.start) qs × IsAscending qs

later_than :
    (q : Quote) (qs : List Quote)
    → starting q.start qs ≡ 0
    → All (λ r. starts_no_later q r ≡ true) qs
    → All (λ (r : Quote). q.start < r.start) qs
later_than q [] c h = tt
later_than q (r ∷ qs) c h = (ground (arith, h.0), later_than q qs (ground arith) h.1)

IsSorted-IsAscending :
    (qs : List Quote) → IsSorted starts_no_later qs → ((n : ℕ) → starting n qs ≤ 1) → IsAscending qs
IsSorted-IsAscending [] s c = tt
IsSorted-IsAscending (q ∷ qs) s c = (
  later_than q qs (ground (arith, c q.start)) s.0,
  IsSorted-IsAscending qs s.1 (λ n. ground (arith, c n)),
)

-- Every span is found again at its place, unless a guard rejects it or a longer span starts there.
covers-find_quotes :
    (re : Marks) (text : String) (m : Span)
    → IsIn m (re.double_quoted text) ⊎ IsIn m (re.blockquoted text)
    → is_passage re m ≡ true
    → covers m.start (text_length m.text) (find_quotes re text) ≡ true
unfolding find_quotes
covers-find_quotes re text m i h =
    let inline = add_spans re (re.double_quoted text) [] in
    let spans = add_spans re (re.blockquoted text) inline in
    let size = text_length m.text in
    let reaches =
      λ (k : Span). is_passage re k && (eqb k.start m.start && leb size (text_length k.text)) in
    let long = λ (b : Quote). eqb b.start m.start && leb size (text_length b.raw) in
    ground (
      arith,
      i,
      any-count_if long (sort_by starts_no_later (longest [] spans)),
      any-count_if long (longest [] spans),
      sort_by-count_if starts_no_later long (longest [] spans),
      covers-longest m.start size [] spans,
      append_nil spans,
      covers-add_spans m.start size re (re.blockquoted text) inline,
      covers-add_spans m.start size re (re.double_quoted text) [],
      any-IsIn reaches m (re.double_quoted text),
      any-IsIn reaches m (re.blockquoted text),
    )

-- The quotes of a document pass the guards on their length and their form, and start at different places
-- in ascending order. A matched span that passes the guards is among them, or a span at the same
-- start that is as long.
pub find_quotes_lem :
    (re : Marks) (text : String)
    → All (IsPassage re) (find_quotes re text)
      × IsAscending (find_quotes re text)
      × ((m : Span)
          → IsIn m (re.double_quoted text) ⊎ IsIn m (re.blockquoted text)
          → is_passage re m ≡ true
          → covers m.start (text_length m.text) (find_quotes re text) ≡ true)
unfolding find_quotes
find_quotes_lem re text =
    let spans = add_spans re (re.blockquoted text) (add_spans re (re.double_quoted text) []) in
    (
      sort_by-All starts_no_later (IsPassage re) (longest [] spans) (
          longest-All (IsPassage re) [] spans tt (
            add_spans-IsPassage re (re.blockquoted text) _
              (add_spans-IsPassage re (re.double_quoted text) [] tt))),
      IsSorted-IsAscending (sort_by starts_no_later (longest [] spans))
          (sort_by-IsSorted starts_no_later (λ a b h. ground (arith, h))
            (λ a b c h k. ground (arith, h, k)) (longest [] spans))
          (λ n. ground (
            arith,
            sort_by-count_if starts_no_later (λ (r : Quote). eqb r.start n) (longest [] spans),
            starting-longest n [] spans,
          )),
      covers-find_quotes re text,
    )
