-- ===== src/Grounding/Classify.antt =====
-- grounding/checker.py: the verdict on a quote, the layer of a file, and the order of the findings.
pub mod Verdicts
pub mod Near
use legal_system.Prelude.{
  ℕ, zero, suc, ◌+◌, ◌-◌, String, ◌<>◌, Bool, true, false, not, ◌&&◌, ◌||◌, Option, none, some,
  List, [], ◌∷◌, ◌++◌, map, any, contains, filter, ltb, leb, eqb, if◌then◌else◌,
}
use legal_system.Prelude.Text.{nil, lower, starts_with}
use legal_system.Prelude.Words.{has_text}
use legal_system.Prelude.FilePath.{as_posix, name}
use legal_system.Prelude.Sort.{sort_by, text_le}
use legal_system.Grounding.Authorities.{AuthorityRef}
use legal_system.Grounding.Primary.{PrimaryAuthority, PrimaryIndex, contains_quote, get}
use legal_system.Grounding.Quotes.{Quote}

pub data Verdict : Type 0 where
  green red amber : Verdict

pub data FindingKind : Type 0 where
  quote_kind citation_without_source repealed_citation malformed_citation : FindingKind

pub data Layer : Type 0 where
  served authorities reports analysis other : Layer

-- One more than the value in the code, where `OTHER` is -1.
abbrev pub rank : Layer → ℕ
rank served = 4
rank authorities = 3
rank reports = 2
rank analysis = 1
rank other = 0

abbrev served_content_markers : List String
served_content_markers =
    "sent-text" ∷ "sent_text" ∷ "covering-email" ∷ "covering_email" ∷ "email_as_sent"
    ∷ "email-as-sent" ∷ []

unfoldable pub layer_of : String → Layer
unfolding as_posix name lower has_text starts_with
layer_of rel =
    let posix = as_posix rel in
    if has_text "evidence_of_service/sent_bundles/" posix
    then (if any (λ marker. has_text marker (lower (name rel))) served_content_markers
        then served
        else analysis)
    else if has_text "evidence_of_service/sent/" posix
    then served
    else if starts_with posix "authorities_primary_text/"
    then authorities
    else if starts_with posix "reports/"
    then reports
    else if starts_with posix "analysis/"
    then analysis
    else other

pub record Finding : Type 0 where
  pub kind : FindingKind
  pub layer : Layer
  pub path : String
  pub authority_key : String
  pub verdict : Option Verdict
  pub quote : Option String
  pub detail : String
  pub blast_radius : Option ℕ

severity_of : FindingKind → Option Verdict → ℕ
severity_of citation_without_source v = 2
severity_of repealed_citation v = 2
severity_of malformed_citation v = 2
severity_of quote_kind (some red) = 2
severity_of quote_kind (some amber) = 1
severity_of quote_kind _ = 0

-- `Finding.severity`
unfoldable pub severity : Finding → ℕ
unfolding severity_of
severity f = severity_of f.kind f.verdict

-- `self.blast_radius or 0`
abbrev pub or_zero : Option ℕ → ℕ
or_zero none = 0
or_zero (some n) = n

-- `sort_key() <= sort_key()`: the numbers are negated in the key, so the greater one comes first.
unfoldable pub key_le : Finding → Finding → Bool
unfolding severity text_le
key_le f g =
    if not (eqb (rank f.layer) (rank g.layer))
    then ltb (rank g.layer) (rank f.layer)
    else if not (eqb (severity f) (severity g))
    then ltb (severity g) (severity f)
    else if not (eqb (or_zero f.blast_radius) (or_zero g.blast_radius))
    then ltb (or_zero g.blast_radius) (or_zero f.blast_radius)
    else text_le f.path g.path

unfoldable pub sorted_findings : List Finding → List Finding
unfolding key_le sort_by
sorted_findings = sort_by key_le

abbrev pub proximity_chars : ℕ
proximity_chars = 200

unfoldable pub quote_distance : Quote → AuthorityRef → ℕ
quote_distance quote a =
    if leb a.stop quote.start
    then quote.start - a.stop
    else if leb quote.stop a.start
    then a.start - quote.stop
    else 0

-- The authorities with their distance and position.
pub record Scored : Type 0 where
  pub distance : ℕ
  pub position : ℕ
  pub authority : AuthorityRef

unfoldable pub score_from : Quote → ℕ → List AuthorityRef → List Scored
unfolding quote_distance
score_from quote i [] = []
score_from quote i (a ∷ rest) =
    record { distance = quote_distance quote a; position = i; authority = a }
    ∷ score_from quote (suc i) rest

-- The order of the tuples; positions are distinct, so that authorities are never compared.
abbrev pub scored_le : Scored → Scored → Bool
scored_le x y =
    if eqb x.distance y.distance then leb x.position y.position else ltb x.distance y.distance

abbrev pub within : Scored → Bool
within x = leb x.distance proximity_chars

unfoldable pub near_authorities : Quote → List AuthorityRef → List AuthorityRef
unfolding score_from sort_by
near_authorities quote refs =
    map (λ (x : Scored). x.authority) (filter within (sort_by scored_le (score_from quote 0 refs)))

-- `repr(s)` for the messages.
abbrev pub Repr : Type 0
Repr = String → String

path_of_first : List PrimaryAuthority → String
path_of_first [] = nil
path_of_first (p ∷ ps) = name p.path

-- The verdict on texts that are held: the live ones and the repealed ones.
unfoldable pub verdict_on :
    Repr → Quote → AuthorityRef → (live dead : List PrimaryAuthority) → Verdict × String
unfolding path_of_first has_text
verdict_on repr quote a [] (p ∷ dead) = (
  red,
  "cites REPEALED authority "
      <> repr a.raw
      <> " (held as "
      <> path_of_first (p ∷ dead)
      <> ") — do not cite",
)
verdict_on repr quote a live dead =
    if any (λ p. contains_quote p quote.normalized) live
    then (green, "verbatim match in " <> repr a.raw)
    else (
      red,
      "quote ABSENT from held primary text for "
          <> repr a.raw
          <> " ("
          <> path_of_first live
          <> ") — fabricated, misquoted, or a passage outside the held text; VERIFY at source",
    )

unfoldable pub classify_held :
    Repr → Quote → AuthorityRef → List PrimaryAuthority → Verdict × String
unfolding verdict_on
classify_held repr quote a [] = (amber, "no primary text held for " <> repr a.raw)
classify_held repr quote a (p ∷ prims) =
    verdict_on repr quote a (filter (λ (q : PrimaryAuthority). not q.repealed) (p ∷ prims))
      (filter (λ (q : PrimaryAuthority). q.repealed) (p ∷ prims))

unfoldable pub classify_quote : Repr → PrimaryIndex → Quote → AuthorityRef → Verdict × String
unfolding classify_held get
classify_quote repr index quote a = classify_held repr quote a (get index a.key)

-- The first authority that turns the quote green.
unfoldable pub first_green :
    Repr → PrimaryIndex → Quote → List AuthorityRef → Option (String × AuthorityRef)
unfolding classify_quote
first_green repr index quote [] = none
first_green repr index quote (a ∷ near) =
    let (verdict, detail) = classify_quote repr index quote a in
    elim verdict [ green ↦ some (detail, a) | _ ↦ first_green repr index quote near ]

unfoldable pub ascribed :
    Option (String × AuthorityRef)
    → (nearest : Verdict × String) → AuthorityRef
    → Verdict × String × AuthorityRef
ascribed (some (detail, b)) nearest a = (green, detail, b)
ascribed none (verdict, detail) a = (verdict, detail, a)

-- `near` is the list `a ∷ rest`: the caller has left out a quote that nothing is near.
unfoldable pub classify_quote_near :
    Repr
    → PrimaryIndex
    → Quote
    → AuthorityRef
    → (rest : List AuthorityRef) → Verdict × String × AuthorityRef
unfolding first_green classify_quote ascribed
classify_quote_near repr index quote a rest =
    ascribed (first_green repr index quote (a ∷ rest)) (classify_quote repr index quote a) a
