-- ===== src/Pairing.antt =====
-- nli/pairing.py and audience.py: which claims of a speaker are paired across audiences.
pub mod Candidates
use Prim.Native.Char.{code}
use legal_system.Prelude.{
  ℕ, ◌+◌, ◌-◌, String, Bool, true, false, not, ◌&&◌, ◌||◌, Option, none, some, List, [], ◌∷◌, ◌++◌,
  map, contains, filter, length, take, ◌==◌, if◌then◌else◌,
}
use legal_system.Prelude.Text.{nil, truthy, lower}
use legal_system.Prelude.Words.{runs, is_alnum}
use legal_system.Prelude.Sort.{sort_by}
use legal_system.Grounding.Authorities.{distinct}

-- The searches of the three patterns of `_RULES`, on a path in lower case.
pub record Rules : Type 0 where
  pub is_neidle : String → Bool
  pub is_police : String → Bool
  pub is_court : String → Bool

-- The first rule that matches.
unfoldable pub first_match : String → List ((String → Bool) × String) → Option String
first_match low [] = none
first_match low ((search, audience) ∷ rules) =
    if search low then some audience else first_match low rules

unfoldable pub classify_audience : Rules → Option String → Option String
unfolding first_match lower
classify_audience rules none = none
classify_audience rules (some path) =
    if not (truthy path)
    then none
    else first_match (lower path)
        ((rules.is_neidle, "neidle") ∷ (rules.is_police, "police") ∷ (rules.is_court, "court") ∷ [])

pub record SeamClaim : Type 0 where
  pub doc_id : String
  pub raw_path : Option String
  pub audience : String
  pub canonical_speaker : String
  pub subject : String
  pub predicate : String
  pub object : String
  pub source_span : Option String
  pub claim_date : Option String

abbrev stopwords : List String
stopwords =
    "the" ∷ "a" ∷ "an" ∷ "of" ∷ "to" ∷ "in" ∷ "on" ∷ "and" ∷ "or" ∷ "for" ∷ "by" ∷ "with" ∷ "is"
    ∷ "was" ∷ "are" ∷ "were" ∷ "be" ∷ "been" ∷ "that" ∷ "this" ∷ "it" ∷ "as" ∷ "at" ∷ "from" ∷ "his"
    ∷ "her" ∷ "their" ∷ "any" ∷ "no" ∷ "not" ∷ []

unfoldable pub tokens : String → List String
unfolding distinct runs is_alnum lower
tokens text = distinct (filter (λ t. not (contains stopwords t)) (runs is_alnum (lower text)))

-- Python's floating-point numbers, as far as they are used here.
pub record Float : Type 1 where
  pub Score : Type 0
  pub le : Score → Score → Bool
  pub zero_score : Score
  pub divide : ℕ → ℕ → Score

module _ (float : Float) where
  unfoldable pub lexical_similarity : SeamClaim → SeamClaim → float.Score
  unfolding tokens distinct
  lexical_similarity a b =
      let ta = distinct (tokens a.subject ++ tokens a.object) in
      let tb = distinct (tokens b.subject ++ tokens b.object) in
      let inter = length (filter (contains tb) ta) in
      let union = length (distinct (ta ++ tb)) in
      elim ta [
        | [] ↦ float.zero_score
        | _ ∷ _ ↦ elim tb [ [] ↦ float.zero_score | _ ∷ _ ↦ float.divide inter union ]
      ]

  pub record CandidatePair : Type 0 where
    pub left : SeamClaim
    pub right : SeamClaim
    pub similarity : float.Score

  module _ (min_similarity : float.Score) (similarity : SeamClaim → SeamClaim → float.Score) where
    -- The pair, unless it is passed over.
    unfoldable pub pair_of : SeamClaim → SeamClaim → List CandidatePair
    pair_of a b =
        if not (a.canonical_speaker == b.canonical_speaker)
        then []
        else if a.audience == b.audience
        then []
        else if float.le min_similarity (similarity a b)
        then record { left = a; right = b; similarity = similarity a b } ∷ []
        else []

    unfoldable pub pairs_with : SeamClaim → List SeamClaim → List CandidatePair
    unfolding pair_of
    pairs_with a [] = []
    pairs_with a (b ∷ claims) = pair_of a b ++ pairs_with a claims

    -- The loop over `combinations(claims, 2)`.
    unfoldable pub all_pairs : List SeamClaim → List CandidatePair
    unfolding pairs_with
    all_pairs [] = []
    all_pairs (a ∷ claims) = pairs_with a claims ++ all_pairs claims

    -- `out[:max_pairs] if max_pairs is not None else out`
    abbrev pub capped : Option ℕ → List CandidatePair → List CandidatePair
    capped none out = out
    capped (some n) out = take n out

    abbrev pub no_less : CandidatePair → CandidatePair → Bool
    no_less p q = float.le q.similarity p.similarity

    unfoldable pub candidate_pairs : List SeamClaim → Option ℕ → List CandidatePair
    unfolding all_pairs sort_by
    candidate_pairs claims max_pairs = capped max_pairs (sort_by no_less (all_pairs claims))
