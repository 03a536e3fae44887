-- ===== src/Tests/Claims.antt =====
-- Claims of one speaker to two audiences, and two claims that conflict.
use Prim.Native.Nat.{ℕ}
use legal_system.Prelude.{
  String, Bool, true, false, none, some, List, [], ◌∷◌, ◌≡◌, refl, ◌↔◌, IsIn, take, leb, arith,
  string_dec,
}
use legal_system.Prelude.Sort.{IsSorted}
use legal_system.Pairing.{Float, SeamClaim, CandidatePair, candidate_pairs, no_less, tokens}
use legal_system.Pairing.Candidates.{IsCandidate, candidate_pairs_lem}
use legal_system.Contradictions.{ClaimRef, Corpus, ContradictionPair, contradictions}
use legal_system.Contradictions.Stem.{doc_stem, has_negation}
use legal_system.Contradictions.Reported.{IsFound, contradictions_lem}

-- Scores as percentages.
abbrev float : Float
float = record { Score = ℕ; le = leb; zero_score = 0; divide = λ a b. a }

abbrev claim : String → SeamClaim
claim audience = record {
  doc_id = audience;
  raw_path = none;
  audience = audience;
  canonical_speaker = "s";
  subject = "the inquiry";
  predicate = "was";
  object = "paused";
  source_span = none;
  claim_date = none;
}

abbrev claims : List SeamClaim
claims = claim "police" ∷ claim "court" ∷ claim "police" ∷ []

abbrev fifty : SeamClaim → SeamClaim → ℕ
fifty a b = 50

test_tokens : tokens "The inquiry of the Inquiry" ≡ "inquiry" ∷ []
unfolding tokens string_dec
test_tokens = refl

candidate_pairs_lem_example :
    ((p : CandidatePair float)
      → IsIn p (candidate_pairs float 20 fifty claims none) ↔ IsCandidate float 20 fifty p claims)
    × IsSorted (no_less float 20 fifty) (candidate_pairs float 20 fifty claims none)
    × ((n : ℕ)
        → candidate_pairs float 20 fifty claims (some n)
          ≡ take n (candidate_pairs float 20 fifty claims none))
candidate_pairs_lem_example =
    candidate_pairs_lem float 20 fifty claims (λ x y h. ground (arith, h))
      (λ x y z h k. ground (arith, h, k))

abbrev corpus : Corpus
corpus = record { speaker_aliases = ("g", "s") ∷ [] }

abbrev claim_ref : String → Bool → ClaimRef
claim_ref doc_id polarity = record {
  doc_id = doc_id;
  raw_path = none;
  subject = "The  Inquiry";
  predicate = "was";
  object = "paused";
  asserted_by = some "G";
  polarity = polarity;
  claim_date = none;
  source_span = none;
}

abbrev claim_refs : List ClaimRef
claim_refs = claim_ref "d1" true ∷ claim_ref "d2" false ∷ []

abbrev pair : ContradictionPair
pair = record {
  asserted_by = some "G";
  subject = "the inquiry";
  predicate = "was";
  kind = legal_system.Contradictions.opposite_polarity;
  left = claim_ref "d1" true;
  right = claim_ref "d2" false;
}

test_doc_stem : doc_stem (some "a/pdf_original/Costs_ocr (2).OCR.pdf") ≡ "a/costs"
unfolding doc_stem string_dec
test_doc_stem = refl

test_negation : (has_negation "does not know" ≡ true) × (has_negation "nothing was noted" ≡ false)
unfolding has_negation string_dec
test_negation = (refl, refl)

-- An extension that only a marker hid is kept.
test_hidden_extension : doc_stem (some "costs.md copy") ≡ "costs.md"
unfolding doc_stem string_dec
test_hidden_extension = refl

test_within : (contradictions corpus claim_refs).within_speaker ≡ pair ∷ []
unfolding contradictions string_dec
test_within = refl

contradictions_lem_example :
    (IsIn pair (contradictions corpus claim_refs).within_speaker
      ↔ IsFound corpus claim_refs (true, pair))
    × (IsIn pair (contradictions corpus claim_refs).contested
        ↔ IsFound corpus claim_refs (false, pair))
contradictions_lem_example = contradictions_lem corpus claim_refs pair
