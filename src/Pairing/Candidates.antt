-- ===== src/Pairing/Candidates.antt =====
-- nli/pairing.py: exactly which pairs are candidates, and in what order.
use legal_system.Prelude.{
  ℕ, true, false, none, some, List, [], ◌∷◌, take, ◌==◌, ◌≡◌, ◌↔◌, inl, inr, refl, sym, subst,
  arith, IsIn, IsIn-append_cases, IsIn-append_left, IsIn-append_right, Precedes, Bool-cases,
}
use legal_system.Prelude.Sort.{IsSorted, sort_by-IsSorted, sort_by-IsIn}
use legal_system.Pairing.{
  Float, SeamClaim, CandidatePair, pair_of, pairs_with, all_pairs, no_less, candidate_pairs,
}

module _ (float : Float) (min_similarity : float.Score)
    (similarity : SeamClaim → SeamClaim → float.Score) where
  -- One speaker, two audiences, and a score that is high enough.
  abbrev pub IsSeam : CandidatePair float → Type 0
  IsSeam p =
      ((p.left.canonical_speaker == p.right.canonical_speaker) ≡ true)
      × ((p.left.audience == p.right.audience) ≡ false)
      × (p.similarity ≡ similarity p.left p.right)
      × (float.le min_similarity p.similarity ≡ true)

  -- The pair of two claims, with its score.
  abbrev scored_pair : SeamClaim → SeamClaim → CandidatePair float
  scored_pair a b = record { left = a; right = b; similarity = similarity a b }

  pair_of-IsSeam :
      (p : CandidatePair float) (a b : SeamClaim)
      → IsIn p (pair_of float min_similarity similarity a b)
      → (p ≡ scored_pair a b) × IsSeam (scored_pair a b)
  unfolding pair_of
  pair_of-IsSeam p a b i = elim (Bool-cases (a.canonical_speaker == b.canonical_speaker)) [
    | inr e ↦ absurd (ground arith)
    | inl e ↦ elim (Bool-cases (a.audience == b.audience)) [
      | inl d ↦ absurd (ground arith)
      | inr d ↦ elim (Bool-cases (float.le min_similarity (similarity a b))) [
        | inr c ↦ absurd (ground arith)
        | inl c ↦ (ground arith, (e, d, refl, c))
      ]
    ]
  ]

  IsSeam-pair_of :
      (a b : SeamClaim)
      → IsSeam (scored_pair a b)
      → pair_of float min_similarity similarity a b ≡ scored_pair a b ∷ []
  unfolding pair_of
  IsSeam-pair_of a b (e, d, _, c) = rw (pair_of, e, d, c) refl

  -- The pair is that of two claims of which one precedes the other, and it is on the seam.
  abbrev pub IsCandidate : CandidatePair float → List SeamClaim → Type 0
  IsCandidate p claims =
      (a : SeamClaim) × (b : SeamClaim) × Precedes a b claims × (p ≡ scored_pair a b) × IsSeam p

  pairs_with-IsSeam :
      (p : CandidatePair float) (a : SeamClaim) (claims : List SeamClaim)
      → IsIn p (pairs_with float min_similarity similarity a claims)
      → (b : SeamClaim) × IsIn b claims × (p ≡ scored_pair a b) × IsSeam p
  unfolding pairs_with
  pairs_with-IsSeam p a [] i = absurd i
  pairs_with-IsSeam p a (b ∷ claims) i =
      elim (IsIn-append_cases p (pair_of float min_similarity similarity a b)
        (pairs_with float min_similarity similarity a claims) i) [
          | inl j ↦ let (e, s) = pair_of-IsSeam p a b j in (b, inl refl, e, subst IsSeam (sym e) s)
          | inr j ↦ let (c, k, e, s) = pairs_with-IsSeam p a claims j in (c, inr k, e, s)
        ]

  IsSeam-pairs_with :
      (a b : SeamClaim) (claims : List SeamClaim)
      → IsIn b claims
      → IsSeam (scored_pair a b)
      → IsIn (scored_pair a b) (pairs_with float min_similarity similarity a claims)
  unfolding pairs_with
  IsSeam-pairs_with a b (c ∷ claims) (inl e) s =
      IsIn-append_left (scored_pair a b) (pair_of float min_similarity similarity a c) _ (
        subst (λ x. IsIn (scored_pair a b) (pair_of float min_similarity similarity a x)) e
          (rw (IsSeam-pair_of a b s) (inl refl)))
  IsSeam-pairs_with a b (c ∷ claims) (inr i) s =
      IsIn-append_right (scored_pair a b) (pair_of float min_similarity similarity a c) _
        (IsSeam-pairs_with a b claims i s)
  IsSeam-pairs_with a b [] i s = absurd i

  all_pairs-IsCandidate :
      (p : CandidatePair float) (claims : List SeamClaim)
      → IsIn p (all_pairs float min_similarity similarity claims)
      → IsCandidate p claims
  unfolding all_pairs
  all_pairs-IsCandidate p [] i = absurd i
  all_pairs-IsCandidate p (a ∷ claims) i =
      elim (IsIn-append_cases p (pairs_with float min_similarity similarity a claims)
        (all_pairs float min_similarity similarity claims) i) [
          | inl j ↦ let (b, k, e, s) = pairs_with-IsSeam p a claims j in (a, b, inl (refl, k), e, s)
          | inr j ↦ let (c, b, k, e, s) = all_pairs-IsCandidate p claims j in (c, b, inr k, e, s)
        ]

  Precedes-all_pairs :
      (a b : SeamClaim) (claims : List SeamClaim)
      → Precedes a b claims
      → IsSeam (scored_pair a b)
      → IsIn (scored_pair a b) (all_pairs float min_similarity similarity claims)
  unfolding all_pairs
  Precedes-all_pairs a b (c ∷ claims) (inl (e, i)) s =
      IsIn-append_left (scored_pair a b) (pairs_with float min_similarity similarity c claims) _ (
        subst (λ x. IsIn (scored_pair a b) (pairs_with float min_similarity similarity x claims)) e
          (IsSeam-pairs_with a b claims i s))
  Precedes-all_pairs a b (c ∷ claims) (inr q) s =
      IsIn-append_right (scored_pair a b) (pairs_with float min_similarity similarity c claims) _
        (Precedes-all_pairs a b claims q s)
  Precedes-all_pairs a b [] q s = absurd q

  IsCandidate-all_pairs :
      (p : CandidatePair float) (claims : List SeamClaim)
      → IsCandidate p claims
      → IsIn p (all_pairs float min_similarity similarity claims)
  IsCandidate-all_pairs p claims (a, b, q, e, s) =
      subst (λ x. IsIn x (all_pairs float min_similarity similarity claims)) (sym e)
        (Precedes-all_pairs a b claims q (subst IsSeam e s))

-- If the order of scores is total and transitive, the candidates without a cap are exactly the pairs of
-- an earlier and a later claim with one speaker, two audiences and a score of at least the minimum,
-- each with its score, and no pair stands before one with a higher score. With a cap the result is
-- what that list begins with.
pub candidate_pairs_lem :
    (float : Float) (min_similarity : float.Score)
    (similarity : SeamClaim → SeamClaim → float.Score) (claims : List SeamClaim)
    → ((x y : float.Score) → float.le x y ≡ false → float.le y x ≡ true)
    → ((x y z : float.Score) → float.le x y ≡ true → float.le y z ≡ true → float.le x z ≡ true)
    → ((p : CandidatePair float)
        → IsIn p (candidate_pairs float min_similarity similarity claims none)
          ↔ IsCandidate float min_similarity similarity p claims)
      × IsSorted
          (no_less float min_similarity similarity)
          (candidate_pairs float min_similarity similarity claims none)
      × ((n : ℕ)
          → candidate_pairs float min_similarity similarity claims (some n)
            ≡ take n (candidate_pairs float min_similarity similarity claims none))
unfolding candidate_pairs
candidate_pairs_lem float min_similarity similarity claims total trans =
    let le = no_less float min_similarity similarity in
    let found = all_pairs float min_similarity similarity claims in
    (
      λ p. (
        λ i.
            all_pairs-IsCandidate float min_similarity similarity p claims
              ((sort_by-IsIn le p found).0 i),
        λ c.
            (sort_by-IsIn le p found).1
              (IsCandidate-all_pairs float min_similarity similarity p claims c),
      ),
      sort_by-IsSorted le (λ p q h. total q.similarity p.similarity h)
          (λ p q r h k. trans r.similarity q.similarity p.similarity k h) found,
      λ n. refl,
    )
