-- ===== src/Grounding/Classify/Near.antt =====
-- grounding/checker.py: which authorities count as near a quote, and in what order.
use legal_system.Prelude.{
  ℕ, suc, ◌≤◌, List, [], ◌∷◌, map, filter, true, ◌≡◌, ◌↔◌, inl, inr, refl, sym, ap, arith, All,
  IsIn, IsIn-filter, Bool-cases,
}
use legal_system.Prelude.Sort.{sort_by, IsSorted, sort_by-IsSorted, sort_by-All, sort_by-IsIn}
use legal_system.Grounding.Authorities.{AuthorityRef}
use legal_system.Grounding.Quotes.{Quote}
use legal_system.Grounding.Classify.{
  proximity_chars, quote_distance, Scored, score_from, scored_le, within, near_authorities,
}

authority_of : Scored → AuthorityRef
authority_of x = x.authority

-- The distance that is kept with an authority is its distance.
abbrev IsScored : Quote → List AuthorityRef → Scored → Type 0
IsScored quote refs x = IsIn x.authority refs × (x.distance ≡ quote_distance quote x.authority)

IsScored-later :
    (quote : Quote) (a : AuthorityRef) (refs : List AuthorityRef) (xs : List Scored)
    → All (IsScored quote refs) xs
    → All (IsScored quote (a ∷ refs)) xs
IsScored-later quote a refs [] h = tt
IsScored-later quote a refs (x ∷ xs) h = ((inr h.0.0, h.0.1), IsScored-later quote a refs xs h.1)

score_from-IsScored :
    (quote : Quote) (i : ℕ) (refs : List AuthorityRef)
    → All (IsScored quote refs) (score_from quote i refs)
unfolding score_from
score_from-IsScored quote i [] = tt
score_from-IsScored quote i (a ∷ refs) =
    ((inl refl, refl), IsScored-later quote a refs _ (score_from-IsScored quote (suc i) refs))

IsIn-score_from :
    (quote : Quote) (i : ℕ) (refs : List AuthorityRef) (a : AuthorityRef)
    → IsIn a refs
    → (x : Scored) × IsIn x (score_from quote i refs)
      × (x.authority ≡ a)
      × (x.distance ≡ quote_distance quote a)
unfolding score_from
IsIn-score_from quote i (b ∷ refs) a (inl e) = (
  record { distance = quote_distance quote b; position = i; authority = b },
  inl refl,
  sym e,
  ap (quote_distance quote) (sym e),
)
IsIn-score_from quote i (b ∷ refs) a (inr h) =
    let (x, j, e, d) = IsIn-score_from quote (suc i) refs a h in (x, inr j, e, d)
IsIn-score_from quote i [] a h = absurd h

All-IsIn : {A : Type 0} (P : A → Type 0) (x : A) (xs : List A) → All P xs → IsIn x xs → P x
All-IsIn P x [] h i = absurd i
All-IsIn P x (y ∷ ys) h (inl e) = rw e h.0
All-IsIn P x (y ∷ ys) h (inr i) = All-IsIn P x ys h.1 i

IsIn-map :
    (x : Scored) (xs : List Scored)
    → IsIn x xs
    → IsIn x.authority (map (λ (y : Scored). y.authority) xs)
IsIn-map x (y ∷ ys) (inl e) = inl (ap (λ (z : Scored). z.authority) e)
IsIn-map x (y ∷ ys) (inr i) = inr (IsIn-map x ys i)
IsIn-map x [] i = absurd i

map-IsIn :
    (a : AuthorityRef) (xs : List Scored)
    → IsIn a (map (λ (y : Scored). y.authority) xs)
    → (x : Scored) × IsIn x xs × (x.authority ≡ a)
map-IsIn a (y ∷ ys) (inl e) = (y, inl refl, sym e)
map-IsIn a (y ∷ ys) (inr i) = let (x, j, e) = map-IsIn a ys i in (x, inr j, e)
map-IsIn a [] i = absurd i

-- No authority stands before a nearer one.
abbrev pub IsNearestFirst : Quote → List AuthorityRef → Type 0
IsNearestFirst quote [] = Unit
IsNearestFirst quote (a ∷ near) =
    All (λ b. quote_distance quote a ≤ quote_distance quote b) near × IsNearestFirst quote near

All-nearer :
    (quote : Quote) (refs : List AuthorityRef) (x : Scored) (xs : List Scored)
    → IsScored quote refs x
    → All (IsScored quote refs) xs
    → All (λ y. scored_le x y ≡ true) xs
    → All
        (λ b. quote_distance quote x.authority ≤ quote_distance quote b)
        (map (λ (y : Scored). y.authority) (filter within xs))
All-nearer quote refs x [] s h k = tt
All-nearer quote refs x (y ∷ ys) s h k =
    let rest = All-nearer quote refs x ys s h.1 k.1 in
    elim (Bool-cases (within y)) [
      | inl e ↦ rw e (ground (arith, s.1, h.0.1, k.0), rest)
      | inr e ↦ rw e rest
    ]

nearest_first :
    (quote : Quote) (refs : List AuthorityRef) (xs : List Scored)
    → All (IsScored quote refs) xs
    → IsSorted scored_le xs
    → IsNearestFirst quote (map (λ (y : Scored). y.authority) (filter within xs))
nearest_first quote refs [] h s = tt
nearest_first quote refs (x ∷ xs) h s =
    let rest = nearest_first quote refs xs h.1 s.1 in
    elim (Bool-cases (within x)) [
      | inl e ↦ rw e (All-nearer quote refs x xs h.0 h.1 s.0, rest)
      | inr e ↦ rw e rest
    ]

-- The authorities near a quote are exactly those at most 200 characters away from it, and none stands
-- before one that is nearer.
pub near_authorities_lem :
    (quote : Quote) (refs : List AuthorityRef)
    → ((a : AuthorityRef)
        → IsIn a (near_authorities quote refs)
          ↔ (IsIn a refs × (quote_distance quote a ≤ proximity_chars)))
      × IsNearestFirst quote (near_authorities quote refs)
unfolding near_authorities
near_authorities_lem quote refs =
    let scored = score_from quote 0 refs in
    let all_scored = score_from-IsScored quote 0 refs in
    (
      λ a. (
        λ i.
            let (x, j, e) = map-IsIn a (filter within (sort_by scored_le scored)) i in
            let (k, w) = (IsIn-filter x within (sort_by scored_le scored)).0 j in
            let s =
              All-IsIn (IsScored quote refs) x scored all_scored
                ((sort_by-IsIn scored_le x scored).0 k) in
            rw (sym e) (s.0, ground (arith, s.1, w)),
        λ (i, near).
            let (x, j, e, d) = IsIn-score_from quote 0 refs a i in
            rw (sym e) (
              IsIn-map x (filter within (sort_by scored_le scored)) (
                (IsIn-filter x within (sort_by scored_le scored)).1
                  ((sort_by-IsIn scored_le x scored).1 j, ground (arith, d, near)))),
      ),
      nearest_first quote refs (sort_by scored_le scored)
          (sort_by-All scored_le (IsScored quote refs) scored all_scored)
          (sort_by-IsSorted scored_le (λ x y h. ground (arith, h))
            (λ x y z h k. ground (arith, h, k)) scored),
    )
