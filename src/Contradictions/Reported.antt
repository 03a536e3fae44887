-- ===== src/Contradictions/Reported.antt =====
-- query.py: which pairs of claims `contradictions` reports.
use legal_system.Prelude.{
  String, Bool, true, false, some, List, [], ◌∷◌, filter, ◌≡◌, ◌↔◌, inl, inr, refl, sym, ap, subst,
  ◌∙◌, arith, IsIn, IsIn-filter, IsIn-append_cases, IsIn-append_left, IsIn-append_right, Precedes,
  Bool-cases, if◌then◌else◌,
}
use legal_system.Contradictions.{
  ClaimRef, ConflictKind, ContradictionPair, Corpus, conflict_kind, guarded, Found, found_pair,
  pair_of, pairs_of, Groups, same_key, key_of, group_onto, pairs_of_groups, within, contested_of,
  contradictions,
}
use legal_system.Contradictions.Pairs.{
  members_of, members_of-group_onto, reported, IsConflict, guarded-IsConflict, IsConflict-guarded,
  found_pair_iff, pairs_of-IsIn, IsIn-pairs_of,
}
use legal_system.Contradictions.Grouping.{
  group_onto-AreDistinct, members_of-IsIn, same_key-true, same_key_refl,
}

Precedes-IsIn : (a b : ClaimRef) (xs : List ClaimRef) → Precedes a b xs → IsIn a xs × IsIn b xs
Precedes-IsIn a b (x ∷ xs) (inl (e, i)) = (inl e, inr i)
Precedes-IsIn a b (x ∷ xs) (inr q) = let (i, j) = Precedes-IsIn a b xs q in (inr i, inr j)
Precedes-IsIn a b [] q = absurd q

filter-Precedes :
    (p : ClaimRef → Bool) (a b : ClaimRef) (xs : List ClaimRef)
    → Precedes a b (filter p xs)
    → Precedes a b xs
filter-Precedes p a b [] q = absurd q
filter-Precedes p a b (x ∷ xs) q = head_or_later (p x) q (filter-Precedes p a b xs)
  where
    head_or_later :
        (t : Bool)
        → Precedes a b (if t then x ∷ filter p xs else filter p xs)
        → (Precedes a b (filter p xs) → Precedes a b xs)
        → Precedes a b (x ∷ xs)
    head_or_later true (inl (e, i)) later = inl (e, ((IsIn-filter b p xs).0 i).0)
    head_or_later true (inr r) later = inr (later r)
    head_or_later false r later = inr (later r)

Precedes-filter :
    (p : ClaimRef → Bool) (a b : ClaimRef) (xs : List ClaimRef)
    → Precedes a b xs
    → p a ≡ true
    → p b ≡ true
    → Precedes a b (filter p xs)
Precedes-filter p a b (x ∷ xs) (inl (e, i)) pa pb =
    let px = sym (ap p e) ∙ pa in rw px (inl (e, (IsIn-filter b p xs).1 (i, pb)))
Precedes-filter p a b (x ∷ xs) (inr q) pa pb =
    let rest = Precedes-filter p a b xs q pa pb in
    elim (Bool-cases (p x)) [ inl e ↦ rw e (inr rest) | inr e ↦ rw e rest ]
Precedes-filter p a b [] q pa pb = absurd q

-- An earlier and a later claim with one normalised subject and predicate, whose conflict is reported.
abbrev pub IsFound : Corpus → List ClaimRef → Found → Type 0
IsFound corpus refs f =
    (a : ClaimRef) × (b : ClaimRef) × Precedes a b refs
    × (same_key (key_of a) (key_of b) ≡ true)
    × (kind : ConflictKind) × IsConflict a b kind
    × (f ≡ reported corpus a b kind)

pair_of-IsFound :
    (corpus : Corpus) (refs : List ClaimRef) (f : Found) (a b : ClaimRef)
    → Precedes a b refs
    → same_key (key_of a) (key_of b) ≡ true
    → IsIn f (pair_of corpus (key_of a) a b)
    → IsFound corpus refs f
unfolding pair_of
pair_of-IsFound corpus refs f a b q same i =
    let (kind, e, j) =
      found_pair_iff corpus f (key_of a) a b (guarded (key_of a).1 a b (conflict_kind a b)) i in
    (a, b, q, same, kind, guarded-IsConflict a b kind e, only kind j)
  where
    only :
        (kind : ConflictKind)
        → IsIn f (found_pair corpus (key_of a) a b (some kind))
        → f ≡ reported corpus a b kind
    only kind (inl e) = e
    only kind (inr e) = absurd e

pairs_of_groups-IsIn :
    (corpus : Corpus) (f : Found) (groups : Groups)
    → IsIn f (pairs_of_groups corpus groups)
    → (key : String × String) × (members : List ClaimRef) × IsIn (key, members) groups
      × IsIn f (pairs_of corpus key members)
unfolding pairs_of_groups
pairs_of_groups-IsIn corpus f [] i = absurd i
pairs_of_groups-IsIn corpus f ((key, members) ∷ groups) i =
    elim (IsIn-append_cases f (pairs_of corpus key members) (pairs_of_groups corpus groups) i) [
      | inl j ↦ (key, members, inl refl, j)
      | inr j ↦ let (k, ms, l, r) = pairs_of_groups-IsIn corpus f groups j in (k, ms, inr l, r)
    ]

IsIn-pairs_of_groups :
    (corpus : Corpus) (f : Found) (key : String × String) (groups : Groups)
    → IsIn f (pairs_of corpus key (members_of key groups))
    → IsIn f (pairs_of_groups corpus groups)
unfolding pairs_of_groups members_of pairs_of
IsIn-pairs_of_groups corpus f key [] i = absurd i
IsIn-pairs_of_groups corpus f key ((k, members) ∷ groups) i =
    here_or_later (same_key k key) refl i (IsIn-pairs_of_groups corpus f key groups)
  where
    here_or_later :
        (t : Bool)
        → same_key k key ≡ t
        → IsIn f (pairs_of corpus key (if t then members else members_of key groups))
        → (IsIn f (pairs_of corpus key (members_of key groups))
            → IsIn f (pairs_of_groups corpus groups))
        → IsIn f (pairs_of_groups corpus ((k, members) ∷ groups))
    here_or_later true e j later =
        IsIn-append_left f (pairs_of corpus k members) _
          (subst (λ x. IsIn f (pairs_of corpus x members)) (sym (same_key-true k key e)) j)
    here_or_later false e j later = IsIn-append_right f (pairs_of corpus k members) _ (later j)

found-IsFound :
    (corpus : Corpus) (refs : List ClaimRef) (f : Found)
    → IsIn f (pairs_of_groups corpus (group_onto [] refs))
    → IsFound corpus refs f
unfolding members_of
found-IsFound corpus refs f i =
    let (key, members, j, k) = pairs_of_groups-IsIn corpus f (group_onto [] refs) i in
    let same =
      sym (members_of-IsIn key members (group_onto [] refs) (group_onto-AreDistinct [] refs tt) j)
      ∙ members_of-group_onto key [] refs in
    let (a, b, q, l) = pairs_of-IsIn corpus f key members k in
    let q' = subst (Precedes a b) same q in
    let (ia, ib) = Precedes-IsIn a b (filter (λ r. same_key (key_of r) key) refs) q' in
    let ka =
      same_key-true (key_of a) key ((IsIn-filter a (λ r. same_key (key_of r) key) refs).0 ia).1 in
    let kb =
      same_key-true (key_of b) key ((IsIn-filter b (λ r. same_key (key_of r) key) refs).0 ib).1 in
    pair_of-IsFound corpus refs f a b (filter-Precedes (λ r. same_key (key_of r) key) a b refs q')
      (ap (λ x. same_key (key_of a) x) (kb ∙ sym ka) ∙ same_key_refl (key_of a))
      (subst (λ x. IsIn f (pair_of corpus x a b)) (sym ka) l)

IsFound-found :
    (corpus : Corpus) (refs : List ClaimRef) (f : Found)
    → IsFound corpus refs f
    → IsIn f (pairs_of_groups corpus (group_onto [] refs))
unfolding members_of pair_of found_pair
IsFound-found corpus refs f (a, b, q, same, kind, conflict, e) =
    let key = key_of a in
    let pb =
      ap (λ x. same_key x key) (sym (same_key-true (key_of a) (key_of b) same))
      ∙ same_key_refl key in
    let there =
      subst (Precedes a b) (sym (members_of-group_onto key [] refs))
        (Precedes-filter (λ r. same_key (key_of r) key) a b refs q (same_key_refl key) pb) in
    let paired : IsIn f (pair_of corpus key a b) =
      subst (λ o. IsIn f (found_pair corpus key a b o)) (sym (IsConflict-guarded a b kind conflict))
        (inl e) in
    IsIn-pairs_of_groups corpus f key (group_onto [] refs)
      (IsIn-pairs_of corpus f key a b (members_of key (group_onto [] refs)) there paired)

within-IsIn :
    (p : ContradictionPair) (found : List Found) → IsIn p (within found) → IsIn (true, p) found
unfolding within
within-IsIn p [] i = absurd i
within-IsIn p ((true, q) ∷ found) (inl e) = inl (ap (λ (x : ContradictionPair). (true, x)) e)
within-IsIn p ((true, q) ∷ found) (inr i) = inr (within-IsIn p found i)
within-IsIn p ((false, q) ∷ found) i = inr (within-IsIn p found i)

contested_of-IsIn :
    (p : ContradictionPair) (found : List Found)
    → IsIn p (contested_of found)
    → IsIn (false, p) found
unfolding contested_of
contested_of-IsIn p [] i = absurd i
contested_of-IsIn p ((false, q) ∷ found) (inl e) =
    inl (ap (λ (x : ContradictionPair). (false, x)) e)
contested_of-IsIn p ((false, q) ∷ found) (inr i) = inr (contested_of-IsIn p found i)
contested_of-IsIn p ((true, q) ∷ found) i = inr (contested_of-IsIn p found i)

abbrev listed : Bool → List Found → List ContradictionPair
listed true found = within found
listed false found = contested_of found

IsIn-listed :
    (same : Bool) (p : ContradictionPair) (found : List Found)
    → IsIn (same, p) found
    → IsIn p (listed same found)
unfolding within contested_of
IsIn-listed same p [] i = absurd i
IsIn-listed true p ((true, q) ∷ found) (inl e) = inl (ap (λ (x : Found). x.1) e)
IsIn-listed true p ((true, q) ∷ found) (inr i) = inr (IsIn-listed true p found i)
IsIn-listed true p ((false, q) ∷ found) (inl e) = ground arith
IsIn-listed true p ((false, q) ∷ found) (inr i) = IsIn-listed true p found i
IsIn-listed false p ((false, q) ∷ found) (inl e) = inl (ap (λ (x : Found). x.1) e)
IsIn-listed false p ((false, q) ∷ found) (inr i) = inr (IsIn-listed false p found i)
IsIn-listed false p ((true, q) ∷ found) (inl e) = ground arith
IsIn-listed false p ((true, q) ∷ found) (inr i) = IsIn-listed false p found i

-- A pair is reported for two claims, one before the other, exactly if they have one normalised subject
-- and predicate, they conflict in polarity or object, and no guard takes that for an artefact: two
-- representations of one source, or a negation in the predicate with two objects. It is listed within
-- a speaker if the claims have one canonical speaker, and as contested if not.
pub contradictions_lem :
    (corpus : Corpus) (refs : List ClaimRef) (p : ContradictionPair)
    → (IsIn p (contradictions corpus refs).within_speaker ↔ IsFound corpus refs (true, p))
      × (IsIn p (contradictions corpus refs).contested ↔ IsFound corpus refs (false, p))
unfolding contradictions
contradictions_lem corpus refs p =
    let found = pairs_of_groups corpus (group_onto [] refs) in
    (
      (
        λ i. found-IsFound corpus refs (true, p) (within-IsIn p found i),
        λ h. IsIn-listed true p found (IsFound-found corpus refs (true, p) h),
      ),
      (
        λ i. found-IsFound corpus refs (false, p) (contested_of-IsIn p found i),
        λ h. IsIn-listed false p found (IsFound-found corpus refs (false, p) h),
      ),
    )
