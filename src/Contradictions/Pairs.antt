-- ===== src/Contradictions/Pairs.antt =====
-- query.py: exactly which pairs of claims are reported, and on which side.
use legal_system.Prelude.{
  String, Option, none, some, List, [], ◌∷◌, ◌++◌, filter, ◌≡◌, inl, inr, refl, sym, subst, arith,
  ◌⊎◌, true, false, IsIn, IsIn-append_cases, IsIn-append_left, IsIn-append_right, Precedes,
  append_assoc, append_nil, if◌then◌else◌,
}
use legal_system.Contradictions.Stem.{has_negation}
use legal_system.Contradictions.{
  ClaimRef, ConflictKind, Corpus, conflict_kind, guarded, opposite_polarity, conflicting_object,
  same_bool, is_same_representation, norm, same_speaker, Found, found_pair, pair_of, pairs_with,
  pairs_of, Groups, same_key, add_to_group, key_of, group_onto,
}

-- The members of the group of a key.
unfoldable pub members_of : String × String → Groups → List ClaimRef
members_of key [] = []
members_of key ((k, members) ∷ groups) =
    let rest = members_of key groups in if same_key k key then members else rest

members_of-add_to_group :
    (key k : String × String) (ref : ClaimRef) (groups : Groups)
    → members_of key (add_to_group k ref groups)
      ≡ (if same_key k key then members_of key groups ++ ref ∷ [] else members_of key groups)
unfolding members_of add_to_group
members_of-add_to_group key k ref [] = ground arith
members_of-add_to_group key k ref ((j, members) ∷ groups) =
    ground (arith, members_of-add_to_group key k ref groups)

pub members_of-group_onto :
    (key : String × String) (groups : Groups) (refs : List ClaimRef)
    → members_of key (group_onto groups refs)
      ≡ members_of key groups ++ filter (λ r. same_key (key_of r) key) refs
unfolding group_onto
members_of-group_onto key groups [] = sym (append_nil (members_of key groups))
members_of-group_onto key groups (ref ∷ refs) = ground (
  arith,
  members_of-group_onto key (add_to_group (key_of ref) ref groups) refs,
  members_of-add_to_group key (key_of ref) ref groups,
  append_assoc (members_of key groups) (ref ∷ []) (filter (λ r. same_key (key_of r) key) refs),
)

-- The pair of two claims with its kind, and whether one speaker makes both.
abbrev pub reported : Corpus → ClaimRef → ClaimRef → ConflictKind → Found
reported corpus a b kind = (
  same_speaker corpus a b,
  record {
    asserted_by = if same_speaker corpus a b then a.asserted_by else none;
    subject = (key_of a).0;
    predicate = (key_of a).1;
    kind = kind;
    left = a;
    right = b;
  },
)

-- The claims conflict, one against the other or in their objects, and that is no artefact: they are not
-- two representations of one source, nor negations in the predicate about two objects.
abbrev pub IsConflict : ClaimRef → ClaimRef → ConflictKind → Type 0
IsConflict a b kind =
    (is_same_representation a b ≡ false)
    × ((kind ≡ opposite_polarity)
          × (same_bool a.polarity b.polarity ≡ false)
          × ((has_negation (norm (norm a.predicate)) ≡ false) ⊎ (norm a.object ≡ norm b.object))
        ⊎ (kind ≡ conflicting_object)
          × (same_bool a.polarity b.polarity ≡ true)
          × ¬ (norm a.object ≡ norm b.object))

pub guarded-IsConflict :
    (a b : ClaimRef) (kind : ConflictKind)
    → guarded (key_of a).1 a b (conflict_kind a b) ≡ some kind
    → IsConflict a b kind
unfolding guarded conflict_kind key_of
guarded-IsConflict a b opposite_polarity h = ground (arith, h)
guarded-IsConflict a b conflicting_object h = ground (arith, h)

pub IsConflict-guarded :
    (a b : ClaimRef) (kind : ConflictKind)
    → IsConflict a b kind
    → guarded (key_of a).1 a b (conflict_kind a b) ≡ some kind
unfolding guarded conflict_kind key_of
IsConflict-guarded a b opposite_polarity h = ground (arith, h)
IsConflict-guarded a b conflicting_object h = ground (arith, h)

module _ (corpus : Corpus) where
  pub found_pair_iff :
      (f : Found) (key : String × String) (a b : ClaimRef) (o : Option ConflictKind)
      → IsIn f (found_pair corpus key a b o)
      → (kind : ConflictKind) × (o ≡ some kind) × IsIn f (found_pair corpus key a b (some kind))
  unfolding found_pair
  found_pair_iff f key a b none i = absurd i
  found_pair_iff f key a b (some kind) i = (kind, refl, i)

  pairs_with-IsIn :
      (f : Found) (key : String × String) (a : ClaimRef) (members : List ClaimRef)
      → IsIn f (pairs_with corpus key a members)
      → (b : ClaimRef) × IsIn b members × IsIn f (pair_of corpus key a b)
  unfolding pairs_with
  pairs_with-IsIn f key a [] i = absurd i
  pairs_with-IsIn f key a (b ∷ members) i =
      elim (IsIn-append_cases f (pair_of corpus key a b) (pairs_with corpus key a members) i) [
        | inl j ↦ (b, inl refl, j)
        | inr j ↦ let (c, k, l) = pairs_with-IsIn f key a members j in (c, inr k, l)
      ]

  IsIn-pairs_with :
      (f : Found) (key : String × String) (a b : ClaimRef) (members : List ClaimRef)
      → IsIn b members
      → IsIn f (pair_of corpus key a b)
      → IsIn f (pairs_with corpus key a members)
  unfolding pairs_with
  IsIn-pairs_with f key a b (c ∷ members) (inl e) i =
      IsIn-append_left f (pair_of corpus key a c) _
        (subst (λ x. IsIn f (pair_of corpus key a x)) e i)
  IsIn-pairs_with f key a b (c ∷ members) (inr j) i =
      IsIn-append_right f (pair_of corpus key a c) _ (IsIn-pairs_with f key a b members j i)
  IsIn-pairs_with f key a b [] j i = absurd j

  pub pairs_of-IsIn :
      (f : Found) (key : String × String) (members : List ClaimRef)
      → IsIn f (pairs_of corpus key members)
      → (a : ClaimRef) × (b : ClaimRef) × Precedes a b members × IsIn f (pair_of corpus key a b)
  unfolding pairs_of
  pairs_of-IsIn f key [] i = absurd i
  pairs_of-IsIn f key (a ∷ members) i =
      elim (IsIn-append_cases f (pairs_with corpus key a members) (pairs_of corpus key members) i) [
        | inl j ↦ let (b, k, l) = pairs_with-IsIn f key a members j in (a, b, inl (refl, k), l)
        | inr j ↦ let (c, b, k, l) = pairs_of-IsIn f key members j in (c, b, inr k, l)
      ]

  pub IsIn-pairs_of :
      (f : Found) (key : String × String) (a b : ClaimRef) (members : List ClaimRef)
      → Precedes a b members
      → IsIn f (pair_of corpus key a b)
      → IsIn f (pairs_of corpus key members)
  unfolding pairs_of
  IsIn-pairs_of f key a b (c ∷ members) (inl (e, j)) i =
      IsIn-append_left f (pairs_with corpus key c members) _ (
        subst (λ x. IsIn f (pairs_with corpus key x members)) e
          (IsIn-pairs_with f key a b members j i))
  IsIn-pairs_of f key a b (c ∷ members) (inr q) i =
      IsIn-append_right f (pairs_with corpus key c members) _ (IsIn-pairs_of f key a b members q i)
  IsIn-pairs_of f key a b [] q i = absurd q
