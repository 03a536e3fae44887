-- ===== src/Contradictions/Grouping.antt =====
-- query.py: the groups of claims, and what is found in them.
use legal_system.Prelude.{
  String, Bool, true, false, ◌||◌, List, [], ◌∷◌, ==_true, ==_refl, any, ◌≡◌, inl, inr, refl, sym,
  ap, subst, ◌∙◌, arith, IsIn, Bool-cases,
}
use legal_system.Contradictions.{ClaimRef, Groups, same_key, add_to_group, key_of, group_onto}
use legal_system.Contradictions.Pairs.{members_of}

-- A group with the key is there.
abbrev has_group : String × String → Groups → Bool
has_group key = any (λ (g : (String × String) × List ClaimRef). same_key g.0 key)

-- No key has two groups.
abbrev AreDistinct : Groups → Type 0
AreDistinct [] = Unit
AreDistinct ((k, members) ∷ groups) = (has_group k groups ≡ false) × AreDistinct groups

has_group-add_to_group :
    (key k : String × String) (ref : ClaimRef) (groups : Groups)
    → has_group key (add_to_group k ref groups) ≡ (has_group key groups || same_key k key)
unfolding add_to_group
has_group-add_to_group key k ref [] = ground arith
has_group-add_to_group key k ref ((j, members) ∷ groups) =
    ground (arith, has_group-add_to_group key k ref groups)

add_to_group-AreDistinct :
    (k : String × String) (ref : ClaimRef) (groups : Groups)
    → AreDistinct groups
    → AreDistinct (add_to_group k ref groups)
unfolding add_to_group
add_to_group-AreDistinct k ref [] h = (refl, tt)
add_to_group-AreDistinct k ref ((j, members) ∷ groups) h = elim (Bool-cases (same_key j k)) [
  | inl e ↦ rw e h
  | inr e ↦
      let rest = add_to_group-AreDistinct k ref groups h.1 in
      let apart : has_group j (add_to_group k ref groups) ≡ false =
        ground (arith, has_group-add_to_group j k ref groups, h.0, e) in
      rw e (apart, rest)
]

pub group_onto-AreDistinct :
    (groups : Groups) (refs : List ClaimRef)
    → AreDistinct groups
    → AreDistinct (group_onto groups refs)
unfolding group_onto
group_onto-AreDistinct groups [] h = h
group_onto-AreDistinct groups (ref ∷ refs) h =
    group_onto-AreDistinct (add_to_group (key_of ref) ref groups) refs
      (add_to_group-AreDistinct (key_of ref) ref groups h)

pub same_key_refl : (k : String × String) → same_key k k ≡ true
same_key_refl (s, t) = ground (arith, ==_refl s, ==_refl t)

pub same_key-true : (k j : String × String) → same_key k j ≡ true → k ≡ j
same_key-true (s, t) (u, v) h =
    let p = ==_true s u (ground arith) in let q = ==_true t v (ground arith) in λ i. (p i, q i)

members_of-absent :
    (key : String × String) (groups : Groups)
    → has_group key groups ≡ false
    → members_of key groups ≡ []
unfolding members_of
members_of-absent key [] h = refl
members_of-absent key ((k, members) ∷ groups) h = ground (arith, members_of-absent key groups)

IsIn-has_group :
    (key : String × String) (members : List ClaimRef) (groups : Groups)
    → IsIn (key, members) groups
    → has_group key groups ≡ true
IsIn-has_group key members ((k, ms) ∷ groups) (inl e) =
    let same = same_key_refl key in
    let p = ap (λ (g : (String × String) × List ClaimRef). same_key g.0 key) e in ground arith
IsIn-has_group key members (g ∷ groups) (inr i) =
    ground (arith, IsIn-has_group key members groups i)
IsIn-has_group key members [] i = absurd i

pub members_of-IsIn :
    (key : String × String) (members : List ClaimRef) (groups : Groups)
    → AreDistinct groups
    → IsIn (key, members) groups
    → members_of key groups ≡ members
unfolding members_of
members_of-IsIn key members ((k, ms) ∷ groups) h (inl e) =
    let same =
      sym (ap (λ (g : (String × String) × List ClaimRef). same_key g.0 key) e)
      ∙ same_key_refl key in
    rw same (ap (λ (g : (String × String) × List ClaimRef). g.1) (sym e))
members_of-IsIn key members ((k, ms) ∷ groups) h (inr i) = elim (Bool-cases (same_key k key)) [
  | inl e ↦
      let j = subst (λ x. has_group x groups ≡ false) (same_key-true k key e) h.0 in
      absurd (ground (arith, j, IsIn-has_group key members groups i))
  | inr e ↦ rw e (members_of-IsIn key members groups h.1 i)
]
members_of-IsIn key members [] h i = absurd i
