-- ===== src/Contradictions.antt =====
-- query.py: claims on one subject and predicate that conflict.
pub mod Stem
pub mod Pairs
pub mod Grouping
pub mod Reported
use legal_system.Prelude.{
  ℕ, String, Bool, true, false, not, ◌&&◌, ◌||◌, Option, none, some, List, [], ◌∷◌, ◌++◌, ◌==◌,
  if◌then◌else◌,
}
use legal_system.Prelude.Text.{nil, truthy, lower}
use legal_system.Prelude.Words.{words, join}
use legal_system.Prelude.Dict.{Dict, lookup}
use legal_system.Contradictions.Stem.{doc_stem, has_negation}

pub record ClaimRef : Type 0 where
  pub doc_id : String
  pub raw_path : Option String
  pub subject : String
  pub predicate : String
  pub object : String
  pub asserted_by : Option String
  pub polarity : Bool
  pub claim_date : Option String
  pub source_span : Option String

pub data ConflictKind : Type 0 where
  opposite_polarity conflicting_object : ConflictKind

pub record ContradictionPair : Type 0 where
  pub asserted_by : Option String
  pub subject : String
  pub predicate : String
  pub kind : ConflictKind
  pub left : ClaimRef
  pub right : ClaimRef

pub record Contradictions : Type 0 where
  pub within_speaker : List ContradictionPair
  pub contested : List ContradictionPair

-- What the search is run with: the aliases that were loaded.
pub record Corpus : Type 0 where
  pub speaker_aliases : Dict String

unfoldable pub norm : String → String
unfolding lower words join
norm text = join " " (words (lower text))

or_nil : Option String → String
or_nil none = nil
or_nil (some s) = s

abbrev pub same_bool : Bool → Bool → Bool
same_bool true b = b
same_bool false b = not b

unfoldable pub conflict_kind : ClaimRef → ClaimRef → Option ConflictKind
unfolding norm
conflict_kind a b =
    if not (same_bool a.polarity b.polarity)
    then some opposite_polarity
    else if not (norm a.object == norm b.object)
    then some conflicting_object
    else none

-- `bool(s) and s == t`
abbrev pub same_text : String → String → Bool
same_text s t = truthy s && s == t

unfoldable pub is_same_representation : ClaimRef → ClaimRef → Bool
unfolding norm or_nil doc_stem
is_same_representation a b =
    same_text a.doc_id b.doc_id
    || same_text (doc_stem a.raw_path) (doc_stem b.raw_path)
    || same_text (norm (or_nil a.source_span)) (norm (or_nil b.source_span))

alias_or : Option String → String → String
alias_or none name = name
alias_or (some canonical) name = canonical

unfoldable pub canonical_speaker : Corpus → Option String → Option String
unfolding norm lookup alias_or
canonical_speaker corpus none = none
canonical_speaker corpus (some name) =
    if truthy name
    then some (alias_or (lookup (norm name) corpus.speaker_aliases) (norm name))
    else none

same_opt : Option String → Option String → Bool
same_opt (some s) (some t) = s == t
same_opt _ _ = false

-- `a_can is not None and a_can == b_can`
unfoldable pub same_speaker : Corpus → ClaimRef → ClaimRef → Bool
unfolding canonical_speaker same_opt
same_speaker corpus a b =
    same_opt (canonical_speaker corpus a.asserted_by) (canonical_speaker corpus b.asserted_by)

-- The conflict of two claims that no guard takes for an artefact.
unfoldable pub guarded :
    (pred : String) → ClaimRef → ClaimRef → Option ConflictKind → Option ConflictKind
unfolding is_same_representation norm has_negation
guarded pred a b none = none
guarded pred a b (some opposite_polarity) =
    if is_same_representation a b
    then none
    else if has_negation (norm pred) && not (norm a.object == norm b.object)
    then none
    else some opposite_polarity
guarded pred a b (some conflicting_object) =
    if is_same_representation a b then none else some conflicting_object

-- A pair that was found, and whether it is one speaker's.
abbrev pub Found : Type 0
Found = Bool × ContradictionPair

unfoldable pub found_pair :
    Corpus → String × String → ClaimRef → ClaimRef → Option ConflictKind → List Found
unfolding same_speaker
found_pair corpus (subj, pred) a b none = []
found_pair corpus (subj, pred) a b (some kind) =
    (
      same_speaker corpus a b,
      record {
        asserted_by = if same_speaker corpus a b then a.asserted_by else none;
        subject = subj;
        predicate = pred;
        kind = kind;
        left = a;
        right = b;
      },
    )
    ∷ []

unfoldable pub pair_of : Corpus → String × String → ClaimRef → ClaimRef → List Found
unfolding found_pair guarded conflict_kind
pair_of corpus key a b = found_pair corpus key a b (guarded key.1 a b (conflict_kind a b))

unfoldable pub pairs_with : Corpus → String × String → ClaimRef → List ClaimRef → List Found
unfolding pair_of
pairs_with corpus key a [] = []
pairs_with corpus key a (b ∷ members) = pair_of corpus key a b ++ pairs_with corpus key a members

-- The loop over `combinations(members, 2)`.
unfoldable pub pairs_of : Corpus → String × String → List ClaimRef → List Found
unfolding pairs_with
pairs_of corpus key [] = []
pairs_of corpus key (a ∷ members) = pairs_with corpus key a members ++ pairs_of corpus key members

abbrev pub Groups : Type 0
Groups = List ((String × String) × List ClaimRef)

abbrev pub same_key : String × String → String × String → Bool
same_key (s, p) (t, q) = s == t && p == q

-- `groups.setdefault(key, []).append(ref)`
unfoldable pub add_to_group : String × String → ClaimRef → Groups → Groups
add_to_group key ref [] = (key, ref ∷ []) ∷ []
add_to_group key ref ((k, members) ∷ groups) =
    let rest = add_to_group key ref groups in
    if same_key k key then (k, members ++ ref ∷ []) ∷ groups else (k, members) ∷ rest

unfoldable pub key_of : ClaimRef → String × String
unfolding norm
key_of ref = (norm ref.subject, norm ref.predicate)

unfoldable pub group_onto : Groups → List ClaimRef → Groups
unfolding add_to_group key_of
group_onto groups [] = groups
group_onto groups (ref ∷ refs) = group_onto (add_to_group (key_of ref) ref groups) refs

unfoldable pub pairs_of_groups : Corpus → Groups → List Found
unfolding pairs_of
pairs_of_groups corpus [] = []
pairs_of_groups corpus ((key, members) ∷ groups) =
    pairs_of corpus key members ++ pairs_of_groups corpus groups

unfoldable pub within : List Found → List ContradictionPair
within [] = []
within ((same, p) ∷ found) = let rest = within found in if same then p ∷ rest else rest

unfoldable pub contested_of : List Found → List ContradictionPair
contested_of [] = []
contested_of ((same, p) ∷ found) = let rest = contested_of found in if same then rest else p ∷ rest

-- `contradictions`, on the claims that `_fetch_claim_refs` returns.
unfoldable pub contradictions : Corpus → List ClaimRef → Contradictions
unfolding pairs_of_groups group_onto within contested_of
contradictions corpus refs =
    let found = pairs_of_groups corpus (group_onto [] refs) in
    record { within_speaker = within found; contested = contested_of found }
