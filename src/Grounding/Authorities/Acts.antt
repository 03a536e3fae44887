-- ===== src/Grounding/Authorities/Acts.antt =====
-- grounding/authorities.py: where an Act is named in a text.
use Prim.Native.Char.{code}
use legal_system.Prelude.{
  ℕ, zero, suc, ◌+◌, ◌-◌, ltb, String, Bool, false, not, ◌&&◌, ◌||◌, List, [], ◌∷◌, ◌++◌, map, any,
  leb, eqb, if◌then◌else◌,
}
use legal_system.Prelude.Text.{starts_with}
use legal_system.Prelude.Words.{is_alnum, text_length, drop_text}
use legal_system.Prelude.Sort.{sort_by}

-- The table of Acts, a canonical name with the forms that denote it.
abbrev acts : List (String × List String)
acts =
    (
      "protection from harassment act 1997",
      "protection from harassment act 1997" ∷ "protection from harassment act" ∷ "pfha" ∷ "pha 1997"
          ∷ [],
    )
    ∷ (
      "magistrates' courts act 1980",
      "magistrates' courts act 1980" ∷ "magistrates courts act 1980" ∷ "mca 1980" ∷ "mca" ∷ [],
    )
    ∷ (
      "prosecution of offences act 1985",
      "prosecution of offences act 1985" ∷ "poa 1985" ∷ "poa" ∷ [],
    )
    ∷ ("criminal justice act 1967", "criminal justice act 1967" ∷ "cja 1967" ∷ [])
    ∷ ("criminal justice act 2003", "criminal justice act 2003" ∷ "cja 2003" ∷ [])
    ∷ (
      "criminal procedure and investigations act 1996",
      "criminal procedure and investigations act 1996" ∷ "cpia 1996" ∷ "cpia" ∷ [],
    )
    ∷ ("coroners and justice act 2009", "coroners and justice act 2009" ∷ [])
    ∷ ("human rights act 1998", "human rights act 1998" ∷ "hra 1998" ∷ "hra" ∷ [])
    ∷ ("sentencing act 2020", "sentencing act 2020" ∷ [])
    ∷ ("criminal justice act 1988", "criminal justice act 1988" ∷ "cja 1988" ∷ [])
    ∷ []

flatten : List (String × List String) → List (String × String)
flatten [] = []
flatten ((canon, forms) ∷ rest) = map (λ form. (form, canon)) forms ++ flatten rest

unfoldable pub act_surfaces : List (String × String)
unfolding flatten sort_by
act_surfaces =
    sort_by (λ (a b : String × String). leb (text_length b.0) (text_length a.0)) (flatten acts)

pub record ActSpan : Type 0 where
  pub start : ℕ
  pub stop : ℕ
  pub canon : String

-- A letter, a digit or an underscore.
abbrev pub is_word : ℕ → Bool
is_word n = is_alnum n || eqb n b'_'

abbrev pub word_first : String → Bool
word_first String.[] = false
word_first (String.◌∷◌ c s) = is_word (code c)

-- The places where `surface` is found, each search from the end of the place before: the start, and
-- whether the place is a whole token. `skip` characters belong to that place, `word` says whether a
-- word character stands in front.
unfoldable pub occurrences :
    (surface : String) → (skip pos : ℕ) → (word : Bool) → String → List (ℕ × Bool)
unfolding starts_with drop_text is_alnum
occurrences surface skip pos word String.[] = []
occurrences surface (suc skip) pos word (String.◌∷◌ c s) =
    occurrences surface skip (suc pos) (is_word (code c)) s
occurrences surface zero pos word (String.◌∷◌ c s) =
    let text = String.◌∷◌ c s in
    let missed = occurrences surface 0 (suc pos) (is_word (code c)) s in
    let found = occurrences surface (text_length surface - 1) (suc pos) (is_word (code c)) s in
    if starts_with text surface
    then (pos, not word && not (word_first (drop_text (text_length surface) text))) ∷ found
    else missed

-- `any(s < end and idx < e for s, e in taken)`
abbrev pub overlaps : (idx stop : ℕ) → List ActSpan → Bool
overlaps idx stop taken = any (λ (t : ActSpan). ltb t.start stop && ltb idx t.stop) taken

-- `spans` also holds what is taken.
unfoldable pub take_places :
    (canon : String) → (size : ℕ) → List ActSpan → List (ℕ × Bool) → List ActSpan
take_places canon size spans [] = spans
take_places canon size spans ((idx, whole) ∷ places) =
    let span : ActSpan = record { start = idx; stop = idx + size; canon = canon } in
    take_places canon size
      (if not whole
        then spans
        else if overlaps idx (idx + size) spans
        then spans
        else spans ++ span ∷ [])
      places

unfoldable pub take_surfaces : String → List ActSpan → List (String × String) → List ActSpan
unfolding take_places occurrences
take_surfaces text spans [] = spans
take_surfaces text spans ((surface, canon) ∷ rest) =
    take_surfaces text
      (take_places canon (text_length surface) spans (occurrences surface 0 0 false text)) rest

unfoldable pub find_act_surfaces : String → List ActSpan
unfolding take_surfaces act_surfaces
find_act_surfaces text = take_surfaces text [] act_surfaces
