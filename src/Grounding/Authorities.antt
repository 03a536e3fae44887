-- ===== src/Grounding/Authorities.antt =====
-- grounding/authorities.py: references to authorities in a text, and their canonical keys.
pub mod Acts
use legal_system.Prelude.{
  ℕ, zero, suc, ◌+◌, ◌-◌, min, max, String, ◌<>◌, Bool, true, false, not, ◌&&◌, ◌||◌, Option, none,
  some, List, [], ◌∷◌, ◌++◌, map, contains, any, find, ltb, leb, eqb, ◌==◌, is_some, if◌then◌else◌,
}
use legal_system.Prelude.Text.{nil, truthy, lower, starts_with, strip}
use legal_system.Prelude.Words.{words, join, runs, is_alnum, isdigit, slice_text, text_length}
use legal_system.Prelude.Sort.{sort_by}
use legal_system.Grounding.Authorities.Acts.{ActSpan, find_act_surfaces}

-- Matches of the patterns of this file, as `re` finds them: their text, groups and place.
pub record NeutralMatch : Type 0 where
  pub text : String
  pub year : String
  pub court : String
  pub num : String
  pub div : Option String
  pub start : ℕ
  pub stop : ℕ

pub record NumberMatch : Type 0 where
  pub text : String
  pub num : String
  pub start : ℕ
  pub stop : ℕ

pub record Recogniser : Type 0 where
  pub neutral : String → List NeutralMatch
  pub section : String → List NumberMatch
  pub crimpr : String → List NumberMatch

abbrev pub divisions : List String
divisions = "admin" ∷ "kb" ∷ "qb" ∷ "ch" ∷ "fam" ∷ "comm" ∷ "pat" ∷ "tcc" ∷ "ipec" ∷ "scco" ∷ []

abbrev pub courts : List String
courts = "ewca" ∷ "ewhc" ∷ "ukhl" ∷ "uksc" ∷ "ukpc" ∷ "ewcop" ∷ "ewfc" ∷ []

unfoldable pub key_of : (year court num division : String) → String
key_of year court num division =
    let key = "ncit:" <> year <> " " <> court <> " " <> num in
    if truthy division then key <> " " <> division else key

-- The division that is given, or that closes the court's words.
unfoldable pub neutral_tokens : String → List String → (num division : String) → String
unfolding join key_of
neutral_tokens year (c ∷ d ∷ []) num division =
    if not (truthy division) && contains divisions d
    then key_of year c num d
    else key_of year (c <> " " <> d) num division
neutral_tokens year tokens num division = key_of year (join " " tokens) num division

abbrev or_nil : Option String → String
or_nil none = nil
or_nil (some s) = s

unfoldable pub neutral_key : (year court num : String) → Option String → String
unfolding lower words neutral_tokens
neutral_key year court num div = neutral_tokens year (words (lower court)) num (lower (or_nil div))

pub data Kind : Type 0 where
  neutral_citation : Kind
  statute : Kind
  rule : Kind

pub record AuthorityRef : Type 0 where
  pub raw : String
  pub key : String
  pub kind : Kind
  pub start : ℕ
  pub stop : ℕ

unfoldable pub find_neutral : Recogniser → String → List AuthorityRef
unfolding neutral_key
find_neutral re text =
    map
      (λ (m : NeutralMatch). record {
        raw = m.text;
        key = neutral_key m.year m.court m.num m.div;
        kind = neutral_citation;
        start = m.start;
        stop = m.stop;
      })
      (re.neutral text)

abbrev pub statute_window : ℕ
statute_window = 60

-- The characters between a section token and an Act.
unfoldable pub act_distance : NumberMatch → ActSpan → ℕ
act_distance sec act =
    if leb sec.stop act.start
    then act.start - sec.stop
    else if leb act.stop sec.start
    then sec.start - act.stop
    else 0

-- The first of the nearest Acts in the window, after `best`.
unfoldable pub nearest_act : NumberMatch → Option ActSpan → List ActSpan → Option ActSpan
unfolding act_distance
nearest_act sec best [] = best
nearest_act sec none (act ∷ acts) =
    nearest_act sec (if leb (act_distance sec act) statute_window then some act else none) acts
nearest_act sec (some best) (act ∷ acts) =
    let nearer =
      leb (act_distance sec act) statute_window
      && ltb (act_distance sec act) (act_distance sec best) in
    nearest_act sec (some (if nearer then act else best)) acts

is_seen : ℕ → String → List AuthorityRef → Bool
is_seen start key refs = any (λ (r : AuthorityRef). eqb r.start start && r.key == key) refs

-- The loop over the section tokens; `refs` has one reference for each member of `seen`.
unfoldable pub statutes_from :
    String → List ActSpan → List AuthorityRef → List NumberMatch → List AuthorityRef
unfolding nearest_act is_seen slice_text
statutes_from text acts refs [] = refs
statutes_from text acts refs (sec ∷ secs) = elim (nearest_act sec none acts) [
  | none ↦ statutes_from text acts refs secs
  | some act ↦
      let key = "stat:" <> act.canon <> " s" <> sec.num in
      let start = min sec.start act.start in
      let stop = max sec.stop act.stop in
      statutes_from text acts
        (if is_seen start key refs
          then refs
          else refs
            ++ record {
              raw = slice_text start stop text;
              key = key;
              kind = statute;
              start = start;
              stop = stop;
            }
              ∷ [])
        secs
]

unfoldable pub find_statutes : Recogniser → String → List AuthorityRef
unfolding find_act_surfaces statutes_from lower
find_statutes re text = elim (find_act_surfaces (lower text)) [
  | [] ↦ []
  | act ∷ acts ↦ statutes_from text (act ∷ acts) [] (re.section text)
]

unfoldable pub find_rules : Recogniser → String → List AuthorityRef
unfolding strip
find_rules re text =
    map
      (λ (m : NumberMatch). record {
        raw = strip m.text;
        key = "rule:criminal procedure rules " <> m.num;
        kind = rule;
        start = m.start;
        stop = m.stop;
      })
      (re.crimpr text)

unfoldable pub find_authorities : Recogniser → String → List AuthorityRef
unfolding find_neutral find_statutes find_rules sort_by
find_authorities re text =
    sort_by (λ (a b : AuthorityRef). leb a.start b.start)
      (find_neutral re text ++ find_statutes re text ++ find_rules re text)

-- The members of a set, each once.
unfoldable pub distinct : List String → List String
distinct [] = []
distinct (s ∷ ss) = let rest = distinct ss in if contains ss s then rest else s ∷ rest

unfoldable pub authority_keys : Recogniser → String → List String
unfolding distinct find_authorities
authority_keys re text = distinct (map (λ (r : AuthorityRef). r.key) (find_authorities re text))

-- `re.fullmatch(r"(?:19|20)\d{2}", t)`
is_year : String → Bool
unfolding isdigit starts_with
is_year t = (starts_with t "19" || starts_with t "20") && eqb (text_length t) 4 && isdigit t

-- The tokens from the first court on.
from_court : List String → List String
unfolding lower
from_court [] = []
from_court (t ∷ ts) = let rest = from_court ts in if contains courts (lower t) then t ∷ ts else rest

-- The number at the front and the division behind it.
unfoldable pub key_of_number : (year court : String) → List String → Option String
unfolding neutral_key isdigit lower
key_of_number year court [] = none
key_of_number year court (num ∷ []) =
    if isdigit num then some (neutral_key year court num none) else none
key_of_number year court (num ∷ d ∷ ts) =
    if isdigit num
    then some (neutral_key year court num (if contains divisions (lower d) then some d else none))
    else none

unfoldable pub key_from_tokens : String → List String → Option String
unfolding key_of_number lower
key_from_tokens year [] = none
key_from_tokens year (court ∷ []) = none
key_from_tokens year (court ∷ t ∷ ts) =
    if contains ("civ" ∷ "crim" ∷ []) (lower t)
    then key_of_number year (court <> " " <> t) ts
    else key_of_number year court (t ∷ ts)

unfoldable pub neutral_key_from_filename : String → Option String
unfolding runs is_alnum is_year from_court key_from_tokens
neutral_key_from_filename stem =
    let tokens = runs is_alnum stem in
    elim (find is_year tokens) [
      | none ↦ none
      | some year ↦ key_from_tokens year (from_court tokens)
    ]
