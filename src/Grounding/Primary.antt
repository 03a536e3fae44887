-- ===== src/Grounding/Primary.antt =====
-- grounding/primary.py and grounding/normalize.py: the held primary texts, by the authorities that they
-- are the text of.
use Prim.Native.Char.{Char, code}
use legal_system.Prelude.{
  ℕ, ◌+◌, String, ◌<>◌, Bool, true, false, ◌&&◌, ◌||◌, Option, none, some, List, [], ◌∷◌, ◌++◌, map,
  contains, any, filter, leb, eqb, if◌then◌else◌,
}
use legal_system.Prelude.Text.{nil, lower, starts_with, strip, is_space}
use legal_system.Prelude.Words.{
  join, has_text, upper, take_text, splitlines, spaces_for_underscores,
}
use legal_system.Prelude.FilePath.{name, suffix, stem}
use legal_system.Prelude.Dict.{Dict, lookup, insert, has_key}
use legal_system.Manifest.{Node, file, folder}
use legal_system.Grounding.Authorities.{Recogniser, authority_keys, neutral_key_from_filename}

-- The typographic marks that fold to a double and to a single quotation mark.
abbrev smart_double : List ℕ
smart_double = 0x201c ∷ 0x201d ∷ 0x201e ∷ 0x201f ∷ 0x2033 ∷ 0xab ∷ 0xbb ∷ []

abbrev smart_single : List ℕ
smart_single = 0x2018 ∷ 0x2019 ∷ 0x201a ∷ 0x201b ∷ 0x2032 ∷ []

fold_char : Char → String
fold_char c =
    if any (eqb (code c)) smart_double
    then "\""
    else if any (eqb (code c)) smart_single
    then "'"
    else if eqb (code c) 0x2026
    then "..."
    else String.◌∷◌ c nil

-- The replacements of characters.
unfoldable pub fold_marks : String → String
unfolding fold_char
fold_marks String.[] = nil
fold_marks (String.◌∷◌ c s) = fold_char c <> fold_marks s

-- A run of dots as it is written back.
written_run : ℕ → String → String
written_run dots run = if leb 3 dots then "..." else run

-- `_DOT_RUN.sub("...", s)`: `run` holds the `dots` dots that have been read and the blanks between them,
-- `gap` the blanks behind the last.
unfoldable pub collapse_from : (dots : ℕ) → (run gap : String) → String → String
unfolding written_run
collapse_from dots run gap String.[] = written_run dots run <> gap
collapse_from dots run gap (String.◌∷◌ c s) =
    let here = String.◌∷◌ c nil in
    let longer = collapse_from (dots + 1) (run <> gap <> here) nil s in
    let wider = collapse_from dots run (gap <> here) s in
    let past = written_run dots run <> gap <> here <> collapse_from 0 nil nil s in
    if eqb (code c) b'.'
    then longer
    else if leb 1 dots && (eqb (code c) 32 || eqb (code c) 9)
    then wider
    else past

-- `_WHITESPACE.sub(" ", s)`; `blank` says that the character before was blank.
unfoldable pub collapse_blanks : (blank : Bool) → String → String
unfolding is_space
collapse_blanks blank String.[] = nil
collapse_blanks blank (String.◌∷◌ c s) =
    let after = collapse_blanks true s in
    let on = collapse_blanks false s in
    if is_space (code c) then (if blank then after else " " <> after) else String.◌∷◌ c on

unfoldable pub normalize_quote : String → String
unfolding fold_marks collapse_from collapse_blanks strip
normalize_quote s = strip (collapse_blanks false (collapse_from 0 nil nil (fold_marks s)))

abbrev subject_fields : List String
subject_fields = "citation" ∷ "title" ∷ "also_cited_as" ∷ "neutral_citation" ∷ []

-- What `re` finds of the front matter and of the first heading.
pub record Reader : Type 0 where
  pub recogniser : Recogniser
  -- The front matter and the body, if there is front matter.
  pub frontmatter : String → Option (String × String)
  pub first_heading : String → Option String

unfoldable pub split_frontmatter : Reader → String → String × String
split_frontmatter re raw = elim (re.frontmatter raw) [ none ↦ (nil, raw) | some split ↦ split ]

-- The stripped line names a field of the subject, or is an item of a list.
unfoldable pub is_subject_line : String → Bool
unfolding lower starts_with
is_subject_line line =
    any (λ field. starts_with (lower line) (field <> ":") || starts_with line "- ") subject_fields

heading_part : Option String → List String
heading_part none = []
heading_part (some heading) = heading ∷ []

unfoldable pub identity_zone : Reader → (raw path : String) → String
unfolding split_frontmatter is_subject_line strip splitlines join stem heading_part
identity_zone re raw path =
    let (frontmatter, body) = split_frontmatter re raw in
    join "\n" (
      filter is_subject_line (map strip (splitlines frontmatter))
      ++ heading_part (re.first_heading body)
      ++ spaces_for_underscores (stem path) ∷ [])

unfoldable pub is_repealed : (raw path : String) → Bool
unfolding upper has_text take_text name
is_repealed raw path =
    let title = upper (name path) in
    let head = upper (take_text 400 raw) in
    has_text "REPEALED" title
    || has_text "DO_NOT_CITE" title
    || has_text "REPEALED" head
    || has_text "DO NOT CITE" head

pub record PrimaryAuthority : Type 0 where
  pub path : String
  pub subject_keys : List String
  pub normalized_text : String
  pub repealed : Bool

-- `PrimaryAuthority.contains`
abbrev pub contains_quote : PrimaryAuthority → String → Bool
contains_quote p quote = has_text quote p.normalized_text

-- `keys.add(key)`
add_key : Option String → List String → List String
add_key none ks = ks
add_key (some k) ks = if contains ks k then ks else ks ++ k ∷ []

unfoldable pub load_primary_text : Reader → (path raw : String) → PrimaryAuthority
unfolding authority_keys identity_zone add_key neutral_key_from_filename stem normalize_quote
    is_repealed
load_primary_text re path raw = record {
  path = path;
  subject_keys =
      add_key (neutral_key_from_filename (stem path))
        (authority_keys re.recogniser (identity_zone re raw path));
  normalized_text = normalize_quote raw;
  repealed = is_repealed raw path;
}

-- `path.suffix.lower() in {".md", ".txt"}`
abbrev pub is_text_file : String → Bool
is_text_file path = contains (".md" ∷ ".txt" ∷ []) (lower (suffix path))

-- The files in the order of their sorted paths.
unfoldable pub load_primary_texts : Reader → Dict Node → List PrimaryAuthority
unfolding load_primary_text
load_primary_texts re [] = []
load_primary_texts re ((path, folder) ∷ nodes) = load_primary_texts re nodes
load_primary_texts re ((path, file content) ∷ nodes) =
    let rest = load_primary_texts re nodes in
    if is_text_file path then load_primary_text re path content ∷ rest else rest

abbrev pub PrimaryIndex : Type 0
PrimaryIndex = Dict (List PrimaryAuthority)

abbrev or_empty : Option (List PrimaryAuthority) → List PrimaryAuthority
or_empty none = []
or_empty (some ps) = ps

-- `by_key.setdefault(key, []).append(auth)`
unfoldable pub add_to_index : PrimaryAuthority → String → PrimaryIndex → PrimaryIndex
unfolding insert lookup
add_to_index auth key index = insert key (or_empty (lookup key index) ++ auth ∷ []) index

unfoldable pub add_keys : PrimaryAuthority → List String → PrimaryIndex → PrimaryIndex
add_keys auth [] index = index
add_keys auth (key ∷ ks) index = add_keys auth ks (add_to_index auth key index)

unfoldable pub build_onto : PrimaryIndex → List PrimaryAuthority → PrimaryIndex
unfolding add_keys
build_onto index [] = index
build_onto index (auth ∷ auths) = build_onto (add_keys auth auth.subject_keys index) auths

unfoldable pub build : List PrimaryAuthority → PrimaryIndex
unfolding build_onto
build auths = build_onto [] auths

unfoldable pub get : PrimaryIndex → String → List PrimaryAuthority
get index key = or_empty (lookup key index)

unfoldable pub held : PrimaryIndex → String → Bool
held index key = has_key key index
