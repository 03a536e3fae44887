-- ===== src/Exclusion/Record.antt =====
-- What exclusion_registry.py writes it reads back: an exclusion that was recorded is in force after a
-- reload.
use legal_system.Prelude.{
  String, ◌≡◌, refl, ◌∙◌, ap, Bool, true, false, Option, none, some, List, [], ◌∷◌, ◌++◌, ◌&&◌,
  arith, any, string_dec, Bool-cases, Option-cases, is_some, not, ◌<>◌, sym, subst, inl, inr, ◌||◌,
  contains, if◌then◌else◌,
}
use legal_system.Prelude.Text.{
  truthy, strip-braces, braces-cons, lower_idem, truthy-lower, starts_with, strip,
  truthy_of_contains,
}
use legal_system.Prelude.Dict.{lookup}
use legal_system.Data.{str, get, str_or, of_opt, is_truthy, opt_truthy, opt_or}
use legal_system.Prelude.Lines.{
  split_lines, has_break, ends_line, split_lines-append, split_lines-line, ends_line-line,
}
use legal_system.Exclusion.{
  ExclusionEntry, ExclusionRegistry, init, Json, Parsed, undecodable, not_object, object, to_json,
  read_parsed, new_entry, load, read_lines, excludes, post_init, lower_or_none, as_dict, from_dict,
  append_exclusion, record_exclusion, Recorded, recorded, raised, valid_sources,
}
use legal_system.Exclusion.Lookup.{excludes-init, covers, excludes-append}

str_or-text : (s : String) → (if truthy s then s else "") ≡ s
str_or-text String.[] = refl
str_or-text (String.◌∷◌ c s) = refl

-- A hash that is kept in lower case is not changed again.
lower_or_none_idem : (sha : Option String) → lower_or_none (lower_or_none sha) ≡ lower_or_none sha
unfolding lower_or_none
lower_or_none_idem none = refl
lower_or_none_idem (some s) = ground (arith, lower_idem s, truthy-lower s)

post_init_lem : (e : ExclusionEntry) → lower_or_none e.raw_sha256 ≡ e.raw_sha256 → post_init e ≡ e
unfolding post_init opt_truthy
post_init_lem e h = ground arith

module _ (path reason stamp source : String) where
  abbrev entry : Option String → ExclusionEntry
  entry sha = record {
    raw_path = path;
    reason = reason;
    timestamp = stamp;
    source = source;
    raw_sha256 = sha;
  }

  from_dict-entry :
      (sha : Option String)
      → truthy source ≡ true
      → from_dict (as_dict (entry sha)) ≡ some (post_init (entry (lower_or_none sha)))
  unfolding from_dict as_dict string_dec lookup get str_or str is_truthy of_opt lower_or_none
  from_dict-entry none t = rw (str_or-text reason, str_or-text stamp, t)
  from_dict-entry (some s) t = rw (str_or-text reason, str_or-text stamp, t)

-- An entry whose hash is in lower case survives `asdict` and `from_dict`.
from_dict-as_dict :
    (e : ExclusionEntry)
    → truthy e.source ≡ true
    → lower_or_none e.raw_sha256 ≡ e.raw_sha256
    → from_dict (as_dict e) ≡ some e
from_dict-as_dict e t h =
    from_dict-entry e.raw_path e.reason e.timestamp e.source e.raw_sha256 t
    ∙ ap some (rw h (post_init_lem e h))

-- The line of an entry is what the json module promises of it: it reads back, and stands in braces.
-- Besides, no character of the entry ends the line.
abbrev pub IsWritten : Json → ExclusionEntry → Type 0
IsWritten json e =
    (json.loads (to_json json e) ≡ object (as_dict e))
    × ((t : String) × (to_json json e ≡ "{" <> t <> "}"))
    × (has_break (to_json json e) ≡ false)

-- The entries that are read, and one more.
abbrev pub and_one : ExclusionEntry → Option (List ExclusionEntry) → Option (List ExclusionEntry)
and_one e none = none
and_one e (some es) = some (es ++ e ∷ [])

braces-read :
    (json : Json) (t line : String) (rest : Option (List ExclusionEntry))
    → line ≡ "{" <> t <> "}"
    → (if not (truthy (strip line)) || starts_with (strip line) "#"
        then rest
        else read_parsed (json.loads (strip line)) rest)
      ≡ read_parsed (json.loads line) rest
unfolding starts_with
braces-read json t line rest e =
    let kept : strip line ≡ line = subst (λ s. strip s ≡ s) (sym e) (strip-braces t) in
    let full : truthy line ≡ true = rw (e, braces-cons t) refl in
    let plain : starts_with line "#" ≡ false = rw (e, braces-cons t) refl in
    rw (kept, full, plain) refl

read_lines-to_json :
    (json : Json) (e : ExclusionEntry)
    → IsWritten json e
    → truthy e.source ≡ true
    → lower_or_none e.raw_sha256 ≡ e.raw_sha256
    → read_lines json (to_json json e ∷ []) ≡ some (e ∷ [])
unfolding read_lines read_parsed
read_lines-to_json json e (back, (t, braces), _) s h =
    braces-read json t (to_json json e) (some []) braces
    ∙ rw (back, read_parsed, from_dict-as_dict e s h) refl

read_parsed-and_one :
    (e : ExclusionEntry) (p : Parsed) (rest : Option (List ExclusionEntry))
    → read_parsed p (and_one e rest) ≡ and_one e (read_parsed p rest)
unfolding read_parsed
read_parsed-and_one e undecodable rest = refl
read_parsed-and_one e not_object rest = refl
read_parsed-and_one e (object d) none = refl
read_parsed-and_one e (object d) (some es) = elim (Option-cases (from_dict d)) [
  | inl h ↦ rw (read_parsed, h) refl
  | inr (f, h) ↦ rw (read_parsed, h) refl
]

read_lines-append_one :
    (json : Json) (e : ExclusionEntry) (line : String) (ls : List String)
    → read_lines json (line ∷ []) ≡ some (e ∷ [])
    → read_lines json (ls ++ line ∷ []) ≡ and_one e (read_lines json ls)
unfolding read_lines
read_lines-append_one json e line [] h = h
read_lines-append_one json e line (l ∷ ls) h =
    let rest = read_lines-append_one json e line ls h in
    elim (Bool-cases (not (truthy (strip l)) || starts_with (strip l) "#")) [
      | inl k ↦ rw k rest
      | inr k ↦ rw (k, rest) (read_parsed-and_one e (json.loads (strip l)) (read_lines json ls))
    ]

-- The entries of a file, as `load` reads them.
abbrev pub entries_of : Json → String → Option (List ExclusionEntry)
entries_of json file = read_lines json (split_lines file)

-- Appending one entry to a file whose last line has ended adds exactly that entry to what is read.
pub entries_of-append_exclusion :
    (json : Json) (file : String) (e : ExclusionEntry)
    → ends_line file ≡ true
    → IsWritten json e
    → truthy e.source ≡ true
    → lower_or_none e.raw_sha256 ≡ e.raw_sha256
    → entries_of json (append_exclusion json file e) ≡ and_one e (entries_of json file)
unfolding append_exclusion
entries_of-append_exclusion json file e ended written s h =
    ap (read_lines json) (
      split_lines-append file (to_json json e <> "\n") ended
      ∙ ap (λ ls. split_lines file ++ ls) (split_lines-line (to_json json e) written.2))
    ∙ read_lines-append_one json e (to_json json e) (split_lines file)
        (read_lines-to_json json e written s h)

pub ends_line-append_exclusion :
    (json : Json) (file : String) (e : ExclusionEntry)
    → ends_line (append_exclusion json file e) ≡ true
unfolding append_exclusion
ends_line-append_exclusion json file e = ends_line-line file (to_json json e)

any-append_last :
    (p : ExclusionEntry → Bool) (es : List ExclusionEntry) (e : ExclusionEntry)
    → p e ≡ true
    → any p (es ++ e ∷ []) ≡ true
any-append_last p [] e h = rw h
any-append_last p (x ∷ es) e h = ground (arith, any-append_last p es e h)

truthy_of_prefix : (s p : String) → starts_with s p ≡ true → truthy p ≡ true → truthy s ≡ true
unfolding starts_with
truthy_of_prefix String.[] String.[] h t = t
truthy_of_prefix String.[] (String.◌∷◌ d p) h t = cc
truthy_of_prefix (String.◌∷◌ c s) p h t = refl

covers_of_prefix :
    (e : ExclusionEntry) (p : String) (sha : Option String)
    → starts_with p e.raw_path ≡ true
    → truthy e.raw_path ≡ true
    → covers (some p) sha e ≡ true
covers_of_prefix e p none h t = ground (arith, truthy_of_prefix p e.raw_path h t)
covers_of_prefix e p (some s) h t = ground (arith, truthy_of_prefix p e.raw_path h t)

load-entries :
    (json : Json) (file : String) (es : List ExclusionEntry)
    → entries_of json file ≡ some es
    → load json file ≡ some (init es)
unfolding load
load-entries json file es h = rw (load, h) refl

abbrev pub excluded : (path : String) → (sha : Option String) → Option ExclusionRegistry → Bool
excluded path sha none = false
excluded path sha (some r) = excludes r (some path) sha

-- The file can be loaded, and what is loaded excludes the document.
abbrev pub is_excluded : Json → String → (path : String) → (sha : Option String) → Bool
is_excluded json file path sha = excluded path sha (load json file)

none-is_some : (o : Option ExclusionRegistry) → o ≡ none → is_some o ≡ true → ⊥
none-is_some o e h = ground (arith, e, h)

init-excludes :
    (es : List ExclusionEntry) (e : ExclusionEntry)
    → truthy e.raw_path ≡ true
    → (p : String) (sha : Option String)
    → (starts_with p e.raw_path || excludes (init es) (some p) sha) ≡ true
    → excludes (init (es ++ e ∷ [])) (some p) sha ≡ true
init-excludes es e path p sha h = elim (Bool-cases (starts_with p e.raw_path)) [
  | inl under ↦
      rw (excludes-init (es ++ e ∷ []) (some p) sha)
        (any-append_last (covers (some p) sha) es e (covers_of_prefix e p sha under path))
  | inr outside ↦ excludes-append es (e ∷ []) (some p) sha (rw outside at h)
]

-- Once an entry has been appended to a file that can be loaded, every document under its path is
-- excluded, and what was excluded before still is.
pub append_exclusion-is_excluded :
    (json : Json) (file : String) (e : ExclusionEntry)
    → ends_line file ≡ true
    → IsWritten json e
    → truthy e.source ≡ true
    → lower_or_none e.raw_sha256 ≡ e.raw_sha256
    → truthy e.raw_path ≡ true
    → is_some (load json file) ≡ true
    → (is_some (load json (append_exclusion json file e)) ≡ true)
      × ((p : String) (sha : Option String)
          → (starts_with p e.raw_path || is_excluded json file p sha) ≡ true
          → is_excluded json (append_exclusion json file e) p sha ≡ true)
unfolding load
append_exclusion-is_excluded json file e ended written t h path loads =
    let added = entries_of-append_exclusion json file e ended written t h in
    elim (Option-cases (entries_of json file)) [
      | inl k ↦ absurd (none-is_some (load json file) (no_load k) loads)
      | inr (es, k) ↦
          let before = load-entries json file es k in
          let after =
            load-entries json (append_exclusion json file e) (es ++ e ∷ [])
              (added ∙ ap (and_one e) k) in
          (
            ap is_some after,
            λ p sha q.
                ap (excluded p sha) after
                ∙ init-excludes es e path p sha
                    (ap (λ o. starts_with p e.raw_path || excluded p sha o) (sym before) ∙ q),
          )
    ]
  where
    no_load : entries_of json file ≡ none → load json file ≡ none
    no_load k = rw (load, k) refl

-- What a call of `record_exclusion` with this path, reason and source owes its caller.
abbrev pub Honours : Json → (path reason source file : String) → Recorded → Type 0
Honours json path reason source file (raised e) =
    (truthy (strip reason) && contains valid_sources source) ≡ false
Honours json path reason source file (recorded e file') =
    ((truthy (strip reason) && contains valid_sources source) ≡ true)
    × (entries_of json file' ≡ and_one e (entries_of json file))
    × (e.raw_path ≡ path)
    × (ends_line file' ≡ true)
    × (is_some (load json file') ≡ true)
    × ((p : String) (h : Option String)
        → (starts_with p path || is_excluded json file p h) ≡ true
        → is_excluded json file' p h ≡ true)

-- For a path that is not empty, and a file that can be loaded and whose last line has ended,
-- `record_exclusion` raises exactly for a blank reason or an unknown source. Otherwise it adds one entry
-- with the path to the file, provided that the line of the entry is in braces, reads back and has no line
-- break in it; after a reload every document under that path is excluded, and so is all that was
-- excluded before.
pub record_exclusion-Honours :
    (json : Json) (path reason source : String) (sha stamp : Option String) (now file : String)
    → truthy path ≡ true
    → ends_line file ≡ true
    → is_some (load json file) ≡ true
    → IsWritten json (new_entry path reason source sha stamp now)
    → Honours json path reason source file
        (record_exclusion json path reason source sha stamp now file)
unfolding record_exclusion new_entry
record_exclusion-Honours json path reason source sha stamp now file t ended loads written =
    elim (Bool-cases (truthy (strip reason))) [
      | inl r ↦ elim (Bool-cases (contains valid_sources source)) [
        | inl v ↦
            rw (r, v)
              (let e = entry path (strip reason) (opt_or now stamp) source (lower_or_none sha) in
                let same : post_init e ≡ e = post_init_lem e (lower_or_none_idem sha) in
                let s = truthy_of_contains valid_sources source refl v in
                let w = subst (IsWritten json) same written in
                let more =
                  append_exclusion-is_excluded json file e ended w s (lower_or_none_idem sha) t
                    loads in
                rw same (
                  ground arith,
                  entries_of-append_exclusion json file e ended w s (lower_or_none_idem sha),
                  refl,
                  ends_line-append_exclusion json file e,
                  more.0,
                  more.1,
                ))
        | inr v ↦ rw (r, v) (ground arith)
      ]
      | inr r ↦ rw r (ground arith)
    ]
