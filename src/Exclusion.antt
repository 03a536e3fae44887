-- ===== src/Exclusion.antt =====
-- exclusion_registry.py: the registry of deliberate exclusions. The text of a
-- registry file is read and appended to; the json module is a parameter.
pub mod Lookup
pub mod Record
use mathlib.Core.List.{foldl}
use legal_system.Prelude.{
  String, ◌<>◌, Bool, not, ◌||◌, Option, none, some, List, [], ◌∷◌, ◌++◌, ◌==◌, ◌&&◌, find, is_some,
  contains, if◌then◌else◌,
}
use legal_system.Prelude.Text.{truthy, lower, starts_with, strip}
use legal_system.Prelude.Lines.{split_lines}
use legal_system.Prelude.Dict.{Dict, lookup, set_default, has_key}
use legal_system.Data.{Scalar, text, get, str, str_or, is_truthy, opt_truthy, opt_or, of_opt}

pub record ExclusionEntry : Type 0 where
  pub raw_path : String
  pub reason : String
  pub timestamp : String
  pub source : String
  pub raw_sha256 : Option String

-- `raw_sha256.lower() if raw_sha256 else None`
unfoldable pub lower_or_none : Option String → Option String
lower_or_none none = none
lower_or_none (some s) = if truthy s then some (lower s) else none

-- `__post_init__`: a hash that is there is kept in lower case.
unfoldable pub post_init : ExclusionEntry → ExclusionEntry
post_init e =
    if opt_truthy e.raw_sha256 then record e { raw_sha256 = lower_or_none e.raw_sha256 } else e

abbrev pub source_deindex : String
source_deindex = "deindex"

abbrev pub source_manual : String
source_manual = "manual"

abbrev pub valid_sources : List String
valid_sources = source_deindex ∷ source_manual ∷ []

-- `asdict(entry)`, with sorted keys.
unfoldable pub as_dict : ExclusionEntry → Dict Scalar
as_dict e =
    ("raw_path", text e.raw_path)
    ∷ ("raw_sha256", of_opt e.raw_sha256)
    ∷ ("reason", text e.reason)
    ∷ ("source", text e.source)
    ∷ ("timestamp", text e.timestamp)
    ∷ []

-- `from_dict`; `none` is the `KeyError` of a missing `raw_path`.
unfoldable pub from_dict : Dict Scalar → Option ExclusionEntry
from_dict d = elim (lookup "raw_path" d) [
  | none ↦ none
  | some path ↦ some (
      post_init (record {
        raw_path = str path;
        reason = str_or "" (get "reason" d);
        timestamp = str_or "" (get "timestamp" d);
        source = str_or source_manual (get "source" d);
        raw_sha256 =
            if is_truthy (get "raw_sha256" d)
            then some (lower (str (get "raw_sha256" d)))
            else none;
      }))
]

-- What `json.loads` makes of a line: a `JSONDecodeError`, a value that is no object, an object.
pub data Parsed : Type 0 where
  undecodable not_object : Parsed
  object : Dict Scalar → Parsed

-- The json module: `dumps` with `ensure_ascii=False`, and `loads`.
pub record Json : Type 0 where
  pub dumps : Dict Scalar → String
  pub loads : String → Parsed

unfoldable pub to_json : Json → ExclusionEntry → String
unfolding as_dict
to_json json e = json.dumps (as_dict e)

-- What a line that is neither blank nor a comment adds to the entries that the lines after it hold; `none` is
-- the `AttributeError` of `from_dict` on what is no object, which `load` does not catch.
unfoldable pub read_parsed : Parsed → Option (List ExclusionEntry) → Option (List ExclusionEntry)
unfolding from_dict
read_parsed undecodable rest = rest
read_parsed not_object rest = none
read_parsed (object d) none = none
read_parsed (object d) (some es) = elim (from_dict d) [ none ↦ some es | some e ↦ some (e ∷ es) ]

-- The loop of `load` over the lines.
unfoldable pub read_lines : Json → List String → Option (List ExclusionEntry)
unfolding read_parsed strip starts_with
read_lines json [] = some []
read_lines json (raw_line ∷ ls) =
    let rest = read_lines json ls in
    let line = strip raw_line in
    if not (truthy line) || starts_with line "#" then rest else read_parsed (json.loads line) rest

pub record ExclusionRegistry : Type 0 where
  pub entries : List ExclusionEntry
  pub by_path : Dict ExclusionEntry
  pub by_sha : Dict ExclusionEntry

abbrev pub empty : ExclusionRegistry
empty = record { entries = []; by_path = []; by_sha = [] }

-- `_by_sha.setdefault(entry.raw_sha256.lower(), entry)`, if there is a hash.
unfoldable pub add_sha : Option String → ExclusionEntry → Dict ExclusionEntry → Dict ExclusionEntry
add_sha none e d = d
add_sha (some sha) e d = if truthy sha then set_default (lower sha) e d else d

-- `_add`
unfoldable pub add : ExclusionRegistry → ExclusionEntry → ExclusionRegistry
add r e = record {
  entries = r.entries ++ e ∷ [];
  by_path = set_default e.raw_path e r.by_path;
  by_sha = add_sha e.raw_sha256 e r.by_sha;
}

-- `ExclusionRegistry(entries)`
unfoldable pub init : List ExclusionEntry → ExclusionRegistry
init = foldl add empty

-- `load` of the text of a file; it returns nothing if a line raises the `AttributeError`.
unfoldable pub load : Json → String → Option ExclusionRegistry
unfolding read_lines split_lines
load json file = elim (read_lines json (split_lines file)) [
  | none ↦ none
  | some es ↦ some (init es)
]

unfoldable pub entry_for_sha : ExclusionRegistry → Option String → Option ExclusionEntry
entry_for_sha r none = none
entry_for_sha r (some sha) = if truthy sha then lookup (lower sha) r.by_sha else none

-- The test of the prefix loop.
abbrev pub is_prefix_entry : String → ExclusionEntry → Bool
is_prefix_entry path e = truthy e.raw_path && starts_with path e.raw_path

unfoldable pub entry_for_path : ExclusionRegistry → Option String → Option ExclusionEntry
entry_for_path r none = none
entry_for_path r (some path) =
    if truthy path
    then (elim (lookup path r.by_path) [
      | some e ↦ some e
      | none ↦ find (is_prefix_entry path) r.entries
    ])
    else none

unfoldable pub match : ExclusionRegistry → Option String → Option String → Option ExclusionEntry
match r path sha = elim (entry_for_sha r sha) [ some e ↦ some e | none ↦ entry_for_path r path ]

unfoldable pub excludes : ExclusionRegistry → Option String → Option String → Bool
excludes r path sha = is_some (match r path sha)

pub data RecordError : Type 0 where
  no_reason bad_source : RecordError

-- What `record_exclusion` does to the text of the file: it raises, or appends a line and returns the
-- entry.
pub data Recorded : Type 0 where
  raised : RecordError → Recorded
  recorded : ExclusionEntry → (file : String) → Recorded

-- `append_exclusion`; a file that is not there is empty.
unfoldable pub append_exclusion : Json → String → ExclusionEntry → String
unfolding to_json
append_exclusion json file e = file <> to_json json e <> "\n"

unfoldable pub new_entry :
    (raw_path reason source : String) (raw_sha256 timestamp : Option String) (now : String)
    → ExclusionEntry
unfolding post_init lower_or_none opt_or
new_entry raw_path reason source raw_sha256 timestamp now = post_init (record {
  raw_path = raw_path;
  reason = strip reason;
  timestamp = opt_or now timestamp;
  source = source;
  raw_sha256 = lower_or_none raw_sha256;
})

unfoldable pub record_exclusion :
    Json
    → (raw_path reason source : String) (raw_sha256 timestamp : Option String) (now : String)
    → (file : String) → Recorded
unfolding append_exclusion new_entry
record_exclusion json raw_path reason source raw_sha256 timestamp now file =
    let e = new_entry raw_path reason source raw_sha256 timestamp now in
    if truthy (strip reason)
    then (if contains valid_sources source
        then recorded e (append_exclusion json file e)
        else raised bad_source)
    else raised no_reason
