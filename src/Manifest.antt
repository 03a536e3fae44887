-- ===== src/Manifest.antt =====
-- migrate/manifest.py: the provenance entry of one file, and the manifest keyed by content hash. A
-- manifest entry is the record that `asdict` writes and `.get` reads back.
pub mod Keyed
use Prim.Native.String.{len}
use legal_system.Prelude.{
  ℕ, String, Bool, false, not, ◌||◌, Option, none, some, List, [], ◌∷◌, ◌++◌, ◌==◌, map, contains,
  is_some, if◌then◌else◌,
}
use legal_system.Prelude.Text.{truthy, lower}
use legal_system.Prelude.FilePath.{first_part, name, as_posix}
use legal_system.Prelude.Dict.{Dict, lookup, insert}
use legal_system.Data.{
  null, bool, text, other, Value, one, items, mapping, str, str_value, is_truthy_value, opt_str,
}
use legal_system.Sidecar.{
  Layer, absent, Problem, ResolvedMetadata, resolve_chain, is_sidecar_name, no_index_key,
  no_index_reason_key, no_index_category_key,
}
use legal_system.Allowlist.{Allowlist, IncludedTree, tree_for, is_excluded_file}

pub data Node : Type 0 where
  file : (content : String) → Node
  folder : Node

-- The working tree of goldberg-raw, with what stands outside the program: the content hash, the last
-- commit of a path by git, and the reading of a metadata file by the YAML library. The content of a file
-- stands for its bytes, one character for each.
pub record Raw : Type 0 where
  pub nodes : Dict Node  -- in the order of `sorted(root.rglob("*"))`, by POSIX path
  pub digest : String → String
  pub last_commit : String → String
  pub parse : String → Layer

unfoldable pub content_of : Raw → String → Option String
content_of raw path = elim (lookup path raw.nodes) [ some (file c) ↦ some c | _ ↦ none ]

-- `(root / path).is_file()`
abbrev pub is_file : Raw → String → Bool
is_file raw path = is_some (content_of raw path)

unfoldable pub layer_at : Raw → String → Layer
layer_at raw path = elim (content_of raw path) [ some c ↦ raw.parse c | none ↦ absent ]

pub record ManifestEntry : Type 0 where
  pub sha256 : String
  pub raw_path : String
  pub raw_commit : String
  pub size : ℕ
  pub matters : List String
  pub origin : String
  pub party_role : Option String
  pub document_type : Option String
  pub author : Option String
  pub claim_source : Option String
  pub no_index : Bool
  pub no_index_reason : Option String
  pub no_index_category : Option String
  pub notes : Option String
  pub method : Option String
  pub date : Option String
  pub date_basis : Option String
  pub date_uncertain : Bool
  pub source_channel : Option String
  pub obtained_note : Option String
  pub superseded_by : Option String
  pub metadata_error : List Problem

-- `entry_is_no_index`
abbrev pub entry_is_no_index : ManifestEntry → Bool
entry_is_no_index e = e.no_index

unfoldable pub characters : String → List String
characters String.[] = []
characters (String.◌∷◌ c s) = String.◌∷◌ c String.[] ∷ characters s

-- The texts that a loop over `chain.get("matters") or []` meets; `none` is the `TypeError` of a value
-- that cannot be iterated.
unfoldable pub iterate : Option Value → Option (List String)
unfolding characters
iterate none = some []
iterate (some (items vs printed)) = some (map str vs)
iterate (some (mapping keys printed)) = some (map str keys)
iterate (some (one null)) = some []
iterate (some (one (bool b))) = if b then none else some []
iterate (some (one (text s))) = some (characters s)
iterate (some (one (other s b))) = if b then none else some []

unfoldable pub add_matters : List String → List String → List String
add_matters acc [] = acc
add_matters acc (m ∷ ms) = add_matters (if contains acc m then acc else acc ++ m ∷ []) ms

unfoldable pub case_matters : Option Value → List String
case_matters none = []
case_matters (some v) = if is_truthy_value v then str_value v ∷ [] else []

-- `_resolve_matters`
unfoldable pub resolve_matters : Dict Value → Option (List String)
resolve_matters chain = elim (iterate (lookup "matters" chain)) [
  | none ↦ none
  | some ms ↦ some (add_matters (case_matters (lookup "case_number" chain)) ms)
]

abbrev pub truth : Option Value → Bool
truth none = false
truth (some v) = is_truthy_value v

unfoldable pub is_on_its_face : Option Value → Bool
is_on_its_face (some (one (text s))) = s == "on its face"
is_on_its_face _ = false

-- `resolve_date_uncertain`
unfoldable pub resolve_date_uncertain : Dict Value → Option Bool
resolve_date_uncertain chain = elim (lookup "date_uncertain" chain) [
  | some v ↦ some (is_truthy_value v)
  | none ↦
      if truth (lookup "date" chain)
      then some (not (is_on_its_face (lookup "date_basis" chain)))
      else none
]

-- How `build_entry` ends: it raises, returns `None`, or returns an entry.
pub data Built : Type 0 where
  raised skipped : Built
  built : ManifestEntry → Built

-- The entry that `build_entry` returns for a file of an included tree.
unfoldable pub make_entry :
    Raw
    → Bool
    → String
    → (content : String) → IncludedTree
    → ResolvedMetadata
    → List String
    → ManifestEntry
make_entry raw with_commit rel content tree resolved matters =
    let get = λ (k : String). opt_str (lookup k resolved.fields) in
    record {
      sha256 = raw.digest content;
      raw_path = as_posix rel;
      raw_commit = if with_commit then raw.last_commit rel else "";
      size = len content;
      matters = matters;
      origin = tree.origin;
      party_role = get "party_role";
      document_type = get "document_type";
      author = get "author";
      claim_source = get "claim_source";
      no_index = truth (lookup no_index_key resolved.fields);
      no_index_reason = get no_index_reason_key;
      no_index_category = get no_index_category_key;
      notes = get "notes";
      method = get "method";
      date = get "date";
      date_basis = get "date_basis";
      date_uncertain = elim (resolve_date_uncertain resolved.fields) [ some b ↦ b | none ↦ false ];
      source_channel = get "source_channel";
      obtained_note = get "obtained_note";
      superseded_by = get "superseded_by";
      metadata_error = resolved.errors;
    }

-- The walk layer: the tree that owns the path, unless it is no evidence.
unfoldable pub evidence_tree : Allowlist → String → Option IncludedTree
evidence_tree allow rel =
    if first_part rel == ".git" || is_sidecar_name (name rel) || is_excluded_file allow rel
    then none
    else tree_for allow rel

unfoldable pub finish_entry :
    Raw
    → Bool
    → String
    → (content : String) → IncludedTree
    → ResolvedMetadata
    → Option (List String)
    → Built
finish_entry raw with_commit rel content tree resolved none = raised
finish_entry raw with_commit rel content tree resolved (some matters) =
    built (make_entry raw with_commit rel content tree resolved matters)

unfoldable pub build_known :
    Raw → Bool → Option (List String) → String → (content : String) → Option IncludedTree → Built
build_known raw with_commit known rel content none = skipped
build_known raw with_commit known rel content (some tree) =
    if (elim known [ none ↦ false | some shas ↦ contains shas (raw.digest content) ])
    then skipped
    else let resolved = resolve_chain (layer_at raw) rel in
      finish_entry raw with_commit rel content tree resolved (resolve_matters resolved.fields)

-- `build_entry(root, rel, allowlist, with_commit=…, known_shas=…)` on a file with this content.
unfoldable pub build_entry :
    Raw → Allowlist → Bool → Option (List String) → String → (content : String) → Built
build_entry raw allow with_commit known rel content =
    build_known raw with_commit known rel content (evidence_tree allow rel)

pub record Manifest : Type 0 where
  pub by_sha : Dict ManifestEntry

-- `Manifest(by_sha)`: the keys in lower case.
unfoldable pub lower_keys : Dict ManifestEntry → Dict ManifestEntry → Dict ManifestEntry
lower_keys acc [] = acc
lower_keys acc ((k, e) ∷ d) = lower_keys (insert (lower k) e acc) d

unfoldable pub init : Dict ManifestEntry → Manifest
init d = record { by_sha = lower_keys [] d }

unfoldable pub entry_for_sha : Manifest → Option String → Option ManifestEntry
entry_for_sha m none = none
entry_for_sha m (some sha) = if truthy sha then lookup (lower sha) m.by_sha else none
