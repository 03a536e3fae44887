-- ===== src/Tests/Registry.antt =====
-- The registry and the metadata chain at concrete data.
use mathlib.Core.Option.{or_else}
use legal_system.Prelude.{
  String, true, false, none, some, List, [], ◌∷◌, ◌≡◌, refl, any, find, is_some, if◌then◌else◌,
  string_dec,
}
use legal_system.Prelude.Text.{lower, starts_with, strip}
use legal_system.Prelude.Dict.{lookup, set_default}
use legal_system.Data.{bool, text, one, get, str, opt_truthy, opt_or, of_opt}
use legal_system.Prelude.Lines.{split_lines, ends_line, has_break}
use legal_system.Prelude.Words.{onto_first}
use legal_system.Tests.Tree.{json_for}
use legal_system.Exclusion.{
  entry_for_sha, entry_for_path, add, ExclusionEntry, load, read_lines, read_parsed,
  append_exclusion, to_json, as_dict, new_entry, post_init, lower_or_none, init, excludes, match,
  record_exclusion, is_prefix_entry,
}
use legal_system.Exclusion.Lookup.{covers, has_sha, has_path, excludes-init, match-init}
use legal_system.Exclusion.Record.{Honours, IsWritten, record_exclusion-Honours}
use legal_system.Sidecar.{
  Layer, fields, malformed, absent, no_index_key, no_index_category_key, resolve_layers,
}
use legal_system.Sidecar.Resolution.{attempts, mentions, layer_of, resolve_layers-no_index}
use legal_system.Sidecar.Category.{class_of, resolve_layers-category}

abbrev by_path : ExclusionEntry
by_path = record {
  raw_path = "secret/";
  reason = "r";
  timestamp = "t";
  source = "deindex";
  raw_sha256 = none;
}

abbrev by_hash : ExclusionEntry
by_hash = record {
  raw_path = "x";
  reason = "r";
  timestamp = "t";
  source = "manual";
  raw_sha256 = some "ab";
}

abbrev entries : List ExclusionEntry
entries = by_path ∷ by_hash ∷ []

excludes-init_example :
    excludes (init entries) (some "secret/a.txt") none
    ≡ any (covers (some "secret/a.txt") none) entries
excludes-init_example = excludes-init entries (some "secret/a.txt") none

under_path : excludes (init entries) (some "secret/a.txt") none ≡ true
unfolding excludes match entry_for_sha entry_for_path lookup init add set_default string_dec
    starts_with
under_path = refl

match-init_example :
    match (init entries) (some "secret/a.txt") (some "AB")
    ≡ or_else (find (has_sha (lower "AB")) entries) (
        or_else
          (find (has_path "secret/a.txt") entries)
          (find (is_prefix_entry "secret/a.txt") entries))
match-init_example = match-init entries "secret/a.txt" "AB" refl refl

-- A file with a comment.
abbrev commented : String
commented = "# kept out\n"

abbrev ordered : ExclusionEntry
ordered = record {
  raw_path = "secret/";
  reason = "order";
  timestamp = "now";
  source = "deindex";
  raw_sha256 = none;
}

written : IsWritten (json_for ordered) (new_entry "secret/" "order" "deindex" none none "now")
unfolding to_json as_dict new_entry post_init strip string_dec opt_truthy lower_or_none opt_or get
    str lookup has_break legal_system.Prelude.Lines.is_break of_opt
written = (refl, ("secret/", refl), refl)

commented_ended : ends_line commented ≡ true
unfolding ends_line legal_system.Prelude.Lines.is_break
commented_ended = refl

commented_loads : is_some (load (json_for ordered) commented) ≡ true
unfolding load read_lines split_lines onto_first legal_system.Prelude.Lines.is_break strip
    starts_with
commented_loads = refl

record_exclusion-Honours_example :
    Honours
      (json_for ordered)
      "secret/"
      "order"
      "deindex"
      commented
      (record_exclusion (json_for ordered) "secret/" "order" "deindex" none none "now" commented)
record_exclusion-Honours_example =
    record_exclusion-Honours (json_for ordered) "secret/" "order" "deindex" none none "now"
      commented refl commented_ended commented_loads written

-- Without the end of its last line, the file loses both entries.
test_open_line :
    load (json_for ordered) (append_exclusion (json_for ordered) "{secret/}" ordered)
    ≡ some (init [])
unfolding load read_lines read_parsed append_exclusion to_json split_lines onto_first
    legal_system.Prelude.Lines.is_break strip starts_with string_dec as_dict get str lookup
test_open_line = refl

-- A clean `false` under a folder whose metadata file does not parse.
abbrev chain : List (String × Layer)
chain =
    ("metadata.yaml", malformed "ParserError")
    ∷ (
      "a/metadata.yaml",
      fields (("author", one (text "A")) ∷ (no_index_key, one (bool false)) ∷ []),
    )
    ∷ ("a/x.pdf.metadata.yaml", absent)
    ∷ []

resolve_layers-no_index_example : lookup no_index_key (resolve_layers chain).fields ≡ (
    if any (λ l. attempts (layer_of l)) chain
    then some (one (bool true))
    else if any (λ l. mentions (layer_of l)) chain
    then some (one (bool false))
    else none)
resolve_layers-no_index_example = resolve_layers-no_index chain

attempted : any (λ l. attempts (layer_of l)) chain ≡ true
attempted = refl

resolve_layers-category_example :
    lookup no_index_category_key (resolve_layers chain).fields ≡ some (one (text (class_of chain)))
resolve_layers-category_example = resolve_layers-category chain attempted
