-- ===== src/Lint.antt =====
-- metadata/sidecar.py: `metadata lint`, the check of the metadata files before an ingest.
pub mod Agreement
use legal_system.Prelude.{
  ℕ, ◌-◌, String, ◌<>◌, Bool, true, false, not, ◌&&◌, ◌||◌, Option, none, some, List, [], ◌∷◌, ◌++◌,
  any, filter, sorted, is_some, ◌==◌, if◌then◌else◌,
}
use legal_system.Prelude.Text.{ends_with}
use legal_system.Prelude.FilePath.{name, as_posix}
use legal_system.Prelude.Words.{take_text, text_length}
use legal_system.Prelude.Dict.{Dict, lookup, has_key}
use legal_system.Data.{Value}
use legal_system.Sidecar.{
  sidecar_suffix, folder_metadata_name, is_sidecar_name, Layer, absent, malformed, not_mapping,
  fields, Problem, malformed_yaml, no_mapping, unknown_keys, NoIndexResolution, unresolved, examine,
  unknown, is_unset,
}
use legal_system.Manifest.{Node, file, folder, Raw}

-- What a finding says.
pub data LintDetail : Type 0 where
  orphan_sidecar : (target : String) → LintDetail
  problem : Problem → LintDetail
  unexplained_override : List String → LintDetail
  clean_file : LintDetail

pub data Level : Type 0 where
  error_level warn_level : Level

pub record LintFinding : Type 0 where
  pub path : String
  pub ok : Bool
  pub detail : LintDetail
  pub level : Level

abbrev pub hard : String → LintDetail → LintFinding
hard source detail = record { path = source; ok = false; detail = detail; level = error_level }

-- `validate_layer`, which complains once of all unknown keys.
unfoldable pub validated : String → List String → List LintFinding
validated source [] = []
validated source (k ∷ ks) = hard source (problem (unknown_keys source (k ∷ ks))) ∷ []

unfoldable pub problems : String → List Problem → List LintFinding
problems source [] = []
problems source (p ∷ ps) = hard source (problem p) ∷ problems source ps

-- `data.get(k) not in (None, "")`
unfoldable pub is_set : String → Dict Value → Bool
is_set k d = elim (lookup k d) [ none ↦ false | some v ↦ not (is_unset v) ]

-- `sorted(AUTHORITATIVE_FIELDS)` that are set.
set_authoritative : Dict Value → List String
unfolding is_set
set_authoritative d = filter (λ k. is_set k d) ("author" ∷ "claim_source" ∷ [])

-- The warning of an override without a method.
unfoldable pub override_warning : String → Dict Value → List String → List LintFinding
unfolding is_set
override_warning source d [] = []
override_warning source d (k ∷ ks) =
    if is_set "method" d
    then []
    else record {
      path = source;
      ok = true;
      detail = unexplained_override (k ∷ ks);
      level = warn_level;
    }
      ∷ []

-- `any(not f.ok for f in findings)`
abbrev pub has_error : List LintFinding → Bool
has_error = any (λ (f : LintFinding). not f.ok)

-- `if not findings: findings.append(...)`
unfoldable pub or_clean : String → List LintFinding → List LintFinding
or_clean source [] =
    record { path = source; ok = true; detail = clean_file; level = error_level } ∷ []
or_clean source (f ∷ fs) = f ∷ fs

-- The warning, which only a file without an error gets, and the finding of a clean file.
unfoldable pub finish_lint : String → Dict Value → List LintFinding → List LintFinding
unfolding override_warning set_authoritative or_clean
finish_lint source d findings = or_clean source (
    if has_error findings
    then findings
    else findings ++ override_warning source d (set_authoritative d))

-- After the test for an orphan. A file that is there is not `absent`.
unfoldable pub lint_layer : String → List LintFinding → Layer → List LintFinding
unfolding finish_lint validated problems
lint_layer source findings absent = findings
lint_layer source findings (malformed exception) =
    findings ++ hard source (problem (malformed_yaml source exception)) ∷ []
lint_layer source findings not_mapping = findings ++ hard source (problem (no_mapping source)) ∷ []
lint_layer source findings (fields d) = finish_lint source d (
    findings
    ++ validated source (unknown d)
    ++ problems source (examine d source unresolved).errors)

-- `sidecar_target(path)`
unfoldable pub sidecar_target : String → String
unfolding take_text
sidecar_target path = take_text (text_length path - text_length sidecar_suffix) path

unfoldable pub is_orphan : Raw → String → Bool
unfolding ends_with name sidecar_target
is_orphan raw path =
    ends_with (name path) sidecar_suffix
    && not (name path == folder_metadata_name)
    && not (has_key (sidecar_target path) raw.nodes)

unfoldable pub lint_file : Raw → String → (content : String) → List LintFinding
unfolding lint_layer is_orphan
lint_file raw path content =
    let orphans =
      if is_orphan raw path
      then hard path (orphan_sidecar (name (sidecar_target path))) ∷ []
      else [] in
    lint_layer path orphans (raw.parse content)

unfoldable pub lint_nodes : Raw → Dict Node → List LintFinding
unfolding lint_file
lint_nodes raw [] = []
lint_nodes raw ((path, folder) ∷ nodes) = lint_nodes raw nodes
lint_nodes raw ((path, file content) ∷ nodes) =
    let rest = lint_nodes raw nodes in
    if is_sidecar_name (name path) then lint_file raw path content ++ rest else rest

unfoldable pub lint_root : Raw → List LintFinding
unfolding lint_nodes
lint_root raw = lint_nodes raw raw.nodes
