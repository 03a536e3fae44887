-- ===== src/Lint/Agreement.antt =====
-- metadata/sidecar.py: the linter agrees with the resolution of the chain.
use legal_system.Prelude.{
  String, Bool, false, not, ◌||◌, List, [], ◌∷◌, ◌++◌, any, any-append, sorted-filter_cases, ◌≡◌,
  inl, inr, refl, ◌∙◌, arith, if◌then◌else◌,
}
use legal_system.Prelude.Dict.{Dict, keys}
use legal_system.Data.{Value}
use legal_system.Sidecar.{
  Layer, absent, malformed, not_mapping, fields, Problem, unresolved, examine, unknown,
  resolve_layers,
}
use legal_system.Sidecar.Ordinary.{
  is_nil, is_faulty, examine_errors, is_unknown, resolve_layers-errors,
}
use legal_system.Sidecar.Resolution.{layer_of}
use legal_system.Manifest.{Raw}
use legal_system.Lint.{
  LintFinding, has_error, validated, problems, or_clean, override_warning, set_authoritative,
  finish_lint, lint_layer, lint_file, is_orphan,
}

has_error-problems :
    (source : String) (ps : List Problem) → has_error (problems source ps) ≡ not (is_nil ps)
unfolding problems
has_error-problems source [] = refl
has_error-problems source (p ∷ ps) = refl

has_error-validated :
    (source : String) (d : Dict Value)
    → has_error (validated source (unknown d)) ≡ any is_unknown (keys d)
unfolding validated unknown
has_error-validated source d = elim (sorted-filter_cases is_unknown (keys d)) [
  | inl (none_listed, known) ↦ rw none_listed (rw known refl)
  | inr (k, ks, listed, present) ↦ rw listed (rw present refl)
]

has_error-override :
    (source : String) (d : Dict Value) (ks : List String)
    → has_error (override_warning source d ks) ≡ false
unfolding override_warning
has_error-override source d [] = refl
has_error-override source d (k ∷ ks) = ground arith

has_error-or_clean :
    (source : String) (fs : List LintFinding) → has_error (or_clean source fs) ≡ has_error fs
unfolding or_clean
has_error-or_clean source [] = refl
has_error-or_clean source (f ∷ fs) = refl

has_error-finish_lint :
    (source : String) (d : Dict Value) (findings : List LintFinding)
    → has_error (finish_lint source d findings) ≡ has_error findings
unfolding finish_lint
has_error-finish_lint source d findings =
    let warning = override_warning source d (set_authoritative d) in
    has_error-or_clean source (if has_error findings then findings else findings ++ warning)
    ∙ ground (
      arith,
      any-append (λ (f : LintFinding). not f.ok) findings warning,
      has_error-override source d (set_authoritative d),
    )

-- Apart from what was found before, a layer gets an error exactly if it is faulty.
pub has_error-lint_layer :
    (source : String) (findings : List LintFinding) (l : Layer)
    → has_error (lint_layer source findings l) ≡ (has_error findings || is_faulty l)
unfolding lint_layer
has_error-lint_layer source findings absent = ground arith
has_error-lint_layer source findings (malformed e) =
    any-append (λ (f : LintFinding). not f.ok) findings _
has_error-lint_layer source findings not_mapping =
    any-append (λ (f : LintFinding). not f.ok) findings _
has_error-lint_layer source findings (fields d) =
    let unknowns = validated source (unknown d) in
    let doubts = problems source (examine d source unresolved).errors in
    has_error-finish_lint source d (findings ++ unknowns ++ doubts)
    ∙ ground (
      arith,
      any-append (λ (f : LintFinding). not f.ok) (findings ++ unknowns) doubts,
      any-append (λ (f : LintFinding). not f.ok) findings unknowns,
      has_error-validated source d,
      has_error-problems source (examine d source unresolved).errors,
      examine_errors d source unresolved,
    )

-- Some layer of the chain gets an error of its own.
abbrev pub is_rejected : List (String × Layer) → Bool
is_rejected [] = false
is_rejected ((source, l) ∷ ls) = has_error (lint_layer source [] l) || is_rejected ls

is_rejected-faulty :
    (ls : List (String × Layer)) → is_rejected ls ≡ any (λ l. is_faulty (layer_of l)) ls
is_rejected-faulty [] = refl
is_rejected-faulty ((source, l) ∷ ls) =
    ground (arith, has_error-lint_layer source [] l, is_rejected-faulty ls)

-- The linter gives a metadata file an error exactly if it is a sidecar whose target is missing or the
-- layer that it holds is faulty; and the resolution of a chain leaves an error exactly if the linter
-- gives one to some layer of the chain, whatever the targets are.
pub lint_file-resolve_layers :
    (raw : Raw) (path content : String) (ls : List (String × Layer))
    → (has_error (lint_file raw path content)
        ≡ (is_orphan raw path || is_faulty (raw.parse content)))
      × (is_nil (resolve_layers ls).errors ≡ not (is_rejected ls))
unfolding lint_file
lint_file-resolve_layers raw path content ls = (
  has_error-lint_layer path _ (raw.parse content) ∙ ground arith,
  ground (arith, resolve_layers-errors ls, is_rejected-faulty ls),
)
