-- ===== src/Reconcile/Gap.antt =====
-- ingest/reconcile.py: the gap against the test of a single path.
use legal_system.Prelude.{
  ℕ, ◌+◌, String, Bool, true, false, not, ◌&&◌, Option, none, some, List, [], ◌∷◌, ◌++◌, map,
  contains, ◌≡◌, refl, sym, ◌∙◌, ap, inl, inr, Option-cases, arith, append_assoc, append_nil,
  if◌then◌else◌,
}
use legal_system.Prelude.Text.{lower}
use legal_system.Prelude.FilePath.{first_part, as_posix}
use legal_system.Prelude.Dict.{Dict}
use legal_system.Exclusion.{ExclusionRegistry}
use legal_system.Sidecar.{resolve_chain}
use legal_system.Allowlist.{Allowlist}
use legal_system.Manifest.{
  Node, file, folder, Raw, ManifestEntry, Built, raised, skipped, built, build_entry, build_known,
  finish_entry, make_entry, evidence_tree, layer_at, resolve_matters,
}
use legal_system.Catchup.{entry_is_ingestable}
use legal_system.Reconcile.{GapFile, GapReport, record_entry, scan_built, scan, reconcile_gap}

-- The file's place in the gap: the entry of an ingestable file whose hash the index has not.
unfoldable pub gap_of : List String → Option ExclusionRegistry → String → Built → List GapFile
gap_of indexed registry rel (built e) =
    if entry_is_ingestable e registry && not (contains indexed (lower e.sha256))
    then record { raw_path = e.raw_path; raw_sha256 = e.sha256; tree = first_part rel } ∷ []
    else []
gap_of indexed registry rel _ = []

-- The gap of the files of a tree, one after the other.
unfoldable pub gaps :
    Raw → Allowlist → Bool → List String → Option ExclusionRegistry → Dict Node → List GapFile
gaps raw allow with_commit indexed registry [] = []
gaps raw allow with_commit indexed registry ((rel, folder) ∷ nodes) =
    gaps raw allow with_commit indexed registry nodes
gaps raw allow with_commit indexed registry ((rel, file content) ∷ nodes) =
    gap_of indexed registry rel (build_entry raw allow with_commit none rel content)
    ++ gaps raw allow with_commit indexed registry nodes

abbrev is_built : Built → ℕ
is_built (built e) = 1
is_built _ = 0

-- The number of the files of a tree that are evidence.
unfoldable pub evidence_count : Raw → Allowlist → Bool → Dict Node → ℕ
evidence_count raw allow with_commit [] = 0
evidence_count raw allow with_commit ((rel, folder) ∷ nodes) =
    evidence_count raw allow with_commit nodes
evidence_count raw allow with_commit ((rel, file content) ∷ nodes) =
    is_built (build_entry raw allow with_commit none rel content)
    + evidence_count raw allow with_commit nodes

abbrev pub accounted : GapReport → ℕ
accounted r = r.scanned + r.skipped_no_index + r.skipped_media + r.skipped_excluded

record_entry_lem :
    (indexed : List String) (registry : Option ExclusionRegistry) (rel : String) (e : ManifestEntry)
    (r : GapReport)
    → ((record_entry indexed registry rel e r).gap ≡ r.gap ++ gap_of indexed registry rel (built e))
      × (accounted (record_entry indexed registry rel e r) ≡ accounted r + 1)
unfolding record_entry gap_of
record_entry_lem indexed registry rel e r = ground (arith, append_nil r.gap)

module _ (raw : Raw) (allow : Allowlist) (with_commit : Bool)
    (readable : (rel : String)
      → ¬ (resolve_matters (resolve_chain (layer_at raw) rel).fields ≡ none)) where
  -- An entry carries the path and the hash of its file.
  abbrev pub IsBuilt : String → (content : String) → Built → Type 0
  IsBuilt rel content raised = ⊥
  IsBuilt rel content skipped = Unit
  IsBuilt rel content (built e) = (e.raw_path ≡ as_posix rel) × (e.sha256 ≡ raw.digest content)

  pub build_entry-IsBuilt :
      (rel content : String)
      → IsBuilt rel content (build_entry raw allow with_commit none rel content)
  unfolding build_entry build_known finish_entry make_entry
  build_entry-IsBuilt rel content = elim (Option-cases (evidence_tree allow rel)) [
    | inl e ↦ rw e tt
    | inr (tree, e) ↦
        elim (Option-cases (resolve_matters (resolve_chain (layer_at raw) rel).fields)) [
          | inl bad ↦ absurd (readable rel bad)
          | inr (ms, good) ↦ rw (e, good) (refl, refl)
        ]
  ]

  scan_built_lem :
      (indexed : List String) (registry : Option ExclusionRegistry) (rel content : String)
      (b : Built) (r : GapReport)
      → IsBuilt rel content b
      → (r' : GapReport) × (scan_built indexed registry rel b r ≡ some r')
        × (r'.gap ≡ r.gap ++ gap_of indexed registry rel b)
        × (accounted r' ≡ accounted r + is_built b)
  unfolding scan_built gap_of
  scan_built_lem indexed registry rel content raised r h = absurd h
  scan_built_lem indexed registry rel content skipped r h =
      (r, refl, sym (append_nil r.gap), omega arith)
  scan_built_lem indexed registry rel content (built e) r h =
      let (g, a) = record_entry_lem indexed registry rel e r in
      (record_entry indexed registry rel e r, refl, g, a)

  scan-gaps :
      (indexed : List String) (registry : Option ExclusionRegistry) (nodes : Dict Node)
      (r : GapReport)
      → (r' : GapReport) × (scan raw allow with_commit indexed registry nodes r ≡ some r')
        × (r'.gap ≡ r.gap ++ gaps raw allow with_commit indexed registry nodes)
        × (accounted r' ≡ accounted r + evidence_count raw allow with_commit nodes)
  unfolding scan gaps evidence_count
  scan-gaps indexed registry [] r = (r, refl, sym (append_nil r.gap), omega arith)
  scan-gaps indexed registry ((rel, folder) ∷ nodes) r = scan-gaps indexed registry nodes r
  scan-gaps indexed registry ((rel, file content) ∷ nodes) r =
      let b = build_entry raw allow with_commit none rel content in
      let (r1, p1, g1, a1) =
        scan_built_lem indexed registry rel content b r (build_entry-IsBuilt rel content) in
      let (r', p, g, a) = scan-gaps indexed registry nodes r1 in
      (
        r',
        rw (scan, p1) p,
        g
            ∙ ap (λ x. x ++ gaps raw allow with_commit indexed registry nodes) g1
            ∙ append_assoc r.gap (gap_of indexed registry rel b)
                (gaps raw allow with_commit indexed registry nodes),
        omega (arith, a, a1),
      )

-- With `matters` that can be iterated, the reconciliation ends. Its gap is, in the order of the tree, the
-- ingestable files whose content hash is not in the index, and no file that is evidence is left out of
-- its counts.
pub reconcile_gap-gaps :
    (raw : Raw) (allow : Allowlist) (indexed_shas : List String) (with_commit truncated : Bool)
    (registry : Option ExclusionRegistry)
    → ((rel : String) → ¬ (resolve_matters (resolve_chain (layer_at raw) rel).fields ≡ none))
    → (r : GapReport) × (reconcile_gap raw allow indexed_shas with_commit truncated registry
        ≡ some r)
      × (r.gap ≡ gaps raw allow with_commit (map lower indexed_shas) registry raw.nodes)
      × (accounted r ≡ evidence_count raw allow with_commit raw.nodes)
unfolding reconcile_gap
reconcile_gap-gaps raw allow indexed_shas with_commit truncated registry readable =
    let (r, p, g, a) =
      scan-gaps raw allow with_commit readable (map lower indexed_shas) registry raw.nodes _ in
    (r, p, g, omega (arith, a))

-- A file is in the gap.
abbrev pub is_gap : List GapFile → Bool
is_gap [] = false
is_gap (_ ∷ _) = true
