-- ===== src/Grounding/Check/Unsourced.antt =====
-- grounding/checker.py: the findings of citations without a source, in the report.
use legal_system.Prelude.{
  ℕ, String, Bool, true, false, not, ◌&&◌, none, some, List, [], ◌∷◌, ◌++◌, any, length, count_if,
  count_if-append, any-IsIn, IsIn-append_cases, any-count_if, IsIn, ◌==◌, ==_true, subst, ◌≡◌, inl,
  inr, refl, sym, ap, ◌∙◌, arith, Bool-cases, if◌then◌else◌,
}
use legal_system.Prelude.Dict.{Dict, lookup, has_key, IsUnique, lookup-IsIn}
use legal_system.Manifest.{Node}
use legal_system.Grounding.Authorities.{AuthorityRef, find_authorities}
use legal_system.Grounding.Primary.{PrimaryIndex, held, build, load_primary_texts}
use legal_system.Grounding.Quotes.{Quote, find_quotes}
use legal_system.Grounding.Classify.{citation_without_source, rank, Finding, near_authorities}
use legal_system.Grounding.Check.{
  Python, Scan, scan_of, UnheldRef, unheld_findings, quote_finding, quote_findings,
  malformed_findings, malformed_shapes, repealed_findings, document_findings, check_file,
  check_files, iter_citing_files, Progress, report_of, check_root, primary_nodes,
}
use legal_system.Grounding.Check.Unheld.{
  cites, files_of, top_of, citing, top_rank, check_files-unheld, check_files-has_key,
  check_files-IsUnique,
}

-- A finding of a citation without a source.
abbrev pub is_unsourced : Finding → Bool
is_unsourced f = elim f.kind [ citation_without_source ↦ true | _ ↦ false ]

quote_finding-unsourced :
    (py : Python) (index : PrimaryIndex) (doc : Scan) (q : Quote) (near : List AuthorityRef)
    → count_if is_unsourced (quote_finding py index doc q near) ≡ 0
unfolding quote_finding
quote_finding-unsourced py index doc q [] = refl
quote_finding-unsourced py index doc q (a ∷ near) = refl

quote_findings-unsourced :
    (py : Python) (index : PrimaryIndex) (doc : Scan) (qs : List Quote)
    → count_if is_unsourced (quote_findings py index doc qs) ≡ 0
unfolding quote_findings
quote_findings-unsourced py index doc [] = refl
quote_findings-unsourced py index doc (q ∷ qs) = ground (
  arith,
  count_if-append is_unsourced (quote_finding py index doc q (near_authorities q doc.refs))
      (quote_findings py index doc qs),
  quote_findings-unsourced py index doc qs,
  quote_finding-unsourced py index doc q (near_authorities q doc.refs),
)

malformed_findings-unsourced :
    (py : Python) (doc : Scan) (shapes : List (String × ℕ))
    → count_if is_unsourced (malformed_findings py doc shapes) ≡ 0
unfolding malformed_findings
malformed_findings-unsourced py doc [] = refl
malformed_findings-unsourced py doc ((shape, pos) ∷ shapes) =
    malformed_findings-unsourced py doc shapes

repealed_findings-unsourced :
    (py : Python) (index : PrimaryIndex) (doc : Scan) (seen : List String)
    (refs : List AuthorityRef)
    → count_if is_unsourced (repealed_findings py index doc seen refs) ≡ 0
unfolding repealed_findings
repealed_findings-unsourced py index doc seen [] = refl
repealed_findings-unsourced py index doc seen (r ∷ refs) = ground (
  arith,
  repealed_findings-unsourced py index doc seen refs,
  repealed_findings-unsourced py index doc (r.key ∷ seen) refs,
)

none_in_three :
    (xs ys zs : List Finding)
    → count_if is_unsourced xs ≡ 0
    → count_if is_unsourced ys ≡ 0
    → count_if is_unsourced zs ≡ 0
    → count_if is_unsourced (xs ++ ys ++ zs) ≡ 0
none_in_three xs ys zs x y z =
    omega (
      arith,
      x,
      y,
      z,
      count_if-append is_unsourced (xs ++ ys) zs,
      count_if-append is_unsourced xs ys,
    )

document_findings-unsourced :
    (py : Python) (index : PrimaryIndex) (doc : Scan)
    → count_if is_unsourced (document_findings py index doc) ≡ 0
unfolding document_findings
document_findings-unsourced py index doc =
    none_in_three (quote_findings py index doc (find_quotes py.marks doc.text))
      (malformed_findings py doc (malformed_shapes py doc.text doc.refs))
      (repealed_findings py index doc [] doc.refs)
      (quote_findings-unsourced py index doc (find_quotes py.marks doc.text))
      (malformed_findings-unsourced py doc (malformed_shapes py doc.text doc.refs))
      (repealed_findings-unsourced py index doc [] doc.refs)

check_files-unsourced :
    (py : Python) (index : PrimaryIndex) (files : List (String × String)) (p : Progress)
    → count_if is_unsourced p.found ≡ 0
    → count_if is_unsourced (check_files py index files p).found ≡ 0
unfolding check_files check_file
check_files-unsourced py index [] p h = h
check_files-unsourced py index ((path, text) ∷ files) p h =
    let doc = scan_of py path text in
    check_files-unsourced py index files (check_file py index doc p) (
      omega (
        arith,
        h,
        count_if-append is_unsourced p.found (document_findings py index doc),
        document_findings-unsourced py index doc,
      ))

-- An unsourced finding on the authority.
abbrev pub is_unsourced_on : String → Finding → Bool
is_unsourced_on key f = is_unsourced f && (f.authority_key == key)

count_if-none :
    (key : String) (fs : List Finding)
    → count_if is_unsourced fs ≡ 0
    → count_if (is_unsourced_on key) fs ≡ 0
count_if-none key [] h = refl
count_if-none key (f ∷ fs) h = ground (arith, h, count_if-none key fs)

count_if-unheld_findings :
    (py : Python) (key : String) (unheld : Dict UnheldRef)
    → IsUnique unheld
    → count_if (is_unsourced_on key) (unheld_findings py unheld)
      ≡ (if has_key key unheld then 1 else 0)
unfolding unheld_findings lookup
count_if-unheld_findings py key [] u = refl
count_if-unheld_findings py key ((k, entry) ∷ unheld) u = elim (Bool-cases (k == key)) [
  | inl e ↦
      let absent : lookup key unheld ≡ none =
        subst (λ j. lookup j unheld ≡ none) (==_true k key e) u.0 in
      ground (arith, e, absent, count_if-unheld_findings py key unheld u.1)
  | inr e ↦ ground (arith, e, count_if-unheld_findings py key unheld u.1)
]

IsIn-unheld_findings :
    (py : Python) (f : Finding) (unheld : Dict UnheldRef)
    → IsIn f (unheld_findings py unheld)
    → (entry : UnheldRef) × IsIn (f.authority_key, entry) unheld
      × (f.blast_radius ≡ some (length entry.files))
      × (f.layer ≡ entry.top_layer)
unfolding unheld_findings
IsIn-unheld_findings py f ((k, entry) ∷ unheld) (inl e) = (
  entry,
  inl (ap (λ (g : Finding). (g.authority_key, entry)) e),
  ap (λ (g : Finding). g.blast_radius) e,
  ap (λ (g : Finding). g.layer) e,
)
IsIn-unheld_findings py f ((k, entry) ∷ unheld) (inr i) =
    let (x, j, b, l) = IsIn-unheld_findings py f unheld i in (x, inr j, b, l)
IsIn-unheld_findings py f [] i = absurd i

-- The index of the texts that are held in a tree.
abbrev pub index_of : Python → Dict Node → PrimaryIndex
index_of py nodes = build (load_primary_texts py.reader (primary_nodes nodes))

-- Some document of the tree cites the authority.
abbrev pub is_cited : Python → Dict Node → String → Bool
is_cited py nodes key =
    any (λ ((path, text) : String × String). cites key (find_authorities py.reader.recogniser text))
      (iter_citing_files nodes)

abbrev final : Python → Dict Node → Progress
final py nodes =
    check_files py (index_of py nodes) (iter_citing_files nodes)
      (record { found = []; scanned = 0; unheld = [] })

check_root-once :
    (py : Python) (nodes : Dict Node) (key : String)
    → count_if (is_unsourced_on key) (check_root py nodes).findings
      ≡ (if is_cited py nodes key && not (held (index_of py nodes) key) then 1 else 0)
unfolding check_root report_of
check_root-once py nodes key =
    let index = index_of py nodes in
    let files = iter_citing_files nodes in
    let start : Progress = record { found = []; scanned = 0; unheld = [] } in
    let end = check_files py index files start in
    ground (
      arith,
      count_if-append (is_unsourced_on key) end.found (unheld_findings py end.unheld),
      count_if-none key end.found (check_files-unsourced py index files start refl),
      count_if-unheld_findings py key end.unheld (check_files-IsUnique py index files start tt),
      check_files-has_key py index key files start,
    )

unsourced_found :
    (f : Finding) (fs : List Finding)
    → count_if is_unsourced fs ≡ 0
    → IsIn f fs
    → is_unsourced f ≡ true
    → ⊥
unsourced_found f fs none_found i h =
    let some_found : any is_unsourced fs ≡ true = any-IsIn is_unsourced f fs i h in
    let empty : any is_unsourced fs ≡ false = (any-count_if is_unsourced fs).1 none_found in
    ground arith

-- The finding is on an authority without a source, and counts the documents that cite it.
abbrev pub IsAccounted : Python → Dict Node → Finding → Type 0
IsAccounted py nodes f =
    (held (index_of py nodes) f.authority_key ≡ false)
    × (f.blast_radius ≡ some (length (citing py f.authority_key (iter_citing_files nodes) [])))
    × (rank f.layer ≡ top_rank py f.authority_key (iter_citing_files nodes) 0)

IsAccounted-entry :
    (py : Python) (nodes : Dict Node) (f : Finding) (entry : UnheldRef)
    → IsIn (f.authority_key, entry) (final py nodes).unheld
    → f.blast_radius ≡ some (length entry.files)
    → f.layer ≡ entry.top_layer
    → IsAccounted py nodes f
unfolding lookup
IsAccounted-entry py nodes f entry i b l =
    let index = index_of py nodes in
    let files = iter_citing_files nodes in
    let start : Progress = record { found = []; scanned = 0; unheld = [] } in
    let at =
      lookup-IsIn f.authority_key entry (final py nodes).unheld
        (check_files-IsUnique py index files start tt) i in
    let absent : held index f.authority_key ≡ false =
      ground (arith, at, check_files-has_key py index f.authority_key files start) in
    let (fs, top) = check_files-unheld py index f.authority_key files start absent in
    (
      absent,
      b ∙ ap (λ x. some (length x)) (sym (ap files_of at) ∙ fs),
      ap rank l ∙ sym (ap top_of at) ∙ top,
    )

check_root-IsAccounted :
    (py : Python) (nodes : Dict Node) (f : Finding)
    → IsIn f (check_root py nodes).findings
    → is_unsourced f ≡ true
    → IsAccounted py nodes f
unfolding check_root report_of
check_root-IsAccounted py nodes f i h =
    let index = index_of py nodes in
    let files = iter_citing_files nodes in
    let start : Progress = record { found = []; scanned = 0; unheld = [] } in
    let end = check_files py index files start in
    elim (IsIn-append_cases f end.found (unheld_findings py end.unheld) i) [
      | inl j ↦
          absurd (unsourced_found f end.found (check_files-unsourced py index files start refl) j h)
      | inr j ↦
          let (entry, k, b, l) = IsIn-unheld_findings py f end.unheld j in
          IsAccounted-entry py nodes f entry k b l
    ]

-- The report has exactly one finding of a citation without a source for each authority that some
-- scanned document cites and no text is held for, and none for any other. Its blast radius is the
-- number of documents that cite the authority, each counted once, and its layer is the most
-- consequential of theirs.
pub check_root-unsourced :
    (py : Python) (nodes : Dict Node)
    → ((key : String)
        → count_if (is_unsourced_on key) (check_root py nodes).findings
          ≡ (if is_cited py nodes key && not (held (index_of py nodes) key) then 1 else 0))
      × ((f : Finding)
          → IsIn f (check_root py nodes).findings
          → is_unsourced f ≡ true
          → IsAccounted py nodes f)
check_root-unsourced py nodes = (check_root-once py nodes, check_root-IsAccounted py nodes)
