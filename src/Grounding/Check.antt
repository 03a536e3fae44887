-- ===== src/Grounding/Check.antt =====
-- grounding/checker.py: the check of a whole tree.
pub mod Unheld
pub mod Unsourced
use legal_system.Prelude.{
  ℕ, zero, suc, ◌+◌, ◌-◌, ◌<>◌, String, Bool, true, false, not, ◌&&◌, ◌||◌, Option, none, some,
  List, [], ◌∷◌, ◌++◌, map, any, all, contains, filter, length, ltb, leb, eqb, sorted,
  if◌then◌else◌,
}
use legal_system.Prelude.Text.{nil, starts_with, strip}
use legal_system.Prelude.Words.{slice_text, splitlines}
use legal_system.Prelude.FilePath.{as_posix, name}
use legal_system.Prelude.Dict.{Dict, lookup, insert}
use legal_system.Manifest.{Node, file, folder}
use legal_system.Grounding.Authorities.{
  AuthorityRef, Kind, neutral_citation, statute, rule, find_authorities, distinct,
}
use legal_system.Grounding.Primary.{
  PrimaryAuthority, PrimaryIndex, Reader, load_primary_texts, is_text_file, build, get, held,
}
use legal_system.Grounding.Quotes.{Marks, Quote, find_quotes}
use legal_system.Grounding.Classify.{
  Verdict, green, red, amber, FindingKind, quote_kind, citation_without_source, repealed_citation,
  malformed_citation, Layer, served, other, rank, layer_of, Finding, near_authorities, Repr,
  classify_quote_near,
}

-- What Python computes for the checker: matches of its patterns and the texts of values.
pub record Python : Type 0 where
  pub reader : Reader
  pub marks : Marks
  -- The starts of the matches of `_CITATION_OPENER`.
  pub openers : String → List ℕ
  pub repr : Repr
  pub show : ℕ → String

is_neutral : Kind → Bool
is_neutral neutral_citation = true
is_neutral _ = false

-- `abs(m - s) <= 1`
abbrev pub is_beside : ℕ → ℕ → Bool
is_beside m s = leb (m - s) 1 && leb (s - m) 1

first_line : List String → String
first_line [] = nil
first_line (l ∷ ls) = l

unfoldable pub malformed_from : String → (parsed openers : List ℕ) → List (String × ℕ)
unfolding first_line splitlines slice_text
malformed_from text parsed [] = []
malformed_from text parsed (m ∷ ms) =
    let rest = malformed_from text parsed ms in
    if any (eqb m) parsed
    then rest
    else if any (is_beside m) parsed
    then rest
    else (first_line (splitlines (slice_text m (m + 40) text)), m) ∷ rest

unfoldable pub malformed_shapes : Python → String → List AuthorityRef → List (String × ℕ)
unfolding is_neutral malformed_from
malformed_shapes py text parsed =
    malformed_from text
      (map (λ (r : AuthorityRef). r.start)
        (filter (λ (r : AuthorityRef). is_neutral r.kind) parsed))
      (py.openers text)

-- One document that is scanned, with what was found in it.
pub record Scan : Type 0 where
  pub path : String
  pub layer : Layer
  pub text : String
  pub refs : List AuthorityRef

unfoldable pub quote_finding :
    Python → PrimaryIndex → Scan → Quote → List AuthorityRef → List Finding
unfolding classify_quote_near strip
quote_finding py index doc quote [] = []
quote_finding py index doc quote (a ∷ near) =
    let (verdict, detail, attributed) = classify_quote_near py.repr index quote a near in
    record {
      kind = quote_kind;
      layer = doc.layer;
      path = doc.path;
      authority_key = attributed.key;
      verdict = some verdict;
      quote = some (strip quote.raw);
      detail = detail;
      blast_radius = none;
    }
    ∷ []

unfoldable pub quote_findings : Python → PrimaryIndex → Scan → List Quote → List Finding
unfolding quote_finding near_authorities
quote_findings py index doc [] = []
quote_findings py index doc (q ∷ qs) =
    quote_finding py index doc q (near_authorities q doc.refs) ++ quote_findings py index doc qs

unfoldable pub malformed_findings : Python → Scan → List (String × ℕ) → List Finding
malformed_findings py doc [] = []
malformed_findings py doc ((shape, pos) ∷ shapes) =
    record {
      kind = malformed_citation;
      layer = doc.layer;
      path = doc.path;
      authority_key = nil;
      verdict = none;
      quote = none;
      detail = "citation-shaped but unparseable: " <> py.repr shape;
      blast_radius = none;
    }
    ∷ malformed_findings py doc shapes

path_of_first : List PrimaryAuthority → String
path_of_first [] = nil
path_of_first (p ∷ ps) = name p.path

-- `prims and all(p.repealed for p in prims)`
all_repealed : List PrimaryAuthority → Bool
all_repealed [] = false
all_repealed (p ∷ ps) = all (λ (q : PrimaryAuthority). q.repealed) (p ∷ ps)

-- The loop over the references; `seen` holds the keys that have been reported.
unfoldable pub repealed_findings :
    Python → PrimaryIndex → Scan → (seen : List String) → List AuthorityRef → List Finding
unfolding all_repealed get path_of_first
repealed_findings py index doc seen [] = []
repealed_findings py index doc seen (r ∷ refs) =
    let prims = get index r.key in
    let past = repealed_findings py index doc seen refs in
    let on = repealed_findings py index doc (r.key ∷ seen) refs in
    if all_repealed prims && not (contains seen r.key)
    then record {
      kind = repealed_citation;
      layer = doc.layer;
      path = doc.path;
      authority_key = r.key;
      verdict = some red;
      quote = none;
      detail =
          "cites REPEALED authority "
          <> py.repr r.raw
          <> " (held as "
          <> path_of_first prims
          <> ") — do not cite";
      blast_radius = none;
    }
      ∷ on
    else past

pub record UnheldRef : Type 0 where
  pub raw : String
  pub files : List String
  pub top_layer : Layer

-- `entry.files.add(path)`
abbrev pub add_file : String → List String → List String
add_file path fs = if contains fs path then fs else fs ++ path ∷ []

-- The entry that `setdefault` gives.
abbrev pub entry_or_new : String → Option UnheldRef → UnheldRef
entry_or_new raw none = record { raw = raw; files = []; top_layer = other }
entry_or_new raw (some e) = e

-- The entry after the file has been added to it.
unfoldable pub noted : Scan → AuthorityRef → UnheldRef → UnheldRef
noted doc r entry = record {
  raw = entry.raw;
  files = add_file doc.path entry.files;
  top_layer = if ltb (rank entry.top_layer) (rank doc.layer) then doc.layer else entry.top_layer;
}

unfoldable pub note_unheld : Scan → AuthorityRef → Dict UnheldRef → Dict UnheldRef
unfolding insert lookup noted
note_unheld doc r unheld =
    insert r.key (noted doc r (entry_or_new r.raw (lookup r.key unheld))) unheld

unfoldable pub accumulate :
    PrimaryIndex → Scan → List AuthorityRef → Dict UnheldRef → Dict UnheldRef
unfolding held note_unheld
accumulate index doc [] unheld = unheld
accumulate index doc (r ∷ refs) unheld =
    accumulate index doc refs (if held index r.key then unheld else note_unheld doc r unheld)

first_file : List String → String
first_file [] = nil
first_file (f ∷ fs) = f

unfoldable pub unheld_findings : Python → Dict UnheldRef → List Finding
unfolding first_file
unheld_findings py [] = []
unheld_findings py ((key, entry) ∷ unheld) =
    record {
      kind = citation_without_source;
      layer = entry.top_layer;
      path = first_file (sorted entry.files);
      authority_key = key;
      verdict = none;
      quote = none;
      detail =
          "no primary text held for "
          <> py.repr entry.raw
          <> "; cited in "
          <> py.show (length entry.files)
          <> " file(s)";
      blast_radius = some (length entry.files);
    }
    ∷ unheld_findings py unheld

pub record GroundingReport : Type 0 where
  pub findings : List Finding
  pub files_scanned : ℕ
  pub primary_texts : ℕ

-- `report` before the last loop, and the accumulated references.
pub record Progress : Type 0 where
  pub found : List Finding
  pub scanned : ℕ
  pub unheld : Dict UnheldRef

unfoldable pub scan_of : Python → String → String → Scan
unfolding layer_of find_authorities
scan_of py path text = record {
  path = as_posix path;
  layer = layer_of path;
  text = text;
  refs = find_authorities py.reader.recogniser text;
}

-- What is found in one document alone.
unfoldable pub document_findings : Python → PrimaryIndex → Scan → List Finding
unfolding quote_findings find_quotes malformed_findings malformed_shapes repealed_findings
document_findings py index doc =
    quote_findings py index doc (find_quotes py.marks doc.text)
    ++ malformed_findings py doc (malformed_shapes py doc.text doc.refs)
    ++ repealed_findings py index doc [] doc.refs

unfoldable pub check_file : Python → PrimaryIndex → Scan → Progress → Progress
unfolding document_findings accumulate
check_file py index doc p = record {
  found = p.found ++ document_findings py index doc;
  scanned = p.scanned + 1;
  unheld = accumulate index doc doc.refs p.unheld;
}

abbrev layer_dirs : List String
layer_dirs =
    "evidence/evidence_of_service/sent" ∷ "evidence/evidence_of_service/sent_bundles" ∷ "reports"
    ∷ "analysis" ∷ []

-- The text files under a folder, in the order of the tree.
unfoldable pub files_under : (sub : String) → Dict Node → List (String × String)
unfolding starts_with
files_under sub [] = []
files_under sub ((path, folder) ∷ nodes) = files_under sub nodes
files_under sub ((path, file content) ∷ nodes) =
    let rest = files_under sub nodes in
    if starts_with path (sub <> "/") && is_text_file path then (path, content) ∷ rest else rest

files_of_dirs : List String → Dict Node → List (String × String)
unfolding files_under
files_of_dirs [] nodes = []
files_of_dirs (sub ∷ subs) nodes = files_under sub nodes ++ files_of_dirs subs nodes

unfoldable pub iter_citing_files : Dict Node → List (String × String)
unfolding files_of_dirs
iter_citing_files = files_of_dirs layer_dirs

unfoldable pub check_files : Python → PrimaryIndex → List (String × String) → Progress → Progress
unfolding check_file scan_of
check_files py index [] p = p
check_files py index ((path, text) ∷ files) p =
    check_files py index files (check_file py index (scan_of py path text) p)

paths_of : PrimaryIndex → List String
paths_of [] = []
paths_of ((key, prims) ∷ index) = map (λ (p : PrimaryAuthority). p.path) prims ++ paths_of index

unfoldable pub report_of : Python → PrimaryIndex → Progress → GroundingReport
unfolding paths_of unheld_findings
report_of py index p = record {
  findings = p.found ++ unheld_findings py p.unheld;
  files_scanned = p.scanned;
  primary_texts = length (distinct (paths_of index));
}

-- The held texts: the files under `authorities_primary_text`.
abbrev pub primary_nodes : Dict Node → Dict Node
primary_nodes = filter (λ (n : String × Node). starts_with n.0 "authorities_primary_text/")

unfoldable pub check_root : Python → Dict Node → GroundingReport
unfolding check_files iter_citing_files report_of load_primary_texts build
check_root py nodes =
    let index = build (load_primary_texts py.reader (primary_nodes nodes)) in
    report_of py index (
      check_files py index (iter_citing_files nodes)
        (record { found = []; scanned = 0; unheld = [] }))
