-- ===== src/Tests/Citations.antt =====
-- The grounding checker on a small tree with one held judgment and one report.
use legal_system.Prelude.{
  ◌≤◌, String, true, false, not, ◌&&◌, none, some, [], ◌∷◌, ◌≡◌, refl, ◌⊎◌, ◌↔◌, All, IsIn,
  count_if, string_dec, if◌then◌else◌,
}
use legal_system.Prelude.Dict.{Dict}
use legal_system.Prelude.Words.{text_length, has_text}
use legal_system.Manifest.{Node, file, folder}
use legal_system.Grounding.Authorities.{
  Recogniser, AuthorityRef, neutral_citation, neutral_key, neutral_key_from_filename,
}
use legal_system.Grounding.Authorities.Acts.{find_act_surfaces}
use legal_system.Grounding.Primary.{normalize_quote, PrimaryIndex, build, held}
use legal_system.Grounding.Quotes.{Marks, Span, Quote, find_quotes}
use legal_system.Grounding.Quotes.Longest.{
  IsPassage, IsAscending, is_passage, covers, find_quotes_lem,
}
use legal_system.Grounding.Classify.{
  proximity_chars, quote_distance, near_authorities, classify_quote_near, Finding, layer_of, served,
}
use legal_system.Grounding.Classify.Verdicts.{IsJudged, classify_quote_near-IsJudged}
use legal_system.Grounding.Classify.Near.{IsNearestFirst, near_authorities_lem}
use legal_system.Grounding.Check.{Python, check_root}
use legal_system.Grounding.Check.Unsourced.{
  is_unsourced_on, is_unsourced, is_cited, index_of, IsAccounted, check_root-unsourced,
}

test_neutral_key :
    neutral_key "1999" "EWHC Admin" "242" none ≡ neutral_key "1999" "EWHC" "242" (some "Admin")
unfolding neutral_key string_dec
test_neutral_key = refl

test_filename_key :
    neutral_key_from_filename "2008_crawford_v_cps_EWHC_148_Admin" ≡ some "ncit:2008 ewhc 148 admin"
unfolding neutral_key_from_filename string_dec
test_filename_key = refl

test_whole_token : find_act_surfaces "a proposal" ≡ []
unfolding find_act_surfaces string_dec
test_whole_token = refl

test_normalize : normalize_quote " a . . .  \n b.. " ≡ "a ... b.."
unfolding normalize_quote
test_normalize = refl

-- A line break inside an ellipsis keeps it from being folded.
test_broken_ellipsis : normalize_quote ".\n. ." ≡ ". . ."
unfolding normalize_quote
test_broken_ellipsis = refl

test_layer : layer_of "evidence/evidence_of_service/sent_bundles/a/sent_text.md" ≡ served
unfolding layer_of string_dec
test_layer = refl

-- One citation at the start of a text that has it, and one quoted span behind it.
abbrev recogniser : Recogniser
recogniser = record {
  neutral = λ text.
      if has_text "[2008]" text
      then record {
        text = "[2008] EWHC 148";
        year = "2008";
        court = "EWHC";
        num = "148";
        div = none;
        start = 0;
        stop = 15;
      }
        ∷ []
      else [];
  section = λ text. [];
  crimpr = λ text. [];
}

abbrev marks : Marks
marks = record {
  double_quoted =
      λ text. record { text = "the words of the court as they stand"; start = 20; stop = 56 } ∷ [];
  blockquoted = λ text. [];
  is_navigation = λ text. false;
  year_tags = λ text. 0;
}

abbrev python : Python
python = record {
  reader = record {
    recogniser = recogniser;
    frontmatter = λ raw. none;
    first_heading = λ raw. none;
  };
  marks = marks;
  openers = λ text. [];
  repr = λ s. s;
  show = λ n. "n";
}

abbrev nodes : Dict Node
nodes =
    ("authorities_primary_text/1999_held_EWHC_242.md", file "the words")
    ∷ ("reports", folder)
    ∷ ("reports/a.md", file "[2008] EWHC 148")
    ∷ ("reports/b.md", file "[2008] EWHC 148")
    ∷ []

abbrev quote : Quote
quote = record {
  raw = "the words of the court as they stand";
  normalized = "the words of the court as they stand";
  start = 20;
  stop = 56;
}

abbrev ref : AuthorityRef
ref = record {
  raw = "[2008] EWHC 148";
  key = "ncit:2008 ewhc 148";
  kind = neutral_citation;
  start = 0;
  stop = 15;
}

abbrev index : PrimaryIndex
index = build (
    record {
      path = "held.md";
      subject_keys = "ncit:2008 ewhc 148" ∷ [];
      normalized_text = "the words of the court as they stand.";
      repealed = false;
    }
    ∷ [])

find_quotes_lem_example :
    All (IsPassage marks) (find_quotes marks "text")
    × IsAscending (find_quotes marks "text")
    × ((m : Span)
        → IsIn m (marks.double_quoted "text") ⊎ IsIn m (marks.blockquoted "text")
        → is_passage marks m ≡ true
        → covers m.start (text_length m.text) (find_quotes marks "text") ≡ true)
find_quotes_lem_example = find_quotes_lem marks "text"

classify_quote_near-IsJudged_example :
    IsJudged index quote ref [] (classify_quote_near (λ s. s) index quote ref [])
classify_quote_near-IsJudged_example = classify_quote_near-IsJudged (λ s. s) index quote ref []

near_authorities_lem_example :
    ((a : AuthorityRef)
      → IsIn a (near_authorities quote (ref ∷ []))
        ↔ (IsIn a (ref ∷ []) × (quote_distance quote a ≤ proximity_chars)))
    × IsNearestFirst quote (near_authorities quote (ref ∷ []))
near_authorities_lem_example = near_authorities_lem quote (ref ∷ [])

check_root-unsourced_example :
    ((key : String)
      → count_if (is_unsourced_on key) (check_root python nodes).findings
        ≡ (if is_cited python nodes key && not (held (index_of python nodes) key) then 1 else 0))
    × ((f : Finding)
        → IsIn f (check_root python nodes).findings
        → is_unsourced f ≡ true
        → IsAccounted python nodes f)
check_root-unsourced_example = check_root-unsourced python nodes
