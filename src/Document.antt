-- ===== src/Document.antt =====
-- metadata/schema.py, enrichment/assemble.py, sinks/base.py and the assembly of pipeline.py: the document
-- that is written to the sinks.
pub mod Merge
pub mod Base
use legal_system.Prelude.{
  String, ◌<>◌, Bool, true, false, Option, none, some, List, [], ◌∷◌, ◌++◌, ◌==◌, map, contains,
  if◌then◌else◌,
}
use legal_system.Prelude.Text.{truthy, lower, strip, strip_newlines}
use legal_system.Prelude.Dict.{Dict}
use legal_system.Data.{opt_truthy, opt_or}
use legal_system.Sidecar.{Problem}
use legal_system.Manifest.{ManifestEntry, Manifest, entry_for_sha}

pub data Origin : Type 0 where
  received authored : Origin

pub data Role : Type 0 where
  input output : Role

pub data Sensitivity : Type 0 where
  sensitive normal : Sensitivity

pub data DisclosureStatus : Type 0 where
  served unused undisclosed own unknown : DisclosureStatus

pub data SourceChannel : Type 0 where
  official_disclosure own_records third_party unofficial unknown_channel : SourceChannel

pub record HandlingFlags : Type 0 where
  pub cpia_s17 : Bool
  pub privileged : Bool
  pub sensitivity : Sensitivity
  pub disclosure_status : DisclosureStatus
  pub source_channel : SourceChannel
  pub reviewed : Bool

-- The default of every flag is the value that protects most.
abbrev pub default_handling : HandlingFlags
default_handling = record {
  cpia_s17 = true;
  privileged = true;
  sensitivity = sensitive;
  disclosure_status = unknown;
  source_channel = unknown_channel;
  reviewed = false;
}

-- A claim; `confidence` is a float by the text that Python prints for it.
pub record Claim : Type 0 where
  pub subject : String
  pub predicate : String
  pub object : String
  pub asserted_by : Option String
  pub polarity : Bool
  pub epistemic_status : Option String
  pub source_span : Option String
  pub claim_date : Option String
  pub confidence : Option String
  pub derived_from : List String

pub record DocumentMetadata : Type 0 where
  pub raw_path : Option String
  pub raw_commit : Option String
  pub raw_sha256 : Option String
  pub matters : List String
  pub primary_matter : Option String
  pub origin : Option Origin
  pub document_type : Option String
  pub party_role : Option String
  pub author : Option String
  pub claim_source : Option String
  pub no_index : Bool
  pub no_index_reason : Option String
  pub no_index_category : Option String
  pub notes : Option String
  pub method : Option String
  pub date : Option String
  pub date_basis : Option String
  pub date_uncertain : Bool
  pub source_channel : Option String
  pub obtained_note : Option String
  pub superseded_by : Option String
  pub metadata_error : List Problem
  pub summary : Option String
  pub long_summary : Option String
  pub keywords : List String
  pub entities : List String
  pub claims : List Claim
  pub ingested_at : Option String
  pub parties : List String
  pub topic : Option String
  pub skip : Bool
  pub skip_patterns : List String
  pub files : Dict String  -- each by the text that Python prints for its mapping
  pub role : Option Role
  pub papra_document_id : Option String
  pub relates_to : List String
  pub handling : HandlingFlags

-- `_primary_matter_is_a_matter`, without which the schema refuses the metadata.
unfoldable pub has_valid_matter : DocumentMetadata → Bool
has_valid_matter meta = elim meta.primary_matter [ none ↦ true | some m ↦ contains meta.matters m ]

abbrev head : List String → Option String
head [] = none
head (m ∷ ms) = some m

unfoldable pub origin_of : String → Option Origin
origin_of s =
    if s == "received" then some received else if s == "authored" then some authored else none

-- The metadata that `Manifest.base_for_sha` makes of an entry.
unfoldable pub base_of : ManifestEntry → String → DocumentMetadata
base_of e sha = record {
  raw_path = some e.raw_path;
  raw_commit = if truthy e.raw_commit then some e.raw_commit else none;
  raw_sha256 = some (if truthy e.sha256 then e.sha256 else lower sha);
  matters = e.matters;
  primary_matter = head e.matters;
  origin = origin_of e.origin;
  document_type = e.document_type;
  party_role = e.party_role;
  author = e.author;
  claim_source = e.claim_source;
  no_index = e.no_index;
  no_index_reason = e.no_index_reason;
  no_index_category = e.no_index_category;
  notes = e.notes;
  method = e.method;
  date = e.date;
  date_basis = e.date_basis;
  date_uncertain = e.date_uncertain;
  source_channel = e.source_channel;
  obtained_note = e.obtained_note;
  superseded_by = e.superseded_by;
  metadata_error = e.metadata_error;
  summary = none;
  long_summary = none;
  keywords = [];
  entities = [];
  claims = [];
  ingested_at = none;
  parties = [];
  topic = none;
  skip = false;
  skip_patterns = [];
  files = [];
  role = none;
  papra_document_id = none;
  relates_to = [];
  handling = default_handling;
}

-- `Manifest.base_for_sha`
unfoldable pub base_for_sha : Manifest → String → Option DocumentMetadata
base_for_sha m sha = elim (entry_for_sha m (some sha)) [
  | none ↦ none
  | some e ↦ some (base_of e sha)
]

-- `EnrichmentResult`
pub record EnrichmentResult : Type 0 where
  pub summary : String
  pub long_summary : Option String
  pub keywords : List String
  pub entities : List String
  pub author : Option String
  pub document_type : Option String
  pub claims : List Claim

-- `_union`
unfoldable pub union : List String → List String → List String
union out [] = out
union out (s ∷ ss) = union (if contains out s then out else out ++ s ∷ []) ss

-- The override of each claim's speaker by a claim source that is not blank.
unfoldable pub attribute : Option String → List Claim → List Claim
attribute none claims = claims
attribute (some source) claims =
    if truthy (strip source)
    then map (λ (c : Claim). record c { asserted_by = some source }) claims
    else claims

-- `a` if it is there, else `b`.
unfoldable pub first_of_two : Option String → Option String → Option String
first_of_two (some s) b = some s
first_of_two none b = b

-- `merge_enrichment(base, result, ingested_at=…)`
unfoldable pub merge_enrichment : DocumentMetadata → EnrichmentResult → String → DocumentMetadata
merge_enrichment base result ingested_at = record base {
  summary = some result.summary;
  keywords = union base.keywords result.keywords;
  entities = union base.entities result.entities;
  claims = attribute base.claim_source result.claims;
  ingested_at = some (opt_or ingested_at base.ingested_at);
  long_summary = first_of_two result.long_summary base.long_summary;
  author = first_of_two base.author result.author;
  document_type = first_of_two base.document_type result.document_type;
}

pub record EnrichedDocument : Type 0 where
  pub doc_id : String
  pub raw_path : String
  pub raw_commit : String
  pub markdown : String
  pub metadata : DocumentMetadata

pub record SinkResult : Type 0 where
  pub sink : String
  pub ok : Bool
  pub detail : Option String

abbrev pub annotation_open : String
annotation_open = "[ANNOTATION — casework, not part of this document]"

abbrev pub annotation_close : String
annotation_close = "[/ANNOTATION]"

-- `append_annotation(body, notes)` of metadata/sidecar.py.
unfoldable pub append_annotation : String → Option String → String
append_annotation body none = body
append_annotation body (some notes) =
    if truthy (strip notes)
    then strip_newlines body
      <> "\n\n"
      <> annotation_open
      <> "\n"
      <> strip notes
      <> "\n"
      <> annotation_close
    else body

-- `compute_doc_id`, over the hash.
unfoldable pub compute_doc_id : (String → String) → String → String → String
compute_doc_id digest raw_path content = "gb_" <> digest (raw_path <> "\0" <> content)

-- The end of `build_enriched_from_raw`, on what the enricher returned.
unfoldable pub assemble :
    (digest : String → String) (raw_path content : String)
    → DocumentMetadata
    → EnrichmentResult
    → (now : String) → EnrichedDocument
assemble digest raw_path content base result now =
    let enriched = merge_enrichment (record base { raw_path = some raw_path }) result now in
    record {
      doc_id = compute_doc_id digest raw_path content;
      raw_path = raw_path;
      raw_commit = opt_or "" base.raw_commit;
      markdown = append_annotation content enriched.notes;
      metadata = enriched;
    }
