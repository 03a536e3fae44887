-- ===== src/Source.antt =====
-- sinks/elasticsearch_indexer.py and extracted.py: the document in the index, and back from it.
pub mod RoundTrip
use legal_system.Prelude.{
  ℕ, String, Bool, true, false, not, Option, none, some, List, [], ◌∷◌, ◌++◌, is_some, ◌==◌,
  if◌then◌else◌,
}
use legal_system.Prelude.Text.{nil, truthy}
use legal_system.Prelude.Dict.{Dict, lookup}
use legal_system.Data.{opt_or}
use legal_system.Sidecar.{Problem}
use legal_system.Document.{
  Origin, received, authored, origin_of, Role, input, output, HandlingFlags, default_handling,
  has_valid_matter,
}
use legal_system.Document.{Claim, DocumentMetadata, EnrichedDocument}

-- A value of the source document. `metadata_error` keeps its problems apart, where the code joins their
-- texts.
pub data Json : Type 0 where
  text : String → Json
  flag : Bool → Json
  texts : List String → Json
  claims_of : List Claim → Json
  problems_of : List Problem → Json
  handling_of : HandlingFlags → Json

abbrev opt_text : Option String → Option Json
opt_text none = none
opt_text (some s) = some (text s)

abbrev list_of : List String → Option Json
list_of [] = none
list_of (s ∷ ss) = some (texts (s ∷ ss))

abbrev claim_list : List Claim → Option Json
claim_list [] = none
claim_list (c ∷ cs) = some (claims_of (c ∷ cs))

abbrev problem_text : List Problem → Option Json
problem_text [] = none
problem_text (p ∷ ps) = some (problems_of (p ∷ ps))

abbrev origin_text : Option Origin → Option Json
origin_text none = none
origin_text (some received) = some (text "received")
origin_text (some authored) = some (text "authored")

abbrev role_text : Option Role → Option Json
role_text none = none
role_text (some input) = some (text "input")
role_text (some output) = some (text "output")

-- The fields that are written; `none` is `None` or an empty list.
unfoldable pub es_fields : (content_hash : String → String) → EnrichedDocument → Dict (Option Json)
es_fields content_hash doc =
    let meta = doc.metadata in
    ("doc_id", some (text doc.doc_id))
    ∷ ("content", some (text doc.markdown))
    ∷ ("content_hash", some (text (content_hash doc.markdown)))
    ∷ ("summary", opt_text meta.summary)
    ∷ ("long_summary", opt_text meta.long_summary)
    ∷ ("keywords", list_of meta.keywords)
    ∷ ("entities", list_of meta.entities)
    ∷ ("topic", opt_text meta.topic)
    ∷ ("document_type", opt_text meta.document_type)
    ∷ ("party_role", opt_text meta.party_role)
    ∷ ("parties", list_of meta.parties)
    ∷ ("author", opt_text meta.author)
    ∷ ("matters", list_of meta.matters)
    ∷ ("primary_matter", opt_text meta.primary_matter)
    ∷ ("origin", origin_text meta.origin)
    ∷ ("role", role_text meta.role)
    ∷ ("date", opt_text meta.date)
    ∷ ("notes", opt_text meta.notes)
    ∷ ("method", opt_text meta.method)
    ∷ ("date_basis", opt_text meta.date_basis)
    ∷ ("date_uncertain", some (flag meta.date_uncertain))
    ∷ ("source_channel", opt_text meta.source_channel)
    ∷ ("obtained_note", opt_text meta.obtained_note)
    ∷ ("superseded_by", opt_text meta.superseded_by)
    ∷ ("metadata_error", problem_text meta.metadata_error)
    ∷ ("ingested_at", opt_text meta.ingested_at)
    ∷ ("raw_path", opt_text meta.raw_path)
    ∷ ("raw_commit", opt_text meta.raw_commit)
    ∷ ("raw_sha256", opt_text meta.raw_sha256)
    ∷ ("papra_document_id", opt_text meta.papra_document_id)
    ∷ ("relates_to", list_of meta.relates_to)
    ∷ ("handling", some (handling_of meta.handling))
    ∷ ("claims", claim_list meta.claims)
    ∷ []

-- `{k: v for k, v in es.items() if v is not None and v != []}`
unfoldable pub present : Dict (Option Json) → Dict Json
present [] = []
present ((k, none) ∷ d) = present d
present ((k, some v) ∷ d) = (k, v) ∷ present d

unfoldable pub to_es_document : (content_hash : String → String) → EnrichedDocument → Dict Json
unfolding es_fields present
to_es_document content_hash doc = present (es_fields content_hash doc)

-- The fields of `DocumentMetadata` as the schema reads them, each with its default.
abbrev read_text : Option Json → Option String
read_text (some (text s)) = some s
read_text _ = none

abbrev read_texts : Option Json → List String
read_texts (some (texts ss)) = ss
read_texts _ = []

abbrev read_flag : Option Json → Bool
read_flag (some (flag b)) = b
read_flag _ = false

abbrev read_claims : Option Json → List Claim
read_claims (some (claims_of cs)) = cs
read_claims _ = []

abbrev read_problems : Option Json → List Problem
read_problems (some (problems_of ps)) = ps
read_problems _ = []

abbrev read_origin : Option Json → Option Origin
read_origin (some (text s)) = origin_of s
read_origin _ = none

abbrev role_of : String → Option Role
role_of s = if s == "input" then some input else if s == "output" then some output else none

abbrev read_role : Option Json → Option Role
read_role (some (text s)) = role_of s
read_role _ = none

abbrev read_handling : Option Json → HandlingFlags
read_handling (some (handling_of flags)) = flags
read_handling _ = default_handling

-- The fields of `DocumentMetadata.model_validate` on the fields that belong to it.
unfoldable pub metadata_from : (get : String → Option Json) → DocumentMetadata
metadata_from get = record {
  raw_path = read_text (get "raw_path");
  raw_commit = read_text (get "raw_commit");
  raw_sha256 = read_text (get "raw_sha256");
  matters = read_texts (get "matters");
  primary_matter = read_text (get "primary_matter");
  origin = read_origin (get "origin");
  document_type = read_text (get "document_type");
  party_role = read_text (get "party_role");
  author = read_text (get "author");
  claim_source = read_text (get "claim_source");
  no_index = read_flag (get "no_index");
  no_index_reason = read_text (get "no_index_reason");
  no_index_category = read_text (get "no_index_category");
  notes = read_text (get "notes");
  method = read_text (get "method");
  date = read_text (get "date");
  date_basis = read_text (get "date_basis");
  date_uncertain = read_flag (get "date_uncertain");
  source_channel = read_text (get "source_channel");
  obtained_note = read_text (get "obtained_note");
  superseded_by = read_text (get "superseded_by");
  metadata_error = read_problems (get "metadata_error");
  summary = read_text (get "summary");
  long_summary = read_text (get "long_summary");
  keywords = read_texts (get "keywords");
  entities = read_texts (get "entities");
  claims = read_claims (get "claims");
  ingested_at = read_text (get "ingested_at");
  parties = read_texts (get "parties");
  topic = read_text (get "topic");
  skip = read_flag (get "skip");
  skip_patterns = read_texts (get "skip_patterns");
  files = [];
  role = read_role (get "role");
  papra_document_id = read_text (get "papra_document_id");
  relates_to = read_texts (get "relates_to");
  handling = read_handling (get "handling");
}

-- The document that `enriched_from_es_source` makes of what `get` reads of the source.
unfoldable pub enriched_from :
    (get : String → Option Json) → (doc_id_fallback : String) → EnrichedDocument
unfolding metadata_from opt_or
enriched_from get doc_id_fallback =
    let meta = metadata_from get in
    record {
      doc_id = opt_or doc_id_fallback (read_text (get "doc_id"));
      raw_path = opt_or (opt_or doc_id_fallback (read_text (get "raw_path"))) meta.raw_path;
      raw_commit = opt_or (opt_or nil meta.raw_commit) (read_text (get "raw_commit"));
      markdown = opt_or nil (read_text (get "content"));
      metadata = meta;
    }

-- `none` is the `ValidationError` of a primary matter that is not among the matters. The index holds no
-- `files`, since nothing writes them to it.
unfoldable pub enriched_from_es_source :
    Dict Json → (doc_id_fallback : String) → Option EnrichedDocument
unfolding enriched_from lookup has_valid_matter
enriched_from_es_source source doc_id_fallback =
    let doc = enriched_from (λ k. lookup k source) doc_id_fallback in
    if has_valid_matter doc.metadata then some doc else none
