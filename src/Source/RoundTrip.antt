-- ===== src/Source/RoundTrip.antt =====
-- extracted.py: what comes back of a document from the index.
use legal_system.Prelude.{
  String, Bool, true, false, Option, none, some, List, [], ◌∷◌, ◌==◌, ==_true, Bool-cases, inl, inr,
  if◌then◌else◌, ◌≡◌, refl, sym, ap, ◌∙◌, arith, string_dec,
}
use legal_system.Prelude.Text.{nil, truthy}
use legal_system.Prelude.Dict.{Dict, lookup, IsUnique}
use legal_system.Data.{opt_or}
use legal_system.Sidecar.{Problem}
use legal_system.Document.{
  Origin, received, authored, origin_of, Role, input, output, has_valid_matter, Claim,
  DocumentMetadata, EnrichedDocument,
}
use legal_system.Source.{
  Json, es_fields, present, to_es_document, opt_text, list_of, claim_list, problem_text,
  origin_text, role_text, read_role, read_text, read_texts, read_claims, read_problems, read_origin,
  metadata_from, enriched_from, enriched_from_es_source,
}

-- The value of a field that is not left out.
abbrev written : Option (Option Json) → Option Json
written none = none
written (some o) = o

lookup-absent :
    (k : String) (d : Dict (Option Json)) → lookup k d ≡ none → lookup k (present d) ≡ none
unfolding lookup present
lookup-absent k [] h = refl
lookup-absent k ((j, none) ∷ d) h = ground (arith, h, lookup-absent k d)
lookup-absent k ((j, some v) ∷ d) h = ground (arith, h, lookup-absent k d)

lookup-present :
    (k : String) (d : Dict (Option Json)) → IsUnique d → lookup k (present d) ≡ written (lookup k d)
unfolding lookup present
lookup-present k [] u = refl
lookup-present k ((j, none) ∷ d) u = elim (Bool-cases (j == k)) [
  | inl e ↦ rw e (lookup-absent k d (ap (λ i. lookup i d) (sym (==_true j k e)) ∙ u.0))
  | inr e ↦ rw e (lookup-present k d u.1)
]
lookup-present k ((j, some v) ∷ d) u = ground (arith, lookup-present k d u.1)

es_fields-IsUnique :
    (content_hash : String → String) (doc : EnrichedDocument)
    → IsUnique (es_fields content_hash doc)
unfolding es_fields lookup string_dec
es_fields-IsUnique content_hash doc = (
  refl,
  (
    refl,
    (
      refl,
      (
        refl,
        (
          refl,
          (
            refl,
            (
              refl,
              (
                refl,
                (
                  refl,
                  (
                    refl,
                    (
                      refl,
                      (
                        refl,
                        (
                          refl,
                          (
                            refl,
                            (
                              refl,
                              (
                                refl,
                                (
                                  refl,
                                  (
                                    refl,
                                    (
                                      refl,
                                      (
                                        refl,
                                        (
                                          refl,
                                          (
                                            refl,
                                            (
                                              refl,
                                              (
                                                refl,
                                                (
                                                  refl,
                                                  (
                                                    refl,
                                                    (
                                                      refl,
                                                      (
                                                        refl,
                                                        (refl, (refl, (refl, (refl, (refl, tt))))),
                                                      ),
                                                    ),
                                                  ),
                                                ),
                                              ),
                                            ),
                                          ),
                                        ),
                                      ),
                                    ),
                                  ),
                                ),
                              ),
                            ),
                          ),
                        ),
                      ),
                    ),
                  ),
                ),
              ),
            ),
          ),
        ),
      ),
    ),
  ),
)

read_opt_text : (o : Option String) → read_text (opt_text o) ≡ o
read_opt_text none = refl
read_opt_text (some s) = refl

read_list_of : (ss : List String) → read_texts (list_of ss) ≡ ss
read_list_of [] = refl
read_list_of (s ∷ ss) = refl

read_claim_list : (cs : List Claim) → read_claims (claim_list cs) ≡ cs
read_claim_list [] = refl
read_claim_list (c ∷ cs) = refl

read_problem_text : (ps : List Problem) → read_problems (problem_text ps) ≡ ps
read_problem_text [] = refl
read_problem_text (p ∷ ps) = refl

read_origin_text : (o : Option Origin) → read_origin (origin_text o) ≡ o
unfolding origin_of string_dec
read_origin_text none = refl
read_origin_text (some received) = refl
read_origin_text (some authored) = refl

read_role_text : (o : Option Role) → read_role (role_text o) ≡ o
unfolding string_dec
read_role_text none = refl
read_role_text (some input) = refl
read_role_text (some output) = refl

-- The metadata without what the index does not keep: the speaker of the claims, the restriction, and what
-- is to be skipped.
abbrev pub unrestricted : DocumentMetadata → DocumentMetadata
unrestricted meta = record meta {
  claim_source = none;
  no_index = false;
  no_index_reason = none;
  no_index_category = none;
  skip = false;
  skip_patterns = [];
  files = [];
}

metadata_from-written :
    (content_hash : String → String) (doc : EnrichedDocument)
    → metadata_from (λ k. written (lookup k (es_fields content_hash doc)))
      ≡ unrestricted doc.metadata
unfolding metadata_from es_fields lookup string_dec
metadata_from-written content_hash doc =
    let meta = doc.metadata in
    λ i. record {
      raw_path = read_opt_text meta.raw_path i;
      raw_commit = read_opt_text meta.raw_commit i;
      raw_sha256 = read_opt_text meta.raw_sha256 i;
      matters = read_list_of meta.matters i;
      primary_matter = read_opt_text meta.primary_matter i;
      origin = read_origin_text meta.origin i;
      document_type = read_opt_text meta.document_type i;
      party_role = read_opt_text meta.party_role i;
      author = read_opt_text meta.author i;
      claim_source = none;
      no_index = false;
      no_index_reason = none;
      no_index_category = none;
      notes = read_opt_text meta.notes i;
      method = read_opt_text meta.method i;
      date = read_opt_text meta.date i;
      date_basis = read_opt_text meta.date_basis i;
      date_uncertain = meta.date_uncertain;
      source_channel = read_opt_text meta.source_channel i;
      obtained_note = read_opt_text meta.obtained_note i;
      superseded_by = read_opt_text meta.superseded_by i;
      metadata_error = read_problem_text meta.metadata_error i;
      summary = read_opt_text meta.summary i;
      long_summary = read_opt_text meta.long_summary i;
      keywords = read_list_of meta.keywords i;
      entities = read_list_of meta.entities i;
      claims = read_claim_list meta.claims i;
      ingested_at = read_opt_text meta.ingested_at i;
      parties = read_list_of meta.parties i;
      topic = read_opt_text meta.topic i;
      skip = false;
      skip_patterns = [];
      files = [];
      role = read_role_text meta.role i;
      papra_document_id = read_opt_text meta.papra_document_id i;
      relates_to = read_list_of meta.relates_to i;
      handling = meta.handling;
    }

opt_or-truthy : (default s : String) → truthy s ≡ true → opt_or default (some s) ≡ s
unfolding opt_or
opt_or-truthy default s h = ground (arith, h)

opt_or-nil : (s : String) → opt_or nil (some s) ≡ s
unfolding opt_or
opt_or-nil String.[] = refl
opt_or-nil (String.◌∷◌ c s) = refl

opt_or-twice : (o : Option String) → opt_or (opt_or nil o) o ≡ opt_or nil o
unfolding opt_or
opt_or-twice none = refl
opt_or-twice (some String.[]) = refl
opt_or-twice (some (String.◌∷◌ c s)) = refl

enriched_from-written :
    (content_hash : String → String) (doc : EnrichedDocument) (fallback : String)
    → truthy doc.doc_id ≡ true
    → truthy doc.raw_path ≡ true
    → doc.metadata.raw_path ≡ some doc.raw_path
    → opt_or nil doc.metadata.raw_commit ≡ doc.raw_commit
    → enriched_from (λ k. written (lookup k (es_fields content_hash doc))) fallback
      ≡ record doc { metadata = unrestricted doc.metadata }
unfolding enriched_from metadata_from es_fields lookup string_dec
enriched_from-written content_hash doc fallback has_id has_path path commit =
    let meta = doc.metadata in
    let same_path = read_opt_text meta.raw_path ∙ path in
    let same_commit = read_opt_text meta.raw_commit in
    λ i. record {
      doc_id = opt_or-truthy fallback doc.doc_id has_id i;
      raw_path =
          (ap (λ o. opt_or (opt_or fallback o) o) same_path
              ∙ opt_or-truthy (opt_or fallback (some doc.raw_path)) doc.raw_path has_path)
            i;
      raw_commit =
          (ap (λ o. opt_or (opt_or nil o) o) same_commit ∙ opt_or-twice meta.raw_commit ∙ commit) i;
      markdown = opt_or-nil doc.markdown i;
      metadata = metadata_from-written content_hash doc i;
    }

-- What the schema accepts.
accepted : EnrichedDocument → Option EnrichedDocument
accepted doc = if has_valid_matter doc.metadata then some doc else none

accepted-unrestricted :
    (doc : EnrichedDocument)
    → has_valid_matter doc.metadata ≡ true
    → accepted (record doc { metadata = unrestricted doc.metadata })
      ≡ some (record doc { metadata = unrestricted doc.metadata })
unfolding accepted has_valid_matter
accepted-unrestricted doc valid =
    ap
      (λ (b : Bool). if b then some (record doc { metadata = unrestricted doc.metadata }) else none)
      valid

-- A document that has an identity, whose metadata name its path and its commit, and whose primary matter,
-- if it has one, is among its matters, comes back from the index as it was put there, except that it is
-- no longer restricted, names no speaker for its claims, and has lost what it says of skipped and of
-- single files.
pub enriched_from_es_source-to_es_document :
    (content_hash : String → String) (doc : EnrichedDocument) (doc_id_fallback : String)
    → truthy doc.doc_id ≡ true
    → truthy doc.raw_path ≡ true
    → doc.metadata.raw_path ≡ some doc.raw_path
    → opt_or nil doc.metadata.raw_commit ≡ doc.raw_commit
    → has_valid_matter doc.metadata ≡ true
    → enriched_from_es_source (to_es_document content_hash doc) doc_id_fallback
      ≡ some (record doc { metadata = unrestricted doc.metadata })
unfolding enriched_from_es_source to_es_document accepted
enriched_from_es_source-to_es_document content_hash doc fallback has_id has_path path commit valid =
    let fields = es_fields content_hash doc in
    let unique = es_fields-IsUnique content_hash doc in
    let back =
      ap (λ (get : String → Option Json). enriched_from get fallback)
        (λ i k. lookup-present k fields unique i)
      ∙ enriched_from-written content_hash doc fallback has_id has_path path commit in
    ap accepted back ∙ accepted-unrestricted doc valid
