-- ===== src/Document/Merge.antt =====
-- The authority of the folder's metadata over the enrichment, in enrichment/assemble.py.
use mathlib.Core.Option.{some-injective}
use legal_system.Prelude.{
  String, Option, none, ap, sym, subst, ◌∙◌, inl, inr, Bool-cases, ◌≡◌, refl, true, ◌||◌, some,
  List, [], ◌∷◌, ◌++◌, map, arith, contains, All, if◌then◌else◌,
}
use legal_system.Prelude.Text.{truthy, strip, lower}
use legal_system.Manifest.{ManifestEntry, Manifest, entry_for_sha}
use legal_system.Document.{
  DocumentMetadata, base_for_sha, Claim, EnrichmentResult, EnrichedDocument, assemble,
  merge_enrichment, attribute, first_of_two, base_of, union,
}

All-attribute :
    (source : String) (claims : List Claim)
    → All
        (λ c. c.asserted_by ≡ some source)
        (map (λ (c : Claim). record c { asserted_by = some source }) claims)
All-attribute source [] = tt
All-attribute source (c ∷ claims) = (refl, All-attribute source claims)

contains-append :
    (out more : List String) (s : String)
    → contains (out ++ more) s ≡ (contains out s || contains more s)
contains-append [] more s = refl
contains-append (x ∷ out) more s = ground (arith, contains-append out more s)

-- The union holds what either list holds.
pub contains-union :
    (out more : List String) (s : String)
    → contains (union out more) s ≡ (contains out s || contains more s)
unfolding union
contains-union out [] s = ground arith
contains-union out (x ∷ more) s = ground (
  arith,
  contains-union (if contains out x then out else out ++ x ∷ []) more s,
  contains-append out (x ∷ []) s,
)

-- What a claim says, whoever says it.
abbrev pub said : Claim → String × String × String
said c = (c.subject, c.predicate, c.object)

map-said :
    (source : String) (claims : List Claim)
    → map said (map (λ (c : Claim). record c { asserted_by = some source }) claims)
      ≡ map said claims
map-said source [] = refl
map-said source (c ∷ claims) = ap (λ cs. said c ∷ cs) (map-said source claims)

-- The override of the speaker changes nothing else of a claim.
said-attribute :
    (source : Option String) (claims : List Claim)
    → map said (attribute source claims) ≡ map said claims
unfolding attribute
said-attribute none claims = refl
said-attribute (some source) claims = elim (Bool-cases (truthy (strip source))) [
  | inl e ↦ rw e (map-said source claims)
  | inr e ↦ rw e refl
]

-- What enrichment may not change in the document of a manifest entry, and what it adds.
pub record IsFaithful (e : ManifestEntry) (path sha : String) (result : EnrichmentResult)
    (d : EnrichedDocument) : Type 0 where
  pub raw_path : d.raw_path ≡ path
  pub source_path : d.metadata.raw_path ≡ some path
  pub restricted : d.metadata.no_index ≡ e.no_index
  pub category : d.metadata.no_index_category ≡ e.no_index_category
  pub matters : d.metadata.matters ≡ e.matters
  pub hash : d.metadata.raw_sha256 ≡ some (if truthy e.sha256 then e.sha256 else lower sha)
  pub speaker :
      (source : String)
      → e.claim_source ≡ some source
      → truthy (strip source) ≡ true
      → All (λ c. c.asserted_by ≡ some source) d.metadata.claims
  pub statements : map said d.metadata.claims ≡ map said result.claims
  pub keywords : (s : String) → contains d.metadata.keywords s ≡ contains result.keywords s
  pub entities : (s : String) → contains d.metadata.entities s ≡ contains result.entities s
  pub author : (a : String) → e.author ≡ some a → d.metadata.author ≡ some a

assembled :
    (digest : String → String) (e : ManifestEntry) (path sha content : String)
    (result : EnrichmentResult) (now : String)
    → IsFaithful e path sha result (assemble digest path content (base_of e sha) result now)
unfolding assemble merge_enrichment base_of attribute first_of_two
assembled digest e path sha content result now = record {
  raw_path = refl;
  source_path = refl;
  restricted = refl;
  category = refl;
  matters = refl;
  hash = refl;
  speaker = λ source h t. rw h (rw t (All-attribute source result.claims));
  statements = said-attribute e.claim_source result.claims;
  keywords = λ s. contains-union [] result.keywords s;
  entities = λ s. contains-union [] result.entities s;
  author = λ a h. rw h refl;
}

-- Whatever the enricher returns, the document of the entry that the manifest has for a hash keeps the path,
-- the matters, the restriction, and the hash, which is that of the entry, or the one asked for in lower
-- case if the entry has none. It keeps the author that the metadata names, and gives every claim the
-- entry's claim source. Keywords, entities and what the claims say are those of the enricher.
pub assemble-IsFaithful :
    (digest : String → String) (m : Manifest) (e : ManifestEntry) (base : DocumentMetadata)
    (path sha content : String) (result : EnrichmentResult) (now : String)
    → entry_for_sha m (some sha) ≡ some e
    → base_for_sha m sha ≡ some base
    → IsFaithful e path sha result (assemble digest path content base result now)
unfolding assemble merge_enrichment base_for_sha base_of
assemble-IsFaithful digest m e base path sha content result now found made =
    subst (λ b. IsFaithful e path sha result (assemble digest path content b result now))
      (some-injective (base_of e sha) base (sym (rw (base_for_sha, found) refl) ∙ made))
      (assembled digest e path sha content result now)
