-- ===== src/Writer/Contained.antt =====
-- sinks/extracted_writer.py: whoever calls it, the writer stays under its root.
use legal_system.Prelude.{
  String, Bool, true, false, Option, none, some, [], ◌∷◌, ◌++◌, ==_true, ◌≡◌, refl, sym, ap, subst,
  arith, if◌then◌else◌,
}
use legal_system.Document.{EnrichedDocument}
use legal_system.Reingest.Restricted.{IsGuarded}
use legal_system.Writer.{
  Parts, ExtractedRepoWriter, relative_name, is_within, target_path, write_to, write_unless, write,
  as_sink, finished,
}

-- The candidate is the root, followed by further parts.
abbrev pub IsUnder : (root candidate : Parts) → Type 0
IsUnder root candidate = (rest : Parts) × (candidate ≡ root ++ rest)

IsUnder-is_within :
    (root candidate : Parts) → is_within root candidate ≡ true → IsUnder root candidate
unfolding is_within
IsUnder-is_within [] candidate h = (candidate, refl)
IsUnder-is_within (r ∷ root) [] h = ground arith
IsUnder-is_within (r ∷ root) (c ∷ candidate) h =
    let (rest, e) = IsUnder-is_within root candidate (ground arith) in
    let same = ==_true r c (ground arith) in (rest, cc (same, e))

abbrev or_else : Parts → Option Parts → Parts
or_else c none = c
or_else c (some d) = d

accepted-IsUnder :
    (root candidate dest : Parts) (accepted : Bool)
    → is_within root candidate ≡ accepted
    → (if accepted then some candidate else none) ≡ some dest
    → IsUnder root dest
accepted-IsUnder root candidate dest true h e =
    subst (IsUnder root) (ap (or_else candidate) e) (IsUnder-is_within root candidate h)
accepted-IsUnder root candidate dest false h e = ground arith

none-is-not : {A : Type 0} {a : A} → ¬ (none ≡ some a)
none-is-not p = subst (λ o. elim o [ none ↦ Unit | some _ ↦ ⊥ ]) p tt

module _ {W : Type 0} (writer : ExtractedRepoWriter W) (P : W → Type 0)
    (writes : (doc : EnrichedDocument) (dest : Parts) (w : W)
      → doc.metadata.no_index ≡ false
      → IsUnder writer.root dest
      → P w
      → P
          (writer.files.write_text dest
            (writer.files.to_frontmatter_document doc.metadata doc.markdown)
            w).1) where
  finished-world : (dest : Parts) (r : Option String × W) → (finished writer dest r).1 ≡ r.1
  unfolding finished
  finished-world dest (none, w) = refl
  finished-world dest (some e, w) = refl

  write_to-keeps :
      (doc : EnrichedDocument) (o : Option Parts) (w : W)
      → doc.metadata.no_index ≡ false
      → ((dest : Parts) → o ≡ some dest → IsUnder writer.root dest)
      → P w
      → P (write_to writer doc o w).1
  unfolding write_to
  write_to-keeps doc none w free under h = h
  write_to-keeps doc (some dest) w free under h =
      subst P
        (sym (
          finished-world dest (
            writer.files.write_text dest
              (writer.files.to_frontmatter_document doc.metadata doc.markdown) w)))
        (writes doc dest w free (under dest refl) h)

  target_path-IsUnder :
      (doc : EnrichedDocument) (w : W) (dest : Parts)
      → target_path writer doc w ≡ some dest
      → IsUnder writer.root dest
  unfolding target_path
  target_path-IsUnder doc w dest e =
      let candidate = writer.files.resolve writer.root (relative_name doc) w in
      accepted-IsUnder writer.root candidate dest (is_within writer.root candidate) refl e

  write_unless-keeps :
      (doc : EnrichedDocument) (no_index : Bool) (w : W)
      → doc.metadata.no_index ≡ no_index
      → P w
      → P (write_unless writer no_index doc w).1
  unfolding write_unless
  write_unless-keeps doc true w e h = h
  write_unless-keeps doc false w e h =
      write_to-keeps doc (target_path writer doc w) w e (target_path-IsUnder doc w) h

-- Documents that are not restricted are written under the root, and nothing else is written: a world
-- property that such writes keep is kept by the sink for every document that it is given, whoever
-- calls it and whatever path the document carries.
pub as_sink-IsContained :
    {W : Type 0} (writer : ExtractedRepoWriter W) (P : W → Type 0)
    → ((doc : EnrichedDocument) (dest : Parts) (w : W)
        → doc.metadata.no_index ≡ false
        → IsUnder writer.root dest
        → P w
        → P
            (writer.files.write_text dest
              (writer.files.to_frontmatter_document doc.metadata doc.markdown)
              w).1)
    → IsGuarded P (λ doc. Unit) (as_sink writer)
unfolding as_sink write
as_sink-IsContained writer P writes = (
  λ doc u w h. write_unless-keeps writer P writes doc doc.metadata.no_index w refl h,
  λ remove e. absurd (none-is-not e),
)
