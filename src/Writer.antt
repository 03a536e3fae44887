-- ===== src/Writer.antt =====
-- sinks/extracted_writer.py: the sink that writes Markdown files under one root.
pub mod Contained
use legal_system.Prelude.{
  String, ◌<>◌, Bool, true, false, ◌&&◌, Option, none, some, List, [], ◌∷◌, ◌++◌, ◌==◌,
  if◌then◌else◌,
}
use legal_system.Prelude.Text.{nil, truthy}
use legal_system.Data.{opt_or}
use legal_system.Document.{DocumentMetadata, EnrichedDocument, SinkResult}
use legal_system.Reingest.{Sink, Attempt, returned, exception}

-- A path as its parts.
abbrev pub Parts : Type 0
Parts = List String

-- What stands outside: `Path.resolve` and the file system, which reports an `OSError` by its text, and the
-- library that renders a document.
pub record Files (W : Type 0) : Type 0 where
  -- `(root / f"{rel}.md").resolve()`, for the root and `rel`.
  pub resolve : (root : Parts) → (rel : String) → W → Parts
  -- `dest.parent.mkdir(...)` and `dest.write_text(...)`.
  pub write_text : Parts → (content : String) → W → Option String × W
  pub to_frontmatter_document : DocumentMetadata → (markdown : String) → String
  pub show_path : Parts → String

pub record ExtractedRepoWriter (W : Type 0) : Type 0 where
  -- The resolved `extracted_root`.
  pub root : Parts
  pub files : Files W

-- `document.metadata.raw_path or document.raw_path or document.doc_id`
unfoldable pub relative_name : EnrichedDocument → String
relative_name doc =
    let second = if truthy doc.raw_path then doc.raw_path else doc.doc_id in
    opt_or second doc.metadata.raw_path

-- `candidate.relative_to(root)` does not raise.
unfoldable pub is_within : (root candidate : Parts) → Bool
is_within [] candidate = true
is_within (r ∷ root) [] = false
is_within (r ∷ root) (c ∷ candidate) = r == c && is_within root candidate

module _ {W : Type 0} (writer : ExtractedRepoWriter W) where
  -- `none` is the `ValueError`.
  unfoldable pub target_path : EnrichedDocument → W → Option Parts
  unfolding relative_name is_within
  target_path doc w =
      let candidate = writer.files.resolve writer.root (relative_name doc) w in
      if is_within writer.root candidate then some candidate else none

  abbrev failed : String → SinkResult
  failed detail = record { sink = "goldberg-extracted"; ok = false; detail = some detail }

  finished : Parts → Option String × W → SinkResult × W
  finished dest (none, w) = (
    record { sink = "goldberg-extracted"; ok = true; detail = some (writer.files.show_path dest) },
    w,
  )
  finished dest (some os_error, w) = (failed os_error, w)

  unfoldable pub write_to : EnrichedDocument → Option Parts → W → SinkResult × W
  unfolding finished relative_name
  write_to doc none w =
      (failed ("refusing path-traversal write outside extracted_root: " <> relative_name doc), w)
  write_to doc (some dest) w = finished dest (
      writer.files.write_text dest (writer.files.to_frontmatter_document doc.metadata doc.markdown)
        w)

  unfoldable pub write_unless : (no_index : Bool) → EnrichedDocument → W → SinkResult × W
  unfolding write_to target_path
  write_unless true doc w = (
    failed (
        "refusing to write no_index document to extracted store: "
        <> doc.raw_path
        <> " ("
        <> opt_or "(no reason given)" doc.metadata.no_index_reason
        <> ")"),
    w,
  )
  write_unless false doc w = write_to doc (target_path doc w) w

  unfoldable pub write : EnrichedDocument → W → SinkResult × W
  unfolding write_unless
  write doc w = write_unless doc.metadata.no_index doc w

  -- The writer as a sink. It has no `remove_by_raw_path`.
  unfoldable pub as_sink : Sink W
  unfolding write
  as_sink = record {
    write = λ doc w. let (result, w') = write doc w in (returned result, w');
    remove_by_raw_path = none;
  }
