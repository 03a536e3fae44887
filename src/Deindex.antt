-- ===== src/Deindex.antt =====
-- deindex.py: the purge of path prefixes. The client of Elasticsearch and the removal of an extracted
-- file act on a world of type `W`; the extracted files are listed by their paths, in sorted order.
pub mod Purge
use Prim.Native.String.{len}
use legal_system.Prelude.{
  ℕ, ◌+◌, String, Bool, true, false, not, ◌&&◌, ◌||◌, Option, none, some, List, [], ◌∷◌, ◌++◌, ◌==◌,
  any, all, ltb, length, map, filter, if◌then◌else◌,
}
use legal_system.Prelude.Text.{nil, reverse, truthy, strip, starts_with}
use legal_system.Exclusion.{Json, ExclusionEntry, post_init, append_exclusion, source_deindex}

abbrev pub min_prefix_len : ℕ
min_prefix_len = 3

-- The tests that raise a `DeindexError` for one prefix without the blank space around it.
unfoldable pub is_refused : Bool → String → Bool
is_refused force p = not (truthy p) || (p == "/") || (ltb (len p) min_prefix_len && not force)

-- The loop of `_validate_prefixes`; `none` is a `DeindexError`.
unfoldable pub clean : Bool → List String → List String → Option (List String)
clean force cleaned [] = some cleaned
clean force cleaned (raw ∷ prefixes) =
    if is_refused force (strip raw) then none else clean force (cleaned ++ strip raw ∷ []) prefixes

-- `_validate_prefixes`
unfoldable pub validate_prefixes : Bool → List String → Option (List String)
validate_prefixes force [] = none
validate_prefixes force (p ∷ ps) = clean force [] (p ∷ ps)

-- The records of the durable registry, one for each prefix.
unfoldable pub register : Json → (reason ts : String) → List String → (file : String) → String
register json reason ts [] file = file
register json reason ts (p ∷ ps) file = register json reason ts ps (
    append_exclusion json file (
      post_init (record {
        raw_path = p;
        reason = strip reason;
        timestamp = ts;
        source = source_deindex;
        raw_sha256 = none;
      })))

abbrev drop_three : String → String
drop_three (String.◌∷◌ a (String.◌∷◌ b (String.◌∷◌ c s))) = s
drop_three s = nil

-- `rel[:-3]`, of a path that ends in `.md`.
unfoldable pub without_md : String → String
without_md s = reverse (drop_three (reverse s))

-- `_matching_extracted_files`, on the paths below the root, without their suffix.
unfoldable pub matching_extracted : (prefixes : List String) → List String → List String
matching_extracted prefixes mds =
    filter (λ p. any (λ q. starts_with p q) prefixes) (map without_md mds)

pub record DeindexResult : Type 0 where
  pub prefixes : List String
  pub dry_run : Bool
  pub es_matched : ℕ
  pub es_deleted : ℕ
  pub files_matched : ℕ
  pub files_removed : ℕ
  pub removed_paths : List String
  pub registered : List String

-- What `deindex` calls: `client.count` and `client.delete_by_query` for prefixes, and `unlink`.
pub record Stores (W : Type 0) : Type 0 where
  pub count : List String → W → ℕ
  pub delete : List String → W → ℕ × W
  pub unlink : String → W → W

-- The request, but for the prefixes and `force`; `extracted` is the list of the files below the root.
pub record Request : Type 0 where
  pub extracted : Option (List String)
  pub dry_run : Bool
  pub reason : Option String
  pub registry_file : Option String

-- How a run ends: its result, the registry file, the world.
pub record Purged (W : Type 0) : Type 0 where
  pub result : DeindexResult
  pub registry_file : Option String
  pub world : W

abbrev pub no_paths : Option (List String) → List String
no_paths none = []
no_paths (some xs) = xs

-- The registry file after the run, with the prefixes that were recorded.
unfoldable pub record_purge :
    Json
    → Bool
    → Option String
    → (ts : String) → List String
    → Option String
    → List String × Option String
record_purge json true reason ts cleaned file = ([], file)
record_purge json false reason ts cleaned none = ([], none)
record_purge json false none ts cleaned (some file) = ([], some file)
record_purge json false (some reason) ts cleaned (some file) =
    if truthy (strip reason)
    then (cleaned, some (register json reason ts cleaned file))
    else ([], some file)

module _ {W : Type 0} (stores : Stores W) (json : Json) where
  unfoldable pub unlink_all : List String → W → W
  unlink_all [] w = w
  unlink_all (p ∷ ps) w = unlink_all ps (stores.unlink p w)

  -- The deletions of a run that is not dry.
  unfoldable pub purge : Bool → List String → List String → W → ℕ × W
  purge true cleaned paths w = (0, w)
  purge false cleaned paths w = let (n, w') = stores.delete cleaned w in (n, unlink_all paths w')

  unfoldable pub deindex_cleaned :
      Option (List String) → Request → (ts : String) → W → Option (Purged W)
  deindex_cleaned none q ts w = none
  deindex_cleaned (some cleaned) q ts w =
      let paths = matching_extracted cleaned (no_paths q.extracted) in
      let (registered, file) = record_purge json q.dry_run q.reason ts cleaned q.registry_file in
      let (n, w') = purge q.dry_run cleaned paths w in
      some (record {
        result = record {
          prefixes = cleaned;
          dry_run = q.dry_run;
          es_matched = stores.count cleaned w;
          es_deleted = n;
          files_matched = length paths;
          files_removed = if q.dry_run then 0 else length paths;
          removed_paths = paths;
          registered = registered;
        };
        registry_file = file;
        world = w';
      })

  -- `deindex`; `none` is a `DeindexError`. A registry file that is not there is the empty text.
  unfoldable pub deindex :
      (prefixes : List String) → (force : Bool) → Request → (ts : String) → W → Option (Purged W)
  deindex prefixes force q ts w = deindex_cleaned (validate_prefixes force prefixes) q ts w
