-- ===== src/Exclusion/Lookup.antt =====
-- What a lookup finds: the two dictionaries of exclusion_registry.py against the list of entries.
use mathlib.Core.List.{foldl, append-nil, append_assoc}
use mathlib.Core.Option.{or_else}
use legal_system.Prelude.{
  String, ◌≡◌, refl, ◌∙◌, ap, Bool, true, false, Option, none, some, List, [], ◌∷◌, ◌++◌, ◌==◌,
  ◌&&◌, ◌||◌, arith, find, find-append_one, is_some, is_some-find, any,
}
use legal_system.Prelude.Text.{truthy, lower, starts_with_refl}
use legal_system.Prelude.Dict.{lookup, lookup-set_default}
use legal_system.Exclusion.{
  ExclusionEntry, ExclusionRegistry, empty, add, add_sha, init, entry_for_sha, entry_for_path,
  excludes, is_prefix_entry, match,
}

-- The entry has a hash that reads as `k` in lower case.
abbrev pub has_sha : String → ExclusionEntry → Bool
has_sha k e = elim e.raw_sha256 [ none ↦ false | some sha ↦ truthy sha && lower sha == k ]

abbrev pub has_path : String → ExclusionEntry → Bool
has_path k e = e.raw_path == k

-- Both dictionaries hold, for each key, the first entry of the list that has it.
pub record IsIndexed (r : ExclusionRegistry) : Type 0 where
  pub paths : (k : String) → lookup k r.by_path ≡ find (has_path k) r.entries
  pub shas : (k : String) → lookup k r.by_sha ≡ find (has_sha k) r.entries

add_sha-find :
    (o : Option String) (e : ExclusionEntry) (r : ExclusionRegistry) (k : String)
    → e.raw_sha256 ≡ o
    → lookup k r.by_sha ≡ find (has_sha k) r.entries
    → lookup k (add_sha o e r.by_sha) ≡ find (has_sha k) (r.entries ++ e ∷ [])
unfolding add_sha
add_sha-find none e r k p h = rw (find-append_one (has_sha k) r.entries e) (ground arith)
add_sha-find (some sha) e r k p h =
    rw (find-append_one (has_sha k) r.entries e)
      (ground (arith, lookup-set_default k (lower sha) e r.by_sha))

add-IsIndexed : (r : ExclusionRegistry) (e : ExclusionEntry) → IsIndexed r → IsIndexed (add r e)
unfolding add
add-IsIndexed r e h = record {
  paths = λ k.
      rw
        (
          find-append_one (has_path k) r.entries e,
          lookup-set_default k e.raw_path e r.by_path,
          h.paths k,
        )
        refl;
  shas = λ k. add_sha-find e.raw_sha256 e r k refl (h.shas k);
}

fold-IsIndexed :
    (es : List ExclusionEntry) (r : ExclusionRegistry) → IsIndexed r → IsIndexed (foldl add r es)
fold-IsIndexed [] r h = h
fold-IsIndexed (e ∷ es) r h = fold-IsIndexed es (add r e) (add-IsIndexed r e h)

-- Whatever the entries, the dictionaries of the registry agree with its list.
pub init-IsIndexed : (es : List ExclusionEntry) → IsIndexed (init es)
unfolding init lookup
init-IsIndexed es = fold-IsIndexed es empty (record { paths = λ k. refl; shas = λ k. refl })

fold-entries :
    (es : List ExclusionEntry) (r : ExclusionRegistry) → (foldl add r es).entries ≡ r.entries ++ es
unfolding add
fold-entries [] r = rw append-nil
fold-entries (e ∷ es) r = fold-entries es (add r e) ∙ append_assoc r.entries (e ∷ []) es

pub entries-init : (es : List ExclusionEntry) → (init es).entries ≡ es
unfolding init
entries-init es = fold-entries es empty

abbrev sha_covers : Option String → ExclusionEntry → Bool
sha_covers none e = false
sha_covers (some sha) e = truthy sha && has_sha (lower sha) e

abbrev path_covers : Option String → ExclusionEntry → Bool
path_covers none e = false
path_covers (some path) e = truthy path && is_prefix_entry path e

-- An entry covers a document if the document's hash is the entry's, in any case of its letters, or if
-- the entry's path is a prefix of the document's.
abbrev pub covers : Option String → Option String → ExclusionEntry → Bool
covers path sha e = sha_covers sha e || path_covers path e

by_path-init :
    (es : List ExclusionEntry) (k : String) → lookup k (init es).by_path ≡ find (has_path k) es
by_path-init es k = (init-IsIndexed es).paths k ∙ ap (find (has_path k)) (entries-init es)

by_sha-init :
    (es : List ExclusionEntry) (k : String) → lookup k (init es).by_sha ≡ find (has_sha k) es
by_sha-init es k = (init-IsIndexed es).shas k ∙ ap (find (has_sha k)) (entries-init es)

any-false : (es : List ExclusionEntry) → any (λ e. false) es ≡ false
any-false [] = refl
any-false (e ∷ es) = any-false es

any-and :
    (b : Bool) (p : ExclusionEntry → Bool) (es : List ExclusionEntry)
    → any (λ e. b && p e) es ≡ (b && any p es)
any-and true p es = refl
any-and false p es = any-false es

any-or :
    (p q : ExclusionEntry → Bool) (es : List ExclusionEntry)
    → any (λ e. p e || q e) es ≡ (any p es || any q es)
any-or p q [] = refl
any-or p q (e ∷ es) = ground (arith, any-or p q es)

has_path-covers :
    (path : String) (e : ExclusionEntry)
    → truthy path ≡ true
    → has_path path e ≡ true
    → is_prefix_entry path e ≡ true
has_path-covers path e t h = ground (arith, starts_with_refl path)

any-has_path :
    (path : String) (es : List ExclusionEntry)
    → truthy path ≡ true
    → (any (has_path path) es || any (is_prefix_entry path) es) ≡ any (is_prefix_entry path) es
any-has_path path [] t = refl
any-has_path path (e ∷ es) t = ground (arith, any-has_path path es t, has_path-covers path e t)

is_some-entry_for_sha :
    (es : List ExclusionEntry) (sha : Option String)
    → is_some (entry_for_sha (init es) sha) ≡ any (sha_covers sha) es
unfolding entry_for_sha
is_some-entry_for_sha es none = rw any-false
is_some-entry_for_sha es (some sha) =
    rw (any-and (truthy sha) (has_sha (lower sha)) es)
      (ground (arith, by_sha-init es (lower sha), is_some-find (has_sha (lower sha)) es))

is_some-entry_for_path :
    (es : List ExclusionEntry) (path : Option String)
    → is_some (entry_for_path (init es) path) ≡ any (path_covers path) es
unfolding entry_for_path
is_some-entry_for_path es none = rw any-false
is_some-entry_for_path es (some path) = rw (any-and (truthy path) (is_prefix_entry path) es) (
    ground (
      arith,
      by_path-init es path,
      is_some-find (has_path path) es,
      is_some-find (is_prefix_entry path) es,
      any-has_path path es,
      ap (find (is_prefix_entry path)) (entries-init es),
    ))

-- A registry that is built from entries excludes a document exactly if one of them covers it.
pub excludes-init :
    (es : List ExclusionEntry) (path sha : Option String)
    → excludes (init es) path sha ≡ any (covers path sha) es
unfolding excludes match
excludes-init es path sha =
    rw (any-or (sha_covers sha) (path_covers path) es)
      (ground (arith, is_some-entry_for_sha es sha, is_some-entry_for_path es path))

any-append :
    (p : ExclusionEntry → Bool) (es more : List ExclusionEntry)
    → any p (es ++ more) ≡ (any p es || any p more)
any-append p [] more = refl
any-append p (e ∷ es) more = ground (arith, any-append p es more)

-- No entry that is added later lifts an exclusion.
pub excludes-append :
    (es more : List ExclusionEntry) (path sha : Option String)
    → excludes (init es) path sha ≡ true
    → excludes (init (es ++ more)) path sha ≡ true
excludes-append es more path sha h =
    rw (excludes-init (es ++ more) path sha, any-append (covers path sha) es more)
      (ground (arith, excludes-init es path sha))

-- Which entry a lookup with both keys, neither of them empty, returns: the first with the hash; else the first with exactly
-- the path; else the first whose path is a prefix of it.
pub match-init :
    (es : List ExclusionEntry) (path sha : String)
    → truthy path ≡ true
    → truthy sha ≡ true
    → match (init es) (some path) (some sha)
      ≡ or_else
          (find (has_sha (lower sha)) es)
          (or_else (find (has_path path) es) (find (is_prefix_entry path) es))
unfolding match entry_for_sha entry_for_path or_else
match-init es path sha p q = ground (
  arith,
  by_sha-init es (lower sha),
  by_path-init es path,
  ap (find (is_prefix_entry path)) (entries-init es),
)
