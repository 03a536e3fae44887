-- ===== src/Grounding/Check/Unheld.antt =====
-- grounding/checker.py: citations without a source, across the whole tree.
use legal_system.Prelude.{
  ℕ, max, String, Bool, true, false, not, ◌&&◌, ◌||◌, Option, none, some, List, [], ◌∷◌, ◌++◌, any,
  contains, is_some, ◌==◌, ==_true, subst, ◌≡◌, inl, inr, refl, sym, ap, ◌∙◌, arith, Bool-cases,
  if◌then◌else◌,
}
use legal_system.Prelude.FilePath.{as_posix}
use legal_system.Prelude.Dict.{Dict, lookup, has_key, IsUnique, insert-IsUnique, lookup-insert}
use legal_system.Grounding.Authorities.{AuthorityRef, find_authorities}
use legal_system.Grounding.Primary.{PrimaryIndex, held}
use legal_system.Grounding.Classify.{rank, layer_of}
use legal_system.Grounding.Check.{
  Python, Scan, scan_of, UnheldRef, add_file, entry_or_new, noted, note_unheld, accumulate,
  check_file, check_files, Progress,
}

-- A reference of the list has the key.
abbrev pub cites : String → List AuthorityRef → Bool
cites key = any (λ (r : AuthorityRef). r.key == key)

abbrev pub files_of : Option UnheldRef → List String
files_of none = []
files_of (some e) = e.files

abbrev pub top_of : Option UnheldRef → ℕ
top_of none = 0
top_of (some e) = rank e.top_layer

add_file_idem :
    (path : String) (fs : List String) → add_file path (add_file path fs) ≡ add_file path fs
add_file_idem path fs = ground (arith, contains-add path fs)
  where
    contains-add : (path : String) (fs : List String) → contains (fs ++ path ∷ []) path ≡ true
    contains-add path [] = ground arith
    contains-add path (f ∷ fs) = ground (arith, contains-add path fs)

noted_lem :
    (doc : Scan) (r : AuthorityRef) (o : Option UnheldRef)
    → ((noted doc r (entry_or_new r.raw o)).files ≡ add_file doc.path (files_of o))
      × (rank (noted doc r (entry_or_new r.raw o)).top_layer ≡ max (rank doc.layer) (top_of o))
unfolding noted
noted_lem doc r none = (refl, ground arith)
noted_lem doc r (some e) = (refl, ground arith)

-- What is known of a key after a reference: unchanged for another key.
abbrev IsNoted : Scan → Bool → (o n : Option UnheldRef) → Type 0
IsNoted doc same o n =
    (files_of n ≡ (if same then add_file doc.path (files_of o) else files_of o))
    × (is_some n ≡ (is_some o || same))
    × (top_of n ≡ (if same then max (rank doc.layer) (top_of o) else top_of o))

IsNoted-insert :
    (key : String) (doc : Scan) (r : AuthorityRef) (unheld : Dict UnheldRef) (same : Bool)
    → (r.key == key) ≡ same
    → IsNoted doc same (lookup key unheld) (lookup key (note_unheld doc r unheld))
unfolding note_unheld
IsNoted-insert key doc r unheld same e =
    let entry = noted doc r (entry_or_new r.raw (lookup r.key unheld)) in
    subst (IsNoted doc same (lookup key unheld))
      (sym (
        lookup-insert key r.key entry unheld
        ∙ ap (λ (b : Bool). if b then some entry else lookup key unheld) e))
      (IsNoted-some key doc r unheld same e)
  where
    IsNoted-some :
        (key : String) (doc : Scan) (r : AuthorityRef) (unheld : Dict UnheldRef) (same : Bool)
        → (r.key == key) ≡ same
        → IsNoted doc same (lookup key unheld) (
            if same
            then some (noted doc r (entry_or_new r.raw (lookup r.key unheld)))
            else lookup key unheld)
    IsNoted-some key doc r unheld false e = ground arith
    IsNoted-some key doc r unheld true e =
        let (files, top) = noted_lem doc r (lookup r.key unheld) in
        let p = ==_true r.key key e in
        (
          files ∙ ap (λ k. add_file doc.path (files_of (lookup k unheld))) p,
          ground arith,
          top ∙ ap (λ k. max (rank doc.layer) (top_of (lookup k unheld))) p,
        )

IsNoted-twice :
    (doc : Scan) (a b : Bool) (o m n : Option UnheldRef)
    → IsNoted doc a o m
    → IsNoted doc b m n
    → IsNoted doc (a || b) o n
IsNoted-twice doc a b o m n h k = ground (arith, h, k, add_file_idem doc.path (files_of o))

-- One reference, which is left out if something is held for it.
IsNoted-unless :
    (key : String) (doc : Scan) (r : AuthorityRef) (unheld : Dict UnheldRef) (is_held : Bool)
    → IsNoted doc
        (not is_held && (r.key == key))
        (lookup key unheld)
        (lookup key (if is_held then unheld else note_unheld doc r unheld))
IsNoted-unless key doc r unheld true = (refl, ground arith, refl)
IsNoted-unless key doc r unheld false = IsNoted-insert key doc r unheld (r.key == key) refl

same_held :
    (index : PrimaryIndex) (key : String) (r : AuthorityRef)
    → (not (held index r.key) && (r.key == key)) ≡ (not (held index key) && (r.key == key))
same_held index key r = elim (Bool-cases (r.key == key)) [
  | inl e ↦ ap (λ k. not (held index k) && (r.key == key)) (==_true r.key key e)
  | inr e ↦ ground (arith, e)
]

distributes : (a b c : Bool) → ((a && b) || (a && c)) ≡ (a && (b || c))
distributes true b c = refl
distributes false b c = refl

-- The references of a file, for one key.
accumulate-IsNoted :
    (index : PrimaryIndex) (key : String) (doc : Scan) (refs : List AuthorityRef)
    (unheld : Dict UnheldRef)
    → IsNoted doc
        (not (held index key) && cites key refs)
        (lookup key unheld)
        (lookup key (accumulate index doc refs unheld))
unfolding accumulate
accumulate-IsNoted index key doc [] unheld = ground arith
accumulate-IsNoted index key doc (r ∷ refs) unheld =
    let later = if held index r.key then unheld else note_unheld doc r unheld in
    subst (λ b. IsNoted doc b (lookup key unheld) (lookup key (accumulate index doc refs later)))
      (distributes (not (held index key)) (r.key == key) (cites key refs))
      (IsNoted-twice doc (not (held index key) && (r.key == key))
        (not (held index key) && cites key refs) (lookup key unheld) (lookup key later)
        (lookup key (accumulate index doc refs later))
        (subst (λ b. IsNoted doc b (lookup key unheld) (lookup key later)) (same_held index key r)
          (IsNoted-unless key doc r unheld (held index r.key)))
        (accumulate-IsNoted index key doc refs later))

accumulate-IsUnique :
    (index : PrimaryIndex) (doc : Scan) (refs : List AuthorityRef) (unheld : Dict UnheldRef)
    → IsUnique unheld
    → IsUnique (accumulate index doc refs unheld)
unfolding accumulate note_unheld
accumulate-IsUnique index doc [] unheld u = u
accumulate-IsUnique index doc (r ∷ refs) unheld u = elim (Bool-cases (held index r.key)) [
  | inl e ↦ rw (accumulate, e) (accumulate-IsUnique index doc refs unheld u)
  | inr e ↦
      rw (accumulate, e)
        (accumulate-IsUnique index doc refs (note_unheld doc r unheld)
          (insert-IsUnique r.key (noted doc r (entry_or_new r.raw (lookup r.key unheld))) unheld u))
]

-- The documents that cite an authority, each once, after those of `acc`.
unfoldable pub citing : Python → String → List (String × String) → (acc : List String) → List String
unfolding find_authorities
citing py key [] acc = acc
citing py key ((path, text) ∷ files) acc = citing py key files (
    if cites key (find_authorities py.reader.recogniser text)
    then add_file (as_posix path) acc
    else acc)

-- The highest rank of the layers of these documents, from `top` on.
unfoldable pub top_rank : Python → String → List (String × String) → (top : ℕ) → ℕ
unfolding find_authorities
top_rank py key [] top = top
top_rank py key ((path, text) ∷ files) top = top_rank py key files (
    if cites key (find_authorities py.reader.recogniser text)
    then max (rank (layer_of path)) top
    else top)

pub check_files-unheld :
    (py : Python) (index : PrimaryIndex) (key : String) (files : List (String × String))
    (p : Progress)
    → held index key ≡ false
    → let o = lookup key p.unheld in
      let n = lookup key (check_files py index files p).unheld in
      (files_of n ≡ citing py key files (files_of o))
      × (top_of n ≡ top_rank py key files (top_of o))
unfolding check_files check_file scan_of citing top_rank
check_files-unheld py index key [] p h = (refl, refl)
check_files-unheld py index key ((path, text) ∷ files) p h =
    let doc = scan_of py path text in
    let (f, _, t) = unheld_doc doc in
    let (fs, ts) = check_files-unheld py index key files (check_file py index doc p) h in
    (fs ∙ ap (citing py key files) f, ts ∙ ap (top_rank py key files) t)
  where
    unheld_doc :
        (doc : Scan)
        → IsNoted doc
            (cites key doc.refs)
            (lookup key p.unheld)
            (lookup key (check_file py index doc p).unheld)
    unheld_doc doc =
        subst
          (λ b.
            IsNoted doc (not b && cites key doc.refs) (lookup key p.unheld)
              (lookup key (accumulate index doc doc.refs p.unheld)))
          h (accumulate-IsNoted index key doc doc.refs p.unheld)

-- Whether a key has an entry, whatever is held.
pub check_files-has_key :
    (py : Python) (index : PrimaryIndex) (key : String) (files : List (String × String))
    (p : Progress)
    → has_key key (check_files py index files p).unheld ≡ (
        has_key key p.unheld
        || not (held index key)
          && any
              (λ ((path, text) : String × String).
                cites key (find_authorities py.reader.recogniser text))
              files)
unfolding check_files check_file scan_of
check_files-has_key py index key [] p = ground arith
check_files-has_key py index key ((path, text) ∷ files) p =
    let doc = scan_of py path text in
    ground (
      arith,
      check_files-has_key py index key files (check_file py index doc p),
      (accumulate-IsNoted index key doc doc.refs p.unheld).1,
    )

pub check_files-IsUnique :
    (py : Python) (index : PrimaryIndex) (files : List (String × String)) (p : Progress)
    → IsUnique p.unheld
    → IsUnique (check_files py index files p).unheld
unfolding check_files check_file
check_files-IsUnique py index [] p u = u
check_files-IsUnique py index ((path, text) ∷ files) p u =
    let doc = scan_of py path text in
    check_files-IsUnique py index files (check_file py index doc p)
      (accumulate-IsUnique index doc doc.refs p.unheld u)
