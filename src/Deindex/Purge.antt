-- ===== src/Deindex/Purge.antt =====
-- deindex.py: what a purge may touch, and that it is remembered.
use legal_system.Prelude.{
  String, Bool, true, false, ◌||◌, Option, none, some, List, [], ◌∷◌, ◌++◌, map, any, ◌≡◌, refl,
  sym, ap, subst, inl, inr, arith, IsIn, is_some, append_assoc, append_nil, if◌then◌else◌,
}
use legal_system.Prelude.Text.{truthy, strip, starts_with}
use legal_system.Exclusion.{
  Json, ExclusionEntry, post_init, lower_or_none, append_exclusion, load, source_deindex,
}
use legal_system.Exclusion.Record.{
  IsWritten, is_excluded, append_exclusion-is_excluded, ends_line-append_exclusion,
}
use legal_system.Prelude.Lines.{ends_line}
use legal_system.Data.{opt_truthy}
use legal_system.Deindex.{
  is_refused, clean, validate_prefixes, register, record_purge, Stores, Request, Purged, purge,
  deindex_cleaned, deindex,
}

clean_lem :
    (force : Bool) (cleaned prefixes : List String)
    → clean force cleaned prefixes ≡ (
        if any (λ p. is_refused force (strip p)) prefixes
        then none
        else some (cleaned ++ map strip prefixes))
unfolding clean
clean_lem force cleaned [] = ap some (sym (append_nil cleaned))
clean_lem force cleaned (p ∷ ps) = ground (
  arith,
  clean_lem force (cleaned ++ strip p ∷ []) ps,
  append_assoc cleaned (strip p ∷ []) (map strip ps),
)

abbrev pub purged : (reason ts path : String) → ExclusionEntry
purged reason ts path = post_init (record {
  raw_path = path;
  reason = strip reason;
  timestamp = ts;
  source = source_deindex;
  raw_sha256 = none;
})

register-is_excluded :
    (json : Json) (reason ts : String) (ps : List String) (file : String)
    → ((p : String) → IsIn p ps → (truthy p ≡ true) × IsWritten json (purged reason ts p))
    → ends_line file ≡ true
    → is_some (load json file) ≡ true
    → (is_some (load json (register json reason ts ps file)) ≡ true)
      × ((path : String) (sha : Option String)
          → (any (λ p. starts_with path p) ps || is_excluded json file path sha) ≡ true
          → is_excluded json (register json reason ts ps file) path sha ≡ true)
unfolding register post_init opt_truthy lower_or_none
register-is_excluded json reason ts [] file ok ended loads =
    (loads, λ path sha h. ground (arith, h))
register-is_excluded json reason ts (p ∷ ps) file ok ended loads =
    let e = purged reason ts p in
    let (t, written) = ok p (inl refl) in
    let (loads', keeps) =
      append_exclusion-is_excluded json file e ended written refl refl t loads in
    let (loads'', more) =
      register-is_excluded json reason ts ps (append_exclusion json file e) (λ q i. ok q (inr i))
        (ends_line-append_exclusion json file e) loads' in
    (loads'', λ path sha h. more path sha (ground (arith, h, keeps path sha)))

accepted-truthy :
    (force : Bool) (prefixes : List String)
    → any (λ p. is_refused force (strip p)) prefixes ≡ false
    → (p : String) → IsIn p (map strip prefixes)
    → is_refused force p ≡ false
accepted-truthy force [] h p i = absurd i
accepted-truthy force (q ∷ qs) h p (inl e) =
    subst (λ r. is_refused force r ≡ false) (sym e) (ground (arith, h))
accepted-truthy force (q ∷ qs) h p (inr i) = accepted-truthy force qs (ground (arith, h)) p i

is_refused-truthy : (force : Bool) (p : String) → is_refused force p ≡ false → truthy p ≡ true
unfolding is_refused
is_refused-truthy force p h = ground (arith, h)

-- The prefixes are accepted exactly if there is one and none is refused, and are then used without the
-- blank space around them; an accepted prefix is not empty.
pub validate_prefixes_lem :
    (force : Bool) (p : String) (ps : List String)
    → (validate_prefixes force (p ∷ ps) ≡ (
        if any (λ q. is_refused force (strip q)) (p ∷ ps) then none else some (map strip (p ∷ ps))))
      × (validate_prefixes force [] ≡ none)
      × (any (λ q. is_refused force (strip q)) (p ∷ ps) ≡ false
          → (q : String) → IsIn q (map strip (p ∷ ps))
          → (is_refused force q ≡ false) × (truthy q ≡ true))
unfolding validate_prefixes
validate_prefixes_lem force p ps = (
  clean_lem force [] (p ∷ ps),
  refl,
  λ h q i. let a = accepted-truthy force (p ∷ ps) h q i in (a, is_refused-truthy force q a),
)

-- A real run with a reason ends, for one or more prefixes of which none is refused, and for a registry
-- file that can be loaded and whose last line has ended, with every path under one of the prefixes
-- excluded after a reload, and with all that was excluded before, provided that the line of each record is
-- in braces, reads back and has no line break in it. A dry run changes neither the registry file nor the
-- world.
pub deindex-registers :
    {W : Type 0} (stores : Stores W) (json : Json) (prefixes : List String) (force : Bool)
    (extracted : Option (List String)) (reason ts file : String) (w : W)
    → truthy (strip reason) ≡ true
    → any (λ q. is_refused force (strip q)) prefixes ≡ false
    → ¬ (prefixes ≡ [])
    → ends_line file ≡ true
    → is_some (load json file) ≡ true
    → ((p : String) → IsIn p (map strip prefixes) → IsWritten json (purged reason ts p))
    → let request : Bool → Request = λ dry. record {
      extracted = extracted;
      dry_run = dry;
      reason = some reason;
      registry_file = some file;
    } in
      ((r : Purged W) × (file' : String) × (deindex stores json prefixes force (request false) ts w
          ≡ some r)
        × (r.registry_file ≡ some file')
        × (r.result.registered ≡ map strip prefixes)
        × (is_some (load json file') ≡ true)
        × ((path : String) (sha : Option String)
            → (any (λ p. starts_with path p) (map strip prefixes) || is_excluded json file path sha)
              ≡ true
            → is_excluded json file' path sha ≡ true))
      × ((r : Purged W) × (deindex stores json prefixes force (request true) ts w ≡ some r)
          × (r.registry_file ≡ some file)
          × (r.world ≡ w))
unfolding deindex deindex_cleaned record_purge purge
deindex-registers stores json [] force extracted reason ts file w t h n ended loads written =
    absurd (n refl)
deindex-registers stores json (p ∷ ps) force extracted reason ts file w t h n ended loads written =
    let (valid, _, ok) = validate_prefixes_lem force p ps in
    let (loads', kept) =
      register-is_excluded json reason ts (map strip (p ∷ ps)) file
        (λ q i. ((ok h q i).1, written q i)) ended loads in
    rw (valid, h, t)
      (
        (_, register json reason ts (map strip (p ∷ ps)) file, refl, refl, refl, loads', kept),
        (_, refl, refl, refl),
      )
