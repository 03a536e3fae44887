-- ===== src/Grounding/Classify/Verdicts.antt =====
-- grounding/checker.py: when a quote is green, red or amber, and for which authority.
use legal_system.Prelude.{
  String, Bool, true, false, not, ◌&&◌, Option, none, some, List, [], ◌∷◌, any, filter, ◌≡◌, ◌⊎◌,
  inl, inr, refl, ◌∙◌, ap, arith, Bool-cases, IsIn, if◌then◌else◌,
}
use legal_system.Grounding.Authorities.{AuthorityRef}
use legal_system.Grounding.Primary.{PrimaryAuthority, PrimaryIndex, contains_quote, get}
use legal_system.Grounding.Quotes.{Quote}
use legal_system.Grounding.Classify.{
  Verdict, green, red, amber, Repr, verdict_on, classify_held, classify_quote, first_green,
  ascribed, classify_quote_near,
}

-- A live text among these has the quote.
abbrev stands_in : Quote → List PrimaryAuthority → Bool
stands_in quote =
    any (λ (p : PrimaryAuthority). not p.repealed && contains_quote p quote.normalized)

-- A live text that is held for the authority has the quote.
abbrev pub is_grounded : PrimaryIndex → Quote → AuthorityRef → Bool
is_grounded index quote a = stands_in quote (get index a.key)

-- The verdict on the texts that are held for the authority a quote is ascribed to.
abbrev pub verdict_for : Quote → List PrimaryAuthority → Verdict
verdict_for quote [] = amber
verdict_for quote (p ∷ prims) = if stands_in quote (p ∷ prims) then green else red

any-filter :
    (quote : Quote) (prims : List PrimaryAuthority)
    → any
        (λ p. contains_quote p quote.normalized)
        (filter (λ (q : PrimaryAuthority). not q.repealed) prims)
      ≡ stands_in quote prims
any-filter quote [] = refl
any-filter quote (p ∷ prims) = ground (arith, any-filter quote prims)

-- The live texts or the repealed ones are not none.
one_of_two :
    (p : PrimaryAuthority) (prims live dead : List PrimaryAuthority)
    → live ≡ filter (λ (q : PrimaryAuthority). not q.repealed) (p ∷ prims)
    → dead ≡ filter (λ (q : PrimaryAuthority). q.repealed) (p ∷ prims)
    → ¬ ((live ≡ []) × (dead ≡ []))
one_of_two p prims live dead l d (e, f) = ground arith

verdict_on_lem :
    (repr : Repr) (quote : Quote) (a : AuthorityRef) (live dead : List PrimaryAuthority)
    → ¬ ((live ≡ []) × (dead ≡ []))
    → (verdict_on repr quote a live dead).0
      ≡ (if any (λ p. contains_quote p quote.normalized) live then green else red)
unfolding verdict_on
verdict_on_lem repr quote a [] [] h = absurd (h (refl, refl))
verdict_on_lem repr quote a [] (p ∷ dead) h = refl
verdict_on_lem repr quote a (p ∷ live) dead h = ground arith

classify_held_lem :
    (repr : Repr) (quote : Quote) (a : AuthorityRef) (prims : List PrimaryAuthority)
    → (classify_held repr quote a prims).0 ≡ verdict_for quote prims
unfolding classify_held
classify_held_lem repr quote a [] = refl
classify_held_lem repr quote a (p ∷ prims) =
    let live = filter (λ (q : PrimaryAuthority). not q.repealed) (p ∷ prims) in
    let dead = filter (λ (q : PrimaryAuthority). q.repealed) (p ∷ prims) in
    verdict_on_lem repr quote a live dead (one_of_two p prims live dead refl refl)
    ∙ ap (λ b. if b then green else red) (any-filter quote (p ∷ prims))

pub classify_quote_lem :
    (repr : Repr) (index : PrimaryIndex) (quote : Quote) (a : AuthorityRef)
    → (classify_quote repr index quote a).0 ≡ verdict_for quote (get index a.key)
unfolding classify_quote
classify_quote_lem repr index quote a = classify_held_lem repr quote a (get index a.key)

verdict_for-green :
    (quote : Quote) (prims : List PrimaryAuthority)
    → ((verdict_for quote prims ≡ green) × (stands_in quote prims ≡ true))
      ⊎ ((stands_in quote prims ≡ false)
          × ((verdict_for quote prims ≡ red) ⊎ (verdict_for quote prims ≡ amber)))
verdict_for-green quote [] = inr (refl, inr refl)
verdict_for-green quote (p ∷ prims) = elim (Bool-cases (stands_in quote (p ∷ prims))) [
  | inl e ↦ rw e (inl (refl, refl))
  | inr e ↦ rw e (inr (refl, inl refl))
]

-- What the search for a green authority gives: the first that is grounded.
abbrev IsFirstGreen :
    PrimaryIndex → Quote → List AuthorityRef → Option (String × AuthorityRef) → Type 0
IsFirstGreen index quote near none = any (is_grounded index quote) near ≡ false
IsFirstGreen index quote near (some (detail, b)) = IsIn b near × (is_grounded index quote b ≡ true)

IsFirstGreen-later :
    (index : PrimaryIndex) (quote : Quote) (a : AuthorityRef) (near : List AuthorityRef)
    (found : Option (String × AuthorityRef))
    → is_grounded index quote a ≡ false
    → IsFirstGreen index quote near found
    → IsFirstGreen index quote (a ∷ near) found
IsFirstGreen-later index quote a near none e h = rw e h
IsFirstGreen-later index quote a near (some (detail, b)) e h = (inr h.0, h.1)

first_green-IsFirstGreen :
    (repr : Repr) (index : PrimaryIndex) (quote : Quote) (near : List AuthorityRef)
    → IsFirstGreen index quote near (first_green repr index quote near)
unfolding first_green
first_green-IsFirstGreen repr index quote [] = refl
first_green-IsFirstGreen repr index quote (a ∷ near) =
    let same = classify_quote_lem repr index quote a in
    let rest = first_green-IsFirstGreen repr index quote near in
    elim (verdict_for-green quote (get index a.key)) [
      | inl (v, s) ↦ rw (first_green, same ∙ v) (inl refl, s)
      | inr (s, inl v) ↦ rw (first_green, same ∙ v) (IsFirstGreen-later index quote a near _ s rest)
      | inr (s, inr v) ↦ rw (first_green, same ∙ v) (IsFirstGreen-later index quote a near _ s rest)
    ]

abbrev Judged : Type 0
Judged = Verdict × String × AuthorityRef

-- The verdict is green if a live text of some near authority has the quote, and then ascribed to one
-- such; else it is that of the nearest, `a`: amber if nothing is held for it, otherwise red.
abbrev pub IsJudged :
    PrimaryIndex → Quote → AuthorityRef → (rest : List AuthorityRef) → Judged → Type 0
IsJudged index quote a rest (verdict, detail, b) =
    IsIn b (a ∷ rest)
    × ((verdict ≡ green) × (is_grounded index quote b ≡ true)
        ⊎ (any (is_grounded index quote) (a ∷ rest) ≡ false)
          × (b ≡ a)
          × (((verdict ≡ amber) × (get index a.key ≡ []))
              ⊎ ((verdict ≡ red) × ¬ (get index a.key ≡ []))))

verdict_for_other :
    (quote : Quote) (prims : List PrimaryAuthority)
    → stands_in quote prims ≡ false
    → ((verdict_for quote prims ≡ amber) × (prims ≡ []))
      ⊎ ((verdict_for quote prims ≡ red) × ¬ (prims ≡ []))
verdict_for_other quote [] h = inl (refl, refl)
verdict_for_other quote (p ∷ prims) h = inr (rw h refl, λ e. ground arith)

ascribed-IsJudged :
    (repr : Repr) (index : PrimaryIndex) (quote : Quote) (a : AuthorityRef)
    (rest : List AuthorityRef) (found : Option (String × AuthorityRef))
    → IsFirstGreen index quote (a ∷ rest) found
    → IsJudged index quote a rest (ascribed found (classify_quote repr index quote a) a)
unfolding ascribed
ascribed-IsJudged repr index quote a rest (some (detail, b)) h = (h.0, inl (refl, h.1))
ascribed-IsJudged repr index quote a rest none h =
    let same = classify_quote_lem repr index quote a in
    let alone : is_grounded index quote a ≡ false = ground arith in
    (
      inl refl,
      inr (
        h,
        refl,
        elim (verdict_for_other quote (get index a.key) alone) [
          | inl (v, none_held) ↦ inl (same ∙ v, none_held)
          | inr (v, some_held) ↦ inr (same ∙ v, some_held)
        ],
      ),
    )

-- The verdict on a quote is green exactly if a live text held for some authority near it has the quote,
-- and it is then ascribed to such an authority. Otherwise the quote is ascribed to the nearest
-- authority, and it is amber if no text is held for that one and red if some text is.
pub classify_quote_near-IsJudged :
    (repr : Repr) (index : PrimaryIndex) (quote : Quote) (a : AuthorityRef)
    (rest : List AuthorityRef)
    → IsJudged index quote a rest (classify_quote_near repr index quote a rest)
unfolding classify_quote_near
classify_quote_near-IsJudged repr index quote a rest =
    ascribed-IsJudged repr index quote a rest (first_green repr index quote (a ∷ rest))
      (first_green-IsFirstGreen repr index quote (a ∷ rest))
