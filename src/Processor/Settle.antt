-- ===== src/Processor/Settle.antt =====
-- ingest/processor.py: what becomes of a message.
use legal_system.Prelude.{
  ℕ, ◌+◌, String, Bool, true, false, not, Option, none, some, List, [], ◌∷◌, ◌++◌, map, any, all,
  leb, length, count_if, ◌≡◌, refl, sym, ap, subst, ◌<>◌, ◌⊎◌, inl, inr, Bool-cases, arith,
  if◌then◌else◌, IsIn, IsIn-filter, ◌≤◌, ◌<◌,
}
use legal_system.Reingest.{Attempt, returned, exception}
use legal_system.Processor.{
  Processor, Message, deliveries, Call, ack, nak, term, emitted, CommitResult, FileResult, is_ok,
  failed_files, has_failure, dlq_event, dlq_whole, emit_dlq, emit_poison, settle_failure, settle,
  handle_commit, handle_parsed, handle,
}

abbrev pub is_settlement : Call → Bool
is_settlement (emitted _) = false
is_settlement _ = true

-- The messages that were settled, in order.
abbrev pub settled : List Call → List Message
settled [] = []
settled (ack m ∷ cs) = m ∷ settled cs
settled (nak m ∷ cs) = m ∷ settled cs
settled (term m ∷ cs) = m ∷ settled cs
settled (emitted e ∷ cs) = settled cs

-- The messages in front of the first on whose settlement the consumer raises.
abbrev pub before : (raises : Message → Bool) → List Message → List Message
before raises [] = []
before raises (m ∷ ms) = let rest = before raises ms in if raises m then [] else m ∷ rest

abbrev pub is_term : Call → Bool
is_term (term _) = true
is_term _ = false

-- How the commit of a message went: `none` for a message that cannot be read.
abbrev pub Outcome : Type 0
Outcome = Option (Attempt CommitResult)

-- When the first of the calls for a message, `c`, is right, with the events `es` after it. Only a result
-- without a failed file is acknowledged; only a message with deliveries left is sent back; a terminated
-- one could not be read or has no delivery left, and each failed file of its result has its event.
abbrev pub IsJustified :
    (max_deliver : ℕ) → (run_id : String) → Message → Outcome → Call → List Call → Type 0
IsJustified max_deliver run_id m o (ack m') es =
    (m' ≡ m)
    × (es ≡ [])
    × (r : CommitResult) × (o ≡ some (returned r))
    × (all is_ok r.results ≡ true)
IsJustified max_deliver run_id m o (nak m') es = (m' ≡ m) × (es ≡ []) × (deliveries m < max_deliver)
IsJustified max_deliver run_id m o (term m') es =
    (m' ≡ m)
    × ((o ≡ none) ⊎ (max_deliver ≤ deliveries m))
    × (1 ≤ length es)
    × ((r : CommitResult)
        → o ≡ some (returned r)
        → (f : FileResult) → IsIn f r.results
        → is_ok f ≡ false
        → IsIn (dlq_event run_id (deliveries m) f) es)
IsJustified max_deliver run_id m o (emitted e) es = ⊥

-- The calls of a message, and the counters after it.
abbrev pub IsSettled :
    {W : Type 0}
    → (max_deliver : ℕ) (run_id : String) → Message
    → Outcome
    → Processor W
    → Processor W
    → Type 0
IsSettled max_deliver run_id m o st st' =
    (c : Call) × (es : List Call) × (st'.calls ≡ st.calls ++ c ∷ es)
    × (count_if is_settlement es ≡ 0)
    × (st'.dead_lettered + count_if is_term st.calls
        ≡ st.dead_lettered + count_if is_term st'.calls)
    × IsJustified max_deliver run_id m o c es

count_if-append :
    {A : Type 0} (p : A → Bool) (xs ys : List A)
    → count_if p (xs ++ ys) ≡ count_if p xs + count_if p ys
count_if-append p [] ys = omega arith
count_if-append p (x ∷ xs) ys = ground (arith, count_if-append p xs ys)

IsIn-map : {A B : Type 0} (f : A → B) (a : A) (xs : List A) → IsIn a xs → IsIn (f a) (map f xs)
IsIn-map f a [] i = absurd i
IsIn-map f a (x ∷ xs) (inl e) = inl (ap f e)
IsIn-map f a (x ∷ xs) (inr i) = inr (IsIn-map f a xs i)

emit_dlq-settles :
    (run_id sha : String) (failed : List FileResult) (exc : Option String) (n : ℕ)
    → (count_if is_settlement (emit_dlq run_id sha failed exc n) ≡ 0)
      × (count_if is_term (emit_dlq run_id sha failed exc n) ≡ 0)
      × (1 ≤ length (emit_dlq run_id sha failed exc n))
unfolding emit_dlq dlq_whole dlq_event
emit_dlq-settles run_id sha [] exc n = ground arith
emit_dlq-settles run_id sha (f ∷ []) exc n = ground arith
emit_dlq-settles run_id sha (f ∷ g ∷ fs) exc n =
    ground (arith, emit_dlq-settles run_id sha (g ∷ fs) exc n)

emit_dlq-IsIn :
    (run_id sha : String) (failed : List FileResult) (exc : Option String) (n : ℕ) (f : FileResult)
    → IsIn f failed
    → IsIn (dlq_event run_id n f) (emit_dlq run_id sha failed exc n)
unfolding emit_dlq
emit_dlq-IsIn run_id sha [] exc n f i = absurd i
emit_dlq-IsIn run_id sha (g ∷ gs) exc n f i = IsIn-map (dlq_event run_id n) f (g ∷ gs) i

all-not-any : (rs : List FileResult) → any (λ f. not (is_ok f)) rs ≡ false → all is_ok rs ≡ true
all-not-any [] h = refl
all-not-any (r ∷ rs) h = ground (arith, h, all-not-any rs)

abbrev IsException : Outcome → Type 0
IsException (some (exception e)) = Unit
IsException _ = ⊥

abbrev result_or : CommitResult → Outcome → CommitResult
result_or d (some (returned r)) = r
result_or d _ = d

abbrev IsNone : Outcome → Type 0
IsNone none = Unit
IsNone (some _) = ⊥

none-ne-returned : {r : CommitResult} → ¬ (◌≡◌ {A = Outcome} none (some (returned r)))
none-ne-returned p = subst IsNone p tt

returned-inj :
    {r s : CommitResult} → ◌≡◌ {A = Outcome} (some (returned r)) (some (returned s)) → r ≡ s
returned-inj {r} p = ap (result_or r) p

exception-ne-returned :
    {e : String} {r : CommitResult} → ¬ (◌≡◌ {A = Outcome} (some (exception e)) (some (returned r)))
exception-ne-returned p = subst IsException p tt

module _ {W : Type 0} (max_deliver : ℕ) (run_id_prefix : String) (clock : W → String)
    (process_commit : String → String → W → Attempt CommitResult × W) where
  settle_failure-IsSettled :
      (run_id sha : String) (m : Message) (failed : List FileResult) (exc : Option String)
      (o : Outcome) (st : Processor W)
      → ((r : CommitResult)
          → o ≡ some (returned r)
          → (f : FileResult) → IsIn f r.results
          → is_ok f ≡ false
          → IsIn f failed)
      → IsSettled max_deliver run_id m o st
          (settle_failure max_deliver run_id_prefix clock process_commit run_id sha m failed exc st)
  unfolding settle_failure
  settle_failure-IsSettled run_id sha m failed exc o st h =
      elim (Bool-cases (leb max_deliver (deliveries m))) [
        | inl e ↦
            let (a, b, c) = emit_dlq-settles run_id sha failed exc (deliveries m) in
            rw e (
              term m,
              _,
              refl,
              a,
              ground (
                arith,
                b,
                count_if-append is_term st.calls
                    (term m ∷ emit_dlq run_id sha failed exc (deliveries m)),
              ),
              (
                refl,
                inr (ground (arith, e)),
                c,
                λ r p f i n. emit_dlq-IsIn run_id sha failed exc (deliveries m) f (h r p f i n),
              ),
            )
        | inr e ↦ rw e (
          nak m,
          [],
          refl,
          refl,
          ground (arith, count_if-append is_term st.calls (nak m ∷ [])),
          (refl, refl, ground (arith, e)),
        )
      ]

  settle-IsSettled :
      (run_id sha : String) (m : Message) (r : Attempt CommitResult) (st : Processor W)
      → IsSettled max_deliver run_id m
          (some r)
          st
          (settle max_deliver run_id_prefix clock process_commit run_id sha m r st)
  unfolding settle
  settle-IsSettled run_id sha m (exception e) st =
      settle_failure-IsSettled run_id sha m [] (some e) (some (exception e)) st
        (λ r p. absurd (exception-ne-returned p))
  settle-IsSettled run_id sha m (returned r) st = elim (Bool-cases (has_failure r)) [
    | inl e ↦ rw e (
        settle_failure-IsSettled run_id sha m (failed_files r) none (some (returned r)) st
          (λ r' p f i n.
            (IsIn-filter f (λ f. not (is_ok f)) r.results).1
              (subst (λ q. IsIn f q.results) (sym (returned-inj p)) i, ap not n)))
    | inr e ↦ rw e (
      ack m,
      [],
      refl,
      refl,
      ground (arith, count_if-append is_term st.calls (ack m ∷ [])),
      (refl, refl, r, refl, all-not-any r.results e),
    )
  ]

  -- How the commit of a message goes in this state.
  abbrev pub outcome : Message → Processor W → Outcome
  outcome m st = elim m.commit_sha [
    | none ↦ none
    | some sha ↦ some (process_commit sha (run_id_prefix <> "-" <> clock st.world) st.world).0
  ]

  handle_parsed-IsSettled :
      (run_id : String) (sha : Option String) (m : Message) (st : Processor W)
      → IsSettled max_deliver run_id m
          (elim sha [ none ↦ none | some s ↦ some (process_commit s run_id st.world).0 ])
          st
          (handle_parsed max_deliver run_id_prefix clock process_commit run_id sha m st)
  unfolding handle_parsed handle_commit emit_poison
  handle_parsed-IsSettled run_id none m st = (
    term m,
    _,
    refl,
    refl,
    ground (arith, count_if-append is_term st.calls (term m ∷ emit_poison run_id ∷ [])),
    (refl, inl refl, ground arith, λ r p. absurd (none-ne-returned p)),
  )
  handle_parsed-IsSettled run_id (some sha) m st =
      settle-IsSettled run_id sha m (process_commit sha run_id st.world).0 _

  -- Handling a message tells the broker exactly one thing about it, first and justified by how its commit
  -- went: it is acknowledged only if every file reached a terminal status, sent back only while
  -- deliveries are left, and terminated only if it cannot be read or has none left, and then each failed
  -- file has its event. `dead_lettered` grows with the terminations.
  pub handle-IsSettled :
      (m : Message) (st : Processor W)
      → IsSettled max_deliver
          (run_id_prefix <> "-" <> clock st.world)
          m
          (outcome m st)
          st
          (handle max_deliver run_id_prefix clock process_commit m st)
  unfolding handle
  handle-IsSettled m st =
      handle_parsed-IsSettled (run_id_prefix <> "-" <> clock st.world) m.commit_sha m st

  -- What the loop has told the broker, and the counter, when it ends.
  abbrev IsHandled :
      (raises : Message → Bool) → List Message → Processor W → Bool × Processor W → Type 0
  IsHandled raises ms st (ok, st') =
      (ok ≡ not (any raises ms))
      × (settled st'.calls ≡ settled st.calls ++ before raises ms)
      × (st'.dead_lettered + count_if is_term st.calls
          ≡ st.dead_lettered + count_if is_term st'.calls)
