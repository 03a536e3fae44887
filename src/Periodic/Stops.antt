-- ===== src/Periodic/Stops.antt =====
-- ingest/catchup.py: the loop of passes ends when it is told to.
use legal_system.Prelude.{
  ℕ, zero, suc, ◌+◌, ◌<◌, Bool, true, false, Option, none, some, ◌≡◌, ◌⊎◌, inl, inr, ap, subst, sym,
  ◌∙◌, arith,
}
use legal_system.Catchup.Run.{CatchupReport}
use legal_system.Periodic.{
  Timer, Ended, stopped, raised, out_of_fuel, run_periodic_catchup, pass_and_report, reported,
}

module _ {W : Type 0} (timer : Timer W) where
  -- The second answer, after the delay.
  abbrev pub second : W → Bool × W
  second w = timer.should_continue (timer.wait (timer.should_continue w).1)

  -- In `w` the loop is told to go on, waits, and is told so again.
  abbrev pub GoesOn : W → Type 0
  GoesOn w = ((timer.should_continue w).0 ≡ true) × ((second w).0 ≡ true)

  -- The call of `on_report`, if there is one.
  abbrev pub IsTold : Option (CatchupReport → W → Bool × W) → CatchupReport → W → Bool × W → Type 0
  IsTold none report w out = out ≡ (true, w)
  IsTold (some f) report w out = f report w ≡ out

  -- `n` passes lead from `w` to `v`, each after two answers to go on and a delay, and each with its report.
  abbrev pub IsPassed : ℕ → W → W → Type 0
  IsPassed zero w v = w ≡ v
  IsPassed (suc n) w v =
      GoesOn w
      × (report : CatchupReport) × (w3 : W) × (timer.run_pass (second w).1 ≡ (some report, w3))
      × (w4 : W) × IsTold timer.on_report report w3 (true, w4)
      × IsPassed n w4 v

  -- What happens then: an answer to stop, before or after the delay, or an exception, of a pass or of the
  -- call of its report.
  abbrev pub IsEnd : (passes : ℕ) → W → Ended W → Type 0
  IsEnd passes v (stopped n w) =
      (n ≡ passes)
      × (((timer.should_continue v).0 ≡ false) × (w ≡ (timer.should_continue v).1)
          ⊎ ((timer.should_continue v).0 ≡ true) × ((second v).0 ≡ false) × (w ≡ (second v).1))
  IsEnd passes v (raised w) =
      GoesOn v
      × ((timer.run_pass (second v).1 ≡ (none, w))
          ⊎ (report : CatchupReport) × (w3 : W) × (timer.run_pass (second v).1 ≡ (some report, w3))
            × IsTold timer.on_report report w3 (false, w))
  IsEnd passes v out_of_fuel = ⊥

  reported-told :
      (f : Option (CatchupReport → W → Bool × W)) (report : CatchupReport) (w : W) (out : Bool × W)
      → IsTold f report w out
      → reported timer f (some report, w) ≡ out
  unfolding reported
  reported-told none report w out told = sym told
  reported-told (some f) report w out told = told

  pass_and_report-told :
      (w2 w3 : W) (report : CatchupReport) (out : Bool × W)
      → timer.run_pass w2 ≡ (some report, w3)
      → IsTold timer.on_report report w3 out
      → pass_and_report timer w2 ≡ out
  unfolding pass_and_report
  pass_and_report-told w2 w3 report out p told =
      ap (reported timer timer.on_report) p ∙ reported-told timer.on_report report w3 out told

  pass_and_report-raised :
      (w2 w : W) → timer.run_pass w2 ≡ (none, w) → pass_and_report timer w2 ≡ (false, w)
  unfolding pass_and_report reported
  pass_and_report-raised w2 w p = ap (reported timer timer.on_report) p

  run-GoesOn :
      (fuel passes : ℕ) (w w3 : W)
      → GoesOn w
      → pass_and_report timer (second w).1 ≡ (true, w3)
      → run_periodic_catchup timer (suc fuel) passes w
        ≡ run_periodic_catchup timer fuel (suc passes) w3
  unfolding run_periodic_catchup
  run-GoesOn fuel passes w w3 (go, still) ok =
      let fine : (pass_and_report timer (second w).1).0 ≡ true = ap (λ (x : Bool × W). x.0) ok in
      rw (run_periodic_catchup, go, still, fine)
        (ap (λ (x : Bool × W). run_periodic_catchup timer fuel (suc passes) x.1) ok)

  run-raised :
      (fuel passes : ℕ) (w w3 : W)
      → GoesOn w
      → pass_and_report timer (second w).1 ≡ (false, w3)
      → run_periodic_catchup timer (suc fuel) passes w ≡ raised w3
  unfolding run_periodic_catchup
  run-raised fuel passes w w3 (go, still) ok =
      let failed : (pass_and_report timer (second w).1).0 ≡ false = ap (λ (x : Bool × W). x.0) ok in
      rw (run_periodic_catchup, go, still, failed) (ap (λ (x : Bool × W). raised x.1) ok)

  run-IsEnd :
      (fuel passes : ℕ) (w : W) (e : Ended W)
      → IsEnd passes w e
      → run_periodic_catchup timer (suc fuel) passes w ≡ e
  unfolding run_periodic_catchup
  run-IsEnd fuel passes w (stopped n v) (same, inl (stop, at)) =
      rw (run_periodic_catchup, stop) (λ i. stopped (sym same i) (sym at i))
  run-IsEnd fuel passes w (stopped n v) (same, inr (go, stop, at)) =
      rw (run_periodic_catchup, go, stop) (λ i. stopped (sym same i) (sym at i))
  run-IsEnd fuel passes w (raised v) (on, inl p) =
      run-raised fuel passes w v on (pass_and_report-raised (second w).1 v p)
  run-IsEnd fuel passes w (raised v) (on, inr (report, w3, p, told)) =
      run-raised fuel passes w v on (pass_and_report-told (second w).1 w3 report (false, v) p told)
  run-IsEnd fuel passes w out_of_fuel h = absurd h

  -- Where `n` passes lead to a world in which the loop is told to stop, or an exception comes, the loop runs
  -- exactly these passes, in this order and each after two answers to go on, and ends there: with their
  -- number if it was told to stop, and otherwise with the exception. Fuel for `n + 1` rounds is enough.
  pub run_periodic_catchup-IsEnd :
      (fuel n passes : ℕ) (w v : W) (e : Ended W)
      → IsPassed n w v
      → IsEnd (passes + n) v e
      → n < fuel
      → run_periodic_catchup timer fuel passes w ≡ e
  run_periodic_catchup-IsEnd zero n passes w v e p h less = absurd (omega (arith, less))
  run_periodic_catchup-IsEnd (suc fuel) zero passes w v e p h less =
      run-IsEnd fuel passes w e
        (subst (λ x. IsEnd passes x e) (sym p) (subst (λ k. IsEnd k v e) (omega arith) h))
  run_periodic_catchup-IsEnd (suc fuel) (suc n) passes w v e (on, report, w3, p, w4, told, later) h
        less =
      run-GoesOn fuel passes w w4 on (pass_and_report-told (second w).1 w3 report (true, w4) p told)
      ∙ run_periodic_catchup-IsEnd fuel n (suc passes) w4 v e later
          (subst (λ k. IsEnd k v e) (omega arith) h) (omega (arith, less))
