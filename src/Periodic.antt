-- ===== src/Periodic.antt =====
-- ingest/catchup.py: `run_periodic_catchup`, the catch-up on a timer.
pub mod Stops
use legal_system.Prelude.{ℕ, zero, suc, ◌+◌, Bool, true, false, Option, none, some}
use legal_system.Catchup.Run.{CatchupReport}

-- What the loop is given: the answers of `should_continue`, the delay, one pass (`none` is its exception),
-- and the call of `on_report`, if there is one (`false` is its exception).
pub record Timer (W : Type 0) : Type 0 where
  pub should_continue : W → Bool × W
  pub wait : W → W
  pub run_pass : W → Option CatchupReport × W
  pub on_report : Option (CatchupReport → W → Bool × W)

-- How the loop ends: it returns the number of its passes, an exception leaves it, or the fuel is used up.
pub data Ended (W : Type 0) : Type 0 where
  stopped : ℕ → W → Ended W
  raised : W → Ended W
  out_of_fuel : Ended W

module _ {W : Type 0} (timer : Timer W) where
  unfoldable pub reported :
      Option (CatchupReport → W → Bool × W) → Option CatchupReport × W → Bool × W
  reported f (none, w) = (false, w)
  reported none (some report, w) = (true, w)
  reported (some f) (some report, w) = f report w

  -- One pass and its report; `false` is an exception.
  unfoldable pub pass_and_report : W → Bool × W
  unfolding reported
  pass_and_report w = reported timer.on_report (timer.run_pass w)

  -- `passes` have been run.
  unfoldable pub run_periodic_catchup : (fuel passes : ℕ) → W → Ended W
  unfolding pass_and_report
  run_periodic_catchup zero passes w = out_of_fuel
  run_periodic_catchup (suc fuel) passes w =
      let (go, w1) = timer.should_continue w in
      let (still, w2) = timer.should_continue (timer.wait w1) in
      let (ok, w3) = pass_and_report w2 in
      elim go [
        | false ↦ stopped passes w1
        | true ↦ elim still [
          | false ↦ stopped passes w2
          | true ↦ elim ok [ false ↦ raised w3 | true ↦ run_periodic_catchup fuel (suc passes) w3 ]
        ]
      ]
