-- ===== src/Runner/Ends.antt =====
-- The runner's loop ends.
use x402_hosted_facilitator.Common.{
  ℕ, zero, suc, ◌+◌, ◌≤◌, ◌<◌, ◌≡◌, inl, inr, Bool, true, false, some, leb, Bool-cases, arith,
}
use x402_hosted_facilitator.Runner.{
  Surroundings, after_step, with_stop, ReconciliationLoopStats, RunResult, Step, LoopEnd, iteration,
  loop, run, after_run, after_callback, at_head, pause, started, ran, failed, sleep_or_stop,
  count_failure, count_run,
}

abbrev pub attempts : ReconciliationLoopStats → ℕ
attempts stats = stats.runs + stats.failed_runs

-- An iteration that goes on has made one more run, and fewer than `most`; one that leaves the loop
-- has made at most `most`.
abbrev Moves : ℕ → ℕ → Step → Type 0
Moves most before (Step.go_on next) = (attempts next ≡ before + 1) × (attempts next < most)
Moves most before (Step.break_loop last) = attempts last ≤ most
Moves most before (Step.raise_error last) = attempts last ≤ most

-- The loop has ended, with at most `most` runs.
abbrev pub EndsWithin : ℕ → LoopEnd → Type 0
EndsWithin most (LoopEnd.returned stats) = attempts stats ≤ most
EndsWithin most (LoopEnd.raised stats) = attempts stats ≤ most
EndsWithin most LoopEnd.out_of_fuel = ⊥

pause-Moves :
    {W : Type 0} (most before : ℕ) (stats : ReconciliationLoopStats) (goes_on : Bool) (w : W)
    → attempts stats ≡ before + 1
    → attempts stats < most
    → Moves most before (pause stats (goes_on, w)).0
pause-Moves most before stats true w h g = (h, g)
pause-Moves most before stats false w h g = omega (arith, g)

module _ {W : Type 0} (s : Surroundings W) (interval error_interval most : ℕ) where
  after_callback-Moves :
      (before : ℕ) (stats : ReconciliationLoopStats) (raises : Bool) (w : W)
      → attempts stats ≡ before + 1
      → before < most
      → Moves most before (after_callback s interval error_interval (some most) stats (raises, w)).0
  after_callback-Moves before stats true w h g = omega (arith, h, g)
  after_callback-Moves before stats false w h g = elim (Bool-cases (leb most (attempts stats))) [
    | inl e ↦ rw e (omega (arith, h, g))
    | inr e ↦ rw e (
        pause-Moves most before stats _
          (sleep_or_stop s interval error_interval (some most) interval w).1 h (ground (arith, e)))
  ]

  after_run-Moves :
      (stats : ReconciliationLoopStats) (r : RunResult) (w : W)
      → attempts stats < most
      → Moves most (attempts stats) (after_run s interval error_interval (some most) stats (r, w)).0
  after_run-Moves stats (failed e) w g =
      let counted = count_failure e stats in
      let one : attempts counted ≡ attempts stats + 1 = omega arith in
      elim (Bool-cases (leb most (attempts counted))) [
        | inl b ↦ rw b (omega (arith, one, g))
        | inr b ↦ rw b (
            pause-Moves most (attempts stats) counted _
              (sleep_or_stop s interval error_interval (some most) error_interval w).1 one
              (ground (arith, b)))
      ]
  after_run-Moves stats (ran r) w g =
      after_callback-Moves (attempts stats) (count_run r stats) _ (s.callback_raises r w).1
        (omega arith) g

  iteration-Moves :
      (stats : ReconciliationLoopStats) (w : W)
      → attempts stats < most
      → Moves most (attempts stats) (iteration s interval error_interval (some most) stats w).0
  unfolding iteration
  iteration-Moves stats w g = elim (Bool-cases (s.is_set w).0) [
    | inl e ↦ rw (e, at_head) (omega (arith, g))
    | inr e ↦ elim (Bool-cases (leb most (attempts stats))) [
      | inl b ↦ absurd (ground (arith, b, g))
      | inr b ↦ rw (e, b) (after_run-Moves stats _ (s.run_once (s.is_set w).1).1 g)
    ]
  ]

  after_step-EndsWithin :
      (fuel before : ℕ) (step : Step) (w : W)
      → Moves most before step
      → before < most
      → most ≤ suc fuel + before
      → ((stats : ReconciliationLoopStats) (w : W)
          → attempts stats < most
          → most ≤ fuel + attempts stats
          → EndsWithin most (loop s interval error_interval (some most) fuel stats w).0)
      → EndsWithin most (after_step (loop s interval error_interval (some most) fuel) (step, w)).0
  after_step-EndsWithin fuel before (Step.go_on next) w moved g h rest =
      rest next w moved.1 (omega (arith, moved.0, h))
  after_step-EndsWithin fuel before (Step.break_loop last) w moved g h rest = moved
  after_step-EndsWithin fuel before (Step.raise_error last) w moved g h rest = moved

  loop-EndsWithin :
      (fuel : ℕ) (stats : ReconciliationLoopStats) (w : W)
      → attempts stats < most
      → most ≤ fuel + attempts stats
      → EndsWithin most (loop s interval error_interval (some most) fuel stats w).0
  unfolding loop
  loop-EndsWithin zero stats w g h = absurd (omega (arith, g, h))
  loop-EndsWithin (suc fuel) stats w g h =
      after_step-EndsWithin fuel (attempts stats)
        (iteration s interval error_interval (some most) stats w).0
        (iteration s interval error_interval (some most) stats w).1 (iteration-Moves stats w g) g h
        (loop-EndsWithin fuel)

  with_stop-EndsWithin :
      (now : ℕ) (end : LoopEnd) → EndsWithin most end → EndsWithin most (with_stop now end)
  with_stop-EndsWithin now (LoopEnd.returned stats) h = h
  with_stop-EndsWithin now (LoopEnd.raised stats) h = h
  with_stop-EndsWithin now LoopEnd.out_of_fuel h = h

  -- With a positive `max_runs`, the loop ends whatever the reconciler, the callback, the clock and
  -- the stop event do: fuel for that many iterations is enough, and it has counted at most that
  -- many runs, failed ones included.
  pub run-EndsWithin :
      (w : W) → 0 < most → EndsWithin most (run s interval error_interval (some most) most w).0
  unfolding run
  run-EndsWithin w positive =
      with_stop-EndsWithin _ _
        (loop-EndsWithin most (started (s.clock w).0) (s.clock w).1 positive (omega arith))
