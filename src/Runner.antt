-- ===== src/Runner.antt =====
-- `HostedReconciliationRunner.run` (src/hosted_facilitator/hosted/runner.py): the loop that runs the
-- reconciler again and again. What it meets is a `Surroundings` on a state of any type: the stop
-- event, a run of the reconciler, the callback, the clock and the sleep. The loop is on fuel.
pub mod Ends
use x402_hosted_facilitator.Common.{
  ℕ, zero, suc, ◌+◌, String, Bool, true, false, Option, none, some, if◌then◌else◌, leb,
}
use x402_hosted_facilitator.Reconciler.{ReconciliationRunStats, no_stats}

-- a run of the reconciler: its statistics, or `str(exc)`
pub data RunResult : Type 0 where
  ran : ReconciliationRunStats → RunResult
  failed : String → RunResult

pub record Surroundings (W : Type 0) : Type 0 where
  -- `self._stop_event.is_set()`
  pub is_set : W → Bool × W
  pub run_once : W → RunResult × W
  -- whether `_on_iteration` (or awaiting its result) raises
  pub callback_raises : ReconciliationRunStats → W → Bool × W
  pub clock : W → ℕ × W
  -- the wait until the time is over or the event is set
  pub sleep : ℕ → W → W

pub record ReconciliationLoopStats : Type 0 where
  pub runs : ℕ
  pub failed_runs : ℕ
  pub aggregate : ReconciliationRunStats
  pub last_run : Option ReconciliationRunStats
  pub last_error : Option String
  pub started_at : Option ℕ
  pub stopped_at : Option ℕ

-- `_add_stats`
unfoldable pub add_stats : ReconciliationRunStats → ReconciliationRunStats → ReconciliationRunStats
add_stats target source = record {
  scanned = target.scanned + source.scanned;
  claimed = target.claimed + source.claimed;
  settled = target.settled + source.settled;
  failed = target.failed + source.failed;
  marked_unknown = target.marked_unknown + source.marked_unknown;
  manual_review = target.manual_review + source.manual_review;
  pending = target.pending + source.pending;
  skipped = target.skipped + source.skipped;
  errors = target.errors + source.errors;
}

abbrev pub started : ℕ → ReconciliationLoopStats
started now = record {
  runs = 0;
  failed_runs = 0;
  aggregate = no_stats;
  last_run = none;
  last_error = none;
  started_at = some now;
  stopped_at = none;
}

-- where an iteration leaves the loop
pub data Step : Type 0 where
  go_on break_loop raise_error : ReconciliationLoopStats → Step

pub data LoopEnd : Type 0 where
  returned raised : ReconciliationLoopStats → LoopEnd
  out_of_fuel : LoopEnd

-- `max_runs is not None and stats.runs + stats.failed_runs >= max_runs`
abbrev pub reached : Option ℕ → ReconciliationLoopStats → Bool
reached none stats = false
reached (some most) stats = leb most (stats.runs + stats.failed_runs)

abbrev slept : {W : Type 0} → Bool × W → Bool × W
slept (stopped, w) = (if stopped then false else true, w)

abbrev pub pause : {W : Type 0} → ReconciliationLoopStats → Bool × W → Step × W
pause stats (goes_on, w) = (if goes_on then Step.go_on stats else Step.break_loop stats, w)

abbrev pub count_failure : String → ReconciliationLoopStats → ReconciliationLoopStats
count_failure e stats = record stats { failed_runs = stats.failed_runs + 1; last_error = some e }

abbrev pub count_run : ReconciliationRunStats → ReconciliationLoopStats → ReconciliationLoopStats
count_run run_stats stats = record stats {
  runs = stats.runs + 1;
  last_run = some run_stats;
  last_error = none;
  aggregate = add_stats stats.aggregate run_stats;
}

abbrev pub with_stop : ℕ → LoopEnd → LoopEnd
with_stop now (LoopEnd.returned stats) = LoopEnd.returned (record stats { stopped_at = some now })
with_stop now (LoopEnd.raised stats) = LoopEnd.raised (record stats { stopped_at = some now })
with_stop now LoopEnd.out_of_fuel = LoopEnd.out_of_fuel

abbrev pub after_step :
    {W : Type 0} → (ReconciliationLoopStats → W → LoopEnd × W) → Step × W → LoopEnd × W
after_step rest (Step.go_on next, w) = rest next w
after_step rest (Step.break_loop last, w) = (LoopEnd.returned last, w)
after_step rest (Step.raise_error last, w) = (LoopEnd.raised last, w)

module _ {W : Type 0} (s : Surroundings W) (interval error_interval : ℕ) (max_runs : Option ℕ) where
  -- `_sleep_or_stop`: whether the loop goes on
  unfoldable pub sleep_or_stop : ℕ → W → Bool × W
  sleep_or_stop seconds w =
      let (stopped, w') = s.is_set w in
      if stopped then (false, w') else slept (s.is_set (s.sleep seconds w'))

  abbrev pub after_callback : ReconciliationLoopStats → Bool × W → Step × W
  after_callback stats (raises, w) =
      if raises
      then (Step.raise_error stats, w)
      else if reached max_runs stats
      then (Step.break_loop stats, w)
      else pause stats (sleep_or_stop interval w)

  abbrev pub after_run : ReconciliationLoopStats → RunResult × W → Step × W
  after_run stats (failed e, w) =
      let counted = count_failure e stats in
      if reached max_runs counted
      then (Step.break_loop counted, w)
      else pause counted (sleep_or_stop error_interval w)
  after_run stats (ran run_stats, w) =
      after_callback (count_run run_stats stats) (s.callback_raises run_stats w)

  abbrev pub at_head : ReconciliationLoopStats → Bool × W → Step × W
  at_head stats (stopped, w) =
      if stopped
      then (Step.break_loop stats, w)
      else if reached max_runs stats
      then (Step.break_loop stats, w)
      else after_run stats (s.run_once w)

  -- one iteration
  unfoldable pub iteration : ReconciliationLoopStats → W → Step × W
  unfolding sleep_or_stop add_stats
  iteration stats w = at_head stats (s.is_set w)

  unfoldable pub loop : ℕ → ReconciliationLoopStats → W → LoopEnd × W
  unfolding iteration
  loop zero stats w = (LoopEnd.out_of_fuel, w)
  loop (suc fuel) stats w = after_step (loop fuel) (iteration stats w)

  -- the `finally` clause
  abbrev pub stop_clock : LoopEnd × W → LoopEnd × W
  stop_clock (end, w) = let (now, w') = s.clock w in (with_stop now end, w')

  -- `run`
  unfoldable pub run : ℕ → W → LoopEnd × W
  unfolding loop
  run fuel w = let (now, w') = s.clock w in stop_clock (loop fuel (started now) w')
