-- ===== src/Runtime/Runner/Loop.antt =====
-- `run_loop`: iterations until the stop event is set or `max_cycles` are run. The stop event is
-- read before and after an iteration; `stops_before k` and `stops_after k` are what is read there
-- once `k` iterations are done. The times of the iterations are a parameter. The sleep between two
-- iterations, a KeyboardInterrupt and the log are left out.
pub mod Bounded
use crypto_ai_trader.Base.{
  ℕ, zero, suc, ◌+◌, List, Option, none, some, Bool, true, false, ltb, leb, if◌then◌else◌, Result,
  ok, err, value_error,
}
use crypto_ai_trader.Strategies.Base.{Time}
use crypto_ai_trader.Runtime.Runner.Once.{
  runner_started, loop_cycle_error, runner_stopped, SymbolResult, RunnerState, Surroundings,
  RunOptions, record_event, notify_error, run_once,
}

-- `max_cycles is not None and cycles_run >= max_cycles`
abbrev pub is_reached : Option ℕ → ℕ → Bool
is_reached none k = false
is_reached (some limit) k = leb limit k

module _ (u : Surroundings) (options : RunOptions) (clock : ℕ → Time)
    (stops_before stops_after : ℕ → Bool) where
  -- The `try` around an iteration, after `k` of them.
  abbrev pub after_once : ℕ → RunnerState × Result (List SymbolResult) → RunnerState
  after_once k (s, ok results) = s
  after_once k (s, err why) =
      notify_error u options (clock k) none (record_event (loop_cycle_error (k + 1)) s)

  -- The `while` loop on fuel; `none` if the fuel does not suffice.
  unfoldable pub loop_from :
      (fuel : ℕ) (max_cycles : Option ℕ) → ℕ → RunnerState → Option (RunnerState × ℕ)
  unfolding run_once notify_error
  loop_from zero max_cycles k s = none
  loop_from (suc fuel) max_cycles k s = elim (stops_before k) [
    | true ↦ some (s, k)
    | false ↦ elim (is_reached max_cycles k) [
      | true ↦ some (s, k)
      | false ↦
          let next = after_once k (run_once u options (clock k) s) in
          elim (stops_after k) [
            | true ↦ some (next, k + 1)
            | false ↦ loop_from fuel max_cycles (k + 1) next
          ]
    ]
  ]

  abbrev pub finish : Option (RunnerState × ℕ) → Option (RunnerState × ℕ)
  finish none = none
  finish (some (s, k)) = some (record_event (runner_stopped k) s, k)

  -- A wrong interval raises a ValueError.
  unfoldable pub run_loop :
      (fuel interval_seconds : ℕ) (max_cycles : Option ℕ)
      → RunnerState
      → Result (Option (RunnerState × ℕ))
  unfolding loop_from
  run_loop fuel interval_seconds max_cycles s =
      if ltb interval_seconds 1
      then err value_error
      else ok (finish (loop_from fuel max_cycles 0 (record_event runner_started s)))
