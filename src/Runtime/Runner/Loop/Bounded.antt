-- ===== src/Runtime/Runner/Loop/Bounded.antt =====
-- How many iterations the loop runs.
use crypto_ai_trader.Base.{
  ℕ, zero, suc, ◌+◌, ◌≤◌, ◌<◌, ◌≡◌, ◌⊎◌, inl, inr, refl, arith, List, ◌∷◌, some, Bool, Bool-cases,
  true, false, leb, ltb, ok,
}
use crypto_ai_trader.Strategies.Base.{Time}
use crypto_ai_trader.Runtime.Runner.Once.{
  RunnerEvent, runner_started, runner_stopped, RunnerState, Surroundings, RunOptions, record_event,
  run_once,
}
use crypto_ai_trader.Runtime.Runner.Loop.{after_once, loop_from, run_loop}

module _ (u : Surroundings) (options : RunOptions) (clock : ℕ → Time)
    (stops_before stops_after : ℕ → Bool) where
  -- Why the loop ended after `n` iterations.
  abbrev pub IsDone : ℕ → ℕ → Type 0
  IsDone limit n =
      (n ≡ limit) ⊎ (stops_before n ≡ true) ⊎ ((k : ℕ) × (n ≡ k + 1) × (stops_after k ≡ true))

  loop_from-IsDone :
      (fuel limit k : ℕ) (s : RunnerState)
      → k ≤ limit
      → limit < fuel + k
      → (z : RunnerState) × (n : ℕ) × (loop_from u options clock stops_before stops_after fuel
            (some limit)
            k
            s
          ≡ some (z, n))
        × (n ≤ limit)
        × IsDone limit n
  unfolding loop_from
  loop_from-IsDone zero limit k s low enough = absurd (omega arith)
  loop_from-IsDone (suc fuel) limit k s low enough = elim (Bool-cases (stops_before k)) [
    | inl stops ↦ (s, k, rw (stops, loop_from) refl, low, inr (inl stops))
    | inr goes ↦ elim (Bool-cases (leb limit k)) [
      | inl reached ↦ (s, k, rw (goes, reached, loop_from) refl, low, inl (ground arith))
      | inr room ↦
          let next =
            after_once u options clock stops_before stops_after k
              (run_once u options (clock k) s) in
          elim (Bool-cases (stops_after k)) [
            | inl stops ↦ (
              next,
              k + 1,
              rw (goes, room, stops, loop_from) refl,
              ground arith,
              inr (inr (k, refl, stops)),
            )
            | inr onward ↦
                let (z, n, e, bound, done) =
                  loop_from-IsDone fuel limit (k + 1) next (ground arith) (omega arith) in
                (z, n, rw (goes, room, onward, loop_from) e, bound, done)
          ]
    ]
  ]

  -- With at most `limit` cycles and an interval of a second or more, the loop ends: fuel for one
  -- iteration more suffices. It runs at most `limit` iterations, fewer only if the stop event is
  -- set, and then records how many it ran.
  pub run_loop_ends :
      (limit interval_seconds : ℕ) (s : RunnerState)
      → 1 ≤ interval_seconds
      → (z : RunnerState) × (n : ℕ) × (run_loop u options clock stops_before stops_after
            (limit + 1)
            interval_seconds
            (some limit)
            s
          ≡ ok (some (z, n)))
        × (n ≤ limit)
        × IsDone limit n
        × ((before : List RunnerEvent) × (z.events ≡ runner_stopped n ∷ before))
  unfolding run_loop
  run_loop_ends limit interval_seconds s positive =
      let fits : ltb interval_seconds 1 ≡ false = ground arith in
      let (z, n, e, bound, done) =
        loop_from-IsDone (limit + 1) limit 0 (record_event runner_started s) (omega arith)
          (omega arith) in
      (record_event (runner_stopped n) z, n, rw (fits, e) refl, bound, done, (z.events, refl))
