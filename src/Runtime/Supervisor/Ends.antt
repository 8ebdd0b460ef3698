-- ===== src/Runtime/Supervisor/Ends.antt =====
-- How the supervisor ends.
use crypto_ai_trader.Base.{
  ℕ, ◌+◌, ◌≤◌, ◌≡◌, ◌≢◌, ◌↔◌, ◌⊎◌, inl, inr, refl, ◌∙◌, arith, Option, none, some, true, false,
  List, ◌∷◌, ok, ltb,
}
use crypto_ai_trader.Notifications.Dedup.{Entries}
use crypto_ai_trader.Runtime.Supervisor.{
  Component, ingestion, trading, Failure, Settings, Event, supervisor_stopped,
}
use crypto_ai_trader.Runtime.Supervisor.System.{
  Phase, waiting, handling, finishing, broken, System, Action, started, run, turns, Ending, returns,
  keyboard_interrupt, raises, both_failed, kind_of, record_stopped, raise_errors, conclude_as,
  conclude, run_supervisor,
}
use crypto_ai_trader.Runtime.Supervisor.Schedule.{worker_of, run_ends}
use crypto_ai_trader.Runtime.Supervisor.Interrupts.{
  uncaught, interrupted, conclude-broken_iff, conclude-caught,
}

-- The end of a supervisor in a state where both threads have ended.
abbrev pub IsEnd : Settings → System → Ending → Type 0
IsEnd settings z ending =
    ((c : Component) → (worker_of c z).alive ≡ false)
    × ((ending ≡ keyboard_interrupt) ↔ (z.phase ≡ broken))
    × ((ending ≡ returns)
        → ((z.phase ≡ handling) ⊎ ((z.ingest.error ≡ none) × (z.trade.error ≡ none)))
          × ((before : List Event) × (z.shared.events
                ≡ supervisor_stopped (kind_of z.ingest.error) (kind_of z.trade.error) ∷ before)))
    × ((ending ≢ returns)
        → (ending ≢ keyboard_interrupt)
        → (z.phase ≢ handling)
          × (z.shared.stop ≡ true)
          × ((c : Component) × ((worker_of c z).runs ≡ settings.max_restarts + 1)
              × ((worker_of c z).error ≢ none)))

-- What the threads leave behind for the end.
abbrev IsOver : Settings → System → Type 0
IsOver settings y =
    (c : Component)
    → ((worker_of c y).alive ≡ false)
      × (((worker_of c y).error ≢ none)
          → ((worker_of c y).runs ≡ settings.max_restarts + 1) × (y.shared.stop ≡ true))

record_stopped-alive :
    (y : System) (c : Component) → (worker_of c (record_stopped y)).alive ≡ (worker_of c y).alive
record_stopped-alive y ingestion = refl
record_stopped-alive y trading = refl

-- The end that raises, on account of the component `c`.
raises-IsEnd :
    (settings : Settings) (y : System) (ending : Ending) (c : Component)
    → IsOver settings y
    → y.phase ≢ handling
    → y.phase ≢ broken
    → ending ≢ returns
    → ending ≢ keyboard_interrupt
    → (worker_of c y).error ≢ none
    → IsEnd settings y ending
raises-IsEnd settings y ending c over calm whole raised own failed = (
  λ d. (over d).0,
  (λ e. absurd (own e), λ e. absurd (whole e)),
  λ e. absurd (raised e),
  λ _ _. (calm, ((over c).1 failed).1, (c, ((over c).1 failed).0, failed)),
)

returns-IsEnd :
    (settings : Settings) (y : System)
    → IsOver settings y
    → y.phase ≢ broken
    → ((y.phase ≡ handling) ⊎ ((y.ingest.error ≡ none) × (y.trade.error ≡ none)))
    → IsEnd settings (record_stopped y) returns
returns-IsEnd settings y over whole why = (
  λ c. record_stopped-alive y c ∙ (over c).0,
  (λ e. absurd (ground arith), λ e. absurd (whole e)),
  λ _. (why, (y.shared.events, refl)),
  λ no. absurd (no refl),
)

raise_errors-IsEnd :
    (settings : Settings) (i t : Option Failure) (y : System)
    → y.ingest.error ≡ i
    → y.trade.error ≡ t
    → y.phase ≢ handling
    → y.phase ≢ broken
    → IsOver settings y
    → let (z, ending) = raise_errors i t y in IsEnd settings z ending
raise_errors-IsEnd settings none none y ei et calm whole over =
    returns-IsEnd settings y over whole (inr (ei, et))
raise_errors-IsEnd settings (some f) none y ei et calm whole over =
    raises-IsEnd settings y (raises f) ingestion over calm whole (ground arith) (ground arith)
      (ground arith)
raise_errors-IsEnd settings none (some f) y ei et calm whole over =
    raises-IsEnd settings y (raises f) trading over calm whole (ground arith) (ground arith)
      (ground arith)
raise_errors-IsEnd settings (some f) (some g) y ei et calm whole over =
    raises-IsEnd settings y (both_failed f g) ingestion over calm whole (ground arith)
      (ground arith) (ground arith)

conclude_as-IsEnd :
    (phase : Phase) (settings : Settings) (y : System)
    → y.phase ≡ phase
    → IsOver settings y
    → let (z, ending) = conclude_as phase y in IsEnd settings z ending
conclude_as-IsEnd waiting settings y e over =
    raise_errors-IsEnd settings _ _ y refl refl (ground arith) (ground arith) over
conclude_as-IsEnd handling settings y e over = returns-IsEnd settings y over (ground arith) (inl e)
conclude_as-IsEnd finishing settings y e over =
    raise_errors-IsEnd settings _ _ y refl refl (ground arith) (ground arith) over
conclude_as-IsEnd broken settings y e over =
    (λ c. (over c).0, (λ _. e, λ _. refl), λ e'. absurd (ground arith), λ _ no. absurd (no refl))

run-IsOver :
    (settings : Settings) (entries : Entries) (actions : List Action)
    → settings.max_restarts + 1 ≤ turns ingestion actions
    → settings.max_restarts + 1 ≤ turns trading actions
    → IsOver settings (run settings actions (started entries))
run-IsOver settings entries actions fair_i fair_t ingestion =
    let (_, ended, spent) = run_ends settings entries actions ingestion in
    (ended fair_i, λ failed. let (_, all_runs, stops) = spent failed in (all_runs, stops))
run-IsOver settings entries actions fair_i fair_t trading =
    let (_, ended, spent) = run_ends settings entries actions trading in
    (ended fair_t, λ failed. let (_, all_runs, stops) = spent failed in (all_runs, stops))

-- If each thread gets one turn more than it may be restarted, the supervisor ends with both
-- threads ended. It ends by the KeyboardInterrupt exactly if one came while the main thread was not
-- in its waiting loop; if interrupts came and each was caught, it returns. It returns only if one was caught or no component failed for good, and then
-- `supervisor_stopped` is the last event. It ends by another exception only with none caught, with
-- the stop event set, and after some component ran once more often than it may be restarted.
pub run_supervisor_ends :
    (settings : Settings) (ingest_interval trade_interval : ℕ) (entries : Entries)
    (actions : List Action)
    → 1 ≤ ingest_interval
    → 1 ≤ trade_interval
    → settings.max_restarts + 1 ≤ turns ingestion actions
    → settings.max_restarts + 1 ≤ turns trading actions
    → (z : System) × (ending : Ending) × (run_supervisor settings ingest_interval trade_interval
          entries actions
        ≡ ok (z, ending))
      × ((ending ≡ keyboard_interrupt) ↔ (uncaught settings actions (started entries) ≡ true))
      × ((interrupted actions ≡ true)
          → (uncaught settings actions (started entries) ≡ false)
          → ending ≡ returns)
      × IsEnd settings z ending
unfolding run_supervisor conclude
run_supervisor_ends settings ingest_interval trade_interval entries actions a b fair_i fair_t =
    let y = run settings actions (started entries) in
    let (z, ending) = conclude y in
    let end =
      conclude_as-IsEnd y.phase settings y refl
        (run-IsOver settings entries actions fair_i fair_t) in
    let (by_phase, in_phase) = end.1 in
    let (comes, came) = conclude-broken_iff settings actions (started entries) refl in
    let ingest_fits : ltb ingest_interval 1 ≡ false = ground arith in
    let trade_fits : ltb trade_interval 1 ≡ false = ground arith in
    (
      z,
      ending,
      rw (ingest_fits, trade_fits) refl,
      (λ e. comes (by_phase e), λ e. in_phase (came e)),
      λ one none_left. conclude-caught settings actions (started entries) one none_left,
      end,
    )
