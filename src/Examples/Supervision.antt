-- ===== src/Examples/Supervision.antt =====
-- A supervisor whose trading component keeps failing, and a monitor that loses a heartbeat.
use crypto_ai_trader.Base.{
  ℕ, ◌≡◌, ◌≢◌, ◌↔◌, ◌+◌, ◌*◌, ◌≤◌, refl, arith, List, [], ◌∷◌, none, some, true, false, ok,
}
use crypto_ai_trader.Runtime.Supervisor.{ingestion, trading, Outcome, returned, raised, Settings}
use crypto_ai_trader.Runtime.Supervisor.System.{
  System, Action, turn, started, run, turns, Ending, returns, keyboard_interrupt, run_supervisor,
}
use crypto_ai_trader.Runtime.Supervisor.Schedule.{worker_of, run_ends}
use crypto_ai_trader.Runtime.Supervisor.Interrupts.{uncaught, interrupted}
use crypto_ai_trader.Runtime.Supervisor.Ends.{IsEnd, run_supervisor_ends}
use crypto_ai_trader.Runtime.Supervisor.Monitor.{Monitor, Checks, watch, losses, recoveries}
use crypto_ai_trader.Runtime.Supervisor.Monitor.Edges.{
  stale_at_end, turns_stale, turns_fresh, watch-counts,
}

abbrev settings : Settings
settings = record { max_restarts = 1; cooldown_seconds = 0; dedup_window = 300_000_000 }

abbrev broken : Outcome
broken = raised (record { kind = "ValueError"; text = "no data" })

-- Trading fails twice while ingestion comes back after one crash.
abbrev actions : List Action
actions =
    turn trading 1 broken
    ∷ turn ingestion 2 broken
    ∷ turn trading 3 broken
    ∷ turn ingestion 4 returned
    ∷ turn ingestion 5 returned
    ∷ []

abbrev last : System
last = run settings actions (started [])

trading_failed : (last.trade.runs ≡ 2) × (last.shared.stop ≡ true) × (last.ingest.alive ≡ false)
unfolding run crypto_ai_trader.Notifications.Dedup.should_notify
trading_failed = (refl, refl, refl)

-- The stop event is set before its last turn, and ingestion is run again all the same.
ingestion_run_again : (last.ingest.runs ≡ 2) × (last.ingest.error ≡ none)
unfolding run
ingestion_run_again = (refl, refl)

run_ends_example :
    ((worker_of trading last).runs ≤ settings.max_restarts + 1)
    × ((settings.max_restarts + 1 ≤ turns trading actions)
        → ((worker_of trading last).alive ≡ false))
    × (((worker_of trading last).error ≢ none)
        → ((worker_of trading last).alive ≡ false)
          × ((worker_of trading last).runs ≡ settings.max_restarts + 1)
          × (last.shared.stop ≡ true))
run_ends_example = run_ends settings [] actions trading

run_supervisor_ends_example :
    (z : System) × (ending : Ending) × (run_supervisor settings 300 300 [] actions ≡ ok (z, ending))
    × ((ending ≡ keyboard_interrupt) ↔ (uncaught settings actions (started []) ≡ true))
    × ((interrupted actions ≡ true)
        → (uncaught settings actions (started []) ≡ false)
        → ending ≡ returns)
    × IsEnd settings z ending
unfolding turns
run_supervisor_ends_example =
    run_supervisor_ends settings 300 300 [] actions (omega arith) (omega arith) (omega arith)
      (omega arith)

abbrev second : ℕ
second = 1_000_000

abbrev watching : Monitor
watching = record {
  heartbeat_stale_alerted = false;
  last_confirmed_heartbeat = none;
  recorded = [];
  sent = [];
  entries = [];
}

-- Heartbeats at 0 s, 300 s and 420 s, with checks at 60 s, 180 s, 390 s and 430 s.
abbrev checks : Checks
checks =
    (60 * second, some 0)
    ∷ (180 * second, some 0)
    ∷ (390 * second, some (300 * second))
    ∷ (430 * second, some (420 * second))
    ∷ []

watch-counts_example :
    ((watch 300 checks watching).heartbeat_stale_alerted ≡ stale_at_end false checks)
    × (losses (watch 300 checks watching).recorded ≡ 0 + turns_stale false checks)
    × (recoveries (watch 300 checks watching).recorded ≡ 0 + turns_fresh false checks)
watch-counts_example = watch-counts 300 checks watching

-- The heartbeat that ends the outage is 90 s old at its check: the alert is closed, and no
-- recovery is recorded, then or at a later check.
recovery_unreported :
    ((watch 300 checks watching).heartbeat_stale_alerted ≡ false)
    × (losses (watch 300 checks watching).recorded ≡ 1)
    × (recoveries (watch 300 checks watching).recorded ≡ 0)
unfolding watch crypto_ai_trader.Notifications.Dedup.should_notify
recovery_unreported = (refl, refl, refl)
