-- ===== src/Dashboard/Health.antt =====
-- The health part of `read_release_gate_live` and of `read_runtime_status` in
-- trading/dashboard_api/routes_runtime.py: what the heartbeats in the event log say.
pub mod Alerting
use crypto_ai_trader.Base.{
  ℕ, String, List, [], ◌∷◌, Option, none, some, Bool, true, false, if◌then◌else◌, ltb,
}
use crypto_ai_trader.Strategies.Base.{Time}
use crypto_ai_trader.Runtime.Supervisor.Monitor.{is_within}
use crypto_ai_trader.Dashboard.Events.{
  EventType, supervisor_heartbeat, heartbeat_lost, heartbeat_recovered, EventRow, first_of,
}

pub record RuntimeHealth : Type 0 where
  pub supervisor_alive : Option Bool
  pub ingestion_thread_alive : Option Bool
  pub trading_thread_alive : Option Bool
  pub heartbeat_stale_alerting : Bool

-- Fresh within two minutes, stale, or without a time.
abbrev pub alive_at : Time → Option Time → Option Bool
alive_at now none = none
alive_at now (some created) = some (is_within 120 now created)

-- The latest times of a lost and of a recovered heartbeat.
pub record Marks : Type 0 where
  pub lost : Option Time
  pub recovered : Option Time

unfoldable pub newer : Time → Option Time → Option Time
newer t none = some t
newer t (some latest) = if ltb latest t then some t else some latest

abbrev pub mark : EventType → Option Time → Marks → Marks
mark heartbeat_recovered (some t) m = record m { recovered = newer t m.recovered }
mark heartbeat_lost (some t) m = record m { lost = newer t m.lost }
mark _ _ m = m

-- The loop over all events.
unfoldable pub scan : List EventRow → Marks → Marks
unfolding newer
scan [] m = m
scan (row ∷ rows) m = scan rows (mark row.event_type row.created_at m)

abbrev pub is_open : Option Time → Option Time → Bool
is_open none recovered = false
is_open (some lost) none = true
is_open (some lost) (some recovered) = ltb recovered lost

-- `heartbeat_stale_alerting`
unfoldable pub is_alerting : List EventRow → Bool
unfolding scan
is_alerting rows =
    let m = scan rows (record { lost = none; recovered = none }) in is_open m.lost m.recovered

abbrev pub of_heartbeat : Time → Option EventRow → Bool → RuntimeHealth
of_heartbeat now none alerting = record {
  supervisor_alive = none;
  ingestion_thread_alive = none;
  trading_thread_alive = none;
  heartbeat_stale_alerting = alerting;
}
of_heartbeat now (some row) alerting = record {
  supervisor_alive = alive_at now row.created_at;
  ingestion_thread_alive = row.context.ingest_thread_alive;
  trading_thread_alive = row.context.trading_thread_alive;
  heartbeat_stale_alerting = alerting;
}

unfoldable pub health_of : Time → List EventRow → RuntimeHealth
unfolding first_of is_alerting is_within
health_of now rows = of_heartbeat now (first_of supervisor_heartbeat rows) (is_alerting rows)
