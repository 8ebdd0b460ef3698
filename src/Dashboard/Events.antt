-- ===== src/Dashboard/Events.antt =====
-- The rows of the event log as the dashboard reads them, and the queries of EventsRepository in
-- trading/storage/repositories.py that it uses. A table of events has the newest row first.
use crypto_ai_trader.Base.{
  ℕ, String, List, [], ◌∷◌, Option, none, some, Bool, true, false, if◌then◌else◌, str_eq, take,
}
use crypto_ai_trader.Strategies.Base.{Time}

pub data EventType : Type 0 where
  cycle_started cycle_finished cycle_error supervisor_heartbeat : EventType
  supervisor_component_error heartbeat_lost heartbeat_recovered : EventType
  component_restart_attempted component_restart_succeeded : EventType
  component_restart_exhausted : EventType
  other : String → EventType

unfoldable pub type_eq : EventType → EventType → Bool
type_eq cycle_started cycle_started = true
type_eq cycle_finished cycle_finished = true
type_eq cycle_error cycle_error = true
type_eq supervisor_heartbeat supervisor_heartbeat = true
type_eq supervisor_component_error supervisor_component_error = true
type_eq heartbeat_lost heartbeat_lost = true
type_eq heartbeat_recovered heartbeat_recovered = true
type_eq component_restart_attempted component_restart_attempted = true
type_eq component_restart_succeeded component_restart_succeeded = true
type_eq component_restart_exhausted component_restart_exhausted = true
type_eq (other a) (other b) = str_eq a b
type_eq _ _ = false

-- The entries of `context_json` that are read; a missing one is `none`.
pub record Context : Type 0 where
  pub status : Option String
  pub component : Option String
  pub ingest_thread_alive : Option Bool
  pub trading_thread_alive : Option Bool
  pub uptime_seconds : Option ℕ

-- `created_at` as `_to_aware_utc` gives it.
pub record EventRow : Type 0 where
  pub event_type : EventType
  pub created_at : Option Time
  pub message : String
  pub context : Context

-- `list_recent` with no filter.
abbrev pub list_recent : (limit : ℕ) → List EventRow → List EventRow
list_recent limit rows = take limit rows

-- The loops that stop at the first event of a type.
unfoldable pub first_of : EventType → List EventRow → Option EventRow
unfolding type_eq
first_of kind [] = none
first_of kind (row ∷ rows) = if type_eq row.event_type kind then some row else first_of kind rows
