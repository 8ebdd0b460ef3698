-- ===== src/Dashboard/Restarts.antt =====
-- The restart part of `read_runtime_status` in trading/dashboard_api/routes_runtime.py: what the
-- restart events of the log say of the two components.
pub mod Newest
pub mod Turns
pub mod Exhaustion
use crypto_ai_trader.Base.{
  ℕ, ◌+◌, String, List, [], ◌∷◌, Option, none, some, Bool, true, false, if◌then◌else◌, str_eq,
  lower,
}
use crypto_ai_trader.Strategies.Base.{Time}
use crypto_ai_trader.Runtime.Supervisor.{Component, ingestion, trading}
use crypto_ai_trader.Runtime.Supervisor.Monitor.{is_within}
use crypto_ai_trader.Dashboard.Events.{
  EventType, component_restart_attempted, component_restart_succeeded, component_restart_exhausted,
  EventRow,
}

-- What is known of a component: the attempts of the last hour and the latest verdict.
pub record Restarts : Type 0 where
  pub attempts_last_hour : ℕ
  pub exhausted : Option Bool

-- The local variables of the loop.
pub record RestartScan : Type 0 where
  pub ingest : Restarts
  pub trade : Restarts
  pub last_restart_time : Option Time

-- `str(ctx.get("component", "")).lower()`
unfoldable pub component_of : Option String → Option Component
unfolding lower
component_of none = none
component_of (some text) =
    if str_eq (lower text) "ingestion"
    then some ingestion
    else if str_eq (lower text) "trading"
    then some trading
    else none

abbrev pub change : Option Component → (Restarts → Restarts) → RestartScan → RestartScan
change none f s = s
change (some ingestion) f s = record s { ingest = f s.ingest }
change (some trading) f s = record s { trade = f s.trade }

abbrev pub is_recent : Time → Option Time → Bool
is_recent now none = false
is_recent now (some t) = is_within 3600 now t

abbrev pub count_attempt : Bool → Restarts → Restarts
count_attempt false r = r
count_attempt true r = record r { attempts_last_hour = r.attempts_last_hour + 1 }

-- The first verdict that is met stays.
abbrev pub set_once : Option Bool → Bool → Option Bool
set_once none verdict = some verdict
set_once (some earlier) verdict = some earlier

abbrev pub set_verdict : Bool → Restarts → Restarts
set_verdict verdict r = record r { exhausted = set_once r.exhausted verdict }

abbrev pub time_once : Option Time → Option Time → Option Time
time_once none created = created
time_once (some t) created = some t

abbrev pub with_time : Option Time → RestartScan → RestartScan
with_time created s = record s { last_restart_time = time_once s.last_restart_time created }

-- The body of the loop; an event of another type is skipped.
abbrev pub note_restart : Time → EventType → EventRow → RestartScan → RestartScan
note_restart now component_restart_attempted row s =
    change (component_of row.context.component) (count_attempt (is_recent now row.created_at))
      (with_time row.created_at s)
note_restart now component_restart_exhausted row s =
    change (component_of row.context.component) (set_verdict true) (with_time row.created_at s)
note_restart now component_restart_succeeded row s =
    change (component_of row.context.component) (set_verdict false) (with_time row.created_at s)
note_restart now kind row s = s

unfoldable pub scan_restarts : Time → List EventRow → RestartScan → RestartScan
unfolding component_of is_within
scan_restarts now [] s = s
scan_restarts now (row ∷ rows) s = scan_restarts now rows (note_restart now row.event_type row s)

abbrev pub no_restarts : RestartScan
no_restarts = record {
  ingest = record { attempts_last_hour = 0; exhausted = none };
  trade = record { attempts_last_hour = 0; exhausted = none };
  last_restart_time = none;
}

-- `if restart_exhausted_ingestion is None: restart_exhausted_ingestion = False`
abbrev pub or_false : Option Bool → Bool
or_false none = false
or_false (some verdict) = verdict

abbrev pub settle_verdicts : RestartScan → RestartScan
settle_verdicts s = record s {
  ingest = record s.ingest { exhausted = some (or_false s.ingest.exhausted) };
  trade = record s.trade { exhausted = some (or_false s.trade.exhausted) };
}

abbrev pub restarts_of : Component → RestartScan → Restarts
restarts_of ingestion s = s.ingest
restarts_of trading s = s.trade

-- `restart_exhausted_ingestion` and `restart_exhausted_trading`
unfoldable pub shows_exhausted : Time → Component → List EventRow → Bool
unfolding scan_restarts
shows_exhausted now c rows = or_false (restarts_of c (scan_restarts now rows no_restarts)).exhausted
