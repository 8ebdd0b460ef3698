-- ===== src/Runtime/Supervisor.antt =====
-- trading/runtime/supervisor.py: the two worker threads and how the supervisor ends. A thread's
-- iteration (the test of its loop, a run of the component, and what follows) is one action, and a
-- list of actions is an order in which the threads take turns. What a run of a component does is
-- its outcome, a parameter of the action. Recording an event is assumed to succeed, and the
-- pauses, `last_attempt` and the log are left out.
pub mod System
pub mod Restarts
pub mod Schedule
pub mod Ends
pub mod Interrupts
pub mod Monitor
use crypto_ai_trader.Base.{
  ℕ, ◌+◌, String, List, [], ◌∷◌, Option, none, some, Bool, true, false, not, ◌&&◌, ◌||◌, leb, ltb,
  if◌then◌else◌, Result, ok, err, value_error, uncaught,
}
use crypto_ai_trader.Strategies.Base.{Time}
use crypto_ai_trader.Notifications.Dedup.{Entries, should_notify}

pub data Component : Type 0 where
  ingestion trading : Component

abbrev pub component_name : Component → String
component_name ingestion = "ingestion"
component_name trading = "trading"

-- The type and the text of an exception.
pub record Failure : Type 0 where
  pub kind : String
  pub text : String

-- How a run of a component's loop ends.
pub data Outcome : Type 0 where
  returned : Outcome
  raised : Failure → Outcome

-- The events that are recorded, with the parts of their context that vary.
pub data Event : Type 0 where
  supervisor_started : Event
  restart_attempted : Component → ℕ → String → (cooldown_active : Bool) → Event
  restart_succeeded : Component → ℕ → Event
  restart_exhausted : Component → ℕ → String → Event
  component_error : Component → Failure → Event
  supervisor_stopped : Option String → Option String → Event

-- The state of a worker: its entry of `_restart_state`, the local variables of its loop, and its
-- exception. `runs` counts the runs of the component; the code does not keep it.
pub record Worker : Type 0 where
  pub restart_count : ℕ
  pub exhausted : Bool
  pub had_crash : Bool
  pub first_iteration : Bool
  pub alive : Bool
  pub error : Option Failure
  pub runs : ℕ

abbrev pub new_worker : Worker
new_worker = record {
  restart_count = 0;
  exhausted = false;
  had_crash = false;
  first_iteration = true;
  alive = true;
  error = none;
  runs = 0;
}

-- What the threads share, and what they have done.
pub record Shared : Type 0 where
  pub stop : Bool
  pub events : List Event
  pub entries : Entries
  pub notified : List (Component × Failure)

pub record Settings : Type 0 where
  pub max_restarts : ℕ
  pub cooldown_seconds : ℕ
  pub dedup_window : ℕ

-- `_record_restart_event` and the other events, the newest first.
abbrev pub record_event : Event → Shared → Shared
record_event event s = record s { events = event ∷ s.events }

-- `_can_restart`
abbrev pub can_restart : Settings → Worker → Bool
can_restart settings w =
    if w.exhausted then false else if leb settings.max_restarts w.restart_count then false else true

abbrev pub notify_if : Bool → Component → Failure → Shared → Shared
notify_if true c failure s = record s { notified = (c, failure) ∷ s.notified }
notify_if false c failure s = s

-- `_record_component_error`
unfoldable pub record_component_error : Settings → Time → Component → Failure → Shared → Shared
record_component_error settings now c failure s =
    let (entries, notify) =
      should_notify settings.dedup_window now "supervisor_component_error" (component_name c) none
        s.entries in
    notify_if notify c failure
      (record s { events = component_error c failure ∷ s.events; entries = entries })

-- A run that returned ends the thread.
abbrev pub after_return : Component → Bool → Worker → Shared → Worker × Shared
after_return c true w s = (
  record w { restart_count = 0; alive = false },
  record_event (restart_succeeded c w.restart_count) s,
)
after_return c false w s = (record w { alive = false }, s)

abbrev pub record_cooldown : Settings → Component → ℕ → Shared → Shared
record_cooldown settings c attempt s =
    if ltb 0 settings.cooldown_seconds
    then record_event (restart_attempted c attempt "cooldown before restart" true) s
    else s

-- A run that raised is followed by another one, or ends the thread and stops the supervisor.
abbrev pub restart : Settings → Component → Failure → Worker → Shared → Worker × Shared
restart settings c failure w s = (
  record w { restart_count = w.restart_count + 1; had_crash = true },
  record_cooldown settings c (w.restart_count + 1)
      (record_event (restart_attempted c (w.restart_count + 1) failure.text false) s),
)

abbrev pub becomes_exhausted : Settings → Worker → Bool
becomes_exhausted settings w = leb settings.max_restarts w.restart_count && not w.exhausted

abbrev pub give_up : Settings → Time → Component → Failure → Worker → Shared → Worker × Shared
give_up settings now c failure w s = (
  record w {
    exhausted = if becomes_exhausted settings w then true else w.exhausted;
    error = some failure;
    alive = false;
  },
  record_component_error settings now c failure
      (record (if becomes_exhausted settings w
        then record_event (restart_exhausted c w.restart_count failure.text) s
        else s) { stop = true }),
)

-- The loop body behind the run; `is_retry` is `had_crash` from before.
abbrev pub after_run :
    Settings → Time → Component → Bool → Outcome → Worker → Shared → Worker × Shared
after_run settings now c is_retry returned w s = after_return c is_retry w s
after_run settings now c is_retry (raised failure) w s =
    if can_restart settings w
    then restart settings c failure w s
    else give_up settings now c failure w s

-- One iteration of `_ingestion_target` or `_trading_target`.
unfoldable pub iterate : Settings → Time → Component → Outcome → Worker → Shared → Worker × Shared
unfolding record_component_error
iterate settings now c outcome w s =
    if w.first_iteration || w.had_crash || not s.stop
    then after_run settings now c w.had_crash outcome
        (record w { first_iteration = false; had_crash = false; runs = w.runs + 1 }) s
    else (record w { alive = false }, s)
