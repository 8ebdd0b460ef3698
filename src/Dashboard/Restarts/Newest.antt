-- ===== src/Dashboard/Restarts/Newest.antt =====
-- The events of the supervisor as rows, and the newest verdict on a component among them.
use crypto_ai_trader.Base.{
  ◌≡◌, refl, ap, ◌∙◌, arith, List, [], ◌∷◌, map, Option, none, some, Bool, true, false,
  if◌then◌else◌, String,
}
use crypto_ai_trader.Strategies.Base.{Time}
use crypto_ai_trader.Runtime.Supervisor.{
  Component, ingestion, trading, component_name, Event, supervisor_started, restart_attempted,
  restart_succeeded, restart_exhausted, component_error, supervisor_stopped,
}
use crypto_ai_trader.Runtime.Supervisor.System.{same_component}
use crypto_ai_trader.Dashboard.Events.{
  EventType, supervisor_component_error, component_restart_attempted, component_restart_succeeded,
  component_restart_exhausted, other, EventRow,
}
use crypto_ai_trader.Dashboard.Restarts.{
  Restarts, RestartScan, component_of, change, is_recent, count_attempt, set_verdict, with_time,
  note_restart, scan_restarts, restarts_of, or_false, no_restarts, shows_exhausted,
}

abbrev pub type_of : Event → EventType
type_of supervisor_started = other "supervisor_started"
type_of (restart_attempted c attempt text cooldown) = component_restart_attempted
type_of (restart_succeeded c attempt) = component_restart_succeeded
type_of (restart_exhausted c attempt text) = component_restart_exhausted
type_of (component_error c failure) = supervisor_component_error
type_of (supervisor_stopped ingest trade) = other "supervisor_stopped"

abbrev pub named : Event → Option String
named supervisor_started = none
named (restart_attempted c attempt text cooldown) = some (component_name c)
named (restart_succeeded c attempt) = some (component_name c)
named (restart_exhausted c attempt text) = some (component_name c)
named (component_error c failure) = some (component_name c)
named (supervisor_stopped ingest trade) = none

-- The row that the supervisor writes for an event; `stamp` gives its time.
abbrev pub as_row : (Event → Option Time) → Event → EventRow
as_row stamp e = record {
  event_type = type_of e;
  created_at = stamp e;
  message = "";
  context = record {
    status = none;
    component = named e;
    ingest_thread_alive = none;
    trading_thread_alive = none;
    uptime_seconds = none;
  };
}

-- What an event says of a component.
abbrev pub verdict_in : Component → Event → Option Bool
verdict_in c (restart_succeeded d attempt) = if same_component c d then some false else none
verdict_in c (restart_exhausted d attempt text) = if same_component c d then some true else none
verdict_in c _ = none

abbrev pub first_some : Option Bool → Option Bool → Option Bool
first_some none later = later
first_some (some b) later = some b

unfoldable pub newest : Component → List Event → Option Bool
newest c [] = none
newest c (e ∷ es) = first_some (verdict_in c e) (newest c es)

first_some_assoc :
    (a b c : Option Bool) → first_some (first_some a b) c ≡ first_some a (first_some b c)
first_some_assoc none b c = refl
first_some_assoc (some x) b c = refl

component_of-name : (c : Component) → component_of (some (component_name c)) ≡ some c
unfolding component_of
component_of-name ingestion = refl
component_of-name trading = refl

change-exhausted :
    (c d : Component) (f : Restarts → Restarts) (s : RestartScan)
    → (restarts_of c (change (some d) f s)).exhausted
      ≡ (if same_component c d then f (restarts_of c s) else restarts_of c s).exhausted
change-exhausted ingestion ingestion f s = refl
change-exhausted ingestion trading f s = refl
change-exhausted trading ingestion f s = refl
change-exhausted trading trading f s = refl

with_time-restarts :
    (c : Component) (created : Option Time) (s : RestartScan)
    → restarts_of c (with_time created s) ≡ restarts_of c s
with_time-restarts ingestion created s = refl
with_time-restarts trading created s = refl

attempt_kept :
    (mine recent : Bool) (r : Restarts)
    → (if mine then count_attempt recent r else r).exhausted ≡ first_some r.exhausted none
attempt_kept mine recent r = ground arith

verdict_set :
    (mine verdict : Bool) (r : Restarts)
    → (if mine then set_verdict verdict r else r).exhausted
      ≡ first_some r.exhausted (if mine then some verdict else none)
verdict_set mine verdict r = ground arith

first_some-none : (o : Option Bool) → o ≡ first_some o none
first_some-none none = refl
first_some-none (some b) = refl

-- One event of the log.
note_restart-exhausted :
    (now : Time) (stamp : Event → Option Time) (c : Component) (e : Event) (s : RestartScan)
    → (restarts_of c (note_restart now (type_of e) (as_row stamp e) s)).exhausted
      ≡ first_some (restarts_of c s).exhausted (verdict_in c e)
note_restart-exhausted now stamp c (restart_attempted d attempt text cooldown) s =
    let created = stamp (restart_attempted d attempt text cooldown) in
    rw (component_of-name d, change-exhausted c d, with_time-restarts c created s)
      (attempt_kept (same_component c d) (is_recent now created) (restarts_of c s))
note_restart-exhausted now stamp c (restart_succeeded d attempt) s =
    let created = stamp (restart_succeeded d attempt) in
    rw (component_of-name d, change-exhausted c d, with_time-restarts c created s)
      (verdict_set (same_component c d) false (restarts_of c s))
note_restart-exhausted now stamp c (restart_exhausted d attempt text) s =
    let created = stamp (restart_exhausted d attempt text) in
    rw (component_of-name d, change-exhausted c d, with_time-restarts c created s)
      (verdict_set (same_component c d) true (restarts_of c s))
note_restart-exhausted now stamp c supervisor_started s =
    first_some-none (restarts_of c s).exhausted
note_restart-exhausted now stamp c (component_error d failure) s =
    first_some-none (restarts_of c s).exhausted
note_restart-exhausted now stamp c (supervisor_stopped ingest trade) s =
    first_some-none (restarts_of c s).exhausted

-- The loop over the rows finds the newest verdict.
scan_restarts-newest :
    (now : Time) (stamp : Event → Option Time) (c : Component) (es : List Event) (s : RestartScan)
    → (restarts_of c (scan_restarts now (map (as_row stamp) es) s)).exhausted
      ≡ first_some (restarts_of c s).exhausted (newest c es)
unfolding scan_restarts newest
scan_restarts-newest now stamp c [] s = first_some-none (restarts_of c s).exhausted
scan_restarts-newest now stamp c (e ∷ es) s =
    scan_restarts-newest now stamp c es (note_restart now (type_of e) (as_row stamp e) s)
    ∙ ap (λ o. first_some o (newest c es)) (note_restart-exhausted now stamp c e s)
    ∙ first_some_assoc (restarts_of c s).exhausted (verdict_in c e) (newest c es)

-- The flag of the status page is the newest verdict in the log, and false without one.
pub shows_exhausted-newest :
    (now : Time) (stamp : Event → Option Time) (c : Component) (es : List Event)
    → shows_exhausted now c (map (as_row stamp) es) ≡ or_false (newest c es)
unfolding shows_exhausted
shows_exhausted-newest now stamp ingestion es =
    ap or_false (scan_restarts-newest now stamp ingestion es no_restarts)
shows_exhausted-newest now stamp trading es =
    ap or_false (scan_restarts-newest now stamp trading es no_restarts)
