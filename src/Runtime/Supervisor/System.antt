-- ===== src/Runtime/Supervisor/System.antt =====
-- The threads of the supervisor together, in any order of their turns.
use crypto_ai_trader.Base.{
  ℕ, suc, String, List, [], ◌∷◌, Option, none, some, Bool, true, false, not, ◌&&◌, ◌||◌, ltb,
  if◌then◌else◌, Result, ok, err, value_error,
}
use crypto_ai_trader.Strategies.Base.{Time}
use crypto_ai_trader.Notifications.Dedup.{Entries}
use crypto_ai_trader.Runtime.Supervisor.{
  Component, ingestion, trading, Failure, Outcome, Worker, new_worker, Shared, Settings,
  supervisor_started, supervisor_stopped, record_event, iterate,
}

-- Where the main thread is: in the waiting `try`, in its handler of a KeyboardInterrupt, past the
-- `try` until the workers are done, or ended by a KeyboardInterrupt that nothing catches.
pub data Phase : Type 0 where
  waiting handling finishing broken : Phase

-- The events are those of these two threads and of the main thread; what other writers record in
-- the same table stands between them.
pub record System : Type 0 where
  pub ingest : Worker
  pub trade : Worker
  pub shared : Shared
  pub phase : Phase

-- A turn of a thread, at a time and with what its component would do, a round of the main thread's
-- waiting loop, or a KeyboardInterrupt in the main thread.
pub data Action : Type 0 where
  turn : Component → Time → Outcome → Action
  check interrupt : Action

-- The system when the threads are started, with the entries of the deduplicator.
abbrev pub started : Entries → System
started entries = record {
  ingest = new_worker;
  trade = new_worker;
  shared = record {
    stop = false;
    events = supervisor_started ∷ [];
    entries = entries;
    notified = [];
  };
  phase = waiting;
}

-- A thread that has ended takes no more turns.
abbrev pub turn_if :
    Bool → Settings → Time → Component → Outcome → Worker → Shared → Worker × Shared
turn_if true settings now c outcome w s = iterate settings now c outcome w s
turn_if false settings now c outcome w s = (w, s)

abbrev pub turn_of : Settings → Time → Component → Outcome → Worker → Shared → Worker × Shared
turn_of settings now c outcome w s = turn_if w.alive settings now c outcome w s

-- The tests of the waiting loop.
abbrev pub leaves_if : Bool → Phase → Phase
leaves_if true waiting = finishing
leaves_if _ phase = phase

abbrev pub after_round : System → System
after_round y = record y {
  phase = leaves_if (y.shared.stop || (not y.ingest.alive && not y.trade.alive)) y.phase;
}

-- The first interrupt is caught while the main thread waits, and `stop` is set; one that comes
-- while it waits for the workers to finish is not caught.
abbrev pub interrupt_at : Phase → System → System
interrupt_at waiting y = record y { shared = record y.shared { stop = true }; phase = handling }
interrupt_at handling y = record y { phase = broken }
interrupt_at finishing y = record y { phase = broken }
interrupt_at broken y = y

unfoldable pub step : Settings → Action → System → System
unfolding iterate
step settings (turn ingestion now outcome) y =
    let (w, s) = turn_of settings now ingestion outcome y.ingest y.shared in
    record y { ingest = w; shared = s }
step settings (turn trading now outcome) y =
    let (w, s) = turn_of settings now trading outcome y.trade y.shared in
    record y { trade = w; shared = s }
step settings check y = after_round y
step settings interrupt y = interrupt_at y.phase y

unfoldable pub run : Settings → List Action → System → System
unfolding step
run settings [] y = y
run settings (a ∷ as_left) y = run settings as_left (step settings a y)

-- How `run_supervisor` ends: it returns, or raises the exception of a component, or a
-- RuntimeError of both, or the KeyboardInterrupt.
pub data Ending : Type 0 where
  returns keyboard_interrupt : Ending
  raises : Failure → Ending
  both_failed : Failure → Failure → Ending

abbrev pub kind_of : Option Failure → Option String
kind_of none = none
kind_of (some failure) = some failure.kind

-- `_record_supervisor_stopped`
abbrev pub record_stopped : System → System
record_stopped y = record y {
  shared =
      record_event (supervisor_stopped (kind_of y.ingest.error) (kind_of y.trade.error)) y.shared;
}

abbrev pub raise_errors : Option Failure → Option Failure → System → System × Ending
raise_errors (some failure) none y = (y, raises failure)
raise_errors none (some failure) y = (y, raises failure)
raise_errors (some failure) (some other) y = (y, both_failed failure other)
raise_errors none none y = (record_stopped y, returns)

-- What follows when both threads have ended: one that still waits leaves its loop.
abbrev pub conclude_as : Phase → System → System × Ending
conclude_as waiting y = raise_errors y.ingest.error y.trade.error y
conclude_as handling y = (record_stopped y, returns)
conclude_as finishing y = raise_errors y.ingest.error y.trade.error y
conclude_as broken y = (y, keyboard_interrupt)

unfoldable pub conclude : System → System × Ending
conclude y = conclude_as y.phase y

-- `run_supervisor`, with the turns that the threads take.
unfoldable pub run_supervisor :
    Settings
    → (ingest_interval trade_interval : ℕ) → Entries
    → List Action
    → Result (System × Ending)
unfolding run conclude
run_supervisor settings ingest_interval trade_interval entries actions =
    if ltb ingest_interval 1
    then err value_error
    else if ltb trade_interval 1
    then err value_error
    else ok (conclude (run settings actions (started entries)))

-- The turns of a component in a list of actions.
abbrev pub same_component : Component → Component → Bool
same_component ingestion ingestion = true
same_component trading trading = true
same_component _ _ = false

unfoldable pub turns : Component → List Action → ℕ
turns c [] = 0
turns c (turn d now outcome ∷ rest) =
    if same_component c d then suc (turns c rest) else turns c rest
turns c (check ∷ rest) = turns c rest
turns c (interrupt ∷ rest) = turns c rest
