-- ===== src/Dashboard/Restarts/Exhaustion.antt =====
-- The flags of the status page against the supervisor's own state.
use crypto_ai_trader.Base.{
  ◌≤◌, ◌≡◌, refl, sym, inl, inr, Bool, true, false, Bool-cases, if◌then◌else◌, ap, ◌∙◌, arith, List,
  [], ◌∷◌, map, Option, length, take-all,
}
use crypto_ai_trader.Strategies.Base.{Time}
use crypto_ai_trader.Notifications.Dedup.{Entries}
use crypto_ai_trader.Runtime.Supervisor.{Component, ingestion, trading, Event, Settings}
use crypto_ai_trader.Runtime.Supervisor.System.{
  Phase, waiting, handling, finishing, broken, System, Action, turn, check, interrupt, interrupt_at,
  started, step, run,
}
use crypto_ai_trader.Runtime.Supervisor.Schedule.{worker_of}
use crypto_ai_trader.Dashboard.Events.{
  EventType, cycle_started, cycle_finished, cycle_error, supervisor_heartbeat,
  supervisor_component_error, heartbeat_lost, heartbeat_recovered, component_restart_attempted,
  component_restart_succeeded, component_restart_exhausted, other, EventRow, list_recent,
}
use crypto_ai_trader.Dashboard.Restarts.{
  RestartScan, note_restart, scan_restarts, no_restarts, restarts_of, or_false, shows_exhausted,
}
use crypto_ai_trader.Dashboard.Restarts.Turns.{Tells, turn_if-Turns}
use crypto_ai_trader.Dashboard.Restarts.Newest.{as_row, newest, shows_exhausted-newest}

-- The log tells of both workers.
abbrev TellsSystem : System → Type 0
TellsSystem y = (c : Component) → Tells c y.shared.events (worker_of c y)

interrupt_at-TellsSystem :
    (phase : Phase) (y : System) → TellsSystem y → TellsSystem (interrupt_at phase y)
interrupt_at-TellsSystem waiting y told ingestion = told ingestion
interrupt_at-TellsSystem waiting y told trading = told trading
interrupt_at-TellsSystem handling y told ingestion = told ingestion
interrupt_at-TellsSystem handling y told trading = told trading
interrupt_at-TellsSystem finishing y told ingestion = told ingestion
interrupt_at-TellsSystem finishing y told trading = told trading
interrupt_at-TellsSystem broken y told ingestion = told ingestion
interrupt_at-TellsSystem broken y told trading = told trading

step-TellsSystem :
    (settings : Settings) (a : Action) (y : System)
    → TellsSystem y
    → TellsSystem (step settings a y)
unfolding step
step-TellsSystem settings (turn ingestion now outcome) y told ingestion =
    (turn_if-Turns y.ingest.alive settings now ingestion outcome y.ingest y.shared refl
      (told ingestion)).0
step-TellsSystem settings (turn ingestion now outcome) y told trading =
    let (_, kept) =
      turn_if-Turns y.ingest.alive settings now ingestion outcome y.ingest y.shared refl
        (told ingestion) in
    (ap or_false kept ∙ (told trading).0, (told trading).1)
step-TellsSystem settings (turn trading now outcome) y told trading =
    (turn_if-Turns y.trade.alive settings now trading outcome y.trade y.shared refl
      (told trading)).0
step-TellsSystem settings (turn trading now outcome) y told ingestion =
    let (_, kept) =
      turn_if-Turns y.trade.alive settings now trading outcome y.trade y.shared refl
        (told trading) in
    (ap or_false kept ∙ (told ingestion).0, (told ingestion).1)
step-TellsSystem settings check y told ingestion = told ingestion
step-TellsSystem settings check y told trading = told trading
step-TellsSystem settings interrupt y told c = interrupt_at-TellsSystem y.phase y told c

run-TellsSystem :
    (settings : Settings) (actions : List Action) (y : System)
    → TellsSystem y
    → TellsSystem (run settings actions y)
unfolding run
run-TellsSystem settings [] y told = told
run-TellsSystem settings (a ∷ rest) y told =
    run-TellsSystem settings rest (step settings a y) (step-TellsSystem settings a y told)

started-TellsSystem : (entries : Entries) → TellsSystem (started entries)
unfolding newest
started-TellsSystem entries ingestion = (refl, λ e. cc)
started-TellsSystem entries trading = (refl, λ e. cc)

-- The types that the loop over the events does not skip.
abbrev pub is_restart : EventType → Bool
is_restart component_restart_attempted = true
is_restart component_restart_succeeded = true
is_restart component_restart_exhausted = true
is_restart _ = false

-- The restart events of a log.
unfoldable pub restart_rows : List EventRow → List EventRow
restart_rows [] = []
restart_rows (row ∷ rows) =
    let rest = restart_rows rows in if is_restart row.event_type then row ∷ rest else rest

note_restart-other :
    (now : Time) (kind : EventType) (row : EventRow) (s : RestartScan)
    → is_restart kind ≡ false
    → note_restart now kind row s ≡ s
note_restart-other now cycle_started row s h = refl
note_restart-other now cycle_finished row s h = refl
note_restart-other now cycle_error row s h = refl
note_restart-other now supervisor_heartbeat row s h = refl
note_restart-other now supervisor_component_error row s h = refl
note_restart-other now heartbeat_lost row s h = refl
note_restart-other now heartbeat_recovered row s h = refl
note_restart-other now component_restart_attempted row s h = absurd (ground arith)
note_restart-other now component_restart_succeeded row s h = absurd (ground arith)
note_restart-other now component_restart_exhausted row s h = absurd (ground arith)
note_restart-other now (other name) row s h = refl

scan_restarts-restart_rows :
    (now : Time) (rows : List EventRow) (s : RestartScan)
    → scan_restarts now rows s ≡ scan_restarts now (restart_rows rows) s
unfolding scan_restarts restart_rows
scan_restarts-restart_rows now [] s = refl
scan_restarts-restart_rows now (row ∷ rows) s = elim (Bool-cases (is_restart row.event_type)) [
  | inl mine ↦ rw mine (scan_restarts-restart_rows now rows (note_restart now row.event_type row s))
  | inr foreign ↦
      ap (scan_restarts now rows) (note_restart-other now row.event_type row s foreign)
      ∙ (rw foreign (scan_restarts-restart_rows now rows s))
]

shows_exhausted-restart_rows :
    (now : Time) (c : Component) (rows : List EventRow)
    → shows_exhausted now c rows ≡ shows_exhausted now c (restart_rows rows)
unfolding shows_exhausted
shows_exhausted-restart_rows now c rows =
    ap (λ s. or_false (restarts_of c s).exhausted) (scan_restarts-restart_rows now rows no_restarts)

-- After any turns of the supervisor's threads the status page shows a component as exhausted
-- exactly when its worker has used up its restarts. The table of events may hold any other events
-- between those of the supervisor, such as heartbeats and the events of cycles; the conditions are
-- that it holds no more rows than the page reads, 500, and that its restart events are those of
-- this run of the supervisor. It holds at whatever time, and whatever times the events bear.
pub run-shows_exhausted :
    (settings : Settings) (entries : Entries) (actions : List Action) (now : Time)
    (stamp : Event → Option Time) (c : Component) (rows : List EventRow)
    → let y = run settings actions (started entries) in
      length rows ≤ 500
      → restart_rows rows ≡ restart_rows (map (as_row stamp) y.shared.events)
      → shows_exhausted now c (list_recent 500 rows) ≡ (worker_of c y).exhausted
run-shows_exhausted settings entries actions now stamp c rows few same =
    let y = run settings actions (started entries) in
    let told = run-TellsSystem settings actions (started entries) (started-TellsSystem entries) in
    ap (shows_exhausted now c) (take-all 500 rows few)
    ∙ (shows_exhausted-restart_rows now c rows
        ∙ (ap (shows_exhausted now c) same
            ∙ (sym (shows_exhausted-restart_rows now c (map (as_row stamp) y.shared.events))
                ∙ (shows_exhausted-newest now stamp c y.shared.events ∙ (told c).0))))
