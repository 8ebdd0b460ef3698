-- ===== src/Dashboard/Restarts/Turns.antt =====
-- What a turn of a thread of the supervisor leaves in the log.
use mathlib.Core.Path.{subst}
use crypto_ai_trader.Base.{
  ℕ, ◌+◌, ◌≡◌, refl, sym, ap, ◌∙◌, arith, inl, inr, List, ◌∷◌, none, some, Bool, true, false, ltb,
  not, ◌||◌, if◌then◌else◌, Bool-cases,
}
use crypto_ai_trader.Strategies.Base.{Time}
use crypto_ai_trader.Notifications.Dedup.{should_notify}
use crypto_ai_trader.Runtime.Supervisor.{
  Component, ingestion, trading, Event, Failure, Outcome, returned, raised, Worker, Shared,
  Settings, component_name, component_error, restart_attempted, restart_exhausted, record_event,
  record_cooldown, notify_if, record_component_error, can_restart, becomes_exhausted, restart,
  give_up, after_return, after_run, iterate,
}
use crypto_ai_trader.Runtime.Supervisor.System.{turn_if}
use crypto_ai_trader.Dashboard.Restarts.{or_false}
use crypto_ai_trader.Dashboard.Restarts.Newest.{newest}

-- The newest verdict on a component is that it is exhausted exactly when its worker is, and then
-- the thread of the worker has ended.
abbrev pub Tells : Component → List Event → Worker → Type 0
Tells c es w = (or_false (newest c es) ≡ w.exhausted) × ((w.exhausted ≡ true) → (w.alive ≡ false))

abbrev pub other_of : Component → Component
other_of ingestion = trading
other_of trading = ingestion

-- What a turn of `c` leaves in the log, for both components.
abbrev pub Turns : Component → List Event → Worker × Shared → Type 0
Turns c before (w, s) =
    Tells c s.events w × (newest (other_of c) s.events ≡ newest (other_of c) before)

notify_if-events :
    (notify : Bool) (c : Component) (failure : Failure) (s : Shared)
    → (notify_if notify c failure s).events ≡ s.events
notify_if-events true c failure s = refl
notify_if-events false c failure s = refl

record_component_error-newest :
    (settings : Settings) (now : Time) (c d : Component) (failure : Failure) (s : Shared)
    → newest c (record_component_error settings now d failure s).events ≡ newest c s.events
unfolding record_component_error newest
record_component_error-newest settings now c d failure s =
    let (entries, notify) =
      should_notify settings.dedup_window now "supervisor_component_error" (component_name d) none
        s.entries in
    ap (newest c) (
      notify_if-events notify d failure
        (record s { events = component_error d failure ∷ s.events; entries = entries }))

abbrev spent_state : Bool → Component → Worker → Failure → Shared → Shared
spent_state spent c w failure s =
    if spent then record_event (restart_exhausted c w.restart_count failure.text) s else s

exhausted-newest :
    (c : Component) (w : Worker) (failure : Failure) (s : Shared)
    → (newest c (spent_state true c w failure s).events ≡ some true)
      × (newest (other_of c) (spent_state true c w failure s).events ≡ newest (other_of c) s.events)
unfolding newest
exhausted-newest ingestion w failure s = (refl, refl)
exhausted-newest trading w failure s = (refl, refl)

give_up-Turns :
    (settings : Settings) (now : Time) (c : Component) (failure : Failure) (w : Worker) (s : Shared)
    → w.exhausted ≡ false
    → can_restart settings w ≡ false
    → Turns c s.events (give_up settings now c failure w s)
unfolding newest
give_up-Turns settings now c failure w s fresh spent =
    let used_up : becomes_exhausted settings w ≡ true = ground arith in
    let logged = λ (d : Component).
      record_component_error-newest settings now d c failure
        (record (spent_state (becomes_exhausted settings w) c w failure s) { stop = true })
      ∙ ap (λ b. newest d (spent_state b c w failure s).events) used_up in
    let flag : (if becomes_exhausted settings w then true else w.exhausted) ≡ true =
      ap (λ (b : Bool). if b then true else w.exhausted) used_up in
    (
      (ap or_false (logged c ∙ (exhausted-newest c w failure s).0) ∙ sym flag, λ e. refl),
      logged (other_of c) ∙ (exhausted-newest c w failure s).1,
    )

after_return-Turns :
    (c : Component) (is_retry : Bool) (w : Worker) (s : Shared)
    → w.exhausted ≡ false
    → Tells c s.events w
    → Turns c s.events (after_return c is_retry w s)
unfolding newest
after_return-Turns ingestion true w s fresh told = ((sym fresh, λ e. refl), refl)
after_return-Turns trading true w s fresh told = ((sym fresh, λ e. refl), refl)
after_return-Turns c false w s fresh told = ((told.0, λ e. refl), refl)

record_cooldown-newest :
    (settings : Settings) (c d : Component) (attempt : ℕ) (s : Shared)
    → newest d (record_cooldown settings c attempt s).events ≡ newest d s.events
unfolding newest
record_cooldown-newest settings c d attempt s =
    elim (Bool-cases (ltb 0 settings.cooldown_seconds)) [
      | inl waits ↦ simp waits refl
      | inr at_once ↦ simp at_once refl
    ]

restart-Turns :
    (settings : Settings) (c : Component) (failure : Failure) (w : Worker) (s : Shared)
    → Tells c s.events w
    → Turns c s.events (restart settings c failure w s)
unfolding newest
restart-Turns settings c failure w s told =
    let attempt = w.restart_count + 1 in
    let logged = λ (d : Component).
      record_cooldown-newest settings c d attempt
        (record_event (restart_attempted c attempt failure.text false) s) in
    ((ap or_false (logged c) ∙ told.0, told.1), logged (other_of c))

abbrev turn_by : Bool → Settings → Time → Component → Failure → Worker → Shared → Worker × Shared
turn_by again settings now c failure w s =
    if again then restart settings c failure w s else give_up settings now c failure w s

after_run-Turns :
    (settings : Settings) (now : Time) (c : Component) (is_retry : Bool) (outcome : Outcome)
    (w : Worker) (s : Shared)
    → w.exhausted ≡ false
    → Tells c s.events w
    → Turns c s.events (after_run settings now c is_retry outcome w s)
after_run-Turns settings now c is_retry returned w s fresh told =
    after_return-Turns c is_retry w s fresh told
after_run-Turns settings now c is_retry (raised failure) w s fresh told =
    elim (Bool-cases (can_restart settings w)) [
      | inl again ↦
          subst (λ b. Turns c s.events (turn_by b settings now c failure w s)) (sym again)
            (restart-Turns settings c failure w s told)
      | inr spent ↦
          subst (λ b. Turns c s.events (turn_by b settings now c failure w s)) (sym spent)
            (give_up-Turns settings now c failure w s fresh spent)
    ]

iterate-Turns :
    (settings : Settings) (now : Time) (c : Component) (outcome : Outcome) (w : Worker) (s : Shared)
    → w.exhausted ≡ false
    → Tells c s.events w
    → Turns c s.events (iterate settings now c outcome w s)
unfolding iterate
iterate-Turns settings now c outcome w s fresh told =
    let next : Worker = record w {
      first_iteration = false;
      had_crash = false;
      runs = w.runs + 1;
    } in
    let by : Bool → Worker × Shared = λ again.
      if again
      then after_run settings now c w.had_crash outcome next s
      else (record w { alive = false }, s) in
    elim (Bool-cases (w.first_iteration || w.had_crash || not s.stop)) [
      | inl again ↦
          subst (λ b. Turns c s.events (by b)) (sym again)
            (after_run-Turns settings now c w.had_crash outcome next s fresh told)
      | inr stopped ↦ subst (λ b. Turns c s.events (by b)) (sym stopped) ((told.0, λ e. refl), refl)
    ]

pub turn_if-Turns :
    (alive : Bool) (settings : Settings) (now : Time) (c : Component) (outcome : Outcome)
    (w : Worker) (s : Shared)
    → w.alive ≡ alive
    → Tells c s.events w
    → Turns c s.events (turn_if alive settings now c outcome w s)
turn_if-Turns false settings now c outcome w s ended told = (told, refl)
turn_if-Turns true settings now c outcome w s lives told = elim (Bool-cases w.exhausted) [
  | inl spent ↦ cc (told.1 spent)
  | inr fresh ↦ iterate-Turns settings now c outcome w s fresh told
]
