-- ===== src/Runtime/Supervisor/Restarts.antt =====
-- How often a worker runs its component, and when it gives up.
use crypto_ai_trader.Base.{
  ℕ, ◌+◌, ◌≤◌, ◌≡◌, ◌<◌, ◌∙◌, ◌⊎◌, inl, inr, refl, arith, Bool, Bool-cases, none, some, true, false,
  ◌||◌, ltb, not, if◌then◌else◌,
}
use crypto_ai_trader.Strategies.Base.{Time}
use crypto_ai_trader.Runtime.Supervisor.{
  Component, Failure, Outcome, returned, raised, Worker, Shared, Settings, can_restart, notify_if,
  record_component_error, record_cooldown, becomes_exhausted, after_return, record_event,
  restart_attempted, restart_exhausted, restart, give_up, after_run, iterate,
}

-- A worker whose thread lives has run its component once before each restart, and is about to
-- run it again whatever the stop event says. One that has given up has used up its restarts, and
-- the supervisor is stopping.
abbrev pub IsSound : Settings → Bool → Worker → Type 0
IsSound settings stop w =
    (w.restart_count ≤ settings.max_restarts)
    × (w.runs ≤ settings.max_restarts + 1)
    × ((w.alive ≡ true)
        → (w.error ≡ none)
          × (w.exhausted ≡ false)
          × (w.runs ≡ w.restart_count)
          × (w.first_iteration || w.had_crash ≡ true))
    × ((w.alive ≡ false)
        → ((w.error ≡ none) × (w.exhausted ≡ false))
          ⊎ ((failure : Failure) × (w.error ≡ some failure)
              × (w.exhausted ≡ true)
              × (w.runs ≡ settings.max_restarts + 1)
              × (stop ≡ true)))

notify_if-stop :
    (notify : Bool) (c : Component) (failure : Failure) (s : Shared)
    → (notify_if notify c failure s).stop ≡ s.stop
notify_if-stop true c failure s = refl
notify_if-stop false c failure s = refl

record_component_error-stop :
    (settings : Settings) (now : Time) (c : Component) (failure : Failure) (s : Shared)
    → (record_component_error settings now c failure s).stop ≡ s.stop
unfolding record_component_error
record_component_error-stop settings now c failure s = notify_if-stop _ c failure _

record_cooldown-stop :
    (settings : Settings) (c : Component) (attempt : ℕ) (s : Shared)
    → (record_cooldown settings c attempt s).stop ≡ s.stop
record_cooldown-stop settings c attempt s = elim (Bool-cases (ltb 0 settings.cooldown_seconds)) [
  | inl waits ↦ rw waits refl
  | inr at_once ↦ rw at_once refl
]

-- After a run of a sound worker, of which `w` is the state in the loop's body.
abbrev IsNext : Settings → Worker → Shared → Worker × Shared → Type 0
IsNext settings w s (v, t) =
    IsSound settings t.stop v × (v.runs ≡ w.runs) × ((s.stop ≡ true) → (t.stop ≡ true))

-- The worker in the loop's body, before what follows the run.
abbrev IsRunning : Settings → Worker → Type 0
IsRunning settings w =
    (w.restart_count ≤ settings.max_restarts)
    × (w.alive ≡ true)
    × (w.error ≡ none)
    × (w.exhausted ≡ false)
    × (w.runs ≡ w.restart_count + 1)

after_return-IsNext :
    (settings : Settings) (c : Component) (is_retry : Bool) (w : Worker) (s : Shared)
    → IsRunning settings w
    → IsNext settings w s (after_return c is_retry w s)
after_return-IsNext settings c true w s (few, lives, well, fresh, counted) =
    ((omega arith, omega arith, λ e. absurd (ground arith), λ e. inl (well, fresh)), refl, λ e. e)
after_return-IsNext settings c false w s (few, lives, well, fresh, counted) =
    ((omega arith, omega arith, λ e. absurd (ground arith), λ e. inl (well, fresh)), refl, λ e. e)

restart-IsNext :
    (settings : Settings) (c : Component) (failure : Failure) (w : Worker) (s : Shared)
    → can_restart settings w ≡ true
    → IsRunning settings w
    → IsNext settings w s (restart settings c failure w s)
restart-IsNext settings c failure w s may (few, lives, well, fresh, counted) =
    let room : w.restart_count < settings.max_restarts = ground arith in
    let kept =
      record_cooldown-stop settings c (w.restart_count + 1)
        (record_event (restart_attempted c (w.restart_count + 1) failure.text false) s) in
    (
      (
        omega arith,
        omega arith,
        λ _. (well, fresh, counted, ground arith),
        λ ended. absurd (ground arith),
      ),
      refl,
      λ stops. kept ∙ stops,
    )

give_up-IsNext :
    (settings : Settings) (now : Time) (c : Component) (failure : Failure) (w : Worker) (s : Shared)
    → can_restart settings w ≡ false
    → IsRunning settings w
    → IsNext settings w s (give_up settings now c failure w s)
give_up-IsNext settings now c failure w s spent (few, lives, well, fresh, counted) =
    let full : settings.max_restarts ≤ w.restart_count = ground arith in
    let exhausting : becomes_exhausted settings w ≡ true = ground arith in
    let stops =
      record_component_error-stop settings now c failure
        (record (if becomes_exhausted settings w
          then record_event (restart_exhausted c w.restart_count failure.text) s
          else s) { stop = true }) in
    (
      (
        few,
        omega arith,
        λ e. absurd (ground arith),
        λ _. inr (failure, refl, rw exhausting refl, omega arith, stops),
      ),
      refl,
      λ _. stops,
    )

after_run-IsNext :
    (settings : Settings) (now : Time) (c : Component) (is_retry : Bool) (outcome : Outcome)
    (w : Worker) (s : Shared)
    → IsRunning settings w
    → IsNext settings w s (after_run settings now c is_retry outcome w s)
after_run-IsNext settings now c is_retry returned w s running =
    after_return-IsNext settings c is_retry w s running
after_run-IsNext settings now c is_retry (raised failure) w s running =
    elim (Bool-cases (can_restart settings w)) [
      | inl may ↦ rw may (restart-IsNext settings c failure w s may running)
      | inr spent ↦ rw spent (give_up-IsNext settings now c failure w s spent running)
    ]

-- A turn of a living sound worker runs its component once more, and leaves a sound worker.
pub iterate-IsSound :
    (settings : Settings) (now : Time) (c : Component) (outcome : Outcome) (w : Worker) (s : Shared)
    → w.alive ≡ true
    → IsSound settings s.stop w
    → let (v, t) = iterate settings now c outcome w s in
      IsSound settings t.stop v × (v.runs ≡ w.runs + 1) × ((s.stop ≡ true) → (t.stop ≡ true))
unfolding iterate
iterate-IsSound settings now c outcome w s lives (few, _, living, _) =
    let (well, fresh, counted, starts) = living lives in
    let runs_again : (w.first_iteration || w.had_crash || not s.stop) ≡ true = ground arith in
    let body : Worker = record w {
      first_iteration = false;
      had_crash = false;
      runs = w.runs + 1;
    } in
    simp runs_again (
      after_run-IsNext settings now c w.had_crash outcome body s
        (few, lives, well, fresh, omega arith))
