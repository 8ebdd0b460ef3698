-- ===== src/Runtime/Supervisor/Schedule.antt =====
-- The threads end, in every order of their turns.
use crypto_ai_trader.Base.{
  ℕ, ◌+◌, ◌≤◌, ◌≡◌, ◌≢◌, inl, inr, refl, arith, Bool, Bool-cases, none, true, false, List, [], ◌∷◌,
}
use crypto_ai_trader.Strategies.Base.{Time}
use crypto_ai_trader.Notifications.Dedup.{Entries}
use crypto_ai_trader.Runtime.Supervisor.{
  Component, ingestion, trading, Outcome, Worker, Shared, Settings,
}
use crypto_ai_trader.Runtime.Supervisor.System.{
  Phase, waiting, handling, finishing, broken, System, Action, turn, check, interrupt, interrupt_at,
  started, turn_if, step, run, turns,
}
use crypto_ai_trader.Runtime.Supervisor.Restarts.{IsSound, iterate-IsSound}

abbrev pub worker_of : Component → System → Worker
worker_of ingestion y = y.ingest
worker_of trading y = y.trade

-- Both workers are sound.
abbrev pub IsSoundSystem : Settings → System → Type 0
IsSoundSystem settings y = (c : Component) → IsSound settings y.shared.stop (worker_of c y)

-- If the thread lives in the second state, it did in the first, and took `n` runs in between.
abbrev IsCounted : Worker → Worker → ℕ → Type 0
IsCounted w v n = (v.alive ≡ true) → (w.alive ≡ true) × (v.runs ≡ w.runs + n)

IsSound-mono :
    (settings : Settings) (w : Worker) (stop stop' : Bool)
    → ((stop ≡ true) → (stop' ≡ true))
    → IsSound settings stop w
    → IsSound settings stop' w
IsSound-mono settings w stop stop' mono (few, bound, living, ended) = (
  few,
  bound,
  living,
  λ e. elim (ended e) [
    | inl well ↦ inl well
    | inr (failure, error, spent, counted, stops) ↦ inr (failure, error, spent, counted, mono stops)
  ],
)

turn_if-IsSound :
    (alive : Bool) (settings : Settings) (now : Time) (c : Component) (outcome : Outcome)
    (w : Worker) (s : Shared)
    → w.alive ≡ alive
    → IsSound settings s.stop w
    → let (v, t) = turn_if alive settings now c outcome w s in
      IsSound settings t.stop v × IsCounted w v 1 × ((s.stop ≡ true) → (t.stop ≡ true))
turn_if-IsSound true settings now c outcome w s lives sound =
    let (next, counted, mono) = iterate-IsSound settings now c outcome w s lives sound in
    (next, λ _. (lives, counted), mono)
turn_if-IsSound false settings now c outcome w s ended sound =
    (sound, λ lives. absurd (ground arith), λ stops. stops)

-- What an action does to the worker of `c`.
abbrev IsStep : Settings → Action → System → Component → Type 0
IsStep settings a y c =
    let z = step settings a y in
    IsSound settings z.shared.stop (worker_of c z)
    × IsCounted (worker_of c y) (worker_of c z) (turns c (a ∷ []))

-- An interrupt leaves the workers alone.
interrupt_at-kept :
    (settings : Settings) (phase : Phase) (y : System) (c : Component)
    → IsSoundSystem settings y
    → let z = interrupt_at phase y in
      IsSound settings z.shared.stop (worker_of c z) × IsCounted (worker_of c y) (worker_of c z) 0
interrupt_at-kept settings waiting y ingestion sound = (
  IsSound-mono settings y.ingest _ true (λ _. refl) (sound ingestion),
  λ lives. (lives, omega arith),
)
interrupt_at-kept settings waiting y trading sound = (
  IsSound-mono settings y.trade _ true (λ _. refl) (sound trading),
  λ lives. (lives, omega arith),
)
interrupt_at-kept settings handling y ingestion sound =
    (sound ingestion, λ lives. (lives, omega arith))
interrupt_at-kept settings handling y trading sound = (sound trading, λ lives. (lives, omega arith))
interrupt_at-kept settings finishing y ingestion sound =
    (sound ingestion, λ lives. (lives, omega arith))
interrupt_at-kept settings finishing y trading sound =
    (sound trading, λ lives. (lives, omega arith))
interrupt_at-kept settings broken y ingestion sound =
    (sound ingestion, λ lives. (lives, omega arith))
interrupt_at-kept settings broken y trading sound = (sound trading, λ lives. (lives, omega arith))

IsStep-IsSound :
    (settings : Settings) (a : Action) (y : System) (c : Component)
    → IsSoundSystem settings y
    → IsStep settings a y c
unfolding step turns
IsStep-IsSound settings (turn ingestion now outcome) y ingestion sound =
    let (next, counted, _) =
      turn_if-IsSound y.ingest.alive settings now ingestion outcome y.ingest y.shared refl
        (sound ingestion) in
    (next, counted)
IsStep-IsSound settings (turn ingestion now outcome) y trading sound =
    let (_, _, mono) =
      turn_if-IsSound y.ingest.alive settings now ingestion outcome y.ingest y.shared refl
        (sound ingestion) in
    (IsSound-mono settings y.trade _ _ mono (sound trading), λ lives. (lives, omega arith))
IsStep-IsSound settings (turn trading now outcome) y trading sound =
    let (next, counted, _) =
      turn_if-IsSound y.trade.alive settings now trading outcome y.trade y.shared refl
        (sound trading) in
    (next, counted)
IsStep-IsSound settings (turn trading now outcome) y ingestion sound =
    let (_, _, mono) =
      turn_if-IsSound y.trade.alive settings now trading outcome y.trade y.shared refl
        (sound trading) in
    (IsSound-mono settings y.ingest _ _ mono (sound ingestion), λ lives. (lives, omega arith))
IsStep-IsSound settings check y ingestion sound = (sound ingestion, λ lives. (lives, omega arith))
IsStep-IsSound settings check y trading sound = (sound trading, λ lives. (lives, omega arith))
IsStep-IsSound settings interrupt y c sound = interrupt_at-kept settings y.phase y c sound

turns-cons :
    (c : Component) (a : Action) (rest : List Action)
    → turns c (a ∷ rest) ≡ turns c (a ∷ []) + turns c rest
unfolding turns
turns-cons ingestion (turn ingestion now outcome) rest = omega arith
turns-cons ingestion (turn trading now outcome) rest = omega arith
turns-cons trading (turn ingestion now outcome) rest = omega arith
turns-cons trading (turn trading now outcome) rest = omega arith
turns-cons c check rest = omega arith
turns-cons c interrupt rest = omega arith

run-IsSound :
    (settings : Settings) (actions : List Action) (y : System)
    → IsSoundSystem settings y
    → let z = run settings actions y in
      IsSoundSystem settings z
      × ((c : Component) → IsCounted (worker_of c y) (worker_of c z) (turns c actions))
unfolding run turns
run-IsSound settings [] y sound = (sound, λ c. λ lives. (lives, omega arith))
run-IsSound settings (a ∷ rest) y sound =
    let next : (c : Component) → IsStep settings a y c = λ c. IsStep-IsSound settings a y c sound in
    let (last, counted) = run-IsSound settings rest (step settings a y) (λ c. (next c).0) in
    (
      last,
      λ c. λ lives.
          let (lived, later) = counted c lives in
          let (before, earlier) = (next c).1 lived in
          (before, omega (arith, turns-cons c a rest, later, earlier)),
    )

started-IsSound :
    (settings : Settings) (entries : Entries) → IsSoundSystem settings (started entries)
started-IsSound settings entries ingestion =
    (omega arith, omega arith, λ _. (refl, refl, refl, refl), λ e. absurd (ground arith))
started-IsSound settings entries trading =
    (omega arith, omega arith, λ _. (refl, refl, refl, refl), λ e. absurd (ground arith))

started-runs : (entries : Entries) (c : Component) → (worker_of c (started entries)).runs ≡ 0
started-runs entries ingestion = refl
started-runs entries trading = refl

-- In every order of turns, a component runs at most once more often than it may be restarted, and
-- its thread has ended when it has taken that many turns: the stop event is not needed for that.
-- A thread with an exception has used up its restarts, and the stop event is set.
pub run_ends :
    (settings : Settings) (entries : Entries) (actions : List Action) (c : Component)
    → let z = run settings actions (started entries) in
      let w = worker_of c z in
      (w.runs ≤ settings.max_restarts + 1)
      × ((settings.max_restarts + 1 ≤ turns c actions) → (w.alive ≡ false))
      × ((w.error ≢ none)
          → (w.alive ≡ false) × (w.runs ≡ settings.max_restarts + 1) × (z.shared.stop ≡ true))
run_ends settings entries actions c =
    let (sound, counted) =
      run-IsSound settings actions (started entries) (started-IsSound settings entries) in
    let (few, bound, living, ended) = sound c in
    (
      bound,
      λ enough. elim (Bool-cases (worker_of c (run settings actions (started entries))).alive) [
        | inl lives ↦
            let (_, later) = counted c lives in
            let (_, _, restarts, _) = living lives in absurd (omega (arith, started-runs entries c))
        | inr over ↦ over
      ],
      λ failed. elim (Bool-cases (worker_of c (run settings actions (started entries))).alive) [
        | inl lives ↦ absurd (failed (living lives).0)
        | inr over ↦ elim (ended over) [
          | inl well ↦ absurd (failed well.0)
          | inr (failure, error, spent, all_runs, stops) ↦ (over, all_runs, stops)
        ]
      ],
    )
