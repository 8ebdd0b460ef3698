-- ===== src/Dashboard/ReleaseGate/Readiness.antt =====
-- The conditions of the release gate, in terms of what was recorded.
use crypto_ai_trader.Base.{
  ◌≡◌, ◌≢◌, ◌⊎◌, ◌↔◌, inl, inr, refl, arith, String, List, Option, none, some, Bool, true, false,
  not, ◌&&◌, Option-cases, Result, ok,
}
use crypto_ai_trader.Decimal.{Decimal}
use crypto_ai_trader.Strategies.Base.{Time}
use crypto_ai_trader.Execution.Gate.{TradeMode, paused, paper_auto, live_small_auto}
use crypto_ai_trader.Risk.State.{RiskState, global_pause, emergency_stop}
use crypto_ai_trader.Risk.PreFlight.{is_unset}
use crypto_ai_trader.Runtime.Mode.{validate_mode_transition}
use crypto_ai_trader.Runtime.Mode.Transitions.{mode_eq_iff, validate_mode_transition-allowed_iff}
use crypto_ai_trader.Runtime.ControlPlane.{get_trade_mode, get_live_trading_lock, Surroundings}
use crypto_ai_trader.Dashboard.Events.{supervisor_heartbeat, EventRow, list_recent, first_of}
use crypto_ai_trader.Dashboard.Health.{health_of, is_alerting}
use crypto_ai_trader.Dashboard.Health.Alerting.{OpenLoss, is_alerting_iff}
use crypto_ai_trader.Dashboard.Risk.{resolve_risk_info}
use crypto_ai_trader.Dashboard.ReleaseGate.Answers.{is_tradable, shadow_tests, dry_run_tests}
use crypto_ai_trader.Dashboard.Blocking.{is_dead}
use crypto_ai_trader.Dashboard.ReleaseGate.{GateRows, is_some, environment_of}

-- What live_shadow asks for.
pub ShadowReady : Time → GateRows → Type 0
ShadowReady now r =
    let events = list_recent 500 r.events in
    (¬ OpenLoss events)
    × ((health_of now events).supervisor_alive ≢ some false)
    × (get_trade_mode r.control ≢ live_small_auto)

-- What a dry run of live_small_auto asks for.
pub DryRunReady : (String → Result Decimal) → Surroundings → Time → GateRows → Type 0
DryRunReady decimal_of env now r =
    let mode = get_trade_mode r.control in
    let state = (resolve_risk_info decimal_of now r.risk).risk_state in
    (is_unset env.credentials.api_key ≡ false)
    × (is_unset env.credentials.api_secret ≡ false)
    × (env.allowed_symbols ≢ none)
    × (state ≢ none)
    × (state ≢ some global_pause)
    × (state ≢ some emergency_stop)
    × (¬ OpenLoss (list_recent 500 r.events))
    × ((mode ≡ live_small_auto)
        ⊎ ((mode ≢ paused)
            × (mode ≢ paper_auto)
            × ((get_live_trading_lock r.control).enabled ≡ true)))

-- The rows were read from a database that opens, and meet a condition.
abbrev pub Ready : (GateRows → Type 0) → Surroundings → Result GateRows → Type 0
Ready P env rows = (env.database_opens ≡ true) × ((r : GateRows) × (rows ≡ ok r) × P r)

health_of-alerting :
    (now : Time) (rows : List EventRow)
    → (health_of now rows).heartbeat_stale_alerting ≡ is_alerting rows
unfolding health_of
health_of-alerting now rows = elim (Option-cases (first_of supervisor_heartbeat rows)) [
  | inl silent ↦ rw silent refl
  | inr (row, e) ↦ rw e refl
]

not_iff : {P : Type 0} (b : Bool) → ((b ≡ true) ↔ P) → (not b ≡ true) ↔ (¬ P)
not_iff true h = (λ e. cc, λ e. absurd (e (h.0 refl)))
not_iff false h = (λ e p. cc (h.1 p), λ e. refl)

pub &&_iff :
    {P Q : Type 0} (a b : Bool) → ((a ≡ true) ↔ P) → ((b ≡ true) ↔ Q) → ((a && b) ≡ true) ↔ (P × Q)
&&_iff true b h k = (λ e. (h.0 refl, k.0 e), λ e. k.1 e.1)
&&_iff false b h k = (λ e. cc, λ e. cc (h.1 e.0))

is_dead_iff : (alive : Option Bool) → (is_dead alive ≡ true) ↔ (alive ≡ some false)
is_dead_iff alive = ground arith

is_set_iff : (text : Option String) → (not (is_unset text) ≡ true) ↔ (is_unset text ≡ false)
is_set_iff text = ground arith

is_some_iff {ℓ} : {A : Type ℓ} (o : Option A) → (is_some o ≡ true) ↔ (o ≢ none)
is_some_iff none = (λ e. cc, λ e. absurd (e refl))
is_some_iff (some a) = (λ e f. cc, λ e. refl)

is_tradable_iff :
    (risk : Option RiskState)
    → (is_tradable risk ≡ true)
      ↔ ((risk ≢ none) × (risk ≢ some global_pause) × (risk ≢ some emergency_stop))
is_tradable_iff risk = ground arith

pub shadow_tests_iff :
    (env : Surroundings) (now : Time) (r : GateRows)
    → (shadow_tests
          (environment_of env)
          (health_of now (list_recent 500 r.events))
          (get_trade_mode r.control)
        ≡ true)
      ↔ ShadowReady now r
unfolding ShadowReady
shadow_tests_iff env now r =
    let events = list_recent 500 r.events in
    let health = health_of now events in
    let tests =
      &&_iff _ _
        (&&_iff _ _ (not_iff _ (is_alerting_iff events))
          (not_iff _ (is_dead_iff health.supervisor_alive)))
        (not_iff _ (mode_eq_iff (get_trade_mode r.control) live_small_auto)) in
    rw (health_of-alerting now events) (
      λ e. let ((quiet, alive), elsewhere) = tests.0 e in (quiet, alive, elsewhere),
      λ (quiet, alive, elsewhere). tests.1 ((quiet, alive), elsewhere),
    )

moves_iff :
    (mode : TradeMode) (locked : Bool)
    → ((validate_mode_transition mode live_small_auto locked true).allowed ≡ true)
      ↔ ((mode ≡ live_small_auto) ⊎ ((mode ≢ paused) × (mode ≢ paper_auto) × (locked ≡ true)))
moves_iff mode locked =
    let rules = validate_mode_transition-allowed_iff mode live_small_auto locked true in
    (
      λ e. elim (rules.0 e) [
        | inl other ↦ absurd (other refl)
        | inr (inl same) ↦ inl same
        | inr (inr (a, b, unlocked, c)) ↦ inr (a, b, c)
      ],
      λ h. elim h [
        | inl same ↦ rules.1 (inr (inl same))
        | inr (a, b, c) ↦ rules.1 (inr (inr (a, b, refl, c)))
      ],
    )

pub dry_run_tests_iff :
    (decimal_of : String → Result Decimal) (env : Surroundings) (now : Time) (r : GateRows)
    → (dry_run_tests
          (environment_of env)
          (health_of now (list_recent 500 r.events))
          (validate_mode_transition
            (get_trade_mode r.control)
            live_small_auto
            (get_live_trading_lock r.control).enabled
            true)
          (resolve_risk_info decimal_of now r.risk).risk_state
        ≡ true)
      ↔ DryRunReady decimal_of env now r
unfolding DryRunReady
dry_run_tests_iff decimal_of env now r =
    let events = list_recent 500 r.events in
    let state = (resolve_risk_info decimal_of now r.risk).risk_state in
    let tests =
      &&_iff _ _
        (&&_iff _ _
          (&&_iff _ _
            (&&_iff _ _
              (&&_iff _ _ (is_set_iff env.credentials.api_key)
                (is_set_iff env.credentials.api_secret))
              (is_some_iff env.allowed_symbols))
            (is_tradable_iff state))
          (not_iff _ (is_alerting_iff events)))
        (moves_iff (get_trade_mode r.control) (get_live_trading_lock r.control).enabled) in
    rw (health_of-alerting now events) (
      λ e.
          let (((((key, secret), listed), (known, paused_not, stopped_not)), quiet), move) =
            tests.0 e in
          (key, secret, listed, known, paused_not, stopped_not, quiet, move),
      λ (key, secret, listed, known, paused_not, stopped_not, quiet, move).
          tests.1 (((((key, secret), listed), (known, paused_not, stopped_not)), quiet), move),
    )
