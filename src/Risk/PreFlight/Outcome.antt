-- ===== src/Risk/PreFlight/Outcome.antt =====
-- What a pre-flight that passes, or one that is blocked, says.
use crypto_ai_trader.Base.{
  String, List, [], ◌∷◌, map, Option, none, ◌≡◌, refl, ◌∙◌, ◌≢◌, ◌↔◌, Bool, true, false, not, ◌&&◌,
  arith, upper,
}
use crypto_ai_trader.Execution.Gate.{LiveTradingLock}
use crypto_ai_trader.Risk.State.{
  RiskState, normal, degraded, no_new_positions, global_pause, emergency_stop,
}
use crypto_ai_trader.Risk.PreFlight.{
  Credentials, BlockedCode, PreFlightCheck, is_unset, is_in, is_none, first_failure, none_failed,
  run_pre_flight,
}

-- The first failure is found exactly when some check failed.
first_failure-eq-none :
    (state : RiskState) (checks : List PreFlightCheck)
    → is_none (first_failure state checks) ≡ none_failed checks
unfolding first_failure none_failed
first_failure-eq-none state [] = refl
first_failure-eq-none state (c ∷ cs) = ground (arith, first_failure-eq-none state cs)

is_none_iff : (blocked : Option BlockedCode) → (is_none blocked ≡ true) ↔ (blocked ≡ none)
is_none_iff blocked = ground arith

both_same : (a b : Bool) → a ≡ b → (a && b) ≡ b
both_same a b h = ground arith

-- The five statuses together.
abbrev is_tripped : RiskState → Bool
is_tripped global_pause = true
is_tripped emergency_stop = true
is_tripped _ = false

abbrev statuses : Credentials → String → List String → LiveTradingLock → RiskState → Bool
statuses env symbol allowed lock state =
    not (is_unset env.api_key)
    && not (is_unset env.api_secret)
    && is_in (upper symbol) (map upper allowed)
    && not lock.enabled
    && not (is_tripped state)

none_failed-eq-statuses :
    (env : Credentials) (symbol : String) (allowed : List String) (lock : LiveTradingLock)
    (state : RiskState)
    → none_failed (run_pre_flight env symbol allowed lock state).checks
      ≡ statuses env symbol allowed lock state
unfolding run_pre_flight none_failed
none_failed-eq-statuses env symbol allowed lock normal = ground arith
none_failed-eq-statuses env symbol allowed lock degraded = ground arith
none_failed-eq-statuses env symbol allowed lock no_new_positions = ground arith
none_failed-eq-statuses env symbol allowed lock global_pause = ground arith
none_failed-eq-statuses env symbol allowed lock emergency_stop = ground arith

passed-eq-statuses :
    (env : Credentials) (symbol : String) (allowed : List String) (lock : LiveTradingLock)
    (state : RiskState)
    → (run_pre_flight env symbol allowed lock state).passed ≡ statuses env symbol allowed lock state
unfolding run_pre_flight
passed-eq-statuses env symbol allowed lock state =
    both_same _ _
      (first_failure-eq-none state (run_pre_flight env symbol allowed lock state).checks)
    ∙ none_failed-eq-statuses env symbol allowed lock state

reason-eq-none :
    (env : Credentials) (symbol : String) (allowed : List String) (lock : LiveTradingLock)
    (state : RiskState)
    → let r = run_pre_flight env symbol allowed lock state in is_none r.blocked_reason ≡ r.passed
unfolding run_pre_flight
reason-eq-none env symbol allowed lock state =
    ground
      (arith, first_failure-eq-none state (run_pre_flight env symbol allowed lock state).checks)

statuses_iff :
    (env : Credentials) (symbol : String) (allowed : List String) (lock : LiveTradingLock)
    (state : RiskState)
    → (statuses env symbol allowed lock state ≡ true) ↔ (
        (is_unset env.api_key ≡ false)
        × (is_unset env.api_secret ≡ false)
        × (is_in (upper symbol) (map upper allowed) ≡ true)
        × (lock.enabled ≡ false)
        × (state ≢ global_pause)
        × (state ≢ emergency_stop))
statuses_iff env symbol allowed lock state = ground arith

-- Pre-flight passes exactly when both credentials are set, the symbol is on the list whatever
-- its case, the lock is off, and the risk state is neither `global_pause` nor
-- `emergency_stop`; it names a blocking reason exactly when it does not pass.
pub run_pre_flight-passed_iff :
    (env : Credentials) (symbol : String) (allowed : List String) (lock : LiveTradingLock)
    (state : RiskState)
    → let r = run_pre_flight env symbol allowed lock state in
      ((r.passed ≡ true) ↔ (
        (is_unset env.api_key ≡ false)
        × (is_unset env.api_secret ≡ false)
        × (is_in (upper symbol) (map upper allowed) ≡ true)
        × (lock.enabled ≡ false)
        × (state ≢ global_pause)
        × (state ≢ emergency_stop)))
      × ((r.passed ≡ true) ↔ (r.blocked_reason ≡ none))
run_pre_flight-passed_iff env symbol allowed lock state =
    let r = run_pre_flight env symbol allowed lock state in
    (
      rw (passed-eq-statuses env symbol allowed lock state)
          (statuses_iff env symbol allowed lock state),
      rw (← reason-eq-none env symbol allowed lock state) (is_none_iff r.blocked_reason),
    )
