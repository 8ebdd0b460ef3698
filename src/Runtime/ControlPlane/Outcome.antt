-- ===== src/Runtime/ControlPlane/Outcome.antt =====
-- What a request to change the mode leaves behind.
use crypto_ai_trader.Base.{
  ◌≡◌, ◌⊎◌, true, false, arith, refl, List, [], Bool-cases, Option-cases, inl, inr, str_eq,
}
use crypto_ai_trader.Risk.PreFlight.{PreFlightCheck, run_pre_flight}
use crypto_ai_trader.Runtime.Mode.{TransitionReason, validate_mode_transition}
use crypto_ai_trader.Runtime.Mode.Transitions.{mode_eq_iff}
use crypto_ai_trader.Runtime.ControlPlane.{
  ControlState, ModeChangeResponse, get_trade_mode, get_live_trading_lock, ModeChangeRequest,
  Surroundings, LiveCheck, refused, cleared, requested_symbol, check_live, after_check, persist,
  set_mode,
}

abbrev KeepsRows : ControlState → LiveCheck → Type 0
KeepsRows s (refused s' why checks) = (s'.mode_row ≡ s.mode_row) × (s'.lock_row ≡ s.lock_row)
KeepsRows s (cleared checks) = Unit {0}

check_live-KeepsRows :
    (env : Surroundings) (s : ControlState) (body : ModeChangeRequest)
    → KeepsRows s (check_live env s body)
unfolding check_live
check_live-KeepsRows env s body = elim (Option-cases env.allowed_symbols) [
  | inl unreadable ↦ rw unreadable (refl, refl)
  | inr (allowed, e) ↦ elim (Bool-cases (str_eq (requested_symbol body.symbol) "")) [
    | inl empty ↦ rw (e, empty) (refl, refl)
    | inr given ↦ elim (Option-cases env.risk_state) [
      | inl unknown_state ↦ rw (e, given, unknown_state) (refl, refl)
      | inr (state, known) ↦
          let result =
            run_pre_flight env.credentials (requested_symbol body.symbol) allowed
              (get_live_trading_lock s) state in
          elim (Bool-cases result.passed) [
            | inl passes ↦ rw (e, given, known, passes) tt
            | inr blocked ↦ rw (e, given, known, blocked) (refl, refl)
          ]
    ]
  ]
]

-- What a handled request did.
abbrev pub IsHandled : ControlState → ModeChangeRequest → ControlState × ModeChangeResponse → Type 0
IsHandled s body (s', r) =
    ((r.success ≡ false) ⊎ (body.dry_run ≡ true) → get_trade_mode s' ≡ get_trade_mode s)
    × ((r.success ≡ true) → body.dry_run ≡ false → get_trade_mode s' ≡ body.to_mode)
    × (s'.lock_row ≡ s.lock_row)

persist-IsHandled :
    (s : ControlState) (body : ModeChangeRequest) (reason : TransitionReason)
    (checks : List PreFlightCheck)
    → IsHandled s body (persist s body reason checks)
unfolding persist
persist-IsHandled s body reason checks = ground arith

after_check-IsHandled :
    (s : ControlState) (body : ModeChangeRequest) (reason : TransitionReason) (c : LiveCheck)
    → KeepsRows s c
    → IsHandled s body (after_check s body reason c)
after_check-IsHandled s body reason (refused s' why checks) (mode, lock) = ground arith
after_check-IsHandled s body reason (cleared checks) h = persist-IsHandled s body reason checks

-- A request that is refused, or is a dry run, leaves the mode as it was; one that succeeds
-- otherwise leaves the mode that it asked for; none changes the lock.
pub set_mode-IsHandled :
    (env : Surroundings) (s : ControlState) (body : ModeChangeRequest)
    → IsHandled s body (set_mode env s body)
unfolding set_mode
set_mode-IsHandled env s body = ground (
  arith,
  mode_eq_iff (get_trade_mode s) body.to_mode,
  after_check-IsHandled s body
      (validate_mode_transition (get_trade_mode s) body.to_mode (get_live_trading_lock s).enabled
        body.allow_live_unlock).reason
      (check_live env s body) (check_live-KeepsRows env s body),
  persist-IsHandled s body
      (validate_mode_transition (get_trade_mode s) body.to_mode (get_live_trading_lock s).enabled
        body.allow_live_unlock).reason
      [],
)
