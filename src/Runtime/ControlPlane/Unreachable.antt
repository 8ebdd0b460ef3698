-- ===== src/Runtime/ControlPlane/Unreachable.antt =====
-- The mode transition wants the lock on and pre-flight wants it off, so that no request of the
-- control plane enters live_small_auto.
use crypto_ai_trader.Base.{
  ◌≡◌, ◌≢◌, Bool, String, true, arith, refl, sym, ap, ◌∙◌, Option, none, some, [], Bool-cases,
  Option-cases, inl, inr, List, str_eq,
}
use crypto_ai_trader.Execution.Gate.{TradeMode, paper_auto, live_small_auto}
use crypto_ai_trader.Runtime.Mode.{TransitionReason, mode_eq, validate_mode_transition}
use crypto_ai_trader.Runtime.Mode.Transitions.{mode_eq_iff, validate_mode_transition-allowed_iff}
use crypto_ai_trader.Risk.PreFlight.{PreFlightCheck, run_pre_flight}
use crypto_ai_trader.Risk.PreFlight.Outcome.{run_pre_flight-passed_iff}
use crypto_ai_trader.Runtime.ControlPlane.{
  ControlState, get_trade_mode, get_live_trading_lock, ModeChangeRequest, Surroundings, LiveCheck,
  refused, cleared, requested_symbol, check_live, after_check, persist, set_mode, set_live_lock,
}

-- A refusal that leaves both rows as they are.
abbrev pub Refuses : ControlState → LiveCheck → Type 0
Refuses s (refused s' why checks) = (s'.mode_row ≡ s.mode_row) × (s'.lock_row ≡ s.lock_row)
Refuses s (cleared checks) = ⊥

-- With the lock on the live checks refuse.
pub check_live-Refuses :
    (env : Surroundings) (s : ControlState) (body : ModeChangeRequest)
    → (get_live_trading_lock s).enabled ≡ true
    → Refuses s (check_live env s body)
unfolding check_live
check_live-Refuses env s body h = elim (Option-cases env.allowed_symbols) [
  | inl unreadable ↦ rw unreadable (refl, refl)
  | inr (allowed, e) ↦ elim (Bool-cases (str_eq (requested_symbol body.symbol) "")) [
    | inl empty ↦ rw (e, empty) (refl, refl)
    | inr given ↦ elim (Option-cases env.risk_state) [
      | inl unknown_state ↦ rw (e, given, unknown_state) (refl, refl)
      | inr (state, known) ↦
          let result =
            run_pre_flight env.credentials (requested_symbol body.symbol) allowed
              (get_live_trading_lock s) state in
          let passes =
            (run_pre_flight-passed_iff env.credentials (requested_symbol body.symbol) allowed
              (get_live_trading_lock s) state).0.0 in
          elim (Bool-cases result.passed) [
            | inl ok_result ↦ absurd (ground (arith, (passes ok_result).3))
            | inr blocked ↦ rw (e, given, known, blocked) (refl, refl)
          ]
    ]
  ]
]

persist-mode :
    (s : ControlState) (body : ModeChangeRequest) (reason : TransitionReason)
    (checks : List PreFlightCheck)
    → body.to_mode ≢ live_small_auto
    → get_trade_mode (persist s body reason checks).0 ≡ live_small_auto
    → get_trade_mode s ≡ live_small_auto
unfolding persist
persist-mode s body reason checks h e = ground arith

after_check-mode :
    (s : ControlState) (body : ModeChangeRequest) (reason : TransitionReason) (c : LiveCheck)
    → Refuses s c
    → get_trade_mode (after_check s body reason c).0 ≡ get_trade_mode s
after_check-mode s body reason (refused s' why checks) (same, _) =
    ap (λ (row : Option TradeMode). elim row as (λ _. TradeMode) [ none ↦ paper_auto | some m ↦ m ])
      same
after_check-mode s body reason (cleared checks) h = absurd h

-- No request changes the mode to `live_small_auto`: that mode holds after a request only if it
-- held before.
set_mode-never_enters_live :
    (env : Surroundings) (s : ControlState) (body : ModeChangeRequest)
    → get_trade_mode (set_mode env s body).0 ≡ live_small_auto
    → get_trade_mode s ≡ live_small_auto
unfolding set_mode
set_mode-never_enters_live env s body h =
    let current = get_trade_mode s in
    let enabled = (get_live_trading_lock s).enabled in
    let result = validate_mode_transition current body.to_mode enabled body.allow_live_unlock in
    let rules =
      (validate_mode_transition-allowed_iff current body.to_mode enabled
        body.allow_live_unlock).0 in
    let is_target = mode_eq_iff body.to_mode live_small_auto in
    elim (Bool-cases env.database_opens) [
      | inr closed ↦ ground arith
      | inl opens ↦ elim (Bool-cases (mode_eq current body.to_mode)) [
        | inl same ↦ ground arith
        | inr other ↦ elim (Bool-cases result.allowed) [
          | inr refused_mode ↦ ground arith
          | inl allowed ↦ elim (Bool-cases (mode_eq body.to_mode live_small_auto)) [
            | inr elsewhere ↦
                persist-mode s body result.reason [] (λ e. cc (is_target.1 e))
                  (simp (opens, other, allowed, elsewhere) at h)
            | inl live ↦ elim (rules allowed) [
              | inl not_live ↦ absurd (not_live (is_target.0 live))
              | inr (inl already) ↦ already
              | inr (inr (_, _, _, locked)) ↦
                  sym (
                    after_check-mode s body result.reason (check_live env s body)
                      (check_live-Refuses env s body locked))
                  ∙ (simp (opens, other, allowed, live) at h)
            ]
          ]
        ]
      ]
    ]

-- The writes of the control plane, in any order and in any surroundings.
pub data Write : ControlState → ControlState → Type 0 where
  mode_write :
      (env : Surroundings) (s : ControlState) (body : ModeChangeRequest)
      → Write s (set_mode env s body).0
  lock_write :
      (env : Surroundings) (s : ControlState) (enabled : Bool) (reason : Option String)
      → Write s (set_live_lock env s enabled reason).0

pub data Writes (s : ControlState) : ControlState → Type 0 where
  here : Writes s s
  next : {t u : ControlState} → Writes s t → Write t u → Writes s u

set_live_lock-mode :
    (env : Surroundings) (s : ControlState) (enabled : Bool) (reason : Option String)
    → get_trade_mode (set_live_lock env s enabled reason).0 ≡ get_trade_mode s
unfolding set_live_lock
set_live_lock-mode env s enabled reason = ground arith

Write-never_enters_live :
    {t u : ControlState}
    → Write t u
    → get_trade_mode t ≢ live_small_auto
    → get_trade_mode u ≢ live_small_auto
Write-never_enters_live (mode_write env s body) h e = h (set_mode-never_enters_live env s body e)
Write-never_enters_live (lock_write env s enabled reason) h e =
    h (sym (set_live_lock-mode env s enabled reason) ∙ e)

-- From a mode other than `live_small_auto` no sequence of mode and lock requests reaches
-- `live_small_auto`, whatever the surroundings of each request.
pub live_small_auto_unreachable :
    {s t : ControlState}
    → get_trade_mode s ≢ live_small_auto
    → Writes s t
    → get_trade_mode t ≢ live_small_auto
live_small_auto_unreachable h here = h
live_small_auto_unreachable h (next before w) =
    Write-never_enters_live w (live_small_auto_unreachable h before)
