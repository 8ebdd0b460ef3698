-- ===== src/Dashboard/ReleaseGate/DryRun.antt =====
-- The dry run that the release gate allows, and the requests for it.
use crypto_ai_trader.Base.{◌≡◌, ◌≢◌, ◌∙◌, refl, inl, inr, arith, Bool-cases, false}
use crypto_ai_trader.Execution.Gate.{live_small_auto}
use crypto_ai_trader.Runtime.Mode.{TransitionReason, mode_eq, validate_mode_transition}
use crypto_ai_trader.Runtime.Mode.Transitions.{mode_eq_iff, validate_mode_transition-allowed_iff}
use crypto_ai_trader.Runtime.ControlPlane.{
  ControlState, get_trade_mode, get_live_trading_lock, ModeChangeRequest, Surroundings, LiveCheck,
  refused, cleared, check_live, after_check, set_mode,
}
use crypto_ai_trader.Runtime.ControlPlane.Unreachable.{Refuses, check_live-Refuses}

after_check-refused :
    (s : ControlState) (body : ModeChangeRequest) (reason : TransitionReason) (c : LiveCheck)
    → Refuses s c
    → (after_check s body reason c).1.success ≡ false
after_check-refused s body reason (refused s' why checks) h = refl
after_check-refused s body reason (cleared checks) h = absurd h

-- No request for live_small_auto succeeds from another mode, neither a dry run nor a real one, with
-- the lock on or off and in any surroundings.
pub set_mode-live_refused :
    (env : Surroundings) (s : ControlState) (body : ModeChangeRequest)
    → body.to_mode ≡ live_small_auto
    → get_trade_mode s ≢ live_small_auto
    → (set_mode env s body).1.success ≡ false
unfolding set_mode
set_mode-live_refused env s body target elsewhere =
    let enabled = (get_live_trading_lock s).enabled in
    let result =
      validate_mode_transition (get_trade_mode s) body.to_mode enabled body.allow_live_unlock in
    let rules =
      (validate_mode_transition-allowed_iff (get_trade_mode s) body.to_mode enabled
        body.allow_live_unlock).0 in
    let same = mode_eq_iff (get_trade_mode s) body.to_mode in
    let live = (mode_eq_iff body.to_mode live_small_auto).1 target in
    elim (Bool-cases env.database_opens) [
      | inr closed ↦ ground arith
      | inl opens ↦ elim (Bool-cases (mode_eq (get_trade_mode s) body.to_mode)) [
        | inl at_target ↦ absurd (elsewhere (same.0 at_target ∙ target))
        | inr other ↦ elim (Bool-cases result.allowed) [
          | inr refused_mode ↦ ground arith
          | inl allowed ↦ elim (rules allowed) [
            | inl not_live ↦ absurd (not_live target)
            | inr (inl already) ↦ absurd (elsewhere already)
            | inr (inr (_, _, _, locked)) ↦
                simp (opens, other, allowed, live)
                  (after_check-refused s body result.reason (check_live env s body)
                    (check_live-Refuses env s body locked))
          ]
        ]
      ]
    ]
