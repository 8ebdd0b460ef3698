-- ===== src/Runtime/Mode/Transitions.antt =====
-- Which changes of mode the rules allow.
use crypto_ai_trader.Base.{◌≡◌, ◌≢◌, ◌↔◌, ◌⊎◌, Bool, true, arith, str_eq_iff, ap}
use crypto_ai_trader.Execution.Gate.{
  TradeMode, paused, paper_auto, live_shadow, live_small_auto, unknown,
}
use crypto_ai_trader.Runtime.Mode.{mode_eq, validate_mode_transition}

pub mode_eq_iff : (a b : TradeMode) → (mode_eq a b ≡ true) ↔ (a ≡ b)
unfolding mode_eq
mode_eq_iff paused b = ground arith
mode_eq_iff paper_auto b = ground arith
mode_eq_iff live_shadow b = ground arith
mode_eq_iff live_small_auto b = ground arith
mode_eq_iff (unknown x) (unknown y) =
    (λ h. ap unknown ((str_eq_iff x y).0 h), λ h. (str_eq_iff x y).1 (ground arith))
mode_eq_iff (unknown x) b = ground arith

-- A change to `live_small_auto` is allowed exactly from itself, or from a mode other than
-- `paused` and `paper_auto` with the unlock granted and the lock enabled; a change to any other
-- mode is always allowed.
pub validate_mode_transition-allowed_iff :
    (from_mode to_mode : TradeMode) (lock_enabled unlock : Bool)
    → ((validate_mode_transition from_mode to_mode lock_enabled unlock).allowed ≡ true) ↔ (
        (to_mode ≢ live_small_auto)
        ⊎ (from_mode ≡ live_small_auto)
        ⊎ ((from_mode ≢ paused)
            × (from_mode ≢ paper_auto)
            × (unlock ≡ true)
            × (lock_enabled ≡ true)))
unfolding validate_mode_transition
validate_mode_transition-allowed_iff from_mode to_mode lock_enabled unlock = ground (
  arith,
  mode_eq_iff from_mode to_mode,
  mode_eq_iff from_mode paused,
  mode_eq_iff from_mode paper_auto,
  mode_eq_iff to_mode live_small_auto,
)
