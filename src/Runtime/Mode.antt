-- ===== src/Runtime/Mode.antt =====
-- trading/runtime/mode.py: the rules for changing the trade mode.
pub mod Transitions
use crypto_ai_trader.Base.{Bool, true, false, not, ◌&&◌, if◌then◌else◌, str_eq}
use crypto_ai_trader.Execution.Gate.{
  TradeMode, paused, paper_auto, live_shadow, live_small_auto, unknown,
}

-- The texts of `reason`.
pub data TransitionReason : Type 0 where
  same_mode blocked_direct_from_paused blocked_shadow_first : TransitionReason
  blocked_requires_unlock blocked_requires_lock : TransitionReason
  live_small_auto_unlocked transition_allowed : TransitionReason

pub record ModeTransitionResult : Type 0 where
  pub allowed : Bool
  pub reason : TransitionReason

-- `from_mode == to_mode`, as texts.
unfoldable pub mode_eq : TradeMode → TradeMode → Bool
mode_eq paused paused = true
mode_eq paper_auto paper_auto = true
mode_eq live_shadow live_shadow = true
mode_eq live_small_auto live_small_auto = true
mode_eq (unknown a) (unknown b) = str_eq a b
mode_eq _ _ = false

abbrev pub transition : Bool → TransitionReason → ModeTransitionResult
transition allowed reason = record { allowed = allowed; reason = reason }

unfoldable pub validate_mode_transition : TradeMode → TradeMode → Bool → Bool → ModeTransitionResult
validate_mode_transition from_mode to_mode lock_enabled allow_live_unlock =
    if mode_eq from_mode to_mode
    then transition true same_mode
    else if mode_eq from_mode paused && mode_eq to_mode live_small_auto
    then transition false blocked_direct_from_paused
    else if mode_eq from_mode paper_auto && mode_eq to_mode live_small_auto
    then transition false blocked_shadow_first
    else if mode_eq to_mode live_small_auto
    then if not allow_live_unlock
      then transition false blocked_requires_unlock
      else if not lock_enabled
      then transition false blocked_requires_lock
      else transition true live_small_auto_unlocked
    else transition true transition_allowed
