-- ===== src/Dashboard/Blocking.antt =====
-- The summary of `read_release_gate_live` in trading/dashboard_api/routes_runtime.py: what is allowed
-- and the reasons against it.
use crypto_ai_trader.Base.{
  ℕ, ◌+◌, List, [], ◌∷◌, ◌++◌, Option, none, some, Bool, true, false, not, ◌||◌, ◌==◌,
  if◌then◌else◌,
}
use crypto_ai_trader.Execution.Gate.{TradeMode, live_small_auto}
use crypto_ai_trader.Risk.State.{
  RiskState, normal, degraded, no_new_positions, global_pause, emergency_stop,
}
use crypto_ai_trader.Runtime.Mode.{
  TransitionReason, same_mode, blocked_direct_from_paused, blocked_shadow_first,
  blocked_requires_unlock, blocked_requires_lock, live_small_auto_unlocked, transition_allowed,
  ModeTransitionResult, mode_eq,
}
use crypto_ai_trader.Dashboard.Health.{RuntimeHealth}

pub record ReleaseGateEnvironment : Type 0 where
  pub database_ok : Bool
  pub binance_key_present : Bool
  pub binance_secret_present : Bool
  pub exchanges_yaml_ok : Bool

-- The texts of `blocked_reasons`.
pub data BlockedReason : Type 0 where
  database_failed request_failed database_unavailable heartbeat_blocks_shadow : BlockedReason
  supervisor_unavailable already_live key_missing secret_missing : BlockedReason
  exchanges_unavailable risk_unavailable heartbeat_blocks_dry_run : BlockedReason
  risk_blocks : RiskState → BlockedReason
  transition_blocks : TransitionReason → BlockedReason

pub record ReleaseGateSummary : Type 0 where
  pub allow_live_shadow : Bool
  pub allow_live_small_auto_dry_run : Bool
  pub blocked_reasons : List BlockedReason

-- The reasons are compared as texts; these differ, so that a number stands for each of them.
abbrev pub risk_number : RiskState → ℕ
risk_number normal = 0
risk_number degraded = 1
risk_number no_new_positions = 2
risk_number global_pause = 3
risk_number emergency_stop = 4

abbrev pub transition_number : TransitionReason → ℕ
transition_number same_mode = 0
transition_number blocked_direct_from_paused = 1
transition_number blocked_shadow_first = 2
transition_number blocked_requires_unlock = 3
transition_number blocked_requires_lock = 4
transition_number live_small_auto_unlocked = 5
transition_number transition_allowed = 6

abbrev pub reason_number : BlockedReason → ℕ
reason_number database_failed = 0
reason_number request_failed = 1
reason_number database_unavailable = 2
reason_number heartbeat_blocks_shadow = 3
reason_number supervisor_unavailable = 4
reason_number already_live = 5
reason_number key_missing = 6
reason_number secret_missing = 7
reason_number exchanges_unavailable = 8
reason_number risk_unavailable = 9
reason_number heartbeat_blocks_dry_run = 10
reason_number (risk_blocks state) = 20 + risk_number state
reason_number (transition_blocks reason) = 30 + transition_number reason

unfoldable pub has_reason : BlockedReason → List BlockedReason → Bool
has_reason reason [] = false
has_reason reason (r ∷ rs) = reason_number r == reason_number reason || has_reason reason rs

-- `_append_reason`
unfoldable pub append_reason : BlockedReason → List BlockedReason → List BlockedReason
unfolding has_reason
append_reason reason rs = if has_reason reason rs then rs else rs ++ reason ∷ []

abbrev pub deny_shadow : Bool → BlockedReason → ReleaseGateSummary → ReleaseGateSummary
deny_shadow false reason s = s
deny_shadow true reason s = record s {
  allow_live_shadow = false;
  blocked_reasons = append_reason reason s.blocked_reasons;
}

abbrev pub deny_dry_run : Bool → BlockedReason → ReleaseGateSummary → ReleaseGateSummary
deny_dry_run false reason s = s
deny_dry_run true reason s = record s {
  allow_live_small_auto_dry_run = false;
  blocked_reasons = append_reason reason s.blocked_reasons;
}

-- `supervisor_alive is False`
abbrev pub is_dead : Option Bool → Bool
is_dead none = false
is_dead (some alive) = not alive

abbrev pub deny_for_risk : Option RiskState → ReleaseGateSummary → ReleaseGateSummary
deny_for_risk none s = deny_dry_run true risk_unavailable s
deny_for_risk (some global_pause) s = deny_dry_run true (risk_blocks global_pause) s
deny_for_risk (some emergency_stop) s = deny_dry_run true (risk_blocks emergency_stop) s
deny_for_risk (some _) s = s

abbrev pub all_allowed : ReleaseGateSummary
all_allowed = record {
  allow_live_shadow = true;
  allow_live_small_auto_dry_run = true;
  blocked_reasons = [];
}

-- The four tests of `allow_live_shadow`.
unfoldable pub judge_shadow :
    ReleaseGateEnvironment → RuntimeHealth → TradeMode → ReleaseGateSummary → ReleaseGateSummary
unfolding mode_eq append_reason
judge_shadow env health mode s = deny_shadow (mode_eq mode live_small_auto) already_live (
    deny_shadow (is_dead health.supervisor_alive) supervisor_unavailable (
      deny_shadow health.heartbeat_stale_alerting heartbeat_blocks_shadow
        (deny_shadow (not env.database_ok) database_unavailable s)))

-- The tests of `allow_live_small_auto_dry_run`.
unfoldable pub judge_dry_run :
    ReleaseGateEnvironment
    → RuntimeHealth
    → ModeTransitionResult
    → Option RiskState
    → ReleaseGateSummary
    → ReleaseGateSummary
unfolding append_reason
judge_dry_run env health dry_run risk s =
    deny_dry_run (not dry_run.allowed) (transition_blocks dry_run.reason) (
      deny_dry_run health.heartbeat_stale_alerting heartbeat_blocks_dry_run (
        deny_for_risk risk (
          deny_dry_run (not env.exchanges_yaml_ok) exchanges_unavailable (
            deny_dry_run (not env.binance_secret_present) secret_missing
              (deny_dry_run (not env.binance_key_present) key_missing s)))))
