-- ===== src/Dashboard/ReleaseGate/Answers.antt =====
-- The summary of the release gate as Boolean tests.
use crypto_ai_trader.Base.{
  ◌≡◌, inl, inr, refl, ◌∙◌, arith, List, [], ◌∷◌, Option, none, some, Bool, true, false, not, ◌&&◌,
  Bool-cases,
}
use crypto_ai_trader.Execution.Gate.{TradeMode, live_small_auto}
use crypto_ai_trader.Risk.State.{
  RiskState, normal, degraded, no_new_positions, global_pause, emergency_stop,
}
use crypto_ai_trader.Runtime.Mode.{ModeTransitionResult, mode_eq}
use crypto_ai_trader.Dashboard.Health.{RuntimeHealth}
use crypto_ai_trader.Dashboard.Blocking.{
  BlockedReason, database_unavailable, heartbeat_blocks_shadow, supervisor_unavailable,
  already_live, key_missing, secret_missing, exchanges_unavailable, risk_unavailable,
  heartbeat_blocks_dry_run, risk_blocks, transition_blocks, ReleaseGateEnvironment,
  ReleaseGateSummary, has_reason, append_reason, deny_shadow, deny_dry_run, deny_for_risk, is_dead,
  all_allowed, judge_shadow, judge_dry_run,
}

abbrev pub is_empty : List BlockedReason → Bool
is_empty [] = true
is_empty (r ∷ rs) = false

append_reason-nonempty :
    (reason : BlockedReason) (rs : List BlockedReason) → is_empty (append_reason reason rs) ≡ false
unfolding append_reason has_reason
append_reason-nonempty reason [] = refl
append_reason-nonempty reason (r ∷ rs) = elim (Bool-cases (has_reason reason (r ∷ rs))) [
  | inl there ↦ rw there refl
  | inr new ↦ rw new refl
]

-- The two answers of a summary, and whether it names no reason.
abbrev pub Answers : Bool → Bool → Bool → ReleaseGateSummary → Type 0
Answers shadow dry_run silent s =
    (s.allow_live_shadow ≡ shadow)
    × (s.allow_live_small_auto_dry_run ≡ dry_run)
    × (is_empty s.blocked_reasons ≡ silent)

deny_shadow-Answers :
    (denied : Bool) (reason : BlockedReason) {shadow dry_run silent : Bool} (s : ReleaseGateSummary)
    → Answers shadow dry_run silent s
    → Answers (shadow && not denied) dry_run (silent && not denied) (deny_shadow denied reason s)
deny_shadow-Answers false reason s h = ground arith
deny_shadow-Answers true reason s h =
    ground (arith, append_reason-nonempty reason s.blocked_reasons)

deny_dry_run-Answers :
    (denied : Bool) (reason : BlockedReason) {shadow dry_run silent : Bool} (s : ReleaseGateSummary)
    → Answers shadow dry_run silent s
    → Answers shadow (dry_run && not denied) (silent && not denied) (deny_dry_run denied reason s)
deny_dry_run-Answers false reason s h = ground arith
deny_dry_run-Answers true reason s h =
    ground (arith, append_reason-nonempty reason s.blocked_reasons)

-- The risk states that do not deny a dry run.
abbrev pub is_tradable : Option RiskState → Bool
is_tradable none = false
is_tradable (some global_pause) = false
is_tradable (some emergency_stop) = false
is_tradable (some _) = true

deny_for_risk-Answers :
    (risk : Option RiskState) {shadow dry_run silent : Bool} (s : ReleaseGateSummary)
    → Answers shadow dry_run silent s
    → Answers shadow
        (dry_run && is_tradable risk)
        (silent && is_tradable risk)
        (deny_for_risk risk s)
deny_for_risk-Answers none s h = deny_dry_run-Answers true risk_unavailable s h
deny_for_risk-Answers (some global_pause) s h =
    deny_dry_run-Answers true (risk_blocks global_pause) s h
deny_for_risk-Answers (some emergency_stop) s h =
    deny_dry_run-Answers true (risk_blocks emergency_stop) s h
deny_for_risk-Answers (some normal) s h = ground arith
deny_for_risk-Answers (some degraded) s h = ground arith
deny_for_risk-Answers (some no_new_positions) s h = ground arith

-- The tests of the summary, taken together.
abbrev pub shadow_tests : ReleaseGateEnvironment → RuntimeHealth → TradeMode → Bool
shadow_tests env health mode =
    env.database_ok
    && not health.heartbeat_stale_alerting
    && not (is_dead health.supervisor_alive)
    && not (mode_eq mode live_small_auto)

abbrev pub dry_run_tests :
    ReleaseGateEnvironment → RuntimeHealth → ModeTransitionResult → Option RiskState → Bool
dry_run_tests env health dry_run risk =
    env.binance_key_present
    && env.binance_secret_present
    && env.exchanges_yaml_ok
    && is_tradable risk
    && not health.heartbeat_stale_alerting
    && dry_run.allowed

regroup_shadow :
    (a b c d : Bool)
    → (true && not (not a) && not b && not c && not d) ≡ (a && not b && not c && not d)
regroup_shadow a b c d = ground arith

pub judge_shadow-Answers :
    (env : ReleaseGateEnvironment) (health : RuntimeHealth) (mode : TradeMode)
    → Answers
        (shadow_tests env health mode)
        true
        (shadow_tests env health mode)
        (judge_shadow env health mode all_allowed)
unfolding judge_shadow
judge_shadow-Answers env health mode =
    let lost = health.heartbeat_stale_alerting in
    let dead = is_dead health.supervisor_alive in
    let live = mode_eq mode live_small_auto in
    let s1 = deny_shadow (not env.database_ok) database_unavailable all_allowed in
    let s2 = deny_shadow lost heartbeat_blocks_shadow s1 in
    let s3 = deny_shadow dead supervisor_unavailable s2 in
    let (shadow, dry_run, silent) = deny_shadow-Answers live already_live s3 (
      deny_shadow-Answers dead supervisor_unavailable s2 (
        deny_shadow-Answers lost heartbeat_blocks_shadow s1 (
          deny_shadow-Answers (not env.database_ok) database_unavailable all_allowed
            (refl, refl, refl)))) in
    let same = regroup_shadow env.database_ok lost dead live in
    (shadow ∙ same, dry_run, silent ∙ same)

regroup_dry_run :
    (z a b c d e f : Bool)
    → (z && not (not a) && not (not b) && not (not c) && d && not e && not (not f))
      ≡ (z && (a && b && c && d && not e && f))
regroup_dry_run z a b c d e f = ground arith

pub judge_dry_run-Answers :
    (env : ReleaseGateEnvironment) (health : RuntimeHealth) (dry_run : ModeTransitionResult)
    (risk : Option RiskState) (s : ReleaseGateSummary) (before : Bool)
    → Answers before true before s
    → let tests = dry_run_tests env health dry_run risk in
      Answers before tests (before && tests) (judge_dry_run env health dry_run risk s)
unfolding judge_dry_run
judge_dry_run-Answers env health dry_run risk s before h =
    let lost = health.heartbeat_stale_alerting in
    let s1 = deny_dry_run (not env.binance_key_present) key_missing s in
    let s2 = deny_dry_run (not env.binance_secret_present) secret_missing s1 in
    let s3 = deny_dry_run (not env.exchanges_yaml_ok) exchanges_unavailable s2 in
    let s4 = deny_for_risk risk s3 in
    let s5 = deny_dry_run lost heartbeat_blocks_dry_run s4 in
    let (shadow, allowed, silent) =
      deny_dry_run-Answers (not dry_run.allowed) (transition_blocks dry_run.reason) s5 (
        deny_dry_run-Answers lost heartbeat_blocks_dry_run s4 (
          deny_for_risk-Answers risk s3 (
            deny_dry_run-Answers (not env.exchanges_yaml_ok) exchanges_unavailable s2 (
              deny_dry_run-Answers (not env.binance_secret_present) secret_missing s1
                (deny_dry_run-Answers (not env.binance_key_present) key_missing s h))))) in
    let same = λ (z : Bool).
      regroup_dry_run z env.binance_key_present env.binance_secret_present env.exchanges_yaml_ok
        (is_tradable risk) lost dry_run.allowed in
    (shadow, allowed ∙ same true, silent ∙ same before)
