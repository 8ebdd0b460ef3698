-- ===== src/Dashboard/ReleaseGate/Verdict.antt =====
-- What the release gate allows.
use mathlib.Core.Path.{subst}
use crypto_ai_trader.Base.{
  ◌≡◌, ◌↔◌, inl, inr, refl, sym, ap, ◌∙◌, arith, String, List, [], Bool, true, false, not, ◌&&◌,
  if◌then◌else◌, Bool-cases, Result, ok, err, ok_inj,
}
use crypto_ai_trader.Decimal.{Decimal}
use crypto_ai_trader.Strategies.Base.{Time}
use crypto_ai_trader.Execution.Gate.{live_small_auto}
use crypto_ai_trader.Runtime.Mode.{validate_mode_transition}
use crypto_ai_trader.Runtime.ControlPlane.{get_trade_mode, get_live_trading_lock, Surroundings}
use crypto_ai_trader.Dashboard.Events.{list_recent}
use crypto_ai_trader.Dashboard.Health.{health_of}
use crypto_ai_trader.Dashboard.Risk.{resolve_risk_info}
use crypto_ai_trader.Dashboard.ReleaseGate.Readiness.{
  ShadowReady, DryRunReady, Ready, shadow_tests_iff, dry_run_tests_iff, &&_iff,
}
use crypto_ai_trader.Dashboard.ReleaseGate.Answers.{
  is_empty, Answers, shadow_tests, judge_shadow-Answers, judge_dry_run-Answers,
}
use crypto_ai_trader.Dashboard.Blocking.{
  BlockedReason, ReleaseGateSummary, all_allowed, judge_shadow, judge_dry_run, database_failed,
  request_failed,
}
use crypto_ai_trader.Dashboard.ReleaseGate.{
  ReleaseGateResponse, GateRows, environment_of, assess, fail_closed, of_rows,
  read_release_gate_live,
}

-- A summary that follows two conditions.
abbrev Follows : Type 0 → Type 0 → ReleaseGateSummary → Type 0
Follows P Q s =
    ((s.allow_live_shadow ≡ true) ↔ P)
    × ((s.allow_live_small_auto_dry_run ≡ true) ↔ Q)
    × ((s.blocked_reasons ≡ [])
        ↔ ((s.allow_live_shadow ≡ true) × (s.allow_live_small_auto_dry_run ≡ true)))

denied-Follows :
    (P Q : Type 0) (reason : BlockedReason) (database_ok : Bool)
    → (¬ P)
    → (¬ Q)
    → Follows P Q (fail_closed reason database_ok).summary
unfolding fail_closed
denied-Follows P Q reason database_ok p q =
    ((λ e. cc, λ h. absurd (p h)), (λ e. cc, λ h. absurd (q h)), (λ e. cc, λ h. cc h.0))

is_empty_iff : (rs : List BlockedReason) → (is_empty rs ≡ true) ↔ (rs ≡ [])
is_empty_iff rs = ground arith

Answers-Follows :
    {P Q : Type 0} {a b : Bool} (s : ReleaseGateSummary)
    → ((a ≡ true) ↔ P)
    → ((b ≡ true) ↔ Q)
    → Answers a b (a && b) s
    → Follows P Q s
Answers-Follows {a = a} {b = b} s p q (shadow, dry_run, silent) =
    let empty = is_empty_iff s.blocked_reasons in
    let both = &&_iff a b p q in
    (
      (λ e. p.0 (sym shadow ∙ e), λ h. shadow ∙ p.1 h),
      (λ e. q.0 (sym dry_run ∙ e), λ h. dry_run ∙ q.1 h),
      (
        λ e. let (h, k) = both.0 (sym silent ∙ empty.1 e) in (shadow ∙ p.1 h, dry_run ∙ q.1 k),
        λ h. empty.0 (silent ∙ both.1 (p.0 (sym shadow ∙ h.0), q.0 (sym dry_run ∙ h.1))),
      ),
    )

-- Rows that were read are the only ones.
read_iff :
    (P : GateRows → Type 0) (env : Surroundings) (r : GateRows) {b : Bool}
    → env.database_opens ≡ true
    → ((b ≡ true) ↔ P r)
    → (b ≡ true) ↔ Ready P env (ok r)
read_iff P env r opens h = (
  λ e. (opens, (r, refl, h.0 e)),
  λ (_, (other, same, ready)). h.1 (subst P (sym (ok_inj same)) ready),
)

of_rows-Follows :
    (decimal_of : String → Result Decimal) (env : Surroundings) (now : Time)
    (rows : Result GateRows)
    → env.database_opens ≡ true
    → Follows
        (Ready (ShadowReady now) env rows)
        (Ready (DryRunReady decimal_of env now) env rows)
        (of_rows decimal_of env now rows).summary
unfolding assess
of_rows-Follows decimal_of env now (err why) opens =
    denied-Follows (Ready (ShadowReady now) env (err why))
      (Ready (DryRunReady decimal_of env now) env (err why)) request_failed true
      (λ (_, (r, read, _)). cc read) (λ (_, (r, read, _)). cc read)
of_rows-Follows decimal_of env now (ok r) opens =
    let health = health_of now (list_recent 500 r.events) in
    let mode = get_trade_mode r.control in
    let risk = (resolve_risk_info decimal_of now r.risk).risk_state in
    let dry_run =
      validate_mode_transition mode live_small_auto (get_live_trading_lock r.control).enabled
        true in
    let parts = environment_of env in
    let judged =
      judge_dry_run-Answers parts health dry_run risk (judge_shadow parts health mode all_allowed)
        (shadow_tests parts health mode) (judge_shadow-Answers parts health mode) in
    Answers-Follows
      (judge_dry_run parts health dry_run risk (judge_shadow parts health mode all_allowed))
      (read_iff (ShadowReady now) env r opens (shadow_tests_iff env now r))
      (read_iff (DryRunReady decimal_of env now) env r opens
        (dry_run_tests_iff decimal_of env now r))
      judged

-- The gate allows live_shadow exactly when the rows can be read, no lost heartbeat is open, the
-- supervisor is not known to be dead and the mode is not live_small_auto. It allows a dry run of
-- live_small_auto exactly when the rows can be read, both credentials and the symbols are there,
-- the risk state is known and neither global_pause nor emergency_stop, no lost heartbeat is open,
-- and the mode is live_small_auto or else neither paused nor paper_auto with the lock enabled. It
-- names no blocking reason exactly when it allows both.
pub read_release_gate_live-allowed_iff :
    (decimal_of : String → Result Decimal) (env : Surroundings) (now : Time)
    (rows : Result GateRows)
    → let s = (read_release_gate_live decimal_of env now rows).summary in
      ((s.allow_live_shadow ≡ true) ↔ Ready (ShadowReady now) env rows)
      × ((s.allow_live_small_auto_dry_run ≡ true) ↔ Ready (DryRunReady decimal_of env now) env rows)
      × ((s.blocked_reasons ≡ [])
          ↔ ((s.allow_live_shadow ≡ true) × (s.allow_live_small_auto_dry_run ≡ true)))
unfolding read_release_gate_live
read_release_gate_live-allowed_iff decimal_of env now rows =
    let P = Ready (ShadowReady now) env rows in
    let Q = Ready (DryRunReady decimal_of env now) env rows in
    let answer : Bool → ReleaseGateResponse = λ opens.
      if not opens then fail_closed database_failed false else of_rows decimal_of env now rows in
    elim (Bool-cases env.database_opens) [
      | inr closed ↦
          subst (λ r. Follows P Q r.summary) (sym (ap answer closed))
            (denied-Follows P Q database_failed false (λ h. cc (h.0)) (λ h. cc (h.0)))
      | inl opens ↦
          subst (λ r. Follows P Q r.summary) (sym (ap answer opens))
            (of_rows-Follows decimal_of env now rows opens)
    ]
