-- ===== src/Runtime/Runner/Inputs/Pinned.antt =====
-- An equity that is never below the initial cash hides losses from the circuit breaker.
use mathlib.Core.List.{Memᴰ}
use crypto_ai_trader.Strategies.Base.{Time}
use crypto_ai_trader.Runtime.PaperCycle.{CycleInput}
use crypto_ai_trader.Runtime.Runner.Baseline.{BaselineSet}
use crypto_ai_trader.Runtime.Runner.Inputs.{Tables, build_cycle_inputs}
use crypto_ai_trader.Runtime.Runner.Inputs.Consistent.{
  IsConsistent, build_cycle_inputs-IsConsistent,
}
use crypto_ai_trader.Base.{◌≡◌, refl, String, List, All_member, arith, true, false, Result, ok}
use crypto_ai_trader.Decimal.{
  Decimal, nought, hundred, le, lt, neg, sub, mul, le_trans, IsPos-of_lt, div-IsNonneg,
  mul-IsNonneg, sub-IsNonneg, neg-le-nought,
}
use crypto_ai_trader.Risk.Profiles.{RiskProfile, daily_pnl_pct}
use crypto_ai_trader.Risk.State.{DailyLossDecision, normal, loss_decision, classify_daily_loss}
use crypto_ai_trader.Risk.State.Severity.{IsGraded}

-- A day that started with at most the initial cash is judged normal whatever was lost since, if
-- the equity is never below the initial cash, as the runner computes it. The thresholds of the
-- profile are positive and rise.
classify_daily_loss_pinned :
    (cash day_start equity : Decimal) (p : RiskProfile)
    → lt nought day_start ≡ true
    → le day_start cash ≡ true
    → le cash equity ≡ true
    → lt nought p.daily_loss_caution_pct ≡ true
    → IsGraded p
    → (d : DailyLossDecision) × (classify_daily_loss day_start equity p ≡ ok d)
      × (d.risk_state ≡ normal)
unfolding classify_daily_loss loss_decision daily_pnl_pct
classify_daily_loss_pinned cash day_start equity p started small pinned cautious graded =
    let gain = sub-IsNonneg equity day_start (le_trans day_start cash equity small pinned) in
    let (ratio, e, ratio_fine) =
      div-IsNonneg (sub equity day_start) day_start gain (IsPos-of_lt day_start started) in
    let pnl = mul ratio hundred in
    let loss = neg-le-nought pnl (mul-IsNonneg ratio hundred ratio_fine refl) in
    let positive : le day_start nought ≡ false = ground arith in
    (
      loss_decision (neg pnl) p,
      rw (positive, e) refl,
      ground (
        arith,
        le_trans p.daily_loss_caution_pct p.daily_loss_no_new_positions_pct (neg pnl),
        le_trans p.daily_loss_no_new_positions_pct p.daily_loss_global_pause_pct (neg pnl),
        le_trans p.daily_loss_caution_pct (neg pnl) nought,
      ),
    )

-- No input that the runner builds trips the daily-loss breaker on a day whose baseline is positive
-- and at most the initial cash: the loss is judged normal, however low the account has fallen.
pub build_cycle_inputs-pinned :
    (text_of : Decimal → String) (decimal_of : String → Result Decimal) (t : Tables)
    (symbols : List String) (now : Time) (cash : Decimal) (log : List BaselineSet) (p : RiskProfile)
    {inputs : List CycleInput} {i : CycleInput}
    → (build_cycle_inputs text_of decimal_of t symbols now cash log).1 ≡ ok inputs
    → Memᴰ i inputs
    → lt nought i.day_start_equity ≡ true
    → le i.day_start_equity cash ≡ true
    → lt nought p.daily_loss_caution_pct ≡ true
    → IsGraded p
    → (d : DailyLossDecision) × (classify_daily_loss i.day_start_equity i.account_equity p ≡ ok d)
      × (d.risk_state ≡ normal)
build_cycle_inputs-pinned text_of decimal_of t symbols now cash log p {inputs} {i} h found started
      small cautious graded =
    let (_, consistent) =
      build_cycle_inputs-IsConsistent text_of decimal_of t symbols now cash log h in
    let (_, _, pinned, _, _, _, _) = All_member (IsConsistent cash now) inputs consistent found in
    classify_daily_loss_pinned cash i.day_start_equity i.account_equity p started small pinned
      cautious graded
