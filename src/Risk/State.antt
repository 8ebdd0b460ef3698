-- ===== src/Risk/State.antt =====
-- trading/risk/state.py: the daily-loss circuit breaker.
pub mod Severity
use crypto_ai_trader.Base.{Bool, true, false, not, if◌then◌else◌, Result, ok, err, ◌>>=◌}
use crypto_ai_trader.Decimal.{Decimal, le, neg}
use crypto_ai_trader.Risk.Profiles.{RiskProfile, daily_pnl_pct}

pub data RiskState : Type 0 where
  normal degraded no_new_positions global_pause emergency_stop : RiskState

-- The texts of `reason`, with the numbers that they show.
pub data LossReason : Type 0 where
  at_global_pause at_no_new_positions at_caution : Decimal → Decimal → LossReason
  within_normal : Decimal → LossReason

pub record DailyLossDecision : Type 0 where
  pub risk_state : RiskState
  pub daily_pnl_pct : Decimal
  pub reason : LossReason

-- The ladder of tests, on the day's loss in percent.
unfoldable pub loss_decision : Decimal → RiskProfile → DailyLossDecision
loss_decision loss p =
    if le p.daily_loss_global_pause_pct loss
    then record {
      risk_state = global_pause;
      daily_pnl_pct = neg loss;
      reason = at_global_pause loss p.daily_loss_global_pause_pct;
    }
    else if le p.daily_loss_no_new_positions_pct loss
    then record {
      risk_state = no_new_positions;
      daily_pnl_pct = neg loss;
      reason = at_no_new_positions loss p.daily_loss_no_new_positions_pct;
    }
    else if le p.daily_loss_caution_pct loss
    then record {
      risk_state = degraded;
      daily_pnl_pct = neg loss;
      reason = at_caution loss p.daily_loss_caution_pct;
    }
    else record { risk_state = normal; daily_pnl_pct = neg loss; reason = within_normal loss }

unfoldable pub classify_daily_loss : Decimal → Decimal → RiskProfile → Result DailyLossDecision
unfolding loss_decision
classify_daily_loss day_start current p = do
  pnl ← daily_pnl_pct day_start current
  ok (loss_decision (neg pnl) p)
