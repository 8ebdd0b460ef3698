-- ===== src/Risk/PreTrade.antt =====
-- trading/risk/pre_trade.py: the checks between a scored candidate and its sizing.
pub mod Approval
use crypto_ai_trader.Base.{
  ℕ, String, List, [], ◌∷◌, ◌++◌, Bool, true, false, not, if◌then◌else◌, leb, Result, ok, ◌>>=◌,
}
use crypto_ai_trader.Decimal.{Decimal, dec, nought, one, le}
use crypto_ai_trader.Strategies.Base.{TradeCandidate}
use crypto_ai_trader.Risk.Profiles.{RiskProfile}
use crypto_ai_trader.Risk.State.{
  RiskState, normal, degraded, no_new_positions, global_pause, emergency_stop, DailyLossDecision,
  classify_daily_loss,
}

pub record PortfolioRiskSnapshot : Type 0 where
  pub account_equity : Decimal
  pub day_start_equity : Decimal
  pub total_position_pct : Decimal
  pub symbol_position_pct : Decimal
  pub open_positions : ℕ
  pub daily_order_count : ℕ
  pub symbol_daily_trade_count : ℕ
  pub consecutive_losses : ℕ
  pub data_is_fresh : Bool
  pub kill_switch_enabled : Bool

pub record PreTradeRiskDecision : Type 0 where
  pub approved : Bool
  pub risk_state : RiskState
  pub size_multiplier : Decimal
  pub reject_reasons : List String

-- The keyword arguments with their defaults.
pub record OrderLimits : Type 0 where
  pub max_daily_orders : ℕ
  pub max_symbol_daily_trades : ℕ
  pub max_consecutive_losses : ℕ

abbrev pub default_limits : OrderLimits
default_limits = record {
  max_daily_orders = 15;
  max_symbol_daily_trades = 4;
  max_consecutive_losses = 4;
}

abbrev pub rejected : RiskState → List String → PreTradeRiskDecision
rejected state reasons = record {
  approved = false;
  risk_state = state;
  size_multiplier = nought;
  reject_reasons = reasons;
}

-- `if test: reject_reasons.append(reason)`
unfoldable pub note_if : Bool → String → List String → List String
note_if test reason reasons = if test then reasons ++ reason ∷ [] else reasons

-- The position, order count and loss streak checks, in their order.
unfoldable pub limit_reasons : PortfolioRiskSnapshot → RiskProfile → OrderLimits → List String
limit_reasons s p limits =
    note_if (leb limits.max_consecutive_losses s.consecutive_losses)
      "max_consecutive_losses_reached"
      (note_if (leb limits.max_symbol_daily_trades s.symbol_daily_trade_count)
        "max_symbol_daily_trades_reached"
        (note_if (leb limits.max_daily_orders s.daily_order_count) "max_daily_orders_reached" (
          note_if (le p.max_symbol_position_pct s.symbol_position_pct) "max_symbol_position_reached"
            (note_if (le p.max_total_position_pct s.total_position_pct) "max_total_position_reached"
              []))))

abbrev pub approve : RiskState → PreTradeRiskDecision
approve degraded = record {
  approved = true;
  risk_state = degraded;
  size_multiplier = dec 5 1;
  reject_reasons = [];
}
approve _ = record {
  approved = true;
  risk_state = normal;
  size_multiplier = one;
  reject_reasons = [];
}

-- What follows the loop of checks: any reason rejects.
abbrev pub conclude : RiskState → List String → PreTradeRiskDecision
conclude state [] = approve state
conclude state (r ∷ rs) = rejected no_new_positions (r ∷ rs)

-- From the classified daily loss on.
unfoldable pub after_daily_loss :
    RiskState → PortfolioRiskSnapshot → RiskProfile → OrderLimits → PreTradeRiskDecision
unfolding limit_reasons
after_daily_loss no_new_positions s p limits =
    rejected no_new_positions ("daily_loss_no_new_positions" ∷ [])
after_daily_loss global_pause s p limits = rejected global_pause ("daily_loss_global_pause" ∷ [])
after_daily_loss state s p limits = conclude state (limit_reasons s p limits)

unfoldable pub evaluate_pre_trade_risk :
    TradeCandidate → PortfolioRiskSnapshot → RiskProfile → OrderLimits → Result PreTradeRiskDecision
evaluate_pre_trade_risk candidate s p limits =
    if s.kill_switch_enabled
    then ok (rejected emergency_stop ("kill_switch_enabled" ∷ []))
    else if not s.data_is_fresh
    then ok (rejected no_new_positions ("stale_market_data" ∷ []))
    else (classify_daily_loss s.day_start_equity s.account_equity p >>= λ d.
        ok (after_daily_loss d.risk_state s p limits))
