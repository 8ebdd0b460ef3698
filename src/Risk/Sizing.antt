-- ===== src/Risk/Sizing.antt =====
-- trading/risk/position_sizing.py: the notional of an approved trade.
pub mod Bounds
use crypto_ai_trader.Base.{
  String, List, [], ◌∷◌, Bool, true, false, not, if◌then◌else◌, Result, ok, ◌>>=◌,
}
use crypto_ai_trader.Decimal.{Decimal, dec, nought, hundred, le, lt, sub, mul, div, min}
use crypto_ai_trader.Strategies.Base.{TradeCandidate}
use crypto_ai_trader.Risk.Profiles.{RiskProfile}
use crypto_ai_trader.Risk.PreTrade.{PreTradeRiskDecision}

pub record PositionSizeResult : Type 0 where
  pub approved : Bool
  pub notional_usdt : Decimal
  pub max_loss_usdt : Decimal
  pub reject_reasons : List String

-- The default of `min_notional_usdt`.
abbrev pub default_min_notional : Decimal
default_min_notional = dec 10 0

abbrev pub size_rejected : Decimal → List String → PositionSizeResult
size_rejected max_loss reasons = record {
  approved = false;
  notional_usdt = nought;
  max_loss_usdt = max_loss;
  reject_reasons = reasons;
}

-- The last test, on the capped notional.
unfoldable pub settle_notional : Decimal → Decimal → Decimal → PositionSizeResult
settle_notional final_notional max_loss min_notional =
    if lt final_notional min_notional
    then size_rejected max_loss ("below_min_notional" ∷ [])
    else record {
      approved = true;
      notional_usdt = final_notional;
      max_loss_usdt = max_loss;
      reject_reasons = [];
    }

-- The arithmetic, from the stop distance on.
unfoldable pub size_from_stop :
    TradeCandidate
    → PreTradeRiskDecision
    → RiskProfile
    → Decimal
    → Decimal
    → Decimal
    → Result PositionSizeResult
size_from_stop c d p equity min_notional stop_distance = do
  target_loss ← div (mul equity p.max_trade_risk_pct) hundred
  hard_cap_loss ← div (mul equity p.max_trade_risk_hard_cap_pct) hundred
  let max_loss = min target_loss hard_cap_loss
  loss_fraction ← div stop_distance c.entry_reference
  raw_notional ← div max_loss loss_fraction
  let adjusted_notional = mul raw_notional d.size_multiplier
  symbol_cap ← div (mul equity p.max_symbol_position_pct) hundred
  ok (settle_notional (min adjusted_notional symbol_cap) max_loss min_notional)

unfoldable pub calculate_position_size :
    TradeCandidate
    → PreTradeRiskDecision
    → RiskProfile
    → Decimal
    → Decimal
    → Result PositionSizeResult
calculate_position_size c d p equity min_notional =
    if not d.approved
    then ok (size_rejected nought ("pre_trade_rejected" ∷ d.reject_reasons))
    else if le (sub c.entry_reference c.stop_reference) nought
    then ok (size_rejected nought ("invalid_stop_distance" ∷ []))
    else size_from_stop c d p equity min_notional (sub c.entry_reference c.stop_reference)
