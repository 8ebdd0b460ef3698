-- ===== src/Risk/Profiles.antt =====
-- trading/risk/profiles.py: the equity tiers and the percentages of a day's result.
pub mod Tiers
use crypto_ai_trader.Base.{
  String, List, [], ◌∷◌, Option, none, some, Bool, true, false, ◌&&◌, ◌||◌, not, if◌then◌else◌,
  last?, Result, ok, err, ◌>>=◌, ◌>>◌, raise_if, value_error,
}
use crypto_ai_trader.Decimal.{Decimal, dec, nought, hundred, le, lt, sub, mul, div}

pub record RiskProfile : Type 0 where
  pub name : String
  pub equity_min_usdt : Decimal
  pub equity_max_usdt : Option Decimal
  pub daily_loss_caution_pct : Decimal
  pub daily_loss_no_new_positions_pct : Decimal
  pub daily_loss_global_pause_pct : Decimal
  pub max_trade_risk_pct : Decimal
  pub max_trade_risk_hard_cap_pct : Decimal
  pub max_symbol_position_pct : Decimal
  pub max_total_position_pct : Decimal

abbrev pub small_balanced : RiskProfile
small_balanced = record {
  name = "small_balanced";
  equity_min_usdt = dec 0 0;
  equity_max_usdt = some (dec 1000 0);
  daily_loss_caution_pct = dec 5 0;
  daily_loss_no_new_positions_pct = dec 7 0;
  daily_loss_global_pause_pct = dec 10 0;
  max_trade_risk_pct = dec 15 1;
  max_trade_risk_hard_cap_pct = dec 20 1;
  max_symbol_position_pct = dec 30 0;
  max_total_position_pct = dec 70 0;
}

abbrev pub medium_conservative : RiskProfile
medium_conservative = record {
  name = "medium_conservative";
  equity_min_usdt = dec 1000 0;
  equity_max_usdt = some (dec 10_000 0);
  daily_loss_caution_pct = dec 3 0;
  daily_loss_no_new_positions_pct = dec 5 0;
  daily_loss_global_pause_pct = dec 7 0;
  max_trade_risk_pct = dec 10 1;
  max_trade_risk_hard_cap_pct = dec 15 1;
  max_symbol_position_pct = dec 25 0;
  max_total_position_pct = dec 60 0;
}

abbrev pub large_conservative : RiskProfile
large_conservative = record {
  name = "large_conservative";
  equity_min_usdt = dec 10_000 0;
  equity_max_usdt = none;
  daily_loss_caution_pct = dec 2 0;
  daily_loss_no_new_positions_pct = dec 4 0;
  daily_loss_global_pause_pct = dec 5 0;
  max_trade_risk_pct = dec 5 1;
  max_trade_risk_hard_cap_pct = dec 10 1;
  max_symbol_position_pct = dec 20 0;
  max_total_position_pct = dec 50 0;
}

abbrev pub default_risk_profiles : List RiskProfile
default_risk_profiles = small_balanced ∷ medium_conservative ∷ large_conservative ∷ []

abbrev pub below_max : Decimal → Option Decimal → Bool
below_max equity none = true
below_max equity (some top) = lt equity top

-- The tests of the loop body.
unfoldable pub in_tier : Decimal → RiskProfile → Bool
in_tier equity p = le p.equity_min_usdt equity && below_max equity p.equity_max_usdt

-- The loop: the first profile whose tier holds the equity.
unfoldable pub first_tier : Decimal → List RiskProfile → Option RiskProfile
unfolding in_tier
first_tier equity [] = none
first_tier equity (p ∷ ps) = if in_tier equity p then some p else first_tier equity ps

-- `profiles[-1]`, reached when no tier holds; an empty list raised before.
abbrev pub or_last : Option RiskProfile → List RiskProfile → Result RiskProfile
or_last (some p) ps = ok p
or_last none ps = elim (last? ps) [ none ↦ err value_error | some p ↦ ok p ]

unfoldable pub select_risk_profile : Decimal → Option (List RiskProfile) → Result RiskProfile
unfolding first_tier
select_risk_profile equity given = do
  raise_if (lt equity nought) value_error
  let profiles = elim given as (λ _. List RiskProfile) [
    | none ↦ default_risk_profiles
    | some ps ↦ ps
  ]
  or_last (first_tier equity profiles) profiles

unfoldable pub daily_pnl_pct : Decimal → Decimal → Result Decimal
daily_pnl_pct day_start current = do
  raise_if (le day_start nought) value_error
  ratio ← div (sub current day_start) day_start
  ok (mul ratio hundred)

unfoldable pub pct_to_amount : Decimal → Decimal → Result Decimal
pct_to_amount equity pct = do
  raise_if (lt equity nought) value_error
  raise_if (lt pct nought) value_error
  div (mul equity pct) hundred
