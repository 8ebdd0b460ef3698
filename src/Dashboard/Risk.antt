-- ===== src/Dashboard/Risk.antt =====
-- `_resolve_risk_state` and `_resolve_risk_info` of trading/dashboard_api/routes_runtime.py: the
-- risk state from today's baseline, the recorded fills and the latest candles. What `Decimal` reads
-- from a text is a parameter, and the text of a candle's price is read back as the price.
pub mod Agreement
use crypto_ai_trader.Base.{
  ℕ, String, List, [], ◌∷◌, Option, none, some, Bool, true, false, not, ◌==◌, if◌then◌else◌, Result,
  ok, err, ◌>>=◌,
}
use crypto_ai_trader.Base.Dict.{Dict, insert}
use crypto_ai_trader.Decimal.{
  Decimal, dec, nought, hundred, eq, sub, mul, div, max_of, quantize_half_even,
}
use crypto_ai_trader.Strategies.Base.{Time}
use crypto_ai_trader.Execution.PaperExecutor.{PaperFill}
use crypto_ai_trader.MarketData.Schemas.{CandleData}
use crypto_ai_trader.Portfolio.Accounting.{
  Position, PortfolioAccount, replay, total_equity, apply_fill, unless_raised,
}
use crypto_ai_trader.Risk.Profiles.{select_risk_profile}
use crypto_ai_trader.Risk.State.{RiskState, LossReason, DailyLossDecision, classify_daily_loss}
use crypto_ai_trader.Runtime.Runner.Baseline.{date_of, BaselineSet, has_date, latest_event}
use crypto_ai_trader.Runtime.Runner.Inputs.{account_of}

abbrev pub initial_cash : Decimal
initial_cash = dec 500 0

-- The rows that are read: the `day_baseline_set` events, the newest first, the fills in their
-- order, and the latest 15m candle of a symbol.
pub record RiskRows : Type 0 where
  pub baselines : List BaselineSet
  pub fills : List PaperFill
  pub latest : String → Option CandleData

abbrev pub mark_price : Option CandleData → Position → Decimal
mark_price none p = p.avg_entry_price
mark_price (some candle) p = candle.close

-- The loop over the open positions.
unfoldable pub position_prices :
    (String → Option CandleData) → Dict Position → Dict Decimal → Dict Decimal
position_prices latest [] acc = acc
position_prices latest ((symbol, p) ∷ positions) acc =
    position_prices latest positions (insert symbol (mark_price (latest symbol) p) acc)

abbrev pub equity_of :
    (String → Option CandleData) → PortfolioAccount × Result (Unit {0}) → Result Decimal
equity_of latest (account, err why) = err why
equity_of latest (account, ok replayed) =
    ok (max_of (total_equity (position_prices latest account.positions []) account) nought)

-- The account rebuilt from the fills and marked to the latest prices.
unfoldable pub current_equity : RiskRows → Result Decimal
unfolding position_prices replay total_equity
current_equity rows = equity_of rows.latest (replay rows.fills (account_of initial_cash))

unfoldable pub decide_loss : Decimal → Decimal → Result DailyLossDecision
decide_loss day_start equity =
    select_risk_profile equity none >>= λ profile. classify_daily_loss day_start equity profile

-- An exception makes the state unavailable, which is `none`.
abbrev pub state_or_none : Result DailyLossDecision → Option RiskState
state_or_none (err why) = none
state_or_none (ok decision) = some decision.risk_state

pub data RiskReason : Type 0 where
  missing_baseline baseline_not_of_today unreadable : RiskReason
  decided : LossReason → RiskReason

pub record RiskInfo : Type 0 where
  pub risk_state : Option RiskState
  pub day_start_equity : Decimal
  pub current_equity : Decimal
  pub daily_pnl_pct : Decimal
  pub risk_reason : RiskReason

abbrev pub no_info : RiskReason → RiskInfo
no_info reason = record {
  risk_state = none;
  day_start_equity = nought;
  current_equity = nought;
  daily_pnl_pct = nought;
  risk_reason = reason;
}

abbrev pub info_or_none : Result RiskInfo → RiskInfo
info_or_none (err why) = no_info unreadable
info_or_none (ok info) = info

abbrev pub pnl_pct : Decimal → Decimal → Result Decimal
pnl_pct day_start equity =
    if not (eq day_start nought)
    then (div (sub equity day_start) day_start >>= λ ratio. ok (mul ratio hundred))
    else ok nought

abbrev pub info_of : Decimal → Decimal → DailyLossDecision → Decimal → RiskInfo
info_of day_start equity decision pct = record {
  risk_state = some decision.risk_state;
  day_start_equity = day_start;
  current_equity = equity;
  daily_pnl_pct = pct;
  risk_reason = decided decision.reason;
}

-- `_resolve_risk_info` has its own copy of every step. The text of today's baseline: nothing without
-- one, and for no event another reason.
pub data TodaysBaseline : Type 0 where
  no_event outdated : TodaysBaseline
  todays : String → TodaysBaseline

abbrev pub dated : Option String → Bool → TodaysBaseline
dated none is_today = outdated
dated (some text) true = todays text
dated (some text) false = outdated

abbrev pub baseline_of : Option BaselineSet → ℕ → TodaysBaseline
baseline_of none today = no_event
baseline_of (some event) today = dated event.baseline (has_date event.date today)

-- The loop over the fills.
unfoldable pub info_account :
    List PaperFill → PortfolioAccount → PortfolioAccount × Result (Unit {0})
info_account [] a = (a, ok tt)
info_account (f ∷ fs) a =
    let done = apply_fill f a in let rest = info_account fs done.0 in unless_raised done.1 done rest

abbrev pub info_price : Position → Option CandleData → Decimal
info_price p (some latest) = latest.close
info_price p none = p.avg_entry_price

-- The loop over the open positions.
unfoldable pub info_prices :
    (String → Option CandleData) → Dict Position → Dict Decimal → Dict Decimal
info_prices latest [] prices = prices
info_prices latest ((symbol, p) ∷ rest) prices =
    info_prices latest rest (insert symbol (info_price p (latest symbol)) prices)

unfoldable pub info_equity : RiskRows → Result Decimal
unfolding info_account info_prices total_equity
info_equity rows =
    let (account, replayed) = info_account rows.fills (account_of initial_cash) in
    replayed >>= λ done.
    ok (max_of (total_equity (info_prices rows.latest account.positions []) account) nought)

unfoldable pub info_decision : Decimal → Decimal → Result DailyLossDecision
info_decision day_start equity = do
  profile ← select_risk_profile equity none
  classify_daily_loss day_start equity profile

module _ (decimal_of : String → Result Decimal) where
  -- `baseline_str is None or baseline_date != str(today_utc)`, and what follows.
  abbrev pub state_dated : RiskRows → Option String → Bool → Option RiskState
  state_dated rows none is_today = none
  state_dated rows (some text) false = none
  state_dated rows (some text) true = state_or_none (
      decimal_of text >>= λ day_start.
      current_equity rows >>= λ equity. decide_loss day_start equity)

  abbrev pub state_of_event : RiskRows → ℕ → Option BaselineSet → Option RiskState
  state_of_event rows today none = none
  state_of_event rows today (some event) =
      state_dated rows event.baseline (has_date event.date today)

  unfoldable pub resolve_risk_state : Time → RiskRows → Option RiskState
  unfolding current_equity decide_loss
  resolve_risk_state now rows = state_of_event rows (date_of now) (latest_event rows.baselines)

  abbrev pub info_with_baseline : RiskRows → TodaysBaseline → RiskInfo
  info_with_baseline rows no_event = no_info missing_baseline
  info_with_baseline rows outdated = no_info baseline_not_of_today
  info_with_baseline rows (todays text) = info_or_none (
      decimal_of text >>= λ day_start. info_equity rows >>= λ equity.
      info_decision day_start equity >>= λ decision. pnl_pct day_start equity >>= λ pct.
      quantize_half_even pct 2 >>= λ shown. ok (info_of day_start equity decision shown))

  unfoldable pub resolve_risk_info : Time → RiskRows → RiskInfo
  unfolding info_equity info_decision
  resolve_risk_info now rows =
      info_with_baseline rows (baseline_of (latest_event rows.baselines) (date_of now))
