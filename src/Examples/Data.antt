-- ===== src/Examples/Data.antt =====
-- The inputs of the runs: a small account that trades BTCUSDT.
use crypto_ai_trader.Base.{
  ℕ, zero, suc, ◌+◌, ◌*◌, List, [], ◌∷◌, none, some, true, false, Result, ok, err,
}
use crypto_ai_trader.Decimal.{dec, nought}
use crypto_ai_trader.Strategies.Base.{buy, sell, TradeCandidate}
use crypto_ai_trader.Strategies.Exits.{ExitEngine, hour}
use crypto_ai_trader.Risk.PreTrade.{PortfolioRiskSnapshot}
use crypto_ai_trader.Execution.Gate.{LiveTradingLock}
use crypto_ai_trader.Execution.PaperExecutor.{PaperFill, PaperExecutor}
use crypto_ai_trader.Portfolio.Accounting.{Position, PortfolioAccount}
use crypto_ai_trader.MarketData.Schemas.{CandleData}

-- The value of a call, or a value to fall back on.
abbrev pub returned {ℓ} : {A : Type ℓ} → Result A → A → A
returned (ok a) fallback = a
returned (err e) fallback = fallback

abbrev pub btc_candidate : TradeCandidate
btc_candidate = record {
  strategy_name = "multi_timeframe_momentum";
  symbol = "BTCUSDT";
  entry_reference = dec 100 0;
  stop_reference = dec 95 0;
  rule_confidence = dec 70 2;
  reason = "15m/1h momentum aligned with non-bearish 4h context.";
  created_at = 1000 * hour;
}

abbrev pub calm_snapshot : PortfolioRiskSnapshot
calm_snapshot = record {
  account_equity = dec 480 0;
  day_start_equity = dec 500 0;
  total_position_pct = dec 20 0;
  symbol_position_pct = dec 10 0;
  open_positions = 1;
  daily_order_count = 2;
  symbol_daily_trade_count = 1;
  consecutive_losses = 0;
  data_is_fresh = true;
  kill_switch_enabled = false;
}

abbrev pub unlocked : LiveTradingLock
unlocked = record { enabled = false; reason = none }

abbrev pub executor : PaperExecutor
executor = record { fee_bps = dec 10 0; slippage_bps = dec 5 0 }

abbrev pub first_buy : PaperFill
first_buy = record {
  symbol = "BTCUSDT";
  side = buy;
  price = dec 100 0;
  qty = dec 2 0;
  fee_usdt = dec 2 1;
  slippage_bps = dec 5 0;
  filled_at = 1000 * hour;
}

abbrev pub half_sale : PaperFill
half_sale = record {
  symbol = "BTCUSDT";
  side = sell;
  price = dec 110 0;
  qty = dec 1 0;
  fee_usdt = dec 11 2;
  slippage_bps = dec 5 0;
  filled_at = 1001 * hour;
}

abbrev pub btc_position : Position
btc_position = record {
  symbol = "BTCUSDT";
  qty = dec 2 0;
  avg_entry_price = dec 100 0;
  fees_paid_usdt = dec 2 1;
  opened_at = some (1000 * hour);
  stop_reference = some (dec 95 0);
}

abbrev pub empty_account : PortfolioAccount
empty_account = record {
  cash_balance = dec 500 0;
  positions = [];
  realized_pnl_total_usdt = nought;
}

abbrev pub long_account : PortfolioAccount
long_account = record {
  cash_balance = dec 300 0;
  positions = ("BTCUSDT", btc_position) ∷ [];
  realized_pnl_total_usdt = nought;
}

abbrev pub engine : ExitEngine
engine = record { hard_stop_reference = none; take_profit_pct = dec 5 0; max_hours = 24 }

abbrev candle : ℕ → CandleData
candle n = record {
  symbol = "BTCUSDT";
  timeframe = "15m";
  open_time = n * hour;
  close_time = (n + 1) * hour;
  open_price = dec (100 + n) 0;
  high = dec (102 + n) 0;
  low = dec (99 + n) 0;
  close = dec (101 + n) 0;
  volume = dec 10 0;
  source = "binance";
}

-- `n` candles of a steady rise, the latest first.
abbrev pub rising : ℕ → List CandleData
rising zero = []
rising (suc n) = candle n ∷ rising n
