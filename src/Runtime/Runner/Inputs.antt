-- ===== src/Runtime/Runner/Inputs.antt =====
-- `_build_cycle_inputs`: what the runner computes from the database before the cycles of an
-- iteration. The rows that it reads are a record. Times are counted from a midnight UTC.
pub mod Consistent
pub mod Pinned
pub mod Unstopped
use mathlib.Core.List.{reverse}
use crypto_ai_trader.Base.{
  ℕ, zero, suc, ◌+◌, ◌-◌, ◌*◌, String, List, [], ◌∷◌, Option, none, some, Bool, true, false,
  if◌then◌else◌, ltb, leb, Result, ok, err, type_error, ◌>>=◌, length, take, drop,
}
use crypto_ai_trader.Base.Dict.{Dict, lookup, insert}
use crypto_ai_trader.Decimal.{Decimal, nought, hundred, lt, add, mul, div, max_of}
use crypto_ai_trader.Strategies.Base.{Time}
use crypto_ai_trader.Execution.PaperExecutor.{PaperFill}
use crypto_ai_trader.MarketData.Schemas.{CandleData}
use crypto_ai_trader.Portfolio.Accounting.{
  Position, PortfolioAccount, replay, price_or, total_equity,
}
use crypto_ai_trader.Runtime.PaperCycle.{CycleInput}
use crypto_ai_trader.Runtime.Runner.Baseline.{
  date_of, day_length, BaselineSet, get_or_create_day_baseline,
}

-- The columns of an order that are read.
pub record OrderRow : Type 0 where
  pub symbol : String
  pub created_at : Time

-- `list_fills_chronological`, the orders with the newest first, whether the database gives their
-- times back with a time zone (SQLite does not), and `get_latest(symbol, "15m")`.
pub record Tables : Type 0 where
  pub fills : List PaperFill
  pub orders : List OrderRow
  pub keeps_zones : Bool
  pub latest : String → Option CandleData

abbrev pub stale_threshold_seconds : ℕ
stale_threshold_seconds = 1800

-- The loop over the symbols that collects prices and candles.
unfoldable pub latest_candles :
    (String → Option CandleData) → List String → Dict CandleData → Dict CandleData
latest_candles latest [] acc = acc
latest_candles latest (symbol ∷ symbols) acc = elim (latest symbol) [
  | none ↦ latest_candles latest symbols acc
  | some candle ↦ latest_candles latest symbols (insert symbol candle acc)
]

unfoldable pub market_prices :
    (String → Option CandleData) → List String → Dict Decimal → Dict Decimal
market_prices latest [] acc = acc
market_prices latest (symbol ∷ symbols) acc = elim (latest symbol) [
  | none ↦ market_prices latest symbols acc
  | some candle ↦ market_prices latest symbols (insert symbol candle.close acc)
]

-- Only the first candle that was found is looked at.
abbrev pub data_is_fresh : Time → Dict CandleData → Bool
data_is_fresh now [] = false
data_is_fresh now ((symbol, candle) ∷ rest) =
    ltb now (candle.open_time + stale_threshold_seconds * 1_000_000)

-- The value of every position, and their total.
unfoldable pub position_values :
    Dict Decimal → Dict Position → Dict Decimal × Decimal → Dict Decimal × Decimal
position_values prices [] acc = acc
position_values prices ((symbol, p) ∷ positions) (values, total) =
    let value = mul p.qty (price_or prices symbol p.avg_entry_price) in
    position_values prices positions (insert symbol value values, add total value)

abbrev pub percent_of : Decimal → Decimal → Result Decimal
percent_of value equity =
    if lt nought equity then (div value equity >>= λ r. ok (mul r hundred)) else ok nought

-- `[o for o in recent_orders if o.created_at >= today_start]`: a time without a zone cannot be
-- compared with one that has a zone.
unfoldable pub orders_since : (keeps_zones : Bool) → Time → List OrderRow → Result (List OrderRow)
orders_since true start [] = ok []
orders_since true start (o ∷ os) =
    orders_since true start os >>= λ rest. ok (if leb start o.created_at then o ∷ rest else rest)
orders_since false start [] = ok []
orders_since false start (o ∷ os) = err type_error

abbrev pub count_of : Option ℕ → ℕ
count_of none = 0
count_of (some n) = n

-- `symbol_daily_trade_count_map`
unfoldable pub trade_counts : List OrderRow → Dict ℕ → Dict ℕ
trade_counts [] counts = counts
trade_counts (o ∷ os) counts =
    trade_counts os (insert o.symbol (count_of (lookup o.symbol counts) + 1) counts)

abbrev pub recent_fills : List PaperFill → List PaperFill
recent_fills fills = if ltb 10 (length fills) then drop (length fills - 10) fills else fills

-- The loop over the recent fills, the newest first: a fill without an open position is skipped,
-- and the first one whose position is not at a loss ends the count.
unfoldable pub consecutive_losses : Dict Decimal → Dict Position → List PaperFill → ℕ → ℕ
consecutive_losses prices positions [] n = n
consecutive_losses prices positions (f ∷ fs) n = elim (lookup f.symbol positions) [
  | none ↦ consecutive_losses prices positions fs n
  | some p ↦ elim (lt (price_or prices f.symbol p.avg_entry_price) p.avg_entry_price) [
    | true ↦ consecutive_losses prices positions fs (n + 1)
    | false ↦ n
  ]
]

abbrev pub value_of : Option Decimal → Decimal
value_of none = nought
value_of (some value) = value

-- What the inputs of all symbols share.
pub record Snapshot : Type 0 where
  pub now : Time
  pub day_start_equity : Decimal
  pub account_equity : Decimal
  pub prices : Dict Decimal
  pub position_values : Dict Decimal
  pub total_position_pct : Decimal
  pub positions : Dict Position
  pub daily_order_count : ℕ
  pub trade_counts : Dict ℕ
  pub consecutive_losses : ℕ
  pub data_is_fresh : Bool

-- The input of a symbol whose position has the percentage `pct`.
abbrev pub input_of : Snapshot → String → Decimal → CycleInput
input_of s symbol pct = record {
  symbol = symbol;
  now = s.now;
  day_start_equity = s.day_start_equity;
  account_equity = s.account_equity;
  market_prices = s.prices;
  total_position_pct = s.total_position_pct;
  symbol_position_pct = pct;
  open_positions = length s.positions;
  daily_order_count = s.daily_order_count;
  symbol_daily_trade_count = count_of (lookup symbol s.trade_counts);
  consecutive_losses = s.consecutive_losses;
  data_is_fresh = s.data_is_fresh;
  kill_switch_enabled = false;
  current_position = lookup symbol s.positions;
}

-- The last loop.
unfoldable pub inputs_for : Snapshot → List String → Result (List CycleInput)
inputs_for s [] = ok []
inputs_for s (symbol ∷ symbols) =
    percent_of (value_of (lookup symbol s.position_values)) s.account_equity >>= λ pct.
    inputs_for s symbols >>= λ rest. ok (input_of s symbol pct ∷ rest)

abbrev pub account_of : Decimal → PortfolioAccount
account_of cash = record { cash_balance = cash; positions = []; realized_pnl_total_usdt = nought }

-- The snapshot before the baseline is known.
abbrev pub snapshot_of :
    Tables
    → List String
    → Time
    → PortfolioAccount
    → Dict Decimal
    → Decimal
    → Decimal
    → List OrderRow
    → Snapshot
snapshot_of t symbols now account prices equity total_pct today = record {
  now = now;
  day_start_equity = nought;
  account_equity = equity;
  prices = prices;
  position_values = (position_values prices account.positions ([], nought)).0;
  total_position_pct = total_pct;
  positions = account.positions;
  daily_order_count = length today;
  trade_counts = trade_counts today [];
  consecutive_losses =
      consecutive_losses prices account.positions (reverse (recent_fills t.fills)) 0;
  data_is_fresh = data_is_fresh now (latest_candles t.latest symbols []);
}

module _ (text_of : Decimal → String) (decimal_of : String → Result Decimal) where
  -- What follows the selection of today's orders: the counts, the baseline and the inputs.
  abbrev pub with_baseline :
      List String
      → Snapshot
      → List BaselineSet × Result Decimal
      → List BaselineSet × Result (List CycleInput)
  with_baseline symbols s (log, outcome) =
      (log, outcome >>= λ baseline. inputs_for (record s { day_start_equity = baseline }) symbols)

  abbrev pub with_orders :
      Tables
      → List String
      → Time
      → PortfolioAccount
      → Dict Decimal
      → Decimal
      → Decimal
      → List BaselineSet
      → Result (List OrderRow)
      → List BaselineSet × Result (List CycleInput)
  with_orders t symbols now account prices equity total_pct log (err why) = (log, err why)
  with_orders t symbols now account prices equity total_pct log (ok today) =
      with_baseline symbols (snapshot_of t symbols now account prices equity total_pct today)
        (get_or_create_day_baseline text_of decimal_of now equity log)

  -- What follows the total percentage.
  abbrev pub with_total :
      Tables
      → List String
      → Time
      → PortfolioAccount
      → Dict Decimal
      → Decimal
      → List BaselineSet
      → Result Decimal
      → List BaselineSet × Result (List CycleInput)
  with_total t symbols now account prices equity log (err why) = (log, err why)
  with_total t symbols now account prices equity log (ok total_pct) =
      with_orders t symbols now account prices equity total_pct log
        (orders_since t.keeps_zones (date_of now * day_length) (take 1000 t.orders))

  -- What follows the replay of the fills.
  abbrev pub with_account :
      Tables
      → List String
      → Time
      → Decimal
      → List BaselineSet
      → PortfolioAccount × Result (Unit {0})
      → List BaselineSet × Result (List CycleInput)
  with_account t symbols now cash log (account, err why) = (log, err why)
  with_account t symbols now cash log (account, ok replayed) =
      let prices = market_prices t.latest symbols [] in
      let equity = max_of (total_equity prices account) cash in
      with_total t symbols now account prices equity log
        (percent_of (position_values prices account.positions ([], nought)).1 equity)

  unfoldable pub build_cycle_inputs :
      Tables
      → List String
      → Time
      → Decimal
      → List BaselineSet
      → List BaselineSet × Result (List CycleInput)
  unfolding replay total_equity market_prices latest_candles position_values orders_since
      trade_counts consecutive_losses inputs_for get_or_create_day_baseline
  build_cycle_inputs t symbols now cash log =
      with_account t symbols now cash log (replay t.fills (account_of cash))
