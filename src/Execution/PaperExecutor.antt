-- ===== src/Execution/PaperExecutor.antt =====
-- trading/execution/paper_executor.py: simulated market orders. Orders are always of type MARKET
-- and status FILLED, and a fill carries the order's symbol, side and time.
pub mod Outcome
use crypto_ai_trader.Base.{
  String, List, [], ◌∷◌, Option, none, some, Bool, true, false, not, if◌then◌else◌, Result, ok,
  ◌>>=◌,
}
use crypto_ai_trader.Decimal.{Decimal, dec, nought, one, le, add, sub, mul, div}
use crypto_ai_trader.Strategies.Base.{Time, Side, buy, sell, TradeCandidate}
use crypto_ai_trader.Risk.Sizing.{PositionSizeResult}

pub record PaperOrder : Type 0 where
  pub symbol : String
  pub side : Side
  pub requested_notional_usdt : Decimal
  pub created_at : Time

pub record PaperFill : Type 0 where
  pub symbol : String
  pub side : Side
  pub price : Decimal
  pub qty : Decimal
  pub fee_usdt : Decimal
  pub slippage_bps : Decimal
  pub filled_at : Time

pub record PaperExecutionResult : Type 0 where
  pub approved : Bool
  pub order : Option PaperOrder
  pub fill : Option PaperFill
  pub reject_reasons : List String

pub record PaperExecutor : Type 0 where
  pub fee_bps : Decimal
  pub slippage_bps : Decimal

abbrev pub ten_thousand : Decimal
ten_thousand = dec 10_000 0

abbrev pub refuse : List String → Result PaperExecutionResult
refuse reasons = ok record { approved = false; order = none; fill = none; reject_reasons = reasons }

unfoldable pub apply_slippage : PaperExecutor → Decimal → Side → Result Decimal
apply_slippage x price buy =
    div x.slippage_bps ten_thousand >>= λ rate. ok (mul price (add one rate))
apply_slippage x price sell =
    div x.slippage_bps ten_thousand >>= λ rate. ok (mul price (sub one rate))

-- The order and the fill of an approved execution.
abbrev pub filled :
    PaperExecutor
    → String
    → Side
    → Decimal
    → Decimal
    → Decimal
    → Decimal
    → Time
    → PaperExecutionResult
filled x symbol side notional price qty fee at = record {
  approved = true;
  order = some (record {
    symbol = symbol;
    side = side;
    requested_notional_usdt = notional;
    created_at = at;
  });
  fill = some (record {
    symbol = symbol;
    side = side;
    price = price;
    qty = qty;
    fee_usdt = fee;
    slippage_bps = x.slippage_bps;
    filled_at = at;
  });
  reject_reasons = [];
}

unfoldable pub execute_market_buy :
    PaperExecutor
    → TradeCandidate
    → PositionSizeResult
    → Decimal
    → Time
    → Result PaperExecutionResult
execute_market_buy x c size market_price at =
    if not size.approved
    then refuse ("position_size_rejected" ∷ size.reject_reasons)
    else if le market_price nought
    then refuse ("invalid_market_price" ∷ [])
    else (apply_slippage x market_price buy >>= λ fill_price.
        div (mul size.notional_usdt x.fee_bps) ten_thousand >>= λ fee.
        div (sub size.notional_usdt fee) fill_price >>= λ qty.
        ok (filled x c.symbol buy size.notional_usdt fill_price qty fee at))

unfoldable pub execute_market_sell :
    PaperExecutor → String → Decimal → Decimal → Time → Result PaperExecutionResult
execute_market_sell x symbol qty market_price at =
    if le qty nought
    then refuse ("invalid_qty" ∷ [])
    else if le market_price nought
    then refuse ("invalid_market_price" ∷ [])
    else (apply_slippage x market_price sell >>= λ fill_price.
        div (mul (mul qty fill_price) x.fee_bps) ten_thousand >>= λ fee.
        ok (filled x symbol sell (mul qty fill_price) fill_price qty fee at))
