-- ===== src/Examples/Live.antt =====
-- Orders to an exchange whose answers are lost, and the theorems on the live executor at them.
use crypto_ai_trader.Base.{
  ◌≡◌, ◌⊎◌, ◌↔◌, ◌+◌, ◌*◌, ◌^◌, ◌≤◌, ◌<◌, refl, inl, inr, String, List, [], ◌∷◌, none, some, true,
  false, str_eq, if◌then◌else◌, Result, ok, err, invalid_operation,
}
use crypto_ai_trader.Base.Dict.{Dict, lookup}
use crypto_ai_trader.Decimal.{Decimal, dec, nought, lt}
use crypto_ai_trader.Strategies.Base.{buy}
use crypto_ai_trader.Execution.Exchange.{
  Exchange, Reply, reply, request_error, Request, post_order, get_exchange_info,
  get_order_by_client_id, get_order_by_id, posts, SymbolInfo, OrderData,
}
use crypto_ai_trader.Execution.Orders.{MarketOrder, filled, done, text, ExecutionResult}
use crypto_ai_trader.Execution.Filters.{SymbolFilters, contains, format_quantity, floor_to_step}
use crypto_ai_trader.Execution.Filters.Quantized.{format_quantity-IsFloor}
use crypto_ai_trader.Execution.LiveExecutor.Filtered.{Passes, apply_filters_iff}
use crypto_ai_trader.Execution.LiveExecutor.Sent.{Sends, place_market_order-Sends}
use crypto_ai_trader.Execution.LiveExecutor.Settled.{Refuses, JudgesSent, place_market_order-Judges}
use crypto_ai_trader.Execution.LiveExecutor.{
  LiveExecutor, apply_filters, place_market_order, place_all,
}

abbrev price_text : String → Result Decimal
price_text t =
    if str_eq t "0.00100000"
    then ok (dec 100_000 8)
    else if str_eq t "0.01000000"
    then ok (dec 1_000_000 8)
    else if str_eq t "10.00000000"
    then ok (dec 1_000_000_000 8)
    else err invalid_operation

abbrev lot_size : Dict String
lot_size = ("filterType", "LOT_SIZE") ∷ ("stepSize", "0.00100000") ∷ []

abbrev tick : Dict String
tick = ("filterType", "PRICE_FILTER") ∷ ("tickSize", "0.01000000") ∷ []

abbrev minimum : Dict String
minimum = ("filterType", "MIN_NOTIONAL") ∷ ("minNotional", "10.00000000") ∷ []

abbrev bitcoin : SymbolInfo
bitcoin = record {
  symbol = "BTCUSDT";
  status = some "TRADING";
  filters = lot_size ∷ tick ∷ minimum ∷ [];
}

abbrev answer : Request → Reply OrderData
answer (post_order symbol side qty id) = request_error "ReadTimeout"
answer get_exchange_info = request_error "ReadTimeout"
answer (get_order_by_client_id symbol id) =
    reply (record { fills = []; order_id = "17"; status = "FILLED" })
answer (get_order_by_id symbol id) = request_error "ReadTimeout"

-- Submissions time out, and queries find the order filled.
abbrev lossy : Exchange
lossy = record {
  exchange_info = λ sent. reply (bitcoin ∷ []);
  order = λ sent request. answer request;
}

abbrev executor : LiveExecutor
executor = record {
  config = record { allowed_symbols = "BTCUSDT" ∷ []; live_trading_enabled = true };
  filters = [];
  exchange_info_fetched = false;
  sent = [];
}

abbrev order : MarketOrder
order = record {
  symbol = "BTCUSDT";
  side = buy;
  qty = dec 123_456 6;
  price = dec 50_000_123 3;
  strategy_name = "momentum";
  cycle_id = "c1";
}

abbrev confirmed : ExecutionResult
confirmed = record {
  status = filled;
  code = done;
  message = ("confirmed_via_query:", text "FILLED");
  client_order_id = some "momentum-c1-BTCUSDT-1";
  exchange_order_id = some "17";
  retriable = false;
}

order_confirmed : (place_market_order lossy price_text order executor).1 ≡ ok confirmed
unfolding place_market_order crypto_ai_trader.Execution.LiveExecutor.ensure_exchange_info
    crypto_ai_trader.Execution.Filters.cache_symbols crypto_ai_trader.Execution.Filters.read_filters
    crypto_ai_trader.Base.Dict.lookup apply_filters
    crypto_ai_trader.Execution.Filters.format_quantity crypto_ai_trader.Base.Dict.insert
    crypto_ai_trader.Decimal.quantize_down crypto_ai_trader.Execution.Filters.format_price
    crypto_ai_trader.Decimal.le crypto_ai_trader.Execution.Filters.validate_min_notional
    crypto_ai_trader.Decimal.mul crypto_ai_trader.Execution.LiveExecutor.submitted_as
    crypto_ai_trader.Execution.Orders.exchange_status_to_lifecycle_status
    crypto_ai_trader.Execution.Orders.generate_client_order_id
order_confirmed = refl

abbrev after : LiveExecutor
after = (place_market_order lossy price_text order executor).0

place_market_order-Sends_example :
    (posts after.sent ≡ posts executor.sent)
    ⊎ ((executor.config.live_trading_enabled ≡ true)
        × (contains order.symbol executor.config.allowed_symbols ≡ true)
        × Sends order executor after)
place_market_order-Sends_example = place_market_order-Sends lossy price_text order executor

place_market_order-Judges_example :
    Refuses lossy price_text executor after confirmed
    ⊎ JudgesSent lossy price_text order executor after confirmed
place_market_order-Judges_example =
    place_market_order-Judges lossy price_text order executor order_confirmed

after_fetched : after.exchange_info_fetched ≡ true
unfolding place_market_order crypto_ai_trader.Execution.LiveExecutor.ensure_exchange_info
    crypto_ai_trader.Execution.Filters.cache_symbols crypto_ai_trader.Execution.Filters.read_filters
    lookup apply_filters format_quantity crypto_ai_trader.Base.Dict.insert
    crypto_ai_trader.Decimal.quantize_down crypto_ai_trader.Execution.Filters.format_price
    crypto_ai_trader.Decimal.le crypto_ai_trader.Execution.Filters.validate_min_notional
    crypto_ai_trader.Decimal.mul crypto_ai_trader.Execution.LiveExecutor.submitted_as
after_fetched = refl

apply_filters_iff_example :
    (apply_filters after.filters "BTCUSDT" order.qty order.price
      ≡ ok (some (dec 12_345_600 8, dec 5_000_012_300 8)))
    ↔ Passes after.filters "BTCUSDT" order.qty order.price (dec 12_345_600 8) (dec 5_000_012_300 8)
apply_filters_iff_example =
    apply_filters_iff after.filters "BTCUSDT" order.qty order.price (dec 12_345_600 8)
      (dec 5_000_012_300 8)

abbrev filters : SymbolFilters
filters = record { min_notional = dec 10 0; step_size = dec 1 3; tick_size = dec 1 2 }

abbrev cache : Dict SymbolFilters
cache = ("BTCUSDT", filters) ∷ []

quantity_floored : format_quantity cache "BTCUSDT" order.qty ≡ ok (some (dec 123 3))
unfolding format_quantity lookup crypto_ai_trader.Decimal.quantize_down crypto_ai_trader.Decimal.le
quantity_floored = refl

format_quantity-IsFloor_example :
    (f : SymbolFilters) × (lookup "BTCUSDT" cache ≡ some f)
    × (3 ≡ f.step_size.scale)
    × (lt nought (dec 123 3) ≡ true)
    × (123 * 10 ^ 6 ≤ 123_456 * 10 ^ 3)
    × (123_456 * 10 ^ 3 < (123 + 1) * 10 ^ 6)
format_quantity-IsFloor_example =
    format_quantity-IsFloor cache "BTCUSDT" order.qty refl quantity_floored

-- A step size that the exchange writes with trailing zeros: the quantity is floored to its
-- digits, and is no multiple of the step.
step_missed :
    (price_text "0.00100000" ≡ ok (dec 100_000 8))
    × (floor_to_step (dec 123_456 6) (dec 100_000 8) ≡ ok (dec 12_345_600 8))
unfolding crypto_ai_trader.Decimal.quantize_down
step_missed = (refl, refl)
