-- ===== src/Execution/LiveExecutor.antt =====
-- trading/execution/live_executor.py: orders sent to the exchange. The state of an executor holds
-- the requests that it has sent, the newest first. Logging is left out.
pub mod Filtered
pub mod Sent
pub mod Fetched
pub mod Settled
use crypto_ai_trader.Base.{
  ℕ, String, List, [], ◌∷◌, Option, none, some, Bool, true, false, not, ◌||◌, if◌then◌else◌, leb,
  str_eq, strip, Result, err, ok, value_error, ◌>>=◌,
}
use crypto_ai_trader.Base.Dict.{Dict}
use crypto_ai_trader.Decimal.{Decimal, nought, eq, sum_from}
use crypto_ai_trader.Strategies.Base.{Side, buy, sell}
use crypto_ai_trader.Execution.Exchange.{
  Exchange, Reply, reply, http_error, request_error, raised, Request, get_exchange_info, post_order,
  get_order_by_client_id, get_order_by_id, SymbolInfo, OrderData,
}
use crypto_ai_trader.Execution.Orders.{
  OrderStatus, created, submitted, acked, partially_filled, filled, canceled, rejected, expired,
  failed, pending_unknown, ErrorKind, none_kind, network_error, exchange_http_error, internal_error,
  live_trading_disabled, symbol_not_allowed, filter_validation_failed, exchange_info_unavailable,
  pending_unknown_kind, Code, done, failure, Detail, nothing, status_code, text, ExecutionResult,
  is_done, success, OrderResult, exchange_status_to_lifecycle_status, refuse, unanswered, answered,
  fill_message, resolved, MarketOrder, generate_client_order_id, order_id_of, is_pending,
  to_order_result,
}
use crypto_ai_trader.Execution.Filters.{
  SymbolFilters, item, contains, cache_symbols, format_quantity, format_price,
  validate_min_notional,
}

pub record LiveExecutorConfig : Type 0 where
  pub allowed_symbols : List String
  pub live_trading_enabled : Bool

pub record LiveExecutor : Type 0 where
  pub config : LiveExecutorConfig
  pub filters : Dict SymbolFilters
  pub exchange_info_fetched : Bool
  pub sent : List Request

-- `__init__`, of a client that has sent nothing.
unfoldable pub create :
    LiveExecutorConfig → String → String → Dict SymbolFilters → Result LiveExecutor
create config api_key api_secret filters =
    if str_eq api_key "" || str_eq (strip api_key) ""
    then err value_error
    else if str_eq api_secret "" || str_eq (strip api_secret) ""
    then err value_error
    else ok record { config = config; filters = filters; exchange_info_fetched = false; sent = [] }

-- `_apply_filters`: `none` stands for (None, None).
abbrev pub both : Option Decimal → Option Decimal → Option (Decimal × Decimal)
both (some qty) (some price) = some (qty, price)
both _ _ = none

abbrev pub check_minimum :
    Dict SymbolFilters → String → Option (Decimal × Decimal) → Result (Option (Decimal × Decimal))
check_minimum cache symbol none = ok none
check_minimum cache symbol (some (qty, price)) =
    validate_min_notional cache symbol qty price >>= λ reached.
    ok (if not reached then none else some (qty, price))

unfoldable pub apply_filters :
    Dict SymbolFilters → String → Decimal → Decimal → Result (Option (Decimal × Decimal))
apply_filters cache symbol qty price = format_quantity cache symbol qty >>= λ formatted_qty.
    format_price cache symbol price >>= λ formatted_price.
    check_minimum cache symbol (both formatted_qty formatted_price)

-- The state after a request.
abbrev pub send : Request → LiveExecutor → LiveExecutor
send request x = record x { sent = request ∷ x.sent }

abbrev pub from_result : Result (Unit {0}) → Reply (Unit {0})
from_result (ok fetched) = reply tt
from_result (err why) = raised why

-- The flag is set behind a fetch that did not raise.
abbrev pub mark_fetched : LiveExecutor → Reply (Unit {0}) → LiveExecutor × Reply (Unit {0})
mark_fetched x (reply fetched) = (record x { exchange_info_fetched = true }, reply fetched)
mark_fetched x (http_error status) = (x, http_error status)
mark_fetched x (request_error name) = (x, request_error name)
mark_fetched x (raised why) = (x, raised why)

-- `symbols or self.config.allowed_symbols`
abbrev pub symbols_or : Option (List String) → List String → List String
symbols_or none allowed = allowed
symbols_or (some []) allowed = allowed
symbols_or (some (symbol ∷ symbols)) allowed = symbol ∷ symbols

-- The two queries return None on an HTTP or network error.
abbrev pub found : Reply OrderData → Result (Option OrderData)
found (reply order) = ok (some order)
found (http_error status) = ok none
found (request_error name) = ok none
found (raised why) = err why

module _ (exchange : Exchange) (decimal_of : String → Result Decimal) where
  -- `f["qty"]` of every fill, as a number.
  unfoldable pub read_quantities : List (Dict String) → Result (List Decimal)
  read_quantities [] = ok []
  read_quantities (f ∷ fs) =
      item "qty" f >>= decimal_of >>= λ q. read_quantities fs >>= λ qs. ok (q ∷ qs)

  -- `BinanceFilters.fetch_and_cache` with the answer to its request.
  unfoldable pub fetch_and_cache :
      Option (List String)
      → Reply (List SymbolInfo)
      → LiveExecutor
      → LiveExecutor × Reply (Unit {0})
  fetch_and_cache symbols (reply infos) x =
      let (cache, outcome) = cache_symbols decimal_of symbols infos x.filters in
      (record x { filters = cache }, from_result outcome)
  fetch_and_cache symbols (http_error status) x = (x, http_error status)
  fetch_and_cache symbols (request_error name) x = (x, request_error name)
  fetch_and_cache symbols (raised why) x = (x, raised why)

  unfoldable pub ensure_exchange_info :
      Option (List String) → LiveExecutor → LiveExecutor × Reply (Unit {0})
  unfolding fetch_and_cache
  ensure_exchange_info symbols x =
      if x.exchange_info_fetched
      then (x, reply tt)
      else (let (fetched, outcome) =
            fetch_and_cache (some (symbols_or symbols x.config.allowed_symbols))
              (exchange.exchange_info x.sent) (send get_exchange_info x) in
          mark_fetched fetched outcome)

  -- `_submit_order` with the answer to its request. The fills are read outside the `try`.
  unfoldable pub submitted_as : String → Reply OrderData → Result ExecutionResult
  unfolding read_quantities
  submitted_as id (reply order) =
      read_quantities order.fills >>= λ quantities. ok (answered order (fill_message quantities) id)
  submitted_as id (http_error status) = ok (
      unanswered rejected exchange_http_error ("exchange_http_error:", status_code status) id
        (leb 429 status))
  submitted_as id (request_error name) =
      ok (unanswered pending_unknown network_error ("network_error:", text name) id true)
  submitted_as id (raised why) =
      ok (unanswered failed internal_error ("internal_error", nothing) id false)

  abbrev pub submit_order :
      MarketOrder → Decimal → LiveExecutor → LiveExecutor × Result ExecutionResult
  submit_order o qty x =
      let request = post_order o.symbol o.side qty (order_id_of o) in
      (send request x, submitted_as (order_id_of o) (exchange.order x.sent request))

  abbrev pub resolve_pending_unknown :
      String → String → LiveExecutor → LiveExecutor × Result ExecutionResult
  resolve_pending_unknown symbol id x =
      let request = get_order_by_client_id symbol id in
      (send request x, resolved id (exchange.order x.sent request))

  -- A submission without an answer is resolved by a query.
  abbrev pub resolve_if :
      Bool → MarketOrder → LiveExecutor → ExecutionResult → LiveExecutor × Result ExecutionResult
  resolve_if true o x r = resolve_pending_unknown o.symbol (order_id_of o) x
  resolve_if false o x r = (x, ok r)

  -- What follows a submission.
  abbrev pub after_submit :
      MarketOrder → LiveExecutor → Result ExecutionResult → LiveExecutor × Result ExecutionResult
  after_submit o x (err why) = (x, err why)
  after_submit o x (ok r) = resolve_if (is_pending r.status) o x r

  -- What follows the filters.
  abbrev pub after_filters :
      MarketOrder
      → LiveExecutor
      → Result (Option (Decimal × Decimal))
      → LiveExecutor × Result ExecutionResult
  after_filters o x (err why) = (x, err why)
  after_filters o x (ok none) =
      (x, ok (refuse filter_validation_failed ("filter_validation_failed", nothing) false))
  after_filters o x (ok (some (qty, price))) =
      let (sent, outcome) = submit_order o qty x in after_submit o sent outcome

  -- What follows the fetch of the exchange's information.
  abbrev pub after_info :
      MarketOrder → LiveExecutor → Reply (Unit {0}) → LiveExecutor × Result ExecutionResult
  after_info o x (http_error status) = (
    x,
    ok (
        refuse exchange_info_unavailable ("exchange_info_unavailable:http_", status_code status)
          true),
  )
  after_info o x (request_error name) = (
    x,
    ok (
        refuse exchange_info_unavailable ("exchange_info_unavailable:network_error:", text name)
          true),
  )
  after_info o x (raised why) = (x, err why)
  after_info o x (reply fetched) =
      after_filters o x (apply_filters x.filters o.symbol o.qty o.price)

  -- `_place_market_order`, and so `execute_market_order`.
  unfoldable pub place_market_order :
      MarketOrder → LiveExecutor → LiveExecutor × Result ExecutionResult
  unfolding contains
  place_market_order o x =
      if not x.config.live_trading_enabled
      then (x, ok (refuse live_trading_disabled ("live_trading_disabled", nothing) false))
      else if not (contains o.symbol x.config.allowed_symbols)
      then (x, ok (refuse symbol_not_allowed ("symbol_not_allowed:", text o.symbol) false))
      else (let (informed, outcome) = ensure_exchange_info none x in after_info o informed outcome)

  -- `place_market_buy` and `place_market_sell`, by the order's side.
  abbrev pub place_order : MarketOrder → LiveExecutor → LiveExecutor × Result OrderResult
  place_order o x =
      let (y, outcome) = place_market_order o x in
      (y, outcome >>= λ r. ok (to_order_result r o.symbol o.side))

  abbrev pub query_by_client_order_id :
      String → String → LiveExecutor → LiveExecutor × Result (Option OrderData)
  query_by_client_order_id symbol id x =
      let request = get_order_by_client_id symbol id in
      (send request x, found (exchange.order x.sent request))

  abbrev pub get_order_status :
      String → String → LiveExecutor → LiveExecutor × Result (Option OrderData)
  get_order_status symbol id x =
      let request = get_order_by_id symbol id in
      (send request x, found (exchange.order x.sent request))

  -- The state after a list of calls.
  unfoldable pub place_all : List MarketOrder → LiveExecutor → LiveExecutor
  unfolding place_market_order
  place_all [] x = x
  place_all (o ∷ os) x = place_all os (place_market_order o x).0
