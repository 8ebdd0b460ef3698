-- ===== src/Execution/Orders.antt =====
-- trading/execution/live_executor.py: orders, their life, and the results that report it.
use Prim.Native.String.{◌++◌ as ◌<>◌}
use crypto_ai_trader.Base.{
  ℕ, String, List, [], ◌∷◌, Option, none, some, Bool, true, false, if◌then◌else◌, str_eq, Result,
  err, ok,
}
use crypto_ai_trader.Decimal.{Decimal, nought, eq, sum_from}
use crypto_ai_trader.Strategies.Base.{Side}
use crypto_ai_trader.Execution.Exchange.{Reply, reply, http_error, request_error, raised, OrderData}

pub data OrderStatus : Type 0 where
  created submitted acked partially_filled filled canceled rejected expired failed : OrderStatus
  pending_unknown : OrderStatus

-- The values of ErrorKind; two of them are spelled with a suffix here.
pub data ErrorKind : Type 0 where
  none_kind network_error exchange_http_error internal_error live_trading_disabled : ErrorKind
  symbol_not_allowed filter_validation_failed exchange_info_unavailable : ErrorKind
  pending_unknown_kind : ErrorKind

-- `code`: "ok" or the value of an ErrorKind.
pub data Code : Type 0 where
  done : Code
  failure : ErrorKind → Code

-- A message is a fixed text, followed by a status, a text or nothing.
pub data Detail : Type 0 where
  nothing : Detail
  status_code : ℕ → Detail
  text : String → Detail

pub record ExecutionResult : Type 0 where
  pub status : OrderStatus
  pub code : Code
  pub message : String × Detail
  pub client_order_id : Option String
  pub exchange_order_id : Option String
  pub retriable : Bool

abbrev pub is_done : Code → Bool
is_done done = true
is_done (failure kind) = false

-- `ExecutionResult.success`
abbrev pub success : ExecutionResult → Bool
success r = is_done r.code

-- `filled_qty` and `filled_price` are always None.
pub record OrderResult : Type 0 where
  pub success : Bool
  pub order_id : Option String
  pub client_order_id : Option String
  pub symbol : String
  pub side : Side
  pub error_message : Option (String × Detail)

unfoldable pub exchange_status_to_lifecycle_status : String → OrderStatus
exchange_status_to_lifecycle_status status =
    if str_eq status "NEW"
    then acked
    else if str_eq status "PARTIALLY_FILLED"
    then partially_filled
    else if str_eq status "FILLED"
    then filled
    else if str_eq status "CANCELED"
    then canceled
    else if str_eq status "REJECTED"
    then rejected
    else if str_eq status "EXPIRED"
    then expired
    else failed

-- A result without identifiers.
abbrev pub refuse : ErrorKind → String × Detail → Bool → ExecutionResult
refuse kind message retriable = record {
  status = failed;
  code = failure kind;
  message = message;
  client_order_id = none;
  exchange_order_id = none;
  retriable = retriable;
}

-- A result of a request on the order `id` that did not return.
abbrev pub unanswered : OrderStatus → ErrorKind → String × Detail → String → Bool → ExecutionResult
unanswered status kind message id retriable = record {
  status = status;
  code = failure kind;
  message = message;
  client_order_id = some id;
  exchange_order_id = none;
  retriable = retriable;
}

abbrev pub answered : OrderData → String × Detail → String → ExecutionResult
answered data_of message id = record {
  status = exchange_status_to_lifecycle_status data_of.status;
  code = done;
  message = message;
  client_order_id = some id;
  exchange_order_id = some data_of.order_id;
  retriable = false;
}

-- `if filled_qty`: neither None nor zero.
abbrev pub fill_message : List Decimal → String × Detail
fill_message [] = ("order_acked", nothing)
fill_message (q ∷ qs) =
    (if eq (sum_from nought (q ∷ qs)) nought then "order_acked" else "order_filled", nothing)

-- The answer to the query for an order whose submission was not answered.
abbrev pub resolved : String → Reply OrderData → Result ExecutionResult
resolved id (reply order) = ok (answered order ("confirmed_via_query:", text order.status) id)
resolved id (http_error status) = ok (
    unanswered pending_unknown exchange_http_error ("query_failed:http_", status_code status) id
      true)
resolved id (request_error name) = ok (
    unanswered pending_unknown pending_unknown_kind
      ("submit_timeout_query_failed:order_not_found_or_unavailable", nothing) id true)
resolved id (raised why) = err why

-- The arguments of an order.
pub record MarketOrder : Type 0 where
  pub symbol : String
  pub side : Side
  pub qty : Decimal
  pub price : Decimal
  pub strategy_name : String
  pub cycle_id : String

-- `attempt` as it is printed.
unfoldable pub generate_client_order_id : String → String → String → String → String
generate_client_order_id strategy_name cycle_id symbol attempt =
    strategy_name <> "-" <> cycle_id <> "-" <> symbol <> "-" <> attempt

-- The identifier of an order; there is only a first attempt.
abbrev pub order_id_of : MarketOrder → String
order_id_of o = generate_client_order_id o.strategy_name o.cycle_id o.symbol "1"

abbrev pub is_pending : OrderStatus → Bool
is_pending pending_unknown = true
is_pending _ = false

abbrev pub to_order_result : ExecutionResult → String → Side → OrderResult
to_order_result r symbol side = record {
  success = is_done r.code;
  order_id = r.exchange_order_id;
  client_order_id = r.client_order_id;
  symbol = symbol;
  side = side;
  error_message = if is_done r.code then none else some r.message;
}
