-- ===== src/Execution/Exchange.antt =====
-- The exchange behind the HTTP client of binance_filters.py and live_executor.py: a parameter. Its
-- answer may depend on every request sent before. A request is kept as what it asks for; its
-- address, headers, timestamp, receive window and signature are left out.
use crypto_ai_trader.Base.{ℕ, String, List, [], ◌∷◌, Option, Error}
use crypto_ai_trader.Base.Dict.{Dict}
use crypto_ai_trader.Decimal.{Decimal}
use crypto_ai_trader.Strategies.Base.{Side}

-- What a request brings: the JSON of its reply, an `httpx.HTTPStatusError` with its status, an
-- `httpx.RequestError` with the name of its type, or another exception.
pub data Reply {ℓ} (V : Type ℓ) : Type ℓ where
  reply : V → Reply V
  http_error : ℕ → Reply V
  request_error : String → Reply V
  raised : Error → Reply V

pub data Request : Type 0 where
  get_exchange_info : Request
  -- POST /api/v3/order: symbol, side, quantity, newClientOrderId
  post_order : String → Side → Decimal → String → Request
  -- GET /api/v3/order by origClientOrderId or by orderId
  get_order_by_client_id : String → String → Request
  get_order_by_id : String → String → Request

-- An entry of `symbols` in the reply of exchangeInfo, with the defaults of its `get` calls.
pub record SymbolInfo : Type 0 where
  pub symbol : String
  pub status : Option String
  pub filters : List (Dict String)

-- The reply to a request on an order: `fills`, `orderId` and `status`, with their defaults.
pub record OrderData : Type 0 where
  pub fills : List (Dict String)
  pub order_id : String
  pub status : String

-- The requests so far, the newest first, and the next one.
pub record Exchange : Type 0 where
  pub exchange_info : List Request → Reply (List SymbolInfo)
  pub order : List Request → Request → Reply OrderData

-- The orders among the requests.
unfoldable pub posts : List Request → List Request
posts [] = []
posts (post_order symbol side qty id ∷ sent) = post_order symbol side qty id ∷ posts sent
posts (get_exchange_info ∷ sent) = posts sent
posts (get_order_by_client_id symbol id ∷ sent) = posts sent
posts (get_order_by_id symbol id ∷ sent) = posts sent

-- The requests for the exchange's information.
unfoldable pub info_requests : List Request → List Request
info_requests [] = []
info_requests (get_exchange_info ∷ sent) = get_exchange_info ∷ info_requests sent
info_requests (post_order symbol side qty id ∷ sent) = info_requests sent
info_requests (get_order_by_client_id symbol id ∷ sent) = info_requests sent
info_requests (get_order_by_id symbol id ∷ sent) = info_requests sent
