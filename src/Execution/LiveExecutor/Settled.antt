-- ===== src/Execution/LiveExecutor/Settled.antt =====
-- What the result of an order says about it.
use crypto_ai_trader.Base.{
  ◌≡◌, ◌⊎◌, inl, inr, refl, arith, String, List, ◌∷◌, Option, none, some, true, false, Bool,
  Bool-cases, Result, ok, err, leb, ◌>>=◌,
}
use crypto_ai_trader.Execution.Exchange.{
  Exchange, Reply, reply, http_error, request_error, raised, OrderData, Request, post_order, posts,
  get_order_by_client_id,
}
use crypto_ai_trader.Execution.Orders.{
  pending_unknown, rejected, failed, ExecutionResult, MarketOrder, order_id_of, is_pending, is_done,
  exchange_status_to_lifecycle_status, resolved, answered, fill_message,
}
use crypto_ai_trader.Execution.LiveExecutor.{
  LiveExecutor, read_quantities, submitted_as, apply_filters, ensure_exchange_info, submit_order,
  resolve_if, after_submit, after_filters, after_info, place_market_order,
}
use crypto_ai_trader.Execution.Filters.{contains}
use crypto_ai_trader.Execution.LiveExecutor.Sent.{after_submit-posts, ensure_exchange_info-posts}
use crypto_ai_trader.Decimal.{Decimal}

lifecycle_settled :
    (status : String) → is_pending (exchange_status_to_lifecycle_status status) ≡ false
unfolding exchange_status_to_lifecycle_status
lifecycle_settled status = ground arith

-- The reply of the exchange that a result reports.
abbrev pub Reports : OrderData → ExecutionResult → Type 0
Reports order r =
    (r.status ≡ exchange_status_to_lifecycle_status order.status)
    × (r.exchange_order_id ≡ some order.order_id)
    × (is_done r.code ≡ true)
    × (r.retriable ≡ false)

-- The result of a query by the identifier `id` that was answered by `answer`.
abbrev pub Resolves : String → Reply OrderData → ExecutionResult → Type 0
Resolves id answer r =
    (r.client_order_id ≡ some id)
    × (((order : OrderData) × (answer ≡ reply order) × Reports order r)
        ⊎ ((r.status ≡ pending_unknown) × (r.retriable ≡ true) × (is_done r.code ≡ false)))

resolved-Resolves :
    (id : String) (answer : Reply OrderData) {r : ExecutionResult}
    → resolved id answer ≡ ok r
    → Resolves id answer r
resolved-Resolves id (reply order) h = (ground arith, inl (order, refl, ground arith))
resolved-Resolves id (http_error status) h = (ground arith, inr (ground arith))
resolved-Resolves id (request_error name) h = (ground arith, inr (ground arith))
resolved-Resolves id (raised why) h = absurd (ground arith)

-- The result of an order of the identifier `id`, whose submission was answered by `answer`, and a
-- query behind it by `query`.
abbrev pub Judges : String → Reply OrderData → Reply OrderData → ExecutionResult → Type 0
Judges id (reply order) query r = (r.client_order_id ≡ some id) × Reports order r
Judges id (http_error status) query r =
    (r.client_order_id ≡ some id)
    × (r.status ≡ rejected)
    × (is_done r.code ≡ false)
    × (r.retriable ≡ leb 429 status)
Judges id (request_error name) query r = Resolves id query r
Judges id (raised why) query r =
    (r.client_order_id ≡ some id)
    × (r.status ≡ failed)
    × (is_done r.code ≡ false)
    × (r.retriable ≡ false)

module _ (exchange : Exchange) (decimal_of : String → Result Decimal) where
  resolve_if_settled :
      (pending : Bool) (o : MarketOrder) (x : LiveExecutor) (settled : ExecutionResult)
      {r : ExecutionResult}
      → pending ≡ false
      → (resolve_if exchange decimal_of pending o x settled).1 ≡ ok r
      → settled ≡ r
  resolve_if_settled true o x settled e h = absurd (ground arith)
  resolve_if_settled false o x settled e h = ground arith

  after_reply-Reports :
      (o : MarketOrder) (x : LiveExecutor) (order : OrderData) (quantities : Result (List Decimal))
      {r : ExecutionResult}
      → (after_submit exchange decimal_of o x
          (quantities >>= λ qs. ok (answered order (fill_message qs) (order_id_of o)))).1
        ≡ ok r
      → (r.client_order_id ≡ some (order_id_of o)) × Reports order r
  after_reply-Reports o x order (err why) h = absurd (ground arith)
  after_reply-Reports o x order (ok qs) {r} h =
      let same =
        resolve_if_settled (is_pending (exchange_status_to_lifecycle_status order.status)) o x
          (answered order (fill_message qs) (order_id_of o)) (lifecycle_settled order.status) h in
      rw (← same) (refl, (refl, refl, refl, refl))

  after_submit-Judges :
      (o : MarketOrder) (x : LiveExecutor) (answer : Reply OrderData) {r : ExecutionResult}
      → (after_submit exchange decimal_of o x
          (submitted_as exchange decimal_of (order_id_of o) answer)).1
        ≡ ok r
      → Judges
          (order_id_of o)
          answer
          (exchange.order x.sent (get_order_by_client_id o.symbol (order_id_of o)))
          r
  unfolding submitted_as
  after_submit-Judges o x (reply order) h =
      after_reply-Reports o x order (read_quantities exchange decimal_of order.fills) h
  after_submit-Judges o x (http_error status) h = ground arith
  after_submit-Judges o x (request_error name) h = resolved-Resolves (order_id_of o) _ h
  after_submit-Judges o x (raised why) h = ground arith

  -- The result of an order that the state behind it shows as sent.
  abbrev pub JudgesSent : MarketOrder → LiveExecutor → LiveExecutor → ExecutionResult → Type 0
  JudgesSent o x y r =
      (before : List Request) × (q : Decimal) × let request =
          post_order o.symbol o.side q (order_id_of o) in
        (posts y.sent ≡ request ∷ posts x.sent)
        × (posts before ≡ posts x.sent)
        × Judges (order_id_of o) (exchange.order before request)
            (exchange.order (request ∷ before) (get_order_by_client_id o.symbol (order_id_of o))) r

  -- The result of an order that was not sent.
  abbrev pub Refuses : LiveExecutor → LiveExecutor → ExecutionResult → Type 0
  Refuses x y r =
      (posts y.sent ≡ posts x.sent)
      × (r.status ≡ failed)
      × (is_done r.code ≡ false)
      × (r.client_order_id ≡ none)

  after_filters-Judges :
      (o : MarketOrder) (x : LiveExecutor) (passed : Result (Option (Decimal × Decimal)))
      {r : ExecutionResult}
      → (after_filters exchange decimal_of o x passed).1 ≡ ok r
      → let y = (after_filters exchange decimal_of o x passed).0 in
        Refuses x y r ⊎ JudgesSent o x y r
  unfolding posts
  after_filters-Judges o x (err why) h = absurd (ground arith)
  after_filters-Judges o x (ok none) h = inl (refl, ground arith, ground arith, ground arith)
  after_filters-Judges o x (ok (some (q, p))) h =
      let sent = submit_order exchange decimal_of o q x in
      let (same_posts, _) = after_submit-posts exchange decimal_of o sent.0 sent.1 in
      inr (x.sent, q, (same_posts, refl, after_submit-Judges o sent.0 _ h))

  after_info-Judges :
      (o : MarketOrder) (x : LiveExecutor) (outcome : Reply (Unit {0})) {r : ExecutionResult}
      → (after_info exchange decimal_of o x outcome).1 ≡ ok r
      → let y = (after_info exchange decimal_of o x outcome).0 in Refuses x y r ⊎ JudgesSent o x y r
  after_info-Judges o x (http_error status) h = inl (refl, ground arith, ground arith, ground arith)
  after_info-Judges o x (request_error name) h =
      inl (refl, ground arith, ground arith, ground arith)
  after_info-Judges o x (raised why) h = absurd (ground arith)
  after_info-Judges o x (reply fetched) h =
      after_filters-Judges o x (apply_filters x.filters o.symbol o.qty o.price) h

  -- A call that returns a result either sent no order and fails without an identifier, or sent the
  -- one order asked for, and the result follows the exchange's answer to it. An answered order has
  -- the status that the exchange names. A submission without an answer is never reported as failed
  -- or rejected on its own: its result is that of a query by the same identifier, and stays
  -- `pending_unknown`, to be tried again, if the query is not answered either.
  pub place_market_order-Judges :
      (o : MarketOrder) (x : LiveExecutor) {r : ExecutionResult}
      → (place_market_order exchange decimal_of o x).1 ≡ ok r
      → let y = (place_market_order exchange decimal_of o x).0 in Refuses x y r ⊎ JudgesSent o x y r
  unfolding place_market_order
  place_market_order-Judges o x {r} h = elim (Bool-cases x.config.live_trading_enabled) [
    | inr disabled ↦
        let h' = simp disabled at h in
        simp disabled (inl (refl, ground arith, ground arith, ground arith))
    | inl enabled ↦ elim (Bool-cases (contains o.symbol x.config.allowed_symbols)) [
      | inr foreign ↦
          let h' = simp (enabled, foreign) at h in
          simp (enabled, foreign) (inl (refl, ground arith, ground arith, ground arith))
      | inl allowed ↦
          let informed = ensure_exchange_info exchange decimal_of none x in
          let posted = ensure_exchange_info-posts exchange decimal_of none x in
          let h' = simp (enabled, allowed) at h in
          simp (enabled, allowed) (rw (← posted) (after_info-Judges o informed.0 informed.1 h'))
    ]
  ]
