-- ===== src/Execution/LiveExecutor/Sent.antt =====
-- Which requests an order sends.
use crypto_ai_trader.Base.{
  ◌≡◌, ◌⊎◌, inl, inr, refl, ap, ◌∙◌, String, List, ◌∷◌, Option, none, some, true, false, Bool,
  Bool-cases, Result, ok, err,
}
use crypto_ai_trader.Decimal.{Decimal}
use crypto_ai_trader.Execution.Exchange.{
  Exchange, Reply, reply, http_error, request_error, raised, SymbolInfo, post_order, posts,
}
use crypto_ai_trader.Execution.Orders.{ExecutionResult, MarketOrder, order_id_of, is_pending}
use crypto_ai_trader.Execution.Filters.{contains}
use crypto_ai_trader.Execution.LiveExecutor.{
  LiveExecutor, apply_filters, fetch_and_cache, mark_fetched, ensure_exchange_info, submit_order,
  resolve_if, after_submit, after_filters, after_info, place_market_order,
}
use crypto_ai_trader.Execution.LiveExecutor.Filtered.{Passes, apply_filters_iff}

-- From `x` to `y` the one order `o` was sent, with a quantity and a price that pass the filters
-- of `y`.
abbrev pub Sends : MarketOrder → LiveExecutor → LiveExecutor → Type 0
Sends o x y =
    (q : Decimal) × (p : Decimal) × Passes y.filters o.symbol o.qty o.price q p
    × (posts y.sent ≡ post_order o.symbol o.side q (order_id_of o) ∷ posts x.sent)

abbrev SendsAtMost : MarketOrder → LiveExecutor → LiveExecutor → Type 0
SendsAtMost o x y = (posts y.sent ≡ posts x.sent) ⊎ Sends o x y

module _ (exchange : Exchange) (decimal_of : String → Result Decimal) where
  resolve_if-posts :
      (pending : Bool) (o : MarketOrder) (x : LiveExecutor) (r : ExecutionResult)
      → let y = (resolve_if exchange decimal_of pending o x r).0 in
        (posts y.sent ≡ posts x.sent) × (y.filters ≡ x.filters)
  unfolding posts
  resolve_if-posts true o x r = (refl, refl)
  resolve_if-posts false o x r = (refl, refl)

  pub after_submit-posts :
      (o : MarketOrder) (x : LiveExecutor) (outcome : Result ExecutionResult)
      → let y = (after_submit exchange decimal_of o x outcome).0 in
        (posts y.sent ≡ posts x.sent) × (y.filters ≡ x.filters)
  unfolding posts
  after_submit-posts o x (err why) = (refl, refl)
  after_submit-posts o x (ok r) = resolve_if-posts (is_pending r.status) o x r

  after_filters-sends :
      (o : MarketOrder) (x : LiveExecutor) (passed : Result (Option (Decimal × Decimal)))
      → apply_filters x.filters o.symbol o.qty o.price ≡ passed
      → SendsAtMost o x (after_filters exchange decimal_of o x passed).0
  unfolding posts
  after_filters-sends o x (err why) e = inl refl
  after_filters-sends o x (ok none) e = inl refl
  after_filters-sends o x (ok (some (q, p))) e =
      let sent = (submit_order exchange decimal_of o q x).0 in
      let (same_posts, same_filters) =
        after_submit-posts o sent (submit_order exchange decimal_of o q x).1 in
      inr (
        q,
        p,
        rw same_filters ((apply_filters_iff x.filters o.symbol o.qty o.price q p).0 e),
        same_posts,
      )

  after_info-sends :
      (o : MarketOrder) (x : LiveExecutor) (outcome : Reply (Unit {0}))
      → SendsAtMost o x (after_info exchange decimal_of o x outcome).0
  after_info-sends o x (http_error status) = inl refl
  after_info-sends o x (request_error name) = inl refl
  after_info-sends o x (raised why) = inl refl
  after_info-sends o x (reply fetched) =
      after_filters-sends o x (apply_filters x.filters o.symbol o.qty o.price) refl

  mark_fetched-sent :
      (x : LiveExecutor) (outcome : Reply (Unit {0})) → (mark_fetched x outcome).0.sent ≡ x.sent
  mark_fetched-sent x (reply fetched) = refl
  mark_fetched-sent x (http_error status) = refl
  mark_fetched-sent x (request_error name) = refl
  mark_fetched-sent x (raised why) = refl

  fetch_and_cache-sent :
      (symbols : Option (List String)) (answer : Reply (List SymbolInfo)) (x : LiveExecutor)
      → (fetch_and_cache exchange decimal_of symbols answer x).0.sent ≡ x.sent
  unfolding fetch_and_cache
  fetch_and_cache-sent symbols (reply infos) x = refl
  fetch_and_cache-sent symbols (http_error status) x = refl
  fetch_and_cache-sent symbols (request_error name) x = refl
  fetch_and_cache-sent symbols (raised why) x = refl

  pub ensure_exchange_info-posts :
      (symbols : Option (List String)) (x : LiveExecutor)
      → posts (ensure_exchange_info exchange decimal_of symbols x).0.sent ≡ posts x.sent
  unfolding ensure_exchange_info posts
  ensure_exchange_info-posts symbols x = elim (Bool-cases x.exchange_info_fetched) [
    | inl known ↦ simp known refl
    | inr unknown ↦ simp unknown (
        ap posts (mark_fetched-sent _ _ ∙ fetch_and_cache-sent _ (exchange.exchange_info x.sent) _))
  ]

  -- A call sends no order, or exactly the order asked for. It sends one only if live trading is
  -- enabled and the symbol is allowed, with a quantity and a price that pass the filters.
  pub place_market_order-Sends :
      (o : MarketOrder) (x : LiveExecutor)
      → let y = (place_market_order exchange decimal_of o x).0 in
        (posts y.sent ≡ posts x.sent)
        ⊎ ((x.config.live_trading_enabled ≡ true)
            × (contains o.symbol x.config.allowed_symbols ≡ true)
            × Sends o x y)
  unfolding place_market_order
  place_market_order-Sends o x = elim (Bool-cases x.config.live_trading_enabled) [
    | inr disabled ↦ simp disabled (inl refl)
    | inl enabled ↦ elim (Bool-cases (contains o.symbol x.config.allowed_symbols)) [
      | inr foreign ↦ simp (enabled, foreign) (inl refl)
      | inl allowed ↦
          let informed = ensure_exchange_info exchange decimal_of none x in
          let posted = ensure_exchange_info-posts none x in
          simp (enabled, allowed)
            (elim (after_info-sends o informed.0 informed.1) [
              | inl none_sent ↦ inl (none_sent ∙ posted)
              | inr (q, p, passes, sent) ↦ inr (
                refl,
                refl,
                (
                  q,
                  p,
                  passes,
                  sent
                      ∙ ap (λ before. post_order o.symbol o.side q (order_id_of o) ∷ before) posted,
                ),
              )
            ])
    ]
  ]
