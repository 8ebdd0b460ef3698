-- ===== src/Execution/LiveExecutor/Fetched.antt =====
-- The exchange's information is fetched until a fetch succeeds, and not again.
use crypto_ai_trader.Base.{
  ◌≡◌, refl, ◌∙◌, String, List, [], ◌∷◌, Option, none, some, true, false, Bool, Bool-cases, inl,
  inr, Result, ok, err,
}
use crypto_ai_trader.Decimal.{Decimal}
use crypto_ai_trader.Execution.Exchange.{Exchange, info_requests}
use crypto_ai_trader.Execution.Orders.{ExecutionResult, MarketOrder, is_pending}
use crypto_ai_trader.Execution.Filters.{contains}
use crypto_ai_trader.Execution.LiveExecutor.{
  LiveExecutor, apply_filters, submit_order, resolve_if, after_submit, after_filters,
  ensure_exchange_info, place_market_order, place_all,
}

-- From `x` to `y` the executor kept its configuration, filters and flag, and asked for no
-- information.
abbrev pub Keeps : LiveExecutor → LiveExecutor → Type 0
Keeps x y =
    (y.config ≡ x.config)
    × (y.filters ≡ x.filters)
    × (y.exchange_info_fetched ≡ x.exchange_info_fetched)
    × (info_requests y.sent ≡ info_requests x.sent)

Keeps-trans : (x y z : LiveExecutor) → Keeps x y → Keeps y z → Keeps x z
Keeps-trans x y z (a, b, c, d) (a', b', c', d') = (a' ∙ a, b' ∙ b, c' ∙ c, d' ∙ d)

module _ (exchange : Exchange) (decimal_of : String → Result Decimal) where
  resolve_if-Keeps :
      (pending : Bool) (o : MarketOrder) (x : LiveExecutor) (r : ExecutionResult)
      → Keeps x (resolve_if exchange decimal_of pending o x r).0
  unfolding info_requests
  resolve_if-Keeps true o x r = (refl, refl, refl, refl)
  resolve_if-Keeps false o x r = (refl, refl, refl, refl)

  after_submit-Keeps :
      (o : MarketOrder) (x : LiveExecutor) (outcome : Result ExecutionResult)
      → Keeps x (after_submit exchange decimal_of o x outcome).0
  after_submit-Keeps o x (err why) = (refl, refl, refl, refl)
  after_submit-Keeps o x (ok r) = resolve_if-Keeps (is_pending r.status) o x r

  after_filters-Keeps :
      (o : MarketOrder) (x : LiveExecutor) (passed : Result (Option (Decimal × Decimal)))
      → Keeps x (after_filters exchange decimal_of o x passed).0
  unfolding info_requests
  after_filters-Keeps o x (err why) = (refl, refl, refl, refl)
  after_filters-Keeps o x (ok none) = (refl, refl, refl, refl)
  after_filters-Keeps o x (ok (some (q, p))) =
      let sent = submit_order exchange decimal_of o q x in
      let (a, b, c, d) = after_submit-Keeps o sent.0 sent.1 in (a, b, c, d)

  place_market_order-Keeps :
      (o : MarketOrder) (x : LiveExecutor)
      → x.exchange_info_fetched ≡ true
      → Keeps x (place_market_order exchange decimal_of o x).0
  unfolding place_market_order ensure_exchange_info
  place_market_order-Keeps o x fetched = elim (Bool-cases x.config.live_trading_enabled) [
    | inr disabled ↦ simp disabled (refl, refl, refl, refl)
    | inl enabled ↦ elim (Bool-cases (contains o.symbol x.config.allowed_symbols)) [
      | inr foreign ↦ simp (enabled, foreign) (refl, refl, refl, refl)
      | inl allowed ↦
          let (a, b, c, d) =
            after_filters-Keeps o x (apply_filters x.filters o.symbol o.qty o.price) in
          simp (enabled, allowed, fetched) (a, b, c ∙ fetched, d)
    ]
  ]

  -- Once the exchange's information is fetched, no list of orders asks for it again, or changes
  -- the configuration, the filters or the flag.
  pub place_all-Keeps :
      (os : List MarketOrder) (x : LiveExecutor)
      → x.exchange_info_fetched ≡ true
      → Keeps x (place_all exchange decimal_of os x)
  unfolding place_all
  place_all-Keeps [] x fetched = (refl, refl, refl, refl)
  place_all-Keeps (o ∷ os) x fetched =
      let kept = place_market_order-Keeps o x fetched in
      let y = (place_market_order exchange decimal_of o x).0 in
      Keeps-trans x y (place_all exchange decimal_of os y) kept
        (place_all-Keeps os y (kept.2 ∙ fetched))
