-- ===== src/Examples/Risk.antt =====
-- Runs of the risk checks.
use crypto_ai_trader.Base.{◌≡◌, ◌≢◌, ◌↔◌, refl, [], ◌∷◌, map, none, some, true, false, upper, ok}
use crypto_ai_trader.Decimal.{Decimal, dec, nought, hundred, le, lt, sub, div}
use crypto_ai_trader.Risk.State.{normal, global_pause, emergency_stop, classify_daily_loss}
use crypto_ai_trader.Risk.Profiles.{small_balanced, daily_pnl_pct}
use crypto_ai_trader.Risk.PreTrade.{
  PreTradeRiskDecision, default_limits, approve, evaluate_pre_trade_risk, after_daily_loss,
}
use crypto_ai_trader.Risk.PreTrade.Approval.{Admissible, evaluate_pre_trade_risk-approved_iff}
use crypto_ai_trader.Risk.Sizing.{PositionSizeResult, calculate_position_size, size_rejected}
use crypto_ai_trader.Risk.Sizing.Bounds.{
  IsBounded, calculate_position_size-IsBounded, calculate_position_size_total,
}
use crypto_ai_trader.Risk.PreFlight.{Credentials, is_unset, is_in, run_pre_flight}
use crypto_ai_trader.Risk.PreFlight.Outcome.{run_pre_flight-passed_iff}
use crypto_ai_trader.Examples.Data.{returned, btc_candidate, calm_snapshot, unlocked}

-- An equity of 480 after 500 is a loss of 4%, below the caution threshold.
calm_decision :
    evaluate_pre_trade_risk btc_candidate calm_snapshot small_balanced default_limits
    ≡ ok (approve normal)
unfolding evaluate_pre_trade_risk classify_daily_loss after_daily_loss daily_pnl_pct le div
    crypto_ai_trader.Decimal.neg crypto_ai_trader.Decimal.mul sub
    crypto_ai_trader.Risk.PreTrade.note_if
calm_decision = refl

evaluate_pre_trade_risk-approved_iff_example :
    ((approve normal).approved ≡ true) ↔ Admissible calm_snapshot small_balanced default_limits
evaluate_pre_trade_risk-approved_iff_example =
    evaluate_pre_trade_risk-approved_iff btc_candidate calm_snapshot small_balanced default_limits
      calm_decision

abbrev sized : PositionSizeResult
sized =
    returned
      (calculate_position_size btc_candidate (approve normal) small_balanced (dec 480 0) (dec 10 0))
      (size_rejected nought [])

calm_size :
    calculate_position_size btc_candidate (approve normal) small_balanced (dec 480 0) (dec 10 0)
    ≡ ok sized
unfolding calculate_position_size le sub crypto_ai_trader.Risk.Sizing.size_from_stop div
calm_size = refl

calm_size-approved : sized.approved ≡ true
unfolding calculate_position_size le sub crypto_ai_trader.Risk.Sizing.size_from_stop div
    crypto_ai_trader.Risk.Sizing.settle_notional crypto_ai_trader.Decimal.min
    crypto_ai_trader.Decimal.mul
calm_size-approved = refl

calculate_position_size-IsBounded_example :
    ((approve normal).approved ≡ true)
    × (lt nought (sub (dec 100 0) (dec 95 0)) ≡ true)
    × IsBounded btc_candidate small_balanced
        (approve normal).size_multiplier
        (dec 480 0)
        (dec 10 0)
        sized
calculate_position_size-IsBounded_example =
    calculate_position_size-IsBounded btc_candidate (approve normal) small_balanced (dec 480 0)
      (dec 10 0) calm_size calm_size-approved

calculate_position_size_total_example :
    (r : PositionSizeResult) × (calculate_position_size btc_candidate
        (approve normal)
        small_balanced
        (dec 480 0)
        (dec 10 0)
      ≡ ok r)
    × ((r.approved ≡ false) → (r.notional_usdt ≡ nought))
unfolding le
calculate_position_size_total_example =
    calculate_position_size_total btc_candidate (approve normal) small_balanced (dec 480 0)
      (dec 10 0) refl refl refl refl

abbrev credentials : Credentials
credentials = record { api_key = some "key"; api_secret = some "secret" }

run_pre_flight-passed_iff_example :
    let r = run_pre_flight credentials "btcusdt" ("BTCUSDT" ∷ []) unlocked normal in
    ((r.passed ≡ true) ↔ (
      (is_unset (some "key") ≡ false)
      × (is_unset (some "secret") ≡ false)
      × (is_in (upper "btcusdt") (map upper ("BTCUSDT" ∷ [])) ≡ true)
      × (false ≡ false)
      × (normal ≢ global_pause)
      × (normal ≢ emergency_stop)))
    × ((r.passed ≡ true) ↔ (r.blocked_reason ≡ none))
run_pre_flight-passed_iff_example =
    run_pre_flight-passed_iff credentials "btcusdt" ("BTCUSDT" ∷ []) unlocked normal
