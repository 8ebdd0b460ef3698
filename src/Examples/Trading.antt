-- ===== src/Examples/Trading.antt =====
-- Runs of the gate, the executor, the exits, the strategy, the scorer, the account and the
-- indicators.
use crypto_ai_trader.Base.{
  ◌*◌, ◌≡◌, ◌↔◌, ◌⊎◌, refl, String, List, [], ◌∷◌, last?, Option, none, some, true, false, ok, err,
  validation_error,
}
use crypto_ai_trader.Base.Int.{pos}
use crypto_ai_trader.Decimal.{Decimal, dec, nought, le, lt}
use crypto_ai_trader.Strategies.Base.{buy, sell, TradeCandidate, candidate_is_valid}
use crypto_ai_trader.Strategies.Exits.{ExitSignal, Holding, evaluate, hour}
use crypto_ai_trader.Strategies.Exits.Priority.{Explains, evaluate-Explains}
use crypto_ai_trader.Strategies.Momentum.{generate_momentum_candidate}
use crypto_ai_trader.Strategies.Momentum.Alignment.{
  IsAligned, generate_momentum_candidate-IsAligned,
}
use crypto_ai_trader.Features.Builder.{build_features, CandleFeatures, TrendState, up, neutral}
use crypto_ai_trader.Features.Indicators.{ema, rsi, atr}
use crypto_ai_trader.Risk.Sizing.{PositionSizeResult}
use crypto_ai_trader.Execution.Gate.{
  paper_auto, live_shadow, unknown, ExecutionDecision, paper, blocked, paper_auto_approved, decide,
  compute_execution_route,
}
use crypto_ai_trader.Execution.Gate.Routing.{decide_lem, decide_returns_iff}
use crypto_ai_trader.Portfolio.Accounting.{apply_sell_fill, replay}
use crypto_ai_trader.Portfolio.Accounting.Quantities.{IsHeld, IsCovered, replay-IsHeld}
use crypto_ai_trader.Portfolio.Accounting.Trades.{Moves, apply_sell_fill-Moves}
use crypto_ai_trader.Ai.Scorer.{
  Payload, RawScore, Client, allow, reject, model_validate, score_candidate,
}
use crypto_ai_trader.Ai.Scorer.FailClosed.{Reads, score_candidate-fails_closed}
use crypto_ai_trader.Examples.Data.{
  rising, returned, btc_candidate, unlocked, first_buy, half_sale, empty_account, long_account,
  engine,
}

abbrev paper_decision : ExecutionDecision
paper_decision = record {
  allowed = true;
  route = paper;
  reason = paper_auto_approved;
  mode = paper_auto;
}

decide_example :
    ((true ≡ true) ↔ (
      (false ≡ false)
      × ((paper_auto ≡ paper_auto) × (true ≡ true) ⊎ (paper_auto ≡ live_shadow) × (false ≡ false))))
    × ((true ≡ true) → (paper ≡ compute_execution_route paper_auto))
    × ((true ≡ false) → (paper ≡ blocked))
    × (paper_auto ≡ paper_auto)
unfolding decide
decide_example = decide_lem paper_auto unlocked true false {d = paper_decision} refl

decide_returns_iff_example :
    (decide (unknown "turbo") unlocked true false ≡ err validation_error)
    ↔ ((text : String) × (unknown "turbo" ≡ unknown text))
decide_returns_iff_example = decide_returns_iff (unknown "turbo") unlocked true false

abbrev stake : PositionSizeResult
stake = record {
  approved = true;
  notional_usdt = dec 144 0;
  max_loss_usdt = dec 72 1;
  reject_reasons = [];
}

abbrev held : Holding
held = record {
  symbol = "BTCUSDT";
  position_qty = dec 2 0;
  position_avg_entry = dec 100 0;
  market_price = dec 94 0;
  current_time = 1001 * hour;
  position_opened_at = some (1000 * hour);
}

evaluate-Explains_example :
    (o : Option ExitSignal) × (evaluate engine (some (dec 95 0)) held ≡ ok o)
    × Explains engine (some (dec 95 0)) held o
evaluate-Explains_example = evaluate-Explains engine (some (dec 95 0)) held

abbrev rising_features : TrendState → CandleFeatures
rising_features trend = record {
  symbol = "BTCUSDT";
  timeframe = "15m";
  candle_time = hour;
  close = dec 100 0;
  ema_fast = some (dec 98 0);
  ema_slow = some (dec 96 0);
  ema_200 = none;
  rsi_14 = some (dec 60 0);
  atr_14 = some (dec 25 1);
  volume_ratio = none;
  trend_state = trend;
}

abbrev proposed : TradeCandidate
proposed = record {
  strategy_name = "multi_timeframe_momentum";
  symbol = "BTCUSDT";
  entry_reference = dec 100 0;
  stop_reference = dec 950 1;
  rule_confidence = dec 70 2;
  reason = "15m/1h momentum aligned with non-bearish 4h context.";
  created_at = hour;
}

proposes :
    generate_momentum_candidate "BTCUSDT"
      (rising_features up ∷ [])
      (rising_features up ∷ [])
      (rising_features neutral ∷ [])
      hour
    ≡ ok (some proposed)
unfolding generate_momentum_candidate crypto_ai_trader.Strategies.Momentum.from_latest le
    crypto_ai_trader.Decimal.sub crypto_ai_trader.Decimal.mul
    crypto_ai_trader.Strategies.Base.trade_candidate
    crypto_ai_trader.Strategies.Momentum.momentum_candidate
proposes = refl

generate_momentum_candidate-IsAligned_example :
    (m15 : CandleFeatures) × (h1 : CandleFeatures) × (h4 : CandleFeatures) × (last?
        (rising_features up ∷ [])
      ≡ some m15)
    × (last? (rising_features up ∷ []) ≡ some h1)
    × (last? (rising_features neutral ∷ []) ≡ some h4)
    × IsAligned m15 h1 h4 proposed
    × (proposed.symbol ≡ "BTCUSDT")
    × (candidate_is_valid proposed ≡ true)
generate_momentum_candidate-IsAligned_example =
    generate_momentum_candidate-IsAligned "BTCUSDT" (rising_features up ∷ [])
      (rising_features up ∷ []) (rising_features neutral ∷ []) hour proposes

abbrev raw_reply : RawScore
raw_reply = record {
  ai_score = pos 72;
  market_regime = "trend";
  decision_hint = "allow";
  risk_flags = [];
  explanation = "Momentum is aligned.";
}

abbrev client : Client
client payload = some raw_reply

abbrev sent : Payload
sent = record {
  candidate = btc_candidate;
  trend_15m = up;
  trend_1h = up;
  trend_4h = neutral;
  rsi_14 = some (dec 60 0);
  account_equity = dec 480 0;
  total_position_pct = dec 20 0;
  symbol_position_pct = dec 10 0;
  consecutive_losses = 0;
}

reply-allow : (score_candidate client sent).decision_hint ≡ allow
unfolding score_candidate model_validate crypto_ai_trader.Ai.Scorer.read_score
    crypto_ai_trader.Ai.Scorer.read_regime crypto_ai_trader.Ai.Scorer.read_hint
reply-allow = refl

score_candidate-fails_closed_example :
    (((score_candidate client sent).decision_hint ≡ reject)
      × ((score_candidate client sent).ai_score ≡ 0))
    ⊎ ((raw : RawScore) × (client sent ≡ some raw) × Reads raw (score_candidate client sent))
score_candidate-fails_closed_example = score_candidate-fails_closed client sent

replay-IsHeld_example :
    IsHeld (replay (first_buy ∷ half_sale ∷ []) empty_account).0.positions
    × (((replay (first_buy ∷ half_sale ∷ []) empty_account).1 ≡ ok tt)
        → IsCovered (first_buy ∷ half_sale ∷ []) empty_account)
unfolding le
replay-IsHeld_example =
    replay-IsHeld (first_buy ∷ half_sale ∷ []) empty_account (refl, (refl, tt)) tt

apply_sell_fill-Moves_example :
    Moves half_sale long_account (apply_sell_fill half_sale long_account)
apply_sell_fill-Moves_example = apply_sell_fill-Moves half_sale long_account

abbrev values : List Decimal
values = dec 10 0 ∷ dec 12 0 ∷ dec 11 0 ∷ dec 13 0 ∷ []

abbrev lows : List Decimal
lows = dec 9 0 ∷ dec 10 0 ∷ dec 10 0 ∷ dec 12 0 ∷ []

ema_returns : ema values 3 ≡ ok (returned (ema values 3) [])
unfolding ema crypto_ai_trader.Decimal.div
ema_returns = refl

atr_returns : atr values lows values 2 ≡ ok (returned (atr values lows values 2) [])
unfolding atr crypto_ai_trader.Decimal.div
atr_returns = refl

rsi_returns : rsi values 2 ≡ ok (returned (rsi values 2) [])
unfolding rsi crypto_ai_trader.Decimal.div le crypto_ai_trader.Decimal.sum_from
    crypto_ai_trader.Decimal.add crypto_ai_trader.Decimal.sub crypto_ai_trader.Decimal.neg
    crypto_ai_trader.Decimal.mul
rsi_returns = refl

features_return : build_features (rising 15) ≡ ok (returned (build_features (rising 15)) [])
unfolding build_features ema crypto_ai_trader.Decimal.div rsi le crypto_ai_trader.Decimal.sum_from
    crypto_ai_trader.Decimal.add crypto_ai_trader.Decimal.sub atr
features_return = refl
