-- ===== src/Dashboard/Risk/Agreement.antt =====
-- The two computations of the risk state agree.
use crypto_ai_trader.Base.{
  ℕ, List, [], ◌∷◌, ◌≡◌, ◌⊎◌, ap, ◌∙◌, inl, inr, refl, String, Option, Bool, true, false, none,
  some, Result, ok, err, ◌>>=◌, Result-cases,
}
use crypto_ai_trader.Decimal.{Decimal, nought, max_of, quantize_half_even}
use crypto_ai_trader.Strategies.Base.{Time}
use crypto_ai_trader.Base.Dict.{Dict, insert}
use crypto_ai_trader.Execution.PaperExecutor.{PaperFill}
use crypto_ai_trader.MarketData.Schemas.{CandleData}
use crypto_ai_trader.Portfolio.Accounting.{
  Position, PortfolioAccount, apply_fill, unless_raised, replay, total_equity,
}
use crypto_ai_trader.Runtime.Runner.Inputs.{account_of}
use crypto_ai_trader.Risk.State.{DailyLossDecision}
use crypto_ai_trader.Runtime.Runner.Baseline.{date_of, BaselineSet, has_date, latest_event}
use crypto_ai_trader.Dashboard.Risk.{
  RiskRows, initial_cash, position_prices, equity_of, todays, dated, baseline_of, current_equity,
  decide_loss, info_account, info_price, mark_price, info_prices, info_equity, info_decision,
  info_of, pnl_pct, info_or_none, info_with_baseline, state_dated, state_of_event,
  resolve_risk_state, resolve_risk_info,
}

-- The copies of the steps compute the same.
info_account-replay :
    (fills : List PaperFill) (a : PortfolioAccount) → info_account fills a ≡ replay fills a
unfolding info_account replay
info_account-replay [] a = refl
info_account-replay (f ∷ fs) a =
    ap (unless_raised (apply_fill f a).1 (apply_fill f a))
      (info_account-replay fs (apply_fill f a).0)

info_price-mark_price : (p : Position) (o : Option CandleData) → info_price p o ≡ mark_price o p
info_price-mark_price p none = refl
info_price-mark_price p (some candle) = refl

info_prices-position_prices :
    (latest : String → Option CandleData) (positions : Dict Position) (prices : Dict Decimal)
    → info_prices latest positions prices ≡ position_prices latest positions prices
unfolding info_prices position_prices
info_prices-position_prices latest [] prices = refl
info_prices-position_prices latest ((symbol, p) ∷ rest) prices =
    info_prices-position_prices latest rest (insert symbol (info_price p (latest symbol)) prices)
    ∙ ap (λ price. position_prices latest rest (insert symbol price prices))
        (info_price-mark_price p (latest symbol))

info_equity_of :
    (latest : String → Option CandleData) (account : PortfolioAccount)
    (replayed : Result (Unit {0}))
    → (replayed >>= λ done.
        ok (max_of (total_equity (info_prices latest account.positions []) account) nought))
      ≡ equity_of latest (account, replayed)
info_equity_of latest account (err why) = refl
info_equity_of latest account (ok done) =
    rw (info_prices-position_prices latest account.positions []) refl

info_equity-current_equity : (rows : RiskRows) → info_equity rows ≡ current_equity rows
unfolding info_equity current_equity
info_equity-current_equity rows =
    let (account, replayed) = info_account rows.fills (account_of initial_cash) in
    info_equity_of rows.latest account replayed
    ∙ ap (equity_of rows.latest) (info_account-replay rows.fills (account_of initial_cash))

info_decision-decide_loss :
    (day_start equity : Decimal) → info_decision day_start equity ≡ decide_loss day_start equity
unfolding info_decision decide_loss
info_decision-decide_loss day_start equity = refl

-- The information that follows a decision names its state, or the percentage cannot be shown.
shown_state :
    (day_start equity : Decimal) (decision : DailyLossDecision) (shown : Result Decimal)
    → let state =
        (info_or_none (shown >>= λ pct. ok (info_of day_start equity decision pct))).risk_state in
      (state ≡ some decision.risk_state) ⊎ (state ≡ none)
shown_state day_start equity decision (ok pct) = inl refl
shown_state day_start equity decision (err why) = inr refl

agree_todays :
    (decimal_of : String → Result Decimal) (rows : RiskRows) (text : String)
    → let info = info_with_baseline decimal_of rows (todays text) in
      let state = state_dated decimal_of rows (some text) true in
      (info.risk_state ≡ state) ⊎ (info.risk_state ≡ none)
agree_todays decimal_of rows text = elim (Result-cases (decimal_of text)) [
  | inr (why, e) ↦ rw e (inl refl)
  | inl (day_start, e) ↦ elim (Result-cases (current_equity rows)) [
    | inr (why, f) ↦ rw (e, info_equity-current_equity rows, f) (inl refl)
    | inl (equity, f) ↦ elim (Result-cases (decide_loss day_start equity)) [
      | inr (why, g) ↦
          rw (e, info_equity-current_equity rows, f, info_decision-decide_loss day_start equity, g)
            (inl refl)
      | inl (decision, g) ↦
          let same = info_decision-decide_loss day_start equity in
          elim (Result-cases (pnl_pct day_start equity)) [
            | inr (why, h) ↦ rw (e, info_equity-current_equity rows, f, same, g, h) (inr refl)
            | inl (pct, h) ↦
                rw (e, info_equity-current_equity rows, f, same, g, h)
                  (shown_state day_start equity decision (quantize_half_even pct 2))
          ]
    ]
  ]
]

agree_dated :
    (decimal_of : String → Result Decimal) (rows : RiskRows) (text : Option String)
    (is_today : Bool)
    → let info = info_with_baseline decimal_of rows (dated text is_today) in
      (info.risk_state ≡ state_dated decimal_of rows text is_today) ⊎ (info.risk_state ≡ none)
agree_dated decimal_of rows none is_today = inl refl
agree_dated decimal_of rows (some text) false = inl refl
agree_dated decimal_of rows (some text) true = agree_todays decimal_of rows text

agree_event :
    (decimal_of : String → Result Decimal) (rows : RiskRows) (today : ℕ) (o : Option BaselineSet)
    → let info = info_with_baseline decimal_of rows (baseline_of o today) in
      (info.risk_state ≡ state_of_event decimal_of rows today o) ⊎ (info.risk_state ≡ none)
agree_event decimal_of rows today none = inl refl
agree_event decimal_of rows today (some event) =
    agree_dated decimal_of rows event.baseline (has_date event.date today)

-- The two copies of the computation agree: the risk state in the release gate is the one that a
-- mode request is judged by, or it is unavailable there.
pub resolve_risk_info-agrees :
    (decimal_of : String → Result Decimal) (now : Time) (rows : RiskRows)
    → ((resolve_risk_info decimal_of now rows).risk_state ≡ resolve_risk_state decimal_of now rows)
      ⊎ ((resolve_risk_info decimal_of now rows).risk_state ≡ none)
unfolding resolve_risk_info resolve_risk_state
resolve_risk_info-agrees decimal_of now rows =
    agree_event decimal_of rows (date_of now) (latest_event rows.baselines)
