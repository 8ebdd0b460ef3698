-- ===== src/Execution/Gate/Routing.antt =====
-- Which trades the gate lets through.
use crypto_ai_trader.Base.{
  String, ◌≡◌, ◌↔◌, ◌⊎◌, Bool, true, false, refl, arith, ok, err, validation_error,
}
use crypto_ai_trader.Execution.Gate.{
  TradeMode, paused, paper_auto, live_shadow, live_small_auto, unknown, blocked, ExecutionDecision,
  LiveTradingLock, decide, compute_execution_route,
}

-- A decision that is returned allows the trade exactly when the kill switch is off and the mode
-- is `paper_auto` with the risk approved, or `live_shadow` with the lock off; `live_small_auto`
-- is never allowed. The route is that of the mode when allowed, and `blocked` otherwise, and
-- the decision names the mode it was asked about.
pub decide_lem :
    (mode : TradeMode) (lock : LiveTradingLock) (risk kill : Bool) {d : ExecutionDecision}
    → decide mode lock risk kill ≡ ok d
    → ((d.allowed ≡ true) ↔ (
        (kill ≡ false)
        × ((mode ≡ paper_auto) × (risk ≡ true) ⊎ (mode ≡ live_shadow) × (lock.enabled ≡ false))))
      × ((d.allowed ≡ true) → (d.route ≡ compute_execution_route mode))
      × ((d.allowed ≡ false) → (d.route ≡ blocked))
      × (d.mode ≡ mode)
unfolding decide compute_execution_route
decide_lem paused lock risk kill h = ground arith
decide_lem paper_auto lock risk kill h = ground arith
decide_lem live_shadow lock risk kill h = ground arith
decide_lem live_small_auto lock risk kill h = ground arith
decide_lem (unknown text) lock risk kill h = ground arith

-- A decision is returned for each of the four modes; a mode of any other text raises a
-- validation error instead of the blocked decision that is meant to fail closed.
pub decide_returns_iff :
    (mode : TradeMode) (lock : LiveTradingLock) (risk kill : Bool)
    → (decide mode lock risk kill ≡ err validation_error)
      ↔ ((text : String) × (mode ≡ unknown text))
unfolding decide
decide_returns_iff paused lock risk kill = ground arith
decide_returns_iff paper_auto lock risk kill = ground arith
decide_returns_iff live_shadow lock risk kill = ground arith
decide_returns_iff live_small_auto lock risk kill = ground arith
decide_returns_iff (unknown text) lock risk kill = (λ _. (text, refl), λ _. ground arith)
