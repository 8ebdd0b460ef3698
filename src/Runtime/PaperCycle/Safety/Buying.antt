-- ===== src/Runtime/PaperCycle/Safety/Buying.antt =====
-- The gate and the executor: what stands between a sized candidate and its order.
use crypto_ai_trader.Base.{
  ◌≡◌, ◌≢◌, refl, ◌∙◌, String, List, [], ◌∷◌, ◌++◌, Option, none, some, Bool, true, false, last?,
  ◌⊎◌, Result, ok, err, >>=-eq-ok, arith, Bool-cases, inl, inr,
}
use crypto_ai_trader.Decimal.{Decimal, nought, le, lt, sub, mul, div}
use crypto_ai_trader.Strategies.Base.{Time, buy, TradeCandidate}
use crypto_ai_trader.Risk.Sizing.{PositionSizeResult}
use crypto_ai_trader.Execution.Gate.{
  Route, paper, shadow, blocked, paper_auto, live_shadow, compute_execution_route, decide,
}
use crypto_ai_trader.Execution.Gate.Routing.{decide_lem}
use crypto_ai_trader.Execution.PaperExecutor.{
  PaperOrder, PaperFill, PaperExecutor, PaperExecutionResult, execute_market_buy, apply_slippage,
  ten_thousand,
}
use crypto_ai_trader.Runtime.PaperCycle.{
  CycleInput, Setup, State, CycleResult, attempt, log, log_id,
}
use crypto_ai_trader.Runtime.PaperCycle.Execution.{
  Plan, store_buy, after_buy, buy_on_paper, finish_shadow, by_route, after_gate, execute_plan,
}
use crypto_ai_trader.Runtime.PaperCycle.Safety.{Guarded, Orders}

last?-snoc {ℓ} : {A : Type ℓ} (xs : List A) (x : A) → last? (xs ++ x ∷ []) ≡ some x
last?-snoc [] x = refl
last?-snoc (y ∷ []) x = refl
last?-snoc (y ∷ z ∷ xs) x = last?-snoc (z ∷ xs) x

pub attempt-Guarded {ℓ} :
    {A : Type ℓ} (P : PaperOrder × PaperFill → Type 0) (s : State) (m : Result A)
    (k : A → State × Result CycleResult)
    → ((a : A) → m ≡ ok a → Guarded P (k a))
    → Guarded P (attempt s m k)
attempt-Guarded P s (ok a) k g = g a refl
attempt-Guarded P s (err e) k g = tt

-- An approved buy had an approved size and a positive price, and its order is for that size.
abbrev Buys : TradeCandidate → PositionSizeResult → Decimal → PaperExecutionResult → Type 0
Buys c size price r =
    (r.approved ≡ true)
    → (size.approved ≡ true)
      × (lt nought price ≡ true)
      × ((order : PaperOrder)
          → (fill : PaperFill) → (r.order ≡ some order)
          → Orders c size (order, fill))

execute_market_buy-Buys :
    (x : PaperExecutor) (c : TradeCandidate) (size : PositionSizeResult) (price : Decimal)
    (at : Time) (r : PaperExecutionResult)
    → execute_market_buy x c size price at ≡ ok r
    → Buys c size price r
unfolding execute_market_buy
execute_market_buy-Buys x c size price at r h a = elim (Bool-cases size.approved) [
  | inr refused ↦ absurd (ground arith)
  | inl sized ↦ elim (Bool-cases (le price nought)) [
    | inl free ↦ absurd (ground arith)
    | inr priced ↦
        let (fill_price, e₁, h₁) =
          >>=-eq-ok (apply_slippage x price buy) _ (simp (sized, priced) at h) in
        let (fee, e₂, h₂) = >>=-eq-ok (div (mul size.notional_usdt x.fee_bps) ten_thousand) _ h₁ in
        let (qty, e₃, h₃) = >>=-eq-ok (div (sub size.notional_usdt fee) fill_price) _ h₂ in
        (sized, rw priced, λ order fill e. ground arith)
  ]
]

module _ (u : Setup) (i : CycleInput) (p : Plan) where
  -- What the gate and the executor add to a plan.
  abbrev pub Placed : PaperOrder × PaperFill → Type 0
  Placed trade =
      (u.mode ≡ paper_auto)
      × (p.size.approved ≡ true)
      × (lt nought p.market_price ≡ true)
      × Orders p.candidate p.size trade

  store_buy-Guarded :
      (approved : Bool) (order : Option PaperOrder) (fill : Option PaperFill)
      (reasons : List String) (s : State)
      → ((approved ≡ true) → (o : PaperOrder) (f : PaperFill) → (order ≡ some o) → Placed (o, f))
      → Guarded Placed (store_buy u i p approved order fill reasons s)
  unfolding log log_id
  store_buy-Guarded false order fill reasons s h = λ no. absurd (ground arith)
  store_buy-Guarded true none fill reasons s h = λ no. absurd (ground arith)
  store_buy-Guarded true (some order) none reasons s h = λ no. absurd (ground arith)
  store_buy-Guarded true (some order) (some fill) reasons s h =
      λ yes_bought. ((order, fill), last?-snoc s.executions (order, fill), h refl order fill refl)

  buy_on_paper-Guarded : (s : State) → u.mode ≡ paper_auto → Guarded Placed (buy_on_paper u i p s)
  buy_on_paper-Guarded s m =
      attempt-Guarded Placed s
        (execute_market_buy u.executor p.candidate p.size p.market_price i.now) (after_buy u i p s)
        λ r e. store_buy-Guarded r.approved r.order r.fill r.reject_reasons s λ a o f h.
          let (sized, priced, orders) =
            execute_market_buy-Buys u.executor p.candidate p.size p.market_price i.now r e a in
          (m, sized, priced, orders o f h)

  by_route-Guarded :
      (route : Route) (s : State)
      → ((route ≢ shadow) → u.mode ≡ paper_auto)
      → Guarded Placed (by_route u i p route s)
  by_route-Guarded shadow s m =
      attempt-Guarded Placed s _ (finish_shadow u i p s) λ price e no. absurd (ground arith)
  by_route-Guarded paper s m = buy_on_paper-Guarded s (m (ground arith))
  by_route-Guarded blocked s m = buy_on_paper-Guarded s (m (ground arith))

  paper_route :
      {route : Route} {risk lock : Bool}
      → (u.mode ≡ paper_auto) × (risk ≡ true) ⊎ (u.mode ≡ live_shadow) × (lock ≡ false)
      → route ≡ compute_execution_route u.mode
      → route ≢ shadow
      → u.mode ≡ paper_auto
  unfolding compute_execution_route
  paper_route (inl (m, a)) r off = m
  paper_route (inr (m, a)) r off = absurd (off (r ∙ rw m))

  pub execute_plan-Guarded : (s : State) → Guarded Placed (execute_plan u i p s)
  unfolding execute_plan
  execute_plan-Guarded s =
      attempt-Guarded Placed s (decide u.mode u.lock p.risk.approved i.kill_switch_enabled)
        (after_gate u i p s)
        λ d e.
          let (permits, routes, blocks, same) =
            decide_lem u.mode u.lock p.risk.approved i.kill_switch_enabled e in
          elim (Bool-cases d.allowed) [
            | inr shut ↦ simp shut (λ no. absurd (ground arith))
            | inl passes ↦ simp passes (
                by_route-Guarded d.route _
                  λ off. paper_route (permits.0 passes).1 (routes passes) off)
          ]
