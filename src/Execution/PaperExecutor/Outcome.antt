-- ===== src/Execution/PaperExecutor/Outcome.antt =====
-- When the paper executor fills an order, and that it then raises nothing.
use crypto_ai_trader.Base.{
  String, ◌≡◌, ◌≢◌, ◌↔◌, List, [], ◌∷◌, none, some, true, false, ok, refl, arith, Bool-cases, inl,
  inr,
}
use crypto_ai_trader.Decimal.{
  Decimal, nought, one, le, lt, add, sub, mul, IsPos, IsPos-of_lt, IsNonneg-of_le, add-IsPos,
  mul-IsPos, div-IsNonneg, div_total,
}
use crypto_ai_trader.Strategies.Base.{Time, Side, buy, sell, TradeCandidate}
use crypto_ai_trader.Risk.Sizing.{PositionSizeResult}
use crypto_ai_trader.Execution.PaperExecutor.{
  PaperExecutor, PaperExecutionResult, PaperFill, filled, ten_thousand, apply_slippage,
  execute_market_buy, execute_market_sell,
}

-- An execution either is approved, with a fill of the given symbol and no reasons, or has
-- neither order nor fill and names a reason.
abbrev pub IsWhole : String → PaperExecutionResult → Type 0
IsWhole symbol r =
    ((r.approved ≡ true)
      → (r.reject_reasons ≡ [])
        × (r.order ≢ none)
        × ((fill : PaperFill) × (r.fill ≡ some fill) × (fill.symbol ≡ symbol)))
    × ((r.approved ≡ false) → (r.reject_reasons ≢ []) × (r.order ≡ none) × (r.fill ≡ none))

filled-IsWhole :
    (x : PaperExecutor) (symbol : String) (side : Side) (notional price qty fee : Decimal)
    (at : Time)
    → IsWhole symbol (filled x symbol side notional price qty fee at)
filled-IsWhole x symbol side notional price qty fee at =
    (λ _. (refl, ground arith, (_, refl, refl)), λ e. absurd (ground arith))

refused-IsWhole :
    (symbol reason : String) (reasons : List String)
    → IsWhole symbol
        (record { approved = false; order = none; fill = none; reject_reasons = reason ∷ reasons })
refused-IsWhole symbol reason reasons =
    (λ e. absurd (ground arith), λ _. (ground arith, refl, refl))

one-IsPos : IsPos one
one-IsPos = omega arith

ten_thousand-IsPos : IsPos ten_thousand
ten_thousand-IsPos = omega arith

-- A sell returns for every input, whole, and is approved exactly when the quantity and the
-- market price are positive.
pub execute_market_sell_total :
    (x : PaperExecutor) (symbol : String) (qty price : Decimal) (at : Time)
    → (r : PaperExecutionResult) × (execute_market_sell x symbol qty price at ≡ ok r)
      × ((r.approved ≡ true) ↔ ((lt nought qty ≡ true) × (lt nought price ≡ true)))
      × IsWhole symbol r
unfolding execute_market_sell apply_slippage
execute_market_sell_total x symbol qty price at =
    let (rate, e₁) = div_total x.slippage_bps ten_thousand ten_thousand-IsPos in
    let fill_price = mul price (sub one rate) in
    let (fee, e₂) =
      div_total (mul (mul qty fill_price) x.fee_bps) ten_thousand ten_thousand-IsPos in
    elim (Bool-cases (le qty nought)) [
      | inl empty ↦ rw empty (_, refl, ground arith, refused-IsWhole symbol "invalid_qty" [])
      | inr some_qty ↦ elim (Bool-cases (le price nought)) [
        | inl free ↦
            rw (some_qty, free)
              (_, refl, ground arith, refused-IsWhole symbol "invalid_market_price" [])
        | inr priced ↦
            rw (some_qty, priced, e₁, e₂)
              (
                _,
                refl,
                ground arith,
                filled-IsWhole x symbol sell (mul qty fill_price) fill_price qty fee at,
              )
      ]
    ]

-- What a sell of a positive quantity at a positive price brings.
pub execute_market_sell-filled :
    (x : PaperExecutor) (symbol : String) (qty price : Decimal) (at : Time)
    → lt nought qty ≡ true
    → lt nought price ≡ true
    → (fill_price : Decimal) × (fee : Decimal) × (execute_market_sell x symbol qty price at
        ≡ ok (filled x symbol sell (mul qty fill_price) fill_price qty fee at))
unfolding execute_market_sell apply_slippage
execute_market_sell-filled x symbol qty price at some_qty priced =
    let (rate, e₁) = div_total x.slippage_bps ten_thousand ten_thousand-IsPos in
    let fill_price = mul price (sub one rate) in
    let (fee, e₂) =
      div_total (mul (mul qty fill_price) x.fee_bps) ten_thousand ten_thousand-IsPos in
    let nonempty : le qty nought ≡ false = ground arith in
    let costly : le price nought ≡ false = ground arith in
    (fill_price, fee, rw (nonempty, costly, e₁, e₂) refl)

-- A buy with a slippage of zero or more returns, whole, and is approved exactly when the size
-- was approved and the market price is positive.
pub execute_market_buy_total :
    (x : PaperExecutor) (c : TradeCandidate) (size : PositionSizeResult) (price : Decimal)
    (at : Time)
    → le nought x.slippage_bps ≡ true
    → (r : PaperExecutionResult) × (execute_market_buy x c size price at ≡ ok r)
      × ((r.approved ≡ true) ↔ ((size.approved ≡ true) × (lt nought price ≡ true)))
      × IsWhole c.symbol r
unfolding execute_market_buy apply_slippage
execute_market_buy_total x c size price at h =
    let (rate, e₁, fine) =
      div-IsNonneg x.slippage_bps ten_thousand (IsNonneg-of_le x.slippage_bps h)
        ten_thousand-IsPos in
    let fill_price = mul price (add one rate) in
    let (fee, e₂) = div_total (mul size.notional_usdt x.fee_bps) ten_thousand ten_thousand-IsPos in
    elim (Bool-cases size.approved) [
      | inr refused ↦ simp refused (
        _,
        refl,
        ground arith,
        refused-IsWhole c.symbol "position_size_rejected" size.reject_reasons,
      )
      | inl sized ↦ elim (Bool-cases (le price nought)) [
        | inl free ↦
            simp (sized, free)
              (_, refl, ground arith, refused-IsWhole c.symbol "invalid_market_price" [])
        | inr priced ↦
            let costs =
              mul-IsPos price (add one rate) (IsPos-of_lt price (rw priced))
                (add-IsPos one rate one-IsPos fine) in
            let (qty, e₃) = div_total (sub size.notional_usdt fee) fill_price costs in
            simp (sized, priced, e₁, e₂, e₃)
              (
                _,
                refl,
                ground arith,
                filled-IsWhole x c.symbol buy size.notional_usdt fill_price qty fee at,
              )
      ]
    ]
