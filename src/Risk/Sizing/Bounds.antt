-- ===== src/Risk/Sizing/Bounds.antt =====
-- The bounds of an approved size, and that sizing a valid candidate raises nothing.
use crypto_ai_trader.Base.{
  ◌≡◌, sym, ap, ◌∙◌, true, false, arith, ok, refl, Bool-cases, Result-cases, inl, inr,
}
use crypto_ai_trader.Decimal.{
  Decimal, nought, hundred, le, lt, sub, mul, div, min, min-le_left, min-le_right, IsPos,
  IsPos-of_lt, mul-IsPos, div-IsPos, div_total,
}
use crypto_ai_trader.Strategies.Base.{TradeCandidate}
use crypto_ai_trader.Risk.Profiles.{RiskProfile}
use crypto_ai_trader.Risk.PreTrade.{PreTradeRiskDecision}
use crypto_ai_trader.Risk.Sizing.{
  PositionSizeResult, settle_notional, size_from_stop, calculate_position_size,
}

-- The amounts of an approved size. The accepted loss is within the profile's risk and its hard
-- cap. The notional is at least the minimum, at most the symbol's cap, and at most `multiplier`
-- times the stake that loses the accepted loss over the stop's share of the entry.
abbrev pub IsBounded :
    TradeCandidate → RiskProfile → Decimal → Decimal → Decimal → PositionSizeResult → Type 0
IsBounded c p multiplier equity min_notional r =
    (symbol_cap : Decimal) × (hard_cap : Decimal) × (target : Decimal) × (fraction : Decimal)
    × (raw : Decimal) × (div (mul equity p.max_symbol_position_pct) hundred ≡ ok symbol_cap)
    × (div (mul equity p.max_trade_risk_hard_cap_pct) hundred ≡ ok hard_cap)
    × (div (mul equity p.max_trade_risk_pct) hundred ≡ ok target)
    × (div (sub c.entry_reference c.stop_reference) c.entry_reference ≡ ok fraction)
    × (div r.max_loss_usdt fraction ≡ ok raw)
    × (le min_notional r.notional_usdt ≡ true)
    × (le r.notional_usdt symbol_cap ≡ true)
    × (le r.notional_usdt (mul raw multiplier) ≡ true)
    × (le r.max_loss_usdt hard_cap ≡ true)
    × (le r.max_loss_usdt target ≡ true)

settle_notional-bounds :
    (stake max_loss min_notional : Decimal)
    → (settle_notional stake max_loss min_notional).approved ≡ true
    → (le min_notional stake ≡ true)
      × ((settle_notional stake max_loss min_notional).notional_usdt ≡ stake)
      × ((settle_notional stake max_loss min_notional).max_loss_usdt ≡ max_loss)
unfolding settle_notional
settle_notional-bounds stake max_loss min_notional a = ground arith

settle_notional-nought :
    (stake max_loss min_notional : Decimal)
    → (settle_notional stake max_loss min_notional).approved ≡ false
    → (settle_notional stake max_loss min_notional).notional_usdt ≡ nought
unfolding settle_notional
settle_notional-nought stake max_loss min_notional a = ground arith

hundred-IsPos : IsPos hundred
hundred-IsPos = omega arith

module _ (c : TradeCandidate) (d : PreTradeRiskDecision) (p : RiskProfile) where
  -- The amounts that a computed size is settled from.
  size_from_stop-parts :
      (equity min_notional stop : Decimal) {r : PositionSizeResult}
      → size_from_stop c d p equity min_notional stop ≡ ok r
      → (symbol_cap : Decimal) × (hard_cap : Decimal) × (target : Decimal) × (fraction : Decimal)
        × (raw : Decimal) × (div (mul equity p.max_symbol_position_pct) hundred ≡ ok symbol_cap)
        × (div (mul equity p.max_trade_risk_hard_cap_pct) hundred ≡ ok hard_cap)
        × (div (mul equity p.max_trade_risk_pct) hundred ≡ ok target)
        × (div stop c.entry_reference ≡ ok fraction)
        × (div (min target hard_cap) fraction ≡ ok raw)
        × (settle_notional
              (min (mul raw d.size_multiplier) symbol_cap)
              (min target hard_cap)
              min_notional
            ≡ r)
  unfolding size_from_stop
  size_from_stop-parts equity min_notional stop h =
      elim (Result-cases (div (mul equity p.max_trade_risk_pct) hundred)) [
        | inr (x, e) ↦ absurd (ground arith)
        | inl (target, e₁) ↦
            elim (Result-cases (div (mul equity p.max_trade_risk_hard_cap_pct) hundred)) [
              | inr (x, e) ↦ absurd (ground arith)
              | inl (hard_cap, e₂) ↦ elim (Result-cases (div stop c.entry_reference)) [
                | inr (x, e) ↦ absurd (ground arith)
                | inl (fraction, e₃) ↦ elim (Result-cases (div (min target hard_cap) fraction)) [
                  | inr (x, e) ↦ absurd (ground arith)
                  | inl (raw, e₄) ↦
                      elim (Result-cases (div (mul equity p.max_symbol_position_pct) hundred)) [
                        | inr (x, e) ↦ absurd (ground arith)
                        | inl (cap, e₅) ↦
                            (cap, hard_cap, target, fraction, raw, e₅, e₂, e₁, e₃, e₄, ground arith)
                      ]
                ]
              ]
            ]
      ]

  size_from_stop-IsBounded :
      (equity min_notional : Decimal) {r : PositionSizeResult}
      → size_from_stop c d p equity min_notional (sub c.entry_reference c.stop_reference) ≡ ok r
      → r.approved ≡ true
      → IsBounded c p d.size_multiplier equity min_notional r
  size_from_stop-IsBounded equity min_notional {r} h a =
      let (cap, hard_cap, target, fraction, raw, capped, held, aimed, share, staked, e) =
        size_from_stop-parts equity min_notional (sub c.entry_reference c.stop_reference) h in
      let adjusted = mul raw d.size_multiplier in
      let (large, same, loss) =
        settle_notional-bounds (min adjusted cap) (min target hard_cap) min_notional (rw e a) in
      let loss' : r.max_loss_usdt ≡ min target hard_cap =
        ap PositionSizeResult.max_loss_usdt (sym e) ∙ loss in
      let same' : r.notional_usdt ≡ min adjusted cap =
        ap PositionSizeResult.notional_usdt (sym e) ∙ same in
      (
        cap,
        hard_cap,
        target,
        fraction,
        raw,
        capped,
        held,
        aimed,
        share,
        rw loss' staked,
        rw same' large,
        rw same' (min-le_right adjusted cap),
        rw same' (min-le_left adjusted cap),
        rw loss' (min-le_right target hard_cap),
        rw loss' (min-le_left target hard_cap),
      )

  -- A size that is approved belongs to an approved decision and a stop below the entry. Its
  -- accepted loss is within the profile's risk and hard cap of the equity. Its notional lies
  -- between the minimum and the profile's share of the equity for one symbol, and is at most the
  -- accepted loss over the stop's share of the entry, times the size multiplier of the decision.
  pub calculate_position_size-IsBounded :
      (equity min_notional : Decimal) {r : PositionSizeResult}
      → calculate_position_size c d p equity min_notional ≡ ok r
      → r.approved ≡ true
      → (d.approved ≡ true)
        × (lt nought (sub c.entry_reference c.stop_reference) ≡ true)
        × IsBounded c p d.size_multiplier equity min_notional r
  unfolding calculate_position_size
  calculate_position_size-IsBounded equity min_notional {r} h a =
      let stop = sub c.entry_reference c.stop_reference in
      elim (Bool-cases d.approved) [
        | inr refused ↦ absurd (ground arith)
        | inl accepted ↦ elim (Bool-cases (le stop nought)) [
          | inl flat ↦ absurd (ground arith)
          | inr wide ↦ (
            accepted,
            rw wide,
            size_from_stop-IsBounded equity min_notional {r = r} (ground arith) a,
          )
        ]
      ]

  size_from_stop_total :
      (equity min_notional stop : Decimal)
      → IsPos stop
      → IsPos c.entry_reference
      → IsPos equity
      → IsPos p.max_trade_risk_pct
      → IsPos p.max_trade_risk_hard_cap_pct
      → (r : PositionSizeResult) × (size_from_stop c d p equity min_notional stop ≡ ok r)
        × ((r.approved ≡ false) → (r.notional_usdt ≡ nought))
  unfolding size_from_stop
  size_from_stop_total equity min_notional stop hs he hq hr hc =
      let (target, e₁, pos₁) =
        div-IsPos (mul equity p.max_trade_risk_pct) hundred
          (mul-IsPos equity p.max_trade_risk_pct hq hr) hundred-IsPos in
      let (hard_cap, e₂, pos₂) =
        div-IsPos (mul equity p.max_trade_risk_hard_cap_pct) hundred
          (mul-IsPos equity p.max_trade_risk_hard_cap_pct hq hc) hundred-IsPos in
      let (fraction, e₃, pos₃) = div-IsPos stop c.entry_reference hs he in
      let (raw, e₄) = div_total (min target hard_cap) fraction pos₃ in
      let (cap, e₅) = div_total (mul equity p.max_symbol_position_pct) hundred hundred-IsPos in
      rw (e₁, e₂, e₃, e₄, e₅)
        (
          _,
          refl,
          settle_notional-nought (min (mul raw d.size_multiplier) cap) (min target hard_cap)
              min_notional,
        )

  -- Sizing raises nothing, and a rejected size has the notional 0, if the candidate passed its
  -- validation, and the equity and the risk percentages are positive.
  pub calculate_position_size_total :
      (equity min_notional : Decimal)
      → lt nought c.entry_reference ≡ true
      → lt nought equity ≡ true
      → lt nought p.max_trade_risk_pct ≡ true
      → lt nought p.max_trade_risk_hard_cap_pct ≡ true
      → (r : PositionSizeResult) × (calculate_position_size c d p equity min_notional ≡ ok r)
        × ((r.approved ≡ false) → (r.notional_usdt ≡ nought))
  unfolding calculate_position_size
  calculate_position_size_total equity min_notional he hq hr hc =
      let stop = sub c.entry_reference c.stop_reference in
      elim (Bool-cases d.approved) [
        | inr refused ↦ rw refused (_, refl, λ _. refl)
        | inl accepted ↦ elim (Bool-cases (le stop nought)) [
          | inl flat ↦ rw (accepted, flat) (_, refl, λ _. refl)
          | inr wide ↦
              let (r, e, nothing) =
                size_from_stop_total equity min_notional stop (IsPos-of_lt stop (rw wide))
                  (IsPos-of_lt c.entry_reference he) (IsPos-of_lt equity hq)
                  (IsPos-of_lt p.max_trade_risk_pct hr)
                  (IsPos-of_lt p.max_trade_risk_hard_cap_pct hc) in
              (r, ground arith, nothing)
        ]
      ]
