-- ===== src/Strategies/Momentum/Alignment.antt =====
-- When the momentum strategy proposes a trade.
use crypto_ai_trader.Base.{
  ◌≡◌, ◌≢◌, String, List, Option, none, some, true, false, last?, ok, arith, refl, Bool-cases, inl,
  inr,
}
use crypto_ai_trader.Decimal.{Decimal, dec, nought, le, lt, sub, mul}
use crypto_ai_trader.Strategies.Base.{Time, TradeCandidate, trade_candidate, candidate_is_valid}
use crypto_ai_trader.Features.Builder.{TrendState, up, down, CandleFeatures}
use crypto_ai_trader.Strategies.Momentum.{
  is_up, is_down, momentum_candidate, from_levels, from_latest, from_features,
  generate_momentum_candidate,
}

-- The latest features of the three timeframes agree: 15m and 1h up, 4h not down, the close above
-- the fast average, and a positive stop two average ranges below it.
abbrev pub IsAligned : CandleFeatures → CandleFeatures → CandleFeatures → TradeCandidate → Type 0
IsAligned m15 h1 h4 c =
    (m15.trend_state ≡ up)
    × (h1.trend_state ≡ up)
    × (h4.trend_state ≢ down)
    × (fast : Decimal) × (range : Decimal) × (m15.ema_fast ≡ some fast)
    × (m15.atr_14 ≡ some range)
    × (lt fast m15.close ≡ true)
    × (c.entry_reference ≡ m15.close)
    × (c.stop_reference ≡ sub m15.close (mul range (dec 2 0)))
    × (lt nought c.stop_reference ≡ true)

module _ (symbol : String) (now : Time) where
  from_levels-some :
      (close : Decimal) (fast range : Option Decimal) {c : TradeCandidate}
      → from_levels symbol now close fast range ≡ ok (some c)
      → (f : Decimal) × (r : Decimal) × (fast ≡ some f)
        × (range ≡ some r)
        × (lt f close ≡ true)
        × (c ≡ momentum_candidate symbol now close (sub close (mul r (dec 2 0))))
        × (lt nought (sub close (mul r (dec 2 0))) ≡ true)
        × (candidate_is_valid c ≡ true)
  unfolding trade_candidate
  from_levels-some close none range h = absurd (ground arith)
  from_levels-some close (some f) none h = absurd (ground arith)
  from_levels-some close (some f) (some r) {c} h =
      let stop = sub close (mul r (dec 2 0)) in
      elim (Bool-cases (le close f)) [
        | inl low ↦ absurd (ground arith)
        | inr above ↦ elim (Bool-cases (le stop nought)) [
          | inl below ↦ absurd (ground arith)
          | inr placed ↦
              elim (Bool-cases (candidate_is_valid (momentum_candidate symbol now close stop))) [
                | inl valid ↦
                    let same : c ≡ momentum_candidate symbol now close stop = ground arith in
                    (f, r, refl, refl, rw above, same, rw placed, rw same valid)
                | inr invalid ↦ absurd (ground arith)
              ]
        ]
      ]

  is_up-eq : (t : TrendState) → is_up t ≡ true → t ≡ up
  is_up-eq t h = ground arith

  is_down-ne : (t : TrendState) → is_down t ≡ false → t ≢ down
  is_down-ne t h = ground arith

  from_latest-IsAligned :
      (m15 h1 h4 : CandleFeatures) {c : TradeCandidate}
      → from_latest symbol now m15 h1 h4 ≡ ok (some c)
      → IsAligned m15 h1 h4 c × (c.symbol ≡ symbol) × (candidate_is_valid c ≡ true)
  unfolding from_latest momentum_candidate
  from_latest-IsAligned m15 h1 h4 {c} h = elim (Bool-cases (is_down h4.trend_state)) [
    | inl falls ↦ absurd (ground arith)
    | inr holds ↦ elim (Bool-cases (is_up h1.trend_state)) [
      | inr flat ↦ absurd (ground arith)
      | inl rises ↦ elim (Bool-cases (is_up m15.trend_state)) [
        | inr slow ↦ absurd (ground arith)
        | inl quick ↦
            let (f, r, ef, er, above, same, placed, valid) =
              from_levels-some m15.close m15.ema_fast m15.atr_14 {c = c} (ground arith) in
            (
              (
                is_up-eq m15.trend_state quick,
                is_up-eq h1.trend_state rises,
                is_down-ne h4.trend_state holds,
                f,
                r,
                ef,
                er,
                above,
                rw same,
                rw same,
                rw same placed,
              ),
              rw same,
              valid,
            )
      ]
    ]
  ]

  from_features-IsAligned :
      (m15 h1 h4 : Option CandleFeatures) {c : TradeCandidate}
      → from_features symbol now m15 h1 h4 ≡ ok (some c)
      → (a : CandleFeatures) × (b : CandleFeatures) × (d : CandleFeatures) × (m15 ≡ some a)
        × (h1 ≡ some b)
        × (h4 ≡ some d)
        × IsAligned a b d c
        × (c.symbol ≡ symbol)
        × (candidate_is_valid c ≡ true)
  from_features-IsAligned none h1 h4 h = absurd (ground arith)
  from_features-IsAligned (some a) none h4 h = absurd (ground arith)
  from_features-IsAligned (some a) (some b) none h = absurd (ground arith)
  from_features-IsAligned (some a) (some b) (some d) {c} h =
      let (aligned, named, valid) = from_latest-IsAligned a b d {c = c} h in
      (a, b, d, refl, refl, refl, aligned, named, valid)

-- A candidate is proposed only when each timeframe has features and the latest of them are
-- aligned; it names the symbol asked for, and it passes the validation of its constructor.
pub generate_momentum_candidate-IsAligned :
    (symbol : String) (f15 f1 f4 : List CandleFeatures) (now : Time) {c : TradeCandidate}
    → generate_momentum_candidate symbol f15 f1 f4 now ≡ ok (some c)
    → (m15 : CandleFeatures) × (h1 : CandleFeatures) × (h4 : CandleFeatures) × (last? f15
        ≡ some m15)
      × (last? f1 ≡ some h1)
      × (last? f4 ≡ some h4)
      × IsAligned m15 h1 h4 c
      × (c.symbol ≡ symbol)
      × (candidate_is_valid c ≡ true)
unfolding generate_momentum_candidate
generate_momentum_candidate-IsAligned symbol f15 f1 f4 now {c} h =
    from_features-IsAligned symbol now (last? f15) (last? f1) (last? f4) {c = c} h
