-- ===== src/Features/Builder/Lengths.antt =====
-- One feature for each candle.
use crypto_ai_trader.Base.{
  ℕ, suc, ◌+◌, ◌≡◌, refl, sym, ap, ◌∙◌, arith, List, [], ◌∷◌, map, leb, Bool-cases, inl, inr,
  length, length-map, Result, ok, err, >>=-eq-ok,
}
use crypto_ai_trader.MarketData.Schemas.{CandleData}
use crypto_ai_trader.Features.Indicators.{Series, ema, rsi, atr}
use crypto_ai_trader.Features.Indicators.Lengths.{length-ema, length-rsi, length-atr}
use crypto_ai_trader.Features.Builder.{
  CandleFeatures, insert_candle, sort_candles, volume_ratio_at, features_from, build_features,
}

length-insert_candle :
    (c : CandleData) (cs : List CandleData) → length (insert_candle c cs) ≡ suc (length cs)
unfolding insert_candle
length-insert_candle c [] = refl
length-insert_candle c (d ∷ cs) = elim (Bool-cases (leb c.open_time d.open_time)) [
  | inl before ↦ rw before
  | inr after ↦ rw after (ap suc (length-insert_candle c cs))
]

length-sort_candles : (cs : List CandleData) → length (sort_candles cs) ≡ length cs
unfolding sort_candles
length-sort_candles [] = refl
length-sort_candles (c ∷ cs) =
    length-insert_candle c (sort_candles cs) ∙ ap suc (length-sort_candles cs)

abbrev returned_length : Result (List CandleFeatures) → ℕ
returned_length (ok fs) = length fs
returned_length (err e) = 0

length-features_from :
    (all : List CandleData) (cs : List CandleData) (index : ℕ)
    (fast slow long strength range : Series) {fs : List CandleFeatures}
    → length fast ≡ length cs
    → length slow ≡ length cs
    → length long ≡ length cs
    → length strength ≡ length cs
    → length range ≡ length cs
    → features_from all index cs fast slow long strength range ≡ ok fs
    → length fs ≡ length cs
unfolding features_from
length-features_from all [] index fast slow long strength range a b c d e h = ground arith
length-features_from all (x ∷ cs) index [] slow long strength range a b c d e h =
    absurd (omega (arith, a))
length-features_from all (x ∷ cs) index (f ∷ fast) [] long strength range a b c d e h =
    absurd (omega (arith, b))
length-features_from all (x ∷ cs) index (f ∷ fast) (s ∷ slow) [] strength range a b c d e h =
    absurd (omega (arith, c))
length-features_from all (x ∷ cs) index (f ∷ fast) (s ∷ slow) (l ∷ long) [] range a b c d e h =
    absurd (omega (arith, d))
length-features_from all (x ∷ cs) index (f ∷ fast) (s ∷ slow) (l ∷ long) (r ∷ strength) [] a b c d e
      h =
    absurd (omega (arith, e))
length-features_from all (x ∷ cs) index (f ∷ fast) (s ∷ slow) (l ∷ long) (r ∷ strength) (t ∷ range)
      {fs} a b c d e h =
    let (ratio, e₁, h₁) = >>=-eq-ok (volume_ratio_at all index x) _ h in
    let (rest, e₂, h₂) =
      >>=-eq-ok (features_from all (index + 1) cs fast slow long strength range) _ h₁ in
    let ih =
      length-features_from all cs (index + 1) fast slow long strength range {fs = rest}
        (omega (arith, a)) (omega (arith, b)) (omega (arith, c)) (omega (arith, d))
        (omega (arith, e)) e₂ in
    sym (ap returned_length h₂) ∙ ap suc ih

-- The features that are returned are one for each candle.
pub length-build_features :
    (candles : List CandleData) {fs : List CandleFeatures}
    → build_features candles ≡ ok fs
    → length fs ≡ length candles
unfolding build_features
length-build_features candles {fs} h =
    let ordered = sort_candles candles in
    let closes = map CandleData.close ordered in
    let highs = map CandleData.high ordered in
    let (fast, e₁, h₁) = >>=-eq-ok (ema closes 12) _ h in
    let (slow, e₂, h₂) = >>=-eq-ok (ema closes 26) _ h₁ in
    let (long, e₃, h₃) = >>=-eq-ok (ema closes 200) _ h₂ in
    let (strength, e₄, h₄) = >>=-eq-ok (rsi closes 14) _ h₃ in
    let (range, e₅, h₅) = >>=-eq-ok (atr highs (map CandleData.low ordered) closes 14) _ h₄ in
    let measured = length-map ordered CandleData.close in
    length-features_from ordered ordered 0 fast slow long strength range {fs = fs}
      (length-ema closes 12 e₁ ∙ measured) (length-ema closes 26 e₂ ∙ measured)
      (length-ema closes 200 e₃ ∙ measured) (length-rsi closes 14 e₄ ∙ measured)
      (length-atr highs (map CandleData.low ordered) closes 14 e₅
        ∙ length-map ordered CandleData.high)
      h₅
    ∙ length-sort_candles candles
