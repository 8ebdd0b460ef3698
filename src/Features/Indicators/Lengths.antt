-- ===== src/Features/Indicators/Lengths.antt =====
-- Every indicator returns one entry for each input.
use crypto_ai_trader.Base.{
  ℕ, suc, ◌+◌, ◌-◌, ◌≤◌, ◌≡◌, refl, ap, ◌∙◌, List, [], ◌∷◌, ◌++◌, Option, none, some, Bool, true,
  false, not, ◌&&◌, ◌==◌, ltb, Bool-cases, inl, inr, length, take, drop, replicate, length-append,
  length-drop, length-replicate, Result, ok, ◌>>◌, raise_if, value_error, arith, >>=-eq-ok,
}
use crypto_ai_trader.Decimal.{Decimal, dec, nought, div, sum_from}
use crypto_ai_trader.Features.Indicators.{
  Series, ema_from, ema_values, ema, smooth, gains_from, losses_from, rsi_value, rsi_from,
  rsi_values, rsi_of, rsi, true_ranges, atr_from, atr_values, atr,
}

length-ema_from :
    (m : Decimal) (xs : List Decimal) (last : Decimal) → length (ema_from m last xs) ≡ length xs
unfolding ema_from
length-ema_from m [] last = refl
length-ema_from m (x ∷ xs) last = ap suc (length-ema_from m xs _)

-- The warm-up, the first value and the values behind it.
length-series :
    (k n : ℕ) (first : Option Decimal) (rest : Series)
    → 1 + k ≤ n
    → length rest ≡ n - (1 + k)
    → length (replicate k none ++ first ∷ rest) ≡ n
length-series k n first rest h e =
    length-append (replicate k none) (first ∷ rest)
    ∙ omega (arith, length-replicate {A = Option Decimal} k none, e, h)

raise_if-ok :
    {A : Type 0} (c : Bool) (m : Result A) {a : A}
    → (raise_if c value_error >> m) ≡ ok a
    → (c ≡ false) × (m ≡ ok a)
raise_if-ok true m h = absurd (ground arith)
raise_if-ok false m h = (refl, h)

raise_if-false : (c : Bool) {a : Unit {0}} → raise_if c value_error ≡ ok a → c ≡ false
raise_if-false true h = absurd (ground arith)
raise_if-false false h = refl

-- The average that is returned has one entry for each value.
pub length-ema :
    (values : List Decimal) (period : ℕ) {s : Series}
    → ema values period ≡ ok s
    → length s ≡ length values
unfolding ema ema_values
length-ema values period {s} h =
    let (some_period, h₁) = raise_if-ok (ltb period 1) _ h in
    elim (Bool-cases (ltb (length values) period)) [
      | inl short ↦
          let same : s ≡ replicate (length values) none = ground arith in
          rw same (length-replicate (length values) none)
      | inr long ↦
          let (m, e₁, h₂) = >>=-eq-ok (div (dec 2 0) (dec (period + 1) 0)) _ (simp long at h₁) in
          let (seed, e₂, h₃) =
            >>=-eq-ok (div (sum_from nought (take period values)) (dec period 0)) _ h₂ in
          let same : s
              ≡ replicate (period - 1) none ++ some seed ∷ ema_from m seed (drop period values) =
            ground arith in
          rw same (
            length-series (period - 1) (length values) _ _ (ground arith) (
              length-ema_from m (drop period values) seed
              ∙ length-drop period values
              ∙ ground arith))
    ]

length-atr_from :
    (period : ℕ) (last : Decimal) (xs : List Decimal) {s : Series}
    → atr_from period last xs ≡ ok s
    → length s ≡ length xs
unfolding atr_from
length-atr_from period last [] h = ground arith
length-atr_from period last (x ∷ xs) {s} h =
    let (next, e₁, h₁) = >>=-eq-ok (smooth period last x) _ h in
    let (rest, e₂, h₂) = >>=-eq-ok (atr_from period next xs) _ h₁ in
    let ih = length-atr_from period next xs e₂ in
    let same : s ≡ some next ∷ rest = ground arith in rw same (ap suc ih)

length-rsi_from :
    (period : ℕ) (g l : Decimal) (gs ls : List Decimal) {s : Series}
    → length gs ≡ length ls
    → rsi_from period g l gs ls ≡ ok s
    → length s ≡ length gs
unfolding rsi_from
length-rsi_from period g l [] ls e h = ground arith
length-rsi_from period g l (x ∷ gs) [] e h = absurd (omega (arith, e))
length-rsi_from period g l (x ∷ gs) (y ∷ ls) {s} e h =
    let (gain, e₁, h₁) = >>=-eq-ok (smooth period g x) _ h in
    let (loss, e₂, h₂) = >>=-eq-ok (smooth period l y) _ h₁ in
    let (value, e₃, h₃) = >>=-eq-ok (rsi_value gain loss) _ h₂ in
    let (rest, e₄, h₄) = >>=-eq-ok (rsi_from period gain loss gs ls) _ h₃ in
    let ih = length-rsi_from period gain loss gs ls (omega (arith, e)) e₄ in
    let same : s ≡ some value ∷ rest = ground arith in rw same (ap suc ih)

length-true_ranges :
    (hs ls cs : List Decimal) (previous : Option Decimal)
    → length hs ≡ length ls
    → length ls ≡ length cs
    → length (true_ranges previous hs ls cs) ≡ length hs
unfolding true_ranges
length-true_ranges [] ls cs previous e f = refl
length-true_ranges (h ∷ hs) [] cs previous e f = absurd (omega (arith, e))
length-true_ranges (h ∷ hs) (l ∷ ls) [] previous e f = absurd (omega (arith, f))
length-true_ranges (h ∷ hs) (l ∷ ls) (c ∷ cs) previous e f =
    ap suc (length-true_ranges hs ls cs (some c) (omega (arith, e)) (omega (arith, f)))

-- The average true range that is returned has one entry for each candle.
pub length-atr :
    (highs lows closes : List Decimal) (period : ℕ) {s : Series}
    → atr highs lows closes period ≡ ok s
    → length s ≡ length highs
unfolding atr atr_values
length-atr highs lows closes period {s} h =
    let unequal = not ((length highs == length lows) && (length lows == length closes)) in
    let (done, e₀, h₂) =
      >>=-eq-ok (raise_if (ltb period 1) value_error >> raise_if unequal value_error) _ h in
    let (some_period, h₁) = raise_if-ok (ltb period 1) (raise_if unequal value_error) e₀ in
    let same_lengths = raise_if-false unequal h₁ in
    elim (Bool-cases (ltb (length highs) period)) [
      | inl short ↦
          let same : s ≡ replicate (length highs) none = ground arith in
          rw same (length-replicate (length highs) none)
      | inr long ↦
          let ranges = true_ranges none highs lows closes in
          let measured : length ranges ≡ length highs =
            length-true_ranges highs lows closes none (ground arith) (ground arith) in
          let (first, e₁, h₃) =
            >>=-eq-ok (div (sum_from nought (take period ranges)) (dec period 0)) _
              (simp long at h₂) in
          let (rest, e₂, h₄) = >>=-eq-ok (atr_from period first (drop period ranges)) _ h₃ in
          let counted =
            length-atr_from period first (drop period ranges) e₂ ∙ length-drop period ranges in
          let same : s ≡ replicate (period - 1) none ++ some first ∷ rest = ground arith in
          rw same (length-series (period - 1) (length highs) _ rest (ground arith) (ground arith))
    ]

length-gains_from : (vs : List Decimal) (v : Decimal) → length (gains_from v vs) ≡ length vs
unfolding gains_from
length-gains_from [] v = refl
length-gains_from (x ∷ vs) v = ap suc (length-gains_from vs x)

length-losses_from : (vs : List Decimal) (v : Decimal) → length (losses_from v vs) ≡ length vs
unfolding losses_from
length-losses_from [] v = refl
length-losses_from (x ∷ vs) v = ap suc (length-losses_from vs x)

length-rsi_values :
    (period n : ℕ) (gains losses : List Decimal) {s : Series}
    → length gains ≡ n
    → length losses ≡ n
    → period ≤ n
    → rsi_values period gains losses ≡ ok s
    → length s ≡ suc n
unfolding rsi_values
length-rsi_values period n gains losses {s} eg el long h =
    let (g, e₁, h₁) = >>=-eq-ok (div (sum_from nought (take period gains)) (dec period 0)) _ h in
    let (l, e₂, h₂) = >>=-eq-ok (div (sum_from nought (take period losses)) (dec period 0)) _ h₁ in
    let (value, e₃, h₃) = >>=-eq-ok (rsi_value g l) _ h₂ in
    let (rest, e₄, h₄) =
      >>=-eq-ok (rsi_from period g l (drop period gains) (drop period losses)) _ h₃ in
    let dropped_gains = length-drop period gains in
    let dropped_losses = length-drop period losses in
    let counted =
      length-rsi_from period g l (drop period gains) (drop period losses) {s = rest} (ground arith)
        e₄ in
    let same : s ≡ replicate period none ++ some value ∷ rest = ground arith in
    rw same (length-series period (suc n) _ rest (ground arith) (ground arith))

length-rsi_of :
    (values : List Decimal) (period : ℕ) {s : Series}
    → period + 1 ≤ length values
    → rsi_of values period ≡ ok s
    → length s ≡ length values
length-rsi_of [] period long h = absurd (omega (arith, long))
length-rsi_of (v ∷ vs) period {s} long h =
    length-rsi_values period (length vs) (gains_from v vs) (losses_from v vs) {s = s}
      (length-gains_from vs v) (length-losses_from vs v) (omega (arith, long)) h

-- The strength index that is returned has one entry for each value.
pub length-rsi :
    (values : List Decimal) (period : ℕ) {s : Series}
    → rsi values period ≡ ok s
    → length s ≡ length values
unfolding rsi
length-rsi values period {s} h =
    let (some_period, h₁) = raise_if-ok (ltb period 1) _ h in
    elim (Bool-cases (ltb (length values) (period + 1))) [
      | inl short ↦
          let same : s ≡ replicate (length values) none = ground arith in
          rw same (length-replicate (length values) none)
      | inr long ↦ length-rsi_of values period {s = s} (ground arith) (simp long at h₁)
    ]
