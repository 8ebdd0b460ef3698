-- ===== src/Features/Indicators.antt =====
-- trading/features/indicators.py. A list of results has `none` where there is no value yet.
pub mod Lengths
use crypto_ai_trader.Base.{
  ℕ, zero, suc, ◌+◌, ◌-◌, List, [], ◌∷◌, ◌++◌, Option, none, some, Bool, true, false, ◌&&◌, not,
  if◌then◌else◌, ltb, ◌==◌, length, take, drop, replicate, Result, ok, err, ◌>>=◌, ◌>>◌, raise_if,
  value_error,
}
use crypto_ai_trader.Decimal.{
  Decimal, dec, nought, one, hundred, le, lt, eq, add, sub, mul, div, neg, abs, max_of, sum_from,
}

abbrev pub Series : Type 0
Series = List (Option Decimal)

-- The loop of `ema` behind the seed.
unfoldable pub ema_from : Decimal → Decimal → List Decimal → Series
ema_from multiplier last [] = []
ema_from multiplier last (x ∷ xs) =
    let next = add (mul (sub x last) multiplier) last in some next ∷ ema_from multiplier next xs

unfoldable pub ema_values : List Decimal → ℕ → Result Series
unfolding ema_from
ema_values values period = do
  multiplier ← div (dec 2 0) (dec (period + 1) 0)
  seed ← div (sum_from nought (take period values)) (dec period 0)
  ok (replicate (period - 1) none ++ some seed ∷ ema_from multiplier seed (drop period values))

unfoldable pub ema : List Decimal → ℕ → Result Series
unfolding ema_values
ema values period =
    raise_if (ltb period 1) value_error
    >> (if ltb (length values) period
        then ok (replicate (length values) none)
        else ema_values values period)

-- The changes split into gains and losses, with the value before.
unfoldable pub gains_from : Decimal → List Decimal → List Decimal
gains_from last [] = []
gains_from last (x ∷ xs) =
    let change = sub x last in (if lt nought change then change else nought) ∷ gains_from x xs

unfoldable pub losses_from : Decimal → List Decimal → List Decimal
losses_from last [] = []
losses_from last (x ∷ xs) =
    let change = sub x last in (if lt nought change then nought else neg change) ∷ losses_from x xs

unfoldable pub rsi_value : Decimal → Decimal → Result Decimal
rsi_value avg_gain avg_loss =
    if eq avg_loss nought
    then ok hundred
    else (div avg_gain avg_loss >>= λ rs.
        div hundred (add one rs) >>= λ share. ok (sub hundred share))

-- Wilder's smoothing of an average.
abbrev pub smooth : ℕ → Decimal → Decimal → Result Decimal
smooth period average x = div (add (mul average (dec (period - 1) 0)) x) (dec period 0)

unfoldable pub rsi_from : ℕ → Decimal → Decimal → List Decimal → List Decimal → Result Series
unfolding rsi_value
rsi_from period avg_gain avg_loss (g ∷ gs) (l ∷ ls) = smooth period avg_gain g >>= λ gain.
    smooth period avg_loss l >>= λ loss. rsi_value gain loss >>= λ value.
    rsi_from period gain loss gs ls >>= λ rest. ok (some value ∷ rest)
rsi_from period avg_gain avg_loss _ _ = ok []

unfoldable pub rsi_values : ℕ → List Decimal → List Decimal → Result Series
unfolding rsi_value rsi_from
rsi_values period gains losses = do
  avg_gain ← div (sum_from nought (take period gains)) (dec period 0)
  avg_loss ← div (sum_from nought (take period losses)) (dec period 0)
  value ← rsi_value avg_gain avg_loss
  rest ← rsi_from period avg_gain avg_loss (drop period gains) (drop period losses)
  ok (replicate period none ++ some value ∷ rest)

abbrev pub rsi_of : List Decimal → ℕ → Result Series
rsi_of [] period = ok []
rsi_of (v ∷ vs) period = rsi_values period (gains_from v vs) (losses_from v vs)

unfoldable pub rsi : List Decimal → ℕ → Result Series
unfolding gains_from losses_from rsi_values
rsi values period =
    raise_if (ltb period 1) value_error
    >> (if ltb (length values) (period + 1)
        then ok (replicate (length values) none)
        else rsi_of values period)

unfoldable pub true_range : Decimal → Decimal → Option Decimal → Decimal
true_range high low none = sub high low
true_range high low (some previous_close) =
    max_of (max_of (sub high low) (abs (sub high previous_close))) (abs (sub low previous_close))

unfoldable pub true_ranges :
    Option Decimal → List Decimal → List Decimal → List Decimal → List Decimal
unfolding true_range
true_ranges previous (h ∷ hs) (l ∷ ls) (c ∷ cs) =
    true_range h l previous ∷ true_ranges (some c) hs ls cs
true_ranges previous _ _ _ = []

unfoldable pub atr_from : ℕ → Decimal → List Decimal → Result Series
atr_from period last [] = ok []
atr_from period last (x ∷ xs) =
    smooth period last x >>= λ next. atr_from period next xs >>= λ rest. ok (some next ∷ rest)

unfoldable pub atr_values : ℕ → List Decimal → Result Series
unfolding atr_from
atr_values period ranges = do
  first ← div (sum_from nought (take period ranges)) (dec period 0)
  rest ← atr_from period first (drop period ranges)
  ok (replicate (period - 1) none ++ some first ∷ rest)

unfoldable pub atr : List Decimal → List Decimal → List Decimal → ℕ → Result Series
unfolding atr_values true_ranges
atr highs lows closes period =
    raise_if (ltb period 1) value_error
    >> raise_if (not ((length highs == length lows) && (length lows == length closes))) value_error
    >> (if ltb (length highs) period
        then ok (replicate (length highs) none)
        else atr_values period (true_ranges none highs lows closes))
