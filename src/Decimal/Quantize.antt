-- ===== src/Decimal/Quantize.antt =====
-- Flooring to the exponent of a step: what it keeps, and how far it lowers a number.
use native.Mathlib.Nat.{div-one, mul-one, mul-le-mul_right, div-mul-le_self, lt-div-mul-add}
use crypto_ai_trader.Base.{
  ℕ, zero, suc, ◌+◌, ◌-◌, ◌*◌, ◌/◌, ◌^◌, ◌≤◌, ◌<◌, ◌≡◌, refl, ◌∙◌, arith, false, ltb, ok,
}
use crypto_ai_trader.Base.Int.{pos, pos_part, neg_part}
use crypto_ai_trader.Decimal.Order.{pow-pos}
use crypto_ai_trader.Decimal.Sign.{pow-add}
use crypto_ai_trader.Decimal.Defs.{Decimal, digits, precision, signed, floored, quantize_down}

pow-split_of : (t d s : ℕ) → t ≡ d + s → 10 ^ t ≡ 10 ^ d * 10 ^ s
pow-split_of t d s e = rw e (pow-add d s)

-- Bounds on a quotient, with both units enlarged.
scale_bounds :
    (m n x y w : ℕ)
    → 0 < w
    → m * y ≤ n * x
    → n * x < (m + 1) * y
    → (m * (y * w) ≤ n * (x * w)) × (n * (x * w) < (m + 1) * (y * w))
scale_bounds m n x y w h lo hi =
    (omega (arith, mul-le-mul_right w lo), omega (arith, mul-le-mul_right w hi))

floor_bounds :
    (n s t : ℕ)
    → let m = n * 10 ^ (t - s) / 10 ^ (s - t) in
      (m * 10 ^ s ≤ n * 10 ^ t) × (n * 10 ^ t < (m + 1) * 10 ^ s)
floor_bounds n s t =
    let w = t - (t - s) in
    rw (pow-split_of s (s - t) w (omega arith), pow-split_of t (t - s) w (omega arith))
      (scale_bounds _ n (10 ^ (t - s)) (10 ^ (s - t)) (10 ^ w) (pow-pos w)
        (div-mul-le_self (n * 10 ^ (t - s)) (10 ^ (s - t)))
        (omega (arith, lt-div-mul-add {a = n * 10 ^ (t - s)} (pow-pos (s - t)))))

unscaled : (n d : ℕ) → d ≡ 0 → n * 10 ^ d / 10 ^ d ≡ n
unscaled n d e = rw (e, mul-one n) (div-one n)

floored_same :
    (q step : Decimal) → q.scale ≡ step.scale → floored q step ≡ pos_part q.coef + neg_part q.coef
unfolding floored
floored_same q step e =
    rw e (unscaled (pos_part q.coef + neg_part q.coef) (step.scale - step.scale) (omega arith))

signed-magnitude : (n m : ℕ) → pos_part (signed n m) + neg_part (signed n m) ≡ m
signed-magnitude zero m = omega arith
signed-magnitude (suc n) zero = refl
signed-magnitude (suc n) (suc m) = omega arith

signed_again : (n m : ℕ) → signed (neg_part (signed n m)) m ≡ signed n m
signed_again zero m = refl
signed_again (suc n) zero = refl
signed_again (suc n) (suc m) = refl

-- What quantizing gives, when it gives something.
pub quantize_down-eq :
    (a step : Decimal) {q : Decimal}
    → quantize_down a step ≡ ok q
    → (ltb precision (digits (floored a step)) ≡ false)
      × (q.scale ≡ step.scale)
      × (q.coef ≡ signed (neg_part a.coef) (floored a step))
unfolding quantize_down
quantize_down-eq a step {q} h = ground arith

-- A floored number is its own floor.
pub quantize_down_again :
    (a step : Decimal) {q : Decimal} → quantize_down a step ≡ ok q → quantize_down q step ≡ ok q
unfolding quantize_down
quantize_down_again a step {q} h =
    let (short, scale, coef) = quantize_down-eq a step h in
    let m = floored a step in
    let n = neg_part a.coef in
    let size : floored q step ≡ m = floored_same q step scale ∙ rw coef (signed-magnitude n m) in
    let sign : signed (neg_part q.coef) m ≡ q.coef = rw coef (signed_again n m) in
    rw (size, short, sign, ← scale) refl

-- A number from zero on is floored to a number from zero up to itself, and by less than one
-- unit of the last digit of the step.
pub quantize_down-IsFloor :
    (a step : Decimal) {q : Decimal}
    → neg_part a.coef ≡ 0
    → quantize_down a step ≡ ok q
    → (neg_part q.coef ≡ 0)
      × (q.scale ≡ step.scale)
      × (pos_part q.coef * 10 ^ a.scale ≤ pos_part a.coef * 10 ^ q.scale)
      × (pos_part a.coef * 10 ^ q.scale < (pos_part q.coef + 1) * 10 ^ a.scale)
unfolding floored
quantize_down-IsFloor a step {q} plus h =
    let (short, scale, coef) = quantize_down-eq a step h in
    let n = pos_part a.coef in
    let whole : pos_part a.coef + neg_part a.coef ≡ n = omega (arith, plus) in
    let m = n * 10 ^ (step.scale - a.scale) / 10 ^ (a.scale - step.scale) in
    let sized : q.coef ≡ pos m = coef ∙ rw (whole, plus) refl in
    let (lo, hi) = floor_bounds n a.scale step.scale in rw (sized, scale) (refl, refl, lo, hi)
