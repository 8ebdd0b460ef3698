-- ===== src/Decimal/Defs.antt =====
-- The operations of `decimal.Decimal` that the program calls.
use Prim.Native.Nat.{max}
use crypto_ai_trader.Base.{
  ℕ, zero, suc, ◌+◌, ◌-◌, ◌*◌, ◌/◌, ◌%◌, ◌^◌, Bool, ◌&&◌, ◌||◌, List, [], ◌∷◌, ltb, leb, ◌==◌,
  if◌then◌else◌, true, false, not,
}
use crypto_ai_trader.Base.{Result, ok, err, zero_division, invalid_operation}
use crypto_ai_trader.Base.Int.{ℤ, pos, negsuc, pos_part, neg_part, sub_ℕ}

pub record Decimal : Type 0 where
  pub coef : ℤ
  pub scale : ℕ

abbrev pub dec : ℕ → ℕ → Decimal
dec n s = record { coef = pos n; scale = s }

-- Comparison is exact, by cross multiplication.
unfoldable pub le : Decimal → Decimal → Bool
le a b =
    leb (pos_part a.coef * 10 ^ b.scale + neg_part b.coef * 10 ^ a.scale)
      (pos_part b.coef * 10 ^ a.scale + neg_part a.coef * 10 ^ b.scale)

abbrev pub lt : Decimal → Decimal → Bool
lt a b = not (le b a)

-- `a == b` of the values; `1.0 == 1` holds.
abbrev pub eq : Decimal → Decimal → Bool
eq a b = le a b && le b a

-- The number of digits of the coefficient as Python writes it, so 1 for zero.
unfoldable pub digits_from : ℕ → ℕ → ℕ
digits_from zero n = 1
digits_from (suc f) n = elim (ltb n 10) [ true ↦ 1 | false ↦ suc (digits_from f (n / 10)) ]

unfoldable pub digits : ℕ → ℕ
unfolding digits_from
digits n = digits_from n n

abbrev pub precision : ℕ
precision = 28

-- Quotient and remainder by the unit `p`, rounded to the nearest, a tie to the even neighbour.
unfoldable pub half_even : ℕ → ℕ → ℕ → ℕ
half_even q r p = if ltb p (2 * r) then q + 1 else if (2 * r == p) && (q % 2 == 1) then q + 1 else q

-- A magnitude `m / 10 ^ s` rounded to the precision.
unfoldable pub round_mag : ℕ → ℕ → ℕ × ℕ
unfolding digits half_even
round_mag m s =
    let k = digits m - precision in
    let q = half_even (m / 10 ^ k) (m % 10 ^ k) (10 ^ k) in
    if leb k s then (q, s - k) else (q * 10 ^ (k - s), 0)

abbrev pub neg_of : ℕ → ℤ
neg_of zero = pos 0
neg_of (suc n) = negsuc n

unfoldable pub finish : ℤ → ℕ → Decimal
unfolding round_mag
finish (pos n) s = record { coef = pos (round_mag n s).0; scale = (round_mag n s).1 }
finish (negsuc n) s = record {
  coef = neg_of (round_mag (suc n) s).0;
  scale = (round_mag (suc n) s).1;
}

unfoldable pub add : Decimal → Decimal → Decimal
unfolding finish
add a b =
    let s = max a.scale b.scale in
    let x = 10 ^ (s - a.scale) in
    let y = 10 ^ (s - b.scale) in
    finish
      (sub_ℕ (pos_part a.coef * x + pos_part b.coef * y)
        (neg_part a.coef * x + neg_part b.coef * y))
      s

unfoldable pub sub : Decimal → Decimal → Decimal
unfolding finish
sub a b =
    let s = max a.scale b.scale in
    let x = 10 ^ (s - a.scale) in
    let y = 10 ^ (s - b.scale) in
    finish
      (sub_ℕ (pos_part a.coef * x + neg_part b.coef * y)
        (neg_part a.coef * x + pos_part b.coef * y))
      s

unfoldable pub mul : Decimal → Decimal → Decimal
unfolding finish
mul a b =
    finish
      (sub_ℕ (pos_part a.coef * pos_part b.coef + neg_part a.coef * neg_part b.coef)
        (pos_part a.coef * neg_part b.coef + neg_part a.coef * pos_part b.coef))
      (a.scale + b.scale)

-- Unary minus and `abs` round too.
unfoldable pub neg : Decimal → Decimal
unfolding finish
neg a = finish (sub_ℕ (neg_part a.coef) (pos_part a.coef)) a.scale

unfoldable pub abs : Decimal → Decimal
unfolding finish
abs a = finish (pos (pos_part a.coef + neg_part a.coef)) a.scale

-- Removes up to `n` trailing zeros.
unfoldable pub strip : ℕ → ℕ → ℕ → ℕ × ℕ
strip zero c s = (c, s)
strip (suc n) c s = elim (c % 10 == 0) [ true ↦ strip n (c / 10) (s - 1) | false ↦ (c, s) ]

-- A quotient `c` with remainder `r`: an exact one loses its trailing zeros down to the ideal
-- exponent, of another the last digit is kept off the multiples of 5, so that it cannot tie.
unfoldable pub settle : ℕ → ℕ → ℕ → ℕ → ℕ → ℕ × ℕ
unfolding strip
settle c r unit exponent ideal =
    if r == 0
    then strip (exponent - ideal) (c * unit) exponent
    else ((if c % 5 == 0 then c + 1 else c) * unit, exponent)

-- The quotient of two magnitudes with at least 29 digits, as `Decimal.__truediv__` computes it
-- before it rounds.
unfoldable pub quotient : ℕ → ℕ → ℕ → ℕ → ℕ × ℕ
unfolding digits settle
quotient m s n t =
    let up = digits n + precision + 1 - digits m in
    let down = digits m - (digits n + precision + 1) in
    settle (m * 10 ^ up / (n * 10 ^ down)) (m * 10 ^ up % (n * 10 ^ down))
      (10 ^ (t + down - (s + up))) (s + up - (t + down)) (s - t)

unfoldable pub div : Decimal → Decimal → Result Decimal
unfolding finish quotient
div a b =
    let m = pos_part a.coef + neg_part a.coef in
    let n = pos_part b.coef + neg_part b.coef in
    let (c, s) = quotient m a.scale n b.scale in
    if n == 0
    then if m == 0 then err invalid_operation else err zero_division
    else ok (
        if (neg_part a.coef == 0) && (neg_part b.coef == 0)
          || not (neg_part a.coef == 0) && not (neg_part b.coef == 0)
        then finish (pos c) s
        else finish (neg_of c) s)

-- The magnitude of `a` in units of the last digit of `step`, rounded down.
unfoldable pub floored : Decimal → Decimal → ℕ
floored a step =
    (pos_part a.coef + neg_part a.coef) * 10 ^ (step.scale - a.scale) / 10 ^ (a.scale - step.scale)

-- The magnitude `m` with the sign of a number whose negative part is given.
abbrev pub signed : ℕ → ℕ → ℤ
signed zero m = pos m
signed (suc n) m = neg_of m

-- `a.quantize(step, rounding=ROUND_DOWN)`: only the exponent of `step` counts.
unfoldable pub quantize_down : Decimal → Decimal → Result Decimal
unfolding digits floored
quantize_down a step =
    if ltb precision (digits (floored a step))
    then err invalid_operation
    else ok record { coef = signed (neg_part a.coef) (floored a step); scale = step.scale }

-- The magnitude of `a` in units of its last of some decimal places, rounded to the nearest.
unfoldable pub nearest : Decimal → ℕ → ℕ
unfolding half_even
nearest a places =
    let m = (pos_part a.coef + neg_part a.coef) * 10 ^ (places - a.scale) in
    let p = 10 ^ (a.scale - places) in half_even (m / p) (m % p) p

-- `a.quantize` by a step with some decimal places.
unfoldable pub quantize_half_even : Decimal → ℕ → Result Decimal
unfolding digits nearest
quantize_half_even a places =
    if ltb precision (digits (nearest a places))
    then err invalid_operation
    else ok record { coef = signed (neg_part a.coef) (nearest a places); scale = places }

-- The builtins `min` and `max` of two arguments, and `sum`, which starts at the integer 0.
unfoldable pub min : Decimal → Decimal → Decimal
min a b = if lt b a then b else a

unfoldable pub max_of : Decimal → Decimal → Decimal
max_of a b = if lt a b then b else a

unfoldable pub sum_from : Decimal → List Decimal → Decimal
sum_from acc [] = acc
sum_from acc (x ∷ xs) = sum_from (add acc x) xs

abbrev pub nought : Decimal
nought = dec 0 0

abbrev pub one : Decimal
one = dec 1 0

abbrev pub hundred : Decimal
hundred = dec 100 0
