-- ===== src/Decimal/Rounding.antt =====
-- Digit counts, and what rounding keeps: small coefficients, and positive magnitudes.
use native.Mathlib.Nat.{pow-suc, pow-le-pow_right, le-div_iff_mul-le, one-le-mul}
use crypto_ai_trader.Base.{
  ℕ, zero, suc, ◌-◌, ◌/◌, ◌%◌, ◌^◌, ◌≤◌, ◌<◌, ◌≡◌, refl, arith, inl, inr, Bool-cases, ltb, leb,
}
use crypto_ai_trader.Base.Int.{pos, pos_part, neg_part}
use crypto_ai_trader.Decimal.Order.{pow-pos}
use crypto_ai_trader.Decimal.Defs.{digits_from, digits, precision, half_even, round_mag, finish}

-- A positive number has `k + 1` digits exactly when it lies from `10 ^ k` up to `10 ^ (k + 1)`.
digits_from_bounds :
    (f n : ℕ)
    → 0 < n
    → n ≤ f
    → (k : ℕ) × (digits_from f n ≡ suc k) × (10 ^ k ≤ n) × (n < 10 ^ suc k)
unfolding digits_from
digits_from_bounds zero n h l = absurd (omega arith)
digits_from_bounds (suc f) n h l = elim (Bool-cases (ltb n 10)) [
  | inl small ↦ (0, rw (small, digits_from), omega arith, ground arith)
  | inr large ↦
      let (k, e, lo, hi) = digits_from_bounds f (n / 10) (ground arith) (ground arith) in
      (
        suc k,
        rw (large, digits_from) (rw e),
        omega (arith, pow-suc 10 k),
        omega (arith, pow-suc 10 (suc k)),
      )
]

pub digits_bounds : (n : ℕ) → 0 < n → (k : ℕ) × (digits n ≡ suc k) × (10 ^ k ≤ n) × (n < 10 ^ suc k)
unfolding digits
digits_bounds n h = digits_from_bounds n n h (omega arith)

-- Dropping the digits beyond the precision leaves a positive quotient.
pub div-pos_of_digits : (n : ℕ) → 0 < n → 0 < n / 10 ^ (digits n - precision)
div-pos_of_digits n h =
    let (k, e, lo, _) = digits_bounds n h in
    let unit : 10 ^ (digits n - precision) ≤ 10 ^ k =
      pow-le-pow_right {n = 10} (omega arith) (omega arith) in
    (le-div_iff_mul-le (pow-pos (digits n - precision))).1 (omega arith)

half_even-ge : (q r p : ℕ) → q ≤ half_even q r p
unfolding half_even
half_even-ge q r p = ground arith

round_mag-pos : (n s : ℕ) → 0 < n → 0 < (round_mag n s).0
unfolding round_mag
round_mag-pos n s h =
    let k = digits n - precision in
    let kept : 0 < half_even (n / 10 ^ k) (n % 10 ^ k) (10 ^ k) =
      omega (arith, div-pos_of_digits n h, half_even-ge (n / 10 ^ k) (n % 10 ^ k) (10 ^ k)) in
    elim (Bool-cases (leb k s)) [
      | inl fits ↦ rw fits kept
      | inr wide ↦ rw wide (one-le-mul kept (pow-pos (k - s)))
    ]

-- Rounding keeps the sign, zero included.
pub finish-IsPos :
    (n s : ℕ)
    → 0 < n
    → (neg_part (finish (pos n) s).coef ≡ 0) × (0 < pos_part (finish (pos n) s).coef)
unfolding finish
finish-IsPos n s h = (refl, round_mag-pos n s h)

pub finish-nonneg : (n s : ℕ) → neg_part (finish (pos n) s).coef ≡ 0
unfolding finish
finish-nonneg n s = refl

digits-le_of_lt : (n : ℕ) → n < 10 ^ precision → digits n ≤ precision
unfolding digits digits_from
digits-le_of_lt zero h = omega arith
digits-le_of_lt (suc m) h =
    let (k, e, lo, _) = digits_bounds (suc m) (omega arith) in
    elim (Bool-cases (ltb k precision)) [
      | inl short ↦ rw e (ground arith)
      | inr long ↦ absurd (
          omega
            (arith, pow-le-pow_right {n = 10} (omega arith) {i = precision} {j = k} (ground arith)))
    ]

round_mag_short : (n s k : ℕ) → k ≡ 0 → digits n - precision ≡ k → round_mag n s ≡ (n, s)
unfolding round_mag half_even
round_mag_short n s k z e = rw (e, z) (ground arith)

-- What has at most 28 digits is kept as it is.
pub finish_exact :
    (n s : ℕ) → n < 10 ^ precision → finish (pos n) s ≡ record { coef = pos n; scale = s }
unfolding finish
finish_exact n s h =
    let e = round_mag_short n s 0 refl (omega (arith, digits-le_of_lt n h)) in
    λ i. record { coef = pos (e i).0; scale = (e i).1 }
