-- ===== src/Decimal/Sign.antt =====
-- Signs under the operations. Rounding never makes a positive result zero, so a quotient of
-- positive numbers is positive.
use Prim.Native.Nat.{max}
use native.Mathlib.Nat.{
  one-le-mul, pow-suc, pow-le-pow_right, mul-le-mul_left, mul-le-mul_right, le_of_mul-le-mul_right,
  lt_of_mul-lt-mul_left, add-suc, add-zero, le-div_iff_mul-le,
}
use crypto_ai_trader.Base.{
  ℕ, zero, suc, ◌+◌, ◌-◌, ◌*◌, ◌/◌, ◌%◌, ◌^◌, ◌≤◌, ◌<◌, ◌≡◌, refl, sym, ap, ◌∙◌, arith, leb, le→leb,
  true, false, ok, Bool-cases, inl, inr, ◌==◌,
}
use crypto_ai_trader.Base.Int.{pos, pos_part, neg_part, sub_ℕ}
use crypto_ai_trader.Decimal.Order.{pow-pos}
use crypto_ai_trader.Decimal.Rounding.{finish-IsPos, finish-nonneg, digits_bounds}
use crypto_ai_trader.Decimal.Defs.{
  Decimal, nought, le, lt, finish, add, sub, neg, mul, div, quotient, strip, settle, neg_of,
  round_mag, digits, precision,
}

abbrev pub IsPos : Decimal → Type 0
IsPos a = (neg_part a.coef ≡ 0) × (0 < pos_part a.coef)

abbrev pub IsNonneg : Decimal → Type 0
IsNonneg a = neg_part a.coef ≡ 0

pub IsPos-of_lt : (a : Decimal) → lt nought a ≡ true → IsPos a
unfolding le
IsPos-of_lt a h = ground arith

pub lt_of_pos : (a : Decimal) → IsPos a → lt nought a ≡ true
unfolding le
lt_of_pos a h = ground arith

pub IsNonneg-of_le : (a : Decimal) → le nought a ≡ true → IsNonneg a
unfolding le
IsNonneg-of_le a h = ground arith

pub le_of_nonneg : (a : Decimal) → IsNonneg a → le nought a ≡ true
unfolding le
le_of_nonneg a h = ground arith

finish_sub-IsPos : (x y s : ℕ) → y < x → IsPos (finish (sub_ℕ x y) s)
finish_sub-IsPos x y s h = rw (le→leb y x (omega arith)) (finish-IsPos (x - y) s (omega arith))

finish_sub-IsNonneg : (x y s : ℕ) → y ≤ x → IsNonneg (finish (sub_ℕ x y) s)
finish_sub-IsNonneg x y s h = rw (le→leb y x h) (finish-nonneg (x - y) s)

pub mul-IsPos : (a b : Decimal) → IsPos a → IsPos b → IsPos (mul a b)
unfolding mul
mul-IsPos a b (na, pa) (nb, pb) =
    finish_sub-IsPos (pos_part a.coef * pos_part b.coef + neg_part a.coef * neg_part b.coef)
      (pos_part a.coef * neg_part b.coef + neg_part a.coef * pos_part b.coef) (a.scale + b.scale)
      (rw (na, nb) (omega (arith, one-le-mul pa pb)))

pub mul-IsNonneg : (a b : Decimal) → IsNonneg a → IsNonneg b → IsNonneg (mul a b)
unfolding mul
mul-IsNonneg a b na nb =
    finish_sub-IsNonneg (pos_part a.coef * pos_part b.coef + neg_part a.coef * neg_part b.coef)
      (pos_part a.coef * neg_part b.coef + neg_part a.coef * pos_part b.coef) (a.scale + b.scale)
      (rw (na, nb) (omega arith))

module _ (a b : Decimal) where
  -- The units to which a sum or a difference brings its two operands.
  abbrev unit_left : ℕ
  unit_left = 10 ^ (max a.scale b.scale - a.scale)

  abbrev unit_right : ℕ
  unit_right = 10 ^ (max a.scale b.scale - b.scale)

  pub add-IsNonneg : IsNonneg a → IsNonneg b → IsNonneg (add a b)
  unfolding add
  add-IsNonneg na nb =
      finish_sub-IsNonneg (pos_part a.coef * unit_left + pos_part b.coef * unit_right)
        (neg_part a.coef * unit_left + neg_part b.coef * unit_right) (max a.scale b.scale)
        (rw (na, nb) (omega arith))

  pub add-IsPos : IsPos a → IsNonneg b → IsPos (add a b)
  unfolding add
  add-IsPos (na, pa) nb =
      finish_sub-IsPos (pos_part a.coef * unit_left + pos_part b.coef * unit_right)
        (neg_part a.coef * unit_left + neg_part b.coef * unit_right) (max a.scale b.scale)
        (rw (na, nb) (omega (arith, one-le-mul pa (pow-pos (max a.scale b.scale - a.scale)))))

pub pow-add : (n m : ℕ) → 10 ^ (n + m) ≡ 10 ^ n * 10 ^ m
pow-add n zero = rw add-zero (omega arith)
pow-add n (suc m) =
    rw (add-suc, pow-suc 10 (n + m), pow-suc 10 m)
      (omega (arith, ap (λ (t : ℕ). t * 10) (pow-add n m)))

pow-sub-mul : (s t : ℕ) → t ≤ s → 10 ^ (s - t) * 10 ^ t ≡ 10 ^ s
pow-sub-mul s t h = sym (pow-add (s - t) t) ∙ ap (λ k. 10 ^ k) (omega arith)

quotient_large :
    (m n : ℕ)
    → 0 < m
    → 0 < n
    → let up = digits n + precision + 1 - digits m in
      let down = digits m - (digits n + precision + 1) in n * 10 ^ down ≤ m * 10 ^ up
quotient_large m n hm hn =
    let (j, em, lo, _) = digits_bounds m hm in
    let (k, en, _, hi) = digits_bounds n hn in
    let up = digits n + precision + 1 - digits m in
    let down = digits m - (digits n + precision + 1) in
    let above : 10 ^ (j + up) ≤ m * 10 ^ up = rw (pow-add j up) (mul-le-mul_right (10 ^ up) lo) in
    let below : n * 10 ^ down ≤ 10 ^ (suc k + down) =
      rw (pow-add (suc k) down) (mul-le-mul_right (10 ^ down) (omega arith)) in
    let between : 10 ^ (suc k + down) ≤ 10 ^ (j + up) =
      pow-le-pow_right {n = 10} (omega arith) (omega arith) in
    omega arith

strip-pos : (n c s : ℕ) → 0 < c → 0 < (strip n c s).0
unfolding strip
strip-pos zero c s h = h
strip-pos (suc n) c s h = elim (Bool-cases (c % 10 == 0)) [
  | inl more ↦ rw (more, strip) (strip-pos n (c / 10) (s - 1) (ground arith))
  | inr done ↦ rw (done, strip) h
]

settle-pos :
    (c r unit exponent ideal : ℕ) → 0 < c → 0 < unit → 0 < (settle c r unit exponent ideal).0
unfolding settle
settle-pos c r unit exponent ideal hc hu = elim (Bool-cases (r == 0)) [
  | inl exact ↦ rw exact (strip-pos (exponent - ideal) (c * unit) exponent (one-le-mul hc hu))
  | inr inexact ↦ rw inexact (one-le-mul (ground arith) hu)
]

quotient-pos : (m s n t : ℕ) → 0 < m → 0 < n → 0 < (quotient m s n t).0
unfolding quotient
quotient-pos m s n t hm hn =
    let up = digits n + precision + 1 - digits m in
    let down = digits m - (digits n + precision + 1) in
    settle-pos (m * 10 ^ up / (n * 10 ^ down)) (m * 10 ^ up % (n * 10 ^ down))
      (10 ^ (t + down - (s + up))) (s + up - (t + down)) (s - t)
      ((le-div_iff_mul-le {x = 1} (one-le-mul hn (pow-pos down))).1
        (omega (arith, quotient_large m n hm hn)))
      (pow-pos (t + down - (s + up)))

-- Positive numbers divide with no error, and the rounded quotient is positive.
pub div-IsPos : (a b : Decimal) → IsPos a → IsPos b → (q : Decimal) × (div a b ≡ ok q) × IsPos q
unfolding div
div-IsPos a b (na, pa) (nb, pb) =
    let m = pos_part a.coef + neg_part a.coef in
    let n = pos_part b.coef + neg_part b.coef in
    let c = quotient m a.scale n b.scale in
    let nonzero : (n == 0) ≡ false = ground arith in
    let left : (neg_part a.coef == 0) ≡ true = ground arith in
    let right : (neg_part b.coef == 0) ≡ true = ground arith in
    (
      finish (pos c.0) c.1,
      rw (nonzero, left, right),
      finish-IsPos c.0 c.1 (quotient-pos m a.scale n b.scale (omega arith) (omega arith)),
    )

-- Over a common unit a strict order of fractions is one of the numerators.
cross_units :
    (x y u v w pa na pb nb : ℕ)
    → x * u ≡ w
    → y * v ≡ w
    → 0 < w
    → pb * u + na * v < pa * v + nb * u
    → na * x + pb * y < pa * x + nb * y
cross_units x y u v w pa na pb nb p q hw h = lt_of_mul-lt-mul_left (u * v) (
    omega (
      arith,
      mul-le-mul_left w h,
      ap (λ (t : ℕ). t * (na * v)) p,
      ap (λ (t : ℕ). t * (pa * v)) p,
      ap (λ (t : ℕ). t * (pb * u)) q,
      ap (λ (t : ℕ). t * (nb * u)) q,
    ))

-- A difference is positive if the comparison says so.
pub sub-IsPos : (a b : Decimal) → lt b a ≡ true → IsPos (sub a b)
unfolding sub le
sub-IsPos a b h =
    let s = max a.scale b.scale in
    let x = 10 ^ (s - a.scale) in
    let y = 10 ^ (s - b.scale) in
    let left = pow-sub-mul s a.scale (omega arith) in
    let right = pow-sub-mul s b.scale (omega arith) in
    finish_sub-IsPos (pos_part a.coef * x + neg_part b.coef * y)
      (neg_part a.coef * x + pos_part b.coef * y) s
      (cross_units x y (10 ^ a.scale) (10 ^ b.scale) (10 ^ s) (pos_part a.coef) (neg_part a.coef)
        (pos_part b.coef) (neg_part b.coef) left right (pow-pos s) (ground arith))

-- Division fails only by a zero divisor.
pub div_total : (a b : Decimal) → IsPos b → (q : Decimal) × (div a b ≡ ok q)
unfolding div
div_total a b (nb, pb) =
    let nonzero : (pos_part b.coef + neg_part b.coef == 0) ≡ false = ground arith in
    rw nonzero (_, refl)

pub div-IsNonneg :
    (a b : Decimal) → IsNonneg a → IsPos b → (q : Decimal) × (div a b ≡ ok q) × IsNonneg q
unfolding div
div-IsNonneg a b na (nb, pb) =
    let m = pos_part a.coef + neg_part a.coef in
    let n = pos_part b.coef + neg_part b.coef in
    let c = quotient m a.scale n b.scale in
    let nonzero : (n == 0) ≡ false = ground arith in
    let left : (neg_part a.coef == 0) ≡ true = ground arith in
    let right : (neg_part b.coef == 0) ≡ true = ground arith in
    (finish (pos c.0) c.1, rw (nonzero, left, right), finish-nonneg c.0 c.1)

-- The same of an order.
cross_units_le :
    (x y u v w pa na pb nb : ℕ)
    → x * u ≡ w
    → y * v ≡ w
    → 0 < u * v
    → pb * u + na * v ≤ pa * v + nb * u
    → na * x + pb * y ≤ pa * x + nb * y
cross_units_le x y u v w pa na pb nb p q huv h =
    le_of_mul-le-mul_right {k = u * v}
      (omega (
        arith,
        mul-le-mul_left w h,
        ap (λ (t : ℕ). t * (na * v)) p,
        ap (λ (t : ℕ). t * (pa * v)) p,
        ap (λ (t : ℕ). t * (pb * u)) q,
        ap (λ (t : ℕ). t * (nb * u)) q,
      ))
      huv

-- A difference is not negative if the comparison says so.
pub sub-IsNonneg : (a b : Decimal) → le b a ≡ true → IsNonneg (sub a b)
unfolding sub le
sub-IsNonneg a b h =
    let s = max a.scale b.scale in
    let x = 10 ^ (s - a.scale) in
    let y = 10 ^ (s - b.scale) in
    let left = pow-sub-mul s a.scale (omega arith) in
    let right = pow-sub-mul s b.scale (omega arith) in
    finish_sub-IsNonneg (pos_part a.coef * x + neg_part b.coef * y)
      (neg_part a.coef * x + pos_part b.coef * y) s
      (cross_units_le x y (10 ^ a.scale) (10 ^ b.scale) (10 ^ s) (pos_part a.coef) (neg_part a.coef)
        (pos_part b.coef) (neg_part b.coef) left right
        (one-le-mul (pow-pos a.scale) (pow-pos b.scale)) (ground arith))

neg_of-pos_part : (m : ℕ) → pos_part (neg_of m) ≡ 0
neg_of-pos_part zero = refl
neg_of-pos_part (suc m) = refl

finish-pos_part : (n s : ℕ) → pos_part (finish (sub_ℕ 0 n) s).coef ≡ 0
unfolding finish
finish-pos_part zero s = ground arith
finish-pos_part (suc n) s =
    let below : leb (suc n) 0 ≡ false = ground arith in
    rw below (neg_of-pos_part (round_mag (suc (suc n - 0 - 1)) s).0)

pub neg-le-nought : (a : Decimal) → IsNonneg a → le (neg a) nought ≡ true
unfolding neg le
neg-le-nought a na = rw (na) (ground (arith, finish-pos_part (pos_part a.coef) a.scale))
