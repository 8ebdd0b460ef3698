-- ===== src/Decimal/Order.antt =====
-- The comparisons are a total order of the values.
use native.Mathlib.Nat.{mul-le-mul_right, le_of_mul-le-mul_right, one-le-pow}
use crypto_ai_trader.Base.{ℕ, ◌+◌, ◌*◌, ◌^◌, ◌≤◌, ◌<◌, ◌≡◌, true, false, arith, leb→le, le→leb, ◌⊎◌}
use crypto_ai_trader.Base.Int.{pos_part, neg_part}
use crypto_ai_trader.Decimal.Defs.{Decimal, le, lt, min}

pub le_refl : (a : Decimal) → le a a ≡ true
unfolding le
le_refl a = ground arith

pub le_total : (a b : Decimal) → (le a b ≡ true) ⊎ (le b a ≡ true)
unfolding le
le_total a b = ground arith

pub pow-pos : (n : ℕ) → 0 < 10 ^ n
pow-pos n = one-le-pow n 10 (omega arith)

-- Fractions over positive units compare transitively.
cross_trans :
    (pa na x pb nb y pc nc z : ℕ)
    → 0 < y
    → pa * y + nb * x ≤ pb * x + na * y
    → pb * z + nc * y ≤ pc * y + nb * z
    → pa * z + nc * x ≤ pc * x + na * z
cross_trans pa na x pb nb y pc nc z h p q =
    le_of_mul-le-mul_right {k = y} (omega (arith, mul-le-mul_right z p, mul-le-mul_right x q)) h

pub le_trans : (a b c : Decimal) → le a b ≡ true → le b c ≡ true → le a c ≡ true
unfolding le
le_trans a b c p q = le→leb _ _ (
    cross_trans (pos_part a.coef) (neg_part a.coef) (10 ^ a.scale) (pos_part b.coef)
      (neg_part b.coef) (10 ^ b.scale) (pos_part c.coef) (neg_part c.coef) (10 ^ c.scale)
      (pow-pos b.scale) (leb→le _ _ p) (leb→le _ _ q))

-- A strict order is an order, and reading it at a refusal of `le`.
pub lt→le : (a b : Decimal) → lt a b ≡ true → le a b ≡ true
unfolding le
lt→le a b h = ground arith

pub not_le→le : (a b : Decimal) → le a b ≡ false → le b a ≡ true
unfolding le
not_le→le a b h = ground arith

pub min-le_left : (a b : Decimal) → le (min a b) a ≡ true
unfolding min
min-le_left a b = ground (arith, lt→le b a, le_refl a)

pub min-le_right : (a b : Decimal) → le (min a b) b ≡ true
unfolding min
min-le_right a b = ground (arith, le_refl b, le_total a b)
