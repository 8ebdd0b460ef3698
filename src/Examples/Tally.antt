-- ===== src/Examples/Tally.antt =====
-- Texts of decimals that can be read back: the sign, a tick for each unit of the coefficient, a
-- point, and a tick for each digit after it.
use Prim.Native.Char.{Char, code}
use crypto_ai_trader.Base.{
  ℕ, zero, suc, ◌≡◌, refl, ap, String, Bool, ◌==◌, if◌then◌else◌, Result, ok, err,
  invalid_operation,
}
use crypto_ai_trader.Base.Int.{ℤ, pos, negsuc}
use crypto_ai_trader.Decimal.{Decimal}

abbrev ticks : ℕ → String → String
ticks zero tail = tail
ticks (suc n) tail = String.◌∷◌ "1" (ticks n tail)

abbrev digits_of : ℕ → ℕ → String
digits_of n s = ticks n (String.◌∷◌ "." (ticks s String.[]))

abbrev signed_text : ℤ → ℕ → String
signed_text (pos n) s = String.◌∷◌ "+" (digits_of n s)
signed_text (negsuc n) s = String.◌∷◌ "-" (digits_of n s)

abbrev pub tally : Decimal → String
tally d = signed_text d.coef d.scale

abbrev is_tick : Char → Bool
is_tick c = code c == b'1'

-- The number of ticks in front.
unfoldable count_ticks : String → ℕ
count_ticks String.[] = 0
count_ticks (String.◌∷◌ c rest) = let n = count_ticks rest in if is_tick c then suc n else 0

-- What follows the first letter that is no tick.
unfoldable after_ticks : String → String
after_ticks String.[] = String.[]
after_ticks (String.◌∷◌ c rest) = let left = after_ticks rest in if is_tick c then left else rest

abbrev of_sign : Char → ℕ → ℤ
of_sign c n = if code c == b'+' then pos n else negsuc n

unfoldable pub read_tally : String → Result Decimal
unfolding count_ticks after_ticks
read_tally String.[] = err invalid_operation
read_tally (String.◌∷◌ c rest) =
    ok record { coef = of_sign c (count_ticks rest); scale = count_ticks (after_ticks rest) }

count_ticks-ticks : (n : ℕ) (tail : String) → count_ticks tail ≡ 0 → count_ticks (ticks n tail) ≡ n
unfolding count_ticks
count_ticks-ticks zero tail e = e
count_ticks-ticks (suc n) tail e = ap suc (count_ticks-ticks n tail e)

after_ticks-digits : (n s : ℕ) → after_ticks (digits_of n s) ≡ ticks s String.[]
unfolding after_ticks
after_ticks-digits zero s = refl
after_ticks-digits (suc n) s = after_ticks-digits n s

coefficient_read : (n s : ℕ) → count_ticks (digits_of n s) ≡ n
unfolding count_ticks
coefficient_read n s = count_ticks-ticks n (String.◌∷◌ "." (ticks s String.[])) refl

scale_read : (n s : ℕ) → count_ticks (after_ticks (digits_of n s)) ≡ s
unfolding count_ticks
scale_read n s = rw (after_ticks-digits n s) (count_ticks-ticks s String.[] refl)

signed_text_read :
    (c : ℤ) (s : ℕ) → read_tally (signed_text c s) ≡ ok (record { coef = c; scale = s })
unfolding read_tally
signed_text_read (pos n) s = rw (coefficient_read n s, scale_read n s) refl
signed_text_read (negsuc n) s = rw (coefficient_read n s, scale_read n s) refl

pub read_tally-tally : (d : Decimal) → read_tally (tally d) ≡ ok d
read_tally-tally d = signed_text_read d.coef d.scale
