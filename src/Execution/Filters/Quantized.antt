-- ===== src/Execution/Filters/Quantized.antt =====
-- What formatting a quantity and a price gives, and that it is done once: formatted values pass
-- through the filters unchanged.
use crypto_ai_trader.Base.{
  ◌+◌, ◌*◌, ◌^◌, ◌≤◌, ◌<◌, ◌≡◌, refl, arith, String, Option, none, some, true, ok, >>=-eq-ok,
}
use crypto_ai_trader.Base.Int.{pos_part, neg_part}
use crypto_ai_trader.Base.Dict.{Dict, lookup}
use crypto_ai_trader.Decimal.{
  Decimal, nought, le, lt, mul, quantize_down, quantize_down_again, quantize_down-IsFloor,
}
use crypto_ai_trader.Execution.Filters.{
  SymbolFilters, floor_quantity, format_quantity, floor_price, format_price, validate_min_notional,
}

-- A formatted quantity is the quantity floored by the symbol's filters, and positive.
abbrev pub FloorsQuantity : Option SymbolFilters → Decimal → Decimal → Type 0
FloorsQuantity known qty q =
    (f : SymbolFilters) × (known ≡ some f)
    × (quantize_down qty f.step_size ≡ ok q)
    × (lt nought q ≡ true)

floor_quantity-eq :
    (known : Option SymbolFilters) (qty : Decimal) {q : Decimal}
    → floor_quantity known qty ≡ ok (some q)
    → FloorsQuantity known qty q
floor_quantity-eq none qty h = absurd (ground arith)
floor_quantity-eq (some f) qty {q} h =
    let (v, e, kept) = >>=-eq-ok (quantize_down qty f.step_size) _ h in
    let same : v ≡ q = ground arith in (f, refl, rw e (ground arith), ground arith)

pub format_quantity-eq :
    (cache : Dict SymbolFilters) (symbol : String) (qty : Decimal) {q : Decimal}
    → format_quantity cache symbol qty ≡ ok (some q)
    → FloorsQuantity (lookup symbol cache) qty q
unfolding format_quantity
format_quantity-eq cache symbol qty h = floor_quantity-eq (lookup symbol cache) qty h

floor_price-eq :
    (known : Option SymbolFilters) (price : Decimal) {p : Decimal}
    → floor_price known price ≡ ok (some p)
    → (f : SymbolFilters) × (known ≡ some f) × (quantize_down price f.tick_size ≡ ok p)
floor_price-eq none price h = absurd (ground arith)
floor_price-eq (some f) price {p} h =
    let (v, e, kept) = >>=-eq-ok (quantize_down price f.tick_size) _ h in
    let same : v ≡ p = ground arith in (f, refl, rw e (ground arith))

pub format_price-eq :
    (cache : Dict SymbolFilters) (symbol : String) (price : Decimal) {p : Decimal}
    → format_price cache symbol price ≡ ok (some p)
    → (f : SymbolFilters) × (lookup symbol cache ≡ some f)
      × (quantize_down price f.tick_size ≡ ok p)
unfolding format_price
format_price-eq cache symbol price h = floor_price-eq (lookup symbol cache) price h

-- For values that are floored already, the minimum is checked of their product.
pub validate_min_notional_floored :
    (cache : Dict SymbolFilters) (symbol : String) (qty price : Decimal) {f : SymbolFilters}
    {q p : Decimal}
    → lookup symbol cache ≡ some f
    → quantize_down qty f.step_size ≡ ok q
    → quantize_down price f.tick_size ≡ ok p
    → validate_min_notional cache symbol q p ≡ ok (le f.min_notional (mul q p))
unfolding validate_min_notional
validate_min_notional_floored cache symbol qty price {f} e a b =
    rw (e, quantize_down_again qty f.step_size a, quantize_down_again price f.tick_size b) refl

-- A formatted quantity of a quantity from zero on is positive, has the digits of the step size,
-- and is at most the quantity, by less than one unit of its last digit.
pub format_quantity-IsFloor :
    (cache : Dict SymbolFilters) (symbol : String) (qty : Decimal) {q : Decimal}
    → neg_part qty.coef ≡ 0
    → format_quantity cache symbol qty ≡ ok (some q)
    → (f : SymbolFilters) × (lookup symbol cache ≡ some f)
      × (q.scale ≡ f.step_size.scale)
      × (lt nought q ≡ true)
      × (pos_part q.coef * 10 ^ qty.scale ≤ pos_part qty.coef * 10 ^ q.scale)
      × (pos_part qty.coef * 10 ^ q.scale < (pos_part q.coef + 1) * 10 ^ qty.scale)
format_quantity-IsFloor cache symbol qty plus h =
    let (f, known, e, some_left) = format_quantity-eq cache symbol qty h in
    let (_, scale, lo, hi) = quantize_down-IsFloor qty f.step_size plus e in
    (f, known, scale, some_left, lo, hi)
