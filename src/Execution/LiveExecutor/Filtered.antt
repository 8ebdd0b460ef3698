-- ===== src/Execution/LiveExecutor/Filtered.antt =====
-- Which quantities and prices pass the filters.
use crypto_ai_trader.Base.{
  ◌≡◌, ◌↔◌, refl, ap, arith, ◌∙◌, not, if◌then◌else◌, String, Option, none, some, true, false, Bool,
  ok, >>=-eq-ok,
}
use crypto_ai_trader.Base.Dict.{Dict, lookup}
use crypto_ai_trader.Decimal.{Decimal, nought, le, lt, mul, quantize_down}
use crypto_ai_trader.Execution.Filters.{
  SymbolFilters, format_quantity, format_price, validate_min_notional,
}
use crypto_ai_trader.Execution.Filters.Quantized.{
  format_quantity-eq, format_price-eq, validate_min_notional_floored,
}
use crypto_ai_trader.Execution.LiveExecutor.{both, check_minimum, apply_filters}

-- The filters of the symbol floor the two to `q` and `p`, the quantity stays positive, and the
-- product reaches the minimum.
abbrev pub Passes : Dict SymbolFilters → String → Decimal → Decimal → Decimal → Decimal → Type 0
Passes cache symbol qty price q p =
    (f : SymbolFilters) × (lookup symbol cache ≡ some f)
    × (quantize_down qty f.step_size ≡ ok q)
    × (lt nought q ≡ true)
    × (quantize_down price f.tick_size ≡ ok p)
    × (le f.min_notional (mul q p) ≡ true)

keep_if-eq :
    (reached : Bool) (a b : Decimal) {q p : Decimal}
    → ◌≡◌ {A = Option (Decimal × Decimal)} (if not reached then none else some (a, b)) (some (q, p))
    → (reached ≡ true) × (a ≡ q) × (b ≡ p)
keep_if-eq false a b h = absurd (ground arith)
keep_if-eq true a b h = (refl, ground arith, ground arith)

check_minimum-eq :
    (cache : Dict SymbolFilters) (symbol : String) (fq fp : Option Decimal) {q p : Decimal}
    → check_minimum cache symbol (both fq fp) ≡ ok (some (q, p))
    → (fq ≡ some q) × (fp ≡ some p) × (validate_min_notional cache symbol q p ≡ ok true)
check_minimum-eq cache symbol none fp h = absurd (ground arith)
check_minimum-eq cache symbol (some a) none h = absurd (ground arith)
check_minimum-eq cache symbol (some a) (some b) {q} {p} h =
    let (reached, e, kept) = >>=-eq-ok (validate_min_notional cache symbol a b) _ h in
    let (is_true, same_q, same_p) = keep_if-eq reached a b {q = q} {p = p} (ground arith) in
    (ap some same_q, ap some same_p, rw (← same_q, ← same_p) (e ∙ ap ok is_true))

apply_filters-Passes :
    (cache : Dict SymbolFilters) (symbol : String) (qty price : Decimal) {q p : Decimal}
    → apply_filters cache symbol qty price ≡ ok (some (q, p))
    → Passes cache symbol qty price q p
unfolding apply_filters
apply_filters-Passes cache symbol qty price {q} {p} h =
    let (fq, e₁, h₁) = >>=-eq-ok (format_quantity cache symbol qty) _ h in
    let (fp, e₂, h₂) = >>=-eq-ok (format_price cache symbol price) _ h₁ in
    let (is_q, is_p, reached) = check_minimum-eq cache symbol fq fp h₂ in
    let (f, known, floors_q, plus) =
      format_quantity-eq cache symbol qty {q = q} (e₁ ∙ ap ok is_q) in
    let (g, known', floors_p) = format_price-eq cache symbol price {p = p} (e₂ ∙ ap ok is_p) in
    let same : f ≡ g = ground arith in
    let floors_p' : quantize_down price f.tick_size ≡ ok p = rw same floors_p in
    let minimum = validate_min_notional_floored cache symbol qty price known floors_q floors_p' in
    (f, known, floors_q, plus, floors_p', ground arith)

Passes-apply_filters :
    (cache : Dict SymbolFilters) (symbol : String) (qty price : Decimal) {q p : Decimal}
    → Passes cache symbol qty price q p
    → apply_filters cache symbol qty price ≡ ok (some (q, p))
unfolding apply_filters format_quantity format_price
Passes-apply_filters cache symbol qty price {q} {p} (f, known, floors_q, plus, floors_p, reached) =
    let some_left : le q nought ≡ false = ground arith in
    let minimum = validate_min_notional_floored cache symbol qty price known floors_q floors_p in
    rw (known, floors_q, floors_p, some_left, minimum, reached) refl

-- The filters let an order pass as the quantity `q` at the price `p` exactly when they floor it
-- to these two, `q` is positive and the product of the two reaches the minimum. The code floors
-- the two a second time before it multiplies them.
pub apply_filters_iff :
    (cache : Dict SymbolFilters) (symbol : String) (qty price q p : Decimal)
    → (apply_filters cache symbol qty price ≡ ok (some (q, p))) ↔ Passes cache symbol qty price q p
apply_filters_iff cache symbol qty price q p =
    (apply_filters-Passes cache symbol qty price, Passes-apply_filters cache symbol qty price)
