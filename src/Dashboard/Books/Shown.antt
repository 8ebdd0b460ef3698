-- ===== src/Dashboard/Books/Shown.antt =====
-- The positions of an account in the form of the status page.
use crypto_ai_trader.Base.{
  ℕ, ◌+◌, ◌≢◌, ◌≡◌, refl, ap, arith, inl, inr, String, [], ◌∷◌, Option, none, some, true, false,
  Bool-cases, ok, str_eq, str_eq_iff,
}
use crypto_ai_trader.Base.Int.{ℤ, pos, negsuc, pos_part, neg_part}
use crypto_ai_trader.Base.Dict.{Dict, lookup, insert, erase}
use crypto_ai_trader.Decimal.{Decimal, nought, eq, le, add, mul, div}
use crypto_ai_trader.Execution.PaperExecutor.{PaperFill}
use crypto_ai_trader.Portfolio.Accounting.{Position, PortfolioAccount}
use crypto_ai_trader.Runtime.Reconciliation.{PositionSnapshot}
use crypto_ai_trader.Dashboard.Books.{Books, snapshot, average_price}

abbrev pub shown : String → Position → PositionSnapshot
shown symbol p = snapshot symbol p.qty p.avg_entry_price

-- The positions of an account as the status page shows them.
unfoldable pub shown_positions : Dict Position → Dict PositionSnapshot
shown_positions [] = []
shown_positions ((symbol, p) ∷ positions) = (symbol, shown symbol p) ∷ shown_positions positions

abbrev pub shown_if : String → Option Position → Option PositionSnapshot
shown_if symbol none = none
shown_if symbol (some p) = some (shown symbol p)

pub lookup-shown_positions :
    (symbol : String) (d : Dict Position)
    → lookup symbol (shown_positions d) ≡ shown_if symbol (lookup symbol d)
unfolding lookup shown_positions
lookup-shown_positions symbol [] = refl
lookup-shown_positions symbol ((other, p) ∷ d) = elim (Bool-cases (str_eq other symbol)) [
  | inl same ↦ simp same (ap (λ key. some (shown key p)) ((str_eq_iff other symbol).0 same))
  | inr apart ↦ simp apart (lookup-shown_positions symbol d)
]

pub shown_positions-insert :
    (symbol : String) (p : Position) (d : Dict Position)
    → shown_positions (insert symbol p d) ≡ insert symbol (shown symbol p) (shown_positions d)
unfolding insert shown_positions
shown_positions-insert symbol p [] = refl
shown_positions-insert symbol p ((other, q) ∷ d) = elim (Bool-cases (str_eq other symbol)) [
  | inl same ↦
      simp same
        (ap (λ key. (other, shown key p) ∷ shown_positions d) ((str_eq_iff other symbol).0 same))
  | inr apart ↦
      simp apart (ap (λ rest. (other, shown other q) ∷ rest) (shown_positions-insert symbol p d))
]

pub shown_positions-erase :
    (symbol : String) (d : Dict Position)
    → shown_positions (erase symbol d) ≡ erase symbol (shown_positions d)
unfolding erase shown_positions
shown_positions-erase symbol [] = refl
shown_positions-erase symbol ((other, q) ∷ d) = elim (Bool-cases (str_eq other symbol)) [
  | inl same ↦ simp same refl
  | inr apart ↦
      simp apart (ap (λ rest. (other, shown other q) ∷ rest) (shown_positions-erase symbol d))
]

coef-zero :
    (c : ℤ) (s : ℕ)
    → eq (record { coef = c; scale = s }) nought ≡ true
    → pos_part c + neg_part c ≡ 0
unfolding le
coef-zero (pos n) s h = ground arith
coef-zero (negsuc n) s h = ground arith

div_by_zero : (a b q : Decimal) → pos_part b.coef + neg_part b.coef ≡ 0 → div a b ≢ ok q
unfolding div
div_by_zero a b q zero_mag h = ground arith

-- A quotient that was computed has a divisor other than zero.
div-ne-nought : (a b q : Decimal) → div a b ≡ ok q → eq b nought ≡ false
div-ne-nought a b q h = elim (Bool-cases (eq b nought)) [
  | inl is_zero ↦ absurd (div_by_zero a b q (coef-zero b.coef b.scale is_zero) h)
  | inr other ↦ other
]

pub average_price-eq :
    (f : PaperFill) (p : PositionSnapshot) (average : Decimal)
    → div (add (mul p.qty p.avg_entry_price) (mul f.qty f.price)) (add p.qty f.qty) ≡ ok average
    → average_price f p ≡ ok average
average_price-eq f p average h =
    let nonzero =
      div-ne-nought (add (mul p.qty p.avg_entry_price) (mul f.qty f.price)) (add p.qty f.qty)
        average h in
    simp (nonzero, h) refl

abbrev pub shown_books : PortfolioAccount → Books
shown_books a = record { usdt = a.cash_balance; positions = shown_positions a.positions }
