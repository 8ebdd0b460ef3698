-- ===== src/Dashboard/Books.antt =====
-- The local books of `read_runtime_status` in trading/dashboard_api/routes_runtime.py: the USDT
-- balance and the positions that it derives from the fills, apart from the portfolio's accounting.
pub mod Shown
pub mod Distinct
pub mod Mirror
use crypto_ai_trader.Base.{
  String, List, [], ◌∷◌, Option, none, some, Bool, true, false, not, if◌then◌else◌, Result, ok, err,
  ◌>>=◌,
}
use crypto_ai_trader.Base.Dict.{Dict, lookup, insert, erase}
use crypto_ai_trader.Decimal.{Decimal, nought, eq, le, add, sub, mul, div}
use crypto_ai_trader.Strategies.Base.{Side, buy, sell}
use crypto_ai_trader.Execution.PaperExecutor.{PaperFill}
use crypto_ai_trader.Runtime.Reconciliation.{PositionSnapshot}

-- `local_usdt_balance` and `local_positions`
pub record Books : Type 0 where
  pub usdt : Decimal
  pub positions : Dict PositionSnapshot

abbrev pub snapshot : String → Decimal → Decimal → PositionSnapshot
snapshot symbol qty price = record { symbol = symbol; qty = qty; avg_entry_price = price }

abbrev pub average_price : PaperFill → PositionSnapshot → Result Decimal
average_price f p =
    let total_qty = add p.qty f.qty in
    let total_cost = add (mul p.qty p.avg_entry_price) (mul f.qty f.price) in
    if not (eq total_qty nought) then div total_cost total_qty else ok f.price

abbrev pub put_position : String → PositionSnapshot → Books → Books
put_position symbol p b = record b { positions = insert symbol p b.positions }

unfoldable pub book_buy : PaperFill → Option PositionSnapshot → Books → Result Books
book_buy f none b = ok (put_position f.symbol (snapshot f.symbol f.qty f.price) b)
book_buy f (some p) b = average_price f p >>= λ average.
    ok (put_position f.symbol (snapshot f.symbol (add p.qty f.qty) average) b)

unfoldable pub book_sale : PaperFill → Option PositionSnapshot → Books → Books
book_sale f none b = b
book_sale f (some p) b =
    let new_qty = sub p.qty f.qty in
    record b {
      positions =
          if le new_qty nought
          then erase f.symbol b.positions
          else insert f.symbol (snapshot f.symbol new_qty p.avg_entry_price) b.positions;
    }

abbrev pub book_by_side : Side → PaperFill → Books → Result Books
book_by_side buy f b =
    book_buy f (lookup f.symbol b.positions)
      (record b { usdt = sub b.usdt (add (mul f.qty f.price) f.fee_usdt) })
book_by_side sell f b = ok (
    book_sale f (lookup f.symbol b.positions)
      (record b { usdt = add b.usdt (sub (mul f.qty f.price) f.fee_usdt) }))

-- The loop over the fills.
unfoldable pub book_fills : List PaperFill → Books → Result Books
unfolding book_buy book_sale
book_fills [] b = ok b
book_fills (f ∷ fs) b = book_by_side f.side f b >>= λ next. book_fills fs next
