-- ===== src/Portfolio/Accounting.antt =====
-- trading/portfolio/accounting.py. A method returns the account that it leaves and its result;
-- what was written before an exception stays written.
pub mod Kept
pub mod Quantities
pub mod Stops
pub mod Trades
use crypto_ai_trader.Base.{
  String, List, [], ◌∷◌, Option, none, some, Bool, true, false, ◌&&◌, if◌then◌else◌, Result, ok,
  err, ◌>>=◌, Error, value_error, validation_error,
}
use crypto_ai_trader.Base.Dict.{Dict, lookup, insert, erase}
use crypto_ai_trader.Decimal.{Decimal, nought, le, lt, add, sub, mul, div}
use crypto_ai_trader.Strategies.Base.{Time, Side, buy, sell}
use crypto_ai_trader.Execution.PaperExecutor.{PaperFill}

pub record Position : Type 0 where
  pub symbol : String
  pub qty : Decimal
  pub avg_entry_price : Decimal
  pub fees_paid_usdt : Decimal
  pub opened_at : Option Time
  pub stop_reference : Option Decimal

pub record PortfolioAccount : Type 0 where
  pub cash_balance : Decimal
  pub positions : Dict Position
  pub realized_pnl_total_usdt : Decimal

abbrev pub with_position : String → Position → PortfolioAccount → PortfolioAccount
with_position symbol p a = record a { positions = insert symbol p a.positions }

-- The position that a first buy opens; its constructor demands ge=0 of the numbers.
abbrev pub opened : PaperFill → Position
opened f = record {
  symbol = f.symbol;
  qty = f.qty;
  avg_entry_price = f.price;
  fees_paid_usdt = f.fee_usdt;
  opened_at = some f.filled_at;
  stop_reference = none;
}

unfoldable pub position_is_valid : Position → Bool
position_is_valid p = le nought p.qty && le nought p.avg_entry_price && le nought p.fees_paid_usdt

-- The quantity of a held position is written before the average is computed.
abbrev pub average_in :
    PaperFill → Position → PortfolioAccount → Result Decimal → PortfolioAccount × Result (Unit {0})
average_in f p a (err e) = (with_position f.symbol (record p { qty = add p.qty f.qty }) a, err e)
average_in f p a (ok average) = (
  with_position f.symbol
      (record p {
        qty = add p.qty f.qty;
        avg_entry_price = average;
        fees_paid_usdt = add p.fees_paid_usdt f.fee_usdt;
      })
      a,
  ok tt,
)

-- `apply_buy_fill` once the cash is taken: a first position, or more of a held one.
unfoldable pub open_or_grow :
    PaperFill → Option Position → PortfolioAccount → PortfolioAccount × Result (Unit {0})
open_or_grow f none a =
    if position_is_valid (opened f)
    then (with_position f.symbol (opened f) a, ok tt)
    else (a, err validation_error)
open_or_grow f (some p) a =
    average_in f p a (div (add (mul p.qty p.avg_entry_price) (mul f.qty f.price)) (add p.qty f.qty))

abbrev pub pay : PaperFill → PortfolioAccount → PortfolioAccount
pay f a = record a { cash_balance = sub a.cash_balance (add (mul f.qty f.price) f.fee_usdt) }

abbrev pub buy_by_side : Side → PaperFill → PortfolioAccount → PortfolioAccount × Result (Unit {0})
buy_by_side sell f a = (a, err value_error)
buy_by_side buy f a = open_or_grow f (lookup f.symbol a.positions) (pay f a)

unfoldable pub apply_buy_fill : PaperFill → PortfolioAccount → PortfolioAccount × Result (Unit {0})
apply_buy_fill f a = buy_by_side f.side f a

-- The share of the position's fees that a sale takes along.
unfoldable pub fee_share : PaperFill → Position → Result Decimal
fee_share f p =
    if lt nought p.fees_paid_usdt
    then (div f.qty p.qty >>= λ part. ok (mul part p.fees_paid_usdt))
    else ok nought

-- The part that is left, or none of it.
unfoldable pub reduce : PaperFill → Position → Decimal → Dict Position → Dict Position
reduce f p share positions =
    let new_qty = sub p.qty f.qty in
    if le new_qty nought
    then erase f.symbol positions
    else insert f.symbol (record p { qty = new_qty; fees_paid_usdt = sub p.fees_paid_usdt share })
        positions

unfoldable pub realized_pnl : PaperFill → Position → Decimal → Decimal
realized_pnl f p share =
    sub (sub (sub (mul f.qty f.price) (mul f.qty p.avg_entry_price)) share) f.fee_usdt

-- The account after the sale of a part of `p`.
unfoldable pub sold : PaperFill → Position → Decimal → PortfolioAccount → PortfolioAccount
unfolding reduce realized_pnl
sold f p share a = record {
  cash_balance = add a.cash_balance (sub (mul f.qty f.price) f.fee_usdt);
  positions = reduce f p share a.positions;
  realized_pnl_total_usdt = add a.realized_pnl_total_usdt (realized_pnl f p share);
}

abbrev pub finish_sale :
    PaperFill → Position → PortfolioAccount → Result Decimal → PortfolioAccount × Result Decimal
finish_sale f p a (err e) = (a, err e)
finish_sale f p a (ok share) = (sold f p share a, ok (realized_pnl f p share))

unfoldable pub settle_sale :
    PaperFill → Option Position → PortfolioAccount → PortfolioAccount × Result Decimal
settle_sale f none a = (a, err value_error)
settle_sale f (some p) a =
    if le f.qty nought
    then (a, err value_error)
    else if lt p.qty f.qty
    then (a, err value_error)
    else finish_sale f p a (fee_share f p)

abbrev pub sell_by_side : Side → PaperFill → PortfolioAccount → PortfolioAccount × Result Decimal
sell_by_side buy f a = (a, err value_error)
sell_by_side sell f a = settle_sale f (lookup f.symbol a.positions) a

unfoldable pub apply_sell_fill : PaperFill → PortfolioAccount → PortfolioAccount × Result Decimal
apply_sell_fill f a = sell_by_side f.side f a

-- One recorded fill, by its side; the gain of a sale is not used.
abbrev pub fill_by_side : Side → PaperFill → PortfolioAccount → PortfolioAccount × Result (Unit {0})
fill_by_side buy f a = apply_buy_fill f a
fill_by_side sell f a = let (a', r) = apply_sell_fill f a in (a', r >>= λ pnl. ok tt)

unfoldable pub apply_fill : PaperFill → PortfolioAccount → PortfolioAccount × Result (Unit {0})
apply_fill f a = fill_by_side f.side f a

abbrev pub unless_raised {ℓ} : {A : Type ℓ} → Result (Unit {0}) → A → A → A
unless_raised (err e) stopped rest = stopped
unless_raised (ok u) stopped rest = rest

-- The account rebuilt from the recorded fills; an exception ends the loop.
unfoldable pub replay : List PaperFill → PortfolioAccount → PortfolioAccount × Result (Unit {0})
replay [] a = (a, ok tt)
replay (f ∷ fs) a =
    let done = apply_fill f a in let rest = replay fs done.0 in unless_raised done.1 done rest

-- The market price of a symbol, or the average entry price.
abbrev pub price_or : Dict Decimal → String → Decimal → Decimal
price_or prices symbol entry = elim (lookup symbol prices) [ none ↦ entry | some p ↦ p ]

unfoldable pub position_value : Dict Decimal → Decimal → Dict Position → Decimal
position_value prices acc [] = acc
position_value prices acc ((symbol, p) ∷ ps) =
    position_value prices (add acc (mul p.qty (price_or prices symbol p.avg_entry_price))) ps

unfoldable pub total_equity : Dict Decimal → PortfolioAccount → Decimal
unfolding position_value
total_equity prices a = add a.cash_balance (position_value prices nought a.positions)

unfoldable pub unrealized_from : Dict Decimal → Decimal → Dict Position → Decimal
unrealized_from prices acc [] = acc
unrealized_from prices acc ((symbol, p) ∷ ps) =
    let gain = sub (price_or prices symbol p.avg_entry_price) p.avg_entry_price in
    unrealized_from prices (add acc (mul p.qty gain)) ps

unfoldable pub unrealized_pnl : Dict Decimal → PortfolioAccount → Decimal
unfolding unrealized_from
unrealized_pnl prices a = unrealized_from prices nought a.positions
