-- ===== src/Dashboard/Books/Mirror.antt =====
-- The books of the status page against the portfolio's accounting.
use mathlib.Core.Path.{subst}
use crypto_ai_trader.Base.{
  ◌≡◌, refl, sym, ap, inl, inr, String, List, [], ◌∷◌, Option, none, some, Bool-cases, Result, ok,
  err, ◌>>=◌, if◌then◌else◌,
}
use crypto_ai_trader.Base.Dict.{Dict, lookup, insert, erase}
use crypto_ai_trader.Decimal.{Decimal, nought, le, lt, add, sub, mul, div}
use crypto_ai_trader.Strategies.Base.{Side, buy, sell}
use crypto_ai_trader.Execution.PaperExecutor.{PaperFill}
use crypto_ai_trader.Portfolio.Accounting.{
  Position, PortfolioAccount, opened, position_is_valid, with_position, average_in, pay,
  open_or_grow, buy_by_side, reduce, fee_share, sold, finish_sale, settle_sale, sell_by_side,
  apply_buy_fill, apply_sell_fill, fill_by_side, apply_fill, unless_raised, replay,
}
use crypto_ai_trader.Dashboard.Books.Shown.{
  shown, shown_positions, shown_if, lookup-shown_positions, shown_positions-insert,
  shown_positions-erase, average_price-eq, shown_books,
}
use crypto_ai_trader.Dashboard.Books.{
  Books, snapshot, put_position, book_buy, book_sale, book_by_side, book_fills,
}

-- An account that a step leaves, and the books that follow it.
abbrev Follows : {V : Type 0} → Result Books → PortfolioAccount × Result V → Type 0
Follows {V} booked (after, r) = (v : V) → r ≡ ok v → booked ≡ ok (shown_books after)

put_position-shown :
    (symbol : String) (p : Position) (a : PortfolioAccount)
    → put_position symbol (shown symbol p) (shown_books a) ≡ shown_books (with_position symbol p a)
put_position-shown symbol p a =
    ap (λ positions. record { usdt = a.cash_balance; positions = positions })
      (sym (shown_positions-insert symbol p a.positions))

average_in-Follows :
    (f : PaperFill) (p : Position) (a : PortfolioAccount) (r : Result Decimal)
    → (r ≡ div (add (mul p.qty p.avg_entry_price) (mul f.qty f.price)) (add p.qty f.qty))
    → Follows (book_buy f (some (shown f.symbol p)) (shown_books a)) (average_in f p a r)
unfolding book_buy
average_in-Follows f p a (err why) e v raised = cc
average_in-Follows f p a (ok average) e v done =
    rw (average_price-eq f (shown f.symbol p) average (sym e)) (
      ap ok (
        put_position-shown f.symbol
          (record p {
            qty = add p.qty f.qty;
            avg_entry_price = average;
            fees_paid_usdt = add p.fees_paid_usdt f.fee_usdt;
          })
          a))

open_or_grow-Follows :
    (f : PaperFill) (held : Option Position) (a : PortfolioAccount)
    → Follows (book_buy f (shown_if f.symbol held) (shown_books a)) (open_or_grow f held a)
unfolding open_or_grow
open_or_grow-Follows f none a = elim (Bool-cases (position_is_valid (opened f))) [
  | inl valid ↦
      simp valid (λ v done. unfold book_buy in ap ok (put_position-shown f.symbol (opened f) a))
  | inr invalid ↦ simp invalid (λ v raised. cc)
]
open_or_grow-Follows f (some p) a =
    average_in-Follows f p a
      (div (add (mul p.qty p.avg_entry_price) (mul f.qty f.price)) (add p.qty f.qty)) refl

reduce-shown :
    (f : PaperFill) (p : Position) (share : Decimal) (positions : Dict Position)
    → shown_positions (reduce f p share positions) ≡ (
        if le (sub p.qty f.qty) nought
        then erase f.symbol (shown_positions positions)
        else insert f.symbol
            (snapshot f.symbol (sub p.qty f.qty) p.avg_entry_price)
            (shown_positions positions))
unfolding reduce
reduce-shown f p share positions = elim (Bool-cases (le (sub p.qty f.qty) nought)) [
  | inl gone ↦ simp gone (shown_positions-erase f.symbol positions)
  | inr left ↦ simp left (
      shown_positions-insert f.symbol
        (record p { qty = sub p.qty f.qty; fees_paid_usdt = sub p.fees_paid_usdt share }) positions)
]

-- The cash of a sale is booked before the position is looked at.
abbrev with_proceeds : PaperFill → Books → Books
with_proceeds f b = record b { usdt = add b.usdt (sub (mul f.qty f.price) f.fee_usdt) }

finish_sale-Follows :
    (f : PaperFill) (p : Position) (a : PortfolioAccount) (share : Result Decimal)
    → Follows
        (ok (book_sale f (some (shown f.symbol p)) (with_proceeds f (shown_books a))))
        (finish_sale f p a share)
unfolding book_sale sold
finish_sale-Follows f p a (err why) v raised = cc
finish_sale-Follows f p a (ok share) v done =
    ap
      (λ positions. ok (record {
        usdt = add a.cash_balance (sub (mul f.qty f.price) f.fee_usdt);
        positions = positions;
      }))
      (sym (reduce-shown f p share a.positions))

settle_sale-Follows :
    (f : PaperFill) (held : Option Position) (a : PortfolioAccount)
    → Follows
        (ok (book_sale f (shown_if f.symbol held) (with_proceeds f (shown_books a))))
        (settle_sale f held a)
unfolding settle_sale
settle_sale-Follows f none a = λ v raised. cc
settle_sale-Follows f (some p) a = elim (Bool-cases (le f.qty nought)) [
  | inl empty ↦ simp empty (λ v raised. cc)
  | inr some_qty ↦ elim (Bool-cases (lt p.qty f.qty)) [
    | inl short ↦ simp (some_qty, short) (λ v raised. cc)
    | inr covered ↦ simp (some_qty, covered) (finish_sale-Follows f p a (fee_share f p))
  ]
]

buy_by_side-Follows :
    (f : PaperFill) (a : PortfolioAccount)
    → Follows (book_by_side buy f (shown_books a)) (buy_by_side buy f a)
buy_by_side-Follows f a =
    subst (λ held. Follows (book_buy f held (shown_books (pay f a))) (buy_by_side buy f a))
      (sym (lookup-shown_positions f.symbol a.positions))
      (open_or_grow-Follows f (lookup f.symbol a.positions) (pay f a))

sell_by_side-Follows :
    (f : PaperFill) (a : PortfolioAccount)
    → Follows (book_by_side sell f (shown_books a)) (sell_by_side sell f a)
sell_by_side-Follows f a =
    subst
      (λ held.
        Follows (ok (book_sale f held (with_proceeds f (shown_books a)))) (sell_by_side sell f a))
      (sym (lookup-shown_positions f.symbol a.positions))
      (settle_sale-Follows f (lookup f.symbol a.positions) a)

-- The gain of a sale is dropped.
drop_gain-Follows :
    (booked : Result Books) (x : PortfolioAccount × Result Decimal)
    → Follows booked x
    → Follows booked (x.0, x.1 >>= λ pnl. ok tt)
drop_gain-Follows booked (after, err why) follows = λ v raised. cc
drop_gain-Follows booked (after, ok gain) follows = λ v done. follows gain refl

fill_by_side-Follows :
    (side : Side) (f : PaperFill) (a : PortfolioAccount)
    → f.side ≡ side
    → Follows (book_by_side side f (shown_books a)) (fill_by_side side f a)
unfolding apply_buy_fill apply_sell_fill
fill_by_side-Follows buy f a e =
    subst (λ side. Follows (book_by_side buy f (shown_books a)) (buy_by_side side f a)) (sym e)
      (buy_by_side-Follows f a)
fill_by_side-Follows sell f a e =
    drop_gain-Follows (book_by_side sell f (shown_books a)) (sell_by_side f.side f a) (
      subst (λ side. Follows (book_by_side sell f (shown_books a)) (sell_by_side side f a)) (sym e)
        (sell_by_side-Follows f a))

unless_raised-ok :
    (done rest : PortfolioAccount × Result (Unit {0})) (after : PortfolioAccount)
    → unless_raised done.1 done rest ≡ (after, ok tt)
    → (done.1 ≡ ok tt) × (rest ≡ (after, ok tt))
unless_raised-ok (a, err why) rest after h = cc (ap (λ z. z.1) h)
unless_raised-ok (a, ok v) rest after h = (refl, h)

-- Where the portfolio accepts the recorded fills, the status page derives from them the same cash
-- and, for each position, the same quantity and average price, in the same order.
pub book_fills-replay :
    (fills : List PaperFill) (a after : PortfolioAccount)
    → replay fills a ≡ (after, ok tt)
    → book_fills fills (shown_books a) ≡ ok (shown_books after)
unfolding book_fills replay apply_fill
book_fills-replay [] a after h = ap (λ z. ok (shown_books z.0)) h
book_fills-replay (f ∷ fs) a after h =
    let done = apply_fill f a in
    let (accepted, rest) = unless_raised-ok done (replay fs done.0) after h in
    rw (fill_by_side-Follows f.side f a refl tt accepted) (book_fills-replay fs done.0 after rest)
