-- ===== src/Portfolio/Accounting/Trades.antt =====
-- What a sale does: it raises and changes nothing, or it moves cash, position and gain together.
use crypto_ai_trader.Base.{
  String, Option, none, some, Bool-cases, inl, inr, ◌≡◌, true, false, ok, err, Result, arith, refl,
  sym, ok_inj, Result-cases, ap, ◌∙◌, str_eq, str_eq_iff,
}
use crypto_ai_trader.Base.Dict.{Dict, lookup, erase, lookup-insert, lookup-erase_ne}
use crypto_ai_trader.Decimal.{
  Decimal, nought, le, lt, le_trans, add, sub, mul, div, IsPos, IsPos-of_lt, div_total,
}
use crypto_ai_trader.Strategies.Base.{Side, buy, sell}
use crypto_ai_trader.Execution.PaperExecutor.{PaperFill}
use crypto_ai_trader.Portfolio.Accounting.{
  Position, PortfolioAccount, fee_share, reduce, realized_pnl, sold, finish_sale, settle_sale,
  sell_by_side, apply_sell_fill,
}

-- The part of the position's fees that a sale takes along: none of no fees, or the sold part of
-- the quantity.
abbrev pub TakesFees : PaperFill → Position → Decimal → Type 0
TakesFees f p share =
    ((lt nought p.fees_paid_usdt ≡ false) → (share ≡ nought))
    × ((lt nought p.fees_paid_usdt ≡ true)
        → (part : Decimal) × (div f.qty p.qty ≡ ok part) × (share ≡ mul part p.fees_paid_usdt))

-- What a sale that ended with `r` says of the account before and after it.
abbrev pub Moves : PaperFill → PortfolioAccount → PortfolioAccount × Result Decimal → Type 0
Moves f a (a', err e) = a' ≡ a
Moves f a (a', ok pnl) =
    (p : Position) × (share : Decimal) × (lookup f.symbol a.positions ≡ some p)
    × TakesFees f p share
    × (pnl ≡ sub (sub (sub (mul f.qty f.price) (mul f.qty p.avg_entry_price)) share) f.fee_usdt)
    × (f.side ≡ sell)
    × (lt nought f.qty ≡ true)
    × (le f.qty p.qty ≡ true)
    × (a'.cash_balance ≡ add a.cash_balance (sub (mul f.qty f.price) f.fee_usdt))
    × (a'.realized_pnl_total_usdt ≡ add a.realized_pnl_total_usdt pnl)
    × ((j : String) → str_eq f.symbol j ≡ false → lookup j a'.positions ≡ lookup j a.positions)
    × ((lt nought (sub p.qty f.qty) ≡ true)
        → (q : Position) × (lookup f.symbol a'.positions ≡ some q)
          × (q.qty ≡ sub p.qty f.qty)
          × (q.avg_entry_price ≡ p.avg_entry_price)
          × (q.fees_paid_usdt ≡ sub p.fees_paid_usdt share))
    × ((lt nought (sub p.qty f.qty) ≡ false) → (a'.positions ≡ erase f.symbol a.positions))

reduce_others :
    (f : PaperFill) (p : Position) (share : Decimal) (ps : Dict Position) (j : String)
    → str_eq f.symbol j ≡ false
    → lookup j (reduce f p share ps) ≡ lookup j ps
unfolding reduce
reduce_others f p share ps j other = elim (Bool-cases (le (sub p.qty f.qty) nought)) [
  | inl closed ↦ rw closed (lookup-erase_ne j f.symbol ps other)
  | inr kept ↦ rw kept (rw lookup-insert (rw other))
]

reduce_self :
    (f : PaperFill) (p : Position) (share : Decimal) (ps : Dict Position)
    → lt nought (sub p.qty f.qty) ≡ true
    → lookup f.symbol (reduce f p share ps)
      ≡ some (record p { qty = sub p.qty f.qty; fees_paid_usdt = sub p.fees_paid_usdt share })
unfolding reduce
reduce_self f p share ps kept =
    let open_rest : le (sub p.qty f.qty) nought ≡ false = ground arith in
    rw open_rest (rw lookup-insert (rw ((str_eq_iff f.symbol f.symbol).1 refl)))

reduce_all :
    (f : PaperFill) (p : Position) (share : Decimal) (ps : Dict Position)
    → lt nought (sub p.qty f.qty) ≡ false
    → reduce f p share ps ≡ erase f.symbol ps
unfolding reduce
reduce_all f p share ps closed =
    let none_left : le (sub p.qty f.qty) nought ≡ true = ground arith in rw none_left refl

fee_share-TakesFees :
    (f : PaperFill) (p : Position) {share : Decimal}
    → fee_share f p ≡ ok share
    → TakesFees f p share
unfolding fee_share
fee_share-TakesFees f p {share} h = elim (Bool-cases (lt nought p.fees_paid_usdt)) [
  | inr free ↦ (λ _. sym (ok_inj (rw free at h)), λ no. absurd (ground arith))
  | inl charged ↦ elim (Result-cases (div f.qty p.qty)) [
    | inl (part, e) ↦
        (λ no. absurd (ground arith), λ _. (part, e, sym (ok_inj (rw (charged, e) at h))))
    | inr (why, e) ↦ absurd (ground arith)
  ]
]

sold-Moves :
    (f : PaperFill) (p : Position) (a : PortfolioAccount) (r : Result Decimal)
    → fee_share f p ≡ r
    → lookup f.symbol a.positions ≡ some p
    → f.side ≡ sell
    → lt nought f.qty ≡ true
    → le f.qty p.qty ≡ true
    → Moves f a (finish_sale f p a r)
unfolding sold realized_pnl
sold-Moves f p a (err e) shared found side some_qty covered = refl
sold-Moves f p a (ok share) shared found side some_qty covered = (
  p,
  share,
  found,
  fee_share-TakesFees f p shared,
  refl,
  side,
  some_qty,
  covered,
  refl,
  refl,
  reduce_others f p share a.positions,
  λ kept. (_, reduce_self f p share a.positions kept, refl, refl, refl),
  reduce_all f p share a.positions,
)

settle_sale-Moves :
    (f : PaperFill) (o : Option Position) (a : PortfolioAccount)
    → lookup f.symbol a.positions ≡ o
    → f.side ≡ sell
    → Moves f a (settle_sale f o a)
unfolding settle_sale
settle_sale-Moves f none a found side = refl
settle_sale-Moves f (some p) a found side = elim (Bool-cases (le f.qty nought)) [
  | inl empty ↦ rw empty refl
  | inr some_qty ↦ elim (Bool-cases (le f.qty p.qty)) [
    | inr short ↦ rw (some_qty, short) refl
    | inl covered ↦
        rw (some_qty, covered)
          (sold-Moves f p a (fee_share f p) refl found side (rw some_qty) covered)
  ]
]

sell_by_side-Moves :
    (side : Side) (f : PaperFill) (a : PortfolioAccount)
    → f.side ≡ side
    → Moves f a (sell_by_side side f a)
sell_by_side-Moves buy f a e = refl
sell_by_side-Moves sell f a e = settle_sale-Moves f (lookup f.symbol a.positions) a refl e

-- A sale that raises leaves the account as it was. One that returns a gain was a sell of a
-- positive quantity, no more than was held. The gain is the proceeds less the cost of the sold
-- quantity at the average price, its part of the paid fees and the fee of the sale. The sale pays
-- the proceeds less its fee into the cash, adds the gain to the total, and leaves every other
-- symbol alone. It leaves the rest of the quantity and of the fees, at the same average price, if
-- the rest of the quantity is positive, and else removes the position.
pub apply_sell_fill-Moves : (f : PaperFill) (a : PortfolioAccount) → Moves f a (apply_sell_fill f a)
unfolding apply_sell_fill
apply_sell_fill-Moves f a = sell_by_side-Moves f.side f a refl

fee_share_total :
    (f : PaperFill) (p : Position) → IsPos p.qty → (share : Decimal) × (fee_share f p ≡ ok share)
unfolding fee_share
fee_share_total f p h =
    let (part, e) = div_total f.qty p.qty h in
    elim (Bool-cases (lt nought p.fees_paid_usdt)) [
      | inl charged ↦ rw (charged, e) (_, refl)
      | inr free ↦ rw free (_, refl)
    ]

settle_sale_total :
    (f : PaperFill) (p : Position) (a : PortfolioAccount)
    → lt nought f.qty ≡ true
    → le f.qty p.qty ≡ true
    → (pnl : Decimal) × ((settle_sale f (some p) a).1 ≡ ok pnl)
unfolding settle_sale
settle_sale_total f p a some_qty covered =
    let nonempty : le f.qty nought ≡ false = ground arith in
    let held : lt nought p.qty ≡ true = ground (arith, le_trans f.qty p.qty nought) in
    let (share, e) = fee_share_total f p (IsPos-of_lt p.qty held) in
    rw (nonempty, covered, e) (_, refl)

-- A sell of a positive quantity that is held returns: it does not raise.
pub apply_sell_fill_total :
    (f : PaperFill) (a : PortfolioAccount) (p : Position)
    → f.side ≡ sell
    → lookup f.symbol a.positions ≡ some p
    → lt nought f.qty ≡ true
    → le f.qty p.qty ≡ true
    → (pnl : Decimal) × ((apply_sell_fill f a).1 ≡ ok pnl)
unfolding apply_sell_fill
apply_sell_fill_total f a p side found some_qty covered =
    let (pnl, e) = settle_sale_total f p a some_qty covered in
    (
      pnl,
      ap (λ (s : Side). (sell_by_side s f a).1) side
          ∙ ap (λ (o : Option Position). (settle_sale f o a).1) found
          ∙ e,
    )
