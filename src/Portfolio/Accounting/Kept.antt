-- ===== src/Portfolio/Accounting/Kept.antt =====
-- What holds of every position of an account, over any fills: a section over a predicate that each
-- change of a position keeps.
use crypto_ai_trader.Base.{
  String, List, [], ◌∷◌, All, Option, none, some, Bool-cases, inl, inr, ◌≡◌, false, ok, err, Result,
  arith, refl, str_eq,
}
use crypto_ai_trader.Base.Dict.{Dict, lookup, insert, erase}
use crypto_ai_trader.Decimal.{Decimal, nought, le, lt, add, sub, mul, div}
use crypto_ai_trader.Strategies.Base.{Side, buy, sell}
use crypto_ai_trader.Execution.PaperExecutor.{PaperFill}
use crypto_ai_trader.Portfolio.Accounting.{
  Position, PortfolioAccount, position_is_valid, opened, average_in, open_or_grow, pay,
  apply_buy_fill, fee_share, reduce, sold, finish_sale, settle_sale, apply_sell_fill, fill_by_side,
  apply_fill, unless_raised, replay,
}

abbrev pub Holds : (Position → Type 0) → Dict Position → Type 0
Holds P [] = Unit {0}
Holds P ((symbol, p) ∷ ps) = P p × Holds P ps

pub lookup-Holds :
    (P : Position → Type 0) (symbol : String) (ps : Dict Position) {p : Position}
    → Holds P ps
    → lookup symbol ps ≡ some p
    → P p
unfolding lookup
lookup-Holds P symbol [] hs e = absurd (ground arith)
lookup-Holds P symbol ((k, v) ∷ ps) (hv, hs) e = elim (Bool-cases (str_eq k symbol)) [
  | inl same ↦ ground arith
  | inr other ↦ lookup-Holds P symbol ps hs (rw other at e)
]

module _ (P : Position → Type 0) (Q : PaperFill → Type 0)
    (opens : (f : PaperFill) → Q f → P (opened f))
    (grows : (f : PaperFill) (p : Position) → Q f → P p → P (record p { qty = add p.qty f.qty }))
    (averages : (f : PaperFill) (p : Position) (average fees : Decimal)
      → Q f
      → P p
      → P (record p { qty = add p.qty f.qty; avg_entry_price = average; fees_paid_usdt = fees }))
    (shrinks : (f : PaperFill) (p : Position) (fees : Decimal)
      → le (sub p.qty f.qty) nought ≡ false
      → P p
      → P (record p { qty = sub p.qty f.qty; fees_paid_usdt = fees })) where
  insert-Holds :
      (symbol : String) (p : Position) (ps : Dict Position)
      → P p
      → Holds P ps
      → Holds P (insert symbol p ps)
  unfolding insert
  insert-Holds symbol p [] h hs = (h, tt)
  insert-Holds symbol p ((k, v) ∷ ps) h (hv, hs) = elim (Bool-cases (str_eq k symbol)) [
    | inl same ↦ rw same (h, hs)
    | inr other ↦ rw other (hv, insert-Holds symbol p ps h hs)
  ]

  erase-Holds : (symbol : String) (ps : Dict Position) → Holds P ps → Holds P (erase symbol ps)
  unfolding erase
  erase-Holds symbol [] hs = tt
  erase-Holds symbol ((k, v) ∷ ps) (hv, hs) = elim (Bool-cases (str_eq k symbol)) [
    | inl same ↦ rw same hs
    | inr other ↦ rw other (hv, erase-Holds symbol ps hs)
  ]

  average_in-Holds :
      (f : PaperFill) (p : Position) (a : PortfolioAccount) (r : Result Decimal)
      → Q f
      → P p
      → Holds P a.positions
      → Holds P (average_in f p a r).0.positions
  average_in-Holds f p a (err e) h held hs =
      insert-Holds f.symbol _ a.positions (grows f p h held) hs
  average_in-Holds f p a (ok average) h held hs =
      insert-Holds f.symbol _ a.positions
        (averages f p average (add p.fees_paid_usdt f.fee_usdt) h held) hs

  open_or_grow-Holds :
      (f : PaperFill) (o : Option Position) (a : PortfolioAccount)
      → Q f
      → ((p : Position) → o ≡ some p → P p)
      → Holds P a.positions
      → Holds P (open_or_grow f o a).0.positions
  unfolding open_or_grow
  open_or_grow-Holds f (some p) a h held hs =
      average_in-Holds f p a
        (div (add (mul p.qty p.avg_entry_price) (mul f.qty f.price)) (add p.qty f.qty)) h
        (held p refl) hs
  open_or_grow-Holds f none a h held hs = elim (Bool-cases (position_is_valid (opened f))) [
    | inl valid ↦ rw valid (insert-Holds f.symbol (opened f) a.positions (opens f h) hs)
    | inr invalid ↦ rw invalid hs
  ]

  reduce-Holds :
      (f : PaperFill) (p : Position) (share : Decimal) (ps : Dict Position)
      → P p
      → Holds P ps
      → Holds P (reduce f p share ps)
  unfolding reduce
  reduce-Holds f p share ps held hs = elim (Bool-cases (le (sub p.qty f.qty) nought)) [
    | inl closed ↦ rw closed (erase-Holds f.symbol ps hs)
    | inr kept ↦
        rw kept (insert-Holds f.symbol _ ps (shrinks f p (sub p.fees_paid_usdt share) kept held) hs)
  ]

  finish_sale-Holds :
      (f : PaperFill) (p : Position) (a : PortfolioAccount) (share : Result Decimal)
      → P p
      → Holds P a.positions
      → Holds P (finish_sale f p a share).0.positions
  unfolding sold
  finish_sale-Holds f p a (err e) held hs = hs
  finish_sale-Holds f p a (ok share) held hs = reduce-Holds f p share a.positions held hs

  settle_sale-Holds :
      (f : PaperFill) (o : Option Position) (a : PortfolioAccount)
      → ((p : Position) → o ≡ some p → P p)
      → Holds P a.positions
      → Holds P (settle_sale f o a).0.positions
  unfolding settle_sale
  settle_sale-Holds f none a held hs = hs
  settle_sale-Holds f (some p) a held hs = elim (Bool-cases (le f.qty nought)) [
    | inl empty ↦ rw empty hs
    | inr some_qty ↦ elim (Bool-cases (lt p.qty f.qty)) [
      | inl short ↦ simp (some_qty, short) hs
      | inr covered ↦
          simp (some_qty, covered) (finish_sale-Holds f p a (fee_share f p) (held p refl) hs)
    ]
  ]

  fill_by_side-Holds :
      (side : Side) (f : PaperFill) (a : PortfolioAccount)
      → side ≡ f.side
      → Q f
      → Holds P a.positions
      → Holds P (fill_by_side side f a).0.positions
  unfolding apply_buy_fill apply_sell_fill
  fill_by_side-Holds buy f a e h hs = simp (← e) (
      open_or_grow-Holds f (lookup f.symbol a.positions) (pay f a) h
        (λ p found. lookup-Holds P f.symbol a.positions hs found) hs)
  fill_by_side-Holds sell f a e h hs = simp (← e) (
      settle_sale-Holds f (lookup f.symbol a.positions) a
        (λ p found. lookup-Holds P f.symbol a.positions hs found) hs)

  apply_fill-Holds :
      (f : PaperFill) (a : PortfolioAccount)
      → Q f
      → Holds P a.positions
      → Holds P (apply_fill f a).0.positions
  unfolding apply_fill
  apply_fill-Holds f a h hs = fill_by_side-Holds f.side f a refl h hs

  unless_raised-Holds :
      (r : Result (Unit {0})) (stopped rest : PortfolioAccount × Result (Unit {0}))
      → Holds P stopped.0.positions
      → Holds P rest.0.positions
      → Holds P (unless_raised r stopped rest).0.positions
  unless_raised-Holds (err e) stopped rest hs hr = hs
  unless_raised-Holds (ok u) stopped rest hs hr = hr

  -- Fills that satisfy `Q`, applied until one raises, keep `P` of every position.
  pub replay-Holds :
      (fills : List PaperFill) (a : PortfolioAccount)
      → All Q fills
      → Holds P a.positions
      → Holds P (replay fills a).0.positions
  unfolding replay
  replay-Holds [] a h hs = hs
  replay-Holds (f ∷ fs) a (h, rest) hs =
      let done = apply_fill-Holds f a h hs in
      unless_raised-Holds (apply_fill f a).1 (apply_fill f a) (replay fs (apply_fill f a).0) done
        (replay-Holds fs (apply_fill f a).0 rest done)
