-- ===== src/Portfolio/Accounting/Quantities.antt =====
-- Fills keep held quantities positive, and sell no more than is held.
use crypto_ai_trader.Base.{List, [], ◌∷◌, All, ◌≡◌, refl, arith, true, some, Result, ok, err, ◌>>=◌}
use crypto_ai_trader.Base.Dict.{Dict, lookup}
use crypto_ai_trader.Decimal.{Decimal, nought, le, lt, sub, IsPos, IsPos-of_lt, add-IsPos}
use crypto_ai_trader.Strategies.Base.{Side, buy, sell}
use crypto_ai_trader.Execution.PaperExecutor.{PaperFill}
use crypto_ai_trader.Portfolio.Accounting.{
  Position, PortfolioAccount, replay, apply_fill, apply_sell_fill, fill_by_side, unless_raised,
}
use crypto_ai_trader.Portfolio.Accounting.Kept.{Holds, replay-Holds}
use crypto_ai_trader.Portfolio.Accounting.Trades.{Moves, apply_sell_fill-Moves}

-- Every held quantity is positive.
abbrev pub IsHeld : Dict Position → Type 0
IsHeld ps = Holds (λ p. IsPos p.qty) ps

-- Each sale among the fills, at its turn, sells a held position, and no more than is held.
abbrev pub IsCovered : List PaperFill → PortfolioAccount → Type 0
IsCovered [] a = Unit {0}
IsCovered (f ∷ fs) a =
    ((f.side ≡ sell)
      → (p : Position) × (lookup f.symbol a.positions ≡ some p) × (le f.qty p.qty ≡ true))
    × IsCovered fs (apply_fill f a).0

replay-positive :
    (fills : List PaperFill) (a : PortfolioAccount)
    → All (λ f. lt nought f.qty ≡ true) fills
    → IsHeld a.positions
    → IsHeld (replay fills a).0.positions
replay-positive =
    replay-Holds (λ p. IsPos p.qty) (λ f. lt nought f.qty ≡ true) (λ f h. IsPos-of_lt f.qty h)
      (λ f p h held. add-IsPos p.qty f.qty held (IsPos-of_lt f.qty h).0)
      (λ f p average fees h held. add-IsPos p.qty f.qty held (IsPos-of_lt f.qty h).0)
      (λ f p fees kept held. IsPos-of_lt (sub p.qty f.qty) (rw kept))

moved_quantity :
    (f : PaperFill) (a : PortfolioAccount) (o : PortfolioAccount × Result Decimal)
    → Moves f a o
    → (o.1 >>= λ pnl. ok (tt {0})) ≡ ok tt
    → (p : Position) × (lookup f.symbol a.positions ≡ some p) × (le f.qty p.qty ≡ true)
moved_quantity f a (after, ok pnl)
      (p, share, found, fees, gain, side, some_qty, covered, cash, total, others, left, closed) e =
    (p, found, covered)
moved_quantity f a (after, err why) same e = absurd (ground arith)

sold_quantity :
    (side : Side) (f : PaperFill) (a : PortfolioAccount)
    → side ≡ sell
    → (fill_by_side side f a).1 ≡ ok tt
    → (p : Position) × (lookup f.symbol a.positions ≡ some p) × (le f.qty p.qty ≡ true)
sold_quantity buy f a e accepted = absurd (ground arith)
sold_quantity sell f a e accepted =
    moved_quantity f a (apply_sell_fill f a) (apply_sell_fill-Moves f a) accepted

unless_raised-ok :
    (r : Result (Unit {0})) (stopped rest : PortfolioAccount × Result (Unit {0}))
    → (unless_raised r stopped rest).1 ≡ ok tt
    → stopped.1 ≡ r
    → (r ≡ ok tt) × (rest.1 ≡ ok tt)
unless_raised-ok (ok v) stopped rest h e = (refl, h)
unless_raised-ok (err why) stopped rest h e = absurd (ground arith)

replay-IsCovered :
    (fills : List PaperFill) (a : PortfolioAccount) → (replay fills a).1 ≡ ok tt → IsCovered fills a
unfolding replay apply_fill
replay-IsCovered [] a h = tt
replay-IsCovered (f ∷ fs) a h =
    let done = apply_fill f a in
    let (accepted, rest) = unless_raised-ok done.1 done (replay fs done.0) h refl in
    (λ side. sold_quantity f.side f a side accepted, replay-IsCovered fs done.0 rest)

-- Fills of positive quantity, applied in any order until one raises, keep every held quantity
-- positive. If none raises, each sale among them sold a position that was held at its turn, and no
-- more than was held.
pub replay-IsHeld :
    (fills : List PaperFill) (a : PortfolioAccount)
    → All (λ f. lt nought f.qty ≡ true) fills
    → IsHeld a.positions
    → IsHeld (replay fills a).0.positions × (((replay fills a).1 ≡ ok tt) → IsCovered fills a)
replay-IsHeld fills a positive held =
    (replay-positive fills a positive held, replay-IsCovered fills a)
