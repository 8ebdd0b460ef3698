-- ===== src/Dashboard/Books/Distinct.antt =====
-- The local books of the status page have one position for a symbol.
use mathlib.Core.Path.{subst}
use crypto_ai_trader.Base.{
  ◌≡◌, refl, arith, inl, inr, String, List, [], ◌∷◌, Option, none, some, false, Bool-cases, Result,
  ok, err, ◌>>=◌, str_eq, str_eq_iff,
}
use crypto_ai_trader.Base.Dict.{Dict, lookup, insert, erase, lookup-insert}
use crypto_ai_trader.Decimal.{nought, le, add, sub}
use crypto_ai_trader.Strategies.Base.{Side, buy, sell}
use crypto_ai_trader.Execution.PaperExecutor.{PaperFill}
use crypto_ai_trader.Runtime.Reconciliation.{PositionSnapshot}
use crypto_ai_trader.Dashboard.Books.{
  Books, snapshot, average_price, put_position, book_buy, book_sale, book_by_side, book_fills,
}

-- No key comes twice.
abbrev pub Distinct : Dict PositionSnapshot → Type 0
Distinct [] = Unit {0}
Distinct ((k, v) ∷ d) = (lookup k d ≡ none) × Distinct d

-- Where a result is returned, its books have distinct symbols.
abbrev YieldsDistinct : Result Books → Type 0
YieldsDistinct (err why) = Unit {0}
YieldsDistinct (ok b) = Distinct b.positions

bind-YieldsDistinct {ℓ} :
    {A : Type ℓ} (r : Result A) (f : A → Result Books)
    → ((a : A) → YieldsDistinct (f a))
    → YieldsDistinct (r >>= f)
bind-YieldsDistinct (err why) f h = tt
bind-YieldsDistinct (ok a) f h = h a

then-YieldsDistinct :
    (r : Result Books) (f : Books → Result Books)
    → YieldsDistinct r
    → ((b : Books) → Distinct b.positions → YieldsDistinct (f b))
    → YieldsDistinct (r >>= f)
then-YieldsDistinct (err why) f done h = tt
then-YieldsDistinct (ok b) f done h = h b done

lookup-insert_other :
    (k j : String) (v : PositionSnapshot) (d : Dict PositionSnapshot)
    → str_eq k j ≡ false
    → lookup j d ≡ none
    → lookup j (insert k v d) ≡ none
lookup-insert_other k j v d other free = rw (lookup-insert k j v d) (rw other free)

lookup-erase_free :
    (k j : String) (d : Dict PositionSnapshot) → lookup j d ≡ none → lookup j (erase k d) ≡ none
unfolding lookup erase
lookup-erase_free k j [] free = refl
lookup-erase_free k j ((i, w) ∷ d) free =
    ground (arith, str_eq_iff k j, str_eq_iff i k, str_eq_iff i j, lookup-erase_free k j d)

insert-Distinct :
    (k : String) (v : PositionSnapshot) (d : Dict PositionSnapshot)
    → Distinct d
    → Distinct (insert k v d)
unfolding insert lookup
insert-Distinct k v [] h = (refl, tt)
insert-Distinct k v ((i, w) ∷ d) (free, h) = elim (Bool-cases (str_eq i k)) [
  | inl same ↦ rw same (free, h)
  | inr other ↦ rw other (
    lookup-insert_other k i v d (ground (arith, str_eq_iff k i, str_eq_iff i k)) free,
    insert-Distinct k v d h,
  )
]

erase-Distinct : (k : String) (d : Dict PositionSnapshot) → Distinct d → Distinct (erase k d)
unfolding erase
erase-Distinct k [] h = tt
erase-Distinct k ((i, w) ∷ d) (free, h) = elim (Bool-cases (str_eq i k)) [
  | inl same ↦ rw same h
  | inr other ↦ rw other (lookup-erase_free k i d free, erase-Distinct k d h)
]

book_buy-Distinct :
    (f : PaperFill) (o : Option PositionSnapshot) (b : Books)
    → Distinct b.positions
    → YieldsDistinct (book_buy f o b)
unfolding book_buy
book_buy-Distinct f none b h =
    insert-Distinct f.symbol (snapshot f.symbol f.qty f.price) b.positions h
book_buy-Distinct f (some p) b h =
    bind-YieldsDistinct (average_price f p)
      (λ average. ok (put_position f.symbol (snapshot f.symbol (add p.qty f.qty) average) b))
      (λ average.
        insert-Distinct f.symbol (snapshot f.symbol (add p.qty f.qty) average) b.positions h)

book_sale-Distinct :
    (f : PaperFill) (o : Option PositionSnapshot) (b : Books)
    → Distinct b.positions
    → Distinct (book_sale f o b).positions
unfolding book_sale
book_sale-Distinct f none b h = h
book_sale-Distinct f (some p) b h = elim (Bool-cases (le (sub p.qty f.qty) nought)) [
  | inl closed ↦ rw closed (erase-Distinct f.symbol b.positions h)
  | inr kept ↦ rw kept (
      insert-Distinct f.symbol (snapshot f.symbol (sub p.qty f.qty) p.avg_entry_price) b.positions
        h)
]

book_by_side-Distinct :
    (side : Side) (f : PaperFill) (b : Books)
    → Distinct b.positions
    → YieldsDistinct (book_by_side side f b)
book_by_side-Distinct buy f b h = book_buy-Distinct f (lookup f.symbol b.positions) _ h
book_by_side-Distinct sell f b h = book_sale-Distinct f (lookup f.symbol b.positions) _ h

book_fills-YieldsDistinct :
    (fills : List PaperFill) (b : Books)
    → Distinct b.positions
    → YieldsDistinct (book_fills fills b)
unfolding book_fills
book_fills-YieldsDistinct [] b h = h
book_fills-YieldsDistinct (f ∷ fs) b h =
    then-YieldsDistinct (book_by_side f.side f b) (λ next. book_fills fs next)
      (book_by_side-Distinct f.side f b h) (λ next. book_fills-YieldsDistinct fs next)

-- Books of distinct symbols stay so over any fills.
pub book_fills-Distinct :
    (fills : List PaperFill) (b after : Books)
    → Distinct b.positions
    → book_fills fills b ≡ ok after
    → Distinct after.positions
book_fills-Distinct fills b after h done =
    subst YieldsDistinct done (book_fills-YieldsDistinct fills b h)
