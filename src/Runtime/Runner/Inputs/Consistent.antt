-- ===== src/Runtime/Runner/Inputs/Consistent.antt =====
-- What holds of the inputs of an iteration.
use mathlib.Core.List.{reverse, reverse-cons}
use crypto_ai_trader.Base.{
  ℕ, zero, suc, ◌+◌, ◌-◌, ◌*◌, ◌≤◌, ◌≡◌, refl, ap, arith, inl, inr, String, List, [], ◌∷◌, map,
  none, some, Bool-cases, true, false, Result, ok, err, >>=-eq-ok, ok_inj, length, length-drop,
  take, All, str_eq, str_eq_iff, Option-cases, length-append, Bool,
}
use crypto_ai_trader.Base.Dict.{Dict, lookup, insert, lookup-insert}
use crypto_ai_trader.Decimal.{Decimal, le, lt, max_of, le_refl, not_le→le}
use crypto_ai_trader.Strategies.Base.{Time}
use crypto_ai_trader.Execution.PaperExecutor.{PaperFill}
use crypto_ai_trader.Portfolio.Accounting.{
  Position, PortfolioAccount, replay, price_or, total_equity,
}
use crypto_ai_trader.Portfolio.Accounting.Kept.{Holds}
use crypto_ai_trader.Portfolio.Accounting.Stops.{HasNoStop, lookup-HasNoStop, replay-HasNoStop}
use crypto_ai_trader.Runtime.PaperCycle.{CycleInput}
use crypto_ai_trader.Runtime.Runner.Baseline.{
  date_of, day_length, BaselineSet, get_or_create_day_baseline,
}
use crypto_ai_trader.Runtime.Runner.Inputs.{
  OrderRow, Tables, market_prices, percent_of, orders_since, count_of, trade_counts, recent_fills,
  consecutive_losses, value_of, Snapshot, inputs_for, account_of, snapshot_of, with_baseline,
  with_orders, with_total, with_account, build_cycle_inputs,
}

max_of-ge_right : (a b : Decimal) → le b (max_of a b) ≡ true
unfolding max_of
max_of-ge_right a b = ground (arith, le_refl b, not_le→le b a)

length-take {ℓ} : {A : Type ℓ} (n : ℕ) (xs : List A) → length (take n xs) ≤ n
length-take zero xs = omega arith
length-take (suc n) [] = omega arith
length-take (suc n) (x ∷ xs) = omega (arith, length-take n xs)

length-orders_since :
    (keeps_zones : Bool) (start : Time) (os : List OrderRow) {today : List OrderRow}
    → orders_since keeps_zones start os ≡ ok today
    → length today ≤ length os
unfolding orders_since
length-orders_since true start [] h = rw (← ok_inj h) (omega arith)
length-orders_since true start (o ∷ os) h =
    let (rest, e, h₁) = >>=-eq-ok (orders_since true start os) _ h in
    let ih = length-orders_since true start os e in rw (← ok_inj h₁) (ground arith)
length-orders_since false start [] h = rw (← ok_inj h) (omega arith)
length-orders_since false start (o ∷ os) h = absurd (ground arith)

count-insert :
    (symbol other : String) (counts : Dict ℕ)
    → count_of (lookup symbol (insert other (count_of (lookup other counts) + 1) counts))
      ≤ count_of (lookup symbol counts) + 1
count-insert symbol other counts =
    rw (lookup-insert other symbol (count_of (lookup other counts) + 1) counts)
      (elim (Bool-cases (str_eq other symbol)) [
        | inl same ↦
            let equal : other ≡ symbol = (str_eq_iff other symbol).0 same in
            rw (same, equal) (omega arith)
        | inr differs ↦ rw differs (omega arith)
      ])

trade_counts-le :
    (symbol : String) (os : List OrderRow) (counts : Dict ℕ)
    → count_of (lookup symbol (trade_counts os counts))
      ≤ count_of (lookup symbol counts) + length os
unfolding trade_counts
trade_counts-le symbol [] counts = omega arith
trade_counts-le symbol (o ∷ os) counts = omega (
  arith,
  trade_counts-le symbol os (insert o.symbol (count_of (lookup o.symbol counts) + 1) counts),
  count-insert symbol o.symbol counts,
)

consecutive_losses-le :
    (prices : Dict Decimal) (positions : Dict Position) (fs : List PaperFill) (n : ℕ)
    → consecutive_losses prices positions fs n ≤ n + length fs
unfolding consecutive_losses
consecutive_losses-le prices positions [] n = omega arith
consecutive_losses-le prices positions (f ∷ fs) n =
    elim (Option-cases (lookup f.symbol positions)) [
      | inl closed ↦
          rw (closed, consecutive_losses)
            (omega (arith, consecutive_losses-le prices positions fs n))
      | inr (p, held) ↦
          rw (held, consecutive_losses)
            (elim (Bool-cases (lt (price_or prices f.symbol p.avg_entry_price) p.avg_entry_price)) [
              | inl losing ↦
                  rw losing (omega (arith, consecutive_losses-le prices positions fs (n + 1)))
              | inr fine ↦ rw fine (omega arith)
            ])
    ]

length-recent_fills : (fills : List PaperFill) → length (recent_fills fills) ≤ 10
length-recent_fills fills = ground (arith, length-drop (length fills - 10) fills)

length-reverse {ℓ} : {A : Type ℓ} (xs : List A) → length (reverse xs) ≡ length xs
length-reverse [] = refl
length-reverse (x ∷ xs) =
    rw (reverse-cons x xs) (omega (arith, length-append (reverse xs) (x ∷ []), length-reverse xs))

-- The bounds of a snapshot.
abbrev IsBounded : Decimal → Time → Snapshot → Type 0
IsBounded cash now s =
    (s.now ≡ now)
    × (le cash s.account_equity ≡ true)
    × ((symbol : String) → count_of (lookup symbol s.trade_counts) ≤ s.daily_order_count)
    × (s.daily_order_count ≤ 1000)
    × (s.consecutive_losses ≤ 10)
    × Holds HasNoStop s.positions

-- What the input of a symbol says, for an iteration at `now` with the initial `cash`.
abbrev pub IsConsistent : Decimal → Time → CycleInput → Type 0
IsConsistent cash now i =
    (i.now ≡ now)
    × (i.kill_switch_enabled ≡ false)
    × (le cash i.account_equity ≡ true)
    × (i.symbol_daily_trade_count ≤ i.daily_order_count)
    × (i.daily_order_count ≤ 1000)
    × (i.consecutive_losses ≤ 10)
    × ((p : Position) → i.current_position ≡ some p → p.stop_reference ≡ none)

inputs_for-IsConsistent :
    (cash : Decimal) (now : Time) (s : Snapshot) (symbols : List String) {inputs : List CycleInput}
    → IsBounded cash now s
    → inputs_for s symbols ≡ ok inputs
    → (map (λ i. i.symbol) inputs ≡ symbols) × All (IsConsistent cash now) inputs
unfolding inputs_for
inputs_for-IsConsistent cash now s [] {inputs} bounded h = rw (← ok_inj h) (refl, tt)
inputs_for-IsConsistent cash now s (symbol ∷ symbols) {inputs} bounded h =
    let (pct, _, h₁) =
      >>=-eq-ok (percent_of (value_of (lookup symbol s.position_values)) s.account_equity) _ h in
    let (rest, e, h₂) = >>=-eq-ok (inputs_for s symbols) _ h₁ in
    let (named, consistent) = inputs_for-IsConsistent cash now s symbols bounded e in
    let (at, rich, counted, few, losses, unstopped) = bounded in
    rw (← ok_inj h₂) (
      ap (λ names. symbol ∷ names) named,
      (
        (
          at,
          refl,
          rich,
          counted symbol,
          few,
          losses,
          lookup-HasNoStop symbol s.positions unstopped,
        ),
        consistent,
      ),
    )

module _ (text_of : Decimal → String) (decimal_of : String → Result Decimal) where
  -- What a call that returned inputs shows of them.
  abbrev Builds :
      Decimal → Time → List String → List BaselineSet × Result (List CycleInput) → Type 0
  Builds cash now symbols built =
      (inputs : List CycleInput)
      → built.1 ≡ ok inputs
      → (map (λ i. i.symbol) inputs ≡ symbols) × All (IsConsistent cash now) inputs

  with_baseline-Builds :
      (cash : Decimal) (now : Time) (symbols : List String) (s : Snapshot)
      (baseline : List BaselineSet × Result Decimal)
      → IsBounded cash now s
      → Builds cash now symbols (with_baseline text_of decimal_of symbols s baseline)
  with_baseline-Builds cash now symbols s (log, outcome) bounded inputs h =
      let (b, _, h₁) = >>=-eq-ok outcome _ h in
      inputs_for-IsConsistent cash now (record s { day_start_equity = b }) symbols bounded h₁

  with_orders-Builds :
      (t : Tables) (cash : Decimal) (symbols : List String) (now : Time)
      (account : PortfolioAccount) (prices : Dict Decimal) (equity pct : Decimal)
      (log : List BaselineSet) (orders : Result (List OrderRow))
      → le cash equity ≡ true
      → Holds HasNoStop account.positions
      → orders_since t.keeps_zones (date_of now * day_length) (take 1000 t.orders) ≡ orders
      → Builds cash now symbols
          (with_orders text_of decimal_of t symbols now account prices equity pct log orders)
  unfolding lookup
  with_orders-Builds t cash symbols now account prices equity pct log (err why) rich unstopped e =
      λ inputs h. absurd (ground arith)
  with_orders-Builds t cash symbols now account prices equity pct log (ok today) rich unstopped e =
      let recent = reverse (recent_fills t.fills) in
      with_baseline-Builds cash now symbols
        (snapshot_of t symbols now account prices equity pct today)
        (get_or_create_day_baseline text_of decimal_of now equity log)
        (
          refl,
          rich,
          λ symbol. omega (arith, trade_counts-le symbol today []),
          omega (
            arith,
            length-orders_since t.keeps_zones (date_of now * day_length) (take 1000 t.orders) e,
            length-take 1000 t.orders,
          ),
          omega (
            arith,
            consecutive_losses-le prices account.positions recent 0,
            length-reverse (recent_fills t.fills),
            length-recent_fills t.fills,
          ),
          unstopped,
        )

  with_total-Builds :
      (t : Tables) (cash : Decimal) (symbols : List String) (now : Time)
      (account : PortfolioAccount) (prices : Dict Decimal) (equity : Decimal)
      (log : List BaselineSet) (total : Result Decimal)
      → le cash equity ≡ true
      → Holds HasNoStop account.positions
      → Builds cash now symbols
          (with_total text_of decimal_of t symbols now account prices equity log total)
  with_total-Builds t cash symbols now account prices equity log (err why) rich unstopped =
      λ inputs h. absurd (ground arith)
  with_total-Builds t cash symbols now account prices equity log (ok pct) rich unstopped =
      with_orders-Builds t cash symbols now account prices equity pct log _ rich unstopped refl

  with_account-Builds :
      (t : Tables) (symbols : List String) (now : Time) (cash : Decimal) (log : List BaselineSet)
      (replayed : PortfolioAccount × Result (Unit {0}))
      → Holds HasNoStop replayed.0.positions
      → Builds cash now symbols (with_account text_of decimal_of t symbols now cash log replayed)
  with_account-Builds t symbols now cash log (account, err why) unstopped =
      λ inputs h. absurd (ground arith)
  with_account-Builds t symbols now cash log (account, ok done) unstopped =
      let prices = market_prices t.latest symbols [] in
      with_total-Builds t cash symbols now account prices
        (max_of (total_equity prices account) cash) log _
        (max_of-ge_right (total_equity prices account) cash) unstopped

  -- An iteration whose inputs are built has one input per symbol, in the order of the symbols. Each
  -- is of the iteration's time, has the kill switch off, an equity of at least the initial cash, at
  -- most as many trades of its symbol as of all on the day, at most 1000 of these, a streak of at
  -- most 10 losses, and no stop in its position.
  pub build_cycle_inputs-IsConsistent :
      (t : Tables) (symbols : List String) (now : Time) (cash : Decimal) (log : List BaselineSet)
      {inputs : List CycleInput}
      → (build_cycle_inputs text_of decimal_of t symbols now cash log).1 ≡ ok inputs
      → (map (λ i. i.symbol) inputs ≡ symbols) × All (IsConsistent cash now) inputs
  unfolding build_cycle_inputs
  build_cycle_inputs-IsConsistent t symbols now cash log h =
      with_account-Builds t symbols now cash log (replay t.fills (account_of cash))
        (replay-HasNoStop t.fills (account_of cash) tt) _ h
