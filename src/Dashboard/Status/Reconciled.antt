-- ===== src/Dashboard/Status/Reconciled.antt =====
-- When the status page says that the reconciliation matched.
use mathlib.Core.Path.{subst}
use crypto_ai_trader.Base.{
  ◌≡◌, ◌↔◌, refl, sym, ap, ◌∙◌, arith, inl, inr, String, List, [], ◌∷◌, map, Option, none, some,
  true, false, Bool-cases, Result, ok, ◌>>=◌, str_eq, str_eq_iff,
}
use crypto_ai_trader.Base.Dict.{Dict, lookup, insert, lookup-insert}
use crypto_ai_trader.Decimal.{Decimal, dec, nought, le, lt, add, sub, abs}
use crypto_ai_trader.Strategies.Base.{Time}
use crypto_ai_trader.Portfolio.Accounting.{Position, PortfolioAccount, replay}
use crypto_ai_trader.Runtime.Runner.Inputs.{account_of}
use crypto_ai_trader.Runtime.Reconciliation.{
  matched, BalanceSnapshot, PositionSnapshot, index_by, quantity_of, total_usdt,
  ReconciliationStatus, default_thresholds,
}
use crypto_ai_trader.Runtime.Reconciliation.Matching.{
  BalancesMatch, PositionsMatch, run_reconciliation-matched_iff,
}
use crypto_ai_trader.Dashboard.Risk.{initial_cash}
use crypto_ai_trader.Dashboard.Books.{Books}
use crypto_ai_trader.Dashboard.Books.Shown.{
  shown, shown_positions, shown_if, shown_books, lookup-shown_positions,
}
use crypto_ai_trader.Dashboard.Books.Distinct.{Distinct, book_fills-Distinct}
use crypto_ai_trader.Dashboard.Books.Mirror.{book_fills-replay}
use crypto_ai_trader.Dashboard.Status.{
  StatusRows, mock_balances, reconcile, status_from, or_unavailable, read_runtime_status,
}

-- The account agrees with the mock of the exchange: its cash with 500 USDT up to 1, and every
-- position with nothing up to 0.0001.
pub MatchesMock : PortfolioAccount → Type 0
MatchesMock a =
    (lt (dec 10 1) (abs (sub (add a.cash_balance nought) (add (dec 5000 1) nought))) ≡ false)
    × ((symbol : String) (p : Position)
        → lookup symbol a.positions ≡ some p
        → lt (dec 1 4) (abs (sub p.qty nought)) ≡ false)

abbrev over : Option PositionSnapshot → Option PositionSnapshot → Option PositionSnapshot
over none o = o
over (some p) o = some p

abbrev listed : Dict Position → List PositionSnapshot
listed d = map (λ entry. entry.1) (shown_positions d)

lookup-index_by :
    (symbol : String) (d : Dict Position) (acc : Dict PositionSnapshot)
    → Distinct (shown_positions d)
    → lookup symbol (index_by PositionSnapshot.symbol (listed d) acc)
      ≡ over (lookup symbol (shown_positions d)) (lookup symbol acc)
unfolding lookup shown_positions index_by
lookup-index_by symbol [] acc h = refl
lookup-index_by symbol ((k, p) ∷ d) acc (free, h) =
    let rest = lookup-index_by symbol d (insert k (shown k p) acc) h in
    let placed = lookup-insert k symbol (shown k p) acc in
    elim (Bool-cases (str_eq k symbol)) [
      | inl same ↦
          let gone =
            ap (λ s. lookup s (shown_positions d)) (sym ((str_eq_iff k symbol).0 same)) ∙ free in
          rw same (rest ∙ (rw gone (placed ∙ (rw same refl))))
      | inr other ↦ rw other (rest ∙ (rw placed (rw other refl)))
    ]

usdt_matches_iff :
    (cash : Decimal)
    → let here =
        index_by BalanceSnapshot.asset
          (record { asset = "USDT"; free = cash; locked = nought } ∷ [])
          [] in
      let there = index_by BalanceSnapshot.asset mock_balances [] in
      ((asset : String) → BalancesMatch default_thresholds here there asset)
      ↔ (lt (dec 10 1) (abs (sub (add cash nought) (add (dec 5000 1) nought))) ≡ false)
unfolding index_by insert lookup total_usdt le sub abs
usdt_matches_iff cash = (
  λ h. h "USDT",
  λ h asset. elim (Bool-cases (str_eq "USDT" asset)) [
    | inl same ↦ rw same h
    | inr other ↦ rw other refl
  ],
)

held_matches_iff :
    (symbol : String) (o : Option Position)
    → (lt (dec 1 4) (abs (sub (quantity_of (over (shown_if symbol o) none)) nought)) ≡ false)
      ↔ ((p : Position) → o ≡ some p → lt (dec 1 4) (abs (sub p.qty nought)) ≡ false)
unfolding le sub abs
held_matches_iff symbol none = (λ h p e. absurd (ground arith), λ h. refl)
held_matches_iff symbol (some p) = (
  λ h q e.
      subst
        (λ (o : Option Position).
          lt (dec 1 4) (abs (sub (quantity_of (over (shown_if symbol o) none)) nought)) ≡ false)
        e h,
  λ h. h p refl,
)

PositionsMatch-iff :
    (d : Dict Position)
    → Distinct (shown_positions d)
    → ((symbol : String)
        → PositionsMatch default_thresholds
            (index_by PositionSnapshot.symbol (listed d) [])
            []
            symbol)
      ↔ ((symbol : String) (p : Position)
          → lookup symbol d ≡ some p
          → lt (dec 1 4) (abs (sub p.qty nought)) ≡ false)
unfolding lookup
PositionsMatch-iff d h =
    let gap : Option PositionSnapshot → Type 0 =
      λ o. lt (dec 1 4) (abs (sub (quantity_of o) nought)) ≡ false in
    let held = λ (symbol : String).
      lookup-index_by symbol d [] h ∙ ap (λ o. over o none) (lookup-shown_positions symbol d) in
    (
      λ f symbol.
          (held_matches_iff symbol (lookup symbol d)).0 (subst gap (held symbol) (f symbol)),
      λ f symbol.
          subst gap (sym (held symbol)) ((held_matches_iff symbol (lookup symbol d)).1 (f symbol)),
    )

reconcile-matched_iff :
    (a : PortfolioAccount)
    → Distinct (shown_positions a.positions)
    → ((reconcile (shown_books a)).status ≡ matched) ↔ MatchesMock a
unfolding reconcile index_by MatchesMock le
reconcile-matched_iff a h =
    let usdt : List BalanceSnapshot =
      record { asset = "USDT"; free = a.cash_balance; locked = nought } ∷ [] in
    let whole =
      run_reconciliation-matched_iff default_thresholds refl refl (ground arith) usdt
        (listed a.positions) mock_balances [] in
    let cash = usdt_matches_iff a.cash_balance in
    let coins = PositionsMatch-iff a.positions h in
    (λ m. let (b, p) = whole.0 m in (cash.0 b, coins.0 p), λ (b, p). whole.1 (cash.1 b, coins.1 p))

-- Where the rows are read and the portfolio accepts the recorded fills, the status page reports the
-- reconciliation as matched exactly when the account's cash is within 1 of 500 USDT and every open
-- position is of at most 0.0001, whatever the exchange holds.
pub read_runtime_status-matched_iff :
    (now : Time) (rows : StatusRows) (after : PortfolioAccount)
    → replay rows.fills (account_of initial_cash) ≡ (after, ok tt)
    → ((read_runtime_status true now (ok rows)).reconciliation_status ≡ matched) ↔ MatchesMock after
unfolding read_runtime_status shown_positions
read_runtime_status-matched_iff now rows after accepted =
    let start = account_of initial_cash in
    let booked = book_fills-replay rows.fills start after accepted in
    let apart = book_fills-Distinct rows.fills (shown_books start) (shown_books after) tt booked in
    let status : Result Books → ReconciliationStatus = λ r.
      (or_unavailable (r >>= λ books. ok (status_from now rows books))).reconciliation_status in
    subst (λ (s : ReconciliationStatus). (s ≡ matched) ↔ MatchesMock after) (sym (ap status booked))
      (reconcile-matched_iff after apart)
