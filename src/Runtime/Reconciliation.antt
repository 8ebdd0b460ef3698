-- ===== src/Runtime/Reconciliation.antt =====
-- trading/runtime/reconciliation.py: the comparison of the local books with the exchange's. The
-- keys of both sides are walked local ones first, where the program walks an unordered set; the
-- text of `reason` is left out.
pub mod Matching
pub mod Report
use crypto_ai_trader.Base.{
  ℕ, zero, suc, ◌+◌, String, List, [], ◌∷◌, ◌++◌, map, Option, none, some, Bool, true, false, ◌&&◌,
  if◌then◌else◌, ltb, leb, str_eq,
}
use crypto_ai_trader.Base.Dict.{Dict, lookup, insert}
use crypto_ai_trader.Decimal.{Decimal, dec, nought, lt, add, sub, abs, max_of}

pub data ReconciliationStatus : Type 0 where
  matched balance_mismatch position_mismatch global_pause_recommended : ReconciliationStatus

pub record ReconciliationThresholds : Type 0 where
  pub balance_diff_usdt : Decimal
  pub position_diff_absolute : Decimal
  pub balance_critical_usdt : Decimal
  pub position_critical_count : ℕ

abbrev pub default_thresholds : ReconciliationThresholds
default_thresholds = record {
  balance_diff_usdt = dec 10 1;
  position_diff_absolute = dec 1 4;
  balance_critical_usdt = dec 100 1;
  position_critical_count = 3;
}

pub record ReconciliationResult : Type 0 where
  pub status : ReconciliationStatus
  pub balance_diff_usdt : Decimal
  pub position_diff_count : ℕ

pub record BalanceSnapshot : Type 0 where
  pub asset : String
  pub free : Decimal
  pub locked : Decimal

pub record PositionSnapshot : Type 0 where
  pub symbol : String
  pub qty : Decimal
  pub avg_entry_price : Decimal

unfoldable pub total_usdt : BalanceSnapshot → Decimal
total_usdt b = if str_eq b.asset "USDT" then add b.free b.locked else nought

-- `{key(x): x for x in xs}`: a later entry replaces an earlier one.
unfoldable pub index_by {ℓ} : {A : Type ℓ} → (A → String) → List A → Dict A → Dict A
index_by key [] d = d
index_by key (x ∷ xs) d = index_by key xs (insert (key x) x d)

-- `b.total_usdt if b else Decimal("0")`
abbrev pub balance_of : Option BalanceSnapshot → Decimal
balance_of none = nought
balance_of (some b) = total_usdt b

-- `p.qty if p else Decimal("0")`
abbrev pub quantity_of : Option PositionSnapshot → Decimal
quantity_of none = nought
quantity_of (some p) = p.qty

abbrev pub keep_new {ℓ} : {A : Type ℓ} → String → Option A → List String → List String
keep_new key none keys = key ∷ keys
keep_new key (some x) keys = keys

-- The keys of the second dictionary that the first does not have.
unfoldable pub new_keys {ℓ} : {A : Type ℓ} → Dict A → Dict A → List String
new_keys first [] = []
new_keys first ((key, x) ∷ rest) = keep_new key (lookup key first) (new_keys first rest)

unfoldable pub all_keys {ℓ} : {A : Type ℓ} → Dict A → Dict A → List String
unfolding new_keys
all_keys first second = map (λ entry. entry.0) first ++ new_keys first second

abbrev pub balance_diff : Dict BalanceSnapshot → Dict BalanceSnapshot → String → Decimal
balance_diff here there asset =
    abs (sub (balance_of (lookup asset here)) (balance_of (lookup asset there)))

abbrev pub position_diff : Dict PositionSnapshot → Dict PositionSnapshot → String → Decimal
position_diff here there symbol =
    abs (sub (quantity_of (lookup symbol here)) (quantity_of (lookup symbol there)))

module _ (t : ReconciliationThresholds) where
  -- The loop over the assets: whether one differs, and the largest such difference.
  unfoldable pub compare_balances :
      Dict BalanceSnapshot → Dict BalanceSnapshot → List String → Bool × Decimal → Bool × Decimal
  compare_balances here there [] acc = acc
  compare_balances here there (asset ∷ assets) (mismatch, worst) =
      let diff = balance_diff here there asset in
      compare_balances here there assets
        (if lt t.balance_diff_usdt diff then (true, max_of worst diff) else (mismatch, worst))

  -- The loop over the symbols: whether one differs, and how many do.
  unfoldable pub compare_positions :
      Dict PositionSnapshot → Dict PositionSnapshot → List String → Bool × ℕ → Bool × ℕ
  compare_positions here there [] acc = acc
  compare_positions here there (symbol ∷ symbols) (mismatch, count) =
      compare_positions here there symbols (
        if lt t.position_diff_absolute (position_diff here there symbol)
        then (true, count + 1)
        else (mismatch, count))

  unfoldable pub overall_status : Bool × Decimal → Bool × ℕ → ReconciliationStatus
  overall_status (balances, worst) (positions, count) =
      if balances && lt t.balance_critical_usdt worst
      then global_pause_recommended
      else if leb t.position_critical_count count
      then global_pause_recommended
      else if balances
      then balance_mismatch
      else if positions
      then position_mismatch
      else matched

  abbrev pub summarize : Bool × Decimal → Bool × ℕ → ReconciliationResult
  summarize b p = record {
    status = overall_status b p;
    balance_diff_usdt = b.1;
    position_diff_count = p.1;
  }

  -- The data of the interface are given; the mocks that stand in for missing ones are left out.
  unfoldable pub run_reconciliation :
      List BalanceSnapshot
      → List PositionSnapshot
      → List BalanceSnapshot
      → List PositionSnapshot
      → ReconciliationResult
  run_reconciliation local_balances local_positions interface_balances interface_positions =
      let here = index_by BalanceSnapshot.asset local_balances [] in
      let there = index_by BalanceSnapshot.asset interface_balances [] in
      let held = index_by PositionSnapshot.symbol local_positions [] in
      let seen = index_by PositionSnapshot.symbol interface_positions [] in
      summarize (compare_balances here there (all_keys here there) (false, nought))
        (compare_positions held seen (all_keys held seen) (false, 0))
