-- ===== src/Runtime/Reconciliation/Matching.antt =====
-- When the two sides match.
use crypto_ai_trader.Base.{
  ℕ, ◌+◌, ◌<◌, ◌≡◌, ◌↔◌, ◌⊎◌, inl, inr, refl, ap, ◌∙◌, arith, String, List, [], ◌∷◌, ◌++◌, map, All,
  Option, none, some, Bool, true, false, ltb, str_eq, str_eq_iff, Bool-cases,
}
use crypto_ai_trader.Base.Dict.{Dict, lookup}
use crypto_ai_trader.Decimal.{Decimal, nought, le, lt, sub, abs, max_of}
use crypto_ai_trader.Runtime.Reconciliation.{
  matched, ReconciliationThresholds, BalanceSnapshot, PositionSnapshot, index_by, keep_new,
  new_keys, all_keys, balance_diff, position_diff, compare_balances, compare_positions,
  overall_status, run_reconciliation,
}

All-append {κ} :
    (P : String → Type κ) (xs ys : List String) → All P (xs ++ ys) → All P xs × All P ys
All-append P [] ys h = (tt, h)
All-append P (x ∷ xs) ys (p, h) = let (a, b) = All-append P xs ys h in ((p, a), b)

module _ {A : Type 0} (P : String → Type 0) where
  lookup-held :
      (d : Dict A) (k : String) → All P (map (λ entry. entry.0) d) → (lookup k d ≡ none) ⊎ P k
  unfolding lookup
  lookup-held [] k h = inl refl
  lookup-held ((j, x) ∷ d) k (p, h) = elim (Bool-cases (str_eq j k)) [
    | inl same ↦ inr (rw (← (str_eq_iff j k).0 same) p)
    | inr other ↦ rw other (lookup-held d k h)
  ]

  keep_new-All :
      (key : String) (o : Option A) (keys : List String)
      → All P (keep_new key o keys)
      → All P keys × ((o ≡ none) → P key)
  keep_new-All key none keys (p, h) = (h, λ _. p)
  keep_new-All key (some x) keys h = (h, λ e. absurd (ground arith))

  lookup-new :
      (first d : Dict A) (k : String)
      → All P (new_keys first d)
      → lookup k first ≡ none
      → (lookup k d ≡ none) ⊎ P k
  unfolding lookup new_keys
  lookup-new first [] k h e = inl refl
  lookup-new first ((j, x) ∷ d) k h e =
      let (rest, head) = keep_new-All j (lookup j first) (new_keys first d) h in
      elim (Bool-cases (str_eq j k)) [
        | inl same ↦
            let is_k = (str_eq_iff j k).0 same in
            inr (rw (← is_k) (head (ap (λ (s : String). lookup s first) is_k ∙ e)))
        | inr other ↦ rw other (lookup-new first d k rest e)
      ]

  -- What holds of all keys holds of every key that one side has.
  lookup-all_keys :
      (first second : Dict A) (k : String)
      → All P (all_keys first second)
      → ((lookup k first ≡ none) × (lookup k second ≡ none)) ⊎ P k
  unfolding all_keys
  lookup-all_keys first second k h =
      let (here, there) = All-append P (map (λ entry. entry.0) first) (new_keys first second) h in
      elim (lookup-held first k here) [
        | inr p ↦ inr p
        | inl e ↦ elim (lookup-new first second k there e) [ inr p ↦ inr p | inl f ↦ inl (e, f) ]
      ]

All-of {κ} : (P : String → Type κ) (xs : List String) → ((k : String) → P k) → All P xs
All-of P [] f = tt
All-of P (x ∷ xs) f = (f x, All-of P xs f)

module _ (t : ReconciliationThresholds) where
  -- The USDT amount of an asset, or the quantity of a symbol, differs by at most the threshold.
  abbrev pub BalancesMatch : Dict BalanceSnapshot → Dict BalanceSnapshot → String → Type 0
  BalancesMatch here there asset = lt t.balance_diff_usdt (balance_diff here there asset) ≡ false

  abbrev pub PositionsMatch : Dict PositionSnapshot → Dict PositionSnapshot → String → Type 0
  PositionsMatch here there symbol =
      lt t.position_diff_absolute (position_diff here there symbol) ≡ false

  compare_balances-false :
      (here there : Dict BalanceSnapshot) (assets : List String) (mismatch : Bool) (worst : Decimal)
      → ((compare_balances t here there assets (mismatch, worst)).0 ≡ false)
        ↔ ((mismatch ≡ false) × All (BalancesMatch here there) assets)
  unfolding compare_balances
  compare_balances-false here there [] mismatch worst = ground arith
  compare_balances-false here there (a ∷ assets) mismatch worst =
      let counted =
        compare_balances-false here there assets true (max_of worst (balance_diff here there a)) in
      let ih = compare_balances-false here there assets mismatch worst in
      elim (Bool-cases (lt t.balance_diff_usdt (balance_diff here there a))) [
        | inl far ↦ simp far (λ h. absurd (ground arith), λ h. absurd (ground arith))
        | inr close ↦
            simp close (λ h. let (m, rest) = ih.0 h in (m, (refl, rest)), λ h. ih.1 (h.0, h.1.1))
      ]

  compare_positions-zero :
      (here there : Dict PositionSnapshot) (symbols : List String) (mismatch : Bool) (count : ℕ)
      → let (differ, n) = compare_positions t here there symbols (mismatch, count) in
        (((differ ≡ false) × (n ≡ 0))
          ↔ ((mismatch ≡ false) × (count ≡ 0) × All (PositionsMatch here there) symbols))
  unfolding compare_positions
  compare_positions-zero here there [] mismatch count = ground arith
  compare_positions-zero here there (s ∷ symbols) mismatch count =
      let counted = compare_positions-zero here there symbols true (count + 1) in
      let ih = compare_positions-zero here there symbols mismatch count in
      elim (Bool-cases (lt t.position_diff_absolute (position_diff here there s))) [
        | inl far ↦ simp far (λ h. absurd (ground arith), λ h. absurd (ground arith))
        | inr close ↦
            simp close
              (λ h. let (m, n, rest) = ih.0 h in (m, n, (refl, rest)), λ h. ih.1 (h.0, h.1, h.2.1))
      ]

  -- The flag says whether anything was counted.
  compare_positions-flag :
      (here there : Dict PositionSnapshot) (symbols : List String) (mismatch : Bool) (count : ℕ)
      → mismatch ≡ ltb 0 count
      → let (differ, n) = compare_positions t here there symbols (mismatch, count) in
        differ ≡ ltb 0 n
  unfolding compare_positions
  compare_positions-flag here there [] mismatch count e = e
  compare_positions-flag here there (s ∷ symbols) mismatch count e =
      let counted = compare_positions-flag here there symbols true (count + 1) (ground arith) in
      let ih = compare_positions-flag here there symbols mismatch count e in
      elim (Bool-cases (lt t.position_diff_absolute (position_diff here there s))) [
        | inl far ↦ simp far counted
        | inr close ↦ simp close ih
      ]

  overall_status-matched :
      (differs : Bool) (worst : Decimal) (moved : Bool) (n : ℕ)
      → 0 < t.position_critical_count
      → moved ≡ ltb 0 n
      → (overall_status t (differs, worst) (moved, n) ≡ matched)
        ↔ ((differs ≡ false) × (moved ≡ false) × (n ≡ 0))
  unfolding overall_status
  overall_status-matched differs worst moved n h e = ground arith

  module _ (fair_balance : le nought t.balance_diff_usdt ≡ true)
      (fair_position : le nought t.position_diff_absolute ≡ true) where
    balances-everywhere :
        (here there : Dict BalanceSnapshot)
        → All (BalancesMatch here there) (all_keys here there)
        → (asset : String) → BalancesMatch here there asset
    unfolding abs sub
    balances-everywhere here there h asset =
        elim (lookup-all_keys (BalancesMatch here there) here there asset h) [
          | inr p ↦ p
          | inl (e, f) ↦ rw (e, f) (rw fair_balance)
        ]

    positions-everywhere :
        (here there : Dict PositionSnapshot)
        → All (PositionsMatch here there) (all_keys here there)
        → (symbol : String) → PositionsMatch here there symbol
    unfolding abs sub
    positions-everywhere here there h symbol =
        elim (lookup-all_keys (PositionsMatch here there) here there symbol h) [
          | inr p ↦ p
          | inl (e, f) ↦ rw (e, f) (rw fair_position)
        ]

    -- With thresholds of zero or more, and at least one differing position needed for a pause,
    -- a reconciliation is `matched` exactly when for every asset the USDT amounts that are counted,
    -- which are zero for any asset but USDT, and for every symbol the quantities differ by at most
    -- their threshold, where a missing entry counts as zero.
    pub run_reconciliation-matched_iff :
        (0 < t.position_critical_count)
        → (local_balances : List BalanceSnapshot) (local_positions : List PositionSnapshot)
          (interface_balances : List BalanceSnapshot) (interface_positions : List PositionSnapshot)
        → let here = index_by BalanceSnapshot.asset local_balances [] in
          let there = index_by BalanceSnapshot.asset interface_balances [] in
          let held = index_by PositionSnapshot.symbol local_positions [] in
          let seen = index_by PositionSnapshot.symbol interface_positions [] in
          ((run_reconciliation t local_balances local_positions interface_balances
              interface_positions).status
            ≡ matched)
          ↔ (((asset : String) → BalancesMatch here there asset)
              × ((symbol : String) → PositionsMatch held seen symbol))
    unfolding run_reconciliation
    run_reconciliation-matched_iff some_count lb lp ib ip =
        let here = index_by BalanceSnapshot.asset lb [] in
        let there = index_by BalanceSnapshot.asset ib [] in
        let held = index_by PositionSnapshot.symbol lp [] in
        let seen = index_by PositionSnapshot.symbol ip [] in
        let b = compare_balances t here there (all_keys here there) (false, nought) in
        let p = compare_positions t held seen (all_keys held seen) (false, 0) in
        let whole =
          overall_status-matched b.0 b.1 p.0 p.1 some_count
            (compare_positions-flag held seen (all_keys held seen) false 0 refl) in
        let same_balances = compare_balances-false here there (all_keys here there) false nought in
        let same_positions = compare_positions-zero held seen (all_keys held seen) false 0 in
        (
          λ h.
              let (no_balance, no_position, none_counted) = whole.0 h in
              (
                balances-everywhere here there (same_balances.0 no_balance).1,
                positions-everywhere held seen (same_positions.0 (no_position, none_counted)).2,
              ),
          λ h.
              let (no_position, none_counted) =
                same_positions.1
                  (refl, refl, All-of (PositionsMatch held seen) (all_keys held seen) h.1) in
              whole.1 (
                same_balances.1 (refl, All-of (BalancesMatch here there) (all_keys here there) h.0),
                no_position,
                none_counted,
              ),
        )
