-- ===== src/Examples/Control.antt =====
-- Runs of the mode rules, the control plane, the reconciliation and the alerts.
use crypto_ai_trader.Base.{
  ℕ, String, ◌≡◌, ◌≢◌, ◌↔◌, ◌⊎◌, refl, arith, [], ◌∷◌, none, some, true, false,
}
use crypto_ai_trader.Execution.Gate.{live_shadow, live_small_auto}
use crypto_ai_trader.Risk.State.{normal}
use crypto_ai_trader.Runtime.Mode.{validate_mode_transition}
use crypto_ai_trader.Runtime.ControlPlane.{
  ControlState, ModeChangeRequest, Surroundings, get_trade_mode, set_mode, set_live_lock,
}
use crypto_ai_trader.Runtime.ControlPlane.Outcome.{IsHandled, set_mode-IsHandled}
use crypto_ai_trader.Runtime.ControlPlane.Unreachable.{
  mode_write, lock_write, here, next, live_small_auto_unreachable,
}
use crypto_ai_trader.Notifications.Dedup.{DedupKey, should_notify_with_key, after_calls}
use crypto_ai_trader.Notifications.Dedup.Quiet.{should_notify_with_key-quiet}
use crypto_ai_trader.Decimal.{dec, nought, le}
use crypto_ai_trader.Runtime.Reconciliation.{
  BalanceSnapshot, PositionSnapshot, matched, default_thresholds, index_by, run_reconciliation,
}
use crypto_ai_trader.Runtime.Reconciliation.Matching.{
  BalancesMatch, PositionsMatch, run_reconciliation-matched_iff,
}

abbrev surroundings : Surroundings
surroundings = record {
  database_opens = true;
  credentials = record { api_key = some "key"; api_secret = some "secret" };
  allowed_symbols = some ("BTCUSDT" ∷ []);
  risk_state = some normal;
}

abbrev shadowing : ControlState
shadowing = record { mode_row = some live_shadow; lock_row = none; events = [] }

abbrev go_live : ModeChangeRequest
go_live = record {
  to_mode = live_small_auto;
  allow_live_unlock = true;
  reason = some "pilot";
  symbol = some "BTCUSDT";
  dry_run = false;
}

set_mode-IsHandled_example : IsHandled shadowing go_live (set_mode surroundings shadowing go_live)
set_mode-IsHandled_example = set_mode-IsHandled surroundings shadowing go_live

abbrev live : ControlState
live = record { mode_row = some live_small_auto; lock_row = none; events = [] }

-- A request for the mode that is already set keeps it.
kept_live : get_trade_mode (set_mode surroundings live go_live).0 ≡ live_small_auto
unfolding set_mode crypto_ai_trader.Runtime.Mode.mode_eq
kept_live = refl

-- The lock is set before the request.
abbrev locked_first : ControlState
locked_first = (set_live_lock surroundings shadowing true none).0

live_small_auto_unreachable_example :
    get_trade_mode (set_mode surroundings locked_first go_live).0 ≢ live_small_auto
live_small_auto_unreachable_example = live_small_auto_unreachable {s = shadowing} (ground arith) (
    next (next here (lock_write surroundings shadowing true none))
      (mode_write surroundings locked_first go_live))

abbrev cash : ℕ → BalanceSnapshot
cash n = record { asset = "USDT"; free = dec n 1; locked = nought }

abbrev coins : PositionSnapshot
coins = record { symbol = "BTCUSDT"; qty = dec 2 0; avg_entry_price = dec 100 0 }

run_reconciliation-matched_iff_example :
    let here = index_by BalanceSnapshot.asset (cash 5000 ∷ []) [] in
    let there = index_by BalanceSnapshot.asset (cash 5005 ∷ []) [] in
    let held = index_by PositionSnapshot.symbol (coins ∷ []) [] in
    let seen = index_by PositionSnapshot.symbol (coins ∷ []) [] in
    ((run_reconciliation default_thresholds
        (cash 5000 ∷ [])
        (coins ∷ [])
        (cash 5005 ∷ [])
        (coins ∷ [])).status
      ≡ matched)
    ↔ (((asset : String) → BalancesMatch default_thresholds here there asset)
        × ((symbol : String) → PositionsMatch default_thresholds held seen symbol))
unfolding le
run_reconciliation-matched_iff_example =
    run_reconciliation-matched_iff default_thresholds refl refl (ground arith) (cash 5000 ∷ [])
      (coins ∷ []) (cash 5005 ∷ []) (coins ∷ [])

-- A difference of 0.5 USDT is within the tolerance.
reconciles :
    (run_reconciliation default_thresholds
      (cash 5000 ∷ [])
      (coins ∷ [])
      (cash 5005 ∷ [])
      (coins ∷ [])).status
    ≡ matched
unfolding run_reconciliation crypto_ai_trader.Runtime.Reconciliation.overall_status
    crypto_ai_trader.Runtime.Reconciliation.compare_balances
    crypto_ai_trader.Runtime.Reconciliation.all_keys index_by crypto_ai_trader.Base.Dict.insert
    crypto_ai_trader.Base.Dict.lookup le crypto_ai_trader.Decimal.abs crypto_ai_trader.Decimal.sub
    crypto_ai_trader.Runtime.Reconciliation.total_usdt crypto_ai_trader.Decimal.add
    crypto_ai_trader.Runtime.Reconciliation.compare_positions
reconciles = refl

abbrev gap : DedupKey
gap = record { event_type = "data_gap"; component = "ingestion"; symbol = some "BTCUSDT" }

abbrev stall : DedupKey
stall = record { event_type = "cycle_error"; component = "runner"; symbol = none }

alerts : (should_notify_with_key 300 1000 gap []).1 ≡ true
unfolding should_notify_with_key
alerts = refl

should_notify_with_key-quiet_example :
    (should_notify_with_key 300 1250 gap (
      after_calls 300
        ((1100, stall) ∷ (1200, gap) ∷ [])
        (should_notify_with_key 300 1000 gap []).0)).1
    ≡ false
should_notify_with_key-quiet_example =
    should_notify_with_key-quiet 300 1000 1250 gap [] ((1100, stall) ∷ (1200, gap) ∷ []) alerts
      (ground arith, (ground arith, tt)) (ground arith)
