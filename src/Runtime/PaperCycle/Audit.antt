-- ===== src/Runtime/PaperCycle/Audit.antt =====
-- What a cycle leaves in the log and in the tables, counted.
pub mod Closing
pub mod Totals
use crypto_ai_trader.Base.{
  ℕ, zero, suc, ◌+◌, ◌≡◌, ◌≢◌, refl, sym, ap, ◌∙◌, List, [], ◌∷◌, ◌++◌, Option, none, some, Bool,
  true, false, ◌||◌, if◌then◌else◌, ltb, length, length-append, Result, ok, err, arith, Bool-cases,
  inl, inr,
}
use crypto_ai_trader.Base.Dict.{lookup}
use crypto_ai_trader.Decimal.{Decimal, nought, le, lt}
use crypto_ai_trader.Strategies.Base.{Side, TradeCandidate}
use crypto_ai_trader.Strategies.Exits.{ExitSignal, ExitEngine, evaluate}
use crypto_ai_trader.Execution.PaperExecutor.{
  PaperOrder, PaperFill, PaperExecutionResult, execute_market_sell,
}
use crypto_ai_trader.Execution.PaperExecutor.Outcome.{IsWhole, execute_market_sell_total}
use crypto_ai_trader.Portfolio.Accounting.{Position}
use crypto_ai_trader.Execution.Gate.{Route, paper, shadow, blocked, ExecutionDecision}
use crypto_ai_trader.Risk.Profiles.{RiskProfile}
use crypto_ai_trader.Risk.PreTrade.{PreTradeRiskDecision}
use crypto_ai_trader.Risk.Sizing.{PositionSizeResult}
use crypto_ai_trader.Ai.Scorer.{AiScoreResult}
use crypto_ai_trader.Runtime.PaperCycle.{
  CycleInput, Setup, State, ExitOutcome, CycleResult, CycleStatus, shadow_recorded, EventType,
  Event, Severity, LifecycleStage, EventReason, cycle_finished, attempt, log, log_id,
}
use crypto_ai_trader.Runtime.PaperCycle.ExitScan.{
  no_exit, holding, store_sell, after_sell, act_on_signal, scan_at, scan_position, run_exit_scan,
}
use crypto_ai_trader.Runtime.PaperCycle.Execution.{
  Plan, store_buy, after_buy, buy_on_paper, finish_shadow, by_route, finish_blocked, after_gate,
  execute_plan,
}
use crypto_ai_trader.Runtime.PaperCycle.Entry.{
  is_reject, after_size, size_at, after_risk, check_risk, after_score,
}
use crypto_ai_trader.Runtime.PaperCycle.Run.{
  after_candidate, scan_entry, after_exit_scan, run_paper_cycle,
}

abbrev pub bit : Bool → ℕ
bit true = 1
bit false = 0

abbrev pub is_finished : EventType → Bool
is_finished cycle_finished = true
is_finished _ = false

abbrev pub is_shadow : CycleStatus → Bool
is_shadow shadow_recorded = true
is_shadow _ = false

-- How many `cycle_finished` events a log has.
abbrev pub finishes : List Event → ℕ
finishes [] = 0
finishes (e ∷ es) = bit (is_finished e.event_type) + finishes es

pub finishes-snoc :
    (es : List Event) (e : Event)
    → finishes (es ++ e ∷ []) ≡ bit (is_finished e.event_type) + finishes es
finishes-snoc [] e = omega arith
finishes-snoc (x ∷ es) e = omega (arith, finishes-snoc es e)

pub length-snoc {ℓ} : {A : Type ℓ} (xs : List A) (x : A) → length (xs ++ x ∷ []) ≡ 1 + length xs
length-snoc xs x = omega (arith, length-append xs (x ∷ []))

pub ruleset tally = (finishes-snoc, length-snoc)

-- The counts in front of a cycle.
pub record Counts : Type 0 where
  pub finished : ℕ
  pub trades : ℕ
  pub shadowed : ℕ

abbrev pub counts : State → Counts
counts s = record {
  finished = finishes s.events;
  trades = length s.executions;
  shadowed = length s.shadows;
}

abbrev pub Grown : State → Counts → ℕ → ℕ → ℕ → Type 0
Grown s n f t h =
    (finishes s.events ≡ f + n.finished)
    × (length s.executions ≡ t + n.trades)
    × (length s.shadows ≡ h + n.shadowed)

-- A call that returns has logged one `cycle_finished`, and one trade or shadow record for each that
-- its result names; a call that raises has logged none and recorded no more than the exit.
abbrev pub Closes : Counts → Bool → State × Result CycleResult → Type 0
Closes n sold (s, ok r) =
    Grown s n 1 (bit r.order_executed + bit r.exit_executed) (bit (is_shadow r.status))
Closes n sold (s, err e) = Grown s n 0 (bit sold) 0

module _ (n : Counts) where
  pub attempt-Closes {ℓ} :
      {A : Type ℓ} (sold : Bool) (s : State) (m : Result A) (k : A → State × Result CycleResult)
      → Grown s n 0 (bit sold) 0
      → ((a : A) → Closes n sold (k a))
      → Closes n sold (attempt s m k)
  attempt-Closes sold s (ok a) k h g = g a
  attempt-Closes sold s (err e) k h g = h
