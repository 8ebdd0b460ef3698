-- ===== src/Strategies/Exits.antt =====
-- trading/strategies/exits.py: the exit rules and the engine that takes the first that triggers.
-- The texts of `message` are left out.
mod Rules
pub mod Priority
use crypto_ai_trader.Base.{
  ℕ, ◌+◌, ◌*◌, String, List, [], ◌∷◌, ◌++◌, Option, none, some, Bool, true, false, not, ◌&&◌,
  if◌then◌else◌, leb, ltb, Result, ok, ◌>>=◌,
}
use crypto_ai_trader.Decimal.{Decimal, dec, nought, one, hundred, le, eq, add, mul, div}
use crypto_ai_trader.Strategies.Base.{Time}

pub data ExitReason : Type 0 where
  hard_stop take_profit time_exit : ExitReason

pub record ExitSignal : Type 0 where
  pub symbol : String
  pub reason : ExitReason
  pub exit_price : Decimal
  pub qty_to_exit : Decimal
  pub created_at : Time
  pub confidence : Decimal

-- The subclasses of ExitRule with their fields.
pub data ExitRule : Type 0 where
  hard_stop_rule : Option Decimal → ExitRule
  take_profit_rule : Option Decimal → ExitRule
  time_exit_rule : ℕ → ExitRule

-- The arguments of `evaluate` that the engine passes on to each rule.
pub record Holding : Type 0 where
  pub symbol : String
  pub position_qty : Decimal
  pub position_avg_entry : Decimal
  pub market_price : Decimal
  pub current_time : Time
  pub position_opened_at : Option Time

abbrev pub signal : Holding → ExitReason → Decimal → Decimal → ExitSignal
signal h reason price confidence = record {
  symbol = h.symbol;
  reason = reason;
  exit_price = price;
  qty_to_exit = h.position_qty;
  created_at = h.current_time;
  confidence = confidence;
}

abbrev pub hour : ℕ
hour = 3600 * 1_000_000

-- `ExitRule.evaluate`, by subclass.
unfoldable pub evaluate_rule : ExitRule → Holding → Option ExitSignal
evaluate_rule (hard_stop_rule none) h = none
evaluate_rule (hard_stop_rule (some stop)) h =
    if le h.market_price stop then some (signal h hard_stop stop (dec 10 1)) else none
evaluate_rule (take_profit_rule none) h = none
evaluate_rule (take_profit_rule (some target)) h =
    if le target h.market_price then some (signal h take_profit target (dec 10 1)) else none
evaluate_rule (time_exit_rule max_hours) h = elim h.position_opened_at [
  | none ↦ none
  | some opened ↦
      if leb (opened + max_hours * hour) h.current_time
      then some (signal h time_exit h.market_price (dec 8 1))
      else none
]

pub record ExitEngine : Type 0 where
  pub hard_stop_reference : Option Decimal
  pub take_profit_pct : Decimal
  pub max_hours : ℕ

abbrev pub or_default : Option Decimal → Option Decimal → Option Decimal
or_default none d = d
or_default (some x) d = some x

abbrev pub stop_rules : Option Decimal → List ExitRule
stop_rules none = []
stop_rules (some stop) = hard_stop_rule (some stop) ∷ []

unfoldable pub profit_rules : ExitEngine → Decimal → Result (List ExitRule)
profit_rules e avg_entry =
    if not (eq e.take_profit_pct nought) && not (eq avg_entry nought)
    then (div e.take_profit_pct hundred >>= λ share.
        ok (take_profit_rule (some (mul avg_entry (add one share))) ∷ []))
    else ok []

abbrev pub time_rules : ℕ → List ExitRule
time_rules max_hours = if ltb 0 max_hours then time_exit_rule max_hours ∷ [] else []

-- The loop over the rules: the first signal.
unfoldable pub first_signal : List ExitRule → Holding → Option ExitSignal
first_signal [] h = none
first_signal (r ∷ rs) h = elim (evaluate_rule r h) [ none ↦ first_signal rs h | some s ↦ some s ]

-- `ExitEngine.evaluate`.
unfoldable pub evaluate : ExitEngine → Option Decimal → Holding → Result (Option ExitSignal)
evaluate e position_stop h = profit_rules e h.position_avg_entry >>= λ profit. ok (
    first_signal
      (stop_rules (or_default position_stop e.hard_stop_reference)
        ++ (profit ++ time_rules e.max_hours))
      h)
