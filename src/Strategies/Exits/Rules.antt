-- ===== src/Strategies/Exits/Rules.antt =====
-- One round of the loop over the rules, and each rule as an equation.
use crypto_ai_trader.Base.{ℕ, ◌+◌, ◌*◌, List, ◌∷◌, none, some, ◌≡◌, refl, leb, if◌then◌else◌}
use crypto_ai_trader.Decimal.{Decimal, dec, le}
use crypto_ai_trader.Strategies.Exits.{
  hard_stop, take_profit, time_exit, ExitSignal, Holding, hour, ExitRule, hard_stop_rule,
  take_profit_rule, time_exit_rule, signal, evaluate_rule, first_signal,
}

pub first_signal-none :
    (r : ExitRule) (rs : List ExitRule) (h : Holding)
    → evaluate_rule r h ≡ none
    → first_signal (r ∷ rs) h ≡ first_signal rs h
unfolding first_signal
first_signal-none r rs h quiet = rw (quiet, first_signal)

pub first_signal-some :
    (r : ExitRule) (rs : List ExitRule) (h : Holding) (s : ExitSignal)
    → evaluate_rule r h ≡ some s
    → first_signal (r ∷ rs) h ≡ some s
unfolding first_signal
first_signal-some r rs h s raised = rw (raised, first_signal)

pub stop_rule :
    (stop : Decimal) (h : Holding)
    → evaluate_rule (hard_stop_rule (some stop)) h
      ≡ (if le h.market_price stop then some (signal h hard_stop stop (dec 10 1)) else none)
unfolding evaluate_rule
stop_rule stop h = refl

pub target_rule :
    (target : Decimal) (h : Holding)
    → evaluate_rule (take_profit_rule (some target)) h
      ≡ (if le target h.market_price then some (signal h take_profit target (dec 10 1)) else none)
unfolding evaluate_rule
target_rule target h = refl

pub time_rule :
    (max_hours opened : ℕ) (h : Holding)
    → h.position_opened_at ≡ some opened
    → evaluate_rule (time_exit_rule max_hours) h ≡ (
        if leb (opened + max_hours * hour) h.current_time
        then some (signal h time_exit h.market_price (dec 8 1))
        else none)
unfolding evaluate_rule
time_rule max_hours opened h known = rw (known, evaluate_rule)

pub time_rule-unopened :
    (max_hours : ℕ) (h : Holding)
    → h.position_opened_at ≡ none
    → evaluate_rule (time_exit_rule max_hours) h ≡ none
unfolding evaluate_rule
time_rule-unopened max_hours h unopened = rw (unopened, evaluate_rule)
