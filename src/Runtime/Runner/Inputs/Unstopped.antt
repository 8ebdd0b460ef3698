-- ===== src/Runtime/Runner/Inputs/Unstopped.antt =====
-- The stop of a position never triggers in the runner.
use mathlib.Core.Path.{subst}
use mathlib.Core.List.{Memᴰ}
use crypto_ai_trader.Base.{
  ◌≡◌, ◌≢◌, arith, inl, inr, String, List, All_member, none, some, Result, ok, ok_inj, ◌∙◌, sym,
}
use crypto_ai_trader.Decimal.{Decimal}
use crypto_ai_trader.Strategies.Base.{Time}
use crypto_ai_trader.Strategies.Exits.{hard_stop, ExitSignal, Holding, evaluate}
use crypto_ai_trader.Strategies.Exits.Priority.{Explains, evaluate-Explains}
use crypto_ai_trader.Portfolio.Accounting.{Position}
use crypto_ai_trader.Runtime.PaperCycle.{CycleInput}
use crypto_ai_trader.Runtime.Runner.Baseline.{BaselineSet}
use crypto_ai_trader.Runtime.Runner.Inputs.{Tables, build_cycle_inputs}
use crypto_ai_trader.Runtime.Runner.Inputs.Consistent.{
  IsConsistent, build_cycle_inputs-IsConsistent,
}
use crypto_ai_trader.Runtime.Runner.Once.{default_exit_engine}

explained-not_stop :
    (h : Holding) (s : ExitSignal)
    → Explains default_exit_engine none h (some s)
    → s.reason ≢ hard_stop
explained-not_stop h s (_, _, inl (stop, (set, hit))) e = ground arith
explained-not_stop h s (_, _, inr (inl (why, hit, unstopped))) e = ground arith
explained-not_stop h s (_, _, inr (inr (why, market, old, unstopped, untargeted))) e = ground arith

-- For a position that the runner rebuilds from the fills, its exit engine never signals the hard
-- stop, at whatever price: no fill carries a stop, and the engine has none of its own.
pub build_cycle_inputs-unstopped :
    (text_of : Decimal → String) (decimal_of : String → Result Decimal) (t : Tables)
    (symbols : List String) (now : Time) (cash : Decimal) (log : List BaselineSet) (h : Holding)
    {inputs : List CycleInput} {i : CycleInput} {p : Position} {s : ExitSignal}
    → (build_cycle_inputs text_of decimal_of t symbols now cash log).1 ≡ ok inputs
    → Memᴰ i inputs
    → i.current_position ≡ some p
    → evaluate default_exit_engine p.stop_reference h ≡ ok (some s)
    → s.reason ≢ hard_stop
build_cycle_inputs-unstopped text_of decimal_of t symbols now cash log h {inputs} {i} {p} {s} built
      found held raised =
    let (_, consistent) =
      build_cycle_inputs-IsConsistent text_of decimal_of t symbols now cash log built in
    let (_, _, _, _, _, _, unstopped) =
      All_member (IsConsistent cash now) inputs consistent found in
    let (o, e, explained) = evaluate-Explains default_exit_engine none h in
    let raised' : evaluate default_exit_engine none h ≡ ok (some s) =
      subst (λ stop. evaluate default_exit_engine stop h ≡ ok (some s)) (unstopped p held) raised in
    explained-not_stop h s
      (subst (Explains default_exit_engine none h) (ok_inj (sym e ∙ raised')) explained)
