-- ===== src/Runtime/Supervisor/Interrupts.antt =====
-- The KeyboardInterrupts of `run_supervisor` that its `try` does not catch.
use crypto_ai_trader.Base.{
  ◌≡◌, ◌↔◌, refl, ◌∙◌, ap, sym, arith, Bool, true, false, ◌||◌, not, Option, none, some, List, [],
  ◌∷◌,
}
use crypto_ai_trader.Runtime.Supervisor.{ingestion, trading, Failure, Settings}
use crypto_ai_trader.Runtime.Supervisor.System.{
  Phase, waiting, handling, finishing, broken, System, Action, turn, check, interrupt, leaves_if,
  interrupt_at, step, run, raise_errors, conclude_as, conclude, returns,
}

abbrev pub is_waiting : Phase → Bool
is_waiting waiting = true
is_waiting _ = false

abbrev pub is_broken : Phase → Bool
is_broken broken = true
is_broken _ = false

-- Whether an interrupt comes while the main thread is not in its waiting loop.
unfoldable pub uncaught : Settings → List Action → System → Bool
unfolding step
uncaught settings [] y = false
uncaught settings (turn c now outcome ∷ rest) y =
    uncaught settings rest (step settings (turn c now outcome) y)
uncaught settings (check ∷ rest) y = uncaught settings rest (step settings check y)
uncaught settings (interrupt ∷ rest) y =
    not (is_waiting y.phase) || uncaught settings rest (step settings interrupt y)

leaves_if-is_broken :
    (leaves : Bool) (phase : Phase) → is_broken (leaves_if leaves phase) ≡ is_broken phase
leaves_if-is_broken true waiting = refl
leaves_if-is_broken true handling = refl
leaves_if-is_broken true finishing = refl
leaves_if-is_broken true broken = refl
leaves_if-is_broken false phase = refl

interrupt_at-is_broken :
    (phase : Phase) (y : System)
    → y.phase ≡ phase
    → (later : Bool)
    → (is_broken (interrupt_at phase y).phase || later)
      ≡ (is_broken phase || (not (is_waiting phase) || later))
interrupt_at-is_broken waiting y e later = refl
interrupt_at-is_broken handling y e later = refl
interrupt_at-is_broken finishing y e later = refl
interrupt_at-is_broken broken y e later = ap (λ phase. is_broken phase || later) e

pub run-is_broken :
    (settings : Settings) (actions : List Action) (y : System)
    → is_broken (run settings actions y).phase ≡ (is_broken y.phase || uncaught settings actions y)
unfolding run step uncaught
run-is_broken settings [] y = ground arith
run-is_broken settings (turn ingestion now outcome ∷ rest) y =
    run-is_broken settings rest (step settings (turn ingestion now outcome) y)
run-is_broken settings (turn trading now outcome ∷ rest) y =
    run-is_broken settings rest (step settings (turn trading now outcome) y)
run-is_broken settings (check ∷ rest) y =
    run-is_broken settings rest (step settings check y)
    ∙ ap (λ b. b || uncaught settings rest (step settings check y)) (leaves_if-is_broken _ y.phase)
run-is_broken settings (interrupt ∷ rest) y =
    run-is_broken settings rest (step settings interrupt y)
    ∙ interrupt_at-is_broken y.phase y refl (uncaught settings rest (step settings interrupt y))

raise_errors-phase : (i t : Option Failure) (y : System) → (raise_errors i t y).0.phase ≡ y.phase
raise_errors-phase none none y = refl
raise_errors-phase (some f) none y = refl
raise_errors-phase none (some f) y = refl
raise_errors-phase (some f) (some g) y = refl

conclude_as-phase : (phase : Phase) (y : System) → (conclude_as phase y).0.phase ≡ y.phase
conclude_as-phase waiting y = raise_errors-phase y.ingest.error y.trade.error y
conclude_as-phase handling y = refl
conclude_as-phase finishing y = raise_errors-phase y.ingest.error y.trade.error y
conclude_as-phase broken y = refl

broken_iff : (phase : Phase) → (phase ≡ broken) ↔ (is_broken phase ≡ true)
broken_iff waiting = (λ e. ap is_broken e, λ e. absurd (ground arith))
broken_iff handling = (λ e. ap is_broken e, λ e. absurd (ground arith))
broken_iff finishing = (λ e. ap is_broken e, λ e. absurd (ground arith))
broken_iff broken = (λ e. refl, λ e. refl)

-- Behind the end the phase is broken exactly if an interrupt was not caught.
pub conclude-broken_iff :
    (settings : Settings) (actions : List Action) (y : System)
    → is_broken y.phase ≡ false
    → ((conclude (run settings actions y)).0.phase ≡ broken) ↔ (uncaught settings actions y ≡ true)
unfolding conclude
conclude-broken_iff settings actions y whole =
    let z = run settings actions y in
    let kept = conclude_as-phase z.phase z in
    let told =
      run-is_broken settings actions y ∙ ap (λ b. b || uncaught settings actions y) whole in
    (λ e. sym told ∙ ap is_broken (sym kept ∙ e), λ e. kept ∙ (broken_iff z.phase).1 (told ∙ e))

abbrev is_handling : Phase → Bool
is_handling handling = true
is_handling _ = false

-- Whether an interrupt comes at all.
unfoldable pub interrupted : List Action → Bool
interrupted [] = false
interrupted (turn c now outcome ∷ rest) = interrupted rest
interrupted (check ∷ rest) = interrupted rest
interrupted (interrupt ∷ rest) = true

leaves_if-is_handling :
    (leaves : Bool) (phase : Phase)
    → is_handling phase ≡ true
    → is_handling (leaves_if leaves phase) ≡ true
leaves_if-is_handling leaves waiting e = absurd (ground arith)
leaves_if-is_handling true handling e = refl
leaves_if-is_handling false handling e = refl
leaves_if-is_handling leaves finishing e = absurd (ground arith)
leaves_if-is_handling leaves broken e = absurd (ground arith)

calm-is_handling :
    (phase : Phase) (later : Bool)
    → is_handling phase ≡ true
    → (not (is_waiting phase) || later) ≡ false
    → ⊥
calm-is_handling waiting later e calm = ground arith
calm-is_handling handling later e calm = ground arith
calm-is_handling finishing later e calm = ground arith
calm-is_handling broken later e calm = ground arith

-- An interrupt that is handled stays so until another one comes.
run-is_handling :
    (settings : Settings) (actions : List Action) (y : System)
    → is_handling y.phase ≡ true
    → uncaught settings actions y ≡ false
    → is_handling (run settings actions y).phase ≡ true
unfolding run step uncaught
run-is_handling settings [] y e none_left = e
run-is_handling settings (turn ingestion now outcome ∷ rest) y e none_left =
    run-is_handling settings rest (step settings (turn ingestion now outcome) y) e none_left
run-is_handling settings (turn trading now outcome ∷ rest) y e none_left =
    run-is_handling settings rest (step settings (turn trading now outcome) y) e none_left
run-is_handling settings (check ∷ rest) y e none_left =
    run-is_handling settings rest (step settings check y) (leaves_if-is_handling _ y.phase e)
      none_left
run-is_handling settings (interrupt ∷ rest) y e none_left =
    absurd (calm-is_handling y.phase _ e none_left)

caught-is_handling :
    (phase : Phase) (y : System) (later : Bool)
    → (not (is_waiting phase) || later) ≡ false
    → (is_handling (interrupt_at phase y).phase ≡ true) × (later ≡ false)
caught-is_handling waiting y later e = (refl, e)
caught-is_handling handling y later e = absurd (ground arith)
caught-is_handling finishing y later e = absurd (ground arith)
caught-is_handling broken y later e = absurd (ground arith)

-- If interrupts come and each is caught, the run ends in the handler.
run-caught :
    (settings : Settings) (actions : List Action) (y : System)
    → interrupted actions ≡ true
    → uncaught settings actions y ≡ false
    → is_handling (run settings actions y).phase ≡ true
unfolding run step uncaught interrupted
run-caught settings [] y e none_left = absurd (ground arith)
run-caught settings (turn ingestion now outcome ∷ rest) y e none_left =
    run-caught settings rest (step settings (turn ingestion now outcome) y) e none_left
run-caught settings (turn trading now outcome ∷ rest) y e none_left =
    run-caught settings rest (step settings (turn trading now outcome) y) e none_left
run-caught settings (check ∷ rest) y e none_left =
    run-caught settings rest (step settings check y) e none_left
run-caught settings (interrupt ∷ rest) y e none_left =
    let (held, later) = caught-is_handling y.phase y _ none_left in
    run-is_handling settings rest (step settings interrupt y) held later

handling-returns :
    (phase : Phase) (y : System) → is_handling phase ≡ true → (conclude_as phase y).1 ≡ returns
handling-returns waiting y e = absurd (ground arith)
handling-returns handling y e = refl
handling-returns finishing y e = absurd (ground arith)
handling-returns broken y e = absurd (ground arith)

pub conclude-caught :
    (settings : Settings) (actions : List Action) (y : System)
    → interrupted actions ≡ true
    → uncaught settings actions y ≡ false
    → (conclude (run settings actions y)).1 ≡ returns
unfolding conclude
conclude-caught settings actions y e none_left =
    handling-returns _ (run settings actions y) (run-caught settings actions y e none_left)
