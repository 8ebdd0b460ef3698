-- ===== src/Strategies/Exits/Priority.antt =====
-- Which rule an exit signal stands for: the stop before the target before the time.
use crypto_ai_trader.Base.{
  ℕ, List, [], ◌∷◌, ◌++◌, ltb, leb, ◌+◌, ◌*◌, ◌≤◌, ◌<◌, Option, none, some, ◌≡◌, ◌⊎◌, inl, inr,
  true, false, ok, arith, refl, ◌∙◌, Option-cases, Bool-cases,
}
use crypto_ai_trader.Decimal.{Decimal, dec, nought, one, hundred, le, eq, add, mul, div, div_total}
use crypto_ai_trader.Strategies.Exits.{
  hard_stop, take_profit, time_exit, ExitSignal, ExitEngine, Holding, or_default, hour, ExitRule,
  take_profit_rule, signal, time_rules, evaluate, profit_rules, first_signal,
}
use crypto_ai_trader.Strategies.Exits.Rules.{
  first_signal-none, first_signal-some, stop_rule, target_rule, time_rule, time_rule-unopened,
}

module _ (e : ExitEngine) (position_stop : Option Decimal) (h : Holding) where
  -- The market is at or below the position's stop, or the engine's if the position has none.
  abbrev pub StopHit : Decimal → Type 0
  StopHit stop =
      (or_default position_stop e.hard_stop_reference ≡ some stop) × (le h.market_price stop ≡ true)

  -- A target is set, and the market is at or above it.
  abbrev pub TargetHit : Decimal → Type 0
  TargetHit target =
      (eq e.take_profit_pct nought ≡ false)
      × (eq h.position_avg_entry nought ≡ false)
      × ((share : Decimal) × (div e.take_profit_pct hundred ≡ ok share)
          × (target ≡ mul h.position_avg_entry (add one share)))
      × (le target h.market_price ≡ true)

  -- A holding period is set, and the position is at least as old.
  abbrev pub Overdue : Type 0
  Overdue =
      (opened : ℕ) × (h.position_opened_at ≡ some opened)
      × (0 < e.max_hours)
      × (opened + e.max_hours * hour ≤ h.current_time)

  -- What an outcome of the engine says of the three conditions.
  abbrev pub Explains : Option ExitSignal → Type 0
  Explains none =
      ((stop : Decimal) → ¬ (StopHit stop))
      × ((target : Decimal) → ¬ (TargetHit target))
      × ¬ Overdue
  Explains (some s) =
      (s.qty_to_exit ≡ h.position_qty)
      × (s.symbol ≡ h.symbol)
      × ((s.reason ≡ hard_stop) × StopHit s.exit_price
          ⊎ (s.reason ≡ take_profit)
            × TargetHit s.exit_price
            × ((stop : Decimal) → ¬ (StopHit stop))
          ⊎ (s.reason ≡ time_exit)
            × (s.exit_price ≡ h.market_price)
            × Overdue
            × ((stop : Decimal) → ¬ (StopHit stop))
            × ((target : Decimal) → ¬ (TargetHit target)))

module _ (e : ExitEngine) (position_stop : Option Decimal) (h : Holding) where
  abbrev NoStop : Type 0
  NoStop = (stop : Decimal) → ¬ (StopHit e position_stop h stop)

  abbrev NoTarget : Type 0
  NoTarget = (target : Decimal) → ¬ (TargetHit e position_stop h target)

  time_stage :
      NoStop → NoTarget → Explains e position_stop h (first_signal (time_rules e.max_hours) h)
  unfolding first_signal
  time_stage no_stop no_target = elim (Bool-cases (ltb 0 e.max_hours)) [
    | inr off ↦ rw off (no_stop, no_target, λ o. ground arith)
    | inl set ↦ elim (Option-cases h.position_opened_at) [
      | inl unopened ↦ rw set (
          rw (first_signal-none _ [] h (time_rule-unopened e.max_hours h unopened))
            (no_stop, no_target, λ o. ground arith))
      | inr (opened, known) ↦ elim (Bool-cases (leb (opened + e.max_hours * hour) h.current_time)) [
        | inr young ↦ rw set (
            rw (first_signal-none _ [] h (time_rule e.max_hours opened h known ∙ rw young))
              (no_stop, no_target, λ o. ground arith))
        | inl old ↦ rw set (
            rw
              (first_signal-some _ [] h (signal h time_exit h.market_price (dec 8 1))
                (time_rule e.max_hours opened h known ∙ rw old))
              (
                refl,
                refl,
                inr (
                    inr (
                      refl,
                      refl,
                      (opened, known, ground arith, ground arith),
                      no_stop,
                      no_target,
                    )),
              ))
      ]
    ]
  ]

  -- The target's rule, if there is one.
  Targets : List ExitRule → Type 0
  Targets rules =
      (rules ≡ []) × NoTarget
      ⊎ ((target : Decimal) × (rules ≡ take_profit_rule (some target) ∷ [])
          × ((le target h.market_price ≡ true) → TargetHit e position_stop h target)
          × ((le target h.market_price ≡ false) → NoTarget))

  profit_rules-Targets :
      (rules : List ExitRule) × (profit_rules e h.position_avg_entry ≡ ok rules) × Targets rules
  unfolding profit_rules Targets
  profit_rules-Targets =
      let (share, es) = div_total e.take_profit_pct hundred (omega arith) in
      let target = mul h.position_avg_entry (add one share) in
      elim (Bool-cases (eq e.take_profit_pct nought)) [
        | inl off ↦ rw off ([], refl, inl (refl, λ t hit. ground arith))
        | inr set ↦ elim (Bool-cases (eq h.position_avg_entry nought)) [
          | inl free ↦ rw (set, free) ([], refl, inl (refl, λ t hit. ground arith))
          | inr paid ↦ (
            take_profit_rule (some target) ∷ [],
            rw (set, paid, es),
            inr (
              target,
              refl,
              λ hit. (set, paid, (share, es, refl), hit),
              λ missed t (_, _, (other, eo, et), hit).
                  let same : other ≡ share = ground arith in cc (rw (et, same) at hit),
            ),
          )
        ]
      ]

  profit_stage :
      (rules : List ExitRule)
      → NoStop
      → Targets rules
      → Explains e position_stop h (first_signal (rules ++ time_rules e.max_hours) h)
  unfolding Targets
  profit_stage rules no_stop (inl (none_set, no_target)) =
      rw none_set (time_stage no_stop no_target)
  profit_stage rules no_stop (inr (target, one_set, hits, misses)) =
      elim (Bool-cases (le target h.market_price)) [
        | inl hit ↦ rw one_set (
            rw
              (first_signal-some _ (time_rules e.max_hours) h
                (signal h take_profit target (dec 10 1)) (target_rule target h ∙ rw hit))
              (refl, refl, inr (inl (refl, hits hit, no_stop))))
        | inr missed ↦ rw one_set (
            rw (first_signal-none _ (time_rules e.max_hours) h (target_rule target h ∙ rw missed))
              (time_stage no_stop (misses missed)))
      ]

-- The engine always returns, and its outcome is explained: no signal means that no condition
-- holds; a signal sells the whole position, for the stop at the stop's price if that is hit,
-- else for the target at the target's price if that is hit, else for the age at the market.
pub evaluate-Explains :
    (e : ExitEngine) (position_stop : Option Decimal) (h : Holding)
    → (o : Option ExitSignal) × (evaluate e position_stop h ≡ ok o) × Explains e position_stop h o
unfolding evaluate
evaluate-Explains e position_stop h =
    let (rules, er, targets) = profit_rules-Targets e position_stop h in
    let after_stop = λ (no_stop : NoStop e position_stop h).
      profit_stage e position_stop h rules no_stop targets in
    elim (Option-cases (or_default position_stop e.hard_stop_reference)) [
      | inl unset ↦ rw (er, unset) (_, refl, after_stop (λ stop hit. ground arith))
      | inr (stop, set) ↦ elim (Bool-cases (le h.market_price stop)) [
        | inl hit ↦
            rw (er, set)
              (
                _,
                refl,
                rw
                    (first_signal-some _ (rules ++ time_rules e.max_hours) h
                      (signal h hard_stop stop (dec 10 1)) (stop_rule stop h ∙ rw hit))
                    (refl, refl, inl (refl, (set, hit))),
              )
        | inr above ↦
            rw (er, set)
              (
                _,
                refl,
                rw
                    (first_signal-none _ (rules ++ time_rules e.max_hours) h
                      (stop_rule stop h ∙ rw above))
                    (after_stop (λ other hit. ground arith)),
              )
      ]
    ]
