-- ===== src/Risk/State/Severity.antt =====
-- How severe a loss is judged: the states in order, and the threshold that each stands for.
use crypto_ai_trader.Base.{ℕ, ◌≤◌, ◌≡◌, ◌↔◌, true, arith}
use crypto_ai_trader.Decimal.{Decimal, le, le_trans}
use crypto_ai_trader.Risk.Profiles.{RiskProfile}
use crypto_ai_trader.Risk.State.{
  RiskState, normal, degraded, no_new_positions, global_pause, emergency_stop, loss_decision,
}

abbrev pub severity : RiskState → ℕ
severity normal = 0
severity degraded = 1
severity no_new_positions = 2
severity global_pause = 3
severity emergency_stop = 4

-- The thresholds of a profile rise.
abbrev pub IsGraded : RiskProfile → Type 0
IsGraded p =
    (le p.daily_loss_caution_pct p.daily_loss_no_new_positions_pct ≡ true)
    × (le p.daily_loss_no_new_positions_pct p.daily_loss_global_pause_pct ≡ true)

module _ (p : RiskProfile) (graded : IsGraded p) where
  -- In a profile with rising thresholds a loss is judged at least `degraded`,
  -- `no_new_positions`, or `global_pause` exactly when it reaches that threshold, and never
  -- `emergency_stop`.
  pub loss_decision_graded :
      (loss : Decimal)
      → let level = severity (loss_decision loss p).risk_state in
        ((1 ≤ level) ↔ (le p.daily_loss_caution_pct loss ≡ true))
        × ((2 ≤ level) ↔ (le p.daily_loss_no_new_positions_pct loss ≡ true))
        × ((3 ≤ level) ↔ (le p.daily_loss_global_pause_pct loss ≡ true))
        × (level ≤ 3)
  unfolding loss_decision
  loss_decision_graded loss = ground (
    arith,
    le_trans p.daily_loss_caution_pct p.daily_loss_no_new_positions_pct loss,
    le_trans p.daily_loss_no_new_positions_pct p.daily_loss_global_pause_pct loss,
  )

  -- A larger loss is never judged less severely.
  pub loss_decision_mono :
      (small large : Decimal)
      → le small large ≡ true
      → severity (loss_decision small p).risk_state ≤ severity (loss_decision large p).risk_state
  unfolding loss_decision
  loss_decision_mono small large h = ground (
    arith,
    le_trans p.daily_loss_caution_pct small large,
    le_trans p.daily_loss_no_new_positions_pct small large,
    le_trans p.daily_loss_global_pause_pct small large,
  )
