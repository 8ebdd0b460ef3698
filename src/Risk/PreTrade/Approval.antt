-- ===== src/Risk/PreTrade/Approval.antt =====
-- When a trade is approved, and what a decision says.
use crypto_ai_trader.Base.{
  ◌<◌, ◌≡◌, ◌≢◌, ◌↔◌, ◌⊎◌, inl, inr, true, false, [], arith, ok, Result-cases, Bool-cases, Bool,
  String, List, ◌∷◌, refl,
}
use crypto_ai_trader.Decimal.{Decimal, dec, nought, one, le, lt, sub, IsPos-of_lt, div_total}
use crypto_ai_trader.Strategies.Base.{TradeCandidate}
use crypto_ai_trader.Risk.Profiles.{RiskProfile, daily_pnl_pct}
use crypto_ai_trader.Risk.State.{
  RiskState, normal, degraded, no_new_positions, global_pause, emergency_stop, DailyLossDecision,
  classify_daily_loss,
}
use crypto_ai_trader.Risk.PreTrade.{
  PortfolioRiskSnapshot, PreTradeRiskDecision, OrderLimits, rejected, note_if, conclude, approve,
  after_daily_loss, limit_reasons, evaluate_pre_trade_risk,
}

-- All limits are kept: strictly below each maximum.
pub record WithinLimits (s : PortfolioRiskSnapshot) (p : RiskProfile) (limits : OrderLimits)
    : Type 0 where
  pub total : lt s.total_position_pct p.max_total_position_pct ≡ true
  pub symbol : lt s.symbol_position_pct p.max_symbol_position_pct ≡ true
  pub orders : s.daily_order_count < limits.max_daily_orders
  pub trades : s.symbol_daily_trade_count < limits.max_symbol_daily_trades
  pub losses : s.consecutive_losses < limits.max_consecutive_losses

-- The day's loss leaves trading open.
abbrev pub IsOpen : RiskState → Type 0
IsOpen state = (state ≡ normal) ⊎ (state ≡ degraded)

note_if-nil :
    (test : Bool) (reason : String) (reasons : List String)
    → note_if test reason reasons ≡ []
    → (test ≡ false) × (reasons ≡ [])
unfolding note_if
note_if-nil true reason [] e = cc
note_if-nil true reason (r ∷ rs) e = cc
note_if-nil false reason reasons e = (refl, e)

module _ (s : PortfolioRiskSnapshot) (p : RiskProfile) (limits : OrderLimits) where
  limits_of_empty : limit_reasons s p limits ≡ [] → WithinLimits s p limits
  unfolding limit_reasons
  limits_of_empty e =
      let (losses, e₁) = note_if-nil _ _ _ e in
      let (trades, e₂) = note_if-nil _ _ _ e₁ in
      let (orders, e₃) = note_if-nil _ _ _ e₂ in
      let (symbol, e₄) = note_if-nil _ _ _ e₃ in
      let (total, _) = note_if-nil _ _ _ e₄ in
      record {
        total = rw total;
        symbol = rw symbol;
        orders = ground arith;
        trades = ground arith;
        losses = ground arith;
      }

  empty_of_limits : WithinLimits s p limits → limit_reasons s p limits ≡ []
  unfolding limit_reasons note_if
  empty_of_limits w = ground arith

  conclude-approved :
      (state : RiskState) (reasons : List String)
      → (conclude state reasons).approved ≡ true
      → reasons ≡ []
  conclude-approved state [] h = refl
  conclude-approved state (r ∷ rs) h = cc

  approve-approved : (state : RiskState) → (approve state).approved ≡ true
  approve-approved degraded = refl
  approve-approved _ = refl

  conclude-approved_iff :
      (state : RiskState)
      → IsOpen state
      → ((conclude state (limit_reasons s p limits)).approved ≡ true)
        ↔ (IsOpen state × WithinLimits s p limits)
  conclude-approved_iff state open_state = (
    λ h. (open_state, limits_of_empty (conclude-approved state (limit_reasons s p limits) h)),
    λ h. rw (empty_of_limits h.1) (approve-approved state),
  )

  -- The decision after the classified loss: approved exactly when trading is open and every
  -- limit is kept.
  after_daily_loss-approved_iff :
      (state : RiskState)
      → state ≢ emergency_stop
      → ((after_daily_loss state s p limits).approved ≡ true)
        ↔ (IsOpen state × WithinLimits s p limits)
  unfolding after_daily_loss
  after_daily_loss-approved_iff normal h = conclude-approved_iff normal (inl refl)
  after_daily_loss-approved_iff degraded h = conclude-approved_iff degraded (inr refl)
  after_daily_loss-approved_iff no_new_positions h = ground arith
  after_daily_loss-approved_iff global_pause h = ground arith
  after_daily_loss-approved_iff emergency_stop h = absurd (h refl)

-- Everything that an approval rests on.
abbrev pub Admissible : PortfolioRiskSnapshot → RiskProfile → OrderLimits → Type 0
Admissible s p limits =
    (loss : DailyLossDecision) × (s.kill_switch_enabled ≡ false)
    × (s.data_is_fresh ≡ true)
    × (classify_daily_loss s.day_start_equity s.account_equity p ≡ ok loss)
    × IsOpen loss.risk_state
    × WithinLimits s p limits

-- A decision is coherent: an approval has no reasons, and the size multiplier 1 in the state
-- `normal` or 0.5 in the state `degraded`; a rejection has a reason and the multiplier 0.
abbrev pub IsCoherent : PreTradeRiskDecision → Type 0
IsCoherent d =
    (d.approved ≡ true)
      × (d.reject_reasons ≡ [])
      × ((d.risk_state ≡ normal) × (d.size_multiplier ≡ one)
          ⊎ (d.risk_state ≡ degraded) × (d.size_multiplier ≡ dec 5 1))
    ⊎ (d.approved ≡ false) × (d.reject_reasons ≢ []) × (d.size_multiplier ≡ nought)

-- The circuit breaker judges every day that began with a positive equity.
classify_daily_loss_total :
    (start current : Decimal) (p : RiskProfile)
    → lt nought start ≡ true
    → (d : DailyLossDecision) × (classify_daily_loss start current p ≡ ok d)
unfolding classify_daily_loss daily_pnl_pct
classify_daily_loss_total start current p h =
    let (q, e) = div_total (sub current start) start (IsPos-of_lt start h) in
    let positive : le start nought ≡ false = ground arith in rw (positive, e) (_, refl)

conclude-IsCoherent :
    (state : RiskState) (reasons : List String) → IsCoherent (conclude state reasons)
conclude-IsCoherent degraded [] = inl (refl, refl, inr (refl, refl))
conclude-IsCoherent _ [] = inl (refl, refl, inl (refl, refl))
conclude-IsCoherent state (r ∷ rs) = inr (refl, ground arith, refl)

after_daily_loss-IsCoherent :
    (state : RiskState) (s : PortfolioRiskSnapshot) (p : RiskProfile) (limits : OrderLimits)
    → IsCoherent (after_daily_loss state s p limits)
unfolding after_daily_loss
after_daily_loss-IsCoherent no_new_positions s p limits = inr (refl, ground arith, refl)
after_daily_loss-IsCoherent global_pause s p limits = inr (refl, ground arith, refl)
after_daily_loss-IsCoherent state s p limits = conclude-IsCoherent state (limit_reasons s p limits)

classify-ne-emergency_stop :
    (start current : Decimal) (p : RiskProfile) {d : DailyLossDecision}
    → classify_daily_loss start current p ≡ ok d
    → d.risk_state ≢ emergency_stop
unfolding classify_daily_loss
classify-ne-emergency_stop start current p h = elim (Result-cases (daily_pnl_pct start current)) [
  | inl (pnl, e) ↦ ground arith
  | inr (x, e) ↦ ground arith
]

module _ (c : TradeCandidate) (s : PortfolioRiskSnapshot) (p : RiskProfile)
    (limits : OrderLimits) where
  -- The three ways to a decision.
  ByRoute : PreTradeRiskDecision → Type 0
  ByRoute d =
      (s.kill_switch_enabled ≡ true) × (d ≡ rejected emergency_stop ("kill_switch_enabled" ∷ []))
      ⊎ (s.kill_switch_enabled ≡ false)
        × (s.data_is_fresh ≡ false)
        × (d ≡ rejected no_new_positions ("stale_market_data" ∷ []))
      ⊎ ((loss : DailyLossDecision) × (s.kill_switch_enabled ≡ false)
          × (s.data_is_fresh ≡ true)
          × (classify_daily_loss s.day_start_equity s.account_equity p ≡ ok loss)
          × (d ≡ after_daily_loss loss.risk_state s p limits))

  routes : {d : PreTradeRiskDecision} → evaluate_pre_trade_risk c s p limits ≡ ok d → ByRoute d
  unfolding evaluate_pre_trade_risk ByRoute
  routes h = elim (Bool-cases s.kill_switch_enabled) [
    | inl on ↦ inl (on, ground arith)
    | inr off ↦ inr (elim (Bool-cases s.data_is_fresh) [
      | inr stale ↦ inl (off, stale, ground arith)
      | inl fresh ↦
          inr (elim (Result-cases (classify_daily_loss s.day_start_equity s.account_equity p)) [
            | inl (loss, e) ↦ (loss, off, fresh, e, ground arith)
            | inr (x, e) ↦ absurd (ground arith)
          ])
    ])
  ]

  -- A decision that is returned approves exactly when the kill switch is off, the data are
  -- fresh, the classified daily loss is `normal` or `degraded`, and every limit is kept.
  pub evaluate_pre_trade_risk-approved_iff :
      {d : PreTradeRiskDecision}
      → evaluate_pre_trade_risk c s p limits ≡ ok d
      → (d.approved ≡ true) ↔ Admissible s p limits
  unfolding ByRoute
  evaluate_pre_trade_risk-approved_iff h = elim (routes h) [
    | inl (on, e) ↦ ground arith
    | inr (inl (off, stale, e)) ↦ ground arith
    | inr (inr (loss, off, fresh, classified, e)) ↦
        let open_iff =
          after_daily_loss-approved_iff s p limits loss.risk_state
            (classify-ne-emergency_stop s.day_start_equity s.account_equity p classified) in
        (
          λ yes_approved.
              let (is_open, within) = open_iff.0 (rw e at yes_approved) in
              (loss, off, fresh, classified, is_open, within),
          λ a. let same : a.0 ≡ loss = ground arith in rw e (open_iff.1 (rw same at a.4, a.5)),
        )
  ]

  -- Every decision that is returned is coherent.
  pub evaluate_pre_trade_risk-IsCoherent :
      {d : PreTradeRiskDecision} → evaluate_pre_trade_risk c s p limits ≡ ok d → IsCoherent d
  unfolding ByRoute
  evaluate_pre_trade_risk-IsCoherent h = elim (routes h) [
    | inl (on, e) ↦ inr (ground arith)
    | inr (inl (off, stale, e)) ↦ inr (ground arith)
    | inr (inr (loss, off, fresh, classified, e)) ↦
        rw e (after_daily_loss-IsCoherent loss.risk_state s p limits)
  ]

  -- With a positive equity at the start of the day a decision is always returned.
  pub evaluate_pre_trade_risk_total :
      lt nought s.day_start_equity ≡ true
      → (d : PreTradeRiskDecision) × (evaluate_pre_trade_risk c s p limits ≡ ok d)
  unfolding evaluate_pre_trade_risk
  evaluate_pre_trade_risk_total h =
      let (loss, e) = classify_daily_loss_total s.day_start_equity s.account_equity p h in
      elim (Bool-cases s.kill_switch_enabled) [
        | inl on ↦ rw on (_, refl)
        | inr off ↦ elim (Bool-cases s.data_is_fresh) [
          | inr stale ↦ rw (off, stale) (_, refl)
          | inl fresh ↦ rw (off, fresh, e) (_, refl)
        ]
      ]
