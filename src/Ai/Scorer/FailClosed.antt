-- ===== src/Ai/Scorer/FailClosed.antt =====
-- What a score says of the client's reply.
use mathlib.Core.Path.{subst}
use crypto_ai_trader.Base.{
  ℕ, ◌≤◌, String, ◌≡◌, ◌≢◌, ◌⊎◌, str_eq_iff, refl, sym, ap, ◌∙◌, Option, none, some, false, leb,
  str_eq, arith, Bool-cases, Option-cases, inl, inr,
}
use crypto_ai_trader.Base.Int.{ℤ, pos, negsuc}
use crypto_ai_trader.Ai.Scorer.{
  allow, allow_reduced_size, trend, range, high_volatility, unknown_regime, read_hint, read_regime,
  AiScoreResult, RawScore, Payload, Client, DecisionHint, MarketRegime, reject, read_score,
  assemble, model_validate, or_fail_closed, validated, score_candidate,
}

read_score-le : (z : ℤ) {n : ℕ} → read_score z ≡ some n → (z ≡ pos n) × (n ≤ 100)
unfolding read_score
read_score-le (pos n) h = elim (Bool-cases (leb n 100)) [
  | inl e ↦ (ground arith, ground arith)
  | inr e ↦ absurd (ground arith)
]
read_score-le (negsuc n) h = absurd (ground arith)

-- The texts of the schema's literals.
abbrev pub hint_text : DecisionHint → String
hint_text allow = "allow"
hint_text allow_reduced_size = "allow_reduced_size"
hint_text reject = "reject"

abbrev pub regime_text : MarketRegime → String
regime_text trend = "trend"
regime_text range = "range"
regime_text high_volatility = "high_volatility"
regime_text unknown_regime = "unknown"

-- What was read is named by its text.
HintNamed : String → Option DecisionHint → Type 0
HintNamed text none = Unit {0}
HintNamed text (some hint) = text ≡ hint_text hint

RegimeNamed : String → Option MarketRegime → Type 0
RegimeNamed text none = Unit {0}
RegimeNamed text (some regime) = text ≡ regime_text regime

read_hint-HintNamed : (text : String) → HintNamed text (read_hint text)
unfolding read_hint HintNamed
read_hint-HintNamed text = elim (Bool-cases (str_eq text "allow")) [
  | inl a ↦ rw a ((str_eq_iff text "allow").0 a)
  | inr a ↦ elim (Bool-cases (str_eq text "allow_reduced_size")) [
    | inl b ↦ simp (a, b) ((str_eq_iff text "allow_reduced_size").0 b)
    | inr b ↦ elim (Bool-cases (str_eq text "reject")) [
      | inl c ↦ simp (a, b, c) ((str_eq_iff text "reject").0 c)
      | inr c ↦ simp (a, b, c) tt
    ]
  ]
]

read_regime-RegimeNamed : (text : String) → RegimeNamed text (read_regime text)
unfolding read_regime RegimeNamed
read_regime-RegimeNamed text = elim (Bool-cases (str_eq text "trend")) [
  | inl a ↦ rw a ((str_eq_iff text "trend").0 a)
  | inr a ↦ elim (Bool-cases (str_eq text "range")) [
    | inl b ↦ simp (a, b) ((str_eq_iff text "range").0 b)
    | inr b ↦ elim (Bool-cases (str_eq text "high_volatility")) [
      | inl c ↦ simp (a, b, c) ((str_eq_iff text "high_volatility").0 c)
      | inr c ↦ elim (Bool-cases (str_eq text "unknown")) [
        | inl d ↦ simp (a, b, c, d) ((str_eq_iff text "unknown").0 d)
        | inr d ↦ simp (a, b, c, d) tt
      ]
    ]
  ]
]

-- A validated reply keeps the client's score, hint, regime, flags and text.
abbrev pub Reads : RawScore → AiScoreResult → Type 0
Reads raw r =
    (raw.ai_score ≡ pos r.ai_score)
    × (r.ai_score ≤ 100)
    × (raw.decision_hint ≡ hint_text r.decision_hint)
    × (raw.market_regime ≡ regime_text r.market_regime)
    × (r.explanation ≡ raw.explanation)
    × (str_eq r.explanation "" ≡ false)
    × (r.risk_flags ≡ raw.risk_flags)

assemble-Reads :
    (raw : RawScore) (score : Option ℕ) (regime : Option MarketRegime) (hint : Option DecisionHint)
    {r : AiScoreResult}
    → read_score raw.ai_score ≡ score
    → RegimeNamed raw.market_regime regime
    → HintNamed raw.decision_hint hint
    → assemble raw score regime hint ≡ some r
    → Reads raw r
unfolding RegimeNamed HintNamed
assemble-Reads raw none regime hint e m d h = absurd (ground arith)
assemble-Reads raw (some n) none hint e m d h = absurd (ground arith)
assemble-Reads raw (some n) (some regime) none e m d h = absurd (ground arith)
assemble-Reads raw (some n) (some regime) (some hint) {r} e m d h =
    let (same, top) = read_score-le raw.ai_score e in
    elim (Bool-cases (str_eq raw.explanation "")) [
      | inl blank ↦ absurd (ground arith)
      | inr filled ↦
          subst (Reads raw) (ap or_fail_closed (rw filled at h))
            (same, top, d, m, refl, filled, refl)
    ]

validated-raw :
    (reply : Option RawScore) {r : AiScoreResult}
    → validated reply ≡ some r
    → (raw : RawScore) × (reply ≡ some raw) × (model_validate raw ≡ some r)
validated-raw none h = absurd (ground arith)
validated-raw (some raw) h = (raw, refl, h)

model_validate-Reads :
    (raw : RawScore) {r : AiScoreResult} → model_validate raw ≡ some r → Reads raw r
unfolding model_validate
model_validate-Reads raw h =
    assemble-Reads raw _ _ _ refl (read_regime-RegimeNamed raw.market_regime)
      (read_hint-HintNamed raw.decision_hint) h

-- A score that does not reject is the valid reading of a reply.
pub score_candidate-valid :
    (client : Client) (payload : Payload)
    → (score_candidate client payload).decision_hint ≢ reject
    → (raw : RawScore) × (client payload ≡ some raw)
      × (model_validate raw ≡ some (score_candidate client payload))
      × Reads raw (score_candidate client payload)
unfolding score_candidate
score_candidate-valid client payload h = elim (Option-cases (validated (client payload))) [
  | inl e ↦ absurd (h (ap (λ (o : Option AiScoreResult). (or_fail_closed o).decision_hint) e))
  | inr (r, e) ↦
      let (raw, replied, reads) = validated-raw (client payload) e in
      let same = ap or_fail_closed e in
      (raw, replied, reads ∙ ap some (sym same), rw same (model_validate-Reads raw reads))
]

-- Scoring fails closed: a score has the hint `reject` and the score 0, or it is read from a reply
-- of the client: the reply's score, at most 100, its non-empty explanation, its flags, and the hint
-- and the regime that the reply names by their texts.
pub score_candidate-fails_closed :
    (client : Client) (payload : Payload)
    → let r = score_candidate client payload in
      ((r.decision_hint ≡ reject) × (r.ai_score ≡ 0))
      ⊎ ((raw : RawScore) × (client payload ≡ some raw) × Reads raw r)
unfolding score_candidate
score_candidate-fails_closed client payload = elim (Option-cases (validated (client payload))) [
  | inl e ↦ rw e (inl (refl, refl))
  | inr (r, e) ↦
      let (raw, replied, reads) = validated-raw (client payload) e in
      inr (raw, replied, rw (ap or_fail_closed e) (model_validate-Reads raw reads))
]
