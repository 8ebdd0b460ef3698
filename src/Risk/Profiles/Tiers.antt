-- ===== src/Risk/Profiles/Tiers.antt =====
-- The default tiers cover every equity, and each equity gets the tier that holds it.
use crypto_ai_trader.Base.{◌≡◌, none, true, arith, ok, inl, inr, Bool-cases}
use crypto_ai_trader.Decimal.{Decimal, nought, le, dec}
use crypto_ai_trader.Risk.Profiles.{
  RiskProfile, small_balanced, medium_conservative, large_conservative, in_tier,
  select_risk_profile,
}

-- Every equity of zero or more selects a default profile without an error, never by the
-- fallback: the profile's tier holds the equity.
pub select_risk_profile-in_tier :
    (equity : Decimal)
    → le nought equity ≡ true
    → (p : RiskProfile) × (select_risk_profile equity none ≡ ok p) × (in_tier equity p ≡ true)
unfolding select_risk_profile in_tier
select_risk_profile-in_tier equity h = elim (Bool-cases (le (dec 1000 0) equity)) [
  | inr below ↦ (small_balanced, ground arith, ground arith)
  | inl above ↦ elim (Bool-cases (le (dec 10_000 0) equity)) [
    | inr mid ↦ (medium_conservative, ground arith, ground arith)
    | inl high ↦ (large_conservative, ground arith, ground arith)
  ]
]
