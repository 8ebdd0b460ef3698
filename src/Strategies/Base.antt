-- ===== src/Strategies/Base.antt =====
-- trading/strategies/base.py. Times are counted in microseconds from a fixed instant.
use crypto_ai_trader.Base.{ℕ, String, Bool, ◌&&◌, if◌then◌else◌, Result, ok, err, validation_error}
use crypto_ai_trader.Decimal.{Decimal, nought, one, le, lt}

abbrev pub Time : Type 0
Time = ℕ

pub data Side : Type 0 where
  buy sell : Side

-- `side` is always "BUY" here, as its type says.
pub record TradeCandidate : Type 0 where
  pub strategy_name : String
  pub symbol : String
  pub entry_reference : Decimal
  pub stop_reference : Decimal
  pub rule_confidence : Decimal
  pub reason : String
  pub created_at : Time

-- The constraints on the fields: gt=0, gt=0, ge=0 and le=1.
unfoldable pub candidate_is_valid : TradeCandidate → Bool
candidate_is_valid c =
    lt nought c.entry_reference
    && lt nought c.stop_reference
    && le nought c.rule_confidence
    && le c.rule_confidence one

-- The constructor, which validates.
unfoldable pub trade_candidate : TradeCandidate → Result TradeCandidate
unfolding candidate_is_valid
trade_candidate c = if candidate_is_valid c then ok c else err validation_error
