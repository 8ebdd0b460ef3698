-- ===== src/MarketData/Ingestion.antt =====
-- `ingest_once` of trading/market_data/ingestion_runner.py. The client is a parameter: what its
-- request of some number answers, or nothing when it raises. The message of the event is left out.
pub mod Totals
use Prim.Native.String.{◌++◌ as ◌<>◌}
use crypto_ai_trader.Base.{
  ℕ, suc, ◌+◌, String, List, [], ◌∷◌, ◌++◌, Option, none, some, Bool, true, false, Result, ok, err,
  pending_rollback, ltb, if◌then◌else◌,
}
use crypto_ai_trader.Base.Dict.{Dict, insert}
use crypto_ai_trader.MarketData.Schemas.{CandleData}
use crypto_ai_trader.MarketData.Candles.{upsert_many}

abbrev pub symbols_configured : List String
symbols_configured = "BTCUSDT" ∷ "ETHUSDT" ∷ "SOLUSDT" ∷ []

abbrev pub timeframes_configured : List String
timeframes_configured = "15m" ∷ "1h" ∷ "4h" ∷ []

-- `if symbols is None: symbols = SYMBOLS`
abbrev pub given_or : Option (List String) → List String → List String
given_or none configured = configured
given_or (some names) configured = names

-- The context of `data_ingested`.
pub record DataIngested : Type 0 where
  pub total_candles : ℕ
  pub symbols : List String
  pub timeframes : List String

-- The rows of the database, the local variables, the number of requests so far, and whether a
-- commit of the session failed: it is not rolled back, and refuses every later use.
pub record Ingestion : Type 0 where
  pub candles : List CandleData
  pub events : List DataIngested
  pub counts : Dict ℕ
  pub all_candles : List (String × ℕ)
  pub requests : ℕ
  pub rollback_needed : Bool

abbrev pub KlineClient : Type 0
KlineClient = ℕ → String → String → (limit : ℕ) → Option (List CandleData)

-- `sum(c for _, _, c in all_candles)`
unfoldable pub total_of : List (String × ℕ) → ℕ
total_of [] = 0
total_of ((symbol, count) ∷ rest) = count + total_of rest

-- `[s for s, _, c in all_candles if c > 0]`
unfoldable pub symbols_of : List (String × ℕ) → List String
symbols_of [] = []
symbols_of ((symbol, count) ∷ rest) =
    let names = symbols_of rest in if ltb 0 count then symbol ∷ names else names

-- `upsert_many` in the session.
abbrev pub upsert_in :
    (rollback_needed : Bool) → List CandleData → List CandleData → Result (List CandleData × ℕ)
upsert_in true raw rows = err pending_rollback
upsert_in false raw rows = upsert_many raw rows

abbrev pub after_upsert : String → String → Result (List CandleData × ℕ) → Ingestion → Ingestion
after_upsert symbol timeframe (ok (candles, affected)) s = record s {
  candles = candles;
  counts = insert (symbol <> ("/" <> timeframe)) affected s.counts;
  all_candles = s.all_candles ++ ((symbol, affected) ∷ []);
  requests = suc s.requests;
}
after_upsert symbol timeframe (err why) s = record s {
  counts = insert (symbol <> ("/" <> timeframe)) 0 s.counts;
  requests = suc s.requests;
  rollback_needed = true;
}

-- The body of the loops; an exception of the request or of the insertion is caught.
abbrev pub after_fetch : String → String → Option (List CandleData) → Ingestion → Ingestion
after_fetch symbol timeframe (some raw) s =
    after_upsert symbol timeframe (upsert_in s.rollback_needed raw s.candles) s
after_fetch symbol timeframe none s = record s {
  counts = insert (symbol <> ("/" <> timeframe)) 0 s.counts;
  requests = suc s.requests;
}

module _ (client : KlineClient) (limit : ℕ) where
  -- The inner loop.
  unfoldable pub ingest_symbol : String → List String → Ingestion → Ingestion
  ingest_symbol symbol [] s = s
  ingest_symbol symbol (timeframe ∷ timeframes) s =
      ingest_symbol symbol timeframes
        (after_fetch symbol timeframe (client s.requests symbol timeframe limit) s)

  -- The outer loop.
  unfoldable pub ingest_symbols : List String → List String → Ingestion → Ingestion
  unfolding ingest_symbol
  ingest_symbols [] timeframes s = s
  ingest_symbols (symbol ∷ symbols) timeframes s =
      ingest_symbols symbols timeframes (ingest_symbol symbol timeframes s)

  -- `data_ingested`, the newest event first.
  abbrev pub record_ingested :
      (rollback_needed : Bool) → List String → Ingestion → Ingestion × Result (Unit {0})
  record_ingested true timeframes s = (s, err pending_rollback)
  record_ingested false timeframes s = (
    record s {
      events =
          record {
            total_candles = total_of s.all_candles;
            symbols = symbols_of s.all_candles;
            timeframes = timeframes;
          }
          ∷ s.events;
    },
    ok tt,
  )

  -- The state behind the call, with `counts`, and whether the call returns.
  unfoldable pub ingest_once :
      Option (List String) → Option (List String) → Ingestion → Ingestion × Result (Unit {0})
  unfolding ingest_symbols total_of symbols_of
  ingest_once symbols timeframes s =
      let done =
        ingest_symbols (given_or symbols symbols_configured)
          (given_or timeframes timeframes_configured)
          (record s { counts = []; all_candles = [] }) in
      record_ingested done.rollback_needed (given_or timeframes timeframes_configured) done
