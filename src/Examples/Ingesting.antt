-- ===== src/Examples/Ingesting.antt =====
-- An ingestion of two symbols, where one request fails and another answers a known candle anew.
use mathlib.Core.List.{Memᴰ}
use crypto_ai_trader.Base.{
  ◌≡◌, refl, String, List, [], ◌∷◌, Option, none, some, false, err, pending_rollback, Bool-cases,
  inl, inr, arith, if◌then◌else◌, ◌==◌,
}
use crypto_ai_trader.Base.Dict.{insert}
use crypto_ai_trader.Decimal.{Decimal, dec}
use crypto_ai_trader.Strategies.Base.{Time}
use crypto_ai_trader.MarketData.Schemas.{CandleData}
use crypto_ai_trader.MarketData.Candles.{find_candle, upsert_many, list_recent}
use crypto_ai_trader.MarketData.Candles.Stored.{DistinctKeys}
use crypto_ai_trader.MarketData.Candles.Oldest.{IsOldest, list_recent-IsOldest}
use crypto_ai_trader.MarketData.Ingestion.{KlineClient, Ingestion, ingest_once}
use crypto_ai_trader.MarketData.Ingestion.Totals.{
  fetched, AnswersDistinct, IsIngested, ingest_once-IsIngested,
}

abbrev candle : String → Time → Decimal → CandleData
candle symbol open_time close = record {
  symbol = symbol;
  timeframe = "1h";
  open_time = open_time;
  close_time = open_time;
  open_price = dec 100 0;
  high = dec 120 0;
  low = dec 90 0;
  close = close;
  volume = dec 1 0;
  source = "binance";
}

abbrev answer : String → List CandleData
answer symbol = candle symbol 3 (dec 110 0) ∷ candle symbol 4 (dec 112 0) ∷ []

-- The second request raises.
abbrev client : KlineClient
client n symbol timeframe limit = if n == 1 then none else some (answer symbol)

abbrev before : Ingestion
before = record {
  candles = candle "BTCUSDT" 3 (dec 105 0) ∷ [];
  events = [];
  counts = [];
  all_candles = [];
  requests = 0;
  rollback_needed = false;
}

abbrev both_symbols : Option (List String)
both_symbols = some ("BTCUSDT" ∷ "ETHUSDT" ∷ [])

abbrev hourly : Option (List String)
hourly = some ("1h" ∷ [])

found_anew :
    find_candle "BTCUSDT" "1h" 3 (ingest_once client 100 both_symbols hourly before).0.candles
    ≡ some (candle "BTCUSDT" 3 (dec 110 0))
unfolding find_candle ingest_once upsert_many
found_anew = refl

counts_kept :
    (ingest_once client 100 both_symbols hourly before).0.counts
    ≡ ("BTCUSDT/1h", 2) ∷ ("ETHUSDT/1h", 0) ∷ []
unfolding ingest_once insert upsert_many
counts_kept = refl

two_distinct : (symbol : String) → DistinctKeys (answer symbol)
unfolding find_candle
two_distinct symbol = (ground arith, (refl, tt))

client_distinct : AnswersDistinct client 100
client_distinct n symbol timeframe = elim (Bool-cases (n == 1)) [
  | inl second ↦ rw second tt
  | inr other ↦ rw other (two_distinct symbol)
]

-- An answer that repeats a new key breaks the session: nothing is stored, and the call raises.
abbrev repeating : KlineClient
repeating n symbol timeframe limit =
    some (candle symbol 3 (dec 110 0) ∷ candle symbol 3 (dec 112 0) ∷ [])

abbrev empty_before : Ingestion
empty_before = record before { candles = [] }

repeated_key :
    let (after, outcome) = ingest_once repeating 100 both_symbols hourly empty_before in
    (outcome ≡ err pending_rollback) × (after.candles ≡ [])
unfolding ingest_once upsert_many
repeated_key = (refl, refl)

ingest_once-IsIngested_example :
    IsIngested
      (fetched client 100 ("BTCUSDT" ∷ "ETHUSDT" ∷ []) ("1h" ∷ []) 0)
      2
      before
      (ingest_once client 100 both_symbols hourly before)
ingest_once-IsIngested_example =
    ingest_once-IsIngested client 100 both_symbols hourly before client_distinct refl

-- The oldest two of three.
abbrev three : List CandleData
three =
    candle "BTCUSDT" 5 (dec 3 0) ∷ candle "BTCUSDT" 3 (dec 1 0) ∷ candle "BTCUSDT" 4 (dec 2 0) ∷ []

oldest_listed :
    list_recent "BTCUSDT" "1h" 2 three
    ≡ candle "BTCUSDT" 3 (dec 1 0) ∷ candle "BTCUSDT" 4 (dec 2 0) ∷ []
unfolding list_recent
oldest_listed = refl

list_recent-IsOldest_example :
    IsOldest 2 (candle "BTCUSDT" 5 (dec 3 0)) (list_recent "BTCUSDT" "1h" 2 three)
list_recent-IsOldest_example =
    list_recent-IsOldest "BTCUSDT" "1h" 2 three (candle "BTCUSDT" 5 (dec 3 0)) (Memᴰ.head refl) refl
