-- ===== src/MarketData/Ingestion/Totals.antt =====
-- What an ingestion leaves in the table of candles, and the total that it records.
use mathlib.Core.Path.{subst}
use native.Mathlib.Nat.{suc-mul}
use crypto_ai_trader.Base.{
  ℕ, suc, ◌+◌, ◌*◌, ◌≡◌, refl, sym, ap, ◌∙◌, arith, String, List, [], ◌∷◌, ◌++◌, Option, none, some,
  Bool, true, false, Result, ok, length, length-append,
}
use crypto_ai_trader.Strategies.Base.{Time}
use crypto_ai_trader.MarketData.Schemas.{CandleData}
use crypto_ai_trader.MarketData.Candles.{find_candle}
use crypto_ai_trader.MarketData.Candles.Stored.{
  last_given, last_given-append, DistinctKeys, upsert_many-stores,
}
use crypto_ai_trader.MarketData.Ingestion.{
  KlineClient, Ingestion, DataIngested, given_or, symbols_configured, timeframes_configured,
  total_of, symbols_of, upsert_in, after_upsert, record_ingested, after_fetch, ingest_symbol,
  ingest_symbols, ingest_once,
}

-- The candles of an answer; a request that raised has none.
abbrev pub candles_of : Option (List CandleData) → List CandleData
candles_of none = []
candles_of (some raw) = raw

-- From one state to another the given candles were stored and counted.
Stores : List CandleData → ℕ → Ingestion → Ingestion → Type 0
Stores cs n s after =
    ((symbol timeframe : String) (open_time : Time)
      → find_candle symbol timeframe open_time after.candles
        ≡ last_given symbol timeframe open_time cs
            (find_candle symbol timeframe open_time s.candles))
    × (total_of after.all_candles ≡ total_of s.all_candles + length cs)
    × (after.requests ≡ s.requests + n)
    × (after.events ≡ s.events)
    × (after.rollback_needed ≡ false)

total_of-append :
    (xs : List (String × ℕ)) (symbol : String) (count : ℕ)
    → total_of (xs ++ ((symbol, count) ∷ [])) ≡ total_of xs + count
unfolding total_of
total_of-append [] symbol count = ground arith
total_of-append ((other, c) ∷ xs) symbol count =
    let ih = total_of-append xs symbol count in ground arith

Stores-trans :
    (as_first as_next : List CandleData) (n m k : ℕ) (s t u : Ingestion)
    → k ≡ n + m
    → Stores as_first n s t
    → Stores as_next m t u
    → Stores (as_first ++ as_next) k s u
unfolding Stores
Stores-trans as_first as_next n m k s t u e (found, total, sent, kept, whole)
      (found', total', sent', kept', whole') =
    (
      λ symbol timeframe open_time.
          found' symbol timeframe open_time
          ∙ (ap (last_given symbol timeframe open_time as_next) (found symbol timeframe open_time)
              ∙ sym (
                  last_given-append symbol timeframe open_time as_first as_next
                    (find_candle symbol timeframe open_time s.candles))),
      ground (arith, length-append as_first as_next),
      omega arith,
      kept' ∙ kept,
      whole',
    )

after_upsert-Stores :
    (symbol timeframe : String) (raw : List CandleData) (s : Ingestion)
    (stored : Result (List CandleData × ℕ)) (after : List CandleData)
    → stored ≡ ok (after, length raw)
    → ((symbol timeframe : String) (open_time : Time)
        → find_candle symbol timeframe open_time after
          ≡ last_given symbol timeframe open_time raw
              (find_candle symbol timeframe open_time s.candles))
    → s.rollback_needed ≡ false
    → Stores raw 1 s (after_upsert symbol timeframe stored s)
unfolding Stores
after_upsert-Stores symbol timeframe raw s stored after e found whole =
    rw e (found, total_of-append s.all_candles symbol (length raw), omega arith, refl, whole)

after_fetch-Stores :
    (symbol timeframe : String) (answer : Option (List CandleData)) (s : Ingestion)
    → DistinctKeys (candles_of answer)
    → s.rollback_needed ≡ false
    → Stores (candles_of answer) 1 s (after_fetch symbol timeframe answer s)
unfolding Stores
after_fetch-Stores symbol timeframe none s apart whole =
    (λ symbol timeframe open_time. refl, omega arith, omega arith, refl, whole)
after_fetch-Stores symbol timeframe (some raw) s apart whole =
    let (after, stored, found) = upsert_many-stores raw s.candles apart in
    after_upsert-Stores symbol timeframe raw s (upsert_in s.rollback_needed raw s.candles) after
      (ap (λ broken. upsert_in broken raw s.candles) whole ∙ stored) found whole

-- No answer of the client repeats a key.
abbrev pub AnswersDistinct : KlineClient → ℕ → Type 0
AnswersDistinct client limit =
    (n : ℕ) (symbol timeframe : String)
    → DistinctKeys (candles_of (client n symbol timeframe limit))

module _ (client : KlineClient) (limit : ℕ) where
  -- The candles that the requests from a number on answer, in their order.
  unfoldable pub fetched_of : String → List String → ℕ → List CandleData
  fetched_of symbol [] n = []
  fetched_of symbol (timeframe ∷ timeframes) n =
      candles_of (client n symbol timeframe limit) ++ fetched_of symbol timeframes (suc n)

  unfoldable pub fetched : List String → List String → ℕ → List CandleData
  unfolding fetched_of
  fetched [] timeframes n = []
  fetched (symbol ∷ symbols) timeframes n =
      fetched_of symbol timeframes n ++ fetched symbols timeframes (n + length timeframes)

  ingest_symbol-Stores :
      (symbol : String) (timeframes : List String) (s : Ingestion)
      → AnswersDistinct client limit
      → s.rollback_needed ≡ false
      → Stores
          (fetched_of symbol timeframes s.requests)
          (length timeframes)
          s
          (ingest_symbol client limit symbol timeframes s)
  unfolding fetched_of ingest_symbol Stores
  ingest_symbol-Stores symbol [] s apart whole =
      (λ symbol timeframe open_time. refl, omega arith, omega arith, refl, whole)
  ingest_symbol-Stores symbol (timeframe ∷ timeframes) s apart whole =
      let answer = client s.requests symbol timeframe limit in
      let next = after_fetch symbol timeframe answer s in
      let (found, total, sent, kept, fine) =
        after_fetch-Stores symbol timeframe answer s (apart s.requests symbol timeframe) whole in
      let requested : next.requests ≡ suc s.requests = omega arith in
      Stores-trans (candles_of answer) (fetched_of symbol timeframes (suc s.requests)) 1
        (length timeframes) (length (timeframe ∷ timeframes)) s next
        (ingest_symbol client limit symbol timeframes next) (omega arith)
        (found, total, sent, kept, fine)
        (subst
          (λ n.
            Stores (fetched_of symbol timeframes n) (length timeframes) next
              (ingest_symbol client limit symbol timeframes next))
          requested (ingest_symbol-Stores symbol timeframes next apart fine))

  ingest_symbols-Stores :
      (symbols timeframes : List String) (s : Ingestion)
      → AnswersDistinct client limit
      → s.rollback_needed ≡ false
      → Stores
          (fetched symbols timeframes s.requests)
          (length symbols * length timeframes)
          s
          (ingest_symbols client limit symbols timeframes s)
  unfolding fetched ingest_symbols Stores
  ingest_symbols-Stores [] timeframes s apart whole =
      (λ symbol timeframe open_time. refl, omega arith, omega arith, refl, whole)
  ingest_symbols-Stores (symbol ∷ symbols) timeframes s apart whole =
      let next = ingest_symbol client limit symbol timeframes s in
      let rounds = suc-mul (length symbols) (length timeframes) in
      let (found, total, sent, kept, fine) = ingest_symbol-Stores symbol timeframes s apart whole in
      Stores-trans (fetched_of symbol timeframes s.requests)
        (fetched symbols timeframes (s.requests + length timeframes)) (length timeframes)
        (length symbols * length timeframes) (length (symbol ∷ symbols) * length timeframes) s next
        (ingest_symbols client limit symbols timeframes next) (omega arith)
        (found, total, sent, kept, fine)
        (subst
          (λ n.
            Stores (fetched symbols timeframes n) (length symbols * length timeframes) next
              (ingest_symbols client limit symbols timeframes next))
          sent (ingest_symbols-Stores symbols timeframes next apart fine))

-- Between two states the candles were stored by so many requests and one event, whose total is
-- their number: under each key stands the last of them, or the candle from before if there is none.
-- The call returns.
pub IsIngested : List CandleData → ℕ → Ingestion → Ingestion × Result (Unit {0}) → Type 0
IsIngested cs n s (after, returned) =
    (returned ≡ ok tt)
    × ((symbol timeframe : String) (open_time : Time)
        → find_candle symbol timeframe open_time after.candles
          ≡ last_given symbol timeframe open_time cs
              (find_candle symbol timeframe open_time s.candles))
    × (after.requests ≡ s.requests + n)
    × (e : DataIngested) × (after.events ≡ e ∷ s.events)
    × (e.total_candles ≡ length cs)

record_ingested-IsIngested :
    (client : KlineClient) (limit : ℕ) (broken : Bool) (timeframes : List String)
    (cs : List CandleData) (n : ℕ) (s done : Ingestion)
    → done.rollback_needed ≡ broken
    → Stores cs n (record s { counts = []; all_candles = [] }) done
    → IsIngested cs n s (record_ingested client limit broken timeframes done)
unfolding Stores IsIngested total_of
record_ingested-IsIngested client limit true timeframes cs n s done e
      (found, total, sent, kept, whole) =
    absurd (ground arith)
record_ingested-IsIngested client limit false timeframes cs n s done e
      (found, total, sent, kept, whole) =
    let event : DataIngested = record {
      total_candles = total_of done.all_candles;
      symbols = symbols_of done.all_candles;
      timeframes = timeframes;
    } in
    (refl, found, sent, event, ap (λ events. event ∷ events) kept, omega arith)

-- With a client whose answers repeat no key, and a session without a failed commit, an ingestion
-- returns. The table then holds under each key the candle that its requests answered last, or the
-- one from before when none of them answered the key. It makes one request for each pair of a
-- symbol and a timeframe, whichever of them raise, and adds one event, whose total is the number
-- of candles that were answered.
pub ingest_once-IsIngested :
    (client : KlineClient) (limit : ℕ) (symbols timeframes : Option (List String)) (s : Ingestion)
    → AnswersDistinct client limit
    → s.rollback_needed ≡ false
    → IsIngested
        (fetched client limit
          (given_or symbols symbols_configured)
          (given_or timeframes timeframes_configured)
          s.requests)
        (length (given_or symbols symbols_configured)
          * length (given_or timeframes timeframes_configured))
        s
        (ingest_once client limit symbols timeframes s)
unfolding ingest_once
ingest_once-IsIngested client limit symbols timeframes s apart whole =
    let start : Ingestion = record s { counts = []; all_candles = [] } in
    let symbols' = given_or symbols symbols_configured in
    let timeframes' = given_or timeframes timeframes_configured in
    let done = ingest_symbols client limit symbols' timeframes' start in
    record_ingested-IsIngested client limit done.rollback_needed timeframes' _ _ s done refl
      (ingest_symbols-Stores client limit symbols' timeframes' start apart whole)
