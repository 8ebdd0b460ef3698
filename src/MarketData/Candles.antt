-- ===== src/MarketData/Candles.antt =====
-- `upsert_many` and `list_recent` of CandlesRepository in trading/storage/repositories.py. The
-- table is the list of its rows in the order of their insertion. Of the database's errors only the
-- unique constraint of the table is modelled.
pub mod Stored
pub mod Oldest
use crypto_ai_trader.Base.{
  ℕ, String, List, [], ◌∷◌, ◌++◌, Result, ok, err, integrity_error, ◌>>=◌, length, Option, none,
  some, Bool, ◌&&◌, ◌==◌, if◌then◌else◌, str_eq, leb, take,
}
use crypto_ai_trader.Strategies.Base.{Time}
use crypto_ai_trader.MarketData.Schemas.{CandleData}

-- The columns that the query compares.
abbrev pub matches_key : String → String → Time → CandleData → Bool
matches_key symbol timeframe open_time row =
    str_eq row.symbol symbol && str_eq row.timeframe timeframe && row.open_time == open_time

-- The row that the query finds.
unfoldable pub find_candle : String → String → Time → List CandleData → Option CandleData
find_candle symbol timeframe open_time [] = none
find_candle symbol timeframe open_time (row ∷ rows) =
    if matches_key symbol timeframe open_time row
    then some row
    else find_candle symbol timeframe open_time rows

-- The assignments to an existing row.
abbrev pub update : CandleData → CandleData → CandleData
update existing c = record existing {
  close_time = c.close_time;
  open_price = c.open_price;
  high = c.high;
  low = c.low;
  close = c.close;
  volume = c.volume;
  source = c.source;
}

unfoldable pub update_row : CandleData → List CandleData → List CandleData
update_row c [] = []
update_row c (row ∷ rows) =
    if matches_key c.symbol c.timeframe c.open_time row
    then update row c ∷ rows
    else row ∷ update_row c rows

-- The two branches of the loop's body: a row that was found is updated, else one is added to the
-- session.
abbrev pub rows_after : Option CandleData → CandleData → List CandleData → List CandleData
rows_after none c rows = rows
rows_after (some existing) c rows = update_row c rows

abbrev pub added_by : Option CandleData → CandleData → List CandleData → List CandleData
added_by none c new = c ∷ new
added_by (some existing) c new = new

-- The loop, which leaves the updated rows and the new ones. The session does not flush before a
-- query, so that a query does not find the new rows of the same call.
unfoldable pub stage : List CandleData → List CandleData → List CandleData × List CandleData
unfolding find_candle update_row
stage [] rows = (rows, [])
stage (c ∷ cs) rows =
    let existing = find_candle c.symbol c.timeframe c.open_time rows in
    let (after, new) = stage cs (rows_after existing c rows) in (after, added_by existing c new)

abbrev pub insert_if : Option CandleData → Result (List CandleData) → Result (List CandleData)
insert_if (some row) rest = err integrity_error
insert_if none rest = rest

-- The insertions at the commit, under the constraint uq_candle_symbol_timeframe_open_time.
unfoldable pub insert_new : List CandleData → List CandleData → Result (List CandleData)
unfolding find_candle
insert_new [] rows = ok rows
insert_new (c ∷ cs) rows =
    let rest = insert_new cs (rows ++ c ∷ []) in
    insert_if (find_candle c.symbol c.timeframe c.open_time rows) rest

abbrev pub commit : ℕ → List CandleData × List CandleData → Result (List CandleData × ℕ)
commit affected (after, new) = insert_new new after >>= λ rows. ok (rows, affected)

-- The table behind the call and the count; where the commit raises, the table stays.
unfoldable pub upsert_many : List CandleData → List CandleData → Result (List CandleData × ℕ)
unfolding stage insert_new
upsert_many cs rows = commit (length cs) (stage cs rows)

abbrev pub is_of : String → String → CandleData → Bool
is_of symbol timeframe row = str_eq row.symbol symbol && str_eq row.timeframe timeframe

unfoldable pub where_of : String → String → List CandleData → List CandleData
where_of symbol timeframe [] = []
where_of symbol timeframe (row ∷ rows) =
    let rest = where_of symbol timeframe rows in
    if is_of symbol timeframe row then row ∷ rest else rest

unfoldable pub place : CandleData → List CandleData → List CandleData
place c [] = c ∷ []
place c (row ∷ rows) = if leb c.open_time row.open_time then c ∷ row ∷ rows else row ∷ place c rows

-- `order_by(asc(Candle.open_time))`; rows of the same time keep their order.
unfoldable pub by_open_time : List CandleData → List CandleData
unfolding place
by_open_time [] = []
by_open_time (row ∷ rows) = place row (by_open_time rows)

-- `list_recent`
unfoldable pub list_recent : String → String → (limit : ℕ) → List CandleData → List CandleData
unfolding where_of by_open_time
list_recent symbol timeframe limit rows = take limit (by_open_time (where_of symbol timeframe rows))
