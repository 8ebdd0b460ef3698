-- ===== src/Runtime/Runner/Baseline.antt =====
-- `_get_or_create_day_baseline`. The log holds the `day_baseline_set` events, the newest first; no
-- other event bears on the function. A date is the number of its day, which is as good as its
-- text. Python's `str` of a Decimal and `Decimal` of a text are parameters.
pub mod Stable
use crypto_ai_trader.Base.{
  ℕ, ◌/◌, String, List, [], ◌∷◌, Option, none, some, Bool, true, false, if◌then◌else◌, ◌==◌, Result,
  ok, err,
}
use crypto_ai_trader.Decimal.{Decimal, nought, max_of}
use crypto_ai_trader.Strategies.Base.{Time}

abbrev pub day_length : ℕ
day_length = 86_400_000_000

-- `now.date()` in UTC
abbrev pub date_of : Time → ℕ
date_of now = now / day_length

-- `context_json` of an event.
pub record BaselineSet : Type 0 where
  pub date : Option ℕ
  pub baseline : Option String

abbrev pub has_date : Option ℕ → ℕ → Bool
has_date none today = false
has_date (some date) today = date == today

abbrev pub latest_event : List BaselineSet → Option BaselineSet
latest_event [] = none
latest_event (event ∷ log) = some event

module _ (text_of : Decimal → String) (decimal_of : String → Result Decimal) where
  -- No baseline for today: create one.
  abbrev pub create_baseline : ℕ → Decimal → List BaselineSet → List BaselineSet × Result Decimal
  create_baseline today equity log =
      let baseline = max_of equity nought in
      (record { date = some today; baseline = some (text_of baseline) } ∷ log, ok baseline)

  abbrev pub reuse_baseline :
      Option String → ℕ → Decimal → List BaselineSet → List BaselineSet × Result Decimal
  reuse_baseline none today equity log = create_baseline today equity log
  reuse_baseline (some text) today equity log = (log, decimal_of text)

  abbrev pub by_latest :
      Option BaselineSet → ℕ → Decimal → List BaselineSet → List BaselineSet × Result Decimal
  by_latest none today equity log = create_baseline today equity log
  by_latest (some event) today equity log =
      if has_date event.date today
      then reuse_baseline event.baseline today equity log
      else create_baseline today equity log

  unfoldable pub get_or_create_day_baseline :
      Time → Decimal → List BaselineSet → List BaselineSet × Result Decimal
  get_or_create_day_baseline now equity log = by_latest (latest_event log) (date_of now) equity log

  -- The log after a list of calls.
  unfoldable pub after_calls : List (Time × Decimal) → List BaselineSet → List BaselineSet
  unfolding get_or_create_day_baseline
  after_calls [] log = log
  after_calls ((now, equity) ∷ calls) log =
      after_calls calls (get_or_create_day_baseline now equity log).0
