-- ===== src/Runtime/Runner/Baseline/Stable.antt =====
-- The baseline of a day is set once and then read back.
use crypto_ai_trader.Base.{
  ℕ, ◌≡◌, refl, ◌∙◌, arith, inl, inr, String, List, [], ◌∷◌, Option, none, some, Bool-cases, true,
  Result, ok, All,
}
use crypto_ai_trader.Decimal.{Decimal, nought, max_of}
use crypto_ai_trader.Strategies.Base.{Time}
use crypto_ai_trader.Runtime.Runner.Baseline.{
  date_of, BaselineSet, has_date, create_baseline, reuse_baseline, latest_event, by_latest,
  get_or_create_day_baseline, after_calls,
}

module _ (text_of : Decimal → String) (decimal_of : String → Result Decimal)
    -- The text of a number is read as that number.
    (decimal_of-text_of : (d : Decimal) → decimal_of (text_of d) ≡ ok d) where
  -- The latest event of a log is that of the day, with the text of the number `b`.
  abbrev HasBaseline : ℕ → Decimal → Option BaselineSet → Type 0
  HasBaseline today b none = ⊥
  HasBaseline today b (some event) =
      (has_date event.date today ≡ true)
      × ((text : String) × (event.baseline ≡ some text) × (decimal_of text ≡ ok b))

  create-HasBaseline :
      (today : ℕ) (equity : Decimal) (log : List BaselineSet) {b : Decimal}
      → (create_baseline text_of decimal_of today equity log).1 ≡ ok b
      → HasBaseline today b (latest_event (create_baseline text_of decimal_of today equity log).0)
  create-HasBaseline today equity log h =
      (ground arith, (_, refl, decimal_of-text_of (max_of equity nought) ∙ h))

  reuse-HasBaseline :
      (text : Option String) (today : ℕ) (equity : Decimal) (log : List BaselineSet) {b : Decimal}
      (event : BaselineSet)
      → latest_event log ≡ some event
      → has_date event.date today ≡ true
      → event.baseline ≡ text
      → (reuse_baseline text_of decimal_of text today equity log).1 ≡ ok b
      → HasBaseline today b
          (latest_event (reuse_baseline text_of decimal_of text today equity log).0)
  reuse-HasBaseline none today equity log event e dated has h =
      create-HasBaseline today equity log h
  reuse-HasBaseline (some text) today equity log event e dated has h = rw e (dated, (text, has, h))

  by_latest-HasBaseline :
      (latest : Option BaselineSet) (today : ℕ) (equity : Decimal) (log : List BaselineSet)
      {b : Decimal}
      → latest_event log ≡ latest
      → (by_latest text_of decimal_of latest today equity log).1 ≡ ok b
      → HasBaseline today b (latest_event (by_latest text_of decimal_of latest today equity log).0)
  by_latest-HasBaseline none today equity log e h = create-HasBaseline today equity log h
  by_latest-HasBaseline (some event) today equity log e h =
      elim (Bool-cases (has_date event.date today)) [
        | inl dated ↦
            simp dated (
              reuse-HasBaseline event.baseline today equity log event e dated refl
                (simp dated at h))
        | inr other ↦ simp other (create-HasBaseline today equity log (simp other at h))
      ]

  -- A day's baseline in the log is what a call on that day returns, and the call writes nothing.
  by_latest_found :
      (latest : Option BaselineSet) (today : ℕ) (equity : Decimal) (log : List BaselineSet)
      {b : Decimal}
      → HasBaseline today b latest
      → by_latest text_of decimal_of latest today equity log ≡ (log, ok b)
  by_latest_found none today equity log found = absurd found
  by_latest_found (some event) today equity log (dated, (text, has, read)) =
      rw (dated, has, read) refl

  after_calls_found :
      (calls : List (Time × Decimal)) (today : ℕ) (log : List BaselineSet) (b : Decimal)
      → HasBaseline today b (latest_event log)
      → All (λ call. date_of call.0 ≡ today) calls
      → after_calls text_of decimal_of calls log ≡ log
  unfolding after_calls get_or_create_day_baseline
  after_calls_found [] today log b found same_day = refl
  after_calls_found ((now, equity) ∷ calls) today log b found (same, same_day) =
      let unchanged : by_latest text_of decimal_of (latest_event log) (date_of now) equity log
          ≡ (log, ok b) =
        rw same (by_latest_found (latest_event log) today equity log found) in
      rw unchanged (after_calls_found calls today log b found same_day)

  -- Once a call has returned a baseline, every later call of the same day returns the same one,
  -- whatever the equity is by then and however many calls lie between, and none of them writes.
  pub get_or_create_day_baseline_stable :
      (now : Time) (equity : Decimal) (log : List BaselineSet) (b : Decimal)
      (calls : List (Time × Decimal)) (later : Time) (equity' : Decimal)
      → let (log', first) = get_or_create_day_baseline text_of decimal_of now equity log in
        first ≡ ok b
        → All (λ call. date_of call.0 ≡ date_of now) calls
        → date_of later ≡ date_of now
        → get_or_create_day_baseline text_of decimal_of later equity'
            (after_calls text_of decimal_of calls log')
          ≡ (log', ok b)
  unfolding get_or_create_day_baseline
  get_or_create_day_baseline_stable now equity log b calls later equity' h same_day same =
      let log' = (get_or_create_day_baseline text_of decimal_of now equity log).0 in
      let found = by_latest-HasBaseline (latest_event log) (date_of now) equity log refl h in
      rw (after_calls_found calls (date_of now) log' b found same_day, same)
        (by_latest_found (latest_event log') (date_of now) equity' log' found)
