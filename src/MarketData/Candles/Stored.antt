-- ===== src/MarketData/Candles/Stored.antt =====
-- The table of candles as a map from keys to the candle that was given last.
use crypto_ai_trader.Base.{
  ◌≡◌, ◌↔◌, refl, sym, ◌∙◌, ap, arith, inl, inr, String, List, [], ◌∷◌, ◌++◌, Option, none, some,
  Bool, true, false, ok, Option-cases, if◌then◌else◌, str_eq_iff, Bool-cases, length,
}
use crypto_ai_trader.Strategies.Base.{Time}
use crypto_ai_trader.MarketData.Schemas.{CandleData}
use crypto_ai_trader.MarketData.Candles.{
  matches_key, find_candle, update, update_row, stage, insert_new, upsert_many,
}

-- The last candle of the key among some, or else the given one.
abbrev pub last_given :
    String → String → Time → List CandleData → Option CandleData → Option CandleData
last_given symbol timeframe open_time [] earlier = earlier
last_given symbol timeframe open_time (c ∷ cs) earlier =
    last_given symbol timeframe open_time cs
      (if matches_key symbol timeframe open_time c then some c else earlier)

update-eq :
    (row c : CandleData)
    → row.symbol ≡ c.symbol
    → row.timeframe ≡ c.timeframe
    → row.open_time ≡ c.open_time
    → update row c ≡ c
update-eq row c s t o = cc

matches_key_iff :
    (symbol timeframe : String) (open_time : Time) (row : CandleData)
    → (matches_key symbol timeframe open_time row ≡ true)
      ↔ ((row.symbol ≡ symbol) × (row.timeframe ≡ timeframe) × (row.open_time ≡ open_time))
matches_key_iff symbol timeframe open_time row =
    ground (arith, str_eq_iff row.symbol symbol, str_eq_iff row.timeframe timeframe)

find_candle-update :
    (symbol timeframe : String) (open_time : Time) (c row : CandleData) (rows : List CandleData)
    → matches_key c.symbol c.timeframe c.open_time row ≡ true
    → find_candle symbol timeframe open_time (update row c ∷ rows) ≡ (
        if matches_key symbol timeframe open_time c
        then some c
        else find_candle symbol timeframe open_time (row ∷ rows))
unfolding find_candle
find_candle-update symbol timeframe open_time c row rows same =
    let (s, t, o) = (matches_key_iff c.symbol c.timeframe c.open_time row).0 same in
    let keyed : matches_key symbol timeframe open_time row
        ≡ matches_key symbol timeframe open_time c =
      cc in
    rw (update-eq row c s t o, keyed)
      (elim (Bool-cases (matches_key symbol timeframe open_time c)) [
        | inl given ↦ simp given refl
        | inr left ↦ simp left refl
      ])

-- What a query finds after the update: a row that was there, or its new values.
abbrev updated_as : Bool → CandleData → Option CandleData → Option CandleData
updated_as matching c none = none
updated_as matching c (some row) = if matching then some c else some row

updated_as-found :
    (matching : Bool) (c row : CandleData) (o : Option CandleData)
    → ((matching ≡ true) → (o ≡ some row))
    → (if matching then some c else o) ≡ updated_as matching c o
updated_as-found true c row none h = absurd (ground arith)
updated_as-found true c row (some other) h = refl
updated_as-found false c row none h = refl
updated_as-found false c row (some other) h = refl

find_candle-update_row :
    (symbol timeframe : String) (open_time : Time) (c : CandleData) (rows : List CandleData)
    → find_candle symbol timeframe open_time (update_row c rows)
      ≡ updated_as
          (matches_key symbol timeframe open_time c)
          c
          (find_candle symbol timeframe open_time rows)
unfolding find_candle update_row
find_candle-update_row symbol timeframe open_time c [] = refl
find_candle-update_row symbol timeframe open_time c (row ∷ rows) =
    let ih = find_candle-update_row symbol timeframe open_time c rows in
    let keyed = matches_key_iff symbol timeframe open_time c in
    let row_keyed = matches_key_iff symbol timeframe open_time row in
    let same_keyed = matches_key_iff c.symbol c.timeframe c.open_time row in
    elim (Bool-cases (matches_key c.symbol c.timeframe c.open_time row)) [
      | inl same ↦
          let hit : (matches_key symbol timeframe open_time c ≡ true)
              → (matches_key symbol timeframe open_time row ≡ true) =
            λ given. ground (arith, keyed, row_keyed, same_keyed) in
          simp same (
            find_candle-update symbol timeframe open_time c row rows same
            ∙ updated_as-found (matches_key symbol timeframe open_time c) c row _
                (λ given. simp (hit given) refl))
      | inr other ↦ simp other (ground (arith, ih, keyed, row_keyed, same_keyed))
    ]

-- No key comes twice.
abbrev pub DistinctKeys : List CandleData → Type 0
DistinctKeys [] = Unit {0}
DistinctKeys (c ∷ cs) = (find_candle c.symbol c.timeframe c.open_time cs ≡ none) × DistinctKeys cs

abbrev or_else : Option CandleData → Option CandleData → Option CandleData
or_else none later = later
or_else (some row) later = some row

or_else-none : (o : Option CandleData) → or_else o none ≡ o
or_else-none none = refl
or_else-none (some row) = refl

find_candle-append :
    (symbol timeframe : String) (open_time : Time) (xs ys : List CandleData)
    → find_candle symbol timeframe open_time (xs ++ ys)
      ≡ or_else
          (find_candle symbol timeframe open_time xs)
          (find_candle symbol timeframe open_time ys)
unfolding find_candle
find_candle-append symbol timeframe open_time [] ys = refl
find_candle-append symbol timeframe open_time (x ∷ xs) ys =
    elim (Bool-cases (matches_key symbol timeframe open_time x)) [
      | inl found ↦ simp found refl
      | inr other ↦ simp other (find_candle-append symbol timeframe open_time xs ys)
    ]

-- A key that no candle has is given no candle.
last_given-free :
    (symbol timeframe : String) (open_time : Time) (cs : List CandleData)
    (earlier : Option CandleData)
    → find_candle symbol timeframe open_time cs ≡ none
    → last_given symbol timeframe open_time cs earlier ≡ earlier
unfolding find_candle
last_given-free symbol timeframe open_time [] earlier free = refl
last_given-free symbol timeframe open_time (c ∷ cs) earlier free =
    elim (Bool-cases (matches_key symbol timeframe open_time c)) [
      | inl found ↦ absurd (ground arith)
      | inr other ↦
          simp other (last_given-free symbol timeframe open_time cs earlier (rw other at free))
    ]

-- Two keys of one candle find the same.
find_candle-key :
    (symbol timeframe : String) (open_time : Time) (c : CandleData) (cs : List CandleData)
    → matches_key symbol timeframe open_time c ≡ true
    → find_candle c.symbol c.timeframe c.open_time cs ≡ find_candle symbol timeframe open_time cs
find_candle-key symbol timeframe open_time c cs h =
    let (s, t, o) = (matches_key_iff symbol timeframe open_time c).0 h in cc

stage-free :
    (symbol timeframe : String) (open_time : Time) (cs rows : List CandleData)
    → find_candle symbol timeframe open_time rows ≡ none
    → find_candle symbol timeframe open_time (stage cs rows).0 ≡ none
unfolding stage
stage-free symbol timeframe open_time [] rows free = free
stage-free symbol timeframe open_time (c ∷ cs) rows free =
    elim (Option-cases (find_candle c.symbol c.timeframe c.open_time rows)) [
      | inl e ↦ simp e (stage-free symbol timeframe open_time cs rows free)
      | inr (row, e) ↦ simp e (
          stage-free symbol timeframe open_time cs (update_row c rows)
            (find_candle-update_row symbol timeframe open_time c rows ∙ (rw free refl)))
    ]

stage-new_free :
    (symbol timeframe : String) (open_time : Time) (cs rows : List CandleData)
    → find_candle symbol timeframe open_time cs ≡ none
    → find_candle symbol timeframe open_time (stage cs rows).1 ≡ none
unfolding stage find_candle
stage-new_free symbol timeframe open_time [] rows free = free
stage-new_free symbol timeframe open_time (c ∷ cs) rows free =
    elim (Bool-cases (matches_key symbol timeframe open_time c)) [
      | inl found ↦ absurd (ground arith)
      | inr other ↦
          let rest = rw other at free in
          elim (Option-cases (find_candle c.symbol c.timeframe c.open_time rows)) [
            | inl e ↦ simp (e, other) (stage-new_free symbol timeframe open_time cs rows rest)
            | inr (row, e) ↦
                simp e (stage-new_free symbol timeframe open_time cs (update_row c rows) rest)
          ]
    ]

-- The new rows are free in the updated table, and have distinct keys.
abbrev AreFree : List CandleData → List CandleData → Type 0
AreFree [] rows = Unit {0}
AreFree (c ∷ cs) rows = (find_candle c.symbol c.timeframe c.open_time rows ≡ none) × AreFree cs rows

stage-AreFree : (cs rows : List CandleData) → AreFree (stage cs rows).1 (stage cs rows).0
unfolding stage
stage-AreFree [] rows = tt
stage-AreFree (c ∷ cs) rows =
    elim (Option-cases (find_candle c.symbol c.timeframe c.open_time rows)) [
      | inl e ↦
          simp e (stage-free c.symbol c.timeframe c.open_time cs rows e, stage-AreFree cs rows)
      | inr (row, e) ↦ simp e (stage-AreFree cs (update_row c rows))
    ]

stage-DistinctKeys : (cs rows : List CandleData) → DistinctKeys cs → DistinctKeys (stage cs rows).1
unfolding stage
stage-DistinctKeys [] rows h = tt
stage-DistinctKeys (c ∷ cs) rows (free, h) =
    elim (Option-cases (find_candle c.symbol c.timeframe c.open_time rows)) [
      | inl e ↦ simp e (
        stage-new_free c.symbol c.timeframe c.open_time cs rows free,
        stage-DistinctKeys cs rows h,
      )
      | inr (row, e) ↦ simp e (stage-DistinctKeys cs (update_row c rows) h)
    ]

-- The updated and the new rows together hold what was given.
stage-found :
    (symbol timeframe : String) (open_time : Time) (cs rows : List CandleData)
    → DistinctKeys cs
    → or_else
        (find_candle symbol timeframe open_time (stage cs rows).0)
        (find_candle symbol timeframe open_time (stage cs rows).1)
      ≡ last_given symbol timeframe open_time cs (find_candle symbol timeframe open_time rows)
unfolding stage find_candle
stage-found symbol timeframe open_time [] rows h =
    or_else-none (find_candle symbol timeframe open_time rows)
stage-found symbol timeframe open_time (c ∷ cs) rows (free, h) =
    elim (Option-cases (find_candle c.symbol c.timeframe c.open_time rows)) [
      | inl e ↦ elim (Bool-cases (matches_key symbol timeframe open_time c)) [
        | inl given ↦
            let key = find_candle-key symbol timeframe open_time c in
            let absent : find_candle symbol timeframe open_time rows ≡ none =
              sym (key rows given) ∙ e in
            let gone = stage-free symbol timeframe open_time cs rows absent in
            let only =
              last_given-free symbol timeframe open_time cs (some c) (sym (key cs given) ∙ free) in
            simp (e, given, gone, only) refl
        | inr other ↦ simp (e, other) (stage-found symbol timeframe open_time cs rows h)
      ]
      | inr (row, e) ↦
          let matching = matches_key symbol timeframe open_time c in
          let stored = find_candle symbol timeframe open_time rows in
          simp e (
            stage-found symbol timeframe open_time cs (update_row c rows) h
            ∙ ap (last_given symbol timeframe open_time cs) (
                find_candle-update_row symbol timeframe open_time c rows
                ∙ sym (
                    updated_as-found matching c row stored (λ given.
                      sym (find_candle-key symbol timeframe open_time c rows given) ∙ e))))
    ]

append-nil : (xs : List CandleData) → xs ++ [] ≡ xs
append-nil [] = refl
append-nil (x ∷ xs) = ap (λ rest. x ∷ rest) (append-nil xs)

append-snoc :
    (xs : List CandleData) (c : CandleData) (ys : List CandleData)
    → (xs ++ c ∷ []) ++ ys ≡ xs ++ c ∷ ys
append-snoc [] c ys = refl
append-snoc (x ∷ xs) c ys = ap (λ rest. x ∷ rest) (append-snoc xs c ys)

-- Of two candles with different keys neither is found under the other's key.
find_candle-apart :
    (c d : CandleData) (ds : List CandleData)
    → find_candle c.symbol c.timeframe c.open_time (d ∷ ds) ≡ none
    → (find_candle d.symbol d.timeframe d.open_time (c ∷ []) ≡ none)
      × (find_candle c.symbol c.timeframe c.open_time ds ≡ none)
unfolding find_candle
find_candle-apart c d ds h = elim (Bool-cases (matches_key c.symbol c.timeframe c.open_time d)) [
  | inl same ↦ absurd (ground arith)
  | inr other ↦
      let turned : matches_key d.symbol d.timeframe d.open_time c ≡ false = ground (
        arith,
        matches_key_iff c.symbol c.timeframe c.open_time d,
        matches_key_iff d.symbol d.timeframe d.open_time c,
      ) in
      (rw turned refl, rw other at h)
]

AreFree-snoc :
    (cs rows : List CandleData) (c : CandleData)
    → AreFree cs rows
    → find_candle c.symbol c.timeframe c.open_time cs ≡ none
    → AreFree cs (rows ++ c ∷ [])
AreFree-snoc [] rows c free apart = tt
AreFree-snoc (d ∷ ds) rows c (free, rest) apart =
    let (turned, later) = find_candle-apart c d ds apart in
    (
      find_candle-append d.symbol d.timeframe d.open_time rows (c ∷ []) ∙ (rw (free, turned) refl),
      AreFree-snoc ds rows c rest later,
    )

insert_new-all :
    (new rows : List CandleData)
    → AreFree new rows
    → DistinctKeys new
    → insert_new new rows ≡ ok (rows ++ new)
unfolding insert_new
insert_new-all [] rows free h = ap ok (sym (append-nil rows))
insert_new-all (c ∷ cs) rows (free, rest) (apart, h) = simp free (
    insert_new-all cs (rows ++ c ∷ []) (AreFree-snoc cs rows c rest apart) h
    ∙ ap ok (append-snoc rows c cs))

-- A call with distinct keys commits: it counts its candles, and a query finds under each key the
-- candle that was given, or the row from before.
pub upsert_many-stores :
    (cs rows : List CandleData)
    → DistinctKeys cs
    → (after : List CandleData) × (upsert_many cs rows ≡ ok (after, length cs))
      × ((symbol timeframe : String) (open_time : Time)
          → find_candle symbol timeframe open_time after
            ≡ last_given symbol timeframe open_time cs
                (find_candle symbol timeframe open_time rows))
unfolding upsert_many
upsert_many-stores cs rows h =
    let (after, new) = stage cs rows in
    (
      after ++ new,
      rw (insert_new-all new after (stage-AreFree cs rows) (stage-DistinctKeys cs rows h)) refl,
      λ symbol timeframe open_time.
          find_candle-append symbol timeframe open_time after new
          ∙ stage-found symbol timeframe open_time cs rows h,
    )

pub last_given-append :
    (symbol timeframe : String) (open_time : Time) (xs ys : List CandleData)
    (earlier : Option CandleData)
    → last_given symbol timeframe open_time (xs ++ ys) earlier
      ≡ last_given symbol timeframe open_time ys (last_given symbol timeframe open_time xs earlier)
last_given-append symbol timeframe open_time [] ys earlier = refl
last_given-append symbol timeframe open_time (x ∷ xs) ys earlier =
    last_given-append symbol timeframe open_time xs ys
      (if matches_key symbol timeframe open_time x then some x else earlier)
