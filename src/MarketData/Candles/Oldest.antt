-- ===== src/MarketData/Candles/Oldest.antt =====
-- Which candles `list_recent` leaves out.
use mathlib.Core.List.{Memᴰ}
use crypto_ai_trader.Base.{
  ℕ, zero, suc, ◌≤◌, ◌≡◌, ◌⊎◌, inl, inr, refl, sym, ap, ◌∙◌, arith, String, List, [], ◌∷◌, true,
  leb, Bool-cases, All, All_member, length, take,
}
use crypto_ai_trader.MarketData.Schemas.{CandleData}
use crypto_ai_trader.MarketData.Candles.{is_of, where_of, place, by_open_time, list_recent}

abbrev pub OpensBefore : CandleData → CandleData → Type 0
OpensBefore c d = c.open_time ≤ d.open_time

abbrev pub Ascending : List CandleData → Type 0
Ascending [] = Unit
Ascending (c ∷ cs) = All (OpensBefore c) cs × Ascending cs

All-place :
    (P : CandleData → Type 0) (c : CandleData) (rows : List CandleData)
    → P c
    → All P rows
    → All P (place c rows)
unfolding place
All-place P c [] p all = (p, tt)
All-place P c (row ∷ rows) p (q, all) = elim (Bool-cases (leb c.open_time row.open_time)) [
  | inl early ↦ simp early (p, (q, all))
  | inr late ↦ simp late (q, All-place P c rows p all)
]

OpensBefore-through :
    (c row : CandleData) (rows : List CandleData)
    → OpensBefore c row
    → All (OpensBefore row) rows
    → All (OpensBefore c) rows
OpensBefore-through c row [] first all = tt
OpensBefore-through c row (d ∷ rows) first (e, all) =
    (omega arith, OpensBefore-through c row rows first all)

place-Ascending :
    (c : CandleData) (rows : List CandleData) → Ascending rows → Ascending (place c rows)
unfolding place
place-Ascending c [] ascending = (tt, tt)
place-Ascending c (row ∷ rows) (above, ascending) =
    elim (Bool-cases (leb c.open_time row.open_time)) [
      | inl early ↦
          let first : OpensBefore c row = ground arith in
          simp early ((first, OpensBefore-through c row rows first above), (above, ascending))
      | inr late ↦
          let first : OpensBefore row c = ground arith in
          simp late
            (All-place (OpensBefore row) c rows first above, place-Ascending c rows ascending)
    ]

by_open_time-Ascending : (rows : List CandleData) → Ascending (by_open_time rows)
unfolding by_open_time
by_open_time-Ascending [] = tt
by_open_time-Ascending (row ∷ rows) =
    place-Ascending row (by_open_time rows) (by_open_time-Ascending rows)

placed : (c : CandleData) (rows : List CandleData) → Memᴰ c (place c rows)
unfolding place
placed c [] = Memᴰ.head refl
placed c (row ∷ rows) = elim (Bool-cases (leb c.open_time row.open_time)) [
  | inl early ↦ simp early (Memᴰ.head refl)
  | inr late ↦ simp late (Memᴰ.tail (placed c rows))
]

still_in : (c d : CandleData) (rows : List CandleData) → Memᴰ d rows → Memᴰ d (place c rows)
unfolding place
still_in c d [] found = elim found [ ]
still_in c d (row ∷ rows) found = elim (Bool-cases (leb c.open_time row.open_time)) [
  | inl early ↦ simp early (Memᴰ.tail found)
  | inr late ↦ simp late (elim found [
    | Memᴰ.head e ↦ Memᴰ.head e
    | Memᴰ.tail rest ↦ Memᴰ.tail (still_in c d rows rest)
  ])
]

Memᴰ-by_open_time :
    (c : CandleData) (rows : List CandleData) → Memᴰ c rows → Memᴰ c (by_open_time rows)
unfolding by_open_time
Memᴰ-by_open_time c [] found = found
Memᴰ-by_open_time c (row ∷ rows) (Memᴰ.head e) = rw (e) (placed row (by_open_time rows))
Memᴰ-by_open_time c (row ∷ rows) (Memᴰ.tail found) =
    still_in row c (by_open_time rows) (Memᴰ-by_open_time c rows found)

Memᴰ-where_of :
    (symbol timeframe : String) (c : CandleData) (rows : List CandleData)
    → Memᴰ c rows
    → is_of symbol timeframe c ≡ true
    → Memᴰ c (where_of symbol timeframe rows)
unfolding where_of
Memᴰ-where_of symbol timeframe c [] found of = found
Memᴰ-where_of symbol timeframe c (row ∷ rows) (Memᴰ.head e) of =
    let same : is_of symbol timeframe row ≡ true = sym (ap (is_of symbol timeframe) e) ∙ of in
    simp same (Memᴰ.head e)
Memᴰ-where_of symbol timeframe c (row ∷ rows) (Memᴰ.tail found) of =
    let ih = Memᴰ-where_of symbol timeframe c rows found of in
    elim (Bool-cases (is_of symbol timeframe row)) [
      | inl same ↦ simp same (Memᴰ.tail ih)
      | inr other ↦ simp other ih
    ]

take-Ascending :
    (limit : ℕ) (c : CandleData) (rows : List CandleData)
    → Ascending rows
    → Memᴰ c rows
    → Memᴰ c (take limit rows)
      ⊎ ((length (take limit rows) ≡ limit)
          × All (λ listed. OpensBefore listed c) (take limit rows))
take-Ascending zero c rows ascending found = inr (refl, tt)
take-Ascending (suc limit) c [] ascending found = elim found [ ]
take-Ascending (suc limit) c (row ∷ rows) (above, ascending) (Memᴰ.head e) = inl (Memᴰ.head e)
take-Ascending (suc limit) c (row ∷ rows) (above, ascending) (Memᴰ.tail found) =
    elim (take-Ascending limit c rows ascending found) [
      | inl listed ↦ inl (Memᴰ.tail listed)
      | inr (full, earlier) ↦
          inr (ap suc full, (All_member (OpensBefore row) rows above found, earlier))
    ]

-- The candle is among those listed, or as many as the limit are, none of which opened later.
pub IsOldest : ℕ → CandleData → List CandleData → Type 0
IsOldest limit c listed =
    Memᴰ c listed ⊎ ((length listed ≡ limit) × All (λ row. OpensBefore row c) listed)

-- A stored candle of the symbol and the timeframe is among those listed, or else as many as the
-- limit are listed and each of them opened at its time or before. So the candles that a full list
-- leaves out are the most recent ones.
pub list_recent-IsOldest :
    (symbol timeframe : String) (limit : ℕ) (rows : List CandleData) (c : CandleData)
    → Memᴰ c rows
    → is_of symbol timeframe c ≡ true
    → IsOldest limit c (list_recent symbol timeframe limit rows)
unfolding list_recent IsOldest
list_recent-IsOldest symbol timeframe limit rows c found of =
    let candidates = where_of symbol timeframe rows in
    take-Ascending limit c (by_open_time candidates) (by_open_time-Ascending candidates)
      (Memᴰ-by_open_time c candidates (Memᴰ-where_of symbol timeframe c rows found of))
