-- ===== src/Execution/Filters.antt =====
-- trading/execution/binance_filters.py: the order filters of a symbol. A JSON object of texts is
-- a Dict; what `Decimal` reads from a text is a parameter, `decimal_of`. Closing the HTTP client
-- is left out.
pub mod Quantized
use crypto_ai_trader.Base.{
  String, List, [], ◌∷◌, Option, none, some, Bool, true, false, not, ◌||◌, if◌then◌else◌, str_eq,
  Result, err, ok, uncaught, ◌>>=◌,
}
use crypto_ai_trader.Base.Dict.{Dict, lookup, insert}
use crypto_ai_trader.Execution.Exchange.{SymbolInfo}
use crypto_ai_trader.Decimal.{Decimal, dec, nought, one, le, mul, quantize_down}

pub record SymbolFilters : Type 0 where
  pub min_notional : Decimal
  pub step_size : Decimal
  pub tick_size : Decimal

-- `f[key]`, which raises a KeyError.
abbrev pub item : String → Dict String → Result String
item key f = elim (lookup key f) [ none ↦ err uncaught | some text ↦ ok text ]

abbrev pub default_filters : SymbolFilters
default_filters = record { min_notional = nought; step_size = one; tick_size = dec 1 8 }

-- The loop bodies of `from_binance` and `fetch_and_cache`.
module _ (decimal_of : String → Result Decimal) where
  unfoldable pub read_filter : SymbolFilters → Dict String → Result SymbolFilters
  read_filter acc f = item "filterType" f >>= λ kind.
      if str_eq kind "MIN_NOTIONAL"
      then (item "minNotional" f >>= decimal_of >>= λ d. ok (record acc { min_notional = d }))
      else if str_eq kind "LOT_SIZE"
      then (item "stepSize" f >>= decimal_of >>= λ d. ok (record acc { step_size = d }))
      else if str_eq kind "PRICE_FILTER"
      then (item "tickSize" f >>= decimal_of >>= λ d. ok (record acc { tick_size = d }))
      else ok acc

  unfoldable pub read_filters : SymbolFilters → List (Dict String) → Result SymbolFilters
  unfolding read_filter
  read_filters acc [] = ok acc
  read_filters acc (f ∷ fs) = read_filter acc f >>= λ next. read_filters next fs

  abbrev pub from_binance : List (Dict String) → Result SymbolFilters
  from_binance filters = read_filters default_filters filters

unfoldable pub contains : String → List String → Bool
contains x [] = false
contains x (y ∷ ys) = if str_eq y x then true else contains x ys

abbrev pub is_trading : Option String → Bool
is_trading none = false
is_trading (some status) = str_eq status "TRADING"

-- `symbols is not None and sym not in symbols`
abbrev pub left_out : Option (List String) → String → Bool
left_out none sym = false
left_out (some symbols) sym = not (contains sym symbols)

module _ (decimal_of : String → Result Decimal) where
  -- The loop over the entries. Entries that were cached before one raises stay.
  unfoldable pub cache_symbols :
      Option (List String)
      → List SymbolInfo
      → Dict SymbolFilters
      → Dict SymbolFilters × Result (Unit {0})
  unfolding contains
  cache_symbols symbols [] cache = (cache, ok tt)
  cache_symbols symbols (info ∷ infos) cache =
      elim (left_out symbols info.symbol || not (is_trading info.status)) [
        | true ↦ cache_symbols symbols infos cache
        | false ↦ elim (from_binance decimal_of info.filters) [
          | err why ↦ (cache, err why)
          | ok filters ↦ cache_symbols symbols infos (insert info.symbol filters cache)
        ]
      ]

abbrev pub get_filters : Dict SymbolFilters → String → Option SymbolFilters
get_filters cache symbol = lookup symbol cache

-- `Decimal | None`: a quantity that floors to zero or less is `none`.
abbrev pub floor_quantity : Option SymbolFilters → Decimal → Result (Option Decimal)
floor_quantity none qty = ok none
floor_quantity (some filters) qty =
    quantize_down qty filters.step_size >>= λ q. ok (if le q nought then none else some q)

unfoldable pub format_quantity : Dict SymbolFilters → String → Decimal → Result (Option Decimal)
format_quantity cache symbol qty = floor_quantity (lookup symbol cache) qty

abbrev pub floor_price : Option SymbolFilters → Decimal → Result (Option Decimal)
floor_price none price = ok none
floor_price (some filters) price = quantize_down price filters.tick_size >>= λ p. ok (some p)

unfoldable pub format_price : Dict SymbolFilters → String → Decimal → Result (Option Decimal)
format_price cache symbol price = floor_price (lookup symbol cache) price

abbrev pub reaches_minimum : Option SymbolFilters → Decimal → Decimal → Result Bool
reaches_minimum none qty price = ok false
reaches_minimum (some filters) qty price = quantize_down qty filters.step_size >>= λ qty_q.
    quantize_down price filters.tick_size >>= λ price_q.
    ok (le filters.min_notional (mul qty_q price_q))

unfoldable pub validate_min_notional : Dict SymbolFilters → String → Decimal → Decimal → Result Bool
validate_min_notional cache symbol qty price = reaches_minimum (lookup symbol cache) qty price

abbrev pub floor_to_step : Decimal → Decimal → Result Decimal
floor_to_step value step = quantize_down value step

abbrev pub round_to_tick : Decimal → Decimal → Result Decimal
round_to_tick value tick = quantize_down value tick
