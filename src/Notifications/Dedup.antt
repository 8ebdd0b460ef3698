-- ===== src/Notifications/Dedup.antt =====
-- trading/notifications/dedup.py. The clock is an argument of a call; the lock that serializes the
-- calls of several threads is left out, so a list of calls is their order.
pub mod Quiet
use crypto_ai_trader.Base.{
  ℕ, ◌+◌, String, List, [], ◌∷◌, ◌++◌, Option, none, some, Bool, true, false, ◌&&◌, ◌||◌, not,
  if◌then◌else◌, leb, str_eq,
}
use crypto_ai_trader.Strategies.Base.{Time}

pub record DedupKey : Type 0 where
  pub event_type : String
  pub component : String
  pub symbol : Option String

abbrev pub symbol_eq : Option String → Option String → Bool
symbol_eq none none = true
symbol_eq (some a) (some b) = str_eq a b
symbol_eq _ _ = false

-- The equality of frozen dataclasses, field by field.
unfoldable pub key_eq : DedupKey → DedupKey → Bool
key_eq a b =
    str_eq a.event_type b.event_type
    && str_eq a.component b.component
    && symbol_eq a.symbol b.symbol

-- `symbol or None`
abbrev pub symbol_or_none : Option String → Option String
symbol_or_none none = none
symbol_or_none (some text) = if str_eq text "" then none else some text

abbrev pub dedup_key : String → String → Option String → DedupKey
dedup_key event_type component symbol = record {
  event_type = event_type;
  component = component;
  symbol = symbol_or_none symbol;
}

-- A key with the time at which its entry expires.
abbrev pub Entries : Type 0
Entries = List (DedupKey × Time)

unfoldable pub evict : Time → Entries → Entries
evict now [] = []
evict now ((key, expire_at) ∷ rest) =
    if leb expire_at now then evict now rest else (key, expire_at) ∷ evict now rest

unfoldable pub has_key : DedupKey → Entries → Bool
has_key key [] = false
has_key key ((other, expire_at) ∷ rest) = key_eq other key || has_key key rest

-- `window` is in the unit of the clock.
unfoldable pub should_notify_with_key : ℕ → Time → DedupKey → Entries → Entries × Bool
unfolding evict has_key
should_notify_with_key window now key entries =
    let kept = evict now entries in
    if has_key key kept then (kept, false) else (kept ++ (key, now + window) ∷ [], true)

unfoldable pub should_notify : ℕ → Time → String → String → Option String → Entries → Entries × Bool
unfolding should_notify_with_key
should_notify window now event_type component symbol entries =
    should_notify_with_key window now (dedup_key event_type component symbol) entries

-- The entries after a list of calls.
unfoldable pub after_calls : ℕ → List (Time × DedupKey) → Entries → Entries
after_calls window [] entries = entries
after_calls window ((now, key) ∷ calls) entries =
    after_calls window calls (should_notify_with_key window now key entries).0

unfoldable pub reset_for_test : Entries → Entries
reset_for_test entries = []
