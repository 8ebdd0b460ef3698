-- ===== src/Notifications/Dedup/Quiet.antt =====
-- A key is quiet from an alert until its window ends.
use crypto_ai_trader.Base.{
  ℕ, ◌+◌, ◌<◌, ◌≤◌, ◌≡◌, ◌↔◌, refl, arith, String, List, [], ◌∷◌, ◌++◌, All, Option, none, some,
  Bool, true, false, ◌&&◌, ◌||◌, ltb, leb, str_eq_iff, Bool-cases, inl, inr,
}
use crypto_ai_trader.Strategies.Base.{Time}
use crypto_ai_trader.Notifications.Dedup.{
  DedupKey, symbol_eq, key_eq, Entries, evict, has_key, should_notify_with_key, after_calls,
}

-- Whether some entry of the key expires after the time.
abbrev pub is_quiet : DedupKey → Time → Entries → Bool
is_quiet key now [] = false
is_quiet key now ((other, expire_at) ∷ rest) =
    key_eq other key && ltb now expire_at || is_quiet key now rest

has_key-evict :
    (key : DedupKey) (now : Time) (entries : Entries)
    → has_key key (evict now entries) ≡ is_quiet key now entries
unfolding has_key evict
has_key-evict key now [] = refl
has_key-evict key now ((other, expire_at) ∷ rest) =
    let ih = has_key-evict key now rest in
    elim (Bool-cases (leb expire_at now)) [
      | inl over ↦ simp over (ground arith)
      | inr open_still ↦ simp open_still (ground arith)
    ]

is_quiet-evict :
    (key : DedupKey) (now later : Time) (entries : Entries)
    → now ≤ later
    → is_quiet key later entries ≡ true
    → is_quiet key later (evict now entries) ≡ true
unfolding evict
is_quiet-evict key now later [] h q = q
is_quiet-evict key now later ((other, expire_at) ∷ rest) h q =
    let ih = is_quiet-evict key now later rest h in
    elim (Bool-cases (leb expire_at now)) [
      | inl over ↦ simp over (ground arith)
      | inr open_still ↦ simp open_still (ground arith)
    ]

is_quiet-append :
    (key : DedupKey) (later : Time) (xs ys : Entries)
    → is_quiet key later (xs ++ ys) ≡ (is_quiet key later xs || is_quiet key later ys)
is_quiet-append key later [] ys = refl
is_quiet-append key later ((other, expire_at) ∷ xs) ys =
    let ih = is_quiet-append key later xs ys in ground arith

symbol_eq_refl : (s : Option String) → symbol_eq s s ≡ true
symbol_eq_refl none = refl
symbol_eq_refl (some a) = (str_eq_iff a a).1 refl

key_eq_refl : (key : DedupKey) → key_eq key key ≡ true
unfolding key_eq
key_eq_refl key = ground (
  arith,
  (str_eq_iff key.event_type key.event_type).1 refl,
  (str_eq_iff key.component key.component).1 refl,
  symbol_eq_refl key.symbol,
)

-- A call alerts exactly when no entry of its key is still open.
pub should_notify_with_key-alerts_iff :
    (window : ℕ) (now : Time) (key : DedupKey) (entries : Entries)
    → ((should_notify_with_key window now key entries).1 ≡ true)
      ↔ (is_quiet key now entries ≡ false)
unfolding should_notify_with_key
should_notify_with_key-alerts_iff window now key entries =
    let e = has_key-evict key now entries in ground arith

should_notify-keeps_quiet :
    (window : ℕ) (now later : Time) (other key : DedupKey) (entries : Entries)
    → now ≤ later
    → is_quiet key later entries ≡ true
    → is_quiet key later (should_notify_with_key window now other entries).0 ≡ true
unfolding should_notify_with_key
should_notify-keeps_quiet window now later other key entries h q =
    let kept = is_quiet-evict key now later entries h q in
    elim (Bool-cases (has_key other (evict now entries))) [
      | inl held ↦ simp held kept
      | inr fresh ↦ simp (fresh, is_quiet-append, kept)
    ]

after_calls-quiet :
    (window : ℕ) (later : Time) (key : DedupKey) (calls : List (Time × DedupKey))
    (entries : Entries)
    → All (λ call. call.0 ≤ later) calls
    → is_quiet key later entries ≡ true
    → is_quiet key later (after_calls window calls entries) ≡ true
unfolding after_calls
after_calls-quiet window later key [] entries hs q = q
after_calls-quiet window later key ((now, other) ∷ calls) entries (h, hs) q =
    after_calls-quiet window later key calls _ hs
      (should_notify-keeps_quiet window now later other key entries h q)

should_notify-opens :
    (window : ℕ) (now later : Time) (key : DedupKey) (entries : Entries)
    → (should_notify_with_key window now key entries).1 ≡ true
    → later < now + window
    → is_quiet key later (should_notify_with_key window now key entries).0 ≡ true
unfolding should_notify_with_key
should_notify-opens window now later key entries sent h =
    elim (Bool-cases (has_key key (evict now entries))) [
      | inl held ↦ absurd (ground arith)
      | inr fresh ↦ simp (fresh, is_quiet-append) (ground (arith, key_eq_refl key))
    ]

-- After an alert, a call for the same key within the window does not alert, whatever calls for
-- any keys come in between, as long as none of them is later than it.
pub should_notify_with_key-quiet :
    (window : ℕ) (now later : Time) (key : DedupKey) (entries : Entries)
    (calls : List (Time × DedupKey))
    → (should_notify_with_key window now key entries).1 ≡ true
    → All (λ call. call.0 ≤ later) calls
    → later < now + window
    → (should_notify_with_key window later key
        (after_calls window calls (should_notify_with_key window now key entries).0)).1
      ≡ false
should_notify_with_key-quiet window now later key entries calls sent hs h =
    let q =
      after_calls-quiet window later key calls _ hs
        (should_notify-opens window now later key entries sent h) in
    let rule =
      should_notify_with_key-alerts_iff window later key
        (after_calls window calls (should_notify_with_key window now key entries).0) in
    ground arith
