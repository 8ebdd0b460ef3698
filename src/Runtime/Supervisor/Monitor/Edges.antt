-- ===== src/Runtime/Supervisor/Monitor/Edges.antt =====
-- What the monitor records, read off the checks alone.
use crypto_ai_trader.Base.{
  ℕ, ◌+◌, ◌≡◌, refl, ap, ◌∙◌, arith, [], ◌∷◌, Option, none, some, Bool, true, false, not, ◌&&◌,
}
use crypto_ai_trader.Strategies.Base.{Time}
use crypto_ai_trader.Runtime.Supervisor.Monitor.{
  Alert, heartbeat_lost, heartbeat_recovered, Monitor, heartbeat_stale_threshold_seconds,
  heartbeat_recovery_confirm_seconds, is_within, send_if, send_heartbeat_lost_alert,
  send_recovered_notification, on_fresh, on_stale, on_heartbeat, check_heartbeat_stale, Checks,
  watch, losses, recoveries,
}

-- Whether a check finds the latest heartbeat stale; one that finds none keeps what was known.
unfoldable pub stale_after : Bool → Time → Option Time → Bool
stale_after stale now none = stale
stale_after stale now (some heartbeat) =
    not (is_within heartbeat_stale_threshold_seconds now heartbeat)

-- Whether a check finds a heartbeat that confirms a recovery.
abbrev pub confirms : Time → Option Time → Bool
confirms now none = false
confirms now (some heartbeat) = is_within heartbeat_recovery_confirm_seconds now heartbeat

abbrev pub count : Bool → ℕ
count true = 1
count false = 0

-- How often the heartbeats turn stale over the checks, from the last known state on.
unfoldable pub turns_stale : Bool → Checks → ℕ
unfolding stale_after
turns_stale stale [] = 0
turns_stale stale ((now, latest) ∷ checks) =
    let next = stale_after stale now latest in count (not stale && next) + turns_stale next checks

-- How often they turn fresh with a heartbeat that confirms it.
unfoldable pub turns_fresh : Bool → Checks → ℕ
unfolding stale_after
turns_fresh stale [] = 0
turns_fresh stale ((now, latest) ∷ checks) =
    let next = stale_after stale now latest in
    count (stale && not next && confirms now latest) + turns_fresh next checks

unfoldable pub stale_at_end : Bool → Checks → Bool
unfolding stale_after
stale_at_end stale [] = stale
stale_at_end stale ((now, latest) ∷ checks) = stale_at_end (stale_after stale now latest) checks

-- What one check records, by the state before and the state it finds.
abbrev IsEdge : Monitor → Monitor → (stale next confirmed : Bool) → Type 0
IsEdge m n stale next confirmed =
    (n.heartbeat_stale_alerted ≡ next)
    × (losses n.recorded ≡ losses m.recorded + count (not stale && next))
    × (recoveries n.recorded ≡ recoveries m.recorded + count (stale && not next && confirmed))

send_if-recorded :
    (notify : Bool) (alert : Alert) (m : Monitor)
    → let n = send_if notify alert m in
      (n.recorded ≡ m.recorded) × (n.heartbeat_stale_alerted ≡ m.heartbeat_stale_alerted)
send_if-recorded true alert m = (refl, refl)
send_if-recorded false alert m = (refl, refl)

send_recovered_notification-recorded :
    (window : ℕ) (now : Time) (m : Monitor)
    → let n = send_recovered_notification window now m in
      (n.recorded ≡ heartbeat_recovered ∷ m.recorded)
      × (n.heartbeat_stale_alerted ≡ m.heartbeat_stale_alerted)
unfolding send_recovered_notification
send_recovered_notification-recorded window now m = send_if-recorded _ heartbeat_recovered _

send_heartbeat_lost_alert-recorded :
    (window : ℕ) (now heartbeat : Time) (m : Monitor)
    → let n = send_heartbeat_lost_alert window now heartbeat m in
      (n.recorded ≡ heartbeat_lost heartbeat ∷ m.recorded)
      × (n.heartbeat_stale_alerted ≡ m.heartbeat_stale_alerted)
unfolding send_heartbeat_lost_alert
send_heartbeat_lost_alert-recorded window now heartbeat m =
    send_if-recorded _ (heartbeat_lost heartbeat) _

on_fresh-IsEdge :
    (window : ℕ) (now heartbeat : Time) (stale confirmed : Bool) (m : Monitor)
    → m.heartbeat_stale_alerted ≡ stale
    → IsEdge m (on_fresh window now heartbeat stale confirmed m) stale false confirmed
on_fresh-IsEdge window now heartbeat false confirmed m e = (e, omega arith, omega arith)
on_fresh-IsEdge window now heartbeat true false m e = (refl, omega arith, omega arith)
on_fresh-IsEdge window now heartbeat true true m e =
    let quiet : Monitor = record m {
      last_confirmed_heartbeat = some heartbeat;
      heartbeat_stale_alerted = false;
    } in
    let (recorded, alerted) = send_recovered_notification-recorded window now quiet in
    (alerted, rw recorded (omega arith), rw recorded (omega arith))

on_stale-IsEdge :
    (window : ℕ) (now heartbeat : Time) (stale : Bool) (m : Monitor) (confirmed : Bool)
    → m.heartbeat_stale_alerted ≡ stale
    → IsEdge m (on_stale window now heartbeat stale m) stale true confirmed
on_stale-IsEdge window now heartbeat true m confirmed e = (e, omega arith, omega arith)
on_stale-IsEdge window now heartbeat false m confirmed e =
    let open_alert : Monitor = record m { heartbeat_stale_alerted = true } in
    let (recorded, alerted) = send_heartbeat_lost_alert-recorded window now heartbeat open_alert in
    (alerted, rw recorded (omega arith), rw recorded (omega arith))

on_heartbeat-IsEdge :
    (window : ℕ) (now heartbeat : Time) (fresh : Bool) (m : Monitor)
    → IsEdge m
        (on_heartbeat window now heartbeat fresh m)
        m.heartbeat_stale_alerted
        (not fresh)
        (is_within heartbeat_recovery_confirm_seconds now heartbeat)
on_heartbeat-IsEdge window now heartbeat true m = on_fresh-IsEdge window now heartbeat _ _ m refl
on_heartbeat-IsEdge window now heartbeat false m = on_stale-IsEdge window now heartbeat _ m _ refl

check_heartbeat_stale-IsEdge :
    (window : ℕ) (now : Time) (latest : Option Time) (m : Monitor)
    → IsEdge m
        (check_heartbeat_stale window now latest m)
        m.heartbeat_stale_alerted
        (stale_after m.heartbeat_stale_alerted now latest)
        (confirms now latest)
unfolding check_heartbeat_stale stale_after
check_heartbeat_stale-IsEdge window now none m = (refl, ground arith, ground arith)
check_heartbeat_stale-IsEdge window now (some heartbeat) m =
    on_heartbeat-IsEdge window now heartbeat _ m

-- Over any checks, the monitor records a lost heartbeat exactly as often as the heartbeats turn
-- stale, and a recovery exactly as often as they turn fresh with a heartbeat of the last minute.
-- Its flag tells whether the last heartbeat found was stale.
pub watch-counts :
    (window : ℕ) (checks : Checks) (m : Monitor)
    → let stale = m.heartbeat_stale_alerted in
      let n = watch window checks m in
      (n.heartbeat_stale_alerted ≡ stale_at_end stale checks)
      × (losses n.recorded ≡ losses m.recorded + turns_stale stale checks)
      × (recoveries n.recorded ≡ recoveries m.recorded + turns_fresh stale checks)
unfolding watch stale_at_end turns_stale turns_fresh
watch-counts window [] m = (refl, omega arith, omega arith)
watch-counts window ((now, latest) ∷ checks) m =
    let (flag, lost, found) = check_heartbeat_stale-IsEdge window now latest m in
    let next = check_heartbeat_stale window now latest m in
    let (last, losses_left, found_left) = watch-counts window checks next in
    let losses_later =
      losses_left ∙ ap (λ stale. losses next.recorded + turns_stale stale checks) flag in
    let found_later =
      found_left ∙ ap (λ stale. recoveries next.recorded + turns_fresh stale checks) flag in
    (
      last ∙ ap (λ stale. stale_at_end stale checks) flag,
      omega (arith, losses_later, lost),
      omega (arith, found_later, found),
    )
