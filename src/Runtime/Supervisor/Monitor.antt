-- ===== src/Runtime/Supervisor/Monitor.antt =====
-- trading/runtime/supervisor.py: the thread that watches the supervisor's heartbeats. A check is
-- given its time and the time of the latest heartbeat, if there is one. Recording an event and
-- sending a notification are assumed to succeed, and a clock does not run between the parts of a
-- check. Times are counted in microseconds.
pub mod Edges
use crypto_ai_trader.Base.{
  ℕ, zero, suc, ◌+◌, ◌*◌, List, [], ◌∷◌, Option, none, some, Bool, true, false, leb, if◌then◌else◌,
}
use crypto_ai_trader.Strategies.Base.{Time}
use crypto_ai_trader.Notifications.Dedup.{Entries, should_notify}

-- `heartbeat_lost` with the time of the last heartbeat, and `heartbeat_recovered`.
pub data Alert : Type 0 where
  heartbeat_lost : Time → Alert
  heartbeat_recovered : Alert

-- The state of the monitor, with the alerts recorded and those sent, the newest first.
pub record Monitor : Type 0 where
  pub heartbeat_stale_alerted : Bool
  pub last_confirmed_heartbeat : Option Time
  pub recorded : List Alert
  pub sent : List Alert
  pub entries : Entries

abbrev pub heartbeat_stale_threshold_seconds : ℕ
heartbeat_stale_threshold_seconds = 120

abbrev pub heartbeat_recovery_confirm_seconds : ℕ
heartbeat_recovery_confirm_seconds = 60

-- `heartbeat >= now - timedelta(seconds=seconds)`
unfoldable pub is_within : ℕ → Time → Time → Bool
is_within seconds now heartbeat = leb now (heartbeat + seconds * 1_000_000)

abbrev pub send_if : Bool → Alert → Monitor → Monitor
send_if true alert m = record m { sent = alert ∷ m.sent }
send_if false alert m = m

-- `_send_heartbeat_lost_alert`
unfoldable pub send_heartbeat_lost_alert : ℕ → Time → Time → Monitor → Monitor
send_heartbeat_lost_alert window now heartbeat m =
    let (entries, notify) = should_notify window now "heartbeat_lost" "supervisor" none m.entries in
    send_if notify (heartbeat_lost heartbeat)
      (record m { recorded = heartbeat_lost heartbeat ∷ m.recorded; entries = entries })

-- `_send_recovered_notification`
unfoldable pub send_recovered_notification : ℕ → Time → Monitor → Monitor
send_recovered_notification window now m =
    let (entries, notify) =
      should_notify window now "heartbeat_recovered" "supervisor" none m.entries in
    send_if notify heartbeat_recovered
      (record m { recorded = heartbeat_recovered ∷ m.recorded; entries = entries })

-- A fresh heartbeat, by whether an alert is open and whether it is recent enough to confirm.
abbrev pub on_fresh : ℕ → Time → Time → Bool → Bool → Monitor → Monitor
on_fresh window now heartbeat false confirmed m = record m {
  last_confirmed_heartbeat = some heartbeat;
}
on_fresh window now heartbeat true false m = record m {
  last_confirmed_heartbeat = some heartbeat;
  heartbeat_stale_alerted = false;
}
on_fresh window now heartbeat true true m =
    send_recovered_notification window now
      (record m { last_confirmed_heartbeat = some heartbeat; heartbeat_stale_alerted = false })

-- A stale heartbeat, by whether an alert is open.
abbrev pub on_stale : ℕ → Time → Time → Bool → Monitor → Monitor
on_stale window now heartbeat true m = m
on_stale window now heartbeat false m =
    send_heartbeat_lost_alert window now heartbeat (record m { heartbeat_stale_alerted = true })

abbrev pub on_heartbeat : ℕ → Time → Time → Bool → Monitor → Monitor
on_heartbeat window now heartbeat true m =
    on_fresh window now heartbeat m.heartbeat_stale_alerted
      (is_within heartbeat_recovery_confirm_seconds now heartbeat) m
on_heartbeat window now heartbeat false m =
    on_stale window now heartbeat m.heartbeat_stale_alerted m

-- `_check_heartbeat_stale`
unfoldable pub check_heartbeat_stale : ℕ → Time → Option Time → Monitor → Monitor
unfolding send_heartbeat_lost_alert send_recovered_notification is_within
check_heartbeat_stale window now none m = m
check_heartbeat_stale window now (some heartbeat) m =
    on_heartbeat window now heartbeat (is_within heartbeat_stale_threshold_seconds now heartbeat) m

-- The checks of `_monitor_target`, one after the other.
abbrev pub Checks : Type 0
Checks = List (Time × Option Time)

unfoldable pub watch : ℕ → Checks → Monitor → Monitor
unfolding check_heartbeat_stale
watch window [] m = m
watch window ((now, latest) ∷ checks) m =
    watch window checks (check_heartbeat_stale window now latest m)

-- The lost and the recovered alerts among some.
abbrev pub losses : List Alert → ℕ
losses [] = 0
losses (heartbeat_lost heartbeat ∷ alerts) = suc (losses alerts)
losses (heartbeat_recovered ∷ alerts) = losses alerts

abbrev pub recoveries : List Alert → ℕ
recoveries [] = 0
recoveries (heartbeat_lost heartbeat ∷ alerts) = recoveries alerts
recoveries (heartbeat_recovered ∷ alerts) = suc (recoveries alerts)
