-- ===== src/Examples/Pages.antt =====
-- The pages of the dashboard over a few rows.
use crypto_ai_trader.Base.{
  ℕ, ◌≡◌, ◌≢◌, ◌⊎◌, ◌↔◌, ◌≤◌, refl, arith, String, List, [], ◌∷◌, map, Option, none, some, Bool,
  true, false, Result, ok, err, value_error, length,
}
use crypto_ai_trader.Decimal.{Decimal, dec}
use crypto_ai_trader.Strategies.Base.{Time}
use crypto_ai_trader.Execution.Gate.{live_shadow, live_small_auto, paper}
use crypto_ai_trader.Risk.State.{normal}
use crypto_ai_trader.Runtime.ControlPlane.{
  ControlState, ModeChangeRequest, Surroundings, get_trade_mode, set_mode,
}
use crypto_ai_trader.Runtime.Supervisor.{
  ingestion, trading, Event, Outcome, returned, raised, Settings,
}
use crypto_ai_trader.Runtime.Supervisor.System.{System, Action, turn, started, run}
use crypto_ai_trader.Runtime.Supervisor.Schedule.{worker_of}
use crypto_ai_trader.Portfolio.Accounting.{PortfolioAccount, replay}
use crypto_ai_trader.Dashboard.Events.{
  EventType, supervisor_heartbeat, heartbeat_lost, heartbeat_recovered, EventRow, list_recent,
}
use crypto_ai_trader.Dashboard.Health.{is_alerting}
use crypto_ai_trader.Dashboard.Health.Alerting.{OpenLoss, is_alerting_iff}
use crypto_ai_trader.Dashboard.Risk.{RiskRows, resolve_risk_state, resolve_risk_info}
use crypto_ai_trader.Dashboard.Risk.Agreement.{resolve_risk_info-agrees}
use crypto_ai_trader.Dashboard.ReleaseGate.{GateRows, read_release_gate_live}
use crypto_ai_trader.Dashboard.ReleaseGate.Readiness.{ShadowReady, DryRunReady, Ready}
use crypto_ai_trader.Dashboard.ReleaseGate.Verdict.{read_release_gate_live-allowed_iff}
use crypto_ai_trader.Dashboard.ReleaseGate.DryRun.{set_mode-live_refused}
use crypto_ai_trader.Runtime.Reconciliation.{matched}
use crypto_ai_trader.Dashboard.Status.{StatusRows, read_runtime_status}
use crypto_ai_trader.Dashboard.Status.Reconciled.{MatchesMock, read_runtime_status-matched_iff}
use crypto_ai_trader.Dashboard.Controls.{local_only, read_control_plane, exit_local_system}
use crypto_ai_trader.Dashboard.Books.{book_fills}
use crypto_ai_trader.Dashboard.Books.Shown.{shown_books}
use crypto_ai_trader.Dashboard.Books.Mirror.{book_fills-replay}
use crypto_ai_trader.Dashboard.Restarts.{shows_exhausted}
use crypto_ai_trader.Dashboard.Restarts.Newest.{as_row}
use crypto_ai_trader.Dashboard.Restarts.Exhaustion.{restart_rows, run-shows_exhausted}
use crypto_ai_trader.Examples.Data.{first_buy, half_sale, empty_account}

abbrev row_at : EventType → Time → EventRow
row_at kind created = record {
  event_type = kind;
  created_at = some created;
  message = "";
  context = record {
    status = none;
    component = none;
    ingest_thread_alive = some true;
    trading_thread_alive = some true;
    uptime_seconds = some 60;
  };
}

-- A heartbeat is lost, recovered, and there is a new one.
abbrev events : List EventRow
events = row_at supervisor_heartbeat 9 ∷ row_at heartbeat_recovered 8 ∷ row_at heartbeat_lost 5 ∷ []

is_alerting_iff_example : (is_alerting events ≡ true) ↔ OpenLoss events
is_alerting_iff_example = is_alerting_iff events

abbrev decimal_of : String → Result Decimal
decimal_of text = ok (dec 500 0)

abbrev risk_rows : RiskRows
risk_rows = record {
  baselines = record { date = some 0; baseline = some "500" } ∷ [];
  fills = [];
  latest = λ symbol. none;
}

risk_known : resolve_risk_state decimal_of 10 risk_rows ≡ some normal
unfolding resolve_risk_state crypto_ai_trader.Risk.Profiles.select_risk_profile
    crypto_ai_trader.Decimal.le crypto_ai_trader.Decimal.max_of crypto_ai_trader.Decimal.add
    crypto_ai_trader.Risk.State.classify_daily_loss crypto_ai_trader.Risk.Profiles.daily_pnl_pct
    crypto_ai_trader.Decimal.div crypto_ai_trader.Decimal.neg crypto_ai_trader.Decimal.mul
    crypto_ai_trader.Decimal.sub
risk_known = refl

resolve_risk_info-agrees_example :
    ((resolve_risk_info decimal_of 10 risk_rows).risk_state
      ≡ resolve_risk_state decimal_of 10 risk_rows)
    ⊎ ((resolve_risk_info decimal_of 10 risk_rows).risk_state ≡ none)
resolve_risk_info-agrees_example = resolve_risk_info-agrees decimal_of 10 risk_rows

abbrev surroundings : Surroundings
surroundings = record {
  database_opens = true;
  credentials = record { api_key = some "key"; api_secret = some "secret" };
  allowed_symbols = some ("BTCUSDT" ∷ []);
  risk_state = some normal;
}

abbrev locked : ControlState
locked = record {
  mode_row = some live_shadow;
  lock_row = some (record { enabled = true; reason = none });
  events = [];
}

abbrev rows : GateRows
rows = record { control = locked; events = events; risk = risk_rows }

-- With the lock on, the gate allows the dry run and gives no reason against it.
dry_run_allowed :
    let s = (read_release_gate_live decimal_of surroundings 10 (ok rows)).summary in
    (s.allow_live_small_auto_dry_run ≡ true) × (s.blocked_reasons ≡ [])
unfolding read_release_gate_live crypto_ai_trader.Risk.Profiles.select_risk_profile
    crypto_ai_trader.Decimal.le crypto_ai_trader.Decimal.max_of crypto_ai_trader.Decimal.add
    crypto_ai_trader.Risk.State.classify_daily_loss crypto_ai_trader.Risk.Profiles.daily_pnl_pct
    crypto_ai_trader.Decimal.div crypto_ai_trader.Decimal.quantize_half_even
    crypto_ai_trader.Decimal.mul crypto_ai_trader.Decimal.sub crypto_ai_trader.Decimal.neg
    crypto_ai_trader.Base.strip
dry_run_allowed = (refl, refl)

read_release_gate_live-allowed_iff_example :
    let s = (read_release_gate_live decimal_of surroundings 10 (ok rows)).summary in
    ((s.allow_live_shadow ≡ true) ↔ Ready (ShadowReady 10) surroundings (ok rows))
    × ((s.allow_live_small_auto_dry_run ≡ true)
        ↔ Ready (DryRunReady decimal_of surroundings 10) surroundings (ok rows))
    × ((s.blocked_reasons ≡ [])
        ↔ ((s.allow_live_shadow ≡ true) × (s.allow_live_small_auto_dry_run ≡ true)))
read_release_gate_live-allowed_iff_example =
    read_release_gate_live-allowed_iff decimal_of surroundings 10 (ok rows)

abbrev try_live : ModeChangeRequest
try_live = record {
  to_mode = live_small_auto;
  allow_live_unlock = true;
  reason = none;
  symbol = some "BTCUSDT";
  dry_run = true;
}

live_apart : get_trade_mode locked ≢ live_small_auto
live_apart e = ground arith

-- The dry run that the gate has just allowed.
set_mode-live_refused_example : (set_mode surroundings locked try_live).1.success ≡ false
set_mode-live_refused_example = set_mode-live_refused surroundings locked try_live refl live_apart

abbrev traded : PortfolioAccount
traded = (replay (first_buy ∷ half_sale ∷ []) empty_account).0

accepted : replay (first_buy ∷ half_sale ∷ []) empty_account ≡ (traded, ok tt)
unfolding replay crypto_ai_trader.Portfolio.Accounting.apply_fill
    crypto_ai_trader.Portfolio.Accounting.apply_buy_fill
    crypto_ai_trader.Portfolio.Accounting.open_or_grow crypto_ai_trader.Base.Dict.lookup
    crypto_ai_trader.Portfolio.Accounting.position_is_valid crypto_ai_trader.Decimal.le
    crypto_ai_trader.Portfolio.Accounting.apply_sell_fill
    crypto_ai_trader.Portfolio.Accounting.settle_sale crypto_ai_trader.Base.Dict.insert
    crypto_ai_trader.Portfolio.Accounting.fee_share crypto_ai_trader.Decimal.div
accepted = refl

book_fills-replay_example :
    book_fills (first_buy ∷ half_sale ∷ []) (shown_books empty_account) ≡ ok (shown_books traded)
book_fills-replay_example =
    book_fills-replay (first_buy ∷ half_sale ∷ []) empty_account traded accepted

abbrev page : StatusRows
page = record {
  control = locked;
  events = events;
  orders = [];
  fills = first_buy ∷ half_sale ∷ [];
  shadows = [];
}

read_runtime_status-matched_iff_example :
    ((read_runtime_status true 10 (ok page)).reconciliation_status ≡ matched) ↔ MatchesMock traded
read_runtime_status-matched_iff_example = read_runtime_status-matched_iff 10 page traded accepted

-- Without the database the page shows paper trading.
page_without_rows : (read_control_plane (err value_error)).execution_route ≡ paper
unfolding read_control_plane
page_without_rows = refl

-- A shutdown from another host is refused.
remote_exit :
    exit_local_system true (some "10.0.0.5")
    ≡ (record { success = false; message = local_only }, false)
unfolding exit_local_system crypto_ai_trader.Dashboard.Controls.is_local
remote_exit = refl

abbrev settings : Settings
settings = record { max_restarts = 1; cooldown_seconds = 0; dedup_window = 300_000_000 }

abbrev broken : Outcome
broken = raised (record { kind = "ValueError"; text = "no data" })

abbrev actions : List Action
actions = turn trading 1 broken ∷ turn trading 2 broken ∷ turn ingestion 3 returned ∷ []

abbrev last : System
last = run settings actions (started [])

abbrev stamp : Event → Option Time
stamp e = some 3

-- The table with a heartbeat in front of the supervisor's events.
abbrev table : List EventRow
table = row_at supervisor_heartbeat 9 ∷ map (as_row stamp) last.shared.events

few_events : length table ≤ 500
unfolding run crypto_ai_trader.Notifications.Dedup.should_notify
few_events = omega arith

own_restarts : restart_rows table ≡ restart_rows (map (as_row stamp) last.shared.events)
unfolding restart_rows
own_restarts = refl

run-shows_exhausted_example :
    shows_exhausted 10 trading (list_recent 500 table) ≡ (worker_of trading last).exhausted
run-shows_exhausted_example =
    run-shows_exhausted settings [] actions 10 stamp trading table few_events own_restarts
