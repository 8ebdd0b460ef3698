-- ===== src/Risk/PreFlight.antt =====
-- trading/risk/pre_flight.py: the checks before live trading. The environment variables are
-- arguments; the texts of `message` are left out.
pub mod Outcome
use crypto_ai_trader.Base.{
  String, List, [], ◌∷◌, ◌++◌, map, Option, none, some, Bool, true, false, ◌&&◌, ◌||◌,
  if◌then◌else◌, str_eq, upper, strip,
}
use crypto_ai_trader.Execution.Gate.{LiveTradingLock}
use crypto_ai_trader.Risk.State.{
  RiskState, normal, degraded, no_new_positions, global_pause, emergency_stop,
}

pub data BlockedCode : Type 0 where
  config_binance_api_key_missing config_binance_api_secret_missing : BlockedCode
  symbol_not_whitelisted live_trading_lock_enabled : BlockedCode
  risk_circuit_breaker_global_pause risk_circuit_breaker_emergency_stop : BlockedCode

pub data CheckStatus : Type 0 where
  pass fail skip : CheckStatus

-- The texts of `code`.
pub data CheckCode : Type 0 where
  config_binance_api_key config_binance_api_secret symbol_whitelist : CheckCode
  live_trading_lock risk_circuit_breaker : CheckCode

pub record PreFlightCheck : Type 0 where
  pub code : CheckCode
  pub status : CheckStatus

pub record PreFlightResult : Type 0 where
  pub passed : Bool
  pub blocked_reason : Option BlockedCode
  pub checks : List PreFlightCheck

-- `os.environ.get(name, "").strip()` is empty.
abbrev pub is_unset : Option String → Bool
is_unset none = true
is_unset (some text) = str_eq (strip text) ""

abbrev pub check : CheckCode → Bool → PreFlightCheck
check code failed = record { code = code; status = if failed then fail else pass }

unfoldable pub check_config : Option String → Option String → List PreFlightCheck
check_config api_key api_secret =
    check config_binance_api_key (is_unset api_key)
    ∷ check config_binance_api_secret (is_unset api_secret)
    ∷ []

-- `symbol in symbols`
unfoldable pub is_in : String → List String → Bool
is_in symbol [] = false
is_in symbol (s ∷ symbols) = str_eq symbol s || is_in symbol symbols

unfoldable pub check_symbol : String → List String → PreFlightCheck
check_symbol symbol allowed = record {
  code = symbol_whitelist;
  status = if is_in (upper symbol) (map upper allowed) then pass else fail;
}

unfoldable pub check_lock : LiveTradingLock → PreFlightCheck
check_lock lock = check live_trading_lock lock.enabled

unfoldable pub check_risk_state : RiskState → PreFlightCheck
check_risk_state global_pause = check risk_circuit_breaker true
check_risk_state emergency_stop = check risk_circuit_breaker true
check_risk_state state = check risk_circuit_breaker false

-- The code of a failed check; the circuit breaker's depends on the risk state.
abbrev pub blocked_code : CheckCode → RiskState → BlockedCode
blocked_code config_binance_api_key state = config_binance_api_key_missing
blocked_code config_binance_api_secret state = config_binance_api_secret_missing
blocked_code symbol_whitelist state = symbol_not_whitelisted
blocked_code live_trading_lock state = live_trading_lock_enabled
blocked_code risk_circuit_breaker global_pause = risk_circuit_breaker_global_pause
blocked_code risk_circuit_breaker state = risk_circuit_breaker_emergency_stop

-- The loop that stops at the first failed check.
unfoldable pub first_failure : RiskState → List PreFlightCheck → Option BlockedCode
first_failure state [] = none
first_failure state (c ∷ cs) = elim c.status [
  | fail ↦ some (blocked_code c.code state)
  | _ ↦ first_failure state cs
]

unfoldable pub none_failed : List PreFlightCheck → Bool
none_failed [] = true
none_failed (c ∷ cs) = elim c.status as (λ _. Bool) [ fail ↦ false | _ ↦ true ] && none_failed cs

abbrev pub is_none : Option BlockedCode → Bool
is_none none = true
is_none (some b) = false

-- The configuration that the process finds in its environment.
pub record Credentials : Type 0 where
  pub api_key : Option String
  pub api_secret : Option String

unfoldable pub run_pre_flight :
    Credentials → String → List String → LiveTradingLock → RiskState → PreFlightResult
unfolding check_config check_symbol check_lock check_risk_state
run_pre_flight env symbol allowed lock state =
    let checks =
      check_config env.api_key env.api_secret
      ++ check_symbol symbol allowed ∷ check_lock lock ∷ check_risk_state state ∷ [] in
    let blocked = first_failure state checks in
    record {
      passed = is_none blocked && none_failed checks;
      blocked_reason = blocked;
      checks = checks;
    }
