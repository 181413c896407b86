-- ===== src/Resilience/Circuit.antt =====
-- The circuit breaker of clients/kis_resilience.py: `allow_circuit_request`,
-- `record_circuit_success`, `release_circuit_probe` and `record_circuit_failure`, on the state of one
-- scope.
pub mod Laws
use kis_portfolio_mcp.Common.{
  ℕ, ◌+◌, Bool, true, false, not, ◌&&◌, ◌||◌, Option, none, some, List, [], ◌∷◌, ◌++◌, ltb, leb,
  ◌==◌, if◌then◌else◌, length, String,
}
use kis_portfolio_mcp.Common.Dict.{Dict, get, put, text_key}

-- `CircuitState`
pub record CircuitState : Type 0 where
  pub failures : List ℕ
  pub open_until : ℕ
  pub half_open_probe_active : Bool

abbrev pub new_circuit : CircuitState
new_circuit = record { failures = []; open_until = 0; half_open_probe_active = false }

-- The settings, which are positive.
pub record CircuitSettings : Type 0 where
  pub threshold : ℕ
  pub window : ℕ
  pub open_seconds : ℕ

-- `KISCircuitOpenError`, with its two messages
pub data CircuitError : Type 0 where
  circuit_open circuit_half_open : CircuitError

-- `allow_circuit_request`: none lets the request through.
unfoldable pub allow_circuit_request : ℕ → CircuitState → Option CircuitError × CircuitState
allow_circuit_request now state =
    if ltb now state.open_until
    then (some circuit_open, state)
    else (if state.open_until == 0
        then (none, state)
        else (if state.half_open_probe_active
            then (some circuit_half_open, state)
            else (none, record state { half_open_probe_active = true })))

-- `record_circuit_success`
abbrev pub record_circuit_success : CircuitState → CircuitState
record_circuit_success state = record {
  failures = [];
  open_until = 0;
  half_open_probe_active = false;
}

-- `release_circuit_probe`
abbrev pub release_circuit_probe : CircuitState → CircuitState
release_circuit_probe state = record state { half_open_probe_active = false }

-- `while failures and failures[0] < now - window: failures.popleft()`
unfoldable pub drop_old : ℕ → ℕ → List ℕ → List ℕ
drop_old window now [] = []
drop_old window now (t ∷ ts) =
    let rest = drop_old window now ts in if ltb (t + window) now then rest else t ∷ ts

-- `record_circuit_failure`: whether the circuit was opened, and the new state
unfoldable pub record_circuit_failure : CircuitSettings → ℕ → CircuitState → Bool × CircuitState
record_circuit_failure settings now state =
    let failures = drop_old settings.window now state.failures ++ (now ∷ []) in
    if state.half_open_probe_active || leb settings.threshold (length failures)
    then (
      true,
      record {
        failures = failures;
        open_until = now + settings.open_seconds;
        half_open_probe_active = false;
      },
    )
    else (
      false,
      record { failures = failures; open_until = state.open_until; half_open_probe_active = false },
    )

-- An event of one circuit.
pub data CircuitEvent : Type 0 where
  allow : ℕ → CircuitEvent
  success release_probe : CircuitEvent
  failure : ℕ → CircuitEvent

unfoldable pub react : CircuitSettings → CircuitEvent → CircuitState → CircuitState
react settings (allow now) state = (allow_circuit_request now state).1
react settings success state = record_circuit_success state
react settings release_probe state = release_circuit_probe state
react settings (failure now) state = (record_circuit_failure settings now state).1
