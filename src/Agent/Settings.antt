-- ===== src/Agent/Settings.antt =====
-- agent.go: connection settings, their certificate and `ConnectionInfo`. The JSON encoder and the
-- FNV hash are Go's; `ConnectionHash` stands for the two together as `updateHash` calls them.
use opampcommander.Base.{
  ℕ, String, Bool, true, false, not, ◌&&◌, Option, none, some, List, if◌then◌else◌, ◌==◌, nat_eq,
  string_eq, GoSlice, Assoc, GoMap, Bytes, elems, is_cons, insert, Error, encode_failed, Result, ok,
  err,
}

pub record AgentCertificate : Type 0 where
  pub cert : Bytes
  pub private_key : Bytes
  pub ca_cert : Bytes

pub record AgentOpAmpConnectionSettings : Type 0 where
  pub destination_endpoint : String
  pub headers : GoMap (GoSlice String)
  pub certificate : Option AgentCertificate

pub record AgentTelemetryConnectionSettings : Type 0 where
  pub destination_endpoint : String
  pub headers : GoMap (GoSlice String)
  pub certificate : Option AgentCertificate

pub record AgentOtherConnectionSettings : Type 0 where
  pub destination_endpoint : String
  pub headers : GoMap (GoSlice String)
  pub certificate : Option AgentCertificate

pub record ConnectionInfo : Type 0 where
  pub hash : Bytes
  pub opamp : Option AgentOpAmpConnectionSettings
  pub own_metrics : Option AgentTelemetryConnectionSettings
  pub own_logs : Option AgentTelemetryConnectionSettings
  pub own_traces : Option AgentTelemetryConnectionSettings
  pub other_connections : GoMap AgentOtherConnectionSettings

-- `json.Encoder.Encode` of the five settings (`none` is its error), and `fnv.New64` of the bytes.
pub record ConnectionHash : Type 0 where
  pub encode :
      Option AgentOpAmpConnectionSettings
      → Option AgentTelemetryConnectionSettings
      → Option AgentTelemetryConnectionSettings
      → Option AgentTelemetryConnectionSettings
      → GoMap AgentOtherConnectionSettings
      → Option (List ℕ)
  pub fnv64 : List ℕ → List ℕ

unfoldable pub opamp_has_endpoint : Option AgentOpAmpConnectionSettings → Bool
opamp_has_endpoint none = false
opamp_has_endpoint (some s) = not (s.destination_endpoint == "")

unfoldable pub telemetry_has_endpoint : Option AgentTelemetryConnectionSettings → Bool
telemetry_has_endpoint none = false
telemetry_has_endpoint (some s) = not (s.destination_endpoint == "")

unfoldable pub certificate_is_empty : Option AgentCertificate → Bool
certificate_is_empty none = true
certificate_is_empty (some c) =
    not (is_cons (elems c.cert))
    && not (is_cons (elems c.private_key))
    && not (is_cons (elems c.ca_cert))

-- A method that mutates its receiver and may fail: what was written before the failure stays.
hash_result : ConnectionInfo → Option (List ℕ) → ConnectionInfo × Option Error
hash_result ci none = (ci, some encode_failed)
hash_result ci (some sum) = (record ci { hash = some sum }, none)

-- Evaluates `a.DestinationEndpoint != "" || rest`: `none` is the panic of a nil dereference.
unfoldable pub opamp_endpoint_or : Option AgentOpAmpConnectionSettings → Option Bool → Option Bool
opamp_endpoint_or none rest = none
opamp_endpoint_or (some s) rest = if s.destination_endpoint == "" then rest else some true

unfoldable pub telemetry_endpoint_or :
    Option AgentTelemetryConnectionSettings → Option Bool → Option Bool
telemetry_endpoint_or none rest = none
telemetry_endpoint_or (some s) rest = if s.destination_endpoint == "" then rest else some true

unfoldable pub has_connection_settings : Option ConnectionInfo → Option Bool
unfolding opamp_endpoint_or telemetry_endpoint_or
has_connection_settings none = some false
has_connection_settings (some ci) = opamp_endpoint_or ci.opamp (
    telemetry_endpoint_or ci.own_metrics (
      telemetry_endpoint_or ci.own_logs
        (telemetry_endpoint_or ci.own_traces (some (is_cons (elems ci.other_connections))))))

-- A clone of the map, and an empty one for nil.
unfoldable pub other_connections : ConnectionInfo → Assoc AgentOtherConnectionSettings
other_connections ci = elems ci.other_connections

module _ (h : ConnectionHash) where
  unfoldable pub update_hash : ConnectionInfo → ConnectionInfo × Option Error
  unfolding hash_result
  update_hash ci =
      hash_result ci
        (elim (h.encode ci.opamp ci.own_metrics ci.own_logs ci.own_traces ci.other_connections) [
          | none ↦ none
          | some buf ↦ some (h.fnv64 buf)
        ])

  -- On a failure the constructor returns the error alone.
  made : ConnectionInfo × Option Error → Result ConnectionInfo
  made (ci, none) = ok ci
  made (ci, some e) = err e

  unfoldable pub new_connection_info :
      Option AgentOpAmpConnectionSettings
      → Option AgentTelemetryConnectionSettings
      → Option AgentTelemetryConnectionSettings
      → Option AgentTelemetryConnectionSettings
      → GoMap AgentOtherConnectionSettings
      → Result ConnectionInfo
  unfolding update_hash made
  new_connection_info opamp metrics logs traces others = made (
      update_hash (record {
        hash = none;
        opamp = opamp;
        own_metrics = metrics;
        own_logs = logs;
        own_traces = traces;
        other_connections = others;
      }))

  unfoldable pub set_opamp :
      AgentOpAmpConnectionSettings → ConnectionInfo → ConnectionInfo × Option Error
  unfolding update_hash
  set_opamp settings ci = update_hash (record ci { opamp = some settings })

  unfoldable pub set_own_metrics :
      AgentTelemetryConnectionSettings → ConnectionInfo → ConnectionInfo × Option Error
  unfolding update_hash
  set_own_metrics settings ci = update_hash (record ci { own_metrics = some settings })

  unfoldable pub set_own_logs :
      AgentTelemetryConnectionSettings → ConnectionInfo → ConnectionInfo × Option Error
  unfolding update_hash
  set_own_logs settings ci = update_hash (record ci { own_logs = some settings })

  unfoldable pub set_own_traces :
      AgentTelemetryConnectionSettings → ConnectionInfo → ConnectionInfo × Option Error
  unfolding update_hash
  set_own_traces settings ci = update_hash (record ci { own_traces = some settings })

  -- A nil map is made before it is written.
  unfoldable pub set_other_connection :
      String → AgentOtherConnectionSettings → ConnectionInfo → ConnectionInfo × Option Error
  unfolding update_hash
  set_other_connection name settings ci =
      update_hash
        (record ci { other_connections = some (insert name settings (elems ci.other_connections)) })
