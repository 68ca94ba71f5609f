-- ===== src/Agent/Connecting.antt =====
-- agent.go: the methods of an agent that write its connection settings. All but
-- `ApplyConnectionSettings` write through `Spec.ConnectionInfo`; `none` is the panic of a nil one.
use opampcommander.Base.{
  String, Option, none, some, List, [], ◌∷◌, nat_eq, string_eq, GoSlice, GoMap, Error, Result, ok,
  err,
}
use opampcommander.Agent.Types.{Agent}
use opampcommander.Agent.Settings.{
  AgentCertificate, AgentOpAmpConnectionSettings, AgentTelemetryConnectionSettings,
  AgentOtherConnectionSettings, ConnectionInfo, ConnectionHash, new_connection_info, set_opamp,
  set_own_metrics, set_own_logs, set_own_traces, set_other_connection,
}

-- The options are applied in order to empty settings.
pub record Settings : Type 0 where
  pub headers : GoMap (GoSlice String)
  pub certificate : Option AgentCertificate

pub data ConnectionOption : Type 0 where
  with_headers : GoMap (GoSlice String) → ConnectionOption
  with_certificate : Option AgentCertificate → ConnectionOption

apply_option : ConnectionOption → Settings → Settings
apply_option (ConnectionOption.with_headers h) s = record s { headers = h }
apply_option (ConnectionOption.with_certificate c) s = record s { certificate = c }

apply_from : List ConnectionOption → Settings → Settings
unfolding apply_option
apply_from [] s = s
apply_from (opt ∷ opts) s = apply_from opts (apply_option opt s)

unfoldable pub settings_of : List ConnectionOption → Settings
unfolding apply_from
settings_of opts = apply_from opts (record { headers = none; certificate = none })

abbrev pub stored : Agent → ConnectionInfo × Option Error → Agent × Option Error
stored a (ci, e) = (record a { spec = record a.spec { connection_info = some ci } }, e)

-- A write through the pointer.
abbrev pub through :
    (ConnectionInfo → ConnectionInfo × Option Error)
    → Agent
    → Option ConnectionInfo
    → Option (Agent × Option Error)
through f a none = none
through f a (some ci) = some (stored a (f ci))

abbrev pub telemetry : String → Settings → AgentTelemetryConnectionSettings
telemetry endpoint s = record {
  destination_endpoint = endpoint;
  headers = s.headers;
  certificate = s.certificate;
}

abbrev pub applied : Agent → Result ConnectionInfo → Agent × Option Error
applied a (ok ci) = (record a { spec = record a.spec { connection_info = some ci } }, none)
applied a (err e) = (a, some e)

module _ (h : ConnectionHash) where
  unfoldable pub set_opamp_connection_settings :
      String → List ConnectionOption → Agent → Option (Agent × Option Error)
  unfolding settings_of set_opamp
  set_opamp_connection_settings endpoint opts a =
      let s = settings_of opts in
      through
        (set_opamp h (record {
          destination_endpoint = endpoint;
          headers = s.headers;
          certificate = s.certificate;
        }))
        a a.spec.connection_info

  unfoldable pub set_metrics_connection_settings :
      String → List ConnectionOption → Agent → Option (Agent × Option Error)
  unfolding settings_of set_own_metrics
  set_metrics_connection_settings endpoint opts a =
      through (set_own_metrics h (telemetry endpoint (settings_of opts))) a a.spec.connection_info

  unfoldable pub set_logs_connection_settings :
      String → List ConnectionOption → Agent → Option (Agent × Option Error)
  unfolding settings_of set_own_logs
  set_logs_connection_settings endpoint opts a =
      through (set_own_logs h (telemetry endpoint (settings_of opts))) a a.spec.connection_info

  unfoldable pub set_traces_connection_settings :
      String → List ConnectionOption → Agent → Option (Agent × Option Error)
  unfolding settings_of set_own_traces
  set_traces_connection_settings endpoint opts a =
      through (set_own_traces h (telemetry endpoint (settings_of opts))) a a.spec.connection_info

  -- The entry written into the copy of the map is the one that is then set.
  unfoldable pub set_other_connection_settings :
      String → String → List ConnectionOption → Agent → Option (Agent × Option Error)
  unfolding settings_of set_other_connection
  set_other_connection_settings name endpoint opts a =
      let s = settings_of opts in
      through
        (set_other_connection h name (record {
          destination_endpoint = endpoint;
          headers = s.headers;
          certificate = s.certificate;
        }))
        a a.spec.connection_info

  unfoldable pub apply_connection_settings :
      Option AgentOpAmpConnectionSettings
      → Option AgentTelemetryConnectionSettings
      → Option AgentTelemetryConnectionSettings
      → Option AgentTelemetryConnectionSettings
      → GoMap AgentOtherConnectionSettings
      → Agent
      → Agent × Option Error
  unfolding new_connection_info
  apply_connection_settings opamp metrics logs traces others a =
      applied a (new_connection_info h opamp metrics logs traces others)
