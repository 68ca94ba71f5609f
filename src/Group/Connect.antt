-- ===== src/Group/Connect.antt =====
-- service/agentgroup.go: the connection settings that a group hands to an agent.
pub mod Effect
use opampcommander.Base.{
  String, Bool, Option, none, some, [], ◌∷◌, is_some, Assoc, GoMap, elems, Error, Result, ok, err,
}
use opampcommander.Agent.Types.{Agent}
use opampcommander.Agent.Settings.{
  AgentCertificate, AgentOpAmpConnectionSettings, AgentTelemetryConnectionSettings,
  AgentOtherConnectionSettings, ConnectionHash,
}
use opampcommander.Agent.Connecting.{apply_connection_settings}
use opampcommander.Group.Types.{GroupConnectionSettings, AgentGroupConnectionConfig, AgentGroup}
use opampcommander.Group.Resolve.{Ports}

certificate_or_none : Result AgentCertificate → Option AgentCertificate
certificate_or_none (ok c) = some c
certificate_or_none (err e) = none

-- A certificate that cannot be read is left out, and the settings stay.
certificate_for : Ports → String → Option String → Option AgentCertificate
unfolding certificate_or_none
certificate_for p namespace none = none
certificate_for p namespace (some name) = certificate_or_none (p.get_certificate namespace name)

unfoldable pub build_opamp_connection :
    Ports → String → Option GroupConnectionSettings → Option AgentOpAmpConnectionSettings
unfolding certificate_for
build_opamp_connection p namespace none = none
build_opamp_connection p namespace (some conn) = some (record {
  destination_endpoint = conn.destination_endpoint;
  headers = conn.headers;
  certificate = certificate_for p namespace conn.certificate_name;
})

-- For the other kinds the settings are dropped then: `none`.
certificate_needed : Ports → String → Option String → Option (Option AgentCertificate)
certificate_needed p namespace none = some none
certificate_needed p namespace (some name) = elim (p.get_certificate namespace name) [
  | ok c ↦ some (some c)
  | err e ↦ none
]

telemetry_with :
    GroupConnectionSettings
    → Option (Option AgentCertificate)
    → Option AgentTelemetryConnectionSettings
telemetry_with conn none = none
telemetry_with conn (some cert) = some (record {
  destination_endpoint = conn.destination_endpoint;
  headers = conn.headers;
  certificate = cert;
})

unfoldable pub build_telemetry_connection :
    Ports → String → Option GroupConnectionSettings → Option AgentTelemetryConnectionSettings
unfolding certificate_needed telemetry_with
build_telemetry_connection p namespace none = none
build_telemetry_connection p namespace (some conn) =
    telemetry_with conn (certificate_needed p namespace conn.certificate_name)

other_with :
    GroupConnectionSettings → Option (Option AgentCertificate) → Option AgentOtherConnectionSettings
other_with conn none = none
other_with conn (some cert) = some (record {
  destination_endpoint = conn.destination_endpoint;
  headers = conn.headers;
  certificate = cert;
})

unfoldable pub build_other_connection :
    Ports → String → GroupConnectionSettings → Option AgentOtherConnectionSettings
unfolding certificate_needed other_with
build_other_connection p namespace conn =
    other_with conn (certificate_needed p namespace conn.certificate_name)

keep {ℓ} : {R : Type ℓ} → String → Option R → Assoc R → Assoc R
keep key none rest = rest
keep key (some r) rest = (key, r) ∷ rest

-- The entries whose image is not nil, in a new map.
unfoldable pub map_values_with_filter_nil {ℓ} : {V R : Type ℓ} → (V → Option R) → Assoc V → Assoc R
unfolding keep
map_values_with_filter_nil f [] = []
map_values_with_filter_nil f ((key, value) ∷ m) =
    keep key (f value) (map_values_with_filter_nil f m)

unfoldable pub build_other_connections :
    Ports → String → GoMap GroupConnectionSettings → GoMap AgentOtherConnectionSettings
unfolding map_values_with_filter_nil
build_other_connections p namespace conns =
    some (map_values_with_filter_nil (build_other_connection p namespace) (elems conns))

unfoldable pub has_agent_connection_config : AgentGroup → Bool
has_agent_connection_config g = is_some g.spec.agent_connection_config

connect :
    ConnectionHash
    → Ports
    → String
    → Option AgentGroupConnectionConfig
    → Agent
    → Agent × Option Error
unfolding build_opamp_connection build_telemetry_connection build_other_connections
connect h p namespace none a = (a, none)
connect h p namespace (some conn) a =
    apply_connection_settings h (build_opamp_connection p namespace conn.opamp_connection)
      (build_telemetry_connection p namespace conn.own_metrics)
      (build_telemetry_connection p namespace conn.own_logs)
      (build_telemetry_connection p namespace conn.own_traces)
      (build_other_connections p namespace conn.other_connections) a

unfoldable pub apply_group_connection_settings :
    ConnectionHash → Ports → AgentGroup → Agent → Agent × Option Error
unfolding connect
apply_group_connection_settings h p g a =
    connect h p g.metadata.namespace g.spec.agent_connection_config a
