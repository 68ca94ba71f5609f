-- ===== src/Agent/Reports.antt =====
-- agent.go: the `Report…` methods, which take over what an agent sent. A nil report changes nothing;
-- none of them fails.
use opampcommander.Base.{
  ℕ, String, true, Option, none, some, if◌then◌else◌, ◌==◌, nat_eq, string_eq,
}
use opampcommander.Agent.Types.{
  AgentCustomCapabilities, AgentRemoteConfigStatus, AgentConnectionSettingsStatus,
  AgentEffectiveConfig, AgentPackageStatuses, AgentAvailableComponents, ConnectionType, Agent,
}
use opampcommander.Agent.Health.{Time, ComponentHealth}
use opampcommander.Agent.Description.{Description, service_of}
use opampcommander.Agent.Capabilities.{Capabilities}

with_reported_namespace : String → Agent → Agent
with_reported_namespace ns a =
    if ns == "" then a else record a { metadata = record a.metadata { namespace = ns } }

-- The namespace follows `service.namespace` where the description has one.
unfoldable pub report_description : Option Description → Agent → Agent
unfolding with_reported_namespace service_of
report_description none a = a
report_description (some desc) a =
    with_reported_namespace (service_of desc).namespace
      (record a { metadata = record a.metadata { description = desc } })

unfoldable pub report_component_health : Option ComponentHealth → Agent → Agent
report_component_health none a = a
report_component_health (some r) a = record a { status = record a.status { component_health = r } }

unfoldable pub report_capabilities : Option Capabilities → Agent → Agent
report_capabilities none a = a
report_capabilities (some r) a = record a { metadata = record a.metadata { capabilities = r } }

unfoldable pub report_effective_config : Option AgentEffectiveConfig → Agent → Agent
report_effective_config none a = a
report_effective_config (some r) a = record a { status = record a.status { effective_config = r } }

unfoldable pub report_remote_config_status : Option AgentRemoteConfigStatus → Agent → Agent
report_remote_config_status none a = a
report_remote_config_status (some r) a = record a {
  status = record a.status { remote_config_status = r };
}

unfoldable pub report_connection_settings_status :
    Option AgentConnectionSettingsStatus → Agent → Agent
report_connection_settings_status none a = a
report_connection_settings_status (some r) a = record a {
  status = record a.status { connection_settings_status = r };
}

unfoldable pub report_package_statuses : Option AgentPackageStatuses → Agent → Agent
report_package_statuses none a = a
report_package_statuses (some r) a = record a { status = record a.status { package_statuses = r } }

unfoldable pub report_custom_capabilities : Option AgentCustomCapabilities → Agent → Agent
report_custom_capabilities none a = a
report_custom_capabilities (some r) a = record a {
  metadata = record a.metadata { custom_capabilities = r };
}

unfoldable pub report_available_components : Option AgentAvailableComponents → Agent → Agent
report_available_components none a = a
report_available_components (some r) a = record a {
  status = record a.status { available_components = r };
}

-- `by` is the ID of the server, if it is known.
reported_to : Option String → Agent → String
reported_to none a = a.status.last_reported_to
reported_to (some id) a = id

unfoldable pub record_last_reported : Option String → Time → ℕ → Agent → Agent
unfolding reported_to
record_last_reported by last_reported_at sequence_num a = record a {
  status = record a.status {
    last_reported_to = reported_to by a;
    sequence_num = sequence_num;
    last_reported_at = last_reported_at;
  };
}

connection_type_of : Option ConnectionType → ConnectionType
connection_type_of none = ConnectionType.unknown
connection_type_of (some t) = t

-- `connection` is the type of the connection, if it was found.
unfoldable pub update_last_communication_info : Time → Option ConnectionType → Agent → Agent
unfolding connection_type_of
update_last_communication_info now connection a = record a {
  status = record a.status {
    connected = true;
    last_reported_at = now;
    connection_type = connection_type_of connection;
  };
}
