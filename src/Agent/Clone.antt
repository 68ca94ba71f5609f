-- ===== src/Agent/Clone.antt =====
-- agent.go: `Clone`. A map that the program makes anew is never nil in the copy; `maps.Clone` and
-- the guarded copies keep nil. What is shared between a value and its copy is not modelled.
pub mod Laws
use opampcommander.Base.{String, Option, none, some, List, [], ◌∷◌, GoSlice, Assoc, GoMap, elems}
use opampcommander.Agent.Types.{
  AgentMetadata, AgentConfigFile, AgentConfigMap, AgentSpecRemoteConfig, AgentSpecPackage,
  AgentRestartInfo, AgentSpec, AgentPackageStatusEntry, AgentPackageStatuses, AgentStatus, Agent,
}
use opampcommander.Agent.Health.{
  ComponentHealth, component_health, HealthMap, HealthEntries, ComponentDetails, component_details,
  DetailsMap, DetailsEntries,
}
use opampcommander.Agent.Settings.{
  AgentCertificate, AgentOpAmpConnectionSettings, AgentTelemetryConnectionSettings,
  AgentOtherConnectionSettings, ConnectionInfo,
}

unfoldable pub clone_list {ℓ} : {A : Type ℓ} → List A → List A
clone_list [] = []
clone_list (x ∷ xs) = x ∷ clone_list xs

-- cloneByteSlice, cloneStringSlice, and `make` with `copy`.
unfoldable pub clone_slice {ℓ} : {A : Type ℓ} → GoSlice A → GoSlice A
unfolding clone_list
clone_slice none = none
clone_slice (some xs) = some (clone_list xs)

-- `for k, v := range m { clone[k] = f(v) }` into a new map: the keys of `m` are distinct.
unfoldable pub clone_entries {ℓ} : {V : Type ℓ} → (V → V) → Assoc V → Assoc V
clone_entries f [] = []
clone_entries f ((k, v) ∷ m) = (k, f v) ∷ clone_entries f m

-- maps.Clone
unfoldable pub clone_string_map : GoMap String → GoMap String
unfolding clone_list
clone_string_map none = none
clone_string_map (some m) = some (clone_list m)

unfoldable pub clone_certificate : Option AgentCertificate → Option AgentCertificate
unfolding clone_slice
clone_certificate none = none
clone_certificate (some c) = some (record {
  cert = clone_slice c.cert;
  private_key = clone_slice c.private_key;
  ca_cert = clone_slice c.ca_cert;
})

unfoldable pub clone_headers : GoMap (GoSlice String) → GoMap (GoSlice String)
unfolding clone_entries clone_slice
clone_headers none = none
clone_headers (some m) = some (clone_entries clone_slice m)

unfoldable pub clone_opamp_connection_settings :
    Option AgentOpAmpConnectionSettings → Option AgentOpAmpConnectionSettings
unfolding clone_headers clone_certificate
clone_opamp_connection_settings none = none
clone_opamp_connection_settings (some s) = some (record {
  destination_endpoint = s.destination_endpoint;
  headers = clone_headers s.headers;
  certificate = clone_certificate s.certificate;
})

unfoldable pub clone_telemetry_connection_settings :
    Option AgentTelemetryConnectionSettings → Option AgentTelemetryConnectionSettings
unfolding clone_headers clone_certificate
clone_telemetry_connection_settings none = none
clone_telemetry_connection_settings (some s) = some (record {
  destination_endpoint = s.destination_endpoint;
  headers = clone_headers s.headers;
  certificate = clone_certificate s.certificate;
})

unfoldable pub clone_other : AgentOtherConnectionSettings → AgentOtherConnectionSettings
unfolding clone_headers clone_certificate
clone_other s = record {
  destination_endpoint = s.destination_endpoint;
  headers = clone_headers s.headers;
  certificate = clone_certificate s.certificate;
}

unfoldable pub clone_other_connections :
    GoMap AgentOtherConnectionSettings → GoMap AgentOtherConnectionSettings
unfolding clone_entries clone_other
clone_other_connections none = none
clone_other_connections (some m) = some (clone_entries clone_other m)

unfoldable pub clone_connection_info : Option ConnectionInfo → Option ConnectionInfo
clone_connection_info none = none
clone_connection_info (some ci) = some (record {
  hash = clone_slice ci.hash;
  opamp = clone_opamp_connection_settings ci.opamp;
  own_metrics = clone_telemetry_connection_settings ci.own_metrics;
  own_logs = clone_telemetry_connection_settings ci.own_logs;
  own_traces = clone_telemetry_connection_settings ci.own_traces;
  other_connections = clone_other_connections ci.other_connections;
})

unfoldable pub clone_config_file : AgentConfigFile → AgentConfigFile
unfolding clone_slice
clone_config_file f = record { body = clone_slice f.body; content_type = f.content_type }

-- A nil map becomes an empty one.
unfoldable pub clone_config_map : AgentConfigMap → AgentConfigMap
unfolding clone_entries clone_config_file
clone_config_map m = record {
  config_map = some (clone_entries clone_config_file (elems m.config_map));
}

unfoldable pub clone_remote_config : Option AgentSpecRemoteConfig → Option AgentSpecRemoteConfig
unfolding clone_config_map
clone_remote_config none = none
clone_remote_config (some rc) = some (record { config_map = clone_config_map rc.config_map })

unfoldable pub clone_restart_info : Option AgentRestartInfo → Option AgentRestartInfo
clone_restart_info none = none
clone_restart_info (some i) = some (record { required_restarted_at = i.required_restarted_at })

unfoldable pub clone_packages_available : Option AgentSpecPackage → Option AgentSpecPackage
unfolding clone_slice
clone_packages_available none = none
clone_packages_available (some p) = some (record { packages = clone_slice p.packages })

unfoldable pub clone_package_status : AgentPackageStatusEntry → AgentPackageStatusEntry
unfolding clone_slice
clone_package_status s = record {
  name = s.name;
  agent_has_version = s.agent_has_version;
  agent_has_hash = clone_slice s.agent_has_hash;
  server_offered_version = s.server_offered_version;
  status = s.status;
  error_message = s.error_message;
}

unfoldable pub clone_package_statuses : AgentPackageStatuses → AgentPackageStatuses
unfolding clone_entries clone_package_status
clone_package_statuses p = record {
  packages = some (clone_entries clone_package_status (elems p.packages));
  server_provided_all_packges_hash = clone_slice p.server_provided_all_packges_hash;
  error_message = p.error_message;
}

unfoldable mutual
  pub clone_component_health : ComponentHealth → ComponentHealth
  clone_component_health (component_health h t e s o m) =
      component_health h t e s o (clone_health_map m)

  pub clone_health_map : HealthMap → HealthMap
  clone_health_map HealthMap.nil = HealthMap.made HealthEntries.end
  clone_health_map (HealthMap.made es) = HealthMap.made (clone_health_entries es)

  pub clone_health_entries : HealthEntries → HealthEntries
  clone_health_entries HealthEntries.end = HealthEntries.end
  clone_health_entries (HealthEntries.entry k h es) =
      HealthEntries.entry k (clone_component_health h) (clone_health_entries es)

unfoldable mutual
  unfolding clone_string_map

  pub clone_details : ComponentDetails → ComponentDetails
  clone_details (component_details m subs) =
      component_details (clone_string_map m) (clone_component_details subs)

  pub clone_component_details : DetailsMap → DetailsMap
  clone_component_details DetailsMap.nil = DetailsMap.nil
  clone_component_details (DetailsMap.made es) = DetailsMap.made (clone_details_entries es)

  pub clone_details_entries : DetailsEntries → DetailsEntries
  clone_details_entries DetailsEntries.end = DetailsEntries.end
  clone_details_entries (DetailsEntries.entry k d es) =
      DetailsEntries.entry k (clone_details d) (clone_details_entries es)

unfoldable pub clone_metadata : AgentMetadata → AgentMetadata
clone_metadata m = record {
  instance_uid = m.instance_uid;
  namespace = m.namespace;
  resource_version = m.resource_version;
  description = record {
    identifying_attributes = clone_string_map m.description.identifying_attributes;
    non_identifying_attributes = clone_string_map m.description.non_identifying_attributes;
  };
  capabilities = m.capabilities;
  custom_capabilities = record { capabilities = clone_slice m.custom_capabilities.capabilities };
}

unfoldable pub clone_spec : AgentSpec → AgentSpec
clone_spec s = record {
  new_instance_uid = s.new_instance_uid;
  restart_info = clone_restart_info s.restart_info;
  connection_info = clone_connection_info s.connection_info;
  remote_config = clone_remote_config s.remote_config;
  packages_available = clone_packages_available s.packages_available;
}

unfoldable pub clone_status : AgentStatus → AgentStatus
clone_status s = record {
  remote_config_status = record s.remote_config_status {
    last_remote_config_hash = clone_slice s.remote_config_status.last_remote_config_hash;
  };
  connection_settings_status = record s.connection_settings_status {
    last_connection_settings_hash =
        clone_slice s.connection_settings_status.last_connection_settings_hash;
  };
  effective_config = record { config_map = clone_config_map s.effective_config.config_map };
  package_statuses = clone_package_statuses s.package_statuses;
  component_health = clone_component_health s.component_health;
  available_components = record {
    components = clone_component_details s.available_components.components;
    hash = clone_slice s.available_components.hash;
  };
  conditions = clone_slice s.conditions;
  connected = s.connected;
  connection_type = s.connection_type;
  sequence_num = s.sequence_num;
  last_reported_at = s.last_reported_at;
  last_reported_to = s.last_reported_to;
}

unfoldable pub clone : Agent → Agent
clone a = record {
  metadata = clone_metadata a.metadata;
  spec = clone_spec a.spec;
  status = clone_status a.status;
}
