-- ===== src/OpAmp/ToDomain.antt =====
-- protobufsToDomain.go: the parts of a message as the values that an agent keeps. The formats of
-- integers, floats and bytes are the library's.
use opampcommander.Base.{
  ℕ, ℤ, ◌+◌, ◌*◌, ◌%◌, ◌^◌, String, Bool, true, false, Option, none, some, List, [], ◌∷◌, nat_eq,
  string_eq, Assoc, Bytes, insert,
}
use opampcommander.Agent.Types.{
  AgentCustomCapabilities, AgentConfigFile, AgentRemoteConfigStatus, AgentConnectionSettingsStatus,
  AgentEffectiveConfig, AgentPackageStatusEntry, AgentPackageStatuses, AgentAvailableComponents,
}
use opampcommander.Agent.Health.{
  Time, ComponentHealth, component_health, HealthMap, HealthEntries, healthy, ComponentDetails,
  component_details, DetailsMap, DetailsEntries,
}
use opampcommander.Agent.Description.{Description}
use opampcommander.Base.{◌/◌}
use opampcommander.Agent.Health.{component_health, component_details}
use opampcommander.OpAmp.Proto.{
  AnyValue, KeyValue, AgentDescription, ComponentHealthReport, health, HealthReports, DetailsReport,
  details, DetailsReports, ConfigFile, EffectiveConfig, RemoteConfigStatusReport,
  ConnectionSettingsStatusReport, PackageStatus, PackageStatuses, CustomCapabilities,
  AvailableComponents,
}

-- strconv.FormatInt, strconv.FormatFloat and base64.StdEncoding.
pub record Formats : Type 0 where
  pub format_int : ℤ → String
  pub format_float : ℕ → String
  pub base64 : Bytes → String

format_bool : Bool → String
format_bool true = "true"
format_bool false = "false"

module _ (f : Formats) where
  unfoldable pub any_value_to_string : Option AnyValue → String
  unfolding format_bool
  any_value_to_string none = ""
  any_value_to_string (some AnyValue.unset) = ""
  any_value_to_string (some (AnyValue.string_value s)) = s
  any_value_to_string (some (AnyValue.bool_value b)) = format_bool b
  any_value_to_string (some (AnyValue.int_value n)) = f.format_int n
  any_value_to_string (some (AnyValue.double_value d)) = f.format_float d
  any_value_to_string (some (AnyValue.bytes_value b)) = f.base64 b
  any_value_to_string (some (AnyValue.composite s)) = s

  unfoldable pub to_map_from : Assoc String → List KeyValue → Assoc String
  unfolding any_value_to_string insert
  to_map_from m [] = m
  to_map_from m (kv ∷ kvs) = to_map_from (insert kv.key (any_value_to_string kv.value) m) kvs

  unfoldable pub to_map : List KeyValue → Assoc String
  unfolding to_map_from
  to_map kvs = to_map_from [] kvs

  unfoldable pub desc_to_domain : Option AgentDescription → Option Description
  unfolding to_map
  desc_to_domain none = none
  desc_to_domain (some d) = some (record {
    identifying_attributes = some (to_map d.identifying_attributes);
    non_identifying_attributes = some (to_map d.non_identifying_attributes);
  })

  unfoldable mutual
    pub details_to_domain : DetailsReport → ComponentDetails
    details_to_domain (details metadata subs) =
        component_details (some (to_map metadata)) (DetailsMap.made (details_entries subs))

    pub details_entries : DetailsReports → DetailsEntries
    details_entries DetailsReports.end = DetailsEntries.end
    details_entries (DetailsReports.nil_entry k rest) =
        DetailsEntries.entry k (component_details (some []) (DetailsMap.made DetailsEntries.end))
          (details_entries rest)
    details_entries (DetailsReports.entry k d rest) =
        DetailsEntries.entry k (details_to_domain d) (details_entries rest)

  unfoldable pub available_components_to_domain :
      Option AvailableComponents → Option AgentAvailableComponents
  unfolding details_entries
  available_components_to_domain none = none
  available_components_to_domain (some c) =
      some (record { components = DetailsMap.made (details_entries c.components); hash = c.hash })

-- 1 January 1970, from the zero value of `time.Time`.
abbrev unix_epoch : Time
unix_epoch = 62135596800 * 10 ^ 9

unfoldable pub unix_nano_to_time : ℕ → Time
unix_nano_to_time nsec = unix_epoch + nsec / 10 ^ 9 * 10 ^ 9 + nsec % 10 ^ 9

unfoldable mutual
  pub health_of_report : ComponentHealthReport → ComponentHealth
  health_of_report (health healthy start last_error status status_time subs) =
      component_health healthy (unix_nano_to_time start) last_error status
        (unix_nano_to_time status_time) (HealthMap.made (health_entries subs))

  -- A nil sub-component is left out.
  pub health_entries : HealthReports → HealthEntries
  health_entries HealthReports.end = HealthEntries.end
  health_entries (HealthReports.nil_entry k rest) = health_entries rest
  health_entries (HealthReports.entry k h rest) =
      HealthEntries.entry k (health_of_report h) (health_entries rest)

unfoldable pub health_to_domain : Option ComponentHealthReport → Option ComponentHealth
unfolding health_of_report
health_to_domain none = none
health_to_domain (some h) = some (health_of_report h)

unfoldable pub remote_config_status_to_domain :
    Option RemoteConfigStatusReport → Time → Option AgentRemoteConfigStatus
remote_config_status_to_domain none now = none
remote_config_status_to_domain (some r) now = some (record {
  last_remote_config_hash = r.last_remote_config_hash;
  status = r.status;
  error_message = r.error_message;
  last_updated_at = now;
})

unfoldable pub connection_settings_status_to_domain :
    Option ConnectionSettingsStatusReport → Option AgentConnectionSettingsStatus
connection_settings_status_to_domain none = none
connection_settings_status_to_domain (some r) = some (record {
  last_connection_settings_hash = r.last_connection_settings_hash;
  status = r.status;
  error_message = r.error_message;
})

unfoldable pub custom_capabilities_to_domain :
    Option CustomCapabilities → Option AgentCustomCapabilities
custom_capabilities_to_domain none = none
custom_capabilities_to_domain (some c) = some (record { capabilities = c.capabilities })

config_file : Option ConfigFile → AgentConfigFile
config_file none = record { body = none; content_type = "" }
config_file (some f) = record { body = f.body; content_type = f.content_type }

config_files : List (String × Option ConfigFile) → Assoc AgentConfigFile
unfolding config_file
config_files [] = []
config_files ((k, f) ∷ m) = (k, config_file f) ∷ config_files m

unfoldable pub effective_config_to_domain : Option EffectiveConfig → Option AgentEffectiveConfig
unfolding config_files
effective_config_to_domain none = none
effective_config_to_domain (some c) =
    some (record { config_map = record { config_map = some (config_files c.config_map) } })

package_entry : Option PackageStatus → AgentPackageStatusEntry
package_entry none = record {
  name = "";
  agent_has_version = "";
  agent_has_hash = none;
  server_offered_version = "";
  status = 0;
  error_message = "";
}
package_entry (some p) = record {
  name = p.name;
  agent_has_version = p.agent_has_version;
  agent_has_hash = p.agent_has_hash;
  server_offered_version = p.server_offered_version;
  status = p.status;
  error_message = p.error_message;
}

package_entries : List (String × Option PackageStatus) → Assoc AgentPackageStatusEntry
unfolding package_entry
package_entries [] = []
package_entries ((k, p) ∷ m) = (k, package_entry p) ∷ package_entries m

unfoldable pub package_status_to_domain : Option PackageStatuses → Option AgentPackageStatuses
unfolding package_entries
package_status_to_domain none = none
package_status_to_domain (some p) = some (record {
  packages = some (package_entries p.packages);
  server_provided_all_packges_hash = p.server_provided_all_packages_hash;
  error_message = p.error_message;
})
