-- ===== src/Agent/Methods.antt =====
-- agent.go: the constructor with its options, and what is asked of an agent.
use opampcommander.Base.{
  ℕ, String, Bool, false, not, ◌&&◌, ◌||◌, Option, none, some, List, [], ◌∷◌, ltb, if◌then◌else◌,
  ◌==◌, nat_eq, string_eq, Assoc, elems, is_cons, insert, Error, unsupported_agent_operation,
}
use opampcommander.Agent.Types.{
  Uuid, uuid_nil, AgentMetadata, AgentConfigFile, AgentConfigMap, AgentSpecRemoteConfig,
  AgentSpecPackage, AgentRestartInfo, condition_type_registered, condition_status_true,
  remote_config_status_unset, connection_settings_status_unset, ConnectionType, Agent,
}
use opampcommander.Agent.Health.{
  Time, is_zero, sub_lt, ComponentHealth, component_health, HealthMap, HealthEntries, start_time,
  DetailsMap, DetailsEntries,
}
use opampcommander.Agent.Description.{Description}
use opampcommander.Agent.Capabilities.{
  Capabilities, has, capability_accepts_remote_config, has_accepts_restart_command,
  has_accepts_packages, has_accepts_opamp_connection_settings, has_reports_own_traces,
  has_reports_own_logs, has_reports_own_metrics,
}

abbrev pub default_namespace_name : String
default_namespace_name = "default"

abbrev no_config : AgentConfigMap
no_config = record { config_map = some [] }

-- `now` and `now'` are the two readings of the clock.
unfoldable pub fresh_agent : Time → Time → Uuid → Agent
fresh_agent now now' instance_uid = record {
  metadata = record {
    instance_uid = instance_uid;
    namespace = default_namespace_name;
    resource_version = 0;
    description = record { identifying_attributes = none; non_identifying_attributes = none };
    capabilities = 0;
    custom_capabilities = record { capabilities = none };
  };
  spec = record {
    new_instance_uid = uuid_nil;
    restart_info = none;
    connection_info = none;
    remote_config = none;
    packages_available = none;
  };
  status = record {
    remote_config_status = record {
      last_remote_config_hash = none;
      status = remote_config_status_unset;
      error_message = "";
      last_updated_at = 0;
    };
    connection_settings_status = record {
      last_connection_settings_hash = none;
      status = connection_settings_status_unset;
      error_message = "";
    };
    effective_config = record { config_map = no_config };
    package_statuses = record {
      packages = some [];
      server_provided_all_packges_hash = none;
      error_message = "";
    };
    component_health = component_health false now "" "" 0 (HealthMap.made HealthEntries.end);
    available_components = record { components = DetailsMap.made DetailsEntries.end; hash = none };
    conditions = some (
        record {
          type = condition_type_registered;
          last_transition_time = now';
          status = condition_status_true;
          reason = "system";
          message = "Agent registered";
        }
        ∷ []);
    connected = false;
    connection_type = ConnectionType.unknown;
    sequence_num = 0;
    last_reported_at = 0;
    last_reported_to = "";
  };
}

abbrev pub AgentOption : Type 0
AgentOption = Agent → Agent

unfoldable pub apply_options : List AgentOption → Agent → Agent
apply_options [] a = a
apply_options (opt ∷ opts) a = apply_options opts (opt a)

unfoldable pub new_agent : Time → Time → Uuid → List AgentOption → Agent
unfolding fresh_agent apply_options
new_agent now now' instance_uid opts = apply_options opts (fresh_agent now now' instance_uid)

unfoldable pub with_description : Option Description → AgentOption
with_description none a = a
with_description (some d) a = record a { metadata = record a.metadata { description = d } }

unfoldable pub with_namespace : String → AgentOption
with_namespace ns a =
    if ns == "" then a else record a { metadata = record a.metadata { namespace = ns } }

unfoldable pub with_capabilities : Option Capabilities → AgentOption
with_capabilities none a = a
with_capabilities (some c) a = record a { metadata = record a.metadata { capabilities = c } }

unfoldable pub with_component_health : Option ComponentHealth → AgentOption
with_component_health none a = a
with_component_health (some h) a = record a { status = record a.status { component_health = h } }

-- A nil `RemoteConfig` or a nil map in it is made first.
unfoldable pub config_entries : Option AgentSpecRemoteConfig → Assoc AgentConfigFile
config_entries none = []
config_entries (some rc) = elems rc.config_map.config_map

unfoldable pub apply_remote_config : String → AgentConfigFile → Agent → Agent
unfolding config_entries
apply_remote_config name file a = record a {
  spec = record a.spec {
    remote_config = some (record {
      config_map = record {
        config_map = some (insert name file (config_entries a.spec.remote_config));
      };
    });
  };
}

unfoldable pub is_complete : AgentMetadata → Bool
is_complete m =
    (is_cons (elems m.description.identifying_attributes)
      || is_cons (elems m.description.non_identifying_attributes))
    && not (m.capabilities == 0)

unfoldable pub is_connected : Agent → Bool
unfolding is_zero
is_connected a = not (is_zero a.status.last_reported_at)

-- 90 * time.Second
abbrev pub default_connection_staleness : ℕ
default_connection_staleness = 90000000000

unfoldable pub is_connected_at : Agent → Time → ℕ → Bool
unfolding is_zero sub_lt
is_connected_at a now staleness =
    if not a.status.connected
    then false
    else if is_zero a.status.last_reported_at
    then false
    else sub_lt now a.status.last_reported_at staleness

unfoldable pub has_new_instance_uid : Agent → Bool
has_new_instance_uid a = not (a.spec.new_instance_uid == uuid_nil)

-- `HasInstanceUID` reads the UID that the server would issue, as `HasNewInstanceUID` does.
unfoldable pub has_instance_uid : Agent → Bool
has_instance_uid a = not (a.spec.new_instance_uid == uuid_nil)

unfoldable pub new_instance_uid_bytes : Agent → Option Uuid
new_instance_uid_bytes a =
    if a.spec.new_instance_uid == uuid_nil then none else some a.spec.new_instance_uid

unfoldable pub need_full_state_command : Agent → Bool
unfolding is_complete has_instance_uid
need_full_state_command a = not (has_instance_uid a) || not (is_complete a.metadata)

restart_due : Option AgentRestartInfo → Time → Bool
unfolding is_zero
restart_due none started = false
restart_due (some info) started =
    not (is_zero info.required_restarted_at) && ltb started info.required_restarted_at

unfoldable pub should_be_restarted : Agent → Bool
unfolding restart_due
should_be_restarted a = restart_due a.spec.restart_info (start_time a.status.component_health)

unfoldable pub is_restart_supported : Agent → Bool
unfolding has_accepts_restart_command
is_restart_supported a = has_accepts_restart_command a.metadata.capabilities

unfoldable pub set_restart_required : Time → Agent → Agent × Option Error
unfolding is_restart_supported
set_restart_required required_at a =
    if is_restart_supported a
    then (
      record a {
        spec = record a.spec {
          restart_info = some (record { required_restarted_at = required_at });
        };
      },
      none,
    )
    else (a, some unsupported_agent_operation)

unfoldable pub is_remote_config_supported : Agent → Bool
unfolding has
is_remote_config_supported a = has a.metadata.capabilities capability_accepts_remote_config

unfoldable pub has_assigned_remote_config : Agent → Bool
unfolding config_entries
has_assigned_remote_config a = is_cons (config_entries a.spec.remote_config)

unfoldable pub has_remote_config : Agent → Bool
unfolding is_remote_config_supported config_entries
has_remote_config a = is_remote_config_supported a && is_cons (config_entries a.spec.remote_config)

unfoldable pub has_pending_server_messages : Agent → Bool
unfolding need_full_state_command has_remote_config should_be_restarted
has_pending_server_messages a =
    need_full_state_command a || has_remote_config a || should_be_restarted a

-- `len(a.Spec.PackagesAvailable.Packages) > 0`; `none` is the panic of the nil dereference.
unfoldable pub packages_offered : Option AgentSpecPackage → Option Bool
packages_offered none = none
packages_offered (some p) = some (is_cons (elems p.packages))

unfoldable pub has_new_packages : Agent → Option Bool
unfolding has_accepts_packages packages_offered
has_new_packages a =
    if has_accepts_packages a.metadata.capabilities
    then packages_offered a.spec.packages_available
    else some false

unfoldable pub is_opamp_connection_settings_supported : Agent → Bool
unfolding has_accepts_opamp_connection_settings
is_opamp_connection_settings_supported a =
    has_accepts_opamp_connection_settings a.metadata.capabilities

unfoldable pub is_own_metrics_supported : Agent → Bool
unfolding has_reports_own_traces
is_own_metrics_supported a = has_reports_own_traces a.metadata.capabilities

unfoldable pub is_own_logs_supported : Agent → Bool
unfolding has_reports_own_logs
is_own_logs_supported a = has_reports_own_logs a.metadata.capabilities

unfoldable pub is_own_traces_supported : Agent → Bool
unfolding has_reports_own_metrics
is_own_traces_supported a = has_reports_own_metrics a.metadata.capabilities
