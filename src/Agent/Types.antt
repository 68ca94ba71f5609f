-- ===== src/Agent/Types.antt =====
-- agent.go: the agent's metadata, spec and status. A UUID is the number of its 128 bits.
use opampcommander.Base.{ℕ, String, Bool, Option, nat_eq, string_eq, GoSlice, GoMap, Bytes}
use opampcommander.Agent.Capabilities.{Capabilities}
use opampcommander.Agent.Description.{Description}
use opampcommander.Agent.Settings.{ConnectionInfo}
use opampcommander.Agent.Health.{Time, ComponentHealth, DetailsMap}

abbrev pub Uuid : Type 0
Uuid = ℕ

abbrev pub uuid_nil : Uuid
uuid_nil = 0

pub record AgentCustomCapabilities : Type 0 where
  pub capabilities : GoSlice String

pub record AgentMetadata : Type 0 where
  pub instance_uid : Uuid
  pub namespace : String
  pub resource_version : ℕ
  pub description : Description
  pub capabilities : Capabilities
  pub custom_capabilities : AgentCustomCapabilities

pub record AgentConfigFile : Type 0 where
  pub body : Bytes
  pub content_type : String

pub record AgentConfigMap : Type 0 where
  pub config_map : GoMap AgentConfigFile

pub record AgentSpecRemoteConfig : Type 0 where
  pub config_map : AgentConfigMap

pub record AgentSpecPackage : Type 0 where
  pub packages : GoSlice String

pub record AgentRestartInfo : Type 0 where
  pub required_restarted_at : Time

pub record AgentSpec : Type 0 where
  pub new_instance_uid : Uuid
  pub restart_info : Option AgentRestartInfo
  pub connection_info : Option ConnectionInfo
  pub remote_config : Option AgentSpecRemoteConfig
  pub packages_available : Option AgentSpecPackage

-- The constants of `AgentConditionType` and `AgentConditionStatus`, which are open string types.
abbrev pub condition_type_connected : String
condition_type_connected = "Connected"

abbrev pub condition_type_registered : String
condition_type_registered = "Registered"

abbrev pub condition_type_instance_uid_conflict : String
condition_type_instance_uid_conflict = "InstanceUIDConflict"

abbrev pub condition_type_remote_config_applied : String
condition_type_remote_config_applied = "RemoteConfigApplied"

abbrev pub condition_status_true : String
condition_status_true = "True"

abbrev pub condition_status_false : String
condition_status_false = "False"

-- AgentCondition, and model.Condition, which has the same fields.
pub record Condition : Type 0 where
  pub type : String
  pub last_transition_time : Time
  pub status : String
  pub reason : String
  pub message : String

-- An int32 that the protocol fills: unset 0, applied 1, applying 2, failed 3.
pub record AgentRemoteConfigStatus : Type 0 where
  pub last_remote_config_hash : Bytes
  pub status : ℕ
  pub error_message : String
  pub last_updated_at : Time

pub record AgentConnectionSettingsStatus : Type 0 where
  pub last_connection_settings_hash : Bytes
  pub status : ℕ
  pub error_message : String

abbrev pub remote_config_status_unset : ℕ
remote_config_status_unset = 0

abbrev pub connection_settings_status_unset : ℕ
connection_settings_status_unset = 0

pub record AgentEffectiveConfig : Type 0 where
  pub config_map : AgentConfigMap

pub record AgentPackageStatusEntry : Type 0 where
  pub name : String
  pub agent_has_version : String
  pub agent_has_hash : Bytes
  pub server_offered_version : String
  pub status : ℕ
  pub error_message : String

pub record AgentPackageStatuses : Type 0 where
  pub packages : GoMap AgentPackageStatusEntry
  pub server_provided_all_packges_hash : Bytes
  pub error_message : String

pub record AgentAvailableComponents : Type 0 where
  pub components : DetailsMap
  pub hash : Bytes

-- connection.go
pub data ConnectionType : Type 0 where
  unknown http web_socket : ConnectionType

pub record AgentStatus : Type 0 where
  pub remote_config_status : AgentRemoteConfigStatus
  pub connection_settings_status : AgentConnectionSettingsStatus
  pub effective_config : AgentEffectiveConfig
  pub package_statuses : AgentPackageStatuses
  pub component_health : ComponentHealth
  pub available_components : AgentAvailableComponents
  pub conditions : GoSlice Condition
  pub connected : Bool
  pub connection_type : ConnectionType
  pub sequence_num : ℕ
  pub last_reported_at : Time
  pub last_reported_to : String

pub record Agent : Type 0 where
  pub metadata : AgentMetadata
  pub spec : AgentSpec
  pub status : AgentStatus
