-- ===== src/OpAmp/Proto.antt =====
-- The fields of the protocol's AgentToServer message that the sources read. A nil pointer is `none`.
use opampcommander.Base.{ℕ, ℤ, String, Bool, Option, List, GoSlice, Bytes}
use opampcommander.Agent.Types.{Uuid}

-- A double is its bits; `composite` is an array or a list of key-values, by the text it prints as.
pub data AnyValue : Type 0 where
  unset : AnyValue
  string_value : String → AnyValue
  bool_value : Bool → AnyValue
  int_value : ℤ → AnyValue
  double_value : ℕ → AnyValue
  bytes_value : Bytes → AnyValue
  composite : String → AnyValue

pub record KeyValue : Type 0 where
  pub key : String
  pub value : Option AnyValue

pub record AgentDescription : Type 0 where
  pub identifying_attributes : List KeyValue
  pub non_identifying_attributes : List KeyValue

-- Healthy, start time, last error, status, status time, sub-components; times in Unix nanoseconds.
mutual
  pub data ComponentHealthReport : Type 0 where
    health : Bool → ℕ → String → String → ℕ → HealthReports → ComponentHealthReport

  pub data HealthReports : Type 0 where
    end : HealthReports
    nil_entry : String → HealthReports → HealthReports
    entry : String → ComponentHealthReport → HealthReports → HealthReports

-- Metadata and sub-components.
mutual
  pub data DetailsReport : Type 0 where
    details : List KeyValue → DetailsReports → DetailsReport

  pub data DetailsReports : Type 0 where
    end : DetailsReports
    nil_entry : String → DetailsReports → DetailsReports
    entry : String → DetailsReport → DetailsReports → DetailsReports

pub record ConfigFile : Type 0 where
  pub body : Bytes
  pub content_type : String

-- A map that is nil has no entries; a nil file reads as an empty one.
pub record EffectiveConfig : Type 0 where
  pub config_map : List (String × Option ConfigFile)

pub record RemoteConfigStatusReport : Type 0 where
  pub last_remote_config_hash : Bytes
  pub status : ℕ
  pub error_message : String

pub record ConnectionSettingsStatusReport : Type 0 where
  pub last_connection_settings_hash : Bytes
  pub status : ℕ
  pub error_message : String

pub record PackageStatus : Type 0 where
  pub name : String
  pub agent_has_version : String
  pub agent_has_hash : Bytes
  pub server_offered_version : String
  pub status : ℕ
  pub error_message : String

pub record PackageStatuses : Type 0 where
  pub packages : List (String × Option PackageStatus)
  pub server_provided_all_packages_hash : Bytes
  pub error_message : String

pub record CustomCapabilities : Type 0 where
  pub capabilities : GoSlice String

pub record AvailableComponents : Type 0 where
  pub components : DetailsReports
  pub hash : Bytes

-- Of the last three, only whether they are set matters.
pub record AgentToServer : Type 0 where
  pub instance_uid : Uuid
  pub sequence_num : ℕ
  pub agent_description : Option AgentDescription
  pub capabilities : ℕ
  pub health : Option ComponentHealthReport
  pub effective_config : Option EffectiveConfig
  pub remote_config_status : Option RemoteConfigStatusReport
  pub connection_settings_status : Option ConnectionSettingsStatusReport
  pub package_statuses : Option PackageStatuses
  pub custom_capabilities : Option CustomCapabilities
  pub available_components : Option AvailableComponents
  pub flags : ℕ
  pub has_custom_message : Bool
  pub has_agent_disconnect : Bool
  pub has_connection_settings_request : Bool
