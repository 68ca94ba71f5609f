-- ===== src/ServerToAgent/Message.antt =====
-- The fields of the protocol's messages that the builder fills, and what it takes from elsewhere.
use opampcommander.Base.{ℕ, String, Option, List, nat_eq, string_eq, Assoc, GoMap, Bytes}
use opampcommander.Agent.Types.{Uuid, AgentConfigFile}

pub record Header : Type 0 where
  pub key : String
  pub value : String

pub record TlsCertificate : Type 0 where
  pub cert : Bytes
  pub private_key : Bytes
  pub ca_cert : Bytes

-- The messages of OpAMP, telemetry and other connection settings have the same fields.
pub record ConnectionSettings : Type 0 where
  pub destination_endpoint : String
  pub headers : Option (List Header)
  pub certificate : Option TlsCertificate

pub record ConnectionSettingsOffers : Type 0 where
  pub hash : Bytes
  pub opamp : Option ConnectionSettings
  pub own_metrics : Option ConnectionSettings
  pub own_logs : Option ConnectionSettings
  pub own_traces : Option ConnectionSettings
  pub other_connections : GoMap ConnectionSettings

pub record RemoteConfig : Type 0 where
  pub config_map : Assoc AgentConfigFile
  pub config_hash : List ℕ

pub record PackageAvailable : Type 0 where
  pub type : ℕ
  pub version : String
  pub download_url : String
  pub content_hash : Bytes
  pub signature : Bytes
  pub headers : List Header
  pub hash : Bytes

pub record PackagesAvailable : Type 0 where
  pub packages : Assoc PackageAvailable
  pub all_packages_hash : List ℕ

-- A UUID stands for its 16 bytes.
pub record Message : Type 0 where
  pub instance_uid : Uuid
  pub remote_config : Option RemoteConfig
  pub connection_settings : Option ConnectionSettingsOffers
  pub packages_available : Option PackagesAvailable
  pub flags : ℕ
  pub capabilities : ℕ
  pub new_instance_uid : Option Uuid
  pub command : Option ℕ

-- agentpackage.go, the fields that are read.
pub record AgentPackage : Type 0 where
  pub package_type : String
  pub version : String
  pub download_url : String
  pub content_hash : Bytes
  pub signature : Bytes
  pub headers : GoMap String
  pub hash : Bytes

-- The numbers of the protocol's enumerations.
pub record Protocol : Type 0 where
  pub report_full_state : ℕ
  pub restart : ℕ
  pub top_level : ℕ
  pub addon : ℕ
  pub accepts_status : ℕ
  pub offers_remote_config : ℕ
  pub accepts_effective_config : ℕ
  pub offers_connection_settings : ℕ
  pub offers_packages : ℕ
  pub accepts_packages_status : ℕ

-- Go's library: `lower_trim` is `strings.ToLower(strings.TrimSpace(s))`, the two encoders are
-- `json.Marshal` on the two maps that are hashed (`none` is its error), `fnv64` is `fnv.New64`.
pub record Library : Type 0 where
  pub lower_trim : String → String
  pub marshal_configs : Assoc AgentConfigFile → Option (List ℕ)
  pub marshal_packages : Assoc PackageAvailable → Option (List ℕ)
  pub fnv64 : List ℕ → List ℕ
