-- ===== src/Group/Types.antt =====
-- agentgroup.go, selector.go, agentremoteconfig.go: the data of agent groups.
use opampcommander.Base.{
  ℤ, pos, ℕ, String, Option, none, some, [], ◌∷◌, nat_eq, string_eq, GoSlice, GoMap, Bytes,
}
use opampcommander.Agent.Types.{condition_status_true, Condition}
use opampcommander.Agent.Health.{Time}

pub record AgentSelector : Type 0 where
  pub identifying_attributes : GoMap String
  pub non_identifying_attributes : GoMap String

pub record AgentRemoteConfigSpec : Type 0 where
  pub value : Bytes
  pub content_type : String

pub record AgentGroupAgentRemoteConfig : Type 0 where
  pub agent_remote_config_name : Option String
  pub agent_remote_config_spec : Option AgentRemoteConfigSpec
  pub agent_remote_config_ref : Option String

-- OpAMPConnectionSettings, TelemetryConnectionSettings and OtherConnectionSettings of agent.go,
-- which have the same fields.
pub record GroupConnectionSettings : Type 0 where
  pub destination_endpoint : String
  pub headers : GoMap (GoSlice String)
  pub certificate_name : Option String

pub record AgentGroupConnectionConfig : Type 0 where
  pub opamp_connection : Option GroupConnectionSettings
  pub own_metrics : Option GroupConnectionSettings
  pub own_logs : Option GroupConnectionSettings
  pub own_traces : Option GroupConnectionSettings
  pub other_connections : GoMap GroupConnectionSettings

pub record AgentGroupMetadata : Type 0 where
  pub namespace : String
  pub name : String
  pub attributes : GoMap String
  pub created_at : Time
  pub deleted_at : Time

pub record AgentGroupSpec : Type 0 where
  pub priority : ℤ
  pub selector : AgentSelector
  pub agent_remote_configs : GoSlice AgentGroupAgentRemoteConfig
  pub agent_connection_config : Option AgentGroupConnectionConfig

pub record AgentGroupStatus : Type 0 where
  pub num_agents : ℕ
  pub num_connected_agents : ℕ
  pub num_healthy_agents : ℕ
  pub num_unhealthy_agents : ℕ
  pub num_not_connected_agents : ℕ
  pub conditions : GoSlice Condition

pub record AgentGroup : Type 0 where
  pub metadata : AgentGroupMetadata
  pub spec : AgentGroupSpec
  pub status : AgentGroupStatus

-- AgentRemoteConfig, the fields that are read.
pub record AgentRemoteConfig : Type 0 where
  pub name : String
  pub spec : AgentRemoteConfigSpec

abbrev pub condition_type_created : String
condition_type_created = "Created"

abbrev pub condition_type_deleted : String
condition_type_deleted = "Deleted"

unfoldable pub new_agent_group : String → String → GoMap String → Time → String → AgentGroup
new_agent_group namespace name attributes created_at created_by = record {
  metadata = record {
    namespace = namespace;
    name = name;
    attributes = attributes;
    created_at = created_at;
    deleted_at = 0;
  };
  spec = record {
    priority = pos 0;
    selector = record { identifying_attributes = none; non_identifying_attributes = none };
    agent_remote_configs = none;
    agent_connection_config = none;
  };
  status = record {
    num_agents = 0;
    num_connected_agents = 0;
    num_healthy_agents = 0;
    num_unhealthy_agents = 0;
    num_not_connected_agents = 0;
    conditions = some (
        record {
          type = condition_type_created;
          last_transition_time = created_at;
          status = condition_status_true;
          reason = created_by;
          message = "Agent group created";
        }
        ∷ []);
  };
}
