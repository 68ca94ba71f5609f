-- ===== src/Examples.antt =====
-- Concrete agents, groups, ports and protocol numbers, for the examples.
pub mod Groups
pub mod Messages
pub mod Repository
pub mod Conditions
pub mod Connections
pub mod Caching
pub mod Service
pub mod Answers
pub mod Servers
pub mod Access
use opampcommander.Base.{
  ℕ, pos, String, Bool, true, false, Option, none, some, List, [], ◌∷◌, ◌==◌, nat_eq, string_eq,
  elems, length, resource_not_exist, Result, ok, err,
}
use opampcommander.Agent.Types.{Agent}
use opampcommander.Agent.Health.{Time, ComponentHealth, component_health, HealthMap}
use opampcommander.Agent.Settings.{ConnectionHash}
use opampcommander.Agent.Methods.{new_agent, with_namespace, with_description, with_capabilities}
use opampcommander.Group.Types.{
  AgentSelector, AgentRemoteConfigSpec, AgentGroupAgentRemoteConfig, AgentGroupConnectionConfig,
  AgentGroup, AgentRemoteConfig,
}
use opampcommander.Group.Resolve.{Ports}
use opampcommander.ServerToAgent.Message.{Message, AgentPackage, Protocol, Library}

abbrev pub yaml : List ℕ → AgentRemoteConfigSpec
yaml bytes = record { value = some bytes; content_type = "text/yaml" }

abbrev pub inline_config : String → List ℕ → AgentGroupAgentRemoteConfig
inline_config name bytes = record {
  agent_remote_config_name = some name;
  agent_remote_config_spec = some (yaml bytes);
  agent_remote_config_ref = none;
}

abbrev pub ref_config : String → AgentGroupAgentRemoteConfig
ref_config name = record {
  agent_remote_config_name = none;
  agent_remote_config_spec = none;
  agent_remote_config_ref = some name;
}

abbrev stored_config : Bool → Result AgentRemoteConfig
stored_config true = ok (record { name = "base"; spec = yaml (1 ∷ 2 ∷ []) })
stored_config false = err resource_not_exist

-- One stored remote config, "base", and no certificate.
abbrev pub ports : Ports
ports = record {
  get_agent_remote_config = λ namespace name. stored_config (name == "base");
  get_certificate = λ namespace name. err resource_not_exist;
}

abbrev pub hash : ConnectionHash
hash = record { encode = λ o m l t x. some (length (elems x) ∷ []); fnv64 = λ bytes. bytes }

abbrev pub linux_only : AgentSelector
linux_only = record {
  identifying_attributes = none;
  non_identifying_attributes = some (("os.type", "linux") ∷ []);
}

abbrev pub group_with :
    String
    → AgentSelector
    → List AgentGroupAgentRemoteConfig
    → Option AgentGroupConnectionConfig
    → AgentGroup
group_with name selector configs connection = record {
  metadata = record {
    namespace = "prod";
    name = name;
    attributes = none;
    created_at = 1;
    deleted_at = 0;
  };
  spec = record {
    priority = pos 3;
    selector = selector;
    agent_remote_configs = some configs;
    agent_connection_config = connection;
  };
  status = record {
    num_agents = 0;
    num_connected_agents = 0;
    num_healthy_agents = 0;
    num_unhealthy_agents = 0;
    num_not_connected_agents = 0;
    conditions = none;
  };
}

abbrev pub linux_group : AgentGroup
linux_group =
    group_with "linux" linux_only (ref_config "base" ∷ inline_config "extra" (3 ∷ []) ∷ []) none

-- It declares a config that the first group declares too.
abbrev pub override_group : AgentGroup
override_group = group_with "override" linux_only (ref_config "base" ∷ []) none

abbrev pub broken_group : AgentGroup
broken_group = group_with "broken" linux_only (ref_config "missing" ∷ []) none

abbrev pub groups : List AgentGroup
groups = linux_group ∷ broken_group ∷ override_group ∷ []

abbrev pub metrics_only : AgentGroupConnectionConfig
metrics_only = record {
  opamp_connection = none;
  own_metrics = some (record {
    destination_endpoint = "https://metrics.example";
    headers = none;
    certificate_name = none;
  });
  own_logs = none;
  own_traces = none;
  other_connections = none;
}

abbrev pub metrics_group : AgentGroup
metrics_group = group_with "metrics" linux_only [] (some metrics_only)

-- AcceptsRemoteConfig and AcceptsRestartCommand.
abbrev pub linux_agent : Agent
unfolding new_agent with_namespace with_description with_capabilities
linux_agent = new_agent 5 5 7 (
    with_namespace "prod"
    ∷ with_description (
        some (record {
          identifying_attributes = some (("service.name", "collector") ∷ []);
          non_identifying_attributes = some (("os.type", "linux") ∷ []);
        }))
    ∷ with_capabilities (some 1026)
    ∷ [])

-- AcceptsPackages, with two packages named.
abbrev pub package_agent : Agent
package_agent = record linux_agent {
  metadata = record linux_agent.metadata { capabilities = 8 };
  spec = record linux_agent.spec {
    packages_available = some (record { packages = some ("otel" ∷ "gone" ∷ []) });
  };
}

abbrev pub protocol : Protocol
protocol = record {
  report_full_state = 1;
  restart = 0;
  top_level = 0;
  addon = 1;
  accepts_status = 1;
  offers_remote_config = 2;
  accepts_effective_config = 4;
  offers_connection_settings = 32;
  offers_packages = 8;
  accepts_packages_status = 16;
}

abbrev pub library : Library
library = record {
  lower_trim = λ s. s;
  marshal_configs = λ m. some (length m ∷ []);
  marshal_packages = λ m. some (length m ∷ []);
  fnv64 = λ bytes. bytes;
}

abbrev stored_package : Bool → Result AgentPackage
stored_package true = ok (record {
  package_type = "addon";
  version = "1.2.3";
  download_url = "https://packages.example/otel";
  content_hash = some (9 ∷ []);
  signature = none;
  headers = none;
  hash = some (8 ∷ []);
})
stored_package false = err resource_not_exist

-- One stored package, "otel".
abbrev pub get_package : String → String → Result AgentPackage
get_package namespace name = stored_package (name == "otel")

abbrev pub health_since : Time → ComponentHealth
health_since t = component_health true t "" "" t HealthMap.nil

abbrev pub message_of : Option Message → Message
message_of (some m) = m
message_of none = record {
  instance_uid = 0;
  remote_config = none;
  connection_settings = none;
  packages_available = none;
  flags = 0;
  capabilities = 0;
  new_instance_uid = none;
  command = none;
}
