-- ===== src/Agent/Options.antt =====
-- agent.go: the remaining options of `NewAgent`. A nil argument leaves the agent as it is.
use opampcommander.Base.{Option, none, some, nat_eq, string_eq}
use opampcommander.Agent.Types.{
  AgentCustomCapabilities, AgentEffectiveConfig, AgentPackageStatuses, AgentAvailableComponents,
}
use opampcommander.Agent.Methods.{AgentOption}

unfoldable pub with_effective_config : Option AgentEffectiveConfig → AgentOption
with_effective_config none a = a
with_effective_config (some r) a = record a { status = record a.status { effective_config = r } }

unfoldable pub with_package_statuses : Option AgentPackageStatuses → AgentOption
with_package_statuses none a = a
with_package_statuses (some r) a = record a { status = record a.status { package_statuses = r } }

unfoldable pub with_custom_capabilities : Option AgentCustomCapabilities → AgentOption
with_custom_capabilities none a = a
with_custom_capabilities (some r) a = record a {
  metadata = record a.metadata { custom_capabilities = r };
}

unfoldable pub with_available_components : Option AgentAvailableComponents → AgentOption
with_available_components none a = a
with_available_components (some r) a = record a {
  status = record a.status { available_components = r };
}
