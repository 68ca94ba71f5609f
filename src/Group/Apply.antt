-- ===== src/Group/Apply.antt =====
-- service/agentgroup.go: an agent's desired state, from every group that governs it.
pub mod Deleted
pub mod Desired
use opampcommander.Base.{
  Option, none, some, List, [], ◌∷◌, Assoc, copy_into, Error, Result, ok, err,
}
use opampcommander.Agent.Types.{AgentConfigFile, AgentSpecRemoteConfig, Agent}
use opampcommander.Agent.Settings.{ConnectionHash}
use opampcommander.Group.Types.{AgentGroup}
use opampcommander.Group.Select.{get_agent_groups_for_agent}
use opampcommander.Group.Resolve.{Ports, collect_group_remote_configs}
use opampcommander.Group.Connect.{apply_group_connection_settings}

-- A group whose configs cannot be resolved is skipped.
contribute : Assoc AgentConfigFile → Result (Assoc AgentConfigFile) → Assoc AgentConfigFile
contribute desired (err e) = desired
contribute desired (ok configs) = copy_into desired configs

unfoldable pub desired_from :
    Ports → List AgentGroup → Assoc AgentConfigFile → Assoc AgentConfigFile
unfolding contribute
desired_from p [] desired = desired
desired_from p (g ∷ groups) desired =
    desired_from p groups (contribute desired (collect_group_remote_configs p g))

remote_config_of : Assoc AgentConfigFile → Option AgentSpecRemoteConfig
remote_config_of [] = none
remote_config_of (e ∷ configs) =
    some (record { config_map = record { config_map = some (e ∷ configs) } })

unfoldable pub set_agent_remote_configs : Assoc AgentConfigFile → Agent → Agent
unfolding remote_config_of
set_agent_remote_configs configs a = record a {
  spec = record a.spec { remote_config = remote_config_of configs };
}

-- The first failure ends the loop.
stop_on : Option Error → Agent × Option Error → Agent → Agent × Option Error
stop_on none rest a = rest
stop_on (some e) rest a = (a, some e)

unfoldable pub connect_all : ConnectionHash → Ports → List AgentGroup → Agent → Agent × Option Error
unfolding stop_on
connect_all h p [] a = (a, none)
connect_all h p (g ∷ groups) a =
    let r = apply_group_connection_settings h p g a in
    let rest = connect_all h p groups r.0 in stop_on r.1 rest r.0

unfoldable pub apply_matching_agent_groups :
    ConnectionHash → Ports → List AgentGroup → Agent → Agent × Option Error
unfolding get_agent_groups_for_agent desired_from set_agent_remote_configs connect_all
apply_matching_agent_groups h p all_groups a =
    let groups = get_agent_groups_for_agent all_groups a in
    connect_all h p groups (set_agent_remote_configs (desired_from p groups []) a)
