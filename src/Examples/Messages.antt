-- ===== src/Examples/Messages.antt =====
-- The theorems on messages at the example agents.
use opampcommander.Base.{
  ◌≡◌, refl, ◌↔◌, true, ◌&&◌, none, some, [], ◌∷◌, if◌then◌else◌, nat_eq, string_eq, is_some,
  lookup,
}
use opampcommander.ServerToAgent.Build.Packages.{listed, resolved_package}
use opampcommander.Agent.Types.{Agent}
use opampcommander.Agent.Connecting.{apply_connection_settings}
use opampcommander.Group.Deletion.{find_true}
use opampcommander.Agent.Capabilities.{has_accepts_packages}
use opampcommander.Agent.Methods.{
  config_entries, is_remote_config_supported, is_restart_supported, set_restart_required,
}
use opampcommander.Agent.Reports.{report_component_health}
use opampcommander.Group.Apply.{apply_matching_agent_groups}
use opampcommander.Group.Connect.{apply_group_connection_settings}
use opampcommander.Group.Select.{get_agent_groups_for_agent, governs}
use opampcommander.ServerToAgent.Message.{Message}
use opampcommander.ServerToAgent.Build.{build}
use opampcommander.ServerToAgent.Build.Delivery.{
  Encodes, delivered, packages_of, delivered-build, lookup-packages-build,
  delivered-apply_matching_agent_groups,
}
use opampcommander.ServerToAgent.Build.Restart.{command-set_restart_required}
use opampcommander.ServerToAgent.Build.Panics.{
  IsDeliverable, build-IsDeliverable, build-apply_group_connection_settings,
}
use opampcommander.Group.Apply.Desired.{winner}
use opampcommander.Examples.{
  ports, hash, groups, linux_agent, package_agent, metrics_group, metrics_only, protocol, library,
  get_package, health_since, message_of,
}

library-Encodes : Encodes library
library-Encodes = record { configs = λ m. refl; packages = λ m. refl }

build-IsDeliverable_example :
    (is_some (build protocol library get_package linux_agent) ≡ true) ↔ IsDeliverable linux_agent
build-IsDeliverable_example = build-IsDeliverable protocol library get_package linux_agent

metrics_group_applies :
    (apply_group_connection_settings hash ports metrics_group linux_agent).1 ≡ none
unfolding apply_group_connection_settings apply_connection_settings
metrics_group_applies = refl

build-apply_group_connection_settings_example :
    build protocol library get_package
      (apply_group_connection_settings hash ports metrics_group linux_agent).0
    ≡ none
build-apply_group_connection_settings_example =
    build-apply_group_connection_settings protocol library get_package hash ports metrics_group
      metrics_only linux_agent refl refl metrics_group_applies

abbrev assigned : Agent
assigned = (apply_matching_agent_groups hash ports groups linux_agent).0

abbrev assigned_message : Message
assigned_message = message_of (build protocol library get_package assigned)

assigned_builds : build protocol library get_package assigned ≡ some assigned_message
unfolding build apply_matching_agent_groups linux_agent governs find_true lookup
    apply_group_connection_settings
assigned_builds = refl

delivered-build_example : delivered assigned_message.remote_config ≡ (
    if is_remote_config_supported assigned then config_entries assigned.spec.remote_config else [])
delivered-build_example =
    delivered-build protocol library get_package assigned assigned_message library-Encodes
      assigned_builds

delivered-apply_matching_agent_groups_example :
    lookup "linux/extra" (delivered assigned_message.remote_config) ≡ (
      if is_remote_config_supported linux_agent
      then winner ports (get_agent_groups_for_agent groups linux_agent) "linux/extra"
      else none)
delivered-apply_matching_agent_groups_example =
    delivered-apply_matching_agent_groups protocol library get_package hash ports groups linux_agent
      assigned_message "linux/extra" library-Encodes assigned_builds

abbrev package_message : Message
package_message = message_of (build protocol library get_package package_agent)

package_agent_builds : build protocol library get_package package_agent ≡ some package_message
unfolding build linux_agent
package_agent_builds = refl

lookup-packages-build_example : lookup "otel" (packages_of package_message.packages_available) ≡ (
    if has_accepts_packages 8 && listed "otel" ("otel" ∷ "gone" ∷ [])
    then resolved_package protocol library get_package "prod" "otel"
    else none)
unfolding build linux_agent
lookup-packages-build_example =
    lookup-packages-build protocol library get_package package_agent package_message "otel"
      library-Encodes package_agent_builds

abbrev restarting : Agent
restarting = report_component_health (some (health_since 6)) (set_restart_required 8 linux_agent).0

abbrev restart_message : Message
restart_message = message_of (build protocol library get_package restarting)

restarting_builds : build protocol library get_package restarting ≡ some restart_message
unfolding build linux_agent set_restart_required report_component_health
restarting_builds = refl

linux_agent_restarts : is_restart_supported linux_agent ≡ true
unfolding is_restart_supported linux_agent
linux_agent_restarts = refl

command-set_restart_required_example : restart_message.command ≡ some protocol.restart
command-set_restart_required_example =
    command-set_restart_required protocol library get_package 8 linux_agent (health_since 6)
      restart_message linux_agent_restarts restarting_builds
