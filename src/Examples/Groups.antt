-- ===== src/Examples/Groups.antt =====
-- The theorems on groups at the example groups.
use opampcommander.Base.{
  ◌≡◌, refl, ◌↔◌, true, some, [], ◌∷◌, nat_eq, string_eq, Assoc, elems, lookup, insert, ok,
}
use mathlib.Core.List.{Memᴰ}
use opampcommander.Agent.Types.{AgentConfigFile, Agent}
use opampcommander.Group.Types.{AgentGroupAgentRemoteConfig}
use opampcommander.Group.Deletion.{find_true, mark_deleted}
use opampcommander.Group.Select.{governs, get_agent_groups_for_agent}
use opampcommander.Group.Select.Membership.{Governs, get_agent_groups_for_agent_iff}
use opampcommander.Group.Resolve.{collect_group_remote_configs, resolve_remote_config, add_resolved}
use opampcommander.Group.Resolve.Completeness.{
  Holds, collect_group_remote_configs-Holds, collect_group_remote_configs-origin,
}
use opampcommander.Agent.Methods.{
  config_entries, has_assigned_remote_config, is_remote_config_supported,
}
use opampcommander.Group.Condition.{record_agent_remote_config_condition, reported_message}
use opampcommander.Group.Condition.Repeated.{record_agent_remote_config_condition-twice}
use opampcommander.Group.Apply.{apply_matching_agent_groups}
use opampcommander.Group.Apply.Desired.{
  winner, lookup-apply_matching_agent_groups, apply_matching_agent_groups_idem,
  apply_matching_agent_groups-remote_config,
}
use opampcommander.Group.Apply.Deleted.{apply_matching_agent_groups-mark_deleted}
use opampcommander.Examples.{
  ports, hash, groups, linux_group, broken_group, override_group, linux_agent, ref_config,
}

get_agent_groups_for_agent_iff_example :
    Memᴰ linux_group (get_agent_groups_for_agent groups linux_agent)
    ↔ (Memᴰ linux_group groups × Governs linux_group linux_agent)
unfolding lookup
get_agent_groups_for_agent_iff_example =
    get_agent_groups_for_agent_iff linux_group groups linux_agent (tt, (refl, tt))

abbrev collected_configs : Assoc AgentConfigFile
collected_configs =
    ("base", record { body = some (1 ∷ 2 ∷ []); content_type = "text/yaml" })
    ∷ ("linux/extra", record { body = some (3 ∷ []); content_type = "text/yaml" })
    ∷ []

linux_group_collects : collect_group_remote_configs ports linux_group ≡ ok collected_configs
unfolding collect_group_remote_configs resolve_remote_config add_resolved insert lookup
linux_group_collects = refl

collect_group_remote_configs-Holds_example :
    Holds (resolve_remote_config ports "prod" "linux") collected_configs (ref_config "base")
collect_group_remote_configs-Holds_example =
    collect_group_remote_configs-Holds ports linux_group collected_configs linux_group_collects
      (ref_config "base") (Memᴰ.head refl)

lookup_extra :
    lookup "linux/extra" collected_configs
    ≡ some (record { body = some (3 ∷ []); content_type = "text/yaml" })
unfolding lookup
lookup_extra = refl

collect_group_remote_configs-origin_example :
    (cfg : AgentGroupAgentRemoteConfig) × Memᴰ cfg (elems linux_group.spec.agent_remote_configs)
    × (resolve_remote_config ports "prod" "linux" cfg
        ≡ ok (record { body = some (3 ∷ []); content_type = "text/yaml" }, "linux/extra"))
collect_group_remote_configs-origin_example =
    collect_group_remote_configs-origin ports linux_group collected_configs "linux/extra"
      (record { body = some (3 ∷ []); content_type = "text/yaml" }) linux_group_collects
      lookup_extra

lookup-apply_matching_agent_groups_example :
    lookup "linux/extra" (
      config_entries
        (apply_matching_agent_groups hash ports groups linux_agent).0.spec.remote_config)
    ≡ some (record { body = some (3 ∷ []); content_type = "text/yaml" })
unfolding winner get_agent_groups_for_agent governs collect_group_remote_configs
    resolve_remote_config add_resolved insert lookup find_true linux_agent
lookup-apply_matching_agent_groups_example =
    lookup-apply_matching_agent_groups hash ports groups linux_agent "linux/extra"

apply_matching_agent_groups_idem_example :
    apply_matching_agent_groups hash ports groups
      (apply_matching_agent_groups hash ports groups linux_agent).0
    ≡ apply_matching_agent_groups hash ports groups linux_agent
apply_matching_agent_groups_idem_example =
    apply_matching_agent_groups_idem hash ports groups linux_agent

abbrev assigned_agent : Agent
assigned_agent = record linux_agent {
  spec = record linux_agent.spec {
    remote_config = some (record { config_map = record { config_map = some collected_configs } });
  };
}

apply_matching_agent_groups-remote_config_example :
    (apply_matching_agent_groups hash ports (broken_group ∷ []) linux_agent).0.spec.remote_config
    ≡ (apply_matching_agent_groups hash ports
        (broken_group ∷ [])
        assigned_agent).0.spec.remote_config
apply_matching_agent_groups-remote_config_example =
    apply_matching_agent_groups-remote_config hash ports (broken_group ∷ []) linux_agent
      assigned_agent refl

apply_matching_agent_groups-mark_deleted_example :
    apply_matching_agent_groups hash ports
      (broken_group ∷ mark_deleted 9 "admin" linux_group ∷ override_group ∷ [])
      linux_agent
    ≡ apply_matching_agent_groups hash ports (broken_group ∷ override_group ∷ []) linux_agent
apply_matching_agent_groups-mark_deleted_example =
    apply_matching_agent_groups-mark_deleted hash ports 9 "admin" linux_group (broken_group ∷ [])
      (override_group ∷ []) linux_agent

assigned_agent_has_config : has_assigned_remote_config assigned_agent ≡ true
unfolding has_assigned_remote_config linux_agent
assigned_agent_has_config = refl

record_agent_remote_config_condition-twice_example :
    (record_agent_remote_config_condition
      (λ s. s)
      10
      (record_agent_remote_config_condition (λ s. s) 9 assigned_agent linux_group).0
      override_group).1
    ≡ true
unfolding reported_message linux_agent is_remote_config_supported
record_agent_remote_config_condition-twice_example =
    record_agent_remote_config_condition-twice (λ s. s) 9 10 assigned_agent linux_group
      override_group assigned_agent_has_config
