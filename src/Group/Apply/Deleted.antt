-- ===== src/Group/Apply/Deleted.antt =====
-- service/agentgroup.go: the groups that are marked deleted, among those that are applied.
use opampcommander.Base.{
  String, ◌≡◌, refl, ap, true, List, [], ◌∷◌, ◌++◌, if◌then◌else◌, nat_eq, string_eq,
}
use opampcommander.Agent.Types.{Agent}
use opampcommander.Agent.Health.{Time}
use opampcommander.Agent.Settings.{ConnectionHash}
use opampcommander.Agent.Health.{Time}
use opampcommander.Agent.Settings.{ConnectionHash}
use opampcommander.Group.Types.{AgentGroup}
use opampcommander.Group.Deletion.{is_deleted, mark_deleted}
use opampcommander.Group.Deletion.Marked.{is_deleted-mark_deleted}
use opampcommander.Group.Select.{governs, get_agent_groups_for_agent}
use opampcommander.Group.Resolve.{Ports}
use opampcommander.Group.Apply.{
  apply_matching_agent_groups, desired_from, connect_all, set_agent_remote_configs,
}

get_agent_groups_for_agent-deleted :
    (g : AgentGroup) (before after : List AgentGroup) (a : Agent)
    → is_deleted g ≡ true
    → get_agent_groups_for_agent (before ++ g ∷ after) a
      ≡ get_agent_groups_for_agent (before ++ after) a
unfolding get_agent_groups_for_agent governs
get_agent_groups_for_agent-deleted g [] after a d = rw d refl
get_agent_groups_for_agent-deleted g (x ∷ before) after a d =
    ap (λ rest. if governs x a then x ∷ rest else rest)
      (get_agent_groups_for_agent-deleted g before after a d)

-- A group that was marked deleted gives an agent nothing and stops nothing, wherever it is listed:
-- the outcome is that of the same list without it.
pub apply_matching_agent_groups-mark_deleted :
    (h : ConnectionHash) (p : Ports) (t : Time) (by : String) (g : AgentGroup)
    (before after : List AgentGroup) (a : Agent)
    → apply_matching_agent_groups h p (before ++ mark_deleted t by g ∷ after) a
      ≡ apply_matching_agent_groups h p (before ++ after) a
unfolding apply_matching_agent_groups
apply_matching_agent_groups-mark_deleted h p t by g before after a =
    ap (λ groups. connect_all h p groups (set_agent_remote_configs (desired_from p groups []) a))
      (get_agent_groups_for_agent-deleted (mark_deleted t by g) before after a
        (is_deleted-mark_deleted t by g).0)
