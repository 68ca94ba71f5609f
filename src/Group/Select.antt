-- ===== src/Group/Select.antt =====
-- service/agentgroup.go: which groups govern an agent.
pub mod Membership
use opampcommander.Base.{
  Bool, false, not, List, [], ◌∷◌, if◌then◌else◌, ◌==◌, nat_eq, string_eq, elems, contains_all,
}
use opampcommander.Agent.Types.{Agent}
use opampcommander.Group.Types.{AgentSelector, AgentGroup}
use opampcommander.Group.Deletion.{is_deleted}

unfoldable pub matches_selector : Agent → AgentSelector → Bool
unfolding contains_all
matches_selector a s =
    let d = a.metadata.description in
    if contains_all (elems d.identifying_attributes) (elems s.identifying_attributes)
    then contains_all (elems d.non_identifying_attributes) (elems s.non_identifying_attributes)
    else false

-- The three tests of the loop body.
unfoldable pub governs : AgentGroup → Agent → Bool
unfolding is_deleted matches_selector
governs g a =
    if is_deleted g
    then false
    else if not (g.metadata.namespace == a.metadata.namespace)
    then false
    else matches_selector a g.spec.selector

-- `groups` is what the persistence port listed.
unfoldable pub get_agent_groups_for_agent : List AgentGroup → Agent → List AgentGroup
get_agent_groups_for_agent [] a = []
get_agent_groups_for_agent (g ∷ groups) a =
    let rest = get_agent_groups_for_agent groups a in if governs g a then g ∷ rest else rest
