-- ===== src/Group/Condition/Repeated.antt =====
-- service/agentgroup.go: the condition of an agent that groups report on in turn.
use opampcommander.Base.{
  String, ◌≡◌, refl, ap, ◌∙◌, Bool, true, false, not, Option, none, some, if◌then◌else◌, ◌==◌,
  nat_eq, string_eq, str_eq_refl,
}
use opampcommander.Agent.Types.{condition_type_remote_config_applied, Condition, Agent}
use opampcommander.Agent.Health.{Time}
use opampcommander.Agent.Health.{Time}
use opampcommander.Agent.Methods.{has_assigned_remote_config, is_remote_config_supported}
use opampcommander.Agent.Conditions.{get_condition, set_condition_at}
use opampcommander.Agent.Conditions.Laws.{written, get_condition-set_condition_at}
use opampcommander.Group.Types.{AgentGroup}
use opampcommander.Group.Condition.{
  reported_status, reported_message, record_agent_remote_config_condition, differs,
  agent_group_service_name,
}

module _ (quote : String → String) (now : Time) (a : Agent) (g : AgentGroup) where
  once : Agent
  once =
      set_condition_at condition_type_remote_config_applied (reported_status a) now
        agent_group_service_name (reported_message quote a g) a

  once-condition :
      get_condition once condition_type_remote_config_applied
      ≡ some (
          written condition_type_remote_config_applied
            (reported_status a)
            now
            agent_group_service_name
            (reported_message quote a g)
            (get_condition a condition_type_remote_config_applied))
  unfolding once
  once-condition =
      get_condition-set_condition_at condition_type_remote_config_applied (reported_status a) now
        agent_group_service_name (reported_message quote a g) a condition_type_remote_config_applied

differs-written :
    (type status : String) (now : Time) (reason message message' : String) (o : Option Condition)
    → differs (some (written type status now reason message o)) status message'
      ≡ not (message == message')
unfolding differs written
differs-written type status now reason message message' none = rw (str_eq_refl status) refl
differs-written type status now reason message message' (some c) = rw (str_eq_refl status) refl

changed :
    (b : Bool) (o : Option Condition) (status message : String) (left here : Agent)
    → b ≡ true
    → (if◌then◌else◌ {A = Agent × Bool} (not b) (here, false) (left, differs o status message)).1
      ≡ differs o status message
changed b o status message left here h = rw h refl

module _ (quote : String → String) (now now' : Time) (a : Agent) (g g' : AgentGroup) where
  record-once :
      has_assigned_remote_config a ≡ true
      → (record_agent_remote_config_condition quote now a g).0 ≡ once quote now a g
  unfolding record_agent_remote_config_condition once
  record-once h = rw h refl

  record-again :
      has_assigned_remote_config a ≡ true
      → (record_agent_remote_config_condition quote now' (once quote now a g) g').1
        ≡ not (reported_message quote a g == reported_message quote a g')
  unfolding record_agent_remote_config_condition once reported_status reported_message
      is_remote_config_supported set_condition_at has_assigned_remote_config
  record-again h =
      changed (has_assigned_remote_config (once quote now a g))
        (get_condition (once quote now a g) condition_type_remote_config_applied)
        (reported_status (once quote now a g)) (reported_message quote (once quote now a g) g') _
        (once quote now a g) h
      ∙ (ap (λ o. differs o (reported_status a) (reported_message quote a g'))
            (once-condition quote now a g)
          ∙ differs-written condition_type_remote_config_applied (reported_status a) now
              agent_group_service_name (reported_message quote a g) (reported_message quote a g')
              (get_condition a condition_type_remote_config_applied))

  -- For an agent that has a config assigned, a report for one group right after a report for another,
  -- or for the same one again, counts as a change exactly if the messages of the two groups differ.
  pub record_agent_remote_config_condition-twice :
      has_assigned_remote_config a ≡ true
      → (record_agent_remote_config_condition quote now'
          (record_agent_remote_config_condition quote now a g).0
          g').1
        ≡ not (reported_message quote a g == reported_message quote a g')
  record_agent_remote_config_condition-twice h =
      ap (λ b. (record_agent_remote_config_condition quote now' b g').1) (record-once h)
      ∙ record-again h
