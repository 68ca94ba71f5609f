-- ===== src/Group/Deletion.antt =====
-- agentgroup.go: the soft deletion of a group, and its conditions.
pub mod Marked
use opampcommander.Base.{
  String, Bool, true, not, ◌&&◌, Option, none, some, List, [], ◌∷◌, if◌then◌else◌, ◌==◌, nat_eq,
  string_eq, is_some, elems, string_or_empty,
}
use opampcommander.Agent.Types.{condition_status_true, Condition}
use opampcommander.Agent.Health.{Time, is_zero}
use opampcommander.Agent.Conditions.{upsert, find}
use opampcommander.Group.Types.{AgentGroup, condition_type_created, condition_type_deleted}

-- A condition of the type whose status is True: the loops that return at the first such one.
unfoldable pub find_true : String → List Condition → Option Condition
find_true type [] = none
find_true type (c ∷ cs) =
    if c.type == type && c.status == condition_status_true then some c else find_true type cs

unfoldable pub is_deleted : AgentGroup → Bool
unfolding is_zero
is_deleted ag =
    if not (is_zero ag.metadata.deleted_at)
    then true
    else is_some (find_true condition_type_deleted (elems ag.status.conditions))

-- The first condition of the type Deleted is written in place; its message stays.
unfoldable pub delete_conditions : Time → String → List Condition → List Condition
delete_conditions deleted_at deleted_by [] =
    record {
      type = condition_type_deleted;
      last_transition_time = deleted_at;
      status = condition_status_true;
      reason = deleted_by;
      message = "Agent group deleted";
    }
    ∷ []
delete_conditions deleted_at deleted_by (c ∷ cs) =
    if c.type == condition_type_deleted
    then record c {
      last_transition_time = deleted_at;
      status = condition_status_true;
      reason = deleted_by;
    }
      ∷ cs
    else c ∷ delete_conditions deleted_at deleted_by cs

unfoldable pub mark_deleted : Time → String → AgentGroup → AgentGroup
unfolding delete_conditions
mark_deleted deleted_at deleted_by ag = record ag {
  metadata = record ag.metadata { deleted_at = deleted_at };
  status = record ag.status {
    conditions = some (delete_conditions deleted_at deleted_by (elems ag.status.conditions));
  };
}

time_of : Option Condition → Option Time
time_of none = none
time_of (some c) = some c.last_transition_time

reason_of : Option Condition → Option String
reason_of none = none
reason_of (some c) = some c.reason

unfoldable pub get_deleted_at : AgentGroup → Option Time
unfolding is_zero time_of
get_deleted_at ag =
    if not (is_zero ag.metadata.deleted_at)
    then some ag.metadata.deleted_at
    else time_of (find_true condition_type_deleted (elems ag.status.conditions))

unfoldable pub get_deleted_by : AgentGroup → Option String
unfolding reason_of
get_deleted_by ag = reason_of (find_true condition_type_deleted (elems ag.status.conditions))

unfoldable pub get_created_at : AgentGroup → Option Time
unfolding time_of
get_created_at ag = time_of (find_true condition_type_created (elems ag.status.conditions))

unfoldable pub get_created_by : AgentGroup → String
unfolding reason_of
get_created_by ag =
    string_or_empty (reason_of (find_true condition_type_created (elems ag.status.conditions)))

unfoldable pub set_group_condition :
    String → String → Time → String → String → AgentGroup → AgentGroup
unfolding upsert
set_group_condition type status now reason message ag = record ag {
  status = record ag.status {
    conditions = some (upsert type status now reason message (elems ag.status.conditions));
  };
}

unfoldable pub get_group_condition : AgentGroup → String → Option Condition
unfolding find
get_group_condition ag type = find type (elems ag.status.conditions)
