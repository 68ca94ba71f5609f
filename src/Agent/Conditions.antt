-- ===== src/Agent/Conditions.antt =====
-- agent.go: the conditions of an agent. The loops over `Status.Conditions` are functions on the
-- list, which agent groups share.
pub mod Laws
use Prim.Native.String.{◌++◌ as str_append}
use opampcommander.Base.{
  String, Bool, true, false, Option, none, some, List, [], ◌∷◌, if◌then◌else◌, ◌==◌, nat_eq,
  string_eq, elems,
}
use opampcommander.Agent.Types.{
  Uuid, condition_type_connected, condition_type_instance_uid_conflict, condition_status_true,
  condition_status_false, Condition, Agent,
}
use opampcommander.Agent.Health.{Time}

-- What `SetConditionAt` writes into the condition of its type.
unfoldable pub refresh : String → Time → String → String → Condition → Condition
refresh status now reason message c = record c {
  last_transition_time = if c.status == status then c.last_transition_time else now;
  status = status;
  reason = reason;
  message = message;
}

-- The first condition of the type is written in place; with none, a new one is appended.
unfoldable pub upsert : String → String → Time → String → String → List Condition → List Condition
unfolding refresh
upsert type status now reason message [] =
    record {
      type = type;
      last_transition_time = now;
      status = status;
      reason = reason;
      message = message;
    }
    ∷ []
upsert type status now reason message (c ∷ cs) =
    if c.type == type
    then refresh status now reason message c ∷ cs
    else c ∷ upsert type status now reason message cs

unfoldable pub find : String → List Condition → Option Condition
find type [] = none
find type (c ∷ cs) = if c.type == type then some c else find type cs

-- The first condition of the type of `cond` is replaced, or `cond` is appended.
unfoldable pub replace : Condition → List Condition → List Condition
replace cond [] = cond ∷ []
replace cond (c ∷ cs) = if c.type == cond.type then cond ∷ cs else c ∷ replace cond cs

has_status : Option Condition → String → Bool
has_status none status = false
has_status (some c) status = c.status == status

with_conditions : List Condition → Agent → Agent
with_conditions cs a = record a { status = record a.status { conditions = some cs } }

unfoldable pub set_condition_at : String → String → Time → String → String → Agent → Agent
unfolding upsert with_conditions
set_condition_at type status now triggered_by message a =
    with_conditions (upsert type status now triggered_by message (elems a.status.conditions)) a

unfoldable pub get_condition : Agent → String → Option Condition
unfolding find
get_condition a type = find type (elems a.status.conditions)

unfoldable pub is_condition_true : Agent → String → Bool
unfolding get_condition has_status
is_condition_true a type = has_status (get_condition a type) condition_status_true

-- `now` is what `time.Now` returned, first for the report and then for the condition.
unfoldable pub mark_connected : Time → Time → String → Agent → Agent
unfolding set_condition_at
mark_connected now now' triggered_by a =
    set_condition_at condition_type_connected condition_status_true now' triggered_by
      "Agent connected"
      (record a { status = record a.status { connected = true; last_reported_at = now } })

unfoldable pub mark_disconnected : Time → String → Agent → Agent
unfolding set_condition_at
mark_disconnected now triggered_by a =
    set_condition_at condition_type_connected condition_status_false now triggered_by
      "Agent disconnected" (record a { status = record a.status { connected = false } })

-- `show` is the `String` method of a UUID.
module _ (show : Uuid → String) where
  conflict_message : Uuid → Uuid → String → String
  conflict_message old new reason = str_append "another agent attempted to use instanceUID " (
      str_append (show old) (
        str_append "; redirected to "
          (str_append (show new) (str_append " (reason: " (str_append reason ")")))))

  unfoldable pub record_instance_uid_conflict : Time → Uuid → Uuid → String → String → Agent → Agent
  unfolding replace with_conditions conflict_message
  record_instance_uid_conflict now old new conflict_reason triggered_by a =
      with_conditions
        (replace
          (record {
            type = condition_type_instance_uid_conflict;
            last_transition_time = now;
            status = condition_status_true;
            reason = triggered_by;
            message = conflict_message old new conflict_reason;
          })
          (elems a.status.conditions))
        a
