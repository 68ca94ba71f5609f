-- ===== src/Examples/Conditions.antt =====
-- The theorems on conditions of an agent at an example agent.
use opampcommander.Base.{◌≡◌, refl, some, nat_eq, string_eq, elems}
use opampcommander.Agent.Conditions.{find, set_condition_at, get_condition}
use opampcommander.Agent.Conditions.Laws.{
  OneOfEach, written, get_condition-set_condition_at, set_condition_at-OneOfEach,
}
use opampcommander.Examples.{linux_agent}

get_condition-set_condition_at_example :
    get_condition (set_condition_at "Registered" "False" 9 "admin" "gone" linux_agent) "Registered"
    ≡ some (written "Registered" "False" 9 "admin" "gone" (get_condition linux_agent "Registered"))
get_condition-set_condition_at_example =
    get_condition-set_condition_at "Registered" "False" 9 "admin" "gone" linux_agent "Registered"

new_agent_conditions : OneOfEach (elems linux_agent.status.conditions)
unfolding OneOfEach linux_agent find
new_agent_conditions = (refl, tt)

set_condition_at-OneOfEach_example : OneOfEach (
    elems
      (set_condition_at "Connected" "True" 9 "server" "Agent connected"
        linux_agent).status.conditions)
set_condition_at-OneOfEach_example =
    set_condition_at-OneOfEach "Connected" "True" 9 "server" "Agent connected" linux_agent
      new_agent_conditions
