-- ===== src/Examples/Repository.antt =====
-- The theorems on the repository at a few agents.
use opampcommander.Base.{
  pos, suc, ◌≡◌, refl, ◌≢◌, ◌↔◌, true, false, none, some, List, [], ◌∷◌, arith, nat_eq, string_eq,
  length, conflict, ok,
}
use opampcommander.Agent.Types.{Agent}
use opampcommander.Agent.Clone.{clone, clone_metadata}
use opampcommander.Store.Ops.{find_item, snapshot, Token}
use opampcommander.Store.Pages.Walk.{walk}
use mathlib.Core.List.{Memᴰ}
use opampcommander.Store.Pages.Contents.{Shows, snapshot_iff}
use opampcommander.Store.Invariant.{IsValid}
use opampcommander.Store.Agents.{
  AgentStore, agent_kind, new_agent_repository, with_resource_version, resource_version, get_agent,
  put_agent, next_version,
}
use opampcommander.Store.Versions.{
  stored_version, put_agent-stale, get_agent-put_agent, put_agent-put_agent,
}
use opampcommander.Store.Writes.{Write, run, run-new_agent_repository-IsValid, walk-run}
use opampcommander.Examples.{linux_agent, package_agent}

abbrev one_agent : AgentStore
one_agent = run (Write.put_of linux_agent ∷ []) new_agent_repository

stored_at_1 : stored_version 7 one_agent ≢ 0
unfolding run put_agent new_agent_repository linux_agent find_item resource_version next_version
    with_resource_version clone clone_metadata
stored_at_1 = omega arith

-- Loaded at version 0, which the repository has left behind.
put_agent-stale_example :
    put_agent linux_agent one_agent ≡ (one_agent, (linux_agent, some conflict))
unfolding linux_agent
put_agent-stale_example = put_agent-stale linux_agent one_agent stored_at_1

stored_at_0 : stored_version 7 new_agent_repository ≡ 0
unfolding new_agent_repository find_item
stored_at_0 = refl

get_agent-put_agent_example :
    get_agent 7 (put_agent linux_agent new_agent_repository).0
    ≡ ok (clone (put_agent linux_agent new_agent_repository).1.0)
unfolding linux_agent
get_agent-put_agent_example = get_agent-put_agent linux_agent new_agent_repository stored_at_0 7

first_accepted : (put_agent linux_agent new_agent_repository).1.1 ≡ none
unfolding put_agent new_agent_repository linux_agent
first_accepted = refl

put_agent-put_agent_example :
    put_agent package_agent (put_agent linux_agent new_agent_repository).0
    ≡ ((put_agent linux_agent new_agent_repository).0, (package_agent, some conflict))
put_agent-put_agent_example =
    put_agent-put_agent linux_agent package_agent new_agent_repository first_accepted refl refl

abbrev other_agent : Agent
other_agent = record linux_agent { metadata = record linux_agent.metadata { instance_uid = 8 } }

abbrev some_writes : List Write
some_writes =
    Write.put_of linux_agent
    ∷ Write.put_of other_agent
    ∷ Write.put_of linux_agent
    ∷ Write.delete_of 9
    ∷ []

run-new_agent_repository-IsValid_example : IsValid (run some_writes new_agent_repository)
run-new_agent_repository-IsValid_example =
    run-new_agent_repository-IsValid some_writes (omega arith)

walk-run_example :
    walk
      (suc (length (snapshot agent_kind false (λ a. true) (run some_writes new_agent_repository))))
      agent_kind
      (pos 1)
      false
      (λ a. true)
      (run some_writes new_agent_repository)
      Token.empty
    ≡ some (ok (snapshot agent_kind false (λ a. true) (run some_writes new_agent_repository)))
walk-run_example = walk-run some_writes (λ a. true) 0 (omega arith)

snapshot_iff_example :
    Memᴰ linux_agent (snapshot agent_kind false (λ a. true) one_agent)
    ↔ Shows agent_kind false (λ a. true) one_agent.items linux_agent
snapshot_iff_example = snapshot_iff agent_kind false (λ a. true) one_agent linux_agent
