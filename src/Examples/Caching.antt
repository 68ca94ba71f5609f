-- ===== src/Examples/Caching.antt =====
-- The theorems on the agent service with a cache that never expires.
use opampcommander.Base.{
  ◌≡◌, refl, sym, ◌∙◌, Option, none, some, List, [], ◌∷◌, arith, if◌then◌else◌, ◌==◌, nat_eq,
  string_eq, conflict, ok,
}
use opampcommander.Agent.Types.{Uuid, Agent}
use opampcommander.Agent.Clone.{clone_metadata}
use opampcommander.Store.Agents.{new_agent_repository, put_agent}
use opampcommander.Store.Writes.{Write, run as written}
use opampcommander.AgentService.Cache.{TtlCache}
use opampcommander.AgentService.{
  AgentService, State, new_agent_service, default_agent_cache_config, save_agent,
  get_or_create_agent,
}
use opampcommander.AgentService.Refinement.{Call, run, serve_all, run-fresh}
use opampcommander.AgentService.Retry.{save_agent-retry}
use opampcommander.Examples.{linux_agent}

abbrev pub Entries : Type 0
Entries = List (Uuid × Agent)

unfoldable pub cached : Uuid → Entries → Option Agent
cached k [] = none
cached k ((j, a) ∷ c) = if j == k then some a else cached k c

unfoldable pub dropped : Uuid → Entries → Entries
dropped k [] = []
dropped k ((j, a) ∷ c) = let rest = dropped k c in if j == k then rest else (j, a) ∷ rest

pub cached-dropped :
    (k j : Uuid) (c : Entries) → cached j (dropped k c) ≡ (if k == j then none else cached j c)
unfolding cached dropped
cached-dropped k j [] = ground arith
cached-dropped k j ((i, a) ∷ c) = ground (arith, cached-dropped k j c)

-- A cache as a list of entries.
unfoldable pub entries_cache : TtlCache Entries
unfolding cached
entries_cache = record {
  get = λ now k c. (c, cached k c);
  set = λ now k a c. (k, a) ∷ c;
  remove = dropped;
  remove_all = λ c. [];
  held = cached;
  get_held = λ now k c v h. h;
  held_get = λ now k j c v h. h;
  held_set = λ now k j a c v h. h;
  held_remove = λ k j c v h. sym (cached-dropped k j c) ∙ h;
  held_remove_all = λ j c. refl;
}

unfoldable pub service : AgentService
unfolding new_agent_service default_agent_cache_config
service = new_agent_service default_agent_cache_config ""

pub nothing_held : (j : Uuid) → entries_cache.held j [] ≡ none
unfolding entries_cache cached
nothing_held j = refl

abbrev some_calls : List Call
some_calls =
    Call.get_or_create_of 5 5 7
    ∷ Call.save_of 5 linux_agent
    ∷ Call.get_of 6 7
    ∷ Call.save_of 7 linux_agent
    ∷ Call.get_of 8 7
    ∷ Call.delete_of 9 7
    ∷ Call.get_of 9 7
    ∷ []

run-fresh_example :
    let got =
      run entries_cache service some_calls (record { cache = []; store = new_agent_repository }) in
    let want = serve_all service some_calls new_agent_repository in
    (got.0.store ≡ want.0) × (got.1 ≡ want.1)
run-fresh_example = run-fresh entries_cache service some_calls [] new_agent_repository nothing_held

-- The repository has version 1 of an agent that the cache knows at version 0.
abbrev behind : State Entries
behind = record {
  cache = (7, linux_agent) ∷ [];
  store = written (Write.put_of linux_agent ∷ []) new_agent_repository;
}

refused : (save_agent entries_cache service 9 linux_agent behind).1.1 ≡ some conflict
unfolding save_agent written put_agent new_agent_repository linux_agent clone_metadata
refused = refl

save_agent-retry_example :
    let again =
      get_or_create_agent entries_cache service 10 11 7
        (save_agent entries_cache service 9 linux_agent behind).0 in
    (b : Agent) × ((again.1 ≡ ok b)
      × ((change : Agent)
          → change.metadata.instance_uid ≡ 7
          → change.metadata.resource_version ≡ b.metadata.resource_version
          → (save_agent entries_cache service 12 change again.0).1.1 ≡ none))
unfolding linux_agent
save_agent-retry_example =
    save_agent-retry entries_cache service 9 10 11 12 linux_agent behind refused
