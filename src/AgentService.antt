-- ===== src/AgentService.antt =====
-- service/agent.go: the agent service, a cache in front of the repository of agents. The repository
-- is the in-memory one; the cache, a library's, is a parameter.
pub mod Cache
pub mod Loads
pub mod Coherence
pub mod Refinement
pub mod Retry
use opampcommander.Base.{
  ℤ, pos, negsuc, zero, suc, ◌-◌, ◌*◌, ◌^◌, String, Bool, true, false, Option, none, some, [], ◌∷◌,
  if◌then◌else◌, ◌==◌, nat_eq, string_eq, Error, resource_not_exist, conflict, agent_connected,
  Result, ok, err,
}
use opampcommander.Agent.Types.{Uuid, Agent}
use opampcommander.Agent.Health.{Time}
use opampcommander.Agent.Methods.{
  default_namespace_name, new_agent, with_namespace, is_connected_at, default_connection_staleness,
}
use opampcommander.Store.Agents.{
  AgentStore, get_agent as load_agent, put_agent, delete_agent as remove_agent,
}
use opampcommander.Agent.Clone.{clone}
use opampcommander.AgentService.Cache.{TtlCache}

abbrev default_agent_cache_ttl : ℤ
default_agent_cache_ttl = pos (30 * 10 ^ 9)

abbrev default_agent_cache_capacity : ℤ
default_agent_cache_capacity = pos 1000

pub record AgentCacheConfig : Type 0 where
  pub enabled : Bool
  pub ttl : ℤ
  pub max_capacity : ℤ

unfoldable pub default_agent_cache_config : AgentCacheConfig
default_agent_cache_config = record {
  enabled = true;
  ttl = default_agent_cache_ttl;
  max_capacity = default_agent_cache_capacity;
}

positive_or : ℤ → ℤ → ℤ
positive_or fallback (pos zero) = fallback
positive_or fallback (negsuc n) = fallback
positive_or fallback (pos (suc n)) = pos (suc n)

-- The fields of `AgentService` that its methods read. The TTL and the capacity are what the cache is
-- made with.
pub record AgentService : Type 0 where
  pub cache_enabled : Bool
  pub ttl : ℤ
  pub capacity : ℤ
  pub default_namespace : String

unfoldable pub new_agent_service : AgentCacheConfig → String → AgentService
unfolding positive_or
new_agent_service config namespace = record {
  cache_enabled = config.enabled;
  ttl = positive_or default_agent_cache_ttl config.ttl;
  capacity = positive_or default_agent_cache_capacity config.max_capacity;
  default_namespace = if namespace == "" then default_namespace_name else namespace;
}

-- errors.Is
unfoldable pub is_not_exist : Error → Bool
is_not_exist resource_not_exist = true
is_not_exist _ = false

unfoldable pub is_conflict : Error → Bool
is_conflict conflict = true
is_conflict _ = false

-- The two times are those that `NewAgent` reads.
unfoldable pub or_create : AgentService → Time → Time → Uuid → Result Agent → Result Agent
unfolding is_not_exist
or_create svc now now' uid (ok a) = ok a
or_create svc now now' uid (err e) =
    if is_not_exist e
    then ok (new_agent now now' uid (with_namespace svc.default_namespace ∷ []))
    else err e

pub record State (C : Type 0) : Type 0 where
  pub cache : C
  pub store : AgentStore

module _ {C : Type 0} (cache : TtlCache C) (svc : AgentService) where
  unfoldable pub set_cached : Time → Uuid → Agent → State C → State C
  set_cached now uid a st =
      if svc.cache_enabled then record st { cache = cache.set now uid (clone a) st.cache } else st

  unfoldable pub shutdown : State C → State C
  shutdown st = if svc.cache_enabled then record st { cache = cache.remove_all st.cache } else st

  unfoldable pub invalidate_cache : Uuid → State C → State C
  invalidate_cache uid st =
      if svc.cache_enabled then record st { cache = cache.remove uid st.cache } else st

  loaded : Time → Uuid → State C → Result Agent → State C × Result Agent
  unfolding set_cached
  loaded now uid st (err e) = (st, err e)
  loaded now uid st (ok a) = (set_cached now uid a st, ok a)

  hit_or_load : Time → Uuid → State C → Option Agent → State C × Result Agent
  unfolding loaded
  hit_or_load now uid st (some a) = (st, ok (clone a))
  hit_or_load now uid st none = loaded now uid st (load_agent uid st.store)

  unfoldable pub get_agent : Time → Uuid → State C → State C × Result Agent
  unfolding hit_or_load
  get_agent now uid st =
      let found = cache.get now uid st.cache in
      if svc.cache_enabled
      then hit_or_load now uid (record st { cache = found.0 }) found.1
      else hit_or_load now uid st none

  unfoldable pub get_or_create_agent : Time → Time → Uuid → State C → State C × Result Agent
  unfolding get_agent or_create
  get_or_create_agent now now' uid st =
      let found = get_agent now uid st in (found.0, or_create svc now now' uid found.1)

  unfoldable pub saved :
      Time → State C → AgentStore × (Agent × Option Error) → State C × (Agent × Option Error)
  unfolding set_cached invalidate_cache
  saved now st (s, (a, none)) =
      (set_cached now a.metadata.instance_uid a (record st { store = s }), (a, none))
  saved now st (s, (a, some e)) =
      let left = record st { store = s } in
      (if is_conflict e then invalidate_cache a.metadata.instance_uid left else left, (a, some e))

  -- The state, the caller's agent and the error.
  unfoldable pub save_agent : Time → Agent → State C → State C × (Agent × Option Error)
  unfolding saved
  save_agent now a st = saved now st (put_agent a st.store)

  removed : Uuid → State C → AgentStore × Option Error → State C × Option Error
  unfolding invalidate_cache
  removed uid st (s, none) = (invalidate_cache uid (record st { store = s }), none)
  removed uid st (s, some e) = (record st { store = s }, some e)

  unfoldable pub delete_loaded : Time → Uuid → State C → Result Agent → State C × Option Error
  unfolding removed
  delete_loaded now uid st (err e) = (st, some e)
  delete_loaded now uid st (ok a) =
      if is_connected_at a now default_connection_staleness
      then (st, some agent_connected)
      else removed uid st (remove_agent uid st.store)

  unfoldable pub delete_agent : Time → Uuid → State C → State C × Option Error
  unfolding delete_loaded
  delete_agent now uid st = delete_loaded now uid st (load_agent uid st.store)
