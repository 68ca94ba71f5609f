-- ===== src/AgentService/Retry.antt =====
-- service/agent.go: SaveAgent after a conflict, also when other servers write to the repository.
use opampcommander.Base.{
  String, ◌≡◌, refl, sym, ap, ◌∙◌, ◌≢◌, inl, inr, true, Option, none, some, [], ◌∷◌, nat_beq_iff,
  ◌==◌, nat_eq, string_eq, if_both, Error, conflict, Result, ok, err,
}
use opampcommander.Agent.Types.{Uuid, Agent}
use opampcommander.Agent.Health.{Time}
use opampcommander.Store.Ops.{Item, find_item}
use opampcommander.Store.Agents.{AgentStore, resource_version, get_agent as load_agent, put_agent}
use opampcommander.Store.Versions.{
  stored_version, version_of_item, value_of, found, get_agent-found, put_agent-current,
}
use opampcommander.Agent.Clone.{clone, clone_metadata}
use opampcommander.Agent.Methods.{new_agent, with_namespace, fresh_agent}
use opampcommander.AgentService.Cache.{TtlCache}
use opampcommander.AgentService.{
  AgentService, is_conflict, is_not_exist, State, get_agent, get_or_create_agent, or_create,
  save_agent, invalidate_cache, hit_or_load, loaded, saved,
}
use opampcommander.AgentService.Loads.{put_agent-cases}
use opampcommander.AgentService.Coherence.{set_cached-store, invalidate_cache-store}

new_agent-version :
    (now now' : Time) (uid : Uuid) (ns : String)
    → (new_agent now now' uid (with_namespace ns ∷ [])).metadata.resource_version ≡ 0
unfolding new_agent with_namespace fresh_agent
new_agent-version now now' uid ns =
    if_both (λ (a : Agent). a.metadata.resource_version ≡ 0) (ns == "") (λ q. refl) (λ q. refl)

-- What GetOrCreateAgent makes of a load has the version that a write must name.
pub or_create-version :
    (svc : AgentService) (now now' : Time) (uid : Uuid) (o : Option (Item Agent))
    → (b : Agent) × ((or_create svc now now' uid (found (value_of o)) ≡ ok b)
        × (b.metadata.resource_version ≡ version_of_item resource_version o))
unfolding or_create found is_not_exist resource_version clone clone_metadata
or_create-version svc now now' uid none =
    (_, (refl, new_agent-version now now' uid svc.default_namespace))
or_create-version svc now now' uid (some x) = (_, (refl, refl))

module _ {C : Type 0} (cache : TtlCache C) (svc : AgentService) where
  loaded-store :
      (now : Time) (uid : Uuid) (st : State C) (r : Result Agent)
      → ((loaded cache svc now uid st r).0.store ≡ st.store)
        × ((loaded cache svc now uid st r).1 ≡ r)
  unfolding loaded
  loaded-store now uid st (err e) = (refl, refl)
  loaded-store now uid st (ok a) = (set_cached-store cache svc now uid a st, refl)

  missed :
      (now : Time) (uid : Uuid) (st : State C) (o : Option Agent)
      → ((v : Agent) → o ≢ some v)
      → ((hit_or_load cache svc now uid st o).0.store ≡ st.store)
        × ((hit_or_load cache svc now uid st o).1 ≡ load_agent uid st.store)
  unfolding hit_or_load
  missed now uid st (some v) h = absurd (h v refl)
  missed now uid st none h = loaded-store now uid st (load_agent uid st.store)

  -- A read of an agent that the cache does not hold is a read of the repository.
  get_agent-missed :
      (now : Time) (uid : Uuid) (st : State C)
      → (svc.cache_enabled ≡ true → (v : Agent) → cache.held uid st.cache ≢ some v)
      → ((get_agent cache svc now uid st).0.store ≡ st.store)
        × ((get_agent cache svc now uid st).1 ≡ load_agent uid st.store)
  unfolding get_agent
  get_agent-missed now uid st h =
      let found = cache.get now uid st.cache in
      if_both
        (λ (got : State C × Result Agent).
          (got.0.store ≡ st.store) × (got.1 ≡ load_agent uid st.store))
        svc.cache_enabled
        (λ on.
          missed now uid (record st { cache = found.0 }) found.1
            (λ v e. h on v (cache.get_held now uid st.cache v e)))
        (λ off. missed now uid st none (λ v e. cc e))

  invalidated :
      (uid : Uuid) (st : State C)
      → svc.cache_enabled ≡ true
      → (v : Agent) → cache.held uid (invalidate_cache cache svc uid st).cache ≢ some v
  unfolding invalidate_cache
  invalidated uid st on v e =
      let e' = cache.held_remove uid uid st.cache v (rw on at e) in
      let e'' : ◌≡◌ {A = Option Agent} none (some v) = rw ((nat_beq_iff uid uid).1 refl) at e' in
      cc e''

  saved-1 :
      (now : Time) (st : State C) (r : AgentStore × (Agent × Option Error))
      → (saved cache svc now st r).1 ≡ r.1
  unfolding saved
  saved-1 now st (s, (a, none)) = refl
  saved-1 now st (s, (a, some e)) = refl

  save_agent-1 :
      (now : Time) (a : Agent) (st : State C)
      → (save_agent cache svc now a st).1 ≡ (put_agent a st.store).1
  unfolding save_agent
  save_agent-1 now a st = saved-1 now st (put_agent a st.store)

  save_agent-current :
      (now : Time) (a : Agent) (st : State C)
      → stored_version a.metadata.instance_uid st.store ≡ a.metadata.resource_version
      → (save_agent cache svc now a st).1.1 ≡ none
  save_agent-current now a st h =
      ap (λ (r : Agent × Option Error). r.1)
        (save_agent-1 now a st ∙ put_agent-current a st.store h)

  -- A refused save leaves the store and drops the agent from the cache.
  save_agent-refused :
      (now : Time) (a : Agent) (st : State C)
      → (save_agent cache svc now a st).1.1 ≡ some conflict
      → (save_agent cache svc now a st).0 ≡ invalidate_cache cache svc a.metadata.instance_uid st
  unfolding save_agent saved is_conflict
  save_agent-refused now a st h = elim (put_agent-cases a st.store) [
    | inl r ↦ rw r refl
    | inr (r, _, _) ↦ absurd (
        let e : ◌≡◌ {A = Option Error} (some conflict) none =
          sym h
          ∙ (ap (λ (r : Agent × Option Error). r.1) (saved-1 now st (put_agent a st.store)) ∙ r) in
        cc e)
  ]

  -- Whatever other servers have written before: after a save was refused with a conflict, reading the
  -- agent again gives one, and saving any change of it that keeps its UID and version is accepted.
  pub save_agent-retry :
      (now now1 now2 later : Time) (a : Agent) (st : State C)
      → (save_agent cache svc now a st).1.1 ≡ some conflict
      → let again =
          get_or_create_agent cache svc now1 now2 a.metadata.instance_uid
            (save_agent cache svc now a st).0 in
        (b : Agent) × ((again.1 ≡ ok b)
          × ((change : Agent)
              → change.metadata.instance_uid ≡ a.metadata.instance_uid
              → change.metadata.resource_version ≡ b.metadata.resource_version
              → (save_agent cache svc later change again.0).1.1 ≡ none))
  unfolding get_or_create_agent
  save_agent-retry now now1 now2 later a st h =
      let uid = a.metadata.instance_uid in
      let left = invalidate_cache cache svc uid st in
      let refused = save_agent-refused now a st h in
      let (stays, r) = get_agent-missed now1 uid left (invalidated uid st) in
      let same : left.store ≡ st.store = invalidate_cache-store cache svc uid st in
      let (b, (e, v)) = or_create-version svc now1 now2 uid (find_item uid st.store.items) in
      rw refused (
        b,
        (
          ap (or_create svc now1 now2 uid) (r ∙ rw same (get_agent-found uid st.store)) ∙ e,
          λ change u w.
              save_agent-current later change (get_agent cache svc now1 uid left).0
                (rw (stays, same, u, w, v) refl),
        ),
      )
