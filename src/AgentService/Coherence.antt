-- ===== src/AgentService/Coherence.antt =====
-- service/agent.go: what the cache holds agrees with the repository, while this server alone writes.
use opampcommander.Base.{
  ◌≡◌, refl, sym, ap, ◌∙◌, inl, inr, true, false, Option, none, some, nat_beq_iff, if◌then◌else◌,
  ◌==◌, nat_eq, string_eq, if_both, Bool-cases, Error, agent_connected, Result, ok, err,
}
use opampcommander.Agent.Types.{Uuid, Agent}
use opampcommander.Agent.Health.{Time}
use opampcommander.Store.Agents.{
  AgentStore, get_agent as load_agent, put_agent, delete_agent as remove_agent,
}
use opampcommander.Agent.Clone.{clone}
use opampcommander.Agent.Clone.Laws.{clone_idem}
use opampcommander.Agent.Methods.{is_connected_at, default_connection_staleness}
use opampcommander.AgentService.Cache.{TtlCache}
use opampcommander.AgentService.{
  AgentService, is_conflict, State, get_agent, save_agent, invalidate_cache, shutdown, set_cached,
  hit_or_load, loaded, saved, removed, delete_loaded,
}
use opampcommander.AgentService.Loads.{
  clone-load_agent, load_agent-remove_agent, remove_agent-cases, put_agent-cases,
}

own_entry :
    (uid j : Uuid) (a v : Agent) (o : Option Agent) (s : AgentStore)
    → load_agent uid s ≡ ok (clone a)
    → ((uid == j) ≡ false → o ≡ some v → load_agent j s ≡ ok (clone v))
    → (if uid == j then some (clone a) else o) ≡ some v
    → load_agent j s ≡ ok (clone v)
own_entry uid j a v o s h c e = elim (Bool-cases (uid == j)) [
  | inl q ↦
      let is_v : clone a ≡ v = let e' : some (clone a) ≡ some v = rw q at e in cc in
      rw (← is_v, clone_idem a, ← (nat_beq_iff uid j).0 q) h
  | inr q ↦ c q (rw q at e)
]

no_entry :
    (uid j : Uuid) (v : Agent) (o : Option Agent) (s : AgentStore)
    → ((uid == j) ≡ false → o ≡ some v → load_agent j s ≡ ok (clone v))
    → (if uid == j then none else o) ≡ some v
    → load_agent j s ≡ ok (clone v)
no_entry uid j v o s c e = elim (Bool-cases (uid == j)) [
  | inl q ↦ absurd (let e' : ◌≡◌ {A = Option Agent} none (some v) = rw q at e in cc)
  | inr q ↦ c q (rw q at e)
]

module _ {C : Type 0} (cache : TtlCache C) (svc : AgentService) where
  -- Whatever the cache still holds of an agent is what the repository would return.
  abbrev pub Coherent : State C → Type 0
  Coherent st =
      svc.cache_enabled ≡ true
      → (j : Uuid) (v : Agent) → cache.held j st.cache ≡ some v
      → load_agent j st.store ≡ ok (clone v)

  -- The same, but for one agent.
  abbrev pub CoherentBut : Uuid → State C → Type 0
  CoherentBut uid st =
      svc.cache_enabled ≡ true
      → (j : Uuid) (v : Agent) → (uid == j) ≡ false
      → cache.held j st.cache ≡ some v
      → load_agent j st.store ≡ ok (clone v)

  set_cached-Coherent :
      (now : Time) (uid : Uuid) (a : Agent) (st : State C)
      → CoherentBut uid st
      → load_agent uid st.store ≡ ok (clone a)
      → Coherent (set_cached cache svc now uid a st)
  unfolding set_cached
  set_cached-Coherent now uid a st c h q j v e = rw q (
      own_entry uid j a v (cache.held j st.cache) st.store h (c q j v)
        (cache.held_set now uid j (clone a) st.cache v (rw q at e)))

  pub invalidate_cache-Coherent :
      (uid : Uuid) (st : State C)
      → CoherentBut uid st
      → Coherent (invalidate_cache cache svc uid st)
  unfolding invalidate_cache
  invalidate_cache-Coherent uid st c q j v e = rw q (
      no_entry uid j v (cache.held j st.cache) st.store (c q j v)
        (cache.held_remove uid j st.cache v (rw q at e)))

  pub Coherent-invalidate_cache :
      (uid : Uuid) (st : State C) → Coherent st → Coherent (invalidate_cache cache svc uid st)
  Coherent-invalidate_cache uid st c = invalidate_cache-Coherent uid st λ q j v d. c q j v

  pub set_cached-store :
      (now : Time) (uid : Uuid) (a : Agent) (st : State C)
      → (set_cached cache svc now uid a st).store ≡ st.store
  unfolding set_cached
  set_cached-store now uid a st =
      if_both (λ (left : State C). left.store ≡ st.store) svc.cache_enabled (λ on. refl)
        (λ off. refl)

  pub invalidate_cache-store :
      (uid : Uuid) (st : State C) → (invalidate_cache cache svc uid st).store ≡ st.store
  unfolding invalidate_cache
  invalidate_cache-store uid st =
      if_both (λ (left : State C). left.store ≡ st.store) svc.cache_enabled (λ on. refl)
        (λ off. refl)

  loaded-store :
      (now : Time) (uid : Uuid) (st : State C) (r : Result Agent)
      → (loaded cache svc now uid st r).0.store ≡ st.store
  unfolding loaded
  loaded-store now uid st (err e) = refl
  loaded-store now uid st (ok a) = set_cached-store now uid a st

  hit_or_load-store :
      (now : Time) (uid : Uuid) (st : State C) (o : Option Agent)
      → (hit_or_load cache svc now uid st o).0.store ≡ st.store
  unfolding hit_or_load
  hit_or_load-store now uid st (some v) = refl
  hit_or_load-store now uid st none = loaded-store now uid st (load_agent uid st.store)

  pub get_agent-store :
      (now : Time) (uid : Uuid) (st : State C) → (get_agent cache svc now uid st).0.store ≡ st.store
  unfolding get_agent
  get_agent-store now uid st =
      let found = cache.get now uid st.cache in
      if_both (λ (got : State C × Result Agent). got.0.store ≡ st.store) svc.cache_enabled
        (λ on. hit_or_load-store now uid (record st { cache = found.0 }) found.1)
        (λ off. hit_or_load-store now uid st none)

  -- What a call left behind agrees with a store and a result.
  abbrev pub Agrees : {A : Type 0} → State C × A → AgentStore × A → Type 0
  Agrees got want = Coherent got.0 × ((got.0.store ≡ want.0) × (got.1 ≡ want.1))

  loaded-Agrees :
      (now : Time) (uid : Uuid) (st : State C) (r : Result Agent)
      → Coherent st
      → load_agent uid st.store ≡ r
      → Agrees (loaded cache svc now uid st r) (st.store, r)
  unfolding loaded
  loaded-Agrees now uid st (err e) c h = (c, (refl, refl))
  loaded-Agrees now uid st (ok a) c h = (
    set_cached-Coherent now uid a st (λ q j v d. c q j v)
        (h ∙ ap ok (sym (clone-load_agent uid st.store a h))),
    (set_cached-store now uid a st, refl),
  )

  hit_or_load-Agrees :
      (now : Time) (uid : Uuid) (st : State C) (o : Option Agent)
      → Coherent st
      → ((v : Agent) → o ≡ some v → load_agent uid st.store ≡ ok (clone v))
      → Agrees (hit_or_load cache svc now uid st o) (st.store, load_agent uid st.store)
  unfolding hit_or_load
  hit_or_load-Agrees now uid st (some v) c h = (c, (refl, sym (h v refl)))
  hit_or_load-Agrees now uid st none c h = loaded-Agrees now uid st _ c refl

  pub get_agent-Agrees :
      (now : Time) (uid : Uuid) (st : State C)
      → Coherent st
      → Agrees (get_agent cache svc now uid st) (st.store, load_agent uid st.store)
  unfolding get_agent
  get_agent-Agrees now uid st c =
      let found = cache.get now uid st.cache in
      if_both (λ got. Agrees got (st.store, load_agent uid st.store)) svc.cache_enabled
        (λ on.
          hit_or_load-Agrees now uid (record st { cache = found.0 }) found.1
            (λ q j v e. c q j v (cache.held_get now uid j st.cache v e))
            (λ v e. c on uid v (cache.get_held now uid st.cache v e)))
        (λ off. hit_or_load-Agrees now uid st none c (λ v e. absurd (cc e)))

  -- After an accepted write, the cached agents agree with what the store then returns.
  accepted-Agrees :
      (now : Time) (st : State C) (r : AgentStore × (Agent × Option Error))
      → Coherent st
      → r.1.1 ≡ none
      → ((j : Uuid)
          → load_agent j r.0 ≡ (
              if r.1.0.metadata.instance_uid == j then ok (clone r.1.0) else load_agent j st.store))
      → Agrees (saved cache svc now st r) r
  unfolding saved
  accepted-Agrees now st (s, (b, some e)) c h l = absurd (cc h)
  accepted-Agrees now st (s, (b, none)) c h l =
      let uid = b.metadata.instance_uid in
      (
        set_cached-Coherent now uid b (record st { store = s })
            (λ q j v d e. l j ∙ rw d (c q j v e)) (l uid ∙ rw ((nat_beq_iff uid uid).1 refl) refl),
        (set_cached-store now uid b (record st { store = s }), refl),
      )

  pub save_agent-Agrees :
      (now : Time) (a : Agent) (st : State C)
      → Coherent st
      → Agrees (save_agent cache svc now a st) (put_agent a st.store)
  unfolding save_agent saved is_conflict
  save_agent-Agrees now a st c = elim (put_agent-cases a st.store) [
    | inl h ↦ rw h (
      Coherent-invalidate_cache a.metadata.instance_uid st c,
      (invalidate_cache-store a.metadata.instance_uid st, refl),
    )
    | inr (h, u, l) ↦ accepted-Agrees now st (put_agent a st.store) c h (λ j. rw u (l j))
  ]

  removed_found-Agrees :
      (uid : Uuid) (st : State C) (r : AgentStore × Option Error)
      → Coherent st
      → r.1 ≡ none
      → ((j : Uuid) → (uid == j) ≡ false → load_agent j r.0 ≡ load_agent j st.store)
      → Agrees (removed cache svc uid st r) r
  unfolding removed
  removed_found-Agrees uid st (s, some e) c h l = absurd (cc h)
  removed_found-Agrees uid st (s, none) c h l = (
    invalidate_cache-Coherent uid (record st { store = s }) (λ q j v d e. l j d ∙ c q j v e),
    (invalidate_cache-store uid (record st { store = s }), refl),
  )

  removed-Agrees :
      (uid : Uuid) (st : State C)
      → Coherent st
      → Agrees (removed cache svc uid st (remove_agent uid st.store)) (remove_agent uid st.store)
  unfolding removed
  removed-Agrees uid st c = elim (remove_agent-cases uid st.store) [
    | inl h ↦ rw h (c, (refl, refl))
    | inr h ↦
        removed_found-Agrees uid st (remove_agent uid st.store) c h
          λ j d. load_agent-remove_agent uid j st.store h ∙ rw d refl
  ]

  pub delete_loaded-Agrees :
      (now : Time) (uid : Uuid) (st : State C) (a : Agent)
      → Coherent st
      → Agrees (delete_loaded cache svc now uid st (ok a)) (
          if is_connected_at a now default_connection_staleness
          then (st.store, some agent_connected)
          else remove_agent uid st.store)
  unfolding delete_loaded
  delete_loaded-Agrees now uid st a c =
      elim (Bool-cases (is_connected_at a now default_connection_staleness)) [
        | inl q ↦ rw q (c, (refl, refl))
        | inr q ↦ rw q (removed-Agrees uid st c)
      ]

  pub shutdown-Coherent : (st : State C) → Coherent st → Coherent (shutdown cache svc st)
  unfolding shutdown
  shutdown-Coherent st c q j v e = absurd (
      let e' : ◌≡◌ {A = Option Agent} none (some v) =
        sym (cache.held_remove_all j st.cache) ∙ (rw q at e) in
      cc e')

  pub shutdown-store : (st : State C) → (shutdown cache svc st).store ≡ st.store
  unfolding shutdown
  shutdown-store st =
      if_both (λ (left : State C). left.store ≡ st.store) svc.cache_enabled (λ on. refl)
        (λ off. refl)
