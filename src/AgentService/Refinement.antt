-- ===== src/AgentService/Refinement.antt =====
-- service/agent.go: the agent service against the repository without a cache.
use opampcommander.Base.{
  ◌≡◌, refl, sym, ap, ◌∙◌, Option, none, some, List, [], ◌∷◌, if◌then◌else◌, nat_eq, string_eq,
  Error, agent_connected, Result, ok, err,
}
use opampcommander.Agent.Types.{Uuid, Agent}
use opampcommander.Agent.Health.{Time}
use opampcommander.Store.Agents.{
  AgentStore, get_agent as load_agent, put_agent, delete_agent as remove_agent,
}
use opampcommander.AgentService.Cache.{TtlCache}
use opampcommander.AgentService.{
  AgentService, State, get_agent, get_or_create_agent, or_create, save_agent, delete_agent,
  invalidate_cache, shutdown, delete_loaded,
}
use opampcommander.AgentService.Coherence.{
  Coherent, Agrees, get_agent-Agrees, save_agent-Agrees, delete_loaded-Agrees,
  Coherent-invalidate_cache, invalidate_cache-store, shutdown-Coherent, shutdown-store,
}
use opampcommander.Agent.Methods.{is_connected_at, default_connection_staleness}

-- The calls of the service that read or change it.
pub data Call : Type 0 where
  get_of : Time → Uuid → Call
  get_or_create_of : Time → Time → Uuid → Call
  save_of : Time → Agent → Call
  delete_of : Time → Uuid → Call
  invalidate_of : Uuid → Call
  shutdown_of : Call

pub data Reply : Type 0 where
  agent : Result Agent → Reply
  saved_as : Agent → Option Error → Reply
  deleted : Option Error → Reply
  done : Reply

delete_disconnected : Time → Uuid → Result Agent → AgentStore → AgentStore × Option Error
delete_disconnected now uid (err e) s = (s, some e)
delete_disconnected now uid (ok a) s =
    if is_connected_at a now default_connection_staleness
    then (s, some agent_connected)
    else remove_agent uid s

-- The same calls of the repository alone.
unfoldable pub serve : AgentService → Call → AgentStore → AgentStore × Reply
unfolding delete_disconnected
serve svc (Call.get_of now uid) s = (s, Reply.agent (load_agent uid s))
serve svc (Call.get_or_create_of now now' uid) s =
    (s, Reply.agent (or_create svc now now' uid (load_agent uid s)))
serve svc (Call.save_of now a) s = let r = put_agent a s in (r.0, Reply.saved_as r.1.0 r.1.1)
serve svc (Call.delete_of now uid) s =
    let r = delete_disconnected now uid (load_agent uid s) s in (r.0, Reply.deleted r.1)
serve svc (Call.invalidate_of uid) s = (s, Reply.done)
serve svc Call.shutdown_of s = (s, Reply.done)

unfoldable pub serve_all : AgentService → List Call → AgentStore → AgentStore × List Reply
unfolding serve
serve_all svc [] s = (s, [])
serve_all svc (call ∷ calls) s =
    let r = serve svc call s in let rest = serve_all svc calls r.0 in (rest.0, r.1 ∷ rest.1)

module _ {C : Type 0} (cache : TtlCache C) (svc : AgentService) where
  unfoldable pub step : Call → State C → State C × Reply
  step (Call.get_of now uid) st = let r = get_agent cache svc now uid st in (r.0, Reply.agent r.1)
  step (Call.get_or_create_of now now' uid) st =
      let r = get_or_create_agent cache svc now now' uid st in (r.0, Reply.agent r.1)
  step (Call.save_of now a) st =
      let r = save_agent cache svc now a st in (r.0, Reply.saved_as r.1.0 r.1.1)
  step (Call.delete_of now uid) st =
      let r = delete_agent cache svc now uid st in (r.0, Reply.deleted r.1)
  step (Call.invalidate_of uid) st = (invalidate_cache cache svc uid st, Reply.done)
  step Call.shutdown_of st = (shutdown cache svc st, Reply.done)

  delete_result-Agrees :
      (now : Time) (uid : Uuid) (st : State C) (r : Result Agent)
      → Coherent cache svc st
      → Agrees cache svc
          (delete_loaded cache svc now uid st r)
          (delete_disconnected now uid r st.store)
  unfolding delete_loaded delete_disconnected
  delete_result-Agrees now uid st (err e) c = (c, (refl, refl))
  delete_result-Agrees now uid st (ok a) c = delete_loaded-Agrees cache svc now uid st a c

  unfoldable pub run : List Call → State C → State C × List Reply
  unfolding step
  run [] st = (st, [])
  run (call ∷ calls) st = let r = step call st in let rest = run calls r.0 in (rest.0, r.1 ∷ rest.1)

  step-Agrees :
      (call : Call) (st : State C)
      → Coherent cache svc st
      → Agrees cache svc (step call st) (serve svc call st.store)
  unfolding step serve get_or_create_agent delete_agent
  step-Agrees (Call.get_of now uid) st c =
      let (c', (s, r)) = get_agent-Agrees cache svc now uid st c in (c', (s, ap Reply.agent r))
  step-Agrees (Call.get_or_create_of now now' uid) st c =
      let (c', (s, r)) = get_agent-Agrees cache svc now uid st c in
      (c', (s, ap (λ r. Reply.agent (or_create svc now now' uid r)) r))
  step-Agrees (Call.save_of now a) st c =
      let (c', (s, r)) = save_agent-Agrees cache svc now a st c in
      (c', (s, ap (λ (r : Agent × Option Error). Reply.saved_as r.0 r.1) r))
  step-Agrees (Call.delete_of now uid) st c =
      let (c', (s, r)) = delete_result-Agrees now uid st (load_agent uid st.store) c in
      (c', (s, ap Reply.deleted r))
  step-Agrees (Call.invalidate_of uid) st c = (
    Coherent-invalidate_cache cache svc uid st c,
    (invalidate_cache-store cache svc uid st, refl),
  )
  step-Agrees Call.shutdown_of st c =
      (shutdown-Coherent cache svc st c, (shutdown-store cache svc st, refl))

  run-serve_all :
      (calls : List Call) (st : State C)
      → Coherent cache svc st
      → ((run calls st).0.store ≡ (serve_all svc calls st.store).0)
        × ((run calls st).1 ≡ (serve_all svc calls st.store).1)
  unfolding run serve_all
  run-serve_all [] st c = (refl, refl)
  run-serve_all (call ∷ calls) st c =
      let (c', (s, r)) = step-Agrees call st c in
      let (s', rs) = run-serve_all calls (step call st).0 c' in (s' ∙ rw s refl, rw (r, rs, s) refl)

  -- When no other server writes, any calls of the service that begin with an empty cache leave the
  -- store, and give the replies, of the same calls of the repository without a cache: no reply is stale.
  pub run-fresh :
      (calls : List Call) (c : C) (s : AgentStore)
      → ((j : Uuid) → cache.held j c ≡ none)
      → ((run calls (record { cache = c; store = s })).0.store ≡ (serve_all svc calls s).0)
        × ((run calls (record { cache = c; store = s })).1 ≡ (serve_all svc calls s).1)
  run-fresh calls c s h =
      run-serve_all calls (record { cache = c; store = s })
        (λ q j v e. absurd (let e' : ◌≡◌ {A = Option Agent} none (some v) = sym (h j) ∙ e in cc e'))
