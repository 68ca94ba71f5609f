-- ===== src/OpAmp/Packages.antt =====
-- opamp.go: a message from an agent that accepts packages.
use opampcommander.Base.{
  String, ◌≡◌, refl, sym, ap, ◌∙◌, inl, inr, true, not, Option, none, some, [], ◌∷◌, ◌==◌, nat_eq,
  string_eq, if_both, Bool-cases, Error, Result, ok, err,
}
use opampcommander.Agent.Types.{Uuid, Agent}
use opampcommander.Agent.Health.{Time}
use opampcommander.Agent.Capabilities.{has_accepts_packages}
use opampcommander.Agent.Methods.{new_agent, with_namespace, fresh_agent}
use opampcommander.Agent.Reports.{update_last_communication_info}
use opampcommander.Store.Ops.{find_item}
use opampcommander.Store.Agents.{AgentStore, get_agent as load_agent, put_agent}
use opampcommander.Store.Versions.{get_agent-found}
use opampcommander.ServerToAgent.Build.Panics.{build-no_packages}
use opampcommander.AgentService.{
  AgentService, is_not_exist, get_agent, get_or_create_agent, or_create, save_agent, saved,
  State as AgentsState,
}
use opampcommander.AgentService.Coherence.{Coherent, get_agent-Agrees}
use opampcommander.AgentService.Retry.{or_create-version}
use opampcommander.Connection.{Connection, ConnectionId}
use opampcommander.OpAmp.Proto.{AgentToServer}
use opampcommander.OpAmp.State.{Service as OpAmpService, State, Readings}
use opampcommander.OpAmp.Conflict.{handle_instance_uid_conflict}
use opampcommander.OpAmp.Message.{
  on_message, handle_message, process, absorb, answer, persisted, fetch_server_to_agent, responded,
  maybe_persist_agent, should_persist_agent, sync_connection_namespace,
  inject_instance_uid_to_connection, connection_type_of,
}
use opampcommander.OpAmp.Claims.{Claimed, unclaimed, not_redirected}
use opampcommander.OpAmp.Offers.{Offered, offer, offer-put_agent, offer-report_and_reconcile_groups}

or_create-unlisted :
    (svc : AgentService) (now now' : Time) (uid : Uuid) (r : Result Agent) (b : Agent)
    → ((a : Agent) → r ≡ ok a → a.spec.packages_available ≡ none)
    → or_create svc now now' uid r ≡ ok b
    → b.spec.packages_available ≡ none
unfolding or_create new_agent with_namespace fresh_agent
or_create-unlisted svc now now' uid (ok a) b h e = let e' : a ≡ b = cc e in rw (← e') (h a refl)
or_create-unlisted svc now now' uid (err x) b h e = elim (Bool-cases (is_not_exist x)) [
  | inl q ↦
      let made = new_agent now now' uid (with_namespace svc.default_namespace ∷ []) in
      let e' : made ≡ b = let e'' : ok made ≡ ok b = rw q at e in cc e'' in
      rw (← e') (
        if_both (λ (a : Agent). a.spec.packages_available ≡ none) (svc.default_namespace == "")
          (λ q. refl) (λ q. refl))
  | inr q ↦ absurd (let e'' : ◌≡◌ {A = Result Agent} (err x) (ok b) = rw q at e in cc e'')
]

module _ {C : Type 0} (svc : OpAmpService C) where
  persisted-1 :
      (t : Readings) (uid : Uuid) (st : State C) (r : AgentsState C × (Agent × Option Error))
      → (persisted svc t uid st r).1 ≡ r.1.0
  unfolding persisted
  persisted-1 t uid st (agents, (a, none)) = refl
  persisted-1 t uid st (agents, (a, some e)) = refl

  saved-1 :
      (now : Time) (st : AgentsState C) (r : AgentStore × (Agent × Option Error))
      → (saved svc.cache svc.agents now st r).1 ≡ r.1
  unfolding saved
  saved-1 now st (s, (a, none)) = refl
  saved-1 now st (s, (a, some e)) = refl

  offer-maybe_persist_agent :
      (t : Readings) (uid : Uuid) (m : AgentToServer) (a : Agent) (st : State C)
      → offer (maybe_persist_agent svc t uid m a st).1 ≡ offer a
  unfolding maybe_persist_agent save_agent
  offer-maybe_persist_agent t uid m a st =
      if_both (λ (r : State C × Agent). offer r.1 ≡ offer a)
        (not (should_persist_agent svc t.throttled_at uid m st.last_save_at)) (λ q. refl)
        (λ q.
          ap offer (
            persisted-1 t uid st (save_agent svc.cache svc.agents t.throttled_at a st.agents)
            ∙ ap (λ (r : Agent × Option Error). r.0)
                (saved-1 t.throttled_at st.agents (put_agent a st.agents.store)))
          ∙ offer-put_agent a st.agents.store)

  answer-none :
      (r : State C × Agent)
      → has_accepts_packages r.1.metadata.capabilities ≡ true
      → r.1.spec.packages_available ≡ none
      → (answer svc r).1 ≡ none
  unfolding answer fetch_server_to_agent responded
  answer-none (st, a) h n =
      rw (build-no_packages svc.protocol svc.library svc.get_package a h n) refl

  process-none :
      (t : Readings) (server : Option String) (m : AgentToServer) (conn : Option Connection)
      (st : State C) (r : Result Agent) (b : Agent)
      → has_accepts_packages m.capabilities ≡ true
      → r ≡ ok b
      → b.spec.packages_available ≡ none
      → (process svc t server m conn st r).1 ≡ none
  unfolding process absorb update_last_communication_info
  process-none t server m conn st r b h e n =
      let seen = update_last_communication_info t.received_at (connection_type_of conn) b in
      let (a, (reported, is)) = offer-report_and_reconcile_groups svc server t.reported_at m seen in
      let synced = record st {
        connections = sync_connection_namespace svc conn b st.connections;
      } in
      let kept = offer-maybe_persist_agent t m.instance_uid m a synced ∙ is in
      ap (λ r. (process svc t server m conn st r).1) e
      ∙ ap (λ r. (absorb svc t m synced r).1) reported
      ∙ answer-none (maybe_persist_agent svc t m.instance_uid m a synced)
          (ap (λ (o : Offered). has_accepts_packages o.capabilities) kept ∙ h)
          (ap (λ (o : Offered). o.packages) kept ∙ n)

  -- While the cache agrees with the repository: answering a message from an agent that accepts
  -- packages panics, where the message claims no other agent's UID and the agent stored under its UID,
  -- if there is one, has no list of packages.
  pub on_message-none :
      (t : Readings) (server : Option String) (id : ConnectionId) (m : AgentToServer) (st : State C)
      → Coherent svc.cache svc.agents st.agents
      → ((a : Agent)
          → load_agent m.instance_uid st.agents.store ≡ ok a
          → a.spec.packages_available ≡ none)
      → ¬ Claimed svc m st.agents.store
      → has_accepts_packages m.capabilities ≡ true
      → (on_message svc t server id m st).1 ≡ none
  unfolding on_message handle_message get_or_create_agent
  on_message-none t server id m st c unlisted unclaimed_uid h =
      let r = handle_instance_uid_conflict svc t id m st in
      let s = r.0.agents in
      let (none_sent, (c0, same0)) = unclaimed svc t id m st c unclaimed_uid in
      let injected = inject_instance_uid_to_connection svc id m.instance_uid r.0.connections in
      let got = get_agent svc.cache svc.agents t.loaded_at m.instance_uid s in
      let (c1, (same1, read1)) =
        get_agent-Agrees svc.cache svc.agents t.loaded_at m.instance_uid s c0 in
      let (b, (made, version)) =
        or_create-version svc.agents t.loaded_at t.created_at m.instance_uid
          (find_item m.instance_uid s.store.items) in
      let loaded : or_create svc.agents t.loaded_at t.created_at m.instance_uid got.1 ≡ ok b =
        ap (or_create svc.agents t.loaded_at t.created_at m.instance_uid)
          (read1 ∙ get_agent-found m.instance_uid s.store)
        ∙ made in
      rw (not_redirected svc t server id m r none_sent) (
        process-none t server m injected.1 (record r.0 { agents = got.0; connections = injected.0 })
          (or_create svc.agents t.loaded_at t.created_at m.instance_uid got.1) b h loaded
          (or_create-unlisted svc.agents t.loaded_at t.created_at m.instance_uid got.1 b
            (λ a e. unlisted a (ap (load_agent m.instance_uid) (sym same0) ∙ sym read1 ∙ e))
            loaded))
