-- ===== src/OpAmp/Answer.antt =====
-- opamp.go: what a message that is taken over leaves in the repository.
use opampcommander.Base.{
  String, ◌≡◌, refl, sym, ap, ◌∙◌, subst, inl, inr, true, false, Option, none, some, [], ◌∷◌,
  nat_beq_iff, if◌then◌else◌, ◌==◌, nat_eq, string_eq, str_eq_refl, if_both, Bool-cases, lookup,
  insert, lookup-insert, Error, Result, ok, err,
}
use opampcommander.Agent.Types.{Uuid, AgentMetadata, Agent}
use opampcommander.Agent.Health.{Time}
use opampcommander.Agent.Description.{Description}
use opampcommander.Agent.Clone.{clone, clone_metadata, clone_status}
use opampcommander.Agent.Clone.Laws.{clone_metadata-id}
use opampcommander.Agent.Methods.{new_agent, with_namespace, fresh_agent}
use opampcommander.Agent.Reports.{update_last_communication_info}
use opampcommander.Store.Ops.{find_item}
use opampcommander.Store.Agents.{
  with_resource_version, next_version, get_agent as load_agent, put_agent,
}
use opampcommander.Store.Versions.{
  stored_version, get_agent-found, put_agent-current, get_agent-put_agent,
}
use opampcommander.AgentService.{
  AgentService, is_not_exist, get_agent, get_or_create_agent, or_create, save_agent,
  State as AgentsState,
}
use opampcommander.AgentService.Coherence.{Coherent, get_agent-Agrees, save_agent-Agrees}
use opampcommander.AgentService.Retry.{or_create-version}
use opampcommander.Connection.{Connection, ConnectionId}
use opampcommander.OpAmp.Proto.{AgentToServer}
use opampcommander.OpAmp.ToDomain.{desc_to_domain}
use opampcommander.OpAmp.State.{Service as OpAmpService, State, Readings}
use opampcommander.OpAmp.Conflict.{handle_instance_uid_conflict}
use opampcommander.OpAmp.Message.{
  on_message, handle_message, process, absorb, answer, persisted, observe_environment,
  maybe_persist_agent, should_persist_agent, is_heartbeat_only, sync_connection_namespace,
  inject_instance_uid_to_connection, connection_type_of,
}
use opampcommander.OpAmp.Claims.{Claimed, unclaimed, not_redirected}
use opampcommander.OpAmp.Absorbed.{Core, core, described_as, core-report_and_reconcile_groups}

core-clone : (a : Agent) → core (clone a) ≡ core a
unfolding clone clone_status clone_metadata
core-clone a =
    ap (λ (m : AgentMetadata). core (record a { metadata = m })) (clone_metadata-id a.metadata)

or_create-uid :
    (svc : AgentService) (now now' : Time) (uid : Uuid) (r : Result Agent) (b : Agent)
    → ((a : Agent) → r ≡ ok a → a.metadata.instance_uid ≡ uid)
    → or_create svc now now' uid r ≡ ok b
    → b.metadata.instance_uid ≡ uid
unfolding or_create new_agent with_namespace fresh_agent
or_create-uid svc now now' uid (ok a) b h e = let e' : a ≡ b = cc e in rw (← e') (h a refl)
or_create-uid svc now now' uid (err x) b h e = elim (Bool-cases (is_not_exist x)) [
  | inl q ↦
      let made = new_agent now now' uid (with_namespace svc.default_namespace ∷ []) in
      let e' : made ≡ b = let e'' : ok made ≡ ok b = rw q at e in cc e'' in
      rw (← e') (
        if_both (λ (a : Agent). a.metadata.instance_uid ≡ uid) (svc.default_namespace == "")
          (λ q. refl) (λ q. refl))
  | inr q ↦ absurd (let e'' : ◌≡◌ {A = Result Agent} (err x) (ok b) = rw q at e in cc e'')
]

module _ {C : Type 0} (svc : OpAmpService C) where
  persisted-none :
      (t : Readings) (uid : Uuid) (st : State C) (r : AgentsState C × (Agent × Option Error))
      → r.1.1 ≡ none
      → persisted svc t uid st r ≡ (
        observe_environment svc t.observed_at r.1.0 (record st {
          agents = r.0;
          last_save_at = insert (svc.names.show uid) t.received_at st.last_save_at;
        }),
        r.1.0,
      )
  unfolding persisted
  persisted-none t uid st (agents, (a, none)) h = refl
  persisted-none t uid st (agents, (a, some e)) h = absurd (cc h)

  -- A message that is more than a heartbeat has its agent saved when the agent has the stored version.
  maybe_persist_agent-saved :
      (t : Readings) (uid : Uuid) (m : AgentToServer) (a : Agent) (st : State C)
      → Coherent svc.cache svc.agents st.agents
      → is_heartbeat_only m ≡ false
      → a.metadata.instance_uid ≡ uid
      → stored_version uid st.agents.store ≡ a.metadata.resource_version
      → let left = (maybe_persist_agent svc t uid m a st).0 in
        (load_agent uid left.agents.store
          ≡ ok (clone (with_resource_version (next_version a.metadata.resource_version) a)))
        × (lookup (svc.names.show uid) left.last_save_at ≡ some t.received_at)
  unfolding maybe_persist_agent should_persist_agent observe_environment
  maybe_persist_agent-saved t uid m a st c h u v =
      let (_, (s, r)) = save_agent-Agrees svc.cache svc.agents t.throttled_at a st.agents c in
      let v' : stored_version a.metadata.instance_uid st.agents.store
          ≡ a.metadata.resource_version =
        rw u v in
      let written = put_agent-current a st.agents.store v' in
      let accepted : (save_agent svc.cache svc.agents t.throttled_at a st.agents).1.1 ≡ none =
        ap (λ (r : Agent × Option Error). r.1) (r ∙ written) in
      let stored : load_agent uid (put_agent a st.agents.store).0
          ≡ ok (clone (with_resource_version (next_version a.metadata.resource_version) a)) =
        get_agent-put_agent a st.agents.store v' uid
        ∙ ap
            (λ same.
              if same
              then ok (clone (put_agent a st.agents.store).1.0)
              else load_agent uid st.agents.store)
            ((nat_beq_iff _ _).1 u)
        ∙ ap (λ (r : Agent × Option Error). ok (clone r.0)) written in
      rw
        (
          h,
          persisted-none t uid st (save_agent svc.cache svc.agents t.throttled_at a st.agents)
              accepted,
          s,
        )
        (
          stored,
          lookup-insert (svc.names.show uid) (svc.names.show uid) t.received_at st.last_save_at
              ∙ rw (str_eq_refl (svc.names.show uid)) refl,
        )

  answer-0 : (r : State C × Agent) → (answer svc r).0 ≡ r.0
  unfolding answer
  answer-0 (st, a) = refl

  -- What is stored of the agent of a message, and when its next heartbeat may be dropped.
  pub record Stored (t : Readings) (m : AgentToServer) (st : State C) : Type 0 where
    pub agent : Agent
    pub read : load_agent m.instance_uid st.agents.store ≡ ok agent
    pub sequence_num : agent.status.sequence_num ≡ m.sequence_num
    pub connected : agent.status.connected ≡ true
    pub last_reported_at : agent.status.last_reported_at ≡ t.reported_at
    pub description :
        (d : Description)
        → desc_to_domain svc.formats m.agent_description ≡ some d
        → agent.metadata.description ≡ d
    pub last_save_at : lookup (svc.names.show m.instance_uid) st.last_save_at ≡ some t.received_at

  described-description :
      (o : Option Description) (d : Description) (c : Core)
      → o ≡ some d
      → (described_as o c).description ≡ d
  described-description none d c h = cc
  described-description (some e) d c h = cc

  described-rest :
      (o : Option Description) (c : Core)
      → ((described_as o c).instance_uid ≡ c.instance_uid)
        × (((described_as o c).resource_version ≡ c.resource_version)
            × (((described_as o c).sequence_num ≡ c.sequence_num)
                × (((described_as o c).connected ≡ c.connected)
                    × ((described_as o c).last_reported_at ≡ c.last_reported_at))))
  described-rest none c = (refl, (refl, (refl, (refl, refl))))
  described-rest (some d) c = (refl, (refl, (refl, (refl, refl))))

  process-Stored :
      (t : Readings) (server : Option String) (m : AgentToServer) (conn : Option Connection)
      (st : State C) (r : Result Agent) (b : Agent)
      → Coherent svc.cache svc.agents st.agents
      → is_heartbeat_only m ≡ false
      → r ≡ ok b
      → b.metadata.instance_uid ≡ m.instance_uid
      → stored_version m.instance_uid st.agents.store ≡ b.metadata.resource_version
      → Stored t m (process svc t server m conn st r).0
  unfolding process absorb update_last_communication_info with_resource_version
  process-Stored t server m conn st r b c h e u v =
      let seen = update_last_communication_info t.received_at (connection_type_of conn) b in
      let (a, (reported, is)) = core-report_and_reconcile_groups svc server t.reported_at m seen in
      let o = desc_to_domain svc.formats m.agent_description in
      let (uid, (version, (seq, (conn_is, at)))) =
        described-rest o (record (core seen) {
          sequence_num = m.sequence_num;
          last_reported_at = t.reported_at;
        }) in
      let synced = record st {
        connections = sync_connection_namespace svc conn b st.connections;
      } in
      let (load, saves) =
        maybe_persist_agent-saved t m.instance_uid m a synced c h
          (ap (λ (x : Core). x.instance_uid) is ∙ uid ∙ u)
          (v ∙ sym (ap (λ (x : Core). x.resource_version) is ∙ version)) in
      let next = with_resource_version (next_version a.metadata.resource_version) a in
      let left = (maybe_persist_agent svc t m.instance_uid m a synced).0 in
      let final : (process svc t server m conn st r).0 ≡ left =
        ap (λ r. (process svc t server m conn st r).0) e
        ∙ ap (λ r. (absorb svc t m synced r).0) reported
        ∙ answer-0 (maybe_persist_agent svc t m.instance_uid m a synced) in
      let cloned = core-clone next in
      subst (Stored t m) (sym final) (record {
        agent = clone next;
        read = load;
        sequence_num =
            ap (λ (x : Core). x.sequence_num) cloned ∙ ap (λ (x : Core). x.sequence_num) is ∙ seq;
        connected =
            ap (λ (x : Core). x.connected) cloned ∙ ap (λ (x : Core). x.connected) is ∙ conn_is;
        last_reported_at =
            ap (λ (x : Core). x.last_reported_at) cloned
            ∙ ap (λ (x : Core). x.last_reported_at) is
            ∙ at;
        description = λ d q.
            ap (λ (x : Core). x.description) cloned
            ∙ ap (λ (x : Core). x.description) is
            ∙ described-description o d _ q;
        last_save_at = saves;
      })

  -- While the cache agrees with the repository and the agent under the message's UID, if there is one,
  -- has that UID: a message that claims no other agent's UID and is more than a heartbeat leaves in the
  -- repository an agent under its UID that is connected, with the message's sequence number, the time
  -- of the report and, where the message has one, its description; the time of the save is kept.
  pub on_message-Stored :
      (t : Readings) (server : Option String) (id : ConnectionId) (m : AgentToServer) (st : State C)
      → Coherent svc.cache svc.agents st.agents
      → ((a : Agent)
          → load_agent m.instance_uid st.agents.store ≡ ok a
          → a.metadata.instance_uid ≡ m.instance_uid)
      → ¬ Claimed svc m st.agents.store
      → is_heartbeat_only m ≡ false
      → Stored t m (on_message svc t server id m st).0
  unfolding on_message handle_message get_or_create_agent
  on_message-Stored t server id m st c keyed unclaimed_uid h =
      let r = handle_instance_uid_conflict svc t id m st in
      let s = r.0.agents in
      let (none_sent, (c0, same0)) = unclaimed svc t id m st c unclaimed_uid in
      let injected = inject_instance_uid_to_connection svc id m.instance_uid r.0.connections in
      let got = get_agent svc.cache svc.agents t.loaded_at m.instance_uid s in
      let (c1, (same1, read1)) =
        get_agent-Agrees svc.cache svc.agents t.loaded_at m.instance_uid s c0 in
      let (b, (made, version)) =
        or_create-version svc.agents t.loaded_at t.created_at m.instance_uid
          (find_item m.instance_uid s.store.items) in
      let loaded : or_create svc.agents t.loaded_at t.created_at m.instance_uid got.1 ≡ ok b =
        ap (or_create svc.agents t.loaded_at t.created_at m.instance_uid)
          (read1 ∙ get_agent-found m.instance_uid s.store)
        ∙ made in
      rw (not_redirected svc t server id m r none_sent) (
        process-Stored t server m injected.1
          (record r.0 { agents = got.0; connections = injected.0 })
          (or_create svc.agents t.loaded_at t.created_at m.instance_uid got.1) b c1 h loaded
          (or_create-uid svc.agents t.loaded_at t.created_at m.instance_uid got.1 b
            (λ a e. keyed a (ap (load_agent m.instance_uid) (sym same0) ∙ sym read1 ∙ e)) loaded)
          (ap (stored_version m.instance_uid) same1 ∙ sym version))
