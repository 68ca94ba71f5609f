-- ===== src/OpAmp/Claims.antt =====
-- instanceuid_conflict.go: which messages are redirected, and what that leaves of the agent that has
-- the instance UID.
use opampcommander.Base.{
  String, ◌≡◌, refl, sym, ap, ◌∙◌, ◌≢◌, ◌↔◌, ◌⊎◌, inl, inr, Bool, true, false, Option, none, some,
  arith, nat_beq_iff, ◌==◌, nat_eq, string_eq, Bool-cases, Option-cases, elems, Result, ok, err,
}
use opampcommander.Agent.Types.{uuid_nil, Agent}
use opampcommander.Store.Agents.{AgentStore, get_agent as load_agent}
use opampcommander.AgentService.{get_agent, get_or_create_agent}
use opampcommander.AgentService.Coherence.{Coherent, get_agent-Agrees}
use opampcommander.Connection.{Connection, ConnectionId}
use opampcommander.OpAmp.Proto.{AgentToServer, AgentDescription}
use opampcommander.OpAmp.ToDomain.{to_map}
use opampcommander.OpAmp.State.{Service as OpAmpService, State, Readings, Response}
use opampcommander.OpAmp.Conflict.{
  attributes_differ, described, conflicting, detected, detect_instance_uid_conflict, redirect,
  handle_instance_uid_conflict,
}
use opampcommander.Agent.Reports.{update_last_communication_info}
use opampcommander.OpAmp.Report.{report_and_reconcile_groups}
use opampcommander.OpAmp.Message.{
  on_message, handle_message, unless_redirected, process, absorb, answer, responded,
  connection_type_of, sync_connection_namespace, inject_instance_uid_to_connection,
  fetch_server_to_agent, create_error_server_to_agent, maybe_persist_agent,
}
use opampcommander.ServerToAgent.Message.{Message}
use opampcommander.ServerToAgent.Build.{build}

-- The answer is the one that redirects the sender. An answer that the builder made for an agent is
-- none, also where it carries a new UID.
abbrev pub is_renewal : Option Response → Bool
is_renewal (some (Response.renewal old new)) = true
is_renewal _ = false

module _ {C : Type 0} (svc : OpAmpService C) where
  -- The agent that is stored under the message's UID identifies itself otherwise than the message does.
  pub record Claimed (m : AgentToServer) (s : AgentStore) : Type 0 where
    pub owner : Agent
    pub desc : AgentDescription
    pub has_uid : m.instance_uid ≢ uuid_nil
    pub stored : load_agent m.instance_uid s ≡ ok owner
    pub sent : m.agent_description ≡ some desc
    pub differ :
        attributes_differ
          (to_map svc.formats desc.identifying_attributes)
          (elems owner.metadata.description.identifying_attributes)
        ≡ true

  described-some :
      (a : Agent) (o : Option AgentDescription)
      → described svc a o ≡ true
      → (desc : AgentDescription) × ((o ≡ some desc)
          × (attributes_differ
                (to_map svc.formats desc.identifying_attributes)
                (elems a.metadata.description.identifying_attributes)
              ≡ true))
  unfolding described
  described-some a none h = cc
  described-some a (some desc) h = (desc, (refl, h))

  conflicting-some :
      (m : AgentToServer) (r : Result Agent) (a : Agent)
      → conflicting svc m r ≡ some a
      → (r ≡ ok a) × (described svc a m.agent_description ≡ true)
  unfolding conflicting
  conflicting-some m (err e) a h = cc
  conflicting-some m (ok b) a h = elim (Bool-cases (described svc b m.agent_description)) [
    | inl q ↦ let e : b ≡ a = let e' : some b ≡ some a = rw q at h in cc in (ap ok e, rw (← e) q)
    | inr q ↦ absurd (let e' : ◌≡◌ {A = Option Agent} none (some a) = rw q at h in cc e')
  ]

  responded-keeps : (o : Option Message) → is_renewal (responded svc o) ≡ false
  unfolding responded
  responded-keeps none = refl
  responded-keeps (some m) = refl

  answer-keeps : (r : State C × Agent) → is_renewal (answer svc r).1 ≡ false
  unfolding answer fetch_server_to_agent
  answer-keeps (st, a) = responded-keeps (build svc.protocol svc.library svc.get_package a)

  absorb-keeps :
      (t : Readings) (m : AgentToServer) (st : State C) (r : Result Agent)
      → is_renewal (absorb svc t m st r).1 ≡ false
  unfolding absorb create_error_server_to_agent
  absorb-keeps t m st (err e) = refl
  absorb-keeps t m st (ok a) = answer-keeps (maybe_persist_agent svc t m.instance_uid m a st)

  process-keeps :
      (t : Readings) (server : Option String) (m : AgentToServer) (conn : Option Connection)
      (st : State C) (r : Result Agent)
      → is_renewal (process svc t server m conn st r).1 ≡ false
  unfolding process create_error_server_to_agent
  process-keeps t server m conn st (err e) = refl
  process-keeps t server m conn st (ok a) =
      absorb-keeps t m
        (record st { connections = sync_connection_namespace svc conn a st.connections })
        (report_and_reconcile_groups svc server t.reported_at m
          (update_last_communication_info t.received_at (connection_type_of conn) a))

  -- No answer of the handler itself gives out a UID.
  handle_message-keeps :
      (t : Readings) (server : Option String) (id : ConnectionId) (m : AgentToServer) (st : State C)
      → is_renewal (handle_message svc t server id m st).1 ≡ false
  unfolding handle_message
  handle_message-keeps t server id m st =
      let injected = inject_instance_uid_to_connection svc id m.instance_uid st.connections in
      let loaded =
        get_or_create_agent svc.cache svc.agents t.loaded_at t.created_at m.instance_uid
          st.agents in
      process-keeps t server m injected.1
        (record st { agents = loaded.0; connections = injected.0 }) loaded.1

  conflict_of : Readings → AgentToServer → State C → Option Agent
  conflict_of t m st =
      conflicting svc m (get_agent svc.cache svc.agents t.checked_at m.instance_uid st.agents).1

  -- The state once the agent under the UID was read.
  read_by : Readings → AgentToServer → State C → State C
  read_by t m st = record st {
    agents = (get_agent svc.cache svc.agents t.checked_at m.instance_uid st.agents).0;
  }

  -- Redirecting, by whether a conflict was found.
  handle-cases :
      (t : Readings) (id : ConnectionId) (m : AgentToServer) (st : State C)
      → ((m.instance_uid ≢ uuid_nil)
          × ((a : Agent) × ((conflict_of t m st ≡ some a)
                × ((handle_instance_uid_conflict svc t id m st).1
                    ≡ some (Response.renewal m.instance_uid t.fresh_uid)))))
        ⊎ (((m.instance_uid ≡ uuid_nil) ⊎ (conflict_of t m st ≡ none))
            × (((handle_instance_uid_conflict svc t id m st).1 ≡ none)
                × (((handle_instance_uid_conflict svc t id m st).0 ≡ st)
                    ⊎ ((handle_instance_uid_conflict svc t id m st).0 ≡ read_by t m st))))
  unfolding handle_instance_uid_conflict detect_instance_uid_conflict redirect conflict_of detected
      read_by
  handle-cases t id m st = elim (Bool-cases (m.instance_uid == uuid_nil)) [
    | inl q ↦ inr (inl ((nat_beq_iff _ _).0 q), (rw q refl, inl (rw q refl)))
    | inr q ↦ elim (Option-cases (conflict_of t m st)) [
      | inl n ↦ inr (inr n, (rw (q, n) refl, inr (rw (q, n) refl)))
      | inr (a, e) ↦ inl (ground (arith, q), (a, (e, rw (q, e) refl)))
    ]
  ]

  conflict_of-Claimed :
      (t : Readings) (m : AgentToServer) (st : State C)
      → Coherent svc.cache svc.agents st.agents
      → Claimed m st.agents.store
      → (a : Agent) × (conflict_of t m st ≡ some a)
  unfolding conflict_of conflicting described
  conflict_of-Claimed t m st c h =
      let (_, (_, read)) =
        get_agent-Agrees svc.cache svc.agents t.checked_at m.instance_uid st.agents c in
      (h.owner, rw (read, h.stored, h.sent, h.differ) refl)

  redirected :
      (t : Readings) (server : Option String) (id : ConnectionId) (m : AgentToServer)
      (r : State C × Option Response) (x : Response)
      → r.1 ≡ some x
      → unless_redirected svc t server id m r ≡ r
  unfolding unless_redirected
  redirected t server id m (st, none) x h = cc
  redirected t server id m (st, some y) x h = refl

  pub not_redirected :
      (t : Readings) (server : Option String) (id : ConnectionId) (m : AgentToServer)
      (r : State C × Option Response)
      → r.1 ≡ none
      → unless_redirected svc t server id m r ≡ handle_message svc t server id m r.0
  unfolding unless_redirected
  not_redirected t server id m (st, none) h = refl
  not_redirected t server id m (st, some y) h = absurd (cc h)

  -- A message is redirected exactly when the agent is claimed.
  pub on_message-Claimed :
      (t : Readings) (server : Option String) (id : ConnectionId) (m : AgentToServer) (st : State C)
      → Coherent svc.cache svc.agents st.agents
      → (is_renewal (on_message svc t server id m st).1 ≡ true) ↔ Claimed m st.agents.store
  unfolding on_message conflict_of
  on_message-Claimed t server id m st c =
      let r = handle_instance_uid_conflict svc t id m st in
      elim (handle-cases t id m st) [
        | inl (has_uid, (a, (e, response))) ↦
            let (read, differs) = conflicting-some m _ a e in
            let (_, (_, load)) =
              get_agent-Agrees svc.cache svc.agents t.checked_at m.instance_uid st.agents c in
            let (desc, (sent, differ)) = described-some a m.agent_description differs in
            (
              λ q. record {
                owner = a;
                desc = desc;
                has_uid = has_uid;
                stored = sym load ∙ read;
                sent = sent;
                differ = differ;
              },
              λ h. rw (redirected t server id m r _ response, response) refl,
            )
        | inr (why, (no_response, left)) ↦
            let keeps = handle_message-keeps t server id m r.0 in
            (
              λ q. absurd (
                  let q' : is_renewal (handle_message svc t server id m r.0).1 ≡ true =
                    rw (not_redirected t server id m r no_response) at q in
                  cc (sym keeps ∙ q')),
              λ h. elim why [
                | inl nil ↦ absurd (h.has_uid nil)
                | inr n ↦ absurd (let (a, e) = conflict_of-Claimed t m st c h in cc (sym n ∙ e))
              ],
            )
      ]

  -- The answer to a message that claims an agent.
  pub Claimed-on_message :
      (t : Readings) (server : Option String) (id : ConnectionId) (m : AgentToServer) (st : State C)
      → Coherent svc.cache svc.agents st.agents
      → Claimed m st.agents.store
      → (on_message svc t server id m st).1 ≡ some (Response.renewal m.instance_uid t.fresh_uid)
  unfolding on_message
  Claimed-on_message t server id m st c h =
      let (a, e) = conflict_of-Claimed t m st c h in
      elim (handle-cases t id m st) [
        | inl (_, (_, (_, response))) ↦
            rw (redirected t server id m (handle_instance_uid_conflict svc t id m st) _ response)
              response
        | inr (inl nil, _) ↦ absurd (h.has_uid nil)
        | inr (inr n, _) ↦ absurd (let f : ◌≡◌ {A = Option Agent} none (some a) = sym n ∙ e in cc f)
      ]

  -- What is left of a message that claims nothing: the agents have at most been read.
  pub unclaimed :
      (t : Readings) (id : ConnectionId) (m : AgentToServer) (st : State C)
      → Coherent svc.cache svc.agents st.agents
      → ¬ Claimed m st.agents.store
      → let r = handle_instance_uid_conflict svc t id m st in
        (r.1 ≡ none)
        × (Coherent svc.cache svc.agents r.0.agents × (r.0.agents.store ≡ st.agents.store))
  unfolding read_by on_message
  unclaimed t id m st c h =
      let (c', (same, read)) =
        get_agent-Agrees svc.cache svc.agents t.checked_at m.instance_uid st.agents c in
      elim (handle-cases t id m st) [
        | inl (has_uid, (a, (e, response))) ↦ absurd (
            h (
              (on_message-Claimed t none id m st c).0 (
                rw
                  (
                    redirected t none id m (handle_instance_uid_conflict svc t id m st) _ response,
                    response,
                  )
                  refl)))
        | inr (why, (no_response, inl e)) ↦ (no_response, rw e (c, refl))
        | inr (why, (no_response, inr e)) ↦ (no_response, rw e (c', same))
      ]
