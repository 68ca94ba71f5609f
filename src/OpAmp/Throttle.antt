-- ===== src/OpAmp/Throttle.antt =====
-- opamp.go: heartbeats between two saves.
use opampcommander.Base.{
  ◌+◌, ◌<◌, String, ◌≡◌, refl, ◌∙◌, inl, inr, true, false, Option, none, some, List, [], ◌∷◌, arith,
  ◌==◌, nat_eq, string_eq, Bool-cases, Option-cases, Assoc, lookup, Result, ok, err,
}
use opampcommander.Agent.Types.{Uuid, uuid_nil, Agent}
use opampcommander.Agent.Health.{Time, sub_lt}
use opampcommander.AgentService.{get_agent, get_or_create_agent}
use opampcommander.AgentService.Coherence.{get_agent-store}
use opampcommander.Agent.Reports.{update_last_communication_info}
use opampcommander.Connection.{Connection, ConnectionId}
use opampcommander.OpAmp.Proto.{AgentToServer}
use opampcommander.OpAmp.State.{Service as OpAmpService, State, Readings}
use opampcommander.OpAmp.Conflict.{
  described, conflicting, detected, detect_instance_uid_conflict, redirect,
  handle_instance_uid_conflict,
}
use opampcommander.OpAmp.Report.{report_and_reconcile_groups}
use opampcommander.OpAmp.Message.{
  on_message, handle_message, process, absorb, answer, maybe_persist_agent, should_persist_agent,
  elapsed, is_heartbeat_only, sync_connection_namespace, inject_instance_uid_to_connection,
  connection_type_of,
}
use opampcommander.OpAmp.Claims.{not_redirected}

module _ {C : Type 0} (svc : OpAmpService C) where
  -- Nothing that lasts was written: the agents, the hosts, the containers and the times of the saves.
  pub record Unwritten (st st' : State C) : Type 0 where
    pub agents : st'.agents.store ≡ st.agents.store
    pub hosts : st'.hosts ≡ st.hosts
    pub containers : st'.containers ≡ st.containers
    pub last_save_at : st'.last_save_at ≡ st.last_save_at

  unchanged : (st : State C) → Unwritten st st
  unchanged st = record { agents = refl; hosts = refl; containers = refl; last_save_at = refl }

  then-Unwritten : (a b c : State C) → Unwritten a b → Unwritten b c → Unwritten a c
  then-Unwritten a b c h k = record {
    agents = k.agents ∙ h.agents;
    hosts = k.hosts ∙ h.hosts;
    containers = k.containers ∙ h.containers;
    last_save_at = k.last_save_at ∙ h.last_save_at;
  }

  -- The last save of the agent was less than the throttle ago.
  abbrev pub Recent : Time → Uuid → Assoc Time → Type 0
  Recent now uid saves =
      (last : Time) × ((lookup (svc.names.show uid) saves ≡ some last)
        × (now < last + svc.heartbeat_save_throttle))

  should_persist_agent-Recent :
      (now : Time) (uid : Uuid) (m : AgentToServer) (saves : Assoc Time)
      → is_heartbeat_only m ≡ true
      → Recent now uid saves
      → should_persist_agent svc now uid m saves ≡ false
  unfolding should_persist_agent elapsed sub_lt
  should_persist_agent-Recent now uid m saves h (last, (e, before)) =
      rw (h, e) (ground (arith, before))

  maybe_persist_agent-throttled :
      (t : Readings) (uid : Uuid) (m : AgentToServer) (a : Agent) (st : State C)
      → is_heartbeat_only m ≡ true
      → Recent t.throttled_at uid st.last_save_at
      → maybe_persist_agent svc t uid m a st ≡ (st, a)
  unfolding maybe_persist_agent
  maybe_persist_agent-throttled t uid m a st h recent =
      rw (should_persist_agent-Recent t.throttled_at uid m st.last_save_at h recent) refl

  heartbeat_undescribed :
      (m : AgentToServer) → is_heartbeat_only m ≡ true → m.agent_description ≡ none
  unfolding is_heartbeat_only
  heartbeat_undescribed m h = elim (Option-cases m.agent_description) [
    | inl n ↦ n
    | inr (d, q) ↦ absurd (let f : false ≡ true = rw q at h in cc f)
  ]

  conflicting-undescribed :
      (m : AgentToServer) (r : Result Agent)
      → m.agent_description ≡ none
      → conflicting svc m r ≡ none
  unfolding conflicting described
  conflicting-undescribed m (err e) h = refl
  conflicting-undescribed m (ok a) h = rw h refl

  -- A message without a description claims nothing.
  undescribed-handle :
      (t : Readings) (id : ConnectionId) (m : AgentToServer) (st : State C)
      → m.agent_description ≡ none
      → ((handle_instance_uid_conflict svc t id m st).1 ≡ none)
        × Unwritten st (handle_instance_uid_conflict svc t id m st).0
  unfolding handle_instance_uid_conflict detect_instance_uid_conflict redirect detected
  undescribed-handle t id m st h =
      let read = get_agent svc.cache svc.agents t.checked_at m.instance_uid st.agents in
      elim (Bool-cases (m.instance_uid == uuid_nil)) [
        | inl q ↦ rw q (refl, unchanged st)
        | inr q ↦
            rw (q, conflicting-undescribed m read.1 h)
              (
                refl,
                record {
                  agents =
                      get_agent-store svc.cache svc.agents t.checked_at m.instance_uid st.agents;
                  hosts = refl;
                  containers = refl;
                  last_save_at = refl;
                },
              )
      ]

  absorbed-heartbeat :
      (t : Readings) (m : AgentToServer) (st : State C) (r : Result Agent)
      → is_heartbeat_only m ≡ true
      → Recent t.throttled_at m.instance_uid st.last_save_at
      → Unwritten st (absorb svc t m st r).0
  unfolding absorb answer
  absorbed-heartbeat t m st (err e) h recent = unchanged st
  absorbed-heartbeat t m st (ok a) h recent =
      rw (maybe_persist_agent-throttled t m.instance_uid m a st h recent) (unchanged st)

  processed-heartbeat :
      (t : Readings) (server : Option String) (m : AgentToServer) (conn : Option Connection)
      (st : State C) (r : Result Agent)
      → is_heartbeat_only m ≡ true
      → Recent t.throttled_at m.instance_uid st.last_save_at
      → Unwritten st (process svc t server m conn st r).0
  unfolding process
  processed-heartbeat t server m conn st (err e) h recent = unchanged st
  processed-heartbeat t server m conn st (ok a) h recent =
      let synced = record st {
        connections = sync_connection_namespace svc conn a st.connections;
      } in
      let written =
        absorbed-heartbeat t m synced
          (report_and_reconcile_groups svc server t.reported_at m
            (update_last_communication_info t.received_at (connection_type_of conn) a))
          h recent in
      record {
        agents = written.agents;
        hosts = written.hosts;
        containers = written.containers;
        last_save_at = written.last_save_at;
      }

  handled-heartbeat :
      (t : Readings) (server : Option String) (id : ConnectionId) (m : AgentToServer) (st : State C)
      → is_heartbeat_only m ≡ true
      → Recent t.throttled_at m.instance_uid st.last_save_at
      → Unwritten st (handle_message svc t server id m st).0
  unfolding handle_message get_or_create_agent
  handled-heartbeat t server id m st h recent =
      let injected = inject_instance_uid_to_connection svc id m.instance_uid st.connections in
      let loaded =
        get_or_create_agent svc.cache svc.agents t.loaded_at t.created_at m.instance_uid
          st.agents in
      let read = record st { agents = loaded.0; connections = injected.0 } in
      then-Unwritten st read (handle_message svc t server id m st).0
        (record {
          agents = get_agent-store svc.cache svc.agents t.loaded_at m.instance_uid st.agents;
          hosts = refl;
          containers = refl;
          last_save_at = refl;
        })
        (processed-heartbeat t server m injected.1 read loaded.1 h recent)

  -- A heartbeat less than the throttle after the last save writes nothing.
  pub on_message-throttled :
      (t : Readings) (server : Option String) (id : ConnectionId) (m : AgentToServer) (st : State C)
      → is_heartbeat_only m ≡ true
      → Recent t.throttled_at m.instance_uid st.last_save_at
      → Unwritten st (on_message svc t server id m st).0
  unfolding on_message
  on_message-throttled t server id m st h recent =
      let r = handle_instance_uid_conflict svc t id m st in
      let (none_sent, kept) = undescribed-handle t id m st (heartbeat_undescribed m h) in
      rw (not_redirected svc t server id m r none_sent) (
        then-Unwritten st r.0 (handle_message svc t server id m r.0).0 kept
          (handled-heartbeat t server id m r.0 h (rw kept.last_save_at recent)))

pub record Delivery : Type 0 where
  pub readings : Readings
  pub server : Option String
  pub conn : ConnectionId
  pub message : AgentToServer

module _ {C : Type 0} (svc : OpAmpService C) where
  abbrev pub deliver_all : List Delivery → State C → State C
  deliver_all [] st = st
  deliver_all (d ∷ ds) st =
      deliver_all ds (on_message svc d.readings d.server d.conn d.message st).0

  -- Each message is a heartbeat, less than the throttle after the save that `saves` has for its agent.
  abbrev pub Quiet : Assoc Time → List Delivery → Type 0
  Quiet saves [] = Unit
  Quiet saves (d ∷ ds) =
      ((is_heartbeat_only d.message ≡ true)
        × Recent svc d.readings.throttled_at d.message.instance_uid saves)
      × Quiet saves ds

  -- However many heartbeats of whatever agents arrive, each less than the throttle after the last save of
  -- its agent, no agent, host, container or time of a save is written.
  pub deliver_all-Unwritten :
      (ds : List Delivery) (st : State C)
      → Quiet st.last_save_at ds
      → Unwritten svc st (deliver_all ds st)
  deliver_all-Unwritten [] st q = unchanged svc st
  deliver_all-Unwritten (d ∷ ds) st (q, rest) =
      let next = (on_message svc d.readings d.server d.conn d.message st).0 in
      let now = on_message-throttled svc d.readings d.server d.conn d.message st q.0 q.1 in
      then-Unwritten svc st next (deliver_all ds next) now
        (deliver_all-Unwritten ds next (rw now.last_save_at rest))
