-- ===== src/OpAmp/Conflict.antt =====
-- instanceuid_conflict.go: a message that claims the instance UID of another agent.
use opampcommander.Base.{
  String, Bool, true, false, not, ◌&&◌, ◌||◌, Option, none, some, nat_beq, if◌then◌else◌, ◌==◌,
  nat_eq, string_eq, Assoc, elems, length, is_cons, lookup, contains_all, Result, ok, err,
}
use opampcommander.Agent.Types.{Uuid, uuid_nil, Agent}
use opampcommander.Agent.Health.{Time}
use opampcommander.Agent.Conditions.{record_instance_uid_conflict as with_conflict}
use opampcommander.AgentService.{get_agent, save_agent}
use opampcommander.Connection.{Connection, ConnectionId, is_alive}
use opampcommander.Connection.Service.{
  Connections, get_connection_by_id, get_connection_by_instance_uid,
}
use opampcommander.OpAmp.Proto.{AgentToServer, AgentDescription}
use opampcommander.OpAmp.ToDomain.{to_map}
use opampcommander.OpAmp.State.{Service, State, Readings, Response}

abbrev conflict_reason_identifying_attrs : String
conflict_reason_identifying_attrs = "stored_agent_has_different_identifying_attributes"

abbrev conflict_reason_live_and_identifying : String
conflict_reason_live_and_identifying = "live_connection_and_identifying_attributes_mismatch"

abbrev conflict_triggered_by : String
conflict_triggered_by = "system:opamp"

abbrev pub service_instance_id_attribute : String
service_instance_id_attribute = "service.instance.id"

pub record InstanceUidConflict : Type 0 where
  pub reason : String
  pub existing_agent : Agent

-- maps.Equal on maps of strings.
unfoldable pub map_equal : Assoc String → Assoc String → Bool
unfolding contains_all
map_equal a b = nat_beq (length a) (length b) && contains_all b a

unfoldable pub ids_differ : Option String → Option String → Assoc String → Assoc String → Bool
unfolding map_equal
ids_differ (some i) (some j) incoming stored = not (i == j)
ids_differ _ _ incoming stored = not (map_equal incoming stored)

-- The attributes of the message and of the stored agent name different agents.
unfoldable pub attributes_differ : Assoc String → Assoc String → Bool
unfolding ids_differ lookup
attributes_differ incoming stored =
    if not (is_cons incoming) || not (is_cons stored)
    then false
    else ids_differ (lookup service_instance_id_attribute incoming)
        (lookup service_instance_id_attribute stored) incoming stored

other_current : Connection → Result Connection → Bool
other_current existing (err e) = true
other_current existing (ok current) = not (existing.uid == current.uid)

other_live : Time → Result Connection → Result Connection → Bool
unfolding is_alive other_current
other_live now (err e) current = false
other_live now (ok existing) current =
    if not (is_alive now existing) then false else other_current existing current

module _ {C : Type 0} (svc : Service C) where
  unfoldable pub has_live_connection_conflict : Time → ConnectionId → Uuid → Connections → Bool
  unfolding other_live
  has_live_connection_conflict now conn uid m =
      other_live now (get_connection_by_instance_uid svc.names uid m)
        (get_connection_by_id svc.names conn m)

  unfoldable pub described : Agent → Option AgentDescription → Bool
  unfolding attributes_differ
  described existing none = false
  described existing (some desc) =
      attributes_differ (to_map svc.formats desc.identifying_attributes)
        (elems existing.metadata.description.identifying_attributes)

  -- The stored agent, where its identifying attributes differ from those of the message.
  unfoldable pub conflicting : AgentToServer → Result Agent → Option Agent
  unfolding described
  conflicting message (err e) = none
  conflicting message (ok existing) =
      if described existing message.agent_description then some existing else none

  unfoldable pub conflict_with : Bool → Agent → InstanceUidConflict
  conflict_with live existing = record {
    reason =
        if live then conflict_reason_live_and_identifying else conflict_reason_identifying_attrs;
    existing_agent = existing;
  }

  unfoldable pub detected : Bool → Option Agent → Option InstanceUidConflict
  unfolding conflict_with
  detected live none = none
  detected live (some existing) = some (conflict_with live existing)

  unfoldable pub detect_instance_uid_conflict :
      Readings → ConnectionId → AgentToServer → State C → State C × Option InstanceUidConflict
  unfolding detected conflicting
  detect_instance_uid_conflict t conn message st =
      let uid = message.instance_uid in
      let read = get_agent svc.cache svc.agents t.checked_at uid st.agents in
      if uid == uuid_nil then (st, none) else (
        record st { agents = read.0 },
        detected (has_live_connection_conflict t.conflict_at conn uid st.connections)
            (conflicting message read.1),
      )

  -- A failure of the save is logged.
  unfoldable pub record_instance_uid_conflict :
      Readings → InstanceUidConflict → Uuid → State C → State C
  record_instance_uid_conflict t found old st =
      let audited =
        with_conflict svc.names.show t.recorded_at old t.fresh_uid found.reason
          conflict_triggered_by found.existing_agent in
      record st { agents = (save_agent svc.cache svc.agents t.recorded_at audited st.agents).0 }

  unfoldable pub create_renewal_server_to_agent : Uuid → Uuid → Response
  create_renewal_server_to_agent old new = Response.renewal old new

  unfoldable pub redirect :
      Readings → Uuid → State C × Option InstanceUidConflict → State C × Option Response
  unfolding record_instance_uid_conflict create_renewal_server_to_agent
  redirect t uid (st, none) = (st, none)
  redirect t uid (st, some found) = (
    record_instance_uid_conflict t found uid st,
    some (create_renewal_server_to_agent uid t.fresh_uid),
  )

  unfoldable pub handle_instance_uid_conflict :
      Readings → ConnectionId → AgentToServer → State C → State C × Option Response
  unfolding redirect detect_instance_uid_conflict
  handle_instance_uid_conflict t conn message st =
      redirect t message.instance_uid (detect_instance_uid_conflict t conn message st)
