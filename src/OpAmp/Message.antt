-- ===== src/OpAmp/Message.antt =====
-- opamp.go: the handling of a message. `none` for a response is a panic of the builder.
use opampcommander.Base.{
  String, Bool, true, not, ◌&&◌, Option, none, some, if◌then◌else◌, ◌==◌, nat_eq, string_eq,
  is_some, Assoc, lookup, insert, Error, Result, ok, err,
}
use opampcommander.Agent.Types.{Uuid, Agent, ConnectionType}
use opampcommander.Agent.Health.{Time, sub_lt}
use opampcommander.Agent.Reports.{update_last_communication_info}
use opampcommander.AgentService.{get_or_create_agent, save_agent, State as AgentsState}
use opampcommander.Connection.{Connection, ConnectionId, set_instance_uid, set_namespace}
use opampcommander.Connection.Service.{Connections, get_connection_by_id, save_connection}
use opampcommander.Discovery.Observing.{observe_agent, host_observer, container_observer}
use opampcommander.ServerToAgent.Message.{Message}
use opampcommander.ServerToAgent.Build.{build}
use opampcommander.OpAmp.Proto.{AgentToServer}
use opampcommander.OpAmp.State.{Service, State, Readings, Response, ErrorType}
use opampcommander.OpAmp.Conflict.{handle_instance_uid_conflict}
use opampcommander.OpAmp.Report.{report_and_reconcile_groups}

unfoldable pub is_heartbeat_only : AgentToServer → Bool
is_heartbeat_only m =
    not (is_some m.agent_description)
    && not (is_some m.health)
    && not (is_some m.effective_config)
    && not (is_some m.remote_config_status)
    && not (is_some m.connection_settings_status)
    && not (is_some m.package_statuses)
    && not (is_some m.custom_capabilities)
    && not m.has_custom_message
    && not (is_some m.available_components)
    && not m.has_agent_disconnect
    && not m.has_connection_settings_request
    && m.flags == 0

unfoldable pub connection_type_of : Option Connection → Option ConnectionType
connection_type_of none = none
connection_type_of (some conn) = some conn.type

module _ {C : Type 0} (svc : Service C) where
  unfoldable pub create_error_server_to_agent : Uuid → ErrorType → Error → Response
  create_error_server_to_agent uid type e = Response.failure uid type e

  unfoldable pub responded : Option Message → Option Response
  responded none = none
  responded (some m) = some (Response.desired m)

  unfoldable pub fetch_server_to_agent : Agent → Option Response
  unfolding responded
  fetch_server_to_agent a = responded (build svc.protocol svc.library svc.get_package a)

  unfoldable pub inject : Uuid → Connections → Result Connection → Connections × Option Connection
  inject uid m (err e) = (m, none)
  inject uid m (ok conn) = if conn.instance_uid == uid then (m, some conn) else (
    save_connection svc.names (set_instance_uid uid conn) m,
    some (set_instance_uid uid conn),
  )

  unfoldable pub inject_instance_uid_to_connection :
      ConnectionId → Uuid → Connections → Connections × Option Connection
  unfolding inject
  inject_instance_uid_to_connection id uid m = inject uid m (get_connection_by_id svc.names id m)

  unfoldable pub sync_connection_namespace : Option Connection → Agent → Connections → Connections
  sync_connection_namespace none a m = m
  sync_connection_namespace (some conn) a m =
      if conn.namespace == a.metadata.namespace
      then m
      else save_connection svc.names (set_namespace a.metadata.namespace conn) m

  unfoldable pub elapsed : Time → Option Time → Bool
  unfolding sub_lt
  elapsed now none = true
  elapsed now (some last) = not (sub_lt now last svc.heartbeat_save_throttle)

  unfoldable pub should_persist_agent : Time → Uuid → AgentToServer → Assoc Time → Bool
  unfolding is_heartbeat_only elapsed lookup
  should_persist_agent now uid m last_save_at =
      if not (is_heartbeat_only m)
      then true
      else elapsed now (lookup (svc.names.show uid) last_save_at)

  -- No other server writes in between; a failure of either discovery is logged.
  unfoldable pub observe_environment : Time → Agent → State C → State C
  observe_environment now a st = record st {
    hosts = (observe_agent host_observer (λ n s. s) a now st.hosts).0;
    containers = (observe_agent container_observer (λ n s. s) a now st.containers).0;
  }

  -- The saved agent is the caller's, with its new version.
  unfoldable pub persisted :
      Readings → Uuid → State C → AgentsState C × (Agent × Option Error) → State C × Agent
  unfolding observe_environment insert
  persisted t uid st (agents, (a, some e)) = (record st { agents = agents }, a)
  persisted t uid st (agents, (a, none)) = (
    observe_environment t.observed_at a (record st {
      agents = agents;
      last_save_at = insert (svc.names.show uid) t.received_at st.last_save_at;
    }),
    a,
  )

  unfoldable pub maybe_persist_agent :
      Readings → Uuid → AgentToServer → Agent → State C → State C × Agent
  unfolding persisted should_persist_agent
  maybe_persist_agent t uid m a st =
      if not (should_persist_agent t.throttled_at uid m st.last_save_at)
      then (st, a)
      else persisted t uid st (save_agent svc.cache svc.agents t.throttled_at a st.agents)

  unfoldable pub answer : State C × Agent → State C × Option Response
  unfolding fetch_server_to_agent
  answer (st, a) = (st, fetch_server_to_agent a)

  unfoldable pub absorb :
      Readings → AgentToServer → State C → Result Agent → State C × Option Response
  unfolding answer create_error_server_to_agent maybe_persist_agent
  absorb t m st (err e) =
      (st, some (create_error_server_to_agent m.instance_uid ErrorType.bad_request e))
  absorb t m st (ok a) = answer (maybe_persist_agent t m.instance_uid m a st)

  -- `server` is the ID of the current server, if it could be read.
  unfoldable pub process :
      Readings
      → Option String
      → AgentToServer
      → Option Connection
      → State C
      → Result Agent
      → State C × Option Response
  unfolding absorb create_error_server_to_agent sync_connection_namespace
      report_and_reconcile_groups connection_type_of
  process t server m conn st (err e) =
      (st, some (create_error_server_to_agent m.instance_uid ErrorType.unavailable e))
  process t server m conn st (ok a) =
      absorb t m (record st { connections = sync_connection_namespace conn a st.connections })
        (report_and_reconcile_groups svc server t.reported_at m
          (update_last_communication_info t.received_at (connection_type_of conn) a))

  unfoldable pub handle_message :
      Readings → Option String → ConnectionId → AgentToServer → State C → State C × Option Response
  unfolding process inject_instance_uid_to_connection
  handle_message t server id m st =
      let injected = inject_instance_uid_to_connection id m.instance_uid st.connections in
      let loaded =
        get_or_create_agent svc.cache svc.agents t.loaded_at t.created_at m.instance_uid
          st.agents in
      process t server m injected.1 (record st { agents = loaded.0; connections = injected.0 })
        loaded.1

  unfoldable pub unless_redirected :
      Readings
      → Option String
      → ConnectionId
      → AgentToServer
      → State C × Option Response
      → State C × Option Response
  unfolding handle_message
  unless_redirected t server id m (st, some response) = (st, some response)
  unless_redirected t server id m (st, none) = handle_message t server id m st

  unfoldable pub on_message :
      Readings → Option String → ConnectionId → AgentToServer → State C → State C × Option Response
  unfolding unless_redirected handle_instance_uid_conflict
  on_message t server id m st =
      unless_redirected t server id m (handle_instance_uid_conflict svc t id m st)
