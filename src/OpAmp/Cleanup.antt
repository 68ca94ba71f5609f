-- ===== src/OpAmp/Cleanup.antt =====
-- opamp.go: connections that come and go, and the sweep of the save times. The loop of `Run` takes a
-- closed connection or a tick, one at a time.
use opampcommander.Base.{
  ℕ, ◌+◌, Bool, false, not, ◌&&◌, Option, none, some, [], ◌∷◌, ltb, if◌then◌else◌, nat_eq,
  string_eq, Assoc, remove, Error, Result, ok, err,
}
use opampcommander.Agent.Types.{Uuid, Agent, ConnectionType}
use opampcommander.Agent.Health.{Time}
use opampcommander.AgentService.{get_agent, save_agent, State as AgentsState}
use opampcommander.Connection.{
  Connection, ConnectionId, new_connection, is_anonymous, is_web_socket,
}
use opampcommander.Connection.Service.{get_connection_by_id, save_connection, delete_connection}
use opampcommander.OpAmp.State.{Service, State, effective_last_save_at_ttl}

unfoldable pub kept : Time → ℕ → Assoc Time → Assoc Time
kept now ttl [] = []
kept now ttl ((k, last) ∷ m) =
    let rest = kept now ttl m in if ltb (last + ttl) now then rest else (k, last) ∷ rest

unfoldable pub disconnected : Agent → Agent
disconnected a = record a { status = record a.status { connected = false } }

-- The channel of closed connections, which holds one.
abbrev pub Closed : Type 0
Closed = Option ConnectionId

module _ {C : Type 0} (svc : Service C) where
  -- `uid` is the fresh UUID of the connection.
  unfoldable pub on_connected_with_type : Uuid → ConnectionId → Bool → State C → State C
  unfolding new_connection
  on_connected_with_type uid id web_socket st = record st {
    connections =
        save_connection svc.names
          (new_connection uid id
            (if web_socket then ConnectionType.web_socket else ConnectionType.http))
          st.connections;
  }

  unfoldable pub on_connected : Uuid → ConnectionId → State C → State C
  unfolding on_connected_with_type
  on_connected uid id st = on_connected_with_type uid id false st

  -- A connection is left to itself while another waits.
  unfoldable pub on_connection_close : ConnectionId → Closed → Closed
  on_connection_close id none = some id
  on_connection_close id (some waiting) = some waiting

  -- The comparison of times: `last` is before `now - ttl`.
  unfoldable pub gc_last_save_at : Time → State C → State C
  unfolding kept effective_last_save_at_ttl
  gc_last_save_at now st = record st {
    last_save_at = kept now (effective_last_save_at_ttl svc) st.last_save_at;
  }

  unfoldable pub mark_loaded : Time → AgentsState C × Result Agent → AgentsState C
  unfolding disconnected
  mark_loaded now (agents, err e) = agents
  mark_loaded now (agents, ok a) = (save_agent svc.cache svc.agents now (disconnected a) agents).0

  unfoldable pub mark_agent : Time → Uuid → State C → State C
  unfolding mark_loaded
  mark_agent now uid st = record st {
    agents = mark_loaded now (get_agent svc.cache svc.agents now uid st.agents);
  }

  unfoldable pub clean_up : Time → State C → Connection → State C
  unfolding mark_agent is_anonymous is_web_socket remove
  clean_up now st conn =
      let left = record st { connections = delete_connection svc.names conn st.connections } in
      let marked = mark_agent now conn.instance_uid left in
      if not (is_anonymous conn) && is_web_socket conn.type
      then record marked {
        last_save_at = remove (svc.names.show conn.instance_uid) marked.last_save_at;
      }
      else left

  unfoldable pub clean_up_found : Time → State C → Result Connection → State C × Option Error
  unfolding clean_up
  clean_up_found now st (err e) = (st, some e)
  clean_up_found now st (ok conn) = (clean_up now st conn, none)

  unfoldable pub clean_up_connection : Time → ConnectionId → State C → State C × Option Error
  unfolding clean_up_found
  clean_up_connection now id st =
      clean_up_found now st (get_connection_by_id svc.names id st.connections)

  -- One turn of the loop of `Run`, by what it receives; a closed connection is taken off the channel.
  unfoldable pub loop_closed : Time → State C × Closed → State C × Closed
  unfolding clean_up_connection
  loop_closed now (st, none) = (st, none)
  loop_closed now (st, some id) = ((clean_up_connection now id st).0, none)

  unfoldable pub loop_tick : Time → State C × Closed → State C × Closed
  unfolding gc_last_save_at
  loop_tick now (st, closed) = (gc_last_save_at now st, closed)
