-- ===== src/Server/Events.antt =====
-- service/server.go and serverevent.go: the messages between servers. The transport to other servers
-- and the sending over a connection are parameters. `none` is a panic of the message builder.
pub mod Invalidation
use opampcommander.Base.{
  ℕ, ℤ, pos, negsuc, zero, suc, ◌+◌, ◌-◌, ◌*◌, ◌%◌, ◌^◌, ◌≤◌, ◌<◌, bit_and, bit_or, String, ◌≡◌,
  refl, sym, ap, ◌∙◌, subst, ◌≢◌, ◌↔◌, ◌⊎◌, inl, inr, Bool, true, false, not, ◌&&◌, ◌||◌, Option,
  none, some, List, [], ◌∷◌, ◌++◌, map, arith, eq_iff, ltb, leb, nat_beq, nat_beq_iff,
  if◌then◌else◌, ◌==◌, Eq, nat_eq, string_eq, str_eq_refl, if_both, Bool-cases, Option-cases,
  is_some, GoSlice, Assoc, GoMap, Bytes, elems, length, is_cons, length-append, lookup, insert,
  remove, copy_into, keys, lookup-insert, lookup-remove, string_or_empty, get_string, string_ltb,
  string_ltb-total, string_ltb_trans, string_ltb_irrefl, holds_value, contains_all, Error,
  resource_not_exist, conflict, unsupported_agent_operation, encode_failed, invalid_remote_config,
  duplicate_remote_config_name, invalid_continue_token, agent_connected, connection_not_found,
  connection_not_opamp, server_id_already_exists, server_not_alive, no_current_server_id,
  event_payload_nil, Result, ok, err, ◌>>=◌, >>=-ok,
}
use opampcommander.Base.MapLaws.{
  IsMap, or_else, or_else-none, insert-IsMap, lookup-copy_into, copy_into-IsMap, contains_all_sound,
  contains_all_complete, lookup-tail, lookup-head,
}
use opampcommander.Agent.Types.{Uuid, Agent}
use opampcommander.Agent.Health.{Time}
use opampcommander.AgentService.{get_agent, invalidate_cache, State as AgentsState}
use opampcommander.Connection.{ConnectionId}
use opampcommander.Connection.Service.{send_server_to_agent}
use opampcommander.ServerToAgent.Message.{Message}
use opampcommander.ServerToAgent.Build.{build}
use opampcommander.OpAmp.State.{Service, State}
use opampcommander.Server.{Server, Servers, get_server, is_alive, list_servers}

-- The two types that the program sends, or any other text.
pub data EventType : Type 0 where
  send_server_to_agent_event invalidate_agent_cache_event : EventType
  unknown_event : String → EventType

-- Each part of a payload may be nil; it has the UIDs of agents.
pub record ServerMessage : Type 0 where
  pub source : String
  pub target : String
  pub type : EventType
  pub server_to_agent : Option (GoSlice Uuid)
  pub invalidate_agent_cache : Option (GoSlice Uuid)

unfoldable pub invalidation_for : String → GoSlice Uuid → Server → ServerMessage
invalidation_for source uids target = record {
  source = source;
  target = target.id;
  type = EventType.invalidate_agent_cache_event;
  server_to_agent = none;
  invalidate_agent_cache = some uids;
}

module _ {C : Type 0} (svc : Service C) where
  unfoldable pub invalidate_all : List Uuid → AgentsState C → AgentsState C
  unfolding invalidate_cache
  invalidate_all [] st = st
  invalidate_all (uid ∷ uids) st =
      invalidate_all uids (invalidate_cache svc.cache svc.agents uid st)

  unfoldable pub handle_invalidate_agent_cache_event : ServerMessage → State C → State C
  unfolding invalidate_all
  handle_invalidate_agent_cache_event event st = elim event.invalidate_agent_cache [
    | none ↦ st
    | some uids ↦ record st { agents = invalidate_all (elems uids) st.agents }
  ]

  send_built :
      (ConnectionId → Message → Option Error)
      → Uuid
      → State C
      → Option Message
      → Option (Option Error)
  send_built send uid st none = none
  send_built send uid st (some message) =
      some (send_server_to_agent svc.names send uid message st.connections)

  send_loaded :
      (ConnectionId → Message → Option Error)
      → Uuid
      → State C
      → Result Agent
      → Option (Option Error)
  unfolding send_built
  send_loaded send uid st (err e) = some (some e)
  send_loaded send uid st (ok a) =
      send_built send uid st (build svc.protocol svc.library svc.get_package a)

  -- The state and the error, if any.
  unfoldable pub send_server_to_agent_for_instance :
      (ConnectionId → Message → Option Error)
      → Time
      → Uuid
      → State C
      → State C × Option (Option Error)
  unfolding send_loaded
  send_server_to_agent_for_instance send now uid st =
      let read = get_agent svc.cache svc.agents now uid st.agents in
      let left = record st { agents = read.0 } in (left, send_loaded send uid left read.1)

  -- A failure for one agent does not keep the others from being sent to; a panic does.
  send_each :
      (ConnectionId → Message → Option Error)
      → Time
      → List Uuid
      → State C
      → Option (State C × Option Error)
  unfolding send_server_to_agent_for_instance
  send_each send now [] st = some (st, none)
  send_each send now (uid ∷ uids) st =
      let sent = send_server_to_agent_for_instance send now uid st in
      let rest = send_each send now uids sent.0 in if is_some sent.1 then rest else none

  targets_of :
      (ConnectionId → Message → Option Error)
      → Time
      → State C
      → Option (GoSlice Uuid)
      → Option (State C × Option Error)
  unfolding send_each
  targets_of send now st none = some (st, some event_payload_nil)
  targets_of send now st (some uids) = send_each send now (elems uids) st

  unfoldable pub handle_send_server_to_agent_event :
      (ConnectionId → Message → Option Error)
      → Time
      → ServerMessage
      → State C
      → Option (State C × Option Error)
  unfolding targets_of
  handle_send_server_to_agent_event send now event st = targets_of send now st event.server_to_agent

  handle_typed :
      (ConnectionId → Message → Option Error)
      → Time
      → ServerMessage
      → State C
      → EventType
      → Option (State C × Option Error)
  unfolding handle_send_server_to_agent_event handle_invalidate_agent_cache_event
  handle_typed send now event st EventType.send_server_to_agent_event =
      handle_send_server_to_agent_event send now event st
  handle_typed send now event st EventType.invalidate_agent_cache_event =
      some (handle_invalidate_agent_cache_event event st, none)
  handle_typed send now event st (EventType.unknown_event type) = some (st, none)

  unfoldable pub handle_server_event :
      (ConnectionId → Message → Option Error)
      → Time
      → ServerMessage
      → State C
      → Option (State C × Option Error)
  unfolding handle_typed
  handle_server_event send now event st = handle_typed send now event st event.type

  -- `post` hands a message to the transport. A message to the current server is handled at once.
  unfoldable pub send_message_to_server :
      (ConnectionId → Message → Option Error)
      → (String → ServerMessage → Option Error)
      → String
      → Time
      → ℕ
      → Server
      → ServerMessage
      → State C
      → Option (State C × Option Error)
  unfolding handle_server_event is_alive
  send_message_to_server send post current_id now timeout server message st =
      let handled = handle_server_event send now message st in
      if not (is_alive now timeout server)
      then some (st, some server_not_alive)
      else if server.id == current_id
      then handled
      else some (st, post server.id message)

  found_server :
      (ConnectionId → Message → Option Error)
      → (String → ServerMessage → Option Error)
      → String
      → Time
      → ℕ
      → ServerMessage
      → State C
      → Result Server
      → Option (State C × Option Error)
  unfolding send_message_to_server
  found_server send post current_id now timeout message st (err e) = some (st, some e)
  found_server send post current_id now timeout message st (ok server) =
      send_message_to_server send post current_id now timeout server message st

  unfoldable pub send_message_to_server_by_server_id :
      (ConnectionId → Message → Option Error)
      → (String → ServerMessage → Option Error)
      → String
      → Time
      → ℕ
      → String
      → ServerMessage
      → Servers
      → State C
      → Option (State C × Option Error)
  unfolding found_server get_server
  send_message_to_server_by_server_id send post current_id now timeout id message servers st =
      found_server send post current_id now timeout message st (get_server id servers)

-- The messages that go to the transport: the other servers that are alive at the second reading of the
-- clock, too.
unfoldable pub posted : String → Time → ℕ → GoSlice Uuid → List Server → List ServerMessage
unfolding invalidation_for is_alive
posted current_id now timeout uids [] = []
posted current_id now timeout uids (s ∷ ss) =
    let rest = posted current_id now timeout uids ss in
    if s.id == current_id
    then rest
    else if not (is_alive now timeout s)
    then rest
    else invalidation_for current_id uids s ∷ rest

unfoldable pub broadcast_agent_cache_invalidation :
    String → Time → Time → ℕ → GoSlice Uuid → Servers → List ServerMessage
unfolding posted list_servers
broadcast_agent_cache_invalidation current_id listed_at now timeout uids servers =
    if is_cons (elems uids)
    then posted current_id now timeout uids (list_servers listed_at timeout servers)
    else []
