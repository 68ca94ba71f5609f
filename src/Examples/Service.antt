-- ===== src/Examples/Service.antt =====
-- The theorems on the OpAMP service and the connections, for a server with two connections.
use opampcommander.Base.{
  ℕ, pos, ◌*◌, ◌^◌, String, ◌≡◌, refl, sym, ◌∙◌, ◌≢◌, true, false, Option, none, some, List, [],
  ◌∷◌, arith, eq_iff, if◌then◌else◌, ◌==◌, nat_eq, string_eq, lookup, Error, connection_not_found,
  ok, err,
}
use opampcommander.Agent.Types.{uuid_nil, ConnectionType, Agent}
use opampcommander.Store.Ops.{new_store}
use opampcommander.Store.Agents.{new_agent_repository, put_agent}
use opampcommander.AgentService.Coherence.{Coherent}
use opampcommander.MultiMap.{new_multi_map}
use opampcommander.Connection.{Connection, ConnectionId, new_connection, is_alive, is_web_socket}
use opampcommander.Connection.Service.{
  Names, save_connection, delete_connection, get_connection_by_id, get_connection_by_instance_uid,
  send_server_to_agent,
}
use opampcommander.Connection.Reachable.{
  delete_connection-reconnected, is_alive-changed, Change, changed,
}
use opampcommander.OpAmp.Proto.{AgentToServer, AgentDescription, AnyValue}
use opampcommander.OpAmp.ToDomain.{Formats}
use opampcommander.OpAmp.State.{Service, State, Readings, default_heartbeat_save_throttle}
use opampcommander.OpAmp.Message.{is_heartbeat_only}
use opampcommander.OpAmp.Throttle.{Delivery, deliver_all, deliver_all-Unwritten, Unwritten, Quiet}
use opampcommander.Server.{Server}
use opampcommander.Server.Events.{handle_server_event, invalidation_for}
use opampcommander.Server.Events.Invalidation.{handle_server_event-Coherent, written_elsewhere}
use opampcommander.Examples.{ports, hash, groups, linux_agent, protocol, library, get_package}
use opampcommander.Examples.Caching.{Entries, entries_cache, service, nothing_held}

abbrev key_of : ConnectionId → String
key_of (ConnectionId.opamp n net) = if n == 1 then "first" else "second"
key_of (ConnectionId.other n) = "other"

abbrev names : Names
names = record { key_of = key_of; show = λ uid. if uid == 7 then "seven" else "another" }

abbrev formats : Formats
formats = record { format_int = λ n. "int"; format_float = λ n. "float"; base64 = λ b. "bytes" }

abbrev pub server_service : Service Entries
server_service = record {
  names = names;
  formats = formats;
  cache = entries_cache;
  agents = service;
  hash = hash;
  ports = ports;
  groups = groups;
  protocol = protocol;
  library = library;
  get_package = get_package;
  heartbeat_save_throttle = default_heartbeat_save_throttle;
  last_save_at_ttl = pos 0;
  last_save_at_gc_interval = pos 0;
}

abbrev pub started : State Entries
started = record {
  agents = record { cache = []; store = new_agent_repository };
  connections = new_multi_map;
  last_save_at = ("seven", 100) ∷ [];
  hosts = new_store;
  containers = new_store;
}

abbrev pub readings : Readings
readings = record {
  checked_at = 101;
  conflict_at = 102;
  recorded_at = 102;
  loaded_at = 103;
  created_at = 104;
  received_at = 105;
  reported_at = 106;
  throttled_at = 107;
  observed_at = 108;
  fresh_uid = 99;
}

abbrev pub heartbeat_of_7 : AgentToServer
heartbeat_of_7 = record {
  instance_uid = 7;
  sequence_num = 3;
  agent_description = none;
  capabilities = 1;
  health = none;
  effective_config = none;
  remote_config_status = none;
  connection_settings_status = none;
  package_statuses = none;
  custom_capabilities = none;
  available_components = none;
  flags = 0;
  has_custom_message = false;
  has_agent_disconnect = false;
  has_connection_settings_request = false;
}

abbrev pub description_of_7 : AgentDescription
description_of_7 = record {
  identifying_attributes =
      record { key = "service.name"; value = some (AnyValue.string_value "collector") } ∷ [];
  non_identifying_attributes = [];
}

abbrev pub report_of_7 : AgentToServer
report_of_7 = record heartbeat_of_7 { agent_description = some description_of_7 }

unfoldable pub first_id : ConnectionId
first_id = ConnectionId.opamp 1 true

pub started-Coherent : Coherent entries_cache service started.agents
started-Coherent q j v e =
    absurd (let e' : ◌≡◌ {A = Option Agent} none (some v) = sym (nothing_held j) ∙ e in cc e')

abbrev deliveries : List Delivery
deliveries =
    record { readings = readings; server = none; conn = first_id; message = heartbeat_of_7 }
    ∷ record { readings = readings; server = none; conn = first_id; message = heartbeat_of_7 }
    ∷ []

heartbeats-Quiet : Quiet server_service started.last_save_at deliveries
unfolding is_heartbeat_only lookup
heartbeats-Quiet = ((refl, (100, (refl, omega arith))), ((refl, (100, (refl, omega arith))), tt))

deliver_all-Unwritten_example :
    Unwritten server_service started (deliver_all server_service deliveries started)
deliver_all-Unwritten_example =
    deliver_all-Unwritten server_service deliveries started heartbeats-Quiet

abbrev connection_of : ℕ → Connection
unfolding new_connection
connection_of n = record (new_connection n (ConnectionId.opamp n true) ConnectionType.web_socket) {
  instance_uid = 7;
}

apart : key_of (ConnectionId.opamp 1 true) ≢ key_of (ConnectionId.opamp 2 true)
apart h = cc ((eq_iff "first" "second").1 h)

sent_always : ConnectionId → ℕ → Option Error
sent_always id message = none

not_nil : 7 ≢ uuid_nil
not_nil h = omega (arith, h)

delete_connection-reconnected_example :
    let left = delete_connection names (connection_of 1) (
      save_connection names
        (connection_of 2)
        (save_connection names (connection_of 1) new_multi_map)) in
    (get_connection_by_id names (ConnectionId.opamp 2 true) left ≡ ok (connection_of 2))
    × ((get_connection_by_instance_uid names 7 left ≡ err connection_not_found)
        × (send_server_to_agent names sent_always 7 0 left ≡ some connection_not_found))
unfolding connection_of
delete_connection-reconnected_example =
    delete_connection-reconnected names (connection_of 1) (connection_of 2) new_multi_map
      sent_always 0 apart not_nil refl

http_polls : is_web_socket ConnectionType.http ≡ false
unfolding is_web_socket
http_polls = refl

is_alive-changed_example :
    is_alive
      (61 * 10 ^ 9)
      (changed (Change.instance_uid_of 7 ∷ []) (new_connection 5 first_id ConnectionType.http))
    ≡ false
is_alive-changed_example =
    is_alive-changed (Change.instance_uid_of 7 ∷ []) 5 first_id ConnectionType.http (61 * 10 ^ 9)
      http_polls (omega arith)

abbrev peer : Server
peer = record { id = "b"; last_heartbeat_at = 5; conditions = none }

handle_server_event-Coherent_example :
    (after : State Entries) × ((handle_server_event server_service
          (λ id m. none)
          9
          (invalidation_for "a" (some (linux_agent.metadata.instance_uid ∷ [])) peer)
          (written_elsewhere server_service linux_agent started)
        ≡ some (after, none))
      × (Coherent entries_cache service after.agents
          × (after.agents.store ≡ (put_agent linux_agent new_agent_repository).0)))
handle_server_event-Coherent_example =
    handle_server_event-Coherent server_service (λ id m. none) 9 "a" peer linux_agent started
      started-Coherent
