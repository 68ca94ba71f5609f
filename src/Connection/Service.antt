-- ===== src/Connection/Service.antt =====
-- service/connection.go: the live connections of this server, in a map with an index by instance UID.
-- The text of a connection's key and of a UUID are parameters.
use opampcommander.Base.{
  String, true, false, Option, none, some, List, [], ◌∷◌, if◌then◌else◌, ◌==◌, nat_eq, string_eq,
  Assoc, Error, connection_not_found, connection_not_opamp, Result, ok, err,
}
use opampcommander.Agent.Types.{Uuid, uuid_nil, ConnectionType}
use opampcommander.Agent.Health.{Time}
use opampcommander.MultiMap.{MultiMap, store, load, load_by_index, delete, create_index_key}
use opampcommander.Connection.{Connection, ConnectionId, new_connection, ServerConnection}

abbrev pub idx_instance_uid : String
idx_instance_uid = "instanceUID"

-- ConvertConnIDToString, the text of a UUID, and whether `sendTo` reaches an OpAMP connection.
pub record Names : Type 0 where
  pub key_of : ConnectionId → String
  pub show : Uuid → String

abbrev pub Connections : Type 0
Connections = MultiMap Connection

unfoldable pub detect_connection_type : ConnectionId → ConnectionType
detect_connection_type (ConnectionId.other n) = ConnectionType.unknown
detect_connection_type (ConnectionId.opamp n true) = ConnectionType.web_socket
detect_connection_type (ConnectionId.opamp n false) = ConnectionType.http

unfoldable pub found_connection : Option Connection → Result Connection
found_connection none = err connection_not_found
found_connection (some conn) = ok conn

module _ (names : Names) where
  unfoldable pub delete_connection : Connection → Connections → Connections
  delete_connection conn m = delete (names.key_of conn.id) m

  unfoldable pub get_connection_by_id : ConnectionId → Connections → Result Connection
  unfolding found_connection
  get_connection_by_id id m = found_connection (load (names.key_of id) m)

  loaded_or_new : Uuid → ConnectionId → Option Connection → Connection
  unfolding new_connection
  loaded_or_new uid id (some conn) = conn
  loaded_or_new uid id none = new_connection uid id (detect_connection_type id)

  -- The new connection is not stored.
  unfoldable pub get_or_create_connection_by_id : Uuid → ConnectionId → Connections → Connection
  unfolding loaded_or_new
  get_or_create_connection_by_id uid id m = loaded_or_new uid id (load (names.key_of id) m)

  unfoldable pub get_connection_by_instance_uid : Uuid → Connections → Result Connection
  unfolding found_connection
  get_connection_by_instance_uid uid m =
      found_connection (load_by_index idx_instance_uid (names.show uid) m)

  unfoldable pub indexes_of_connection : Connection → List String
  indexes_of_connection conn =
      if conn.instance_uid == uuid_nil
      then []
      else create_index_key idx_instance_uid (names.show conn.instance_uid) ∷ []

  unfoldable pub save_connection : Connection → Connections → Connections
  unfolding indexes_of_connection
  save_connection conn m = store (names.key_of conn.id) conn (indexes_of_connection conn) m

  -- `send` is the library's: the message goes to a connection, or fails.
  unfoldable pub send_to :
      {M : Type 0} → (ConnectionId → M → Option Error) → Uuid → M → Result Connection → Option Error
  send_to send uid message (err e) = some e
  send_to send uid message (ok conn) = send_over conn.id
    where
      send_over : ConnectionId → Option Error
      send_over (ConnectionId.other n) = some connection_not_opamp
      send_over (ConnectionId.opamp n net) = send (ConnectionId.opamp n net) message

  unfoldable pub send_server_to_agent :
      {M : Type 0} → (ConnectionId → M → Option Error) → Uuid → M → Connections → Option Error
  unfolding send_to get_connection_by_instance_uid
  send_server_to_agent send uid message m =
      send_to send uid message (get_connection_by_instance_uid uid m)

snapshot_of : String → Time → Connection → ServerConnection
snapshot_of server_id now conn = record {
  server_id = server_id;
  uid = conn.uid;
  instance_uid = conn.instance_uid;
  type = conn.type;
  namespace = conn.namespace;
  last_communicated_at = conn.last_communicated_at;
  snapshot_at = now;
}

records_of : String → Time → Assoc Connection → List ServerConnection
unfolding snapshot_of
records_of server_id now [] = []
records_of server_id now ((k, conn) ∷ m) =
    snapshot_of server_id now conn ∷ records_of server_id now m

-- What replaces the server's records: nothing happens without an identity.
unfoldable pub snapshot_connections : String → Time → Connections → Option (List ServerConnection)
unfolding records_of
snapshot_connections server_id now m =
    if server_id == "" then none else some (records_of server_id now m.by_id)

unfoldable pub clear_snapshot_on_shutdown : String → Option (List ServerConnection)
clear_snapshot_on_shutdown server_id = if server_id == "" then none else some []
