-- ===== src/Connection.antt =====
-- connection.go: a connection to an agent, and the snapshot of one that other servers see. The maps of
-- the service hold pointers, but a connection is changed only right before it is stored again under
-- its own key, so values serve as well.
pub mod Service
pub mod Reachable
use opampcommander.Base.{
  ℕ, ◌-◌, ◌*◌, ◌^◌, String, Bool, true, false, not, ◌||◌, some, if◌then◌else◌, ◌==◌, nat_eq,
  string_eq,
}
use opampcommander.Agent.Types.{Uuid, uuid_nil, ConnectionType}
use opampcommander.Agent.Health.{Time, sub_lt}
use opampcommander.Agent.Methods.{default_namespace_name}

abbrev pub opamp_polling_interval : ℕ
opamp_polling_interval = 30 * 10 ^ 9

unfoldable pub connection_type_name : ConnectionType → String
connection_type_name ConnectionType.http = "HTTP"
connection_type_name ConnectionType.web_socket = "WebSocket"
connection_type_name ConnectionType.unknown = "Unknown"

unfoldable pub connection_type_from_string : String → ConnectionType
connection_type_from_string s =
    if s == "HTTP"
    then ConnectionType.http
    else if s == "WebSocket"
    then ConnectionType.web_socket
    else ConnectionType.unknown

unfoldable pub is_web_socket : ConnectionType → Bool
is_web_socket ConnectionType.web_socket = true
is_web_socket _ = false

-- The `any` that identifies a connection: a connection of the OpAMP library at an address, with or
-- without a network connection below it, or some other value.
pub data ConnectionId : Type 0 where
  opamp : ℕ → Bool → ConnectionId
  other : ℕ → ConnectionId

pub record Connection : Type 0 where
  pub id : ConnectionId
  pub type : ConnectionType
  pub uid : Uuid
  pub instance_uid : Uuid
  pub namespace : String
  pub last_communicated_at : Time

abbrev zero_time : Time
zero_time = 0

-- `uid` is the fresh UUID.
unfoldable pub new_connection : Uuid → ConnectionId → ConnectionType → Connection
new_connection uid id type = record {
  id = id;
  type = type;
  uid = uid;
  instance_uid = uuid_nil;
  namespace = default_namespace_name;
  last_communicated_at = zero_time;
}

unfoldable pub alive_at : ConnectionType → Time → Time → Bool
unfolding is_web_socket sub_lt
alive_at type last now = is_web_socket type || sub_lt now last (2 * opamp_polling_interval)

unfoldable pub is_alive : Time → Connection → Bool
unfolding alive_at
is_alive now conn = alive_at conn.type conn.last_communicated_at now

unfoldable pub is_anonymous : Connection → Bool
is_anonymous conn = conn.instance_uid == uuid_nil

unfoldable pub is_managed : Connection → Bool
unfolding is_anonymous
is_managed conn = not (is_anonymous conn)

unfoldable pub set_instance_uid : Uuid → Connection → Connection
set_instance_uid uid conn = record conn { instance_uid = uid }

unfoldable pub set_namespace : String → Connection → Connection
set_namespace namespace conn = record conn { namespace = namespace }

pub record ServerConnection : Type 0 where
  pub server_id : String
  pub uid : Uuid
  pub instance_uid : Uuid
  pub type : ConnectionType
  pub namespace : String
  pub last_communicated_at : Time
  pub snapshot_at : Time

unfoldable pub is_alive_snapshot : Time → ServerConnection → Bool
unfolding alive_at
is_alive_snapshot now sc = alive_at sc.type sc.last_communicated_at now
