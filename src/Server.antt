-- ===== src/Server.antt =====
-- server.go and serveridentity.go: the servers, their heartbeats and which of them leads. The
-- repository of servers is the in-memory one.
pub mod Leader
pub mod Heartbeat
pub mod Events
use opampcommander.Base.{
  ℕ, ◌-◌, ◌*◌, ◌^◌, String, Bool, true, false, Option, none, some, List, [], ◌∷◌, if◌then◌else◌,
  ◌==◌, nat_eq, string_eq, GoSlice, elems, string_ltb, Error, resource_not_exist,
  server_id_already_exists, no_current_server_id, Result, ok, err,
}
use opampcommander.Agent.Types.{Condition, condition_status_true}
use opampcommander.Agent.Health.{Time, sub_lt}
use opampcommander.Agent.Conditions.{find}
use opampcommander.Group.Types.{condition_type_created}
use opampcommander.Store.Ops.{Store, Kind, get, put, snapshot}

pub record Server : Type 0 where
  pub id : String
  pub last_heartbeat_at : Time
  pub conditions : GoSlice Condition

abbrev pub default_heartbeat_timeout : ℕ
default_heartbeat_timeout = 90 * 10 ^ 9

abbrev condition_type_alive : String
condition_type_alive = "Alive"

-- The copy of the conditions is made even of a nil slice.
unfoldable pub clone_server : Server → Server
clone_server s = record s { conditions = some (elems s.conditions) }

unfoldable pub is_alive : Time → ℕ → Server → Bool
unfolding sub_lt
is_alive now timeout s = sub_lt now s.last_heartbeat_at timeout

written : String → Time → String → String → Condition → Condition
written status now reason message c = if c.status == status then c else record c {
  status = status;
  last_transition_time = now;
  reason = reason;
  message = message;
}

unfoldable pub set_in : String → String → Time → String → String → List Condition → List Condition
unfolding written
set_in type status now reason message [] =
    record {
      type = type;
      last_transition_time = now;
      status = status;
      reason = reason;
      message = message;
    }
    ∷ []
set_in type status now reason message (c ∷ cs) =
    if c.type == type
    then written status now reason message c ∷ cs
    else c ∷ set_in type status now reason message cs

unfoldable pub set_condition : String → String → Time → String → String → Server → Server
unfolding set_in
set_condition type status now reason message s = record s {
  conditions = some (set_in type status now reason message (elems s.conditions));
}

unfoldable pub get_condition : String → Server → Option Condition
unfolding find
get_condition type s = find type (elems s.conditions)

is_true : Option Condition → Bool
is_true none = false
is_true (some c) = c.status == condition_status_true

unfoldable pub is_condition_true : String → Server → Bool
unfolding is_true get_condition
is_condition_true type s = is_true (get_condition type s)

unfoldable pub mark_registered : Time → String → Server → Server
unfolding set_condition
mark_registered now reason s =
    set_condition condition_type_created condition_status_true now reason "Server registered" s

transition_of : Option Condition → Option Time
transition_of none = none
transition_of (some c) = some c.last_transition_time

reason_of : Option Condition → String
reason_of none = ""
reason_of (some c) = c.reason

unfoldable pub get_registered_at : Server → Option Time
unfolding transition_of get_condition
get_registered_at s = transition_of (get_condition condition_type_created s)

unfoldable pub get_registered_by : Server → String
unfolding reason_of get_condition
get_registered_by s = reason_of (get_condition condition_type_created s)

abbrev pub Servers : Type 0
Servers = Store String Server

abbrev pub server_kind : Kind Server
server_kind = record { clone = clone_server; deleted_at = none }

unfoldable pub get_server : String → Servers → Result Server
unfolding get
get_server id servers = get server_kind servers id false

unfoldable pub put_server : Server → Servers → Servers
unfolding put
put_server s servers = put server_kind s.id s servers

unfoldable pub stored_servers : Servers → List Server
unfolding snapshot
stored_servers servers = snapshot server_kind false (λ s. true) servers

-- The servers whose heartbeat is recent enough.
unfoldable pub alive_of : Time → ℕ → List Server → List Server
unfolding is_alive
alive_of now timeout [] = []
alive_of now timeout (s ∷ ss) =
    let rest = alive_of now timeout ss in if is_alive now timeout s then s ∷ rest else rest

unfoldable pub list_servers : Time → ℕ → Servers → List Server
unfolding alive_of stored_servers
list_servers now timeout servers = alive_of now timeout (stored_servers servers)

unfoldable pub none_below : String → List Server → Bool
unfolding string_ltb
none_below id [] = true
none_below id (s ∷ ss) = if string_ltb s.id id then false else none_below id ss

unfoldable pub is_leader : String → Time → ℕ → Servers → Result Bool
unfolding none_below list_servers
is_leader current_id now timeout servers =
    if current_id == ""
    then err no_current_server_id
    else ok (none_below current_id (list_servers now timeout servers))

-- The conditions of a server that was known are kept; `marked_at` are the times of the conditions.
registered : String → Time → Time → Time → Option Server → Server
unfolding mark_registered
registered id now marked_at alive_at (some existing) = record {
  id = id;
  last_heartbeat_at = now;
  conditions = existing.conditions;
}
registered id now marked_at alive_at none =
    mark_registered marked_at "system"
      (record { id = id; last_heartbeat_at = now; conditions = some [] })

marked_alive : Time → Server → Server
unfolding set_condition
marked_alive now s =
    set_condition condition_type_alive condition_status_true now "heartbeat" "Server is alive" s

register_found : String → Time → Time → Time → ℕ → Servers → Result Server → Servers × Option Error
unfolding registered marked_alive put_server is_alive
register_found id now marked_at alive_at timeout servers (err resource_not_exist) =
    (put_server (marked_alive alive_at (registered id now marked_at alive_at none)) servers, none)
register_found id now marked_at alive_at timeout servers (err e) = (servers, some e)
register_found id now marked_at alive_at timeout servers (ok existing) =
    if is_alive now timeout existing then (servers, some server_id_already_exists) else (
      put_server (marked_alive alive_at (registered id now marked_at alive_at (some existing)))
          servers,
      none,
    )

unfoldable pub register_server : String → Time → Time → Time → ℕ → Servers → Servers × Option Error
unfolding register_found get_server
register_server id now marked_at alive_at timeout servers =
    register_found id now marked_at alive_at timeout servers (get_server id servers)

beat : Time → Servers → Result Server → Servers × Option Error
unfolding put_server
beat now servers (err e) = (servers, some e)
beat now servers (ok s) = (put_server (record s { last_heartbeat_at = now }) servers, none)

unfoldable pub send_heartbeat : String → Time → Servers → Servers × Option Error
unfolding beat get_server
send_heartbeat id now servers = beat now servers (get_server id servers)
