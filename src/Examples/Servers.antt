-- ===== src/Examples/Servers.antt =====
-- The theorems on the servers at two servers, of which the first leads.
use opampcommander.Base.{
  String, ◌≡◌, refl, sym, ap, ◌∙◌, ◌≢◌, true, none, some, [], ◌∷◌, arith, eq_iff, nat_eq, string_eq,
  resource_not_exist, server_id_already_exists, Result, ok, err,
}
use mathlib.Core.List.{Memᴰ}
use opampcommander.Store.Ops.{new_store}
use opampcommander.Server.{
  Server, Servers, clone_server, put_server, list_servers, is_leader, get_server, register_server,
}
use opampcommander.Server.Leader.{is_leader_unique, is_leader_exists}
use opampcommander.Server.Heartbeat.{Sign, sign_at, register_server-refused}

abbrev server_of : String → Server
server_of id = record { id = id; last_heartbeat_at = 10; conditions = some [] }

abbrev one_server : Servers
one_server = put_server (server_of "a") new_store

listed : list_servers 20 90 one_server ≡ server_of "a" ∷ []
unfolding list_servers put_server new_store clone_server
listed = refl

in_list : Memᴰ (server_of "a") (list_servers 20 90 one_server)
in_list = rw listed (Memᴰ.head refl)

leads : is_leader "a" 20 90 one_server ≡ ok true
unfolding is_leader list_servers put_server new_store clone_server
leads = refl

is_leader_unique_example : (server_of "a").id ≡ (server_of "a").id
is_leader_unique_example =
    is_leader_unique (server_of "a") (server_of "a") 20 90 one_server in_list in_list leads leads

some_alive : list_servers 20 90 one_server ≢ []
some_alive e = absurd (let f : server_of "a" ∷ [] ≡ [] = sym listed ∙ e in cc f)

all_named : (s : Server) → Memᴰ s (list_servers 20 90 one_server) → s.id ≢ ""
all_named s m = named (rw listed at m)
  where
    named : Memᴰ s (server_of "a" ∷ []) → s.id ≢ ""
    named (Memᴰ.head e) h = cc ((eq_iff "a" "").1 (sym (ap (λ (s : Server). s.id) e) ∙ h))
    named (Memᴰ.tail m) h = elim m [ ]

is_leader_exists_example :
    (s : Server) × (Memᴰ s (list_servers 20 90 one_server)
      × (is_leader s.id 20 90 one_server ≡ ok true))
is_leader_exists_example = is_leader_exists 20 90 one_server some_alive all_named

registers : (sign_at (Sign.registration 5 6 90) "a" 5 new_store).1 ≡ none
unfolding register_server new_store
registers = refl

none_yet : (s : Server) → get_server "a" new_store ≡ ok s → s.id ≡ "a"
unfolding get_server new_store
none_yet s e = absurd (let f : ◌≡◌ {A = Result Server} (err resource_not_exist) (ok s) = e in cc f)

register_server-refused_example :
    register_server "a" 60 61 62 90 (sign_at (Sign.registration 5 6 90) "a" 5 new_store).0
    ≡ ((sign_at (Sign.registration 5 6 90) "a" 5 new_store).0, some server_id_already_exists)
register_server-refused_example =
    register_server-refused (Sign.registration 5 6 90) "a" 5 60 61 62 90 new_store none_yet
      registers (omega arith)
