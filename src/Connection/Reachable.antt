-- ===== src/Connection/Reachable.antt =====
-- service/connection.go: which connections are found, and by what.
use opampcommander.Base.{
  ◌*◌, ◌≤◌, String, ◌≡◌, refl, ap, ◌∙◌, ◌≢◌, inl, inr, false, Option, some, List, [], ◌∷◌, arith,
  nat_beq_iff, ◌==◌, nat_eq, string_eq, str_eq_refl, Bool-cases, lookup-insert, Error,
  connection_not_found, ok, err,
}
use opampcommander.Agent.Types.{Uuid, uuid_nil, ConnectionType}
use opampcommander.Agent.Health.{Time, sub_lt}
use opampcommander.MultiMap.{
  store, load, load_by_index, load_key, key_by_index, create_index_key, add_index_key,
  add_index_keys,
}
use opampcommander.MultiMap.Calls.{load_by_index-delete}
use opampcommander.Connection.{
  Connection, ConnectionId, new_connection, set_instance_uid, set_namespace, is_alive, alive_at,
  is_web_socket, opamp_polling_interval,
}
use opampcommander.Connection.Service.{
  Names, Connections, idx_instance_uid, save_connection, delete_connection, get_connection_by_id,
  get_connection_by_instance_uid, indexes_of_connection, found_connection, send_server_to_agent,
  send_to,
}

module _ (names : Names) where
  indexes-managed :
      (conn : Connection)
      → conn.instance_uid ≢ uuid_nil
      → indexes_of_connection names conn
        ≡ create_index_key idx_instance_uid (names.show conn.instance_uid) ∷ []
  unfolding indexes_of_connection
  indexes-managed conn h = elim (Bool-cases (conn.instance_uid == uuid_nil)) [
    | inl q ↦ absurd (h ((nat_beq_iff _ _).0 q))
    | inr q ↦ rw q refl
  ]

  -- A connection that was saved with the UID of an agent is found by its own key and by that UID.
  pub get_connection-save_connection :
      (conn : Connection) (m : Connections)
      → conn.instance_uid ≢ uuid_nil
      → (get_connection_by_id names conn.id (save_connection names conn m) ≡ ok conn)
        × (get_connection_by_instance_uid names conn.instance_uid (save_connection names conn m)
            ≡ ok conn)
  unfolding save_connection get_connection_by_id get_connection_by_instance_uid found_connection
      store load load_by_index load_key key_by_index add_index_keys add_index_key
  get_connection-save_connection conn m h =
      let key = names.key_of conn.id in
      let i = create_index_key idx_instance_uid (names.show conn.instance_uid) in
      rw
        (
          indexes-managed conn h,
          lookup-insert key key conn m.by_id,
          str_eq_refl key,
          lookup-insert i i key m.by_index,
          str_eq_refl i,
        )
        (refl, rw (lookup-insert key key conn m.by_id, str_eq_refl key) refl)

  -- An agent comes back on a second connection, and the first is deleted when its end is noticed: the
  -- second is still there under its key, but it is not found by the agent's UID, and nothing can be sent
  -- to the agent.
  pub delete_connection-reconnected :
      {M : Type 0} (first second : Connection) (m : Connections)
      (send : ConnectionId → M → Option Error) (message : M)
      → names.key_of first.id ≢ names.key_of second.id
      → first.instance_uid ≢ uuid_nil
      → second.instance_uid ≡ first.instance_uid
      → let left =
          delete_connection names first
            (save_connection names second (save_connection names first m)) in
        (get_connection_by_id names second.id left ≡ ok second)
        × ((get_connection_by_instance_uid names first.instance_uid left ≡ err connection_not_found)
            × (send_server_to_agent names send first.instance_uid message left
                ≡ some connection_not_found))
  unfolding save_connection delete_connection get_connection_by_id get_connection_by_instance_uid
      found_connection send_server_to_agent send_to
  delete_connection-reconnected first second m send message d h e =
      let (by_key, by_index) =
        load_by_index-delete m (names.key_of first.id) (names.key_of second.id) idx_instance_uid
          (names.show first.instance_uid) first second d in
      let same : indexes_of_connection names second
          ≡ create_index_key idx_instance_uid (names.show first.instance_uid) ∷ [] =
        indexes-managed second (rw e h)
        ∙ ap (λ uid. create_index_key idx_instance_uid (names.show uid) ∷ []) e in
      rw (indexes-managed first h, same)
        (
          ap found_connection by_key,
          (
            ap found_connection by_index,
            ap (λ o. send_to names send first.instance_uid message (found_connection o)) by_index,
          ),
        )

-- What the services do to a connection once it was made.
pub data Change : Type 0 where
  instance_uid_of : Uuid → Change
  namespace_of : String → Change

abbrev pub changed : List Change → Connection → Connection
changed [] conn = conn
changed (Change.instance_uid_of uid ∷ cs) conn = changed cs (set_instance_uid uid conn)
changed (Change.namespace_of namespace ∷ cs) conn = changed cs (set_namespace namespace conn)

never_heard :
    (cs : List Change) (conn : Connection)
    → ((changed cs conn).type ≡ conn.type)
      × ((changed cs conn).last_communicated_at ≡ conn.last_communicated_at)
unfolding set_instance_uid set_namespace
never_heard [] conn = (refl, refl)
never_heard (Change.instance_uid_of uid ∷ cs) conn =
    let (a, b) = never_heard cs (set_instance_uid uid conn) in (a, b)
never_heard (Change.namespace_of namespace ∷ cs) conn =
    let (a, b) = never_heard cs (set_namespace namespace conn) in (a, b)

-- From a minute after the zero time on, a connection that is not a WebSocket is not alive, however
-- recently its agent was heard of: no change of a connection sets the time of its last communication.
pub is_alive-changed :
    (cs : List Change) (uid : Uuid) (id : ConnectionId) (type : ConnectionType) (now : Time)
    → is_web_socket type ≡ false
    → 2 * opamp_polling_interval ≤ now
    → is_alive now (changed cs (new_connection uid id type)) ≡ false
unfolding is_alive alive_at new_connection sub_lt
is_alive-changed cs uid id type now h late =
    let (t, at) = never_heard cs (new_connection uid id type) in
    rw (t, at, h) (ground (arith, late))
