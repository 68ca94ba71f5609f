-- ===== src/Examples/Connections.antt =====
-- The theorems on the map with indexes at a few connections.
use opampcommander.Base.{
  ℕ, String, ◌≡◌, refl, ◌≢◌, none, some, List, [], ◌∷◌, eq_iff, nat_eq, string_eq,
}
use opampcommander.MultiMap.{
  MultiMap, load, new_multi_map, create_index_key, store, delete, delete_by_index, key_by_index,
  load_by_index,
}
use opampcommander.MultiMap.Calls.{
  Operation, perform_all, key_by_index-perform_all, load_by_index-delete_by_index,
  load_by_index-delete,
}

abbrev calls : List (Operation ℕ)
calls =
    Operation.store_of "conn" 1 ("uid/a" ∷ [])
    ∷ Operation.add_index_by_another_index_of "uid" "a" "host" "b"
    ∷ Operation.store_of "other" 2 []
    ∷ []

key_by_index-perform_all_example :
    key_by_index "host" "b" (delete "conn" (perform_all calls new_multi_map)) ≢ some "conn"
key_by_index-perform_all_example = key_by_index-perform_all calls "conn" "host" "b"

abbrev two_indexes : MultiMap ℕ
two_indexes = record {
  by_id = ("conn", 1) ∷ [];
  by_index = ("uid/a", "conn") ∷ ("host/b", "conn") ∷ [];
  indexes_by_id = ("conn", "uid/a" ∷ "host/b" ∷ []) ∷ [];
}

keys_differ : create_index_key "uid" "a" ≢ create_index_key "host" "b"
unfolding create_index_key
keys_differ h = cc ((eq_iff "uid/a" "host/b").1 h)

by_uid : key_by_index "uid" "a" two_indexes ≡ some "conn"
unfolding key_by_index
by_uid = refl

by_host : key_by_index "host" "b" two_indexes ≡ some "conn"
unfolding key_by_index
by_host = refl

load_by_index-delete_by_index_example :
    load_by_index "host" "b" (store "conn" 5 [] (delete_by_index "uid" "a" two_indexes)) ≡ some 5
load_by_index-delete_by_index_example =
    load_by_index-delete_by_index two_indexes "conn" "uid" "a" "host" "b" 5 keys_differ by_uid
      by_host

conn_keys_differ : ◌≢◌ {A = String} "conn1" "conn2"
conn_keys_differ h = cc ((eq_iff "conn1" "conn2").1 h)

load_by_index-delete_example :
    let left =
      delete "conn1"
        (store "conn2" 2 ("uid/a" ∷ []) (store "conn1" 1 ("uid/a" ∷ []) two_indexes)) in
    (load "conn2" left ≡ some 2) × (load_by_index "uid" "a" left ≡ none)
unfolding create_index_key
load_by_index-delete_example =
    load_by_index-delete two_indexes "conn1" "conn2" "uid" "a" 1 2 conn_keys_differ
