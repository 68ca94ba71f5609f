-- ===== src/MultiMap/Calls.antt =====
-- multimap.go: sequences of calls, and deletion by an index.
use opampcommander.Base.{
  String, ◌≡◌, refl, ap, ◌∙◌, ◌≢◌, inl, inr, false, none, some, List, [], ◌∷◌, ◌++◌, arith, eq_iff,
  ◌==◌, nat_eq, string_eq, str_eq_refl, Option-cases, Assoc, lookup, insert, remove, lookup-insert,
  lookup-remove,
}
use opampcommander.MultiMap.{
  MultiMap, new_multi_map, remove_all, indexes_of, add_index_key, add_index_keys, store, add_index,
  add_index_by_another_index, delete, drop_indexes, delete_by_index, delete_found, key_by_index,
  create_index_key, load, load_key, load_by_index,
}
use mathlib.Core.List.{Memᴰ}
use opampcommander.MultiMap.Indexes.{
  remove_all-found, in_append_last, Covered, new_multi_map-Covered, store-Covered,
  add_index_key-Covered, another_index-Covered, delete-Covered, key_by_index-delete,
}

-- What the users of the map call on it; all but `DeleteByIndex` of the methods that change it.
pub data Operation (T : Type 0) : Type 0 where
  store_of : String → T → List String → Operation T
  add_index_of : String → String → String → Operation T
  add_index_by_another_index_of : String → String → String → String → Operation T
  delete_of : String → Operation T

unfoldable pub perform : {T : Type 0} → Operation T → MultiMap T → MultiMap T
perform (Operation.store_of key value opts) m = store key value opts m
perform (Operation.add_index_of key name value) m = add_index key name value m
perform (Operation.add_index_by_another_index_of n v n' v') m =
    add_index_by_another_index n v n' v' m
perform (Operation.delete_of key) m = delete key m

unfoldable pub perform_all : {T : Type 0} → List (Operation T) → MultiMap T → MultiMap T
unfolding perform
perform_all [] m = m
perform_all (op ∷ ops) m = perform_all ops (perform op m)

perform-Covered :
    {T : Type 0} (op : Operation T) (m : MultiMap T) → Covered m → Covered (perform op m)
unfolding perform add_index add_index_by_another_index
perform-Covered (Operation.store_of key value opts) m c = store-Covered key value opts m c
perform-Covered (Operation.add_index_of key name value) m c =
    add_index_key-Covered key (create_index_key name value) m c
perform-Covered (Operation.add_index_by_another_index_of n v n' v') m c =
    another_index-Covered (create_index_key n v) (create_index_key n' v') m c
perform-Covered (Operation.delete_of key) m c = delete-Covered key m c

perform_all-Covered :
    {T : Type 0} (ops : List (Operation T)) (m : MultiMap T)
    → Covered m
    → Covered (perform_all ops m)
unfolding perform_all
perform_all-Covered [] m c = c
perform_all-Covered (op ∷ ops) m c = perform_all-Covered ops (perform op m) (perform-Covered op m c)

-- After any calls of `Store`, `AddIndex`, `AddIndexByAnotherIndex` and `Delete` on a new map, deleting
-- a key leaves no index that leads to it.
pub key_by_index-perform_all :
    {T : Type 0} (ops : List (Operation T)) (key name value : String)
    → key_by_index name value (delete key (perform_all ops new_multi_map)) ≢ some key
key_by_index-perform_all ops key name value =
    key_by_index-delete key name value (perform_all ops new_multi_map)
      (perform_all-Covered ops new_multi_map (new_multi_map-Covered _))

-- Deleting by one of two indexes of a key leaves the other: once a value is stored under the key again,
-- without an index, the other index finds it.
pub load_by_index-delete_by_index :
    {T : Type 0} (m : MultiMap T) (key name value name' value' : String) (next : T)
    → create_index_key name value ≢ create_index_key name' value'
    → key_by_index name value m ≡ some key
    → key_by_index name' value' m ≡ some key
    → load_by_index name' value' (store key next [] (delete_by_index name value m)) ≡ some next
unfolding load_by_index key_by_index store delete_by_index load_key load add_index_keys delete_found
load_by_index-delete_by_index m key name value name' value' next d h h' =
    let i = create_index_key name value in
    let j = create_index_key name' value' in
    let distinct : (i == j) ≡ false = ground (arith, d, eq_iff i j) in
    rw
      (
        h,
        lookup-remove i j m.by_index,
        distinct,
        h',
        lookup-insert key key next (remove key m.by_id),
        str_eq_refl key,
      )
      refl

-- What the removal of a list of indexes leaves of an index on the list.
remove_all-none :
    (is : List String) (i : String) (m : Assoc String)
    → Memᴰ i is
    → lookup i (remove_all is m) ≡ none
remove_all-none is i m h = elim (Option-cases (lookup i (remove_all is m))) [
  | inl n ↦ n
  | inr (k, e) ↦ absurd ((remove_all-found is i k m e).1 h)
]

delete_kept :
    {T : Type 0} (key : String) (m : MultiMap T) (is : List String)
    → lookup key m.indexes_by_id ≡ some is
    → delete key m ≡ record {
      by_id = remove key m.by_id;
      by_index = remove_all is m.by_index;
      indexes_by_id = remove key m.indexes_by_id;
    }
unfolding delete drop_indexes
delete_kept key m is e = ap (λ o. drop_indexes key o (record m { by_id = remove key m.by_id })) e

-- An index that was moved to another key is lost with its old one: when a value is stored under a key
-- with an index, another one under another key with the same index, and the first key is deleted, the
-- second value is still under its key, but the index no longer finds it.
pub load_by_index-delete :
    {T : Type 0} (m : MultiMap T) (key key' name value : String) (first next : T)
    → key ≢ key'
    → let i = create_index_key name value in
      let left = delete key (store key' next (i ∷ []) (store key first (i ∷ []) m)) in
      (load key' left ≡ some next) × (load_by_index name value left ≡ none)
unfolding load load_by_index key_by_index load_key delete drop_indexes store add_index_keys
    add_index_key indexes_of
load_by_index-delete m key key' name value first next d =
    let i = create_index_key name value in
    let apart : (key' == key) ≡ false = ground (arith, d, eq_iff key' key) in
    let apart' : (key == key') ≡ false = ground (arith, d, eq_iff key key') in
    let old = indexes_of key m in
    let stored = store key' next (i ∷ []) (store key first (i ∷ []) m) in
    let kept : lookup key stored.indexes_by_id ≡ some (old ++ i ∷ []) =
      lookup-insert key' key _ _
      ∙ (rw (apart, lookup-insert key key (old ++ i ∷ []) m.indexes_by_id, str_eq_refl key) refl) in
    let gone = delete_kept key stored (old ++ i ∷ []) kept in
    (
      ap (load key') gone
          ∙ (lookup-remove key key' stored.by_id
              ∙ (rw
                  (
                    apart',
                    lookup-insert key' key' next (insert key first m.by_id),
                    str_eq_refl key',
                  )
                  refl)),
      ap (load_by_index name value) gone
          ∙ rw (remove_all-none (old ++ i ∷ []) i stored.by_index (in_append_last i old)) refl,
    )
