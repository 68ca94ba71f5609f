-- ===== src/MultiMap.antt =====
-- pkg/xsync/multimap.go: a map whose values are also found by indexes. Its methods hold its lock.
pub mod Indexes
pub mod Calls
use Prim.Native.String.{◌++◌ as str_append}
use opampcommander.Base.{
  ℕ, ◌+◌, ◌-◌, String, Option, none, some, List, [], ◌∷◌, ◌++◌, map, if◌then◌else◌, Assoc, length,
  lookup, insert, remove, keys, string_or_empty,
}
use text.Mathlib.Text.{starts_with}

pub record MultiMap {ℓ} (T : Type ℓ) : Type ℓ where
  pub by_id : Assoc T
  pub by_index : Assoc String
  pub indexes_by_id : Assoc (List String)

unfoldable pub new_multi_map {ℓ} : {T : Type ℓ} → MultiMap T
new_multi_map = record { by_id = []; by_index = []; indexes_by_id = [] }

unfoldable pub create_index_key : String → String → String
create_index_key name value = str_append name (str_append "/" value)

-- A missing slice is nil, to which `append` adds.
abbrev pub slice_or_nil : Option (List String) → List String
slice_or_nil none = []
slice_or_nil (some xs) = xs

unfoldable pub indexes_starting : String → List String → List String
indexes_starting name [] = []
indexes_starting name (k ∷ ks) =
    let rest = indexes_starting name ks in if starts_with name k then k ∷ rest else rest

unfoldable pub remove_all : List String → Assoc String → Assoc String
unfolding remove
remove_all [] m = m
remove_all (k ∷ ks) m = remove_all ks (remove k m)

module _ {ℓ} {T : Type ℓ} where
  unfoldable pub len : MultiMap T → ℕ
  len m = length m.by_id

  unfoldable pub indexes_of : String → MultiMap T → List String
  unfolding lookup
  indexes_of key m = slice_or_nil (lookup key m.indexes_by_id)

  unfoldable pub add_index_key : String → String → MultiMap T → MultiMap T
  unfolding insert indexes_of
  add_index_key key index_key m = record m {
    by_index = insert index_key key m.by_index;
    indexes_by_id = insert key (indexes_of key m ++ index_key ∷ []) m.indexes_by_id;
  }

  unfoldable pub add_index_keys : String → List String → MultiMap T → MultiMap T
  unfolding add_index_key
  add_index_keys key [] m = m
  add_index_keys key (i ∷ is) m = add_index_keys key is (add_index_key key i m)

  -- The options are the index keys of `WithIndex`, the only one that other packages can make.
  unfoldable pub store : String → T → List String → MultiMap T → MultiMap T
  unfolding insert add_index_keys
  store key value opts m = add_index_keys key opts (record m { by_id = insert key value m.by_id })

  unfoldable pub add_index : String → String → String → MultiMap T → MultiMap T
  unfolding add_index_key create_index_key
  add_index key name value m = add_index_key key (create_index_key name value) m

  -- A missing index counts as the key "".
  pub another_index : String → String → MultiMap T → MultiMap T
  unfolding insert lookup indexes_of
  another_index index_key another_key m =
      let written = insert another_key (string_or_empty (lookup index_key m.by_index)) m.by_index in
      let key = string_or_empty (lookup index_key written) in
      record m {
        by_index = written;
        indexes_by_id = insert key (indexes_of key m ++ another_key ∷ []) m.indexes_by_id;
      }

  unfoldable pub add_index_by_another_index :
      String → String → String → String → MultiMap T → MultiMap T
  unfolding another_index create_index_key
  add_index_by_another_index name value another_name another_value m =
      another_index (create_index_key name value) (create_index_key another_name another_value) m

  unfoldable pub load : String → MultiMap T → Option T
  unfolding lookup
  load key m = lookup key m.by_id

  unfoldable pub key_by_index : String → String → MultiMap T → Option String
  unfolding lookup create_index_key
  key_by_index name value m = lookup (create_index_key name value) m.by_index

  unfoldable pub load_key : Option String → MultiMap T → Option T
  unfolding load
  load_key none m = none
  load_key (some key) m = load key m

  unfoldable pub load_by_index : String → String → MultiMap T → Option T
  unfolding key_by_index load_key
  load_by_index name value m = load_key (key_by_index name value m) m

  drop_indexes : String → Option (List String) → MultiMap T → MultiMap T
  unfolding remove remove_all
  drop_indexes key none m = m
  drop_indexes key (some is) m = record m {
    by_index = remove_all is m.by_index;
    indexes_by_id = remove key m.indexes_by_id;
  }

  unfoldable pub delete : String → MultiMap T → MultiMap T
  unfolding remove lookup drop_indexes
  delete key m =
      drop_indexes key (lookup key m.indexes_by_id) (record m { by_id = remove key m.by_id })

  delete_found : String → Option String → MultiMap T → MultiMap T
  unfolding remove
  delete_found index_key none m = m
  delete_found index_key (some key) m = record {
    by_id = remove key m.by_id;
    indexes_by_id = remove key m.indexes_by_id;
    by_index = remove index_key m.by_index;
  }

  unfoldable pub delete_by_index : String → String → MultiMap T → MultiMap T
  unfolding lookup delete_found create_index_key
  delete_by_index name value m =
      let index_key = create_index_key name value in
      delete_found index_key (lookup index_key m.by_index) m

  unfoldable pub indexes : String → MultiMap T → List String
  unfolding indexes_starting keys
  indexes name m = indexes_starting name (keys m.by_index)
