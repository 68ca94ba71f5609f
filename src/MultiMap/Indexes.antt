-- ===== src/MultiMap/Indexes.antt =====
-- multimap.go: the agreement of the two index maps.
use opampcommander.Base.{
  String, ◌≡◌, refl, sym, ap, ◌∙◌, ◌≢◌, inl, inr, false, Option, none, some, List, [], ◌∷◌, ◌++◌,
  arith, eq_iff, if◌then◌else◌, ◌==◌, nat_eq, string_eq, Bool-cases, Assoc, lookup, insert, remove,
  lookup-insert, lookup-remove, string_or_empty,
}
use mathlib.Core.List.{Memᴰ}
use opampcommander.MultiMap.{
  MultiMap, new_multi_map, slice_or_nil, remove_all, indexes_of, add_index_key, add_index_keys,
  store, another_index, delete, drop_indexes, key_by_index, create_index_key,
}

in_append_left : {x : String} (xs ys : List String) → Memᴰ x xs → Memᴰ x (xs ++ ys)
in_append_left [] ys h = elim h [ ]
in_append_left (y ∷ xs) ys (Memᴰ.head e) = Memᴰ.head e
in_append_left (y ∷ xs) ys (Memᴰ.tail h) = Memᴰ.tail (in_append_left xs ys h)

pub in_append_last : (x : String) (xs : List String) → Memᴰ x (xs ++ x ∷ [])
in_append_last x [] = Memᴰ.head refl
in_append_last x (y ∷ xs) = Memᴰ.tail (in_append_last x xs)

-- Every index that leads to a key stands among the indexes that are kept for the key.
pub CoveredBy : Assoc String → Assoc (List String) → Type 0
CoveredBy leads kept =
    (i k : String) → lookup i leads ≡ some k → Memᴰ i (slice_or_nil (lookup k kept))

some_inj : {a b : String} → ◌≡◌ {A = Option String} (some a) (some b) → a ≡ b
some_inj h = cc

insert-CoveredBy :
    (key i : String) (leads : Assoc String) (kept : Assoc (List String))
    → CoveredBy leads kept
    → CoveredBy (insert i key leads) (insert key (slice_or_nil (lookup key kept) ++ i ∷ []) kept)
unfolding CoveredBy
insert-CoveredBy key i leads kept c j k h =
    let kept_list = slice_or_nil (lookup key kept) in
    let h' : (if i == j then some key else lookup j leads) ≡ some k =
      sym (lookup-insert i j key leads) ∙ h in
    elim (Bool-cases (key == k)) [
      | inl q ↦
          let key_is : key ≡ k = (eq_iff key k).0 q in
          rw (lookup-insert key k (kept_list ++ i ∷ []) kept, q)
            (elim (Bool-cases (i == j)) [
              | inl p ↦ rw (← (eq_iff i j).0 p) (in_append_last i kept_list)
              | inr p ↦
                  let old : lookup j leads ≡ some k = rw p at h' in
                  in_append_left kept_list (i ∷ []) (rw (← key_is) at (c j k old))
            ])
      | inr q ↦
          rw (lookup-insert key k (kept_list ++ i ∷ []) kept, q)
            (elim (Bool-cases (i == j)) [
              | inl p ↦
                  let e : ◌≡◌ {A = Option String} (some key) (some k) = rw p at h' in
                  absurd (cc (sym ((eq_iff key k).1 (some_inj e)) ∙ q))
              | inr p ↦ c j k (rw p at h')
            ])
    ]

pub remove_all-found :
    (is : List String) (j k : String) (m : Assoc String)
    → lookup j (remove_all is m) ≡ some k
    → (lookup j m ≡ some k) × ¬ (Memᴰ j is)
unfolding remove_all
remove_all-found [] j k m h = (h, λ x. elim x [ ])
remove_all-found (i ∷ is) j k m h =
    let (found, absent) = remove_all-found is j k (remove i m) h in
    let kept_one : (if i == j then none else lookup j m) ≡ some k =
      sym (lookup-remove i j m) ∙ found in
    elim (Bool-cases (i == j)) [
      | inl p ↦ let e : ◌≡◌ {A = Option String} none (some k) = rw p at kept_one in absurd (cc e)
      | inr p ↦ (rw p at kept_one, not_first i j is p absent)
    ]
  where
    not_first :
        (i j : String) (is : List String) → (i == j) ≡ false → ¬ (Memᴰ j is) → ¬ (Memᴰ j (i ∷ is))
    not_first i j is p absent (Memᴰ.head e) = absurd (cc (sym ((eq_iff i j).1 (sym e)) ∙ p))
    not_first i j is p absent (Memᴰ.tail t) = absent t

remove-CoveredBy :
    (key : String) (is : List String) (leads : Assoc String) (kept : Assoc (List String))
    → CoveredBy leads kept
    → lookup key kept ≡ some is
    → CoveredBy (remove_all is leads) (remove key kept)
unfolding CoveredBy
remove-CoveredBy key is leads kept c e j k h =
    let (found, absent) = remove_all-found is j k leads h in
    let there = c j k found in
    elim (Bool-cases (key == k)) [
      | inl q ↦
          let key_is : key ≡ k = (eq_iff key k).0 q in
          let here : lookup k kept ≡ some is = rw (← key_is) e in
          let list : slice_or_nil (lookup k kept) ≡ is = ap slice_or_nil here in
          absurd (absent (rw list at there))
      | inr q ↦ rw (lookup-remove key k kept, q) there
    ]

same_key :
    (i j : String) (leads : Assoc String)
    → string_or_empty (lookup i (insert j (string_or_empty (lookup i leads)) leads))
      ≡ string_or_empty (lookup i leads)
same_key i j leads = ground (arith, lookup-insert j i (string_or_empty (lookup i leads)) leads)

module _ {T : Type 0} where
  pub Covered : MultiMap T → Type 0
  unfolding CoveredBy
  Covered m = CoveredBy m.by_index m.indexes_by_id

  pub add_index_key-Covered :
      (key i : String) (m : MultiMap T) → Covered m → Covered (add_index_key key i m)
  unfolding Covered add_index_key
  add_index_key-Covered key i m c = insert-CoveredBy key i m.by_index m.indexes_by_id c

  add_index_keys-Covered :
      (key : String) (is : List String) (m : MultiMap T)
      → Covered m
      → Covered (add_index_keys key is m)
  unfolding add_index_keys
  add_index_keys-Covered key [] m c = c
  add_index_keys-Covered key (i ∷ is) m c =
      add_index_keys-Covered key is (add_index_key key i m) (add_index_key-Covered key i m c)

  pub store-Covered :
      (key : String) (value : T) (opts : List String) (m : MultiMap T)
      → Covered m
      → Covered (store key value opts m)
  unfolding store Covered
  store-Covered key value opts m c =
      add_index_keys-Covered key opts (record m { by_id = insert key value m.by_id }) c

  pub another_index-Covered :
      (i j : String) (m : MultiMap T) → Covered m → Covered (another_index i j m)
  unfolding another_index Covered indexes_of
  another_index-Covered i j m c =
      rw (same_key i j m.by_index)
        (insert-CoveredBy (string_or_empty (lookup i m.by_index)) j m.by_index m.indexes_by_id c)

  drop_indexes-Covered :
      (key : String) (o : Option (List String)) (m : MultiMap T)
      → lookup key m.indexes_by_id ≡ o
      → Covered m
      → Covered (drop_indexes key o m)
  unfolding drop_indexes Covered
  drop_indexes-Covered key none m e c = c
  drop_indexes-Covered key (some is) m e c = remove-CoveredBy key is m.by_index m.indexes_by_id c e

  pub delete-Covered : (key : String) (m : MultiMap T) → Covered m → Covered (delete key m)
  unfolding delete Covered
  delete-Covered key m c =
      drop_indexes-Covered key (lookup key m.indexes_by_id)
        (record m { by_id = remove key m.by_id }) refl c

  dropped_unreachable :
      (key i : String) (o : Option (List String)) (m : MultiMap T)
      → lookup key m.indexes_by_id ≡ o
      → Covered m
      → lookup i (drop_indexes key o m).by_index ≢ some key
  unfolding drop_indexes Covered
  dropped_unreachable key i none m e c h =
      let there = c i key h in let there' : Memᴰ i [] = rw e at there in elim there' [ ]
  dropped_unreachable key i (some is) m e c h =
      let (found, absent) = remove_all-found is i key m.by_index h in
      absent (rw e at (c i key found))

  -- After a key has been deleted, no index leads to it, in a map whose index maps agree.
  pub key_by_index-delete :
      (key name value : String) (m : MultiMap T)
      → Covered m
      → key_by_index name value (delete key m) ≢ some key
  unfolding key_by_index delete Covered
  key_by_index-delete key name value m c h =
      dropped_unreachable key (create_index_key name value) (lookup key m.indexes_by_id)
        (record m { by_id = remove key m.by_id }) refl c h

pub new_multi_map-Covered : (T : Type 0) → Covered {T = T} new_multi_map
unfolding Covered CoveredBy new_multi_map lookup
new_multi_map-Covered T i k h = let e : ◌≡◌ {A = Option String} none (some k) = h in absurd (cc e)
