-- ===== src/Store/Invariant.antt =====
-- store.go: the well-formedness of a store, under each write.
use opampcommander.Base.{
  ℕ, suc, ◌+◌, ◌<◌, ◌≡◌, inl, inr, none, List, arith, ◌==◌, Eq, nat_eq, string_eq, Bool-cases,
  Option-cases,
}
use opampcommander.Base.{◌%◌}
use opampcommander.Store.Ops.{
  Store, Item, Kind, find_item, set_value, add_item, put, cas_put, cas_put_or_create, delete,
  u64_mod,
}
use opampcommander.Store.Pages.Walk.{SeqsDiffer}
use opampcommander.Store.Lookup.{
  KeysDiffer, SeqsBelow, SeqsBelow-SeqNotIn, SeqsBelow-suc, set_value-SeqsDiffer,
  set_value-SeqsBelow, set_value-KeysDiffer, remove_item-SeqsDiffer, remove_item-SeqsBelow,
  remove_item-KeysDiffer,
}

-- Each key has one item, each item a sequence of its own, and the next sequence is new.
pub record IsValid {ℓ} {K V : Type ℓ} ⦃e : Eq K⦄ (s : Store K V) : Type ℓ where
  pub keys_differ : KeysDiffer s.items
  pub seqs_differ : SeqsDiffer s.items
  pub seqs_below : SeqsBelow s.next_seq s.items

next_seq_mod : (n : ℕ) → n + 1 < u64_mod → (n + 1) % u64_mod ≡ suc n
next_seq_mod n h = omega (arith, h)

module _ {ℓ} {K V : Type ℓ} ⦃e : Eq K⦄ where
  set_value-IsValid :
      (k : K) (v : V) (s : Store K V)
      → IsValid s
      → IsValid (record s { items = set_value k v s.items })
  set_value-IsValid k v s h = record {
    keys_differ = set_value-KeysDiffer k v s.items h.keys_differ;
    seqs_differ = set_value-SeqsDiffer k v s.items h.seqs_differ;
    seqs_below = set_value-SeqsBelow s.next_seq k v s.items h.seqs_below;
  }

  below_next :
      (n : ℕ) (m : List (K × Item V))
      → n + 1 < u64_mod
      → SeqsBelow n m
      → SeqsBelow ((n + 1) % u64_mod) m
  below_next n m b h = rw (next_seq_mod n b) (SeqsBelow-suc n m h)

  add_item-IsValid :
      (k : K) (v : V) (s : Store K V)
      → IsValid s
      → find_item k s.items ≡ none
      → s.next_seq + 1 < u64_mod
      → IsValid (add_item k v s)
  unfolding add_item
  add_item-IsValid k v s h n b = record {
    keys_differ = (n, h.keys_differ);
    seqs_differ = (SeqsBelow-SeqNotIn s.next_seq s.items h.seqs_below, h.seqs_differ);
    seqs_below =
        (omega (arith, next_seq_mod s.next_seq b), below_next s.next_seq s.items b h.seqs_below);
  }

  pub put-IsValid :
      (kind : Kind V) (k : K) (v : V) (s : Store K V)
      → IsValid s
      → s.next_seq + 1 < u64_mod
      → IsValid (put kind k v s)
  unfolding put
  put-IsValid kind k v s h b = elim (Option-cases (find_item k s.items)) [
    | inl n ↦ rw n (add_item-IsValid k (kind.clone v) s h n b)
    | inr (x, q) ↦ rw q (set_value-IsValid k (kind.clone v) s h)
  ]

  pub cas_put-IsValid :
      (kind : Kind V) (k : K) (v : V) (expected : ℕ) (version_of : V → ℕ) (s : Store K V)
      → IsValid s
      → s.next_seq + 1 < u64_mod
      → IsValid (cas_put kind k v expected version_of s).0
  unfolding cas_put
  cas_put-IsValid kind k v expected version_of s h b = elim (Option-cases (find_item k s.items)) [
    | inl n ↦ elim (Bool-cases (expected == 0)) [
      | inl q ↦ rw (n, q) (add_item-IsValid k (kind.clone v) s h n b)
      | inr q ↦ rw (n, q) h
    ]
    | inr (x, q) ↦ elim (Bool-cases (version_of x.value == expected)) [
      | inl r ↦ rw (q, r) (set_value-IsValid k (kind.clone v) s h)
      | inr r ↦ rw (q, r) h
    ]
  ]

  pub cas_put_or_create-IsValid :
      (kind : Kind V) (k : K) (v : V) (expected : ℕ) (version_of : V → ℕ) (s : Store K V)
      → IsValid s
      → s.next_seq + 1 < u64_mod
      → IsValid (cas_put_or_create kind k v expected version_of s).0
  unfolding cas_put_or_create
  cas_put_or_create-IsValid kind k v expected version_of s h b = elim (Bool-cases (expected == 0)) [
    | inl q ↦ rw q (put-IsValid kind k v s h b)
    | inr q ↦ rw q (cas_put-IsValid kind k v expected version_of s h b)
  ]

  pub delete-IsValid : (k : K) (s : Store K V) → IsValid s → IsValid (delete k s).0
  unfolding delete
  delete-IsValid k s h = elim (Option-cases (find_item k s.items)) [
    | inl n ↦ rw n h
    | inr (x, q) ↦ rw q record {
      keys_differ = remove_item-KeysDiffer k s.items h.keys_differ;
      seqs_differ = remove_item-SeqsDiffer k s.items h.seqs_differ;
      seqs_below = remove_item-SeqsBelow s.next_seq k s.items h.seqs_below;
    }
  ]
