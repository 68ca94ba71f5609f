-- ===== src/Store/Lookup.antt =====
-- store.go: lookups after each write, and the parts of a store's well-formedness.
use opampcommander.Base.{
  ℕ, suc, ◌<◌, ◌≡◌, inl, inr, Option, none, some, List, [], ◌∷◌, arith, if◌then◌else◌, ◌==◌, Eq,
  nat_eq, string_eq, Bool-cases,
}
use opampcommander.Store.Ops.{Item, find_item, set_value, remove_item}
use opampcommander.Store.Pages.Walk.{SeqNotIn, SeqsDiffer}

abbrev pub with_value {ℓ} : {V : Type ℓ} → V → Option (Item V) → Option (Item V)
with_value v none = none
with_value v (some x) = some (record x { value = v })

module _ {ℓ} {K V : Type ℓ} ⦃e : Eq K⦄ where
  pub find_item-set_value :
      (k j : K) (v : V) (m : List (K × Item V))
      → find_item j (set_value k v m)
        ≡ (if k == j then with_value v (find_item j m) else find_item j m)
  unfolding find_item set_value
  find_item-set_value k j v [] = ground arith
  find_item-set_value k j v ((i, x) ∷ m) =
      ground (arith, e.same_iff i k, e.same_iff i j, e.same_iff k j, find_item-set_value k j v m)

  pub find_item-remove_item :
      (k j : K) (m : List (K × Item V))
      → find_item j (remove_item k m) ≡ (if k == j then none else find_item j m)
  unfolding find_item remove_item
  find_item-remove_item k j [] = ground arith
  find_item-remove_item k j ((i, x) ∷ m) =
      ground (arith, e.same_iff i k, e.same_iff i j, e.same_iff k j, find_item-remove_item k j m)

  set_value-SeqNotIn :
      (s : ℕ) (k : K) (v : V) (m : List (K × Item V)) → SeqNotIn s m → SeqNotIn s (set_value k v m)
  unfolding set_value
  set_value-SeqNotIn s k v [] h = tt
  set_value-SeqNotIn s k v ((i, x) ∷ m) h = ground (arith, h, set_value-SeqNotIn s k v m h.1)

  pub set_value-SeqsDiffer :
      (k : K) (v : V) (m : List (K × Item V)) → SeqsDiffer m → SeqsDiffer (set_value k v m)
  unfolding set_value
  set_value-SeqsDiffer k v [] h = tt
  set_value-SeqsDiffer k v ((i, x) ∷ m) h =
      ground (arith, h, set_value-SeqsDiffer k v m h.1, set_value-SeqNotIn x.seq k v m h.0)

  remove_item-SeqNotIn :
      (s : ℕ) (k : K) (m : List (K × Item V)) → SeqNotIn s m → SeqNotIn s (remove_item k m)
  unfolding remove_item
  remove_item-SeqNotIn s k [] h = tt
  remove_item-SeqNotIn s k ((i, x) ∷ m) h = ground (arith, h, remove_item-SeqNotIn s k m h.1)

  pub remove_item-SeqsDiffer :
      (k : K) (m : List (K × Item V)) → SeqsDiffer m → SeqsDiffer (remove_item k m)
  unfolding remove_item
  remove_item-SeqsDiffer k [] h = tt
  remove_item-SeqsDiffer k ((i, x) ∷ m) h =
      ground (arith, h, remove_item-SeqsDiffer k m h.1, remove_item-SeqNotIn x.seq k m h.0)

  -- Every sequence is below the bound.
  abbrev pub SeqsBelow : ℕ → List (K × Item V) → Type 0
  SeqsBelow n [] = Unit
  SeqsBelow n ((k, x) ∷ m) = (x.seq < n) × SeqsBelow n m

  pub SeqsBelow-SeqNotIn : (n : ℕ) (m : List (K × Item V)) → SeqsBelow n m → SeqNotIn n m
  SeqsBelow-SeqNotIn n [] h = tt
  SeqsBelow-SeqNotIn n ((i, x) ∷ m) h = (omega (arith, h.0), SeqsBelow-SeqNotIn n m h.1)

  pub SeqsBelow-suc : (n : ℕ) (m : List (K × Item V)) → SeqsBelow n m → SeqsBelow (suc n) m
  SeqsBelow-suc n [] h = tt
  SeqsBelow-suc n ((i, x) ∷ m) h = (omega (arith, h.0), SeqsBelow-suc n m h.1)

  pub set_value-SeqsBelow :
      (n : ℕ) (k : K) (v : V) (m : List (K × Item V))
      → SeqsBelow n m
      → SeqsBelow n (set_value k v m)
  unfolding set_value
  set_value-SeqsBelow n k v [] h = tt
  set_value-SeqsBelow n k v ((i, x) ∷ m) h = ground (arith, h, set_value-SeqsBelow n k v m h.1)

  pub remove_item-SeqsBelow :
      (n : ℕ) (k : K) (m : List (K × Item V)) → SeqsBelow n m → SeqsBelow n (remove_item k m)
  unfolding remove_item
  remove_item-SeqsBelow n k [] h = tt
  remove_item-SeqsBelow n k ((i, x) ∷ m) h = ground (arith, h, remove_item-SeqsBelow n k m h.1)

  -- No key stands twice, as in a Go map.
  abbrev pub KeysDiffer : List (K × Item V) → Type ℓ
  KeysDiffer [] = Unit
  KeysDiffer ((k, x) ∷ m) = (find_item k m ≡ none) × KeysDiffer m

  pub set_value-KeysDiffer :
      (k : K) (v : V) (m : List (K × Item V)) → KeysDiffer m → KeysDiffer (set_value k v m)
  unfolding set_value
  set_value-KeysDiffer k v [] h = tt
  set_value-KeysDiffer k v ((i, x) ∷ m) h = elim (Bool-cases (i == k)) [
    | inl q ↦ rw q h
    | inr q ↦
        rw (q, find_item-set_value k i v m, h.0) (ground (arith, set_value-KeysDiffer k v m h.1))
  ]

  pub remove_item-KeysDiffer :
      (k : K) (m : List (K × Item V)) → KeysDiffer m → KeysDiffer (remove_item k m)
  unfolding remove_item
  remove_item-KeysDiffer k [] h = tt
  remove_item-KeysDiffer k ((i, x) ∷ m) h = elim (Bool-cases (i == k)) [
    | inl q ↦ rw q (remove_item-KeysDiffer k m h.1)
    | inr q ↦
        rw (q, find_item-remove_item k i m, h.0) (ground (arith, remove_item-KeysDiffer k m h.1))
  ]
