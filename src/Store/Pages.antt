-- ===== src/Store/Pages.antt =====
-- store.go: the entries that `collect` returns, their order, and the cursor of a continue token.
pub mod Walk
pub mod Contents
use opampcommander.Base.{
  ℕ, zero, suc, ◌≤◌, ◌<◌, ◌≡◌, refl, ap, ◌≢◌, List, [], ◌∷◌, arith, leb, if◌then◌else◌, length,
}
use opampcommander.Store.Ops.{Item, insert_by_seq, last_seq, take, drop}

module _ {ℓ} {V : Type ℓ} where
  -- The entries past a cursor.
  unfoldable pub past : ℕ → List (Item V) → List (Item V)
  past a [] = []
  past a (x ∷ xs) = let rest = past a xs in if leb x.seq a then rest else x ∷ rest

  past-insert_by_seq :
      (a : ℕ) (x : Item V) (xs : List (Item V))
      → past a (insert_by_seq x xs)
        ≡ (if leb x.seq a then past a xs else insert_by_seq x (past a xs))
  unfolding past insert_by_seq
  past-insert_by_seq a x [] = ground arith
  past-insert_by_seq a x (y ∷ ys) = ground (arith, past-insert_by_seq a x ys)

  -- Strictly ascending by sequence, all above a bound.
  abbrev pub Ascending : ℕ → List (Item V) → Type 0
  Ascending a [] = Unit
  Ascending a (x ∷ xs) = (a < x.seq) × Ascending x.seq xs

  past-past : (a b : ℕ) (xs : List (Item V)) → a ≤ b → past b (past a xs) ≡ past b xs
  unfolding past
  past-past a b [] h = refl
  past-past a b (x ∷ xs) h = ground (arith, past-past a b xs h)

  past-Ascending : (a b : ℕ) (xs : List (Item V)) → b ≤ a → Ascending a xs → past b xs ≡ xs
  unfolding past
  past-Ascending a b [] h s = refl
  past-Ascending a b (x ∷ xs) h s =
      ground (arith, past-Ascending x.seq b xs (omega (arith, h, s.0)) s.1)

  -- The sequence stands in no entry.
  abbrev pub Apart : ℕ → List (Item V) → Type 0
  Apart s [] = Unit
  Apart s (x ∷ xs) = (s ≢ x.seq) × Apart s xs

  insert-Apart :
      (s : ℕ) (x : Item V) (xs : List (Item V))
      → s ≢ x.seq
      → Apart s xs
      → Apart s (insert_by_seq x xs)
  unfolding insert_by_seq
  insert-Apart s x [] n h = (n, tt)
  insert-Apart s x (y ∷ ys) n h = ground (arith, n, h, insert-Apart s x ys n h.1)

  insert-Ascending :
      (a : ℕ) (x : Item V) (xs : List (Item V))
      → a < x.seq
      → Apart x.seq xs
      → Ascending a xs
      → Ascending a (insert_by_seq x xs)
  unfolding insert_by_seq
  insert-Ascending a x [] l n h = (l, tt)
  insert-Ascending a x (y ∷ ys) l n h = ground (arith, l, n, h, insert-Ascending y.seq x ys)

  last_seq-≥ : (s n : ℕ) (xs : List (Item V)) → Ascending s xs → s ≤ last_seq s (take n xs)
  unfolding last_seq
  last_seq-≥ s zero xs h = omega arith
  last_seq-≥ s (suc n) [] h = omega arith
  last_seq-≥ s (suc n) (x ∷ xs) h = omega (arith, h.0, last_seq-≥ x.seq n xs h.1)

  -- The entries past the last one of a page are those that are not on it.
  past-last_seq :
      (n : ℕ) (x : Item V) (xs : List (Item V)) {a : ℕ}
      → Ascending a (x ∷ xs)
      → past (last_seq x.seq (take n xs)) (x ∷ xs) ≡ drop n xs
  unfolding past last_seq
  past-last_seq zero x xs h = ground (arith, past-Ascending x.seq x.seq xs (omega arith) h.1)
  past-last_seq (suc n) x [] h = ground arith
  past-last_seq (suc n) x (y ∷ ys) h =
      ground (arith, h, last_seq-≥ y.seq n ys h.1.1, past-last_seq n y ys h.1)

  page_of-take : (n : ℕ) (xs : List (Item V)) → length xs ≤ suc n → take (suc n) xs ≡ xs
  page_of-take n [] h = refl
  page_of-take zero (x ∷ []) h = refl
  page_of-take zero (x ∷ y ∷ ys) h = absurd (omega (arith, h))
  page_of-take (suc n) (x ∷ xs) h = ap (x ∷◌) (page_of-take n xs (omega (arith, h)))
