-- ===== src/Store/Pages/Contents.antt =====
-- store.go: which values a snapshot has.
use opampcommander.Base.{
  ◌<◌, ◌≡◌, refl, ap, ◌↔◌, ◌⊎◌, inl, inr, Bool, true, false, not, ◌&&◌, List, [], ◌∷◌, arith, leb,
  nat_eq, string_eq, Bool-cases,
}
use mathlib.Core.List.{Memᴰ}
use opampcommander.Store.Ops.{
  Store, Item, Kind, collects, insert_by_seq, collect_items, collect, values, snapshot, is_deleted,
}

in_cons {ℓ} : {A : Type ℓ} {a x : A} {xs : List A} → Memᴰ a (x ∷ xs) → (a ≡ x) ⊎ Memᴰ a xs
in_cons (Memᴰ.head e) = inl e
in_cons (Memᴰ.tail m) = inr m

module _ {V : Type 0} where
  mem-insert_by_seq :
      (y x : Item V) (xs : List (Item V)) → (y ≡ x) ⊎ Memᴰ y xs → Memᴰ y (insert_by_seq x xs)
  unfolding insert_by_seq
  mem-insert_by_seq y x [] (inl e) = Memᴰ.head e
  mem-insert_by_seq y x [] (inr m) = elim m [ ]
  mem-insert_by_seq y x (z ∷ zs) h = elim (Bool-cases (leb x.seq z.seq)) [
    | inl q ↦ elim h [ inl e ↦ rw q (Memᴰ.head e) | inr m ↦ rw q (Memᴰ.tail m) ]
    | inr q ↦ elim h [
      | inl e ↦ rw q (Memᴰ.tail (mem-insert_by_seq y x zs (inl e)))
      | inr m ↦ elim (in_cons m) [
        | inl e ↦ rw q (Memᴰ.head e)
        | inr n ↦ rw q (Memᴰ.tail (mem-insert_by_seq y x zs (inr n)))
      ]
    ]
  ]

  insert_by_seq-mem :
      (y x : Item V) (xs : List (Item V)) → Memᴰ y (insert_by_seq x xs) → (y ≡ x) ⊎ Memᴰ y xs
  unfolding insert_by_seq
  insert_by_seq-mem y x [] m = in_cons m
  insert_by_seq-mem y x (z ∷ zs) m = elim (Bool-cases (leb x.seq z.seq)) [
    | inl q ↦ in_cons (rw q at m)
    | inr q ↦
        let m' : Memᴰ y (z ∷ insert_by_seq x zs) = rw q at m in
        elim (in_cons m') [
          | inl e ↦ inr (Memᴰ.head e)
          | inr n ↦ elim (insert_by_seq-mem y x zs n) [ inl e ↦ inl e | inr k ↦ inr (Memᴰ.tail k) ]
        ]
  ]

module _ {V : Type 0} (kind : Kind V) (include_deleted : Bool) (filter : V → Bool) where
  collects-Shows :
      (x : Item V)
      → 0 < x.seq
      → (not include_deleted && is_deleted kind x.value) ≡ false
      → filter x.value ≡ true
      → collects kind include_deleted 0 filter x ≡ true
  unfolding collects
  collects-Shows x n l a = ground (arith, n, l, a)

module _ {K V : Type 0} (kind : Kind V) (include_deleted : Bool) (filter : V → Bool) where
  -- An item of the store that a listing from the start shows.
  pub record Shows (m : List (K × Item V)) (v : V) : Type 0 where
    pub key : K
    pub item : Item V
    pub stands : Memᴰ (key, item) m
    pub numbered : 0 < item.seq
    pub live : (not include_deleted && is_deleted kind item.value) ≡ false
    pub accepted : filter item.value ≡ true
    pub copied : v ≡ kind.clone item.value

  shown_here :
      (k : K) (x : Item V) (m : List (K × Item V)) (v : V)
      → collects kind include_deleted 0 filter x ≡ true
      → v ≡ kind.clone x.value
      → Shows ((k, x) ∷ m) v
  unfolding collects
  shown_here k x m v c e = record {
    key = k;
    item = x;
    stands = Memᴰ.head refl;
    numbered = ground (arith, c);
    live = ground (arith, c);
    accepted = ground (arith, c);
    copied = e;
  }

  shown_below :
      (k : K) (x : Item V) (m : List (K × Item V)) (v : V) → Shows m v → Shows ((k, x) ∷ m) v
  shown_below k x m v h = record {
    key = h.key;
    item = h.item;
    stands = Memᴰ.tail h.stands;
    numbered = h.numbered;
    live = h.live;
    accepted = h.accepted;
    copied = h.copied;
  }

  collect_items-Shows :
      (m : List (K × Item V)) (y : Item V)
      → Memᴰ y (collect_items kind include_deleted 0 filter m)
      → Shows m y.value
  unfolding collect_items
  collect_items-Shows [] y h = elim h [ ]
  collect_items-Shows ((k, x) ∷ m) y h =
      elim (Bool-cases (collects kind include_deleted 0 filter x)) [
        | inl c ↦
            elim (insert_by_seq-mem y (record x { value = kind.clone x.value })
              (collect_items kind include_deleted 0 filter m) (rw c at h)) [
                | inl e ↦ shown_here k x m y.value c (ap (λ (z : Item V). z.value) e)
                | inr n ↦ shown_below k x m y.value (collect_items-Shows m y n)
              ]
        | inr c ↦ shown_below k x m y.value (collect_items-Shows m y (rw c at h))
      ]

  Shows-collect_items :
      (m : List (K × Item V)) (k : K) (x : Item V)
      → Memᴰ (k, x) m
      → collects kind include_deleted 0 filter x ≡ true
      → Memᴰ
          (record x { value = kind.clone x.value })
          (collect_items kind include_deleted 0 filter m)
  unfolding collect_items
  Shows-collect_items [] k x h c = elim h [ ]
  Shows-collect_items ((j, z) ∷ m) k x h c =
      let copy = record x { value = kind.clone x.value } in
      let rest = collect_items kind include_deleted 0 filter m in
      elim (in_cons h) [
        | inl e ↦
            let same : x ≡ z = ap (λ (p : K × Item V). p.1) e in
            let shown : collects kind include_deleted 0 filter z ≡ true = rw (← same) c in
            rw shown (
              mem-insert_by_seq copy (record z { value = kind.clone z.value }) rest
                (inl (ap (λ (y : Item V). record y { value = kind.clone y.value }) same)))
        | inr n ↦
            let found = Shows-collect_items m k x n c in
            elim (Bool-cases (collects kind include_deleted 0 filter z)) [
              | inl q ↦ rw q (
                  mem-insert_by_seq copy (record z { value = kind.clone z.value }) rest (inr found))
              | inr q ↦ rw q found
            ]
      ]

mem-values : {V : Type 0} (y : Item V) (xs : List (Item V)) → Memᴰ y xs → Memᴰ y.value (values xs)
unfolding values
mem-values y [] h = elim h [ ]
mem-values y (x ∷ xs) h = elim (in_cons h) [
  | inl e ↦ Memᴰ.head (ap (λ (z : Item _). z.value) e)
  | inr m ↦ Memᴰ.tail (mem-values y xs m)
]

values-mem :
    {V : Type 0} (v : V) (xs : List (Item V))
    → Memᴰ v (values xs)
    → (y : Item V) × Memᴰ y xs × (v ≡ y.value)
unfolding values
values-mem v [] h = elim h [ ]
values-mem v (x ∷ xs) h = elim (in_cons h) [
  | inl e ↦ (x, Memᴰ.head refl, e)
  | inr m ↦ let (y, n, e) = values-mem v xs m in (y, Memᴰ.tail n, e)
]

module _ {K V : Type 0} (kind : Kind V) (include_deleted : Bool) (filter : V → Bool)
    (s : Store K V) where
  -- A snapshot has the copy of each value that stands in the store under a positive sequence, that the
  -- filter accepts and that is not deleted, or that is deleted where deleted ones are asked for; it has
  -- no other value.
  pub snapshot_iff :
      (v : V)
      → Memᴰ v (snapshot kind include_deleted filter s)
        ↔ Shows kind include_deleted filter s.items v
  unfolding snapshot collect
  snapshot_iff v = (
    λ h.
        let (y, m, e) = values-mem v _ h in
        rw e (collect_items-Shows kind include_deleted filter s.items y m),
    λ h.
        let c = collects-Shows kind include_deleted filter h.item h.numbered h.live h.accepted in
        rw h.copied (
          mem-values _ _
            (Shows-collect_items kind include_deleted filter s.items h.key h.item h.stands c)),
  )
