-- ===== src/Store/Pages/Walk.antt =====
-- store.go: a client that follows the continue tokens of `list`.
use opampcommander.Base.{
  ℕ, ℤ, pos, zero, suc, ◌≤◌, ◌<◌, ◌≡◌, refl, sym, ap, ◌∙◌, ◌≢◌, inl, inr, Bool, true, Option, none,
  some, List, [], ◌∷◌, ◌++◌, arith, ltb, nat_eq, string_eq, Bool-cases, length, is_cons, Result, ok,
  err,
}
use opampcommander.Store.Ops.{
  Store, Item, Kind, collects, collect_items, collect, values, snapshot, Token, ListOptions,
  no_options, ListResponse, parse_token, page_of, last_seq, token_after, take, drop, respond, list,
}
use opampcommander.Store.Pages.{
  past, past-insert_by_seq, Ascending, past-past, Apart, insert-Apart, insert-Ascending, last_seq-≥,
  past-last_seq, page_of-take,
}

-- The sequences of a store differ from each other and lie below its next one.
abbrev pub SeqNotIn {ℓ} : {K V : Type ℓ} → ℕ → List (K × Item V) → Type 0
SeqNotIn s [] = Unit
SeqNotIn s ((k, x) ∷ m) = (s ≢ x.seq) × SeqNotIn s m

abbrev pub SeqsDiffer {ℓ} : {K V : Type ℓ} → List (K × Item V) → Type 0
SeqsDiffer [] = Unit
SeqsDiffer ((k, x) ∷ m) = SeqNotIn x.seq m × SeqsDiffer m

module _ {ℓ} {K V : Type ℓ} (kind : Kind V) (include_deleted : Bool) (filter : V → Bool) where
  collect-past :
      (a : ℕ) (m : List (K × Item V))
      → collect_items kind include_deleted a filter m
        ≡ past a (collect_items kind include_deleted 0 filter m)
  unfolding collect_items collects past
  collect-past a [] = refl
  collect-past a ((k, x) ∷ m) = ground (
    arith,
    collect-past a m,
    past-insert_by_seq a (record x { value = kind.clone x.value })
        (collect_items kind include_deleted 0 filter m),
  )

  collect-Apart :
      (s a : ℕ) (m : List (K × Item V))
      → SeqNotIn s m
      → Apart s (collect_items kind include_deleted a filter m)
  unfolding collect_items collects
  collect-Apart s a [] h = tt
  collect-Apart s a ((k, x) ∷ m) h = ground (
    arith,
    h,
    collect-Apart s a m h.1,
    insert-Apart s (record x { value = kind.clone x.value })
        (collect_items kind include_deleted a filter m),
  )

  collect-Ascending :
      (a : ℕ) (m : List (K × Item V))
      → SeqsDiffer m
      → Ascending a (collect_items kind include_deleted a filter m)
  unfolding collect_items collects
  collect-Ascending a [] h = tt
  collect-Ascending a ((k, x) ∷ m) h = ground (
    arith,
    h,
    collect-Ascending a m h.1,
    collect-Apart x.seq a m h.0,
    insert-Ascending a (record x { value = kind.clone x.value })
        (collect_items kind include_deleted a filter m),
  )

-- What the client holds: `none` when it gave up before the last page.
abbrev pub Walked {ℓ} : Type ℓ → Type ℓ
Walked V = Option (Result (List V))

abbrev and_then {ℓ} : {V : Type ℓ} → List V → Walked V → Walked V
and_then xs none = none
and_then xs (some (err e)) = some (err e)
and_then xs (some (ok ys)) = some (ok (xs ++ ys))

abbrev follow {ℓ} : {V : Type ℓ} → List V → Token → (Token → Walked V) → Walked V
follow [] t k = some (ok [])
follow (x ∷ xs) Token.empty k = some (ok (x ∷ xs))
follow (x ∷ xs) t k = and_then (x ∷ xs) (k t)

abbrev read_page {ℓ} : {V : Type ℓ} → Result (ListResponse V) → (Token → Walked V) → Walked V
read_page (err e) k = some (err e)
read_page (ok r) k = follow r.items r.continue_token k

abbrev pub page_options : ℤ → Bool → Token → ListOptions
page_options limit include_deleted t = record no_options {
  limit = limit;
  include_deleted = include_deleted;
  continue_token = t;
}

-- At most that many requests, from a token on.
unfoldable pub walk {ℓ} :
    {K V : Type ℓ} → ℕ → Kind V → ℤ → Bool → (V → Bool) → Store K V → Token → Walked V
unfolding list
walk zero kind limit include_deleted filter s t = none
walk (suc fuel) kind limit include_deleted filter s t =
    read_page (list kind (page_options limit include_deleted t) filter s)
      (walk fuel kind limit include_deleted filter s)

values-append {ℓ} :
    {V : Type ℓ} (n : ℕ) (xs : List (Item V)) → values (take n xs) ++ values (drop n xs) ≡ values xs
unfolding values
values-append zero xs = refl
values-append (suc n) [] = refl
values-append (suc n) (x ∷ xs) = ap (x.value ∷◌) (values-append n xs)

length-values {ℓ} : {V : Type ℓ} (xs : List (Item V)) → length (values xs) ≡ length xs
unfolding values
length-values [] = refl
length-values (x ∷ xs) = omega (arith, length-values xs)

length-drop {ℓ} : {A : Type ℓ} (n : ℕ) (xs : List A) → length (drop n xs) ≤ length xs
length-drop zero xs = omega arith
length-drop (suc n) [] = omega arith
length-drop (suc n) (x ∷ xs) = omega (arith, length-drop n xs)

length-drop-suc {ℓ} :
    {A : Type ℓ} (n : ℕ) (xs : List A) → is_cons xs ≡ true → length (drop (suc n) xs) < length xs
length-drop-suc n [] h = cc
length-drop-suc n (x ∷ xs) h = omega (arith, length-drop n xs)

page_of-pos {ℓ} :
    {V : Type ℓ} (n : ℕ) (xs : List (Item V)) → page_of (pos (suc n)) xs ≡ take (suc n) xs
unfolding page_of
page_of-pos n xs = elim (Bool-cases (ltb (suc n) (length xs))) [
  | inl e ↦ rw e
  | inr e ↦ rw e (sym (page_of-take n xs (ground arith)))
]

read_page-respond {ℓ} :
    {V : Type ℓ} (n : ℕ) (c : List (Item V)) (k : Token → Walked V) {a : ℕ}
    → Ascending a c
    → ((b : ℕ)
        → a ≤ b
        → is_cons c ≡ true
        → past b c ≡ drop (suc n) c
        → k (Token.number b) ≡ some (ok (values (drop (suc n) c))))
    → read_page (ok (respond (pos (suc n)) c)) k ≡ some (ok (values c))
unfolding respond page_of values token_after last_seq
read_page-respond {V} n [] k s f = rw (page_of-pos {V = V} n []) refl
read_page-respond n (x ∷ xs) k s f =
    let page =
      f (last_seq x.seq (take n xs)) (omega (arith, s.0, last_seq-≥ x.seq n xs s.1)) refl
        (past-last_seq n x xs s) in
    rw (page_of-pos n (x ∷ xs), page) (ap (λ ys. some (ok (x.value ∷ ys))) (values-append n xs))

module _ {ℓ} {K V : Type ℓ} (kind : Kind V) (include_deleted : Bool) (filter : V → Bool)
    (s : Store K V) (n : ℕ) where
  abbrev candidates : ℕ → List (Item V)
  candidates a = collect_items kind include_deleted a filter s.items

  candidates-past : (a b : ℕ) → a ≤ b → candidates b ≡ past b (candidates a)
  candidates-past a b h =
      collect-past kind include_deleted filter b s.items
      ∙ sym (past-past a b (candidates 0) h)
      ∙ ap (past b) (sym (collect-past kind include_deleted filter a s.items))

  walk-from :
      (fuel a : ℕ)
      → SeqsDiffer s.items
      → length (candidates a) < fuel
      → walk fuel kind (pos (suc n)) include_deleted filter s (Token.number a)
        ≡ some (ok (values (candidates a)))
  unfolding walk list parse_token collect
  walk-from zero a d h = absurd (omega (arith, h))
  walk-from (suc fuel) a d h =
      read_page-respond n (candidates a) (walk fuel kind (pos (suc n)) include_deleted filter s)
        (collect-Ascending kind include_deleted filter a s.items d)
        (λ b le cons e.
          let there = candidates-past a b le ∙ e in
          walk-from fuel b d
            (omega (arith, h, ap length there, length-drop-suc n (candidates a) cons))
          ∙ ap (λ c. some (ok (values c))) there)

  -- With the store unchanged meanwhile, following the tokens of `list` from an empty one with any
  -- positive limit, until a page is empty, reads every value of the snapshot, in its order and once,
  -- in at most one request more than there are values.
  pub walk-snapshot :
      SeqsDiffer s.items
      → walk
          (suc (length (snapshot kind include_deleted filter s)))
          kind
          (pos (suc n))
          include_deleted
          filter
          s
          Token.empty
        ≡ some (ok (snapshot kind include_deleted filter s))
  unfolding snapshot collect walk list parse_token
  walk-snapshot d =
      walk-from (suc (length (snapshot kind include_deleted filter s))) 0 d
        (omega (arith, length-values (candidates 0)))
