-- ===== src/Store/Ops.antt =====
-- store.go: a map from keys to values with an insertion sequence. A uint64 and an int64 are their
-- 64-bit patterns. Locks are left out: each method holds the lock for as long as it runs.
use opampcommander.Base.{
  ℕ, ℤ, pos, negsuc, zero, suc, ◌+◌, ◌-◌, GoMap, String, ◌^◌, ◌%◌, Bool, false, not, ◌&&◌, Option,
  none, some, List, [], ◌∷◌, ltb, leb, if◌then◌else◌, ◌==◌, Eq, nat_eq, string_eq, is_some, length,
  Error, resource_not_exist, conflict, invalid_continue_token, Result, ok, err, ◌>>=◌,
}

abbrev pub u64_mod : ℕ
u64_mod = 2 ^ 64

pub record Item {ℓ} (V : Type ℓ) : Type ℓ where
  pub seq : ℕ
  pub value : V

pub record Store {ℓ} (K : Type ℓ) (V : Type ℓ) : Type ℓ where
  pub items : List (K × Item V)
  pub next_seq : ℕ

-- What a store is made with: the deep copy, and the soft-delete timestamp where the type has one.
-- `none` inside is a nil `*time.Time`.
pub record Kind {ℓ} (V : Type ℓ) : Type ℓ where
  pub clone : V → V
  pub deleted_at : Option (V → Option ℕ)

unfoldable pub new_store {ℓ} : {K V : Type ℓ} → Store K V
new_store = record { items = []; next_seq = 1 }

abbrev zero_time : ℕ
zero_time = 0

deleted_by_time : Option ℕ → Bool
deleted_by_time none = false
deleted_by_time (some t) = not (t == zero_time)

deleted_by_kind {ℓ} : {V : Type ℓ} → Option (V → Option ℕ) → V → Bool
unfolding deleted_by_time
deleted_by_kind none v = false
deleted_by_kind (some f) v = deleted_by_time (f v)

unfoldable pub is_deleted {ℓ} : {V : Type ℓ} → Kind V → V → Bool
unfolding deleted_by_kind
is_deleted k v = deleted_by_kind k.deleted_at v

unfoldable pub visible {ℓ} : {V : Type ℓ} → Kind V → Bool → Option (Item V) → Result V
unfolding is_deleted
visible kind include_deleted none = err resource_not_exist
visible kind include_deleted (some x) =
    if is_deleted kind x.value && not include_deleted
    then err resource_not_exist
    else ok (kind.clone x.value)

module _ {ℓ} {K V : Type ℓ} ⦃e : Eq K⦄ where
  unfoldable pub find_item : K → List (K × Item V) → Option (Item V)
  find_item k [] = none
  find_item k ((j, x) ∷ m) = if j == k then some x else find_item k m

  -- The value under a key that has an item; the sequence stays.
  unfoldable pub set_value : K → V → List (K × Item V) → List (K × Item V)
  set_value k v [] = []
  set_value k v ((j, x) ∷ m) =
      if j == k then (j, record x { value = v }) ∷ m else (j, x) ∷ set_value k v m

  unfoldable pub remove_item : K → List (K × Item V) → List (K × Item V)
  remove_item k [] = []
  remove_item k ((j, x) ∷ m) = let rest = remove_item k m in if j == k then rest else (j, x) ∷ rest

  -- `include_deleted` is false for nil options.
  unfoldable pub get : Kind V → Store K V → K → Bool → Result V
  unfolding visible find_item
  get kind s k include_deleted = visible kind include_deleted (find_item k s.items)

  unfoldable pub add_item : K → V → Store K V → Store K V
  add_item k v s = record {
    items = (k, record { seq = s.next_seq; value = v }) ∷ s.items;
    next_seq = (s.next_seq + 1) % u64_mod;
  }

  unfoldable pub put : Kind V → K → V → Store K V → Store K V
  unfolding find_item set_value add_item
  put kind k v s =
      if is_some (find_item k s.items)
      then record s { items = set_value k (kind.clone v) s.items }
      else add_item k (kind.clone v) s

  cas_with : Kind V → K → V → ℕ → (V → ℕ) → Store K V → Option (Item V) → Store K V × Option Error
  unfolding set_value add_item
  cas_with kind k v expected version_of s (some x) =
      if version_of x.value == expected
      then (record s { items = set_value k (kind.clone v) s.items }, none)
      else (s, some conflict)
  cas_with kind k v expected version_of s none =
      if expected == 0 then (add_item k (kind.clone v) s, none) else (s, some conflict)

  unfoldable pub cas_put : Kind V → K → V → ℕ → (V → ℕ) → Store K V → Store K V × Option Error
  unfolding cas_with find_item
  cas_put kind k v expected version_of s =
      cas_with kind k v expected version_of s (find_item k s.items)

  unfoldable pub cas_put_or_create :
      Kind V → K → V → ℕ → (V → ℕ) → Store K V → Store K V × Option Error
  unfolding put cas_put
  cas_put_or_create kind k v expected version_of s =
      if expected == 0 then (put kind k v s, none) else cas_put kind k v expected version_of s

  unfoldable pub delete : K → Store K V → Store K V × Option Error
  unfolding find_item remove_item
  delete k s =
      if is_some (find_item k s.items)
      then (record s { items = remove_item k s.items }, none)
      else (s, some resource_not_exist)

module _ {ℓ} {V : Type ℓ} where
  -- The tests of the `switch`: a `filter` that accepts all stands for a nil one.
  unfoldable pub collects : Kind V → Bool → ℕ → (V → Bool) → Item V → Bool
  unfolding is_deleted
  collects kind include_deleted after filter x =
      if not include_deleted && is_deleted kind x.value
      then false
      else if leb x.seq after
      then false
      else filter x.value

  -- slices.SortFunc by the sequence.
  unfoldable pub insert_by_seq : Item V → List (Item V) → List (Item V)
  insert_by_seq x [] = x ∷ []
  insert_by_seq x (y ∷ ys) = if leb x.seq y.seq then x ∷ y ∷ ys else y ∷ insert_by_seq x ys

module _ {ℓ} {K V : Type ℓ} where
  unfoldable pub collect_items : Kind V → Bool → ℕ → (V → Bool) → List (K × Item V) → List (Item V)
  unfolding collects insert_by_seq
  collect_items kind include_deleted after filter [] = []
  collect_items kind include_deleted after filter ((k, x) ∷ m) =
      let rest = collect_items kind include_deleted after filter m in
      if collects kind include_deleted after filter x
      then insert_by_seq (record x { value = kind.clone x.value }) rest
      else rest

  unfoldable pub collect : Kind V → Bool → ℕ → (V → Bool) → Store K V → List (Item V)
  unfolding collect_items
  collect kind include_deleted after filter s =
      collect_items kind include_deleted after filter s.items

unfoldable pub values {ℓ} : {V : Type ℓ} → List (Item V) → List V
values [] = []
values (x ∷ xs) = x.value ∷ values xs

unfoldable pub snapshot {ℓ} : {K V : Type ℓ} → Kind V → Bool → (V → Bool) → Store K V → List V
unfolding collect values
snapshot kind include_deleted filter s = values (collect kind include_deleted 0 filter s)

-- The text of a continue token: empty, a decimal below 2^64, or anything else, also a larger decimal.
pub data Token : Type 0 where
  empty : Token
  number : ℕ → Token
  malformed : Token

pub record ListOptions : Type 0 where
  pub limit : ℤ
  pub continue_token : Token
  pub include_deleted : Bool
  pub connected_only : Bool
  pub identifying_attributes : GoMap String
  pub non_identifying_attributes : GoMap String

-- model.ListOptions, and what a nil one stands for.
abbrev pub no_options : ListOptions
no_options = record {
  limit = pos 0;
  continue_token = Token.empty;
  include_deleted = false;
  connected_only = false;
  identifying_attributes = none;
  non_identifying_attributes = none;
}

pub record ListResponse {ℓ} (V : Type ℓ) : Type ℓ where
  pub items : List V
  pub continue_token : Token
  pub remaining_item_count : ℕ

unfoldable pub parse_token : Token → Result ℕ
parse_token Token.empty = ok 0
parse_token (Token.number n) = ok n
parse_token Token.malformed = err invalid_continue_token

module _ {ℓ} {A : Type ℓ} where
  abbrev pub take : ℕ → List A → List A
  take zero xs = []
  take (suc n) [] = []
  take (suc n) (x ∷ xs) = x ∷ take n xs

  abbrev pub drop : ℕ → List A → List A
  drop zero xs = xs
  drop (suc n) [] = []
  drop (suc n) (x ∷ xs) = drop n xs

-- The candidates up to a positive limit.
unfoldable pub page_of {ℓ} : {A : Type ℓ} → ℤ → List A → List A
page_of (negsuc n) xs = xs
page_of (pos zero) xs = xs
page_of (pos (suc n)) xs = if ltb (suc n) (length xs) then take (suc n) xs else xs

-- `lastSeq` after the loop.
unfoldable pub last_seq {ℓ} : {V : Type ℓ} → ℕ → List (Item V) → ℕ
last_seq s [] = s
last_seq s (x ∷ xs) = last_seq x.seq xs

unfoldable pub token_after {ℓ} : {V : Type ℓ} → List (Item V) → Token
unfolding last_seq
token_after [] = Token.empty
token_after (x ∷ xs) = Token.number (last_seq 0 (x ∷ xs))

unfoldable pub respond {ℓ} : {V : Type ℓ} → ℤ → List (Item V) → ListResponse V
unfolding page_of token_after values
respond limit candidates =
    let page = page_of limit candidates in
    record {
      items = values page;
      continue_token = token_after page;
      remaining_item_count = length candidates - length page;
    }

unfoldable pub list {ℓ} :
    {K V : Type ℓ} → Kind V → ListOptions → (V → Bool) → Store K V → Result (ListResponse V)
unfolding parse_token respond collect
list kind options filter s = parse_token options.continue_token >>= λ after.
    ok (respond options.limit (collect kind options.include_deleted after filter s))
