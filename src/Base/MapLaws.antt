-- ===== src/Base/MapLaws.antt =====
-- Laws of the maps: what `copy_into`, `contains_all` and a run through all entries mean to a lookup.
use Prim.Native.String.{String}
use mathlib.Core.Path.{◌≡◌, refl}
use mathlib.Core.Logic.{inl, inr}
use mathlib.Core.Bool.{true}
use mathlib.Core.Option.{Option, none, some}
use mathlib.Core.List.{[], ◌∷◌}
use native.Mathlib.Omega.{arith}
use text.Mathlib.TextEquality.{eq_iff}
use opampcommander.Base.Tests.{string_eq, str_eq_refl, Option-cases}
use opampcommander.Base.Maps.{
  Assoc, lookup, insert, copy_into, contains_all, holds_value, lookup-insert,
}

-- No key stands twice, as in every Go map.
abbrev pub IsMap {ℓ} : {V : Type ℓ} → Assoc V → Type ℓ
IsMap [] = Unit
IsMap ((k, v) ∷ m) = (lookup k m ≡ none) × IsMap m

abbrev pub or_else {ℓ} : {V : Type ℓ} → Option V → Option V → Option V
or_else none d = d
or_else (some v) d = some v

pub or_else-none {ℓ} : {V : Type ℓ} (x : Option V) → or_else x none ≡ x
or_else-none none = refl
or_else-none (some x) = refl

module _ {ℓ} {V : Type ℓ} where
  pub insert-IsMap : (k : String) (v : V) (m : Assoc V) → IsMap m → IsMap (insert k v m)
  unfolding insert lookup
  insert-IsMap k v [] h = (refl, tt)
  insert-IsMap k v ((j, w) ∷ m) h =
      ground (arith, insert-IsMap k v m h.1, lookup-insert k j v m, eq_iff j k, eq_iff k j)

  -- The entries of the source win over those of the destination.
  pub lookup-copy_into :
      (k : String) (dst src : Assoc V)
      → IsMap src
      → lookup k (copy_into dst src) ≡ or_else (lookup k src) (lookup k dst)
  unfolding lookup copy_into
  lookup-copy_into k dst [] h = refl
  lookup-copy_into k dst ((j, v) ∷ src) h =
      ground
        (arith, lookup-copy_into k (insert j v dst) src h.1, lookup-insert j k v dst, eq_iff j k)

  pub copy_into-IsMap : (dst src : Assoc V) → IsMap dst → IsMap (copy_into dst src)
  unfolding copy_into
  copy_into-IsMap dst [] h = h
  copy_into-IsMap dst ((j, v) ∷ src) h =
      copy_into-IsMap (insert j v dst) src (insert-IsMap j v dst h)

pub contains_all_sound :
    (m sel : Assoc String) (k v : String)
    → contains_all m sel ≡ true
    → lookup k sel ≡ some v
    → lookup k m ≡ some v
unfolding contains_all lookup
contains_all_sound m [] k v h e = cc
contains_all_sound m ((j, w) ∷ sel) k v h e = elim (Option-cases (lookup j m)) [
  | inl n ↦ ground (arith, n)
  | inr (u, s) ↦ ground (arith, s, eq_iff j k, eq_iff u w, contains_all_sound m sel k v)
]

-- An entry further down is not the first, whose key it does not have.
pub lookup-tail {ℓ} :
    {V : Type ℓ} (j k : String) (w v : V) (m : Assoc V)
    → lookup j m ≡ none
    → lookup k m ≡ some v
    → lookup k ((j, w) ∷ m) ≡ some v
unfolding lookup
lookup-tail j k w v m h e = ground (arith, eq_iff j k)

pub lookup-head {ℓ} :
    {V : Type ℓ} (j : String) (w : V) (m : Assoc V) → lookup j ((j, w) ∷ m) ≡ some w
unfolding lookup
lookup-head j w m = rw (str_eq_refl j)

pub contains_all_complete :
    (m sel : Assoc String)
    → IsMap sel
    → ((k v : String) → lookup k sel ≡ some v → lookup k m ≡ some v)
    → contains_all m sel ≡ true
unfolding contains_all
contains_all_complete m [] h f = refl
contains_all_complete m ((j, w) ∷ sel) h f =
    rw (f j w (lookup-head j w sel), holds_value, str_eq_refl w)
      (contains_all_complete m sel h.1 λ k v e. f k v (lookup-tail j k w v sel h.0 e))
