-- ===== src/Base/Submaps.antt =====
-- Maps with the same entries: `maps.Equal` compares the numbers of entries and looks up those of
-- one map in the other.
use Prim.Native.Nat.{◌≤◌, ◌<◌}
use Prim.Native.String.{String}
use mathlib.Core.Path.{◌≡◌, sym, ◌∙◌}
use mathlib.Core.Logic.{inl, inr}
use mathlib.Core.Bool.{false}
use mathlib.Core.Option.{Option, none, some}
use mathlib.Core.List.{[], ◌∷◌}
use native.Mathlib.Omega.{arith}
use text.Mathlib.TextEquality.{eq_iff}
use opampcommander.Base.Tests.{◌==◌, string_eq, Bool-cases, Option-cases}
use opampcommander.Base.Maps.{Assoc, lookup, remove, lookup-remove, length}
use opampcommander.Base.MapLaws.{IsMap, lookup-tail, lookup-head}

module _ {ℓ} {V : Type ℓ} where
  -- Every entry of the first stands in the second.
  abbrev pub Within : Assoc V → Assoc V → Type ℓ
  Within a b = (k : String) (v : V) → lookup k a ≡ some v → lookup k b ≡ some v

  length-remove_le : (k : String) (m : Assoc V) → length (remove k m) ≤ length m
  unfolding remove
  length-remove_le k [] = omega arith
  length-remove_le k ((j, w) ∷ m) = ground (arith, length-remove_le k m)

  length-remove :
      (k : String) (v : V) (m : Assoc V) → lookup k m ≡ some v → length (remove k m) < length m
  unfolding remove lookup
  length-remove k v [] h = absurd (let f : ◌≡◌ {A = Option V} none (some v) = h in cc f)
  length-remove k v ((j, w) ∷ m) h = elim (Bool-cases (j == k)) [
    | inl q ↦ rw q (omega (arith, length-remove_le k m))
    | inr q ↦ rw q (omega (arith, length-remove k v m (rw q at h)))
  ]

  absent :
      (j k : String) (v : V) (a : Assoc V)
      → lookup k a ≡ none
      → lookup j a ≡ some v
      → (k == j) ≡ false
  absent j k v a n h = elim (Bool-cases (k == j)) [
    | inl q ↦ absurd (
        let same : k ≡ j = (eq_iff k j).0 q in
        let f : ◌≡◌ {A = Option V} none (some v) = sym n ∙ rw same h in cc f)
    | inr q ↦ q
  ]

  -- A map has at most as many entries as one that it stands in.
  pub length-Within : (a b : Assoc V) → IsMap a → Within a b → length a ≤ length b
  length-Within [] b h w = omega arith
  length-Within ((k, v) ∷ a) b h w =
      let smaller = length-remove k v b (w k v (lookup-head k v a)) in
      let rest : Within a (remove k b) = λ j x e.
        lookup-remove k j b ∙ rw (absent j k x a h.0 e) (w j x (lookup-tail k j v x a h.0 e)) in
      omega (arith, smaller, length-Within a (remove k b) h.1 rest)

  extended :
      (k : String) (v : V) (a b : Assoc V)
      → Within a b
      → lookup k b ≡ some v
      → Within ((k, v) ∷ a) b
  unfolding lookup
  extended k v a b w at j x l = elim (Bool-cases (k == j)) [
    | inl q ↦
        let here : some v ≡ some x = rw q at l in
        let same : k ≡ j = (eq_iff k j).0 q in rw (← same) (at ∙ here)
    | inr q ↦ w j x (rw q at l)
  ]

  -- With as many entries, the second has no other ones.
  pub Within-length : (a b : Assoc V) → IsMap a → Within a b → length a ≡ length b → Within b a
  Within-length a b h w e k v at = elim (Option-cases (lookup k a)) [
    | inl n ↦ absurd (
        let more = length-Within ((k, v) ∷ a) b (n, h) (extended k v a b w at) in
        omega (arith, e, more))
    | inr (u, s) ↦ s ∙ (sym (w k u s) ∙ at)
  ]
