-- ===== src/Base/Order.antt =====
-- Go's `<` on strings: by their bytes, which is by the numbers of their characters.
use Prim.Native.Nat.{Ordering, compare as compare_nat}
use Prim.Native.String.{String, [], ◌∷◌, compare, then}
use Prim.Native.Char.{code}
use Prim.Native.String.compare
use mathlib.Core.Path.{◌≡◌, refl, sym, ◌∙◌}
use mathlib.Core.Bool.{Bool, true, false}
use native.Mathlib.Omega.{arith}
use text.Mathlib.TextPositions.{compare_refl}
use text.Mathlib.TextEquality.{path_by_compare}

is_lt : Ordering → Bool
is_lt Ordering.lt = true
is_lt _ = false

unfoldable pub string_ltb : String → String → Bool
unfolding is_lt
string_ltb s t = is_lt (compare s t)

swapped : (s t : String) → compare s t ≡ Ordering.gt → compare t s ≡ Ordering.lt
swapped [] [] h = absurd (cc (sym compare.nil-nil ∙ h))
swapped [] (d ∷ t) h = absurd (cc (sym (compare.nil-cons d t) ∙ h))
swapped (c ∷ s) [] h = compare.nil-cons c s
swapped (c ∷ s) (d ∷ t) h = rw (compare.cons-cons d c t s) (
    let h' : then (compare_nat (code c) (code d)) (compare s t) ≡ Ordering.gt =
      sym (compare.cons-cons c d s t) ∙ h in
    ground (arith, swapped s t, h'))

transitive :
    (s t u : String)
    → compare s t ≡ Ordering.lt
    → compare t u ≡ Ordering.lt
    → compare s u ≡ Ordering.lt
transitive [] [] u h k = absurd (cc (sym compare.nil-nil ∙ h))
transitive [] (d ∷ t) [] h k = absurd (cc (sym (compare.cons-nil d t) ∙ k))
transitive [] (d ∷ t) (e ∷ u) h k = compare.nil-cons e u
transitive (c ∷ s) [] u h k = absurd (cc (sym (compare.cons-nil c s) ∙ h))
transitive (c ∷ s) (d ∷ t) [] h k = absurd (cc (sym (compare.cons-nil d t) ∙ k))
transitive (c ∷ s) (d ∷ t) (e ∷ u) h k = rw (compare.cons-cons c e s u) (
    let h' : then (compare_nat (code c) (code d)) (compare s t) ≡ Ordering.lt =
      sym (compare.cons-cons c d s t) ∙ h in
    let k' : then (compare_nat (code d) (code e)) (compare t u) ≡ Ordering.lt =
      sym (compare.cons-cons d e t u) ∙ k in
    ground (arith, transitive s t u, h', k'))

is_lt-true : (o : Ordering) → is_lt o ≡ true → o ≡ Ordering.lt
unfolding is_lt
is_lt-true Ordering.lt h = refl
is_lt-true Ordering.eq h = cc
is_lt-true Ordering.gt h = cc

-- Two strings neither of which is below the other are equal.
pub string_ltb-total : (s t : String) → string_ltb s t ≡ false → string_ltb t s ≡ false → s ≡ t
unfolding string_ltb is_lt
string_ltb-total s t h k = path_by_compare s t (neither (compare s t) refl h)
  where
    neither : (o : Ordering) → compare s t ≡ o → is_lt o ≡ false → o ≡ Ordering.eq
    neither Ordering.lt e h = cc
    neither Ordering.eq e h = refl
    neither Ordering.gt e h = absurd (let f : true ≡ false = rw (swapped s t e) at k in cc f)

pub string_ltb_trans :
    (s t u : String) → string_ltb s t ≡ true → string_ltb t u ≡ true → string_ltb s u ≡ true
unfolding string_ltb is_lt
string_ltb_trans s t u h k = rw (transitive s t u (is_lt-true _ h) (is_lt-true _ k)) refl

pub string_ltb_irrefl : (s : String) → string_ltb s s ≡ false
unfolding string_ltb is_lt
string_ltb_irrefl s = rw (compare_refl s) refl
