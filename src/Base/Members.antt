-- ===== src/Base/Members.antt =====
-- Membership in a list that was put together.
use mathlib.Core.Path.{◌≡◌}
use mathlib.Core.Logic.{◌⊎◌, inl, inr}
use mathlib.Core.List.{List, [], ◌∷◌, ◌++◌, Memᴰ}

pub in_cons {ℓ} : {A : Type ℓ} {g x : A} {r : List A} → Memᴰ g (x ∷ r) → (g ≡ x) ⊎ Memᴰ g r
in_cons (Memᴰ.head e) = inl e
in_cons (Memᴰ.tail m) = inr m

pub mem-append {ℓ} :
    {A : Type ℓ} (g : A) (xs ys : List A) → Memᴰ g (xs ++ ys) → Memᴰ g xs ⊎ Memᴰ g ys
mem-append g [] ys m = inr m
mem-append g (x ∷ xs) ys (Memᴰ.head e) = inl (Memᴰ.head e)
mem-append g (x ∷ xs) ys (Memᴰ.tail m) = elim (mem-append g xs ys m) [
  | inl l ↦ inl (Memᴰ.tail l)
  | inr r ↦ inr r
]

pub append_left {ℓ} : {A : Type ℓ} (g : A) (xs ys : List A) → Memᴰ g xs → Memᴰ g (xs ++ ys)
append_left g [] ys m = elim m [ ]
append_left g (x ∷ xs) ys (Memᴰ.head e) = Memᴰ.head e
append_left g (x ∷ xs) ys (Memᴰ.tail m) = Memᴰ.tail (append_left g xs ys m)

pub append_right {ℓ} : {A : Type ℓ} (g : A) (xs ys : List A) → Memᴰ g ys → Memᴰ g (xs ++ ys)
append_right g [] ys m = m
append_right g (x ∷ xs) ys m = Memᴰ.tail (append_right g xs ys m)
