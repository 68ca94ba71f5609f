-- ===== src/Base/Maps.antt =====
-- Go's slices and maps. A nil slice or map is `none`; `elems` is what `range` visits, which for a
-- nil value is nothing. A map's entries stand in one of the orders in which Go may visit them.
use Prim.Native.Nat.{ℕ, suc, ◌+◌}
use Prim.Native.String.{String}
use mathlib.Core.Path.{◌≡◌, refl}
use mathlib.Core.Bool.{Bool, true, false}
use mathlib.Core.Option.{Option, none, some}
use mathlib.Core.List.{List, [], ◌∷◌, ◌++◌}
use native.Mathlib.Omega.{arith}
use text.Mathlib.TextEquality.{eq_iff}
use opampcommander.Base.Tests.{◌==◌, string_eq, if◌then◌else◌}

abbrev pub GoSlice {ℓ} : Type ℓ → Type ℓ
GoSlice A = Option (List A)

abbrev pub Assoc {ℓ} : Type ℓ → Type ℓ
Assoc V = List (String × V)

abbrev pub GoMap {ℓ} : Type ℓ → Type ℓ
GoMap V = Option (Assoc V)

abbrev pub Bytes : Type 0
Bytes = GoSlice ℕ

abbrev pub elems {ℓ} : {A : Type ℓ} → GoSlice A → List A
elems none = []
elems (some xs) = xs

module _ {ℓ} {A : Type ℓ} where
  abbrev pub length : List A → ℕ
  length [] = 0
  length (x ∷ xs) = suc (length xs)

  -- len(x) > 0
  abbrev pub is_cons : List A → Bool
  is_cons [] = false
  is_cons (x ∷ xs) = true

  pub length-append : (xs ys : List A) → length (xs ++ ys) ≡ length xs + length ys
  length-append [] ys = omega arith
  length-append (x ∷ xs) ys = omega (arith, length-append xs ys)

module _ {ℓ} {V : Type ℓ} where
  unfoldable pub lookup : String → Assoc V → Option V
  lookup k [] = none
  lookup k ((j, v) ∷ m) = if j == k then some v else lookup k m

  -- m[k] = v
  unfoldable pub insert : String → V → Assoc V → Assoc V
  insert k v [] = (k, v) ∷ []
  insert k v ((j, w) ∷ m) = if j == k then (k, v) ∷ m else (j, w) ∷ insert k v m

  -- delete(m, k)
  unfoldable pub remove : String → Assoc V → Assoc V
  remove k [] = []
  remove k ((j, w) ∷ m) = let rest = remove k m in if j == k then rest else (j, w) ∷ rest

  -- maps.Copy(dst, src)
  unfoldable pub copy_into : Assoc V → Assoc V → Assoc V
  copy_into dst [] = dst
  copy_into dst ((k, v) ∷ src) = copy_into (insert k v dst) src

  unfoldable pub keys : Assoc V → List String
  keys [] = []
  keys ((k, v) ∷ m) = k ∷ keys m

  pub lookup-insert :
      (at k : String) (new : V) (m : Assoc V)
      → lookup k (insert at new m) ≡ (if at == k then some new else lookup k m)
  unfolding insert lookup
  lookup-insert at k new [] = refl
  lookup-insert at k new ((i, old) ∷ m) =
      ground (arith, lookup-insert at k new m, eq_iff i k, eq_iff i at, eq_iff at k)

  pub lookup-remove :
      (at k : String) (m : Assoc V)
      → lookup k (remove at m) ≡ (if at == k then none else lookup k m)
  unfolding remove lookup
  lookup-remove at k [] = ground arith
  lookup-remove at k ((i, old) ∷ m) =
      ground (arith, lookup-remove at k m, eq_iff i k, eq_iff i at, eq_iff at k)

-- m[k] with the zero value of a string on a missing key.
abbrev pub string_or_empty : Option String → String
string_or_empty none = ""
string_or_empty (some v) = v

unfoldable pub get_string : GoMap String → String → String
get_string m k = string_or_empty (lookup k (elems m))

-- Every entry of `sel` is in `m`: the loop `for k, v := range sel { if w, ok := m[k]; !ok || w != v
-- { return false } }`.
abbrev pub holds_value : Option String → String → Bool
holds_value none v = false
holds_value (some w) v = w == v

unfoldable pub contains_all : Assoc String → Assoc String → Bool
contains_all m [] = true
contains_all m ((k, v) ∷ sel) = if holds_value (lookup k m) v then contains_all m sel else false

-- The key has an entry.
abbrev pub HasKey {ℓ} : {V : Type ℓ} → String → Assoc V → Type ℓ
HasKey {V} k m = (v : V) × (lookup k m ≡ some v)
