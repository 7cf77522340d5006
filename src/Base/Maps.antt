-- ===== src/Base/Maps.antt =====
-- Go maps with string keys as association lists: a missing key, an insertion over an old value and
-- a deletion behave as in Go. The order of iteration is that of the list.
use fsend.Base.Tests.{if◌then◌else◌}
use mathlib.Core.Path.{◌≡◌, refl}
use mathlib.Core.Bool.{Bool, true}
use mathlib.Core.Option.{Option, none, some}
use mathlib.Core.List.{List, [], ◌∷◌}
pub use Prim.Native.String.{String}
use text.Mathlib.Text.{◌==◌ as str_eq}
use text.Mathlib.TextEquality.{eq_iff}
use native.Mathlib.Omega.{arith}

-- Equality of Go strings.
unfoldable pub same : String → String → Bool
same = str_eq

pub same_iff : (s t : String) → (same s t ≡ true → s ≡ t) × (s ≡ t → same s t ≡ true)
unfolding same
same_iff s t = eq_iff s t

pub same_refl : (s : String) → same s s ≡ true
unfolding same
same_refl s = (eq_iff s s).1 refl

pub same_sym : (s t : String) → same s t ≡ same t s
same_sym s t = ground (arith, same_iff s t, same_iff t s)

module _ {ℓ} {V : Type ℓ} where
  unfoldable pub lookup : String → List (String × V) → Option V
  lookup k [] = none
  lookup k ((j, v) ∷ m) = if same k j then some v else lookup k m

  -- `delete(m, k)`
  unfoldable pub erase : String → List (String × V) → List (String × V)
  erase k [] = []
  erase k ((j, v) ∷ m) = if same k j then erase k m else (j, v) ∷ erase k m

  -- `m[k] = v`
  unfoldable pub insert : String → V → List (String × V) → List (String × V)
  insert k v m = (k, v) ∷ erase k m

  pub lookup-erase :
      (k j : String) (m : List (String × V))
      → lookup j (erase k m) ≡ (if same k j then none else lookup j m)
  unfolding lookup erase
  lookup-erase k j [] = ground arith
  lookup-erase k j ((i, w) ∷ m) =
      ground (arith, same_iff k j, same_iff k i, same_iff j i, lookup-erase k j m)

  pub lookup-insert :
      (k j : String) (v : V) (m : List (String × V))
      → lookup j (insert k v m) ≡ (if same k j then some v else lookup j m)
  unfolding lookup insert
  lookup-insert k j v m = ground (arith, same_iff k j, same_iff j k, lookup-erase k j m)
