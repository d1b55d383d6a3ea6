-- ===== src/Prelude/Maps.antt =====
-- Go's maps with text keys, as association lists: `m[k]` with its `ok` flag, assignment, `delete`.
use Prim.Native.String.{String}
use mathlib.Core.Path.{◌≡◌, refl}
use mathlib.Core.Option.{Option, none, some}
use mathlib.Core.List.{List, [], ◌∷◌}
use native.Mathlib.Omega.{arith}
use cloudstack_csi_driver.Prelude.Tests.{if◌then◌else◌}
use cloudstack_csi_driver.Prelude.Text.{◌=?◌}

abbrev pub Map {ℓ} : Type ℓ → Type ℓ
Map V = List (String × V)

module _ {ℓ} {V : Type ℓ} where
  unfoldable pub lookup : String → Map V → Option V
  lookup k [] = none
  lookup k ((j, v) ∷ m) = if k =? j then some v else lookup k m

  unfoldable pub insert : String → V → Map V → Map V
  insert k v [] = (k, v) ∷ []
  insert k v ((j, w) ∷ m) = if k =? j then (k, v) ∷ m else (j, w) ∷ insert k v m

  -- Every entry of the key goes; a map has at most one.
  unfoldable pub erase : String → Map V → Map V
  erase k [] = []
  erase k ((j, w) ∷ m) = let rest = erase k m in if k =? j then rest else (j, w) ∷ rest

  pub lookup-nil : (k : String) → lookup k [] ≡ none
  unfolding lookup
  lookup-nil k = refl

  pub lookup-insert :
      (j k : String) (v : V) (m : Map V)
      → lookup j (insert k v m) ≡ (if j =? k then some v else lookup j m)
  unfolding insert lookup
  lookup-insert j k v [] = refl
  lookup-insert j k v (_ ∷ m) = ground (arith, lookup-insert j k v m)

  pub lookup-erase :
      (j k : String) (m : Map V) → lookup j (erase k m) ≡ (if j =? k then none else lookup j m)
  unfolding erase lookup
  lookup-erase j k [] = ground arith
  lookup-erase j k (_ ∷ m) = ground (arith, lookup-erase j k m)
