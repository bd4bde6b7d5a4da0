-- ===== src/Base/Maps.antt =====
-- Association lists, for objects and for accounts by their key.
use mathlib.Core.Path.{◌≡◌, refl}
use mathlib.Core.Logic.{inl, inr}
use mathlib.Core.Bool.{Bool}
use mathlib.Core.List.{List, [], ◌∷◌}
use mathlib.Core.Option.{Option, none, some}
use native.Mathlib.Omega.{arith}
use chainpipe.Base.Tests.{if◌then◌else◌, Bool-cases}
use chainpipe.Base.Text.{Text}
use chainpipe.Base.Encodings.{text_eq, text_eq_sound, text_eq_refl}

-- Reading and writing a key of an object, for a test of equality on keys.
abbrev pub lookup {ℓ κ} : {K : Type ℓ} {V : Type κ} → (K → K → Bool) → K → List (K × V) → Option V
lookup eq k [] = none
lookup eq k ((j, v) ∷ rest) = if eq j k then some v else lookup eq k rest

abbrev pub write {ℓ κ} :
    {K : Type ℓ} {V : Type κ} → (K → K → Bool) → K → V → List (K × V) → List (K × V)
write eq k v [] = (k, v) ∷ []
write eq k v ((j, w) ∷ rest) = if eq j k then (j, v) ∷ rest else (j, w) ∷ write eq k v rest

-- A key is read as it was written last.
pub lookup-write {ℓ} :
    {V : Type ℓ} (k j : Text) (v : V) (m : List (Text × V))
    → lookup text_eq k (write text_eq j v m) ≡ (if text_eq j k then some v else lookup text_eq k m)
lookup-write k j v [] = refl
lookup-write k j v ((l, w) ∷ m) = elim (Bool-cases (text_eq l j)) [
  | inl same ↦ ground (arith, text_eq_sound l j same)
  | inr other ↦
      ground (arith, lookup-write k j v m, text_eq_sound l k, text_eq_sound j k, text_eq_refl j)
]
