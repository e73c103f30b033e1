-- ===== src/Prelude/Maps.antt =====
-- Python dictionaries as association lists in the order of insertion, under a test of equal keys.
use mathlib.Core.Bool.{Bool}
use mathlib.Core.List.{List, [], ◌∷◌}
use mathlib.Core.Option.{Option, none, some}
use lvhvbox.Prelude.Tests.{if◌then◌else◌}
use lvhvbox.Prelude.Results.{Result, ok, err, key_error}

module _ {ℓ κ} {K : Type ℓ} {V : Type κ} (same_key : K → K → Bool) where
  -- `d.get(k)`
  abbrev pub find : K → List (K × V) → Option V
  find k [] = none
  find k ((j, v) ∷ rest) = if same_key j k then some v else find k rest

  -- `d[k]`
  abbrev pub fetch : K → List (K × V) → Result V
  fetch k [] = err key_error
  fetch k ((j, v) ∷ rest) = if same_key j k then ok v else fetch k rest

  -- `d[k] = v`
  abbrev pub store : K → V → List (K × V) → List (K × V)
  store k v [] = (k, v) ∷ []
  store k v ((j, w) ∷ rest) = if same_key j k then (j, v) ∷ rest else (j, w) ∷ store k v rest

  -- `d.pop(k, None)`
  abbrev pub erase : K → List (K × V) → List (K × V)
  erase k [] = []
  erase k ((j, w) ∷ rest) = if same_key j k then rest else (j, w) ∷ erase k rest
