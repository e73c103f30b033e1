-- ===== src/Prelude/Runs.antt =====
-- The run of elements that pass a test at the front of a list.
use Prim.Native.Nat.{ℕ, zero, suc, ◌+◌, ◌≤◌}
use mathlib.Core.Path.{◌≡◌}
use mathlib.Core.Logic.{inl, inr}
use mathlib.Core.Bool.{Bool, true}
use mathlib.Core.List.{List, [], ◌∷◌}
use native.Mathlib.Omega.{arith}
use lvhvbox.Prelude.Tests.{if◌then◌else◌, Bool-cases}
use lvhvbox.Prelude.Lists.{length, take, All}

module _ {ℓ} {A : Type ℓ} (test : A → Bool) where
  unfoldable pub run_length : List A → ℕ
  run_length [] = 0
  run_length (x ∷ xs) = if test x then run_length xs + 1 else 0

  -- The first `k` elements exist and pass.
  abbrev pub Passes : ℕ → List A → Type 0
  Passes k xs = (k ≤ length xs) × All (λ x. test x ≡ true) (take k xs)

  pub run_length-Passes : (xs : List A) (k : ℕ) → k ≤ run_length xs → Passes k xs
  unfolding run_length
  run_length-Passes xs zero h = (omega arith, tt)
  run_length-Passes [] (suc k) h = absurd (omega arith)
  run_length-Passes (x ∷ xs) (suc k) h = elim (Bool-cases (test x)) [
    | inl high ↦
        let le : k ≤ run_length xs = ground arith in
        let (short, rest) = run_length-Passes xs k le in (omega arith, (high, rest))
    | inr low ↦ ground arith
  ]

  pub Passes-run_length : (xs : List A) (k : ℕ) → Passes k xs → k ≤ run_length xs
  unfolding run_length
  Passes-run_length xs zero h = omega arith
  Passes-run_length [] (suc k) (h, a) = absurd (omega arith)
  Passes-run_length (x ∷ xs) (suc k) (h, (high, rest)) =
      rw high (omega (arith, Passes-run_length xs k (omega arith, rest)))
