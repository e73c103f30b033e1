-- ===== src/RocMonitor/Batches.antt =====
-- The messages that `notify` makes of the pending alerts.
use mathlib.Core.List.{flatten}
use lvhvbox.Prelude.{
  ℕ, ◌+◌, ◌≤◌, ◌<◌, ◌≡◌, refl, true, false, ◌⊎◌, inl, inr, List, [], ◌∷◌, ◌++◌, All, append_assoc,
  length-append, length, Bool-cases, arith,
}
use lvhvbox.RocMonitor.{Key}
use lvhvbox.RocMonitor.Notify.{sum_size, message_size, overflows, split_batches, batches}

-- A message's text is short, or carries a single alert.
pub IsMessage : (Key → ℕ) → ℕ → List Key → Type 0
IsMessage size action batch =
    (1 ≤ length batch) × ((message_size size action batch < 1000) ⊎ (length batch ≡ 1))

split-flatten :
    (size : Key → ℕ) (action : ℕ) (ks batch : List Key)
    → flatten (split_batches size action batch ks) ≡ batch ++ ks
unfolding split_batches flatten
split-flatten size action [] [] = refl
split-flatten size action [] (k ∷ batch) = refl
split-flatten size action (k ∷ ks) batch = elim (Bool-cases (overflows size action batch k)) [
  | inl e ↦ rw (e, split-flatten size action ks (k ∷ [])) refl
  | inr e ↦ rw (e, split-flatten size action ks (batch ++ k ∷ [])) (append_assoc batch (k ∷ []) ks)
]

sum_size-append :
    (size : Key → ℕ) (ks : List Key) (k : Key)
    → sum_size size (ks ++ k ∷ []) ≡ sum_size size ks + size k
sum_size-append size [] k = omega arith
sum_size-append size (j ∷ ks) k = omega (arith, sum_size-append size ks k)

full_nonempty :
    (size : Key → ℕ) (action : ℕ) (batch : List Key) (k : Key)
    → overflows size action batch k ≡ true
    → 1 ≤ length batch
full_nonempty size action [] k e = cc
full_nonempty size action (j ∷ js) k e = omega arith

grown-IsMessage :
    (size : Key → ℕ) (action : ℕ) (batch : List Key) (k : Key)
    → overflows size action batch k ≡ false
    → IsMessage size action (batch ++ k ∷ [])
unfolding IsMessage
grown-IsMessage size action [] k e = (omega arith, inr refl)
grown-IsMessage size action (j ∷ js) k e =
    (omega arith, inl (ground (arith, sum_size-append size js k, length-append js (k ∷ []))))

single-IsMessage : (size : Key → ℕ) (action : ℕ) (k : Key) → IsMessage size action (k ∷ [])
unfolding IsMessage
single-IsMessage size action k = (omega arith, inr refl)

split-IsMessage :
    (size : Key → ℕ) (action : ℕ) (ks batch : List Key)
    → (1 ≤ length batch → IsMessage size action batch)
    → All (IsMessage size action) (split_batches size action batch ks)
unfolding split_batches
split-IsMessage size action [] [] h = tt
split-IsMessage size action [] (k ∷ batch) h = (h (omega arith), tt)
split-IsMessage size action (k ∷ ks) batch h = elim (Bool-cases (overflows size action batch k)) [
  | inl e ↦ rw e (
    h (full_nonempty size action batch k e),
    split-IsMessage size action ks (k ∷ []) (λ _. single-IsMessage size action k),
  )
  | inr e ↦ rw e (
      split-IsMessage size action ks (batch ++ k ∷ []) (λ _. grown-IsMessage size action batch k e))
]

-- The messages for a recipient carry each pending alert once, in their order; none is empty, and each
-- has fewer than 1000 characters unless it carries a single alert.
pub batches-IsMessage :
    (size : Key → ℕ) (action : ℕ) (pending : List Key)
    → (flatten (batches size action pending) ≡ pending)
      × All (IsMessage size action) (batches size action pending)
unfolding batches
batches-IsMessage size action pending = (
  split-flatten size action pending [],
  split-IsMessage size action pending [] (λ h. absurd (omega arith)),
)
