-- ===== src/Rs485/Session/Holdoff.antt =====
-- No number is used twice within 65536 transmissions, and no transmission starts inside the response
-- window of an interrupted one, across restarts of the process too.
use lvhvbox.Prelude.{
  ℕ, zero, suc, ◌+◌, ◌%◌, ◌^◌, ◌≤◌, ◌<◌, ◌≡◌, ◌≢◌, refl, subst, List, [], ◌∷◌, All, get_elem?, some,
  arith, ◌⊎◌, inl, inr,
}
use lvhvbox.Rs485.Session.{
  Reservation, Event, reserves, completes, narrows, restarts, World, step, run,
}

-- The file never lags behind the process in the number.
pub record IsSafe (w : World) : Type 0 where
  pub in_range : w.session.state.next_id < 2 ^ 16
  pub same_id : w.session.saved.next_id ≡ w.session.state.next_id

step-IsSafe : (w : World) (e : Event) → IsSafe w → IsSafe (step w e).1
unfolding step
step-IsSafe w (reserves gap lag window) h = record { in_range = omega arith; same_id = refl }
step-IsSafe w (completes gap) h = record { in_range = h.in_range; same_id = refl }
step-IsSafe w (narrows gap window) h = record { in_range = h.in_range; same_id = refl }
step-IsSafe w (restarts gap) h = record { in_range = omega arith; same_id = refl }

-- The numbers are consecutive from `first`, modulo 65536.
abbrev Consecutive : ℕ → List Reservation → Type 0
Consecutive first [] = Unit
Consecutive first (r ∷ rs) = (r.transaction ≡ first) × Consecutive ((first + 1) % 2 ^ 16) rs

run-Consecutive :
    (w : World) (es : List Event) → IsSafe w → Consecutive w.session.state.next_id (run w es).0
unfolding run
run-Consecutive w [] h = tt
run-Consecutive w (reserves gap lag window ∷ es) h =
    (refl, run-Consecutive _ es (step-IsSafe w (reserves gap lag window) h))
run-Consecutive w (completes gap ∷ es) h = run-Consecutive _ es (step-IsSafe w (completes gap) h)
run-Consecutive w (narrows gap window ∷ es) h =
    run-Consecutive _ es (step-IsSafe w (narrows gap window) h)
run-Consecutive w (restarts gap ∷ es) h =
    let next = step w (restarts gap) in
    subst (λ n. Consecutive n (run next.1 es).0) h.same_id
      (run-Consecutive next.1 es (step-IsSafe w (restarts gap) h))

Consecutive-get :
    (first i : ℕ) (rs : List Reservation) {r : Reservation}
    → first < 2 ^ 16
    → Consecutive first rs
    → get_elem? rs i ≡ some r
    → r.transaction ≡ (first + i) % 2 ^ 16
Consecutive-get first i [] b h e = cc
Consecutive-get first zero (x ∷ rs) {r} b h e =
    let same : r.transaction ≡ x.transaction = ground arith in omega (arith, h.0)
Consecutive-get first (suc i) (x ∷ rs) {r} b h e =
    omega (arith, Consecutive-get ((first + 1) % 2 ^ 16) i rs {r = r} (omega arith) h.1 e)

-- Whatever completes, is shortened or restarts in between, two transmissions that are fewer than
-- 65536 apart never have the same transaction number.
pub run_distinct :
    (w : World) (es : List Event) (i j : ℕ) {r q : Reservation}
    → IsSafe w
    → i < j
    → j < i + 2 ^ 16
    → get_elem? (run w es).0 i ≡ some r
    → get_elem? (run w es).0 j ≡ some q
    → r.transaction ≢ q.transaction
run_distinct w es i j h low high ei ej same = omega (
  arith,
  Consecutive-get w.session.state.next_id i (run w es).0 h.in_range (run-Consecutive w es h) ei,
  Consecutive-get w.session.state.next_id j (run w es).0 h.in_range (run-Consecutive w es h) ej,
  same,
)

-- An exchange that neither completes nor narrows its window has been interrupted.
abbrev pub Interrupted : Event → Type 0
Interrupted (reserves gap lag window) = Unit
Interrupted (completes gap) = ⊥
Interrupted (narrows gap window) = ⊥
Interrupted (restarts gap) = Unit

-- Each transmission starts at or after `end`, and then the end of the one before it.
abbrev pub Separated : ℕ → List Reservation → Type 0
Separated end [] = Unit
Separated end (r ∷ rs) = (end ≤ r.start) × Separated r.end rs

-- The window that ends at `end` is over, or both records still hold it.
abbrev pub Held : ℕ → World → Type 0
Held end w =
    (end ≤ w.clock) ⊎ ((end ≤ w.session.state.not_before) × (end ≤ w.session.saved.not_before))

-- While exchanges are interrupted, by errors or by the end of the process, no transmission starts
-- before the window of the one before it has passed.
pub run-Separated :
    (es : List Event) (end : ℕ) (w : World)
    → All Interrupted es
    → Held end w
    → Separated end (run w es).0
unfolding run
run-Separated [] end w q h = tt
run-Separated (reserves gap lag window ∷ es) end w q h =
    (omega arith, run-Separated es _ _ q.1 (inr (omega arith, omega arith)))
run-Separated (completes gap ∷ es) end w q h = absurd q.0
run-Separated (narrows gap window ∷ es) end w q h = absurd q.0
run-Separated (restarts gap ∷ es) end w q h = run-Separated es end _ q.1 (inl (omega arith))
