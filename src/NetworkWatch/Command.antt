-- ===== src/NetworkWatch/Command.antt =====
-- That network-watch/network-watch.py does switch the supply off in an outage.
use lvhvbox.Prelude.{
  ℕ, ◌+◌, ◌≤◌, ◌≡◌, refl, sym, ap, subst, ◌∙◌, Bool, true, false, true≢false, List, [], ◌∷◌, ◌++◌,
  All, All-append-inv, Option, none, some, le→leb, ok, >>=-eq-ok, arith,
}
use lvhvbox.NetworkWatch.{State, Round, started, degrade, round, watched}
use lvhvbox.NetworkWatch.Outage.{IsDegraded, degrade-started, round-cases, watched-Outage}

started_bound : (now : ℕ) (o : Option ℕ) → ((t : ℕ) → o ≡ some t → t ≤ now) → started now o ≤ now
started_bound now none f = omega arith
started_bound now (some t) f = f t refl

module _ (grace : ℕ) (dry_run : Bool) where
  -- An outage under way began no later than the clock of any round reads at most.
  started_le :
      (history : List Round) (bound : ℕ) (s : State) (t : ℕ)
      → All (λ r. r.now ≤ bound) history
      → watched grace dry_run history ≡ ok s
      → s.outage_started ≡ some t
      → t ≤ bound
  started_le history bound s t below known e =
      let o = watched-Outage grace dry_run history s t known e in
      let all_below = subst (All (λ r. r.now ≤ bound)) o.split below in
      let (_, (le, _)) =
        All-append-inv (λ r. r.now ≤ bound) o.recent (o.first ∷ o.before) all_below in
      omega (arith, o.began, le)

  degraded_started :
      (r : Round) (s t : State)
      → IsDegraded r
      → (round grace dry_run r s).1 ≡ ok t
      → t.outage_started ≡ some (started r.now s.outage_started)
  unfolding IsDegraded
  degraded_started r s t d =
      round-cases grace dry_run r s
        (λ x. x.1 ≡ ok t → t.outage_started ≡ some (started r.now s.outage_started))
        (λ e _. absurd (true≢false (sym e ∙ d))) (λ _. degrade-started grace dry_run r s t)

  -- The state in an outage: it began no later than its first round.
  outage_state :
      (recent : List Round) (first : Round) (before : List Round) (s : State)
      → All IsDegraded (recent ++ first ∷ [])
      → All (λ r. r.now ≤ first.now) before
      → watched grace dry_run (recent ++ first ∷ before) ≡ ok s
      → (u : ℕ) × (s.outage_started ≡ some u) × (u ≤ first.now)
  unfolding watched
  outage_state [] first before s (d, _) below h =
      let (t, known, last) = >>=-eq-ok (watched grace dry_run before) _ h in
      (
        started first.now t.outage_started,
        degraded_started first t s d last,
        started_bound first.now t.outage_started
            (λ u e. started_le before first.now t u below known e),
      )
  outage_state (r ∷ recent) first before s (d, all_degraded) below h =
      let (t, known, last) = >>=-eq-ok (watched grace dry_run (recent ++ first ∷ before)) _ h in
      let (u, since, le) = outage_state recent first before t all_degraded below known in
      (u, degraded_started r t s d last ∙ ap (λ o. some (started r.now o)) since, le)

degrade-command :
    (grace : ℕ) (r : Round) (s : State)
    → started r.now s.outage_started + grace ≤ r.now
    → (degrade grace false r s).0 ≡ true
unfolding degrade
degrade-command grace r s le = rw (le→leb _ r.now le) refl

-- In an unbroken run of rounds that each found a group with no endpoint answering, the last of them
-- commands the supply to switch off if the clock has moved on by the grace period since the first,
-- outside a dry run, where no round before the run read a later clock than its first.
pub round-command :
    (grace : ℕ) (r : Round) (recent : List Round) (first : Round) (before : List Round) (s : State)
    → IsDegraded r
    → All IsDegraded (recent ++ first ∷ [])
    → All (λ b. b.now ≤ first.now) before
    → watched grace false (recent ++ first ∷ before) ≡ ok s
    → first.now + grace ≤ r.now
    → (round grace false r s).0 ≡ true
unfolding IsDegraded
round-command grace r recent first before s d all_degraded below known long =
    let (u, since, le) = outage_state grace false recent first before s all_degraded below known in
    let began : started r.now s.outage_started ≡ u = ap (started r.now) since in
    round-cases grace false r s (λ x. x.0 ≡ true) (λ e. absurd (true≢false (sym e ∙ d)))
      (λ _. degrade-command grace r s (omega (arith, began, le, long)))
