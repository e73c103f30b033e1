-- ===== src/NetworkWatch/Examples.antt =====
-- The theorems about network-watch/network-watch.py at concrete inputs, and tests of its functions.
use lvhvbox.Prelude.{arith, ℕ, ◌+◌, ◌≤◌, ◌≡◌, refl, true, false, [], ◌∷◌, some, ok}
use lvhvbox.NetworkWatch.{State, Round, probe_group, sweep, degrade, round, watched}
use lvhvbox.NetworkWatch.Command.{round-command}
use lvhvbox.NetworkWatch.Outage.{IsDegraded, Outage, round-Outage}

-- Two groups of endpoints; the second has one of two that answers, or none.
abbrev good : ℕ → Round
good t = record { groups = (true ∷ []) ∷ (false ∷ true ∷ []) ∷ []; now = t; power_off = ok tt }

abbrev bad : ℕ → Round
bad t = record { groups = (true ∷ []) ∷ (false ∷ false ∷ []) ∷ []; now = t; power_off = ok tt }

sweep-bad :
    sweep (bad 0).groups (record { reachable = 0; failed = 0 })
    ≡ record { reachable = 1; failed = 2 }
unfolding sweep probe_group
sweep-bad = refl

abbrev two_down : State
two_down = record { failure_streak = 2; shutdown_latched = false; outage_started = some 10 }

watched-two_down : watched 100 false (bad 60 ∷ bad 10 ∷ good 5 ∷ []) ≡ ok two_down
unfolding watched round degrade sweep probe_group
watched-two_down = refl

round_down : (round 100 false (bad 110) two_down).0 ≡ true
unfolding round degrade sweep probe_group
round_down = refl

round_early : (round 100 false (bad 109) two_down).0 ≡ false
unfolding round degrade sweep probe_group
round_early = refl

round-Outage_example :
    (false ≡ false)
    × (since : ℕ) × Outage since (bad 110 ∷ bad 60 ∷ bad 10 ∷ good 5 ∷ [])
    × (since + 100 ≤ 110)
round-Outage_example =
    round-Outage 100 false (bad 110) (bad 60 ∷ bad 10 ∷ good 5 ∷ []) two_down watched-two_down
      round_down

bad-IsDegraded : (t : ℕ) → IsDegraded (bad t)
unfolding IsDegraded
bad-IsDegraded t = refl

round-command_example : (round 100 false (bad 110) two_down).0 ≡ true
round-command_example =
    round-command 100 (bad 110) (bad 60 ∷ []) (bad 10) (good 5 ∷ []) two_down (bad-IsDegraded 110)
      (bad-IsDegraded 60, (bad-IsDegraded 10, tt)) (omega arith, tt) watched-two_down (omega arith)
