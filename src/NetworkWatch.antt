-- ===== src/NetworkWatch.antt =====
-- network-watch/network-watch.py: the loop of `main`, which probes groups of endpoints and switches the
-- local supply off after an outage as long as the grace period. Times are clock readings in ticks.
-- What the probes, the clock and the supply answer in a round is an argument.
pub mod Outage
pub mod Command
mod Examples
use lvhvbox.Prelude.{
  ℕ, suc, ◌+◌, Bool, true, false, List, [], ◌∷◌, Option, none, some, if◌then◌else◌, ◌==◌, leb,
  length, Result, ok, err, ◌>>=◌, ◌>>◌,
}

pub record State : Type 0 where
  pub failure_streak : ℕ
  pub shutdown_latched : Bool
  pub outage_started : Option ℕ

-- One round: for each group what a probe of each of its endpoints answers, the clock after the
-- probes, and the call to switch off.
pub record Round : Type 0 where
  pub groups : List (List Bool)
  pub now : ℕ
  pub power_off : Result (Unit {0})

-- What the probes of a round found.
pub record Sweep : Type 0 where
  pub reachable : ℕ
  pub failed : ℕ

abbrev pub new_state : State
new_state = record { failure_streak = 0; shutdown_latched = false; outage_started = none }

-- The loop over one group: the first endpoint that answers ends it, and its failures are not counted.
unfoldable pub probe_group : List Bool → ℕ → Sweep → Sweep
probe_group [] failures s = record s { failed = s.failed + failures }
probe_group (answers ∷ rest) failures s =
    if answers then record s { reachable = s.reachable + 1 } else probe_group rest (failures + 1) s

unfoldable pub sweep : List (List Bool) → Sweep → Sweep
unfolding probe_group
sweep [] s = s
sweep (group ∷ groups) s = sweep groups (probe_group group 0 s)

abbrev pub started : ℕ → Option ℕ → ℕ
started now none = now
started now (some t) = t

-- A round that found a group without an answer: whether the supply is commanded to switch off, and
-- the state after it. An exception of the call ends the process.
unfoldable pub degrade : ℕ → Bool → Round → State → Bool × Result State
degrade grace dry_run r s =
    let since = started r.now s.outage_started in
    let counted = record s { failure_streak = s.failure_streak + 1; outage_started = some since } in
    if leb (since + grace) r.now
    then (if dry_run
        then (false, ok (record counted { shutdown_latched = true }))
        else (true, (do r.power_off; ok (record counted { shutdown_latched = true }))))
    else (false, ok counted)

unfoldable pub round : ℕ → Bool → Round → State → Bool × Result State
unfolding degrade sweep
round grace dry_run r s =
    if (sweep r.groups (record { reachable = 0; failed = 0 })).reachable == length r.groups
    then (false, ok new_state)
    else degrade grace dry_run r s

-- The state after a history of rounds, newest first.
unfoldable pub watched : ℕ → Bool → List Round → Result State
unfolding round
watched grace dry_run [] = ok new_state
watched grace dry_run (r ∷ older) = do s ← watched grace dry_run older; (round grace dry_run r s).1
