-- ===== src/FairQueue/Examples.antt =====
-- Tests of the queue's model, and the witnesses of its theorems.
use lvhvbox.Prelude.{◌≡◌, ◌≤◌, ◌+◌, ◌*◌, refl, false, some}
use lvhvbox.FairQueue.Lanes.{graphite, interactive}
use lvhvbox.FairQueue.{
  Queue, Reading, init, enter, attempt, eligible, next, first_waiting, Reach, enters, attempts,
  here, after, granted, waits, queue_full, queue_expired,
}
use lvhvbox.FairQueue.Capacity.{IsValid, GrantsFree, Reach-IsValid}
use lvhvbox.FairQueue.Fairness.{
  Waits, start, goes, serves, waits_grants, attempt-Grant, Grant, other, own,
}

-- Long before its deadline, and after it.
abbrev early : Reading
early = record { now = 10; deadline = 100; allowance = 20; disconnected = false }

abbrev late : Reading
late = record { now = 90; deadline = 100; allowance = 20; disconnected = false }

-- Two callers wait: `interactive` came first.
abbrev two_waiting : Queue
two_waiting = (enter graphite (enter interactive (init 2 8)).1).1

two_waiting-Reach : Reach (init 2 8) two_waiting
two_waiting-Reach = after (after here (enters interactive)) (enters graphite)

-- `graphite` is asked first after `discovery`.
next-two_waiting : next two_waiting ≡ some graphite
unfolding next first_waiting enter
next-two_waiting = refl

attempt_interactive : (attempt interactive 0 early two_waiting).0 ≡ waits
unfolding attempt eligible next first_waiting enter
attempt_interactive = refl

attempt_graphite : (attempt graphite 1 early two_waiting).0 ≡ granted
unfolding attempt eligible next first_waiting enter
attempt_graphite = refl

attempt-late : (attempt graphite 1 late two_waiting).0 ≡ queue_expired
unfolding attempt eligible next first_waiting enter
attempt-late = refl

enter_full : (enter graphite (enter graphite (enter graphite (init 2 8)).1).1).0 ≡ queue_full
unfolding enter
enter_full = refl

attempt-Grant_example : Grant graphite 1 two_waiting (attempt graphite 1 early two_waiting).1
attempt-Grant_example = attempt-Grant graphite 1 early two_waiting attempt_graphite

Reach-IsValid_example : IsValid two_waiting × GrantsFree two_waiting
Reach-IsValid_example = Reach-IsValid 2 8 two_waiting-Reach

-- `interactive` waits while `graphite` is served.
graphite_served : Waits interactive two_waiting 1 0 (attempt graphite 1 early two_waiting).1
unfolding attempt eligible next first_waiting enter other own serves
graphite_served = goes start refl (attempts graphite 1 early)

waits_grants_example : 1 ≤ 3 * 0 + 3
waits_grants_example =
    waits_grants {c = interactive} (Reach-IsValid 2 8 two_waiting-Reach).0 graphite_served
