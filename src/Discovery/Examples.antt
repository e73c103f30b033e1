-- ===== src/Discovery/Examples.antt =====
-- Tests and witnesses for the discovery of panels.
use lvhvbox.Prelude.{
  ℕ, ◌≡◌, refl, true, false, ◌&&◌, not, List, [], ◌∷◌, ◌++◌, none, some, ok, err, os_error, All,
  arith,
}
use lvhvbox.Discovery.History.{
  member, insert_sorted, sorted, distinct, addresses, chunks, chunk_events, Event, History, Found,
  in_range, missing_panels, recorded, record_scan, Notifier, deliver,
}
use lvhvbox.Discovery.History.Inventory.{record_scan-last_discovered}
use lvhvbox.Discovery.History.Queue.{IsFresh, all_missing, recorded_warnings}
use lvhvbox.Discovery.History.Delivery.{IsKept, Holds, deliver-IsKept}
use lvhvbox.Discovery.PowerOn.{
  Timing, Turn, datagram, tick, Moment, completed, event, receive, attempt, step, run_turn,
  run_turns,
}
use lvhvbox.Discovery.PowerOn.Schedule.{Justified, run_turns-Justified}

abbrev expected : History
expected = record { last_discovered = 3 ∷ 5 ∷ 7 ∷ []; last_scan = none; pending = [] }

abbrev report : Found
report = record { scanned = true; addresses = 5 ∷ 6 ∷ []; start = 4; stop = 9; timestamp = 100 }

abbrev uuid : ℕ → ℕ
uuid k = k

abbrev after_report : History
after_report = recorded uuid expected report (5 ∷ 6 ∷ []) (some true) true false

record_scan_runs :
    record_scan uuid true expected report (some true) true false ≡ (after_report, ok tt)
unfolding record_scan recorded addresses sorted insert_sorted distinct missing_panels chunks
    chunk_events
record_scan_runs = refl

record_scan-last_discovered_example : member 6 after_report.last_discovered ≡ true
record_scan-last_discovered_example =
    record_scan-last_discovered uuid true expected report (some true) true false after_report
      record_scan_runs 6

recorded_warnings_example :
    (new : List Event) × (after_report.pending ≡ [] ++ new)
    × All IsFresh new
    × (all_missing new ≡ missing_panels expected report (5 ∷ 6 ∷ []))
    × ((a : ℕ)
        → member a (missing_panels expected report (5 ∷ 6 ∷ []))
          ≡ ((in_range report a && not (member a (5 ∷ 6 ∷ []))) && member a (3 ∷ 5 ∷ 7 ∷ [])))
recorded_warnings_example =
    recorded_warnings uuid expected report (5 ∷ 6 ∷ []) (some true) true false

abbrev warning : Event
warning = record {
  id = 1;
  timestamp = 100;
  missing = 7 ∷ [];
  delivered = 20 ∷ [];
  for_power_on = false;
}

abbrev queued : History
queued = record { last_discovered = 7 ∷ []; last_scan = none; pending = warning ∷ [] }

abbrev notifier : Notifier
notifier = record { powers = ok true ∷ err os_error ∷ []; accepts = true ∷ []; sent = (1, 20) ∷ [] }

deliver-IsKept_example :
    Holds (IsKept 1 (20 ∷ 21 ∷ [])) (deliver true (20 ∷ 21 ∷ []) queued notifier)
deliver-IsKept_example =
    deliver-IsKept true (20 ∷ 21 ∷ []) queued notifier 1 ((λ user m. ground arith), tt) refl

abbrev timing : Timing
timing = record { delay = 5000; retry = 60000 }

abbrev moment : ℕ → Moment
moment now = record {
  now = now;
  stopped = false;
  stopped_later = false;
  voltages = some (ok (0 ∷ 6 ∷ []));
  scan = completed 3;
}

abbrev power_on_turns : List Turn
power_on_turns = tick (moment 7000) ∷ tick (moment 4000) ∷ datagram event 1000 ∷ []

scan_runs : (run_turns timing power_on_turns).1 ≡ 7000 ∷ []
unfolding run_turns run_turn receive step attempt
scan_runs = refl

run_turns-Justified_example :
    All (Justified timing power_on_turns) (run_turns timing power_on_turns).1
run_turns-Justified_example = run_turns-Justified timing power_on_turns
