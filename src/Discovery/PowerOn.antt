-- ===== src/Discovery/PowerOn.antt =====
-- `PowerOnDiscovery`: a power-on event of the supply schedules a scan of the bus. Times are in milliseconds.
pub mod Schedule
use lvhvbox.Prelude.{
  ℕ, ◌+◌, Bool, true, false, not, ◌&&◌, ◌||◌, List, [], ◌∷◌, if◌then◌else◌, ◌==◌, ltb, leb, any,
  Option, none, some, Result, ok, err,
}

-- `due` and `expires`, which are set and cleared together.
pub record Window : Type 0 where
  pub due : ℕ
  pub expires : ℕ

-- `delay` and `retry_seconds`
pub record Timing : Type 0 where
  pub delay : ℕ
  pub retry : ℕ

-- How `self.discover` ends: with so many panels, with `BusyError`, or with an error that is retried.
pub data Scan : Type 0 where
  completed : ℕ → Scan
  busy failed : Scan

-- What one call of `step` meets: the two tests of `stop`, the reader's voltages in volts (none without a
-- reader), and the scan's end.
pub record Moment : Type 0 where
  pub now : ℕ
  pub stopped : Bool
  pub stopped_later : Bool
  pub voltages : Option (Result (List ℕ))
  pub scan : Scan

abbrev pub event : List ℕ
event = b'l' ∷ b'v' ∷ b'-' ∷ b'a' ∷ b'l' ∷ b'l' ∷ b'-' ∷ b'o' ∷ b'n' ∷ b'-' ∷ b'v' ∷ b'1' ∷ []

abbrev pub same_bytes : List ℕ → List ℕ → Bool
same_bytes [] [] = true
same_bytes (x ∷ xs) (y ∷ ys) = x == y && same_bytes xs ys
same_bytes _ _ = false

unfoldable pub receive : Timing → List ℕ → ℕ → Option Window → Option Window
receive t payload now w =
    if same_bytes payload event
    then some (record { due = now + t.delay; expires = now + t.delay + t.retry })
    else w

abbrev pub retry_at : ℕ → Window → Option Window
retry_at due w = some (record { due = due; expires = w.expires })

-- `any(v >= 2 for v in self.power_reader.voltages())`
abbrev pub is_powered : List ℕ → Bool
is_powered = any (leb 2)

abbrev pub scan_result : ℕ → Window → Scan → Option Window
scan_result now w (completed count) = none
scan_result now w busy = retry_at (now + 250) w
scan_result now w failed = retry_at (now + 2000) w

-- The `try` block of `step`: the window after it, and whether a scan was started.
unfoldable pub attempt : ℕ → Bool → Scan → Window → Option (Result (List ℕ)) → Option Window × Bool
attempt now stopped scan w none = (retry_at (now + 2000) w, false)
attempt now stopped scan w (some (err raised)) = (retry_at (now + 2000) w, false)
attempt now stopped scan w (some (ok volts)) =
    if not (is_powered volts)
    then (none, false)
    else if stopped
    then (some w, false)
    else (scan_result now w scan, true)

unfoldable pub step : Moment → Option Window → Option Window × Bool
step m none = (none, false)
step m (some w) =
    if ltb m.now w.due || m.stopped
    then (some w, false)
    else if ltb w.expires m.now
    then (none, false)
    else attempt m.now m.stopped_later m.scan w m.voltages

-- The rounds of `run`: the datagrams that are received, and the steps.
pub data Turn : Type 0 where
  datagram : List ℕ → ℕ → Turn
  tick : Moment → Turn

-- The window after the turns, and the times at which a scan was started, the last first.
unfoldable pub run_turn : Timing → Turn → Option Window × List ℕ → Option Window × List ℕ
run_turn t (datagram payload now) (w, scans) = (receive t payload now w, scans)
run_turn t (tick m) (w, scans) =
    let after = step m w in (after.0, if after.1 then m.now ∷ scans else scans)

-- The turns of a whole run, the last first.
unfoldable pub run_turns : Timing → List Turn → Option Window × List ℕ
run_turns t [] = (none, [])
run_turns t (turn ∷ before) = run_turn t turn (run_turns t before)
