-- ===== src/Discovery/Run.antt =====
-- `run_discovery` of rs485-server/rs485_server.py: a scan between two readings of the power, and its record.
use lvhvbox.Prelude.{ℕ, ◌≡◌, ◌↔◌, ◌⊎◌, Bool, true, false, Option, none, some, Result, ok, err}
use lvhvbox.Rs485.Session.{Session}
use lvhvbox.Rs485.Bus.{Probes, Answer, value, fault}
use lvhvbox.Discovery.History.{History, record_scan}
use lvhvbox.Discovery.History.Accepted.{report_of}

-- `powered()`: unknown without a reader, and when the reading fails.
abbrev pub powered : Option (Result Bool) → Option Bool
powered none = none
powered (some (err e)) = none
powered (some (ok on)) = some on

-- On if both readings are on, off if one is off, and unknown otherwise.
abbrev pub agreed : Option Bool → Option Bool → Option Bool
agreed (some false) last = some false
agreed first (some false) = some false
agreed (some true) (some true) = some true
agreed none none = none
agreed none (some true) = none
agreed (some true) none = none

-- The history in memory after `record`: what it raises, a `ValueError` or the `OSError` of `_save`, is
-- logged.
abbrev pub kept : History × Result (Unit {0}) → History
kept (after, end) = after

abbrev pub record_answer :
    (ℕ → ℕ)
    → Bool
    → ℕ
    → ℕ
    → ℕ
    → Option Bool
    → Bool
    → Bool
    → Option History
    → Answer Probes
    → Option History
record_answer uuid writes stamp start stop state startup power_on none answer = none
record_answer uuid writes stamp start stop state startup power_on (some h) (fault f) = some h
record_answer uuid writes stamp start stop state startup power_on (some h) (value q) =
    some (kept (record_scan uuid writes h (report_of stamp start stop q) state startup power_on))

-- `scan` is what `telemetry.discover(start, end)` returns or raises; `before` and `after` are the readings.
unfoldable pub run_discovery :
    (ℕ → ℕ)
    → Bool
    → ℕ
    → ℕ
    → ℕ
    → Option (Result Bool)
    → Option (Result Bool)
    → Bool
    → Bool
    → Option History
    → Answer Probes × Session
    → Answer Probes × Option History
run_discovery uuid writes stamp start stop before after startup power_on h scan = (
  scan.0,
  record_answer uuid writes stamp start stop (agreed (powered before) (powered after)) startup
      power_on h scan.0,
)

-- The reading was made and answered this.
abbrev pub Reads : Bool → Option (Result Bool) → Type 0
Reads on r = r ≡ some (ok on)

-- On only if both readings answered on, off only if one answered off, and unknown otherwise.
abbrev pub Agrees : Option (Result Bool) → Option (Result Bool) → Option Bool → Type 0
Agrees before after state =
    ((state ≡ some true) ↔ (Reads true before × Reads true after))
    × ((state ≡ some false) ↔ (Reads false before ⊎ Reads false after))
