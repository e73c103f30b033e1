-- ===== src/RocMonitor.antt =====
-- roc-temperature-monitor/roc_temperature_monitor.py: `Monitor`, the temperature streaks, the
-- missing-data timer and the record of who was notified. A panel `MN005` is its number 5, in the same
-- order. A temperature or a voltage is its place in the order of the finite floats, since the monitor
-- only compares them; a time is a clock reading in ticks. An alert is known by its key.
pub mod Notify
pub mod Cycle
pub mod Streak
pub mod Batches
pub mod Commands
pub mod Protection
pub mod Known
pub mod Returns
pub mod Saved
pub mod Supply
mod Examples
use lvhvbox.Prelude.{
  ℕ, zero, suc, ◌+◌, ◌≡◌, refl, Bool, true, false, not, ◌&&◌, ◌||◌, List, [], ◌∷◌, ◌++◌, map,
  Option, none, some, if◌then◌else◌, ◌==◌, ltb, leb, length, any, select, Result, ok, err,
  type_error, guard, ◌>>=◌, ◌>>◌, find, fetch, store, erase,
}

pub record PanelState : Type 0 where
  pub powered_since : Option ℕ
  pub last_good : Option ℕ
  pub high_count : ℕ
  pub temperature : Option ℕ

abbrev pub fresh : PanelState
fresh = record { powered_since = none; last_good = none; high_count = 0; temperature = none }

-- `MN005:hot`, `MN005:missing` and `PSU:missing`.
pub data Key : Type 0 where
  hot missing : (panel : ℕ) → Key
  psu_missing : Key

abbrev pub same_key : Key → Key → Bool
same_key (hot p) (hot q) = p == q
same_key (missing p) (missing q) = p == q
same_key psu_missing psu_missing = true
same_key _ _ = false

pub record Monitor : Type 0 where
  pub minimum_panels : ℕ
  pub panels : List ℕ
  pub threshold : ℕ
  pub count : ℕ
  pub missing_seconds : ℕ
  pub power_cutoff : ℕ
  pub states : List (ℕ × PanelState)
  -- an alert's recipients
  pub delivered : List (Key × List ℕ)
  pub powered_since : Option ℕ
  pub last_quorum : Option ℕ
  pub cycle_good : List ℕ

unfoldable pub insert_sorted : ℕ → List ℕ → List ℕ
insert_sorted p [] = p ∷ []
insert_sorted p (q ∷ qs) = if leb p q then p ∷ q ∷ qs else q ∷ insert_sorted p qs

unfoldable pub sorted : List ℕ → List ℕ
sorted [] = []
sorted (p ∷ ps) = insert_sorted p (sorted ps)

abbrev pub or_fresh : Option PanelState → PanelState
or_fresh none = fresh
or_fresh (some s) = s

abbrev pub has {ℓ} : {A : Type ℓ} → Option A → Bool
has none = false
has (some a) = true

-- Whether a record of delivery is kept when the panels change.
abbrev pub keeps : List (ℕ × PanelState) → Key × List ℕ → Bool
keeps states (hot p, who) = has (find ◌==◌ p states)
keeps states (missing p, who) = has (find ◌==◌ p states)
keeps states (psu_missing, who) = true

unfoldable pub set_panels : List ℕ → Monitor → Monitor
set_panels panels m =
    let names = sorted panels in
    let states = map (λ p. (p, or_fresh (find ◌==◌ p m.states))) names in
    record m { panels = names; states = states; delivered = select (keeps states) m.delivered }

-- `if since is None: since = now`
abbrev pub since : ℕ → Option ℕ → Option ℕ
since now none = some now
since now (some t) = some t

-- The loop of `apply_power` over the panels, with the outputs on.
unfoldable pub start_panels : ℕ → List ℕ → List (ℕ × PanelState) → Result (List (ℕ × PanelState))
start_panels now [] states = ok states
start_panels now (p ∷ ps) states = do
  s ← fetch ◌==◌ p states
  start_panels now ps (store ◌==◌ p (record s { powered_since = since now s.powered_since }) states)

-- The same loop with the outputs off.
unfoldable pub reset_panels :
    List ℕ
    → List (ℕ × PanelState) × List (Key × List ℕ)
    → Result (List (ℕ × PanelState) × List (Key × List ℕ))
reset_panels [] kept = ok kept
reset_panels (p ∷ ps) (states, delivered) = do
  s ← fetch ◌==◌ p states
  reset_panels ps
      (store ◌==◌ p fresh states, erase same_key (missing p) (erase same_key (hot p) delivered))

unfoldable pub powered : List ℕ → Monitor → Bool
powered volts m = any (λ v. leb m.power_cutoff v) volts

unfoldable pub apply_power : List ℕ → ℕ → Monitor → Result (List ℕ × Monitor)
apply_power volts now m =
    if powered volts m
    then (do
      states ← start_panels now m.panels m.states
      ok (m.panels, record m { powered_since = since now m.powered_since; states = states }))
    else (do
      kept ← reset_panels m.panels (m.states, erase same_key psu_missing m.delivered)
      ok (
        [],
        record m {
          powered_since = none;
          last_quorum = none;
          cycle_good = [];
          states = kept.0;
          delivered = kept.1;
        },
      ))

abbrev add : ℕ → List ℕ → List ℕ
add p ps = if any (λ q. q == p) ps then ps else p ∷ ps

-- What a sample does to its panel's state: none is a failed reading.
abbrev pub observe : ℕ → ℕ → Option ℕ → PanelState → PanelState
observe threshold now none s = record s { high_count = 0 }
observe threshold now (some value) s = record s {
  last_good = some now;
  temperature = some value;
  high_count = if ltb threshold value then s.high_count + 1 else 0;
}

abbrev rearm : ℕ → ℕ → ℕ → List (Key × List ℕ) → List (Key × List ℕ)
rearm threshold name value delivered =
    let others = erase same_key (missing name) delivered in
    if leb value threshold then erase same_key (hot name) others else others

abbrev note : ℕ → Option ℕ → Monitor → Monitor
note name none m = m
note name (some value) m = record m {
  cycle_good = add name m.cycle_good;
  delivered = rearm m.threshold name value m.delivered;
}

unfoldable pub sample : ℕ → Option ℕ → ℕ → Monitor → Result Monitor
sample name value now m = do
  s ← fetch ◌==◌ name m.states
  ok (record (note name value m) {
    states = store ◌==◌ name (observe m.threshold now value s) m.states;
  })

unfoldable pub finish_cycle : ℕ → Monitor → Monitor
finish_cycle now m =
    if leb m.minimum_panels (length m.cycle_good)
    then record m { last_quorum = some now; delivered = erase same_key psu_missing m.delivered }
    else m

abbrev pub is_hot : ℕ → PanelState → Bool
is_hot count s = has s.powered_since && leb count s.high_count

-- `now - since > missing_seconds`, counted from the last quorum or else from the power-on.
abbrev pub overdue : ℕ → ℕ → Option ℕ → Option ℕ → Bool
overdue now missing_seconds (some t) powered_since = ltb (t + missing_seconds) now
overdue now missing_seconds none (some t) = ltb (t + missing_seconds) now
overdue now missing_seconds none none = false

-- The loop of `alarms` over the states: the text of an alarm formats the temperature, which raises a
-- `TypeError` if there is none.
unfoldable pub hot_alarms : ℕ → List (ℕ × PanelState) → Result (List Key)
hot_alarms count [] = ok []
hot_alarms count ((p, s) ∷ rest) =
    let later = hot_alarms count rest in
    if is_hot count s
    then guard (has s.temperature) type_error >> (do keys ← later; ok (hot p ∷ keys))
    else later

unfoldable pub alarms : ℕ → Monitor → Result (List Key)
alarms now m = do
  keys ← hot_alarms m.count m.states
  ok (
      keys
      ++ (if overdue now m.missing_seconds m.last_quorum m.powered_since
          then psu_missing ∷ []
          else []))
