-- ===== src/Discovery/History.antt =====
-- `DiscoveryHistory`: the saved inventory, and the queue of warnings about missing panels.
pub mod Inventory
pub mod Queue
pub mod Accepted
pub mod Delivery
use lvhvbox.Prelude.{
  ℕ, zero, suc, ◌+◌, ◌-◌, Bool, true, false, not, ◌&&◌, ◌||◌, List, [], ◌∷◌, ◌++◌, if◌then◌else◌,
  ◌==◌, ltb, leb, any, all, length, take, drop, select, Option, none, some, Result, ok, err,
  value_error, os_error, guard, ◌>>=◌, ◌>>◌,
}

abbrev pub member : ℕ → List ℕ → Bool
member a = any (λ b. b == a)

-- `sorted(values)`
unfoldable pub insert_sorted : ℕ → List ℕ → List ℕ
insert_sorted a [] = a ∷ []
insert_sorted a (b ∷ bs) = if leb a b then a ∷ b ∷ bs else b ∷ insert_sorted a bs

unfoldable pub sorted : List ℕ → List ℕ
sorted [] = []
sorted (a ∷ as_after) = insert_sorted a (sorted as_after)

-- The elements of a `set`.
unfoldable pub distinct : List ℕ → List ℕ
distinct [] = []
distinct (a ∷ as_after) =
    let rest = distinct as_after in if member a as_after then rest else a ∷ rest

-- `len(set(values)) != len(values)`
abbrev pub has_repeats : List ℕ → Bool
has_repeats values = not (length (distinct values) == length values)

unfoldable pub addresses : List ℕ → Result (List ℕ)
addresses values = do
  guard (leb (length values) 512) value_error
  guard (all (λ a. leb a 511) values && not (has_repeats values)) value_error
  ok (sorted values)

-- A queued warning; `for_power_on` is whether its reason is `power-on`.
pub record Event : Type 0 where
  pub id : ℕ
  pub timestamp : ℕ
  pub missing : List ℕ
  pub delivered : List ℕ
  pub for_power_on : Bool

-- `powered` is none if the power is unknown.
pub record Scan : Type 0 where
  pub timestamp : ℕ
  pub startup : Bool
  pub power_on : Bool
  pub powered : Option Bool
  pub addresses : List ℕ
  pub missing : List ℕ

pub record History : Type 0 where
  pub last_discovered : List ℕ
  pub last_scan : Option Scan
  pub pending : List Event

pub record Found : Type 0 where
  pub scanned : Bool
  pub addresses : List ℕ
  pub start : ℕ
  pub stop : ℕ
  pub timestamp : ℕ

-- `missing[offset:offset+100] for offset in range(0, len(missing), 100)`: there are no more chunks than
-- addresses.
unfoldable pub chunks : ℕ → List ℕ → List (List ℕ)
chunks zero missing = []
chunks (suc n) [] = []
chunks (suc n) (a ∷ missing) = (a ∷ take 99 missing) ∷ chunks n (drop 99 missing)

-- One event for each chunk; `uuid k` is the identity that `uuid4` makes for the k-th of them.
unfoldable pub chunk_events : (ℕ → ℕ) → ℕ → Bool → ℕ → List (List ℕ) → List Event
chunk_events uuid stamp power_on k [] = []
chunk_events uuid stamp power_on k (chunk ∷ rest) =
    record {
      id = uuid k;
      timestamp = stamp;
      missing = chunk;
      delivered = [];
      for_power_on = power_on;
    }
    ∷ chunk_events uuid stamp power_on (suc k) rest

abbrev pub in_range : Found → ℕ → Bool
in_range i a = leb i.start a && leb a i.stop

-- Expected addresses of the scanned range that were not found.
unfoldable pub missing_panels : History → Found → List ℕ → List ℕ
missing_panels h i found =
    sorted (select (λ a. in_range i a && not (member a found)) h.last_discovered)

abbrev pub is_on : Option Bool → Bool
is_on none = false
is_on (some on) = on

-- What a scan changes: `powered is True` guards the inventory and the queue.
unfoldable pub recorded : (ℕ → ℕ) → History → Found → List ℕ → Option Bool → Bool → Bool → History
recorded uuid h i found powered startup power_on =
    let missing = missing_panels h i found in
    record {
      last_discovered =
          if is_on powered
          then sorted (distinct (h.last_discovered ++ found))
          else h.last_discovered;
      last_scan = some (record {
        timestamp = i.timestamp;
        startup = startup;
        power_on = power_on;
        powered = powered;
        addresses = found;
        missing = missing;
      });
      pending =
          if is_on powered && (startup || power_on)
          then h.pending
            ++ chunk_events uuid i.timestamp power_on 0 (chunks (length missing) missing)
          else h.pending;
    }

abbrev pub validated : Found → Result (List ℕ)
validated i = do
  guard i.scanned value_error
  found ← addresses i.addresses
  guard (leb i.start i.stop && (leb i.stop 511 && all (in_range i) found)) value_error
  ok found

-- `_save`, which writes the file or raises the system's error.
abbrev pub save : Bool → Result (Unit {0})
save writes = guard writes os_error

-- `DiscoveryHistory.record`: the history in memory after the call, and how the call ends. A failing
-- `_save` leaves the memory changed.
unfoldable pub record_scan :
    (ℕ → ℕ) → Bool → History → Found → Option Bool → Bool → Bool → History × Result (Unit {0})
record_scan uuid writes h i powered startup power_on = elim (validated i) [
  | err e ↦ (h, err e)
  | ok found ↦ (recorded uuid h i found powered startup power_on, save writes)
]

-- What `send` and `voltages` of one call of `deliver` answer, and what was sent: event and recipient.
pub record Notifier : Type 0 where
  pub powers : List (Result Bool)
  pub accepts : List Bool
  pub sent : List (ℕ × ℕ)

-- `for user in notifier.users` ends, returns from `deliver`, or raises.
pub data Flow : Type 0 where
  next : History → Notifier → Flow
  returned : History → Notifier → Flow
  raised : History → Notifier → Flow

abbrev pub add_recipient : ℕ → ℕ → List Event → List Event
add_recipient id user [] = []
add_recipient id user (e ∷ events) =
    if e.id == id
    then record {
      id = e.id;
      timestamp = e.timestamp;
      missing = e.missing;
      delivered = if member user e.delivered then e.delivered else e.delivered ++ (user ∷ []);
      for_power_on = e.for_power_on;
    }
      ∷ events
    else e ∷ add_recipient id user events

abbrev pub set_pending : List Event → History → History
set_pending events h = record {
  last_discovered = h.last_discovered;
  last_scan = h.last_scan;
  pending = events;
}

-- `power_reader.voltages()`, as whether a voltage is 2 or more; without a reader the power is not asked.
abbrev pub verify_power : Bool → List (Result Bool) → Result Bool × List (Result Bool)
verify_power false powers = (ok true, powers)
verify_power true [] = (ok false, [])
verify_power true (reading ∷ powers) = (reading, powers)

-- `notifier.send`: a refused message is retried by a later call.
abbrev pub sent_by : Event → ℕ → History → List (ℕ × ℕ) → List (Result Bool) → List Bool → Flow
sent_by e user h sent powers [] = next h (record { powers = powers; accepts = []; sent = sent })
sent_by e user h sent powers (false ∷ accepts) =
    next h (record { powers = powers; accepts = accepts; sent = sent })
sent_by e user h sent powers (true ∷ accepts) =
    next (set_pending (add_recipient e.id user h.pending) h)
      (record { powers = powers; accepts = accepts; sent = (e.id, user) ∷ sent })

abbrev pub send_warning : Event → ℕ → History → Notifier → List (Result Bool) → Flow
send_warning e user h n powers = sent_by e user h n.sent powers n.accepts

abbrev pub with_power : Event → ℕ → History → Notifier → Result Bool × List (Result Bool) → Flow
with_power e user h n (err _, powers) =
    raised h (record { powers = powers; accepts = n.accepts; sent = n.sent })
with_power e user h n (ok false, powers) =
    returned h (record { powers = powers; accepts = n.accepts; sent = n.sent })
with_power e user h n (ok true, powers) = send_warning e user h n powers

unfoldable pub deliver_user : Bool → Event → ℕ → History → Notifier → Flow
deliver_user reader e user h n =
    if member user e.delivered
    then next h n
    else with_power e user h n (verify_power reader n.powers)

abbrev pub continue : Flow → (History → Notifier → Flow) → Flow
continue (next h n) body = body h n
continue (returned h n) body = returned h n
continue (raised h n) body = raised h n

unfoldable pub deliver_users : Bool → Event → List ℕ → History → Notifier → Flow
deliver_users reader e [] h n = next h n
deliver_users reader e (user ∷ users) h n =
    continue (deliver_user reader e user h n) (deliver_users reader e users)

-- An event leaves the queue once every recipient has it.
abbrev pub is_done : List ℕ → Event → Event → Bool
is_done users e x = x.id == e.id && all (λ user. member user x.delivered) users

abbrev pub retire : List ℕ → Event → History → History
retire users e h = set_pending (select (λ x. not (is_done users e x)) h.pending) h

unfoldable pub deliver_events : Bool → List ℕ → List Event → History → Notifier → Flow
deliver_events reader users [] h n = next h n
deliver_events reader users (e ∷ events) h n =
    continue (deliver_users reader e users h n)
      (λ h n. deliver_events reader users events (retire users e h) n)

unfoldable pub deliver : Bool → List ℕ → History → Notifier → Flow
deliver reader users h n = deliver_events reader users h.pending h n
