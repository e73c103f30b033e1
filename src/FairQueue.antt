-- ===== src/FairQueue.antt =====
-- rs485-server/fair_queue.py: round-robin admission of four clients to one UART. Each operation holds
-- the queue's condition, so it is one atomic step; the threads are the order of the steps. A ticket
-- stands for the `object()` of one waiting caller, and `locked` for the device lock.
pub mod Lanes
pub mod Capacity
pub mod Fairness
mod Examples
use lvhvbox.Prelude.{
  ℕ, suc, ◌+◌, ◌-◌, ◌%◌, ◌≤◌, ◌<◌, ◌≡◌, refl, Bool, true, false, not, ◌&&◌, ◌||◌, List, [], ◌∷◌,
  ◌++◌, Option, none, some, if◌then◌else◌, ◌==◌, ltb, leb, length,
}
use Lanes.{
  Client, temperature_monitor, graphite, interactive, discovery, Waiting, lane, put, pending, index,
  client_at, same, remove,
}

pub record Counts : Type 0 where
  pub completed : ℕ
  pub expired : ℕ
  pub cancelled : ℕ
  pub rejected : ℕ

pub record Queue : Type 0 where
  pub per_client : ℕ
  pub capacity : ℕ
  pub waiting : Waiting
  pub active : Option Client
  pub last : ℕ
  pub closed : Bool
  pub counts : Counts
  pub locked : Bool
  pub next_ticket : ℕ

-- `FairQueue(per_client, capacity)`, with the device lock free.
abbrev pub init : ℕ → ℕ → Queue
init per_client capacity = record {
  per_client = per_client;
  capacity = capacity;
  waiting = record {
    temperature = [];
    graphite_lane = [];
    interactive_lane = [];
    discovery_lane = [];
  };
  active = none;
  last = 3;
  closed = false;
  counts = record { completed = 0; expired = 0; cancelled = 0; rejected = 0 };
  locked = false;
  next_ticket = 0;
}

-- The exceptions of `turn`, and what else a step can answer.
pub data Answer : Type 0 where
  queue_closed busy queue_full queue_expired queue_cancelled : Answer
  queued : (ticket : ℕ) → Answer
  granted waits : Answer

abbrev pub is_none : Option Client → Bool
is_none none = true
is_none (some c) = false

abbrev pub is_waiting : List ℕ → Bool
is_waiting [] = false
is_waiting (t ∷ ts) = true

unfoldable pub first_waiting : Waiting → List Client → Option Client
first_waiting w [] = none
first_waiting w (c ∷ cs) = if is_waiting (lane w c) then some c else first_waiting w cs

-- `_next`: the first client with a caller waiting, from the one after the last that was served.
unfoldable pub next : Queue → Option Client
unfolding first_waiting
next q = first_waiting q.waiting (
    client_at (q.last + 1)
    ∷ client_at (q.last + 2)
    ∷ client_at (q.last + 3)
    ∷ client_at (q.last + 4)
    ∷ [])

-- `turn` up to its ticket.
unfoldable pub enter : Client → Queue → Answer × Queue
enter c q =
    if q.closed
    then (queue_closed, q)
    else if is_none q.active && q.locked
    then (busy, q)
    else if leb q.per_client (length (lane q.waiting c)) || leb q.capacity (pending q.waiting)
    then (queue_full, record q { counts = record q.counts { rejected = q.counts.rejected + 1 } })
    else (
      queued q.next_ticket,
      record q {
        waiting = put q.waiting c (lane q.waiting c ++ q.next_ticket ∷ []);
        next_ticket = q.next_ticket + 1;
      },
    )

-- A caller that leaves `turn` by an exception takes its ticket away.
abbrev pub drop : Client → ℕ → Queue → Queue
drop c ticket q = record q { waiting = put q.waiting c (remove ticket (lane q.waiting c)) }

abbrev pub is_head : ℕ → List ℕ → Bool
is_head t [] = false
is_head t (u ∷ us) = u == t

abbrev pub tail : List ℕ → List ℕ
tail [] = []
tail (t ∷ ts) = ts

abbrev pub is_client : Option Client → Client → Bool
is_client none c = false
is_client (some d) c = same d c

-- What a waiting caller reads in one round of its loop: the clock, its deadline, the time that the
-- transaction needs, and whether its peer has gone.
pub record Reading : Type 0 where
  pub now : ℕ
  pub deadline : ℕ
  pub allowance : ℕ
  pub disconnected : Bool

-- `deadline - allowance - now <= 0`.
abbrev pub too_late : Reading → Bool
too_late r = leb r.deadline (r.allowance + r.now)

-- The device is free, and it is this caller's turn.
unfoldable pub eligible : Client → ℕ → Queue → Bool
eligible c ticket q =
    is_none q.active
    && (is_client (next q) c && (is_head ticket (lane q.waiting c) && not q.locked))

-- One round of the loop of `turn`, for the caller of client `c` that holds `ticket`.
unfoldable pub attempt : Client → ℕ → Reading → Queue → Answer × Queue
unfolding eligible
attempt c ticket r q =
    if q.closed
    then (queue_closed, drop c ticket q)
    else if too_late r
    then (
      queue_expired,
      record (drop c ticket q) { counts = record q.counts { expired = q.counts.expired + 1 } },
    )
    else if r.disconnected
    then (
      queue_cancelled,
      record (drop c ticket q) { counts = record q.counts { cancelled = q.counts.cancelled + 1 } },
    )
    else if eligible c ticket q
    then (
      granted,
      record q {
        waiting = put q.waiting c (tail (lane q.waiting c));
        active = some c;
        last = index c;
        locked = true;
      },
    )
    else (waits, q)

-- The end of a turn that was granted.
unfoldable pub finish : Queue → Queue
finish q = record q {
  active = none;
  counts = record q.counts { completed = q.counts.completed + 1 };
  locked = false;
}

unfoldable pub close : Queue → Queue
close q = record q { closed = true }

-- `turn` with no request context, and `RS485.close`: the device lock outside the queue.
unfoldable pub take_lock : Queue → Answer × Queue
take_lock q = if q.locked then (busy, q) else (granted, record q { locked = true })

unfoldable pub release_lock : Queue → Queue
release_lock q = record q { locked = false }

-- The steps of all threads. Who waits attempts; who was granted the device finishes; who took the
-- lock outside the queue gives it back.
pub data Step (q : Queue) : Queue → Type 0 where
  enters : (c : Client) → Step q (enter c q).1
  attempts : (c : Client) (ticket : ℕ) (r : Reading) → Step q (attempt c ticket r q).1
  finishes : (c : Client) → q.active ≡ some c → Step q (finish q)
  closes : Step q (close q)
  takes_lock : Step q (take_lock q).1
  releases_lock : q.active ≡ none → q.locked ≡ true → Step q (release_lock q)

pub data Reach (q : Queue) : Queue → Type 0 where
  here : Reach q q
  after : {r s : Queue} → Reach q r → Step r s → Reach q s
