-- ===== src/Rs485/Session.antt =====
-- `BusSession` of rs485-server/rs485.py: transaction numbers and the holdoff after a transmission.
-- Times are clock readings in whole ticks. What stands in the lock file is `saved`: `save` overwrites it
-- in place, which is taken to complete, and `__enter__` reads it back. Ownership of the lock file by
-- `flock` is the system's.
pub mod Holdoff
use lvhvbox.Prelude.{
  ℕ, suc, ◌+◌, ◌%◌, ◌^◌, ◌≤◌, ◌≡◌, refl, max, List, [], ◌∷◌, ◌++◌, leb, le→leb, Result, ok, err,
  value_error, guard, ◌>>=◌, ◌>>◌,
}

pub record State : Type 0 where
  pub next_id : ℕ
  pub not_before : ℕ

pub record Session : Type 0 where
  pub state : State
  pub saved : State

-- `wait_ready` at the reading `now`: it returns at the time given, and the file keeps its record.
unfoldable pub wait_ready : ℕ → Session → ℕ × Session
wait_ready now s = (
  max now s.state.not_before,
  record s { state = record { next_id = s.state.next_id; not_before = 0 } },
)

pub save : Session → Session
save s = record s { saved = s.state }

-- A transmission that `reserve` allows: its number, and the reading from which its window counts.
pub record Reservation : Type 0 where
  pub transaction : ℕ
  pub start : ℕ
  pub end : ℕ

-- `reserve(window)` called at `now`; `lag` is what passes between the wait and the next reading.
unfoldable pub reserve : ℕ → ℕ → ℕ → Session → Reservation × Session
unfolding wait_ready save
reserve now lag window s =
    let (ready, t) = wait_ready now s in
    let transaction = t.state.next_id in
    let state : State = record {
      next_id = (transaction + 1) % 2 ^ 16;
      not_before = ready + lag + window;
    } in
    (
      record { transaction = transaction; start = ready + lag; end = ready + lag + window },
      save (record t { state = state }),
    )

unfoldable pub complete : Session → Session
unfolding save
complete s = save (record s { state = record { next_id = s.state.next_id; not_before = 0 } })

unfoldable pub response_window : ℕ → ℕ → Session → Session
unfolding save
response_window now window s =
    save (record s { state = record { next_id = s.state.next_id; not_before = now + window } })

-- What the lock file holds: nothing in a new file, what is no valid state, or a state, whose `next_id`
-- may be any natural number.
pub data Content : Type 0 where
  empty_file invalid_state : Content
  holds : State → Content

abbrev pub valid_state : State → Result State
valid_state state = do guard (leb state.next_id 65535) value_error; ok state

-- `random` is `secrets.randbelow(65536)`, whose documented result is below 65536.
abbrev pub opened_state : ℕ → Content → Result State
opened_state random empty_file = valid_state (record { next_id = random; not_before = 0 })
opened_state random invalid_state = err value_error
opened_state random (holds state) = valid_state state

-- `__enter__` at `now`, after `flock`: it reads the file, checks it, and waits.
unfoldable pub opened : ℕ → ℕ → Content → Session → Result (ℕ × Session)
unfolding wait_ready
opened now random content s = do
  state ← opened_state random content
  ok (wait_ready now (record s { state = state }))

-- `__enter__` of the next process, with the state that the last one saved.
unfoldable pub restart : ℕ → Session → ℕ × Session
unfolding wait_ready
restart now s = wait_ready now (record s { state = s.saved })

-- It is what the whole of `__enter__` does where the file holds the state that was saved.
pub opened-restart :
    (now random : ℕ) (s : Session)
    → s.saved.next_id ≤ 65535
    → opened now random (holds s.saved) s ≡ ok (restart now s)
unfolding opened restart
opened-restart now random s h = rw (le→leb s.saved.next_id 65535 h) refl

-- What happens to a session, each at some time after the event before it: the clock does not go back.
pub data Event : Type 0 where
  reserves : (gap lag window : ℕ) → Event
  completes : (gap : ℕ) → Event
  narrows : (gap window : ℕ) → Event
  restarts : (gap : ℕ) → Event

pub record World : Type 0 where
  pub clock : ℕ
  pub session : Session

pub step : World → Event → List Reservation × World
unfolding reserve complete response_window restart
step w (reserves gap lag window) =
    let (r, s) = reserve (w.clock + gap) lag window w.session in
    (r ∷ [], record { clock = r.start; session = s })
step w (completes gap) = ([], record { clock = w.clock + gap; session = complete w.session })
step w (narrows gap window) = (
  [],
  record { clock = w.clock + gap; session = response_window (w.clock + gap) window w.session },
)
step w (restarts gap) =
    let (ready, s) = restart (w.clock + gap) w.session in
    ([], record { clock = ready; session = s })

-- The reservations that a history makes, and the world after it.
unfoldable pub run : World → List Event → List Reservation × World
unfolding step
run w [] = ([], w)
run w (e ∷ rest) = let (here, v) = step w e in let (later, u) = run v rest in (here ++ later, u)
