-- ===== src/Rs485/Exchange.antt =====
-- `PiBus._exchange` of rs485-server/rs485.py: one request on the bus, and the wait for its response.
-- What the devices do is an argument: how each call that can raise ends, Ctrl-C included, and what each
-- read of the UART returns until the deadline. The GPIO call that lowers the line is taken to succeed. `ROCError` is the error `runtime_error`.
pub mod Listen
pub mod Reply
pub mod Line
use lvhvbox.Prelude.{
  ℕ, suc, ◌+◌, ◌*◌, ◌≡◌, refl, Bool, true, false, not, ◌&&◌, ◌||◌, List, [], ◌∷◌, ◌++◌, Option,
  none, some, if◌then◌else◌, ◌==◌, ltb, length, Result, ok, err, Error, value_error, os_error,
  guard, ◌>>=◌, ◌>>◌,
}
use lvhvbox.Rs485.Packet.{Packet, encode, control_request, control_response, first_byte}
use lvhvbox.Rs485.Stream.{Stream, init, feed}

pub record Device : Type 0 where
  -- `serial.reset_input_buffer` returns, or raises
  pub resets : Result (Unit {0})
  -- `direction(True)` and the wait after it return, or raise
  pub raises : Result (Unit {0})
  -- `serial.write` takes so many bytes, or raises
  pub written : Result ℕ
  -- `drain` returns, or raises
  pub drains : Result (Unit {0})
  -- the bytes of each `serial.read` before the deadline
  pub chunks : List (List ℕ)
  -- what the read after those raises, if one does
  pub ends : Option Error

-- The calls that the exchange makes: `direction`, `serial.write`, `drain`, and the session's
-- `response_window` and `complete`.
pub data Action : Type 0 where
  drive : Bool → Action
  send : List ℕ → Action
  drain narrow finish : Action

pub data Outcome : Type 0 where
  reply : Packet → Outcome
  refused : (status : ℕ) → Outcome
  silent : (bad_frames ignored : ℕ) → Outcome
  failed : Error → Outcome

-- The response has the kind that is awaited and the identity of the request.
abbrev pub matches : ℕ → Packet → Packet → Bool
matches response_type asked p =
    p.kind == response_type
    && (p.roc == asked.roc && (p.transaction == asked.transaction && p.command == asked.command))

-- The loop over the packets of one read: the first usable response, or the counts so far.
pub data Scan : Type 0 where
  found : Packet → Scan
  more : (stream : Stream) (ignored : ℕ) → Scan

pub scan : ℕ → Packet → List Packet → Stream → ℕ → Scan
scan response_type asked [] stream ignored = more stream ignored
scan response_type asked (p ∷ rest) stream ignored =
    if not (matches response_type asked p)
    then scan response_type asked rest stream (ignored + 1)
    else if not (length p.payload == 3)
    then scan response_type asked rest (record stream { bad_frames = stream.bad_frames + 1 })
        ignored
    else found p

-- A usable response ends the wait, whatever its status.
abbrev pub answer : Packet → Outcome
answer p = if first_byte p.payload == 0 then reply p else refused (first_byte p.payload)

-- The loop until the deadline, one read a round. An exception of a read leaves it.
abbrev pub ending : Option Error → Stream → ℕ → Outcome
ending none stream ignored = silent stream.bad_frames ignored
ending (some e) stream ignored = failed e

pub listen : ℕ → Packet → Option Error → List (List ℕ) → Stream → ℕ → Outcome
unfolding scan
listen response_type asked ends [] stream ignored = ending ends stream ignored
listen response_type asked ends (data' ∷ chunks) stream ignored =
    let (t, packets) = feed stream data' in
    elim (scan response_type asked packets t ignored) [
      | found p ↦ answer p
      | more u n ↦ listen response_type asked ends chunks u n
    ]

-- `session.complete()` is called for a usable response only.
abbrev pub finishing : Outcome → List Action
finishing (reply p) = finish ∷ []
finishing (refused status) = finish ∷ []
finishing (silent bad_frames ignored) = []
finishing (failed e) = []

abbrev pub narrowing : Bool → List Action
narrowing discovery = if discovery then narrow ∷ [] else []

-- The statements of the `try` block, as far as they get.
abbrev pub sending : List ℕ → Result ℕ → Result (Unit {0}) → List Action × Result (Unit {0})
sending wire (err e) drains = (send wire ∷ [], err e)
sending wire (ok n) drains =
    if n == length wire then (send wire ∷ drain ∷ [], drains) else (send wire ∷ [], err os_error)

abbrev pub driving :
    List ℕ → Result (Unit {0}) → Result ℕ → Result (Unit {0}) → List Action × Result (Unit {0})
driving wire (err e) written drains = (drive true ∷ [], err e)
driving wire (ok _) written drains =
    let (actions, end) = sending wire written drains in (drive true ∷ actions, end)

-- The block is entered once the input is reset, and its `finally` lowers the line.
abbrev pub transmission :
    List ℕ
    → Result (Unit {0})
    → Result (Unit {0})
    → Result ℕ
    → Result (Unit {0})
    → List Action × Result (Unit {0})
transmission wire (err e) raises written drains = (drive false ∷ [], err e)
transmission wire (ok _) raises written drains =
    let (actions, end) = driving wire raises written drains in
    (drive false ∷ (actions ++ drive false ∷ []), end)

pub transmit : List ℕ → Device → List Action × Result (Unit {0})
transmit wire d = transmission wire d.resets d.raises d.written d.drains

-- After the transmission: the wait, unless it failed.
abbrev pub await :
    ℕ → Packet → Bool → Device → List Action × Result (Unit {0}) → List Action × Outcome
await response_type asked discovery d (sent, err e) = (sent, failed e)
await response_type asked discovery d (sent, ok _) =
    let outcome = listen response_type asked d.ends d.chunks init 0 in
    (sent ++ (narrowing discovery ++ finishing outcome), outcome)

-- The fast discovery window is for panel-ID requests only.
abbrev pub discoverable : ℕ → Packet → Bool
discoverable response_type asked =
    asked.kind == control_request
    && (asked.command == 2 && (length asked.payload == 0 && response_type == control_response))

unfoldable pub exchange : ℕ → Packet → Bool → Device → List Action × Outcome
unfolding transmit listen
exchange response_type asked discovery d =
    if discovery && not (discoverable response_type asked)
    then ([], failed value_error)
    else elim (encode asked) [
      | err e ↦ ([], failed e)
      | ok wire ↦ await response_type asked discovery d (transmit wire d)
    ]
