-- ===== src/Rs485/Bus.antt =====
-- The operations of `PiBus` in rs485-server/rs485.py, and the operations of `RS485` that are made of them:
-- each reserves a transaction, makes one exchange and reads the response. Times are in milliseconds.
pub mod Inventory
pub mod Transmitter
pub mod Telemetry
pub mod Examples
use lvhvbox.Prelude.{
  ℕ, zero, suc, ◌+◌, ◌-◌, ◌*◌, ◌/◌, ◌%◌, ◌^◌, ◌≡◌, refl, max, Bool, true, false, not, ◌&&◌, ◌||◌,
  List, [], ◌∷◌, ◌++◌, Option, none, some, if◌then◌else◌, ◌==◌, ltb, leb, length, take, drop,
  Result, ok, err, Error, value_error, runtime_error, key_error,
}
use lvhvbox.Rs485.Packet.{
  Packet, request, response, control_request, control_response, from_bytes, scalar_result,
}
use lvhvbox.Rs485.Session.{Session, Reservation, reserve, response_window, complete}
use lvhvbox.Rs485.Exchange.{
  Device, Action, drive, send, drain, narrow, finish, Outcome, reply, refused, silent, failed,
  exchange,
}

-- `GOLDEN_GUARD`, `DISCOVERY_TIMEOUT` and `DISCOVERY_GUARD`
abbrev pub golden_guard : List ℕ
golden_guard = b'G' ∷ b'O' ∷ b'L' ∷ b'D' ∷ []

-- The exceptions of a call: `ResponseTimeout`, a `ROCError`, or another.
pub data Fault : Type 0 where
  response_timeout roc_error : Fault
  other : Error → Fault

pub data Answer {ℓ} (A : Type ℓ) : Type ℓ where
  value : A → Answer A
  fault : Fault → Answer A

-- What a call meets: the clock when it reserves, the delay after the wait, the clock when the frame is
-- out, and the device.
pub record Call : Type 0 where
  pub now : ℕ
  pub lag : ℕ
  pub released : ℕ
  pub device : Device

abbrev pub discovery_window : ℕ
discovery_window = 55

-- What the session's calls among the actions of an exchange leave.
pub settle : ℕ → List Action → Session → Session
settle released [] s = s
settle released (drive level ∷ rest) s = settle released rest s
settle released (send wire ∷ rest) s = settle released rest s
settle released (drain ∷ rest) s = settle released rest s
settle released (narrow ∷ rest) s =
    settle released rest (response_window released discovery_window s)
settle released (finish ∷ rest) s = settle released rest (complete s)

abbrev pub answer_of : Outcome → Answer Packet
answer_of (reply p) = value p
answer_of (refused status) = fault roc_error
answer_of (silent bad_frames ignored) = fault response_timeout
answer_of (failed e) = fault (other e)

-- `Packet(kind, address, self.session.reserve(self.timeout + 1.1), command, payload)` and `_exchange`.
pub transact :
    ℕ → ℕ → ℕ → ℕ → ℕ → List ℕ → Bool → Call → Session → (Packet × Answer Packet) × Session
unfolding settle
transact timeout kind response_type address command payload discovery c s =
    let (r, s) = reserve c.now c.lag (timeout + 1100) s in
    let asked : Packet = record {
      kind = kind;
      roc = address;
      transaction = r.transaction;
      command = command;
      payload = payload;
    } in
    let (actions, outcome) = exchange response_type asked discovery c.device in
    ((asked, answer_of outcome), settle c.released actions s)

abbrev pub payload_value : Packet → ℕ
payload_value p = from_bytes (drop 1 p.payload)

abbrev pub after {ℓ} :
    {A : Type ℓ}
    → (Packet → Packet → Answer A)
    → (Packet × Answer Packet) × Session
    → Answer A × Session
after read ((asked, value p), s) = (read asked p, s)
after read ((asked, fault f), s) = (fault f, s)

abbrev pub scalar_answer : Packet → Packet → Answer ℕ
scalar_answer asked p = elim (scalar_result p asked) [ ok v ↦ value v | err e ↦ fault (other e) ]

unfoldable pub read_scalar : ℕ → ℕ → ℕ → Call → Session → Answer ℕ × Session
unfolding transact
read_scalar timeout address command c s =
    after scalar_answer (transact timeout request response address command [] false c s)

abbrev pub control_answer : Bool → Packet → Packet → Answer ℕ
control_answer activate asked p =
    if activate && not (payload_value p == 0) then fault roc_error else value (payload_value p)

unfoldable pub control : ℕ → ℕ → Bool → Call → Session → Answer ℕ × Session
unfolding transact
control timeout address activate c s = after (control_answer activate) (
    transact timeout control_request control_response address (if activate then 1 else 0)
      (if activate then golden_guard else []) false c s)

unfoldable pub read_direct : ℕ → ℕ → ℕ → Call → Session → Answer ℕ × Session
unfolding transact
read_direct timeout address command c s =
    if not (leb address 511)
    then (fault (other value_error), s)
    else if not (leb 3 command && leb command 6)
    then (fault (other value_error), s)
    else after (λ asked p. value (payload_value p))
        (transact timeout control_request control_response address command [] false c s)

abbrev pub panel_answer : ℕ → Packet → Packet → Answer ℕ
panel_answer address asked p =
    if payload_value p == address then value (payload_value p) else fault roc_error

unfoldable pub read_panel_id : ℕ → ℕ → Bool → Call → Session → Answer ℕ × Session
unfolding transact
read_panel_id timeout address discovery c s =
    if not (leb address 511)
    then (fault (other value_error), s)
    else after (panel_answer address)
        (transact timeout control_request control_response address 2 [] discovery c s)

-- `read_rule`: the low word, then the high word of a rule with two commands.
abbrev pub join_words : ℕ → Answer ℕ × Session → Answer ℕ × Session
join_words low (fault f, s) = (fault f, s)
join_words low (value high, s) = (value (high * 2 ^ 16 + low), s)

abbrev pub then_high : (Session → Answer ℕ × Session) → Answer ℕ × Session → Answer ℕ × Session
then_high read (fault f, s) = (fault f, s)
then_high read (value low, s) = join_words low (read s)

unfoldable pub read_rule : ℕ → ℕ → List ℕ → Call → Call → Session → Answer ℕ × Session
read_rule timeout address [] c d s = (fault (other value_error), s)
read_rule timeout address (low ∷ []) c d s = read_scalar timeout address low c s
read_rule timeout address (low ∷ high ∷ rest) c d s =
    then_high (read_scalar timeout address high d) (read_scalar timeout address low c s)

-- The lists of `discover`.
pub record Probes : Type 0 where
  pub found : List ℕ
  pub no_response : List ℕ
  pub errors : List ℕ

-- What the `try` of `discover` does with one probe: other exceptions end the scan.
abbrev pub note_probe : ℕ → Answer ℕ → Probes → Answer Probes
note_probe address (value v) p =
    if v == address
    then value (record p { found = p.found ++ (address ∷ []) })
    else value (record p { errors = p.errors ++ (address ∷ []) })
note_probe address (fault response_timeout) p =
    value (record p { no_response = p.no_response ++ (address ∷ []) })
note_probe address (fault roc_error) p = value (record p { errors = p.errors ++ (address ∷ []) })
note_probe address (fault (other e)) p = fault (other e)

-- A turn of the queue may be refused with `BusyError`.
abbrev pub probe : ℕ → ℕ → Bool → Call → Session → Answer ℕ × Session
probe timeout address admitted c s =
    if admitted then read_panel_id timeout address true c s else (fault (other runtime_error), s)

-- The loop of `discover`: `n` addresses from `address` on.
unfoldable pub probe_range :
    ℕ → (ℕ → Bool) → (ℕ → Call) → ℕ → ℕ → Probes → Session → Answer Probes × Session
probe_range timeout admitted calls zero address p s = (value p, s)
probe_range timeout admitted calls (suc n) address p s =
    let (answer, t) = probe timeout address (admitted address) (calls address) s in
    elim (note_probe address answer p) [
      | fault f ↦ (fault f, t)
      | value q ↦ probe_range timeout admitted calls n (suc address) q t
    ]

abbrev pub no_probes : Probes
no_probes = record { found = []; no_response = []; errors = [] }

-- `RS485.discover`: `scanning` is whether another scan holds the scan lock, `opened` whether the device
-- is open.
unfoldable pub discover :
    ℕ → (ℕ → Bool) → (ℕ → Call) → Bool → Bool → ℕ → ℕ → Session → Answer Probes × Session
discover timeout admitted calls scanning opened start stop s =
    if not (leb start stop && leb stop 511)
    then (fault (other value_error), s)
    else if scanning || not opened
    then (fault (other runtime_error), s)
    else probe_range timeout admitted calls (stop + 1 - start) start no_probes s

-- The report of `recovery` on a panel's golden image: the bits of the response.
pub record Recovery : Type 0 where
  pub armed : Bool
  pub committed : Bool
  pub failure : Bool
  pub owns_system_services : Bool
  pub error_code : ℕ

abbrev pub bit_set : ℕ → ℕ → Bool
bit_set v k = v / 2 ^ k % 2 == 1

abbrev pub recovery_report : ℕ → Recovery
recovery_report v = record {
  armed = bit_set v 0;
  committed = bit_set v 1;
  failure = bit_set v 2;
  owns_system_services = bit_set v 3;
  error_code = v / 2 ^ 8;
}

-- `RS485.recovery`: an activation reports only that it was accepted, which is none here.
abbrev pub report : Bool → Answer ℕ × Session → Answer (Option Recovery) × Session
report activate (fault f, s) = (fault f, s)
report activate (value v, s) = (value (if activate then none else some (recovery_report v)), s)

unfoldable pub recovery :
    ℕ → Bool → Bool → ℕ → Bool → Call → Session → Answer (Option Recovery) × Session
recovery timeout admitted opened address activate c s =
    if not (leb 1 address && leb address 511)
    then (fault (other value_error), s)
    else if not admitted || not opened
    then (fault (other runtime_error), s)
    else report activate (control timeout address activate c s)

-- `RS485.panel_id`
unfoldable pub panel_id : ℕ → Bool → Bool → ℕ → Call → Session → Answer ℕ × Session
panel_id timeout admitted opened address c s =
    if not (leb address 511)
    then (fault (other value_error), s)
    else if not admitted || not opened
    then (fault (other runtime_error), s)
    else read_panel_id timeout address false c s

-- `transaction_allowance`: what is left of the holdoff, and a whole exchange for each word.
unfoldable pub transaction_allowance : ℕ → ℕ → Bool → ℕ → Session → ℕ
transaction_allowance budget words discovery now s =
    (s.state.not_before - now) + (if discovery then 3500 else budget * words)
