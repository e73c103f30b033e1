-- ===== src/Rs485/Packet.antt =====
-- `Packet` of rs485-server/rs485.py. The fields are natural numbers: `encode` refuses a negative one
-- as it refuses one above its range, and `decode` never makes one.
pub mod RoundTrip
use lvhvbox.Prelude.{
  ℕ, ◌+◌, ◌-◌, ◌*◌, ◌/◌, ◌%◌, ◌≡◌, refl, Bool, true, false, not, ◌&&◌, ◌||◌, List, [], ◌∷◌, ◌++◌,
  if◌then◌else◌, ◌==◌, ltb, leb, length, take, drop, Result, ok, err, value_error, runtime_error,
  guard, ◌>>=◌, ◌>>◌,
}
use lvhvbox.Rs485.Fcs.{fcs16}
use lvhvbox.Rs485.Frame.{
  flag, max_payload, header_size, max_body, escape, frame_bytes, Unescape, unescape,
}

abbrev pub version : ℕ
version = 2

abbrev pub request : ℕ
request = 1

abbrev pub response : ℕ
response = 2

abbrev pub control_request : ℕ
control_request = 3

abbrev pub control_response : ℕ
control_response = 4

pub record Packet : Type 0 where
  pub kind : ℕ
  pub roc : ℕ
  pub transaction : ℕ
  pub command : ℕ
  pub payload : List ℕ

abbrev pub known_kind : ℕ → Bool
known_kind k = k == request || k == response || k == control_request || k == control_response

-- A 16-bit field of `HEADER`, and the checksum: little-endian.
abbrev pub pack_u16 : ℕ → List ℕ
pack_u16 n = n % 256 ∷ n / 256 ∷ []

-- `HEADER.pack(VERSION, kind, roc, transaction, command, len(payload)) + payload`.
unfoldable pub packet_body : Packet → List ℕ
packet_body p =
    version
    ∷ p.kind
    ∷ p.roc % 256
    ∷ p.roc / 256
    ∷ p.transaction % 256
    ∷ p.transaction / 256
    ∷ p.command
    ∷ length p.payload
    ∷ p.payload

unfoldable pub encode : Packet → Result (List ℕ)
encode p = do
  guard (known_kind p.kind && leb p.roc 511) value_error
  guard (leb p.transaction 65535 && leb p.command 255) value_error
  guard (leb (length p.payload) max_payload) value_error
  let body = packet_body p
  ok (frame_bytes (body ++ pack_u16 (fcs16 body)))

-- `int.from_bytes(word, 'little')` for the two bytes that are left of a body.
abbrev pub from_bytes : List ℕ → ℕ
from_bytes [] = 0
from_bytes (b ∷ rest) = b + 256 * from_bytes rest

-- The tests of `decode` after the body is unescaped; `HEADER.unpack` reads the eight fields.
pub parse_body : List ℕ → Result Packet
parse_body (v ∷ kind ∷ r0 ∷ r1 ∷ t0 ∷ t1 ∷ command ∷ len ∷ rest) = do
  let body = v ∷ kind ∷ r0 ∷ r1 ∷ t0 ∷ t1 ∷ command ∷ len ∷ rest
  let roc = r0 + 256 * r1
  guard (v == version && (known_kind kind && leb roc 511)) value_error
  guard (leb len max_payload && length body == header_size + len + 2) value_error
  guard (fcs16 (take (length body - 2) body) == from_bytes (drop (length body - 2) body))
      value_error
  ok (record {
    kind = kind;
    roc = roc;
    transaction = t0 + 256 * t1;
    command = command;
    payload = take (length rest - 2) rest;
  })
parse_body _ = err value_error

-- `wire[1:-1]` and `wire[-1]` of a sequence of at least two bytes.
pub inner : List ℕ → List ℕ
inner [] = []
inner (first ∷ rest) = take (length rest - 1) rest

pub last_byte : List ℕ → ℕ
last_byte [] = 0
last_byte (b ∷ []) = b
last_byte (b ∷ c ∷ rest) = last_byte (c ∷ rest)

abbrev pub first_byte : List ℕ → ℕ
first_byte [] = 0
first_byte (b ∷ rest) = b

unfoldable pub decode : List ℕ → Result Packet
unfolding parse_body inner last_byte
decode wire = do
  guard (leb 2 (length wire) && (first_byte wire == flag && last_byte wire == flag)) value_error
  s ← unescape (inner wire) (record { escaped = false; body = [] })
  guard (not s.escaped && leb (header_size + 2) (length s.body)) value_error
  parse_body s.body

-- `scalar_result`: the identity and the status of a response, then its 16-bit value.
abbrev pub status_value : List ℕ → Result ℕ
status_value (status ∷ low ∷ high ∷ []) = do guard (status == 0) value_error; ok (low + 256 * high)
status_value _ = err value_error

unfoldable pub scalar_result : Packet → Packet → Result ℕ
scalar_result reply asked = do
  guard (asked.kind == request && reply.kind == response) value_error
  guard
      (reply.roc == asked.roc
        && (reply.transaction == asked.transaction && reply.command == asked.command))
      value_error
  status_value reply.payload

read_temp : Packet
read_temp = record { kind = 1; roc = 0x7E; transaction = 0x7D01; command = 3; payload = [] }

round_trip_runs : (encode read_temp >>= decode) ≡ ok read_temp
unfolding encode decode read_temp packet_body frame_bytes fcs16 unescape
round_trip_runs = refl
