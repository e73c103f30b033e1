-- ===== src/Lvhv/Socket.antt =====
-- Receipt of a message of common/lvhv_protocol.py from a socket. `sock.recv` is the peer's bytes and a
-- list of arrivals: how long each call waits, and how many bytes the operating system then has.
pub mod Framing
pub mod Arrivals
pub mod Delivery
use lvhvbox.Prelude.{
  ℕ, zero, suc, ◌+◌, ◌-◌, ◌*◌, ◌/◌, Bool, true, false, not, ◌&&◌, List, [], ◌∷◌, ◌++◌, ◌==◌, ltb,
  leb, length, take, drop, min, is_empty, Option, none, some, Result, ok, err, value_error,
  runtime_error, timeout_error, eof_error, guard, ◌>>=◌, ◌>>◌,
}
use lvhvbox.Lvhv.Words.{unpack_word}
use lvhvbox.Lvhv.Frame.{Block, type_bytes, count_bytes, max_message_bytes, valid_count}
use lvhvbox.Lvhv.Message.{Struct, decode_message, encode_message}

pub record Arrival : Type 0 where
  pub wait : ℕ
  pub available : ℕ

-- `time.monotonic()` in milliseconds, the bytes that the peer sends and this side has not received, and
-- the arrivals to come; with none left, `recv` waits until its timeout.
pub record Socket : Type 0 where
  pub now : ℕ
  pub incoming : List ℕ
  pub arrivals : List Arrival

-- The bytes that `sock.recv(min(65536, remaining))` returns; none, if the peer has closed.
abbrev pub part_of : Arrival → ℕ → List ℕ → List ℕ
part_of a remaining incoming = take (min a.available (min 65536 remaining)) incoming

-- The loop of `recv_exact`, one arrival for each round.
unfoldable pub recv_loop : ℕ → List Arrival → ℕ → List ℕ → ℕ → Result (List ℕ × Socket)
recv_loop deadline arrivals now incoming zero =
    ok ([], record { now = now; incoming = incoming; arrivals = arrivals })
recv_loop deadline [] now incoming (suc n) = err timeout_error
recv_loop deadline (a ∷ arrivals) now incoming (suc n) = do
  guard (ltb now deadline && leb a.wait (deadline - now)) timeout_error
  let part = part_of a (suc n) incoming
  guard (not (is_empty part)) eof_error
  (bytes, s) ←
      recv_loop deadline arrivals (now + a.wait) (drop (length part) incoming) (suc n - length part)
  ok (part ++ bytes, s)

unfoldable pub recv_exact : ℕ → ℕ → Socket → Result (List ℕ × Socket)
unfolding recv_loop
recv_exact size deadline s = recv_loop deadline s.arrivals s.now s.incoming size

-- `max_blocks`, `max_bytes` and `max_elements`.
pub record Limits : Type 0 where
  pub most_blocks : ℕ
  pub most_bytes : ℕ
  pub most_elements : Option ℕ

abbrev pub few_elements : Option ℕ → ℕ → Bool
few_elements none n = true
few_elements (some most) n = leb n most

-- `header[0]`, of a header that is there.
abbrev pub first_byte : List ℕ → ℕ
first_byte [] = 0
first_byte (b ∷ bytes) = b

abbrev pub recv_payload : ℕ → ℕ → Option ℕ → List ℕ → ℕ → Socket → Result (List ℕ × Socket)
recv_payload deadline budget most header w s = do
  let elements = unpack_word (take count_bytes (drop 1 header))
  guard (few_elements most elements) value_error
  guard (leb (elements * w) (budget - length header)) value_error
  (payload, s) ← recv_exact (elements * w) deadline s
  ok (header ++ payload, s)

unfoldable pub recv_block : ℕ → ℕ → Option ℕ → Socket → Result (List ℕ × Socket)
recv_block deadline budget most s = do
  guard (leb (1 + count_bytes) budget) value_error
  (header, s) ← recv_exact (1 + count_bytes) deadline s
  elim (type_bytes (first_byte header)) [
    | none ↦ err value_error
    | some w ↦ recv_payload deadline budget most header w s
  ]

-- The loop of `recv_message`: `budget` is what is left of the limit on bytes.
unfoldable pub recv_blocks : ℕ → ℕ → ℕ → Option ℕ → Socket → Result (List ℕ × Socket)
recv_blocks zero deadline budget most s = ok ([], s)
recv_blocks (suc n) deadline budget most s = do
  (block, s) ← recv_block deadline budget most s
  (rest, s) ← recv_blocks n deadline (budget - length block) most s
  ok (block ++ rest, s)

unfoldable pub recv_message : Struct → Limits → ℕ → Socket → Result (List Block × Socket)
recv_message st limits deadline s = do
  (prefix, s) ← recv_exact count_bytes deadline s
  let count = unpack_word prefix
  guard (valid_count limits.most_blocks count) value_error
  (body, s) ←
      recv_blocks count deadline (min limits.most_bytes max_message_bytes - count_bytes)
        limits.most_elements s
  blocks ← decode_message st (prefix ++ body) limits.most_blocks limits.most_bytes
  ok (blocks, s)

-- `MAGIC`
abbrev pub magic : List ℕ
magic = b'L' ∷ b'V' ∷ b'H' ∷ b'V' ∷ []

abbrev pub same_values : List ℕ → List ℕ → Bool
same_values [] [] = true
same_values (x ∷ xs) (y ∷ ys) = x == y && same_values xs ys
same_values _ _ = false

abbrev pub is_magic : Block → Bool
is_magic b = b.kind == b'C' && same_values b.values magic

unfoldable pub verify_magic : List Block → Result (List Block)
verify_magic [] = err value_error
verify_magic (b ∷ blocks) = do guard (is_magic b) value_error; ok blocks

unfoldable pub recv_reply : Struct → Limits → ℕ → Socket → Result (List Block × Socket)
recv_reply st limits deadline s = do
  (blocks, s) ← recv_message st limits deadline s
  reply ← verify_magic blocks
  ok (reply, s)

-- The parameters of `encode_request`: `numeric` is none if it is not a finite
-- number.
pub record Request : Type 0 where
  pub command : ℕ
  pub subsystem : ℕ
  pub channel : ℕ
  pub numeric : Option ℕ

abbrev pub request_blocks : Request → ℕ → List Block
request_blocks r numeric =
    record { kind = b'C'; values = magic }
    ∷ record { kind = b'U'; values = r.command ∷ [] }
    ∷ record { kind = b'U'; values = r.subsystem ∷ [] }
    ∷ record { kind = b'C'; values = r.channel ∷ [] }
    ∷ record { kind = b'F'; values = numeric ∷ [] }
    ∷ []

unfoldable pub encode_request : Struct → Request → Result (List ℕ)
encode_request st r = elim r.numeric [
  | none ↦ err value_error
  | some numeric ↦
      guard (ltb r.channel 256) value_error >> encode_message st (request_blocks r numeric)
]

-- The bytes that `sock.sendall` is given, with the reply: `timeout` is in milliseconds, none if it is
-- not finite, and `respond` is the socket after the request is sent.
abbrev pub positive : Option ℕ → Result ℕ
positive none = err value_error
positive (some t) = do guard (ltb 0 t) value_error; ok t

unfoldable pub request_reply :
    Struct → Limits → Option ℕ → Request → ℕ → (List ℕ → Socket) → Result (List Block × Socket)
request_reply st limits timeout r now respond = do
  t ← positive timeout
  payload ← encode_request st r
  recv_reply st limits (now + t) (respond payload)

abbrev pub is_success : List Block → Bool
is_success (b ∷ []) = b.kind == b'I' && same_values b.values (0 ∷ [])
is_success _ = false

unfoldable pub require_success : List Block → Result (Unit {0})
require_success reply = guard (is_success reply) runtime_error
