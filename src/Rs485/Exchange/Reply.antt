-- ===== src/Rs485/Exchange/Reply.antt =====
-- What a caller of `PiBus._exchange` in rs485-server/rs485.py may rely on in a response.
use mathlib.Core.List.{flatten}
use lvhvbox.Prelude.{ℕ, ◌≡◌, Bool, true, IsBytes, length, arith}
use lvhvbox.Rs485.Packet.{Packet, first_byte}
use lvhvbox.Rs485.Stream.Authentic.{Received}
use lvhvbox.Rs485.Exchange.{Device, reply, exchange}
use lvhvbox.Rs485.Exchange.Listen.{usable, exchange_heard}

-- What the test of a response asks of its fields.
pub record Answers (response_type : ℕ) (asked p : Packet) : Type 0 where
  pub same_kind : p.kind ≡ response_type
  pub same_roc : p.roc ≡ asked.roc
  pub same_transaction : p.transaction ≡ asked.transaction
  pub same_command : p.command ≡ asked.command
  pub three_bytes : length p.payload ≡ 3

usable-Answers :
    (response_type : ℕ) (asked p : Packet)
    → usable response_type asked p ≡ true
    → Answers response_type asked p
usable-Answers response_type asked p h = record {
  same_kind = ground arith;
  same_roc = ground arith;
  same_transaction = ground arith;
  same_command = ground arith;
  three_bytes = ground arith;
}

-- A response that an exchange returns arrived unbroken, with its checksum, among the bytes that were
-- read for it; it has the kind that was awaited, and the request's address, transaction number and
-- command; its status is 0 and a 16-bit value follows.
pub exchange_reply :
    (response_type : ℕ) (asked : Packet) (discovery : Bool) (d : Device) (p : Packet)
    → IsBytes (flatten d.chunks)
    → (exchange response_type asked discovery d).1 ≡ reply p
    → Received (flatten d.chunks) p × Answers response_type asked p × (first_byte p.payload ≡ 0)
exchange_reply response_type asked discovery d p b h =
    let (received, useful, status) = exchange_heard response_type asked discovery d p b h in
    (received, usable-Answers response_type asked p useful, status)
