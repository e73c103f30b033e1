-- ===== src/Rs485/Stream.antt =====
-- `FrameStream` of rs485-server/rs485.py: packets out of a byte stream that comes in pieces.
pub mod Delivery
pub mod Authentic
use lvhvbox.Prelude.{
  ℕ, suc, ◌+◌, ◌≡◌, refl, List, [], ◌∷◌, ◌++◌, Option, none, some, if◌then◌else◌, ◌==◌, ltb, leb,
  length, ok, err,
}
use lvhvbox.Rs485.Frame.{flag, max_wire}
use lvhvbox.Rs485.Packet.{Packet, decode}

pub record Stream : Type 0 where
  pub frame : Option (List ℕ)
  pub bad_frames : ℕ

abbrev pub init : Stream
init = record { frame = none; bad_frames = 0 }

-- A delimiter ends the frame before it, unless that frame is a delimiter alone.
pub close : List ℕ → Stream → Stream × List Packet
close frame s =
    if ltb 1 (length frame)
    then elim (decode (frame ++ flag ∷ [])) [
      | ok p ↦ (s, p ∷ [])
      | err e ↦ (record s { bad_frames = s.bad_frames + 1 }, [])
    ]
    else (s, [])

-- The delimiter also opens the next frame.
pub feed_flag : Stream → Stream × List Packet
unfolding close
feed_flag s =
    let (t, packets) : Stream × List Packet = elim s.frame [
      | none ↦ (s, [])
      | some f ↦ close f s
    ] in
    (record t { frame = some (flag ∷ []) }, packets)

-- A frame that grows to `MAX_WIRE` is dropped, through the next delimiter.
pub grow : ℕ → List ℕ → Stream → Stream
grow byte frame s =
    let grown = frame ++ byte ∷ [] in
    if leb max_wire (length grown)
    then record { frame = none; bad_frames = s.bad_frames + 1 }
    else record s { frame = some grown }

unfoldable pub feed_byte : ℕ → Stream → Stream × List Packet
unfolding feed_flag grow
feed_byte byte s =
    if byte == flag
    then feed_flag s
    else elim s.frame [ none ↦ (s, []) | some f ↦ (grow byte f s, []) ]

unfoldable pub feed : Stream → List ℕ → Stream × List Packet
feed s [] = (s, [])
feed s (byte ∷ rest) =
    let (t, packets) = feed_byte byte s in let (u, more) = feed t rest in (u, packets ++ more)
