-- ===== src/Rs485/Examples.antt =====
-- The theorems about rs485-server/rs485.py at concrete inputs, and tests of its functions.
use mathlib.Core.List.{flatten}
use lvhvbox.Prelude.{
  none, ℕ, ◌≤◌, ◌≡◌, ◌≢◌, refl, inl, inr, false, List, [], ◌∷◌, ◌++◌, All, IsBytes, length, some,
  ok, arith,
}
use lvhvbox.Rs485.Fcs.{fcs16}
use lvhvbox.Rs485.Fcs.Detection.{fcs16_two_bytes}
use lvhvbox.Rs485.Frame.{flag, max_wire, frame_bytes, unescape}
use lvhvbox.Rs485.Frame.Escape.{NoFlag}
use lvhvbox.Rs485.Packet.{Packet, encode, decode, packet_body, first_byte}
use lvhvbox.Rs485.Packet.RoundTrip.{IsValid, decode-encode, encode-decode, encode_shape}
use lvhvbox.Rs485.Stream.{Stream, init, feed_byte, feed}
use lvhvbox.Rs485.Stream.Delivery.{feed-encode}
use lvhvbox.Rs485.Stream.Authentic.{IsBounded, feed-IsBounded, Received, feed-Received}
use lvhvbox.Rs485.Session.{World, Event, reserves, restarts, run}
use lvhvbox.Rs485.Session.Holdoff.{Separated, run_distinct, run-Separated}
use lvhvbox.Rs485.Exchange.{Device, reply, exchange}
use lvhvbox.Rs485.Exchange.Line.{line_after, WritesDriven, DrainsSent, exchange_releases}
use lvhvbox.Rs485.Exchange.Listen.{Heard, first_usable, exchange-Heard}
use lvhvbox.Rs485.Exchange.Reply.{Answers, exchange_reply}

-- A response with a delimiter and an escape byte among its fields.
abbrev temperature : Packet
temperature = record {
  kind = 2;
  roc = 5;
  transaction = 0x7E;
  command = 3;
  payload = 0 ∷ 0x7D ∷ 1 ∷ [];
}

abbrev wire : List ℕ
wire = 126 ∷ 2 ∷ 2 ∷ 5 ∷ 0 ∷ 125 ∷ 94 ∷ 0 ∷ 3 ∷ 3 ∷ 0 ∷ 125 ∷ 93 ∷ 1 ∷ 249 ∷ 112 ∷ 126 ∷ []

encode_runs : encode temperature ≡ ok wire
unfolding encode packet_body frame_bytes fcs16
encode_runs = refl

decode_runs : decode wire ≡ ok temperature
unfolding decode unescape fcs16
decode_runs = refl

-- Noise before a frame: a frame cut short, then the response.
abbrev noisy : List ℕ
noisy = 0x41 ∷ flag ∷ 0x42 ∷ 0x43 ∷ wire

feed_runs : (feed init noisy).1 ≡ temperature ∷ []
unfolding feed feed_byte decode unescape fcs16
feed_runs = refl

wire-IsBytes : IsBytes wire
wire-IsBytes = omega arith

temperature-IsBytes : IsBytes temperature.payload
temperature-IsBytes = omega arith

abbrev damaged : Stream
damaged = record { frame = some (flag ∷ 0x42 ∷ 0x43 ∷ []); bad_frames = 4 }

feed-encode_example :
    feed damaged wire ≡ ((feed_byte flag damaged).0, (feed_byte flag damaged).1 ++ temperature ∷ [])
feed-encode_example = feed-encode damaged temperature wire temperature-IsBytes encode_runs

noisy-IsBytes : IsBytes noisy
noisy-IsBytes = omega arith

feed-Received_example : All (Received noisy) (feed init noisy).1
feed-Received_example = feed-Received noisy noisy-IsBytes

feed-IsBounded_example : IsBounded (feed damaged noisy).0.frame
feed-IsBounded_example = feed-IsBounded noisy damaged (omega arith)

encode-decode_example : (encode temperature ≡ ok wire) × IsValid temperature
encode-decode_example = encode-decode temperature wire wire-IsBytes decode_runs

decode-encode_example : decode wire ≡ ok temperature
decode-encode_example = decode-encode temperature wire temperature-IsBytes encode_runs

encode_shape_example :
    (text : List ℕ) × (wire ≡ flag ∷ (text ++ flag ∷ []))
    × NoFlag text
    × (12 ≤ length wire)
    × (length wire ≤ max_wire)
encode_shape_example = encode_shape temperature wire temperature-IsBytes encode_runs

fcs16_two_bytes_example : fcs16 ((1 ∷ []) ++ 2 ∷ 3 ∷ 4 ∷ []) ≢ fcs16 ((1 ∷ []) ++ 2 ∷ 7 ∷ 4 ∷ [])
fcs16_two_bytes_example =
    fcs16_two_bytes (1 ∷ []) (4 ∷ []) 2 3 2 7 (omega arith) (omega arith) (omega arith)
      (inr (omega arith))

abbrev asked : Packet
asked = record { kind = 1; roc = 5; transaction = 0x7E; command = 3; payload = [] }

-- The response comes in three reads, after noise.
abbrev device : Device
device = record {
  resets = ok tt;
  raises = ok tt;
  written = ok 13;
  drains = ok tt;
  chunks =
      (0x41 ∷ flag ∷ 0x42 ∷ [])
      ∷ (0x43 ∷ 126 ∷ 2 ∷ 2 ∷ 5 ∷ 0 ∷ 125 ∷ [])
      ∷ (94 ∷ 0 ∷ 3 ∷ 3 ∷ 0 ∷ 125 ∷ 93 ∷ 1 ∷ 249 ∷ 112 ∷ 126 ∷ [])
      ∷ [];
  ends = none;
}

abbrev asked_wire : List ℕ
asked_wire = 126 ∷ 2 ∷ 1 ∷ 5 ∷ 0 ∷ 125 ∷ 94 ∷ 0 ∷ 3 ∷ 0 ∷ 33 ∷ 221 ∷ 126 ∷ []

encode-asked : encode asked ≡ ok asked_wire
unfolding encode packet_body frame_bytes fcs16
encode-asked = refl

exchange_runs : (exchange 2 asked false device).1 ≡ reply temperature
unfolding exchange encode packet_body frame_bytes feed feed_byte decode unescape fcs16
exchange_runs = refl

chunks-IsBytes : IsBytes (flatten device.chunks)
unfolding flatten
chunks-IsBytes = omega arith

exchange_reply_example :
    Received (flatten device.chunks) temperature
    × Answers 2 asked temperature
    × (first_byte temperature.payload ≡ 0)
exchange_reply_example =
    exchange_reply 2 asked false device temperature chunks-IsBytes exchange_runs

exchange-Heard_example :
    Heard none
      (first_usable 2 asked (feed init (flatten device.chunks)).1)
      (exchange 2 asked false device).1
exchange-Heard_example =
    exchange-Heard 2 asked false device asked_wire refl encode-asked refl refl refl refl

exchange_releases_example :
    (line_after false (exchange 2 asked false device).0 ≡ false)
    × WritesDriven false (exchange 2 asked false device).0
    × DrainsSent (ok 13) (exchange 2 asked false device).0
exchange_releases_example = exchange_releases 2 asked false device

-- A transmission that is interrupted, a restart, and two more transmissions.
abbrev start : World
start = record {
  clock = 100;
  session = record {
    state = record { next_id = 65535; not_before = 0 };
    saved = record { next_id = 65535; not_before = 0 };
  };
}

abbrev interrupted : List Event
interrupted = reserves 5 0 70 ∷ restarts 1 ∷ reserves 2 1 70 ∷ reserves 3 0 70 ∷ []

run_distinct_example : ◌≢◌ {A = ℕ} 65535 0
unfolding run
run_distinct_example =
    run_distinct start interrupted 0 1 {r = record { transaction = 65535; start = 105; end = 175 }}
      {q = record { transaction = 0; start = 178; end = 248 }}
      (record { in_range = omega arith; same_id = refl }) (omega arith) (omega arith) refl refl

run-Separated_example : Separated 0 (run start interrupted).0
run-Separated_example =
    run-Separated interrupted 0 start (tt, (tt, (tt, (tt, tt)))) (inl (omega arith))
