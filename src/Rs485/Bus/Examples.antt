-- ===== src/Rs485/Bus/Examples.antt =====
-- Tests and witnesses for the operations of the bus.
use lvhvbox.Prelude.{
  none, ℕ, ◌+◌, ◌*◌, ◌≡◌, refl, true, false, List, [], ◌∷◌, if◌then◌else◌, ◌==◌, Result, ok, err,
  os_error,
}
use lvhvbox.Rs485.Fcs.{fcs16}
use lvhvbox.Rs485.Frame.{frame_bytes, unescape}
use lvhvbox.Rs485.Packet.{Packet, encode, decode, packet_body}
use lvhvbox.Rs485.Stream.{feed_byte, feed}
use lvhvbox.Rs485.Session.{Session, wait_ready, reserve, complete, response_window}
use lvhvbox.Rs485.Exchange.{Device, exchange}
use lvhvbox.Rs485.Bus.{value, Call, Probes, read_panel_id, probe_range, discover}
use lvhvbox.Rs485.Bus.Inventory.{tally, discover-tally}
use lvhvbox.Rs485.Bus.Transmitter.{status, Poll, drain_uart, Drained, drain_uart-Drained}

abbrev pub identity : Packet
identity = record { kind = 4; roc = 5; transaction = 9; command = 2; payload = 0 ∷ 5 ∷ 0 ∷ [] }

abbrev pub wire_of : Result (List ℕ) → List ℕ
wire_of (ok wire) = wire
wire_of (err e) = []

abbrev pub panel : Device
panel = record {
  resets = ok tt;
  raises = ok tt;
  written = ok 12;
  drains = ok tt;
  chunks = wire_of (encode identity) ∷ [];
  ends = none;
}

abbrev pub absent : Device
absent = record {
  resets = ok tt;
  raises = ok tt;
  written = ok 12;
  drains = ok tt;
  chunks = [] ∷ [];
  ends = none;
}

abbrev pub calls : ℕ → Call
calls address = record {
  now = 1000 * address;
  lag = 0;
  released = 1000 * address + 4;
  device = if address == 5 then panel else absent;
}

abbrev pub session : Session
session = record {
  state = record { next_id = 9; not_before = 0 };
  saved = record { next_id = 9; not_before = 0 };
}

abbrev pub inventory : Probes
inventory = record { found = 5 ∷ []; no_response = 6 ∷ []; errors = [] }

abbrev pub last_session : Session
last_session = record {
  state = record { next_id = 11; not_before = 6059 };
  saved = record { next_id = 11; not_before = 6059 };
}

pub discover_runs :
    discover 6000 (λ a. true) calls false true 5 6 session ≡ (value inventory, last_session)
unfolding discover probe_range read_panel_id exchange encode packet_body frame_bytes feed feed_byte
    decode unescape fcs16 reserve wait_ready complete response_window
discover_runs = refl

discover-tally_example : tally 6 inventory ≡ 1
discover-tally_example =
    discover-tally 6000 (λ a. true) calls false true 5 6 session last_session inventory
      discover_runs 6

abbrev polls : List Poll
polls =
    record { reads = status false; late = false } ∷ record { reads = status true; late = true } ∷ []

drain_uart_runs : drain_uart (err os_error) polls ≡ ok tt
unfolding drain_uart
drain_uart_runs = refl

drain_uart-Drained_example : Drained (err os_error) polls
drain_uart-Drained_example = drain_uart-Drained (err os_error) polls drain_uart_runs
