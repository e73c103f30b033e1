-- ===== src/RocMonitor/Examples.antt =====
-- The theorems about roc-temperature-monitor/roc_temperature_monitor.py at concrete inputs, and tests
-- of its functions.
use mathlib.Core.List.{flatten}
use lvhvbox.Prelude.{
  ◌&&◌, Passes, ℕ, zero, suc, ◌≡◌, ◌≤◌, ◌↔◌, ◌==◌, refl, true, false, List, [], ◌∷◌, All, none,
  some, Option, ok, err, timeout_error, fetch, arith,
}
use lvhvbox.RocMonitor.{
  Monitor, PanelState, hot, psu_missing, fresh, apply_power, start_panels, reset_panels, set_panels,
  sorted, insert_sorted, sample, powered, finish_cycle, alarms, hot_alarms,
}
use lvhvbox.RocMonitor.Notify.{batches, split_batches, notify, send_all, pending_for, mark}
use lvhvbox.RocMonitor.Cycle.{
  Inputs, Visit, reads, commands_off, messages, cycle, patrol, judge, confirm, act, poll,
}
use lvhvbox.RocMonitor.Streak.{sampled, sampled-high_count, is_high}
use lvhvbox.RocMonitor.Batches.{IsMessage, batches-IsMessage}
use lvhvbox.RocMonitor.Commands.{commands}
use lvhvbox.RocMonitor.Known.{Known, IsCovered}
use lvhvbox.RocMonitor.Returns.{cycle-IsCovered}
use lvhvbox.Lvhv.Words.{pack_word, unpack_word}
use lvhvbox.Lvhv.Frame.{
  Block, blocks_size, pack_words, read_frame, read_blocks, read_block, type_bytes, unpack_words,
}
use lvhvbox.Lvhv.Message.{encode_message, encode_blocks, encode_block, pack_values, decode_message}
use lvhvbox.Lvhv.Examples.{plain, plain_pack}
use lvhvbox.Lvhv.Socket.{
  Arrival, Socket, Request, same_values, encode_request, request_reply, recv_reply, verify_magic,
  recv_message, recv_exact, recv_loop, recv_blocks, recv_block,
}
use lvhvbox.RocMonitor.Supply.{request_block, power_off, Replied, power_off_confirmed}
use lvhvbox.RocMonitor.Saved.{Restored, contents, save, restore, restore-save}
use lvhvbox.RocMonitor.Protection.{Confirmed, cycle-Confirmed}

-- One high sample raises an alert; one panel is enough for coverage.
abbrev new_monitor : Monitor
new_monitor = record {
  minimum_panels = 1;
  panels = [];
  threshold = 50;
  count = 1;
  missing_seconds = 300;
  power_cutoff = 5;
  states = [];
  delivered = [];
  powered_since = none;
  last_quorum = none;
  cycle_good = [];
}

-- Panel 7 is hot, panel 5 does not answer.
abbrev visit : ℕ → Visit
visit zero = record { stopped = false; before = 110; reading = err timeout_error; after = 112 }
visit (suc n) = record { stopped = false; before = 112; reading = ok 60; after = 113 }

abbrev hot_round : Inputs
hot_round = record {
  volts = ok (6 ∷ 0 ∷ []);
  discovered = ok (7 ∷ 5 ∷ []);
  power_time = 100;
  deadline = 200;
  visits = visit;
  finish_time = 114;
  alarm_time = 115;
  stopped = false;
  second_volts = ok (6 ∷ 0 ∷ []);
  recheck_time = 116;
  confirm_time = 117;
  power_off = ok tt;
  third_volts = ok (0 ∷ 0 ∷ []);
  users = 9 ∷ [];
  outcomes = λ _. true ∷ [];
  size = λ _. 40;
}

hot_round_effects :
    (cycle false 0 hot_round new_monitor).0
    ≡ reads 5
      ∷ reads 7
      ∷ commands_off
      ∷ messages (record { recipient = 9; alerts = hot 7 ∷ []; succeeded = true })
      ∷ []
unfolding powered cycle patrol judge confirm act poll sample finish_cycle alarms hot_alarms
    apply_power start_panels reset_panels set_panels sorted insert_sorted notify send_all
    pending_for mark batches split_batches
hot_round_effects = refl

hot_round-commands : commands (cycle false 0 hot_round new_monitor).0 ≡ true
hot_round-commands = rw hot_round_effects refl

cycle-Confirmed_example : Confirmed false 0 hot_round new_monitor
cycle-Confirmed_example = cycle-Confirmed false 0 hot_round new_monitor hot_round-commands

batches-IsMessage_example :
    (flatten (batches (λ _. 400) 68 (hot 1 ∷ hot 2 ∷ psu_missing ∷ []))
      ≡ hot 1 ∷ hot 2 ∷ psu_missing ∷ [])
    × All (IsMessage (λ _. 400) 68) (batches (λ _. 400) 68 (hot 1 ∷ hot 2 ∷ psu_missing ∷ []))
batches-IsMessage_example = batches-IsMessage (λ _. 400) 68 (hot 1 ∷ hot 2 ∷ psu_missing ∷ [])

batches_split :
    batches (λ _. 400) 68 (hot 1 ∷ hot 2 ∷ psu_missing ∷ [])
    ≡ (hot 1 ∷ hot 2 ∷ []) ∷ (psu_missing ∷ []) ∷ []
unfolding batches split_batches
batches_split = refl

abbrev one_panel : Monitor
one_panel = record new_monitor { panels = 5 ∷ []; states = (5, fresh) ∷ [] }

-- A high reading, a failed one, and two high ones: newest first.
abbrev history : List (Option ℕ × ℕ)
history = (some 60, 4) ∷ (some 70, 3) ∷ (none, 2) ∷ (some 60, 1) ∷ []

sampled-high_count_example :
    (n : Monitor) × (t : PanelState) × (sampled 5 history one_panel ≡ ok n)
    × (fetch ◌==◌ 5 n.states ≡ ok t)
    × ((k : ℕ) → (k ≤ t.high_count) ↔ Passes (is_high 50) k history)
sampled-high_count_example = sampled-high_count 5 history one_panel fresh refl refl

one_panel-IsCovered : IsCovered one_panel
unfolding IsCovered Known
one_panel-IsCovered = (((fresh, refl), tt), omega arith, (refl, tt))

cycle-IsCovered_example :
    (n : Monitor) × ((cycle true 0 hot_round one_panel).1 ≡ ok n) × IsCovered n
cycle-IsCovered_example = cycle-IsCovered true 0 hot_round one_panel one_panel-IsCovered

-- A monitor with a streak on one panel.
abbrev watched_state : PanelState
watched_state = record {
  powered_since = some 100;
  last_good = some 900;
  high_count = 2;
  temperature = some 61;
}

abbrev watching : Monitor
watching = record new_monitor {
  states = (7, watched_state) ∷ [];
  delivered = (hot 7, 4 ∷ []) ∷ [];
  powered_since = some 100;
}

restore-save_example :
    Restored false watching
      (restore 90 1 950 true (contents (save 1 930 true watching)) new_monitor)
restore-save_example =
    restore-save 90 1 930 950 true watching new_monitor ((omega arith, omega arith, refl), tt)
      (omega arith) tt (refl, tt) (omega arith)

-- A supply server that confirms the command in pieces of nine bytes, and sends one byte more.
abbrev nine : Arrival
nine = record { wait = 10; available = 9 }

abbrev server : List ℕ → Socket
server payload = record {
  now = 20;
  incoming =
      2 ∷ 0 ∷ 0 ∷ 0 ∷ 67 ∷ 4 ∷ 0 ∷ 0 ∷ 0 ∷ 76 ∷ 86 ∷ 72 ∷ 86 ∷ 73 ∷ 1 ∷ 0 ∷ 0 ∷ 0 ∷ 0 ∷ 0 ∷ 0 ∷ 0
      ∷ 9 ∷ [];
  arrivals = nine ∷ nine ∷ nine ∷ nine ∷ nine ∷ nine ∷ [];
}

abbrev off_request : Request
off_request = record { command = 6; subsystem = 1; channel = 6; numeric = some 0 }

abbrev after_off : Socket
after_off = record { now = 70; incoming = 9 ∷ []; arrivals = nine ∷ [] }

power_off_runs : power_off plain 5000 off_request 10 server ≡ ok after_off
unfolding power_off request_block request_reply encode_request encode_message encode_blocks
    encode_block blocks_size pack_values plain_pack pack_words pack_word recv_reply verify_magic
    recv_message recv_exact recv_loop recv_blocks recv_block decode_message read_frame read_blocks
    read_block type_bytes unpack_words unpack_word
power_off_runs = refl

power_off_confirmed_example :
    (b : Block) × Replied plain 5000 off_request 10 server (b ∷ []) after_off
    × (b.kind == b'I' && same_values b.values (0 ∷ []) ≡ true)
power_off_confirmed_example =
    power_off_confirmed plain 5000 off_request 10 server after_off (λ payload. omega arith)
      power_off_runs
