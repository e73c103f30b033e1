-- ===== src/I2cAlerts/Examples.antt =====
-- The theorems about i2c-sensor-alerts/i2c-sensor-alerts.py at concrete inputs, and tests of its
-- functions.
use lvhvbox.Prelude.{
  ℕ, ◌≡◌, ◌↔◌, refl, true, false, [], ◌∷◌, none, some, ok, err, timeout_error, os_error, arith,
}
use lvhvbox.I2cAlerts.Monad.{temp_high, World}
use lvhvbox.I2cAlerts.{
  Config, failed, health, Round, round, check, handle, miss, alert_no_data, enforce_shutdown,
  send_global_poweroff, command_all, alert, pushover_send, post_all, alert_if_needed, condition,
  condition_ready, act_if,
}
use lvhvbox.I2cAlerts.Silence.{round_sent}
use lvhvbox.I2cAlerts.Shutdown.{commands}
use lvhvbox.I2cAlerts.Temperature.{run, Persists, round-Persists}
use lvhvbox.I2cAlerts.Escape.{round_escapes}

-- Two samples make a condition; two hosts, one recipient.
abbrev policy : Config
policy = record {
  dry_run = false;
  temp_high_c = 40;
  humid_high_rh = 60;
  trigger_level = 20;
  alert_cooldown = 600;
  condition_trigger = 2;
  no_data_trigger = 3;
  no_data_cooldown = 600;
  has_token = true;
  users = 9 ∷ [];
  hosts = 0 ∷ 1 ∷ [];
  client = ok tt;
}

abbrev dry_policy : Config
dry_policy = record policy { dry_run = true }

abbrev start : World
start = record {
  state = record {
    last_alert = λ _. 0;
    no_data_streak = 0;
    last_seen = none;
    latched = λ _. false;
    streaks = λ _. 0;
  };
  sent = [];
  answers = false ∷ [];
}

abbrev hot : ℕ → Round
hot t = record {
  fetch =
      health true (some t)
        (record { temperature_c = some 45; humidity_rh = some 30; dew_point_c = none });
  now = t;
  handler_now = t;
}

abbrev down : ℕ → Round
down t = record { fetch = failed timeout_error; now = t; handler_now = t }

-- The second hot sample commands both hosts, though the message fails.
hot_twice :
    commands temp_high (round policy (hot 2000) (round policy (hot 1000) start).1).1.sent ≡ true
unfolding round check handle miss alert_no_data enforce_shutdown send_global_poweroff command_all
    alert pushover_send post_all alert_if_needed condition condition_ready act_if
hot_twice = refl

round_sent_example : (round dry_policy (hot 1000) start).1.sent ≡ []
round_sent_example = round_sent dry_policy refl (hot 1000) start

hot_once : run policy (hot 1000 ∷ []) start ≡ ok (round policy (hot 1000) start).1
unfolding run round check handle miss alert_no_data enforce_shutdown send_global_poweroff
    command_all alert pushover_send post_all alert_if_needed condition condition_ready act_if
hot_once = refl

round-Persists_example :
    (commands temp_high
        (round policy (hot 2000) (record (round policy (hot 1000) start).1 { sent = [] })).1.sent
      ≡ true)
    ↔ Persists policy none (hot 2000) (hot 1000 ∷ [])
round-Persists_example =
    round-Persists policy (hot 2000) (hot 1000 ∷ []) start (round policy (hot 1000) start).1
      (omega arith) refl hot_once

-- Three rounds without an answer, and then a message that cannot be delivered.
abbrev silent : World
silent = record start { state = record start.state { no_data_streak = 2 } }

round_escapes_example : (round policy (down 3000) silent).0 ≡ err os_error
round_escapes_example =
    round_escapes policy 9 [] refl refl refl refl (down 3000) silent timeout_error [] refl refl
      (omega arith) refl refl
