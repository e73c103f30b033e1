-- ===== src/I2cAlerts/Shutdown.antt =====
-- When i2c-sensor-alerts/i2c-sensor-alerts.py switches the fleet off for a high temperature.
use lvhvbox.Prelude.{
  ℕ, ◌+◌, ◌≡◌, refl, ap, ◌∙◌, Bool, true, false, not, ◌&&◌, ◌||◌, List, [], ◌∷◌, Option, none, some,
  if◌then◌else◌, if_elim, ltb, any, is_empty, Result, ok, err, os_error,
}
use lvhvbox.I2cAlerts.Monad.{
  Reason, no_data, temp_high, humid_high, dew_approach, same_reason, Event, powers_off, posts,
  World, Call, pure, raise, modify, first_answer, later_answers, ◌>>=◌, ◌>>◌,
}
use lvhvbox.I2cAlerts.{
  Config, post_all, pushover_send, command_all, send_global_poweroff, set_latch, set_streak,
  enforce_shutdown, condition_ready, act_if, Values, Fetch, failed, health, exceeds, reaches,
  is_fresh, accept, alert, alert_if_needed, condition, miss, check, handle, Round, round,
}
use lvhvbox.I2cAlerts.Effects.{
  Keeps, Keeps->>=, after->>=, after-try, Ignores, Keeps-alert, Keeps-condition, Keeps-miss,
  Keeps-handle,
}

abbrev pub is_command : Reason → Event → Bool
is_command key (powers_off k host) = same_reason k key
is_command key (posts k user) = false

-- Whether a host was commanded to switch off for a reason.
abbrev pub commands : Reason → List Event → Bool
commands key events = any (is_command key) events

-- What decides on the high temperature.
abbrev pub Watch : Type 0
Watch = ℕ × Bool × Option ℕ

abbrev pub watch : World → Watch
watch w = (w.state.streaks temp_high, commands temp_high w.sent, w.state.last_seen)

delivered_watch :
    (next : Call (Unit {0})) (delivered : Bool)
    → Keeps watch next
    → (w : World)
    → watch (elim delivered as (λ _. Call (Unit {0})) [ false ↦ raise os_error | true ↦ next ] w).1
      ≡ watch w
unfolding Keeps
delivered_watch next false keep w = refl
delivered_watch next true keep w = keep w

post_all-watch : (key : Reason) (users : List ℕ) → Keeps watch (post_all key users)
unfolding post_all Keeps
post_all-watch key [] w = refl
post_all-watch key (user ∷ users) w =
    delivered_watch (post_all key users) (first_answer w.answers) (post_all-watch key users)
      (record w { sent = posts key user ∷ w.sent; answers = later_answers w.answers })

pushover_send-watch : (c : Config) (key : Reason) → Keeps watch (pushover_send c key)
unfolding pushover_send Keeps
pushover_send-watch c key =
    if_elim (Keeps watch) c.dry_run _ _ (λ _. pure_watch)
      (λ _.
        if_elim (Keeps watch) (not (c.has_token && not (is_empty c.users))) _ _ (λ _. pure_watch)
          (λ _. post_all-watch key c.users))
  where
    pure_watch : Keeps watch (pure tt)
    pure_watch = λ w. refl

watch-command_all :
    (key : Reason) (hosts : List ℕ) (w : World)
    → same_reason key temp_high ≡ false
    → watch (command_all key hosts w).1 ≡ watch w
unfolding command_all
watch-command_all key [] w other = refl
watch-command_all key (host ∷ hosts) w other =
    watch-command_all key hosts (record w { sent = powers_off key host ∷ w.sent }) other
    ∙ ap (λ b. (w.state.streaks temp_high, b || commands temp_high w.sent, w.state.last_seen)) other

send_global_watch :
    (c : Config) (key : Reason)
    → same_reason key temp_high ≡ false
    → Keeps watch (send_global_poweroff c key)
unfolding send_global_poweroff Keeps
send_global_watch c key other =
    if_elim (Keeps watch) c.dry_run _ _ (λ _ w. refl) (λ _ w. by_client c.client w)
  where
    by_client :
        (client : Result (Unit {0})) (w : World)
        → watch
            ((elim client as (λ _. Call (Unit {0})) [
              | err e ↦ raise e
              | ok _ ↦ command_all key c.hosts
            ])
              w).1
          ≡ watch w
    by_client (err e) w = refl
    by_client (ok _) w = watch-command_all key c.hosts w other

-- What is done for another reason is not seen.
other_Ignores :
    (c : Config) (key : Reason) → same_reason key temp_high ≡ false → Ignores watch c key
other_Ignores c key other = record {
  push = pushover_send-watch c key;
  global = send_global_watch c key other;
  latch = λ b w. refl;
  streak = λ k w.
      ap
        (λ b. (
          (if b then k else w.state.streaks temp_high),
          commands temp_high w.sent,
          w.state.last_seen,
        ))
        other;
  last = λ t w. refl;
}

-- Whether a shutdown commands any host.
abbrev pub is_ok : Result (Unit {0}) → Bool
is_ok (ok u) = true
is_ok (err e) = false

abbrev pub fires : Config → Bool
fires c = not c.dry_run && (is_ok c.client && not (is_empty c.hosts))

command_all-commands :
    (hosts : List ℕ) (w : World)
    → watch (command_all temp_high hosts w).1 ≡ (
      w.state.streaks temp_high,
      not (is_empty hosts) || commands temp_high w.sent,
      w.state.last_seen,
    )
unfolding command_all
command_all-commands [] w = refl
command_all-commands (host ∷ []) w = refl
command_all-commands (host ∷ next ∷ hosts) w =
    command_all-commands (next ∷ hosts) (record w { sent = powers_off temp_high host ∷ w.sent })

send_global-commands :
    (c : Config) (w : World)
    → watch (send_global_poweroff c temp_high w).1
      ≡ (w.state.streaks temp_high, fires c || commands temp_high w.sent, w.state.last_seen)
unfolding send_global_poweroff
send_global-commands c w = by_client c.dry_run c.client
  where
    by_client :
        (dry_run : Bool) (client : Result (Unit {0}))
        → watch
            ((if dry_run then pure tt else elim client as (λ _. Call (Unit {0})) [
              | err e ↦ raise e
              | ok _ ↦ command_all temp_high c.hosts
            ])
              w).1
          ≡ (
            w.state.streaks temp_high,
            (not dry_run && (is_ok client && not (is_empty c.hosts))) || commands temp_high w.sent,
            w.state.last_seen,
          )
    by_client true client = refl
    by_client false (err e) = refl
    by_client false (ok _) = command_all-commands c.hosts w

-- The streak after a sample, and whether it is long enough.
abbrev pub next_streak : ℕ → ℕ → Bool → ℕ
next_streak trigger k false = 0
next_streak trigger k true = if ltb (k + 1) trigger then k + 1 else trigger

act_if-watch :
    (c : Config) (now : ℕ) (w : World)
    → watch (act_if c temp_high now true w).1
      ≡ (w.state.streaks temp_high, fires c || commands temp_high w.sent, w.state.last_seen)
unfolding act_if enforce_shutdown Keeps
act_if-watch c now w =
    after->>= watch (enforce_shutdown c temp_high) (λ _. alert c temp_high now c.alert_cooldown)
      (λ _.
        Keeps-alert watch c temp_high (pushover_send-watch c temp_high) (λ t v. refl) now
          c.alert_cooldown)
      w
    ∙ after->>= watch (send_global_poweroff c temp_high) (λ _. modify (set_latch temp_high true))
        (λ _. latch_watch) w
    ∙ send_global-commands c w
  where
    latch_watch : Keeps watch (modify (set_latch temp_high true))
    latch_watch = λ v. refl

condition-watch :
    (c : Config) (now : ℕ) (unsafe : Bool) (w : World)
    → watch (condition c temp_high now unsafe w).1 ≡ (
      next_streak c.condition_trigger (w.state.streaks temp_high) unsafe,
      (unsafe && (not (ltb (w.state.streaks temp_high + 1) c.condition_trigger) && fires c))
          || commands temp_high w.sent,
      w.state.last_seen,
    )
unfolding condition condition_ready act_if
condition-watch c now false w = refl
condition-watch c now true w = by_length (ltb (w.state.streaks temp_high + 1) c.condition_trigger)
  where
    counted : World
    counted = record w { state = set_streak temp_high (w.state.streaks temp_high + 1) w.state }

    ready : Bool → Call Bool
    ready short =
        if short
        then pure false
        else (do modify (set_streak temp_high c.condition_trigger); pure true)

    by_length :
        (short : Bool)
        → watch ((ready short >>= act_if c temp_high now) counted).1 ≡ (
          (if short then w.state.streaks temp_high + 1 else c.condition_trigger),
          (not short && fires c) || commands temp_high w.sent,
          w.state.last_seen,
        )
    by_length true = refl
    by_length false =
        act_if-watch c now
          (record w { state = set_streak temp_high c.condition_trigger counted.state })

-- The values of a fresh sample.
abbrev pub fresh_values : Fetch → Option ℕ → Option Values
fresh_values (failed e) last_seen = none
fresh_values (health status_ok sample_ts values) last_seen =
    if is_fresh status_ok sample_ts last_seen then some values else none

abbrev pub seen : Fetch → Option ℕ → Option ℕ
seen (failed e) last_seen = last_seen
seen (health status_ok sample_ts values) last_seen =
    if is_fresh status_ok sample_ts last_seen then sample_ts else last_seen

abbrev pub too_hot : Config → Values → Bool
too_hot c values = exceeds c.temp_high_c values.temperature_c

-- What a round does to the watch, by its fresh sample.
abbrev pub watched : Config → Option Values → Option ℕ → Watch → Watch
watched c none last w = (w.0, w.1, last)
watched c (some values) last w = (
  next_streak c.condition_trigger w.0 (too_hot c values),
  (too_hot c values && (not (ltb (w.0 + 1) c.condition_trigger) && fires c)) || w.1,
  last,
)

abbrev later_blocks : Config → ℕ → Values → Call (Unit {0})
later_blocks c now values = do
  condition c humid_high now (exceeds c.humid_high_rh values.humidity_rh)
  condition c dew_approach now (reaches c.trigger_level values.dew_point_c)

later_blocks-watch :
    (c : Config) (now : ℕ) (values : Values) → Keeps watch (later_blocks c now values)
later_blocks-watch c now values =
    Keeps->>= watch (condition c humid_high now (exceeds c.humid_high_rh values.humidity_rh))
      (λ _. condition c dew_approach now (reaches c.trigger_level values.dew_point_c))
      (Keeps-condition watch c humid_high (other_Ignores c humid_high refl) now
        (exceeds c.humid_high_rh values.humidity_rh))
      (λ _.
        Keeps-condition watch c dew_approach (other_Ignores c dew_approach refl) now
          (reaches c.trigger_level values.dew_point_c))

alert_if_needed-watch :
    (c : Config) (now : ℕ) (values : Values) (w : World)
    → watch (alert_if_needed c now values w).1 ≡ watched c (some values) w.state.last_seen (watch w)
unfolding alert_if_needed
alert_if_needed-watch c now values w =
    after->>= watch (condition c temp_high now (too_hot c values)) (λ _. later_blocks c now values)
      (λ _. later_blocks-watch c now values) w
    ∙ condition-watch c now (too_hot c values) w

check-watch :
    (c : Config) (now : ℕ) (f : Fetch) (w : World)
    → watch (check c now f w).1
      ≡ watched c (fresh_values f w.state.last_seen) (seen f w.state.last_seen) (watch w)
unfolding check Keeps
check-watch c now (failed e) w = refl
check-watch c now (health status_ok sample_ts values) w =
    by_fresh (is_fresh status_ok sample_ts w.state.last_seen)
  where
    by_fresh :
        (fresh : Bool)
        → watch
            ((if fresh
                then (do modify (accept sample_ts); alert_if_needed c now values)
                else miss c now)
              w).1
          ≡ watched c
              (if fresh then some values else none)
              (if fresh then sample_ts else w.state.last_seen)
              (watch w)
    by_fresh true =
        alert_if_needed-watch c now values (record w { state = accept sample_ts w.state })
    by_fresh false = Keeps-miss watch c (other_Ignores c no_data refl) (λ k v. refl) now w

-- A round's part in the watch does not depend on any delivery.
pub round-watch :
    (c : Config) (r : Round) (w : World)
    → watch (round c r w).1
      ≡ watched c
          (fresh_values r.fetch w.state.last_seen)
          (seen r.fetch w.state.last_seen)
          (watch w)
unfolding round
round-watch c r w =
    after-try watch (check c r.now r.fetch) (handle c r.handler_now)
      (Keeps-handle watch c (other_Ignores c no_data refl) (λ k v. refl) r.handler_now) w
    ∙ check-watch c r.now r.fetch w
