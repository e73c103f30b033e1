-- ===== src/I2cAlerts/Escape.antt =====
-- A notification that fails in the handler of i2c-sensor-alerts/i2c-sensor-alerts.py ends the process.
use lvhvbox.Prelude.{
  ℕ, ◌+◌, ◌≤◌, ◌≡◌, refl, ap, ◌∙◌, Bool, true, false, not, ◌&&◌, List, [], ◌∷◌, Result, ok, err,
  Error, os_error, if◌then◌else◌, leb, le→leb, is_empty,
}
use lvhvbox.I2cAlerts.Monad.{
  Reason, no_data, Event, powers_off, World, Call, raise, modify, try, ◌>>=◌,
}
use lvhvbox.I2cAlerts.{
  Config, command_all, send_global_poweroff, enforce_shutdown, post_all, pushover_send, can_alert,
  set_latch, set_last, set_no_data, alert, alert_no_data, miss, check, failed, is_fetch_error,
  handle, Round, round,
}

if_true {ℓ} : {A : Type ℓ} (b : Bool) (x y : A) → b ≡ true → (if b then x else y) ≡ x
if_true true x y h = refl
if_true false x y h = cc

if_false {ℓ} : {A : Type ℓ} (b : Bool) (x y : A) → b ≡ false → (if b then x else y) ≡ y
if_false true x y h = cc
if_false false x y h = refl

-- The commands of a shutdown, before the events that were sent earlier.
off_events : Reason → List ℕ → List Event → List Event
off_events key [] sent = sent
off_events key (host ∷ hosts) sent = off_events key hosts (powers_off key host ∷ sent)

command_all_lem :
    (key : Reason) (hosts : List ℕ) (w : World)
    → command_all key hosts w ≡ (ok tt, record w { sent = off_events key hosts w.sent })
unfolding command_all off_events
command_all_lem key [] w = refl
command_all_lem key (host ∷ hosts) w =
    command_all_lem key hosts (record w { sent = powers_off key host ∷ w.sent })

bind_err :
    {A B : Type 0} (call : Call A) (next : A → Call B) (w : World) (e : Error)
    → (call w).0 ≡ err e
    → ((call >>= next) w).0 ≡ err e
bind_err {A} {B} call next w e h =
    ap
      (λ (r : Result A).
        (elim r as (λ _. Result B × World) [
          | ok a ↦ next a (call w).1
          | err e ↦ (err e, (call w).1)
        ]).0)
      h

module _ (c : Config) (user : ℕ) (users : List ℕ) (real : c.dry_run ≡ false)
    (readable : c.client ≡ ok tt) (token : c.has_token ≡ true)
    (recipients : c.users ≡ user ∷ users) where
  send_global_lem : (key : Reason) → send_global_poweroff c key ≡ command_all key c.hosts
  unfolding send_global_poweroff
  send_global_lem key =
      if_false c.dry_run _ _ real
      ∙ ap
          (λ (r : Result (Unit {0})). elim r as (λ _. Call (Unit {0})) [
            | err e ↦ raise e
            | ok _ ↦ command_all key c.hosts
          ])
          readable

  enforce_lem :
      (key : Reason) (w : World)
      → enforce_shutdown c key w ≡ (
        ok tt,
        record w { state = set_latch key true w.state; sent = off_events key c.hosts w.sent },
      )
  unfolding enforce_shutdown
  enforce_lem key w =
      ap (λ (call : Call (Unit {0})). (call >>= λ _. modify (set_latch key true)) w)
        (send_global_lem key)
      ∙ ap
          (λ (p : Result (Unit {0}) × World). elim p.0 as (λ _. Result (Unit {0}) × World) [
            | ok a ↦ modify (set_latch key true) p.1
            | err e ↦ (err e, p.1)
          ])
          (command_all_lem key c.hosts w)

  push_fails :
      (key : Reason) (w : World) (rest : List Bool)
      → w.answers ≡ false ∷ rest
      → (pushover_send c key w).0 ≡ err os_error
  unfolding pushover_send post_all
  push_fails key w rest failing =
      ap (λ (call : Call (Unit {0})). (call w).0)
        (if_false c.dry_run _ _ real
          ∙ if_false (not (c.has_token && not (is_empty c.users))) _ _ configured
          ∙ ap (post_all key) recipients)
      ∙ ap first_post failing
    where
      configured : not (c.has_token && not (is_empty c.users)) ≡ false
      configured = rw (token, recipients) refl

      first_post : List Bool → Result (Unit {0})
      first_post answers = (post_all key (user ∷ users) (record w { answers = answers })).0

  alert_fails :
      (key : Reason) (now cooldown : ℕ) (w : World)
      → can_alert key now cooldown w.state ≡ true
      → (rest : List Bool) → w.answers ≡ false ∷ rest
      → (alert c key now cooldown w).0 ≡ err os_error
  unfolding alert
  alert_fails key now cooldown w may rest failing =
      ap (λ (call : Call (Unit {0})). (call w).0)
        (if_true (can_alert key now cooldown w.state) _ _ may)
      ∙ bind_err (pushover_send c key) (λ _. modify (set_last key now)) w os_error
          (push_fails key w rest failing)

  miss_fails :
      (now : ℕ) (w : World)
      → c.no_data_trigger ≤ w.state.no_data_streak + 1
      → can_alert no_data now c.no_data_cooldown w.state ≡ true
      → (rest : List Bool) → w.answers ≡ false ∷ rest
      → (miss c now w).0 ≡ err os_error
  unfolding miss alert_no_data
  miss_fails now w long may rest failing =
      let counted : World = record w { state = set_no_data (w.state.no_data_streak + 1) w.state } in
      ap (λ (call : Call (Unit {0})). (call counted).0)
        (if_true (leb c.no_data_trigger (w.state.no_data_streak + 1)) _ _ (le→leb _ _ long))
      ∙ bind_err (alert_no_data c now) (λ _. modify (set_no_data c.no_data_trigger)) counted
          os_error
          (ap
              (λ (p : Result (Unit {0}) × World).
                (elim p.0 as (λ _. Result (Unit {0}) × World) [
                  | ok a ↦ alert c no_data now c.no_data_cooldown p.1
                  | err e ↦ (err e, p.1)
                ]).0)
              (enforce_lem no_data counted)
            ∙ alert_fails no_data now c.no_data_cooldown
                (record counted {
                  state = set_latch no_data true counted.state;
                  sent = off_events no_data c.hosts counted.sent;
                })
                may rest failing)

  -- Outside a dry run, with credentials, a recipient and a readable command file: where the service
  -- cannot be asked for as many rounds as the policy allows, the cooldown has passed and the first
  -- message cannot be delivered, the exception leaves the loop, and the process ends.
  pub round_escapes :
      (r : Round) (w : World) (raised : Error) (rest : List Bool)
      → r.fetch ≡ failed raised
      → is_fetch_error raised ≡ true
      → c.no_data_trigger ≤ w.state.no_data_streak + 1
      → can_alert no_data r.handler_now c.no_data_cooldown w.state ≡ true
      → w.answers ≡ false ∷ rest
      → (round c r w).0 ≡ err os_error
  unfolding round check handle
  round_escapes r w raised rest unanswered caught long may failing =
      ap (λ f. (try (check c r.now f) (handle c r.handler_now) w).0) unanswered
      ∙ ap (λ (call : Call (Unit {0})). (call w).0) (if_true (is_fetch_error raised) _ _ caught)
      ∙ miss_fails r.handler_now w long may rest failing
