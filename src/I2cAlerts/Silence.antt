-- ===== src/I2cAlerts/Silence.antt =====
-- A dry run of i2c-sensor-alerts/i2c-sensor-alerts.py sends nothing.
use lvhvbox.Prelude.{ℕ, ◌≡◌, refl, sym, ◌∙◌, Bool, true, true≢false, if_elim, List}
use lvhvbox.I2cAlerts.Monad.{
  Reason, no_data, temp_high, humid_high, dew_approach, Event, World, Call,
}
use lvhvbox.I2cAlerts.{
  Config, pushover_send, send_global_poweroff, Values, Fetch, failed, health, exceeds, reaches,
  is_fresh, accept, alert_if_needed, condition, check, handle, Round, round,
}
use lvhvbox.I2cAlerts.Effects.{
  Keeps, Keeps->>=, Keeps-try, Ignores, Keeps-condition, Keeps-miss, Keeps-handle,
}

abbrev sent : World → List Event
sent w = w.sent

module _ (c : Config) (dry : c.dry_run ≡ true) where
  dry_Ignores : (key : Reason) → Ignores sent c key
  unfolding pushover_send send_global_poweroff Keeps
  dry_Ignores key = record {
    push =
        if_elim (Keeps sent) c.dry_run _ _ (λ _ w. refl) (λ e. absurd (true≢false (sym dry ∙ e)));
    global =
        if_elim (Keeps sent) c.dry_run _ _ (λ _ w. refl) (λ e. absurd (true≢false (sym dry ∙ e)));
    latch = λ b w. refl;
    streak = λ k w. refl;
    last = λ t w. refl;
  }

  unsafe_sent : (key : Reason) (now : ℕ) (unsafe : Bool) → Keeps sent (condition c key now unsafe)
  unsafe_sent key now unsafe = Keeps-condition sent c key (dry_Ignores key) now unsafe

  alert_if_needed_sent : (now : ℕ) (values : Values) → Keeps sent (alert_if_needed c now values)
  unfolding alert_if_needed
  alert_if_needed_sent now values =
      Keeps->>= sent (condition c temp_high now (exceeds c.temp_high_c values.temperature_c)) _
        (unsafe_sent temp_high now (exceeds c.temp_high_c values.temperature_c))
        (λ _.
          Keeps->>= sent (condition c humid_high now (exceeds c.humid_high_rh values.humidity_rh)) _
            (unsafe_sent humid_high now (exceeds c.humid_high_rh values.humidity_rh))
            (λ _. unsafe_sent dew_approach now (reaches c.trigger_level values.dew_point_c)))

  check_sent : (now : ℕ) (f : Fetch) → Keeps sent (check c now f)
  unfolding check Keeps
  check_sent now (failed e) w = refl
  check_sent now (health status_ok sample_ts values) w =
      if_elim (λ (call : Call (Unit {0})). (call w).1.sent ≡ w.sent)
        (is_fresh status_ok sample_ts w.state.last_seen) _ _
        (λ _. alert_if_needed_sent now values (record w { state = accept sample_ts w.state }))
        (λ _. Keeps-miss sent c (dry_Ignores no_data) (λ k v. refl) now w)

  -- In a dry run a round sends neither a command nor a message, whatever it finds.
  pub round_sent : (r : Round) (w : World) → (round c r w).1.sent ≡ w.sent
  unfolding round Keeps
  round_sent r =
      Keeps-try sent (check c r.now r.fetch) (handle c r.handler_now) (check_sent r.now r.fetch)
        (Keeps-handle sent c (dry_Ignores no_data) (λ k w. refl) r.handler_now)
