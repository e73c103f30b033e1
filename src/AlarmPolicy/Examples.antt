-- ===== src/AlarmPolicy/Examples.antt =====
-- Tests and witnesses for the alarm policy.
use lvhvbox.Prelude.{ℕ, ◌≡◌, refl, true, false, ◌∷◌, All, ok, err, value_error}
use lvhvbox.AlarmPolicy.{
  Json, Members, number, object, end, member, rules, names, keys, check_section, check_sections,
  validate_policy,
}
use lvhvbox.AlarmPolicy.Accepted.{HasKeys, SectionFollows, validate_policy-Follows}

abbrev int : ℕ → Json
int n =
    number
      (record { is_int = true; is_finite = true; negative = false; whole = n; fraction = false })

abbrev temperature_section : ℕ → Members
temperature_section panels = member "high_c" (int 45) (
    member "consecutive_high_samples" (int 3) (
      member "missing_seconds" (int 600) (
        member "poll_seconds" (int 60) (
          member "power_on_min_v" (int 2) (member "minimum_temperature_panels" (int panels) end)))))

abbrev enclosure_section : Members
enclosure_section = member "temperature_high_c" (int 40) (
    member "humidity_high_rh" (int 60) (
      member "dew_point_limit_c" (int 15) (
        member "dew_point_margin_c" (int 2) (
          member "consecutive_unsafe_samples" (int 3) (
            member "missing_samples" (int 5) (
              member "poll_seconds" (int 30) (
                member "alert_cooldown_seconds" (int 0)
                  (member "missing_alert_cooldown_seconds" (int 900) end))))))))

abbrev network_section : Members
network_section =
    member "poll_seconds" (int 10)
      (member "connect_timeout_seconds" (int 2) (member "grace_period_seconds" (int 300) end))

abbrev policy_fields : ℕ → Members
policy_fields panels = member "schema_version" (int 1) (
    member "network" (object network_section) (
      member "roc_temperature" (object (temperature_section panels)) (
        member "i2c_environment" (object enclosure_section)
          (member "ac_power" (object (member "gpio21_repeat_window_seconds" (int 60) end)) end))))

policy_accepted : validate_policy (object (policy_fields 512)) ≡ ok (object (policy_fields 512))
unfolding validate_policy keys check_sections check_section
policy_accepted = refl

too_many_panels : validate_policy (object (policy_fields 513)) ≡ err value_error
unfolding validate_policy keys check_sections check_section
too_many_panels = refl

validate_policy-Follows_example :
    (object (policy_fields 512) ≡ object (policy_fields 512))
    × ((fields : Members) × (object (policy_fields 512) ≡ object fields)
        × HasKeys ("schema_version" ∷ names rules) fields
        × All (SectionFollows fields) rules)
validate_policy-Follows_example =
    validate_policy-Follows (object (policy_fields 512)) (object (policy_fields 512))
      policy_accepted
