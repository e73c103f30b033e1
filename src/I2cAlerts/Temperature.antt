-- ===== src/I2cAlerts/Temperature.antt =====
-- The rounds of i2c-sensor-alerts/i2c-sensor-alerts.py from the start, and the high temperature over
-- them.
use lvhvbox.Prelude.{
  ℕ, ◌+◌, ◌≤◌, ◌<◌, ◌≡◌, ◌↔◌, refl, sym, ap, subst, ◌∙◌, Bool, true, false, not, ◌&&◌, ◌||◌, List,
  [], ◌∷◌, Option, none, some, if◌then◌else◌, ltb, Result, ok, err, ok-injective, run_length,
  Passes, run_length-Passes, Passes-run_length, arith, Bool-cases, Option-cases, false≢true, inl,
  inr,
}
use lvhvbox.I2cAlerts.Monad.{temp_high, World}
use lvhvbox.I2cAlerts.{Config, Values, Round, round}
use lvhvbox.I2cAlerts.Shutdown.{
  Watch, watch, watched, commands, fires, fresh_values, seen, too_hot, round-watch,
}

-- The rounds that have passed, newest first: the process ends with the first that raises.
unfoldable pub run : Config → List Round → World → Result World
run c [] w = ok w
run c (r ∷ older) w = elim (run c older w) [
  | err e ↦ err e
  | ok v ↦ elim (round c r v).0 [ err e ↦ err e | ok _ ↦ ok (round c r v).1 ]
]

-- The time stamp of the last fresh sample, and the fresh samples, newest first.
abbrev pub last_after : Option ℕ → List Round → Option ℕ
last_after last [] = last
last_after last (r ∷ older) = seen r.fetch (last_after last older)

abbrev keep : Option Values → List Values → List Values
keep none older = older
keep (some values) older = values ∷ older

abbrev pub fresh_samples : Option ℕ → List Round → List Values
fresh_samples last [] = []
fresh_samples last (r ∷ older) =
    keep (fresh_values r.fetch (last_after last older)) (fresh_samples last older)

-- The streak counts the latest hot samples up to the trigger.
abbrev capped : ℕ → ℕ → ℕ
capped trigger k = if ltb k trigger then k else trigger

run-inv :
    (c : Config) (r : Round) (older : List Round) (start w : World)
    → run c (r ∷ older) start ≡ ok w
    → (v : World) × (run c older start ≡ ok v) × ((round c r v).1 ≡ w)
unfolding run
run-inv c r older start w = by_older (run c older start)
  where
    by_round :
        (v : World) (result : Result (Unit {0}))
        → (elim result as (λ _. Result World) [ err e ↦ err e | ok _ ↦ ok (round c r v).1 ]) ≡ ok w
        → (round c r v).1 ≡ w
    by_round v (err e) h = cc
    by_round v (ok _) h = ok-injective h

    by_older :
        (result : Result World)
        → (elim result as (λ _. Result World) [
          | err e ↦ err e
          | ok v ↦ elim (round c r v).0 as (λ _. Result World) [
            | err e ↦ err e
            | ok _ ↦ ok (round c r v).1
          ]
        ])
          ≡ ok w
        → (v : World) × (result ≡ ok v) × ((round c r v).1 ≡ w)
    by_older (err e) h = cc
    by_older (ok v) h = (v, refl, by_round v (round c r v).0 h)

watched-streak :
    (c : Config) (values : Option Values) (last : Option ℕ) (older : List Values) (now : Watch)
    → 0 < c.condition_trigger
    → now.0 ≡ capped c.condition_trigger (run_length (too_hot c) older)
    → (watched c values last now).0
      ≡ capped c.condition_trigger (run_length (too_hot c) (keep values older))
unfolding run_length
watched-streak c none last older now pos e = e
watched-streak c (some values) last older now pos e = elim (Bool-cases (too_hot c values)) [
  | inl hot ↦ rw hot (ground arith)
  | inr cool ↦ rw cool (ground arith)
]

watched-last :
    (c : Config) (values : Option Values) (last : Option ℕ) (now : Watch)
    → (watched c values last now).2 ≡ last
watched-last c none last now = refl
watched-last c (some values) last now = refl

run-streak :
    (c : Config) (history : List Round) (start w : World)
    → 0 < c.condition_trigger
    → start.state.streaks temp_high ≡ 0
    → run c history start ≡ ok w
    → (w.state.streaks temp_high
        ≡ capped c.condition_trigger
            (run_length (too_hot c) (fresh_samples start.state.last_seen history)))
      × (w.state.last_seen ≡ last_after start.state.last_seen history)
unfolding run run_length
run-streak c [] start w pos zero_streak e =
    let same : start ≡ w = ok-injective e in
    subst
      (λ v.
        (v.state.streaks temp_high ≡ capped c.condition_trigger 0)
        × (v.state.last_seen ≡ start.state.last_seen))
      same (zero_streak ∙ ground arith, refl)
run-streak c (r ∷ older) start w pos zero_streak e =
    let (v, before, after) = run-inv c r older start w e in
    let (streak, last) = run-streak c older start v pos zero_streak before in
    let last' : Option ℕ = last_after start.state.last_seen older in
    let moved : watch w ≡ watched c (fresh_values r.fetch last') (seen r.fetch last') (watch v) =
      ap watch (sym after)
      ∙ round-watch c r v
      ∙ ap (λ l. watched c (fresh_values r.fetch l) (seen r.fetch l) (watch v)) last in
    (
      ap (λ (x : Watch). x.0) moved
          ∙ watched-streak c (fresh_values r.fetch last') (seen r.fetch last')
              (fresh_samples start.state.last_seen older) (watch v) pos streak,
      ap (λ (x : Watch). x.2) moved
          ∙ watched-last c (fresh_values r.fetch last') (seen r.fetch last') (watch v),
    )

-- A round's command, by its fresh sample.
round-commands :
    (c : Config) (r : Round) (w : World) (values : Values)
    → fresh_values r.fetch w.state.last_seen ≡ some values
    → commands temp_high (round c r (record w { sent = [] })).1.sent ≡ (
        (too_hot c values
          && (not (ltb (w.state.streaks temp_high + 1) c.condition_trigger) && fires c))
        || false)
round-commands c r w values e =
    ap (λ (x : Watch). x.1)
      (round-watch c r (record w { sent = [] })
        ∙ ap
            (λ v.
              watched c v (seen r.fetch w.state.last_seen)
                (w.state.streaks temp_high, false, w.state.last_seen))
            e)

round-quiet :
    (c : Config) (r : Round) (w : World)
    → fresh_values r.fetch w.state.last_seen ≡ none
    → commands temp_high (round c r (record w { sent = [] })).1.sent ≡ false
round-quiet c r w e =
    ap (λ (x : Watch). x.1)
      (round-watch c r (record w { sent = [] })
        ∙ ap
            (λ v.
              watched c v (seen r.fetch w.state.last_seen)
                (w.state.streaks temp_high, false, w.state.last_seen))
            e)

-- What it takes to switch the fleet off.
abbrev pub Persists : Config → Option ℕ → Round → List Round → Type 0
Persists c last r older =
    (values : Values) × (fresh_values r.fetch (last_after last older) ≡ some values)
    × Passes (too_hot c) c.condition_trigger (fresh_samples last (r ∷ older))
    × (fires c ≡ true)

-- The test of the code against the run of the samples.
long_enough :
    (c : Config) (values : Values) (older : List Values) (k : ℕ)
    → 0 < c.condition_trigger
    → k ≡ capped c.condition_trigger (run_length (too_hot c) older)
    → (((too_hot c values && (not (ltb (k + 1) c.condition_trigger) && fires c)) || false) ≡ true)
      ↔ (c.condition_trigger ≤ run_length (too_hot c) (values ∷ older)) × (fires c ≡ true)
unfolding run_length
long_enough c values older k pos e = elim (Bool-cases (too_hot c values)) [
  | inl hot ↦ rw hot (by_fires (fires c))
  | inr cool ↦ rw cool ((λ h. cc), (λ h. absurd (omega (arith, pos, h.0))))
]
  where
    by_fires :
        (f : Bool)
        → (((not (ltb (k + 1) c.condition_trigger) && f) || false) ≡ true)
          ↔ (c.condition_trigger ≤ run_length (too_hot c) older + 1) × (f ≡ true)
    by_fires true = ((λ h. (ground (arith, e), refl)), (λ h. ground (arith, e, h.0)))
    by_fires false = ((λ h. ground arith), (λ h. cc (h.1)))

-- After any rounds from a start with no streak, a round commands hosts to switch off for a high
-- temperature exactly when it brings a fresh sample, the latest fresh samples, as many as the policy's
-- positive count, were all too hot, and a shutdown can command a host: no dry run, the command file
-- readable, the fleet not empty. It does so whatever becomes of the notifications.
pub round-Persists :
    (c : Config) (r : Round) (older : List Round) (start w : World)
    → 0 < c.condition_trigger
    → start.state.streaks temp_high ≡ 0
    → run c older start ≡ ok w
    → (commands temp_high (round c r (record w { sent = [] })).1.sent ≡ true)
      ↔ Persists c start.state.last_seen r older
unfolding run_length
round-Persists c r older start w pos zero_streak e =
    let (streak, last) = run-streak c older start w pos zero_streak e in
    let last' : Option ℕ = last_after start.state.last_seen older in
    let samples : List Values = fresh_samples start.state.last_seen older in
    let moved = λ (values : Option Values) (h : fresh_values r.fetch w.state.last_seen ≡ values).
      ap (fresh_values r.fetch) (sym last) ∙ h in
    (
      (λ h. elim (Option-cases (fresh_values r.fetch w.state.last_seen)) [
        | inl none_fresh ↦ absurd (false≢true (sym (round-quiet c r w none_fresh) ∙ h))
        | inr (values, fresh) ↦
            let (le, fire) =
              (long_enough c values samples (w.state.streaks temp_high) pos streak).0
                (sym (round-commands c r w values fresh) ∙ h) in
            (
              values,
              moved (some values) fresh,
              subst (λ v. Passes (too_hot c) c.condition_trigger (keep v samples))
                  (sym (moved (some values) fresh))
                  (run_length-Passes (too_hot c) (values ∷ samples) c.condition_trigger le),
              fire,
            )
      ]),
      (λ p.
          round-commands c r w p.0 (ap (fresh_values r.fetch) last ∙ p.1)
          ∙ (long_enough c p.0 samples (w.state.streaks temp_high) pos streak).1 (
            Passes-run_length (too_hot c) (p.0 ∷ samples) c.condition_trigger
                (subst (λ v. Passes (too_hot c) c.condition_trigger (keep v samples)) p.1 p.2),
            p.3,
          )),
    )
