-- ===== src/I2cAlerts/Effects.antt =====
-- What a call leaves alone: a rule for each way to put calls together.
use lvhvbox.Prelude.{
  ℕ, ◌+◌, ltb, leb, if_elim, ◌≡◌, refl, ◌∙◌, Bool, true, false, Result, ok, err, Error,
}
use lvhvbox.I2cAlerts.Monad.{Reason, no_data, World, Call, modify, try, ◌>>=◌}
use lvhvbox.I2cAlerts.{
  Config, pushover_send, send_global_poweroff, set_latch, set_streak, set_last, set_no_data,
  can_alert, alert, enforce_shutdown, condition_ready, act_if, condition, alert_no_data, miss,
  is_fetch_error, handle,
}

module _ {V : Type 0} (look : World → V) where
  unfoldable pub Keeps : {A : Type 0} → Call A → Type 0
  Keeps call = (w : World) → look (call w).1 ≡ look w

  -- The end of a bind, after its first call.
  bind_end :
      {A B : Type 0} (next : A → Call B)
      → ((a : A) → Keeps (next a))
      → (r : Result A) (v : World)
      → look (elim r as (λ _. Result B × World) [ ok a ↦ next a v | err e ↦ (err e, v) ]).1 ≡ look v
  unfolding Keeps
  bind_end next keep (ok a) v = keep a v
  bind_end next keep (err e) v = refl

  pub Keeps->>= :
      {A B : Type 0} (call : Call A) (next : A → Call B)
      → Keeps call
      → ((a : A) → Keeps (next a))
      → Keeps (call >>= next)
  unfolding Keeps
  Keeps->>= call next first second w = bind_end next second (call w).0 (call w).1 ∙ first w

  -- A look after a bind whose later calls it does not see.
  pub after->>= :
      {A B : Type 0} (call : Call A) (next : A → Call B)
      → ((a : A) → Keeps (next a))
      → (w : World) → look ((call >>= next) w).1 ≡ look (call w).1
  unfolding Keeps
  after->>= call next second w = bind_end next second (call w).0 (call w).1

  try_end :
      {A : Type 0} (handler : Error → Call A)
      → ((e : Error) → Keeps (handler e))
      → (r : Result A) (v : World)
      → look (elim r as (λ _. Result A × World) [ ok a ↦ (ok a, v) | err e ↦ handler e v ]).1
        ≡ look v
  unfolding Keeps
  try_end handler keep (ok a) v = refl
  try_end handler keep (err e) v = keep e v

  pub after-try :
      {A : Type 0} (body : Call A) (handler : Error → Call A)
      → ((e : Error) → Keeps (handler e))
      → (w : World) → look (try body handler w).1 ≡ look (body w).1
  unfolding Keeps
  after-try body handler second w = try_end handler second (body w).0 (body w).1

  pub Keeps-try :
      {A : Type 0} (body : Call A) (handler : Error → Call A)
      → Keeps body
      → ((e : Error) → Keeps (handler e))
      → Keeps (try body handler)
  unfolding Keeps
  Keeps-try body handler first second w = try_end handler second (body w).0 (body w).1 ∙ first w

  -- A look that sees nothing of what is done for one reason.
  pub record Ignores (c : Config) (key : Reason) : Type 0 where
    pub push : Keeps (pushover_send c key)
    pub global : Keeps (send_global_poweroff c key)
    pub latch :
        (b : Bool) (w : World) → look (record w { state = set_latch key b w.state }) ≡ look w
    pub streak : (k : ℕ) (w : World) → look (record w { state = set_streak key k w.state }) ≡ look w
    pub last : (t : ℕ) (w : World) → look (record w { state = set_last key t w.state }) ≡ look w

  pub Keeps-alert :
      (c : Config) (key : Reason)
      → Keeps (pushover_send c key)
      → ((t : ℕ) (w : World) → look (record w { state = set_last key t w.state }) ≡ look w)
      → (now cooldown : ℕ) → Keeps (alert c key now cooldown)
  unfolding alert Keeps
  Keeps-alert c key push last now cooldown w =
      if_elim (λ (call : Call (Unit {0})). look (call w).1 ≡ look w)
        (can_alert key now cooldown w.state) _ _
        (λ _.
          Keeps->>= (pushover_send c key) (λ _. modify (set_last key now)) push (λ _ v. last now v)
            w)
        (λ _. refl)

  module _ (c : Config) (key : Reason) (no : Ignores c key) where
    pub Keeps-enforce_shutdown : Keeps (enforce_shutdown c key)
    unfolding enforce_shutdown Keeps
    Keeps-enforce_shutdown =
        Keeps->>= (send_global_poweroff c key) (λ _. modify (set_latch key true)) no.global
          (λ _ v. no.latch true v)

    Keeps-condition_ready : Keeps (condition_ready c key)
    unfolding condition_ready Keeps
    Keeps-condition_ready w =
        let streak = w.state.streaks key + 1 in
        if_elim
          (λ (call : Call Bool).
            look (call (record w { state = set_streak key streak w.state })).1 ≡ look w)
          (ltb streak c.condition_trigger) _ _ (λ _. no.streak streak w)
          (λ _.
            no.streak c.condition_trigger (record w { state = set_streak key streak w.state })
            ∙ no.streak streak w)

    pub Keeps-act_if : (now : ℕ) (ready : Bool) → Keeps (act_if c key now ready)
    unfolding act_if Keeps
    Keeps-act_if now false w = refl
    Keeps-act_if now true w =
        Keeps->>= (enforce_shutdown c key) (λ _. alert c key now c.alert_cooldown)
          Keeps-enforce_shutdown (λ _. Keeps-alert c key no.push no.last now c.alert_cooldown) w

    pub Keeps-condition : (now : ℕ) (unsafe : Bool) → Keeps (condition c key now unsafe)
    unfolding condition Keeps
    Keeps-condition now false w =
        no.latch false (record w { state = set_streak key 0 w.state }) ∙ no.streak 0 w
    Keeps-condition now true w =
        Keeps->>= (condition_ready c key) (act_if c key now) Keeps-condition_ready
          (Keeps-act_if now) w

  -- A round without fresh data, for a look that also sees nothing of its count.
  module _ (c : Config) (no : Ignores c no_data)
      (count : (k : ℕ) (w : World)
        → look (record w { state = set_no_data k w.state }) ≡ look w) where
    Keeps-alert_no_data : (now : ℕ) → Keeps (alert_no_data c now)
    unfolding alert_no_data
    Keeps-alert_no_data now =
        Keeps->>= (enforce_shutdown c no_data) (λ _. alert c no_data now c.no_data_cooldown)
          (Keeps-enforce_shutdown c no_data no)
          (λ _. Keeps-alert c no_data no.push no.last now c.no_data_cooldown)

    pub Keeps-miss : (now : ℕ) → Keeps (miss c now)
    unfolding miss Keeps
    Keeps-miss now w =
        let streak = w.state.no_data_streak + 1 in
        let v : World = record w { state = set_no_data streak w.state } in
        if_elim (λ (call : Call (Unit {0})). look (call v).1 ≡ look w)
          (leb c.no_data_trigger streak) _ _
          (λ _.
            Keeps->>= (alert_no_data c now) (λ _. modify (set_no_data c.no_data_trigger))
              (Keeps-alert_no_data now) (λ _ u. count c.no_data_trigger u) v
            ∙ count streak w)
          (λ _. count streak w)

    pub Keeps-handle : (now : ℕ) (e : Error) → Keeps (handle c now e)
    unfolding handle Keeps
    Keeps-handle now e w =
        if_elim (λ (call : Call (Unit {0})). look (call w).1 ≡ look w) (is_fetch_error e) _ _
          (λ _. Keeps-miss now w) (λ _. refl)
