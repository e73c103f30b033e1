-- ===== src/I2cAlerts.antt =====
-- i2c-sensor-alerts/i2c-sensor-alerts.py: the loop of `main`, with its streaks, cooldowns and shutdown
-- latches. The module's globals are `State`; each dictionary is a function, since the code reads them
-- by `get` with a default. A reading is its place in the order of the floats, as the code only compares
-- it; one that is no number, or not comparable, is `none`. What the sensor service, the clock, the
-- command file and the notification service answer in a round is an argument.
pub mod Monad
pub mod Effects
pub mod Silence
pub mod Shutdown
pub mod Temperature
pub mod Escape
mod Examples
use lvhvbox.Prelude.{
  is_empty, ℕ, ◌+◌, Bool, true, false, not, ◌&&◌, List, [], ◌∷◌, Option, none, some, if◌then◌else◌,
  ◌==◌, ltb, leb, Result, ok, err, Error, timeout_error, value_error, os_error,
}
use Monad.{
  Reason, no_data, temp_high, humid_high, dew_approach, same_reason, State, World, Event,
  powers_off, posts, Call, pure, raise, modify, gets, note, answer, ◌>>=◌, ◌>>◌, try,
}

-- The policy and the environment of the service.
pub record Config : Type 0 where
  pub dry_run : Bool
  pub temp_high_c : ℕ
  pub humid_high_rh : ℕ
  -- the dew point limit less its margin
  pub trigger_level : ℕ
  pub alert_cooldown : ℕ
  pub condition_trigger : ℕ
  pub no_data_trigger : ℕ
  pub no_data_cooldown : ℕ
  pub has_token : Bool
  pub users : List ℕ
  pub hosts : List ℕ
  -- whether the command file can be read and names the codes
  pub client : Result (Unit {0})

abbrev pub assign {ℓ} : {A : Type ℓ} → Reason → A → (Reason → A) → Reason → A
assign key value d k = if same_reason key k then value else d k

abbrev pub can_alert : Reason → ℕ → ℕ → State → Bool
can_alert key now cooldown s = leb (s.last_alert key + cooldown) now

-- `requests.post` and `raise_for_status`, for each recipient until one fails.
unfoldable pub post_all : Reason → List ℕ → Call (Unit {0})
post_all key [] = pure tt
post_all key (user ∷ users) = do
  note (posts key user)
  delivered ← answer
  elim delivered [ false ↦ raise os_error | true ↦ post_all key users ]

unfoldable pub pushover_send : Config → Reason → Call (Unit {0})
unfolding post_all
pushover_send c key =
    if c.dry_run
    then pure tt
    else if not (c.has_token && not (is_empty c.users))
    then pure tt
    else post_all key c.users

-- `power_off_host` to each host: a failure is caught, and the loop goes on.
unfoldable pub command_all : Reason → List ℕ → Call (Unit {0})
command_all key [] = pure tt
command_all key (host ∷ hosts) = do note (powers_off key host); command_all key hosts

unfoldable pub send_global_poweroff : Config → Reason → Call (Unit {0})
unfolding command_all
send_global_poweroff c key =
    if c.dry_run
    then pure tt
    else elim c.client [ err e ↦ raise e | ok _ ↦ command_all key c.hosts ]

abbrev pub set_latch : Reason → Bool → State → State
set_latch key value s = record s { latched = assign key value s.latched }

abbrev pub set_streak : Reason → ℕ → State → State
set_streak key value s = record s { streaks = assign key value s.streaks }

abbrev pub set_last : Reason → ℕ → State → State
set_last key value s = record s { last_alert = assign key value s.last_alert }

abbrev pub set_no_data : ℕ → State → State
set_no_data value s = record s { no_data_streak = value }

unfoldable pub enforce_shutdown : Config → Reason → Call (Unit {0})
unfolding send_global_poweroff
enforce_shutdown c key = do send_global_poweroff c key; modify (set_latch key true)

-- `reset_condition`, which clears the latch too.
abbrev pub reset_condition : Reason → Call (Unit {0})
reset_condition key = do modify (set_streak key 0); modify (set_latch key false)

unfoldable pub condition_ready : Config → Reason → Call Bool
condition_ready c key = do
  s ← gets (λ s. s)
  let streak = s.streaks key + 1
  modify (set_streak key streak)
  if ltb streak c.condition_trigger
      then pure false
      else (do modify (set_streak key c.condition_trigger); pure true)

-- The notification of an alert, when its cooldown has passed.
unfoldable pub alert : Config → Reason → ℕ → ℕ → Call (Unit {0})
unfolding pushover_send
alert c key now cooldown = do
  s ← gets (λ s. s)
  if can_alert key now cooldown s
      then (do pushover_send c key; modify (set_last key now))
      else pure tt

unfoldable pub alert_no_data : Config → ℕ → Call (Unit {0})
unfolding enforce_shutdown alert
alert_no_data c now = do enforce_shutdown c no_data; alert c no_data now c.no_data_cooldown

-- What a condition that has lasted long enough does.
unfoldable pub act_if : Config → Reason → ℕ → Bool → Call (Unit {0})
unfolding enforce_shutdown alert
act_if c key now false = pure tt
act_if c key now true = do enforce_shutdown c key; alert c key now c.alert_cooldown

-- What each of the three blocks of `alert_if_needed` does with its test.
unfoldable pub condition : Config → Reason → ℕ → Bool → Call (Unit {0})
unfolding condition_ready act_if
condition c key now false = reset_condition key
condition c key now true = do ready ← condition_ready c key; act_if c key now ready

-- The values of a sample: none where the value is not a number.
pub record Values : Type 0 where
  pub temperature_c : Option ℕ
  pub humidity_rh : Option ℕ
  pub dew_point_c : Option ℕ

abbrev pub exceeds : ℕ → Option ℕ → Bool
exceeds limit none = false
exceeds limit (some value) = ltb limit value

abbrev pub reaches : ℕ → Option ℕ → Bool
reaches limit none = false
reaches limit (some value) = leb limit value

unfoldable pub alert_if_needed : Config → ℕ → Values → Call (Unit {0})
unfolding condition
alert_if_needed c now values = do
  condition c temp_high now (exceeds c.temp_high_c values.temperature_c)
  condition c humid_high now (exceeds c.humid_high_rh values.humidity_rh)
  condition c dew_approach now (reaches c.trigger_level values.dew_point_c)

-- What the sensor service answers: an exception, or its status, the sample's time stamp (none where it
-- is missing or empty) and its values.
pub data Fetch : Type 0 where
  failed : Error → Fetch
  health : (status_ok : Bool) (sample_ts : Option ℕ) (values : Values) → Fetch

-- One round: the answer, and the clock's readings in the body and in the handler.
pub record Round : Type 0 where
  pub fetch : Fetch
  pub now : ℕ
  pub handler_now : ℕ

-- A sample with another time stamp than the last.
abbrev pub is_fresh : Bool → Option ℕ → Option ℕ → Bool
is_fresh false ts last_seen = false
is_fresh true none last_seen = false
is_fresh true (some ts) none = true
is_fresh true (some ts) (some last) = not (ts == last)

-- Counts a round without fresh data, and raises the alarm once there are enough.
unfoldable pub miss : Config → ℕ → Call (Unit {0})
unfolding alert_no_data
miss c now = do
  s ← gets (λ s. s)
  let streak = s.no_data_streak + 1
  modify (set_no_data streak)
  if leb c.no_data_trigger streak
      then (do alert_no_data c now; modify (set_no_data c.no_data_trigger))
      else pure tt

abbrev pub accept : Option ℕ → State → State
accept sample_ts s =
    set_latch no_data false
      (set_last no_data 0 (record s { no_data_streak = 0; last_seen = sample_ts }))

unfoldable pub check : Config → ℕ → Fetch → Call (Unit {0})
unfolding miss alert_if_needed
check c now (failed e) = raise e
check c now (health status_ok sample_ts values) = do
  s ← gets (λ s. s)
  if is_fresh status_ok sample_ts s.last_seen
      then (do modify (accept sample_ts); alert_if_needed c now values)
      else miss c now

-- `except (HTTPError, URLError, TimeoutError, OSError, ValueError)`.
abbrev pub is_fetch_error : Error → Bool
is_fetch_error os_error = true
is_fetch_error timeout_error = true
is_fetch_error value_error = true
is_fetch_error _ = false

-- The handlers of the loop: any other exception is only logged.
unfoldable pub handle : Config → ℕ → Error → Call (Unit {0})
unfolding miss
handle c now e = if is_fetch_error e then miss c now else pure tt

-- One round of the loop. What its handler raises ends the process.
unfoldable pub round : Config → Round → Call (Unit {0})
unfolding check handle
round c r = try (check c r.now r.fetch) (handle c r.handler_now)
