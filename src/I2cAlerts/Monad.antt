-- ===== src/I2cAlerts/Monad.antt =====
-- The calls of i2c-sensor-alerts/i2c-sensor-alerts.py: the module's globals, the effects so far, and
-- exceptions. What was written before a raise stays written.
use lvhvbox.Prelude.{ℕ, Bool, true, false, List, [], ◌∷◌, Option, Result, ok, err, Error}

-- The keys of the dictionaries.
pub data Reason : Type 0 where
  no_data temp_high humid_high dew_approach : Reason

abbrev pub same_reason : Reason → Reason → Bool
same_reason no_data no_data = true
same_reason temp_high temp_high = true
same_reason humid_high humid_high = true
same_reason dew_approach dew_approach = true
same_reason _ _ = false

pub record State : Type 0 where
  pub last_alert : Reason → ℕ
  pub no_data_streak : ℕ
  pub last_seen : Option ℕ
  pub latched : Reason → Bool
  pub streaks : Reason → ℕ

-- A powerOff sent to a host, and a message sent to a recipient, each for a reason.
pub data Event : Type 0 where
  powers_off posts : (key : Reason) → ℕ → Event

-- The globals, what the service has sent (newest first), and what its next posts will be answered.
pub record World : Type 0 where
  pub state : State
  pub sent : List Event
  pub answers : List Bool

abbrev pub Call : Type 0 → Type 0
Call A = World → Result A × World

module _ {A : Type 0} where
  abbrev pub pure : A → Call A
  pure a w = (ok a, w)

  abbrev pub raise : Error → Call A
  raise e w = (err e, w)

  -- `try: … except …`, with the handler's choice by the exception.
  abbrev pub try : Call A → (Error → Call A) → Call A
  try body handler w = let (r, v) = body w in elim r [ ok a ↦ (ok a, v) | err e ↦ handler e v ]

infixl 5 ◌>>=◌ ◌>>◌
abbrev pub ◌>>=◌ : {A B : Type 0} → Call A → (A → Call B) → Call B
◌>>=◌ call next w = let (r, v) = call w in elim r [ ok a ↦ next a v | err e ↦ (err e, v) ]

abbrev pub ◌>>◌ : {A B : Type 0} → Call A → Call B → Call B
call >> next = call >>= λ _. next

abbrev pub modify : (State → State) → Call (Unit {0})
modify f w = (ok tt, record w { state = f w.state })

abbrev pub gets : {A : Type 0} → (State → A) → Call A
gets f w = (ok (f w.state), w)

abbrev pub note : Event → Call (Unit {0})
note e w = (ok tt, record w { sent = e ∷ w.sent })

abbrev pub first_answer : List Bool → Bool
first_answer [] = false
first_answer (b ∷ bs) = b

abbrev pub later_answers : List Bool → List Bool
later_answers [] = []
later_answers (b ∷ bs) = bs

-- The next post's answer; where none is left it fails.
abbrev pub answer : Call Bool
answer w = (ok (first_answer w.answers), record w { answers = later_answers w.answers })
