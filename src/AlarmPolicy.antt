-- ===== src/AlarmPolicy.antt =====
-- common/alarm_policy.py: the validation of the alarm policy, a JSON object. A number is given by what the
-- validation asks of it: its type, whether it is finite, its sign, its whole part and whether more follows.
pub mod Accepted
mod Examples
use Prim.Native.String.{String}
use text.Mathlib.Text.{◌==◌}
use lvhvbox.Prelude.{
  ℕ, Bool, true, false, not, ◌&&◌, ◌||◌, List, [], ◌∷◌, map, if◌then◌else◌, any, all, ltb, leb,
  Option, none, some, Result, ok, err, value_error, key_error, guard, ◌>>=◌, ◌>>◌,
}

pub record Number : Type 0 where
  pub is_int : Bool
  pub is_finite : Bool
  pub negative : Bool
  pub whole : ℕ
  pub fraction : Bool

-- `other` is a value that is neither a number nor an object.
mutual
  pub data Json : Type 0 where
    number : Number → Json
    object : Members → Json
    other : Json

  pub data Members : Type 0 where
    end : Members
    member : String → Json → Members → Members

pub data Kind : Type 0 where
  any_number int_number positive : Kind

pub record Rule : Type 0 where
  pub kind : Kind
  pub low : Option ℕ
  pub high : Option ℕ

abbrev pub rule : Kind → Option ℕ → Option ℕ → Rule
rule kind low high = record { kind = kind; low = low; high = high }

-- `RULES`
abbrev pub roc_temperature : List (String × Rule)
roc_temperature =
    ("high_c", rule any_number none none)
    ∷ ("consecutive_high_samples", rule int_number (some 1) none)
    ∷ ("missing_seconds", rule positive none none)
    ∷ ("poll_seconds", rule any_number (some 20) none)
    ∷ ("power_on_min_v", rule positive none none)
    ∷ ("minimum_temperature_panels", rule int_number (some 1) (some 512))
    ∷ []

abbrev pub i2c_environment : List (String × Rule)
i2c_environment =
    ("temperature_high_c", rule any_number none none)
    ∷ ("humidity_high_rh", rule any_number (some 0) (some 100))
    ∷ ("dew_point_limit_c", rule any_number none none)
    ∷ ("dew_point_margin_c", rule any_number (some 0) none)
    ∷ ("consecutive_unsafe_samples", rule int_number (some 1) none)
    ∷ ("missing_samples", rule int_number (some 1) none)
    ∷ ("poll_seconds", rule positive none none)
    ∷ ("alert_cooldown_seconds", rule any_number (some 0) none)
    ∷ ("missing_alert_cooldown_seconds", rule any_number (some 0) none)
    ∷ []

abbrev pub network : List (String × Rule)
network =
    ("poll_seconds", rule positive none none)
    ∷ ("connect_timeout_seconds", rule positive none none)
    ∷ ("grace_period_seconds", rule positive none none)
    ∷ []

abbrev pub ac_power : List (String × Rule)
ac_power = ("gpio21_repeat_window_seconds", rule positive none none) ∷ []

abbrev pub rules : List (String × List (String × Rule))
rules =
    ("roc_temperature", roc_temperature)
    ∷ ("i2c_environment", i2c_environment)
    ∷ ("network", network)
    ∷ ("ac_power", ac_power)
    ∷ []

abbrev pub names {ℓ} : {A : Type ℓ} → List (String × A) → List String
names [] = []
names ((key, a) ∷ rest) = key ∷ names rest

abbrev pub is_member : String → Members → Bool
is_member key end = false
is_member key (member k v rest) = k == key || is_member key rest

abbrev pub all_members : (String → Bool) → Members → Bool
all_members p end = true
all_members p (member k v rest) = p k && all_members p rest

-- `value[key]`
abbrev pub fetch_member : String → Members → Result Json
fetch_member key end = err key_error
fetch_member key (member k v rest) = if k == key then ok v else fetch_member key rest

-- `_keys`: an object with exactly the expected keys.
unfoldable pub keys : Json → List String → Result Members
keys (number n) expected = err value_error
keys other expected = err value_error
keys (object fields) expected = do
  guard
      (all (λ k. is_member k fields) expected
        && all_members (λ k. any (λ name. name == k) expected) fields)
      value_error
  ok fields

-- `number <= 0`, `number < low` and `number > high`, at a bound of the rules.
abbrev pub is_zero : Number → Bool
is_zero n = not (n.fraction || ltb 0 n.whole)

abbrev pub not_positive : Number → Bool
not_positive n = n.negative || is_zero n

abbrev pub is_below : Option ℕ → Number → Bool
is_below none n = false
is_below (some low) n = if n.negative then not (is_zero n) || ltb 0 low else ltb n.whole low

abbrev pub is_above : Option ℕ → Number → Bool
is_above none n = false
is_above (some high) n = not n.negative && (ltb high n.whole || (n.fraction && leb high n.whole))

abbrev pub breaks_kind : Kind → Number → Bool
breaks_kind any_number n = false
breaks_kind int_number n = not n.is_int
breaks_kind positive n = not_positive n

abbrev pub accepts : Rule → Json → Bool
accepts r (number n) =
    not (not n.is_finite || (breaks_kind r.kind n || (is_below r.low n || is_above r.high n)))
accepts r (object fields) = false
accepts r other = false

unfoldable pub check_section : Members → List (String × Rule) → Result (Unit {0})
check_section fields [] = ok tt
check_section fields ((key, r) ∷ rest) = do
  value ← fetch_member key fields
  guard (accepts r value) value_error
  check_section fields rest

unfoldable pub check_sections : Members → List (String × List (String × Rule)) → Result (Unit {0})
check_sections fields [] = ok tt
check_sections fields ((section, rs) ∷ rest) = do
  value ← fetch_member section fields
  inner ← keys value (names rs)
  _ ← check_section inner rs
  check_sections fields rest

-- `type(version) is int and version == 1`
abbrev pub is_version : Json → Bool
is_version (number n) =
    n.is_int && (not n.negative && (not n.fraction && (leb 1 n.whole && leb n.whole 1)))
is_version (object fields) = false
is_version other = false

unfoldable pub validate_policy : Json → Result Json
validate_policy value = do
  fields ← keys value ("schema_version" ∷ names rules)
  version ← fetch_member "schema_version" fields
  guard (is_version version) value_error
  _ ← check_sections fields rules
  ok value

abbrev pub append_member : String → Json → Members → Members
append_member key value end = member key value end
append_member key value (member k v rest) = member k v (append_member key value rest)

-- `_unique_pairs`: the pairs of one object of the text, in order.
unfoldable pub unique_pairs : Members → Members → Result Members
unique_pairs result end = ok result
unique_pairs result (member k v rest) = do
  guard (not (is_member k result)) value_error
  unique_pairs (append_member k v result) rest
