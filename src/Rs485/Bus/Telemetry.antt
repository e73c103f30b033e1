-- ===== src/Rs485/Bus/Telemetry.antt =====
-- Named telemetry of rs485-server/rs485.py: the commands of a rule, what `validate` refuses, and `read`. A
-- value of a rule is none if it is not a natural number. A name is its place among the rules, a
-- panel its number; `convert` is the rule's conversion of the raw value.
use lvhvbox.Prelude.{
  ℕ, ◌≤◌, ◌≡◌, subst, Bool, true, false, not, ◌&&◌, ◌||◌, List, [], ◌∷◌, length, All, if◌then◌else◌,
  ◌==◌, leb, leb→le, any, Option, none, some, Result, ok, err, value_error, key_error,
  runtime_error, guard, ◌>>=◌, ◌>>◌, guard-eq-ok, >>=-eq-ok, ok-injective,
}
use lvhvbox.Rs485.Session.{Session}
use lvhvbox.Rs485.Bus.{Answer, value, fault, other, Call, read_direct, read_rule}

pub data Commands : Type 0 where
  not_list : Commands
  listed : List (Option ℕ) → Commands

pub record Rule : Type 0 where
  pub cmdid : Option (Option ℕ)
  pub cmdids : Option Commands
  pub direct_command : Option ℕ
  pub is_flow : Bool

abbrev pub command_id : Option ℕ → Result ℕ
command_id none = err value_error
command_id (some c) = do guard (leb c 255) value_error; ok c

unfoldable pub all_ids : List (Option ℕ) → Result (List ℕ)
all_ids [] = ok []
all_ids (c ∷ cs) = do first ← command_id c; rest ← all_ids cs; ok (first ∷ rest)

abbrev pub single_id : Option (Option ℕ) → Result (List ℕ)
single_id none = err key_error
single_id (some c) = all_ids (c ∷ [])

abbrev pub double_ids : Option (Option ℕ) → Commands → Result (List ℕ)
double_ids (some c) commands = err value_error
double_ids none not_list = err value_error
double_ids none (listed cs) = do guard (length cs == 2) value_error; all_ids cs

abbrev pub ids_of : Option (Option ℕ) → Option Commands → Result (List ℕ)
ids_of cmdid none = single_id cmdid
ids_of cmdid (some commands) = double_ids cmdid commands

unfoldable pub command_ids : Rule → Result (List ℕ)
command_ids r = ids_of r.cmdid r.cmdids

-- `self.rules[name]`
abbrev pub rule_at : ℕ → List (ℕ × Rule) → Result Rule
rule_at name [] = err value_error
rule_at name ((n, r) ∷ rules) = if n == name then ok r else rule_at name rules

-- `panel or f'MN{address:03d}'`
abbrev pub panel_or : Option ℕ → ℕ → ℕ
panel_or none address = address
panel_or (some panel) address = panel

-- `RS485.validate`: `calibrated` are the panels with a calibration.
unfoldable pub validate : List (ℕ × Rule) → List ℕ → ℕ → ℕ → Option ℕ → Bool → Result (Rule × ℕ)
validate rules calibrated address name panel require = do
  guard (leb address 511) value_error
  r ← rule_at name rules
  guard (not (require && (r.is_flow && not (any (λ p. p == panel_or panel address) calibrated))))
      value_error
  ok (r, panel_or panel address)

abbrev pub is_direct : Option ℕ → Result ℕ
is_direct none = err value_error
is_direct (some c) = do guard (leb 3 c && leb c 6) value_error; ok c

abbrev pub commands_of : Bool → Rule → Result (List ℕ)
commands_of true r = do c ← is_direct r.direct_command; ok (c ∷ [])
commands_of false r = command_ids r

abbrev pub raw_value : ℕ → Bool → ℕ → List ℕ → Call → Call → Session → Answer ℕ × Session
raw_value timeout direct address [] c d s = (fault (other value_error), s)
raw_value timeout true address (command ∷ rest) c d s = read_direct timeout address command c s
raw_value timeout false address (command ∷ rest) c d s =
    read_rule timeout address (command ∷ rest) c d s

abbrev pub converted :
    (Rule → ℕ → ℕ → Result ℕ) → Rule → ℕ → Answer ℕ × Session → Answer (ℕ × ℕ) × Session
converted convert r panel (fault f, s) = (fault f, s)
converted convert r panel (value raw, s) = elim (convert r raw panel) [
  | err e ↦ (fault (other e), s)
  | ok v ↦ (value (raw, v), s)
]

-- The part of `read` that holds the bus.
abbrev pub read_commands :
    (Rule → ℕ → ℕ → Result ℕ)
    → ℕ
    → Bool
    → Bool
    → Bool
    → ℕ
    → Call
    → Call
    → Session
    → Result ((Rule × ℕ) × List ℕ)
    → Answer (ℕ × ℕ) × Session
read_commands convert timeout admitted opened direct address c d s (err e) = (fault (other e), s)
read_commands convert timeout admitted opened direct address c d s (ok ((r, panel), commands)) =
    if not admitted || not opened
    then (fault (other runtime_error), s)
    else converted convert r panel (raw_value timeout direct address commands c d s)

abbrev pub checked :
    List (ℕ × Rule) → List ℕ → ℕ → ℕ → Option ℕ → Bool → Result ((Rule × ℕ) × List ℕ)
checked rules calibrated address name panel direct = do
  (r, p) ← validate rules calibrated address name panel true
  commands ← commands_of direct r
  ok ((r, p), commands)

-- `RS485.read`: the raw value and the converted one.
unfoldable pub read :
    List (ℕ × Rule)
    → List ℕ
    → (Rule → ℕ → ℕ → Result ℕ)
    → ℕ
    → Bool
    → Bool
    → ℕ
    → ℕ
    → Option ℕ
    → Bool
    → Call
    → Call
    → Session
    → Answer (ℕ × ℕ) × Session
read rules calibrated convert timeout admitted opened address name panel direct c d s =
    read_commands convert timeout admitted opened direct address c d s
      (checked rules calibrated address name panel direct)

-- The commands of a rule fit a byte, so that each is one that a packet can carry.
abbrev pub AllBytes : List ℕ → Type 0
AllBytes = All (λ c. c ≤ 255)

all_ids-AllBytes : (cs : List (Option ℕ)) (ids : List ℕ) → all_ids cs ≡ ok ids → AllBytes ids
unfolding all_ids
all_ids-AllBytes [] ids h = subst AllBytes (ok-injective h) tt
all_ids-AllBytes (none ∷ cs) ids h = cc
all_ids-AllBytes (some c ∷ cs) ids h =
    let (first, one, h1) = >>=-eq-ok (command_id (some c)) _ h in
    let (rest, more, h2) = >>=-eq-ok (all_ids cs) _ h1 in
    let (small, same) = guard-eq-ok (leb c 255) value_error (ok c) one in
    subst AllBytes (ok-injective h2) (
      subst (λ (k : ℕ). k ≤ 255) (ok-injective same) (leb→le c 255 small),
      all_ids-AllBytes cs rest more,
    )

pub command_ids-AllBytes : (r : Rule) (ids : List ℕ) → command_ids r ≡ ok ids → AllBytes ids
unfolding command_ids
command_ids-AllBytes r ids h = by_shape r.cmdid r.cmdids h
  where
    by_shape : (c : Option (Option ℕ)) (cs : Option Commands) → ids_of c cs ≡ ok ids → AllBytes ids
    by_shape none none k = cc
    by_shape (some c) none k = all_ids-AllBytes (c ∷ []) ids k
    by_shape (some c) (some cs) k = cc
    by_shape none (some not_list) k = cc
    by_shape none (some (listed cs)) k =
        all_ids-AllBytes cs ids (guard-eq-ok (length cs == 2) value_error (all_ids cs) k).1
