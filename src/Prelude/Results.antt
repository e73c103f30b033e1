-- ===== src/Prelude/Results.antt =====
-- Python calls that may raise: the value, or the exception's class.
use mathlib.Core.Path.{◌≡◌, refl, ap}
use mathlib.Core.Bool.{Bool, true, false}

-- The exception classes that the modelled code raises or tells apart.
pub data Error : Type 0 where
  value_error key_error eof_error timeout_error runtime_error os_error struct_error type_error :
      Error
  interrupt : Error

pub data Result {ℓ} (A : Type ℓ) : Type ℓ where
  ok : A → Result A
  err : Error → Result A

infixl 5 ◌>>=◌ ◌>>◌
abbrev pub ◌>>=◌ {ℓ κ} : {A : Type ℓ} {B : Type κ} → Result A → (A → Result B) → Result B
err raised >>= next = err raised
ok value >>= next = next value

-- `if not test: raise e`
abbrev pub guard : Bool → Error → Result (Unit {0})
guard false raised = err raised
guard true raised = ok tt

abbrev pub ◌>>◌ {ℓ} : {B : Type ℓ} → Result (Unit {0}) → Result B → Result B
first >> rest = first >>= λ _. rest

-- What follows a guard is reached only if its test holds.
pub guard-eq-ok {ℓ} :
    {A : Type ℓ} (test : Bool) (raised : Error) (rest : Result A) {a : A}
    → (guard test raised >> rest) ≡ ok a
    → (test ≡ true) × (rest ≡ ok a)
guard-eq-ok false raised rest e = cc
guard-eq-ok true raised rest e = (refl, e)

-- A chain that returns a value did so in its first call.
pub >>=-eq-ok {ℓ κ} :
    {A : Type ℓ} {B : Type κ} (first : Result A) (next : A → Result B) {b : B}
    → (first >>= next) ≡ ok b
    → (a : A) × (first ≡ ok a) × (next a ≡ ok b)
>>=-eq-ok (err raised) next e = cc
>>=-eq-ok (ok value) next e = (value, refl, e)

-- Cases on a result that remember which it was.
pub Result_elim {ℓ κ μ} :
    {A : Type ℓ} {B : Type κ} (P : B → Type μ) (r : Result A) (f : Error → B) (g : A → B)
    → ((e : Error) → r ≡ err e → P (f e))
    → ((a : A) → r ≡ ok a → P (g a))
    → P (elim r as (λ _. B) [ err e ↦ f e | ok a ↦ g a ])
Result_elim P (err e) f g h k = h e refl
Result_elim P (ok a) f g h k = k a refl

abbrev ok_or {ℓ} : {A : Type ℓ} → A → Result A → A
ok_or a (err e) = a
ok_or a (ok b) = b

pub ok-injective {ℓ} : {A : Type ℓ} {a b : A} → ok a ≡ ok b → a ≡ b
ok-injective {a = a} e = ap (ok_or a) e
