-- ===== src/Prelude/Bits.antt =====
-- Exclusive or of native numbers at variables: the digit recursion, cancellation and bounds.
use Prim.Native.Nat.{digits, differ, min, bit_and, bit_and-bitwise, bit_xor, bit_xor-bitwise}
use Prim.Native.Nat.{ℕ, zero, suc, ◌+◌, ◌*◌, ◌/◌, ◌%◌, ◌^◌, ◌≤◌, ◌<◌}
use mathlib.Core.Path.{◌≡◌, refl, ap, sym, ◌∙◌}
use native.Mathlib.Omega.{arith}
use native.Mathlib.Nat.{pow-suc}

xor_digits : ℕ → ℕ → ℕ → ℕ
xor_digits n a b = digits (λ b. b) differ n a b

-- The fuel of the recursion on digits does not matter once it is enough.
xor_digits_fuel :
    (more enough x y : ℕ) → x ≤ more → x ≤ enough → xor_digits more x y ≡ xor_digits enough x y
unfolding xor_digits
xor_digits_fuel (suc more) (suc enough) (suc x) y g h =
    rw (xor_digits_fuel more enough (suc x / 2) (y / 2) (omega arith) (omega arith))
xor_digits_fuel (suc more) (suc enough) zero y g h = refl
xor_digits_fuel (suc more) zero zero y g h = refl
xor_digits_fuel (suc more) zero (suc x) y g h = absurd (omega arith)
xor_digits_fuel zero (suc enough) zero y g h = refl
xor_digits_fuel zero (suc enough) (suc x) y g h = absurd (omega arith)
xor_digits_fuel zero zero x y g h = refl

zero-bit_xor : (b : ℕ) → bit_xor 0 b ≡ b
zero-bit_xor b = bit_xor-bitwise 0 b

differ_digits : (x y : ℕ) → x < 2 → y < 2 → differ x y ≡ (x + y) % 2
differ_digits zero y hx hy = omega arith
differ_digits (suc zero) zero hx hy = omega arith
differ_digits (suc zero) (suc zero) hx hy = omega arith
differ_digits (suc zero) (suc (suc y)) hx hy = absurd (omega arith)
differ_digits (suc (suc x)) y hx hy = absurd (omega arith)

differ_sum : (a b : ℕ) → differ (a % 2) (b % 2) ≡ (a + b) % 2
differ_sum a b = omega (arith, differ_digits (a % 2) (b % 2) (omega arith) (omega arith))

-- The lowest digit of an exclusive or is the parity of the sum.
pub bit_xor_step : (a b : ℕ) → bit_xor a b ≡ bit_xor (a / 2) (b / 2) * 2 + (a + b) % 2
unfolding xor_digits
bit_xor_step zero b = omega (arith, zero-bit_xor b, zero-bit_xor (b / 2))
bit_xor_step (suc a) b = omega (
  arith,
  bit_xor-bitwise (suc a) b,
  bit_xor-bitwise (suc a / 2) (b / 2),
  differ_sum (suc a) b,
  xor_digits_fuel a (suc a / 2) (suc a / 2) (b / 2) (omega arith) (omega arith),
)

pub bit_xor-half : (a b : ℕ) → bit_xor a b / 2 ≡ bit_xor (a / 2) (b / 2)
bit_xor-half a b = omega (arith, bit_xor_step a b)

xor_cancel_fuel : (n a b : ℕ) → a ≤ n → b ≤ n → bit_xor (bit_xor a b) b ≡ a
xor_cancel_fuel zero zero zero h k = refl
xor_cancel_fuel zero zero (suc b) h k = absurd (omega arith)
xor_cancel_fuel zero (suc a) b h k = absurd (omega arith)
xor_cancel_fuel (suc n) a b h k = omega (
  arith,
  bit_xor_step a b,
  bit_xor_step (bit_xor a b) b,
  ap (λ (t : ℕ). bit_xor t (b / 2)) (bit_xor-half a b),
  xor_cancel_fuel n (a / 2) (b / 2) (omega arith) (omega arith),
)

-- Applying the same mask twice gives the number back.
pub bit_xor-bit_xor : (a b : ℕ) → bit_xor (bit_xor a b) b ≡ a
bit_xor-bit_xor a b = xor_cancel_fuel (a + b) a b (omega arith) (omega arith)

pub bit_xor-injective : (a b m : ℕ) → bit_xor a m ≡ bit_xor b m → a ≡ b
bit_xor-injective a b m h =
    sym (bit_xor-bit_xor a m) ∙ ap (λ (t : ℕ). bit_xor t m) h ∙ bit_xor-bit_xor b m

xor_comm_fuel : (n a b : ℕ) → a ≤ n → b ≤ n → bit_xor a b ≡ bit_xor b a
xor_comm_fuel zero zero zero h k = refl
xor_comm_fuel zero zero (suc b) h k = absurd (omega arith)
xor_comm_fuel zero (suc a) b h k = absurd (omega arith)
xor_comm_fuel (suc n) a b h k = omega (
  arith,
  bit_xor_step a b,
  bit_xor_step b a,
  xor_comm_fuel n (a / 2) (b / 2) (omega arith) (omega arith),
)

pub bit_xor_comm : (a b : ℕ) → bit_xor a b ≡ bit_xor b a
bit_xor_comm a b = xor_comm_fuel (a + b) a b (omega arith) (omega arith)

-- The exclusive or of two numbers of k digits has k digits.
pub bit_xor-lt : (k a b : ℕ) → a < 2 ^ k → b < 2 ^ k → bit_xor a b < 2 ^ k
bit_xor-lt zero zero zero h k = omega arith
bit_xor-lt zero zero (suc b) h k = absurd (omega arith)
bit_xor-lt zero (suc a) b h k = absurd (omega arith)
bit_xor-lt (suc k) a b h h' = omega (
  arith,
  pow-suc 2 k,
  bit_xor_step a b,
  bit_xor-lt k (a / 2) (b / 2) (omega (arith, pow-suc 2 k)) (omega (arith, pow-suc 2 k)),
)

-- A digit above both numbers passes through.
pub bit_xor-high : (k a b : ℕ) → a < 2 ^ k → b < 2 ^ k → bit_xor a (2 ^ k + b) ≡ 2 ^ k + bit_xor a b
bit_xor-high zero zero zero h h' = refl
bit_xor-high zero zero (suc b) h h' = absurd (omega arith)
bit_xor-high zero (suc a) b h h' = absurd (omega arith)
bit_xor-high (suc k) a b h h' = omega (
  arith,
  pow-suc 2 k,
  bit_xor_step a b,
  bit_xor_step a (2 ^ suc k + b),
  ap (bit_xor (a / 2)) half_high,
  bit_xor-high k (a / 2) (b / 2) (omega (arith, pow-suc 2 k)) (omega (arith, pow-suc 2 k)),
)
  where
    half_high : (2 ^ suc k + b) / 2 ≡ 2 ^ k + b / 2
    half_high = omega (arith, pow-suc 2 k)

and_digits-zero : (n a : ℕ) → digits (λ b. zero) min n a 0 ≡ 0
and_digits-zero zero a = refl
and_digits-zero (suc n) zero = refl
and_digits-zero (suc n) (suc a) = omega (arith, and_digits-zero n (suc a / 2))

-- Masking by 1 is the parity.
pub bit_and-one : (a : ℕ) → bit_and a 1 ≡ a % 2
bit_and-one zero = refl
bit_and-one (suc a) = omega (arith, bit_and-bitwise (suc a) 1, and_digits-zero a (suc a / 2))

pub bit_xor-zero : (a : ℕ) → bit_xor a 0 ≡ a
bit_xor-zero a = bit_xor_comm a 0 ∙ zero-bit_xor a

xor_assoc_fuel :
    (n a b c : ℕ) → a ≤ n → b ≤ n → c ≤ n → bit_xor (bit_xor a b) c ≡ bit_xor a (bit_xor b c)
xor_assoc_fuel zero zero zero zero h k l = refl
xor_assoc_fuel zero zero zero (suc c) h k l = absurd (omega arith)
xor_assoc_fuel zero zero (suc b) c h k l = absurd (omega arith)
xor_assoc_fuel zero (suc a) b c h k l = absurd (omega arith)
xor_assoc_fuel (suc n) a b c h k l = omega (
  arith,
  bit_xor_step a b,
  bit_xor_step b c,
  bit_xor_step (bit_xor a b) c,
  bit_xor_step a (bit_xor b c),
  ap (λ (t : ℕ). bit_xor t (c / 2)) (bit_xor-half a b),
  ap (bit_xor (a / 2)) (bit_xor-half b c),
  xor_assoc_fuel n (a / 2) (b / 2) (c / 2) (omega arith) (omega arith) (omega arith),
)

pub bit_xor_assoc : (a b c : ℕ) → bit_xor (bit_xor a b) c ≡ bit_xor a (bit_xor b c)
bit_xor_assoc a b c = xor_assoc_fuel (a + b + c) a b c (omega arith) (omega arith) (omega arith)

pub bit_xor-parity : (a b : ℕ) → bit_xor a b % 2 ≡ (a + b) % 2
bit_xor-parity a b = omega (arith, bit_xor_step a b)
