-- ===== src/Rs485/Fcs/Detection.antt =====
-- Which transmission errors the checksum of a frame cannot miss.
use Prim.Native.Nat.{bit_xor}
use mathlib.Core.Bool.{◌&&◌, ◌||◌}
use lvhvbox.Prelude.{
  ℕ, zero, suc, ◌/◌, ◌^◌, ◌<◌, ◌≡◌, ◌≢◌, refl, sym, ap, ◌∙◌, ◌⊎◌, inl, inr, Bool, true, List, [],
  ◌∷◌, IsBytes, ◌++◌, ◌==◌, leb, arith,
}
use lvhvbox.Prelude.Bits.{
  bit_xor-bit_xor, bit_xor-injective, bit_xor_comm, bit_xor_assoc, bit_xor-lt, bit_xor-half,
  bit_xor-parity, bit_xor-zero, bit_and-one,
}
use lvhvbox.Rs485.Fcs.{fcs_bit, fcs_rounds, fcs_byte, fcs_loop, fcs16}
use lvhvbox.Rs485.Fcs.Inverse.{
  fcs_rounds-lt, fcs_byte-lt, fcs_rounds-injective, fcs_byte-injective_byte, fcs_loop-lt,
  fcs_loop-injective,
}

fcs_loop-append :
    (crc : ℕ) (xs ys : List ℕ) → fcs_loop crc (xs ++ ys) ≡ fcs_loop (fcs_loop crc xs) ys
unfolding fcs_loop
fcs_loop-append crc [] ys = refl
fcs_loop-append crc (x ∷ xs) ys = fcs_loop-append (fcs_byte crc x) xs ys

pub fcs16-lt : (xs : List ℕ) → IsBytes xs → fcs16 xs < 2 ^ 16
unfolding fcs16
fcs16-lt xs b = bit_xor-lt 16 _ _ (fcs_loop-lt 0xFFFF xs (omega arith) b) (omega arith)

-- Bodies that agree up to a point and have one checksum agree in the register from there on.
fcs16_after_prefix :
    (xs us vs : List ℕ)
    → fcs16 (xs ++ us) ≡ fcs16 (xs ++ vs)
    → fcs_loop (fcs_loop 0xFFFF xs) us ≡ fcs_loop (fcs_loop 0xFFFF xs) vs
unfolding fcs16
fcs16_after_prefix xs us vs h =
    sym (fcs_loop-append 0xFFFF xs us)
    ∙ bit_xor-injective _ _ 0xFFFF h
    ∙ fcs_loop-append 0xFFFF xs vs

-- Frames that differ in one byte have different checksums.
pub fcs16_single_byte :
    (xs tail : List ℕ) (a b : ℕ)
    → IsBytes xs
    → IsBytes tail
    → a < 2 ^ 8
    → b < 2 ^ 8
    → a ≢ b
    → fcs16 (xs ++ a ∷ tail) ≢ fcs16 (xs ++ b ∷ tail)
unfolding fcs_loop
fcs16_single_byte xs tail a b bx bt ha hb ne h = ne (
    fcs_byte-injective_byte (fcs_loop 0xFFFF xs) a b r ha hb (
      fcs_loop-injective _ _ tail (fcs_byte-lt _ a r ha) (fcs_byte-lt _ b r hb) bt
        (fcs16_after_prefix xs (a ∷ tail) (b ∷ tail) h)))
  where
    r : fcs_loop 0xFFFF xs < 2 ^ 16
    r = fcs_loop-lt 0xFFFF xs (omega arith) bx

xor_right_comm : (a b c : ℕ) → bit_xor (bit_xor a b) c ≡ bit_xor (bit_xor a c) b
xor_right_comm a b c = cc (bit_xor_assoc a b c, bit_xor_comm b c, bit_xor_assoc a c b)

xor_twice : (a b c : ℕ) → bit_xor (bit_xor a c) (bit_xor b c) ≡ bit_xor a b
xor_twice a b c =
    cc
      (sym (bit_xor_assoc (bit_xor a c) b c), xor_right_comm a c b, bit_xor-bit_xor (bit_xor a b) c)

-- The rounds distribute over exclusive or.
fcs_bit-xor : (a b : ℕ) → fcs_bit (bit_xor a b) ≡ bit_xor (fcs_bit a) (fcs_bit b)
unfolding fcs_bit
fcs_bit-xor a b = ground (
  arith,
  bit_and-one a,
  bit_and-one b,
  bit_and-one (bit_xor a b),
  bit_xor-parity a b,
  bit_xor-half a b,
  bit_xor-zero (a / 2),
  bit_xor-zero (b / 2),
  bit_xor-zero (bit_xor (a / 2) (b / 2)),
  xor_right_comm (a / 2) (b / 2) 0x8408,
  bit_xor_assoc (a / 2) (b / 2) 0x8408,
  xor_twice (a / 2) (b / 2) 0x8408,
)

fcs_rounds-xor :
    (n a b : ℕ) → fcs_rounds n (bit_xor a b) ≡ bit_xor (fcs_rounds n a) (fcs_rounds n b)
unfolding fcs_rounds
fcs_rounds-xor zero a b = refl
fcs_rounds-xor (suc n) a b = rw fcs_bit-xor (fcs_rounds-xor n (fcs_bit a) (fcs_bit b))

-- A test of every number under a limit, by evaluation.
holds_under : (ℕ → Bool) → ℕ → Bool
holds_under test zero = true
holds_under test (suc limit) = holds_under test limit && test limit

holds_under-lt :
    (test : ℕ → Bool) (limit d : ℕ) → d < limit → holds_under test limit ≡ true → test d ≡ true
unfolding holds_under
holds_under-lt test (suc limit) d below held = ground (arith, holds_under-lt test limit d)
holds_under-lt test zero d below held = absurd (omega arith)

-- Eight rounds carry a nonzero byte beyond the low byte of the register.
rounds_table : holds_under (λ d. d == 0 || leb 256 (fcs_rounds 8 d)) 256 ≡ true
unfolding holds_under fcs_rounds fcs_bit
rounds_table = refl

rounds_escape : (d : ℕ) → d < 2 ^ 8 → fcs_rounds 8 d < 2 ^ 8 → d ≡ 0
rounds_escape d h small = ground (arith, holds_under-lt _ 256 d h rounds_table)

xor-zero_eq : (a b : ℕ) → bit_xor a b ≡ 0 → a ≡ b
xor-zero_eq a b h = cc (bit_xor-bit_xor a b, bit_xor_comm 0 b, bit_xor-zero b)

-- If two registers differ within a byte, one more byte each cannot make them meet again.
fcs_byte_meet :
    (a a' b b' c : ℕ)
    → c < 2 ^ 16
    → a < 2 ^ 8
    → a' < 2 ^ 8
    → b < 2 ^ 8
    → b' < 2 ^ 8
    → fcs_byte (fcs_byte c a) b ≡ fcs_byte (fcs_byte c a') b'
    → a ≡ a'
unfolding fcs_byte
fcs_byte_meet a a' b b' c hc ha ha' hb hb' h =
    xor-zero_eq a a' (rounds_escape (bit_xor a a') (bit_xor-lt 8 a a' ha ha') small)
  where
    R : ℕ → ℕ
    R x = fcs_rounds 8 (bit_xor c x)

    R-lt : (x : ℕ) → x < 2 ^ 8 → R x < 2 ^ 16
    R-lt x hx = fcs_rounds-lt 8 _ (bit_xor-lt 16 c x hc (omega arith))

    met : bit_xor (R a) b ≡ bit_xor (R a') b'
    met =
        fcs_rounds-injective 8 _ _ (bit_xor-lt 16 (R a) b (R-lt a ha) (omega arith))
          (bit_xor-lt 16 (R a') b' (R-lt a' ha') (omega arith)) h

    masks : bit_xor (bit_xor c a) (bit_xor c a') ≡ bit_xor a a'
    masks = cc (bit_xor_comm c a, bit_xor_comm c a', xor_twice a a' c)

    spread : fcs_rounds 8 (bit_xor a a') ≡ bit_xor (R a) (R a')
    spread = cc (masks, fcs_rounds-xor 8 (bit_xor c a) (bit_xor c a'))

    -- R a ^ R a' = b ^ b'
    apart : bit_xor (R a) (R a') ≡ bit_xor b' b
    apart = cc (
      met,
      bit_xor-bit_xor (R a) b,
      bit_xor_assoc (R a') b' b,
      bit_xor_comm (R a') (bit_xor b' b),
      bit_xor-bit_xor (bit_xor b' b) (R a'),
    )

    small : fcs_rounds 8 (bit_xor a a') < 2 ^ 8
    small = omega (arith, spread, apart, bit_xor-lt 8 b' b hb' hb)

-- Two sequences of bytes that differ in one or both of two neighbouring bytes, and nowhere else, have
-- different checksums.
pub fcs16_two_bytes :
    (xs tail : List ℕ) (a b a' b' : ℕ)
    → IsBytes xs
    → IsBytes tail
    → IsBytes (a ∷ b ∷ a' ∷ b' ∷ [])
    → (a ≢ a') ⊎ (b ≢ b')
    → fcs16 (xs ++ a ∷ b ∷ tail) ≢ fcs16 (xs ++ a' ∷ b' ∷ tail)
unfolding fcs_loop
fcs16_two_bytes xs tail a b a' b' bx bt (ha, (hb, (ha', (hb', _)))) ne h = refute ne
  where
    c : ℕ
    c = fcs_loop 0xFFFF xs

    hc : c < 2 ^ 16
    hc = fcs_loop-lt 0xFFFF xs (omega arith) bx

    met : fcs_byte (fcs_byte c a) b ≡ fcs_byte (fcs_byte c a') b'
    met =
        fcs_loop-injective _ _ tail (fcs_byte-lt _ b (fcs_byte-lt c a hc ha) hb)
          (fcs_byte-lt _ b' (fcs_byte-lt c a' hc ha') hb') bt
          (fcs16_after_prefix xs (a ∷ b ∷ tail) (a' ∷ b' ∷ tail) h)

    first : a ≡ a'
    first = fcs_byte_meet a a' b b' c hc ha ha' hb hb' met

    second : b ≡ b'
    second =
        fcs_byte-injective_byte (fcs_byte c a') b b' (fcs_byte-lt c a' hc ha') hb hb'
          (ap (λ (t : ℕ). fcs_byte (fcs_byte c t) b) (sym first) ∙ met)

    refute : (a ≢ a') ⊎ (b ≢ b') → ⊥
    refute (inl n) = n first
    refute (inr n) = n second
