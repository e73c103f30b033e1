-- ===== src/Rs485/Fcs/Inverse.antt =====
-- One round of the checksum is injective on 16-bit words, so no round loses information.
use Prim.Native.Nat.{bit_xor}
use lvhvbox.Prelude.{
  ℕ, zero, suc, ◌+◌, ◌/◌, ◌%◌, ◌^◌, ◌<◌, ◌≡◌, List, [], ◌∷◌, IsBytes, if◌then◌else◌, ◌==◌, arith,
}
use lvhvbox.Prelude.Bits.{
  bit_xor-injective, bit_xor_comm, bit_xor-lt, bit_xor-high, bit_xor-zero, bit_and-one,
}
use lvhvbox.Rs485.Fcs.{fcs_bit, fcs_rounds, fcs_byte, fcs_loop}

-- A round sets the top bit exactly when the bit that it shifts out is 1.
pub fcs_bit_cases :
    (crc : ℕ)
    → crc < 2 ^ 16
    → fcs_bit crc ≡ (if crc % 2 == 0 then crc / 2 else 2 ^ 15 + bit_xor (crc / 2) 0x408)
unfolding fcs_bit
fcs_bit_cases crc h = ground (
  arith,
  bit_and-one crc,
  bit_xor-zero (crc / 2),
  bit_xor-high 15 (crc / 2) 0x408 (omega arith) (omega arith),
)

pub fcs_bit-lt : (crc : ℕ) → crc < 2 ^ 16 → fcs_bit crc < 2 ^ 16
fcs_bit-lt crc h =
    ground (arith, fcs_bit_cases crc h, bit_xor-lt 15 (crc / 2) 0x408 (omega arith) (omega arith))

pub fcs_bit-injective : (a b : ℕ) → a < 2 ^ 16 → b < 2 ^ 16 → fcs_bit a ≡ fcs_bit b → a ≡ b
fcs_bit-injective a b ha hb h =
    ground (arith, fcs_bit_cases a ha, fcs_bit_cases b hb, bit_xor-injective (a / 2) (b / 2) 0x408)

pub fcs_rounds-lt : (n crc : ℕ) → crc < 2 ^ 16 → fcs_rounds n crc < 2 ^ 16
unfolding fcs_rounds
fcs_rounds-lt zero crc h = h
fcs_rounds-lt (suc n) crc h = fcs_rounds-lt n (fcs_bit crc) (fcs_bit-lt crc h)

pub fcs_rounds-injective :
    (n a b : ℕ) → a < 2 ^ 16 → b < 2 ^ 16 → fcs_rounds n a ≡ fcs_rounds n b → a ≡ b
unfolding fcs_rounds
fcs_rounds-injective zero a b ha hb h = h
fcs_rounds-injective (suc n) a b ha hb h =
    fcs_bit-injective a b ha hb
      (fcs_rounds-injective n (fcs_bit a) (fcs_bit b) (fcs_bit-lt a ha) (fcs_bit-lt b hb) h)

pub fcs_byte-lt : (crc byte : ℕ) → crc < 2 ^ 16 → byte < 2 ^ 8 → fcs_byte crc byte < 2 ^ 16
unfolding fcs_byte
fcs_byte-lt crc byte h k =
    fcs_rounds-lt 8 (bit_xor crc byte) (bit_xor-lt 16 crc byte h (omega arith))

-- For a fixed byte the round of a byte is injective in the register.
pub fcs_byte-injective :
    (a b byte : ℕ)
    → a < 2 ^ 16
    → b < 2 ^ 16
    → byte < 2 ^ 8
    → fcs_byte a byte ≡ fcs_byte b byte
    → a ≡ b
unfolding fcs_byte
fcs_byte-injective a b byte ha hb k h = bit_xor-injective a b byte (
    fcs_rounds-injective 8 _ _ (bit_xor-lt 16 a byte ha (omega arith))
      (bit_xor-lt 16 b byte hb (omega arith)) h)

-- For a fixed register it is injective in the byte.
pub fcs_byte-injective_byte :
    (crc x y : ℕ) → crc < 2 ^ 16 → x < 2 ^ 8 → y < 2 ^ 8 → fcs_byte crc x ≡ fcs_byte crc y → x ≡ y
unfolding fcs_byte
fcs_byte-injective_byte crc x y hc hx hy h =
    bit_xor-injective x y crc (cc (bit_xor_comm x crc, bit_xor_comm y crc, same))
  where
    same : bit_xor crc x ≡ bit_xor crc y
    same =
        fcs_rounds-injective 8 _ _ (bit_xor-lt 16 crc x hc (omega arith))
          (bit_xor-lt 16 crc y hc (omega arith)) h

pub fcs_loop-lt : (crc : ℕ) (xs : List ℕ) → crc < 2 ^ 16 → IsBytes xs → fcs_loop crc xs < 2 ^ 16
unfolding fcs_loop
fcs_loop-lt crc [] h b = h
fcs_loop-lt crc (x ∷ xs) h b = fcs_loop-lt (fcs_byte crc x) xs (fcs_byte-lt crc x h b.0) b.1

pub fcs_loop-injective :
    (a b : ℕ) (xs : List ℕ)
    → a < 2 ^ 16
    → b < 2 ^ 16
    → IsBytes xs
    → fcs_loop a xs ≡ fcs_loop b xs
    → a ≡ b
unfolding fcs_loop
fcs_loop-injective a b [] ha hb k h = h
fcs_loop-injective a b (x ∷ xs) ha hb k h = fcs_byte-injective a b x ha hb k.0 (
    fcs_loop-injective (fcs_byte a x) (fcs_byte b x) xs (fcs_byte-lt a x ha k.0)
      (fcs_byte-lt b x hb k.0) k.1 h)
