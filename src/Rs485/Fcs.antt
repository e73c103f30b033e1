-- ===== src/Rs485/Fcs.antt =====
-- `fcs16` of rs485-server/rs485.py, the checksum of a frame. A byte is a number below 256.
mod Inverse
pub mod Detection
use Prim.Native.Nat.{bit_and, bit_xor}
use lvhvbox.Prelude.{
  ℕ, zero, suc, ◌+◌, ◌*◌, ◌/◌, ◌^◌, ◌<◌, ◌≡◌, refl, List, [], ◌∷◌, ◌++◌, if◌then◌else◌, ◌==◌, arith,
}

-- One round of the inner loop: `(crc >> 1) ^ (0x8408 if crc & 1 else 0)`.
pub fcs_bit : ℕ → ℕ
fcs_bit crc = bit_xor (crc / 2) (if bit_and crc 1 == 0 then 0 else 0x8408)

pub fcs_rounds : ℕ → ℕ → ℕ
fcs_rounds zero crc = crc
fcs_rounds (suc n) crc = fcs_rounds n (fcs_bit crc)

pub fcs_byte : ℕ → ℕ → ℕ
fcs_byte crc byte = fcs_rounds 8 (bit_xor crc byte)

pub fcs_loop : ℕ → List ℕ → ℕ
fcs_loop crc [] = crc
fcs_loop crc (byte ∷ rest) = fcs_loop (fcs_byte crc byte) rest

unfoldable pub fcs16 : List ℕ → ℕ
unfolding fcs_loop fcs_byte fcs_rounds fcs_bit
fcs16 body = bit_xor (fcs_loop 0xFFFF body) 0xFFFF

-- The check value that the docstring of `fcs16` names.
fcs16_check_value :
    fcs16 (b'1' ∷ b'2' ∷ b'3' ∷ b'4' ∷ b'5' ∷ b'6' ∷ b'7' ∷ b'8' ∷ b'9' ∷ []) ≡ 0x906e
unfolding fcs16
fcs16_check_value = refl
