-- ===== src/Lvhv/Words.antt =====
-- Little-endian numbers of common/lvhv_protocol.py, as `struct` packs them. A number, signed number or
-- float of `w` bytes is the unsigned number that its bytes spell.
use native.Mathlib.Nat.{pow-suc}
use lvhvbox.Prelude.{
  ℕ, zero, suc, ◌+◌, ◌*◌, ◌/◌, ◌%◌, ◌^◌, ◌<◌, ◌≡◌, refl, List, [], ◌∷◌, IsBytes, length, arith,
}

unfoldable pub pack_word : ℕ → ℕ → List ℕ
pack_word zero v = []
pack_word (suc w) v = v % 256 ∷ pack_word w (v / 256)

unfoldable pub unpack_word : List ℕ → ℕ
unpack_word [] = 0
unpack_word (b ∷ bs) = b + 256 * unpack_word bs

pub length-pack_word : (w v : ℕ) → length (pack_word w v) ≡ w
unfolding pack_word
length-pack_word zero v = refl
length-pack_word (suc w) v = omega (arith, length-pack_word w (v / 256))

pub pack_word-IsBytes : (w v : ℕ) → IsBytes (pack_word w v)
unfolding pack_word
pack_word-IsBytes zero v = tt
pack_word-IsBytes (suc w) v = (omega arith, pack_word-IsBytes w (v / 256))

pub unpack-pack : (w v : ℕ) → v < 256 ^ w → unpack_word (pack_word w v) ≡ v
unfolding pack_word unpack_word
unpack-pack zero v h = omega arith
unpack-pack (suc w) v h =
    omega (arith, pow-suc 256 w, unpack-pack w (v / 256) (omega (arith, pow-suc 256 w)))

pub pack-unpack : (bs : List ℕ) → IsBytes bs → pack_word (length bs) (unpack_word bs) ≡ bs
unfolding pack_word unpack_word
pack-unpack [] h = refl
pack-unpack (b ∷ bs) (small, rest) = rw (low, high, pack-unpack bs rest) refl
  where
    low : (b + 256 * unpack_word bs) % 256 ≡ b
    low = omega arith

    high : (b + 256 * unpack_word bs) / 256 ≡ unpack_word bs
    high = omega arith

pub unpack-lt : (bs : List ℕ) → IsBytes bs → unpack_word bs < 256 ^ length bs
unfolding unpack_word
unpack-lt [] h = omega arith
unpack-lt (b ∷ bs) (small, rest) = omega (arith, pow-suc 256 (length bs), unpack-lt bs rest)
