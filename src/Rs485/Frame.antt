-- ===== src/Rs485/Frame.antt =====
-- Framing of rs485-server/rs485.py: `frame_bytes`, and the unescaping loop of `Packet.decode`.
pub mod Escape
use Prim.Native.Nat.{bit_xor}
use lvhvbox.Prelude.{
  ℕ, suc, ◌+◌, ◌*◌, ◌≡◌, refl, Bool, true, false, not, ◌||◌, List, [], ◌∷◌, ◌++◌, if◌then◌else◌,
  ◌==◌, ltb, length, Result, ok, err, value_error, guard, ◌>>=◌, ◌>>◌,
}

abbrev pub flag : ℕ
flag = 0x7E

abbrev pub esc : ℕ
esc = 0x7D

abbrev pub max_payload : ℕ
max_payload = 32

-- `HEADER.size` for the format '<BBHHBB'.
abbrev pub header_size : ℕ
header_size = 8

-- What `Packet.decode` accepts between the delimiters, unescaped.
abbrev pub max_body : ℕ
max_body = header_size + max_payload + 2

-- `MAX_WIRE`: both delimiters, and every byte of the longest body escaped.
abbrev pub max_wire : ℕ
max_wire = 2 + 2 * max_body

unfoldable pub escape : List ℕ → List ℕ
escape [] = []
escape (byte ∷ rest) =
    if byte == flag || byte == esc
    then esc ∷ bit_xor byte 0x20 ∷ escape rest
    else byte ∷ escape rest

unfoldable pub frame_bytes : List ℕ → List ℕ
unfolding escape
frame_bytes body = flag ∷ (escape body ++ flag ∷ [])

-- The variables `escaped` and `body` of the loop in `Packet.decode`.
pub record Unescape : Type 0 where
  pub escaped : Bool
  pub body : List ℕ

pub unescape_byte : ℕ → Unescape → Result Unescape
unescape_byte byte s =
    if byte == flag
    then err value_error
    else if s.escaped
    then (if byte == 0x5D || byte == 0x5E
        then ok (record { escaped = false; body = s.body ++ bit_xor byte 0x20 ∷ [] })
        else err value_error)
    else if byte == esc
    then ok (record s { escaped = true })
    else ok (record s { body = s.body ++ byte ∷ [] })

unfoldable pub unescape : List ℕ → Unescape → Result Unescape
unfolding unescape_byte
unescape [] s = ok s
unescape (byte ∷ rest) s = do
  t ← unescape_byte byte s
  guard (not (ltb max_body (length t.body))) value_error
  unescape rest t

escape_runs : escape (0x7E ∷ 0x41 ∷ 0x7D ∷ []) ≡ 0x7D ∷ 0x5E ∷ 0x41 ∷ 0x7D ∷ 0x5D ∷ []
unfolding escape
escape_runs = refl
