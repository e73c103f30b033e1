-- ===== src/Lvhv/Message.antt =====
-- Encoding and decoding of the messages of common/lvhv_protocol.py. Frame has the layout of the words of
-- a message; this module adds the conversions of `struct`, which are a parameter: a Python value is a
-- number that stands for it, a byte, a character or a small integer being itself.
pub mod RoundTrip
pub mod Reencode
use lvhvbox.Prelude.{
  ℕ, ◌+◌, ◌-◌, ◌*◌, ◌/◌, ◌^◌, ◌<◌, ◌≡◌, Bool, true, false, ◌&&◌, List, [], ◌∷◌, ◌++◌, map, leb,
  length, Option, none, some, Result, ok, err, value_error, guard, ◌>>=◌, ◌>>◌,
}
use lvhvbox.Lvhv.Words.{pack_word}
use lvhvbox.Lvhv.Frame.{
  Block, type_bytes, count_bytes, max_blocks, max_message_bytes, pack_words, blocks_size,
  read_frame,
}

-- The conversions of `struct` under the format of a kind: `pack` gives the word whose little-endian
-- bytes stand for a value, or raises; `unpack` gives the value that a word stands for. What is packed
-- fits the bytes of its format.
pub record Struct : Type 0 where
  pub pack : ℕ → ℕ → Result ℕ
  pub unpack : ℕ → ℕ → ℕ
  pub pack_fits :
      (kind w value word : ℕ)
      → type_bytes kind ≡ some w
      → pack kind value ≡ ok word
      → word < 256 ^ w

unfoldable pub pack_values : Struct → ℕ → List ℕ → Result (List ℕ)
pack_values st kind [] = ok []
pack_values st kind (v ∷ vs) = do
  word ← st.pack kind v
  words ← pack_values st kind vs
  ok (word ∷ words)

abbrev pub encode_values : Struct → Block → ℕ → Result (List ℕ)
encode_values st b w = do
  guard (leb (length b.values) ((max_message_bytes - count_bytes - 1) / w)) value_error
  words ← pack_values st b.kind b.values
  ok (b.kind ∷ (pack_word count_bytes (length b.values) ++ pack_words w words))

unfoldable pub encode_block : Struct → Block → Result (List ℕ)
encode_block st b = elim (type_bytes b.kind) [
  | none ↦ err value_error
  | some w ↦ encode_values st b w
]

unfoldable pub encode_blocks : Struct → List Block → Result (List ℕ)
encode_blocks st [] = ok []
encode_blocks st (b ∷ bs) = do
  first ← encode_block st b
  rest ← encode_blocks st bs
  ok (first ++ rest)

unfoldable pub encode_message : Struct → List Block → Result (List ℕ)
encode_message st blocks = do
  guard (leb 1 (length blocks) && leb (length blocks) max_blocks) value_error
  guard (leb (count_bytes + blocks_size blocks) max_message_bytes) value_error
  body ← encode_blocks st blocks
  ok (pack_word count_bytes (length blocks) ++ body)

-- The values that `struct.unpack_from` reads from the words of a block.
abbrev pub unpacked : Struct → Block → Block
unpacked st b = record { kind = b.kind; values = map (st.unpack b.kind) b.values }

unfoldable pub decode_message : Struct → List ℕ → ℕ → ℕ → Result (List Block)
decode_message st bytes most max_bytes = do
  blocks ← read_frame bytes most max_bytes
  ok (map (unpacked st) blocks)
