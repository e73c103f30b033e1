-- ===== src/Lvhv/Frame.antt =====
-- The layout of the messages of common/lvhv_protocol.py: a block here holds words, the little-endian
-- numbers that the bytes of its values spell. Message adds the conversions between words and values.
pub mod Blocks
pub mod Wire
pub mod RoundTrip
pub mod Reencode
use lvhvbox.Prelude.{
  ℕ, zero, suc, ◌+◌, ◌-◌, ◌*◌, ◌/◌, ◌^◌, Bool, true, false, ◌&&◌, List, [], ◌∷◌, ◌++◌,
  if◌then◌else◌, ◌==◌, ltb, leb, all, length, take, drop, min, Option, none, some, Result, ok, err,
  value_error, struct_error, runtime_error, guard, ◌>>=◌, ◌>>◌,
}
use lvhvbox.Lvhv.Words.{pack_word, unpack_word}

abbrev pub count_bytes : ℕ
count_bytes = 4

abbrev pub max_blocks : ℕ
max_blocks = 1024

abbrev pub max_message_bytes : ℕ
max_message_bytes = 67108864

-- `TYPES[kind]['bytes']`, at the code of the character.
unfoldable pub type_bytes : ℕ → Option ℕ
type_bytes kind =
    if kind == b'C'
    then some 1
    else if kind == b'I'
    then some 4
    else if kind == b'U'
    then some 4
    else if kind == b'F'
    then some 4
    else if kind == b'D'
    then some 8
    else none

pub record Block : Type 0 where
  pub kind : ℕ
  pub values : List ℕ

-- The bytes of so many words of one width, and the words of so many bytes.
unfoldable pub pack_words : ℕ → List ℕ → List ℕ
pack_words w [] = []
pack_words w (v ∷ vs) = pack_word w v ++ pack_words w vs

unfoldable pub unpack_words : ℕ → ℕ → List ℕ → List ℕ
unpack_words w zero bytes = []
unpack_words w (suc n) bytes = unpack_word (take w bytes) ∷ unpack_words w n (drop w bytes)

-- The writer of blocks of words, which refuses a word that does not fit. `encode_message` is this writer
-- on the words that `struct` makes.
abbrev pub write_words : Block → ℕ → Result (List ℕ)
write_words b w = do
  guard (leb (length b.values) ((max_message_bytes - count_bytes - 1) / w)) value_error
  guard (all (λ v. ltb v (256 ^ w)) b.values) struct_error
  ok (b.kind ∷ (pack_word count_bytes (length b.values) ++ pack_words w b.values))

unfoldable pub write_block : Block → Result (List ℕ)
write_block b = elim (type_bytes b.kind) [ none ↦ err value_error | some w ↦ write_words b w ]

-- `sum(1 + COUNT_BYTES + len(values) * TYPES[kind]['bytes'] … if kind in TYPES)`
unfoldable pub blocks_size : List Block → ℕ
blocks_size [] = 0
blocks_size (b ∷ bs) = elim (type_bytes b.kind) [
  | none ↦ blocks_size bs
  | some w ↦ (1 + count_bytes + length b.values * w) + blocks_size bs
]

unfoldable pub write_blocks : List Block → Result (List ℕ)
write_blocks [] = ok []
write_blocks (b ∷ bs) = do first ← write_block b; rest ← write_blocks bs; ok (first ++ rest)

unfoldable pub write_frame : List Block → Result (List ℕ)
write_frame blocks = do
  guard (leb 1 (length blocks) && leb (length blocks) max_blocks) value_error
  guard (leb (count_bytes + blocks_size blocks) max_message_bytes) value_error
  body ← write_blocks blocks
  ok (pack_word count_bytes (length blocks) ++ body)

-- The payload of a block whose header is read, and the bytes after it.
abbrev pub read_words : ℕ → ℕ → ℕ → List ℕ → Result (Block × List ℕ)
read_words kind w elements bytes = do
  guard (leb (elements * w) (length bytes)) value_error
  ok (record { kind = kind; values = unpack_words w elements bytes }, drop (elements * w) bytes)

-- One round of the loop of `read_frame`, on the bytes from `offset` on.
unfoldable pub read_block : List ℕ → Result (Block × List ℕ)
read_block [] = err value_error
read_block (kind ∷ bytes) = do
  guard (leb count_bytes (length bytes)) value_error
  elim (type_bytes kind) [
    | none ↦ err value_error
    | some w ↦ read_words kind w (unpack_word (take count_bytes bytes)) (drop count_bytes bytes)
  ]

unfoldable pub read_blocks : ℕ → List ℕ → Result (List Block × List ℕ)
read_blocks zero bytes = ok ([], bytes)
read_blocks (suc n) bytes = do
  (b, rest) ← read_block bytes
  (bs, last) ← read_blocks n rest
  ok (b ∷ bs, last)

abbrev pub no_bytes : List Block × List ℕ → Result (List Block)
no_bytes (bs, []) = ok bs
no_bytes (bs, b ∷ rest) = err value_error

abbrev pub valid_count : ℕ → ℕ → Bool
valid_count most count = leb 1 count && leb count (min most max_blocks)

unfoldable pub read_frame : List ℕ → ℕ → ℕ → Result (List Block)
read_frame bytes most max_bytes = do
  guard (leb count_bytes (length bytes) && leb (length bytes) max_bytes) value_error
  let count = unpack_word (take count_bytes bytes)
  guard (valid_count most count) value_error
  decoded ← read_blocks count (drop count_bytes bytes)
  no_bytes decoded
