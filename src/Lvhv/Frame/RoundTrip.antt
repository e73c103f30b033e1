-- ===== src/Lvhv/Frame/RoundTrip.antt =====
-- `read_frame` reads what `write_frame` writes.
use lvhvbox.Prelude.{
  ℕ, ◌+◌, ◌*◌, ◌≤◌, ◌≡◌, refl, sym, ap, subst, ◌∙◌, ◌&&◌, true, List, [], ◌∷◌, ◌++◌, leb, length,
  take, drop, length-append, Option, none, some, ok, value_error, guard-eq-ok, >>=-eq-ok,
  ok-injective, leb→le, le→leb, arith,
}
use lvhvbox.Lvhv.Words.{pack_word, unpack_word, length-pack_word}
use lvhvbox.Lvhv.Frame.{
  Block, write_block, read_block, write_blocks, read_blocks, write_frame, read_frame, blocks_size,
  valid_count, count_bytes, max_message_bytes, max_blocks,
}
use lvhvbox.Lvhv.Frame.Blocks.{unpack-word, drop-word}
use lvhvbox.Lvhv.Frame.Wire.{encode_block_inv, decode-wire, length-wire_block}

pub read-write_block :
    (b : Block) (bytes rest : List ℕ)
    → write_block b ≡ ok bytes
    → read_block (bytes ++ rest) ≡ ok (b, rest)
read-write_block b bytes rest h =
    let (w, v, e) = encode_block_inv b bytes h in
    subst (λ t. read_block (t ++ rest) ≡ ok (b, rest)) (sym e) (decode-wire b w rest v)

pub read-write_blocks :
    (bs : List Block) (bytes : List ℕ)
    → write_blocks bs ≡ ok bytes
    → read_blocks (length bs) bytes ≡ ok (bs, [])
unfolding write_blocks read_blocks
read-write_blocks [] bytes h = rw (sym (ok-injective h)) refl
read-write_blocks (b ∷ bs) bytes h =
    let (first, one, h1) = >>=-eq-ok (write_block b) _ h in
    let (rest, more, h2) = >>=-eq-ok (write_blocks bs) _ h1 in
    rw (sym (ok-injective h2), read-write_block b first rest one, read-write_blocks bs rest more)
      refl

length-write_block :
    (b : Block) (bytes : List ℕ)
    → write_block b ≡ ok bytes
    → (bs : List Block) → blocks_size (b ∷ bs) ≡ length bytes + blocks_size bs
unfolding blocks_size
length-write_block b bytes h bs =
    let (w, v, e) = encode_block_inv b bytes h in
    ap
      (λ (o : Option ℕ). elim o as (λ _. ℕ) [
        | none ↦ blocks_size bs
        | some w ↦ (1 + 4 + length b.values * w) + blocks_size bs
      ])
      v.known
    ∙ ap (λ (n : ℕ). n + blocks_size bs) (sym (ap length e ∙ length-wire_block b w))

pub length-write_blocks :
    (bs : List Block) (bytes : List ℕ) → write_blocks bs ≡ ok bytes → length bytes ≡ blocks_size bs
unfolding write_blocks blocks_size
length-write_blocks [] bytes h = rw (sym (ok-injective h)) refl
length-write_blocks (b ∷ bs) bytes h =
    let (first, one, h1) = >>=-eq-ok (write_block b) _ h in
    let (rest, more, h2) = >>=-eq-ok (write_blocks bs) _ h1 in
    let size : length bytes ≡ length first + length rest =
      ap length (sym (ok-injective h2)) ∙ length-append first rest in
    let ends : length rest ≡ blocks_size bs = length-write_blocks bs rest more in
    size ∙ ap (λ (n : ℕ). length first + n) ends ∙ sym (length-write_block b first one bs)

read_frame-eq :
    (bytes : List ℕ) (n most max_bytes : ℕ) (bs : List Block)
    → 4 ≤ length bytes
    → length bytes ≤ max_bytes
    → unpack_word (take 4 bytes) ≡ n
    → valid_count most n ≡ true
    → read_blocks n (drop 4 bytes) ≡ ok (bs, [])
    → read_frame bytes most max_bytes ≡ ok bs
unfolding read_frame
read_frame-eq bytes n most max_bytes bs long short count valid decoded =
    rw (count, le→leb 4 (length bytes) long, le→leb (length bytes) max_bytes short, valid, decoded)
      refl

message_lem :
    (blocks : List Block) (body : List ℕ)
    → leb 1 (length blocks) && leb (length blocks) max_blocks ≡ true
    → leb (count_bytes + blocks_size blocks) max_message_bytes ≡ true
    → write_blocks blocks ≡ ok body
    → read_frame (pack_word 4 (length blocks) ++ body) max_blocks max_message_bytes ≡ ok blocks
message_lem blocks body count size enc =
    let few : length blocks ≤ 1024 = ground arith in
    let fits : 4 + blocks_size blocks ≤ 67108864 = leb→le _ _ size in
    let total : length (pack_word 4 (length blocks) ++ body) ≡ 4 + blocks_size blocks = omega (
      arith,
      length-append (pack_word 4 (length blocks)) body,
      length-pack_word 4 (length blocks),
      length-write_blocks blocks body enc,
    ) in
    read_frame-eq _ (length blocks) max_blocks max_message_bytes blocks (omega arith) (omega arith)
      (unpack-word 4 (length blocks) body (omega arith)) count
      (ap (read_blocks (length blocks)) (drop-word 4 (length blocks) body)
        ∙ read-write_blocks blocks body enc)

-- What `write_frame` writes for a sequence of blocks, `read_frame` reads back: the same blocks,
-- with nothing left over.
pub read-write_frame :
    (blocks : List Block) (bytes : List ℕ)
    → write_frame blocks ≡ ok bytes
    → read_frame bytes max_blocks max_message_bytes ≡ ok blocks
unfolding write_frame
read-write_frame blocks bytes h =
    let (count, h1) = guard-eq-ok _ value_error _ h in
    let (size, h2) = guard-eq-ok _ value_error _ h1 in
    let (body, enc, h3) = >>=-eq-ok (write_blocks blocks) _ h2 in
    subst (λ t. read_frame t max_blocks max_message_bytes ≡ ok blocks) (ok-injective h3)
      (message_lem blocks body count size enc)
