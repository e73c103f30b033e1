-- ===== src/Lvhv/Message/Reencode.antt =====
-- `encode_message` writes what `decode_message` reads.
use lvhvbox.Prelude.{
  ℕ, ◌+◌, ◌*◌, ◌≤◌, ◌≡◌, refl, sym, ap, ◌∙◌, ◌&&◌, List, [], ◌∷◌, ◌++◌, map, leb, le→leb, length,
  All, IsBytes, Option, none, some, Result, ok, err, value_error, guard-eq-ok, >>=-eq-ok, arith,
}
use lvhvbox.Lvhv.Words.{pack_word}
use lvhvbox.Lvhv.Frame.{
  Block, type_bytes, count_bytes, max_blocks, max_message_bytes, blocks_size, write_block,
  write_blocks, write_frame, read_frame,
}
use lvhvbox.Lvhv.Frame.Wire.{wire_block, encode_block_inv, count_bound}
use lvhvbox.Lvhv.Frame.Reencode.{write-read_frame}
use lvhvbox.Lvhv.Message.{
  Struct, pack_values, encode_values, encode_block, encode_blocks, encode_message, unpacked,
  decode_message,
}

-- `struct` packs what it unpacked from these words to the same words again. It does so but for the
-- NaNs that it changes.
abbrev pub Repacks : Struct → List Block → Type 0
Repacks st = All (λ b. All (λ word. st.pack b.kind (st.unpack b.kind word) ≡ ok word) b.values)

pub length-map_values : (f : ℕ → ℕ) (vs : List ℕ) → length (map f vs) ≡ length vs
length-map_values f [] = refl
length-map_values f (v ∷ vs) = omega (arith, length-map_values f vs)

pub length-map_blocks : (f : Block → Block) (bs : List Block) → length (map f bs) ≡ length bs
length-map_blocks f [] = refl
length-map_blocks f (b ∷ bs) = omega (arith, length-map_blocks f bs)

pack-unpacked :
    (st : Struct) (kind : ℕ) (words : List ℕ)
    → All (λ word. st.pack kind (st.unpack kind word) ≡ ok word) words
    → pack_values st kind (map (st.unpack kind) words) ≡ ok words
unfolding pack_values
pack-unpacked st kind [] h = refl
pack-unpacked st kind (word ∷ words) (one, rest) = rw (one, pack-unpacked st kind words rest) refl

encode-unpacked :
    (st : Struct) (b : Block) (bytes : List ℕ)
    → All (λ word. st.pack b.kind (st.unpack b.kind word) ≡ ok word) b.values
    → write_block b ≡ ok bytes
    → encode_block st (unpacked st b) ≡ ok bytes
unfolding encode_block wire_block
encode-unpacked st b bytes repacks h =
    let (w, v, e) = encode_block_inv b bytes h in
    let same = length-map_values (st.unpack b.kind) b.values in
    ap
      (λ (o : Option ℕ). elim o as (λ _. Result (List ℕ)) [
        | none ↦ err value_error
        | some w ↦ encode_values st (unpacked st b) w
      ])
      v.known
    ∙ rw
        (
          same,
          count_bound b.kind w (length b.values) v.known,
          le→leb _ _ v.short,
          pack-unpacked st b.kind b.values repacks,
        )
        (ap ok (sym e))

encode_blocks-unpacked :
    (st : Struct) (raws : List Block) (body : List ℕ)
    → Repacks st raws
    → write_blocks raws ≡ ok body
    → encode_blocks st (map (unpacked st) raws) ≡ ok body
unfolding encode_blocks write_blocks
encode_blocks-unpacked st [] body r h = h
encode_blocks-unpacked st (b ∷ bs) body (one, r) h =
    let (first, w1, h1) = >>=-eq-ok (write_block b) _ h in
    let (rest, w2, h2) = >>=-eq-ok (write_blocks bs) _ h1 in
    rw (encode-unpacked st b first one w1, encode_blocks-unpacked st bs rest r w2) h2

blocks_size-unpacked :
    (st : Struct) (raws : List Block) → blocks_size (map (unpacked st) raws) ≡ blocks_size raws
unfolding blocks_size
blocks_size-unpacked st [] = refl
blocks_size-unpacked st (b ∷ bs) =
    ap
      (λ (n : ℕ). elim (type_bytes b.kind) as (λ _. ℕ) [
        | none ↦ blocks_size (map (unpacked st) bs)
        | some w ↦ (1 + 4 + n * w) + blocks_size (map (unpacked st) bs)
      ])
      (length-map_values (st.unpack b.kind) b.values)
    ∙ ap
        (λ (s : ℕ). elim (type_bytes b.kind) as (λ _. ℕ) [
          | none ↦ s
          | some w ↦ (1 + 4 + length b.values * w) + s
        ])
        (blocks_size-unpacked st bs)

-- Bytes that `decode_message` accepts, under any limits up to the protocol's own, are the very bytes
-- that `encode_message` writes for the blocks it returns, where `struct` packs each value to the word
-- it was unpacked from.
pub encode-decode_message :
    (st : Struct) (bytes : List ℕ) (most max_bytes : ℕ) (raws : List Block)
    → IsBytes bytes
    → max_bytes ≤ max_message_bytes
    → read_frame bytes most max_bytes ≡ ok raws
    → Repacks st raws
    → (blocks : List Block) × (decode_message st bytes most max_bytes ≡ ok blocks)
      × (encode_message st blocks ≡ ok bytes)
unfolding encode_message decode_message write_frame
encode-decode_message st bytes most max_bytes raws b limit h repacks =
    let (count, h1) =
      guard-eq-ok (leb 1 (length raws) && leb (length raws) max_blocks) value_error _
        (write-read_frame bytes most max_bytes raws b limit h) in
    let (size, h2) =
      guard-eq-ok (leb (count_bytes + blocks_size raws) max_message_bytes) value_error _ h1 in
    let (body, enc, h3) =
      >>=-eq-ok (write_blocks raws) (λ x. ok (pack_word count_bytes (length raws) ++ x)) h2 in
    (
      map (unpacked st) raws,
      rw h refl,
      rw
          (
            length-map_blocks (unpacked st) raws,
            blocks_size-unpacked st raws,
            count,
            size,
            encode_blocks-unpacked st raws body repacks enc,
          )
          h3,
    )
