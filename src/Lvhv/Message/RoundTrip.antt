-- ===== src/Lvhv/Message/RoundTrip.antt =====
-- `decode_message` reads what `encode_message` writes.
use lvhvbox.Prelude.{
  ℕ, ◌+◌, ◌*◌, ◌≤◌, ◌≡◌, refl, sym, ap, subst, ◌∙◌, ◌&&◌, true, List, [], ◌∷◌, ◌++◌, map, leb,
  length, All, Option, none, some, Result, ok, err, value_error, guard-eq-ok, >>=-eq-ok,
  ok-injective, leb→le, arith,
}
use lvhvbox.Lvhv.Words.{pack_word}
use lvhvbox.Lvhv.Frame.{
  Block, type_bytes, count_bytes, max_blocks, max_message_bytes, pack_words, blocks_size,
  write_block, write_blocks, write_frame,
}
use lvhvbox.Lvhv.Frame.Blocks.{Fits}
use lvhvbox.Lvhv.Frame.Wire.{IsBlock, wire_block, write_block-eq, count_bound}
use lvhvbox.Lvhv.Frame.RoundTrip.{read-write_frame}
use lvhvbox.Lvhv.Message.{
  Struct, pack_values, encode_values, encode_block, encode_blocks, encode_message, unpacked,
  decode_message,
}

-- A value after `struct` has packed and unpacked it: a float comes back in its format's precision.
abbrev pub carry : Struct → ℕ → ℕ → ℕ
carry st kind v = elim (st.pack kind v) [ err e ↦ v | ok word ↦ st.unpack kind word ]

abbrev pub carried : Struct → Block → Block
carried st b = record { kind = b.kind; values = map (carry st b.kind) b.values }

carry-pack :
    (st : Struct) (kind v word : ℕ)
    → st.pack kind v ≡ ok word
    → carry st kind v ≡ st.unpack kind word
carry-pack st kind v word e =
    ap (λ (r : Result ℕ). elim r as (λ _. ℕ) [ err e ↦ v | ok word ↦ st.unpack kind word ]) e

-- The words of values that were packed.
record Packed (st : Struct) (kind w : ℕ) (vs words : List ℕ) : Type 0 where
  same_length : length words ≡ length vs
  carries : map (st.unpack kind) words ≡ map (carry st kind) vs
  fits : All (Fits w) words

pack_values-Packed :
    (st : Struct) (kind w : ℕ) (vs words : List ℕ)
    → type_bytes kind ≡ some w
    → pack_values st kind vs ≡ ok words
    → Packed st kind w vs words
unfolding pack_values
pack_values-Packed st kind w [] words known h =
    subst (Packed st kind w []) (ok-injective h)
      (record { same_length = refl; carries = refl; fits = tt })
pack_values-Packed st kind w (v ∷ vs) words known h =
    let (word, one, h1) = >>=-eq-ok (st.pack kind v) _ h in
    let (more, rest, h2) = >>=-eq-ok (pack_values st kind vs) _ h1 in
    let p = pack_values-Packed st kind w vs more known rest in
    subst (Packed st kind w (v ∷ vs)) (ok-injective h2) (record {
      same_length = omega (arith, p.same_length);
      carries =
          ap (λ (x : ℕ). x ∷ map (st.unpack kind) more) (sym (carry-pack st kind v word one))
          ∙ ap (λ (xs : List ℕ). carry st kind v ∷ xs) p.carries;
      fits = (st.pack_fits kind w v word known one, p.fits);
    })

with_values : Block → List ℕ → Block
with_values b words = record { kind = b.kind; values = words }

encode_known :
    (st : Struct) (b : Block) (o : Option ℕ) (bytes : List ℕ)
    → elim o [ none ↦ err value_error | some w ↦ encode_values st b w ] ≡ ok bytes
    → (w : ℕ) × (o ≡ some w) × (encode_values st b w ≡ ok bytes)
encode_known st b none bytes h = cc
encode_known st b (some w) bytes h = (w, refl, h)

-- A block that is encoded is the writing of its words.
encode_block-write :
    (st : Struct) (b : Block) (bytes : List ℕ)
    → encode_block st b ≡ ok bytes
    → (words : List ℕ) × (write_block (with_values b words) ≡ ok bytes)
      × (length words ≡ length b.values)
      × (unpacked st (with_values b words) ≡ carried st b)
unfolding encode_block with_values wire_block
encode_block-write st b bytes h =
    let (w, known, enc) = encode_known st b (type_bytes b.kind) bytes h in
    let (count, h1) = guard-eq-ok _ value_error _ enc in
    let (words, packed, h2) = >>=-eq-ok (pack_values st b.kind b.values) _ h1 in
    let p = pack_values-Packed st b.kind w b.values words known packed in
    let short : length b.values * w ≤ 67108859 =
      leb→le _ _ (sym (count_bound b.kind w (length b.values) known) ∙ count) in
    let raw : Block = record { kind = b.kind; values = words } in
    let v : IsBlock raw w = record {
      known = known;
      short = subst (λ (n : ℕ). n * w ≤ 67108859) (sym p.same_length) short;
      fits = p.fits;
    } in
    (
      words,
      write_block-eq raw w v
          ∙ ap (λ (n : ℕ). ok (b.kind ∷ (pack_word 4 n ++ pack_words w words))) p.same_length
          ∙ h2,
      p.same_length,
      ap (λ (vs : List ℕ). record { kind = b.kind; values = vs }) p.carries,
    )

blocks_size-same :
    (b : Block) (words : List ℕ) (raws bs : List Block)
    → length words ≡ length b.values
    → blocks_size raws ≡ blocks_size bs
    → blocks_size (with_values b words ∷ raws) ≡ blocks_size (b ∷ bs)
unfolding blocks_size with_values
blocks_size-same b words raws bs same rest =
    ap
      (λ (n : ℕ). elim (type_bytes b.kind) as (λ _. ℕ) [
        | none ↦ blocks_size raws
        | some w ↦ (1 + 4 + n * w) + blocks_size raws
      ])
      same
    ∙ ap
        (λ (s : ℕ). elim (type_bytes b.kind) as (λ _. ℕ) [
          | none ↦ s
          | some w ↦ (1 + 4 + length b.values * w) + s
        ])
        rest

-- The blocks of words behind blocks of values.
record Written (st : Struct) (blocks : List Block) (body : List ℕ) : Type 0 where
  raws : List Block
  written : write_blocks raws ≡ ok body
  same_length : length raws ≡ length blocks
  same_size : blocks_size raws ≡ blocks_size blocks
  values : map (unpacked st) raws ≡ map (carried st) blocks

encode_blocks-Written :
    (st : Struct) (blocks : List Block) (body : List ℕ)
    → encode_blocks st blocks ≡ ok body
    → Written st blocks body
unfolding encode_blocks write_blocks
encode_blocks-Written st [] body h = record {
  raws = [];
  written = h;
  same_length = refl;
  same_size = refl;
  values = refl;
}
encode_blocks-Written st (b ∷ bs) body h =
    let (first, one, h1) = >>=-eq-ok (encode_block st b) _ h in
    let (rest, more, h2) = >>=-eq-ok (encode_blocks st bs) _ h1 in
    let (words, w1, same, values) = encode_block-write st b first one in
    let tail = encode_blocks-Written st bs rest more in
    record {
      raws = with_values b words ∷ tail.raws;
      written = rw (w1, tail.written) h2;
      same_length = omega (arith, tail.same_length);
      same_size = blocks_size-same b words tail.raws bs same tail.same_size;
      values =
          ap (λ (x : Block). x ∷ map (unpacked st) tail.raws) values
          ∙ ap (λ (xs : List Block). carried st b ∷ xs) tail.values;
    }

write_frame-eq :
    (raws : List Block) (body : List ℕ)
    → leb 1 (length raws) && leb (length raws) max_blocks ≡ true
    → leb (count_bytes + blocks_size raws) max_message_bytes ≡ true
    → write_blocks raws ≡ ok body
    → write_frame raws ≡ ok (pack_word count_bytes (length raws) ++ body)
unfolding write_frame
write_frame-eq raws body count size written = rw (count, size, written) refl

-- A message that is encoded is the writing of blocks of words.
encode_message-written :
    (st : Struct) (blocks : List Block) (bytes : List ℕ)
    → encode_message st blocks ≡ ok bytes
    → (raws : List Block) × (write_frame raws ≡ ok bytes)
      × (map (unpacked st) raws ≡ map (carried st) blocks)
unfolding encode_message
encode_message-written st blocks bytes h =
    let (count, h1) =
      guard-eq-ok (leb 1 (length blocks) && leb (length blocks) max_blocks) value_error _ h in
    let (size, h2) =
      guard-eq-ok (leb (count_bytes + blocks_size blocks) max_message_bytes) value_error _ h1 in
    let (body, enc, h3) =
      >>=-eq-ok (encode_blocks st blocks) (λ x. ok (pack_word count_bytes (length blocks) ++ x))
        h2 in
    let r = encode_blocks-Written st blocks body enc in
    (
      r.raws,
      write_frame-eq r.raws body (ap (λ (n : ℕ). leb 1 n && leb n max_blocks) r.same_length ∙ count)
            (ap (λ (n : ℕ). leb (count_bytes + n) max_message_bytes) r.same_size ∙ size) r.written
          ∙ ap (λ (n : ℕ). ok (pack_word count_bytes n ++ body)) r.same_length
          ∙ h3,
      r.values,
    )

-- What `encode_message` writes for a sequence of blocks, `decode_message` reads back: the same kinds,
-- in the same order, each value as `struct` unpacks what it packed for it, with nothing left over.
pub decode-encode_message :
    (st : Struct) (blocks : List Block) (bytes : List ℕ)
    → encode_message st blocks ≡ ok bytes
    → decode_message st bytes max_blocks max_message_bytes ≡ ok (map (carried st) blocks)
unfolding decode_message
decode-encode_message st blocks bytes h =
    let (raws, frame, values) = encode_message-written st blocks bytes h in
    rw (read-write_frame raws bytes frame) (ap ok values)
