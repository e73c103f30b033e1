-- ===== src/Lvhv/Frame/Reencode.antt =====
-- `write_frame` writes what `read_frame` reads.
use lvhvbox.Prelude.{
  ℕ, zero, suc, ◌+◌, ◌*◌, ◌^◌, ◌≤◌, ◌<◌, ◌≡◌, refl, sym, ap, subst, ◌∙◌, ◌&&◌, true, List, [], ◌∷◌,
  ◌++◌, append_assoc, append-nil, leb, length, take, drop, length-append, take-append-drop,
  length-drop, All-drop, All-append-inv, IsBytes, Option, none, some, ok, err, value_error,
  guard-eq-ok, >>=-eq-ok, ok-injective, leb→le, le→leb, arith,
}
use lvhvbox.Lvhv.Words.{pack_word, unpack_word}
use lvhvbox.Lvhv.Frame.{
  Block, type_bytes, unpack_words, read_words, read_block, write_blocks, read_blocks, write_frame,
  read_frame, blocks_size, no_bytes, valid_count, max_message_bytes,
}
use lvhvbox.Lvhv.Frame.Blocks.{pack-take, pack-words, length-unpack_words, unpack_words-Fits}
use lvhvbox.Lvhv.Frame.Wire.{IsBlock, wire_block, write_block-eq}
use lvhvbox.Lvhv.Frame.RoundTrip.{length-write_blocks}

rebuild :
    (kind w : ℕ) (bytes : List ℕ)
    → IsBytes bytes
    → 4 ≤ length bytes
    → (n : ℕ) → n ≡ unpack_word (take 4 bytes)
    → n * w ≤ length (drop 4 bytes)
    → wire_block (record { kind = kind; values = unpack_words w n (drop 4 bytes) }) w
        ++ drop (n * w) (drop 4 bytes)
      ≡ kind ∷ bytes
unfolding wire_block
rebuild kind w bytes b long n count room = ap (◌∷◌ kind) (
    rw
      (
        length-unpack_words w n (drop 4 bytes),
        ap (pack_word 4) count,
        pack-take 4 bytes b long,
        pack-words w n (drop 4 bytes) (All-drop (λ c. c < 2 ^ 8) 4 bytes b) room,
        append_assoc (take 4 bytes) (take (n * w) (drop 4 bytes)) (drop (n * w) (drop 4 bytes)),
        take-append-drop (n * w) (drop 4 bytes),
      )
      (take-append-drop 4 bytes))

decode_known_inv :
    (kind : ℕ) (o : Option ℕ) (bytes : List ℕ) (out : Block × List ℕ)
    → elim o [
      | none ↦ err value_error
      | some w ↦ read_words kind w (unpack_word (take 4 bytes)) (drop 4 bytes)
    ]
      ≡ ok out
    → (w : ℕ) × (o ≡ some w)
      × (read_words kind w (unpack_word (take 4 bytes)) (drop 4 bytes) ≡ ok out)
decode_known_inv kind none bytes out h = cc
decode_known_inv kind (some w) bytes out h = (w, refl, h)

abbrev Rebuilt : List ℕ → Block × List ℕ → Type 0
Rebuilt bytes out = (w : ℕ) × IsBlock out.0 w × (wire_block out.0 w ++ out.1 ≡ bytes)

block_lem :
    (kind w n : ℕ) (bytes : List ℕ)
    → IsBytes bytes
    → length bytes ≤ 67108859
    → 4 ≤ length bytes
    → type_bytes kind ≡ some w
    → n ≡ unpack_word (take 4 bytes)
    → n * w ≤ length (drop 4 bytes)
    → Rebuilt (kind ∷ bytes) (
      record { kind = kind; values = unpack_words w n (drop 4 bytes) },
      drop (n * w) (drop 4 bytes),
    )
block_lem kind w n bytes b small long known count room = (
  w,
  record {
    known = known;
    short =
        subst (λ (k : ℕ). k * w ≤ 67108859) (sym (length-unpack_words w n (drop 4 bytes)))
          (omega (arith, length-drop 4 bytes));
    fits = unpack_words-Fits w n (drop 4 bytes) (All-drop (λ c. c < 2 ^ 8) 4 bytes b) room;
  },
  rebuild kind w bytes b long n count room,
)

-- What `read_block` reads is what `write_block` would write.
read_block-Rebuilt :
    (bytes : List ℕ) (out : Block × List ℕ)
    → IsBytes bytes
    → length bytes ≤ 67108860
    → read_block bytes ≡ ok out
    → Rebuilt bytes out
unfolding read_block
read_block-Rebuilt [] out b small h = cc
read_block-Rebuilt (kind ∷ bytes) out (low, b) small h =
    let (long, h1) = guard-eq-ok (leb 4 (length bytes)) value_error _ h in
    let (w, known, h2) = decode_known_inv kind (type_bytes kind) bytes out h1 in
    let (room, h3) =
      guard-eq-ok (leb (unpack_word (take 4 bytes) * w) (length (drop 4 bytes))) value_error _ h2 in
    subst (Rebuilt (kind ∷ bytes)) (ok-injective h3) (
      block_lem kind w (unpack_word (take 4 bytes)) bytes b (omega arith) (leb→le _ _ long) known
        refl (leb→le _ _ room))

abbrev Reencoded : ℕ → List ℕ → List Block × List ℕ → Type 0
Reencoded n bytes out =
    (body : List ℕ) × (write_blocks out.0 ≡ ok body) × (body ++ out.1 ≡ bytes) × (length out.0 ≡ n)

read_blocks-Reencoded :
    (n : ℕ) (bytes : List ℕ) (out : List Block × List ℕ)
    → IsBytes bytes
    → length bytes ≤ 67108860
    → read_blocks n bytes ≡ ok out
    → Reencoded n bytes out
unfolding read_blocks write_blocks
read_blocks-Reencoded zero bytes out b small h =
    subst (Reencoded 0 bytes) (ok-injective h) ([], refl, refl, refl)
read_blocks-Reencoded (suc n) bytes out b small h =
    let ((first, rest), one, h1) = >>=-eq-ok (read_block bytes) _ h in
    let ((more, last), loop, h2) = >>=-eq-ok (read_blocks n rest) _ h1 in
    let (w, v, e) = read_block-Rebuilt bytes (first, rest) b small one in
    let tail_bytes =
      (All-append-inv (λ c. c < 2 ^ 8) (wire_block first w) rest (subst IsBytes (sym e) b)).1 in
    let short : length rest ≤ 67108860 =
      omega (arith, ap length e, length-append (wire_block first w) rest) in
    let (body, enc, joined, count) =
      read_blocks-Reencoded n rest (more, last) tail_bytes short loop in
    subst (Reencoded (suc n) bytes) (ok-injective h2) (
      wire_block first w ++ body,
      rw (write_block-eq first w v, enc) refl,
      append_assoc (wire_block first w) body last ∙ ap (◌++◌ (wire_block first w)) joined ∙ e,
      ap suc count,
    )

no_bytes-eq-ok :
    (out : List Block × List ℕ) (bs : List Block) → no_bytes out ≡ ok bs → out ≡ (bs, [])
no_bytes-eq-ok (cs, []) bs h = ap (λ c. (c, [])) (ok-injective h)
no_bytes-eq-ok (cs, b ∷ rest) bs h = cc

bounds_lem :
    (bytes : List ℕ) (max_bytes : ℕ)
    → leb 4 (length bytes) && leb (length bytes) max_bytes ≡ true
    → (4 ≤ length bytes) × (length bytes ≤ max_bytes)
bounds_lem bytes max_bytes h = (ground arith, ground arith)

count_lem : (most n : ℕ) → valid_count most n ≡ true → (1 ≤ n) × (n ≤ 1024)
count_lem most n h = (ground arith, ground arith)

reencode_lem :
    (n : ℕ) (bytes : List ℕ) (blocks : List Block)
    → IsBytes bytes
    → 4 ≤ length bytes
    → length bytes ≤ 67108864
    → unpack_word (take 4 bytes) ≡ n
    → 1 ≤ n
    → n ≤ 1024
    → read_blocks n (drop 4 bytes) ≡ ok (blocks, [])
    → write_frame blocks ≡ ok bytes
unfolding write_frame
reencode_lem n bytes blocks b long short count some_block few h =
    let (body, enc, joined, size) =
      read_blocks-Reencoded n (drop 4 bytes) (blocks, []) (All-drop (λ c. c < 2 ^ 8) 4 bytes b)
        (omega (arith, length-drop 4 bytes)) h in
    let whole : body ≡ drop 4 bytes = sym (append-nil body) ∙ joined in
    let total : 4 + blocks_size blocks ≤ 67108864 =
      omega (arith, length-write_blocks blocks body enc, ap length whole, length-drop 4 bytes) in
    let low : leb 1 (length blocks) ≡ true = le→leb 1 (length blocks) (omega arith) in
    let high : leb (length blocks) 1024 ≡ true = le→leb (length blocks) 1024 (omega arith) in
    let head : pack_word 4 (length blocks) ≡ take 4 bytes =
      ap (pack_word 4) (size ∙ sym count) ∙ pack-take 4 bytes b long in
    rw (low, high, le→leb _ _ total, enc)
      (ap ok (ap (λ t. t ++ body) head ∙ ap (◌++◌ (take 4 bytes)) whole ∙ take-append-drop 4 bytes))

-- Bytes that `read_frame` accepts, under any limits up to the protocol's own, are the very bytes
-- that `write_frame` writes for the blocks it returns: no message has a second spelling, and
-- whatever a peer is understood to have said could be sent back to it.
pub write-read_frame :
    (bytes : List ℕ) (most max_bytes : ℕ) (blocks : List Block)
    → IsBytes bytes
    → max_bytes ≤ max_message_bytes
    → read_frame bytes most max_bytes ≡ ok blocks
    → write_frame blocks ≡ ok bytes
unfolding read_frame
write-read_frame bytes most max_bytes blocks b limit h =
    let (size, h1) = guard-eq-ok _ value_error _ h in
    let (count, h2) =
      guard-eq-ok (valid_count most (unpack_word (take 4 bytes))) value_error _ h1 in
    let (out, loop, h3) =
      >>=-eq-ok (read_blocks (unpack_word (take 4 bytes)) (drop 4 bytes)) _ h2 in
    let (long, short) = bounds_lem bytes max_bytes size in
    let (one, few) = count_lem most (unpack_word (take 4 bytes)) count in
    reencode_lem (unpack_word (take 4 bytes)) bytes blocks b long (omega arith) refl one few
      (loop ∙ ap ok (no_bytes-eq-ok out blocks h3))
