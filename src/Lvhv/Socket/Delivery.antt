-- ===== src/Lvhv/Socket/Delivery.antt =====
-- `recv_message` on a socket whose peer sends a whole message in time.
use lvhvbox.Prelude.{
  ℕ, suc, ◌+◌, ◌-◌, ◌*◌, ◌≤◌, ◌≡◌, refl, sym, ap, subst, ◌∙◌, true, ◌&&◌, List, [], ◌∷◌, ◌++◌, map,
  append_assoc, append-nil, leb, length, take, drop, min, length-append, All, IsBytes, Option, none,
  some, Result, ok, err, value_error, guard-eq-ok, >>=-eq-ok, ok-injective, le→leb, arith,
}
use lvhvbox.Lvhv.Words.{pack_word, unpack_word, length-pack_word, unpack-pack}
use lvhvbox.Lvhv.Frame.{
  Block, type_bytes, pack_words, write_block, write_blocks, write_frame, read_frame,
  max_message_bytes, valid_count,
}
use lvhvbox.Lvhv.Frame.Blocks.{length-pack_words, unpack-word}
use lvhvbox.Lvhv.Frame.Wire.{IsBlock, wire_block, encode_block_inv, length-wire_block, count_small}
use lvhvbox.Lvhv.Frame.Reencode.{write-read_frame}
use lvhvbox.Lvhv.Message.{Struct, unpacked, decode_message}
use lvhvbox.Lvhv.Message.Reencode.{length-map_values}
use lvhvbox.Lvhv.Socket.{
  Socket, recv_exact, Limits, few_elements, first_byte, recv_payload, recv_block, recv_blocks,
  recv_message,
}
use lvhvbox.Lvhv.Socket.Arrivals.{Prompt, Delivers, recv_exact-Delivers}

header_of : Block → List ℕ
header_of b = b.kind ∷ pack_word 4 (length b.values)

payload_step :
    (deadline budget : ℕ) (most : Option ℕ) (header payload : List ℕ) (w n : ℕ) (s after : Socket)
    → unpack_word (take 4 (drop 1 header)) ≡ n
    → few_elements most n ≡ true
    → n * w ≤ budget - length header
    → recv_exact (n * w) deadline s ≡ ok (payload, after)
    → recv_payload deadline budget most header w s ≡ ok (header ++ payload, after)
payload_step deadline budget most header payload w n s after count few room got =
    rw (count, few, le→leb _ _ room, got) refl

block_step :
    (deadline budget : ℕ) (most : Option ℕ) (s mid : Socket) (header : List ℕ) (w : ℕ)
    (out : List ℕ × Socket)
    → 5 ≤ budget
    → recv_exact 5 deadline s ≡ ok (header, mid)
    → type_bytes (first_byte header) ≡ some w
    → recv_payload deadline budget most header w mid ≡ ok out
    → recv_block deadline budget most s ≡ ok out
unfolding recv_block
block_step deadline budget most s mid header w out room got known h =
    rw (le→leb 5 budget room, got)
      (ap
          (λ (o : Option ℕ). elim o as (λ _. Result (List ℕ × Socket)) [
            | none ↦ err value_error
            | some w ↦ recv_payload deadline budget most header w mid
          ])
          known
        ∙ h)

recv_block-Delivers :
    (deadline budget k : ℕ) (most : Option ℕ) (s : Socket) (b : Block) (w : ℕ) (rest : List ℕ)
    → IsBlock b w
    → length (wire_block b w) ≤ budget
    → few_elements most (length b.values) ≡ true
    → s.incoming ≡ wire_block b w ++ rest
    → Prompt deadline (length (wire_block b w) + k) s
    → Delivers deadline k rest (wire_block b w) (recv_block deadline budget most s)
unfolding wire_block
recv_block-Delivers deadline budget k most s b w rest v room few e (arrive, full, early) =
    let n = length b.values in
    let size : length (wire_block b w) ≡ 5 + n * w = omega (arith, length-wire_block b w) in
    let count : unpack_word (take 4 (pack_word 4 n)) ≡ n =
      subst (λ t. unpack_word (take 4 t) ≡ n) (append-nil (pack_word 4 n))
        (unpack-word 4 n [] (count_small b.kind w n v.known v.short)) in
    let head : length (header_of b) ≡ 5 = unfold header_of in omega (arith, length-pack_word 4 n) in
    let body : length (pack_words w b.values) ≡ n * w = length-pack_words w b.values in
    let (mid, got, e1, prompt) =
      recv_exact-Delivers deadline (n * w + k) s (header_of b) (pack_words w b.values ++ rest) 5
        head
        (e
          ∙ (unfold header_of in
              ap (◌∷◌ b.kind) (append_assoc (pack_word 4 n) (pack_words w b.values) rest)))
        (omega arith, full, early) in
    let (after, got1, e2, prompt1) =
      recv_exact-Delivers deadline k mid (pack_words w b.values) rest (n * w) body e1 prompt in
    (
      after,
      block_step deadline budget most s mid (header_of b) w (wire_block b w, after) (omega arith)
          got (unfold header_of in v.known)
          (unfold header_of in
            payload_step deadline budget most (header_of b) (pack_words w b.values) w n mid after
              count few (omega arith) got1),
      e2,
      prompt1,
    )

-- No block has more elements than the limit.
abbrev pub AllFew : Option ℕ → List Block → Type 0
AllFew most = All (λ b. few_elements most (length b.values) ≡ true)

recv_blocks_step :
    (n deadline budget : ℕ) (most : Option ℕ) (s mid after : Socket) (first rest bytes : List ℕ)
    → first ++ rest ≡ bytes
    → recv_block deadline budget most s ≡ ok (first, mid)
    → recv_blocks n deadline (budget - length first) most mid ≡ ok (rest, after)
    → recv_blocks (suc n) deadline budget most s ≡ ok (bytes, after)
unfolding recv_blocks
recv_blocks_step n deadline budget most s mid after first rest bytes joined one more =
    rw (one, more) (ap (λ t. ok (t, after)) joined)

recv_blocks-Delivers :
    (deadline k : ℕ) (most : Option ℕ) (bs : List Block) (budget : ℕ) (s : Socket)
    (bytes rest : List ℕ)
    → write_blocks bs ≡ ok bytes
    → length bytes ≤ budget
    → AllFew most bs
    → s.incoming ≡ bytes ++ rest
    → Prompt deadline (length bytes + k) s
    → Delivers deadline k rest bytes (recv_blocks (length bs) deadline budget most s)
unfolding recv_blocks write_blocks
recv_blocks-Delivers deadline k most [] budget s bytes rest enc room few e (arrive, full, early) =
    let nothing : [] ≡ bytes = ok-injective enc in
    (
      s,
      ap (λ t. ok (t, s)) nothing,
      e ∙ ap (λ t. t ++ rest) (sym nothing),
      (omega arith, full, early),
    )
recv_blocks-Delivers deadline k most (b ∷ bs) budget s bytes rest enc room (few, fews) e
      (arrive, full, early) =
    let (first, one, h1) = >>=-eq-ok (write_block b) _ enc in
    let (more, loop, h2) = >>=-eq-ok (write_blocks bs) _ h1 in
    let (w, v, wire) = encode_block_inv b first one in
    let joined : first ++ more ≡ bytes = ok-injective h2 in
    let size : length bytes ≡ length (wire_block b w) + length more =
      ap length (sym joined) ∙ length-append first more ∙ ap (λ t. length t + length more) wire in
    let (mid, got, e1, prompt) =
      recv_block-Delivers deadline budget (length more + k) most s b w (more ++ rest) v
        (omega arith) few
        (e
          ∙ ap (λ t. t ++ rest) (sym joined ∙ ap (λ t. t ++ more) wire)
          ∙ append_assoc (wire_block b w) more rest)
        (omega arith, full, early) in
    let (after, got1, e2, prompt1) =
      recv_blocks-Delivers deadline k most bs (budget - length (wire_block b w)) mid more rest loop
        (omega arith) fews e1 prompt in
    (
      after,
      recv_blocks_step (length bs) deadline budget most s mid after (wire_block b w) more bytes
          (ap (λ t. t ++ more) (sym wire) ∙ joined) got got1,
      e2,
      prompt1,
    )

message_step :
    (st : Struct) (limits : Limits) (deadline n : ℕ) (s mid after : Socket) (prefix body : List ℕ)
    (blocks : List Block)
    → recv_exact 4 deadline s ≡ ok (prefix, mid)
    → unpack_word prefix ≡ n
    → valid_count limits.most_blocks n ≡ true
    → recv_blocks n deadline (min limits.most_bytes max_message_bytes - 4) limits.most_elements mid
      ≡ ok (body, after)
    → decode_message st (prefix ++ body) limits.most_blocks limits.most_bytes ≡ ok blocks
    → recv_message st limits deadline s ≡ ok (blocks, after)
unfolding recv_message
message_step st limits deadline n s mid after prefix body blocks got count valid more decoded =
    rw (got, count, valid, more, decoded) refl

-- What `read_frame` accepts: its count, its blocks and its size.
accepted_lem :
    (limits : Limits) (frame : List ℕ) (blocks : List Block)
    → read_frame frame limits.most_blocks limits.most_bytes ≡ ok blocks
    → (length frame ≤ limits.most_bytes)
      × (valid_count limits.most_blocks (unpack_word (take 4 frame)) ≡ true)
unfolding read_frame
accepted_lem limits frame blocks h =
    let (size, h1) = guard-eq-ok _ value_error _ h in
    let (valid, _) =
      guard-eq-ok (valid_count limits.most_blocks (unpack_word (take 4 frame))) value_error _ h1 in
    (short_lem (length frame) limits.most_bytes size, valid)
  where
    short_lem : (n most : ℕ) → leb 4 n && leb n most ≡ true → n ≤ most
    short_lem n most e = ground arith

encoded_lem :
    (blocks : List Block) (frame : List ℕ)
    → write_frame blocks ≡ ok frame
    → (body : List ℕ) × (write_blocks blocks ≡ ok body)
      × (pack_word 4 (length blocks) ++ body ≡ frame)
      × (length blocks ≤ 1024)
unfolding write_frame
encoded_lem blocks frame h =
    let (count, h1) = guard-eq-ok _ value_error _ h in
    let (_, h2) = guard-eq-ok _ value_error _ h1 in
    let (body, enc, h3) = >>=-eq-ok (write_blocks blocks) _ h2 in
    (body, enc, ok-injective h3, few_lem (length blocks) count)
  where
    few_lem : (n : ℕ) → leb 1 n && leb n 1024 ≡ true → n ≤ 1024
    few_lem n e = ground arith

AllFew-unpacked :
    (st : Struct) (most : Option ℕ) (raws : List Block)
    → AllFew most (map (unpacked st) raws)
    → AllFew most raws
AllFew-unpacked st most [] h = tt
AllFew-unpacked st most (b ∷ bs) (few, h) = (
  subst (λ (n : ℕ). few_elements most n ≡ true) (length-map_values (st.unpack b.kind) b.values) few,
  AllFew-unpacked st most bs h,
)

-- A message that `decode_message` accepts under the limits is received whole, if its blocks keep the
-- limit on elements and the peer keeps sending: as many arrivals are to come as the message has bytes,
-- each brings at least one byte, and all come before the deadline. `recv_message` then returns the
-- message's blocks and leaves the bytes after it, however the arrivals cut the bytes up.
pub recv_message-delivered :
    (st : Struct) (limits : Limits) (deadline : ℕ) (s : Socket) (frame rest : List ℕ)
    (blocks : List Block)
    → IsBytes frame
    → limits.most_bytes ≤ max_message_bytes
    → decode_message st frame limits.most_blocks limits.most_bytes ≡ ok blocks
    → AllFew limits.most_elements blocks
    → s.incoming ≡ frame ++ rest
    → Prompt deadline (length frame) s
    → (after : Socket) × (recv_message st limits deadline s ≡ ok (blocks, after))
      × (after.incoming ≡ rest)
unfolding decode_message
recv_message-delivered st limits deadline s frame rest blocks b limit h few e
      (arrive, full, early) =
    let (raws, reading, h1) =
      >>=-eq-ok (read_frame frame limits.most_blocks limits.most_bytes) _ h in
    let raw_few : AllFew limits.most_elements raws =
      AllFew-unpacked st limits.most_elements raws
        (subst (AllFew limits.most_elements) (sym (ok-injective h1)) few) in
    let (short, valid) = accepted_lem limits frame raws reading in
    let (body, enc, joined, count) =
      encoded_lem raws frame
        (write-read_frame frame limits.most_blocks limits.most_bytes raws b limit reading) in
    let n = length raws in
    let prefix : length (pack_word 4 n) ≡ 4 = length-pack_word 4 n in
    let size : length frame ≡ 4 + length body =
      ap length (sym joined)
      ∙ length-append (pack_word 4 n) body
      ∙ ap (λ (m : ℕ). m + length body) prefix in
    let reads : unpack_word (take 4 frame) ≡ n =
      ap (λ t. unpack_word (take 4 t)) (sym joined) ∙ unpack-word 4 n body (omega arith) in
    let (mid, got, e1, prompt) =
      recv_exact-Delivers deadline (length body + 0) s (pack_word 4 n) (body ++ rest) 4 prefix
        (e ∙ ap (λ t. t ++ rest) (sym joined) ∙ append_assoc (pack_word 4 n) body rest)
        (omega arith, full, early) in
    let (after, more, e2, _) =
      recv_blocks-Delivers deadline 0 limits.most_elements raws
        (min limits.most_bytes max_message_bytes - 4) mid body rest enc (omega arith) raw_few e1
        prompt in
    (
      after,
      message_step st limits deadline n s mid after (pack_word 4 n) body blocks got
          (unpack-pack 4 n (omega arith))
          (subst (λ m. valid_count limits.most_blocks m ≡ true) reads valid) more
          (subst (λ t. decode_message st t limits.most_blocks limits.most_bytes ≡ ok blocks)
            (sym joined) h),
      e2,
    )
