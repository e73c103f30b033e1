-- ===== src/Lvhv/Examples.antt =====
-- Tests and witnesses for the messages of the supply server.
use lvhvbox.Prelude.{
  ℕ, ◌≡◌, refl, List, [], ◌∷◌, ◌++◌, map, none, some, Result, ok, err, ◌≤◌, ◌<◌, ◌^◌, ltb, guard,
  ◌>>◌, struct_error, Option, sym, ap, subst, ◌∙◌, guard-eq-ok, ok-injective, ltb→lt, arith,
}
use lvhvbox.Lvhv.Words.{pack_word, unpack_word}
use lvhvbox.Lvhv.Frame.{
  Block, type_bytes, pack_words, unpack_words, blocks_size, read_block, read_blocks, read_frame,
  max_blocks, max_message_bytes,
}
use lvhvbox.Lvhv.Message.{
  Struct, pack_values, encode_block, encode_blocks, encode_message, decode_message,
}
use lvhvbox.Lvhv.Message.RoundTrip.{carried, decode-encode_message}
use lvhvbox.Lvhv.Message.Reencode.{Repacks, encode-decode_message}
use lvhvbox.Lvhv.Socket.{
  Arrival, Socket, Limits, recv_loop, recv_exact, recv_block, recv_blocks, recv_message, magic,
}
use lvhvbox.Lvhv.Socket.Framing.{recv_message-decode_message}
use lvhvbox.Lvhv.Socket.Delivery.{recv_message-delivered}

abbrev success : List Block
success = record { kind = b'C'; values = magic } ∷ record { kind = b'I'; values = 0 ∷ [] } ∷ []

abbrev success_bytes : List ℕ
success_bytes =
    2 ∷ 0 ∷ 0 ∷ 0 ∷ 67 ∷ 4 ∷ 0 ∷ 0 ∷ 0 ∷ 76 ∷ 86 ∷ 72 ∷ 86 ∷ 73 ∷ 1 ∷ 0 ∷ 0 ∷ 0 ∷ 0 ∷ 0 ∷ 0 ∷ 0 ∷ []

-- Conversions for messages whose values are bytes and numbers that are their own words.
abbrev plain_word : ℕ → Option ℕ → Result ℕ
plain_word v none = err struct_error
plain_word v (some w) = do guard (ltb v (256 ^ w)) struct_error; ok v

unfoldable pub plain_pack : ℕ → ℕ → Result ℕ
plain_pack kind v = plain_word v (type_bytes kind)

pub plain_pack-fits :
    (kind w value word : ℕ)
    → type_bytes kind ≡ some w
    → plain_pack kind value ≡ ok word
    → word < 256 ^ w
unfolding plain_pack
plain_pack-fits kind w value word known h =
    let (fits, same) =
      guard-eq-ok (ltb value (256 ^ w)) struct_error (ok value)
        (sym (ap (plain_word value) known) ∙ h) in
    subst (λ (v : ℕ). v < 256 ^ w) (ok-injective same) (ltb→lt value (256 ^ w) fits)

abbrev pub plain : Struct
plain = record { pack = plain_pack; unpack = λ kind word. word; pack_fits = plain_pack-fits }

success_encodes : encode_message plain success ≡ ok success_bytes
unfolding encode_message encode_blocks encode_block blocks_size type_bytes pack_values pack_words
    pack_word plain_pack
success_encodes = refl

success_reads : read_frame success_bytes 2 100 ≡ ok success
unfolding read_frame read_blocks read_block type_bytes unpack_words unpack_word
success_reads = refl

success_decodes : decode_message plain success_bytes 2 100 ≡ ok success
unfolding decode_message
success_decodes = rw success_reads refl

decode-encode_message_example :
    decode_message plain success_bytes max_blocks max_message_bytes
    ≡ ok (map (carried plain) success)
decode-encode_message_example = decode-encode_message plain success success_bytes success_encodes

success-Repacks : Repacks plain success
unfolding plain_pack type_bytes
success-Repacks = ((refl, (refl, (refl, (refl, tt)))), ((refl, tt), tt))

encode-decode_message_example :
    (blocks : List Block) × (decode_message plain success_bytes 2 100 ≡ ok blocks)
    × (encode_message plain blocks ≡ ok success_bytes)
encode-decode_message_example =
    encode-decode_message plain success_bytes 2 100 success (omega arith) (omega arith)
      success_reads success-Repacks

abbrev limits : Limits
limits = record { most_blocks = 2; most_bytes = 100; most_elements = some 4 }

abbrev slow : Arrival
slow = record { wait = 10; available = 7 }

abbrev byte_wise : Arrival
byte_wise = record { wait = 10; available = 1 }

-- The reply and the first byte of the next one, in pieces of seven bytes.
abbrev pieces : Socket
pieces = record {
  now = 0;
  incoming = success_bytes ++ (9 ∷ []);
  arrivals = slow ∷ slow ∷ slow ∷ slow ∷ slow ∷ slow ∷ [];
}

abbrev after_pieces : Socket
after_pieces = record { now = 50; incoming = 9 ∷ []; arrivals = slow ∷ [] }

pieces_received : recv_message plain limits 5000 pieces ≡ ok (success, after_pieces)
unfolding recv_message recv_exact recv_loop recv_blocks recv_block decode_message read_frame
    read_blocks read_block type_bytes unpack_words unpack_word
pieces_received = refl

recv_message-decode_message_example :
    (frame : List ℕ) × (pieces.incoming ≡ frame ++ (9 ∷ []))
    × (decode_message plain frame 2 100 ≡ ok success)
    × (50 ≤ 5000)
recv_message-decode_message_example =
    recv_message-decode_message plain limits 5000 pieces success after_pieces (omega arith)
      pieces_received

abbrev many : List Arrival
many =
    byte_wise ∷ byte_wise ∷ byte_wise ∷ byte_wise ∷ slow ∷ slow ∷ slow ∷ slow ∷ slow ∷ slow ∷ slow
    ∷ slow ∷ slow ∷ slow ∷ slow ∷ slow ∷ slow ∷ slow ∷ slow ∷ slow ∷ slow ∷ slow ∷ []

abbrev prompt_peer : Socket
prompt_peer = record { now = 0; incoming = success_bytes ++ (9 ∷ []); arrivals = many }

recv_message-delivered_example :
    (after : Socket) × (recv_message plain limits 5000 prompt_peer ≡ ok (success, after))
    × (after.incoming ≡ 9 ∷ [])
recv_message-delivered_example =
    recv_message-delivered plain limits 5000 prompt_peer success_bytes (9 ∷ []) success
      (omega arith) (omega arith) success_decodes (refl, (refl, tt)) refl
      (omega arith, (omega arith), omega arith)
