-- ===== src/Rs485/Packet/RoundTrip.antt =====
-- `encode` and `decode` are inverse to one another, between the packets that `encode` accepts and
-- the byte sequences that `decode` accepts.
mod Body
mod Wire
pub use Body.{IsValid}
use lvhvbox.Prelude.{
  ℕ, suc, ◌+◌, ◌*◌, ◌≤◌, ◌≡◌, refl, sym, ap, ◌∙◌, subst, List, ◌∷◌, [], ◌++◌, length, length-append,
  IsBytes, All-append-inv, ok, arith, ◌^◌, ◌<◌,
}
use lvhvbox.Rs485.Fcs.{fcs16}
use lvhvbox.Rs485.Frame.{flag, escape, frame_bytes, max_wire}
use lvhvbox.Rs485.Frame.Escape.{
  NoFlag, escape-NoFlag, length-escape, le-length-escape, escape-IsBytes,
}
use lvhvbox.Rs485.Packet.{Packet, encode, decode, packet_body}
use Body.{
  wire_body, encode-eq, encode_inv, length-wire_body, parse-wire_body, parse_body-Packs,
  packet_body-IsBytes,
}
use Wire.{decode-frame_bytes, decode_framed}
use lvhvbox.Rs485.Fcs.Detection.{fcs16-lt}

decode_valid : (p : Packet) → IsValid p → decode (frame_bytes (wire_body p)) ≡ ok p
decode_valid p v =
    decode-frame_bytes (wire_body p) (omega (arith, length-wire_body p))
      (omega (arith, length-wire_body p, v.payload))
    ∙ parse-wire_body p v

-- A packet that `encode` accepts is what `decode` reads from the bytes that `encode` wrote.
pub decode-encode :
    (p : Packet) (wire : List ℕ) → IsBytes p.payload → encode p ≡ ok wire → decode wire ≡ ok p
decode-encode p wire b h =
    let (v, e) = encode_inv p wire b h in subst (λ w. decode w ≡ ok p) (sym e) (decode_valid p v)

framed-IsBytes : (body : List ℕ) → IsBytes (frame_bytes body) → IsBytes body
unfolding frame_bytes
framed-IsBytes body b =
    (escape-IsBytes body).0 (All-append-inv (λ c. c < 2 ^ 8) (escape body) (flag ∷ []) b.1).0

-- Bytes that `decode` accepts are the very bytes that `encode` writes for the packet it returns: no
-- packet has a second spelling on the wire, and what is returned is a valid packet.
pub encode-decode :
    (p : Packet) (wire : List ℕ)
    → IsBytes wire
    → decode wire ≡ ok p
    → (encode p ≡ ok wire) × IsValid p
encode-decode p wire b h =
    let (body, e, parsed) = decode_framed wire p h in
    let (v, packed) = parse_body-Packs body p (framed-IsBytes body (subst IsBytes e b)) parsed in
    (encode-eq p v ∙ ap ok (sym (e ∙ ap frame_bytes packed)), v)

-- Between its two delimiters a frame holds no delimiter, and the whole frame is at most `MAX_WIRE`
-- bytes long and at least twelve.
pub encode_shape :
    (p : Packet) (wire : List ℕ)
    → IsBytes p.payload
    → encode p ≡ ok wire
    → (text : List ℕ) × (wire ≡ flag ∷ (text ++ flag ∷ []))
      × NoFlag text
      × (12 ≤ length wire)
      × (length wire ≤ max_wire)
unfolding frame_bytes
encode_shape p wire b h =
    let (v, e) = encode_inv p wire b h in
    let body = wire_body p in
    let size : length wire ≡ length (escape body) + 2 =
      omega (arith, ap length e, length-append (escape body) (flag ∷ [])) in
    (
      escape body,
      e,
      escape-NoFlag body,
      omega (arith, size, le-length-escape body, length-wire_body p),
      omega (arith, size, length-escape body, length-wire_body p, v.payload),
    )
