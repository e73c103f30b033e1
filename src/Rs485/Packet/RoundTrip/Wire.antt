-- ===== src/Rs485/Packet/RoundTrip/Wire.antt =====
-- The delimiters of a wire frame, and the text between them.
use lvhvbox.Prelude.{
  ℕ, ◌+◌, ◌-◌, ◌≤◌, ◌≡◌, refl, ap, List, [], ◌∷◌, ◌++◌, length, length-append, take, take-append,
  arith, ◌∙◌, sym, ◌==◌, leb, ◌&&◌, true, false, not, ok, value_error, >>=-eq-ok, guard-eq-ok,
}
use lvhvbox.Rs485.Frame.{flag, max_body, header_size, escape, frame_bytes, Unescape, unescape}
use lvhvbox.Rs485.Frame.Escape.{unescape-escape, unescape_sound}
use lvhvbox.Rs485.Packet.{Packet, decode, parse_body, inner, last_byte, first_byte}

inner_framed : (a b : ℕ) (xs : List ℕ) → inner (a ∷ (xs ++ b ∷ [])) ≡ xs
unfolding inner
inner_framed a b xs =
    let e : length (xs ++ b ∷ []) - 1 ≡ length xs = omega (arith, length-append xs (b ∷ [])) in
    rw e (take-append xs (b ∷ []))

last_framed : (a b : ℕ) (xs : List ℕ) → last_byte (a ∷ (xs ++ b ∷ [])) ≡ b
unfolding last_byte
last_framed a b [] = refl
last_framed a b (x ∷ xs) = last_framed x b xs

-- Reading a frame that was written is reading its body.
pub decode-frame_bytes :
    (body : List ℕ)
    → header_size + 2 ≤ length body
    → length body ≤ max_body
    → decode (frame_bytes body) ≡ parse_body body
unfolding decode frame_bytes
decode-frame_bytes body low high = ground (
  arith,
  length-append (escape body) (flag ∷ []),
  inner_framed flag flag (escape body),
  last_framed flag flag (escape body),
  unescape-escape body [] (omega arith),
)

take-last :
    (a b : ℕ) (rest : List ℕ)
    → take (length rest) (b ∷ rest) ++ last_byte (b ∷ rest) ∷ [] ≡ b ∷ rest
unfolding last_byte
take-last a b [] = refl
take-last a b (c ∷ rest) = ap (◌∷◌ b) (take-last a c rest)

wire_shape :
    (wire : List ℕ) → 2 ≤ length wire → wire ≡ first_byte wire ∷ (inner wire ++ last_byte wire ∷ [])
unfolding last_byte inner
wire_shape [] h = absurd (omega arith)
wire_shape (a ∷ []) h = absurd (omega arith)
wire_shape (a ∷ b ∷ rest) h = ap (◌∷◌ a) (rw sub (sym (take-last a b rest)))
  where
    sub : length (b ∷ rest) - 1 ≡ length rest
    sub = omega arith

framed :
    (wire body : List ℕ)
    → (leb 2 (length wire) && (first_byte wire == flag && last_byte wire == flag)) ≡ true
    → inner wire ≡ escape body
    → wire ≡ frame_bytes body
unfolding frame_bytes
framed wire body ends text = ground (arith, wire_shape wire)

-- What the loop returns unescaped is the text of a frame.
unescaped :
    (wire : List ℕ) (s : Unescape)
    → unescape (inner wire) (record { escaped = false; body = [] }) ≡ ok s
    → (not s.escaped && leb (header_size + 2) (length s.body)) ≡ true
    → inner wire ≡ escape s.body
unescaped wire s loop whole =
    let (body, same, text) = unescape_sound (inner wire) _ s loop (ground arith) in
    text ∙ ap escape (sym same)

-- What `decode` accepts is the frame of the body that it reads.
pub decode_framed :
    (wire : List ℕ) (p : Packet)
    → decode wire ≡ ok p
    → (body : List ℕ) × (wire ≡ frame_bytes body) × (parse_body body ≡ ok p)
unfolding decode
decode_framed wire p h =
    let (ends, h1) = guard-eq-ok _ value_error _ h in
    let (s, loop, h2) = >>=-eq-ok (unescape (inner wire) _) _ h1 in
    let (whole, parsed) = guard-eq-ok _ value_error _ h2 in
    (s.body, framed wire s.body ends (unescaped wire s loop whole), parsed)
