-- ===== src/Rs485/Packet/RoundTrip/Body.antt =====
-- The fields of a packet and its checksum, packed and read back.
use lvhvbox.Prelude.{
  ℕ, ◌+◌, ◌-◌, ◌*◌, ◌/◌, ◌%◌, ◌≤◌, ◌<◌, ◌^◌, ◌≡◌, refl, sym, ap, List, [], ◌∷◌, ◌++◌, length,
  length-append, take, drop, take-append, drop-append, All-append-inv, subst, arith, true, ok,
  IsBytes,
}
use lvhvbox.Rs485.Fcs.{fcs16}
use lvhvbox.Rs485.Frame.{max_payload, header_size, frame_bytes}
use lvhvbox.Rs485.Packet.{Packet, known_kind, encode, packet_body, pack_u16, parse_body, version}

-- The packets that fit the wire format.
pub record IsValid (p : Packet) : Type 0 where
  pub kind : known_kind p.kind ≡ true
  pub roc : p.roc ≤ 511
  pub transaction : p.transaction ≤ 65535
  pub command : p.command ≤ 255
  pub payload : length p.payload ≤ max_payload
  pub bytes : IsBytes p.payload

pub wire_body : Packet → List ℕ
wire_body p = packet_body p ++ pack_u16 (fcs16 (packet_body p))

known_kind-le : (k : ℕ) → known_kind k ≡ true → k ≤ 4
known_kind-le k h = ground arith

pub packet_body-IsBytes : (p : Packet) → IsValid p → IsBytes (packet_body p)
unfolding packet_body
packet_body-IsBytes p v = (
  omega arith,
  (
    omega (arith, known_kind-le p.kind v.kind),
    (
      omega arith,
      (omega arith, (omega arith, (omega arith, (omega arith, (omega arith, v.bytes))))),
    ),
  ),
)

pub encode-eq : (p : Packet) → IsValid p → encode p ≡ ok (frame_bytes (wire_body p))
unfolding encode wire_body
encode-eq p v = ground arith

pub encode_inv :
    (p : Packet) (w : List ℕ)
    → IsBytes p.payload
    → encode p ≡ ok w
    → IsValid p × (w ≡ frame_bytes (wire_body p))
unfolding encode wire_body
encode_inv p w b h = (
  record {
    kind = ground arith;
    roc = ground arith;
    transaction = ground arith;
    command = ground arith;
    payload = ground arith;
    bytes = b;
  },
  ground arith,
)

pub length-wire_body : (p : Packet) → length (wire_body p) ≡ header_size + length p.payload + 2
unfolding wire_body packet_body
length-wire_body p = omega (arith, length-append p.payload (pack_u16 (fcs16 (packet_body p))))

-- A list without its last two elements, and those two.
take-two :
    (xs : List ℕ) (lo hi : ℕ) → take (length (xs ++ lo ∷ hi ∷ []) - 2) (xs ++ lo ∷ hi ∷ []) ≡ xs
take-two xs lo hi =
    let e : length (xs ++ lo ∷ hi ∷ []) - 2 ≡ length xs =
      omega (arith, length-append xs (lo ∷ hi ∷ [])) in
    rw e (take-append xs (lo ∷ hi ∷ []))

drop-two :
    (xs : List ℕ) (lo hi : ℕ)
    → drop (length (xs ++ lo ∷ hi ∷ []) - 2) (xs ++ lo ∷ hi ∷ []) ≡ lo ∷ hi ∷ []
drop-two xs lo hi =
    let e : length (xs ++ lo ∷ hi ∷ []) - 2 ≡ length xs =
      omega (arith, length-append xs (lo ∷ hi ∷ [])) in
    rw e (drop-append xs (lo ∷ hi ∷ []))

-- Reading a packed body whose last two bytes are its checksum.
pub parse_packed :
    (p : Packet) (lo hi : ℕ)
    → IsValid p
    → fcs16 (packet_body p) ≡ lo + 256 * hi
    → parse_body (packet_body p ++ lo ∷ hi ∷ []) ≡ ok p
unfolding parse_body packet_body
parse_packed p lo hi v sum = ground (
  arith,
  take-two (packet_body p) lo hi,
  drop-two (packet_body p) lo hi,
  take-two p.payload lo hi,
  length-append p.payload (lo ∷ hi ∷ []),
)

pub parse-wire_body : (p : Packet) → IsValid p → parse_body (wire_body p) ≡ ok p
unfolding wire_body
parse-wire_body p v = parse_packed p _ _ v (omega arith)

-- A list of at least two elements, cut before the last two.
split_two :
    (ys : List ℕ) → 2 ≤ length ys → (xs : List ℕ) × (lo : ℕ) × (hi : ℕ) × (ys ≡ xs ++ lo ∷ hi ∷ [])
split_two [] h = absurd (omega arith)
split_two (x ∷ []) h = absurd (omega arith)
split_two (x ∷ y ∷ []) h = ([], x, y, refl)
split_two (x ∷ y ∷ z ∷ ys) h =
    let (xs, lo, hi, e) = split_two (y ∷ z ∷ ys) (omega arith) in (x ∷ xs, lo, hi, ap (◌∷◌ x) e)

-- What `parse_body` accepts is the packed body of the packet that it returns.
abbrev Packs : List ℕ → Packet → Type 0
Packs body p = IsValid p × (body ≡ wire_body p)

module _ (v kind r0 r1 t0 t1 command len : ℕ) where
  abbrev bytes_of : List ℕ → List ℕ
  bytes_of rest = v ∷ kind ∷ r0 ∷ r1 ∷ t0 ∷ t1 ∷ command ∷ len ∷ rest

  abbrev packet_of : List ℕ → Packet
  packet_of xs = record {
    kind = kind;
    roc = r0 + 256 * r1;
    transaction = t0 + 256 * t1;
    command = command;
    payload = xs;
  }

  -- The tests that `parse_body` has made when it returns.
  record Accepted (xs : List ℕ) (lo hi : ℕ) (p : Packet) : Type 0 where
    is_version : v ≡ version
    is_kind : known_kind kind ≡ true
    is_roc : r0 + 256 * r1 ≤ 511
    is_short : len ≤ max_payload
    is_length : length xs ≡ len
    is_sum : fcs16 (bytes_of xs) ≡ lo + 256 * hi
    is_packet : p ≡ packet_of xs

  parse_body-Accepted :
      (xs : List ℕ) (lo hi : ℕ) (p : Packet)
      → parse_body (bytes_of (xs ++ lo ∷ hi ∷ [])) ≡ ok p
      → Accepted xs lo hi p
  unfolding parse_body
  parse_body-Accepted xs lo hi p h = record {
    is_version = ground arith;
    is_kind = ground arith;
    is_roc = ground arith;
    is_short = ground arith;
    is_length = ground (arith, length-append xs (lo ∷ hi ∷ []));
    is_sum = ground (arith, take-two (bytes_of xs) lo hi, drop-two (bytes_of xs) lo hi);
    is_packet = ground (arith, take-two xs lo hi);
  }

  module _ (xs : List ℕ) (lo hi : ℕ) (b : IsBytes (bytes_of (xs ++ lo ∷ hi ∷ []))) {p : Packet}
      (a : Accepted xs lo hi p) where
    tail-IsBytes : IsBytes xs × IsBytes (lo ∷ hi ∷ [])
    tail-IsBytes = All-append-inv (λ c. c < 2 ^ 8) xs (lo ∷ hi ∷ []) (b.1.1.1.1.1.1.1.1)

    packet_of-IsValid : IsValid (packet_of xs)
    packet_of-IsValid = record {
      kind = a.is_kind;
      roc = a.is_roc;
      transaction = omega arith;
      command = omega arith;
      payload = omega (arith, a.is_length, a.is_short);
      bytes = tail-IsBytes.0;
    }

    packet_body-packet_of : packet_body (packet_of xs) ≡ bytes_of xs
    unfolding packet_body
    packet_body-packet_of = ground (arith, a.is_version, a.is_length)

    wire_body-packet_of : wire_body (packet_of xs) ≡ bytes_of (xs ++ lo ∷ hi ∷ [])
    unfolding wire_body
    wire_body-packet_of =
        let low : (lo + 256 * hi) % 256 ≡ lo = omega (arith, tail-IsBytes.1.0) in
        let high : (lo + 256 * hi) / 256 ≡ hi = omega (arith, tail-IsBytes.1.0) in
        rw (packet_body-packet_of, a.is_sum, low, high)

  parse_cut :
      (xs : List ℕ) (lo hi : ℕ) (p : Packet)
      → IsBytes (bytes_of (xs ++ lo ∷ hi ∷ []))
      → parse_body (bytes_of (xs ++ lo ∷ hi ∷ [])) ≡ ok p
      → Packs (bytes_of (xs ++ lo ∷ hi ∷ [])) p
  parse_cut xs lo hi p b h =
      let a = parse_body-Accepted xs lo hi p h in
      subst (Packs (bytes_of (xs ++ lo ∷ hi ∷ []))) (sym a.is_packet)
        (packet_of-IsValid xs lo hi b a, sym (wire_body-packet_of xs lo hi b a))

  parse_rest :
      (rest : List ℕ) (p : Packet)
      → IsBytes (bytes_of rest)
      → parse_body (bytes_of rest) ≡ ok p
      → Packs (bytes_of rest) p
  parse_rest rest p b h =
      let (xs, lo, hi, e) = split_two rest (unfold parse_body in ground arith) in
      subst (λ r. Packs (bytes_of r) p) (sym e)
        (parse_cut xs lo hi p (subst (λ r. IsBytes (bytes_of r)) e b)
          (subst (λ r. parse_body (bytes_of r) ≡ ok p) e h))

pub parse_body-Packs :
    (body : List ℕ) (p : Packet) → IsBytes body → parse_body body ≡ ok p → Packs body p
unfolding parse_body
parse_body-Packs (v ∷ k ∷ r0 ∷ r1 ∷ t0 ∷ t1 ∷ c ∷ len ∷ rest) p b h =
    parse_rest v k r0 r1 t0 t1 c len rest p b h
parse_body-Packs _ p b h = cc
