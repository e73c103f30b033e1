-- ===== src/Rs485/Stream/Authentic.antt =====
-- Nothing is delivered that did not arrive: each packet is a well-formed frame of the bytes fed.
use lvhvbox.Prelude.{
  ℕ, ◌+◌, ◌<◌, ◌≡◌, refl, sym, ap, ◌∙◌, subst, List, [], ◌∷◌, ◌++◌, append_assoc, append-nil,
  Option, none, some, inl, inr, length, IsBytes, Result, ltb, ◌^◌, All, All-append, All-append-inv,
  ok, err, arith, ◌==◌, ==_iff, leb, false, Bool-cases,
}
use lvhvbox.Rs485.Frame.{flag, max_wire}
use lvhvbox.Rs485.Packet.{Packet, encode, decode}
use lvhvbox.Rs485.Packet.RoundTrip.{IsValid, encode-decode}
use lvhvbox.Rs485.Stream.{Stream, init, close, feed_byte, feed}

-- The parser holds at most one frame: an opening delimiter and fewer than `MAX_WIRE` bytes.
abbrev pub IsBounded : Option (List ℕ) → Type 0
IsBounded none = Unit
IsBounded (some frame) = length frame < max_wire

feed_byte-IsBounded : (b : ℕ) (s : Stream) → IsBounded s.frame → IsBounded (feed_byte b s).0.frame
unfolding feed_byte close
feed_byte-IsBounded b s h = ground arith

-- However long the input, the parser never holds `MAX_WIRE` bytes or more.
pub feed-IsBounded : (xs : List ℕ) (s : Stream) → IsBounded s.frame → IsBounded (feed s xs).0.frame
unfolding feed
feed-IsBounded [] s h = h
feed-IsBounded (x ∷ xs) s h = feed-IsBounded xs (feed_byte x s).0 (feed_byte-IsBounded x s h)

-- The packet's frame stands in the bytes, unbroken.
abbrev pub Received : List ℕ → Packet → Type 0
Received seen p =
    (before : List ℕ) × (wire : List ℕ) × (after : List ℕ) × (seen ≡ before ++ wire ++ after)
    × (encode p ≡ ok wire)
    × IsValid p

-- The pending frame is the end of what was seen.
abbrev Pending : List ℕ → Option (List ℕ) → Type 0
Pending seen none = Unit
Pending seen (some frame) = (before : List ℕ) × (seen ≡ before ++ frame)

Received-append : (seen more : List ℕ) (p : Packet) → Received seen p → Received (seen ++ more) p
Received-append seen more p (before, wire, after, e, sent, v) = (
  before,
  wire,
  after ++ more,
  ap (λ (l : List ℕ). l ++ more) e ∙ append_assoc (before ++ wire) after more,
  sent,
  v,
)

All-Received-append :
    (seen more : List ℕ) (ps : List Packet)
    → All (Received seen) ps
    → All (Received (seen ++ more)) ps
All-Received-append seen more [] h = tt
All-Received-append seen more (p ∷ ps) h =
    (Received-append seen more p h.0, All-Received-append seen more ps h.1)

module _ (seen frame : List ℕ) (b : IsBytes seen) (before : List ℕ)
    (e : seen ≡ before ++ frame) where
  decoded-Received :
      (p : Packet) → decode (frame ++ flag ∷ []) ≡ ok p → Received (seen ++ flag ∷ []) p
  decoded-Received p d =
      let bytes : IsBytes frame =
        (All-append-inv (λ c. c < 2 ^ 8) before frame (subst IsBytes e b)).1 in
      let (sent, v) =
        encode-decode p (frame ++ flag ∷ [])
          (All-append (λ c. c < 2 ^ 8) frame (flag ∷ []) bytes (omega arith)) d in
      (
        before,
        frame ++ flag ∷ [],
        [],
        (ap (λ (l : List ℕ). l ++ flag ∷ []) e ∙ append_assoc before frame (flag ∷ []))
            ∙ sym (append-nil (before ++ (frame ++ flag ∷ []))),
        sent,
        v,
      )

  close-Received : (s : Stream) → All (Received (seen ++ flag ∷ [])) (close frame s).1
  unfolding close
  close-Received s = elim (Bool-cases (ltb 1 (length frame))) [
    | inl long ↦ rw long (by_result (decode (frame ++ flag ∷ [])) refl)
    | inr short ↦ rw short tt
  ]
    where
      by_result :
          (r : Result Packet)
          → decode (frame ++ flag ∷ []) ≡ r
          → All
              (Received (seen ++ flag ∷ []))
              (elim r as (λ _. Stream × List Packet) [
                | ok p ↦ (s, p ∷ [])
                | err x ↦ (record s { bad_frames = s.bad_frames + 1 }, [])
              ]).1
      by_result (ok p) d = (decoded-Received p d, tt)
      by_result (err x) d = tt

-- One byte keeps the pending frame at the end of what was seen, and delivers only what was seen.
abbrev Good : List ℕ → Stream × List Packet → Type 0
Good seen (s, ps) = Pending seen s.frame × All (Received seen) ps

step_flag :
    (seen : List ℕ) (bad : ℕ) (frame : Option (List ℕ))
    → IsBytes seen
    → Pending seen frame
    → Good (seen ++ flag ∷ []) (feed_byte flag (record { frame = frame; bad_frames = bad }))
unfolding feed_byte
step_flag seen bad none b h = ((seen, refl), tt)
step_flag seen bad (some frame) b (before, e) = (
  (seen, refl),
  close-Received seen frame b before e (record { frame = some frame; bad_frames = bad }),
)

step_text :
    (seen : List ℕ) (x bad : ℕ) (frame : Option (List ℕ))
    → (x == flag) ≡ false
    → Pending seen frame
    → Good (seen ++ x ∷ []) (feed_byte x (record { frame = frame; bad_frames = bad }))
unfolding feed_byte
step_text seen x bad none ne h = rw ne (tt, tt)
step_text seen x bad (some frame) ne (before, e) =
    elim (Bool-cases (leb max_wire (length (frame ++ x ∷ [])))) [
      | inl full ↦ rw (ne, full) (tt, tt)
      | inr room ↦
          rw (ne, room)
            ((before, ap (λ (l : List ℕ). l ++ x ∷ []) e ∙ append_assoc before frame (x ∷ [])), tt)
    ]

feed_byte-Good :
    (seen : List ℕ) (x : ℕ) (s : Stream)
    → IsBytes seen
    → Pending seen s.frame
    → Good (seen ++ x ∷ []) (feed_byte x s)
feed_byte-Good seen x s b h = elim (Bool-cases (x == flag)) [
  | inl e ↦
      subst (λ y. Good (seen ++ y ∷ []) (feed_byte y s)) (sym ((==_iff x flag).0 e))
        (step_flag seen s.bad_frames s.frame b h)
  | inr e ↦ step_text seen x s.bad_frames s.frame e h
]

feed-Good :
    (xs seen : List ℕ) (s : Stream)
    → IsBytes (seen ++ xs)
    → Pending seen s.frame
    → Good (seen ++ xs) (feed s xs)
unfolding feed
feed-Good [] seen s b h = rw append-nil (h, tt)
feed-Good (x ∷ xs) seen s b h =
    let (bs, _) = All-append-inv (λ c. c < 2 ^ 8) seen (x ∷ xs) b in
    let (h', here) = feed_byte-Good seen x s bs h in
    let assoc = append_assoc seen (x ∷ []) xs in
    let (end, later) =
      feed-Good xs (seen ++ x ∷ []) (feed_byte x s).0 (subst IsBytes (sym assoc) b) h' in
    subst (λ l. Good l (feed s (x ∷ xs))) assoc
      (
        end,
        All-append (Received (seen ++ x ∷ [] ++ xs)) (feed_byte x s).1 _
            (All-Received-append (seen ++ x ∷ []) xs (feed_byte x s).1 here) later,
      )

-- From a fresh parser, whatever bytes arrive, each packet delivered is one whose own encoding, with
-- its checksum, stands unbroken among those bytes; so noise never becomes a packet.
pub feed-Received : (xs : List ℕ) → IsBytes xs → All (Received xs) (feed init xs).1
feed-Received xs b = (feed-Good xs [] init b tt).1
