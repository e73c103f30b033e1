-- ===== src/Rs485/Stream/Delivery.antt =====
-- Every well-formed frame is delivered, whatever came before it and however the bytes are split.
use lvhvbox.Prelude.{
  ℕ, suc, ◌+◌, ◌≤◌, ◌<◌, ◌≡◌, ◌≢◌, refl, ap, subst, List, [], ◌∷◌, ◌++◌, append_assoc, append-nil,
  some, length, length-append, IsBytes, ok, arith,
}
use lvhvbox.Rs485.Frame.{flag, max_wire}
use lvhvbox.Rs485.Frame.Escape.{NoFlag}
use lvhvbox.Rs485.Packet.{Packet, encode, decode}
use lvhvbox.Rs485.Packet.RoundTrip.{decode-encode, encode_shape}
use lvhvbox.Rs485.Stream.{Stream, close, feed_byte, feed}

-- Feeding two pieces is feeding them joined.
pub feed-append :
    (s : Stream) (xs ys : List ℕ)
    → feed s (xs ++ ys)
      ≡ (let (t, packets) = feed s xs in let (u, more) = feed t ys in (u, packets ++ more))
unfolding feed
feed-append s [] ys = refl
feed-append s (x ∷ xs) ys = rw (feed-append (feed_byte x s).0 xs ys, append_assoc)

-- After a delimiter the parser is at the start of a frame, and at most one packet came out.
pub feed_flag_opens :
    (s : Stream)
    → ((feed_byte flag s).0.frame ≡ some (flag ∷ [])) × (length (feed_byte flag s).1 ≤ 1)
unfolding feed_byte close
feed_flag_opens s = (ground arith, ground arith)

-- What comes out of the parser does not depend on its count of bad frames.
feed_byte_frames :
    (x : ℕ) (s t : Stream)
    → s.frame ≡ t.frame
    → ((feed_byte x s).0.frame ≡ (feed_byte x t).0.frame) × ((feed_byte x s).1 ≡ (feed_byte x t).1)
unfolding feed_byte close
feed_byte_frames x s t e = (ground arith, ground arith)

pub feed_frames : (xs : List ℕ) (s t : Stream) → s.frame ≡ t.frame → (feed s xs).1 ≡ (feed t xs).1
unfolding feed
feed_frames [] s t e = refl
feed_frames (x ∷ xs) s t e =
    let (same, out) = feed_byte_frames x s t e in
    cc (out, feed_frames xs (feed_byte x s).0 (feed_byte x t).0 same)

abbrev at : List ℕ → ℕ → Stream
at frame bad = record { frame = some frame; bad_frames = bad }

feed_byte_text :
    (x bad : ℕ) (start : List ℕ)
    → x ≢ flag
    → length start + 1 < max_wire
    → feed_byte x (at start bad) ≡ (at (start ++ x ∷ []) bad, [])
unfolding feed_byte
feed_byte_text x bad start not_flag short = ground (arith, length-append start (x ∷ []))

-- The text of a frame is collected, and nothing comes out, while it stays below `MAX_WIRE`.
feed_text :
    (text start : List ℕ) (bad : ℕ)
    → NoFlag text
    → length start + length text < max_wire
    → feed (at start bad) text ≡ (at (start ++ text) bad, [])
unfolding feed
feed_text [] start bad free short = rw append-nil
feed_text (x ∷ text) start bad free short = rw (
  feed_byte_text x bad start free.0 (omega arith),
  feed_text text (start ++ x ∷ []) bad free.1 (omega (arith, length-append start (x ∷ []))),
  append_assoc,
)

-- The closing delimiter of a frame that decodes delivers the packet.
feed_byte_close :
    (frame : List ℕ) (bad : ℕ) (p : Packet)
    → 1 < length frame
    → decode (frame ++ flag ∷ []) ≡ ok p
    → feed_byte flag (at frame bad) ≡ (at (flag ∷ []) bad, p ∷ [])
unfolding feed_byte close
feed_byte_close frame bad p long decoded = ground arith

-- The rest of a frame, after its opening delimiter.
feed_frame :
    (text : List ℕ) (bad : ℕ) (p : Packet)
    → NoFlag text
    → 0 < length text
    → 1 + length text < max_wire
    → decode (flag ∷ (text ++ flag ∷ [])) ≡ ok p
    → feed (at (flag ∷ []) bad) (text ++ flag ∷ []) ≡ (at (flag ∷ []) bad, p ∷ [])
feed_frame text bad p free low high decoded =
    rw (feed-append (at (flag ∷ []) bad) text (flag ∷ []), feed_text text (flag ∷ []) bad free high)
      (unfold feed in rw (feed_byte_close (flag ∷ text) bad p (omega arith) decoded))

-- Whatever state the bytes before it have left the parser in, the frame of a packet is delivered as
-- the last delivery: its opening delimiter first closes what was pending, as any delimiter does, and
-- the rest of the frame adds the packet, and neither a bad frame nor another packet.
pub feed-encode :
    (s : Stream) (p : Packet) (wire : List ℕ)
    → IsBytes p.payload
    → encode p ≡ ok wire
    → feed s wire ≡ ((feed_byte flag s).0, (feed_byte flag s).1 ++ p ∷ [])
unfolding feed feed_byte
feed-encode s p wire b h =
    let (text, shape, free, low, high) = encode_shape p wire b h in
    let size : length wire ≡ suc (length text + 1) =
      omega (arith, ap length shape, length-append text (flag ∷ [])) in
    let decoded : decode (flag ∷ (text ++ flag ∷ [])) ≡ ok p =
      subst (λ w. decode w ≡ ok p) shape (decode-encode p wire b h) in
    rw (
      shape,
      feed_frame text (feed_byte flag s).0.bad_frames p free (omega arith) (omega arith) decoded,
    )
