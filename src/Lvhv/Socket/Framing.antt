-- ===== src/Lvhv/Socket/Framing.antt =====
-- What `recv_message` takes from the socket.
use lvhvbox.Prelude.{
  ℕ, zero, suc, ◌+◌, ◌-◌, ◌*◌, ◌≤◌, ◌≡◌, refl, sym, ap, subst, ◌∙◌, true, not, ◌&&◌, List, [], ◌∷◌,
  ◌++◌, append_assoc, ltb, leb, length, take, drop, min, is_empty, Option, none, some, ok, err,
  value_error, timeout_error, eof_error, guard-eq-ok, >>=-eq-ok, ok-injective, arith,
}
use lvhvbox.Lvhv.Words.{unpack_word}
use lvhvbox.Lvhv.Frame.{Block, type_bytes, count_bytes, max_message_bytes, valid_count}
use lvhvbox.Lvhv.Message.{Struct, decode_message}
use lvhvbox.Lvhv.Socket.{
  Arrival, Socket, part_of, recv_loop, recv_exact, Limits, few_elements, first_byte, recv_payload,
  recv_block, recv_blocks, recv_message,
}

-- The bytes returned are the next ones of the peer, and it is not later than the deadline.
abbrev Consumes : ℕ → List ℕ → List ℕ × Socket → Type 0
Consumes deadline incoming out = (incoming ≡ out.0 ++ out.1.incoming) × (out.1.now ≤ deadline)

part-split :
    (a : Arrival) (n : ℕ) (incoming : List ℕ)
    → part_of a n incoming ++ drop (length (part_of a n incoming)) incoming ≡ incoming
part-split a n incoming = take-part (min a.available (min 65536 n)) incoming
  where
    take-part : (k : ℕ) (xs : List ℕ) → take k xs ++ drop (length (take k xs)) xs ≡ xs
    take-part zero xs = refl
    take-part (suc k) [] = refl
    take-part (suc k) (x ∷ xs) = ap (◌∷◌ x) (take-part k xs)

wait_lem :
    (deadline now wait : ℕ)
    → ltb now deadline && leb wait (deadline - now) ≡ true
    → now + wait ≤ deadline
wait_lem deadline now wait h = ground arith

Consumes-append :
    (deadline : ℕ) (incoming first : List ℕ) (s : Socket) (out : List ℕ × Socket)
    → Consumes deadline incoming (first, s)
    → Consumes deadline s.incoming out
    → Consumes deadline incoming (first ++ out.0, out.1)
Consumes-append deadline incoming first s out (e, _) (f, late) =
    (e ∙ ap (◌++◌ first) f ∙ sym (append_assoc first out.0 out.1.incoming), late)

recv_loop-Consumes :
    (deadline : ℕ) (arrivals : List Arrival) (now : ℕ) (incoming : List ℕ) (n : ℕ)
    (out : List ℕ × Socket)
    → now ≤ deadline
    → recv_loop deadline arrivals now incoming n ≡ ok out
    → Consumes deadline incoming out
unfolding recv_loop
recv_loop-Consumes deadline arrivals now incoming zero out early h =
    subst (Consumes deadline incoming) (ok-injective h) (refl, early)
recv_loop-Consumes deadline [] now incoming (suc n) out early h = cc
recv_loop-Consumes deadline (a ∷ arrivals) now incoming (suc n) out early h =
    let (timely, h1) = guard-eq-ok _ timeout_error _ h in
    let (open_socket, h2) =
      guard-eq-ok (not (is_empty (part_of a (suc n) incoming))) eof_error _ h1 in
    let (more, loop, h3) =
      >>=-eq-ok
        (recv_loop deadline arrivals (now + a.wait)
          (drop (length (part_of a (suc n) incoming)) incoming)
          (suc n - length (part_of a (suc n) incoming)))
        _ h2 in
    let rest =
      recv_loop-Consumes deadline arrivals (now + a.wait)
        (drop (length (part_of a (suc n) incoming)) incoming)
        (suc n - length (part_of a (suc n) incoming)) more (wait_lem deadline now a.wait timely)
        loop in
    subst (Consumes deadline incoming) (ok-injective h3) (
      Consumes-append deadline incoming (part_of a (suc n) incoming)
        (record {
          now = now;
          incoming = drop (length (part_of a (suc n) incoming)) incoming;
          arrivals = arrivals;
        })
        more (sym (part-split a (suc n) incoming), early) rest)

recv_exact-Consumes :
    (deadline n : ℕ) (s : Socket) (out : List ℕ × Socket)
    → s.now ≤ deadline
    → recv_exact n deadline s ≡ ok out
    → Consumes deadline s.incoming out
unfolding recv_exact
recv_exact-Consumes deadline n s out early h =
    recv_loop-Consumes deadline s.arrivals s.now s.incoming n out early h

recv_payload-Consumes :
    (deadline budget : ℕ) (most : Option ℕ) (header : List ℕ) (w : ℕ) (s : Socket)
    (incoming : List ℕ) (out : List ℕ × Socket)
    → Consumes deadline incoming (header, s)
    → recv_payload deadline budget most header w s ≡ ok out
    → Consumes deadline incoming out
recv_payload-Consumes deadline budget most header w s incoming out before h =
    let (_, h1) =
      guard-eq-ok (few_elements most (unpack_word (take count_bytes (drop 1 header)))) value_error _
        h in
    let (_, h2) =
      guard-eq-ok
        (leb (unpack_word (take count_bytes (drop 1 header)) * w) (budget - length header))
        value_error _ h1 in
    let (more, got, h3) =
      >>=-eq-ok (recv_exact (unpack_word (take count_bytes (drop 1 header)) * w) deadline s) _ h2 in
    subst (Consumes deadline incoming) (ok-injective h3) (
      Consumes-append deadline incoming header s more before
        (recv_exact-Consumes deadline _ s more before.1 got))

recv_known-Consumes :
    (deadline budget : ℕ) (most : Option ℕ) (header : List ℕ) (o : Option ℕ) (s : Socket)
    (incoming : List ℕ) (out : List ℕ × Socket)
    → Consumes deadline incoming (header, s)
    → elim o [ none ↦ err value_error | some w ↦ recv_payload deadline budget most header w s ]
      ≡ ok out
    → Consumes deadline incoming out
recv_known-Consumes deadline budget most header none s incoming out before h = cc
recv_known-Consumes deadline budget most header (some w) s incoming out before h =
    recv_payload-Consumes deadline budget most header w s incoming out before h

recv_block-Consumes :
    (deadline budget : ℕ) (most : Option ℕ) (s : Socket) (out : List ℕ × Socket)
    → s.now ≤ deadline
    → recv_block deadline budget most s ≡ ok out
    → Consumes deadline s.incoming out
unfolding recv_block
recv_block-Consumes deadline budget most s out early h =
    let (_, h1) = guard-eq-ok (leb 5 budget) value_error _ h in
    let ((header, after), got, h2) = >>=-eq-ok (recv_exact 5 deadline s) _ h1 in
    recv_known-Consumes deadline budget most header (type_bytes (first_byte header)) after
      s.incoming out (recv_exact-Consumes deadline 5 s (header, after) early got) h2

recv_blocks-Consumes :
    (n deadline budget : ℕ) (most : Option ℕ) (s : Socket) (out : List ℕ × Socket)
    → s.now ≤ deadline
    → recv_blocks n deadline budget most s ≡ ok out
    → Consumes deadline s.incoming out
unfolding recv_blocks
recv_blocks-Consumes zero deadline budget most s out early h =
    subst (Consumes deadline s.incoming) (ok-injective h) (refl, early)
recv_blocks-Consumes (suc n) deadline budget most s out early h =
    let ((first, mid), one, h1) = >>=-eq-ok (recv_block deadline budget most s) _ h in
    let (more, loop, h2) =
      >>=-eq-ok (recv_blocks n deadline (budget - length first) most mid) _ h1 in
    let c = recv_block-Consumes deadline budget most s (first, mid) early one in
    subst (Consumes deadline s.incoming) (ok-injective h2) (
      Consumes-append deadline s.incoming first mid more c
        (recv_blocks-Consumes n deadline (budget - length first) most mid more c.1 loop))

-- When `recv_message` returns blocks, it has taken from the socket exactly one message: the bytes
-- before those that are left, which `decode_message` accepts under the same limits and reads as the
-- same blocks; and it returns no later than its deadline, if it starts no later. However the bytes
-- arrived, none of the next message is lost.
pub recv_message-decode_message :
    (st : Struct) (limits : Limits) (deadline : ℕ) (s : Socket) (blocks : List Block)
    (after : Socket)
    → s.now ≤ deadline
    → recv_message st limits deadline s ≡ ok (blocks, after)
    → (frame : List ℕ) × (s.incoming ≡ frame ++ after.incoming)
      × (decode_message st frame limits.most_blocks limits.most_bytes ≡ ok blocks)
      × (after.now ≤ deadline)
unfolding recv_message
recv_message-decode_message st limits deadline s blocks after early h =
    let ((prefix, s1), got, h1) = >>=-eq-ok (recv_exact 4 deadline s) _ h in
    let (_, h2) =
      guard-eq-ok (valid_count limits.most_blocks (unpack_word prefix)) value_error _ h1 in
    let ((body, s2), loop, h3) =
      >>=-eq-ok
        (recv_blocks (unpack_word prefix) deadline (min limits.most_bytes max_message_bytes - 4)
          limits.most_elements s1)
        _ h2 in
    let (read, decoded, h4) =
      >>=-eq-ok (decode_message st (prefix ++ body) limits.most_blocks limits.most_bytes) _ h3 in
    let c1 = recv_exact-Consumes deadline 4 s (prefix, s1) early got in
    let c2 =
      recv_blocks-Consumes (unpack_word prefix) deadline _ limits.most_elements s1 (body, s2) c1.1
        loop in
    let whole = Consumes-append deadline s.incoming prefix s1 (body, s2) c1 c2 in
    let result = ok-injective h4 in
    (
      prefix ++ body,
      whole.0 ∙ ap (λ (o : List Block × Socket). (prefix ++ body) ++ o.1.incoming) result,
      decoded ∙ ap (λ (o : List Block × Socket). ok o.0) result,
      subst (λ (o : List Block × Socket). o.1.now ≤ deadline) result whole.1,
    )
