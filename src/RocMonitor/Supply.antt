-- ===== src/RocMonitor/Supply.antt =====
-- `LVHVClient` of roc-temperature-monitor/roc_temperature_monitor.py: its requests to the supply server,
-- over the messages of common/lvhv_protocol.py. The connection is the socket after the request is sent.
use lvhvbox.Prelude.{
  ℕ, ◌+◌, ◌≤◌, ◌≡◌, ap, subst, ◌∙◌, Bool, true, ◌&&◌, List, [], ◌∷◌, ◌++◌, all, length, ◌==◌, ltb,
  some, Result, ok, err, value_error, runtime_error, guard, ◌>>=◌, ◌>>◌, guard-eq-ok, >>=-eq-ok,
  ok-injective,
}
use lvhvbox.Lvhv.Frame.{Block}
use lvhvbox.Lvhv.Message.{Struct, decode_message}
use lvhvbox.Lvhv.Socket.{
  Socket, Limits, Request, same_values, is_magic, verify_magic, recv_message, recv_reply,
  encode_request, positive, request_reply,
}
use lvhvbox.Lvhv.Socket.Framing.{recv_message-decode_message}

-- `max_blocks=8, max_elements=64`
abbrev pub limits : Limits
limits = record { most_blocks = 8; most_bytes = 67108864; most_elements = some 64 }

abbrev pub single : List Block → Result Block
single [] = err value_error
single (b ∷ []) = ok b
single (b ∷ c ∷ blocks) = err value_error

abbrev pub single_reply : List Block × Socket → Result (Block × Socket)
single_reply (blocks, s) = do b ← single blocks; ok (b, s)

-- `LVHVClient.request`; `connected` is the clock when the connection stands.
unfoldable pub request_block :
    Struct → ℕ → Request → ℕ → (List ℕ → Socket) → Result (Block × Socket)
request_block st timeout r connected respond = do
  reply ← request_reply st limits (some timeout) r connected respond
  single_reply reply

-- `is_reading` is whether a float is finite and above -1.
abbrev pub readings : (ℕ → Bool) → Block × Socket → Result (List ℕ × Socket)
readings is_reading (b, s) = do
  guard (b.kind == b'F' && (length b.values == 6 && all is_reading b.values)) value_error
  ok (b.values, s)

unfoldable pub voltages :
    Struct → (ℕ → Bool) → ℕ → Request → ℕ → (List ℕ → Socket) → Result (List ℕ × Socket)
voltages st is_reading timeout r connected respond = do
  reply ← request_block st timeout r connected respond
  readings is_reading reply

abbrev pub confirmed : Block × Socket → Result Socket
confirmed (b, s) = do guard (b.kind == b'I' && same_values b.values (0 ∷ [])) runtime_error; ok s

unfoldable pub power_off : Struct → ℕ → Request → ℕ → (List ℕ → Socket) → Result Socket
power_off st timeout r connected respond = do
  reply ← request_block st timeout r connected respond
  confirmed reply

single_inv : (blocks : List Block) (b : Block) → single blocks ≡ ok b → blocks ≡ b ∷ []
single_inv [] b h = cc
single_inv (c ∷ []) b h = ap (λ (d : Block). d ∷ []) (ok-injective h)
single_inv (c ∷ d ∷ blocks) b h = cc

magic_inv :
    (blocks reply : List Block)
    → verify_magic blocks ≡ ok reply
    → (first : Block) × (is_magic first ≡ true) × (blocks ≡ first ∷ reply)
unfolding verify_magic
magic_inv [] reply h = cc
magic_inv (first ∷ blocks) reply h =
    let (is, same) = guard-eq-ok (is_magic first) value_error (ok blocks) h in
    (first, is, ap (◌∷◌ first) (ok-injective same))

-- The request could be written, and one whole message answered it by the deadline: the magic block and
-- these blocks.
abbrev pub Replied : Struct → ℕ → Request → ℕ → (List ℕ → Socket) → List Block → Socket → Type 0
Replied st timeout r connected respond reply after =
    (payload : List ℕ) × (encode_request st r ≡ ok payload)
    × ((frame : List ℕ) × ((respond payload).incoming ≡ frame ++ after.incoming)
        × ((first : Block) × (decode_message st frame 8 67108864 ≡ ok (first ∷ reply))
            × (is_magic first ≡ true)))
    × (after.now ≤ connected + timeout)

recv_reply_inv :
    (st : Struct) (deadline : ℕ) (s : Socket) (out : List Block × Socket)
    → s.now ≤ deadline
    → recv_reply st limits deadline s ≡ ok out
    → ((frame : List ℕ) × (s.incoming ≡ frame ++ out.1.incoming)
        × ((first : Block) × (decode_message st frame 8 67108864 ≡ ok (first ∷ out.0))
            × (is_magic first ≡ true)))
      × (out.1.now ≤ deadline)
unfolding recv_reply
recv_reply_inv st deadline s out early h =
    let ((blocks, s1), received, h1) = >>=-eq-ok (recv_message st limits deadline s) _ h in
    let (reply, verified, h2) = >>=-eq-ok (verify_magic blocks) _ h1 in
    let (frame, e, decoded, late) =
      recv_message-decode_message st limits deadline s blocks s1 early received in
    let (first, is, same) = magic_inv blocks reply verified in
    subst
      (λ (o : List Block × Socket).
        ((f : List ℕ) × (s.incoming ≡ f ++ o.1.incoming)
          × ((b : Block) × (decode_message st f 8 67108864 ≡ ok (b ∷ o.0)) × (is_magic b ≡ true)))
        × (o.1.now ≤ deadline))
      (ok-injective h2) ((frame, e, (first, decoded ∙ ap ok same, is)), late)

positive_inv : (timeout t : ℕ) → positive (some timeout) ≡ ok t → timeout ≡ t
positive_inv timeout t h =
    let (_, e) = guard-eq-ok (ltb 0 timeout) value_error (ok timeout) h in ok-injective e

request_reply-Replied :
    (st : Struct) (timeout : ℕ) (r : Request) (connected : ℕ) (respond : List ℕ → Socket)
    (out : List Block × Socket)
    → ((payload : List ℕ) → (respond payload).now ≤ connected + timeout)
    → request_reply st limits (some timeout) r connected respond ≡ ok out
    → Replied st timeout r connected respond out.0 out.1
unfolding request_reply
request_reply-Replied st timeout r connected respond out early h =
    let (t, fine, h1) = >>=-eq-ok (positive (some timeout)) _ h in
    let (payload, encoded, h2) = >>=-eq-ok (encode_request st r) _ h1 in
    let same = positive_inv timeout t fine in
    let (framed, late) =
      recv_reply_inv st (connected + timeout) (respond payload) out (early payload)
        (ap (λ (d : ℕ). recv_reply st limits (connected + d) (respond payload)) same ∙ h2) in
    (payload, encoded, framed, late)

-- `power_off` returns only if the request could be written and the supply server answered it by the
-- deadline with one whole message, the protocol's magic block and a block of one integer, which is 0;
-- the bytes after that message are left. The request is assumed to be sent before the deadline.
pub power_off_confirmed :
    (st : Struct) (timeout : ℕ) (r : Request) (connected : ℕ) (respond : List ℕ → Socket)
    (after : Socket)
    → ((payload : List ℕ) → (respond payload).now ≤ connected + timeout)
    → power_off st timeout r connected respond ≡ ok after
    → (b : Block) × Replied st timeout r connected respond (b ∷ []) after
      × (b.kind == b'I' && same_values b.values (0 ∷ []) ≡ true)
unfolding power_off request_block
power_off_confirmed st timeout r connected respond after early h =
    let ((b, s), asked, h1) = >>=-eq-ok (request_block st timeout r connected respond) _ h in
    let (success, h2) =
      guard-eq-ok (b.kind == b'I' && same_values b.values (0 ∷ [])) runtime_error (ok s) h1 in
    let ((blocks, s1), replied, h3) =
      >>=-eq-ok (request_reply st limits (some timeout) r connected respond) _ asked in
    let (c, one, h4) = >>=-eq-ok (single blocks) _ h3 in
    let p = request_reply-Replied st timeout r connected respond (blocks, s1) early replied in
    (
      b,
      subst (Replied st timeout r connected respond (b ∷ [])) (ok-injective h2) (
          subst (λ (o : Block × Socket). Replied st timeout r connected respond (o.0 ∷ []) o.1)
            (ok-injective h4)
            (subst (λ l. Replied st timeout r connected respond l s1) (single_inv blocks c one) p)),
      success,
    )
