-- ===== src/Rs485/Exchange/Listen.antt =====
-- Which response the wait returns: the first usable one among the packets of the bytes that arrived,
-- however the bytes are split into reads.
use mathlib.Core.List.{flatten}
use lvhvbox.Prelude.{
  ℕ, ◌+◌, ◌≡◌, refl, sym, ◌∙◌, subst, Bool, true, false, not, ◌&&◌, List, [], ◌∷◌, ◌++◌, Option,
  none, some, length, Result, ok, err, Error, value_error, if◌then◌else◌, ◌==◌, ==_refl, Bool-cases,
  inl, inr, All, IsBytes, arith,
}
use lvhvbox.Rs485.Packet.{Packet, encode, first_byte}
use lvhvbox.Rs485.Stream.{Stream, init, feed}
use lvhvbox.Rs485.Stream.Delivery.{feed-append, feed_frames}
use lvhvbox.Rs485.Stream.Authentic.{Received, feed-Received}
use lvhvbox.Rs485.Exchange.{
  Device, Action, Outcome, reply, silent, failed, matches, Scan, found, more, scan, answer, ending,
  listen, await, transmit, discoverable, exchange,
}

-- Its identity matches the request's, and it has a status and a 16-bit value.
abbrev pub usable : ℕ → Packet → Packet → Bool
usable response_type asked p = matches response_type asked p && length p.payload == 3

pub first_usable : ℕ → Packet → List Packet → Option Packet
first_usable response_type asked [] = none
first_usable response_type asked (p ∷ rest) =
    if usable response_type asked p then some p else first_usable response_type asked rest

module _ (response_type : ℕ) (asked : Packet) where
  -- One read's packets hold the first usable response, or none and the parser's frame is kept.
  abbrev Scans : List Packet → Stream → Scan → Type 0
  Scans ps t (found p) = first_usable response_type asked ps ≡ some p
  Scans ps t (more u n) = (first_usable response_type asked ps ≡ none) × (u.frame ≡ t.frame)

  Scans-skip :
      (p : Packet) (ps : List Packet) (t u : Stream) (r : Scan)
      → first_usable response_type asked (p ∷ ps) ≡ first_usable response_type asked ps
      → u.frame ≡ t.frame
      → Scans ps u r
      → Scans (p ∷ ps) t r
  Scans-skip p ps t u (found q) skip same h = skip ∙ h
  Scans-skip p ps t u (more v n) skip same (h, kept) = (skip ∙ h, kept ∙ same)

  first_usable-cons :
      (p : Packet) (ps : List Packet)
      → first_usable response_type asked (p ∷ ps)
        ≡ (if usable response_type asked p then some p else first_usable response_type asked ps)
  unfolding first_usable
  first_usable-cons p ps = refl

  scan-Scans :
      (ps : List Packet) (t : Stream) (n : ℕ) → Scans ps t (scan response_type asked ps t n)
  unfolding scan first_usable
  scan-Scans [] t n = (refl, refl)
  scan-Scans (p ∷ ps) t n = elim (Bool-cases (matches response_type asked p)) [
    | inr miss ↦ rw miss (Scans-skip p ps t t _ (rw miss) refl (scan-Scans ps t (n + 1)))
    | inl hit ↦ elim (Bool-cases (length p.payload == 3)) [
      | inr odd ↦
          let u : Stream = record t { bad_frames = t.bad_frames + 1 } in
          rw (hit, odd) (Scans-skip p ps t u _ (rw (hit, odd)) refl (scan-Scans ps u n))
      | inl three ↦ rw (hit, three) (first_usable-cons p ps ∙ rw (hit, three))
    ]
  ]

first_usable-append :
    (response_type : ℕ) (asked : Packet) (ps qs : List Packet)
    → first_usable response_type asked ps ≡ none
    → first_usable response_type asked (ps ++ qs) ≡ first_usable response_type asked qs
unfolding first_usable
first_usable-append response_type asked [] qs h = refl
first_usable-append response_type asked (p ∷ ps) qs h =
    ground (arith, first_usable-append response_type asked ps qs)

first_usable-append_some :
    (response_type : ℕ) (asked : Packet) (ps qs : List Packet) {p : Packet}
    → first_usable response_type asked ps ≡ some p
    → first_usable response_type asked (ps ++ qs) ≡ some p
unfolding first_usable
first_usable-append_some response_type asked [] qs h = cc
first_usable-append_some response_type asked (q ∷ ps) qs {p} h =
    ground (arith, first_usable-append_some response_type asked ps qs {p = p})

-- The outcome of a wait, from what the last read raised, if anything, and the first usable response
-- among the packets that arrived.
abbrev pub Heard : Option Error → Option Packet → Outcome → Type 0
Heard none none o = (bad_frames : ℕ) × (ignored : ℕ) × (o ≡ silent bad_frames ignored)
Heard (some e) none o = o ≡ failed e
Heard ends (some p) o = o ≡ answer p

ending-Heard : (ends : Option Error) (s : Stream) (n : ℕ) → Heard ends none (ending ends s n)
ending-Heard none s n = (s.bad_frames, n, refl)
ending-Heard (some e) s n = refl

module _ (response_type : ℕ) (asked : Packet) (ends : Option Error) where
  abbrev Rest : List (List ℕ) → Stream → Type 0
  Rest chunks t =
      (u : Stream) (k : ℕ)
      → u.frame ≡ t.frame
      → Heard ends (first_usable response_type asked (feed u (flatten chunks)).1)
          (listen response_type asked ends chunks u k)

  -- One read, by what its packets give.
  listen_round :
      (data' : List ℕ) (chunks : List (List ℕ)) (s : Stream) (n : ℕ) (r : Scan)
      → scan response_type asked (feed s data').1 (feed s data').0 n ≡ r
      → Scans response_type asked (feed s data').1 (feed s data').0 r
      → Rest chunks (feed s data').0
      → Heard ends
          (first_usable response_type asked (feed s (data' ++ flatten chunks)).1)
          (listen response_type asked ends (data' ∷ chunks) s n)
  unfolding listen
  listen_round data' chunks s n (found p) e h rest =
      rw
        (
          feed-append s data' (flatten chunks),
          first_usable-append_some response_type asked (feed s data').1 _ h,
        )
        (rw (e, listen))
  listen_round data' chunks s n (more u k) e (no_match, kept) rest =
      rw
        (
          feed-append s data' (flatten chunks),
          first_usable-append response_type asked (feed s data').1
              (feed (feed s data').0 (flatten chunks)).1 no_match,
          feed_frames (flatten chunks) (feed s data').0 u (sym kept),
          e,
          listen,
        )
        (rest u k kept)

  -- The wait answers with the first usable response among the packets of all the bytes joined.
  listen-Heard :
      (chunks : List (List ℕ)) (s : Stream) (n : ℕ)
      → Heard ends
          (first_usable response_type asked (feed s (flatten chunks)).1)
          (listen response_type asked ends chunks s n)
  unfolding listen feed first_usable flatten
  listen-Heard [] s n = ending-Heard ends s n
  listen-Heard (data' ∷ chunks) s n =
      listen_round data' chunks s n _ refl
        (scan-Scans response_type asked (feed s data').1 (feed s data').0 n)
        (λ u k same. listen-Heard chunks u k)

transmitted :
    (wire : List ℕ) (d : Device)
    → d.resets ≡ ok tt
    → d.raises ≡ ok tt
    → d.written ≡ ok (length wire)
    → d.drains ≡ ok tt
    → (transmit wire d).1 ≡ ok tt
unfolding transmit
transmitted wire d reset up written drained = rw (reset, up, written, ==_refl (length wire)) drained

await_transmitted :
    (response_type : ℕ) (asked : Packet) (discovery : Bool) (d : Device)
    (a : List Action × Result (Unit {0}))
    → a.1 ≡ ok tt
    → (await response_type asked discovery d a).1
      ≡ listen response_type asked d.ends d.chunks init 0
await_transmitted response_type asked discovery d (sent, ok _) h = refl
await_transmitted response_type asked discovery d (sent, err x) h = cc

-- A request that fits its discovery flag and is sent, every call up to the drain returning and the
-- write taking all of it, is answered by the first usable response among the packets that arrive
-- before the deadline, whatever else arrives, in whatever pieces: its value if its status is 0, the
-- status otherwise. With no such response the outcome is silence, or what a read raised.
pub exchange-Heard :
    (response_type : ℕ) (asked : Packet) (discovery : Bool) (d : Device) (wire : List ℕ)
    → (discovery && not (discoverable response_type asked)) ≡ false
    → encode asked ≡ ok wire
    → d.resets ≡ ok tt
    → d.raises ≡ ok tt
    → d.written ≡ ok (length wire)
    → d.drains ≡ ok tt
    → Heard d.ends
        (first_usable response_type asked (feed init (flatten d.chunks)).1)
        (exchange response_type asked discovery d).1
unfolding exchange
exchange-Heard response_type asked discovery d wire fits encoded reset up written drained =
    rw
      (
        fits,
        encoded,
        await_transmitted response_type asked discovery d (transmit wire d)
            (transmitted wire d reset up written drained),
      )
      (listen-Heard response_type asked d.ends d.chunks init 0)

first_usable-mem :
    (response_type : ℕ) (asked : Packet) (P : Packet → Type 0) (ps : List Packet) {p : Packet}
    → first_usable response_type asked ps ≡ some p
    → All P ps
    → P p × (usable response_type asked p ≡ true)
unfolding first_usable
first_usable-mem response_type asked P [] h all = cc
first_usable-mem response_type asked P (q ∷ ps) {p} h all =
    elim (Bool-cases (usable response_type asked q)) [
      | inl fits ↦
          let same : q ≡ p = ground arith in
          (subst P same all.0, subst (λ r. usable response_type asked r ≡ true) same fits)
      | inr skip ↦ first_usable-mem response_type asked P ps (rw skip at h) all.1
    ]

answer_inv : (q p : Packet) → answer q ≡ reply p → (q ≡ p) × (first_byte q.payload ≡ 0)
answer_inv q p h = (ground arith, ground arith)

Heard-reply :
    (response_type : ℕ) (asked : Packet) (P : Packet → Type 0) (ps : List Packet)
    (ends : Option Error) (o : Option Packet) (p : Packet) (out : Outcome)
    → first_usable response_type asked ps ≡ o
    → Heard ends o out
    → All P ps
    → out ≡ reply p
    → P p × (usable response_type asked p ≡ true) × (first_byte p.payload ≡ 0)
Heard-reply response_type asked P ps none none p out e (bad, ignored, h) all r = cc
Heard-reply response_type asked P ps (some x) none p out e h all r = cc
Heard-reply response_type asked P ps ends (some q) p out e h all r =
    let (same, zero_status) = answer_inv q p (sym h ∙ r) in
    let (good, fits) = first_usable-mem response_type asked P ps e all in
    (
      subst P same good,
      subst (λ x. usable response_type asked x ≡ true) same fits,
      subst (λ (x : Packet). first_byte x.payload ≡ 0) same zero_status,
    )

await_reply :
    (response_type : ℕ) (asked : Packet) (discovery : Bool) (d : Device)
    (a : List Action × Result (Unit {0})) (p : Packet)
    → (await response_type asked discovery d a).1 ≡ reply p
    → listen response_type asked d.ends d.chunks init 0 ≡ reply p
await_reply response_type asked discovery d (sent, ok _) p h = h
await_reply response_type asked discovery d (sent, err x) p h = cc

exchange_listens :
    (response_type : ℕ) (asked : Packet) (discovery : Bool) (d : Device) (p : Packet)
    → (exchange response_type asked discovery d).1 ≡ reply p
    → listen response_type asked d.ends d.chunks init 0 ≡ reply p
unfolding exchange
exchange_listens response_type asked discovery d p h =
    elim (Bool-cases (discovery && not (discoverable response_type asked))) [
      | inl no_fit ↦ absurd (not_sent (rw no_fit at h))
      | inr fits ↦ by_wire (encode asked) (rw fits at h)
    ]
  where
    not_sent : failed value_error ≡ reply p → ⊥
    not_sent e = cc

    by_wire :
        (r : Result (List ℕ))
        → (elim r as (λ _. List Action × Outcome) [
          | err e ↦ ([], failed e)
          | ok wire ↦ await response_type asked discovery d (transmit wire d)
        ]).1
          ≡ reply p
        → listen response_type asked d.ends d.chunks init 0 ≡ reply p
    by_wire (err e) q = cc
    by_wire (ok wire) q = await_reply response_type asked discovery d (transmit wire d) p q

-- What the response that an exchange returns has been tested for.
pub exchange_heard :
    (response_type : ℕ) (asked : Packet) (discovery : Bool) (d : Device) (p : Packet)
    → IsBytes (flatten d.chunks)
    → (exchange response_type asked discovery d).1 ≡ reply p
    → Received (flatten d.chunks) p
      × (usable response_type asked p ≡ true)
      × (first_byte p.payload ≡ 0)
exchange_heard response_type asked discovery d p b h =
    Heard-reply response_type asked (Received (flatten d.chunks)) _ d.ends _ p _ refl
      (listen-Heard response_type asked d.ends d.chunks init 0) (feed-Received (flatten d.chunks) b)
      (exchange_listens response_type asked discovery d p h)
