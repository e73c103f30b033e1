-- ===== src/Rs485/Exchange/Line.antt =====
-- The bus line is released when an exchange ends, however it ends, and is written to only while it
-- is driven.
use lvhvbox.Prelude.{
  ℕ, ◌≡◌, refl, Bool, true, false, not, ◌&&◌, List, [], ◌∷◌, ◌++◌, Result, ok, err, ok-injective,
  length, ◌==◌, ◌≢◌, ◌⊎◌, Bool-cases, inl, inr, arith,
}
use lvhvbox.Rs485.Packet.{Packet, encode}
use lvhvbox.Rs485.Stream.{init}
use lvhvbox.Rs485.Exchange.{
  Device, Action, drive, send, drain, narrow, finish, Outcome, reply, refused, silent, failed,
  listen, finishing, narrowing, transmission, transmit, await, discoverable, exchange,
}

-- The level of the driver-enable line after the calls.
abbrev pub line_after : Bool → List Action → Bool
line_after level [] = level
line_after level (drive up ∷ rest) = line_after up rest
line_after level (send wire ∷ rest) = line_after level rest
line_after level (drain ∷ rest) = line_after level rest
line_after level (narrow ∷ rest) = line_after level rest
line_after level (finish ∷ rest) = line_after level rest

-- Each write and each drain happens while the line is driven.
abbrev pub WritesDriven : Bool → List Action → Type 0
WritesDriven level [] = Unit
WritesDriven level (drive up ∷ rest) = WritesDriven up rest
WritesDriven level (send wire ∷ rest) = (level ≡ true) × WritesDriven level rest
WritesDriven level (drain ∷ rest) = (level ≡ true) × WritesDriven level rest
WritesDriven level (narrow ∷ rest) = WritesDriven level rest
WritesDriven level (finish ∷ rest) = WritesDriven level rest

abbrev pub starts_drain : List Action → Bool
starts_drain (drain ∷ rest) = true
starts_drain _ = false

-- A write that took all its bytes is followed at once by the drain.
abbrev pub DrainsSent : Result ℕ → List Action → Type 0
DrainsSent written [] = Unit
DrainsSent written (send wire ∷ rest) =
    ((starts_drain rest ≡ true) ⊎ (written ≢ ok (length wire))) × DrainsSent written rest
DrainsSent written (drive up ∷ rest) = DrainsSent written rest
DrainsSent written (drain ∷ rest) = DrainsSent written rest
DrainsSent written (narrow ∷ rest) = DrainsSent written rest
DrainsSent written (finish ∷ rest) = DrainsSent written rest

abbrev IsClean : Result ℕ → List Action → Type 0
IsClean written actions =
    (line_after false actions ≡ false) × WritesDriven false actions × DrainsSent written actions

finishing-IsClean : (written : Result ℕ) (o : Outcome) → IsClean written (finishing o)
finishing-IsClean written (reply p) = (refl, tt, tt)
finishing-IsClean written (refused status) = (refl, tt, tt)
finishing-IsClean written (silent bad_frames ignored) = (refl, tt, tt)
finishing-IsClean written (failed e) = (refl, tt, tt)

narrowing-IsClean :
    (written : Result ℕ) (discovery : Bool) (o : Outcome)
    → IsClean written (narrowing discovery ++ finishing o)
narrowing-IsClean written true o = finishing-IsClean written o
narrowing-IsClean written false o = finishing-IsClean written o

module _ (response_type : ℕ) (asked : Packet) (discovery : Bool) (wire : List ℕ) (d : Device) where
  Waits : Result ℕ → List Action × Result (Unit {0}) → Type 0
  Waits written sent = IsClean written (await response_type asked discovery d sent).0

  drained-IsClean :
      (written : Result ℕ) (r : Result (Unit {0}))
      → Waits written (drive false ∷ drive true ∷ send wire ∷ drain ∷ drive false ∷ [], r)
  unfolding Waits
  drained-IsClean written (err e) = (refl, (refl, (refl, tt)), (inl refl, tt))
  drained-IsClean written (ok _) =
      let (low, driven, empty) =
        narrowing-IsClean written discovery (listen response_type asked d.ends d.chunks init 0) in
      (low, (refl, (refl, driven)), (inl refl, empty))

  not_whole : (n m : ℕ) → n == m ≡ false → ok n ≢ ok m
  not_whole n m e h = let same : n ≡ m = ok-injective h in ground arith

  transmission-IsClean :
      (resets raises : Result (Unit {0})) (written : Result ℕ) (drains : Result (Unit {0}))
      → Waits written (transmission wire resets raises written drains)
  unfolding Waits
  transmission-IsClean (err e) raises written drains = (refl, tt, tt)
  transmission-IsClean (ok _) (err e) written drains = (refl, tt, tt)
  transmission-IsClean (ok _) (ok _) (err e) drains = (refl, (refl, tt), (inr (λ h. cc), tt))
  transmission-IsClean (ok _) (ok _) (ok n) drains = elim (Bool-cases (n == length wire)) [
    | inl whole ↦ rw whole (drained-IsClean (ok n) drains)
    | inr short ↦ rw short (refl, (refl, tt), (inr (not_whole n (length wire) short), tt))
  ]

await-IsClean :
    (response_type : ℕ) (asked : Packet) (discovery : Bool) (wire : List ℕ) (d : Device)
    → IsClean d.written (await response_type asked discovery d (transmit wire d)).0
unfolding transmit Waits
await-IsClean response_type asked discovery wire d =
    transmission-IsClean response_type asked discovery wire d d.resets d.raises d.written d.drains

-- From a released line: after the exchange the line is released, whether the request is refused, the
-- reset, the raising of the line, the write, the drain or a read raises or is interrupted, nothing
-- answers, or a response comes; nothing is written to the UART and it is not drained while the line is
-- released; and a write that took the whole request is followed at once by the drain, before the line
-- is released.
pub exchange_releases :
    (response_type : ℕ) (asked : Packet) (discovery : Bool) (d : Device)
    → (line_after false (exchange response_type asked discovery d).0 ≡ false)
      × WritesDriven false (exchange response_type asked discovery d).0
      × DrainsSent d.written (exchange response_type asked discovery d).0
unfolding exchange
exchange_releases response_type asked discovery d =
    elim (Bool-cases (discovery && not (discoverable response_type asked))) [
      | inl no_fit ↦ rw no_fit (refl, tt, tt)
      | inr fits ↦ rw fits (by_wire (encode asked))
    ]
  where
    by_wire :
        (r : Result (List ℕ))
        → IsClean d.written
            (elim r as (λ _. List Action × Outcome) [
              | err e ↦ ([], failed e)
              | ok wire ↦ await response_type asked discovery d (transmit wire d)
            ]).0
    by_wire (err e) = (refl, tt, tt)
    by_wire (ok wire) = await-IsClean response_type asked discovery wire d
