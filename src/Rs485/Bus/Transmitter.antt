-- ===== src/Rs485/Bus/Transmitter.antt =====
-- `drain_uart` of rs485-server/rs485.py: the wait for an empty transmitter before the line is released.
use lvhvbox.Prelude.{
  ◌≡◌, refl, Bool, true, false, List, [], ◌∷◌, ◌⊎◌, inl, inr, Result, ok, err, Error, os_error,
  timeout_error, ◌>>◌,
}

-- One `ioctl`: the transmitter's state, a driver without it, or another `OSError`.
pub data Status : Type 0 where
  status : (is_empty : Bool) → Status
  unsupported broken : Status

-- A poll, and whether the clock has reached the deadline after it.
pub record Poll : Type 0 where
  pub reads : Status
  pub late : Bool

-- `serial_port.flush()` is `flush`. The polls end when one of them is late.
unfoldable pub drain_uart : Result (Unit {0}) → List Poll → Result (Unit {0})
drain_uart flush [] = flush >> err timeout_error
drain_uart flush (p ∷ polls) = elim p.reads [
  | unsupported ↦ flush
  | broken ↦ flush >> err os_error
  | status true ↦ ok tt
  | status false ↦ elim p.late [
    | true ↦ flush >> err timeout_error
    | false ↦ drain_uart flush polls
  ]
]

-- The polls end in one that saw the transmitter empty, or saw that its driver cannot tell, after polls
-- that were in time and saw it busy.
abbrev pub Drained : Result (Unit {0}) → List Poll → Type 0
Drained flush [] = ⊥
Drained flush (p ∷ polls) =
    (p.reads ≡ status true)
    ⊎ ((p.reads ≡ unsupported) × (flush ≡ ok tt)
        ⊎ ((p.reads ≡ status false) × (p.late ≡ false) × Drained flush polls))

refused_lem :
    (flush : Result (Unit {0})) (e : Error)
    → ◌≡◌ {A = Result (Unit {0})} (flush >> err e) (ok tt)
    → ⊥
refused_lem (ok done) e h = cc
refused_lem (err raised) e h = cc

-- `drain_uart` returns only when the transmitter has been seen empty, or when its driver cannot tell and
-- the flush succeeded: never because time has passed.
pub drain_uart-Drained :
    (flush : Result (Unit {0})) (polls : List Poll)
    → drain_uart flush polls ≡ ok tt
    → Drained flush polls
unfolding drain_uart
drain_uart-Drained flush [] h = absurd (refused_lem flush timeout_error h)
drain_uart-Drained flush (p ∷ polls) h =
    by_status (drain_uart-Drained flush polls) p.reads p.late refl refl h
  where
    by_status :
        (rest : drain_uart flush polls ≡ ok tt → Drained flush polls) (r : Status) (late : Bool)
        → p.reads ≡ r
        → p.late ≡ late
        → elim r [
          | unsupported ↦ flush
          | broken ↦ flush >> err os_error
          | status true ↦ ok tt
          | status false ↦ elim late [
            | true ↦ flush >> err timeout_error
            | false ↦ drain_uart flush polls
          ]
        ]
          ≡ ok tt
        → Drained flush (p ∷ polls)
    by_status rest (status true) late e l k = inl e
    by_status rest (status false) true e l k = absurd (refused_lem flush timeout_error k)
    by_status rest (status false) false e l k = inr (inr (e, l, rest k))
    by_status rest unsupported late e l k = inr (inl (e, k))
    by_status rest broken late e l k = absurd (refused_lem flush os_error k)
