-- ===== src/Discovery/PowerOn/Schedule.antt =====
-- When a scan is started.
use lvhvbox.Prelude.{
  ℕ, ◌+◌, ◌≤◌, ◌≡◌, refl, Bool, true, false, not, ◌||◌, ◌⊎◌, inl, inr, List, [], ◌∷◌, if◌then◌else◌,
  ltb, if_elim, All, All-map, Option, none, some, Result, ok, err, arith,
}
use lvhvbox.Discovery.PowerOn.{
  Window, Timing, Scan, completed, busy, failed, Moment, event, same_bytes, receive, is_powered,
  scan_result, attempt, step, Turn, datagram, tick, run_turn, run_turns,
}

-- The power was read and found on, at a time when nothing had asked to stop.
abbrev pub Confirmed : Moment → Type 0
Confirmed m =
    (volts : List ℕ) × (m.voltages ≡ some (ok volts))
    × (is_powered volts ≡ true)
    × (m.stopped ≡ false)
    × (m.stopped_later ≡ false)

-- A window that opens at `low` or later and closes at `high`.
abbrev Bounded : ℕ → ℕ → Option Window → Type 0
Bounded low high none = Unit
Bounded low high (some w) = (low ≤ w.due) × (w.expires ≡ high)

Bounded-scan_result :
    (low high now : ℕ) (w : Window) (scan : Scan)
    → low ≤ now
    → w.expires ≡ high
    → Bounded low high (scan_result now w scan)
Bounded-scan_result low high now w (completed count) h e = tt
Bounded-scan_result low high now w busy h e = (omega arith, e)
Bounded-scan_result low high now w failed h e = (omega arith, e)

-- A window within its bounds stays within them, and a scan is started only with the power on.
abbrev Sound : ℕ → ℕ → Bool → Option (Result (List ℕ)) → Option Window × Bool → Type 0
Sound low high stopped v out =
    Bounded low high out.0
    × (out.1 ≡ true
        → (volts : List ℕ) × (v ≡ some (ok volts)) × (is_powered volts ≡ true) × (stopped ≡ false))

attempt-Sound :
    (low high now : ℕ) (stopped : Bool) (scan : Scan) (w : Window) (v : Option (Result (List ℕ)))
    → low ≤ w.due
    → low ≤ now
    → w.expires ≡ high
    → Sound low high stopped v (attempt now stopped scan w v)
unfolding attempt
attempt-Sound low high now stopped scan w none d h e = ((omega arith, e), λ f. cc)
attempt-Sound low high now stopped scan w (some (err raised)) d h e = ((omega arith, e), λ f. cc)
attempt-Sound low high now stopped scan w (some (ok volts)) d h e =
    powered (is_powered volts) stopped refl
  where
    powered :
        (on stop : Bool)
        → is_powered volts ≡ on
        → Sound low high stop (some (ok volts)) (
            if not on
            then (none, false)
            else if stop
            then (some w, false)
            else (scan_result now w scan, true))
    powered false stop p = (tt, λ f. cc)
    powered true true p = ((d, e), λ f. cc)
    powered true false p =
        (Bounded-scan_result low high now w scan h e, λ f. (volts, refl, p, refl))

ready_lem :
    (now due : ℕ) (stopped : Bool)
    → ltb now due || stopped ≡ false
    → (due ≤ now) × (stopped ≡ false)
ready_lem now due stopped h = (ground arith, ground arith)

expires_lem : (now expires high : ℕ) → ltb expires now ≡ false → expires ≡ high → now ≤ high
expires_lem now expires high h e = ground arith

abbrev StepSound : ℕ → ℕ → Moment → Option Window × Bool → Type 0
StepSound low high m out =
    Bounded low high out.0 × (out.1 ≡ true → Confirmed m × (low ≤ m.now) × (m.now ≤ high))

step-StepSound :
    (low high : ℕ) (m : Moment) (w : Option Window)
    → Bounded low high w
    → StepSound low high m (step m w)
unfolding step
step-StepSound low high m none h = (tt, λ f. cc)
step-StepSound low high m (some w) (d, e) =
    if_elim (StepSound low high m) (ltb m.now w.due || m.stopped) _ _ (λ _. ((d, e), λ f. cc))
      (λ ready.
        if_elim (StepSound low high m) (ltb w.expires m.now) _ _ (λ _. (tt, λ f. cc))
          (λ in_time.
            let (reached, running) = ready_lem m.now w.due m.stopped ready in
            let a =
              attempt-Sound low high m.now m.stopped_later m.scan w m.voltages d (omega arith) e in
            (
              a.0,
              λ f.
                  let (volts, v, p, s) = a.1 f in
                  (
                    (volts, v, p, running, s),
                    omega arith,
                    expires_lem m.now w.expires high in_time e,
                  ),
            )))

-- A power-on event that was received at this time.
abbrev pub IsEvent : ℕ → Turn → Type 0
IsEvent e (datagram payload now) = (same_bytes payload event ≡ true) × (now ≡ e)
IsEvent e (tick m) = ⊥

-- A call of `step` at this time that found the power on.
abbrev pub IsConfirmed : ℕ → Turn → Type 0
IsConfirmed s (datagram payload now) = ⊥
IsConfirmed s (tick m) = Confirmed m × (m.now ≡ s)

abbrev pub Some : (Turn → Type 0) → List Turn → Type 0
Some P [] = ⊥
Some P (turn ∷ before) = P turn ⊎ Some P before

-- A scan at time `s` has a power-on event that came at least `delay` and at most `delay + retry` before,
-- and a step at that time that found the power on.
abbrev pub Justified : Timing → List Turn → ℕ → Type 0
Justified t turns s =
    (e : ℕ) × Some (IsEvent e) turns
    × (e + t.delay ≤ s)
    × (s ≤ e + t.delay + t.retry)
    × Some (IsConfirmed s) turns

Justified-later :
    (t : Timing) (turn : Turn) (before : List Turn) (s : ℕ)
    → Justified t before s
    → Justified t (turn ∷ before) s
Justified-later t turn before s (e, came, low, high, on) = (e, inr came, low, high, inr on)

-- The window of a run belongs to an event.
abbrev Owned : Timing → List Turn → Option Window → Type 0
Owned t turns none = Unit
Owned t turns (some w) =
    (e : ℕ) × Some (IsEvent e) turns × (e + t.delay ≤ w.due) × (w.expires ≡ e + t.delay + t.retry)

Owned-later :
    (t : Timing) (turn : Turn) (before : List Turn) (w : Option Window)
    → Owned t before w
    → Owned t (turn ∷ before) w
Owned-later t turn before none h = tt
Owned-later t turn before (some w) (e, came, low, high) = (e, inr came, low, high)

abbrev RunSound : Timing → List Turn → Option Window × List ℕ → Type 0
RunSound t turns out = Owned t turns out.0 × All (Justified t turns) out.1

receive-Owned :
    (t : Timing) (payload : List ℕ) (now : ℕ) (before : List Turn) (w : Option Window)
    → Owned t before w
    → Owned t (datagram payload now ∷ before) (receive t payload now w)
unfolding receive
receive-Owned t payload now before w h =
    if_elim (Owned t (datagram payload now ∷ before)) (same_bytes payload event) _ _
      (λ same. (now, inl (same, refl), omega arith, refl))
      (λ _. Owned-later t (datagram payload now) before w h)

Bounded-Owned :
    (t : Timing) (turns : List Turn) (e : ℕ) (w : Option Window)
    → Some (IsEvent e) turns
    → Bounded (e + t.delay) (e + t.delay + t.retry) w
    → Owned t turns w
Bounded-Owned t turns e none came h = tt
Bounded-Owned t turns e (some w) came (low, high) = (e, came, low, high)

tick-RunSound :
    (t : Timing) (m : Moment) (before : List Turn) (w : Option Window) (scans : List ℕ)
    → RunSound t before (w, scans)
    → RunSound t (tick m ∷ before) (run_turn t (tick m) (w, scans))
unfolding run_turn step
tick-RunSound t m before none scans (owned, justified) =
    (tt, All-map scans (Justified-later t (tick m) before) justified)
tick-RunSound t m before (some w) scans ((e, came, low, high), justified) =
    let (bounded, started) =
      step-StepSound (e + t.delay) (e + t.delay + t.retry) m (some w) (low, high) in
    let earlier = All-map scans (Justified-later t (tick m) before) justified in
    (
      Bounded-Owned t (tick m ∷ before) e _ (inr came) bounded,
      if_elim (All (Justified t (tick m ∷ before))) _ (m.now ∷ scans) scans
          (λ f.
            let (on, after, until) = started f in
            ((e, inr came, after, until, inl (on, refl)), earlier))
          (λ _. earlier),
    )

run_turns-RunSound : (t : Timing) (turns : List Turn) → RunSound t turns (run_turns t turns)
unfolding run_turns run_turn
run_turns-RunSound t [] = (tt, tt)
run_turns-RunSound t (datagram payload now ∷ before) =
    let (owned, justified) = run_turns-RunSound t before in
    (
      receive-Owned t payload now before _ owned,
      All-map _ (Justified-later t (datagram payload now) before) justified,
    )
run_turns-RunSound t (tick m ∷ before) = tick-RunSound t m before _ _ (run_turns-RunSound t before)

-- Whatever datagrams arrive and however the steps fall between them, each scan that is started follows a
-- genuine power-on event by at least the boot delay and at most the boot delay and the retry time; and
-- it is started by a step that read the power and found it on, with no request to stop.
pub run_turns-Justified :
    (t : Timing) (turns : List Turn) → All (Justified t turns) (run_turns t turns).1
run_turns-Justified t turns = (run_turns-RunSound t turns).1
