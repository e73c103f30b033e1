-- ===== src/Lvhv/Socket/Arrivals.antt =====
-- `recv_exact` on a socket whose peer keeps sending.
use lvhvbox.Prelude.{
  ℕ, zero, suc, ◌+◌, ◌-◌, ◌≤◌, ◌<◌, ◌≡◌, refl, sym, ap, subst, ◌∙◌, true, not, ◌&&◌, List, [], ◌∷◌,
  ◌++◌, ltb, leb, length, take, drop, min, is_empty, length-take, length-drop, take-append-drop,
  All, Result, ok, le→leb, lt→ltb, arith,
}
use lvhvbox.Lvhv.Socket.{Arrival, Socket, part_of, recv_loop, recv_exact}

abbrev pub total_wait : List Arrival → ℕ
total_wait [] = 0
total_wait (a ∷ as_after) = a.wait + total_wait as_after

-- At least `k` arrivals are to come, each of them brings something, and all come before the deadline.
abbrev pub Prompt : ℕ → ℕ → Socket → Type 0
Prompt deadline k s =
    (k ≤ length s.arrivals)
    × All (λ a. 1 ≤ a.available) s.arrivals
    × (s.now + total_wait s.arrivals < deadline)

-- The call returns these bytes, leaves the rest, and what is still to come is prompt.
abbrev pub Delivers : ℕ → ℕ → List ℕ → List ℕ → Result (List ℕ × Socket) → Type 0
Delivers deadline k rest bytes r =
    (s : Socket) × (r ≡ ok (bytes, s)) × (s.incoming ≡ rest) × Prompt deadline k s

take-append_le : (n : ℕ) (xs ys : List ℕ) → n ≤ length xs → take n (xs ++ ys) ≡ take n xs
take-append_le zero xs ys h = refl
take-append_le (suc n) [] ys h = absurd (omega arith)
take-append_le (suc n) (x ∷ xs) ys h = ap (◌∷◌ x) (take-append_le n xs ys (omega arith))

drop-append_le : (n : ℕ) (xs ys : List ℕ) → n ≤ length xs → drop n (xs ++ ys) ≡ drop n xs ++ ys
drop-append_le zero xs ys h = refl
drop-append_le (suc n) [] ys h = absurd (omega arith)
drop-append_le (suc n) (x ∷ xs) ys h = drop-append_le n xs ys (omega arith)

not_empty : (xs : List ℕ) → 1 ≤ length xs → not (is_empty xs) ≡ true
not_empty [] h = absurd (omega arith)
not_empty (x ∷ xs) h = refl

timely_lem :
    (deadline now wait : ℕ)
    → now + wait < deadline
    → ltb now deadline && leb wait (deadline - now) ≡ true
timely_lem deadline now wait h =
    rw (lt→ltb now deadline (omega arith)) (le→leb wait (deadline - now) (omega arith))

recv_loop_step :
    (deadline now : ℕ) (a : Arrival) (arrivals : List Arrival) (incoming : List ℕ) (n : ℕ)
    (part bytes : List ℕ) (s : Socket)
    → ltb now deadline && leb a.wait (deadline - now) ≡ true
    → part_of a (suc n) incoming ≡ part
    → 1 ≤ length part
    → recv_loop deadline arrivals (now + a.wait) (drop (length part) incoming) (suc n - length part)
      ≡ ok (bytes, s)
    → recv_loop deadline (a ∷ arrivals) now incoming (suc n) ≡ ok (part ++ bytes, s)
unfolding recv_loop
recv_loop_step deadline now a arrivals incoming n part bytes s timely e some_bytes h =
    rw (timely, e, not_empty part some_bytes, h) refl

recv_loop-Delivers :
    (deadline : ℕ) (arrivals : List Arrival) (now n k : ℕ) (bytes rest : List ℕ)
    → length bytes ≡ n
    → n + k ≤ length arrivals
    → All (λ a. 1 ≤ a.available) arrivals
    → now + total_wait arrivals < deadline
    → Delivers deadline k rest bytes (recv_loop deadline arrivals now (bytes ++ rest) n)
unfolding recv_loop
recv_loop-Delivers deadline arrivals now zero k [] rest size room full early = (
  record { now = now; incoming = rest; arrivals = arrivals },
  refl,
  refl,
  (omega arith, full, early),
)
recv_loop-Delivers deadline arrivals now zero k (b ∷ bytes) rest size room full early =
    absurd (omega arith)
recv_loop-Delivers deadline [] now (suc n) k bytes rest size room full early = absurd (omega arith)
recv_loop-Delivers deadline (a ∷ arrivals) now (suc n) k bytes rest size room (one, full) early =
    let j = min a.available (min 65536 (suc n)) in
    let low : 1 ≤ j = omega arith in
    let high : j ≤ length bytes = omega arith in
    let taken : length (take j bytes) ≡ j = length-take j bytes high in
    let left : drop (length (take j bytes)) (bytes ++ rest) ≡ drop j bytes ++ rest =
      ap (λ (m : ℕ). drop m (bytes ++ rest)) taken ∙ drop-append_le j bytes rest high in
    let (s, run, e, prompt) =
      recv_loop-Delivers deadline arrivals (now + a.wait) (suc n - length (take j bytes)) k
        (drop j bytes) rest (omega (arith, length-drop j bytes)) (omega arith) full (omega arith) in
    (
      s,
      recv_loop_step deadline now a arrivals (bytes ++ rest) n (take j bytes) (drop j bytes) s
            (timely_lem deadline now a.wait (omega arith)) (take-append_le j bytes rest high)
            (omega arith)
            (ap (λ t. recv_loop deadline arrivals (now + a.wait) t (suc n - length (take j bytes)))
                left
              ∙ run)
          ∙ ap (λ t. ok (t, s)) (take-append-drop j bytes),
      e,
      prompt,
    )

pub recv_exact-Delivers :
    (deadline k : ℕ) (s : Socket) (bytes rest : List ℕ) (n : ℕ)
    → length bytes ≡ n
    → s.incoming ≡ bytes ++ rest
    → Prompt deadline (n + k) s
    → Delivers deadline k rest bytes (recv_exact n deadline s)
unfolding recv_exact
recv_exact-Delivers deadline k s bytes rest n size e (room, full, early) =
    subst (λ t. Delivers deadline k rest bytes (recv_loop deadline s.arrivals s.now t n)) (sym e)
      (recv_loop-Delivers deadline s.arrivals s.now n k bytes rest size room full early)
