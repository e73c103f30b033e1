-- ===== src/FairQueue/Lanes.antt =====
-- The clients of rs485-server/fair_queue.py and `FairQueue.waiting`, a deque for each client.
use lvhvbox.Prelude.{
  ℕ, ◌+◌, ◌%◌, ◌≤◌, ◌≡◌, refl, Bool, List, [], ◌∷◌, ◌++◌, if◌then◌else◌, ◌==◌, length, Bool-cases,
  inl, inr, arith,
}

pub data Client : Type 0 where
  temperature_monitor graphite interactive discovery : Client

pub record Waiting : Type 0 where
  pub temperature : List ℕ
  pub graphite_lane : List ℕ
  pub interactive_lane : List ℕ
  pub discovery_lane : List ℕ

abbrev pub lane : Waiting → Client → List ℕ
lane w temperature_monitor = w.temperature
lane w graphite = w.graphite_lane
lane w interactive = w.interactive_lane
lane w discovery = w.discovery_lane

abbrev pub put : Waiting → Client → List ℕ → Waiting
put w temperature_monitor ts = record w { temperature = ts }
put w graphite ts = record w { graphite_lane = ts }
put w interactive ts = record w { interactive_lane = ts }
put w discovery ts = record w { discovery_lane = ts }

-- `sum(map(len, self.waiting.values()))`.
abbrev pub pending : Waiting → ℕ
pending w =
    length w.temperature
    + length w.graphite_lane
    + length w.interactive_lane
    + length w.discovery_lane

-- `CLIENTS.index(client)`, and `CLIENTS[n % len(CLIENTS)]`.
abbrev pub index : Client → ℕ
index temperature_monitor = 0
index graphite = 1
index interactive = 2
index discovery = 3

abbrev pub client_at : ℕ → Client
client_at n =
    let k = n % 4 in
    if k == 0
    then temperature_monitor
    else if k == 1
    then graphite
    else if k == 2
    then interactive
    else discovery

-- `==` of two clients.
abbrev pub same : Client → Client → Bool
same c d = index c == index d

-- `deque.remove(ticket)`.
pub remove : ℕ → List ℕ → List ℕ
remove t [] = []
remove t (u ∷ us) = if u == t then us else u ∷ remove t us

pub lane-put :
    (w : Waiting) (c d : Client) (ts : List ℕ)
    → lane (put w c ts) d ≡ (if same c d then ts else lane w d)
lane-put w temperature_monitor temperature_monitor ts = refl
lane-put w temperature_monitor graphite ts = refl
lane-put w temperature_monitor interactive ts = refl
lane-put w temperature_monitor discovery ts = refl
lane-put w graphite temperature_monitor ts = refl
lane-put w graphite graphite ts = refl
lane-put w graphite interactive ts = refl
lane-put w graphite discovery ts = refl
lane-put w interactive temperature_monitor ts = refl
lane-put w interactive graphite ts = refl
lane-put w interactive interactive ts = refl
lane-put w interactive discovery ts = refl
lane-put w discovery temperature_monitor ts = refl
lane-put w discovery graphite ts = refl
lane-put w discovery interactive ts = refl
lane-put w discovery discovery ts = refl

pub pending-put :
    (w : Waiting) (c : Client) (ts : List ℕ)
    → pending (put w c ts) + length (lane w c) ≡ pending w + length ts
pending-put w temperature_monitor ts = omega arith
pending-put w graphite ts = omega arith
pending-put w interactive ts = omega arith
pending-put w discovery ts = omega arith

pub length-remove : (t : ℕ) (ts : List ℕ) → length (remove t ts) ≤ length ts
unfolding remove
length-remove t [] = omega arith
length-remove t (u ∷ us) = ground (arith, length-remove t us)

-- Tickets above `low` and below `high`, each above the one before it.
abbrev pub Ascending : ℕ → ℕ → List ℕ → Type 0
Ascending low high [] = low ≤ high
Ascending low high (t ∷ ts) = (low ≤ t) × Ascending (t + 1) high ts

pub Ascending-weaken :
    (ts : List ℕ) {a b h k : ℕ} → a ≤ b → h ≤ k → Ascending b h ts → Ascending a k ts
Ascending-weaken [] p q h = omega arith
Ascending-weaken (t ∷ ts) p q (here, rest) =
    (omega arith, Ascending-weaken ts {a = t + 1} {b = t + 1} (omega arith) q rest)

pub Ascending-append :
    (low high : ℕ) (ts : List ℕ)
    → Ascending low high ts
    → Ascending low (high + 1) (ts ++ high ∷ [])
Ascending-append low high [] h = (h, omega arith)
Ascending-append low high (t ∷ ts) (here, rest) = (here, Ascending-append (t + 1) high ts rest)

pub Ascending-remove :
    (t low high : ℕ) (ts : List ℕ) → Ascending low high ts → Ascending low high (remove t ts)
unfolding remove
Ascending-remove t low high [] h = h
Ascending-remove t low high (u ∷ us) (here, rest) = elim (Bool-cases (u == t)) [
  | inl e ↦ rw e (Ascending-weaken us {b = u + 1} (omega arith) (omega arith) rest)
  | inr e ↦ rw e (here, Ascending-remove t (u + 1) high us rest)
]
