-- ===== src/FairQueue/Fairness.antt =====
-- The round robin: who is served next, and how long a waiting client can be passed over.
use lvhvbox.Prelude.{
  ℕ, ◌*◌, ◌+◌, ◌-◌, ◌%◌, ◌≤◌, ◌<◌, ◌≡◌, ◌≢◌, refl, subst, sym, Bool, true, false, List, [], ◌∷◌,
  Option, none, some, if◌then◌else◌, Bool-cases, if_elim, inl, inr, arith, some-injective,
  true≢false, ap, ◌∙◌, ◌⊎◌, &&-inv,
}
use lvhvbox.FairQueue.Lanes.{
  Client, temperature_monitor, graphite, interactive, discovery, Waiting, lane, put, same, index,
  client_at, lane-put,
}
use lvhvbox.FairQueue.Capacity.{index-lt, IsValid, Step-IsValid}
use lvhvbox.FairQueue.{
  Queue, Reading, Answer, granted, queue_closed, queue_expired, queued, busy, queue_full,
  queue_cancelled, waits, too_late, is_none, next, eligible, attempt, tail, first_waiting,
  is_waiting, is_head, is_client, Step, enters, attempts, finishes, closes, takes_lock,
  releases_lock, enter, finish, close, take_lock, release_lock,
}

-- How many other clients are asked before `c`, after `last` was served.
abbrev pub turns_before : Client → ℕ → ℕ
turns_before c last = (index c + 3 - last) % 4

abbrev pub is_granted : Answer → Bool
is_granted granted = true
is_granted a = false

-- A granted attempt: what held, and what it did.
pub record Grant (c : Client) (ticket : ℕ) (q r : Queue) : Type 0 where
  pub was_free : q.active ≡ none
  pub was_unlocked : q.locked ≡ false
  pub was_open : q.closed ≡ false
  pub was_next : next q ≡ some c
  pub was_first : lane q.waiting c ≡ ticket ∷ lane r.waiting c
  pub is_active : r.active ≡ some c
  pub is_locked : r.locked ≡ true
  pub is_last : r.last ≡ index c

client_at-index : (c : Client) → client_at (index c) ≡ c
client_at-index temperature_monitor = refl
client_at-index graphite = refl
client_at-index interactive = refl
client_at-index discovery = refl

index-injective : {c d : Client} → index c ≡ index d → c ≡ d
index-injective {c} {d} e = sym (client_at-index c) ∙ ap client_at e ∙ client_at-index d

-- Where `c` first stands in a list of clients, or the list's length.
position : Client → List Client → ℕ
position c [] = 0
position c (d ∷ ds) = if same c d then 0 else 1 + position c ds

same_refl : (c : Client) → same c c ≡ true
same_refl c = ground arith

first_waiting_least :
    (w : Waiting) (cs : List Client) (c d : Client)
    → first_waiting w cs ≡ some d
    → is_waiting (lane w c) ≡ true
    → position d cs ≤ position c cs
unfolding first_waiting position
first_waiting_least w [] c d e f = cc
first_waiting_least w (x ∷ cs) c d e f = elim (Bool-cases (is_waiting (lane w x))) [
  | inl h ↦
      let same_client : x ≡ d =
        some-injective (subst (λ b. (if b then some x else first_waiting w cs) ≡ some d) h e) in
      subst (λ y. position y (x ∷ cs) ≤ position c (x ∷ cs)) same_client
        (rw (same_refl x) (omega arith))
  | inr h ↦
      let later : first_waiting w cs ≡ some d =
        subst (λ b. (if b then some x else first_waiting w cs) ≡ some d) h e in
      let apart : ¬ (index c ≡ index x) =
        λ s. true≢false (sym f ∙ ap (λ k. is_waiting (lane w k)) (index-injective s) ∙ h) in
      let rest = first_waiting_least w cs c d later f in ground arith
]

closed_not : queue_closed ≢ granted
closed_not e = cc

expired_not : queue_expired ≢ granted
expired_not e = cc

cancelled_not : queue_cancelled ≢ granted
cancelled_not e = cc

waits_not : waits ≢ granted
waits_not e = cc

is_none-true : (o : Option Client) → is_none o ≡ true → o ≡ none
is_none-true none e = refl
is_none-true (some c) e = cc

is_client-true : (o : Option Client) (c : Client) → is_client o c ≡ true → o ≡ some c
is_client-true none c e = cc
is_client-true (some d) c e = ap some (index-injective (ground arith))

is_head-true : (t : ℕ) (us : List ℕ) → is_head t us ≡ true → us ≡ t ∷ tail us
is_head-true t [] e = cc
is_head-true t (u ∷ us) e = ap (λ v. v ∷ us) (ground arith)

eligible-Grant :
    (c : Client) (ticket : ℕ) (q : Queue)
    → q.closed ≡ false
    → eligible c ticket q ≡ true
    → Grant c ticket q (record q {
      waiting = put q.waiting c (tail (lane q.waiting c));
      active = some c;
      last = index c;
      locked = true;
    })
unfolding eligible
eligible-Grant c ticket q opened e =
    let (free, e1) = &&-inv e in
    let (turn, e2) = &&-inv e1 in
    let (head, unlocked) = &&-inv e2 in
    record {
      was_free = is_none-true q.active free;
      was_unlocked = ground arith;
      was_open = opened;
      was_next = is_client-true (next q) c turn;
      was_first =
          rw (lane-put q.waiting c c (tail (lane q.waiting c)), same_refl c)
            (is_head-true ticket (lane q.waiting c) head);
      is_active = refl;
      is_locked = refl;
      is_last = refl;
    }

is_granted-true : (a : Answer) → is_granted a ≡ true → a ≡ granted
is_granted-true granted e = refl
is_granted-true queue_closed e = cc
is_granted-true busy e = cc
is_granted-true queue_full e = cc
is_granted-true queue_expired e = cc
is_granted-true queue_cancelled e = cc
is_granted-true (queued t) e = cc
is_granted-true waits e = cc

-- A caller is granted the device only while the queue is open, no turn is active and the device lock is free, when its
-- client is the next one in the round robin that has a caller waiting and its ticket is the first of
-- that client's; it then holds the turn and the lock, its client is the last that was served, and
-- only its ticket has left its client's queue.
pub attempt-Grant :
    (c : Client) (ticket : ℕ) (r : Reading) (q : Queue)
    → (attempt c ticket r q).0 ≡ granted
    → Grant c ticket q (attempt c ticket r q).1
unfolding attempt
attempt-Grant c ticket r q =
    let P : Answer × Queue → Type 0 = λ x. x.0 ≡ granted → Grant c ticket q x.1 in
    if_elim P q.closed _ _ (λ e h. absurd (closed_not h))
      (λ opened.
        if_elim P (too_late r) _ _ (λ e h. absurd (expired_not h))
          (λ e.
            if_elim P r.disconnected _ _ (λ e h. absurd (cancelled_not h))
              (λ e.
                if_elim P (eligible c ticket q) _ _ (λ e h. eligible-Grant c ticket q opened e)
                  (λ e h. absurd (waits_not h)))))

order : ℕ → List Client
order l = client_at (l + 1) ∷ client_at (l + 2) ∷ client_at (l + 3) ∷ client_at (l + 4) ∷ []

below_four : (l : ℕ) → l < 4 → (l ≡ 0) ⊎ ((l ≡ 1) ⊎ ((l ≡ 2) ⊎ (l ≡ 3)))
below_four l b = ground arith

turns_0 : (c : Client) → position c (order 0) ≡ turns_before c 0
unfolding position order
turns_0 temperature_monitor = refl
turns_0 graphite = refl
turns_0 interactive = refl
turns_0 discovery = refl

turns_1 : (c : Client) → position c (order 1) ≡ turns_before c 1
unfolding position order
turns_1 temperature_monitor = refl
turns_1 graphite = refl
turns_1 interactive = refl
turns_1 discovery = refl

turns_2 : (c : Client) → position c (order 2) ≡ turns_before c 2
unfolding position order
turns_2 temperature_monitor = refl
turns_2 graphite = refl
turns_2 interactive = refl
turns_2 discovery = refl

turns_3 : (c : Client) → position c (order 3) ≡ turns_before c 3
unfolding position order
turns_3 temperature_monitor = refl
turns_3 graphite = refl
turns_3 interactive = refl
turns_3 discovery = refl

position-order : (l : ℕ) (c : Client) → l < 4 → position c (order l) ≡ turns_before c l
unfolding position order
position-order l c b = elim (below_four l b) [
  | inl e ↦ rw e (turns_0 c)
  | inr (inl e) ↦ rw e (turns_1 c)
  | inr (inr (inl e)) ↦ rw e (turns_2 c)
  | inr (inr (inr e)) ↦ rw e (turns_3 c)
]

attempt_last :
    (c : Client) (ticket : ℕ) (r : Reading) (q : Queue)
    → is_granted (attempt c ticket r q).0 ≡ false
    → (attempt c ticket r q).1.last ≡ q.last
unfolding attempt
attempt_last c ticket r q =
    let P : Answer × Queue → Type 0 = λ x. is_granted x.0 ≡ false → x.1.last ≡ q.last in
    if_elim P q.closed _ _ (λ e h. refl)
      (λ opened.
        if_elim P (too_late r) _ _ (λ e h. refl)
          (λ e.
            if_elim P r.disconnected _ _ (λ e h. refl)
              (λ e. if_elim P (eligible c ticket q) _ _ (λ e h. cc) (λ e h. refl))))

-- The client that a step serves.
unfoldable pub serves : {q r : Queue} → Step q r → Option Client
serves {q} (attempts c ticket r) = if is_granted (attempt c ticket r q).0 then some c else none
serves (enters c) = none
serves (finishes c e) = none
serves closes = none
serves takes_lock = none
serves (releases_lock e l) = none

-- 1 for a step that serves `c`, and for one that serves another client.
unfoldable pub own : {q r : Queue} → Client → Step q r → ℕ
own c s = if is_client (serves s) c then 1 else 0

unfoldable pub other : {q r : Queue} → Client → Step q r → ℕ
other c s = if is_none (serves s) then 0 else if is_client (serves s) c then 0 else 1

-- A run in which client `c` has a caller waiting before every step, with the number of grants to
-- other clients and to `c`.
pub data Waits (c : Client) (q : Queue) : ℕ → ℕ → Queue → Type 0 where
  start : Waits c q 0 0 q
  goes :
      {others mine : ℕ} {r t : Queue}
      → Waits c q others mine r
      → is_waiting (lane r.waiting c) ≡ true
      → (s : Step r t) → Waits c q (others + other c s) (mine + own c s) t

-- The order of the round robin: whoever is next stands no further from the last than `c` does.
next_turns :
    (q : Queue) (c d : Client)
    → q.last < 4
    → next q ≡ some d
    → is_waiting (lane q.waiting c) ≡ true
    → turns_before d q.last ≤ turns_before c q.last
unfolding next order
next_turns q c d b e w = omega (
  arith,
  first_waiting_least q.waiting (order q.last) c d e w,
  position-order q.last c b,
  position-order q.last d b,
)

grant_turns :
    (q : Queue) (c d : Client)
    → q.last < 4
    → next q ≡ some d
    → is_waiting (lane q.waiting c) ≡ true
    → (if same d c then 0 else 1) + turns_before c (index d)
      ≤ 3 * (if same d c then 1 else 0) + turns_before c q.last
grant_turns q c d b e w = ground (arith, next_turns q c d b e w, index-lt c, index-lt d)

enter_last : (c : Client) (q : Queue) → (enter c q).1.last ≡ q.last
unfolding enter
enter_last c q = ground arith

take_lock_last : (q : Queue) → (take_lock q).1.last ≡ q.last
unfolding take_lock
take_lock_last q = ground arith

turns_before-Step :
    {q r : Queue} (c : Client) (s : Step q r)
    → IsValid q
    → is_waiting (lane q.waiting c) ≡ true
    → other c s + turns_before c r.last ≤ 3 * own c s + turns_before c q.last
unfolding other own serves enter finish close take_lock release_lock
turns_before-Step {q} c (attempts d ticket r) v w =
    elim (Bool-cases (is_granted (attempt d ticket r q).0)) [
      | inl g ↦
          let grant = attempt-Grant d ticket r q (is_granted-true (attempt d ticket r q).0 g) in
          rw (g, grant.is_last) (grant_turns q c d v.served grant.was_next w)
      | inr g ↦ rw (g, attempt_last d ticket r q g) (omega arith)
    ]
turns_before-Step {q} c (enters d) v w = omega (arith, enter_last d q)
turns_before-Step {q} c (finishes d e) v w = omega arith
turns_before-Step {q} c closes v w = omega arith
turns_before-Step {q} c takes_lock v w = omega (arith, take_lock_last q)
turns_before-Step {q} c (releases_lock e l) v w = omega arith

waits_turns :
    {c : Client} {q r : Queue} {others mine : ℕ}
    → IsValid q
    → Waits c q others mine r
    → IsValid r × (others + turns_before c r.last ≤ 3 * mine + turns_before c q.last)
waits_turns v start = (v, omega arith)
waits_turns {c} v (goes run w s) =
    let (valid, turns) = waits_turns v run in
    (Step-IsValid s valid, omega (arith, turns, turns_before-Step c s valid w))

-- From a valid state, while client `c` has a caller waiting before every step, the other clients are
-- granted the device at most three times for each time that `c` is, and three times more.
pub waits_grants :
    {c : Client} {q r : Queue} {others mine : ℕ}
    → IsValid q
    → Waits c q others mine r
    → others ≤ 3 * mine + 3
waits_grants {c} {q} v run = omega (arith, (waits_turns v run).1)
