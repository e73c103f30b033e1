-- ===== src/FairQueue/Capacity.antt =====
-- What every interleaving of the queue's callers keeps: the bounds on waiting callers, the order of
-- arrival in each lane, and the lock held while a turn is active.
use lvhvbox.Prelude.{
  ℕ, ◌+◌, ◌≤◌, ◌<◌, ◌≡◌, refl, true, false, ◌&&◌, ◌||◌, List, [], ◌∷◌, ◌++◌, some, leb, length,
  length-append, Option, none, Bool-cases, if_elim, inl, inr, arith,
}
use lvhvbox.FairQueue.Lanes.{
  Client, temperature_monitor, graphite, interactive, discovery, lane, put, pending, same, index,
  remove, lane-put, pending-put, length-remove, Ascending, Ascending-weaken, Ascending-append,
  Ascending-remove,
}
use lvhvbox.FairQueue.{
  Answer, granted, Queue, Counts, Reading, too_late, eligible, is_none, tail, drop, enter, attempt,
  finish, close, take_lock, release_lock, Step, Reach, enters, attempts, finishes, closes,
  takes_lock, releases_lock, here, after, init,
}

pub record IsValid (q : Queue) : Type 0 where
  pub in_capacity : pending q.waiting ≤ q.capacity
  pub in_share : (c : Client) → length (lane q.waiting c) ≤ q.per_client
  pub in_order : (c : Client) → Ascending 0 q.next_ticket (lane q.waiting c)
  pub owned : is_none q.active ≡ false → q.locked ≡ true
  pub served : q.last < 4

-- A lane replaced by one that is no longer and as well ordered.
module _ (q : Queue) (v : IsValid q) (c : Client) (ts : List ℕ) (n : ℕ) where
  put-in_share :
      length ts ≤ q.per_client → (d : Client) → length (lane (put q.waiting c ts) d) ≤ q.per_client
  put-in_share h d = ground (arith, lane-put q.waiting c d ts, v.in_share d)

  put-in_order :
      q.next_ticket ≤ n
      → Ascending 0 n ts
      → (d : Client) → Ascending 0 n (lane (put q.waiting c ts) d)
  put-in_order later h d = elim (Bool-cases (same c d)) [
    | inl e ↦ rw (lane-put q.waiting c d ts, e) h
    | inr e ↦
        rw (lane-put q.waiting c d ts, e)
          (Ascending-weaken (lane q.waiting d) (omega arith) later (v.in_order d))
  ]

  put-in_capacity :
      length ts ≤ length (lane q.waiting c) → pending (put q.waiting c ts) ≤ q.capacity
  put-in_capacity h = omega (arith, pending-put q.waiting c ts, v.in_capacity)

pub index-lt : (c : Client) → index c < 4
index-lt temperature_monitor = omega arith
index-lt graphite = omega arith
index-lt interactive = omega arith
index-lt discovery = omega arith

recount : (q : Queue) (n : Counts) → IsValid q → IsValid (record q { counts = n })
recount q n v = record {
  in_capacity = v.in_capacity;
  in_share = v.in_share;
  in_order = v.in_order;
  owned = v.owned;
  served = v.served;
}

abbrev After : Answer × Queue → Type 0
After (answer, q) = IsValid q

enter-IsValid : (c : Client) (q : Queue) → IsValid q → IsValid (enter c q).1
unfolding enter
enter-IsValid c q v =
    if_elim After q.closed _ _ (λ _. v)
      λ _.
        if_elim After (is_none q.active && q.locked) _ _ (λ _. v)
          λ _.
            if_elim After
              (leb q.per_client (length (lane q.waiting c)) || leb q.capacity (pending q.waiting)) _
              _ (λ _. recount q _ v) joined
  where
    ts : List ℕ
    ts = lane q.waiting c ++ q.next_ticket ∷ []

    joined :
        (leb q.per_client (length (lane q.waiting c)) || leb q.capacity (pending q.waiting)) ≡ false
        → IsValid (record q { waiting = put q.waiting c ts; next_ticket = q.next_ticket + 1 })
    joined g = record {
      in_capacity = ground (
        arith,
        pending-put q.waiting c ts,
        length-append (lane q.waiting c) (q.next_ticket ∷ []),
      );
      in_share =
          put-in_share q v c ts 0
            (ground (arith, length-append (lane q.waiting c) (q.next_ticket ∷ [])));
      in_order =
          put-in_order q v c ts (q.next_ticket + 1) (omega arith)
            (Ascending-append 0 q.next_ticket (lane q.waiting c) (v.in_order c));
      owned = v.owned;
      served = v.served;
    }

-- A caller that leaves without the device.
drop-IsValid : (c : Client) (ticket : ℕ) (q : Queue) → IsValid q → IsValid (drop c ticket q)
drop-IsValid c ticket q v =
    let ts = remove ticket (lane q.waiting c) in
    let shorter = length-remove ticket (lane q.waiting c) in
    record {
      in_capacity = put-in_capacity q v c ts 0 shorter;
      in_share = put-in_share q v c ts 0 (omega (arith, shorter, v.in_share c));
      in_order =
          put-in_order q v c ts q.next_ticket (omega arith)
            (Ascending-remove ticket 0 q.next_ticket (lane q.waiting c) (v.in_order c));
      owned = v.owned;
      served = v.served;
    }

length-tail : (ts : List ℕ) → length (tail ts) ≤ length ts
length-tail [] = omega arith
length-tail (t ∷ ts) = omega arith

Ascending-tail : (low high : ℕ) (ts : List ℕ) → Ascending low high ts → Ascending low high (tail ts)
Ascending-tail low high [] h = h
Ascending-tail low high (t ∷ ts) (above, rest) =
    Ascending-weaken ts {b = t + 1} (omega arith) (omega arith) rest

-- A caller that is granted the device.
grant-IsValid :
    (c : Client) (q : Queue)
    → IsValid q
    → IsValid (record q {
      waiting = put q.waiting c (tail (lane q.waiting c));
      active = some c;
      last = index c;
      locked = true;
    })
grant-IsValid c q v =
    let ts = tail (lane q.waiting c) in
    let shorter = length-tail (lane q.waiting c) in
    record {
      in_capacity = put-in_capacity q v c ts 0 shorter;
      in_share = put-in_share q v c ts 0 (omega (arith, shorter, v.in_share c));
      in_order =
          put-in_order q v c ts q.next_ticket (omega arith)
            (Ascending-tail 0 q.next_ticket (lane q.waiting c) (v.in_order c));
      owned = λ _. refl;
      served = index-lt c;
    }

attempt-IsValid :
    (c : Client) (ticket : ℕ) (r : Reading) (q : Queue)
    → IsValid q
    → IsValid (attempt c ticket r q).1
unfolding attempt
attempt-IsValid c ticket r q v =
    if_elim After q.closed _ _ (λ _. dropped)
      λ _.
        if_elim After (too_late r) _ _ (λ _. recount _ _ dropped)
          λ _.
            if_elim After r.disconnected _ _ (λ _. recount _ _ dropped)
              λ _. if_elim After (eligible c ticket q) _ _ (λ _. grant-IsValid c q v) (λ _. v)
  where
    dropped : IsValid (drop c ticket q)
    dropped = drop-IsValid c ticket q v

pub Step-IsValid : {q r : Queue} → Step q r → IsValid q → IsValid r
unfolding finish close take_lock release_lock
Step-IsValid {q} (enters c) v = enter-IsValid c q v
Step-IsValid {q} (attempts c ticket r) v = attempt-IsValid c ticket r q v
Step-IsValid {q} (finishes c e) v = record {
  in_capacity = v.in_capacity;
  in_share = v.in_share;
  in_order = v.in_order;
  owned = λ e'. cc;
  served = v.served;
}
Step-IsValid {q} closes v = record {
  in_capacity = v.in_capacity;
  in_share = v.in_share;
  in_order = v.in_order;
  owned = v.owned;
  served = v.served;
}
Step-IsValid {q} takes_lock v =
    if_elim After q.locked _ _ (λ _. v)
      λ _. record {
        in_capacity = v.in_capacity;
        in_share = v.in_share;
        in_order = v.in_order;
        owned = λ _. refl;
        served = v.served;
      }
Step-IsValid {q} (releases_lock e l) v = record {
  in_capacity = v.in_capacity;
  in_share = v.in_share;
  in_order = v.in_order;
  owned = λ f. ground arith;
  served = v.served;
}

init-IsValid : (per_client capacity : ℕ) → IsValid (init per_client capacity)
init-IsValid per_client capacity = record {
  in_capacity = omega arith;
  in_share = λ c. no_one c;
  in_order = λ c. none_before c;
  owned = λ e. cc;
  served = omega arith;
}
  where
    no_one : (c : Client) → length (lane (init per_client capacity).waiting c) ≤ per_client
    no_one temperature_monitor = omega arith
    no_one graphite = omega arith
    no_one interactive = omega arith
    no_one discovery = omega arith

    none_before : (c : Client) → Ascending 0 0 (lane (init per_client capacity).waiting c)
    none_before temperature_monitor = omega arith
    none_before graphite = omega arith
    none_before interactive = omega arith
    none_before discovery = omega arith

-- A caller is granted the device only when it is free.
unfoldable pub GrantsFree : Queue → Type 0
GrantsFree q =
    (c : Client) (ticket : ℕ) (r : Reading)
    → (attempt c ticket r q).0 ≡ granted
    → (q.active ≡ none) × (q.locked ≡ false)

is_none-none : (o : Option Client) → is_none o ≡ true → o ≡ none
is_none-none none h = refl
is_none-none (some c) h = cc

attempt-GrantsFree : (q : Queue) → GrantsFree q
unfolding GrantsFree attempt eligible
attempt-GrantsFree q c ticket r =
    let P : Answer × Queue → Type 0 = λ x. x.0 ≡ granted → (q.active ≡ none) × (q.locked ≡ false) in
    if_elim P q.closed _ _ (λ _ h. cc)
      (λ _.
        if_elim P (too_late r) _ _ (λ _ h. cc)
          (λ _.
            if_elim P r.disconnected _ _ (λ _ h. cc)
              (λ _.
                if_elim P (eligible c ticket q) _ _
                  (λ e h. (is_none-none q.active (ground arith), ground arith)) (λ _ h. cc))))

Reach_lem : (per_client capacity : ℕ) {q : Queue} → Reach (init per_client capacity) q → IsValid q
Reach_lem per_client capacity here = init-IsValid per_client capacity
Reach_lem per_client capacity (after path step) =
    Step-IsValid step (Reach_lem per_client capacity path)

-- In every state that any interleaving of callers, expiries, disconnections and outside users of the
-- device reaches from a new queue: at most `capacity` callers wait, at most `per_client` of each
-- client; each client's callers stand in the order of their arrival; while a turn is active the
-- device lock is held; and a caller is granted the device only when no turn is active and the device
-- lock is free.
pub Reach-IsValid :
    (per_client capacity : ℕ) {q : Queue}
    → Reach (init per_client capacity) q
    → IsValid q × GrantsFree q
Reach-IsValid per_client capacity {q} path =
    (Reach_lem per_client capacity path, attempt-GrantsFree q)
