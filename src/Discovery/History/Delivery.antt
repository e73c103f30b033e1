-- ===== src/Discovery/History/Delivery.antt =====
-- What `deliver` does to the queue of warnings.
use lvhvbox.Prelude.{
  ℕ, ◌≡◌, refl, subst, ◌∙◌, Bool, true, false, not, ◌&&◌, ◌||◌, ◌⊎◌, inl, inr, List, [], ◌∷◌, ◌++◌,
  if_elim, Bool-cases, ◌==◌, any, all, select, All, Result, ok, err, arith,
}
use lvhvbox.Discovery.History.{
  member, Event, History, Notifier, Flow, next, returned, raised, add_recipient, verify_power,
  sent_by, with_power, deliver_user, continue, deliver_users, is_done, retire, deliver_events,
  deliver,
}

abbrev pub was_sent : ℕ → ℕ → List (ℕ × ℕ) → Bool
was_sent id user [] = false
was_sent id user ((i, u) ∷ sent) = (i == id && u == user) || was_sent id user sent

-- A recipient that is noted in a queued warning was sent it.
abbrev pub Backs : List (ℕ × ℕ) → Event → Type 0
Backs sent e = (user : ℕ) → member user e.delivered ≡ true → was_sent e.id user sent ≡ true

abbrev pub is_queued : ℕ → List Event → Bool
is_queued id = any (λ e. e.id == id)

-- The warning is queued, or each recipient was sent it.
abbrev pub IsKept : ℕ → List ℕ → History → Notifier → Type 0
IsKept id users h n =
    All (Backs n.sent) h.pending
    × ((is_queued id h.pending ≡ true) ⊎ All (λ user. was_sent id user n.sent ≡ true) users)

abbrev pub Holds : (History → Notifier → Type 0) → Flow → Type 0
Holds P (next h n) = P h n
Holds P (returned h n) = P h n
Holds P (raised h n) = P h n

Holds-continue :
    (P : History → Notifier → Type 0) (flow : Flow) (body : History → Notifier → Flow)
    → Holds P flow
    → ((h : History) (n : Notifier) → P h n → Holds P (body h n))
    → Holds P (continue flow body)
Holds-continue P (next h n) body p f = f h n p
Holds-continue P (returned h n) body p f = p
Holds-continue P (raised h n) body p f = p

member-snoc : (a : ℕ) (xs : List ℕ) (b : ℕ) → member a (xs ++ (b ∷ [])) ≡ (member a xs || b == a)
member-snoc a [] b = ground arith
member-snoc a (x ∷ xs) b = ground (arith, member-snoc a xs b)

Backs-more :
    (sent : List (ℕ × ℕ)) (id user : ℕ) (events : List Event)
    → All (Backs sent) events
    → All (Backs ((id, user) ∷ sent)) events
Backs-more sent id user [] h = tt
Backs-more sent id user (e ∷ events) (b, rest) =
    (λ u m. ground (arith, b u m), Backs-more sent id user events rest)

Backs-add :
    (sent : List (ℕ × ℕ)) (id user : ℕ) (events : List Event)
    → All (Backs sent) events
    → All (Backs ((id, user) ∷ sent)) (add_recipient id user events)
Backs-add sent id user [] h = tt
Backs-add sent id user (e ∷ events) (b, rest) =
    if_elim (All (Backs ((id, user) ∷ sent))) (e.id == id) _ _
      (λ same. (
        λ u m. ground (arith, b u, member-snoc u e.delivered user),
        Backs-more sent id user events rest,
      ))
      (λ _. (λ u m. ground (arith, b u m), Backs-add sent id user events rest))

is_queued-add :
    (k id user : ℕ) (events : List Event)
    → is_queued k (add_recipient id user events) ≡ is_queued k events
is_queued-add k id user [] = refl
is_queued-add k id user (e ∷ events) = ground (arith, is_queued-add k id user events)

sent-more :
    (k id user : ℕ) (sent : List (ℕ × ℕ)) (users : List ℕ)
    → All (λ u. was_sent k u sent ≡ true) users
    → All (λ u. was_sent k u ((id, user) ∷ sent) ≡ true) users
sent-more k id user sent [] h = tt
sent-more k id user sent (u ∷ users) (a, rest) = (ground arith, sent-more k id user sent users rest)

kept_or_sent :
    (k id user : ℕ) (events : List Event) (sent : List (ℕ × ℕ)) (users : List ℕ)
    → (is_queued k events ≡ true) ⊎ All (λ u. was_sent k u sent ≡ true) users
    → (is_queued k (add_recipient id user events) ≡ true)
      ⊎ All (λ u. was_sent k u ((id, user) ∷ sent) ≡ true) users
kept_or_sent k id user events sent users (inl q) = inl (is_queued-add k id user events ∙ q)
kept_or_sent k id user events sent users (inr a) = inr (sent-more k id user sent users a)

sent_by-IsKept :
    (k : ℕ) (users : List ℕ) (e : Event) (user : ℕ) (h : History) (sent : List (ℕ × ℕ))
    (powers : List (Result Bool)) (accepts : List Bool)
    → All (Backs sent) h.pending
    → (is_queued k h.pending ≡ true) ⊎ All (λ u. was_sent k u sent ≡ true) users
    → Holds (IsKept k users) (sent_by e user h sent powers accepts)
sent_by-IsKept k users e user h sent powers [] b q = (b, q)
sent_by-IsKept k users e user h sent powers (false ∷ accepts) b q = (b, q)
sent_by-IsKept k users e user h sent powers (true ∷ accepts) b q =
    (Backs-add sent e.id user h.pending b, kept_or_sent k e.id user h.pending sent users q)

with_power-IsKept :
    (k : ℕ) (users : List ℕ) (e : Event) (user : ℕ) (h : History) (n : Notifier)
    (v : Result Bool × List (Result Bool))
    → IsKept k users h n
    → Holds (IsKept k users) (with_power e user h n v)
with_power-IsKept k users e user h n (err x, powers) p = p
with_power-IsKept k users e user h n (ok false, powers) p = p
with_power-IsKept k users e user h n (ok true, powers) (b, q) =
    sent_by-IsKept k users e user h n.sent powers n.accepts b q

deliver_users-IsKept :
    (k : ℕ) (all_users : List ℕ) (reader : Bool) (e : Event) (users : List ℕ) (h : History)
    (n : Notifier)
    → IsKept k all_users h n
    → Holds (IsKept k all_users) (deliver_users reader e users h n)
unfolding deliver_users deliver_user
deliver_users-IsKept k all_users reader e [] h n p = p
deliver_users-IsKept k all_users reader e (user ∷ users) h n p =
    Holds-continue (IsKept k all_users) (deliver_user reader e user h n)
      (deliver_users reader e users)
      (if_elim (Holds (IsKept k all_users)) (member user e.delivered) _ _ (λ _. p)
        (λ _. with_power-IsKept k all_users e user h n (verify_power reader n.powers) p))
      (λ h' n' p'. deliver_users-IsKept k all_users reader e users h' n' p')

all-sent :
    (k : ℕ) (sent : List (ℕ × ℕ)) (x : Event) (users : List ℕ)
    → Backs sent x
    → x.id ≡ k
    → all (λ u. member u x.delivered) users ≡ true
    → All (λ u. was_sent k u sent ≡ true) users
all-sent k sent x [] b same h = tt
all-sent k sent x (u ∷ users) b same h =
    let here : member u x.delivered ≡ true = ground arith in
    (
      subst (λ (i : ℕ). was_sent i u sent ≡ true) same (b u here),
      all-sent k sent x users b same (ground arith),
    )

retire-Backs :
    (sent : List (ℕ × ℕ)) (p : Event → Bool) (events : List Event)
    → All (Backs sent) events
    → All (Backs sent) (select p events)
retire-Backs sent p [] h = tt
retire-Backs sent p (x ∷ events) (b, rest) =
    if_elim (All (Backs sent)) (p x) _ _ (λ _. (b, retire-Backs sent p events rest))
      (λ _. retire-Backs sent p events rest)

retire-queued :
    (k : ℕ) (users : List ℕ) (e : Event) (sent : List (ℕ × ℕ)) (events : List Event)
    → All (Backs sent) events
    → is_queued k events ≡ true
    → (is_queued k (select (λ x. not (is_done users e x)) events) ≡ true)
      ⊎ All (λ u. was_sent k u sent ≡ true) users
retire-queued k users e sent [] b h = cc
retire-queued k users e sent (x ∷ events) (b, rest) h = elim (Bool-cases (x.id == k)) [
  | inl same ↦ elim (Bool-cases (is_done users e x)) [
    | inl done ↦ inr (all-sent k sent x users b (ground arith) (ground arith))
    | inr kept ↦ inl (ground arith)
  ]
  | inr other ↦
      let later : is_queued k events ≡ true = ground arith in
      elim (retire-queued k users e sent events rest later) [
        | inl q ↦ inl (ground arith)
        | inr a ↦ inr a
      ]
]

retire-IsKept :
    (k : ℕ) (users : List ℕ) (e : Event) (h : History) (n : Notifier)
    → IsKept k users h n
    → IsKept k users (retire users e h) n
retire-IsKept k users e h n (b, inl q) = (
  retire-Backs n.sent (λ x. not (is_done users e x)) h.pending b,
  retire-queued k users e n.sent h.pending b q,
)
retire-IsKept k users e h n (b, inr a) =
    (retire-Backs n.sent (λ x. not (is_done users e x)) h.pending b, inr a)

deliver_events-IsKept :
    (k : ℕ) (reader : Bool) (users : List ℕ) (events : List Event) (h : History) (n : Notifier)
    → IsKept k users h n
    → Holds (IsKept k users) (deliver_events reader users events h n)
unfolding deliver_events
deliver_events-IsKept k reader users [] h n p = p
deliver_events-IsKept k reader users (e ∷ events) h n p =
    Holds-continue (IsKept k users) (deliver_users reader e users h n)
      (λ h n. deliver_events reader users events (retire users e h) n)
      (deliver_users-IsKept k users reader e users h n p)
      (λ h' n' p'.
        deliver_events-IsKept k reader users events (retire users e h') n'
          (retire-IsKept k users e h' n' p'))

-- However a delivery goes (accepted, refused, stopped because the power is off or unknown, or ended by an
-- error), each warning that was queued before it is queued after it or has been sent to every
-- recipient; and a recipient is noted in a queued warning only if it was sent to them, if that
-- was so before.
pub deliver-IsKept :
    (reader : Bool) (users : List ℕ) (h : History) (n : Notifier) (id : ℕ)
    → All (Backs n.sent) h.pending
    → is_queued id h.pending ≡ true
    → Holds (IsKept id users) (deliver reader users h n)
unfolding deliver
deliver-IsKept reader users h n id b q =
    deliver_events-IsKept id reader users h.pending h n (b, inl q)
