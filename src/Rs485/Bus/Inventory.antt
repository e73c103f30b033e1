-- ===== src/Rs485/Bus/Inventory.antt =====
-- The lists that `RS485.discover` makes.
use lvhvbox.Prelude.{
  ℕ, zero, suc, ◌+◌, ◌-◌, ◌≤◌, ◌≡◌, refl, sym, ap, subst, ◌∙◌, Bool, true, false, not, ◌&&◌, ◌||◌,
  List, [], ◌∷◌, ◌++◌, if◌then◌else◌, ◌==◌, ltb, leb, if_elim, value_error, runtime_error, arith,
}
use lvhvbox.Rs485.Session.{Session}
use lvhvbox.Rs485.Bus.{
  response_timeout, roc_error, other, Answer, value, fault, Call, Probes, note_probe, probe,
  probe_range, no_probes, discover,
}

abbrev pub count : ℕ → List ℕ → ℕ
count a [] = 0
count a (b ∷ bs) = (if b == a then 1 else 0) + count a bs

-- How often an address stands in the three lists.
abbrev pub tally : ℕ → Probes → ℕ
tally a p = count a p.found + count a p.no_response + count a p.errors

count-snoc :
    (a : ℕ) (xs : List ℕ) (b : ℕ)
    → count a (xs ++ (b ∷ [])) ≡ count a xs + (if b == a then 1 else 0)
count-snoc a [] b = omega arith
count-snoc a (x ∷ xs) b = omega (arith, count-snoc a xs b)

abbrev value_lem : (A : Type 0) → Answer A → A → A
value_lem A (value v) a = v
value_lem A (fault f) a = a

value-injective : {p q : Probes} → value p ≡ value q → p ≡ q
value-injective {p = p} e = ap (λ r. value_lem Probes r p) e

note-tally :
    (address : ℕ) (answer : Answer ℕ) (p q : Probes)
    → note_probe address answer p ≡ value q
    → (a : ℕ) → tally a q ≡ tally a p + (if address == a then 1 else 0)
note-tally address (value v) p q h a =
    if_elim
      (λ (r : Answer Probes). r ≡ value q → tally a q ≡ tally a p + (if address == a then 1 else 0))
      (v == address) _ _
      (λ _ e. ap (tally a) (sym (value-injective e)) ∙ omega (arith, count-snoc a p.found address))
      (λ _ e. ap (tally a) (sym (value-injective e)) ∙ omega (arith, count-snoc a p.errors address))
      h
note-tally address (fault response_timeout) p q h a =
    ap (tally a) (sym (value-injective h)) ∙ omega (arith, count-snoc a p.no_response address)
note-tally address (fault roc_error) p q h a =
    ap (tally a) (sym (value-injective h)) ∙ omega (arith, count-snoc a p.errors address)
note-tally address (fault (other e)) p q h a = cc

-- One round of the loop.
range_step :
    (noted : Answer Probes) (t : Session) (rest : Probes → Answer Probes × Session) (q : Probes)
    (last : Session)
    → ◌≡◌ {A = Answer Probes × Session}
        (elim noted [ fault f ↦ (fault f, t) | value p ↦ rest p ])
        (value q, last)
    → (p : Probes) × (noted ≡ value p) × (rest p ≡ (value q, last))
range_step (value p) t rest q last h = (p, refl, h)
range_step (fault f) t rest q last h = cc

one_more :
    (a address n : ℕ)
    → (if address == a then 1 else 0)
        + (if leb (suc address) a && ltb a (suc address + n) then 1 else 0)
      ≡ (if leb address a && ltb a (address + suc n) then 1 else 0)
one_more a address n = ground arith

probe_range-tally :
    (timeout : ℕ) (admitted : ℕ → Bool) (calls : ℕ → Call) (n address : ℕ) (p : Probes)
    (s : Session) (q : Probes) (last : Session)
    → probe_range timeout admitted calls n address p s ≡ (value q, last)
    → (a : ℕ) → tally a q ≡ tally a p + (if leb address a && ltb a (address + n) then 1 else 0)
unfolding probe_range
probe_range-tally timeout admitted calls zero address p s q last h a =
    ap (tally a) (sym (value-injective (ap (λ (r : Answer Probes × Session). r.0) h)))
    ∙ ground arith
probe_range-tally timeout admitted calls (suc n) address p s q last h a =
    let (answer, t) = probe timeout address (admitted address) (calls address) s in
    let (mid, noted, more) =
      range_step (note_probe address answer p) t
        (λ r. probe_range timeout admitted calls n (suc address) r t) q last h in
    let later : tally a q
        ≡ tally a mid + (if leb (suc address) a && ltb a (suc address + n) then 1 else 0) =
      probe_range-tally timeout admitted calls n (suc address) mid t q last more a in
    let here : tally a mid ≡ tally a p + (if address == a then 1 else 0) =
      note-tally address answer p mid noted a in
    omega (arith, one_more a address n)

discover_inv :
    (timeout : ℕ) (admitted : ℕ → Bool) (calls : ℕ → Call) (scanning opened : Bool) (start stop : ℕ)
    (s last : Session) (q : Probes)
    → discover timeout admitted calls scanning opened start stop s ≡ (value q, last)
    → (start ≤ stop)
      × (stop ≤ 511)
      × (probe_range timeout admitted calls (stop + 1 - start) start no_probes s ≡ (value q, last))
unfolding discover
discover_inv timeout admitted calls scanning opened start stop s last q h =
    inversion (leb start stop && leb stop 511) (scanning || not opened) refl h
  where
    inversion :
        (valid busy : Bool)
        → leb start stop && leb stop 511 ≡ valid
        → (if not valid
            then (fault (other value_error), s)
            else if busy
            then (fault (other runtime_error), s)
            else probe_range timeout admitted calls (stop + 1 - start) start no_probes s)
          ≡ (value q, last)
        → (start ≤ stop)
          × (stop ≤ 511)
          × (probe_range timeout admitted calls (stop + 1 - start) start no_probes s
              ≡ (value q, last))
    inversion false busy e k = cc
    inversion true true e k = cc
    inversion true false e k = (ground arith, ground arith, k)

-- A scan that completes has put each address of its range in exactly one of the three lists, and once:
-- found, no response, or error. No other address is in any of them.
pub discover-tally :
    (timeout : ℕ) (admitted : ℕ → Bool) (calls : ℕ → Call) (scanning opened : Bool) (start stop : ℕ)
    (s last : Session) (q : Probes)
    → discover timeout admitted calls scanning opened start stop s ≡ (value q, last)
    → (a : ℕ) → tally a q ≡ (if leb start a && leb a stop then 1 else 0)
discover-tally timeout admitted calls scanning opened start stop s last q h a =
    let (low, high, run) =
      discover_inv timeout admitted calls scanning opened start stop s last q h in
    probe_range-tally timeout admitted calls (stop + 1 - start) start no_probes s q last run a
    ∙ range_lem a start stop low
  where
    range_lem :
        (b low high : ℕ)
        → low ≤ high
        → 0 + 0 + 0 + (if leb low b && ltb b (low + (high + 1 - low)) then 1 else 0)
          ≡ (if leb low b && leb b high then 1 else 0)
    range_lem b low high le = ground arith

-- Strictly ascending, from `low` on and below `high`.
abbrev pub Ascends : ℕ → ℕ → List ℕ → Type 0
Ascends low high [] = low ≤ high
Ascends low high (x ∷ xs) = (low ≤ x) × Ascends (suc x) high xs

Ascends-snoc :
    (low high x : ℕ) (xs : List ℕ)
    → Ascends low high xs
    → high ≤ x
    → Ascends low (suc x) (xs ++ (x ∷ []))
Ascends-snoc low high x [] h le = (omega arith, omega arith)
Ascends-snoc low high x (y ∷ ys) (h, rest) le = (h, Ascends-snoc (suc y) high x ys rest le)

Ascends-widen :
    (low high top : ℕ) (xs : List ℕ) → Ascends low high xs → high ≤ top → Ascends low top xs
Ascends-widen low high top [] h le = omega arith
Ascends-widen low high top (y ∷ ys) (h, rest) le = (h, Ascends-widen (suc y) high top ys rest le)

note-Ascends :
    (low address : ℕ) (answer : Answer ℕ) (p q : Probes)
    → Ascends low address p.found
    → note_probe address answer p ≡ value q
    → Ascends low (suc address) q.found
note-Ascends low address (value v) p q asc h =
    if_elim (λ (r : Answer Probes). r ≡ value q → Ascends low (suc address) q.found) (v == address)
      _ _
      (λ _ e.
        subst (λ r. Ascends low (suc address) r.found) (value-injective e)
          (Ascends-snoc low address address p.found asc (omega arith)))
      (λ _ e.
        subst (λ r. Ascends low (suc address) r.found) (value-injective e)
          (Ascends-widen low address (suc address) p.found asc (omega arith)))
      h
note-Ascends low address (fault response_timeout) p q asc h =
    subst (λ r. Ascends low (suc address) r.found) (value-injective h)
      (Ascends-widen low address (suc address) p.found asc (omega arith))
note-Ascends low address (fault roc_error) p q asc h =
    subst (λ r. Ascends low (suc address) r.found) (value-injective h)
      (Ascends-widen low address (suc address) p.found asc (omega arith))
note-Ascends low address (fault (other e)) p q asc h = cc

probe_range-Ascends :
    (timeout : ℕ) (admitted : ℕ → Bool) (calls : ℕ → Call) (low n address : ℕ) (p : Probes)
    (s : Session) (q : Probes) (last : Session)
    → probe_range timeout admitted calls n address p s ≡ (value q, last)
    → Ascends low address p.found
    → Ascends low (address + n) q.found
unfolding probe_range
probe_range-Ascends timeout admitted calls low zero address p s q last h asc =
    subst (λ r. Ascends low (address + 0) r.found)
      (value-injective (ap (λ (r : Answer Probes × Session). r.0) h))
      (Ascends-widen low address (address + 0) p.found asc (omega arith))
probe_range-Ascends timeout admitted calls low (suc n) address p s q last h asc =
    let (answer, t) = probe timeout address (admitted address) (calls address) s in
    let (mid, noted, more) =
      range_step (note_probe address answer p) t
        (λ r. probe_range timeout admitted calls n (suc address) r t) q last h in
    Ascends-widen low (suc address + n) (address + suc n) q.found
      (probe_range-Ascends timeout admitted calls low n (suc address) mid t q last more
        (note-Ascends low address answer p mid asc noted))
      (omega arith)

-- The addresses found are ascending and in the range.
pub discover-Ascends :
    (timeout : ℕ) (admitted : ℕ → Bool) (calls : ℕ → Call) (scanning opened : Bool) (start stop : ℕ)
    (s last : Session) (q : Probes)
    → discover timeout admitted calls scanning opened start stop s ≡ (value q, last)
    → (start ≤ stop) × (stop ≤ 511) × Ascends start (suc stop) q.found
discover-Ascends timeout admitted calls scanning opened start stop s last q h =
    let (low, high, run) =
      discover_inv timeout admitted calls scanning opened start stop s last q h in
    (
      low,
      high,
      Ascends-widen start (start + (stop + 1 - start)) (suc stop) q.found
          (probe_range-Ascends timeout admitted calls start (stop + 1 - start) start no_probes s q
            last run (omega arith))
          (omega arith),
    )
