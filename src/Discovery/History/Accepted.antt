-- ===== src/Discovery/History/Accepted.antt =====
-- The history accepts every scan that rs485-server/rs485.py completes.
use lvhvbox.Prelude.{
  ℕ, suc, ◌+◌, ◌≤◌, ◌<◌, ◌≡◌, refl, ap, ◌∙◌, Bool, true, false, List, [], ◌∷◌, ◌==◌, leb, le→leb,
  all, length, Option, Result, ok, err, arith,
}
use lvhvbox.Rs485.Session.{Session}
use lvhvbox.Rs485.Bus.{Call, Probes, value, discover}
use lvhvbox.Rs485.Bus.Inventory.{Ascends, discover-Ascends}
use lvhvbox.Discovery.History.{
  member, insert_sorted, sorted, distinct, addresses, History, Found, in_range, recorded, validated,
  save, record_scan,
}

same_length : (n : ℕ) → n == n ≡ true
same_length n = ground arith

length-Ascends : (low high : ℕ) (xs : List ℕ) → Ascends low high xs → low + length xs ≤ high
length-Ascends low high [] h = omega arith
length-Ascends low high (x ∷ xs) (le, rest) = omega (arith, length-Ascends (suc x) high xs rest)

member-Ascends :
    (a low high : ℕ) (xs : List ℕ) → Ascends low high xs → a < low → member a xs ≡ false
member-Ascends a low high [] h lt = refl
member-Ascends a low high (x ∷ xs) (le, rest) lt =
    ground (arith, member-Ascends a (suc x) high xs rest (omega arith))

distinct-Ascends : (low high : ℕ) (xs : List ℕ) → Ascends low high xs → distinct xs ≡ xs
unfolding distinct
distinct-Ascends low high [] h = refl
distinct-Ascends low high (x ∷ xs) (le, rest) =
    rw (member-Ascends x (suc x) high xs rest (omega arith))
      (ap (◌∷◌ x) (distinct-Ascends (suc x) high xs rest))

insert-Ascends : (x high : ℕ) (xs : List ℕ) → Ascends (suc x) high xs → insert_sorted x xs ≡ x ∷ xs
unfolding insert_sorted
insert-Ascends x high [] h = refl
insert-Ascends x high (y ∷ ys) (le, rest) = rw (le→leb x y (omega arith)) refl

sorted-Ascends : (low high : ℕ) (xs : List ℕ) → Ascends low high xs → sorted xs ≡ xs
unfolding sorted
sorted-Ascends low high [] h = refl
sorted-Ascends low high (x ∷ xs) (le, rest) =
    ap (insert_sorted x) (sorted-Ascends (suc x) high xs rest) ∙ insert-Ascends x high xs rest

all-Ascends :
    (p : ℕ → Bool) (low high : ℕ) (xs : List ℕ)
    → ((a : ℕ) → low ≤ a → a < high → p a ≡ true)
    → Ascends low high xs
    → all p xs ≡ true
all-Ascends p low high [] h asc = refl
all-Ascends p low high (x ∷ xs) h (le, rest) =
    rw (h x le (omega (arith, length-Ascends (suc x) high xs rest)))
      (all-Ascends p (suc x) high xs (λ a low' high'. h a (omega arith) high') rest)

addresses-Ascends :
    (low : ℕ) (high : ℕ) (xs : List ℕ) → high ≤ 512 → Ascends low high xs → addresses xs ≡ ok xs
unfolding addresses
addresses-Ascends low high xs le asc =
    rw
      (
        le→leb (length xs) 512 (omega (arith, length-Ascends low high xs asc)),
        all-Ascends (λ a. leb a 511) low high xs (λ a h k. le→leb a 511 (omega arith)) asc,
        distinct-Ascends low high xs asc,
        sorted-Ascends low high xs asc,
      )
      (rw (same_length (length xs)) refl)

-- The dictionary that `discover` returns.
abbrev pub report_of : ℕ → ℕ → ℕ → Probes → Found
report_of stamp start stop q = record {
  scanned = true;
  addresses = q.found;
  start = start;
  stop = stop;
  timestamp = stamp;
}

discover-validated :
    (timeout : ℕ) (admitted : ℕ → Bool) (calls : ℕ → Call) (scanning opened : Bool) (start stop : ℕ)
    (s last : Session) (q : Probes)
    → discover timeout admitted calls scanning opened start stop s ≡ (value q, last)
    → (stamp : ℕ) → validated (report_of stamp start stop q) ≡ ok q.found
discover-validated timeout admitted calls scanning opened start stop s last q e stamp =
    let (low, high, asc) =
      discover-Ascends timeout admitted calls scanning opened start stop s last q e in
    rw
      (
        addresses-Ascends start (suc stop) q.found (omega arith) asc,
        le→leb start stop low,
        le→leb stop 511 high,
        all-Ascends (in_range (report_of stamp start stop q)) start (suc stop) q.found
            (λ a h k. rw (le→leb start a h) (le→leb a stop (omega arith))) asc,
      )
      refl

-- The history accepts every scan that completes: `record` finds nothing invalid in it, the addresses
-- it puts in memory are the ones that were found, in their order, and the call ends as `_save` does.
pub discover-record_scan :
    (timeout : ℕ) (admitted : ℕ → Bool) (calls : ℕ → Call) (scanning opened : Bool) (start stop : ℕ)
    (s last : Session) (q : Probes)
    → discover timeout admitted calls scanning opened start stop s ≡ (value q, last)
    → (uuid : ℕ → ℕ) (writes : Bool) (h : History) (stamp : ℕ) (powered : Option Bool)
      (startup power_on : Bool)
    → record_scan uuid writes h (report_of stamp start stop q) powered startup power_on ≡ (
      recorded uuid h (report_of stamp start stop q) q.found powered startup power_on,
      save writes,
    )
unfolding record_scan
discover-record_scan timeout admitted calls scanning opened start stop s last q e uuid writes h
      stamp powered startup power_on =
    ap
      (λ (r : Result (List ℕ)). elim r as (λ _. History × Result (Unit {0})) [
        | err e ↦ (h, err e)
        | ok found ↦ (
          recorded uuid h (report_of stamp start stop q) found powered startup power_on,
          save writes,
        )
      ])
      (discover-validated timeout admitted calls scanning opened start stop s last q e stamp)
