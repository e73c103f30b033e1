-- ===== src/Discovery/History/Queue.antt =====
-- The warnings that a scan queues.
use lvhvbox.Prelude.{
  ℕ, zero, suc, ◌≤◌, ◌≡◌, refl, sym, ap, ◌∙◌, Bool, true, false, not, ◌&&◌, ◌||◌, List, [], ◌∷◌,
  ◌++◌, if◌then◌else◌, length, take, drop, select, length-drop, take-append-drop, append-nil, All,
  Option, arith,
}
use lvhvbox.Discovery.History.{
  member, Event, History, Found, in_range, is_on, missing_panels, chunks, chunk_events, recorded,
}
use lvhvbox.Discovery.History.Inventory.{member-sorted, member-select}

-- The addresses of a sequence of warnings, in order.
abbrev pub all_missing : List Event → List ℕ
all_missing [] = []
all_missing (e ∷ events) = e.missing ++ all_missing events

-- A new warning names one to a hundred panels, and nobody has it.
abbrev pub IsFresh : Event → Type 0
IsFresh e = (1 ≤ length e.missing) × (length e.missing ≤ 100) × (e.delivered ≡ [])

length-take_le : (n : ℕ) (xs : List ℕ) → length (take n xs) ≤ n
length-take_le zero xs = omega arith
length-take_le (suc n) [] = omega arith
length-take_le (suc n) (x ∷ xs) = omega (arith, length-take_le n xs)

all_missing-chunks :
    (uuid : ℕ → ℕ) (stamp : ℕ) (power_on : Bool) (n k : ℕ) (missing : List ℕ)
    → length missing ≤ n
    → all_missing (chunk_events uuid stamp power_on k (chunks n missing)) ≡ missing
unfolding chunk_events chunks
all_missing-chunks uuid stamp power_on zero k [] h = refl
all_missing-chunks uuid stamp power_on zero k (a ∷ missing) h = absurd (omega arith)
all_missing-chunks uuid stamp power_on (suc n) k [] h = refl
all_missing-chunks uuid stamp power_on (suc n) k (a ∷ missing) h =
    rw
      (all_missing-chunks uuid stamp power_on n (suc k) (drop 99 missing)
        (omega (arith, length-drop 99 missing)))
      (ap (◌∷◌ a) (take-append-drop 99 missing))

chunks-IsFresh :
    (uuid : ℕ → ℕ) (stamp : ℕ) (power_on : Bool) (n k : ℕ) (missing : List ℕ)
    → All IsFresh (chunk_events uuid stamp power_on k (chunks n missing))
unfolding chunk_events chunks
chunks-IsFresh uuid stamp power_on zero k missing = tt
chunks-IsFresh uuid stamp power_on (suc n) k [] = tt
chunks-IsFresh uuid stamp power_on (suc n) k (a ∷ missing) = (
  (omega arith, omega (arith, length-take_le 99 missing), refl),
  chunks-IsFresh uuid stamp power_on n (suc k) (drop 99 missing),
)

-- A scan leaves the queued warnings as they are and adds new ones behind them. With the power on at a
-- startup or a power-on, the new warnings together name exactly the missing panels, in order,
-- and otherwise there are none; each names one to a hundred panels. The missing panels are the expected
-- ones of the scanned range that were not found.
pub recorded_warnings :
    (uuid : ℕ → ℕ) (h : History) (i : Found) (found : List ℕ) (powered : Option Bool)
    (startup power_on : Bool)
    → (new : List Event) × ((recorded uuid h i found powered startup power_on).pending
        ≡ h.pending ++ new)
      × All IsFresh new
      × (all_missing new
          ≡ (if is_on powered && (startup || power_on) then missing_panels h i found else []))
      × ((a : ℕ)
          → member a (missing_panels h i found)
            ≡ ((in_range i a && not (member a found)) && member a h.last_discovered))
unfolding recorded missing_panels
recorded_warnings uuid h i found powered startup power_on =
    queue (is_on powered && (startup || power_on))
  where
    missing : List ℕ
    missing = missing_panels h i found

    members :
        (a : ℕ)
        → member a missing ≡ ((in_range i a && not (member a found)) && member a h.last_discovered)
    members a =
        member-sorted a (select (λ b. in_range i b && not (member b found)) h.last_discovered)
        ∙ member-select (λ b. in_range i b && not (member b found)) a h.last_discovered

    queue :
        (warn : Bool)
        → (new : List Event) × ((if warn
              then h.pending
                ++ chunk_events uuid i.timestamp power_on 0 (chunks (length missing) missing)
              else h.pending)
            ≡ h.pending ++ new)
          × All IsFresh new
          × (all_missing new ≡ (if warn then missing else []))
          × ((a : ℕ)
              → member a missing
                ≡ ((in_range i a && not (member a found)) && member a h.last_discovered))
    queue true = (
      chunk_events uuid i.timestamp power_on 0 (chunks (length missing) missing),
      refl,
      chunks-IsFresh uuid i.timestamp power_on (length missing) 0 missing,
      all_missing-chunks uuid i.timestamp power_on (length missing) 0 missing (omega arith),
      members,
    )
    queue false = ([], sym (append-nil h.pending), tt, refl, members)
