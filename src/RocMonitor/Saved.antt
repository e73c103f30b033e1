-- ===== src/RocMonitor/Saved.antt =====
-- `restore` and `save` of roc-temperature-monitor/roc_temperature_monitor.py: the state over a restart. A
-- member of the file that is missing or has another type is `bad`, as is a time below zero.
use lvhvbox.Prelude.{
  ℕ, ◌-◌, ◌≤◌, ◌≡◌, refl, sym, ap, subst, ◌∙◌, ==_iff, any, find, select, Bool-cases, inl, inr,
  Bool, true, false, not, ◌&&◌, ◌||◌, List, [], ◌∷◌, map, if◌then◌else◌, ◌==◌, ltb, leb, All,
  le→leb, Option, none, some, Result, ok, err, value_error, guard, ◌>>=◌, ◌>>◌, arith,
}
use lvhvbox.RocMonitor.{
  PanelState, Monitor, Key, hot, missing, psu_missing, has, keeps, insert_sorted, sorted, or_fresh,
  set_panels,
}

pub data Field : Type 0 where
  absent bad : Field
  finite : ℕ → Field

-- The members of one saved panel; `name` is the panel's number, none if its name is not valid.
pub record SavedPanel : Type 0 where
  pub name : Option ℕ
  pub powered_since : Field
  pub last_good : Field
  pub high_count : Option ℕ
  pub temperature : Field

pub record SavedState : Type 0 where
  pub identity : ℕ
  pub saved_at : ℕ
  pub panels : List SavedPanel
  pub delivered : Option (List (Key × List ℕ))
  pub dry_run : Bool
  pub powered_since : Field
  pub last_quorum : Field

pub data File : Type 0 where
  missing_file unreadable : File
  contents : SavedState → File

-- A time of the past, or none.
abbrev pub timer : ℕ → Field → Result (Option ℕ)
timer now absent = ok none
timer now bad = err value_error
timer now (finite t) = do guard (leb t now) value_error; ok (some t)

abbrev pub reading : Field → Result (Option ℕ)
reading absent = ok none
reading bad = err value_error
reading (finite t) = ok (some t)

abbrev pub required {ℓ} : {A : Type ℓ} → Option A → Result A
required none = err value_error
required (some a) = ok a

abbrev pub is_none : Option ℕ → Bool
is_none none = true
is_none (some t) = false

-- One round of the loop over the saved states; `old` is whether the file is older than 90 seconds.
unfoldable pub restore_panel : ℕ → Bool → SavedPanel → Result (ℕ × PanelState)
restore_panel now old p = do
  name ← required p.name
  since ← timer now p.powered_since
  good ← timer now p.last_good
  count ← required p.high_count
  temperature ← reading p.temperature
  guard (not (ltb 0 count && is_none temperature)) value_error
  ok (
    name,
    record {
      powered_since = since;
      last_good = good;
      high_count = if old then 0 else count;
      temperature = temperature;
    },
  )

unfoldable pub restore_panels : ℕ → Bool → List SavedPanel → Result (List (ℕ × PanelState))
restore_panels now old [] = ok []
restore_panels now old (p ∷ ps) = do
  first ← restore_panel now old p
  rest ← restore_panels now old ps
  ok (first ∷ rest)

abbrev pub names : List (ℕ × PanelState) → List ℕ
names = map (λ p. p.0)

-- The monitor with what was saved, before it is given the panels.
abbrev pub with_state :
    List (ℕ × PanelState) → List (Key × List ℕ) → Option ℕ → Option ℕ → Monitor → Monitor
with_state states delivered since quorum m = record m {
  states = states;
  delivered = delivered;
  powered_since = since;
  last_quorum = quorum;
}

-- `stale` is 90 seconds.
unfoldable pub restored : ℕ → ℕ → Bool → SavedState → Monitor → Result Monitor
restored stale now dry_run s m = do
  states ← restore_panels now (ltb stale (now - s.saved_at)) s.panels
  delivered ← required s.delivered
  since ← timer now s.powered_since
  quorum ← timer now s.last_quorum
  let same_mode = (s.dry_run && dry_run) || not (s.dry_run || dry_run)
  ok (
      set_panels (names states)
        (with_state states (if same_mode then delivered else []) since quorum m))

abbrev pub or_kept : Monitor → Result Monitor → Monitor
or_kept m (ok after) = after
or_kept m (err e) = m

-- `restore`: a state of another configuration, or from later than now, is not used, and an invalid one
-- changes nothing.
unfoldable pub restore : ℕ → ℕ → ℕ → Bool → File → Monitor → Monitor
restore stale identity now dry_run missing_file m = m
restore stale identity now dry_run unreadable m = m
restore stale identity now dry_run (contents s) m =
    if not (s.identity == identity) || not (leb s.saved_at now)
    then m
    else or_kept m (restored stale now dry_run s m)

abbrev pub field_of : Option ℕ → Field
field_of none = absent
field_of (some t) = finite t

abbrev pub saved_panel : ℕ × PanelState → SavedPanel
saved_panel (name, s) = record {
  name = some name;
  powered_since = field_of s.powered_since;
  last_good = field_of s.last_good;
  high_count = some s.high_count;
  temperature = field_of s.temperature;
}

-- `save` at the reading `now`
unfoldable pub save : ℕ → ℕ → Bool → Monitor → SavedState
save identity now dry_run m = record {
  identity = identity;
  saved_at = now;
  panels = map saved_panel m.states;
  delivered = some m.delivered;
  dry_run = dry_run;
  powered_since = field_of m.powered_since;
  last_quorum = field_of m.last_quorum;
}

-- The times of a monitor are not after `now`, and no streak stands without a temperature.
abbrev pub IsPast : ℕ → Option ℕ → Type 0
IsPast now none = Unit
IsPast now (some t) = t ≤ now

abbrev pub IsPanelPast : ℕ → ℕ × PanelState → Type 0
IsPanelPast now (name, s) =
    IsPast now s.powered_since
    × IsPast now s.last_good
    × (ltb 0 s.high_count && is_none s.temperature ≡ false)

abbrev pub forgotten : Bool → ℕ × PanelState → ℕ × PanelState
forgotten old (name, s) = (
  name,
  record {
    powered_since = s.powered_since;
    last_good = s.last_good;
    high_count = if old then 0 else s.high_count;
    temperature = s.temperature;
  },
)

timer-field_of :
    (now later : ℕ) (t : Option ℕ) → IsPast now t → now ≤ later → timer later (field_of t) ≡ ok t
timer-field_of now later none h le = refl
timer-field_of now later (some t) h le = rw (le→leb t later (omega arith)) refl

reading-field_of : (t : Option ℕ) → reading (field_of t) ≡ ok t
reading-field_of none = refl
reading-field_of (some t) = refl

restore-saved_panel :
    (now later : ℕ) (old : Bool) (p : ℕ × PanelState)
    → IsPanelPast now p
    → now ≤ later
    → restore_panel later old (saved_panel p) ≡ ok (forgotten old p)
unfolding restore_panel
restore-saved_panel now later old (name, s) (since, good, streak) le =
    rw
      (
        timer-field_of now later s.powered_since since le,
        timer-field_of now later s.last_good good le,
        reading-field_of s.temperature,
        streak,
      )
      refl

restore-saved_panels :
    (now later : ℕ) (old : Bool) (ps : List (ℕ × PanelState))
    → All (IsPanelPast now) ps
    → now ≤ later
    → restore_panels later old (map saved_panel ps) ≡ ok (map (forgotten old) ps)
unfolding restore_panels
restore-saved_panels now later old [] h le = refl
restore-saved_panels now later old (p ∷ ps) (one, rest) le =
    rw (restore-saved_panel now later old p one le, restore-saved_panels now later old ps rest le)
      refl

-- A dictionary made anew from its own keys, in another order, holds what it held.
abbrev among : ℕ → List ℕ → Bool
among p = any (λ q. q == p)

among-insert_sorted : (p q : ℕ) (ns : List ℕ) → among p (insert_sorted q ns) ≡ among p (q ∷ ns)
unfolding insert_sorted
among-insert_sorted p q [] = refl
among-insert_sorted p q (n ∷ ns) = ground (arith, among-insert_sorted p q ns)

among-sorted : (p : ℕ) (ns : List ℕ) → among p (sorted ns) ≡ among p ns
unfolding sorted
among-sorted p [] = refl
among-sorted p (n ∷ ns) = ground (arith, among-insert_sorted p n (sorted ns), among-sorted p ns)

among-names :
    (p : ℕ) (states : List (ℕ × PanelState)) → among p (names states) ≡ has (find ◌==◌ p states)
among-names p [] = refl
among-names p ((n, s) ∷ rest) = elim (Bool-cases (n == p)) [
  | inl e ↦ rw e refl
  | inr e ↦ rw e (among-names p rest)
]

find-made :
    (p : ℕ) (g : ℕ → PanelState) (ns : List ℕ)
    → find ◌==◌ p (map (λ n. (n, g n)) ns) ≡ (if among p ns then some (g p) else none)
find-made p g [] = refl
find-made p g (n ∷ ns) = elim (Bool-cases (n == p)) [
  | inl e ↦ rw e (ap (λ (k : ℕ). some (g k)) ((==_iff n p).0 e))
  | inr e ↦ rw e (find-made p g ns)
]

or_fresh-has : (o : Option PanelState) → (if has o then some (or_fresh o) else none) ≡ o
or_fresh-has none = refl
or_fresh-has (some s) = refl

-- The states that `set_panels` makes for the panels that have one.
remade : List (ℕ × PanelState) → List (ℕ × PanelState)
remade states = map (λ p. (p, or_fresh (find ◌==◌ p states))) (sorted (names states))

find-remade :
    (p : ℕ) (states : List (ℕ × PanelState)) → find ◌==◌ p (remade states) ≡ find ◌==◌ p states
unfolding remade
find-remade p states =
    find-made p (λ n. or_fresh (find ◌==◌ n states)) (sorted (names states))
    ∙ ap (λ (b : Bool). if b then some (or_fresh (find ◌==◌ p states)) else none)
        (among-sorted p (names states) ∙ among-names p states)
    ∙ or_fresh-has (find ◌==◌ p states)

has-forgotten :
    (p : ℕ) (old : Bool) (states : List (ℕ × PanelState))
    → has (find ◌==◌ p (map (forgotten old) states)) ≡ has (find ◌==◌ p states)
has-forgotten p old [] = refl
has-forgotten p old ((n, s) ∷ rest) = elim (Bool-cases (n == p)) [
  | inl e ↦ rw e refl
  | inr e ↦ rw e (has-forgotten p old rest)
]

-- A record of delivery is about the supply or about a panel with a state.
abbrev pub IsAbout : List (ℕ × PanelState) → Key × List ℕ → Type 0
IsAbout states (hot p, who) = has (find ◌==◌ p states) ≡ true
IsAbout states (missing p, who) = has (find ◌==◌ p states) ≡ true
IsAbout states (psu_missing, who) = Unit

keeps-IsAbout :
    (old : Bool) (states : List (ℕ × PanelState)) (d : Key × List ℕ)
    → IsAbout states d
    → keeps (remade (map (forgotten old) states)) d ≡ true
keeps-IsAbout old states (hot p, who) h =
    ap has (find-remade p (map (forgotten old) states)) ∙ has-forgotten p old states ∙ h
keeps-IsAbout old states (missing p, who) h =
    ap has (find-remade p (map (forgotten old) states)) ∙ has-forgotten p old states ∙ h
keeps-IsAbout old states (psu_missing, who) h = refl

select-keeps :
    (old : Bool) (states : List (ℕ × PanelState)) (ds : List (Key × List ℕ))
    → All (IsAbout states) ds
    → select (keeps (remade (map (forgotten old) states))) ds ≡ ds
select-keeps old states [] h = refl
select-keeps old states (d ∷ ds) (h, rest) =
    rw (keeps-IsAbout old states d h) (ap (◌∷◌ d) (select-keeps old states ds rest))

restored_lem :
    (stale identity now later : ℕ) (dry_run : Bool) (m new : Monitor)
    → All (IsPanelPast now) m.states
    → IsPast now m.powered_since
    → IsPast now m.last_quorum
    → now ≤ later
    → restore stale identity later dry_run (contents (save identity now dry_run m)) new
      ≡ set_panels (names (map (forgotten (ltb stale (later - now))) m.states)) (
          with_state
            (map (forgotten (ltb stale (later - now))) m.states)
            m.delivered
            m.powered_since
            m.last_quorum
            new)
unfolding restore save restored
restored_lem stale identity now later dry_run m new panels since quorum le =
    rw
      (
        same_identity identity,
        le→leb now later le,
        restore-saved_panels now later (ltb stale (later - now)) m.states panels le,
        timer-field_of now later m.powered_since since le,
        timer-field_of now later m.last_quorum quorum le,
        same_mode dry_run,
      )
      refl
  where
    same_identity : (n : ℕ) → n == n ≡ true
    same_identity n = ground arith

    same_mode : (b : Bool) → (b && b) || not (b || b) ≡ true
    same_mode true = refl
    same_mode false = refl

-- A monitor restored from another: the state of each panel, with its streak unless too old, who was
-- notified, and the supply's timers.
pub record Restored (old : Bool) (m after : Monitor) : Type 0 where
  pub same_states : (p : ℕ) → find ◌==◌ p after.states ≡ find ◌==◌ p (map (forgotten old) m.states)
  pub same_panels : (p : ℕ) → any (λ q. q == p) after.panels ≡ has (find ◌==◌ p m.states)
  pub same_delivered : after.delivered ≡ m.delivered
  pub same_power : after.powered_since ≡ m.powered_since
  pub same_quorum : after.last_quorum ≡ m.last_quorum

set_panels-Restored :
    (old : Bool) (m new : Monitor)
    → All (IsAbout m.states) m.delivered
    → Restored old m (
        set_panels
          (names (map (forgotten old) m.states))
          (with_state (map (forgotten old) m.states) m.delivered m.powered_since m.last_quorum new))
unfolding set_panels remade
set_panels-Restored old m new about = record {
  same_states = λ p. find-remade p (map (forgotten old) m.states);
  same_panels = λ p.
      among-sorted p (names (map (forgotten old) m.states))
      ∙ among-names p (map (forgotten old) m.states)
      ∙ has-forgotten p old m.states;
  same_delivered = select-keeps old m.states m.delivered about;
  same_power = refl;
  same_quorum = refl;
}

-- What `save` wrote, `restore` reads back in the same configuration and mode at any later time, in any
-- new monitor: each panel's state, which panels have one, who was notified, and the supply's timers.
-- Only after more than 90 seconds are the streaks forgotten. The times that were saved are not after
-- the save, no streak stands without a temperature, and who was notified is about panels with a state.
pub restore-save :
    (stale identity now later : ℕ) (dry_run : Bool) (m new : Monitor)
    → All (IsPanelPast now) m.states
    → IsPast now m.powered_since
    → IsPast now m.last_quorum
    → All (IsAbout m.states) m.delivered
    → now ≤ later
    → Restored
        (ltb stale (later - now))
        m
        (restore stale identity later dry_run (contents (save identity now dry_run m)) new)
restore-save stale identity now later dry_run m new panels since quorum about le =
    subst (Restored (ltb stale (later - now)) m)
      (sym (restored_lem stale identity now later dry_run m new panels since quorum le))
      (set_panels-Restored (ltb stale (later - now)) m new about)
