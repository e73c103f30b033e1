-- ===== src/NetworkWatch/Outage.antt =====
-- When the loop of network-watch/network-watch.py commands the supply to switch off.
use lvhvbox.Prelude.{
  ℕ, suc, ◌+◌, ◌≤◌, ◌≡◌, refl, sym, ap, subst, ◌∙◌, Bool, true, false, false≢true, none≢some,
  leb→le, Bool-cases, inl, inr, List, [], ◌∷◌, ◌++◌, All, any, all, Option, none, some,
  some-injective, if◌then◌else◌, if_elim, ◌==◌, leb, length, Result, ok, ok-injective, >>=-eq-ok,
  arith,
}
use lvhvbox.NetworkWatch.{
  State, Round, Sweep, new_state, probe_group, sweep, started, degrade, round, watched,
}

-- Every group has an endpoint that answers.
abbrev pub healthy : List (List Bool) → Bool
healthy groups = all (any (λ b. b)) groups

probe_group-reachable :
    (group : List Bool) (failures : ℕ) (s : Sweep)
    → (probe_group group failures s).reachable
      ≡ (if any (λ b. b) group then s.reachable + 1 else s.reachable)
unfolding probe_group
probe_group-reachable [] failures s = refl
probe_group-reachable (true ∷ rest) failures s = refl
probe_group-reachable (false ∷ rest) failures s = probe_group-reachable rest (failures + 1) s

sweep_bound :
    (groups : List (List Bool)) (s : Sweep)
    → (sweep groups s).reachable ≤ s.reachable + length groups
unfolding sweep
sweep_bound [] s = omega arith
sweep_bound (g ∷ groups) s =
    ground (arith, sweep_bound groups (probe_group g 0 s), probe_group-reachable g 0 s)

sweep-healthy :
    (groups : List (List Bool)) (s : Sweep)
    → ((sweep groups s).reachable == s.reachable + length groups) ≡ healthy groups
unfolding sweep
sweep-healthy [] s = ground arith
sweep-healthy (g ∷ groups) s = elim (Bool-cases (any (λ b. b) g)) [
  | inl e ↦ rw e (
      ap (λ n. (sweep groups (probe_group g 0 s)).reachable == n) (one_more e)
      ∙ sweep-healthy groups (probe_group g 0 s))
  | inr e ↦
      rw e (ground (arith, sweep_bound groups (probe_group g 0 s), probe_group-reachable g 0 s))
]
  where
    one_more :
        any (λ b. b) g ≡ true
        → s.reachable + suc (length groups) ≡ (probe_group g 0 s).reachable + length groups
    one_more e = ground (arith, probe_group-reachable g 0 s)

all_reachable :
    (groups : List (List Bool))
    → ((sweep groups (record { reachable = 0; failed = 0 })).reachable == length groups)
      ≡ healthy groups
all_reachable groups =
    ap (λ n. (sweep groups (record { reachable = 0; failed = 0 })).reachable == n) zero_more
    ∙ sweep-healthy groups (record { reachable = 0; failed = 0 })
  where
    zero_more : length groups ≡ 0 + length groups
    zero_more = omega arith

-- A round with a group of which no endpoint answers.
unfoldable pub IsDegraded : Round → Type 0
IsDegraded r = healthy r.groups ≡ false

pub degrade-started :
    (grace : ℕ) (dry_run : Bool) (r : Round) (s t : State)
    → (degrade grace dry_run r s).1 ≡ ok t
    → t.outage_started ≡ some (started r.now s.outage_started)
unfolding degrade
degrade-started grace dry_run r s t =
    let P : Bool × Result State → Type 0 =
      λ x. x.1 ≡ ok t → t.outage_started ≡ some (started r.now s.outage_started) in
    if_elim P (leb (started r.now s.outage_started + grace) r.now) _ _
      (λ _. if_elim P dry_run _ _ (λ _ h. latched h) (λ _ h. latched (>>=-eq-ok r.power_off _ h).2))
      (λ _ h. latched h)
  where
    latched : {u : State} → ok u ≡ ok t → t.outage_started ≡ u.outage_started
    latched h = sym (ap (λ (v : State). v.outage_started) (ok-injective h))

-- An outage: the rounds from `first` to the newest all found a group without an answer, and `first`
-- read the clock at `since`.
pub record Outage (since : ℕ) (history : List Round) : Type 0 where
  pub recent : List Round
  pub first : Round
  pub before : List Round
  pub split : history ≡ recent ++ first ∷ before
  pub all_degraded : All IsDegraded (recent ++ first ∷ [])
  pub began : first.now ≡ since

extend :
    (r : Round) (since : ℕ) (older : List Round)
    → IsDegraded r
    → Outage since older
    → Outage since (r ∷ older)
extend r since older d o = record {
  recent = r ∷ o.recent;
  first = o.first;
  before = o.before;
  split = ap (◌∷◌ r) o.split;
  all_degraded = (d, o.all_degraded);
  began = o.began;
}

begin : (r : Round) (older : List Round) → IsDegraded r → Outage r.now (r ∷ older)
begin r older d = record {
  recent = [];
  first = r;
  before = older;
  split = refl;
  all_degraded = (d, tt);
  began = refl;
}

started-Outage :
    (r : Round) (older : List Round) (o : Option ℕ)
    → IsDegraded r
    → ((t : ℕ) → o ≡ some t → Outage t older)
    → Outage (started r.now o) (r ∷ older)
started-Outage r older none d f = begin r older d
started-Outage r older (some t) d f = extend r t older d (f t refl)

module _ (grace : ℕ) (dry_run : Bool) where
  -- A round either found every group or is a degraded one.
  pub round-cases :
      (r : Round) (s : State) (P : Bool × Result State → Type 0)
      → (healthy r.groups ≡ true → P (false, ok new_state))
      → (IsDegraded r → P (degrade grace dry_run r s))
      → P (round grace dry_run r s)
  unfolding round IsDegraded
  round-cases r s P f g =
      let fresh_sweep : Sweep = record { reachable = 0; failed = 0 } in
      if_elim P ((sweep r.groups fresh_sweep).reachable == length r.groups) _ _
        (λ e. f (sym (all_reachable r.groups) ∙ e)) (λ e. g (sym (all_reachable r.groups) ∙ e))

  pub watched-Outage :
      (history : List Round) (s : State) (t : ℕ)
      → watched grace dry_run history ≡ ok s
      → s.outage_started ≡ some t
      → Outage t history
  unfolding watched
  watched-Outage [] s t h e =
      absurd (none≢some (ap (λ (v : State). v.outage_started) (ok-injective h) ∙ e))
  watched-Outage (r ∷ older) s t h e =
      let (before, known, last) = >>=-eq-ok (watched grace dry_run older) _ h in
      round-cases r before (λ x. x.1 ≡ ok s → Outage t (r ∷ older))
        (λ _ q. absurd (none≢some (ap (λ (v : State). v.outage_started) (ok-injective q) ∙ e)))
        (λ d q.
          subst (λ u. Outage u (r ∷ older))
            (some-injective (sym (degrade-started grace dry_run r before s q) ∙ e))
            (started-Outage r older before.outage_started d
              (λ u k. watched-Outage older before u known k)))
        last

  degrade_commands :
      (r : Round) (s : State)
      → (degrade grace dry_run r s).0 ≡ true
      → (dry_run ≡ false) × (started r.now s.outage_started + grace ≤ r.now)
  unfolding degrade
  degrade_commands r s =
      let P : Bool × Result State → Type 0 =
        λ x. x.0 ≡ true → (dry_run ≡ false) × (started r.now s.outage_started + grace ≤ r.now) in
      if_elim P (leb (started r.now s.outage_started + grace) r.now) _ _
        (λ e. if_elim P dry_run _ _ (λ _ h. absurd (false≢true h)) (λ d _. (d, leb→le _ _ e)))
        (λ _ h. absurd (false≢true h))

  -- A round of the watch commands the supply to switch off only outside a dry run and in an outage:
  -- an unbroken run of rounds, up to this one, that each found a group with no endpoint answering,
  -- whose first read the clock at least the grace period before.
  pub round-Outage :
      (r : Round) (older : List Round) (s : State)
      → watched grace dry_run older ≡ ok s
      → (round grace dry_run r s).0 ≡ true
      → (dry_run ≡ false) × (since : ℕ) × Outage since (r ∷ older) × (since + grace ≤ r.now)
  round-Outage r older s known =
      round-cases r s
        (λ x.
          x.0 ≡ true
          → (dry_run ≡ false) × (since : ℕ) × Outage since (r ∷ older) × (since + grace ≤ r.now))
        (λ _ h. absurd (false≢true h))
        (λ d h.
          let (real, long) = degrade_commands r s h in
          (
            real,
            started r.now s.outage_started,
            started-Outage r older s.outage_started d (λ t k. watched-Outage older s t known k),
            long,
          ))
