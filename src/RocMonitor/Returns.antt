-- ===== src/RocMonitor/Returns.antt =====
-- `cycle` of roc-temperature-monitor/roc_temperature_monitor.py never raises: every panel that it
-- looks up has a state, and a panel with a streak has a temperature.
use lvhvbox.Prelude.{
  ℕ, suc, ◌%◌, ◌≤◌, leb, ◌≡◌, refl, Bool, true, false, Bool-cases, inl, inr, List, [], ◌∷◌, ◌++◌,
  map, Option, none, some, if◌then◌else◌, ◌==◌, ==_refl, All, All-append, All-map, All-take,
  All-drop, take, drop, length, Result, ok, err, find, store, erase, Result_elim, if_elim, arith,
}
use lvhvbox.RocMonitor.{
  Key, same_key, psu_missing, Monitor, set_panels, sorted, or_fresh, powered, since, apply_power,
  sample, finish_cycle, alarms, hot_alarms, is_hot, has, hot, overdue, PanelState, note, observe,
}
use lvhvbox.RocMonitor.Cycle.{
  Inputs, Visit, visit_value, Effect, Poll, finished, halted, raised, poll, rotate, act, confirm,
  if_alarmed, judge, conclude, patrol, refresh, end_streaks, watch, cycle,
}
use lvhvbox.RocMonitor.Known.{
  is_warm, Warm, store-Warm, find-Warm, States, Known, IsCovered, Known-here, Known-there,
  Known-later, none-Known, cons-Known, store-Known, start_panels-Known, reset_panels-Known,
}

-- What a call leaves: the panels it was given still have their states.
abbrev Covers : List ℕ → Monitor → Type 0
Covers ps m = IsCovered m × All (Known m.states) ps

apply_power-IsCovered :
    (volts : List ℕ) (now : ℕ) (m : Monitor)
    → IsCovered m
    → (r : List ℕ × Monitor) × (apply_power volts now m ≡ ok r) × Covers r.0 r.1
unfolding apply_power IsCovered
apply_power-IsCovered volts now m (c, one, warm) =
    if_elim (λ result. (r : List ℕ × Monitor) × (result ≡ ok r) × Covers r.0 r.1) (powered volts m)
      _ _
      (λ _.
        let (after, done, keeps, warms) = start_panels-Known now m.panels m.states c in
        let kept = All-map m.panels keeps c in
        (
          (m.panels, record m { powered_since = since now m.powered_since; states = after }),
          rw done refl,
          ((kept, one, warms warm), kept),
        ))
      (λ _.
        let (after, done, keeps, warms) =
          reset_panels-Known m.panels m.states (erase same_key psu_missing m.delivered) c in
        (
          (
            [],
            record m {
              powered_since = none;
              last_quorum = none;
              cycle_good = [];
              states = after.0;
              delivered = after.1;
            },
          ),
          rw done refl,
          ((All-map m.panels keeps c, one, warms warm), tt),
        ))

note_panels : (p : ℕ) (value : Option ℕ) (m : Monitor) → (note p value m).panels ≡ m.panels
note_panels p none m = refl
note_panels p (some value) m = refl

note_count : (p : ℕ) (value : Option ℕ) (m : Monitor) → (note p value m).count ≡ m.count
note_count p none m = refl
note_count p (some value) m = refl

observe-is_warm :
    (threshold now : ℕ) (value : Option ℕ) (s : PanelState)
    → is_warm (observe threshold now value s) ≡ true
observe-is_warm threshold now none s = refl
observe-is_warm threshold now (some value) s = ground arith

sample-Covers :
    (p : ℕ) (value : Option ℕ) (now : ℕ) (m : Monitor) (ps : List ℕ)
    → Covers (p ∷ ps) m
    → (n : Monitor) × (sample p value now m ≡ ok n) × Covers ps n
unfolding sample Known IsCovered
sample-Covers p value now m ps ((c, one, warm), ((s, e), rest)) =
    let keeps = store-Known p (observe m.threshold now value s) m.states in
    (
      record (note p value m) { states = store ◌==◌ p (observe m.threshold now value s) m.states },
      rw e refl,
      (
        (
          rw (note_panels p value m) (All-map m.panels keeps c),
          omega (arith, note_count p value m),
          store-Warm p (observe m.threshold now value s) m.states
              (observe-is_warm m.threshold now value s) warm,
        ),
        All-map ps keeps rest,
      ),
    )

-- A call that returns a monitor whose panels have their states.
Returns : Result Monitor → Type 0
Returns r = (n : Monitor) × (r ≡ ok n) × IsCovered n

abbrev Ends : Poll → Type 0
Ends (finished n) = IsCovered n
Ends (halted n) = IsCovered n
Ends (raised e) = ⊥

poll-Ends :
    (deadline : ℕ) (visits : ℕ → Visit) (i : ℕ) (ps : List ℕ) (m : Monitor)
    → Covers ps m
    → Ends (poll deadline visits i ps m).1
unfolding poll
poll-Ends deadline visits i [] m (c, known) = c
poll-Ends deadline visits i (p ∷ ps) m (c, known) =
    let (n, sampled, covers) =
      sample-Covers p (visit_value deadline (visits i)) (visits i).after m ps (c, known) in
    let End : List Effect × Poll → Type 0 = λ r. Ends r.1 in
    if_elim End (visits i).stopped _ _ (λ _. c)
      (λ _. rw sampled (poll-Ends deadline visits (suc i) ps n covers))

finish_cycle-IsCovered : (now : ℕ) (m : Monitor) → IsCovered m → IsCovered (finish_cycle now m)
unfolding finish_cycle IsCovered
finish_cycle-IsCovered now m c =
    if_elim IsCovered (leb m.minimum_panels (length m.cycle_good)) _ _ (λ _. c) (λ _. c)

act-Returns :
    (dry_run : Bool) (x : Inputs) (keys : List Key) (m : Monitor)
    → IsCovered m
    → Returns (act dry_run x keys m).1
unfolding act Returns IsCovered
act-Returns dry_run x [] m c = (m, refl, c)
act-Returns true x (k ∷ ks) m c = (_, refl, c)
act-Returns false x (k ∷ ks) m c = (_, refl, c)

hot_alarms-ok :
    (count : ℕ) (states : States)
    → 1 ≤ count
    → All Warm states
    → (keys : List Key) × (hot_alarms count states ≡ ok keys)
unfolding hot_alarms
hot_alarms-ok count [] one w = ([], refl)
hot_alarms-ok count ((p, s) ∷ rest) one (warm, w) =
    let (keys, e) = hot_alarms-ok count rest one w in
    elim (Bool-cases (is_hot count s)) [
      | inl h ↦
          let measured : has s.temperature ≡ true = ground arith in
          (hot p ∷ keys, rw (h, measured, e) refl)
      | inr h ↦ (keys, rw (h, e) refl)
    ]

-- `alarms` formats only temperatures that are there.
alarms-ok : (now : ℕ) (m : Monitor) → IsCovered m → (keys : List Key) × (alarms now m ≡ ok keys)
unfolding alarms IsCovered
alarms-ok now m (c, one, warm) =
    let (keys, e) = hot_alarms-ok m.count m.states one warm in
    (
      keys
          ++ (if overdue now m.missing_seconds m.last_quorum m.powered_since
              then psu_missing ∷ []
              else []),
      rw e refl,
    )

confirm-Returns :
    (dry_run : Bool) (x : Inputs) (m : Monitor) → IsCovered m → Returns (confirm dry_run x m).1
unfolding confirm Returns
confirm-Returns dry_run x m c =
    Result_elim (λ (r : List Effect × Result Monitor). Returns r.1) x.second_volts _ _
      (λ e _. (m, refl, c))
      (λ volts _.
        let (r, applied, covered) = apply_power-IsCovered volts x.recheck_time m c in
        let (keys, alarmed) = alarms-ok x.confirm_time r.1 covered.0 in
        rw (applied, alarmed) (act-Returns dry_run x keys r.1 covered.0))

judge-Returns :
    (dry_run : Bool) (x : Inputs) (m : Monitor) → IsCovered m → Returns (judge dry_run x m).1
unfolding judge Returns
judge-Returns dry_run x m c =
    let (keys, alarmed) = alarms-ok x.alarm_time m c in rw (judge, alarmed) (by_alarms keys)
  where
    by_alarms : (keys : List Key) → Returns (if_alarmed dry_run x keys m).1
    by_alarms [] = (m, refl, c)
    by_alarms (k ∷ ks) =
        if_elim (λ r. Returns r.1) x.stopped ([], ok m) (confirm dry_run x m) (λ _. (m, refl, c))
          (λ _. confirm-Returns dry_run x m c)

conclude-Returns :
    (dry_run : Bool) (x : Inputs) (end : Poll) → Ends end → Returns (conclude dry_run x end).1
unfolding Returns
conclude-Returns dry_run x (finished m) c =
    judge-Returns dry_run x _ (finish_cycle-IsCovered x.finish_time m c)
conclude-Returns dry_run x (halted m) c = (m, refl, c)
conclude-Returns dry_run x (raised e) c = absurd c

rotate-All : (P : ℕ → Type 0) (offset : ℕ) (ps : List ℕ) → All P ps → All P (rotate offset ps)
rotate-All P offset [] a = tt
rotate-All P offset (p ∷ ps) a =
    let k = offset % length (p ∷ ps) in
    All-append P (drop k (p ∷ ps)) (take k (p ∷ ps)) (All-drop P k (p ∷ ps) a)
      (All-take P k (p ∷ ps) a)

patrol-Returns :
    (dry_run : Bool) (offset : ℕ) (x : Inputs) (active : List ℕ) (m : Monitor)
    → Covers active m
    → Returns (patrol dry_run offset x active m).1
unfolding patrol
patrol-Returns dry_run offset x active m (c, known) =
    conclude-Returns dry_run x (poll x.deadline x.visits 0 (rotate offset active) m).1 (
      poll-Ends x.deadline x.visits 0 (rotate offset active) m
        (c, rotate-All (Known m.states) offset active known))

watch-Returns :
    (dry_run : Bool) (offset : ℕ) (x : Inputs) (active : List ℕ) (m : Monitor)
    → Covers active m
    → Returns (watch dry_run offset x active m).1
unfolding Returns
watch-Returns dry_run offset x active m covers = by_power m.powered_since
  where
    by_power :
        (o : Option ℕ)
        → Returns
            (elim o as (λ _. List Effect × Result Monitor) [
              | none ↦ ([], ok m)
              | some t ↦ patrol dry_run offset x active m
            ]).1
    by_power none = (m, refl, covers.0)
    by_power (some t) = patrol-Returns dry_run offset x active m covers

-- The states that a discovery makes.
panel_states : States → List ℕ → States
panel_states states names = map (λ p. (p, or_fresh (find ◌==◌ p states))) names

panel_states-Known :
    (states : States) (names : List ℕ) → All (Known (panel_states states names)) names
unfolding panel_states
panel_states-Known states [] = tt
panel_states-Known states (p ∷ ps) = (
  Known-here p (or_fresh (find ◌==◌ p states)) (panel_states states ps) p (==_refl p),
  All-map ps (λ q. cons-Known p (or_fresh (find ◌==◌ p states)) (panel_states states ps) q)
      (panel_states-Known states ps),
)

panel_states-Warm :
    (states : States) (names : List ℕ) → All Warm states → All Warm (panel_states states names)
unfolding panel_states
panel_states-Warm states [] w = tt
panel_states-Warm states (p ∷ ps) w = (find-Warm p states w, panel_states-Warm states ps w)

refresh-IsCovered :
    (found : Result (List ℕ)) (m : Monitor) → IsCovered m → IsCovered (refresh found m)
unfolding IsCovered set_panels panel_states
refresh-IsCovered (err e) m c = c
refresh-IsCovered (ok names) m (c, one, warm) = (
  panel_states-Known m.states (sorted names),
  one,
  panel_states-Warm m.states (sorted names) warm,
)

end_streaks-Known :
    (states : States) (q : ℕ)
    → Known states q
    → Known (map (λ e. (e.0, record e.1 { high_count = 0 })) states) q
end_streaks-Known [] q k = absurd (none-Known q k)
end_streaks-Known ((j, w) ∷ rest) q k = elim (Bool-cases (j == q)) [
  | inl e ↦ Known-here j _ _ q e
  | inr e ↦ Known-there j _ _ q e (end_streaks-Known rest q (Known-later j w rest q e k))
]

end_streaks-Warm :
    (states : States) → All Warm (map (λ e. (e.0, record e.1 { high_count = 0 })) states)
end_streaks-Warm [] = tt
end_streaks-Warm (e ∷ rest) = (refl, end_streaks-Warm rest)

-- A round never raises, whatever the supply, the panels, the clock and the notifier do, where every
-- panel of the monitor has a state, no streak stands without a temperature, and an alarm takes at
-- least one high sample; and that is so again after it.
pub cycle-IsCovered :
    (dry_run : Bool) (offset : ℕ) (x : Inputs) (m : Monitor)
    → IsCovered m
    → (n : Monitor) × ((cycle dry_run offset x m).1 ≡ ok n) × IsCovered n
unfolding cycle Returns IsCovered
cycle-IsCovered dry_run offset x m c =
    let start = record m { cycle_good = [] } in
    Result_elim (λ (r : List Effect × Result Monitor). Returns r.1) x.volts _ _
      (λ e _. (
        end_streaks start,
        refl,
        (All-map m.panels (end_streaks-Known m.states) c.0, c.1, end_streaks-Warm m.states),
      ))
      (λ volts _.
        let (r, applied, covers) =
          apply_power-IsCovered volts x.power_time (refresh x.discovered start)
            (refresh-IsCovered x.discovered start c) in
        rw applied (watch-Returns dry_run offset x r.0 r.1 covers))
