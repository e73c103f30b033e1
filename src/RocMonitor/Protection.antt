-- ===== src/RocMonitor/Protection.antt =====
-- When `cycle` commands the supply to switch off, and when an alert is raised.
use lvhvbox.RocMonitor.Commands.{commands, commands-right, commands-poll, tell-commands}
use lvhvbox.Prelude.{
  ℕ, ◌≡◌, ◌≢◌, refl, sym, ap, ◌∙◌, Bool, true, false, true≢false, inl, inr, List, [], ◌∷◌, Option,
  none, some, Result, ok, Bool-cases, if_elim, Result_elim, >>=-eq-ok, ok-injective, erase,
}
use lvhvbox.RocMonitor.{
  Key, same_key, psu_missing, reset_panels, Monitor, apply_power, powered, alarms, finish_cycle,
}
use lvhvbox.RocMonitor.Cycle.{
  Inputs, Effect, dry_run_only, Poll, finished, halted, raised, poll, rotate, act, confirm,
  if_alarmed, judge, conclude, patrol, refresh, watch, cycle,
}

act_confirmed :
    (dry_run : Bool) (x : Inputs) (keys : List Key) (m : Monitor)
    → commands (act dry_run x keys m).0 ≡ true
    → (dry_run ≡ false) × (keys ≢ [])
unfolding act
act_confirmed dry_run x [] m h = cc
act_confirmed true x (k ∷ ks) m h =
    absurd (true≢false (sym h ∙ tell-commands x (k ∷ ks) dry_run_only m))
act_confirmed false x (k ∷ ks) m h = (refl, λ e. cc)

-- The second look at the supply, when it ends in the command.
pub record SecondLook (dry_run : Bool) (x : Inputs) (m : Monitor) : Type 0 where
  pub permitted : dry_run ≡ false
  pub volts : List ℕ
  pub measured : x.second_volts ≡ ok volts
  pub active : List ℕ
  pub after : Monitor
  pub applied : apply_power volts x.recheck_time m ≡ ok (active, after)
  pub keys : List Key
  pub alarmed : alarms x.confirm_time after ≡ ok keys
  pub alerted : keys ≢ []

abbrev Confirms : (Type 0) → List Effect × Result Monitor → Type 0
Confirms A r = commands r.0 ≡ true → A

confirm_confirmed :
    (dry_run : Bool) (x : Inputs) (m : Monitor)
    → commands (confirm dry_run x m).0 ≡ true
    → SecondLook dry_run x m
unfolding confirm
confirm_confirmed dry_run x m =
    Result_elim (Confirms (SecondLook dry_run x m)) x.second_volts _ _ (λ e _ h. cc)
      (λ volts measured.
        Result_elim (Confirms (SecondLook dry_run x m)) (apply_power volts x.recheck_time m) _ _
          (λ e _ h. cc)
          (λ r applied.
            Result_elim (Confirms (SecondLook dry_run x m)) (alarms x.confirm_time r.1) _ _
              (λ e _ h. cc)
              (λ keys alarmed h.
                let (permitted, alerted) = act_confirmed dry_run x keys r.1 h in
                record {
                  permitted = permitted;
                  volts = volts;
                  measured = measured;
                  active = r.0;
                  after = r.1;
                  applied = applied;
                  keys = keys;
                  alarmed = alarmed;
                  alerted = alerted;
                })))

-- The round after the last panel was read, when it ends in the command.
pub record Judged (dry_run : Bool) (x : Inputs) (m : Monitor) : Type 0 where
  pub keys : List Key
  pub alarmed : alarms x.alarm_time m ≡ ok keys
  pub alerted : keys ≢ []
  pub running : x.stopped ≡ false
  pub confirmed : SecondLook dry_run x m

if_alarmed_confirmed :
    (dry_run : Bool) (x : Inputs) (keys : List Key) (m : Monitor)
    → alarms x.alarm_time m ≡ ok keys
    → commands (if_alarmed dry_run x keys m).0 ≡ true
    → Judged dry_run x m
if_alarmed_confirmed dry_run x [] m e h = cc
if_alarmed_confirmed dry_run x (k ∷ ks) m e h =
    if_elim (Confirms (Judged dry_run x m)) x.stopped ([], ok m) (confirm dry_run x m) (λ _ g. cc)
      (λ running g. record {
        keys = k ∷ ks;
        alarmed = e;
        alerted = λ f. cc;
        running = running;
        confirmed = confirm_confirmed dry_run x m g;
      })
      h

judge_confirmed :
    (dry_run : Bool) (x : Inputs) (m : Monitor)
    → commands (judge dry_run x m).0 ≡ true
    → Judged dry_run x m
unfolding judge
judge_confirmed dry_run x m =
    Result_elim (Confirms (Judged dry_run x m)) (alarms x.alarm_time m) _ _ (λ e _ h. cc)
      (λ keys alarmed. if_alarmed_confirmed dry_run x keys m alarmed)

-- What has been established when the supply is commanded to switch off.
pub record Confirmed (dry_run : Bool) (offset : ℕ) (x : Inputs) (start : Monitor) : Type 0 where
  pub volts : List ℕ
  pub measured : x.volts ≡ ok volts
  pub active : List ℕ
  pub after : Monitor
  pub applied :
      apply_power volts x.power_time (refresh x.discovered (record start { cycle_good = [] }))
      ≡ ok (active, after)
  pub on : powered volts (refresh x.discovered (record start { cycle_good = [] })) ≡ true
  pub polled : Monitor
  pub every_panel : (poll x.deadline x.visits 0 (rotate offset active) after).1 ≡ finished polled
  pub judged : Judged dry_run x (finish_cycle x.finish_time polled)

conclude_confirmed :
    (dry_run : Bool) (x : Inputs) (end : Poll)
    → commands (conclude dry_run x end).0 ≡ true
    → (m : Monitor) × (end ≡ finished m) × Judged dry_run x (finish_cycle x.finish_time m)
conclude_confirmed dry_run x (finished m) h = (m, refl, judge_confirmed dry_run x _ h)
conclude_confirmed dry_run x (halted m) h = cc
conclude_confirmed dry_run x (raised e) h = cc

patrol_confirmed :
    (dry_run : Bool) (offset : ℕ) (x : Inputs) (active : List ℕ) (m : Monitor)
    → commands (patrol dry_run offset x active m).0 ≡ true
    → (n : Monitor) × ((poll x.deadline x.visits 0 (rotate offset active) m).1 ≡ finished n)
      × Judged dry_run x (finish_cycle x.finish_time n)
unfolding patrol
patrol_confirmed dry_run offset x active m h =
    conclude_confirmed dry_run x (poll x.deadline x.visits 0 (rotate offset active) m).1 (
      commands-right (poll x.deadline x.visits 0 (rotate offset active) m).0
        (conclude dry_run x (poll x.deadline x.visits 0 (rotate offset active) m).1).0
        (commands-poll x.deadline x.visits 0 (rotate offset active) m) h)

-- With every output below the cutoff, the supply counts as off.
apply_power-off :
    (volts : List ℕ) (now : ℕ) (m n : Monitor) (active : List ℕ)
    → powered volts m ≡ false
    → apply_power volts now m ≡ ok (active, n)
    → n.powered_since ≡ none
unfolding apply_power
apply_power-off volts now m n active off h =
    let (kept, _, e) =
      >>=-eq-ok (reset_panels m.panels (m.states, erase same_key psu_missing m.delivered)) _
        (rw off at h) in
    sym (ap (λ r. r.1.powered_since) (ok-injective e))

watch_confirmed :
    (dry_run : Bool) (offset : ℕ) (x : Inputs) (active : List ℕ) (m : Monitor)
    → commands (watch dry_run offset x active m).0 ≡ true
    → (m.powered_since ≢ none)
      × (n : Monitor) × ((poll x.deadline x.visits 0 (rotate offset active) m).1 ≡ finished n)
      × Judged dry_run x (finish_cycle x.finish_time n)
watch_confirmed dry_run offset x active m = by_power m.powered_since (λ e. e)
  where
    by_power :
        (o : Option ℕ)
        → (m.powered_since ≡ none → o ≡ none)
        → commands
            (elim o as (λ _. List Effect × Result Monitor) [
              | none ↦ ([], ok m)
              | some t ↦ patrol dry_run offset x active m
            ]).0
          ≡ true
        → (m.powered_since ≢ none)
          × (n : Monitor) × ((poll x.deadline x.visits 0 (rotate offset active) m).1 ≡ finished n)
          × Judged dry_run x (finish_cycle x.finish_time n)
    by_power none e h = cc
    by_power (some t) e h =
        let (n, every_panel, judged) = patrol_confirmed dry_run offset x active m h in
        ((λ f. cc (e f)), n, every_panel, judged)

-- The supply is commanded to switch off only where that is permitted, after a first look at the
-- voltages that was answered and found the supply on, a round over every powered panel that was not
-- stopped, an alert at its end, and a second look at the voltages that was answered too and left an
-- alert.
pub cycle-Confirmed :
    (dry_run : Bool) (offset : ℕ) (x : Inputs) (m : Monitor)
    → commands (cycle dry_run offset x m).0 ≡ true
    → Confirmed dry_run offset x m
unfolding cycle
cycle-Confirmed dry_run offset x m =
    let P : List Effect × Result Monitor → Type 0 = Confirms (Confirmed dry_run offset x m) in
    let start = record m { cycle_good = [] } in
    Result_elim P x.volts _ _ (λ e _ h. cc)
      (λ volts measured.
        Result_elim P (apply_power volts x.power_time (refresh x.discovered start)) _ _
          (λ e _ h. cc)
          (λ r applied h.
            let (on, polled, every_panel, judged) = watch_confirmed dry_run offset x r.0 r.1 h in
            record {
              volts = volts;
              measured = measured;
              active = r.0;
              after = r.1;
              applied = applied;
              on = elim (Bool-cases (powered volts (refresh x.discovered start))) [
                | inl found ↦ found
                | inr off ↦ absurd (on (apply_power-off volts x.power_time _ r.1 r.0 off applied))
              ];
              polled = polled;
              every_panel = every_panel;
              judged = judged;
            }))
