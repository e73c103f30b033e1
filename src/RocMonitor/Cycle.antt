-- ===== src/RocMonitor/Cycle.antt =====
-- `cycle` of roc-temperature-monitor/roc_temperature_monitor.py: one round of monitoring. What the
-- supply, the panels, the clock and the notifier do is an argument, and so is the stop event.
use lvhvbox.Prelude.{
  ℕ, suc, ◌%◌, Bool, true, false, List, [], ◌∷◌, ◌++◌, map, Option, none, some, if◌then◌else◌, leb,
  length, take, drop, Result, ok, err, Error,
}
use lvhvbox.RocMonitor.{
  Key, Monitor, set_panels, powered, apply_power, sample, finish_cycle, alarms,
}
use lvhvbox.RocMonitor.Notify.{Message, notify}

-- One panel's turn: the stop event, the clock before, the reading or its exception, the clock after.
pub record Visit : Type 0 where
  pub stopped : Bool
  pub before : ℕ
  pub reading : Result ℕ
  pub after : ℕ

pub record Inputs : Type 0 where
  pub volts : Result (List ℕ)
  pub discovered : Result (List ℕ)
  pub power_time : ℕ
  pub deadline : ℕ
  -- the visits, by their order
  pub visits : ℕ → Visit
  pub finish_time : ℕ
  pub alarm_time : ℕ
  pub stopped : Bool
  pub second_volts : Result (List ℕ)
  pub recheck_time : ℕ
  pub confirm_time : ℕ
  pub power_off : Result (Unit {0})
  pub third_volts : Result (List ℕ)
  -- the recipients, their messages' outcomes, and the lengths of the texts
  pub users : List ℕ
  pub outcomes : ℕ → List Bool
  pub size : Key → ℕ

-- What the message says was done.
pub data Action : Type 0 where
  dry_run_only all_off still_present off_failed : Action

pub data Effect : Type 0 where
  reads : (panel : ℕ) → Effect
  commands_off : Effect
  messages : Message → Effect

-- The lengths of the four texts.
abbrev pub action_size : Action → ℕ
action_size dry_run_only = 68
action_size all_off = 72
action_size still_present = 89
action_size off_failed = 74

-- The loop over the powered panels ends, stops at the event, or a call raises.
pub data Poll : Type 0 where
  finished halted : Monitor → Poll
  raised : Error → Poll

-- Past the deadline a panel is not read.
abbrev pub visit_value : ℕ → Visit → Option ℕ
visit_value deadline v =
    if leb deadline v.before then none else elim v.reading [ err e ↦ none | ok value ↦ some value ]

abbrev pub visit_reads : ℕ → ℕ → Visit → List Effect
visit_reads deadline panel v = if leb deadline v.before then [] else reads panel ∷ []

unfoldable pub poll : ℕ → (ℕ → Visit) → ℕ → List ℕ → Monitor → List Effect × Poll
poll deadline visits i [] m = ([], finished m)
poll deadline visits i (p ∷ ps) m =
    if (visits i).stopped
    then ([], halted m)
    else elim (sample p (visit_value deadline (visits i)) (visits i).after m) [
      | err e ↦ (visit_reads deadline p (visits i), raised e)
      | ok n ↦
          let (more, end) = poll deadline visits (suc i) ps n in
          (visit_reads deadline p (visits i) ++ more, end)
    ]

-- `active[offset % len(active):] + active[:offset % len(active)]`
abbrev pub rotate : ℕ → List ℕ → List ℕ
rotate offset [] = []
rotate offset (p ∷ ps) = let k = offset % length (p ∷ ps) in drop k (p ∷ ps) ++ take k (p ∷ ps)

-- The action that is reported after the command to switch off.
abbrev pub reported : Inputs → Monitor → Action
reported x m = elim x.power_off [
  | err e ↦ off_failed
  | ok _ ↦ elim x.third_volts [
    | err e ↦ off_failed
    | ok volts ↦ if powered volts m then still_present else all_off
  ]
]

abbrev pub tell : Inputs → List Key → Action → Monitor → List Effect × Result Monitor
tell x keys action m =
    let (sent, delivered) =
      notify x.size (action_size action) keys x.outcomes x.users m.delivered in
    (map messages sent, ok (record m { delivered = delivered }))

-- The alerts that the second look at the supply left.
unfoldable pub act : Bool → Inputs → List Key → Monitor → List Effect × Result Monitor
act dry_run x [] m = ([], ok m)
act true x (k ∷ ks) m = tell x (k ∷ ks) dry_run_only m
act false x (k ∷ ks) m =
    let (sent, end) = tell x (k ∷ ks) (reported x m) m in (commands_off ∷ sent, end)

-- The second look at the supply. A `KeyError` of `apply_power` is caught here; no panel lacks a
-- state, so it does not arise.
unfoldable pub confirm : Bool → Inputs → Monitor → List Effect × Result Monitor
confirm dry_run x m = elim x.second_volts [
  | err e ↦ ([], ok m)
  | ok volts ↦ elim (apply_power volts x.recheck_time m) [
    | err e ↦ ([], ok m)
    | ok (active, n) ↦ elim (alarms x.confirm_time n) [
      | err e ↦ ([], err e)
      | ok keys ↦ act dry_run x keys n
    ]
  ]
]

-- `if alarms:`
abbrev pub if_alarmed : Bool → Inputs → List Key → Monitor → List Effect × Result Monitor
if_alarmed dry_run x [] m = ([], ok m)
if_alarmed dry_run x (k ∷ ks) m = if x.stopped then ([], ok m) else confirm dry_run x m

unfoldable pub judge : Bool → Inputs → Monitor → List Effect × Result Monitor
judge dry_run x m = elim (alarms x.alarm_time m) [
  | err e ↦ ([], err e)
  | ok keys ↦ if_alarmed dry_run x keys m
]

abbrev pub conclude : Bool → Inputs → Poll → List Effect × Result Monitor
conclude dry_run x (halted m) = ([], ok m)
conclude dry_run x (raised e) = ([], err e)
conclude dry_run x (finished m) = judge dry_run x (finish_cycle x.finish_time m)

unfoldable pub patrol : Bool → ℕ → Inputs → List ℕ → Monitor → List Effect × Result Monitor
patrol dry_run offset x active m =
    let (fx, end) = poll x.deadline x.visits 0 (rotate offset active) m in
    let (more, result) = conclude dry_run x end in (fx ++ more, result)

-- A discovery that fails keeps the panels of the last one.
abbrev pub refresh : Result (List ℕ) → Monitor → Monitor
refresh (err e) m = m
refresh (ok names) m = set_panels names m

-- An unknown power state ends the streaks and keeps the timers.
abbrev pub end_streaks : Monitor → Monitor
end_streaks m = record m { states = map (λ e. (e.0, record e.1 { high_count = 0 })) m.states }

abbrev pub watch : Bool → ℕ → Inputs → List ℕ → Monitor → List Effect × Result Monitor
watch dry_run offset x active m = elim m.powered_since [
  | none ↦ ([], ok m)
  | some t ↦ patrol dry_run offset x active m
]

unfoldable pub cycle : Bool → ℕ → Inputs → Monitor → List Effect × Result Monitor
cycle dry_run offset x start =
    let m = record start { cycle_good = [] } in
    elim x.volts [
      | err e ↦ ([], ok (end_streaks m))
      | ok volts ↦ elim (apply_power volts x.power_time (refresh x.discovered m)) [
        | err e ↦ ([], err e)
        | ok (active, n) ↦ watch dry_run offset x active n
      ]
    ]
