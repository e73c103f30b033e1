-- ===== src/RocMonitor/Commands.antt =====
-- The commands to switch off among what `cycle` does: only `act` makes one.
use lvhvbox.Prelude.{
  ℕ, suc, ◌≡◌, refl, sym, ◌∙◌, Bool, true, false, ◌||◌, List, [], ◌∷◌, ◌++◌, map, leb, any, if_elim,
  Result_elim,
}
use lvhvbox.RocMonitor.{Key, Monitor, sample}
use lvhvbox.RocMonitor.Notify.{Message, notify}
use lvhvbox.RocMonitor.Cycle.{
  Inputs, Effect, reads, commands_off, messages, Action, action_size, Poll, poll, Visit, tell,
  visit_reads, visit_value,
}

abbrev pub is_command : Effect → Bool
is_command commands_off = true
is_command (reads p) = false
is_command (messages m) = false

-- Whether the supply is commanded to switch off.
abbrev pub commands : List Effect → Bool
commands fx = any is_command fx

commands-append : (fx gx : List Effect) → commands (fx ++ gx) ≡ (commands fx || commands gx)
commands-append [] gx = refl
commands-append (commands_off ∷ fx) gx = refl
commands-append (reads p ∷ fx) gx = commands-append fx gx
commands-append (messages m ∷ fx) gx = commands-append fx gx

commands-messages : (sent : List Message) → commands (map messages sent) ≡ false
commands-messages [] = refl
commands-messages (m ∷ sent) = commands-messages sent

commands-silent :
    (fx gx : List Effect) → commands fx ≡ false → commands gx ≡ false → commands (fx ++ gx) ≡ false
commands-silent fx gx f g = commands-append fx gx ∙ rw (f, g) refl

pub commands-right :
    (fx gx : List Effect) → commands fx ≡ false → commands (fx ++ gx) ≡ true → commands gx ≡ true
commands-right fx gx f h = sym (commands-append fx gx ∙ rw f refl) ∙ h

commands-visit_reads : (deadline p : ℕ) (v : Visit) → commands (visit_reads deadline p v) ≡ false
commands-visit_reads deadline p v =
    if_elim (λ fx. commands fx ≡ false) (leb deadline v.before) _ _ (λ _. refl) (λ _. refl)

pub commands-poll :
    (deadline : ℕ) (visits : ℕ → Visit) (i : ℕ) (ps : List ℕ) (m : Monitor)
    → commands (poll deadline visits i ps m).0 ≡ false
unfolding poll
commands-poll deadline visits i [] m = refl
commands-poll deadline visits i (p ∷ ps) m =
    let Silent : List Effect × Poll → Type 0 = λ r. commands r.0 ≡ false in
    if_elim Silent (visits i).stopped _ _ (λ _. refl)
      (λ _.
        Result_elim Silent (sample p (visit_value deadline (visits i)) (visits i).after m) _ _
          (λ e _. commands-visit_reads deadline p (visits i))
          (λ n _.
            commands-silent (visit_reads deadline p (visits i)) _
              (commands-visit_reads deadline p (visits i))
              (commands-poll deadline visits (suc i) ps n)))

pub tell-commands :
    (x : Inputs) (keys : List Key) (action : Action) (m : Monitor)
    → commands (tell x keys action m).0 ≡ false
tell-commands x keys action m =
    commands-messages (notify x.size (action_size action) keys x.outcomes x.users m.delivered).0
