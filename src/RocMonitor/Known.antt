-- ===== src/RocMonitor/Known.antt =====
-- The panels that `Monitor.states` has a state for, the temperatures of its streaks, and what keeps them.
use lvhvbox.Prelude.{
  ℕ, ◌≤◌, ◌≡◌, refl, sym, ap, ◌∙◌, ◌||◌, Bool, leb, find, ok-injective, subst, true, false,
  Bool-cases, inl, inr, List, [], ◌∷◌, if◌then◌else◌, ◌==◌, All, All-map, ok, fetch, store, erase,
  if_elim,
}
use lvhvbox.RocMonitor.{
  has, or_fresh, Key, same_key, hot, missing, PanelState, fresh, Monitor, start_panels,
  reset_panels, since,
}

abbrev pub States : Type 0
States = List (ℕ × PanelState)

-- A panel with a state.
unfoldable pub Known : States → ℕ → Type 0
Known states p = (s : PanelState) × (fetch ◌==◌ p states ≡ ok s)

-- No streak stands without a temperature.
abbrev pub is_warm : PanelState → Bool
is_warm s = leb s.high_count 0 || has s.temperature

abbrev pub Warm : ℕ × PanelState → Type 0
Warm (p, s) = is_warm s ≡ true

-- Every panel of the monitor has a state, no streak stands without a temperature, and an alarm takes
-- at least one high sample.
unfoldable pub IsCovered : Monitor → Type 0
IsCovered m = All (Known m.states) m.panels × (1 ≤ m.count) × All Warm m.states

-- What the states of one list of panels say stays said.
abbrev pub Keeps : States → States → Type 0
Keeps states after = (q : ℕ) → Known states q → Known after q

module _ (j : ℕ) (w : PanelState) (rest : States) (q : ℕ) where
  pub Known-here : (j == q) ≡ true → Known ((j, w) ∷ rest) q
  unfolding Known
  Known-here e = (w, rw e refl)

  pub Known-there : (j == q) ≡ false → Known rest q → Known ((j, w) ∷ rest) q
  unfolding Known
  Known-there e (s, f) = (s, rw e f)

  pub Known-later : (j == q) ≡ false → Known ((j, w) ∷ rest) q → Known rest q
  unfolding Known
  Known-later e (s, f) = (s, subst (λ b. (if b then ok w else fetch ◌==◌ q rest) ≡ ok s) e f)

pub none-Known : (q : ℕ) → ¬ Known [] q
unfolding Known
none-Known q (s, e) = cc

pub cons-Known :
    (j : ℕ) (w : PanelState) (rest : States) (q : ℕ) → Known rest q → Known ((j, w) ∷ rest) q
cons-Known j w rest q k = elim (Bool-cases (j == q)) [
  | inl e ↦ Known-here j w rest q e
  | inr e ↦ Known-there j w rest q e k
]

pub store-Known : (p : ℕ) (v : PanelState) (states : States) → Keeps states (store ◌==◌ p v states)
store-Known p v [] q k = absurd (none-Known q k)
store-Known p v ((j, w) ∷ rest) q k = elim (Bool-cases (j == q)) [
  | inl e ↦
      if_elim (λ states. Known states q) (j == p) ((j, v) ∷ rest) ((j, w) ∷ store ◌==◌ p v rest)
        (λ _. Known-here j v rest q e) (λ _. Known-here j w (store ◌==◌ p v rest) q e)
  | inr e ↦
      let later : Known rest q = Known-later j w rest q e k in
      if_elim (λ states. Known states q) (j == p) ((j, v) ∷ rest) ((j, w) ∷ store ◌==◌ p v rest)
        (λ _. Known-there j v rest q e later)
        (λ _. Known-there j w (store ◌==◌ p v rest) q e (store-Known p v rest q later))
]

pub store-Warm :
    (p : ℕ) (v : PanelState) (states : States)
    → is_warm v ≡ true
    → All Warm states
    → All Warm (store ◌==◌ p v states)
store-Warm p v [] h w = (h, tt)
store-Warm p v ((j, s) ∷ rest) h (one, w) =
    if_elim (All Warm) (j == p) ((j, v) ∷ rest) ((j, s) ∷ store ◌==◌ p v rest) (λ _. (h, w))
      (λ _. (one, store-Warm p v rest h w))

pub fetch-Warm :
    (p : ℕ) (states : States) (s : PanelState)
    → fetch ◌==◌ p states ≡ ok s
    → All Warm states
    → is_warm s ≡ true
fetch-Warm p [] s e w = cc
fetch-Warm p ((j, t) ∷ rest) s e (one, w) = elim (Bool-cases (j == p)) [
  | inl h ↦ ap is_warm (sym (ok-injective (rw h at e))) ∙ one
  | inr h ↦ fetch-Warm p rest s (rw h at e) w
]

pub find-Warm :
    (p : ℕ) (states : States) → All Warm states → is_warm (or_fresh (find ◌==◌ p states)) ≡ true
find-Warm p [] w = refl
find-Warm p ((j, t) ∷ rest) (one, w) = elim (Bool-cases (j == p)) [
  | inl h ↦ rw h one
  | inr h ↦ rw h (find-Warm p rest w)
]

pub start_panels-Known :
    (now : ℕ) (ps : List ℕ) (states : States)
    → All (Known states) ps
    → (after : States) × (start_panels now ps states ≡ ok after)
      × Keeps states after
      × (All Warm states → All Warm after)
unfolding start_panels Known
start_panels-Known now [] states a = (states, refl, (λ q k. k), (λ w. w))
start_panels-Known now (p ∷ ps) states ((s, e), a) =
    let v : PanelState = record s { powered_since = since now s.powered_since } in
    let (after, done, keeps, warms) =
      start_panels-Known now ps (store ◌==◌ p v states) (All-map ps (store-Known p v states) a) in
    (
      after,
      rw e done,
      (λ q k. keeps q (store-Known p v states q k)),
      (λ w. warms (store-Warm p v states (fetch-Warm p states s e w) w)),
    )

pub reset_panels-Known :
    (ps : List ℕ) (states : States) (delivered : List (Key × List ℕ))
    → All (Known states) ps
    → (after : States × List (Key × List ℕ)) × (reset_panels ps (states, delivered) ≡ ok after)
      × Keeps states after.0
      × (All Warm states → All Warm after.0)
unfolding reset_panels Known
reset_panels-Known [] states delivered a = ((states, delivered), refl, (λ q k. k), (λ w. w))
reset_panels-Known (p ∷ ps) states delivered ((s, e), a) =
    let (after, done, keeps, warms) =
      reset_panels-Known ps (store ◌==◌ p fresh states)
        (erase same_key (missing p) (erase same_key (hot p) delivered))
        (All-map ps (store-Known p fresh states) a) in
    (
      after,
      rw e done,
      (λ q k. keeps q (store-Known p fresh states q k)),
      (λ w. warms (store-Warm p fresh states refl w)),
    )
