-- ===== src/RocMonitor/Streak.antt =====
-- The streak of high temperatures that `Monitor.sample` counts, against the panel's history.
use lvhvbox.Prelude.{
  run_length, Passes, run_length-Passes, Passes-run_length, ℕ, ◌+◌, ◌≤◌, ◌≡◌, ◌↔◌, refl, ap, ◌∙◌,
  Bool, false, List, [], ◌∷◌, Option, none, some, if◌then◌else◌, ◌==◌, ==_refl, ltb, Result, ok,
  ◌>>=◌, fetch, store, arith, Bool-cases, inl, inr,
}
use lvhvbox.RocMonitor.{PanelState, Monitor, observe, note, sample}

-- The samples of a panel, newest first: a value or a failure, and the time.
unfoldable pub sampled : ℕ → List (Option ℕ × ℕ) → Monitor → Result Monitor
sampled name [] m = ok m
sampled name ((value, now) ∷ older) m = do n ← sampled name older m; sample name value now n

abbrev pub is_high : ℕ → Option ℕ × ℕ → Bool
is_high threshold (none, now) = false
is_high threshold (some value, now) = ltb threshold value

fetch-store :
    (p : ℕ) (v : PanelState) (states : List (ℕ × PanelState))
    → fetch ◌==◌ p (store ◌==◌ p v states) ≡ ok v
fetch-store p v [] = rw (==_refl p) refl
fetch-store p v ((j, w) ∷ rest) = elim (Bool-cases (j == p)) [
  | inl e ↦ rw (e, e) refl
  | inr e ↦ rw (e, e) (fetch-store p v rest)
]

observe_high :
    (threshold now : ℕ) (value : Option ℕ) (s : PanelState)
    → (observe threshold now value s).high_count
      ≡ (if is_high threshold (value, now) then s.high_count + 1 else 0)
observe_high threshold now none s = refl
observe_high threshold now (some value) s = refl

note_threshold :
    (name : ℕ) (value : Option ℕ) (m : Monitor) → (note name value m).threshold ≡ m.threshold
note_threshold name none m = refl
note_threshold name (some value) m = refl

-- The monitor that the samples leave: it returned, and the panel's count is the run of its history.
record Counted (name : ℕ) (history : List (Option ℕ × ℕ)) (m n : Monitor) : Type 0 where
  returned : sampled name history m ≡ ok n
  same_threshold : n.threshold ≡ m.threshold
  counted :
      (s : PanelState) × (fetch ◌==◌ name n.states ≡ ok s)
      × (s.high_count ≡ run_length (is_high m.threshold) history)

sample-Counted :
    (name : ℕ) (value : Option ℕ) (now : ℕ) (older : List (Option ℕ × ℕ)) (m n : Monitor)
    → Counted name older m n
    → (r : Monitor) × Counted name ((value, now) ∷ older) m r
unfolding sampled run_length sample
sample-Counted name value now older m n c =
    let (s, known, count) = c.counted in
    let seen = observe n.threshold now value s in
    (
      record (note name value n) { states = store ◌==◌ name seen n.states },
      record {
        returned = rw (c.returned, known) refl;
        same_threshold = note_threshold name value n ∙ c.same_threshold;
        counted = (
          seen,
          fetch-store name seen n.states,
          observe_high n.threshold now value s
              ∙ ap (λ b. if is_high b (value, now) then s.high_count + 1 else 0) c.same_threshold
              ∙ ap (λ h. if is_high m.threshold (value, now) then h + 1 else 0) count,
        );
      },
    )

sampled-Counted :
    (name : ℕ) (history : List (Option ℕ × ℕ)) (m : Monitor) (s : PanelState)
    → fetch ◌==◌ name m.states ≡ ok s
    → s.high_count ≡ 0
    → (n : Monitor) × Counted name history m n
unfolding sampled run_length
sampled-Counted name [] m s f z =
    (m, record { returned = refl; same_threshold = refl; counted = (s, f, z) })
sampled-Counted name ((value, now) ∷ older) m s f z =
    let (n, c) = sampled-Counted name older m s f z in sample-Counted name value now older m n c

-- From a panel that has a state with an empty streak, its samples never raise, and they leave a count
-- that reaches `k` exactly when the last `k` of them were readings above the threshold.
pub sampled-high_count :
    (name : ℕ) (history : List (Option ℕ × ℕ)) (m : Monitor) (s : PanelState)
    → fetch ◌==◌ name m.states ≡ ok s
    → s.high_count ≡ 0
    → (n : Monitor) × (t : PanelState) × (sampled name history m ≡ ok n)
      × (fetch ◌==◌ name n.states ≡ ok t)
      × ((k : ℕ) → (k ≤ t.high_count) ↔ Passes (is_high m.threshold) k history)
sampled-high_count name history m s f z =
    let (n, c) = sampled-Counted name history m s f z in
    let (t, known, count) = c.counted in
    (
      n,
      t,
      c.returned,
      known,
      λ k. (
        λ h. run_length-Passes (is_high m.threshold) history k (omega (arith, h, count)),
        λ h. omega (arith, count, Passes-run_length (is_high m.threshold) history k h),
      ),
    )
