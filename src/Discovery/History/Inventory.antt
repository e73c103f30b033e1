-- ===== src/Discovery/History/Inventory.antt =====
-- The expected inventory after a scan.
use lvhvbox.Prelude.{
  ℕ, ◌≡◌, refl, sym, ap, ◌∙◌, Bool, true, false, ◌&&◌, ◌||◌, inl, inr, List, [], ◌∷◌, ◌++◌,
  if◌then◌else◌, ◌==◌, select, Bool-cases, Option, Result, Error, ok, err, ◌≢◌, Result_elim,
  value_error, guard-eq-ok, >>=-eq-ok, ok-injective, arith,
}
use lvhvbox.Discovery.History.{
  member, insert_sorted, sorted, distinct, addresses, History, Found, is_on, recorded, validated,
  record_scan,
}

member-insert_sorted : (a b : ℕ) (xs : List ℕ) → member a (insert_sorted b xs) ≡ member a (b ∷ xs)
unfolding insert_sorted
member-insert_sorted a b [] = refl
member-insert_sorted a b (x ∷ xs) = ground (arith, member-insert_sorted a b xs)

pub member-sorted : (a : ℕ) (xs : List ℕ) → member a (sorted xs) ≡ member a xs
unfolding sorted
member-sorted a [] = refl
member-sorted a (x ∷ xs) = ground (arith, member-insert_sorted a x (sorted xs), member-sorted a xs)

same-member : (a x : ℕ) (xs : List ℕ) → x == a ≡ true → member x xs ≡ member a xs
same-member a x [] h = refl
same-member a x (y ∷ ys) h = ground (arith, same-member a x ys h)

member-distinct : (a : ℕ) (xs : List ℕ) → member a (distinct xs) ≡ member a xs
unfolding distinct
member-distinct a [] = refl
member-distinct a (x ∷ xs) = elim (Bool-cases (x == a)) [
  | inl e ↦ ground (arith, member-distinct a xs, same-member a x xs e)
  | inr e ↦ ground (arith, member-distinct a xs)
]

member-append : (a : ℕ) (xs ys : List ℕ) → member a (xs ++ ys) ≡ (member a xs || member a ys)
member-append a [] ys = refl
member-append a (x ∷ xs) ys = ground (arith, member-append a xs ys)

pub member-select :
    (p : ℕ → Bool) (a : ℕ) (xs : List ℕ) → member a (select p xs) ≡ (p a && member a xs)
member-select p a [] = ground arith
member-select p a (x ∷ xs) = elim (Bool-cases (x == a)) [
  | inl e ↦ let same : x ≡ a = ground arith in ground (arith, member-select p a xs, ap p same)
  | inr e ↦ ground (arith, member-select p a xs)
]

member-addresses :
    (a : ℕ) (values found : List ℕ) → addresses values ≡ ok found → member a found ≡ member a values
unfolding addresses
member-addresses a values found h =
    let (_, h1) = guard-eq-ok _ value_error _ h in
    let (_, h2) = guard-eq-ok _ value_error _ h1 in
    ap (member a) (sym (ok-injective h2)) ∙ member-sorted a values

kept_or_added :
    (a : ℕ) (before found : List ℕ) (on : Bool)
    → member a (if on then sorted (distinct (before ++ found)) else before)
      ≡ (member a before || (on && member a found))
kept_or_added a before found true =
    member-sorted a (distinct (before ++ found))
    ∙ member-distinct a (before ++ found)
    ∙ member-append a before found
kept_or_added a before found false = ground arith

validated-addresses :
    (i : Found) (found : List ℕ) → validated i ≡ ok found → addresses i.addresses ≡ ok found
validated-addresses i found e =
    let (_, h1) = guard-eq-ok i.scanned value_error _ e in
    let (listed, got, h2) = >>=-eq-ok (addresses i.addresses) _ h1 in
    let (_, h3) = guard-eq-ok _ value_error _ h2 in got ∙ h3

err≢ok : {e : Error} {u : Unit {0}} → err e ≢ ok u
err≢ok h = cc

-- A completed scan never takes a panel from the expected inventory. It adds the panels that it found,
-- if the power is known to be on, and nothing otherwise.
pub record_scan-last_discovered :
    (uuid : ℕ → ℕ) (writes : Bool) (h : History) (i : Found) (powered : Option Bool)
    (startup power_on : Bool) (after : History)
    → record_scan uuid writes h i powered startup power_on ≡ (after, ok tt)
    → (a : ℕ)
    → member a after.last_discovered
      ≡ (member a h.last_discovered || (is_on powered && member a i.addresses))
unfolding record_scan recorded
record_scan-last_discovered uuid writes h i powered startup power_on after e a =
    let P : History × Result (Unit {0}) → Type 0 = λ r.
      r ≡ (after, ok tt)
      → member a after.last_discovered
        ≡ (member a h.last_discovered || (is_on powered && member a i.addresses)) in
    Result_elim P (validated i) _ _ (λ e _ k. absurd (err≢ok (ap (λ r. r.1) k)))
      (λ found valid k.
        ap (λ (r : History × Result (Unit {0})). member a r.0.last_discovered) (sym k)
        ∙ kept_or_added a h.last_discovered found (is_on powered)
        ∙ ap (λ (b : Bool). member a h.last_discovered || (is_on powered && b))
            (member-addresses a i.addresses found (validated-addresses i found valid)))
      e
