-- ===== src/AlarmPolicy/Accepted.antt =====
-- What a policy that is accepted holds.
use Prim.Native.String.{String}
use text.Mathlib.Text.{◌==◌}
use lvhvbox.Prelude.{
  ℕ, ◌≤◌, ◌<◌, ◌≡◌, refl, sym, ap, subst, ◌∙◌, ◌⊎◌, inl, inr, Bool, true, false, not, if◌then◌else◌,
  Bool-cases, &&-inv, ◌&&◌, ◌||◌, List, [], ◌∷◌, any, all, All, ltb, leb, Option, none, some, ok,
  value_error, guard-eq-ok, >>=-eq-ok, ok-injective, arith,
}
use lvhvbox.AlarmPolicy.{
  Number, Json, Members, number, object, other, Kind, any_number, int_number, positive, Rule, rules,
  names, is_member, all_members, fetch_member, keys, is_below, is_above, breaks_kind, accepts,
  check_section, check_sections, is_version, validate_policy,
}

abbrev pub HasKind : Kind → Number → Type 0
HasKind any_number n = Unit
HasKind int_number n = n.is_int ≡ true
HasKind positive n = (n.negative ≡ false) × ((n.fraction ≡ true) ⊎ (1 ≤ n.whole))

-- The number is at least the bound: not negative with a large enough whole part, or zero at the bound 0.
abbrev pub IsAtLeast : Option ℕ → Number → Type 0
IsAtLeast none n = Unit
IsAtLeast (some low) n =
    ((n.negative ≡ false) × (low ≤ n.whole))
    ⊎ ((n.negative ≡ true) × (n.fraction ≡ false) × (n.whole ≡ 0) × (low ≡ 0))

abbrev pub IsAtMost : Option ℕ → Number → Type 0
IsAtMost none n = Unit
IsAtMost (some high) n =
    (n.negative ≡ true) ⊎ ((n.whole < high) ⊎ ((n.whole ≡ high) × (n.fraction ≡ false)))

abbrev pub Within : Rule → Json → Type 0
Within r value =
    (n : Number) × (value ≡ number n)
    × (n.is_finite ≡ true)
    × HasKind r.kind n
    × IsAtLeast r.low n
    × IsAtMost r.high n

positive_lem :
    (negative fraction : Bool) (whole : ℕ)
    → negative || not (fraction || ltb 0 whole) ≡ false
    → (negative ≡ false) × ((fraction ≡ true) ⊎ (1 ≤ whole))
positive_lem true fraction whole h = cc
positive_lem false true whole h = (refl, inl refl)
positive_lem false false whole h = (refl, inr (ground arith))

at_least_lem :
    (negative fraction : Bool) (whole low : ℕ)
    → (if negative then not (not (fraction || ltb 0 whole)) || ltb 0 low else ltb whole low) ≡ false
    → ((negative ≡ false) × (low ≤ whole))
      ⊎ ((negative ≡ true) × (fraction ≡ false) × (whole ≡ 0) × (low ≡ 0))
at_least_lem false fraction whole low h = inl (refl, ground arith)
at_least_lem true true whole low h = cc
at_least_lem true false whole low h = inr (refl, refl, ground arith, ground arith)

at_most_lem :
    (negative fraction : Bool) (whole high : ℕ)
    → not negative && (ltb high whole || (fraction && leb high whole)) ≡ false
    → (negative ≡ true) ⊎ ((whole < high) ⊎ ((whole ≡ high) × (fraction ≡ false)))
at_most_lem true fraction whole high h = inl refl
at_most_lem false true whole high h = inr (inl (ground arith))
at_most_lem false false whole high h = elim (Bool-cases (ltb whole high)) [
  | inl below ↦ inr (inl (ground arith))
  | inr reached ↦ inr (inr (ground arith, refl))
]

kind_lem : (k : Kind) (n : Number) → breaks_kind k n ≡ false → HasKind k n
kind_lem any_number n h = tt
kind_lem int_number n h = ground arith
kind_lem positive n h = positive_lem n.negative n.fraction n.whole h

low_lem : (low : Option ℕ) (n : Number) → is_below low n ≡ false → IsAtLeast low n
low_lem none n h = tt
low_lem (some low) n h = at_least_lem n.negative n.fraction n.whole low h

high_lem : (high : Option ℕ) (n : Number) → is_above high n ≡ false → IsAtMost high n
high_lem none n h = tt
high_lem (some high) n h = at_most_lem n.negative n.fraction n.whole high h

accepts-Within : (r : Rule) (value : Json) → accepts r value ≡ true → Within r value
accepts-Within r (number n) h = (
  n,
  refl,
  ground arith,
  kind_lem r.kind n (ground arith),
  low_lem r.low n (ground arith),
  high_lem r.high n (ground arith),
)
accepts-Within r (object fields) h = cc
accepts-Within r other h = cc

-- Each rule of a section finds a value in it, which keeps the rule.
abbrev pub Follows : Members → List (String × Rule) → Type 0
Follows fields = All (λ (p : String × Rule).
    (value : Json) × (fetch_member p.0 fields ≡ ok value) × Within p.1 value)

check_section-Follows :
    (fields : Members) (rs : List (String × Rule)) (done : Unit {0})
    → check_section fields rs ≡ ok done
    → Follows fields rs
unfolding check_section
check_section-Follows fields [] done h = tt
check_section-Follows fields ((key, r) ∷ rs) done h =
    let (value, found, h1) = >>=-eq-ok (fetch_member key fields) _ h in
    let (fine, h2) = guard-eq-ok (accepts r value) value_error _ h1 in
    ((value, found, accepts-Within r value fine), check_section-Follows fields rs done h2)

-- An object has exactly these keys.
abbrev pub HasKeys : List String → Members → Type 0
HasKeys expected fields =
    (all (λ k. is_member k fields) expected ≡ true)
    × (all_members (λ k. any (λ name. name == k) expected) fields ≡ true)

keys-HasKeys :
    (value : Json) (expected : List String) (fields : Members)
    → keys value expected ≡ ok fields
    → (value ≡ object fields) × HasKeys expected fields
unfolding keys
keys-HasKeys (number n) expected fields h = cc
keys-HasKeys other expected fields h = cc
keys-HasKeys (object inner) expected fields h =
    let (exact, same) =
      guard-eq-ok
        (all (λ k. is_member k inner) expected
          && all_members (λ k. any (λ name. name == k) expected) inner)
        value_error (ok inner) h in
    (ap object (ok-injective same), subst (HasKeys expected) (ok-injective same) (&&-inv exact))

abbrev pub SectionFollows : Members → String × List (String × Rule) → Type 0
SectionFollows fields section =
    (inner : Members) × (fetch_member section.0 fields ≡ ok (object inner))
    × HasKeys (names section.1) inner
    × Follows inner section.1

check_sections-Follows :
    (fields : Members) (sections : List (String × List (String × Rule))) (done : Unit {0})
    → check_sections fields sections ≡ ok done
    → All (SectionFollows fields) sections
unfolding check_sections
check_sections-Follows fields [] done h = tt
check_sections-Follows fields ((section, rs) ∷ sections) done h =
    let (value, found, h1) = >>=-eq-ok (fetch_member section fields) _ h in
    let (inner, exact, h2) = >>=-eq-ok (keys value (names rs)) _ h1 in
    let (one, checked, h3) = >>=-eq-ok (check_section inner rs) _ h2 in
    let (same, has) = keys-HasKeys value (names rs) inner exact in
    (
      (inner, found ∙ ap ok same, has, check_section-Follows inner rs one checked),
      check_sections-Follows fields sections done h3,
    )

-- A policy that is accepted is returned as it is. It is an object with exactly the sections of the rules
-- and `schema_version`; each section is an object with exactly the keys of its rules; and the value at
-- each key is a finite number of the rule's kind, between the rule's bounds.
pub validate_policy-Follows :
    (value result : Json)
    → validate_policy value ≡ ok result
    → (result ≡ value)
      × ((fields : Members) × (value ≡ object fields)
          × HasKeys ("schema_version" ∷ names rules) fields
          × All (SectionFollows fields) rules)
unfolding validate_policy
validate_policy-Follows value result h =
    let (fields, exact, h1) = >>=-eq-ok (keys value ("schema_version" ∷ names rules)) _ h in
    let (version, found, h2) = >>=-eq-ok (fetch_member "schema_version" fields) _ h1 in
    let (fine, h3) = guard-eq-ok (is_version version) value_error _ h2 in
    let (done, checked, h4) = >>=-eq-ok (check_sections fields rules) _ h3 in
    let (same, has) = keys-HasKeys value ("schema_version" ∷ names rules) fields exact in
    (sym (ok-injective h4), (fields, same, has, check_sections-Follows fields rules done checked))
