-- ===== src/Rs485/Frame/Escape.antt =====
-- `unescape` undoes `escape`, and accepts nothing that `escape` does not write.
use Prim.Native.Nat.{bit_xor}
use lvhvbox.Prelude.{
  ℕ, ◌+◌, ◌*◌, ◌^◌, ◌<◌, ◌≤◌, ◌≡◌, ◌≢◌, refl, sym, ap, ◌∙◌, ◌⊎◌, inl, inr, Bool, true, false, List,
  [], ◌∷◌, ◌++◌, append_assoc, append-nil, ◌==◌, ==_iff, ltb, length, length-append, All, IsBytes,
  ok, value_error, guard, not, ◌↔◌, >>=-eq-ok, Bool-cases, arith,
}
use lvhvbox.Rs485.Frame.{flag, esc, max_body, escape, Unescape, unescape, unescape_byte}

-- How one byte is escaped: as a pair, or as itself.
abbrev Escapes : ℕ → List ℕ → Type 0
Escapes x xs =
    ((y : ℕ) × ((y ≡ 0x5D) ⊎ (y ≡ 0x5E))
      × (bit_xor y 0x20 ≡ x)
      × (escape (x ∷ xs) ≡ esc ∷ y ∷ escape xs))
    ⊎ ((x ≢ flag) × (x ≢ esc) × (escape (x ∷ xs) ≡ x ∷ escape xs))

escape_cases : (x : ℕ) (xs : List ℕ) → Escapes x xs
unfolding escape
escape_cases x xs = elim (Bool-cases (x == flag)) [
  | inl e ↦ let at : x ≡ flag = (==_iff x flag).0 e in inl (0x5E, inr refl, sym at, rw at)
  | inr e ↦ elim (Bool-cases (x == esc)) [
    | inl e' ↦ let at : x ≡ esc = (==_iff x esc).0 e' in inl (0x5D, inl refl, sym at, rw at)
    | inr e' ↦ inr (ground arith, ground arith, rw (e, e'))
  ]
]

abbrev pub NoFlag : List ℕ → Type 0
NoFlag = All (λ b. b ≢ flag)

-- Escaped text holds no delimiter.
pub escape-NoFlag : (xs : List ℕ) → NoFlag (escape xs)
unfolding escape
escape-NoFlag [] = tt
escape-NoFlag (x ∷ xs) = elim (escape_cases x xs) [
  | inl (y, code, _, e) ↦ rw e (omega arith, (ground arith, escape-NoFlag xs))
  | inr (not_flag, _, e) ↦ rw e (not_flag, escape-NoFlag xs)
]

pub length-escape : (xs : List ℕ) → length (escape xs) ≤ 2 * length xs
unfolding escape
length-escape [] = omega arith
length-escape (x ∷ xs) = ground (arith, length-escape xs)

pub le-length-escape : (xs : List ℕ) → length xs ≤ length (escape xs)
unfolding escape
le-length-escape [] = omega arith
le-length-escape (x ∷ xs) = ground (arith, le-length-escape xs)

abbrev plain : List ℕ → Unescape
plain acc = record { escaped = false; body = acc }

module _ (acc ws : List ℕ) (fits : length acc < max_body) where
  length-snoc : (x : ℕ) → length (acc ++ x ∷ []) ≤ max_body
  length-snoc x = omega (arith, length-append acc (x ∷ []))

  unescape_pair :
      (y : ℕ)
      → (y ≡ 0x5D) ⊎ (y ≡ 0x5E)
      → unescape (esc ∷ y ∷ ws) (plain acc) ≡ unescape ws (plain (acc ++ bit_xor y 0x20 ∷ []))
  unfolding unescape
  unescape_pair y code = ground (arith, length-snoc (bit_xor y 0x20))

  unescape-plain :
      (x : ℕ)
      → x ≢ flag
      → x ≢ esc
      → unescape (x ∷ ws) (plain acc) ≡ unescape ws (plain (acc ++ x ∷ []))
  unfolding unescape
  unescape-plain x not_flag not_esc = ground (arith, length-snoc x)

-- The loop reads back what was escaped, if it fits.
pub unescape-escape :
    (xs acc : List ℕ)
    → length acc + length xs ≤ max_body
    → unescape (escape xs) (plain acc) ≡ ok (plain (acc ++ xs))
unfolding unescape escape
unescape-escape [] acc h = rw append-nil
unescape-escape (x ∷ xs) acc h =
    let rest : unescape (escape xs) (plain (acc ++ x ∷ [])) ≡ ok (plain ((acc ++ x ∷ []) ++ xs)) =
      unescape-escape xs (acc ++ x ∷ []) (omega (arith, length-append acc (x ∷ []))) in
    elim (escape_cases x xs) [
      | inl (y, code, at, e) ↦
          rw (e, unescape_pair acc (escape xs) (omega arith) y code, at, rest) (rw append_assoc)
      | inr (not_flag, not_esc, e) ↦
          rw (e, unescape-plain acc (escape xs) (omega arith) x not_flag not_esc, rest)
            (rw append_assoc)
    ]

-- What the loop reads before its state `s` is pending: an escape byte, or nothing.
abbrev pending : Bool → List ℕ → List ℕ
pending true ws = esc ∷ ws
pending false ws = ws

-- What one step appends to the body, and how it was escaped.
abbrev Read : ℕ → Unescape → Unescape → Type 0
Read byte s u =
    (x : List ℕ) × (u.body ≡ s.body ++ x)
    × ((rest xs : List ℕ)
        → pending u.escaped rest ≡ escape xs
        → pending s.escaped (byte ∷ rest) ≡ escape (x ++ xs))

-- The last step that the loop took, by the flag and the byte.
Read-one :
    (byte : ℕ) (escaped : Bool) (body : List ℕ) (u : Unescape)
    → unescape_byte byte (record { escaped = escaped; body = body }) ≡ ok u
    → Read byte (record { escaped = escaped; body = body }) u
unfolding unescape_byte escape
Read-one byte true body u h = elim (Bool-cases (byte == 0x5D)) [
  | inl e ↦
      let at : byte ≡ 0x5D = (==_iff byte 0x5D).0 e in
      let code : bit_xor byte 0x20 ≡ 0x7D = ap (λ (b : ℕ). bit_xor b 0x20) at in
      (0x7D ∷ [], ground arith, λ rest xs p. ground arith)
  | inr e ↦
      let at : byte ≡ 0x5E = ground arith in
      let code : bit_xor byte 0x20 ≡ 0x7E = ap (λ (b : ℕ). bit_xor b 0x20) at in
      (0x7E ∷ [], ground arith, λ rest xs p. ground arith)
]
Read-one byte false body u h = elim (Bool-cases (byte == esc)) [
  | inl e ↦ ([], rw append-nil (ground arith), λ rest xs p. ground arith)
  | inr e ↦ (byte ∷ [], ground arith, λ rest xs p. ground arith)
]

-- What the loop accepts, from any state, is escaped text and nothing else.
pub unescape_sound :
    (ws : List ℕ) (s t : Unescape)
    → unescape ws s ≡ ok t
    → t.escaped ≡ false
    → (xs : List ℕ) × (t.body ≡ s.body ++ xs) × (pending s.escaped ws ≡ escape xs)
unfolding unescape escape
unescape_sound [] s t h done = ([], rw append-nil (ground arith), ground arith)
unescape_sound (byte ∷ rest) s t h done =
    let (u, step, more) = >>=-eq-ok (unescape_byte byte s) _ h in
    let (_, _, loop) = >>=-eq-ok (guard (not (ltb max_body (length u.body))) value_error) _ more in
    let (x, grown, escaped) = Read-one byte s.escaped s.body u step in
    let (xs, whole, text) = unescape_sound rest u t loop done in
    (
      x ++ xs,
      whole ∙ ap (λ (b : List ℕ). b ++ xs) grown ∙ append_assoc s.body x xs,
      escaped rest xs text,
    )

-- The bytes of an escaped text are those of the text, up to the escape code.
pub escape-IsBytes : (xs : List ℕ) → IsBytes (escape xs) ↔ IsBytes xs
unfolding escape
escape-IsBytes [] = (λ h. tt, λ h. tt)
escape-IsBytes (x ∷ xs) = elim (escape_cases x xs) [
  | inl (y, code, at, e) ↦ rw e (
    λ h. (byte y code at, (escape-IsBytes xs).0 h.1.1),
    λ h. (omega arith, (ground arith, (escape-IsBytes xs).1 h.1)),
  )
  | inr (_, _, e) ↦
      rw e (λ h. (h.0, (escape-IsBytes xs).0 h.1), λ h. (h.0, (escape-IsBytes xs).1 h.1))
]
  where
    byte : (y : ℕ) → (y ≡ 0x5D) ⊎ (y ≡ 0x5E) → bit_xor y 0x20 ≡ x → x < 2 ^ 8
    byte y (inl e) at = omega (arith, ap (λ (b : ℕ). bit_xor b 0x20) e)
    byte y (inr e) at = omega (arith, ap (λ (b : ℕ). bit_xor b 0x20) e)
