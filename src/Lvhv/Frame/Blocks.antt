-- ===== src/Lvhv/Frame/Blocks.antt =====
-- One block: its elements, and `write_block` against the loop of `read_frame`.
use lvhvbox.Prelude.{
  ℕ, zero, suc, ◌+◌, ◌*◌, ◌^◌, ◌≤◌, ◌<◌, ◌≡◌, refl, sym, ap, subst, ◌∙◌, List, [], ◌∷◌, ◌++◌,
  append_assoc, length, take, drop, length-append, take-append, drop-append, length-take,
  length-drop, All, All-take, All-drop, IsBytes, arith,
}
use lvhvbox.Lvhv.Words.{
  pack_word, unpack_word, length-pack_word, unpack-pack, pack-unpack, unpack-lt,
}
use lvhvbox.Lvhv.Frame.{pack_words, unpack_words}

suc-mul : (n w : ℕ) → suc n * w ≡ w + n * w
suc-mul n w = omega arith

suc_add : (a b : ℕ) → suc a + b ≡ suc (a + b)
suc_add a b = omega arith

zero_add : (n : ℕ) → 0 + n ≡ n
zero_add n = omega arith

zero_mul : (n : ℕ) → 0 * n ≡ 0
zero_mul n = omega arith

pub length-pack_words : (w : ℕ) (vs : List ℕ) → length (pack_words w vs) ≡ length vs * w
unfolding pack_words
length-pack_words w [] = omega arith
length-pack_words w (v ∷ vs) = omega (
  arith,
  length-append (pack_word w v) (pack_words w vs),
  length-pack_word w v,
  length-pack_words w vs,
  suc-mul (length vs) w,
)

abbrev pub Fits : ℕ → ℕ → Type 0
Fits w v = v < 256 ^ w

take-word : (w v : ℕ) (rest : List ℕ) → take w (pack_word w v ++ rest) ≡ pack_word w v
take-word w v rest =
    subst (λ n. take n (pack_word w v ++ rest) ≡ pack_word w v) (length-pack_word w v)
      (take-append (pack_word w v) rest)

pub drop-word : (w v : ℕ) (rest : List ℕ) → drop w (pack_word w v ++ rest) ≡ rest
drop-word w v rest =
    subst (λ n. drop n (pack_word w v ++ rest) ≡ rest) (length-pack_word w v)
      (drop-append (pack_word w v) rest)

pub unpack-word :
    (w v : ℕ) (rest : List ℕ) → v < 256 ^ w → unpack_word (take w (pack_word w v ++ rest)) ≡ v
unpack-word w v rest h = ap unpack_word (take-word w v rest) ∙ unpack-pack w v h

pub unpack-words :
    (w : ℕ) (vs rest : List ℕ)
    → All (Fits w) vs
    → unpack_words w (length vs) (pack_words w vs ++ rest) ≡ vs
unfolding unpack_words pack_words
unpack-words w [] rest h = refl
unpack-words w (v ∷ vs) rest (fits, more) =
    rw
      (
        append_assoc (pack_word w v) (pack_words w vs) rest,
        unpack-word w v (pack_words w vs ++ rest) fits,
        drop-word w v (pack_words w vs ++ rest),
        unpack-words w vs rest more,
      )
      refl

pub drop-words : (w : ℕ) (vs rest : List ℕ) → drop (length vs * w) (pack_words w vs ++ rest) ≡ rest
drop-words w vs rest =
    subst (λ n. drop n (pack_words w vs ++ rest) ≡ rest) (length-pack_words w vs)
      (drop-append (pack_words w vs) rest)

drop-nil : (n : ℕ) → drop {A = ℕ} n [] ≡ []
drop-nil zero = refl
drop-nil (suc n) = refl

take-nil : (n : ℕ) → take {A = ℕ} n [] ≡ []
take-nil zero = refl
take-nil (suc n) = refl

-- The other direction: what is unpacked packs to the same bytes.
pub drop-add : (a b : ℕ) (xs : List ℕ) → drop (a + b) xs ≡ drop b (drop a xs)
drop-add zero b xs = ap (λ (n : ℕ). drop n xs) (zero_add b)
drop-add (suc a) b (x ∷ xs) = ap (λ (n : ℕ). drop n (x ∷ xs)) (suc_add a b) ∙ drop-add a b xs
drop-add (suc a) b [] = drop-nil (suc a + b) ∙ sym (drop-nil b)

pub take-add : (a b : ℕ) (xs : List ℕ) → take (a + b) xs ≡ take a xs ++ take b (drop a xs)
take-add zero b xs = ap (λ (n : ℕ). take n xs) (zero_add b)
take-add (suc a) b (x ∷ xs) =
    ap (λ (n : ℕ). take n (x ∷ xs)) (suc_add a b) ∙ ap (◌∷◌ x) (take-add a b xs)
take-add (suc a) b [] = take-nil (suc a + b) ∙ sym (take-nil b)

pub pack-take :
    (w : ℕ) (bytes : List ℕ)
    → IsBytes bytes
    → w ≤ length bytes
    → pack_word w (unpack_word (take w bytes)) ≡ take w bytes
pack-take w bytes b h =
    subst (λ n. pack_word n (unpack_word (take w bytes)) ≡ take w bytes) (length-take w bytes h)
      (pack-unpack (take w bytes) (All-take (λ c. c < 2 ^ 8) w bytes b))

pub pack-words :
    (w n : ℕ) (bytes : List ℕ)
    → IsBytes bytes
    → n * w ≤ length bytes
    → pack_words w (unpack_words w n bytes) ≡ take (n * w) bytes
unfolding unpack_words pack_words
pack-words w zero bytes b h = sym (ap (λ (n : ℕ). take n bytes) (zero_mul w))
pack-words w (suc n) bytes b h =
    rw
      (
        pack-take w bytes b (omega (arith, suc-mul n w)),
        pack-words w n (drop w bytes) (All-drop (λ c. c < 2 ^ 8) w bytes b)
            (omega (arith, suc-mul n w, length-drop w bytes)),
      )
      (sym (ap (λ (k : ℕ). take k bytes) (suc-mul n w) ∙ take-add w (n * w) bytes))

pub length-unpack_words : (w n : ℕ) (bytes : List ℕ) → length (unpack_words w n bytes) ≡ n
unfolding unpack_words
length-unpack_words w zero bytes = refl
length-unpack_words w (suc n) bytes = ap suc (length-unpack_words w n (drop w bytes))

pub take-lt :
    (w : ℕ) (bytes : List ℕ)
    → IsBytes bytes
    → w ≤ length bytes
    → unpack_word (take w bytes) < 256 ^ w
take-lt w bytes b h =
    subst (λ n. unpack_word (take w bytes) < 256 ^ n) (length-take w bytes h)
      (unpack-lt (take w bytes) (All-take (λ c. c < 2 ^ 8) w bytes b))

pub unpack_words-Fits :
    (w n : ℕ) (bytes : List ℕ)
    → IsBytes bytes
    → n * w ≤ length bytes
    → All (Fits w) (unpack_words w n bytes)
unfolding unpack_words
unpack_words-Fits w zero bytes b h = tt
unpack_words-Fits w (suc n) bytes b h = (
  take-lt w bytes b (omega (arith, suc-mul n w)),
  unpack_words-Fits w n (drop w bytes) (All-drop (λ c. c < 2 ^ 8) w bytes b)
      (omega (arith, suc-mul n w, length-drop w bytes)),
)
