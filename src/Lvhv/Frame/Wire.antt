-- ===== src/Lvhv/Frame/Wire.antt =====
-- The bytes of one block: `write_block` writes them and `read_block` reads them.
use lvhvbox.Prelude.{
  ℕ, ◌+◌, ◌*◌, ◌/◌, ◌^◌, ◌≤◌, ◌<◌, ◌≡◌, refl, sym, ap, subst, ◌∙◌, ◌⊎◌, inl, inr, Bool, true, List,
  [], ◌∷◌, ◌++◌, append_assoc, ltb, leb, all, length, take, drop, length-append, All, Option, none,
  some, Result, ok, err, value_error, struct_error, guard, ◌>>◌, guard-eq-ok, ok-injective, leb→le,
  le→leb, lt→ltb, arith,
}
use lvhvbox.Lvhv.Words.{pack_word, unpack_word, length-pack_word}
use lvhvbox.Lvhv.Frame.{
  Block, type_bytes, pack_words, write_words, write_block, read_words, read_block,
}
use lvhvbox.Lvhv.Frame.Blocks.{
  Fits, length-pack_words, unpack-word, drop-word, unpack-words, drop-words,
}

type_bytes-cases : (kind w : ℕ) → type_bytes kind ≡ some w → (w ≡ 1) ⊎ ((w ≡ 4) ⊎ (w ≡ 8))
unfolding type_bytes
type_bytes-cases kind w h = ground arith

-- The bound that `write_block` puts on the number of elements, without its division.
pub count_bound :
    (kind w n : ℕ) → type_bytes kind ≡ some w → leb n (67108859 / w) ≡ leb (n * w) 67108859
count_bound kind w n h = elim (type_bytes-cases kind w h) [
  | inl e ↦ rw e (ground arith)
  | inr (inl e) ↦ rw e (ground arith)
  | inr (inr e) ↦ rw e (ground arith)
]

pub count_small : (kind w n : ℕ) → type_bytes kind ≡ some w → n * w ≤ 67108859 → n < 256 ^ 4
count_small kind w n h le = elim (type_bytes-cases kind w h) [
  | inl e ↦ omega (arith, subst (λ (w : ℕ). n * w ≤ 67108859) e le)
  | inr (inl e) ↦ omega (arith, subst (λ (w : ℕ). n * w ≤ 67108859) e le)
  | inr (inr e) ↦ omega (arith, subst (λ (w : ℕ). n * w ≤ 67108859) e le)
]

all-Fits : (w : ℕ) (vs : List ℕ) → all (λ v. ltb v (256 ^ w)) vs ≡ true → All (Fits w) vs
all-Fits w [] h = tt
all-Fits w (v ∷ vs) h = (ground arith, all-Fits w vs (ground arith))

Fits-all : (w : ℕ) (vs : List ℕ) → All (Fits w) vs → all (λ v. ltb v (256 ^ w)) vs ≡ true
Fits-all w [] h = refl
Fits-all w (v ∷ vs) (h, rest) = rw (lt→ltb v (256 ^ w) h) (Fits-all w vs rest)

-- A block that `write_block` accepts.
pub record IsBlock (b : Block) (w : ℕ) : Type 0 where
  pub known : type_bytes b.kind ≡ some w
  pub short : length b.values * w ≤ 67108859
  pub fits : All (Fits w) b.values

unfoldable pub wire_block : Block → ℕ → List ℕ
wire_block b w = b.kind ∷ (pack_word 4 (length b.values) ++ pack_words w b.values)

encode-known :
    (b : Block) (o : Option ℕ) (bytes : List ℕ)
    → elim o [ none ↦ err value_error | some w ↦ write_words b w ] ≡ ok bytes
    → (w : ℕ) × (o ≡ some w) × (write_words b w ≡ ok bytes)
encode-known b none bytes h = cc
encode-known b (some w) bytes h = (w, refl, h)

pub encode_block_inv :
    (b : Block) (bytes : List ℕ)
    → write_block b ≡ ok bytes
    → (w : ℕ) × IsBlock b w × (bytes ≡ wire_block b w)
unfolding write_block wire_block
encode_block_inv b bytes h =
    let (w, known, enc) = encode-known b (type_bytes b.kind) bytes h in
    let (count, h1) = guard-eq-ok _ value_error _ enc in
    let (fits, h2) = guard-eq-ok _ struct_error _ h1 in
    (
      w,
      record {
        known = known;
        short = leb→le _ _ (sym (count_bound b.kind w (length b.values) known) ∙ count);
        fits = all-Fits w b.values fits;
      },
      sym (ok-injective h2),
    )

pub write_block-eq : (b : Block) (w : ℕ) → IsBlock b w → write_block b ≡ ok (wire_block b w)
unfolding write_block wire_block
write_block-eq b w v =
    ap
      (λ (o : Option ℕ). elim o as (λ _. Result (List ℕ)) [
        | none ↦ err value_error
        | some w ↦ write_words b w
      ])
      v.known
    ∙ ap
        (λ (t : Bool).
          guard t value_error
          >> (guard (all (λ v. ltb v (256 ^ w)) b.values) struct_error >> ok (wire_block b w)))
        (count_bound b.kind w (length b.values) v.known ∙ le→leb _ _ v.short)
    ∙ ap (λ (t : Bool). guard t struct_error >> ok (wire_block b w)) (Fits-all w b.values v.fits)

decode_known :
    (kind w : ℕ) (bytes : List ℕ)
    → type_bytes kind ≡ some w
    → 4 ≤ length bytes
    → read_block (kind ∷ bytes) ≡ read_words kind w (unpack_word (take 4 bytes)) (drop 4 bytes)
unfolding read_block
decode_known kind w bytes known h = rw (le→leb _ _ h, known) refl

decode_payload :
    (b : Block) (w : ℕ) (rest : List ℕ)
    → All (Fits w) b.values
    → read_words b.kind w (length b.values) (pack_words w b.values ++ rest) ≡ ok (b, rest)
decode_payload b w rest fits =
    rw
      (
        le→leb (length b.values * w) (length (pack_words w b.values ++ rest)) room,
        drop-words w b.values rest,
      )
      (ap (λ (vs : List ℕ). ok (record { kind = b.kind; values = vs }, rest))
        (unpack-words w b.values rest fits))
  where
    room : length b.values * w ≤ length (pack_words w b.values ++ rest)
    room = omega (arith, length-append (pack_words w b.values) rest, length-pack_words w b.values)

pub decode-wire :
    (b : Block) (w : ℕ) (rest : List ℕ)
    → IsBlock b w
    → read_block (wire_block b w ++ rest) ≡ ok (b, rest)
unfolding wire_block
decode-wire b w rest v =
    ap (λ (t : List ℕ). read_block (b.kind ∷ t))
      (append_assoc (pack_word 4 (length b.values)) (pack_words w b.values) rest)
    ∙ decode_known b.kind w _ v.known (
        omega (
          arith,
          length-append (pack_word 4 (length b.values)) (pack_words w b.values ++ rest),
          length-pack_word 4 (length b.values),
        ))
    ∙ rw
        (
          unpack-word 4 (length b.values) (pack_words w b.values ++ rest)
              (count_small b.kind w (length b.values) v.known v.short),
          drop-word 4 (length b.values) (pack_words w b.values ++ rest),
        )
        (decode_payload b w rest v.fits)

pub length-wire_block : (b : Block) (w : ℕ) → length (wire_block b w) ≡ 1 + 4 + length b.values * w
unfolding wire_block
length-wire_block b w = omega (
  arith,
  length-append (pack_word 4 (length b.values)) (pack_words w b.values),
  length-pack_word 4 (length b.values),
  length-pack_words w b.values,
)
