-- ===== src/Manifest/Utf8/Decoding.antt =====
-- What the byte-wise check accepts is the UTF-8 encoding of a list of code points.
use mathlib.Core.Path.{subst}
use camerahal.Common.{
  ℕ, ◌+◌, ◌-◌, ◌*◌, ◌%◌, ◌≤◌, ◌<◌, ◌≡◌, ◌⊎◌, inl, inr, refl, sym, ap, ◌∙◌, none, some, List, [],
  ◌∷◌, ◌++◌, append_assoc, append-nil, ltb, All, arith, Option-cases, Bool-cases,
}
use camerahal.Manifest.Utf8.{Sequence, utf8_step}
use camerahal.Manifest.Utf8.Encoding.{IsScalar, encode, encode_all, utf8_run, after, within}

-- The bytes `p` of a sequence that has begun and is not complete leave the check in the state `q`.
data Partial (q : Sequence) (p : List ℕ) : Type 0 where
  between : (d : ℕ) → q ≡ after d → p ≡ [] → Partial q p
  two : (a : ℕ) → q ≡ within 1 a → p ≡ (0xC0 + a) ∷ [] → 2 ≤ a → a < 32 → Partial q p
  three : (a : ℕ) → q ≡ within 2 a → p ≡ (0xE0 + a) ∷ [] → a < 16 → Partial q p
  four : (a : ℕ) → q ≡ within 3 a → p ≡ (0xF0 + a) ∷ [] → a < 8 → Partial q p
  three_two :
      (a b : ℕ)
      → q ≡ within 1 (a * 64 + b)
      → p ≡ (0xE0 + a) ∷ (0x80 + b) ∷ []
      → a < 16
      → b < 64
      → (0 < a) ⊎ (32 ≤ b)
      → Partial q p
  four_two :
      (a b : ℕ)
      → q ≡ within 2 (a * 64 + b)
      → p ≡ (0xF0 + a) ∷ (0x80 + b) ∷ []
      → a < 8
      → b < 64
      → (0 < a) ⊎ (16 ≤ b)
      → Partial q p
  four_three :
      (a b f : ℕ)
      → q ≡ within 1 ((a * 64 + b) * 64 + f)
      → p ≡ (0xF0 + a) ∷ (0x80 + b) ∷ (0x80 + f) ∷ []
      → a < 8
      → b < 64
      → f < 64
      → (0 < a) ⊎ (16 ≤ b)
      → Partial q p

-- What one more byte makes of it: a longer part, or the whole encoding of a code point.
abbrev Extended : Sequence → List ℕ → Type 0
Extended q p = Partial q p ⊎ ((c : ℕ) × IsScalar c × (p ≡ encode c) × (q ≡ after c))

-- What the check tells of a byte that it accepts between two code points.
abbrev Starts : ℕ → Sequence → Type 0
Starts x q =
    ((q ≡ after x) × (0 < x) × (x < 128))
    ⊎ ((a : ℕ) × (q ≡ within 1 a) × (x ≡ 0xC0 + a) × (2 ≤ a) × (a < 32))
    ⊎ ((a : ℕ) × (q ≡ within 2 a) × (x ≡ 0xE0 + a) × (a < 16))
    ⊎ ((a : ℕ) × (q ≡ within 3 a) × (x ≡ 0xF0 + a) × (a < 8))

step-Starts : (d x : ℕ) (q : Sequence) → x < 256 → utf8_step (after d) x ≡ some q → Starts x q
unfolding utf8_step
step-Starts d x q h e = elim (Bool-cases (ltb x 128)) [
  | inl t ↦ inl (ground arith)
  | inr t ↦ elim (Bool-cases (ltb x 224)) [
    | inl t' ↦ inr (inl (x - 192, ground arith, ground arith, ground arith, ground arith))
    | inr t' ↦ elim (Bool-cases (ltb x 240)) [
      | inl t'' ↦ inr (inr (inl (x - 224, ground arith, ground arith, ground arith)))
      | inr t'' ↦ inr (inr (inr (x - 240, ground arith, ground arith, ground arith)))
    ]
  ]
]

-- What the check tells of a continuation byte that it accepts.
step-third-inv :
    (a x : ℕ) (q : Sequence)
    → utf8_step (within 3 a) x ≡ some q
    → x < 256
    → (b : ℕ) × (q ≡ within 2 (a * 64 + b)) × (x ≡ 0x80 + b) × (b < 64) × ((0 < a) ⊎ (16 ≤ b))
unfolding utf8_step
step-third-inv a x q e h = (x % 64, ground arith, ground arith, omega arith, ground arith)

step-second-inv :
    (a x : ℕ) (q : Sequence)
    → utf8_step (within 2 a) x ≡ some q
    → x < 256
    → (b : ℕ) × (q ≡ within 1 (a * 64 + b)) × (x ≡ 0x80 + b) × (b < 64) × ((0 < a) ⊎ (32 ≤ b))
unfolding utf8_step
step-second-inv a x q e h = (x % 64, ground arith, ground arith, omega arith, ground arith)

step-last-inv :
    (a x : ℕ) (q : Sequence)
    → utf8_step (within 1 a) x ≡ some q
    → x < 256
    → 0 < a * 64 + x % 64
    → (b : ℕ) × (q ≡ after (a * 64 + b)) × (x ≡ 0x80 + b) × (b < 64) × IsScalar (a * 64 + b)
unfolding utf8_step
step-last-inv a x q e h pos = (x % 64, ground arith, ground arith, omega arith, ground arith)

encode-two :
    (a b : ℕ) → 2 ≤ a → a < 32 → b < 64 → encode (a * 64 + b) ≡ (0xC0 + a) ∷ (0x80 + b) ∷ []
encode-two a b h2 ha hb = ground arith

encode-three :
    (a b f : ℕ)
    → a < 16
    → b < 64
    → f < 64
    → (0 < a) ⊎ (32 ≤ b)
    → encode ((a * 64 + b) * 64 + f) ≡ (0xE0 + a) ∷ (0x80 + b) ∷ (0x80 + f) ∷ []
encode-three a b f ha hb hf long = ground arith

encode-four :
    (a b f g : ℕ)
    → a < 8
    → b < 64
    → f < 64
    → g < 64
    → (0 < a) ⊎ (16 ≤ b)
    → encode (((a * 64 + b) * 64 + f) * 64 + g)
      ≡ (0xF0 + a) ∷ (0x80 + b) ∷ (0x80 + f) ∷ (0x80 + g) ∷ []
encode-four a b f g ha hb hf hg long = ground arith

extend :
    (q : Sequence) (p : List ℕ) (x : ℕ) (q' : Sequence)
    → Partial q p
    → x < 256
    → utf8_step q x ≡ some q'
    → Extended q' (p ++ (x ∷ []))
extend q p x q' (between d eq ep) h e = elim (step-Starts d x q' h (rw eq at e)) [
  | inl (e', h0, h1) ↦ inr (
    x,
    record { positive = h0; below = omega arith; no_surrogate = inl (omega arith) },
    rw ep (ground arith),
    e',
  )
  | inr (inl (a, e', ex, h2, ha)) ↦ inl (two a e' (rw ep (ap (λ t. t ∷ []) ex)) h2 ha)
  | inr (inr (inl (a, e', ex, ha))) ↦ inl (three a e' (rw ep (ap (λ t. t ∷ []) ex)) ha)
  | inr (inr (inr (a, e', ex, ha))) ↦ inl (four a e' (rw ep (ap (λ t. t ∷ []) ex)) ha)
]
extend q p x q' (two a eq ep h2 ha) h e =
    let (b, e', ex, hb, s) = step-last-inv a x q' (rw eq at e) h (omega arith) in
    inr
      (a * 64 + b, s, rw ep (ap (λ t. (0xC0 + a) ∷ t ∷ []) ex ∙ sym (encode-two a b h2 ha hb)), e')
extend q p x q' (three a eq ep ha) h e =
    let (b, e', ex, hb, long) = step-second-inv a x q' (rw eq at e) h in
    inl (three_two a b e' (rw ep (ap (λ t. (0xE0 + a) ∷ t ∷ []) ex)) ha hb long)
extend q p x q' (four a eq ep ha) h e =
    let (b, e', ex, hb, long) = step-third-inv a x q' (rw eq at e) h in
    inl (four_two a b e' (rw ep (ap (λ t. (0xF0 + a) ∷ t ∷ []) ex)) ha hb long)
extend q p x q' (three_two a b eq ep ha hb long) h e =
    let (f, e', ex, hf, s) = step-last-inv (a * 64 + b) x q' (rw eq at e) h (ground arith) in
    inr (
      (a * 64 + b) * 64 + f,
      s,
      rw ep
          (ap (λ t. (0xE0 + a) ∷ (0x80 + b) ∷ t ∷ []) ex ∙ sym (encode-three a b f ha hb hf long)),
      e',
    )
extend q p x q' (four_two a b eq ep ha hb long) h e =
    let (f, e', ex, hf, l) = step-second-inv (a * 64 + b) x q' (rw eq at e) h in
    inl (four_three a b f e' (rw ep (ap (λ t. (0xF0 + a) ∷ (0x80 + b) ∷ t ∷ []) ex)) ha hb hf long)
extend q p x q' (four_three a b f eq ep ha hb hf long) h e =
    let (g, e', ex, hg, s) =
      step-last-inv ((a * 64 + b) * 64 + f) x q' (rw eq at e) h (ground arith) in
    inr (
      ((a * 64 + b) * 64 + f) * 64 + g,
      s,
      rw ep (
          ap (λ t. (0xF0 + a) ∷ (0x80 + b) ∷ (0x80 + f) ∷ t ∷ []) ex
          ∙ sym (encode-four a b f g ha hb hf hg long)),
      e',
    )

-- A part of a sequence, at the end of which nothing is expected, is empty.
Partial-complete : (q : Sequence) (p : List ℕ) → Partial q p → q.count ≡ 0 → p ≡ []
Partial-complete q p (between d eq ep) z = ep
Partial-complete q p (two a eq ep _ _) z = absurd (omega (arith, ap (λ t. t.count) eq))
Partial-complete q p (three a eq ep _) z = absurd (omega (arith, ap (λ t. t.count) eq))
Partial-complete q p (four a eq ep _) z = absurd (omega (arith, ap (λ t. t.count) eq))
Partial-complete q p (three_two a b eq ep _ _ _) z = absurd (omega (arith, ap (λ t. t.count) eq))
Partial-complete q p (four_two a b eq ep _ _ _) z = absurd (omega (arith, ap (λ t. t.count) eq))
Partial-complete q p (four_three a b f eq ep _ _ _ _) z =
    absurd (omega (arith, ap (λ t. t.count) eq))

abbrev Decoded : List ℕ → Type 0
Decoded xs = (cs : List ℕ) × All IsScalar cs × (xs ≡ encode_all cs)

decode_from :
    (q : Sequence) (p xs : List ℕ) (q' : Sequence)
    → Partial q p
    → All (λ x. x < 256) xs
    → utf8_run q xs ≡ some q'
    → q'.count ≡ 0
    → Decoded (p ++ xs)
decode_from q p [] q' part h e z =
    ([], tt, rw (append-nil) (Partial-complete q p part (ground arith)))
decode_from q p (x ∷ xs) q' part h e z = elim (Option-cases (utf8_step q x)) [
  | inl bad ↦ let e' : none ≡ some q' = rw (bad, utf8_run) at e in cc
  | inr (t, et) ↦
      let e' : utf8_run t xs ≡ some q' = rw (et, utf8_run) at e in
      elim (extend q p x t part h.0 et) [
        | inl longer ↦ regroup (decode_from t (p ++ (x ∷ [])) xs q' longer h.1 e' z)
        | inr (c, sc, ec, eq) ↦
            let (cs, all, eqs) = decode_from t [] xs q' (between c eq refl) h.1 e' z in
            regroup (c ∷ cs, (sc, all), rw (ec, eqs))
      ]
]
  where
    regroup : Decoded ((p ++ (x ∷ [])) ++ xs) → Decoded (p ++ (x ∷ xs))
    regroup = subst Decoded (append_assoc p (x ∷ []) xs)

-- Bytes that the check accepts from its start or behind a whole character, and that do not end
-- within a sequence, are the encoding of a list of scalar values other than NUL.
pub utf8_run-Decoded :
    (xs : List ℕ) (d : ℕ) (q : Sequence)
    → All (λ x. x < 256) xs
    → utf8_run (after d) xs ≡ some q
    → q.count ≡ 0
    → (cs : List ℕ) × All IsScalar cs × (xs ≡ encode_all cs)
utf8_run-Decoded xs d q h e z = decode_from (after d) [] xs q (between d refl refl) h e z
