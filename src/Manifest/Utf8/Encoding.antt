-- ===== src/Manifest/Utf8/Encoding.antt =====
-- What the byte-wise check accepts is exactly the UTF-8 encodings of lists of code points.
use camerahal.Common.{
  Bool-cases, ltb→lt, ltb→le, ◌∙◌, ℕ, ◌+◌, ◌*◌, ◌/◌, ◌%◌, ◌≤◌, ◌<◌, ◌≡◌, ◌⊎◌, inl, inr, refl,
  Option, none, some, List, [], ◌∷◌, ◌++◌, ltb, if◌then◌else◌, All, arith,
}
use camerahal.Manifest.Utf8.{Sequence, utf8_step}

-- The encoding of one code point, by the table of the Unicode standard.
abbrev pub encode : ℕ → List ℕ
encode c =
    if ltb c 0x80
    then c ∷ []
    else if ltb c 0x800
    then (0xC0 + c / 64) ∷ (0x80 + c % 64) ∷ []
    else if ltb c 0x10000
    then (0xE0 + c / 4096) ∷ (0x80 + c / 64 % 64) ∷ (0x80 + c % 64) ∷ []
    else (0xF0 + c / 262144) ∷ (0x80 + c / 4096 % 64) ∷ (0x80 + c / 64 % 64) ∷ (0x80 + c % 64) ∷ []

abbrev pub encode_all : List ℕ → List ℕ
encode_all [] = []
encode_all (c ∷ cs) = encode c ++ encode_all cs

-- A Unicode scalar value other than NUL.
pub record IsScalar (c : ℕ) : Type 0 where
  pub positive : 0 < c
  pub below : c < 0x110000
  pub no_surrogate : (c < 0xD800) ⊎ (0xE000 ≤ c)

abbrev pub utf8_run : Sequence → List ℕ → Option Sequence
utf8_run q [] = some q
utf8_run q (x ∷ xs) = elim (utf8_step q x) [ none ↦ none | some q' ↦ utf8_run q' xs ]

abbrev pub after : ℕ → Sequence
after c = record { count = 0; char = c }

abbrev pub within : ℕ → ℕ → Sequence
within n a = record { count = n; char = a }

step-ascii : (c d : ℕ) → 0 < c → c < 128 → utf8_step (after d) c ≡ some (after c)
unfolding utf8_step
step-ascii c d h k = ground arith

step-lead2 : (a d : ℕ) → 2 ≤ a → a < 32 → utf8_step (after d) (0xC0 + a) ≡ some (within 1 a)
unfolding utf8_step
step-lead2 a d h k = ground arith

step-lead3 : (a d : ℕ) → a < 16 → utf8_step (after d) (0xE0 + a) ≡ some (within 2 a)
unfolding utf8_step
step-lead3 a d h = ground arith

step-lead4 : (a d : ℕ) → a < 8 → utf8_step (after d) (0xF0 + a) ≡ some (within 3 a)
unfolding utf8_step
step-lead4 a d h = ground arith

-- The first continuation byte of a sequence of four.
step-third :
    (a b : ℕ)
    → b < 64
    → (0 < a) ⊎ (16 ≤ b)
    → utf8_step (within 3 a) (0x80 + b) ≡ some (within 2 (a * 64 + b))
unfolding utf8_step
step-third a b h k = ground arith

step-second :
    (a b : ℕ)
    → b < 64
    → (0 < a) ⊎ (32 ≤ b)
    → utf8_step (within 2 a) (0x80 + b) ≡ some (within 1 (a * 64 + b))
unfolding utf8_step
step-second a b h k = ground arith

step-last :
    (a b : ℕ)
    → b < 64
    → IsScalar (a * 64 + b)
    → utf8_step (within 1 a) (0x80 + b) ≡ some (after (a * 64 + b))
unfolding utf8_step
step-last a b h k = ground arith

-- One step of the run, where the step is known.
run_step :
    (q : Sequence) (x : ℕ) (xs : List ℕ) {t : Sequence}
    → utf8_step q x ≡ some t
    → utf8_run q (x ∷ xs) ≡ utf8_run t xs
run_step q x xs e = rw (e, utf8_run)

run_last :
    (c a b : ℕ) (rest : List ℕ)
    → IsScalar c
    → c ≡ a * 64 + b
    → b < 64
    → utf8_run (within 1 a) ((0x80 + b) ∷ rest) ≡ utf8_run (after c) rest
run_last c a b rest h e hb = rw e (run_step _ _ _ (step-last a b hb (rw e at h)))

module _ (d c : ℕ) (rest : List ℕ) (h : IsScalar c) where
  run-two :
      (a b : ℕ)
      → c ≡ a * 64 + b
      → b < 64
      → 2 ≤ a
      → a < 32
      → utf8_run (after d) ((0xC0 + a) ∷ (0x80 + b) ∷ rest) ≡ utf8_run (after c) rest
  run-two a b e hb h2 ha =
      run_step _ _ ((0x80 + b) ∷ rest) (step-lead2 a d h2 ha) ∙ run_last c a b rest h e hb

  run-three :
      (a b f : ℕ)
      → c ≡ (a * 64 + b) * 64 + f
      → b < 64
      → f < 64
      → a < 16
      → (0 < a) ⊎ (32 ≤ b)
      → utf8_run (after d) ((0xE0 + a) ∷ (0x80 + b) ∷ (0x80 + f) ∷ rest) ≡ utf8_run (after c) rest
  run-three a b f e hb hf ha long =
      run_step _ _ ((0x80 + b) ∷ (0x80 + f) ∷ rest) (step-lead3 a d ha)
      ∙ run_step _ _ ((0x80 + f) ∷ rest) (step-second a b hb long)
      ∙ run_last c (a * 64 + b) f rest h e hf

  run-four :
      (a b f g : ℕ)
      → c ≡ ((a * 64 + b) * 64 + f) * 64 + g
      → b < 64
      → f < 64
      → g < 64
      → a < 8
      → (0 < a) ⊎ (16 ≤ b)
      → utf8_run (after d) ((0xF0 + a) ∷ (0x80 + b) ∷ (0x80 + f) ∷ (0x80 + g) ∷ rest)
        ≡ utf8_run (after c) rest
  run-four a b f g e hb hf hg ha long =
      run_step _ _ ((0x80 + b) ∷ (0x80 + f) ∷ (0x80 + g) ∷ rest) (step-lead4 a d ha)
      ∙ run_step _ _ ((0x80 + f) ∷ (0x80 + g) ∷ rest) (step-third a b hb long)
      ∙ run_step _ _ ((0x80 + g) ∷ rest) (step-second (a * 64 + b) f hf (omega arith))
      ∙ run_last c ((a * 64 + b) * 64 + f) g rest h e hg

-- From between two code points, the check goes through the encoding of any code point.
utf8_run-encode :
    (c d : ℕ) (rest : List ℕ)
    → IsScalar c
    → utf8_run (after d) (encode c ++ rest) ≡ utf8_run (after c) rest
utf8_run-encode c d rest h = elim (Bool-cases (ltb c 0x80)) [
  | inl e ↦ rw e (run_step _ _ rest (step-ascii c d h.positive (ltb→lt c 0x80 e)))
  | inr e ↦
      let big = ltb→le c 0x80 e in
      elim (Bool-cases (ltb c 0x800)) [
        | inl e' ↦
            let small = ltb→lt c 0x800 e' in
            rw (e, e')
              (run-two d c rest h (c / 64) (c % 64) (omega arith) (omega arith) (omega arith)
                (omega arith))
        | inr e' ↦
            let big' = ltb→le c 0x800 e' in
            elim (Bool-cases (ltb c 0x10000)) [
              | inl e'' ↦
                  let small' = ltb→lt c 0x10000 e'' in
                  rw (e, e', e'')
                    (run-three d c rest h (c / 4096) (c / 64 % 64) (c % 64) (omega arith)
                      (omega arith) (omega arith) (omega arith) (ground arith))
              | inr e'' ↦
                  let big'' = ltb→le c 0x10000 e'' in
                  rw (e, e', e'')
                    (run-four d c rest h (c / 262144) (c / 4096 % 64) (c / 64 % 64) (c % 64)
                      (omega arith) (omega arith) (omega arith) (omega arith)
                      (omega (arith, h.below)) (ground arith))
            ]
      ]
]

-- The check accepts the encoding of any list of scalar values other than NUL, and ends behind a
-- whole character.
pub utf8_run-encode_all :
    (cs : List ℕ) (d : ℕ)
    → All IsScalar cs
    → (e : ℕ) × (utf8_run (after d) (encode_all cs) ≡ some (after e))
utf8_run-encode_all [] d h = (d, refl)
utf8_run-encode_all (c ∷ cs) d h =
    let (e, p) = utf8_run-encode_all cs c h.1 in (e, utf8_run-encode c d (encode_all cs) h.0 ∙ p)
