-- ===== src/Manifest/Reader/Values.antt =====
-- What the scan of a value accepts, and what is kept of it.
use mathlib.Core.Path.{subst}
use camerahal.Common.{
  ℕ, zero, suc, ◌+◌, ◌≤◌, ◌<◌, ◌≡◌, inl, inr, refl, ap, ◌∙◌, Bool, true, false, ◌&&◌, none, some,
  List, [], ◌∷◌, ◌++◌, append_assoc, append-nil, ◌==◌, length, length-append, take, drop, arith,
  ltb, ltb→lt, ltb→le, Bool-cases, Option-cases, if◌then◌else◌, All, All-append, All-take,
  take-append-drop, drop-append_le, drop_all, take_all, take-append_le,
}
use camerahal.Manifest.Scanner.{Action, go, stop, fail, Passes, Passes-All}
use camerahal.Manifest.Utf8.{Sequence, initial, utf8_step}
use camerahal.Manifest.Utf8.Encoding.{utf8_run, IsScalar, encode_all}
use camerahal.Manifest.Utf8.Decoding.{utf8_run-Decoded}
use camerahal.Manifest.Context.{is_blank, is_eol}
use camerahal.Manifest.Loops.{ValueState, value_step, skip_blanks}

-- A step that goes on is a step of the check of the encoding, and counts the byte.
record Goes (s : ValueState) (c : ℕ) (t : ValueState) : Type 0 where
  pub checked : utf8_step s.sequence c ≡ some t.sequence
  pub inside : is_eol c ≡ false
  pub counted : t.seen ≡ s.seen + 1
  pub trimmed : t.last ≡ (if is_blank c then s.last else s.seen + 1)

eol-count :
    (q : Sequence) (c : ℕ) (t : Sequence) → utf8_step q c ≡ some t → is_eol c ≡ true → t.count ≡ 0
unfolding utf8_step
eol-count q c t h e = ground arith

-- The step with its call of the check read off.
Goes-on :
    (s : ValueState) (c : ℕ) (q : Sequence) (t : ValueState)
    → (if q.count == 0 && is_eol c
        then stop
        else go (record {
          sequence = q;
          seen = s.seen + 1;
          last = if is_blank c then s.last else s.seen + 1;
        }))
      ≡ go t
    → utf8_step s.sequence c ≡ some q
    → Goes s c t
Goes-on s c q t h e = record {
  checked = ground arith;
  inside = ground (arith, eol-count s.sequence c q);
  counted = ground arith;
  trimmed = ground arith;
}

value_step-Goes : (s : ValueState) (c : ℕ) (t : ValueState) → value_step s c ≡ go t → Goes s c t
unfolding value_step
value_step-Goes s c t h = elim (Option-cases (utf8_step s.sequence c)) [
  | inl e ↦ let h' : fail ≡ go t = rw (e, value_step) at h in cc
  | inr (q, e) ↦ Goes-on s c q t (rw (e, value_step) at h) e
]

Passes-utf8_run :
    (s : ValueState) (cs : List ℕ) (s' : ValueState)
    → Passes value_step s cs s'
    → utf8_run s.sequence cs ≡ some s'.sequence
Passes-utf8_run s [] s' e = ap (λ t. some t.sequence) e
Passes-utf8_run s (c ∷ cs) s' (t, e, r) =
    rw ((value_step-Goes s c t e).checked, utf8_run) (Passes-utf8_run t cs s' r)

abbrev pub ends_blank : List ℕ → Bool
ends_blank [] = false
ends_blank (c ∷ []) = is_blank c
ends_blank (c ∷ d ∷ l) = ends_blank (d ∷ l)

ends_blank-snoc : (l : List ℕ) (c : ℕ) → ends_blank (l ++ c ∷ []) ≡ is_blank c
ends_blank-snoc [] c = refl
ends_blank-snoc (d ∷ []) c = refl
ends_blank-snoc (d ∷ e ∷ l) c = ends_blank-snoc (e ∷ l) c

abbrev IsBlanks : List ℕ → Type 0
IsBlanks = All (λ c. is_blank c ≡ true)

-- What is kept of the bytes gone past ends in no blank, and only blanks are left off.
record Trims (p : List ℕ) (s : ValueState) : Type 0 where
  pub all_seen : length p ≡ s.seen
  pub within : s.last ≤ s.seen
  pub left_off : IsBlanks (drop s.last p)
  pub kept : ends_blank (take s.last p) ≡ false

module _ (p : List ℕ) (s : ValueState) (c : ℕ) (t : ValueState) (h : Trims p s)
    (g : Goes s c t) where
  length-snoc : length (p ++ c ∷ []) ≡ t.seen
  length-snoc = omega (arith, length-append p (c ∷ []), h.all_seen, g.counted)

  Trims-blank : is_blank c ≡ true → Trims (p ++ c ∷ []) t
  Trims-blank b =
      let e : t.last ≡ s.last = rw b at (g.trimmed) in
      let fits : t.last ≤ length p = omega (arith, h.within, h.all_seen) in
      record {
        all_seen = length-snoc;
        within = omega (arith, h.within, g.counted);
        left_off = rw (drop-append_le t.last p (c ∷ []) fits) (
            All-append (λ x. is_blank x ≡ true) (drop t.last p) (c ∷ []) (rw e h.left_off) (b, tt));
        kept = rw (take-append_le t.last p (c ∷ []) fits) (rw e h.kept);
      }

  Trims-other : is_blank c ≡ false → Trims (p ++ c ∷ []) t
  Trims-other b =
      let e : t.last ≡ s.seen + 1 = rw b at (g.trimmed) in
      let full : t.last ≡ length (p ++ c ∷ []) = omega (arith, length-snoc, g.counted) in
      record {
        all_seen = length-snoc;
        within = omega (arith, g.counted);
        left_off = rw (drop_all t.last (p ++ c ∷ []) full) tt;
        kept = rw (take_all t.last (p ++ c ∷ []) full) (ends_blank-snoc p c ∙ b);
      }

Passes-Trims :
    (p : List ℕ) (s : ValueState) (cs : List ℕ) (s' : ValueState)
    → Trims p s
    → Passes value_step s cs s'
    → Trims (p ++ cs) s'
Passes-Trims p s [] s' h e = rw (append-nil p) (subst (Trims p) e h)
Passes-Trims p s (c ∷ cs) s' h (t, e, r) =
    subst (λ l. Trims l s') (append_assoc p (c ∷ []) cs) (Passes-Trims (p ++ c ∷ []) t cs s' next r)
  where
    g : Goes s c t
    g = value_step-Goes s c t e

    next : Trims (p ++ c ∷ []) t
    next = elim (Bool-cases (is_blank c)) [
      | inl b ↦ Trims-blank p s c t h g b
      | inr b ↦ Trims-other p s c t h g b
    ]

utf8_run-append :
    (q : Sequence) (xs ys : List ℕ) (r : Sequence)
    → utf8_run q (xs ++ ys) ≡ some r
    → (t : Sequence) × (utf8_run q xs ≡ some t) × (utf8_run t ys ≡ some r)
utf8_run-append q [] ys r h = (q, refl, h)
utf8_run-append q (x ∷ xs) ys r h = elim (Option-cases (utf8_step q x)) [
  | inl e ↦ let h' : none ≡ some r = rw (e, utf8_run) at h in absurd (cc)
  | inr (u, e) ↦
      let (t, a, b) = utf8_run-append u xs ys r (rw (e, utf8_run) at h) in
      (t, rw (e, utf8_run) a, b)
]

blank-count :
    (q : Sequence) (c : ℕ) (t : Sequence) → utf8_step q c ≡ some t → is_blank c ≡ true → q.count ≡ 0
unfolding utf8_step
blank-count q c t h e = ground arith

-- Blanks behind a value stand between two code points.
blanks-count :
    (q : Sequence) (b : List ℕ) (r : Sequence)
    → IsBlanks b
    → utf8_run q b ≡ some r
    → r.count ≡ 0
    → q.count ≡ 0
blanks-count q [] r h e z = ground arith
blanks-count q (c ∷ b) r h e z = elim (Option-cases (utf8_step q c)) [
  | inl e' ↦ let h' : none ≡ some r = rw (e', utf8_run) at e in absurd (cc)
  | inr (u, e') ↦ blank-count q c u e' h.0
]

abbrev pub begins_blank : List ℕ → Bool
begins_blank [] = false
begins_blank (c ∷ l) = is_blank c

begins_blank-take : (n : ℕ) (l : List ℕ) → begins_blank l ≡ false → begins_blank (take n l) ≡ false
begins_blank-take zero l h = refl
begins_blank-take (suc n) [] h = refl
begins_blank-take (suc n) (c ∷ l) h = h

pub begins_blank-skip : (l : List ℕ) → begins_blank (skip_blanks l) ≡ false
unfolding skip_blanks
begins_blank-skip [] = refl
begins_blank-skip (c ∷ l) = ground (arith, begins_blank-skip l)

-- The value of a property: text in UTF-8 without NUL, on one line, with no blank at either end.
pub record IsValue (v : List ℕ) : Type 0 where
  pub code_points : List ℕ
  pub scalars : All IsScalar code_points
  pub encoded : v ≡ encode_all code_points
  pub one_line : All (λ c. is_eol c ≡ false) v
  pub begins : begins_blank v ≡ false
  pub ends : ends_blank v ≡ false

abbrev first : ValueState
first = record { sequence = initial; seen = 0; last = 0 }

-- What is kept when the scan of a value ends with no sequence open.
pub scan-IsValue :
    (cs rest : List ℕ) (s : ValueState)
    → All (λ c. c < 256) cs
    → begins_blank (cs ++ rest) ≡ false
    → Passes value_step first cs s
    → s.sequence.count ≡ 0
    → IsValue (take s.last (cs ++ rest))
scan-IsValue cs rest s bytes b p z =
    let tr : Trims cs s =
      Passes-Trims [] first cs s
        (record { all_seen = refl; within = omega arith; left_off = tt; kept = refl }) p in
    let fits : s.last ≤ length cs = omega (arith, tr.within, tr.all_seen) in
    let v = take s.last cs in
    let run : utf8_run initial (v ++ drop s.last cs) ≡ some s.sequence =
      rw (take-append-drop s.last cs) (Passes-utf8_run first cs s p) in
    let (t, runs, after_it) = utf8_run-append initial v (drop s.last cs) s.sequence run in
    let (points, scalars, encoded) =
      utf8_run-Decoded v 0 t (All-take (λ c. c < 256) s.last cs bytes) runs
        (blanks-count t (drop s.last cs) s.sequence tr.left_off after_it z) in
    let lines : All (λ c. is_eol c ≡ false) cs =
      Passes-All value_step (λ c. is_eol c ≡ false) (λ s c t e. (value_step-Goes s c t e).inside)
        first cs s p in
    rw (take-append_le s.last cs rest fits) (record {
      code_points = points;
      scalars = scalars;
      encoded = encoded;
      one_line = All-take (λ c. is_eol c ≡ false) s.last cs lines;
      begins = rw (take-append_le s.last cs rest fits) at (begins_blank-take s.last (cs ++ rest) b);
      ends = tr.kept;
    })

eol-between :
    (q : Sequence) (c : ℕ) (t : Sequence) → utf8_step q c ≡ some t → is_eol c ≡ true → q.count ≡ 0
unfolding utf8_step
eol-between q c t h e = ground arith

stops :
    (s : ValueState) (c : ℕ) (q : Sequence) (t : ValueState)
    → (if q.count == 0 && is_eol c then stop else go t) ≡ stop
    → is_eol c ≡ true
stops s c q t h = ground arith

-- The scan of a value stops at the end of the line, between two code points.
pub value_step-stop : (s : ValueState) (c : ℕ) → value_step s c ≡ stop → s.sequence.count ≡ 0
unfolding value_step
value_step-stop s c h = elim (Option-cases (utf8_step s.sequence c)) [
  | inl e ↦ let h' : ◌≡◌ {A = Action ValueState} fail stop = rw (e, value_step) at h in absurd (cc)
  | inr (q, e) ↦ eol-between s.sequence c q e (stops s c q _ (rw (e, value_step) at h))
]

blanks-ends : (l : List ℕ) (n : ℕ) → IsBlanks (drop n l) → n < length l → ends_blank l ≡ true
blanks-ends [] n h k = absurd (omega arith)
blanks-ends (c ∷ []) zero h k = h.0
blanks-ends (c ∷ []) (suc n) h k = absurd (omega arith)
blanks-ends (c ∷ d ∷ l) zero h k = blanks-ends (d ∷ l) zero h.1 (omega arith)
blanks-ends (c ∷ d ∷ l) (suc n) h k = blanks-ends (d ∷ l) n h (omega arith)

-- Bytes that end in no blank are all kept.
pub Passes-last :
    (v : List ℕ) (s : ValueState)
    → Passes value_step first v s
    → ends_blank v ≡ false
    → s.last ≡ length v
Passes-last v s p e =
    let tr : Trims v s =
      Passes-Trims [] first v s
        (record { all_seen = refl; within = omega arith; left_off = tt; kept = refl }) p in
    elim (Bool-cases (ltb s.last (length v))) [
      | inl l ↦ let b = blanks-ends v s.last tr.left_off (ltb→lt s.last (length v) l) in absurd (cc)
      | inr l ↦ let l' = ltb→le s.last (length v) l in omega (arith, tr.within, tr.all_seen)
    ]
