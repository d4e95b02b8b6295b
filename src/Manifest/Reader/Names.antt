-- ===== src/Manifest/Reader/Names.antt =====
-- What the scan of a property's name accepts, and what is kept of it.
use mathlib.Core.Path.{subst}
use camerahal.Common.{
  ℕ, suc, ◌+◌, ◌≤◌, ◌≡◌, ◌⊎◌, inl, inr, refl, ◌∙◌, true, false, ◌&&◌, not, List, [], ◌∷◌, ◌++◌,
  append_assoc, append-nil, length, length-append, take, arith, Bool-cases, All, All-append,
  take_all, take-append_le,
}
use camerahal.Manifest.Scanner.{go, Passes}
use camerahal.Manifest.Chars.{name_first, name_subsequent, check_character}
use camerahal.Manifest.Context.{ManifestType, is_compiled, is_blank}
use camerahal.Manifest.Loops.{NameState, name_step}

abbrev AreNameChars : List ℕ → Type 0
AreNameChars = All (λ x. check_character x name_subsequent ≡ true)

-- A letter or a digit, and then letters, digits, `_`, `.` and `-`.
abbrev pub IsName : List ℕ → Type 0
IsName [] = ⊥
IsName (c ∷ cs) = (check_character c name_first ≡ true) × AreNameChars cs

-- The bytes `p` behind the first character are gone past, and `k` of them are kept.
record Named (type : ManifestType) (p : List ℕ) (s : NameState) : Type 0 where
  pub k : ℕ
  pub last_is : s.last ≡ suc k
  pub seen_is : s.seen ≡ suc (length p)
  pub fits : k ≤ length p
  pub chars : AreNameChars (take k p)
  pub whole : is_compiled type ≡ true → k ≡ length p

-- A step that goes on: a blank of a source manifest, or a character that lengthens the name.
abbrev Lengthens : ManifestType → NameState → ℕ → NameState → Type 0
Lengthens type s c t =
    ((is_compiled type ≡ false) × (t.seen ≡ s.seen + 1) × (t.last ≡ s.last))
    ⊎ ((check_character c name_subsequent ≡ true)
        × ((is_compiled type ≡ true) ⊎ (s.seen ≡ s.last))
        × (t.seen ≡ s.seen + 1)
        × (t.last ≡ s.seen + 1))

name_step-Lengthens :
    (type : ManifestType) (s : NameState) (c : ℕ) (t : NameState)
    → name_step type s c ≡ go t
    → Lengthens type s c t
unfolding name_step
name_step-Lengthens type s c t h = elim (Bool-cases (not (is_compiled type) && is_blank c)) [
  | inl b ↦ inl (ground arith, ground arith, ground arith)
  | inr b ↦ inr (ground arith, ground arith, ground arith, ground arith)
]

step-Named :
    (type : ManifestType) (p : List ℕ) (s : NameState) (c : ℕ) (t : NameState)
    → Named type p s
    → Lengthens type s c t
    → Named type (p ++ c ∷ []) t
step-Named type p s c t h (inl (source, e, e')) = record {
  k = h.k;
  last_is = e' ∙ h.last_is;
  seen_is = omega (arith, h.seen_is, length-append p (c ∷ []));
  fits = omega (arith, h.fits, length-append p (c ∷ []));
  chars = rw (take-append_le h.k p (c ∷ []) h.fits) h.chars;
  whole = λ b. cc;
}
step-Named type p s c t h (inr (char, joined, e, e')) =
    let full : h.k ≡ length p = elim joined [
      | inl b ↦ h.whole b
      | inr b ↦ omega (arith, h.last_is, h.seen_is)
    ] in
    let all : AreNameChars p = rw (take_all h.k p full) at h.chars in
    record {
      k = suc h.k;
      last_is = omega (arith, h.last_is, h.seen_is);
      seen_is = omega (arith, h.seen_is, length-append p (c ∷ []));
      fits = omega (arith, length-append p (c ∷ []));
      chars =
          rw (take_all (suc h.k) (p ++ c ∷ []) (omega (arith, length-append p (c ∷ []))))
            (All-append (λ x. check_character x name_subsequent ≡ true) p (c ∷ []) all (char, tt));
      whole = λ b. omega (arith, length-append p (c ∷ []));
    }

Passes-Named :
    (type : ManifestType) (p : List ℕ) (s : NameState) (cs : List ℕ) (s' : NameState)
    → Named type p s
    → Passes (name_step type) s cs s'
    → Named type (p ++ cs) s'
Passes-Named type p s [] s' h e = rw (append-nil p) (subst (Named type p) e h)
Passes-Named type p s (c ∷ cs) s' h (t, e, r) =
    subst (λ l. Named type l s') (append_assoc p (c ∷ []) cs)
      (Passes-Named type (p ++ c ∷ []) t cs s'
        (step-Named type p s c t h (name_step-Lengthens type s c t e)) r)

-- What is kept when the scan of a name ends.
pub scan-IsName :
    (type : ManifestType) (c : ℕ) (cs rest : List ℕ) (s : NameState)
    → check_character c name_first ≡ true
    → Passes (name_step type) (record { seen = 1; last = 1 }) cs s
    → IsName (take s.last (c ∷ (cs ++ rest)))
scan-IsName type c cs rest s h p =
    let n : Named type cs s =
      Passes-Named type [] (record { seen = 1; last = 1 }) cs s
        (record {
          k = 0;
          last_is = refl;
          seen_is = refl;
          fits = omega arith;
          chars = tt;
          whole = λ _. refl;
        })
        p in
    rw (n.last_is) (h, rw (take-append_le n.k cs rest n.fits) n.chars)
