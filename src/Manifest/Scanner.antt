-- ===== src/Manifest/Scanner.antt =====
-- The loops of security/tf_daemon/lib_manifest2.c that advance `pCurrent` towards `pEnd`. The bytes
-- from `pCurrent` on are a list, the variables of the loop are a state.
use mathlib.Core.Path.{subst}
use camerahal.Common.{
  ℕ, ◌≤◌, ◌≡◌, ◌⊎◌, inl, inr, refl, sym, ap, List, [], ◌∷◌, ◌++◌, arith, length, length-append, All,
}

-- What the body of such a loop does with the byte at `pCurrent`: go past it, leave the loop with
-- `break`, or leave the function with `goto error`.
pub data Action {ℓ} (S : Type ℓ) : Type ℓ where
  go : S → Action S
  stop : Action S
  fail : Action S

-- Where the loop is left: at the bytes that remain (none at `pEnd`), or by an error, with the
-- variables as they stand.
pub data Scan {ℓ} (S : Type ℓ) : Type ℓ where
  reached : S → List ℕ → Scan S
  failed : S → Scan S

module _ {ℓ} {S : Type ℓ} (step : S → ℕ → Action S) where
  unfoldable pub scan : S → List ℕ → Scan S
  scan s [] = reached s []
  scan s (c ∷ rest) = elim (step s c) [
    | go s' ↦ scan s' rest
    | stop ↦ reached s (c ∷ rest)
    | fail ↦ failed s
  ]

  -- The bytes `cs` are gone past one by one, from the state `s` to the state `s'`.
  abbrev pub Passes : S → List ℕ → S → Type ℓ
  Passes s [] s' = s ≡ s'
  Passes s (c ∷ cs) s' = (t : S) × (step s c ≡ go t) × Passes t cs s'

  pub scan-append :
      (s : S) (cs rest : List ℕ) (s' : S) → Passes s cs s' → scan s (cs ++ rest) ≡ scan s' rest
  unfolding scan
  scan-append s [] rest s' p = ap (λ t. scan t rest) p
  scan-append s (c ∷ cs) rest s' p = rw (p.1) (scan-append p.0 cs rest s' p.2)

  pub scan-stop :
      (s : S) (c : ℕ) (rest : List ℕ) → step s c ≡ stop → scan s (c ∷ rest) ≡ reached s (c ∷ rest)
  unfolding scan
  scan-stop s c rest e = rw (e, scan)

  -- The loop is left at `pEnd`, or at a byte where its body breaks.
  abbrev pub Leaves : S → List ℕ → Type ℓ
  Leaves s [] = Unit
  Leaves s (c ∷ rest) = step s c ≡ stop

  -- What a scan that ends without an error went past.
  pub record Scanned (s : S) (input : List ℕ) (s' : S) (rest : List ℕ) : Type ℓ where
    pub consumed : List ℕ
    pub split : input ≡ consumed ++ rest
    pub passes : Passes s consumed s'
    pub leaves : Leaves s' rest

  abbrev Outcome : S → List ℕ → Scan S → Type ℓ
  Outcome s input (reached s' rest) = Scanned s input s' rest
  Outcome s input (failed s') = Unit

  scan-Outcome : (s : S) (input : List ℕ) → Outcome s input (scan s input)
  unfolding scan
  scan-Outcome s [] = record { consumed = []; split = refl; passes = refl; leaves = tt }
  scan-Outcome s (c ∷ input) = split_on (step s c) refl (λ t. scan-Outcome t input)
    where
      extend : (t : S) (o : Scan S) → step s c ≡ go t → Outcome t input o → Outcome s (c ∷ input) o
      extend t (reached s' rest) e o = record {
        consumed = c ∷ o.consumed;
        split = ap (λ l. c ∷ l) o.split;
        passes = (t, e, o.passes);
        leaves = o.leaves;
      }
      extend t (failed s') e o = tt

      split_on :
          (a : Action S)
          → step s c ≡ a
          → ((t : S) → Outcome t input (scan t input))
          → Outcome s (c ∷ input) (scan s (c ∷ input))
      split_on (go t) e ih = rw (e, scan) (extend t (scan t input) e (ih t))
      split_on stop e ih =
          rw (e, scan) (record { consumed = []; split = refl; passes = refl; leaves = e })
      split_on fail e ih = rw (e, scan) tt

  pub scan-Scanned :
      (s : S) (input : List ℕ) (s' : S) (rest : List ℕ)
      → scan s input ≡ reached s' rest
      → Scanned s input s' rest
  scan-Scanned s input s' rest h = subst (Outcome s input) h (scan-Outcome s input)

  -- An invariant of the loop's body holds where the loop is left.
  pub Passes-invariant {κ} :
      (P : S → Type κ)
      → ((s : S) (c : ℕ) (t : S) → P s → step s c ≡ go t → P t)
      → (s : S) (cs : List ℕ) (s' : S) → P s
      → Passes s cs s'
      → P s'
  Passes-invariant P keep s [] s' p e = subst P e p
  Passes-invariant P keep s (c ∷ cs) s' p (t, e, r) =
      Passes-invariant P keep t cs s' (keep s c t p e) r

  -- A test that every byte gone past meets.
  pub Passes-All {κ} :
      (P : ℕ → Type κ)
      → ((s : S) (c : ℕ) (t : S) → step s c ≡ go t → P c)
      → (s : S) (cs : List ℕ) (s' : S) → Passes s cs s'
      → All P cs
  Passes-All P test s [] s' e = tt
  Passes-All P test s (c ∷ cs) s' (t, e, r) = (test s c t e, Passes-All P test t cs s' r)

  pub Passes-append :
      (s : S) (cs : List ℕ) (t : S) (ds : List ℕ) (u : S)
      → Passes s cs t
      → Passes t ds u
      → Passes s (cs ++ ds) u
  Passes-append s [] t ds u e q = subst (λ x. Passes x ds u) (sym e) q
  Passes-append s (c ∷ cs) t ds u (v, e, r) q = (v, e, Passes-append v cs t ds u r q)

  pub length-Scanned :
      {s s' : S} {input rest : List ℕ} → Scanned s input s' rest → length rest ≤ length input
  length-Scanned w = omega (arith, ap length w.split, length-append w.consumed _)

  pub length-scan-le :
      (s : S) (input : List ℕ) (s' : S) (rest : List ℕ)
      → scan s input ≡ reached s' rest
      → length rest ≤ length input
  length-scan-le s input s' rest h = length-Scanned (scan-Scanned s input s' rest h)

pub Scan-cases {ℓ} :
    {S : Type ℓ} (r : Scan S)
    → ((s : S) × (r ≡ failed s)) ⊎ ((s : S) × (rest : List ℕ) × (r ≡ reached s rest))
Scan-cases (reached s rest) = inr (s, rest, refl)
Scan-cases (failed s) = inl (s, refl)
