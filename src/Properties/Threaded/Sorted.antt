-- ===== src/Properties/Threaded/Sorted.antt =====
-- Lists of nodes in the strict order of their names, with no node twice.
use Prim.Native.Nat.{Ordering}
use mathlib.Core.Path.{subst}
use camerahal.Common.{
  ℕ, ◌≡◌, ◌≢◌, ◌⊎◌, inl, inr, ◌∙◌, ap, sym, List, [], ◌∷◌, ◌++◌, All, All-prefix, All-suffix,
}
use camerahal.Properties.Strcmp.{strcmp, strcmp_refl, Before, Before-trans}
use camerahal.Properties.Threaded.Shape.{NotIn, Distinct}

All-insert {ℓ κ} :
    {A : Type ℓ} (P : A → Type κ) (xs : List A) (a : A) (ys : List A)
    → P a
    → All P (xs ++ ys)
    → All P (xs ++ a ∷ ys)
All-insert P [] a ys p h = (p, h)
All-insert P (x ∷ xs) a ys p h = (h.0, All-insert P xs a ys p h.1)

pub Distinct-insert :
    (xs : List ℕ) (n : ℕ) (ys : List ℕ)
    → NotIn n (xs ++ ys)
    → Distinct (xs ++ ys)
    → Distinct (xs ++ n ∷ ys)
Distinct-insert [] n ys f d = (f, d)
Distinct-insert (x ∷ xs) n ys f d =
    (All-insert (λ j. j ≢ x) xs n ys (λ e. f.0 (sym e)) d.0, Distinct-insert xs n ys f.1 d.1)

-- A node is one of a list.
abbrev pub Among : ℕ → List ℕ → Type 0
Among i [] = ⊥
Among i (j ∷ xs) = (i ≡ j) ⊎ Among i xs

pub Among-front : (i : ℕ) (xs ys : List ℕ) → Among i xs → Among i (xs ++ ys)
Among-front i [] ys m = elim m [ ]
Among-front i (x ∷ xs) ys (inl e) = inl e
Among-front i (x ∷ xs) ys (inr m) = inr (Among-front i xs ys m)

pub Among-behind : (i : ℕ) (xs ys : List ℕ) → Among i ys → Among i (xs ++ ys)
Among-behind i [] ys m = m
Among-behind i (x ∷ xs) ys m = inr (Among-behind i xs ys m)

pub All-Among {κ} : (P : ℕ → Type κ) (i : ℕ) (xs : List ℕ) → All P xs → Among i xs → P i
All-Among P i [] a m = elim m [ ]
All-Among P i (x ∷ xs) a (inl e) = subst P (sym e) a.0
All-Among P i (x ∷ xs) a (inr m) = All-Among P i xs a.1 m

module _ (name : ℕ → List ℕ) where
  abbrev pub Sorted : List ℕ → Type 0
  Sorted [] = Unit
  Sorted (i ∷ xs) = All (λ j. Before (name i) (name j)) xs × Sorted xs

  pub Sorted-prefix : (xs ys : List ℕ) → Sorted (xs ++ ys) → Sorted xs
  Sorted-prefix [] ys s = tt
  Sorted-prefix (x ∷ xs) ys s =
      (All-prefix (λ j. Before (name x) (name j)) xs ys s.0, Sorted-prefix xs ys s.1)

  pub Sorted-suffix : (xs ys : List ℕ) → Sorted (xs ++ ys) → Sorted ys
  Sorted-suffix [] ys s = s
  Sorted-suffix (x ∷ xs) ys s = Sorted-suffix xs ys s.1

  -- What stands in front of a node of a sorted list stands before it.
  pub Sorted-front :
      (xs : List ℕ) (i : ℕ) (ys : List ℕ)
      → Sorted (xs ++ i ∷ ys)
      → All (λ j. Before (name j) (name i)) xs
  Sorted-front [] i ys s = tt
  Sorted-front (x ∷ xs) i ys s =
      ((All-suffix (λ j. Before (name x) (name j)) xs (i ∷ ys) s.0).0, Sorted-front xs i ys s.1)

  pub Sorted-insert :
      (xs : List ℕ) (n : ℕ) (ys : List ℕ)
      → All (λ j. Before (name j) (name n)) xs
      → All (λ j. Before (name n) (name j)) ys
      → Sorted (xs ++ ys)
      → Sorted (xs ++ n ∷ ys)
  Sorted-insert [] n ys a b s = (b, s)
  Sorted-insert (x ∷ xs) n ys a b s =
      (All-insert (λ j. Before (name x) (name j)) xs n ys a.0 s.0, Sorted-insert xs n ys a.1 b s.1)

  -- Both sides of a node, moved on along the order.
  pub All-Before_trans :
      (xs : List ℕ) (i n : ℕ)
      → All (λ j. Before (name j) (name i)) xs
      → Before (name i) (name n)
      → All (λ j. Before (name j) (name n)) xs
  All-Before_trans [] i n h k = tt
  All-Before_trans (x ∷ xs) i n h k =
      (Before-trans (name x) (name i) (name n) h.0 k, All-Before_trans xs i n h.1 k)

  pub All-behind_trans :
      (n i : ℕ) (ys : List ℕ)
      → Before (name n) (name i)
      → All (λ j. Before (name i) (name j)) ys
      → All (λ j. Before (name n) (name j)) ys
  All-behind_trans n i [] h k = tt
  All-behind_trans n i (y ∷ ys) h k =
      (Before-trans (name n) (name i) (name y) h k.0, All-behind_trans n i ys h k.1)

  irreflexive : (i j : ℕ) → Before (name i) (name j) → name i ≢ name j
  irreflexive i j b e =
      let b' : strcmp (name j) (name j) ≡ Ordering.lt =
        subst (λ a. strcmp a (name j) ≡ Ordering.lt) e b in
      let r = strcmp_refl (name j) in cc

  -- In a sorted list a name stands once.
  pub Sorted-unique :
      (xs : List ℕ) (i j : ℕ) → Sorted xs → Among i xs → Among j xs → name i ≡ name j → i ≡ j
  Sorted-unique [] i j s m n e = elim m [ ]
  Sorted-unique (x ∷ xs) i j s (inl p) (inl q) e = p ∙ sym q
  Sorted-unique (x ∷ xs) i j s (inl p) (inr n) e =
      absurd (
        irreflexive x j (All-Among (λ k. Before (name x) (name k)) j xs s.0 n)
          (ap name (sym p) ∙ e))
  Sorted-unique (x ∷ xs) i j s (inr m) (inl q) e = absurd (
      irreflexive x i (All-Among (λ k. Before (name x) (name k)) i xs s.0 m)
        (ap name (sym q) ∙ sym e))
  Sorted-unique (x ∷ xs) i j s (inr m) (inr n) e = Sorted-unique xs i j s.1 m n e
