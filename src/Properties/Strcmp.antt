-- ===== src/Properties/Strcmp.antt =====
-- `strcmp` and `strcasecmp` of the C library, on the bytes of texts that hold no NUL.
use Prim.Native.Nat.{compare, Ordering}
use camerahal.Common.{ℕ, ◌≡◌, refl, List, [], ◌∷◌, map, arith}
use camerahal.Manifest.Chars.CaseFolding.{to_lower}

-- The sign of the result.
unfoldable pub strcmp : List ℕ → List ℕ → Ordering
strcmp [] [] = Ordering.eq
strcmp [] (y ∷ ys) = Ordering.lt
strcmp (x ∷ xs) [] = Ordering.gt
strcmp (x ∷ xs) (y ∷ ys) = elim (compare x y) [
  | Ordering.lt ↦ Ordering.lt
  | Ordering.eq ↦ strcmp xs ys
  | Ordering.gt ↦ Ordering.gt
]

unfoldable pub strcasecmp : List ℕ → List ℕ → Ordering
unfolding strcmp
strcasecmp a b = strcmp (map to_lower a) (map to_lower b)

pub strcmp_refl : (a : List ℕ) → strcmp a a ≡ Ordering.eq
unfolding strcmp
strcmp_refl [] = refl
strcmp_refl (x ∷ a) = ground (arith, strcmp_refl a)

pub strcmp-eq : (a b : List ℕ) → strcmp a b ≡ Ordering.eq → a ≡ b
unfolding strcmp
strcmp-eq [] [] h = refl
strcmp-eq [] (y ∷ b) h = absurd (cc)
strcmp-eq (x ∷ a) [] h = absurd (cc)
strcmp-eq (x ∷ a) (y ∷ b) h = ground (arith, strcmp-eq a b)

-- `a` stands before `b`.
abbrev pub Before : List ℕ → List ℕ → Type 0
Before a b = strcmp a b ≡ Ordering.lt

pub strcmp-gt : (a b : List ℕ) → strcmp a b ≡ Ordering.gt → Before b a
unfolding strcmp
strcmp-gt [] [] h = absurd (cc)
strcmp-gt [] (y ∷ b) h = absurd (cc)
strcmp-gt (x ∷ a) [] h = refl
strcmp-gt (x ∷ a) (y ∷ b) h = ground (arith, strcmp-gt a b)

pub Before-gt : (a b : List ℕ) → Before a b → strcmp b a ≡ Ordering.gt
unfolding strcmp
Before-gt [] [] h = absurd (cc)
Before-gt [] (y ∷ b) h = refl
Before-gt (x ∷ a) [] h = absurd (cc)
Before-gt (x ∷ a) (y ∷ b) h = ground (arith, Before-gt a b)

pub Before-trans : (a b c : List ℕ) → Before a b → Before b c → Before a c
unfolding strcmp
Before-trans [] [] c h k = absurd (cc)
Before-trans [] (y ∷ b) [] h k = absurd (cc)
Before-trans [] (y ∷ b) (z ∷ c) h k = refl
Before-trans (x ∷ a) [] c h k = absurd (cc)
Before-trans (x ∷ a) (y ∷ b) [] h k = absurd (cc)
Before-trans (x ∷ a) (y ∷ b) (z ∷ c) h k = ground (arith, Before-trans a b c)
