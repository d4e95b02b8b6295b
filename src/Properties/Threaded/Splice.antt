-- ===== src/Properties/Threaded/Splice.antt =====
-- Linking a new node behind or in front of a node keeps the list of nodes linked.
use camerahal.Common.{
  ℕ, ◌≡◌, ◌≢◌, refl, sym, ◌∙◌, true, false, Option, none, some, List, [], ◌∷◌, ◌++◌, All,
  All-suffix, All-prefix, ==_refl, arith,
}
use camerahal.Properties.Memory.{Nodes}
use camerahal.Properties.Threaded.{link_left, link_right}
use camerahal.Properties.Threaded.Shape.{Links, head_of, NotIn, Distinct}
use camerahal.Properties.Threaded.Writes.{
  points_to, right-next, right-previous, left-next, left-previous,
}

-- Nodes whose links are the same in both memories stay linked.
Links-frame :
    (h h' : Nodes) (previous : Option ℕ) (xs : List ℕ)
    → All (λ j. ((h' j).previous ≡ (h j).previous) × ((h' j).next ≡ (h j).next)) xs
    → Links h previous xs
    → Links h' previous xs
Links-frame h h' previous [] same l = tt
Links-frame h h' previous (i ∷ xs) same l =
    (same.0.0 ∙ l.0, same.0.1 ∙ l.1, Links-frame h h' (some i) xs same.1 l.2)

-- Links are read off in the middle of a list.
next_of :
    (h : Nodes) (previous : Option ℕ) (xs : List ℕ) (p : ℕ) (ys : List ℕ)
    → Links h previous (xs ++ p ∷ ys)
    → (h p).next ≡ head_of ys
next_of h previous [] p ys l = l.1
next_of h previous (x ∷ xs) p ys l = next_of h (some x) xs p ys l.2

points_to-head : (x : ℕ) (ys : List ℕ) → NotIn x ys → points_to (head_of ys) x ≡ false
points_to-head x [] h = refl
points_to-head x (y ∷ ys) h = let ne = h.0 in ground arith

-- The first of a list does not change when something is put in further on.
pub head-right :
    (xs : List ℕ) (p n : ℕ) (ys : List ℕ) → head_of (xs ++ p ∷ ys) ≡ head_of (xs ++ p ∷ n ∷ ys)
head-right [] p n ys = refl
head-right (x ∷ xs) p n ys = refl

head-left :
    (x : ℕ) (xs : List ℕ) (p n : ℕ) (ys : List ℕ)
    → head_of ((x ∷ xs) ++ p ∷ ys) ≡ head_of ((x ∷ xs) ++ n ∷ p ∷ ys)
head-left x xs p n ys = refl

NotIn-middle : (i : ℕ) (xs : List ℕ) (p : ℕ) (ys : List ℕ) → NotIn i (xs ++ p ∷ ys) → p ≢ i
NotIn-middle i xs p ys h = (All-suffix (λ j. j ≢ i) xs (p ∷ ys) h).0

NotIn-end : (i : ℕ) (xs : List ℕ) (p : ℕ) (ys : List ℕ) → NotIn i (xs ++ p ∷ ys) → NotIn i ys
NotIn-end i xs p ys h = (All-suffix (λ j. j ≢ i) xs (p ∷ ys) h).1

module _ (h : Nodes) (p n : ℕ) (apart : p ≢ n) where
  right-untouched :
      (j : ℕ)
      → j ≢ p
      → j ≢ n
      → points_to (h p).next j ≡ false
      → ((link_right h p n j).previous ≡ (h j).previous) × ((link_right h p n j).next ≡ (h j).next)
  right-untouched j a b c =
      (ground (arith, right-previous h p n apart j), ground (arith, right-next h p n apart j))

  -- The nodes behind the old successor.
  right-behind :
      (y : ℕ) (ys : List ℕ)
      → (h p).next ≡ some y
      → NotIn p ys
      → NotIn n ys
      → NotIn y ys
      → All
          (λ j.
            ((link_right h p n j).previous ≡ (h j).previous)
            × ((link_right h p n j).next ≡ (h j).next))
          ys
  right-behind y [] e a b c = tt
  right-behind y (j ∷ ys) e a b c = (
    right-untouched j a.0 b.0 (rw e (points_to-head j (y ∷ []) ((λ q. c.0 (sym q)), tt))),
    right-behind y ys e a.1 b.1 c.1,
  )

  pub splice_right :
      (previous : Option ℕ) (xs ys : List ℕ)
      → Distinct (xs ++ p ∷ ys)
      → NotIn n (xs ++ p ∷ ys)
      → Links h previous (xs ++ p ∷ ys)
      → Links (link_right h p n) previous (xs ++ p ∷ n ∷ ys)
  splice_right previous [] [] d f (lp, ln, l) = (
    ground (arith, right-previous h p n apart p),
    ground (arith, right-next h p n apart p),
    (ground (arith, right-previous h p n apart n), ground (arith, right-next h p n apart n), tt),
  )
  splice_right previous [] (y ∷ ys) (dp, (dy, d)) (fp, (fy, f)) (lp, ln, (ly, lm, l)) =
      let y-p : y ≢ p = dp.0 in
      (
        ground (arith, right-previous h p n apart p),
        ground (arith, right-next h p n apart p),
        (
          ground (arith, right-previous h p n apart n),
          ground (arith, right-next h p n apart n),
          (
            ground (arith, right-previous h p n apart y),
            ground (arith, right-next h p n apart y),
            Links-frame h (link_right h p n) (some y) ys (right-behind y ys ln dp.1 f dy) l,
          ),
        ),
      )
  splice_right previous (x ∷ xs) ys (dx, d) (fx, f) (lp, ln, l) =
      let e = next_of h (some x) xs p ys l in
      let quiet : points_to (h p).next x ≡ false =
        rw e (points_to-head x ys (NotIn-end x xs p ys dx)) in
      let (same-previous, same-next) =
        right-untouched x (λ q. NotIn-middle x xs p ys dx (sym q)) fx quiet in
      (same-previous ∙ lp, same-next ∙ ln ∙ head-right xs p n ys, splice_right (some x) xs ys d f l)

-- The last of the nodes in front, or what stands in front of them all.
abbrev pub last_of : Option ℕ → List ℕ → Option ℕ
last_of previous [] = previous
last_of previous (x ∷ xs) = last_of (some x) xs

pub previous_of :
    (h : Nodes) (previous : Option ℕ) (xs : List ℕ) (p : ℕ) (ys : List ℕ)
    → Links h previous (xs ++ p ∷ ys)
    → (h p).previous ≡ last_of previous xs
previous_of h previous [] p ys l = l.0
previous_of h previous (x ∷ xs) p ys l = previous_of h (some x) xs p ys l.2

points_to-last :
    (x y : ℕ) (xs : List ℕ) → y ≢ x → NotIn x xs → points_to (last_of (some y) xs) x ≡ false
points_to-last x y [] a b = ground arith
points_to-last x y (z ∷ xs) a b = points_to-last x z xs b.0 b.1

quiet-NotIn : (x : ℕ) (zs : List ℕ) → NotIn x zs → All (λ j. points_to (some x) j ≡ false) zs
quiet-NotIn x [] h = tt
quiet-NotIn x (z ∷ zs) h = let ne = h.0 in (ground arith, quiet-NotIn x zs h.1)

NotIn-front : (i : ℕ) (xs : List ℕ) (p : ℕ) (ys : List ℕ) → NotIn i (xs ++ p ∷ ys) → NotIn i xs
NotIn-front i xs p ys h = All-prefix (λ j. j ≢ i) xs (p ∷ ys) h

module _ (h : Nodes) (p n : ℕ) (apart : p ≢ n) where
  left-untouched :
      (j : ℕ)
      → j ≢ p
      → j ≢ n
      → points_to (h p).previous j ≡ false
      → ((link_left h p n j).previous ≡ (h j).previous) × ((link_left h p n j).next ≡ (h j).next)
  left-untouched j a b c =
      (ground (arith, left-previous h p n apart j), ground (arith, left-next h p n apart j))

  left-behind :
      (ys : List ℕ)
      → NotIn p ys
      → NotIn n ys
      → All (λ j. points_to (h p).previous j ≡ false) ys
      → All
          (λ j.
            ((link_left h p n j).previous ≡ (h j).previous)
            × ((link_left h p n j).next ≡ (h j).next))
          ys
  left-behind [] a b c = tt
  left-behind (j ∷ ys) a b c = (left-untouched j a.0 b.0 c.0, left-behind ys a.1 b.1 c.1)

  -- No node of the list, nor the new one, is the one in front of the list.
  splice_left_from :
      (previous : Option ℕ) (xs ys : List ℕ)
      → All (λ j. points_to previous j ≡ false) (n ∷ (xs ++ p ∷ ys))
      → Distinct (xs ++ p ∷ ys)
      → NotIn n (xs ++ p ∷ ys)
      → Links h previous (xs ++ p ∷ ys)
      → Links (link_left h p n) previous (xs ++ n ∷ p ∷ ys)
  splice_left_from previous [] ys (on, (op, o)) (dp, d) (fp, f) (lp, ln, l) =
      let quiet-n : points_to (h p).previous n ≡ false = rw lp on in
      let quiet-p : points_to (h p).previous p ≡ false = rw lp op in
      (
        ground (arith, left-previous h p n apart n),
        ground (arith, left-next h p n apart n),
        (
          ground (arith, left-previous h p n apart p),
          ground (arith, left-next h p n apart p),
          Links-frame h (link_left h p n) (some p) ys (left-behind ys dp f (rw lp o)) l,
        ),
      )
  splice_left_from previous (x ∷ []) ys o (dx, d) (fx, f) (lp, ln, l) =
      let front : points_to (h p).previous x ≡ true = rw (l.0) (==_refl x) in
      let x-p : x ≢ p = λ q. NotIn-middle x [] p ys dx (sym q) in
      (
        ground (arith, left-previous h p n apart x),
        ground (arith, left-next h p n apart x),
        splice_left_from (some x) [] ys (quiet-NotIn x (n ∷ p ∷ ys) ((λ q. fx (sym q)), dx)) d f l,
      )
  splice_left_from previous (x ∷ y ∷ xs) ys o (dx, d) (fx, f) (lp, ln, l) =
      let e = previous_of h (some x) (y ∷ xs) p ys l in
      let quiet : points_to (h p).previous x ≡ false =
        rw e (points_to-last x y xs dx.0 (NotIn-front x xs p ys dx.1)) in
      let x-p : x ≢ p = λ q. NotIn-middle x (y ∷ xs) p ys dx (sym q) in
      let (same-previous, same-next) = left-untouched x x-p fx quiet in
      (
        same-previous ∙ lp,
        same-next ∙ ln,
        splice_left_from (some x) (y ∷ xs) ys
            (quiet-NotIn x (n ∷ (y ∷ xs) ++ p ∷ ys) ((λ q. fx (sym q)), dx)) d f l,
      )

  pub splice_left :
      (xs ys : List ℕ)
      → Distinct (xs ++ p ∷ ys)
      → NotIn n (xs ++ p ∷ ys)
      → Links h none (xs ++ p ∷ ys)
      → Links (link_left h p n) none (xs ++ n ∷ p ∷ ys)
  splice_left xs ys d f l = splice_left_from none xs ys (nowhere (n ∷ (xs ++ p ∷ ys))) d f l
    where
      nowhere : (zs : List ℕ) → All (λ j. points_to none j ≡ false) zs
      nowhere [] = tt
      nowhere (z ∷ zs) = (refl, nowhere zs)
