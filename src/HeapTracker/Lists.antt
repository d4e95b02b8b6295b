-- ===== src/HeapTracker/Lists.antt =====
-- heaptracker.c: a chain of blocks is a list, the newest block first.
use camerahal.Common.{
  ℕ, ◌≡◌, refl, sym, ap, subst, ◌∙◌, Bool, true, false, ◌||◌, Option, none, some, List, [], ◌∷◌,
  ◌==◌, if◌then◌else◌, arith,
}
use camerahal.HeapTracker.{Blocks, Chain, add_block, del_block}

-- Whether a block is in a list.
abbrev pub has : ℕ → List ℕ → Bool
has a [] = false
has a (x ∷ xs) = a == x || has a xs

abbrev pub points_to : Option ℕ → ℕ → Bool
points_to none a = false
points_to (some b) a = b == a

-- Each block stands once in the list.
abbrev pub Once : List ℕ → Type 0
Once [] = Unit
Once (x ∷ xs) = (has x xs ≡ false) × Once xs

-- From `p` the `next` pointers lead through the blocks, each of which points back to the one before,
-- the first of them to `before`; `end` points to the last one.
abbrev pub Links : Blocks → Option ℕ → Option ℕ → Option ℕ → List ℕ → Type 0
Links h before p end [] = (p ≡ none) × (end ≡ before)
Links h before p end (x ∷ xs) =
    (p ≡ some x) × ((h x).prev ≡ before) × Links h (some x) (h x).next end xs

-- The chain holds these blocks.
pub record HoldsBlocks (h : Blocks) (chain : Chain) (xs : List ℕ) : Type 0 where
  pub linked : Links h none chain.last chain.first xs
  pub once : Once xs

-- Links stay when the pointers of their blocks do.
pub Links-frame :
    (h g : Blocks) (before p end : Option ℕ) (xs : List ℕ)
    → ((a : ℕ) → has a xs ≡ true → ((g a).prev ≡ (h a).prev) × ((g a).next ≡ (h a).next))
    → Links h before p end xs
    → Links g before p end xs
Links-frame h g before p end [] same l = l
Links-frame h g before p end (x ∷ xs) same (at, back, rest) =
    let here = same x (ground arith) in
    (
      at,
      here.0 ∙ back,
      subst (λ q. Links g (some x) q end xs) (sym here.1)
          (Links-frame h g (some x) (h x).next end xs (λ a m. same a (ground (arith, m))) rest),
    )

-- What __add and __del write.
module _ (h : Blocks) (chain : Chain) (hdr a : ℕ) where
  pub add_block-next :
      points_to chain.last hdr ≡ false
      → ((add_block h chain hdr).0 a).next ≡ (if hdr == a then chain.last else (h a).next)
  unfolding add_block
  add_block-next apart = ground arith

  pub add_block-prev :
      points_to chain.last hdr ≡ false
      → ((add_block h chain hdr).0 a).prev
        ≡ (if hdr == a then none else if points_to chain.last a then some hdr else (h a).prev)
  unfolding add_block
  add_block-prev apart = ground arith

  pub del_block-next :
      ((del_block h chain hdr).0 a).next
      ≡ (if points_to (h hdr).prev a then (h hdr).next else (h a).next)
  unfolding del_block
  del_block-next = ground arith

  pub del_block-prev :
      ((del_block h chain hdr).0 a).prev
      ≡ (if points_to (h hdr).next a then (h hdr).prev else (h a).prev)
  unfolding del_block
  del_block-prev = ground arith

pub has-ne : (a b : ℕ) (xs : List ℕ) → has a xs ≡ true → has b xs ≡ false → (a == b) ≡ false
has-ne a b [] m n = cc
has-ne a b (x ∷ xs) m n = ground (arith, has-ne a b xs)

abbrev first_with : Option ℕ → Option ℕ → ℕ → Option ℕ
first_with none first hdr = some hdr
first_with (some l) first hdr = first

first_of :
    (h : Blocks) (chain : Chain) (hdr : ℕ)
    → (add_block h chain hdr).1.first ≡ first_with chain.last chain.first hdr
unfolding add_block
first_of h chain hdr = ground arith

-- What __add links.
added-Links :
    (h : Blocks) (chain : Chain) (hdr : ℕ) (xs : List ℕ)
    → has hdr xs ≡ false
    → Once xs
    → Links h none chain.last chain.first xs
    → Links (add_block h chain hdr).0 none (some hdr) (add_block h chain hdr).1.first (hdr ∷ xs)
added-Links h chain hdr [] out once (at, stop) =
    let apart : points_to chain.last hdr ≡ false = ap (λ q. points_to q hdr) at in
    let n = add_block-next h chain hdr hdr apart in
    let p = add_block-prev h chain hdr hdr apart in
    (refl, ground arith, (ground arith, first_empty at))
  where
    first_empty : chain.last ≡ none → (add_block h chain hdr).1.first ≡ some hdr
    first_empty e = first_of h chain hdr ∙ ap (λ q. first_with q chain.first hdr) e
added-Links h chain hdr (x ∷ xs) out once (at, back, rest) =
    let apart : points_to chain.last hdr ≡ false = ap (λ q. points_to q hdr) at ∙ ground arith in
    let g = (add_block h chain hdr).0 in
    let e = (add_block h chain hdr).1.first in
    let same : e ≡ chain.first = first_of h chain hdr ∙ ap (λ q. first_with q chain.first hdr) at in
    let behind : Links g (some x) (h x).next chain.first xs =
      Links-frame h g (some x) (h x).next chain.first xs
        (λ a m.
          let n = add_block-next h chain hdr a apart in
          let p = add_block-prev h chain hdr a apart in
          let i = has-ne a hdr xs m (ground arith) in
          let j = has-ne a x xs m once.0 in (ground arith, ground arith))
        rest in
    let n = add_block-next h chain hdr x apart in
    let p = add_block-prev h chain hdr x apart in
    (
      refl,
      let p' = add_block-prev h chain hdr hdr apart in ground arith,
      (
        let n' = add_block-next h chain hdr hdr apart in ground arith,
        ground arith,
        subst (λ q. Links g (some x) q e xs) (let n' = n in ground arith)
            (subst (λ f. Links g (some x) (h x).next f xs) (sym same) behind),
      ),
    )

-- __add puts a block that is not in the list in front of it.
pub add_block-HoldsBlocks :
    (h : Blocks) (chain : Chain) (hdr : ℕ) (xs : List ℕ)
    → has hdr xs ≡ false
    → HoldsBlocks h chain xs
    → HoldsBlocks (add_block h chain hdr).0 (add_block h chain hdr).1 (hdr ∷ xs)
unfolding add_block
add_block-HoldsBlocks h chain hdr xs out w = record {
  linked = added-Links h chain hdr xs out w.once w.linked;
  once = (out, w.once);
}
