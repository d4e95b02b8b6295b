-- ===== src/Properties/Threaded/Insertion.antt =====
-- Adding a node: where it comes to stand in the tree and in the list.
use Prim.Native.Nat.{Ordering}
use camerahal.Common.{
  ℕ, ◌≡◌, inl, inr, refl, sym, ap, ◌∙◌, List, [], ◌∷◌, ◌++◌, append_assoc, All, All-append,
  Ordering-cases,
}
use camerahal.Properties.Strcmp.{strcmp, strcmp-gt, Before}
use camerahal.Properties.Memory.{Nodes, name_of}
use camerahal.Properties.Threaded.Shape.{
  Tree, leaf, branch, in_order, Slot, on_left, on_right, taken, slot, slot_below, insert,
}
use camerahal.Properties.Threaded.Sorted.{
  Sorted, Sorted-prefix, Sorted-suffix, Sorted-front, All-Before_trans, All-behind_trans,
}

module _ (h : Nodes) (n : ℕ) where
  -- The new node stands next to the node that it is hung under, and in its place in the order.
  abbrev pub Splits : Tree → Slot → Type 0
  Splits t taken = insert h n t ≡ t
  Splits t (on_right p) =
      (xs : List ℕ) × (ys : List ℕ) × (in_order t ≡ xs ++ p ∷ ys)
      × (in_order (insert h n t) ≡ xs ++ p ∷ n ∷ ys)
      × All (λ j. Before (name_of h j) (name_of h n)) (xs ++ p ∷ [])
      × All (λ j. Before (name_of h n) (name_of h j)) ys
  Splits t (on_left p) =
      (xs : List ℕ) × (ys : List ℕ) × (in_order t ≡ xs ++ p ∷ ys)
      × (in_order (insert h n t) ≡ xs ++ n ∷ p ∷ ys)
      × All (λ j. Before (name_of h j) (name_of h n)) xs
      × All (λ j. Before (name_of h n) (name_of h j)) (p ∷ ys)

  -- One step of the descent, to the right.
  descend_right :
      (l : Tree) (i : ℕ) (r : Tree) (s : Slot)
      → insert h n (branch l i r) ≡ branch l i (insert h n r)
      → Before (name_of h i) (name_of h n)
      → All (λ j. Before (name_of h j) (name_of h i)) (in_order l)
      → Splits r s
      → Splits (branch l i r) s
  descend_right l i r taken e b before sp = e ∙ ap (λ t. branch l i t) sp
  descend_right l i r (on_right p) e b before (xs, ys, e1, e2, lo, hi) = (
    in_order l ++ i ∷ xs,
    ys,
    ap (λ k. in_order l ++ i ∷ k) e1 ∙ sym (append_assoc (in_order l) (i ∷ xs) (p ∷ ys)),
    ap in_order e
        ∙ ap (λ k. in_order l ++ i ∷ k) e2
        ∙ sym (append_assoc (in_order l) (i ∷ xs) (p ∷ n ∷ ys)),
    rw (append_assoc (in_order l) (i ∷ xs) (p ∷ [])) (
        All-append (λ j. Before (name_of h j) (name_of h n)) (in_order l) (i ∷ (xs ++ p ∷ []))
          (All-Before_trans (name_of h) (in_order l) i n before b) (b, lo)),
    hi,
  )
  descend_right l i r (on_left p) e b before (xs, ys, e1, e2, lo, hi) = (
    in_order l ++ i ∷ xs,
    ys,
    ap (λ k. in_order l ++ i ∷ k) e1 ∙ sym (append_assoc (in_order l) (i ∷ xs) (p ∷ ys)),
    ap in_order e
        ∙ ap (λ k. in_order l ++ i ∷ k) e2
        ∙ sym (append_assoc (in_order l) (i ∷ xs) (n ∷ p ∷ ys)),
    All-append (λ j. Before (name_of h j) (name_of h n)) (in_order l) (i ∷ xs)
        (All-Before_trans (name_of h) (in_order l) i n before b) (b, lo),
    hi,
  )

  descend_left :
      (l : Tree) (i : ℕ) (r : Tree) (s : Slot)
      → insert h n (branch l i r) ≡ branch (insert h n l) i r
      → Before (name_of h n) (name_of h i)
      → All (λ j. Before (name_of h i) (name_of h j)) (in_order r)
      → Splits l s
      → Splits (branch l i r) s
  descend_left l i r taken e b behind sp = e ∙ ap (λ t. branch t i r) sp
  descend_left l i r (on_right p) e b behind (xs, ys, e1, e2, lo, hi) = (
    xs,
    ys ++ i ∷ in_order r,
    ap (λ k. k ++ i ∷ in_order r) e1 ∙ append_assoc xs (p ∷ ys) (i ∷ in_order r),
    ap in_order e
        ∙ ap (λ k. k ++ i ∷ in_order r) e2
        ∙ append_assoc xs (p ∷ n ∷ ys) (i ∷ in_order r),
    lo,
    All-append (λ j. Before (name_of h n) (name_of h j)) ys (i ∷ in_order r) hi
        (b, All-behind_trans (name_of h) n i (in_order r) b behind),
  )
  descend_left l i r (on_left p) e b behind (xs, ys, e1, e2, lo, hi) = (
    xs,
    ys ++ i ∷ in_order r,
    ap (λ k. k ++ i ∷ in_order r) e1 ∙ append_assoc xs (p ∷ ys) (i ∷ in_order r),
    ap in_order e
        ∙ ap (λ k. k ++ i ∷ in_order r) e2
        ∙ append_assoc xs (n ∷ p ∷ ys) (i ∷ in_order r),
    lo,
    (
      hi.0,
      All-append (λ j. Before (name_of h n) (name_of h j)) ys (i ∷ in_order r) hi.1
          (b, All-behind_trans (name_of h) n i (in_order r) b behind),
    ),
  )

  insert-gt :
      (l : Tree) (i : ℕ) (r : Tree)
      → strcmp (name_of h n) (name_of h i) ≡ Ordering.gt
      → insert h n (branch l i r) ≡ branch l i (insert h n r)
  insert-gt l i r o = rw (o, insert)

  insert-lt :
      (l : Tree) (i : ℕ) (r : Tree)
      → strcmp (name_of h n) (name_of h i) ≡ Ordering.lt
      → insert h n (branch l i r) ≡ branch (insert h n l) i r
  insert-lt l i r o = rw (o, insert)

  -- What the slot of a non-empty sorted tree is; nothing of a leaf.
  SlotSplits : Tree → Type 0
  SlotSplits leaf = Unit
  SlotSplits (branch l i r) = Splits (branch l i r) (slot h n (branch l i r))

  hang_right :
      (l : Tree) (i : ℕ) (r : Tree)
      → strcmp (name_of h n) (name_of h i) ≡ Ordering.gt
      → Sorted (name_of h) (in_order (branch l i r))
      → SlotSplits r
      → Splits (branch l i r) (slot_below (on_right i) r (slot h n r))
  unfolding SlotSplits
  hang_right l i leaf o s sp = (
    in_order l,
    [],
    refl,
    ap in_order (insert-gt l i leaf o),
    All-append (λ j. Before (name_of h j) (name_of h n)) (in_order l) (i ∷ [])
        (All-Before_trans (name_of h) (in_order l) i n
          (Sorted-front (name_of h) (in_order l) i [] s) b)
        (b, tt),
    tt,
  )
    where
      b : Before (name_of h i) (name_of h n)
      b = strcmp-gt (name_of h n) (name_of h i) o
  hang_right l i (branch l' j r') o s sp =
      descend_right l i (branch l' j r') (slot h n (branch l' j r'))
        (insert-gt l i (branch l' j r') o) (strcmp-gt (name_of h n) (name_of h i) o)
        (Sorted-front (name_of h) (in_order l) i (in_order (branch l' j r')) s) sp

  hang_left :
      (l : Tree) (i : ℕ) (r : Tree)
      → strcmp (name_of h n) (name_of h i) ≡ Ordering.lt
      → Sorted (name_of h) (in_order (branch l i r))
      → SlotSplits l
      → Splits (branch l i r) (slot_below (on_left i) l (slot h n l))
  unfolding SlotSplits
  hang_left leaf i r o s sp = (
    [],
    in_order r,
    refl,
    ap in_order (insert-lt leaf i r o),
    tt,
    (o, All-behind_trans (name_of h) n i (in_order r) o s.0),
  )
  hang_left (branch l' j r') i r o s sp =
      descend_left (branch l' j r') i r (slot h n (branch l' j r'))
        (insert-lt (branch l' j r') i r o) o
        (Sorted-suffix (name_of h) (in_order (branch l' j r')) (i ∷ in_order r) s).0 sp

  slot-Splits : (t : Tree) → Sorted (name_of h) (in_order t) → SlotSplits t
  unfolding SlotSplits
  slot-Splits leaf s = tt
  slot-Splits (branch l i r) s = elim (Ordering-cases (strcmp (name_of h n) (name_of h i))) [
    | inl o ↦
        rw (o, slot)
          (hang_left l i r o s
            (slot-Splits l (Sorted-prefix (name_of h) (in_order l) (i ∷ in_order r) s)))
    | inr (inl o) ↦ rw (o, slot) (rw (o, insert) refl)
    | inr (inr o) ↦
        rw (o, slot)
          (hang_right l i r o s
            (slot-Splits r (Sorted-suffix (name_of h) (in_order l) (i ∷ in_order r) s).1))
  ]

  pub branch-Splits :
      (l : Tree) (i : ℕ) (r : Tree)
      → Sorted (name_of h) (in_order (branch l i r))
      → Splits (branch l i r) (slot h n (branch l i r))
  unfolding SlotSplits
  branch-Splits l i r s = slot-Splits (branch l i r) s
