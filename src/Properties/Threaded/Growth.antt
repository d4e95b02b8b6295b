-- ===== src/Properties/Threaded/Growth.antt =====
-- Hanging a new node into its slot: the memory then holds the tree with the new node in it.
use Prim.Native.Nat.{Ordering}
use camerahal.Common.{
  ℕ, ◌≡◌, ◌≢◌, inl, inr, refl, sym, ◌∙◌, Option, none, List, [], ◌∷◌, ◌++◌, All, All-prefix,
  All-suffix, arith, Ordering-cases,
}
use camerahal.Properties.Strcmp.{strcmp}
use camerahal.Properties.Memory.{Nodes, name_of}
use camerahal.Properties.Threaded.{link_left, link_right}
use camerahal.Properties.Threaded.Shape.{
  Tree, leaf, branch, in_order, Rep, NotIn, Distinct, Slot, on_left, on_right, taken, slot,
  slot_below, insert,
}
use camerahal.Properties.Threaded.Writes.{right-left, right-right, left-left, left-right}

-- What being distinct says about the two sides of a node.
pub record Apart (xs : List ℕ) (i : ℕ) (ys : List ℕ) : Type 0 where
  pub front : Distinct xs
  pub back : Distinct ys
  pub not_front : NotIn i xs
  pub not_back : NotIn i ys
  pub back_front : All (λ p. NotIn p xs) ys
  pub front_back : All (λ p. NotIn p ys) xs

anywhere : (ys : List ℕ) → All (λ p. NotIn p []) ys
anywhere [] = tt
anywhere (y ∷ ys) = (tt, anywhere ys)

NotIn-cons :
    (x : ℕ) (xs ys : List ℕ)
    → NotIn x ys
    → All (λ p. NotIn p xs) ys
    → All (λ p. NotIn p (x ∷ xs)) ys
NotIn-cons x xs [] a b = tt
NotIn-cons x xs (y ∷ ys) a b = (((λ e. a.0 (sym e)), b.0), NotIn-cons x xs ys a.1 b.1)

pub Distinct-Apart : (xs : List ℕ) (i : ℕ) (ys : List ℕ) → Distinct (xs ++ i ∷ ys) → Apart xs i ys
Distinct-Apart [] i ys d = record {
  front = tt;
  back = d.1;
  not_front = tt;
  not_back = d.0;
  back_front = anywhere ys;
  front_back = tt;
}
Distinct-Apart (x ∷ xs) i ys d =
    let a = Distinct-Apart xs i ys d.1 in
    let front : NotIn x xs = All-prefix (λ j. j ≢ x) xs (i ∷ ys) d.0 in
    let behind : NotIn x (i ∷ ys) = All-suffix (λ j. j ≢ x) xs (i ∷ ys) d.0 in
    record {
      front = (front, a.front);
      back = a.back;
      not_front = ((λ e. behind.0 (sym e)), a.not_front);
      not_back = a.not_back;
      back_front = NotIn-cons x xs ys behind.1 a.back_front;
      front_back = (behind.1, a.front_back);
    }

-- A property of the node that a slot is at.
abbrev pub AtSlot : (ℕ → Type 0) → Slot → Type 0
AtSlot P (on_left p) = P p
AtSlot P (on_right p) = P p
AtSlot P taken = Unit

-- The same trees are spelled out where no node of them changes its children.
Rep-frame :
    (h h' : Nodes) (t : Tree) (p : Option ℕ)
    → All (λ j. ((h' j).left ≡ (h j).left) × ((h' j).right ≡ (h j).right)) (in_order t)
    → Rep h t p
    → Rep h' t p
Rep-frame h h' leaf p same rep = rep
Rep-frame h h' (branch l i r) p same (e, rl, rr) =
    let Same = λ (j : ℕ). ((h' j).left ≡ (h j).left) × ((h' j).right ≡ (h j).right) in
    let behind = All-suffix Same (in_order l) (i ∷ in_order r) same in
    (
      e,
      rw (behind.0.0)
          (Rep-frame h h' l (h i).left (All-prefix Same (in_order l) (i ∷ in_order r) same) rl),
      rw (behind.0.1) (Rep-frame h h' r (h i).right behind.1 rr),
    )

module _ (h : Nodes) (n : ℕ) where
  -- The node of a slot is a node of the tree.
  pub slot-All : (P : ℕ → Type 0) (t : Tree) → All P (in_order t) → AtSlot P (slot h n t)
  slot-All P leaf a = tt
  slot-All P (branch l i r) a =
      let front = All-prefix P (in_order l) (i ∷ in_order r) a in
      let behind = All-suffix P (in_order l) (i ∷ in_order r) a in
      elim (Ordering-cases (strcmp (name_of h n) (name_of h i))) [
        | inl o ↦ rw (o, slot) (below (on_left i) l behind.0 (slot-All P l front))
        | inr (inl o) ↦ rw (o, slot) tt
        | inr (inr o) ↦ rw (o, slot) (below (on_right i) r behind.0 (slot-All P r behind.1))
      ]
    where
      below :
          (s : Slot) (t : Tree)
          → AtSlot P s
          → AtSlot P (slot h n t)
          → AtSlot P (slot_below s t (slot h n t))
      below s leaf a b = a
      below s (branch l i r) a b = b

  abbrev pub linked_at : Slot → Nodes
  linked_at (on_left p) = link_left h p n
  linked_at (on_right p) = link_right h p n
  linked_at taken = h

  slot-same :
      (s : Slot) (j : ℕ)
      → AtSlot (λ q. q ≢ n) s
      → AtSlot (λ q. q ≢ j) s
      → ((linked_at s j).left ≡ (h j).left) × ((linked_at s j).right ≡ (h j).right)
  slot-same (on_left q) j a b = (ground (arith, left-left h q n a j), left-right h q n a j)
  slot-same (on_right q) j a b = (right-left h q n a j, ground (arith, right-right h q n a j))
  slot-same taken j a b = (refl, refl)

  slot-frame :
      (s : Slot) (t : Tree) (p : Option ℕ)
      → AtSlot (λ q. q ≢ n) s
      → AtSlot (λ q. NotIn q (in_order t)) s
      → Rep h t p
      → Rep (linked_at s) t p
  slot-frame (on_left q) t p a away rep =
      Rep-frame h (link_left h q n) t p (same (in_order t) away) rep
    where
      same :
          (xs : List ℕ)
          → NotIn q xs
          → All
              (λ j.
                ((link_left h q n j).left ≡ (h j).left) × ((link_left h q n j).right ≡ (h j).right))
              xs
      same [] f = tt
      same (x ∷ xs) (f, g) =
          ((ground (arith, left-left h q n a x), left-right h q n a x), same xs g)
  slot-frame (on_right q) t p a away rep =
      Rep-frame h (link_right h q n) t p (same (in_order t) away) rep
    where
      same :
          (xs : List ℕ)
          → NotIn q xs
          → All
              (λ j.
                ((link_right h q n j).left ≡ (h j).left)
                × ((link_right h q n j).right ≡ (h j).right))
              xs
      same [] f = tt
      same (x ∷ xs) (f, g) =
          ((right-left h q n a x, ground (arith, right-right h q n a x)), same xs g)
  slot-frame taken t p a away rep = rep

  Grown : Tree → Type 0
  Grown leaf = Unit
  Grown (branch l i r) =
      (p : Option ℕ)
      → Rep h (branch l i r) p
      → Rep (linked_at (slot h n (branch l i r))) (insert h n (branch l i r)) p

  module _ (bare : ((h n).left ≡ none) × ((h n).right ≡ none)) where
    grow_right :
        (l : Tree) (i : ℕ) (r : Tree)
        → strcmp (name_of h n) (name_of h i) ≡ Ordering.gt
        → Distinct (in_order (branch l i r))
        → NotIn n (in_order (branch l i r))
        → Grown r
        → (p : Option ℕ) → Rep h (branch l i r) p
        → Rep (linked_at (slot_below (on_right i) r (slot h n r))) (branch l i (insert h n r)) p
    unfolding Grown
    grow_right l i leaf o d f g p (e, rl, rr) =
        let a = Distinct-Apart (in_order l) i [] d in
        let i-n : i ≢ n = (All-suffix (λ j. j ≢ n) (in_order l) (i ∷ []) f).0 in
        (
          e,
          rw (right-left h i n i-n i) (slot-frame (on_right i) l (h i).left i-n a.not_front rl),
          (
            ground (arith, right-right h i n i-n i),
            right-left h i n i-n n ∙ bare.0,
            ground (arith, right-right h i n i-n n, bare.1),
          ),
        )
    grow_right l i (branch l' j r') o d f g p (e, rl, rr) =
        let a = Distinct-Apart (in_order l) i (in_order (branch l' j r')) d in
        let s = slot h n (branch l' j r') in
        let f' = All-suffix (λ q. q ≢ n) (in_order l) (i ∷ in_order (branch l' j r')) f in
        let away = slot-All (λ q. q ≢ n) (branch l' j r') f'.1 in
        let kept = slot-same s i away (slot-All (λ q. q ≢ i) (branch l' j r') a.not_back) in
        (
          e,
          rw (kept.0) (
              slot-frame s l (h i).left away
                (slot-All (λ q. NotIn q (in_order l)) (branch l' j r') a.back_front) rl),
          rw (kept.1) (g (h i).right rr),
        )

    grow_left :
        (l : Tree) (i : ℕ) (r : Tree)
        → strcmp (name_of h n) (name_of h i) ≡ Ordering.lt
        → Distinct (in_order (branch l i r))
        → NotIn n (in_order (branch l i r))
        → Grown l
        → (p : Option ℕ) → Rep h (branch l i r) p
        → Rep (linked_at (slot_below (on_left i) l (slot h n l))) (branch (insert h n l) i r) p
    unfolding Grown
    grow_left leaf i r o d f g p (e, rl, rr) =
        let i-n : i ≢ n = f.0 in
        (
          e,
          (
            ground (arith, left-left h i n i-n i),
            ground (arith, left-left h i n i-n n, bare.0),
            left-right h i n i-n n ∙ bare.1,
          ),
          rw (left-right h i n i-n i) (slot-frame (on_left i) r (h i).right i-n d.0 rr),
        )
    grow_left (branch l' j r') i r o d f g p (e, rl, rr) =
        let a = Distinct-Apart (in_order (branch l' j r')) i (in_order r) d in
        let s = slot h n (branch l' j r') in
        let f' = All-prefix (λ q. q ≢ n) (in_order (branch l' j r')) (i ∷ in_order r) f in
        let away = slot-All (λ q. q ≢ n) (branch l' j r') f' in
        let kept = slot-same s i away (slot-All (λ q. q ≢ i) (branch l' j r') a.not_front) in
        (
          e,
          rw (kept.0) (g (h i).left rl),
          rw (kept.1) (
              slot-frame s r (h i).right away
                (slot-All (λ q. NotIn q (in_order r)) (branch l' j r') a.front_back) rr),
        )

    grown : (t : Tree) → Distinct (in_order t) → NotIn n (in_order t) → Grown t
    unfolding Grown
    grown leaf d f = tt
    grown (branch l i r) d f = λ p rep.
        let a = Distinct-Apart (in_order l) i (in_order r) d in
        let fl = All-prefix (λ q. q ≢ n) (in_order l) (i ∷ in_order r) f in
        let fr = All-suffix (λ q. q ≢ n) (in_order l) (i ∷ in_order r) f in
        elim (Ordering-cases (strcmp (name_of h n) (name_of h i))) [
          | inl o ↦ rw (o, slot, insert) (grow_left l i r o d f (grown l a.front fl) p rep)
          | inr (inl o) ↦ rw (o, slot, insert) rep
          | inr (inr o) ↦ rw (o, slot, insert) (grow_right l i r o d f (grown r a.back fr.1) p rep)
        ]

    -- The memory after the new node is hung spells out the tree with the new node.
    pub linked_at-Rep :
        (l : Tree) (i : ℕ) (r : Tree)
        → Distinct (in_order (branch l i r))
        → NotIn n (in_order (branch l i r))
        → (p : Option ℕ) → Rep h (branch l i r) p
        → Rep (linked_at (slot h n (branch l i r))) (insert h n (branch l i r)) p
    unfolding Grown
    linked_at-Rep l i r d f p rep = grown (branch l i r) d f p rep
