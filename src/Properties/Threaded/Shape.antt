-- ===== src/Properties/Threaded/Shape.antt =====
-- The search tree and the linked list that the nodes of a list spell out.
use Prim.Native.Nat.{Ordering, max}
use camerahal.Common.{
  ℕ, zero, suc, ◌<◌, ◌≡◌, ◌≢◌, Option, none, some, List, [], ◌∷◌, ◌++◌, All, arith, inl, inr,
  Ordering-cases,
}
use camerahal.Status.{Outcome, success, error, item_exists}
use camerahal.Properties.Strcmp.{strcmp}
use camerahal.Properties.Memory.{Nodes, name_of}
use camerahal.Properties.Threaded.{link_left, link_right, sorted_add_node}

pub data Tree : Type 0 where
  leaf : Tree
  branch : Tree → ℕ → Tree → Tree

abbrev pub in_order : Tree → List ℕ
in_order leaf = []
in_order (branch l i r) = in_order l ++ i ∷ in_order r

-- The number of nodes on the longest way down.
abbrev pub height : Tree → ℕ
height leaf = 0
height (branch l i r) = suc (max (height l) (height r))

-- The pointer `p` is the root of the tree.
abbrev pub Rep : Nodes → Tree → Option ℕ → Type 0
Rep h leaf p = p ≡ none
Rep h (branch l i r) p = (p ≡ some i) × Rep h l (h i).left × Rep h r (h i).right

abbrev pub head_of : List ℕ → Option ℕ
head_of [] = none
head_of (i ∷ xs) = some i

-- The nodes are linked in both directions, behind `previous` and up to NULL.
abbrev pub Links : Nodes → Option ℕ → List ℕ → Type 0
Links h previous [] = Unit
Links h previous (i ∷ xs) =
    ((h i).previous ≡ previous) × ((h i).next ≡ head_of xs) × Links h (some i) xs

abbrev pub NotIn : ℕ → List ℕ → Type 0
NotIn i = All (λ j. j ≢ i)

abbrev pub Distinct : List ℕ → Type 0
Distinct [] = Unit
Distinct (i ∷ xs) = NotIn i xs × Distinct xs

-- Where a new node is hung.
pub data Slot : Type 0 where
  on_left on_right : ℕ → Slot
  taken : Slot

abbrev pub slot_below : Slot → Tree → Slot → Slot
slot_below here leaf _ = here
slot_below here (branch _ _ _) below = below

module _ (h : Nodes) (n : ℕ) where
  abbrev pub slot : Tree → Slot
  slot leaf = taken
  slot (branch l i r) = elim (strcmp (name_of h n) (name_of h i)) [
    | Ordering.gt ↦ slot_below (on_right i) r (slot r)
    | Ordering.lt ↦ slot_below (on_left i) l (slot l)
    | Ordering.eq ↦ taken
  ]

  abbrev pub linked : Slot → Outcome Nodes
  linked (on_left p) = success (link_left h p n)
  linked (on_right p) = success (link_right h p n)
  linked taken = error item_exists

  -- The tree with the new node in it.
  abbrev pub insert : Tree → Tree
  insert leaf = branch leaf n leaf
  insert (branch l i r) = elim (strcmp (name_of h n) (name_of h i)) [
    | Ordering.gt ↦ branch l i (insert r)
    | Ordering.lt ↦ branch (insert l) i r
    | Ordering.eq ↦ branch l i r
  ]

  -- What the loop does from a node, if `t` is the tree under it.
  Finds : ℕ → Tree → Type 0
  Finds fuel leaf = Unit
  Finds fuel (branch l i r) = sorted_add_node fuel h i n ≡ linked (slot (branch l i r))

  go_right :
      (fuel i : ℕ) (l r : Tree)
      → strcmp (name_of h n) (name_of h i) ≡ Ordering.gt
      → Rep h r (h i).right
      → Finds fuel r
      → sorted_add_node (suc fuel) h i n ≡ linked (slot (branch l i r))
  unfolding sorted_add_node Finds
  go_right fuel i l leaf o rep ih = rw (o, rep, sorted_add_node, slot)
  go_right fuel i l (branch l' j r') o rep ih = rw (o, rep.0, sorted_add_node, slot) ih

  go_left :
      (fuel i : ℕ) (l r : Tree)
      → strcmp (name_of h n) (name_of h i) ≡ Ordering.lt
      → Rep h l (h i).left
      → Finds fuel l
      → sorted_add_node (suc fuel) h i n ≡ linked (slot (branch l i r))
  unfolding sorted_add_node Finds
  go_left fuel i leaf r o rep ih = rw (o, rep, sorted_add_node, slot)
  go_left fuel i (branch l' j r') r o rep ih = rw (o, rep.0, sorted_add_node, slot) ih

  stay :
      (fuel i : ℕ) (l r : Tree)
      → strcmp (name_of h n) (name_of h i) ≡ Ordering.eq
      → sorted_add_node (suc fuel) h i n ≡ linked (slot (branch l i r))
  unfolding sorted_add_node
  stay fuel i l r o = rw (o, sorted_add_node, slot)

  finds : (fuel : ℕ) (t : Tree) (p : Option ℕ) → height t < suc fuel → Rep h t p → Finds fuel t
  unfolding Finds
  finds fuel leaf p e rep = tt
  finds zero (branch l i r) p e rep = absurd (omega arith)
  finds (suc fuel) (branch l i r) p e rep =
      elim (Ordering-cases (strcmp (name_of h n) (name_of h i))) [
        | inl o ↦ go_left fuel i l r o rep.1 (finds fuel l (h i).left (omega arith) rep.1)
        | inr (inl o) ↦ stay fuel i l r o
        | inr (inr o) ↦ go_right fuel i l r o rep.2 (finds fuel r (h i).right (omega arith) rep.2)
      ]

  -- The loop finds the slot, and links the node there.
  pub sorted_add_node-slot :
      (fuel : ℕ) (l : Tree) (i : ℕ) (r : Tree)
      → height (branch l i r) < suc fuel
      → Rep h (branch l i r) (some i)
      → sorted_add_node fuel h i n ≡ linked (slot (branch l i r))
  unfolding Finds
  sorted_add_node-slot fuel l i r e rep = finds fuel (branch l i r) (some i) e rep
