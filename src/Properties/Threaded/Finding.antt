-- ===== src/Properties/Threaded/Finding.antt =====
-- SMCPropListFindElement on a sorted list, with names compared case-sensitively.
use Prim.Native.Nat.{Ordering}
use mathlib.Core.Path.{subst}
use camerahal.Common.{
  ℕ, zero, suc, ◌<◌, ◌≡◌, ◌≢◌, inl, inr, refl, sym, ap, ◌∙◌, true, Option, none, some, List, [],
  ◌∷◌, ◌++◌, All, All-append, arith, Ordering-cases,
}
use camerahal.Status.{Outcome, success, error, running}
use camerahal.Properties.Strcmp.{strcmp, strcmp_refl, strcmp-eq, strcmp-gt, Before, Before-trans}
use camerahal.Properties.Memory.{Nodes, NodeList, name_of}
use camerahal.Properties.Threaded.{find_node, find_element, find_from}
use camerahal.Properties.Threaded.Shape.{Tree, leaf, branch, in_order, height, Rep}
use camerahal.Properties.Threaded.Sorted.{
  Sorted, Sorted-prefix, Sorted-suffix, Sorted-front, Among, Among-front, Among-behind, All-Among,
}
use camerahal.Properties.Threaded.Shape.{insert}
use camerahal.Properties.Threaded.Sorted.{Sorted-unique}
use camerahal.Properties.Threaded.Adding.{IsThreaded, IsNew, Added, sorted_add-IsThreaded}
use camerahal.Properties.Threaded.{sorted_add}

-- The search ends, at a node of the list with that name, or with none where no node has it.
abbrev pub Found : Nodes → List ℕ → List ℕ → Outcome (Option ℕ) → Type 0
Found h name nodes (success none) = All (λ j. name_of h j ≢ name) nodes
Found h name nodes (success (some i)) = Among i nodes × (name_of h i ≡ name)
Found h name nodes (error _) = ⊥
Found h name nodes running = ⊥

module _ (h : Nodes) (name : List ℕ) where
  -- Names on one side of a node that lies between are other names.
  others_behind :
      (i : ℕ) (xs : List ℕ)
      → strcmp name (name_of h i) ≡ Ordering.lt
      → All (λ j. Before (name_of h i) (name_of h j)) xs
      → All (λ j. name_of h j ≢ name) xs
  others_behind i [] o a = tt
  others_behind i (x ∷ xs) o a = (
    (λ e.
        let b = Before-trans name (name_of h i) (name_of h x) o a.0 in
        let b' : strcmp name name ≡ Ordering.lt = subst (λ q. strcmp name q ≡ Ordering.lt) e b in
        let r = strcmp_refl name in cc),
    others_behind i xs o a.1,
  )

  others_front :
      (i : ℕ) (xs : List ℕ)
      → strcmp name (name_of h i) ≡ Ordering.gt
      → All (λ j. Before (name_of h j) (name_of h i)) xs
      → All (λ j. name_of h j ≢ name) xs
  others_front i [] o a = tt
  others_front i (x ∷ xs) o a = (
    (λ e.
        let b =
          Before-trans (name_of h x) (name_of h i) name a.0 (strcmp-gt name (name_of h i) o) in
        let b' : strcmp name name ≡ Ordering.lt = subst (λ q. strcmp q name ≡ Ordering.lt) e b in
        let r = strcmp_refl name in cc),
    others_front i xs o a.1,
  )

  distinct_name :
      (i : ℕ) (o : Ordering) → strcmp name (name_of h i) ≡ o → o ≢ Ordering.eq → name_of h i ≢ name
  distinct_name i o e ne q = ne (sym e ∙ ap (strcmp name) q ∙ strcmp_refl name)

  widen_right :
      (l : List ℕ) (i : ℕ) (r : List ℕ) (o : Outcome (Option ℕ))
      → strcmp name (name_of h i) ≡ Ordering.gt
      → All (λ j. Before (name_of h j) (name_of h i)) l
      → Found h name r o
      → Found h name (l ++ i ∷ r) o
  widen_right l i r (success none) c b f =
      All-append (λ j. name_of h j ≢ name) l (i ∷ r) (others_front i l c b)
        (distinct_name i Ordering.gt c (λ q. cc), f)
  widen_right l i r (success (some j)) c b f = (Among-behind j l (i ∷ r) (inr f.0), f.1)
  widen_right l i r (error _) c b f = elim f [ ]
  widen_right l i r running c b f = elim f [ ]

  widen_left :
      (l : List ℕ) (i : ℕ) (r : List ℕ) (o : Outcome (Option ℕ))
      → strcmp name (name_of h i) ≡ Ordering.lt
      → All (λ j. Before (name_of h i) (name_of h j)) r
      → Found h name l o
      → Found h name (l ++ i ∷ r) o
  widen_left l i r (success none) c b f =
      All-append (λ j. name_of h j ≢ name) l (i ∷ r) f
        (distinct_name i Ordering.lt c (λ q. cc), others_behind i r c b)
  widen_left l i r (success (some j)) c b f = (Among-front j l (i ∷ r) f.0, f.1)
  widen_left l i r (error _) c b f = elim f [ ]
  widen_left l i r running c b f = elim f [ ]

  pub find_node-Found :
      (fuel : ℕ) (t : Tree) (p : Option ℕ)
      → height t < fuel
      → Rep h t p
      → Sorted (name_of h) (in_order t)
      → Found h name (in_order t) (find_node fuel h p name true)
  unfolding find_node
  find_node-Found zero t p e rep s = absurd (omega arith)
  find_node-Found (suc fuel) leaf p e rep s = rw rep tt
  find_node-Found (suc fuel) (branch l i r) p e rep s =
      let front = in_order l in
      let lower = Sorted-prefix (name_of h) front (i ∷ in_order r) s in
      let upper = Sorted-suffix (name_of h) front (i ∷ in_order r) s in
      elim (Ordering-cases (strcmp name (name_of h i))) [
        | inl o ↦
            rw (rep.0, find_node, o)
              (widen_left front i (in_order r) (find_node fuel h (h i).left name true) o upper.0
                (find_node-Found fuel l (h i).left (omega arith) rep.1 lower))
        | inr (inl o) ↦
            rw (rep.0, find_node, o)
              (
                Among-behind i front (i ∷ in_order r) (inl refl),
                sym (strcmp-eq name (name_of h i) o),
              )
        | inr (inr o) ↦
            rw (rep.0, find_node, o)
              (widen_right front i (in_order r) (find_node fuel h (h i).right name true) o
                (Sorted-front (name_of h) front i (in_order r) s)
                (find_node-Found fuel r (h i).right (omega arith) rep.2 upper.1))
      ]

-- With fuel beyond the height of the tree of a sorted list, a search by a name in its case ends:
-- at a node of the list that has the name, or with NULL, and then no node of the list has it.
pub find_element-Found :
    (fuel : ℕ) (h : Nodes) (list : NodeList) (t : Tree) (name : List ℕ)
    → height t < fuel
    → IsThreaded h list t
    → Found h name (in_order t) (find_element fuel h list name true)
unfolding find_element find_from
find_element-Found fuel h list leaf name e w = rw (w.rep) tt
find_element-Found fuel h list (branch l i r) name e w =
    rw (w.rep.0)
      (find_node-Found h name fuel (branch l i r) (some i) e (refl, w.rep.1, w.rep.2) w.sorted)

the_node :
    (h : Nodes) (list : NodeList) (t : Tree) (n : ℕ) (o : Outcome (Option ℕ))
    → IsThreaded h list t
    → Among n (in_order t)
    → Found h (name_of h n) (in_order t) o
    → o ≡ success (some n)
the_node h list t n (success none) w m f =
    absurd (All-Among (λ j. name_of h j ≢ name_of h n) n (in_order t) f m refl)
the_node h list t n (success (some i)) w m f =
    ap (λ k. success (some k)) (Sorted-unique (name_of h) (in_order t) i n w.sorted f.0 m f.1)
the_node h list t n (error e) w m f = elim f [ ]
the_node h list t n running w m f = elim f [ ]

-- A new node that was put into a sorted list is the one that a search by its name, in its case, finds
-- from then on, with fuel beyond the height of the grown tree.
pub sorted_add-find_element :
    (fuel fuel' : ℕ) (h h' : Nodes) (list list' : NodeList) (t : Tree) (n : ℕ)
    → height t < suc fuel
    → IsThreaded h list t
    → IsNew h t n
    → sorted_add fuel h list n ≡ success (h', list')
    → height (insert h n t) < fuel'
    → find_element fuel' h' list' (name_of h' n) true ≡ success (some n)
sorted_add-find_element fuel fuel' h h' list list' t n e w new run e' =
    let (w', same, m) =
      subst (Added h list t n) run (sorted_add-IsThreaded fuel h list t n e w new) in
    the_node h' list' (insert h n t) n (find_element fuel' h' list' (name_of h' n) true) w' m
      (find_element-Found fuel' h' list' (insert h n t) (name_of h' n) e' w')
