-- ===== src/Properties/Threaded/Adding.antt =====
-- SMCPropListSortedAdd keeps a list what it is: a sorted search tree and the linked list of its nodes.
use mathlib.Core.Path.{subst, fun_ext}
use camerahal.Common.{
  ℕ, suc, ◌<◌, ◌≡◌, ◌≢◌, inl, inr, refl, sym, ap, ◌∙◌, Option, none, some, List, [], ◌∷◌, ◌++◌,
  if◌then◌else◌, false, arith, append_assoc,
}
use camerahal.Status.{Outcome, success, error, running, item_exists}
use camerahal.Properties.Memory.{Nodes, NodeList, name_of}
use camerahal.Properties.Threaded.{
  is_null, link_left, link_right, sorted_add_node, add_to, sorted_add,
}
use camerahal.Properties.Threaded.Shape.{
  Tree, leaf, branch, in_order, height, Rep, head_of, Links, NotIn, Distinct, Slot, on_left,
  on_right, taken, slot, linked, insert, sorted_add_node-slot,
}
use camerahal.Properties.Threaded.Writes.{right-name, left-name, right-previous, left-previous}
use camerahal.Properties.Threaded.Splice.{
  splice_right, splice_left, head-right, last_of, previous_of,
}
use camerahal.Properties.Threaded.Sorted.{
  Sorted, Sorted-insert, Distinct-insert, Among, Among-behind,
}
use camerahal.Properties.Threaded.Insertion.{Splits, branch-Splits}
use camerahal.Properties.Threaded.Growth.{AtSlot, slot-All, linked_at, linked_at-Rep}

-- The list is the tree `t`: its nodes in order are linked from `first` on, none of them twice, in
-- the strict order of their names.
pub record IsThreaded (h : Nodes) (list : NodeList) (t : Tree) : Type 0 where
  pub rep : Rep h t list.root
  pub first : list.first ≡ head_of (in_order t)
  pub links : Links h none (in_order t)
  pub distinct : Distinct (in_order t)
  pub sorted : Sorted (name_of h) (in_order t)

-- A node to add: named, without children, and not in the list.
pub record IsNew (h : Nodes) (t : Tree) (n : ℕ) : Type 0 where
  pub bytes : List ℕ
  pub named : (h n).name ≡ some bytes
  pub bare : ((h n).left ≡ none) × ((h n).right ≡ none)
  pub absent : NotIn n (in_order t)
  pub unlinked : (h n).previous ≡ none
  pub last : (h n).next ≡ none

-- The list with the node among its nodes, and no name changed; or a node with the name is there.
abbrev pub Added : Nodes → NodeList → Tree → ℕ → Outcome (Nodes × NodeList) → Type 0
Added h list t n (success (h', list')) =
    IsThreaded h' list' (insert h n t)
    × ((j : ℕ) → (h' j).name ≡ (h j).name)
    × Among n (in_order (insert h n t))
Added h list t n (error item_exists) = slot h n t ≡ taken
Added h list t n (error _) = ⊥
Added h list t n running = ⊥

-- The list's first pointer after a node is added.
abbrev first_after : Nodes → NodeList → ℕ → NodeList
first_after h' list n = if is_null (h' n).previous then record list { first = some n } else list

-- The last of a list of nodes is a node, unless there is none.
last_of-some : (x : ℕ) (xs : List ℕ) → is_null (last_of (some x) xs) ≡ false
last_of-some x [] = refl
last_of-some x (y ∷ xs) = last_of-some y xs

module _ (h : Nodes) (list : NodeList) (t : Tree) (n : ℕ) (w : IsThreaded h list t)
    (new : IsNew h t n) where
  Sorted-same :
      (h' : Nodes) (xs : List ℕ)
      → ((j : ℕ) → (h' j).name ≡ (h j).name)
      → Sorted (name_of h) xs
      → Sorted (name_of h') xs
  Sorted-same h' xs e s =
      subst (λ f. Sorted f xs) (fun_ext {f = name_of h} {g = name_of h'} (λ j. rw (e j) refl)) s

  Added-right :
      (p : ℕ)
      → p ≢ n
      → Splits h n t (on_right p)
      → Rep (link_right h p n) (insert h n t) list.root
      → Added h list t n (success (link_right h p n, first_after (link_right h p n) list n))
  Added-right p p-n (xs, ys, e, e', lo, hi) rep =
      let h' = link_right h p n in
      let quiet : first_after h' list n ≡ list = ground (arith, right-previous h p n p-n n) in
      let d = subst Distinct e w.distinct in
      let f = subst (NotIn n) e new.absent in
      let s = subst (Sorted (name_of h)) e w.sorted in
      let shift = sym (append_assoc xs (p ∷ []) ys) in
      let shift' = e' ∙ sym (append_assoc xs (p ∷ []) (n ∷ ys)) in
      let linked = splice_right h p n p-n none xs ys d f (subst (Links h none) e w.links) in
      rw quiet (
        record {
          rep = rep;
          first = w.first ∙ ap head_of e ∙ head-right xs p n ys ∙ ap head_of (sym e');
          links = subst (Links h' none) (sym e') linked;
          distinct = subst Distinct (sym shift') (
              Distinct-insert (xs ++ p ∷ []) n ys (subst (NotIn n) shift f)
                (subst Distinct shift d));
          sorted = Sorted-same h' (in_order (insert h n t)) (right-name h p n p-n) (
              subst (Sorted (name_of h)) (sym shift') (
                Sorted-insert (name_of h) (xs ++ p ∷ []) n ys lo hi
                  (subst (Sorted (name_of h)) shift s)));
        },
        right-name h p n p-n,
        subst (Among n) (sym e') (Among-behind n xs (p ∷ n ∷ ys) (inr (inl refl))),
      )

  first_left :
      (p : ℕ)
      → p ≢ n
      → (xs ys : List ℕ) → (h p).previous ≡ last_of none xs
      → list.first ≡ head_of (xs ++ p ∷ ys)
      → (first_after (link_left h p n) list n).first ≡ head_of (xs ++ n ∷ p ∷ ys)
  first_left p p-n [] ys e k = ground (arith, left-previous h p n p-n n)
  first_left p p-n (x ∷ xs) ys e k = ground (arith, left-previous h p n p-n n, last_of-some x xs)

  root_left : (h' : Nodes) → (first_after h' list n).root ≡ list.root
  root_left h' = ground arith

  Added-left :
      (p : ℕ)
      → p ≢ n
      → Splits h n t (on_left p)
      → Rep (link_left h p n) (insert h n t) list.root
      → Added h list t n (success (link_left h p n, first_after (link_left h p n) list n))
  Added-left p p-n (xs, ys, e, e', lo, hi) rep =
      let h' = link_left h p n in
      let d = subst Distinct e w.distinct in
      let f = subst (NotIn n) e new.absent in
      let s = subst (Sorted (name_of h)) e w.sorted in
      let l = subst (Links h none) e w.links in
      (
        record {
          rep = subst (Rep h' (insert h n t)) (sym (root_left h')) rep;
          first =
              first_left p p-n xs ys (previous_of h none xs p ys l) (w.first ∙ ap head_of e)
              ∙ ap head_of (sym e');
          links = subst (Links h' none) (sym e') (splice_left h p n p-n xs ys d f l);
          distinct = subst Distinct (sym e') (Distinct-insert xs n (p ∷ ys) f d);
          sorted = Sorted-same h' (in_order (insert h n t)) (left-name h p n p-n) (
              subst (Sorted (name_of h)) (sym e')
                (Sorted-insert (name_of h) xs n (p ∷ ys) lo hi s));
        },
        left-name h p n p-n,
        subst (Among n) (sym e') (Among-behind n xs (n ∷ p ∷ ys) (inl refl)),
      )

-- What `add_to` does once the loop has found a slot.
abbrev add_at : Nodes → NodeList → ℕ → Slot → Outcome (Nodes × NodeList)
add_at h list n (on_left p) = success (link_left h p n, first_after (link_left h p n) list n)
add_at h list n (on_right p) = success (link_right h p n, first_after (link_right h p n) list n)
add_at h list n taken = error item_exists

module _ (h : Nodes) (list : NodeList) (n : ℕ) (fuel : ℕ) where
  add_to-slot :
      (root : ℕ) (s : Slot)
      → sorted_add_node fuel h root n ≡ linked h n s
      → add_to fuel h list n (some root) ≡ add_at h list n s
  unfolding add_to
  add_to-slot root (on_left p) e = rw (e, add_to)
  add_to-slot root (on_right p) e = rw (e, add_to)
  add_to-slot root taken e = rw (e, add_to)

  Added-at :
      (t : Tree) (s : Slot)
      → IsThreaded h list t
      → IsNew h t n
      → slot h n t ≡ s
      → AtSlot (λ p. p ≢ n) s
      → Splits h n t s
      → Rep (linked_at h n s) (insert h n t) list.root
      → Added h list t n (add_at h list n s)
  Added-at t (on_left p) w new e away split rep = Added-left h list t n w new p away split rep
  Added-at t (on_right p) w new e away split rep = Added-right h list t n w new p away split rep
  Added-at t taken w new e away split rep = e

  add_named :
      (t : Tree)
      → IsNew h t n
      → (root : Option ℕ) → list.root ≡ root
      → sorted_add fuel h list n ≡ add_to fuel h list n root
  unfolding sorted_add
  add_named t new root e = rw (new.named, sorted_add) (ap (add_to fuel h list n) e)

  -- The first node of a list.
  add_first :
      IsThreaded h list leaf → IsNew h leaf n → Added h list leaf n (add_to fuel h list n none)
  unfolding add_to
  add_first w new = (
    record {
      rep = (refl, new.bare.0, new.bare.1);
      first = refl;
      links = (new.unlinked, new.last, tt);
      distinct = (tt, tt);
      sorted = (tt, tt);
    },
    (λ j. refl),
    inl refl,
  )

-- A new node with a name, without links, is put into a list whose tree the fuel covers: the list
-- is then the tree with the node in it, again sorted, with its nodes linked in order both ways
-- from the first one on, and no name is changed; or the call fails because the name is taken. The
-- fuel never runs out.
pub sorted_add-IsThreaded :
    (fuel : ℕ) (h : Nodes) (list : NodeList) (t : Tree) (n : ℕ)
    → height t < suc fuel
    → IsThreaded h list t
    → IsNew h t n
    → Added h list t n (sorted_add fuel h list n)
sorted_add-IsThreaded fuel h list leaf n e w new =
    subst (Added h list leaf n) (sym (add_named h list n fuel leaf new none w.rep))
      (add_first h list n fuel w new)
sorted_add-IsThreaded fuel h list (branch l i r) n e w new =
    let t = branch l i r in
    let s = slot h n t in
    let found = sorted_add_node-slot h n fuel l i r e (refl, w.rep.1, w.rep.2) in
    let run =
      add_named h list n fuel t new (some i) w.rep.0 ∙ add_to-slot h list n fuel i s found in
    subst (Added h list t n) (sym run) (
      Added-at h list n fuel t s w new refl (slot-All h n (λ p. p ≢ n) t new.absent)
        (branch-Splits h n l i r w.sorted)
        (linked_at-Rep h n new.bare l i r w.distinct new.absent list.root w.rep))
