-- ===== src/HeapTracker/Removal.antt =====
-- heaptracker.c: __del takes a block out of a chain.
use camerahal.Common.{
  ℕ, ◌≡◌, inl, inr, refl, sym, ap, subst, ◌∙◌, true, false, ◌||◌, Option, none, some, List, [], ◌∷◌,
  ◌++◌, ◌==◌, Bool-cases, arith,
}
use camerahal.HeapTracker.{Blocks, Chain, if_null, del_block}
use camerahal.HeapTracker.Lists.{
  has, points_to, Once, Links, HoldsBlocks, Links-frame, del_block-next, del_block-prev, has-ne,
}

pub has-append : (a : ℕ) (xs ys : List ℕ) → has a (xs ++ ys) ≡ (has a xs || has a ys)
has-append a [] ys = refl
has-append a (x ∷ xs) ys = ground (arith, has-append a xs ys)

pub Once-remove : (ys : List ℕ) (x : ℕ) (zs : List ℕ) → Once (ys ++ x ∷ zs) → Once (ys ++ zs)
Once-remove [] x zs (out, once) = once
Once-remove (y ∷ ys) x zs (out, once) =
    (ground (arith, has-append y ys (x ∷ zs), has-append y ys zs), Once-remove ys x zs once)

-- Once in the whole list, so in one part only.
pub Once-middle :
    (ys : List ℕ) (x : ℕ) (zs : List ℕ)
    → Once (ys ++ x ∷ zs)
    → (has x zs ≡ false) × Once zs × ((a : ℕ) → has a ys ≡ true → has a (x ∷ zs) ≡ false)
Once-middle [] x zs (out, once) = (out, once, λ a m. cc)
Once-middle (y ∷ ys) x zs (out, once) =
    let (i, o, d) = Once-middle ys x zs once in
    let e = has-append y ys (x ∷ zs) in
    (
      i,
      o,
      λ a m. elim (Bool-cases (a == y)) [
        | inl s ↦ let t : a ≡ y = ground arith in rw t (ground (arith, e))
        | inr s ↦ d a (ground arith)
      ],
    )

-- The block before x is the last one of `ys`, the one behind is the first one of `zs`.
module _ (h : Blocks) (x : ℕ) (end : Option ℕ) (zs : List ℕ) where
  pub prev-in :
      (b q : Option ℕ) (y : ℕ) (ys : List ℕ)
      → Links h b q end ((y ∷ ys) ++ x ∷ zs)
      → (a : ℕ) × ((h x).prev ≡ some a) × (has a (y ∷ ys) ≡ true)
  prev-in b q y [] (at, back, (at', back', rest)) = (y, back', ground arith)
  prev-in b q y (y' ∷ ys) (at, back, rest) =
      let (a, e, m) = prev-in (some y) (h y).next y' ys rest in (a, e, ground arith)

  pub next-in :
      (b q : Option ℕ) (ys : List ℕ)
      → Links h b q end (ys ++ x ∷ zs)
      → Links h (some x) (h x).next end zs
  next-in b q [] (at, back, rest) = rest
  next-in b q (y ∷ ys) (at, back, rest) = next-in (some y) (h y).next ys rest

pub head-in :
    (h : Blocks) (b q end : Option ℕ) (zs : List ℕ)
    → Links h b q end zs
    → (a : ℕ) → points_to q a ≡ true
    → has a zs ≡ true
head-in h b q end [] (at, stop) a e =
    let t : points_to none a ≡ true = ap (λ r. points_to r a) (sym at) ∙ e in cc
head-in h b q end (z ∷ zs) (at, back, rest) a e =
    let t : points_to (some z) a ≡ true = ap (λ r. points_to r a) (sym at) ∙ e in ground arith

module _ (h : Blocks) (chain : Chain) (x : ℕ) where
  abbrev after : Blocks
  after = (del_block h chain x).0

  -- The blocks behind x.
  behind :
      (end : Option ℕ) (zs : List ℕ)
      → Links h (some x) (h x).next end zs
      → Once zs
      → ((a : ℕ) → has a zs ≡ true → points_to (h x).prev a ≡ false)
      → Links after (h x).prev (h x).next (if_null (h x).next end (h x).prev) zs
  unfolding if_null
  behind end [] (at, stop) once apart = (at, ap (λ n. if_null n end (h x).prev) at)
  behind end (z ∷ zs) (at, back, rest) once apart =
      let stays : Links after (some z) (h z).next end zs =
        Links-frame h after (some z) (h z).next end zs
          (λ a m.
            let n = del_block-next h chain x a in
            let p = del_block-prev h chain x a in
            let i = apart a (ground arith) in
            let j : points_to (h x).next a ≡ false =
              ap (λ q. points_to q a) at ∙ ground (arith, has-ne a z zs m once.0) in
            (ground arith, ground arith))
          rest in
      let n = del_block-next h chain x z in
      let p = del_block-prev h chain x z in
      let i = apart z (ground arith) in
      let j : points_to (h x).next z ≡ true = ap (λ q. points_to q z) at ∙ ground arith in
      (
        at,
        ground arith,
        subst (λ q. Links after (some z) q (if_null (h x).next end (h x).prev) zs)
            (let n' = n in ground arith)
            (subst (λ e. Links after (some z) (h z).next e zs)
              (sym (ap (λ q. if_null q end (h x).prev) at)) stays),
      )

  -- Where the list goes on at `ys`.
  abbrev entry : List ℕ → Option ℕ → Option ℕ
  entry [] q = (h x).next
  entry (y ∷ ys) q = q

  -- The blocks before x.
  ahead :
      (b q end : Option ℕ) (ys zs : List ℕ)
      → Links h b q end (ys ++ x ∷ zs)
      → Once (ys ++ x ∷ zs)
      → ((a : ℕ) → has a zs ≡ true → points_to (h x).prev a ≡ false)
      → Links after b (entry ys q) (if_null (h x).next end (h x).prev) (ys ++ zs)
  ahead b q end [] zs (at, back, rest) once apart =
      subst (λ c. Links after c (h x).next (if_null (h x).next end (h x).prev) zs) back
        (behind end zs rest once.1 apart)
  ahead b q end (y ∷ ys) zs (at, back, rest) once apart =
      let ih = ahead (some y) (h y).next end ys zs rest once.1 apart in
      let p = del_block-prev h chain x y in
      let m = has-append y ys (x ∷ zs) in
      let unlinked : points_to (h x).next y ≡ false = elim (Bool-cases (points_to (h x).next y)) [
        | inr e ↦ e
        | inl e ↦
            let i =
              head-in h (some x) (h x).next end zs (next-in h x end zs (some y) (h y).next ys rest)
                y e in
            ground arith
      ] in
      (
        at,
        let p' = p in ground arith,
        subst (λ r. Links after (some y) r (if_null (h x).next end (h x).prev) (ys ++ zs))
            (sym (goes_on ys rest once)) ih,
      )
    where
      goes_on :
          (ys : List ℕ)
          → Links h (some y) (h y).next end (ys ++ x ∷ zs)
          → Once (y ∷ ys ++ x ∷ zs)
          → (after y).next ≡ entry ys (h y).next
      goes_on [] (at', back', rest') once' =
          let n = del_block-next h chain x y in
          let e : points_to (h x).prev y ≡ true = ap (λ q. points_to q y) back' ∙ ground arith in
          ground arith
      goes_on (y' ∷ ys') l once' =
          let n = del_block-next h chain x y in
          let (a, e, m) = prev-in h x end zs (some y) (h y).next y' ys' l in
          let t = has-append y (y' ∷ ys') (x ∷ zs) in
          let u : (a == y) ≡ false = has-ne a y (y' ∷ ys') m (ground arith) in
          let v : points_to (h x).prev y ≡ false = ap (λ q. points_to q y) e ∙ u in ground arith

-- The pointer to the block before, for the first block of the chain and for another.
last_of :
    (h : Blocks) (chain : Chain) (x : ℕ)
    → ((del_block h chain x).1.last ≡ if_null (h x).prev chain.last (h x).next)
      × ((del_block h chain x).1.first ≡ if_null (h x).next chain.first (h x).prev)
unfolding del_block
last_of h chain x = (refl, refl)

removed-Links :
    (h : Blocks) (chain : Chain) (ys : List ℕ) (x : ℕ) (zs : List ℕ)
    → Links h none chain.last chain.first (ys ++ x ∷ zs)
    → Once (ys ++ x ∷ zs)
    → Links
        (del_block h chain x).0
        none
        (del_block h chain x).1.last
        (del_block h chain x).1.first
        (ys ++ zs)
unfolding if_null
removed-Links h chain [] x zs l once =
    let (first, second) = last_of h chain x in
    let empty = l.1 in
    let last : (del_block h chain x).1.last ≡ (h x).next =
      first ∙ ap (λ p. if_null p chain.last (h x).next) empty in
    let apart = λ (a : ℕ) (m : has a zs ≡ true). ap (λ p. points_to p a) empty in
    subst (λ f. Links (after h chain x) none (del_block h chain x).1.last f zs) (sym second)
      (subst (λ q. Links (after h chain x) none q (if_null (h x).next chain.first (h x).prev) zs)
        (sym last) (ahead h chain x none chain.last chain.first [] zs l once apart))
removed-Links h chain (y ∷ ys) x zs l once =
    let (first, second) = last_of h chain x in
    let (a, e, m) = prev-in h x chain.first zs none chain.last y ys l in
    let (i, o, d) = Once-middle (y ∷ ys) x zs once in
    let last : (del_block h chain x).1.last ≡ chain.last =
      first ∙ ap (λ p. if_null p chain.last (h x).next) e in
    let apart = λ (c : ℕ) (n : has c zs ≡ true).
      let u : (c == a) ≡ false = has-ne c a zs n (let v = d a m in ground arith) in
      let w : points_to (some a) c ≡ false = ground arith in ap (λ p. points_to p c) e ∙ w in
    subst (λ f. Links (after h chain x) none (del_block h chain x).1.last f ((y ∷ ys) ++ zs))
      (sym second)
      (subst
        (λ q.
          Links (after h chain x) none q (if_null (h x).next chain.first (h x).prev)
            ((y ∷ ys) ++ zs))
        (sym last) (ahead h chain x none chain.last chain.first (y ∷ ys) zs l once apart))

-- __del takes a block out of the chain, wherever it stands.
pub del_block-HoldsBlocks :
    (h : Blocks) (chain : Chain) (ys : List ℕ) (x : ℕ) (zs : List ℕ)
    → HoldsBlocks h chain (ys ++ x ∷ zs)
    → HoldsBlocks (del_block h chain x).0 (del_block h chain x).1 (ys ++ zs)
del_block-HoldsBlocks h chain ys x zs w = record {
  linked = removed-Links h chain ys x zs w.linked w.once;
  once = Once-remove ys x zs w.once;
}

-- Blocks outside the chain keep their pointers.
pub del_block-elsewhere :
    (h : Blocks) (chain : Chain) (ys : List ℕ) (x : ℕ) (zs : List ℕ) (a : ℕ)
    → HoldsBlocks h chain (ys ++ x ∷ zs)
    → has a (ys ++ x ∷ zs) ≡ false
    → (((del_block h chain x).0 a).prev ≡ (h a).prev)
      × (((del_block h chain x).0 a).next ≡ (h a).next)
del_block-elsewhere h chain ys x zs a w out =
    let m = has-append a ys (x ∷ zs) in
    let behind : points_to (h x).next a ≡ false = elim (Bool-cases (points_to (h x).next a)) [
      | inr e ↦ e
      | inl e ↦
          let i =
            head-in h (some x) (h x).next chain.first zs
              (next-in h x chain.first zs none chain.last ys w.linked) a e in
          ground arith
    ] in
    let before : points_to (h x).prev a ≡ false = not_before ys w.linked (ground arith) in
    let n = del_block-next h chain x a in
    let p = del_block-prev h chain x a in (ground arith, ground arith)
  where
    not_before :
        (ys : List ℕ)
        → Links h none chain.last chain.first (ys ++ x ∷ zs)
        → has a ys ≡ false
        → points_to (h x).prev a ≡ false
    not_before [] l o = ap (λ q. points_to q a) l.1
    not_before (y ∷ ys') l o =
        let (b, e, m) = prev-in h x chain.first zs none chain.last y ys' l in
        let u : (b == a) ≡ false = has-ne b a (y ∷ ys') m o in ap (λ q. points_to q a) e ∙ u
