-- ===== src/HeapTracker/Freeing.antt =====
-- heaptracker.c: __wrap_malloc and __wrap_free as operations on two lists.
use camerahal.Common.{
  ℕ, zero, suc, ◌+◌, ◌≤◌, ◌<◌, ◌≡◌, ◌≢◌, inl, inr, refl, sym, ap, subst, ◌∙◌, true, false, none,
  some, List, [], ◌∷◌, ◌++◌, append-nil, ltb, Bool-cases, ltb→lt, ltb→le, length, length-append,
  take, drop, arith,
}
use camerahal.HeapTracker.{
  Tracker, multiply_freed, allocation_tag, backlog_tag, backlog_max, free_poison, filled, alter,
  add_block, del, del_from_backlog, evict_first, evict, add_to_backlog, one_more,
}
use camerahal.HeapTracker.Calls.{wrap_free}
use camerahal.HeapTracker.Lists.{has, add_block-HoldsBlocks, has-ne}
use camerahal.HeapTracker.Removal.{has-append, next-in, Once-middle}
use camerahal.HeapTracker.Tracking.{
  one_more_lem, Tracks, SamePointers, HoldsBlocks-frame, add_block-elsewhere, add_block-kept,
  live-apart, del-Tracks, del_from_backlog-Tracks,
}

-- add_to_backlog before its loop.
unfoldable pub pushed : Tracker → ℕ → Tracker
pushed t hdr =
    let h = alter t.blocks hdr (λ b. record b { tag = backlog_tag }) in
    let r = add_block h t.backlog hdr in
    record t {
      blocks = alter r.0 hdr (λ b. record b { content = filled free_poison b.size });
      backlog = record r.1 { num = one_more t.backlog.num };
    }

pub pushed-Tracks :
    (t : Tracker) (live backs : List ℕ) (hdr : ℕ)
    → Tracks t live backs
    → has hdr live ≡ false
    → has hdr backs ≡ false
    → length backs ≤ backlog_max
    → Tracks (pushed t hdr) live (hdr ∷ backs)
unfolding pushed
pushed-Tracks t live backs hdr w new new' few =
    let h = alter t.blocks hdr (λ b. record b { tag = backlog_tag }) in
    let r = add_block h t.backlog hdr in
    let g = alter r.0 hdr (λ b. record b { content = filled free_poison b.size }) in
    let marked : (a : ℕ) → SamePointers t.blocks h a = λ a. (ground arith, ground arith) in
    let poisoned : (a : ℕ) → SamePointers r.0 g a = λ a. (ground arith, ground arith) in
    let held = HoldsBlocks-frame t.blocks h t.backlog backs (λ a m. marked a) w.backs_held in
    let k =
      HoldsBlocks-frame r.0 g r.1 (hdr ∷ backs) (λ a m. poisoned a)
        (add_block-HoldsBlocks h t.backlog hdr backs new' held) in
    record {
      live_held =
          HoldsBlocks-frame t.blocks g t.live live
            (λ a m.
              let s = add_block-elsewhere h t.backlog backs held hdr a new' (
                let i = has-ne a hdr live m new in
                let j = live-apart t live backs a w m in ground arith) in
              let p = marked a in let q = poisoned a in (q.0 ∙ s.0 ∙ p.0, q.1 ∙ s.1 ∙ p.1))
            w.live_held;
      live_counted = w.live_counted;
      live_tags = λ a m.
          let s = add_block-kept h t.backlog hdr a in
          let i = has-ne a hdr live m new in let l = w.live_tags a m in ground arith;
      backs_held = record { linked = k.linked; once = k.once };
      backs_counted =
          let c = w.backs_counted in
          let n : one_more t.backlog.num ≡ t.backlog.num + 1 =
            one_more_lem t.backlog.num (omega arith) in
          n ∙ omega arith;
      backs_tags =
          λ a m. let s = add_block-kept h t.backlog hdr a in ground (arith, w.backs_tags a);
    }

-- The last block of a list.
pub snoc :
    (n : ℕ) (xs : List ℕ)
    → length xs ≡ suc n
    → (ys : List ℕ) × (z : ℕ) × (xs ≡ ys ++ z ∷ []) × (take n xs ≡ ys) × (drop n xs ≡ z ∷ [])
snoc n [] e = absurd (omega arith)
snoc zero (x ∷ []) e = ([], x, refl, refl, refl)
snoc zero (x ∷ x' ∷ xs) e = absurd (omega arith)
snoc (suc n) (x ∷ xs) e =
    let (ys, z, a, b, c) = snoc n xs (omega arith) in
    (x ∷ ys, z, ap (λ l. x ∷ l) a, ap (λ l. x ∷ l) b, c)

pub evict-few : (fuel : ℕ) (t : Tracker) → t.backlog.num ≤ backlog_max → evict fuel t ≡ (t, [], [])
unfolding evict
evict-few zero t few = refl
evict-few (suc fuel) t few =
    let e : ltb backlog_max t.backlog.num ≡ false = ground arith in rw e refl

evict-many :
    (fuel : ℕ) (t : Tracker) (gone : ℕ)
    → backlog_max < t.backlog.num
    → t.backlog.first ≡ some gone
    → (del_from_backlog t gone).0.backlog.num ≤ backlog_max
    → ((evict (suc fuel) t).0 ≡ (del_from_backlog t gone).0) × ((evict (suc fuel) t).2 ≡ gone ∷ [])
unfolding evict
evict-many fuel t gone many first few =
    let e : ltb backlog_max t.backlog.num ≡ true = ground arith in
    let r : evict_first (evict fuel) t t.backlog.first ≡ evict_first (evict fuel) t (some gone) =
      ap (evict_first (evict fuel) t) first in
    let next = evict-few fuel (del_from_backlog t gone).0 few in
    (
      rw e (ap (λ x. x.0) r ∙ ap (λ x. x.0) next),
      rw e (ap (λ x. x.2) r ∙ ap (λ x. gone ∷ x.2) next),
    )

take_le : (n : ℕ) (xs : List ℕ) → length xs ≤ n → (take n xs ≡ xs) × (drop n xs ≡ [])
take_le zero [] h = (refl, refl)
take_le zero (x ∷ xs) h = absurd (omega arith)
take_le (suc n) [] h = (refl, refl)
take_le (suc n) (x ∷ xs) h = let e = take_le n xs (omega arith) in (ap (λ l. x ∷ l) e.0, e.1)

-- The loop gives the oldest block back when there is one too many.
evict-Tracks :
    (fuel : ℕ) (t : Tracker) (live xs : List ℕ)
    → Tracks t live xs
    → length xs ≤ suc backlog_max
    → Tracks (evict (suc fuel) t).0 live (take backlog_max xs)
      × ((evict (suc fuel) t).2 ≡ drop backlog_max xs)
evict-Tracks fuel t live xs w few = elim (Bool-cases (ltb backlog_max (length xs))) [
  | inr no_more ↦
      let c = w.backs_counted in
      let under = ltb→le backlog_max (length xs) no_more in
      let e = evict-few (suc fuel) t (omega arith) in
      let all = take_le backlog_max xs (omega arith) in
      (
        subst (λ r. Tracks r.0 live (take backlog_max xs)) (sym e)
            (subst (Tracks t live) (sym all.0) w),
        ap (λ r. r.2) e ∙ sym all.1,
      )
  | inl more ↦
      let c = w.backs_counted in
      let over : backlog_max < length xs = ltb→lt backlog_max (length xs) more in
      let (ys, z, e, front, rest) = snoc backlog_max xs (omega arith) in
      let w' = subst (Tracks t live) e w in
      let nil = append-nil ys in
      let first : t.backlog.first ≡ some z =
        (next-in t.blocks z t.backlog.first [] none t.backlog.last ys w'.backs_held.linked).1 in
      let smaller : Tracks (del_from_backlog t z).0 live ys =
        subst (Tracks (del_from_backlog t z).0 live) nil
          (del_from_backlog-Tracks t live ys z [] w') in
      let n = ap length e ∙ length-append ys (z ∷ []) in
      let few' : (del_from_backlog t z).0.backlog.num ≤ backlog_max =
        let c' = smaller.backs_counted in omega arith in
      let (state, given) = evict-many fuel t z (omega arith) first few' in
      (
        subst (λ r. Tracks r live (take backlog_max xs)) (sym state)
            (subst (Tracks (del_from_backlog t z).0 live) (sym front) smaller),
        given ∙ sym rest,
      )
]

pub del-foreign : (t : Tracker) (x : ℕ) → (t.blocks x).tag ≢ allocation_tag → del t x ≡ (t, false)
unfolding del
del-foreign t x foreign = ground arith

backlog-del : (t : Tracker) (x : ℕ) → (del t x).0.backlog ≡ t.backlog
unfolding del
backlog-del t x = ground arith

pub freed-live :
    (t : Tracker) (x : ℕ)
    → (del t x).1 ≡ true
    → wrap_free t (some x) ≡ evict (suc t.backlog.num) (pushed (del t x).0 x)
unfolding wrap_free add_to_backlog pushed
freed-live t x e =
    let b : (del t x).0.backlog ≡ t.backlog = backlog-del t x in
    let n : (del t x).0.backlog.num + 1 ≡ suc t.backlog.num = ground (arith, b) in
    rw e (ap (λ k. evict k (pushed (del t x).0 x)) n)

-- An allocation that is freed goes from the list to the front of the backlog, of which 50 blocks are kept;
-- the oldest one, if there are more, is given back to the heap.
pub wrap_free-Tracks :
    (t : Tracker) (ys : List ℕ) (x : ℕ) (zs backs : List ℕ)
    → Tracks t (ys ++ x ∷ zs) backs
    → length backs ≤ backlog_max
    → Tracks (wrap_free t (some x)).0 (ys ++ zs) (take backlog_max (x ∷ backs))
      × ((wrap_free t (some x)).2 ≡ drop backlog_max (x ∷ backs))
wrap_free-Tracks t ys x zs backs w few =
    let (allocated, w', tag) = del-Tracks t ys x zs backs w in
    let (i, o, d) = Once-middle ys x zs w.live_held.once in
    let m = has-append x ys zs in
    let out : has x (ys ++ zs) ≡ false = elim (Bool-cases (has x ys)) [
      | inr e ↦ ground arith
      | inl e ↦ let n = d x e in absurd (ground arith)
    ] in
    let old = has-append x ys (x ∷ zs) in
    let apart = live-apart t (ys ++ x ∷ zs) backs x w (ground arith) in
    let p = pushed-Tracks (del t x).0 (ys ++ zs) backs x w' out apart few in
    let r =
      evict-Tracks t.backlog.num (pushed (del t x).0 x) (ys ++ zs) (x ∷ backs) p (omega arith) in
    let e = freed-live t x allocated in
    (
      subst (λ q. Tracks q.0 (ys ++ zs) (take backlog_max (x ∷ backs))) (sym e) r.0,
      ap (λ q. q.2) e ∙ r.1,
    )

-- A block that is in the backlog is reported when it is freed again, and nothing changes.
pub wrap_free-twice :
    (t : Tracker) (live backs : List ℕ) (x : ℕ)
    → Tracks t live backs
    → has x backs ≡ true
    → wrap_free t (some x) ≡ (t, multiply_freed x ∷ [], [])
unfolding wrap_free
wrap_free-twice t live backs x w m =
    let tag = w.backs_tags x m in
    let e = del-foreign t x (λ a. absurd (omega (arith, a))) in rw e (ground arith)
