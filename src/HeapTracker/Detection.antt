-- ===== src/HeapTracker/Detection.antt =====
-- heaptracker.c: a block that is written to after it was freed is reported when it leaves the backlog.
use camerahal.Common.{
  ℕ, suc, ◌≤◌, ◌<◌, ◌≡◌, ap, ◌∙◌, true, false, inl, inr, Bool-cases, none, some, List, [], ◌∷◌,
  ◌++◌, append-nil, ltb, ◌==◌, length, length-append, arith,
}
use camerahal.HeapTracker.{
  Tracker, corrupted, backlog_tag, backlog_max, free_poison, all_are, add_block, del,
  del_from_backlog, evict_first, evict, was_used_after_free, check_allocation,
}
use camerahal.HeapTracker.Calls.{wrap_free}
use camerahal.HeapTracker.Lists.{has, has-ne}
use camerahal.HeapTracker.Removal.{has-append, next-in, Once-middle}
use camerahal.HeapTracker.Tracking.{Tracks, live-apart, del-Tracks, del_from_backlog-Tracks}
use camerahal.HeapTracker.Freeing.{pushed, evict-few, freed-live, pushed-Tracks}

-- The bytes and the tag of another block stay.
content-del :
    (t : Tracker) (x z : ℕ)
    → (((del t x).0.blocks z).content ≡ (t.blocks z).content)
      × (((del t x).0.blocks z).tag ≡ (t.blocks z).tag)
unfolding del
content-del t x z = (ground arith, ground arith)

content-pushed :
    (t : Tracker) (x z : ℕ)
    → (x == z) ≡ false
    → (((pushed t x).blocks z).content ≡ (t.blocks z).content)
      × (((pushed t x).blocks z).tag ≡ (t.blocks z).tag)
unfolding pushed add_block
content-pushed t x z apart = (ground arith, ground arith)

del_from_backlog-reports :
    (t : Tracker) (z : ℕ)
    → (t.blocks z).tag ≡ backlog_tag
    → all_are free_poison (t.blocks z).content ≡ false
    → (del_from_backlog t z).1 ≡ corrupted z ∷ []
unfolding del_from_backlog check_allocation was_used_after_free
del_from_backlog-reports t z tag used = ground arith

evict-reports :
    (fuel : ℕ) (t : Tracker) (z : ℕ)
    → backlog_max < t.backlog.num
    → t.backlog.first ≡ some z
    → (del_from_backlog t z).0.backlog.num ≤ backlog_max
    → (evict (suc fuel) t).1 ≡ (del_from_backlog t z).1
unfolding evict evict_first
evict-reports fuel t z many first few =
    let e : ltb backlog_max t.backlog.num ≡ true = ground arith in
    rw e (
      ap (λ o. (evict_first (evict fuel) t o).1) first
      ∙ ap (λ r. (del_from_backlog t z).1 ++ r.1) (evict-few fuel (del_from_backlog t z).0 few)
      ∙ append-nil (del_from_backlog t z).1)

-- With a full backlog, a block is freed: if a byte of the oldest block in the backlog was overwritten,
-- the tracker reports that block, and nothing else.
pub wrap_free-reports :
    (t : Tracker) (ys : List ℕ) (x : ℕ) (zs bs : List ℕ) (z : ℕ)
    → Tracks t (ys ++ x ∷ zs) (bs ++ z ∷ [])
    → length (bs ++ z ∷ []) ≡ backlog_max
    → all_are free_poison (t.blocks z).content ≡ false
    → (wrap_free t (some x)).1 ≡ corrupted z ∷ []
wrap_free-reports t ys x zs bs z w full used =
    let backs = bs ++ z ∷ [] in
    let (allocated, w', tag) = del-Tracks t ys x zs backs w in
    let (i, o, d) = Once-middle ys x zs w.live_held.once in
    let m = has-append x ys zs in
    let out : has x (ys ++ zs) ≡ false = elim (Bool-cases (has x ys)) [
      | inr e ↦ ground arith
      | inl e ↦ let n = d x e in absurd (ground arith)
    ] in
    let old = has-append x ys (x ∷ zs) in
    let apart = live-apart t (ys ++ x ∷ zs) backs x w (ground arith) in
    let in_backs : has z backs ≡ true = let j = has-append z bs (z ∷ []) in ground arith in
    let differs : (x == z) ≡ false = let n = has-ne z x backs in_backs apart in ground arith in
    let u = pushed (del t x).0 x in
    let p = pushed-Tracks (del t x).0 (ys ++ zs) backs x w' out apart (omega arith) in
    let first : u.backlog.first ≡ some z =
      (next-in u.blocks z u.backlog.first [] none u.backlog.last (x ∷ bs) p.backs_held.linked).1 in
    let smaller = del_from_backlog-Tracks u (ys ++ zs) (x ∷ bs) z [] p in
    let many = p.backs_counted in
    let few = smaller.backs_counted in
    let n = length-append bs (z ∷ []) in
    let n' = length-append (x ∷ bs) [] in
    let c = content-del t x z in
    let c' = content-pushed (del t x).0 x z differs in
    let tags = c'.1 ∙ c.1 ∙ w.backs_tags z in_backs in
    let bytes = ap (all_are free_poison) (c'.0 ∙ c.0) ∙ used in
    ap (λ r. r.1) (freed-live t x allocated)
    ∙ evict-reports t.backlog.num u z (omega arith) first (omega arith)
    ∙ del_from_backlog-reports u z tags bytes
