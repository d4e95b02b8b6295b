-- ===== src/HeapTracker/Ledger/Moving.antt =====
-- heaptracker.c: what one call does to the tracker and to the ledger.
use camerahal.Common.{
  ℕ, ◌≡◌, ◌≢◌, inl, inr, refl, sym, ap, subst, ◌∙◌, true, false, none, some, List, [], ◌∷◌, ◌++◌,
  ◌==◌, Bool-cases, length, length-take, take, arith,
}
use camerahal.HeapTracker.{
  del_from_backlog, Tracker, Report, allocation_tag, backlog_tag, backlog_max, del,
}
use camerahal.HeapTracker.Calls.{moved_block, wrap_realloc, Answer, wrap_malloc, wrap_free}
use camerahal.HeapTracker.Lists.{has}
use camerahal.HeapTracker.Tracking.{
  del-Tracks, del_from_backlog-Tracks, length-remove, Tracks, SamePointers, HoldsBlocks-frame,
  add-Tracks,
}
use camerahal.HeapTracker.Freeing.{wrap_free-Tracks, wrap_free-twice, del-foreign}
use camerahal.HeapTracker.Ledger.{
  written, call, Ledger, without, entered, released, book, IsNewBlock, IsNewAnswer, Keeps, frees,
  reallocs,
}

split :
    (a : ℕ) (xs : List ℕ)
    → has a xs ≡ true
    → (ys : List ℕ) × (zs : List ℕ) × (xs ≡ ys ++ a ∷ zs) × (without a xs ≡ ys ++ zs)
split a [] m = cc
split a (x ∷ xs) m = elim (Bool-cases (a == x)) [
  | inl e ↦ let s : a ≡ x = ground arith in ([], xs, ap (λ b. b ∷ xs) (sym s), rw e refl)
  | inr e ↦
      let (ys, zs, p, q) = split a xs (ground arith) in
      (x ∷ ys, zs, ap (λ l. x ∷ l) p, rw e (ap (λ l. x ∷ l) q))
]

pub written-Tracks :
    (t : Tracker) (live backs : List ℕ) (hdr : ℕ) (front content rear : List ℕ)
    → Tracks t live backs
    → Tracks (written t hdr front content rear) live backs
written-Tracks t live backs hdr front content rear w =
    let g = (written t hdr front content rear).blocks in
    let same : (a : ℕ) → SamePointers t.blocks g a = λ a. (ground arith, ground arith) in
    record {
      live_held = HoldsBlocks-frame t.blocks g t.live live (λ a m. same a) w.live_held;
      live_counted = w.live_counted;
      live_tags = λ a m. let l = w.live_tags a m in ground arith;
      backs_held = HoldsBlocks-frame t.blocks g t.backlog backs (λ a m. same a) w.backs_held;
      backs_counted = w.backs_counted;
      backs_tags = λ a m. let l = w.backs_tags a m in ground arith;
    }

wrap_free-foreign :
    (t : Tracker) (hdr : ℕ)
    → (t.blocks hdr).tag ≢ allocation_tag
    → ((wrap_free t (some hdr)).0 ≡ t) × ((wrap_free t (some hdr)).2 ≡ [])
unfolding wrap_free
wrap_free-foreign t hdr foreign =
    let e = del-foreign t hdr foreign in rw e (ground arith, ground arith)

-- What one call does to both.
unfoldable pub Steps : Tracker × List ℕ → Ledger × List ℕ → Type 0
Steps r s = Keeps r.0 s.0 × (r.1 ≡ s.1)

pub free-Steps :
    (t : Tracker) (l : Ledger) (hdr : ℕ)
    → Keeps t l
    → (IsNewBlock l hdr → (t.blocks hdr).tag ≢ allocation_tag)
    → Steps (call t (frees (some hdr))) (book l (frees (some hdr)))
unfolding Steps
free-Steps t l hdr (w, few) allowed = elim (Bool-cases (has hdr l.live)) [
  | inl m ↦
      let (ys, zs, e, e') = split hdr l.live m in
      let (w', given) =
        wrap_free-Tracks t ys hdr zs l.backs (subst (λ xs. Tracks t xs l.backs) e w) few in
      rw m (
        (
          subst (λ xs. Tracks (wrap_free t (some hdr)).0 xs (take backlog_max (hdr ∷ l.backs)))
              (sym e') w',
          omega (arith, length-take backlog_max (hdr ∷ l.backs)),
        ),
        given,
      )
  | inr n ↦ elim (Bool-cases (has hdr l.backs)) [
    | inl m ↦
        let e = wrap_free-twice t l.live l.backs hdr w m in
        rw n ((subst (λ r. Tracks r.0 l.live l.backs) (sym e) w, few), ap (λ r. r.2) e)
    | inr m ↦
        let e = wrap_free-foreign t hdr (allowed (n, m)) in
        rw n ((subst (λ r. Tracks r l.live l.backs) (sym e.0) w, few), e.1)
  ]
]

pub moved_block-Steps :
    (t : Tracker) (l : Ledger) (reports : List Report) (size : ℕ) (answer : Answer)
    → Keeps t l
    → IsNewAnswer l answer
    → Keeps (moved_block t reports size answer).0 (entered l answer)
      × ((moved_block t reports size answer).2 ≡ [])
unfolding moved_block
moved_block-Steps t l reports size none k a = (k, refl)
moved_block-Steps t l reports size (some (hdr, content)) (w, few) ((new, new'), room) =
    ((add-Tracks t l.live l.backs hdr size content w new new' room, few), refl)

pub malloc-Steps :
    (t : Tracker) (l : Ledger) (size : ℕ) (answer : Answer)
    → Keeps t l
    → IsNewAnswer l answer
    → Keeps (wrap_malloc t size answer).0 (entered l answer)
unfolding wrap_malloc
malloc-Steps t l size none k a = k
malloc-Steps t l size (some (hdr, content)) (w, few) ((new, new'), room) =
    (add-Tracks t l.live l.backs hdr size content w new new' room, few)

-- The tracker and the ledger without the block that is moved.
del-released :
    (t : Tracker) (l : Ledger) (hdr : ℕ)
    → Keeps t l
    → has hdr l.live ≡ true
    → ((del t hdr).1 ≡ true) × Keeps (del t hdr).0 (released l hdr)
del-released t l hdr (w, few) m =
    let (ys, zs, e, e') = split hdr l.live m in
    let (allocated, w', tag) =
      del-Tracks t ys hdr zs l.backs (subst (λ xs. Tracks t xs l.backs) e w) in
    rw m (allocated, (subst (λ xs. Tracks (del t hdr).0 xs l.backs) (sym e') w', few))

backlog-released :
    (t : Tracker) (l : Ledger) (hdr : ℕ)
    → Keeps t l
    → has hdr l.live ≡ false
    → has hdr l.backs ≡ true
    → Keeps (del_from_backlog t hdr).0 (released l hdr)
backlog-released t l hdr (w, few) n m =
    let (ys, zs, e, e') = split hdr l.backs m in
    let w' = del_from_backlog-Tracks t l.live ys hdr zs (subst (Tracks t l.live) e w) in
    let shorter = ap length e ∙ length-remove ys hdr zs in
    rw n (subst (Tracks (del_from_backlog t hdr).0 l.live) (sym e') w', omega (arith, ap length e'))

released-live :
    (l : Ledger) (hdr : ℕ)
    → has hdr l.live ≡ true
    → released l hdr ≡ record l { live = without hdr l.live }
released-live l hdr m = rw m refl

released-backs :
    (l : Ledger) (hdr : ℕ)
    → has hdr l.live ≡ false
    → released l hdr ≡ record l { backs = without hdr l.backs }
released-backs l hdr n = rw n refl

pub realloc-Steps :
    (t : Tracker) (l : Ledger) (hdr size : ℕ) (answer : Answer)
    → (size == 0) ≡ false
    → Keeps t l
    → IsNewAnswer (released l hdr) answer
    → (IsNewBlock l hdr
        → ((t.blocks hdr).tag ≢ allocation_tag) × ((t.blocks hdr).tag ≢ backlog_tag))
    → Steps (call t (reallocs (some hdr) size answer)) (book l (reallocs (some hdr) size answer))
unfolding Steps wrap_realloc
realloc-Steps t l hdr size answer some_size k new foreign = elim (Bool-cases (has hdr l.live)) [
  | inl m ↦
      let (allocated, k') = del-released t l hdr k m in
      let same = released-live l hdr m in
      let k'' = subst (Keeps (del t hdr).0) same k' in
      let new' = subst (λ q. IsNewAnswer q answer) same new in
      rw (some_size, allocated, m)
        (moved_block-Steps (del t hdr).0 (record l { live = without hdr l.live }) [] size answer k''
          new')
  | inr n ↦ elim (Bool-cases (has hdr l.backs)) [
    | inl m ↦
        let tag = k.0.backs_tags hdr m in
        let e = del-foreign t hdr (λ a. absurd (omega (arith, a))) in
        let is_back : ((t.blocks hdr).tag == backlog_tag) ≡ true = ground arith in
        let k' = backlog-released t l hdr k n m in
        let back = (del_from_backlog t hdr).0 in
        let same = released-backs l hdr n in
        let k'' = subst (Keeps back) same k' in
        let new' = subst (λ q. IsNewAnswer q answer) same new in
        rw (some_size, e, is_back, n, m)
          (moved_block-Steps back (record l { backs = without hdr l.backs }) _ size answer k'' new')
    | inr m ↦
        let (other, other') = foreign (n, m) in
        let e = del-foreign t hdr other in
        let is_none : ((t.blocks hdr).tag == backlog_tag) ≡ false = ground arith in
        rw (some_size, e, is_none, n, m) (k, refl)
  ]
]
