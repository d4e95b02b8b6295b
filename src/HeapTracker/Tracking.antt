-- ===== src/HeapTracker/Tracking.antt =====
-- heaptracker.c: what malloc and free do to the list of allocations and to the backlog.
use camerahal.Common.{
  ℕ, zero, ◌+◌, ◌-◌, ◌<◌, ◌≡◌, inl, inr, refl, ◌∙◌, true, false, none, List, [], ◌∷◌, ◌++◌, ◌==◌,
  Bool-cases, length, arith,
}
use camerahal.HeapTracker.{
  Blocks, Chain, Tracker, allocation_tag, backlog_tag, front_guard, rear_guard, guard_len, filled,
  alter, add_block, del_block, add, del, del_from_backlog, one_more, one_less, word,
}
use camerahal.HeapTracker.Lists.{
  has, points_to, HoldsBlocks, Links-frame, add_block-next, add_block-prev, add_block-HoldsBlocks,
  has-ne,
}
use camerahal.HeapTracker.Removal.{
  has-append, head-in, Once-middle, del_block-HoldsBlocks, del_block-elsewhere,
}

-- The tracker holds the allocations `live` and the backlog `backs`, the newest block first.
pub record Tracks (t : Tracker) (live backs : List ℕ) : Type 0 where
  pub live_held : HoldsBlocks t.blocks t.live live
  pub live_counted : t.live.num ≡ length live
  pub live_tags : (a : ℕ) → has a live ≡ true → (t.blocks a).tag ≡ allocation_tag
  pub backs_held : HoldsBlocks t.blocks t.backlog backs
  pub backs_counted : t.backlog.num ≡ length backs
  pub backs_tags : (a : ℕ) → has a backs ≡ true → (t.blocks a).tag ≡ backlog_tag

-- The pointers of a block are the same.
abbrev pub SamePointers : Blocks → Blocks → ℕ → Type 0
SamePointers h g a = ((g a).prev ≡ (h a).prev) × ((g a).next ≡ (h a).next)

pub HoldsBlocks-frame :
    (h g : Blocks) (chain : Chain) (xs : List ℕ)
    → ((a : ℕ) → has a xs ≡ true → SamePointers h g a)
    → HoldsBlocks h chain xs
    → HoldsBlocks g chain xs
HoldsBlocks-frame h g chain xs same w = record {
  linked = Links-frame h g none chain.last chain.first xs same w.linked;
  once = w.once;
}

-- Blocks outside the chain keep their pointers.
module _ (h : Blocks) (chain : Chain) (xs : List ℕ) (w : HoldsBlocks h chain xs) (hdr a : ℕ) where
  pub add_block-elsewhere :
      has hdr xs ≡ false → has a (hdr ∷ xs) ≡ false → SamePointers h (add_block h chain hdr).0 a
  add_block-elsewhere out apart =
      let last : points_to chain.last hdr ≡ false = not_last hdr out in
      let l : points_to chain.last a ≡ false = not_last a (ground arith) in
      let n = add_block-next h chain hdr a last in
      let p = add_block-prev h chain hdr a last in (ground arith, ground arith)
    where
      not_last : (b : ℕ) → has b xs ≡ false → points_to chain.last b ≡ false
      not_last b o = elim (Bool-cases (points_to chain.last b)) [
        | inr e ↦ e
        | inl e ↦ let i = head-in h none chain.last chain.first xs w.linked b e in cc
      ]

-- What neither __add nor __del changes.
pub add_block-kept :
    (h : Blocks) (chain : Chain) (hdr a : ℕ)
    → (((add_block h chain hdr).0 a).tag ≡ (h a).tag)
      × (((add_block h chain hdr).0 a).size ≡ (h a).size)
unfolding add_block
add_block-kept h chain hdr a = (ground arith, ground arith)

pub del_block-kept :
    (h : Blocks) (chain : Chain) (hdr a : ℕ)
    → (((del_block h chain hdr).0 a).tag ≡ (h a).tag)
      × (((del_block h chain hdr).0 a).size ≡ (h a).size)
unfolding del_block
del_block-kept h chain hdr a = (ground arith, ground arith)

-- A block is in one of the two lists only.
pub live-apart :
    (t : Tracker) (live backs : List ℕ) (a : ℕ)
    → Tracks t live backs
    → has a live ≡ true
    → has a backs ≡ false
live-apart t live backs a w m = elim (Bool-cases (has a backs)) [
  | inr e ↦ e
  | inl e ↦ absurd (omega (arith, w.live_tags a m, w.backs_tags a e))
]

pub backs-apart :
    (t : Tracker) (live backs : List ℕ) (a : ℕ)
    → Tracks t live backs
    → has a backs ≡ true
    → has a live ≡ false
backs-apart t live backs a w m = elim (Bool-cases (has a live)) [
  | inr e ↦ e
  | inl e ↦ absurd (omega (arith, w.backs_tags a m, w.live_tags a e))
]

pub one_more_lem : (n : ℕ) → n < word - 1 → one_more n ≡ n + 1
one_more_lem n few = let e : (n == word - 1) ≡ false = ground arith in rw e refl

one_less_lem : (n : ℕ) → zero < n → one_less n ≡ n - 1
one_less_lem n some_left = let e : (n == 0) ≡ false = ground arith in rw e refl

-- A new block goes to the front of the allocations.
pub add-Tracks :
    (t : Tracker) (live backs : List ℕ) (hdr size : ℕ) (content : List ℕ)
    → Tracks t live backs
    → has hdr live ≡ false
    → has hdr backs ≡ false
    → length live < word - 1
    → Tracks (add t hdr size content) (hdr ∷ live) backs
unfolding add
add-Tracks t live backs hdr size content w new new' few =
    let h = alter t.blocks hdr (λ b. record b {
      tag = allocation_tag;
      size = size;
      front = filled front_guard guard_len;
      content = content;
      rear = filled rear_guard guard_len;
    }) in
    let pointers : (a : ℕ) → SamePointers t.blocks h a = λ a. (ground arith, ground arith) in
    let held = HoldsBlocks-frame t.blocks h t.live live (λ a m. pointers a) w.live_held in
    record {
      live_held =
          let k = add_block-HoldsBlocks h t.live hdr live new held in
          record { linked = k.linked; once = k.once };
      live_counted =
          let c = w.live_counted in
          let n : one_more t.live.num ≡ t.live.num + 1 = one_more_lem t.live.num (omega arith) in
          n ∙ omega arith;
      live_tags = λ a m. let k = add_block-kept h t.live hdr a in ground (arith, w.live_tags a);
      backs_held =
          HoldsBlocks-frame t.blocks (add_block h t.live hdr).0 t.backlog backs
            (λ a m.
              let s = add_block-elsewhere h t.live live held hdr a new (
                let i = has-ne a hdr backs m new' in
                let j = backs-apart t live backs a w m in ground arith) in
              let p = pointers a in (s.0 ∙ p.0, s.1 ∙ p.1))
            w.backs_held;
      backs_counted = w.backs_counted;
      backs_tags = λ a m.
          let k = add_block-kept h t.live hdr a in
          let i = has-ne a hdr backs m new' in ground (arith, w.backs_tags a m);
    }

pub length-remove :
    (ys : List ℕ) (x : ℕ) (zs : List ℕ) → length (ys ++ x ∷ zs) ≡ length (ys ++ zs) + 1
length-remove [] x zs = omega arith
length-remove (y ∷ ys) x zs = omega (arith, length-remove ys x zs)

-- del takes an allocation out of the list.
pub del-Tracks :
    (t : Tracker) (ys : List ℕ) (x : ℕ) (zs backs : List ℕ)
    → Tracks t (ys ++ x ∷ zs) backs
    → ((del t x).1 ≡ true)
      × Tracks (del t x).0 (ys ++ zs) backs
      × (((del t x).0.blocks x).tag ≡ allocation_tag)
unfolding del
del-Tracks t ys x zs backs w =
    let mid = has-append x ys (x ∷ zs) in
    let tag = w.live_tags x (ground arith) in
    let e : ((t.blocks x).tag == allocation_tag) ≡ true = ground arith in
    let k = del_block-HoldsBlocks t.blocks t.live ys x zs w.live_held in
    let len = length-remove ys x zs in
    (
      rw e refl,
      rw e (record {
        live_held = record { linked = k.linked; once = k.once };
        live_counted =
            let c = w.live_counted in
            let n : one_less t.live.num ≡ t.live.num - 1 = one_less_lem t.live.num (omega arith) in
            n ∙ omega arith;
        live_tags = λ a m.
            let s = del_block-kept t.blocks t.live x a in
            let i = has-append a ys zs in
            let j = has-append a ys (x ∷ zs) in s.0 ∙ w.live_tags a (ground arith);
        backs_held =
            HoldsBlocks-frame t.blocks (del_block t.blocks t.live x).0 t.backlog backs
              (λ a m.
                del_block-elsewhere t.blocks t.live ys x zs a w.live_held
                  (backs-apart t (ys ++ x ∷ zs) backs a w m))
              w.backs_held;
        backs_counted = w.backs_counted;
        backs_tags = λ a m. (del_block-kept t.blocks t.live x a).0 ∙ w.backs_tags a m;
      }),
      rw e ((del_block-kept t.blocks t.live x x).0 ∙ tag),
    )

-- __del_from_backlog takes a block out of the backlog.
pub del_from_backlog-Tracks :
    (t : Tracker) (live ys : List ℕ) (x : ℕ) (zs : List ℕ)
    → Tracks t live (ys ++ x ∷ zs)
    → Tracks (del_from_backlog t x).0 live (ys ++ zs)
unfolding del_from_backlog
del_from_backlog-Tracks t live ys x zs w =
    let mid = has-append x ys (x ∷ zs) in
    let h = (del_block t.blocks t.backlog x).0 in
    let g = alter h x (λ b. record b { tag = 0 }) in
    let pointers : (a : ℕ) → SamePointers h g a = λ a. (ground arith, ground arith) in
    let k = del_block-HoldsBlocks t.blocks t.backlog ys x zs w.backs_held in
    let k' =
      HoldsBlocks-frame h g (del_block t.blocks t.backlog x).1 (ys ++ zs) (λ a m. pointers a) k in
    let len = length-remove ys x zs in
    let (i, o, d) = Once-middle ys x zs w.backs_held.once in
    record {
      live_held =
          HoldsBlocks-frame t.blocks g t.live live
            (λ a m.
              let s =
                del_block-elsewhere t.blocks t.backlog ys x zs a w.backs_held
                  (live-apart t live (ys ++ x ∷ zs) a w m) in
              let p = pointers a in (p.0 ∙ s.0, p.1 ∙ s.1))
            w.live_held;
      live_counted = w.live_counted;
      live_tags = λ a m.
          let s = del_block-kept t.blocks t.backlog x a in
          let n = live-apart t live (ys ++ x ∷ zs) a w m in
          let j = has-append a ys (x ∷ zs) in let l = w.live_tags a m in ground arith;
      backs_held = record { linked = k'.linked; once = k'.once };
      backs_counted =
          let c = w.backs_counted in
          let n : one_less t.backlog.num ≡ t.backlog.num - 1 =
            one_less_lem t.backlog.num (omega arith) in
          n ∙ omega arith;
      backs_tags = λ a m.
          let s = del_block-kept t.blocks t.backlog x a in
          let j = has-append a ys zs in
          let j' = has-append a ys (x ∷ zs) in
          let l = w.backs_tags a (ground arith) in
          let n : (x == a) ≡ false = differs a m in ground arith;
    }
  where
    differs : (a : ℕ) → has a (ys ++ zs) ≡ true → (x == a) ≡ false
    differs a m =
        let (i, o, d) = Once-middle ys x zs w.backs_held.once in
        let j = has-append a ys zs in
        elim (Bool-cases (has a ys)) [
          | inl e ↦ let n = d a e in ground arith
          | inr e ↦ let n = has-ne a x zs (ground arith) i in ground arith
        ]
