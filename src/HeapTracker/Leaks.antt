-- ===== src/HeapTracker/Leaks.antt =====
-- heaptracker.c: heaptracker_free_leaked_memory and check_list.
use camerahal.Common.{
  ℕ, zero, suc, ◌≤◌, ◌<◌, ◌≡◌, refl, sym, ap, subst, ◌∙◌, true, Option, none, some, List, [], ◌∷◌,
  ◌++◌, append-nil, ◌==◌, length, length-append, arith,
}
use mathlib.Core.List.{reverse, reverse-append}
use camerahal.HeapTracker.{
  Blocks, Tracker, del_block, del_from_backlog, del, allocation_tag, one_less,
}
use camerahal.HeapTracker.Calls.{
  leaked_last, free_leaked, drained_first, drain_backlog, free_leaked_memory, check_list,
}
use camerahal.HeapTracker.Lists.{Links}
use camerahal.HeapTracker.Removal.{next-in}
use camerahal.HeapTracker.Tracking.{Tracks, del-Tracks, del_from_backlog-Tracks}
use camerahal.HeapTracker.Freeing.{snoc}

-- The state behind the first block that leaked.
behind_leak : Tracker → ℕ → Tracker
behind_leak t hdr =
    let r = del_block t.blocks t.live hdr in
    record t { blocks = r.0; live = record r.1 { num = one_less t.live.num } }

del-behind_leak :
    (t : Tracker) (hdr : ℕ)
    → (t.blocks hdr).tag ≡ allocation_tag
    → (del t hdr).0 ≡ behind_leak t hdr
unfolding del behind_leak
del-behind_leak t hdr tag =
    let e : ((t.blocks hdr).tag == allocation_tag) ≡ true = ground arith in rw e refl

behind_leak-Tracks :
    (t : Tracker) (x : ℕ) (live backs : List ℕ)
    → Tracks t (x ∷ live) backs
    → Tracks (behind_leak t x) live backs
behind_leak-Tracks t x live backs w =
    subst (λ r. Tracks r live backs) (del-behind_leak t x (w.live_tags x (ground arith)))
      (del-Tracks t [] x live backs w).1

leaks-Tracks :
    (fuel : ℕ) (t : Tracker) (live backs : List ℕ)
    → Tracks t live backs
    → length live < fuel
    → Tracks (free_leaked fuel t).0 [] backs × ((free_leaked fuel t).2 ≡ live)
unfolding free_leaked behind_leak
leaks-Tracks zero t live backs w h = absurd (omega arith)
leaks-Tracks (suc fuel) t [] backs w h =
    let e = ap (leaked_last (free_leaked fuel) t) w.live_held.linked.0 in
    (subst (λ r. Tracks r.0 [] backs) (sym e) w, ap (λ r. r.2) e)
leaks-Tracks (suc fuel) t (x ∷ live) backs w h =
    let e = ap (leaked_last (free_leaked fuel) t) w.live_held.linked.0 in
    let (w', given) =
      leaks-Tracks fuel (behind_leak t x) live backs (behind_leak-Tracks t x live backs w)
        (omega arith) in
    (subst (λ r. Tracks r.0 [] backs) (sym e) w', ap (λ r. r.2) e ∙ ap (λ l. x ∷ l) given)

drain-Tracks :
    (fuel : ℕ) (t : Tracker) (live backs : List ℕ)
    → Tracks t live backs
    → length backs < fuel
    → Tracks (drain_backlog fuel t).0 live [] × ((drain_backlog fuel t).2 ≡ reverse backs)
unfolding drain_backlog
drain-Tracks zero t live backs w h = absurd (omega arith)
drain-Tracks (suc fuel) t live [] w h =
    let e =
      ap (λ l. drained_first (drain_backlog fuel) t l t.backlog.first) w.backs_held.linked.0 in
    (subst (λ r. Tracks r.0 live []) (sym e) w, ap (λ r. r.2) e)
drain-Tracks (suc fuel) t live (x ∷ xs) w h =
    let (ys, z, e, front, rest) = snoc (length xs) (x ∷ xs) refl in
    let w' = subst (Tracks t live) e w in
    let nil = append-nil ys in
    let first : t.backlog.first ≡ some z =
      (next-in t.blocks z t.backlog.first [] none t.backlog.last ys w'.backs_held.linked).1 in
    let smaller : Tracks (del_from_backlog t z).0 live ys =
      subst (Tracks (del_from_backlog t z).0 live) nil
        (del_from_backlog-Tracks t live ys z [] w') in
    let n = ap length e ∙ length-append ys (z ∷ []) in
    let (w'', given) = drain-Tracks fuel (del_from_backlog t z).0 live ys smaller (omega arith) in
    let run =
      ap (λ l. drained_first (drain_backlog fuel) t l t.backlog.first) w.backs_held.linked.0
      ∙ ap (drained_first (drain_backlog fuel) t (some x)) first in
    (
      subst (λ r. Tracks r.0 live []) (sym run) w'',
      ap (λ r. r.2) run
          ∙ ap (λ l. z ∷ l) given
          ∙ sym (reverse-append ys (z ∷ []))
          ∙ ap reverse (sym e),
    )

-- When the library is unloaded, with a round for each block: both lists are empty behind it, and all
-- their blocks have been given back to the heap, first the allocations from the newest to the oldest,
-- then the backlog from the oldest to the newest.
pub free_leaked_memory-Tracks :
    (fuel : ℕ) (t : Tracker) (live backs : List ℕ)
    → Tracks t live backs
    → length live < fuel
    → length backs < fuel
    → Tracks (free_leaked_memory fuel t).0 [] []
      × ((free_leaked_memory fuel t).2 ≡ live ++ reverse backs)
unfolding free_leaked_memory
free_leaked_memory-Tracks fuel t live backs w h k =
    let (w', leaks) = leaks-Tracks fuel t live backs w h in
    let (w'', drained) = drain-Tracks fuel (free_leaked fuel t).0 [] backs w' k in
    (
      w'',
      ap (λ l. l ++ (drain_backlog fuel (free_leaked fuel t).0).2) leaks
          ∙ ap (λ l. live ++ l) drained,
    )

-- The scan of a list reaches each of its blocks.
check_list-Links :
    (fuel : ℕ) (h : Blocks) (before p end : Option ℕ) (xs : List ℕ)
    → Links h before p end xs
    → length xs ≤ fuel
    → (check_list fuel h p).1 ≡ length xs
unfolding check_list
check_list-Links fuel h before p end [] (at, stop) k = ap (λ q. (check_list fuel h q).1) at
check_list-Links zero h before p end (x ∷ xs) l k = absurd (omega arith)
check_list-Links (suc fuel) h before p end (x ∷ xs) (at, back, rest) k =
    ap (λ q. (check_list (suc fuel) h q).1) at
    ∙ omega (arith, check_list-Links fuel h (some x) (h x).next end xs rest (omega arith))
