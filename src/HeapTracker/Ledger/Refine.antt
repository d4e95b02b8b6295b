-- ===== src/HeapTracker/Ledger/Refine.antt =====
-- heaptracker.c: every sequence of calls does what the ledger says.
use camerahal.Common.{
  ◌*◌, ◌%◌, ◌≡◌, inl, inr, refl, ap, ◌∙◌, none, some, List, [], ◌∷◌, ◌++◌, ◌==◌, Bool-cases,
}
use camerahal.HeapTracker.{Tracker, filled, word}
use camerahal.HeapTracker.Calls.{wrap_realloc, wrap_calloc, wrap_free}
use camerahal.HeapTracker.Tracking.{add-Tracks}
use camerahal.HeapTracker.Ledger.{
  Call, call, calls, Ledger, book, books, IsAllowed, AreAllowed, Keeps, mallocs, callocs, frees,
  reallocs, writes,
}
use camerahal.HeapTracker.Ledger.Moving.{
  Steps, free-Steps, malloc-Steps, realloc-Steps, written-Tracks,
}

call-Steps :
    (t : Tracker) (l : Ledger) (c : Call)
    → Keeps t l
    → IsAllowed t l c
    → Steps (call t c) (book l c)
unfolding Steps wrap_calloc wrap_free wrap_realloc
call-Steps t l (mallocs size answer) k a = (malloc-Steps t l size answer k a, refl)
call-Steps t l (callocs n size none) k a = (k, refl)
call-Steps t l (callocs n size (some hdr)) (w, few) ((new, new'), room) = (
  (
    add-Tracks t l.live l.backs hdr (n * size % word) (filled 0 (n * size % word)) w new new' room,
    few,
  ),
  refl,
)
call-Steps t l (frees none) k a = (k, refl)
call-Steps t l (frees (some hdr)) k a = free-Steps t l hdr k a
call-Steps t l (reallocs none size answer) k a = elim (Bool-cases (size == 0)) [
  | inl e ↦ rw e (k, refl)
  | inr e ↦ rw e (malloc-Steps t l size answer k a, refl)
]
call-Steps t l (reallocs (some hdr) size answer) k (a, foreign) = elim (Bool-cases (size == 0)) [
  | inl e ↦ rw e (free-Steps t l hdr k (λ n. (foreign n).0))
  | inr e ↦ realloc-Steps t l hdr size answer e k a foreign
]
call-Steps t l (writes hdr front content rear) (w, few) a =
    ((written-Tracks t l.live l.backs hdr front content rear w, few), refl)

-- In every sequence of allocations, frees and writes, if the heap gives blocks that the tracker does not
-- have and no foreign pointer with the tag of an allocation is freed, the tracker does what the two
-- lists say: its chains hold their blocks in their order, and the blocks that are given back to the
-- heap are those that fall out of a backlog of 50.
pub calls-Keeps :
    (t : Tracker) (l : Ledger) (cs : List Call)
    → Keeps t l
    → AreAllowed t l cs
    → Keeps (calls t cs).0 (books l cs).0 × ((calls t cs).1 ≡ (books l cs).1)
unfolding Steps
calls-Keeps t l [] k a = (k, refl)
calls-Keeps t l (c ∷ cs) k (here, rest) =
    let (k', given) = call-Steps t l c k here in
    let (k'', later) = calls-Keeps (call t c).0 (book l c).0 cs k' rest in
    (k'', ap (λ xs. xs ++ (calls (call t c).0 cs).1) given ∙ ap (λ xs. (book l c).1 ++ xs) later)
