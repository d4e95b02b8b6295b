-- ===== src/HeapTracker/Calls.antt =====
-- heaptracker.c: the functions that the program and the unloading of the library call.
use camerahal.Common.{
  ℕ, zero, suc, ◌+◌, ◌*◌, ◌%◌, Option, none, some, List, [], ◌∷◌, ◌++◌, ◌==◌, if◌then◌else◌,
}
use camerahal.HeapTracker.{
  Blocks, backlog_tag, word, filled, del_block, one_less, Tracker, Report, check_allocation, add,
  del, del_from_backlog, add_to_backlog, multiply_freed, not_allocated, corrupted,
}

-- What the heap answers: the header of the block and the bytes in it, or NULL.
abbrev pub Answer : Type 0
Answer = Option (ℕ × List ℕ)

-- __wrap_malloc, and the pointer that it returns.
unfoldable pub wrap_malloc : Tracker → ℕ → Answer → Tracker × Option ℕ
unfolding add
wrap_malloc t size none = (t, none)
wrap_malloc t size (some (hdr, content)) = (add t hdr size content, some hdr)

-- __wrap_calloc: the number of bytes wraps around.
unfoldable pub wrap_calloc : Tracker → ℕ → ℕ → Option ℕ → Tracker × Option ℕ
unfolding add
wrap_calloc t nmemb size none = (t, none)
wrap_calloc t nmemb size (some hdr) =
    (add t hdr (nmemb * size % word) (filled 0 (nmemb * size % word)), some hdr)

-- __wrap_free: with the reports, and the blocks that are given back to the heap.
unfoldable pub wrap_free : Tracker → Option ℕ → Tracker × List Report × List ℕ
unfolding del add_to_backlog
wrap_free t none = (t, [], [])
wrap_free t (some hdr) =
    let (t', allocated) = del t hdr in
    if allocated
    then add_to_backlog t' hdr
    else if (t.blocks hdr).tag == backlog_tag
    then (t, multiply_freed hdr ∷ [], [])
    else (t, not_allocated hdr ∷ [], [])

-- The block is moved by the heap, or NULL is returned.
unfoldable pub moved_block :
    Tracker → List Report → ℕ → Answer → Tracker × List Report × List ℕ × Option ℕ
moved_block t reports size none = (t, reports, [], none)
moved_block t reports size (some (hdr, content)) = (add t hdr size content, reports, [], some hdr)

abbrev pointer_of : Answer → Option ℕ
pointer_of none = none
pointer_of (some (hdr, content)) = some hdr

-- __wrap_realloc, with the blocks that are given back to the heap and the pointer that it returns. For a
-- block that is not tracked the heap gives a new one, which is not tracked.
unfoldable pub wrap_realloc :
    Tracker → Option ℕ → ℕ → Answer → Tracker × List Report × List ℕ × Option ℕ
unfolding wrap_free wrap_malloc del del_from_backlog moved_block
wrap_realloc t none size answer =
    let (t', p) = wrap_malloc t size answer in
    if size == 0 then (t, [], [], none) else (t', [], [], p)
wrap_realloc t (some hdr) size answer =
    let (freed, reports, given) = wrap_free t (some hdr) in
    let (t', allocated) = del t hdr in
    let (back, checks) = del_from_backlog t hdr in
    if size == 0
    then (freed, reports, given, none)
    else if allocated
    then moved_block t' [] size answer
    else if (t.blocks hdr).tag == backlog_tag
    then moved_block back (multiply_freed hdr ∷ checks) size answer
    else (t, not_allocated hdr ∷ [], [], pointer_of answer)

-- heaptracker_free_leaked_memory, with the reports and the blocks that are given back to the heap: its
-- loop over the leaked blocks, from the newest on,
pub leaked_last :
    (Tracker → Tracker × List Report × List ℕ) → Tracker → Option ℕ → Tracker × List Report × List ℕ
leaked_last next t none = (t, [], [])
leaked_last next t (some hdr) =
    let (h, live) = del_block t.blocks t.live hdr in
    let rest = next (record t { blocks = h; live = record live { num = one_less t.live.num } }) in
    let bad = if (check_allocation (t.blocks hdr)).0 then [] else corrupted hdr ∷ [] in
    (rest.0, bad ++ rest.1, hdr ∷ rest.2)

unfoldable pub free_leaked : ℕ → Tracker → Tracker × List Report × List ℕ
unfolding del_block check_allocation leaked_last
free_leaked zero t = (t, [], [])
free_leaked (suc fuel) t = leaked_last (free_leaked fuel) t t.live.last

-- the loop over the backlog, from the oldest on,
pub drained_first :
    (Tracker → Tracker × List Report × List ℕ)
    → Tracker
    → Option ℕ
    → Option ℕ
    → Tracker × List Report × List ℕ
drained_first next t none first = (t, [], [])
drained_first next t (some l) none = (t, [], [])
drained_first next t (some l) (some hdr) =
    let here = del_from_backlog t hdr in
    let rest = next here.0 in (rest.0, here.1 ++ rest.1, hdr ∷ rest.2)

unfoldable pub drain_backlog : ℕ → Tracker → Tracker × List Report × List ℕ
unfolding del_from_backlog drained_first
drain_backlog zero t = (t, [], [])
drain_backlog (suc fuel) t = drained_first (drain_backlog fuel) t t.backlog.last t.backlog.first

-- and both.
unfoldable pub free_leaked_memory : ℕ → Tracker → Tracker × List Report × List ℕ
unfolding free_leaked drain_backlog
free_leaked_memory fuel t =
    let leaks = free_leaked fuel t in
    let backs = drain_backlog fuel leaks.0 in (backs.0, leaks.1 ++ backs.1, leaks.2 ++ backs.2)

-- check_list: the reports, and the number of blocks that are checked.
unfoldable pub check_list : ℕ → Blocks → Option ℕ → List Report × ℕ
unfolding check_allocation
check_list fuel h none = ([], 0)
check_list zero h (some hdr) = ([], 0)
check_list (suc fuel) h (some hdr) =
    let rest = check_list fuel h (h hdr).next in
    ((if (check_allocation (h hdr)).0 then rest.0 else corrupted hdr ∷ rest.0), rest.1 + 1)
