-- ===== src/HeapTracker/Ledger.antt =====
-- heaptracker.c: sequences of calls, and the two lists without pointers that they keep.
pub mod Moving
pub mod Refine
use camerahal.Common.{
  ℕ, zero, suc, ◌+◌, ◌-◌, ◌*◌, ◌%◌, ◌≤◌, ◌<◌, ◌≡◌, ◌≢◌, ◌⊎◌, inl, inr, refl, sym, ap, subst, ◌∙◌,
  Bool, true, false, not, ◌&&◌, ◌||◌, Option, none, some, List, [], ◌∷◌, ◌++◌, ltb, ◌==◌,
  if◌then◌else◌, Bool-cases, length, length-take, take, drop, arith,
}
use camerahal.HeapTracker.{
  multiply_freed, del_from_backlog, Header, Blocks, Tracker, Report, not_allocated, allocation_tag,
  backlog_tag, backlog_max, alter, filled, word, del, one_more, one_less,
}
use camerahal.HeapTracker.Calls.{
  moved_block, wrap_realloc, Answer, wrap_malloc, wrap_calloc, wrap_free,
}
use camerahal.HeapTracker.Lists.{has}
use camerahal.HeapTracker.Tracking.{
  del-Tracks, del_from_backlog-Tracks, length-remove, Tracks, SamePointers, HoldsBlocks-frame,
  add-Tracks,
}
use camerahal.HeapTracker.Freeing.{wrap_free-Tracks, wrap_free-twice, del-foreign}

-- What the program does: it allocates, with what the heap answers, frees, moves blocks, and writes to the bytes and the
-- guards of any block, also of one that it has freed.
pub data Call : Type 0 where
  mallocs : ℕ → Answer → Call
  callocs : ℕ → ℕ → Option ℕ → Call
  frees : Option ℕ → Call
  reallocs : Option ℕ → ℕ → Answer → Call
  writes : ℕ → List ℕ → List ℕ → List ℕ → Call

abbrev pub written : Tracker → ℕ → List ℕ → List ℕ → List ℕ → Tracker
written t hdr front content rear = record t {
  blocks = alter t.blocks hdr (λ b. record b { front = front; content = content; rear = rear });
}

-- The state after a call, and the blocks that are given back to the heap.
abbrev pub call : Tracker → Call → Tracker × List ℕ
call t (mallocs size answer) = ((wrap_malloc t size answer).0, [])
call t (callocs n size answer) = ((wrap_calloc t n size answer).0, [])
call t (frees p) = let r = wrap_free t p in (r.0, r.2)
call t (reallocs p size answer) = let r = wrap_realloc t p size answer in (r.0, r.2)
call t (writes hdr front content rear) = (written t hdr front content rear, [])

abbrev pub calls : Tracker → List Call → Tracker × List ℕ
calls t [] = (t, [])
calls t (c ∷ cs) = let here = call t c in let rest = calls here.0 cs in (rest.0, here.1 ++ rest.1)

-- The allocations and the backlog without pointers, the newest block first.
pub record Ledger : Type 0 where
  pub live : List ℕ
  pub backs : List ℕ

abbrev pub without : ℕ → List ℕ → List ℕ
without a [] = []
without a (x ∷ xs) = if a == x then xs else x ∷ without a xs

-- The heap's answer is entered in front.
abbrev pub entered : Ledger → Answer → Ledger
entered l none = l
entered l (some (hdr, content)) = record l { live = hdr ∷ l.live }

-- The ledger without a block that is moved.
abbrev pub released : Ledger → ℕ → Ledger
released l hdr =
    if has hdr l.live
    then record l { live = without hdr l.live }
    else record l { backs = without hdr l.backs }

-- An allocation that is freed goes to the backlog.
abbrev pub put_back : Ledger → ℕ → Ledger × List ℕ
put_back l hdr =
    if has hdr l.live
    then (
      record { live = without hdr l.live; backs = take backlog_max (hdr ∷ l.backs) },
      drop backlog_max (hdr ∷ l.backs),
    )
    else (l, [])

-- A call on the two lists: an allocation is entered in front; a block that is freed goes to the backlog,
-- which keeps 50 blocks; a block that is moved, be it an allocation or one of the backlog, is taken out and
-- the new one is entered; freeing or moving anything else does nothing.
abbrev pub book : Ledger → Call → Ledger × List ℕ
book l (mallocs size answer) = (entered l answer, [])
book l (callocs n size none) = (l, [])
book l (callocs n size (some hdr)) = (entered l (some (hdr, [])), [])
book l (frees none) = (l, [])
book l (frees (some hdr)) = put_back l hdr
book l (reallocs none size answer) = if size == 0 then (l, []) else (entered l answer, [])
book l (reallocs (some hdr) size answer) =
    if size == 0
    then put_back l hdr
    else if has hdr l.live || has hdr l.backs
    then (entered (released l hdr) answer, [])
    else (l, [])
book l (writes hdr front content rear) = (l, [])

abbrev pub books : Ledger → List Call → Ledger × List ℕ
books l [] = (l, [])
books l (c ∷ cs) = let here = book l c in let rest = books here.0 cs in (rest.0, here.1 ++ rest.1)

abbrev pub IsNewBlock : Ledger → ℕ → Type 0
IsNewBlock l hdr = (has hdr l.live ≡ false) × (has hdr l.backs ≡ false)

abbrev pub IsNewAnswer : Ledger → Answer → Type 0
IsNewAnswer l none = Unit
IsNewAnswer l (some (hdr, content)) = IsNewBlock l hdr × (length l.live < word - 1)

-- The heap answers with a block that the tracker does not have, while there are fewer than 2 ^ 32 - 1
-- allocations; a pointer that was never allocated does not have the tag of an allocation before it, nor
-- that of a freed block if it is to be moved.
abbrev pub IsAllowed : Tracker → Ledger → Call → Type 0
IsAllowed t l (mallocs size answer) = IsNewAnswer l answer
IsAllowed t l (callocs n size none) = Unit
IsAllowed t l (callocs n size (some hdr)) = IsNewAnswer l (some (hdr, []))
IsAllowed t l (frees none) = Unit
IsAllowed t l (frees (some hdr)) = IsNewBlock l hdr → (t.blocks hdr).tag ≢ allocation_tag
IsAllowed t l (reallocs none size answer) = IsNewAnswer l answer
IsAllowed t l (reallocs (some hdr) size answer) =
    IsNewAnswer (released l hdr) answer
    × (IsNewBlock l hdr
        → ((t.blocks hdr).tag ≢ allocation_tag) × ((t.blocks hdr).tag ≢ backlog_tag))
IsAllowed t l (writes hdr front content rear) = Unit

abbrev pub AreAllowed : Tracker → Ledger → List Call → Type 0
AreAllowed t l [] = Unit
AreAllowed t l (c ∷ cs) = IsAllowed t l c × AreAllowed (call t c).0 (book l c).0 cs

-- The tracker is as the ledger says, with at most 50 blocks in the backlog.
abbrev pub Keeps : Tracker → Ledger → Type 0
Keeps t l = Tracks t l.live l.backs × (length l.backs ≤ backlog_max)
