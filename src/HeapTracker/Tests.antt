-- ===== src/HeapTracker/Tests.antt =====
-- Runs of the tracker, and the theorems at concrete states.
use camerahal.Common.{
  ap, subst, sym, Bool-cases, ℕ, zero, suc, ◌+◌, ◌-◌, ◌≤◌, ◌≡◌, inl, inr, refl, true, false, Option,
  none, some, List, [], ◌∷◌, ◌++◌, ◌==◌, if◌then◌else◌, arith,
}
use mathlib.Core.List.{reverse}
use camerahal.HeapTracker.{
  filled, free_poison, front_guard, rear_guard, guard_len, Header, Chain, Tracker, corrupted,
  allocation_tag, backlog_tag, add_block, del_block, add, del, check_guards, was_used_after_free,
  check_allocation, del_from_backlog, evict, add_to_backlog,
}
use camerahal.HeapTracker.Calls.{
  wrap_malloc, wrap_calloc, wrap_free, wrap_realloc, free_leaked, drain_backlog, free_leaked_memory,
}
use camerahal.HeapTracker.Lists.{has, Once, Links, HoldsBlocks}
use camerahal.HeapTracker.Tracking.{Tracks}
use camerahal.HeapTracker.Ledger.{
  Call, mallocs, callocs, frees, writes, calls, Ledger, books, AreAllowed, Keeps, reallocs,
}
use camerahal.HeapTracker.Ledger.Refine.{calls-Keeps}
use camerahal.HeapTracker.Leaks.{free_leaked_memory-Tracks}
use camerahal.HeapTracker.Detection.{wrap_free-reports}

abbrev no_header : Header
no_header = record {
  tag = 0;
  prev = none;
  next = none;
  size = 0;
  front = [];
  content = [];
  rear = [];
}

abbrev no_blocks : Chain
no_blocks = record { first = none; last = none; num = 0 }

abbrev empty : Tracker
empty = record { blocks = λ a. no_header; live = no_blocks; backlog = no_blocks }

abbrev empty_ledger : Ledger
empty_ledger = record { live = []; backs = [] }

abbrev empty-HoldsBlocks : HoldsBlocks (λ a. no_header) no_blocks []
empty-HoldsBlocks = record { linked = (refl, refl); once = tt }

no_tags : (a : ℕ) (tag : ℕ) → has a [] ≡ true → 0 ≡ tag
no_tags a tag m = absurd (let f : false ≡ true = m in cc)

empty-Tracks : Tracks empty [] []
empty-Tracks = record {
  live_held = empty-HoldsBlocks;
  live_counted = refl;
  live_tags = λ a m. no_tags a allocation_tag m;
  backs_held = empty-HoldsBlocks;
  backs_counted = refl;
  backs_tags = λ a m. no_tags a backlog_tag m;
}

empty-Keeps : Keeps empty empty_ledger
empty-Keeps = (empty-Tracks, omega arith)

unfoldable pub tracker : Unit {0}
unfolding add_block del_block add del check_guards was_used_after_free check_allocation
    del_from_backlog evict add_to_backlog wrap_malloc wrap_calloc wrap_free wrap_realloc free_leaked
    drain_backlog free_leaked_memory
tracker = tt

-- Two blocks, of which the second is freed, written to, and freed again, and the first is moved.
abbrev program : List Call
program =
    mallocs 2 (some (1, 7 ∷ 7 ∷ []))
    ∷ callocs 1 1 (some 2)
    ∷ frees (some 2)
    ∷ writes 2 [] (9 ∷ []) []
    ∷ frees (some 2)
    ∷ frees none
    ∷ reallocs (some 1) 3 (some (3, 7 ∷ 7 ∷ 0 ∷ []))
    ∷ []

program_live : (calls empty program).0.live.last ≡ some 3
unfolding tracker
program_live = refl

program_backlog : (calls empty program).0.backlog.first ≡ some 2
unfolding tracker
program_backlog = refl

-- At the end the block that was written to is reported.
program_reports : (free_leaked_memory 5 (calls empty program).0).1 ≡ corrupted 2 ∷ []
unfolding tracker
program_reports = refl

-- A realloc that the heap refuses leaves the block out of the list, with the tag of an allocation.
refused_realloc :
    (wrap_realloc (wrap_malloc empty 1 (some (1, 7 ∷ []))).0 (some 1) 9 none).0.live.last ≡ none
unfolding tracker
refused_realloc = refl

program_allowed : AreAllowed empty empty_ledger program
unfolding tracker
program_allowed = (
  ((refl, refl), omega arith),
  (
    ((refl, refl), omega arith),
    (
      (λ n. absurd (let e : true ≡ false = n.0 in cc)),
      (
        tt,
        (
          (λ n. absurd (let e : true ≡ false = n.1 in cc)),
          (
            tt,
            ((((refl, refl), omega arith), (λ n. absurd (let e : true ≡ false = n.0 in cc))), tt),
          ),
        ),
      ),
    ),
  ),
)

calls-Keeps_example :
    Keeps (calls empty program).0 (books empty_ledger program).0
    × ((calls empty program).1 ≡ (books empty_ledger program).1)
calls-Keeps_example = calls-Keeps empty empty_ledger program empty-Keeps program_allowed

program_runs :
    Keeps (calls empty program).0 (books empty_ledger program).0
    × ((calls empty program).1 ≡ (books empty_ledger program).1)
program_runs = calls-Keeps empty empty_ledger program empty-Keeps program_allowed

-- The state behind the program, with an allocation and a block in the backlog.
abbrev behind_program : Tracker
behind_program = (calls empty program).0

behind_program-Tracks : Tracks behind_program (3 ∷ []) (2 ∷ [])
behind_program-Tracks = program_runs.0.0

free_leaked_memory-Tracks_example :
    Tracks (free_leaked_memory 2 behind_program).0 [] []
    × ((free_leaked_memory 2 behind_program).2 ≡ (3 ∷ []) ++ reverse (2 ∷ []))
free_leaked_memory-Tracks_example =
    free_leaked_memory-Tracks 2 behind_program (3 ∷ []) (2 ∷ []) behind_program-Tracks (omega arith)
      (omega arith)

-- A backlog that is full: the blocks 50, …, 1, of which 1 was written to, and 51 is an allocation.
abbrev before_in : ℕ → Option ℕ
before_in n = if n == 50 then none else some (n + 1)

abbrev after_in : ℕ → Option ℕ
after_in zero = none
after_in (suc n) = some (suc n)

abbrev full_header : ℕ → Header
full_header a = record {
  tag = if a == 51 then allocation_tag else backlog_tag;
  prev = if a == 51 then none else before_in a;
  next = if a == 51 then none else after_in (a - 1);
  size = 1;
  front = filled front_guard guard_len;
  content = if a == 1 then 9 ∷ [] else filled free_poison 1;
  rear = filled rear_guard guard_len;
}

abbrev down : ℕ → List ℕ
down zero = []
down (suc n) = suc n ∷ down n

abbrev down_to_two : ℕ → List ℕ
down_to_two zero = []
down_to_two (suc n) = suc (suc n) ∷ down_to_two n

abbrev full : Tracker
full = record {
  blocks = full_header;
  live = record { first = some 51; last = some 51; num = 1 };
  backlog = record { first = some 1; last = some 50; num = 50 };
}

down-bound : (a n : ℕ) → has a (down n) ≡ true → a ≤ n
down-bound a zero m = absurd (let f : false ≡ true = m in cc)
down-bound a (suc n) m = elim (Bool-cases (a == suc n)) [
  | inl e ↦ ground arith
  | inr e ↦ let b = down-bound a n (ground arith) in omega arith
]

down-Once : (n : ℕ) → Once (down n)
down-Once zero = tt
down-Once (suc n) = elim (Bool-cases (has (suc n) (down n))) [
  | inl m ↦ let b = down-bound (suc n) n m in absurd (omega arith)
  | inr m ↦ (m, down-Once n)
]

down-Links : (n : ℕ) → n ≤ 50 → Links full_header (before_in n) (after_in n) (some 1) (down n)
down-Links zero h = (refl, refl)
down-Links (suc n) h =
    let last : (suc n == 51) ≡ false = ground arith in
    let here : (n == 50) ≡ false = ground arith in
    let same : suc n - 1 ≡ n = omega arith in
    let next : (full_header (suc n)).next ≡ after_in n = rw last (ap after_in same) in
    let before : before_in n ≡ some (suc n) = rw here (ap (λ k. some k) (omega arith)) in
    (
      refl,
      rw last refl,
      subst (λ q. Links full_header (some (suc n)) q (some 1) (down n)) (sym next)
          (subst (λ q. Links full_header q (after_in n) (some 1) (down n)) before
            (down-Links n (omega arith))),
    )

full-Tracks : Tracks full (51 ∷ []) (down_to_two 49 ++ 1 ∷ [])
full-Tracks = record {
  live_held = record { linked = (refl, refl, (refl, refl)); once = (refl, tt) };
  live_counted = refl;
  live_tags = λ a m. ground arith;
  backs_held = record { linked = down-Links 50 (omega arith); once = down-Once 50 };
  backs_counted = refl;
  backs_tags =
      λ a m. let b = down-bound a 50 m in let e : (a == 51) ≡ false = ground arith in rw e refl;
}

wrap_free-reports_example : (wrap_free full (some 51)).1 ≡ corrupted 1 ∷ []
wrap_free-reports_example = wrap_free-reports full [] 51 [] (down_to_two 49) 1 full-Tracks refl refl
