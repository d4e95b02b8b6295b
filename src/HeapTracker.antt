-- ===== src/HeapTracker.antt =====
-- heaptracker.c: the wrapper of malloc and free that keeps every allocation in a list, and what was freed
-- in a backlog.
pub mod Calls
pub mod Lists
pub mod Removal
pub mod Tracking
pub mod Freeing
pub mod Ledger
pub mod Leaks
pub mod Detection
pub mod Tests
use camerahal.Common.{
  ℕ, zero, suc, ◌+◌, ◌-◌, ◌*◌, ◌%◌, ◌^◌, Bool, true, false, not, ◌&&◌, ◌||◌, Option, none, some,
  List, [], ◌∷◌, ◌++◌, ltb, ◌==◌, if◌then◌else◌,
}

-- A block is named by the number of its header; the caller's pointer stands for the same number, since
-- `user` and `meta` are inverse. `front` and `rear` are the guards, `content` the bytes between them.
-- The stack traces are left out.
pub record Header : Type 0 where
  pub tag : ℕ
  pub prev : Option ℕ
  pub next : Option ℕ
  pub size : ℕ
  pub front : List ℕ
  pub content : List ℕ
  pub rear : List ℕ

abbrev pub Blocks : Type 0
Blocks = ℕ → Header

-- `first`, `last` and `num` of a list, `first` being the oldest.
pub record Chain : Type 0 where
  pub first : Option ℕ
  pub last : Option ℕ
  pub num : ℕ

-- The constants.
abbrev pub allocation_tag : ℕ
allocation_tag = 0x1ee7d00d

abbrev pub backlog_tag : ℕ
backlog_tag = 0xbabecafe

abbrev pub free_poison : ℕ
free_poison = 0xa5

abbrev pub front_guard : ℕ
front_guard = 0xaa

abbrev pub rear_guard : ℕ
rear_guard = 0xbb

abbrev pub guard_len : ℕ
guard_len = 16

abbrev pub backlog_max : ℕ
backlog_max = 50

abbrev pub word : ℕ
word = 2 ^ 32

-- A write to a header, and to one that a pointer may point to.
abbrev pub alter : Blocks → ℕ → (Header → Header) → Blocks
alter h i f j = if i == j then f (h j) else h j

abbrev pub alter_at : Blocks → Option ℕ → (Header → Header) → Blocks
alter_at h none f = h
alter_at h (some i) f = alter h i f

-- memset.
abbrev pub filled : ℕ → ℕ → List ℕ
filled value zero = []
filled value (suc n) = value ∷ filled value n

-- Whether all bytes have the value.
abbrev pub all_are : ℕ → List ℕ → Bool
all_are value [] = true
all_are value (b ∷ bs) = b == value && all_are value bs

-- __add: the block goes to the end of the list, which is where `next` starts from.
unfoldable pub add_block : Blocks → Chain → ℕ → Blocks × Chain
add_block h chain hdr =
    let linked = alter h hdr (λ b. record b { prev = none; next = chain.last }) in
    (
      alter_at linked chain.last (λ b. record b { prev = some hdr }),
      record chain {
        first = elim chain.last [ none ↦ some hdr | some l ↦ chain.first ];
        last = some hdr;
      },
    )

if_null : {A : Type 0} → Option ℕ → A → A → A
if_null none a b = b
if_null (some i) a b = a

-- __del.
unfoldable pub del_block : Blocks → Chain → ℕ → Blocks × Chain
unfolding if_null
del_block h chain hdr =
    let p = (h hdr).prev in
    let n = (h hdr).next in
    let h' = alter_at h p (λ b. record b { next = n }) in
    (
      alter_at h' n (λ b. record b { prev = p }),
      record chain { last = if_null p chain.last n; first = if_null n chain.first p },
    )

-- The counters wrap around.
abbrev pub one_more : ℕ → ℕ
one_more n = if n == word - 1 then 0 else n + 1

abbrev pub one_less : ℕ → ℕ
one_less n = if n == 0 then word - 1 else n - 1

pub record Tracker : Type 0 where
  pub blocks : Blocks
  pub live : Chain
  pub backlog : Chain

-- What the tracker reports of a block.
pub data Report : Type 0 where
  multiply_freed not_allocated corrupted : ℕ → Report

abbrev first_is : ℕ → List ℕ → Bool
first_is value [] = false
first_is value (c ∷ cs) = c == value

-- check_guards: whether the guards are valid, and whether the header can be read.
unfoldable pub check_guards : Header → Bool × Bool
check_guards b =
    if not (all_are front_guard b.front)
    then (false, first_is front_guard b.front)
    else (all_are rear_guard b.rear, true)

-- was_used_after_free.
unfoldable pub was_used_after_free : Header → Bool
was_used_after_free b = not (all_are free_poison b.content)

-- __check_allocation.
unfoldable pub check_allocation : Header → Bool × Bool
unfolding check_guards was_used_after_free
check_allocation b =
    if not (b.tag == allocation_tag) && not (b.tag == backlog_tag)
    then (false, false)
    else if b.tag == backlog_tag && was_used_after_free b
    then (false, (check_guards b).1)
    else check_guards b

-- add.
unfoldable pub add : Tracker → ℕ → ℕ → List ℕ → Tracker
unfolding add_block
add t hdr size content =
    let h = alter t.blocks hdr (λ b. record b {
      tag = allocation_tag;
      size = size;
      front = filled front_guard guard_len;
      content = content;
      rear = filled rear_guard guard_len;
    }) in
    let (h', live) = add_block h t.live hdr in
    record t { blocks = h'; live = record live { num = one_more t.live.num } }

-- del: whether the block is an allocation.
unfoldable pub del : Tracker → ℕ → Tracker × Bool
unfolding del_block
del t hdr =
    let (h, live) = del_block t.blocks t.live hdr in
    if not ((t.blocks hdr).tag == allocation_tag)
    then (t, false)
    else (record t { blocks = h; live = record live { num = one_less t.live.num } }, true)

-- __del_and_check takes the block out of the chain whatever the check says, since it tests the pointer
-- `safe`; __del_from_backlog clears the tag too.
unfoldable pub del_from_backlog : Tracker → ℕ → Tracker × List Report
unfolding del_block check_allocation
del_from_backlog t hdr =
    let (h, backlog) = del_block t.blocks t.backlog hdr in
    (
      record t {
        blocks = alter h hdr (λ b. record b { tag = 0 });
        backlog = record backlog { num = one_less t.backlog.num };
      },
      if (check_allocation (t.blocks hdr)).0 then [] else corrupted hdr ∷ [],
    )

-- The loop of add_to_backlog that frees the oldest blocks, with its reports and the blocks that are
-- given back to the heap.
evict_first :
    (Tracker → Tracker × List Report × List ℕ) → Tracker → Option ℕ → Tracker × List Report × List ℕ
evict_first next t none = (t, [], [])
evict_first next t (some gone) =
    let here = del_from_backlog t gone in
    let rest = next here.0 in (rest.0, here.1 ++ rest.1, gone ∷ rest.2)

unfoldable pub evict : ℕ → Tracker → Tracker × List Report × List ℕ
unfolding del_from_backlog evict_first
evict zero t = (t, [], [])
evict (suc fuel) t =
    let round = evict_first (evict fuel) t t.backlog.first in
    if ltb backlog_max t.backlog.num then round else (t, [], [])

-- add_to_backlog; the loop makes a round for each block at most.
unfoldable pub add_to_backlog : Tracker → ℕ → Tracker × List Report × List ℕ
unfolding add_block evict
add_to_backlog t hdr =
    let h = alter t.blocks hdr (λ b. record b { tag = backlog_tag }) in
    let (h', backlog) = add_block h t.backlog hdr in
    let h'' = alter h' hdr (λ b. record b { content = filled free_poison b.size }) in
    evict (t.backlog.num + 1)
      (record t { blocks = h''; backlog = record backlog { num = one_more t.backlog.num } })
