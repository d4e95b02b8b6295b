-- ===== src/Manifest/Items/Same.antt =====
-- `libManifest2GetNextItem` only returns what `static_libManifest2GetNextItemInternal` reads.
use camerahal.Common.{ℕ, ◌≡◌, inl, inr, refl, Bool, true, false, Option-cases, Bool-cases}
use camerahal.Status.{Outcome, success, error, running}
use camerahal.Manifest.Context.{Context, Item, is_compiled}
use camerahal.Manifest.Reader.{Reading, get_next_item_internal}
use camerahal.Manifest.Items.{
  get_next_item, then_check, check_duplicates, conclude, restart_offset, has_duplicate,
}

-- An item that the second reading returns is what the first one gives.
abbrev pub SameItem : Reading → Reading → Type 0
SameItem m (ctx, success item) = m ≡ (ctx, success item)
SameItem m _ = Unit

conclude-SameItem :
    (ctx : Context) (item : Item) (o : Outcome Bool)
    → SameItem (ctx, success item) (conclude ctx item o)
conclude-SameItem ctx item (success true) = tt
conclude-SameItem ctx item (success false) = refl
conclude-SameItem ctx item (error e) = tt
conclude-SameItem ctx item running = tt

check_duplicates-SameItem :
    (fuel original : ℕ) (ctx : Context) (item : Item)
    → SameItem (ctx, success item) (check_duplicates fuel original ctx item)
unfolding check_duplicates
check_duplicates-SameItem fuel original ctx item = elim (Option-cases (restart_offset ctx item)) [
  | inl e ↦ rw (e, check_duplicates) tt
  | inr (start, e) ↦
      rw (e, check_duplicates)
        (conclude-SameItem ctx item
          (has_duplicate fuel fuel (record ctx { offset = start }) original item))
]

then_check-SameItem : (fuel original : ℕ) (m : Reading) → SameItem m (then_check fuel original m)
then_check-SameItem fuel original (ctx, success item) =
    check_duplicates-SameItem fuel original ctx item
then_check-SameItem fuel original (ctx, error e) = tt
then_check-SameItem fuel original (ctx, running) = tt

SameItem-refl : (m : Reading) → SameItem m m
SameItem-refl (ctx, success item) = refl
SameItem-refl (ctx, error e) = tt
SameItem-refl (ctx, running) = tt

pub get_next_item-SameItem :
    (fuel : ℕ) (ctx : Context) → SameItem (get_next_item_internal fuel ctx) (get_next_item fuel ctx)
unfolding get_next_item
get_next_item-SameItem fuel ctx = elim (Bool-cases (is_compiled ctx.type)) [
  | inl e ↦ rw e (SameItem-refl (get_next_item_internal fuel ctx))
  | inr e ↦ rw e (then_check-SameItem fuel ctx.offset (get_next_item_internal fuel ctx))
]
