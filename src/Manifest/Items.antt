-- ===== src/Manifest/Items.antt =====
-- security/tf_daemon/lib_manifest2.c: `libManifest2GetNextItem`, which also looks for duplicates, and
-- `libManifest2CheckFormat`.
pub mod Reads
pub mod Same
pub mod Unique
pub mod Format
pub mod Termination
use camerahal.Common.{
  ℕ, zero, suc, ◌+◌, Bool, true, false, not, ◌&&◌, Option, none, some, List, [], ◌∷◌, ltb, ◌==◌,
  if◌then◌else◌,
}
use camerahal.Status.{Outcome, success, error, running, bad_format, item_not_found}
use camerahal.Manifest.Chars.{section_name_equal}
use camerahal.Manifest.Context.{
  ManifestType, source, has_sections, is_compiled, Context, Item, is_null,
}
use camerahal.Manifest.Reader.{Reading, malformed, get_next_item_internal}

-- Equal lengths, and `memcmp` finds no difference.
unfoldable pub bytes_equal : List ℕ → List ℕ → Bool
bytes_equal [] [] = true
bytes_equal (x ∷ xs) (y ∷ ys) = x == y && bytes_equal xs ys
bytes_equal _ _ = false

-- `error:` sets the pointers to NULL and the lengths to 0.
abbrev pub null_item : Item
null_item = record { name = []; value = none }

abbrev pub item_of : Outcome Item → Item
item_of (success item) = item
item_of _ = null_item

abbrev pub is_running : Outcome Item → Bool
is_running running = true
is_running _ = false

unfoldable pub is_duplicate : ManifestType → Item → Item → Bool
unfolding bytes_equal
is_duplicate type item earlier =
    if has_sections type && is_null item.value
    then is_null earlier.value && section_name_equal item.name earlier.name
    else bytes_equal earlier.name item.name

-- The loop over the items before `original`; the first fuel is for the reader, the second for the
-- rounds. The result of the reader is not looked at.
unfoldable pub has_duplicate : ℕ → ℕ → Context → ℕ → Item → Outcome Bool
has_duplicate fuel zero ctx original item = running
has_duplicate fuel (suc rounds) ctx original item =
    let (ctx', r) = get_next_item_internal fuel ctx in
    let further = has_duplicate fuel rounds ctx' original item in
    if not (ltb ctx.offset original)
    then success false
    else if is_running r
    then running
    else if is_duplicate ctx.type item (item_of r)
    then success true
    else further

-- Where the loop starts: `none` for a property outside any section.
abbrev pub restart_offset : Context → Item → Option ℕ
restart_offset ctx item =
    if not (has_sections ctx.type)
    then some 0
    else if is_null item.value
    then some 0
    else if ctx.section_start == 0
    then none
    else some ctx.section_start

-- The context is put back as the reader left it behind the item.
abbrev conclude : Context → Item → Outcome Bool → Reading
conclude ctx item (success true) = malformed ctx
conclude ctx item (success false) = (ctx, success item)
conclude ctx item (error e) = (ctx, error e)
conclude ctx item running = (ctx, running)

unfoldable pub check_duplicates : ℕ → ℕ → Context → Item → Reading
check_duplicates fuel original ctx item = elim (restart_offset ctx item) [
  | none ↦ malformed ctx
  | some start ↦
      conclude ctx item (has_duplicate fuel fuel (record ctx { offset = start }) original item)
]

abbrev then_check : ℕ → ℕ → Reading → Reading
then_check fuel original (ctx, success item) = check_duplicates fuel original ctx item
then_check fuel original (ctx, error e) = (ctx, error e)
then_check fuel original (ctx, running) = (ctx, running)

unfoldable pub get_next_item : ℕ → Context → Reading
get_next_item fuel ctx =
    if is_compiled ctx.type
    then get_next_item_internal fuel ctx
    else then_check fuel ctx.offset (get_next_item_internal fuel ctx)

-- The loop of `libManifest2CheckFormat`, with the items counted so far.
unfoldable pub count_items : ℕ → ℕ → Context → ℕ → Outcome ℕ
count_items fuel zero ctx n = running
count_items fuel (suc rounds) ctx n =
    let (ctx', r) = get_next_item fuel ctx in
    let further = count_items fuel rounds ctx' (n + 1) in
    elim r [
      | success _ ↦ further
      | error item_not_found ↦ success n
      | error e ↦ error e
      | running ↦ running
    ]

unfoldable pub check_format : ℕ → Context → Outcome ℕ
unfolding count_items
check_format fuel ctx =
    count_items fuel fuel (record ctx { offset = 0; line = 1; section_start = 0 }) 0
