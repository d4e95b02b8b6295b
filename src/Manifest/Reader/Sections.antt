-- ===== src/Manifest/Reader/Sections.antt =====
-- A property is read only inside a section, in a manifest that has sections.
use mathlib.Core.Path.{subst}
use camerahal.Common.{
  ℕ, ◌≡◌, ◌≢◌, inl, inr, refl, true, false, List, [], ◌∷◌, ◌==◌, take, drop, Bool-cases,
}
use camerahal.Status.{Outcome, success, error, running}
use camerahal.Manifest.Scanner.{scan, Scan-cases}
use camerahal.Manifest.Context.{is_compiled, has_sections, Context, Item, is_null}
use camerahal.Manifest.Loops.{between, skip_step, section_step, skip_after_header}
use camerahal.Manifest.Reader.{
  Reading, header_end, read_section, read_item, read_line, get_next_item_internal,
}

abbrev IsHeader : Reading → Type 0
IsHeader (ctx, success item) = is_null item.value ≡ true
IsHeader _ = Unit

header_end-IsHeader :
    (fuel : ℕ) (ctx : Context) (name rest : List ℕ) → IsHeader (header_end fuel ctx name rest)
unfolding header_end
header_end-IsHeader fuel ctx name rest = split_on (skip_after_header fuel rest) refl
  where
    split_on :
        (o : Outcome (List ℕ))
        → skip_after_header fuel rest ≡ o
        → IsHeader (header_end fuel ctx name rest)
    split_on (success _) e = rw (e, header_end) refl
    split_on (error _) e = rw (e, header_end) tt
    split_on running e = rw (e, header_end) tt

read_section-IsHeader :
    (fuel : ℕ) (ctx : Context) (start : List ℕ) → IsHeader (read_section fuel ctx start)
unfolding read_section
read_section-IsHeader fuel ctx start = elim (Scan-cases (scan section_step 0 start)) [
  | inl (v, e) ↦ rw (e, read_section) tt
  | inr (v, [], e) ↦ rw (e, read_section) tt
  | inr (v, c ∷ rest, e) ↦ rw (e, read_section) (header_end-IsHeader fuel ctx (take v start) rest)
]

-- Before the first header of a manifest with sections only a header is read.
abbrev IsOutside : Context → Type 0
IsOutside ctx = (has_sections ctx.type ≡ true) × (ctx.section_start ≡ 0)

read_item-IsHeader :
    (fuel : ℕ) (ctx : Context) (start : List ℕ)
    → IsOutside ctx
    → IsHeader (read_item fuel ctx start)
unfolding read_item
read_item-IsHeader fuel ctx [] h = tt
read_item-IsHeader fuel ctx (c ∷ rest) h = elim (Bool-cases (c == b'[')) [
  | inl e ↦ rw (h.0, e) (read_section-IsHeader fuel ctx rest)
  | inr e ↦ rw (h.0, e, h.1) tt
]

read_line-IsHeader :
    (fuel : ℕ) (ctx : Context) (start : List ℕ)
    → IsOutside ctx
    → IsHeader (read_line fuel ctx start)
unfolding read_line
read_line-IsHeader fuel ctx start h =
    elim (Scan-cases (scan skip_step (record { mode = between; line = ctx.line }) start)) [
      | inl (s, e) ↦ rw (e, read_line) tt
      | inr (s, rest, e) ↦
          rw (e, read_line) (read_item-IsHeader fuel (record ctx { line = s.line }) rest h)
    ]

internal-IsHeader :
    (fuel : ℕ) (ctx : Context) → IsOutside ctx → IsHeader (get_next_item_internal fuel ctx)
unfolding get_next_item_internal
internal-IsHeader fuel ctx h = elim (Bool-cases (is_compiled ctx.type)) [
  | inl e ↦ rw e (read_item-IsHeader fuel ctx (drop ctx.offset ctx.content) h)
  | inr e ↦ rw e (read_line-IsHeader fuel ctx _ h)
]

-- In a manifest with sections, a property that is read stands behind a section header.
pub internal-property_inside :
    (fuel : ℕ) (ctx ctx' : Context) (item : Item)
    → get_next_item_internal fuel ctx ≡ (ctx', success item)
    → has_sections ctx.type ≡ true
    → is_null item.value ≡ false
    → ctx.section_start ≢ 0
internal-property_inside fuel ctx ctx' item e h n z =
    let header : is_null item.value ≡ true = subst IsHeader e (internal-IsHeader fuel ctx (h, z)) in
    cc
