-- ===== src/Manifest/Items/Unique.antt =====
-- `libManifest2GetNextItem` against its specification: it returns the next item unless the item
-- repeats an earlier one of its scope.
use mathlib.Core.Path.{subst}
use camerahal.Common.{
  ℕ, ◌≤◌, ◌<◌, ◌≡◌, ◌≢◌, inl, inr, refl, sym, ap, ◌∙◌, Bool, true, false, not, ◌&&◌, List, [], ◌∷◌,
  ◌++◌, length, arith, ◌==◌, if◌then◌else◌, Bool-cases,
}
use camerahal.Status.{success}
use camerahal.Manifest.Context.{ManifestType, is_compiled, has_sections, Context, Item, is_null}
use camerahal.Manifest.Reader.{Reading, malformed, get_next_item_internal}
use camerahal.Manifest.Reader.Progress.{internal-advances}
use camerahal.Manifest.Reader.Replay.{Enters}
use camerahal.Manifest.Reader.Sections.{internal-property_inside}
use camerahal.Manifest.Items.{has_duplicate, conclude, check_duplicates, get_next_item}
use camerahal.Manifest.Items.Reads.{
  Reads, Reads-length, repeats, has_duplicate-repeats, Restarts, Reads-snoc,
}

abbrev verdict : Context → Item → Bool → Reading
verdict ctx item b = if b then malformed ctx else (ctx, success item)

conclude-verdict :
    (ctx : Context) (item : Item) (b : Bool) → conclude ctx item (success b) ≡ verdict ctx item b
conclude-verdict ctx item true = refl
conclude-verdict ctx item false = refl

-- The items in whose scope a name must be new: those of the section for a property of a manifest
-- with sections, all of them otherwise.
abbrev pub in_section : ManifestType → Item → Bool
in_section type item = has_sections type && not (is_null item.value)

abbrev pub scope : ManifestType → Item → List Item → List Item → List Item
scope type item all section = if in_section type item then section else all

abbrev pub next_section : ManifestType → Item → List Item → List Item
next_section type item section = if in_section type item then section ++ item ∷ [] else []

module _ (fuel : ℕ) where
  -- The items that were read up to a context: all of them, and those of its section.
  pub record History (ctx : Context) (all section : List Item) : Type 0 where
    pub from_start :
        (r : Context) → Restarts fuel ctx r → r.offset ≡ 0 → Reads fuel r all ctx.offset
    pub from_section :
        (r : Context)
        → Restarts fuel ctx r
        → has_sections ctx.type ≡ true
        → ctx.section_start ≢ 0
        → r.offset ≡ ctx.section_start
        → Reads fuel r section ctx.offset
    pub in_bounds : ctx.offset ≤ length ctx.content
    pub section_bound : ctx.section_start ≤ ctx.offset

  module _ (ctx ctx' : Context) (item : Item) (all section : List Item)
      (hist : History ctx all section)
      (next : get_next_item_internal fuel ctx ≡ (ctx', success item)) where
    back : (r : Context) → Restarts fuel ctx' r → Restarts fuel ctx r
    back r s =
        let adv = internal-advances fuel ctx ctx' item hist.in_bounds next in
        record {
          same_content = s.same_content ∙ adv.0;
          same_type = s.same_type ∙ adv.1;
          enters = subst (λ t. Enters t r.section_start) adv.1 s.enters;
        }

    section-Reads :
        (r : Context)
        → Restarts fuel ctx' r
        → has_sections ctx'.type ≡ true
        → ctx'.section_start ≢ 0
        → r.offset ≡ ctx'.section_start
        → Reads fuel r (next_section ctx.type item section) ctx'.offset
    section-Reads r s hs ne eo =
        let (c, t, ss, adv, lim) = internal-advances fuel ctx ctx' item hist.in_bounds next in
        let hs' : has_sections ctx.type ≡ true = ap has_sections (sym t) ∙ hs in
        elim (Bool-cases (is_null item.value)) [
          | inl n ↦ let e : ctx'.section_start ≡ ctx'.offset = rw n at ss in rw (hs', n) (eo ∙ e)
          | inr n ↦
              let e : ctx'.section_start ≡ ctx.section_start = rw n at ss in
              rw (hs', n)
                (Reads-snoc fuel ctx r section ctx' item
                  (rw (s.same_content, c) (omega (arith, hist.section_bound, hist.in_bounds)))
                  (back r s) (hist.from_section r (back r s) hs' (λ z. ne (e ∙ z)) (eo ∙ e)) next)
        ]

    pub History-next : History ctx' (all ++ item ∷ []) (next_section ctx.type item section)
    History-next =
        let (c, t, ss, adv, lim) = internal-advances fuel ctx ctx' item hist.in_bounds next in
        record {
          from_start = λ r s z.
              Reads-snoc fuel ctx r all ctx' item (omega arith) (back r s)
                (hist.from_start r (back r s) z) next;
          from_section = section-Reads;
          in_bounds = rw c lim;
          section_bound = ground (arith, hist.section_bound);
        }

    -- The round over the items from `start` on.
    search :
        (start : ℕ) (items : List Item)
        → length ctx.content < fuel
        → start ≤ ctx.offset
        → Reads fuel (record ctx' { offset = start }) items ctx.offset
        → conclude ctx' item
            (has_duplicate fuel fuel (record ctx' { offset = start }) ctx.offset item)
          ≡ verdict ctx' item (repeats ctx.type item items)
    search start items enough before r =
        let (c, t, ss, adv, lim) = internal-advances fuel ctx ctx' item hist.in_bounds next in
        let bound : start ≤ length ctx'.content = rw c (omega (arith, hist.in_bounds)) in
        let (a, b) = Reads-length fuel (record ctx' { offset = start }) items ctx.offset bound r in
        let few : length items < fuel = omega (arith, hist.in_bounds) in
        ap (conclude ctx' item) (
          has_duplicate-repeats fuel fuel (record ctx' { offset = start }) items ctx.offset item few
            bound r)
        ∙ conclude-verdict ctx' item (repeats ctx'.type item items)
        ∙ ap (λ k. verdict ctx' item (repeats k item items)) t

    restart : (start : ℕ) → Restarts fuel ctx (record ctx' { offset = start })
    restart start =
        let (c, t, ss, adv, lim) = internal-advances fuel ctx ctx' item hist.in_bounds next in
        record { same_content = c; same_type = t; enters = entered (is_null item.value) refl ss }
      where
        entered :
            (null : Bool)
            → is_null item.value ≡ null
            → ctx'.section_start ≡ (if null then ctx'.offset else ctx.section_start)
            → Enters ctx.type ctx'.section_start
        entered true n e =
            let adv = (internal-advances fuel ctx ctx' item hist.in_bounds next).3 in
            inr (omega arith)
        entered false n e = elim (Bool-cases (has_sections ctx.type)) [
          | inl f ↦
              let inside : ctx.section_start ≢ 0 =
                internal-property_inside fuel ctx ctx' item next f n in
              inr (λ z. inside (sym e ∙ z))
          | inr f ↦ inl f
        ]

    check_duplicates-verdict :
        length ctx.content < fuel
        → check_duplicates fuel ctx.offset ctx' item
          ≡ verdict ctx' item (repeats ctx.type item (scope ctx.type item all section))
    unfolding check_duplicates
    check_duplicates-verdict enough =
        let (c, t, ss, adv, lim) = internal-advances fuel ctx ctx' item hist.in_bounds next in
        let whole =
          search 0 all enough (omega arith)
            (hist.from_start (record ctx' { offset = 0 }) (restart 0) refl) in
        elim (Bool-cases (has_sections ctx.type)) [
          | inr f ↦
              let f' : has_sections ctx'.type ≡ false = ap has_sections t ∙ f in
              rw (f', f, check_duplicates) whole
          | inl f ↦
              let f' : has_sections ctx'.type ≡ true = ap has_sections t ∙ f in
              elim (Bool-cases (is_null item.value)) [
                | inl n ↦ rw (f', f, n, check_duplicates) whole
                | inr n ↦
                    let same : ctx'.section_start ≡ ctx.section_start = rw n at ss in
                    let inside : ctx.section_start ≢ 0 =
                      internal-property_inside fuel ctx ctx' item next f n in
                    let test : (ctx'.section_start == 0) ≡ false = ground arith in
                    rw (f', f, n, test, check_duplicates)
                      (search ctx'.section_start section enough (omega (arith, hist.section_bound))
                        (hist.from_section (record ctx' { offset = ctx'.section_start })
                          (restart ctx'.section_start) f inside same))
              ]
        ]

    -- In a source manifest, behind items that were read, with fuel above the length of the
    -- content: the next item that the reader gives is returned, unless it repeats an item of its
    -- scope; then the format is bad. In either case the context stands behind the item.
    pub get_next_item-verdict :
        is_compiled ctx.type ≡ false
        → length ctx.content < fuel
        → get_next_item fuel ctx ≡ (
            if repeats ctx.type item (scope ctx.type item all section)
            then malformed ctx'
            else (ctx', success item))
    unfolding get_next_item
    get_next_item-verdict plain enough = rw (plain, next) (check_duplicates-verdict enough)
