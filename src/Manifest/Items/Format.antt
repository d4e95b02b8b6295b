-- ===== src/Manifest/Items/Format.antt =====
-- `libManifest2CheckFormat` against its specification.
use camerahal.Common.{
  ℕ, zero, suc, ◌+◌, ◌-◌, ◌<◌, ◌≡◌, inl, inr, refl, ap, ◌∙◌, Bool, true, false, not, ◌&&◌, List, [],
  ◌∷◌, ◌++◌, length, arith, if◌then◌else◌, Bool-cases,
}
use camerahal.Status.{SError, Outcome, success, error, running, bad_format, item_not_found}
use camerahal.Manifest.Context.{ManifestType, is_compiled, Context, Item}
use camerahal.Manifest.Reader.{Reading, get_next_item_internal}
use camerahal.Manifest.Reader.Progress.{internal-advances}
use camerahal.Manifest.Items.{get_next_item, count_items, check_format}
use camerahal.Manifest.Items.Reads.{repeats}
use camerahal.Manifest.Items.Unique.{
  scope, next_section, History, History-next, get_next_item-verdict,
}

-- The check has returned, with a count or an error.
abbrev pub Returns {ℓ} : {A : Type ℓ} → Outcome A → Type 0
Returns running = ⊥
Returns _ = Unit

-- No item repeats an earlier one of its scope.
abbrev pub unique : ManifestType → List Item → List Item → List Item → Bool
unique type all section [] = true
unique type all section (i ∷ items) =
    not (repeats type i (scope type i all section))
    && unique type (all ++ i ∷ []) (next_section type i section) items

-- The items are all that stand between the context and the end of the content.
abbrev pub ReadsAll : ℕ → Context → List Item → Type 0
ReadsAll fuel ctx [] =
    (ctx' : Context) × (get_next_item_internal fuel ctx ≡ (ctx', error item_not_found))
ReadsAll fuel ctx (i ∷ items) =
    (ctx' : Context) × (get_next_item_internal fuel ctx ≡ (ctx', success i))
    × ReadsAll fuel ctx' items

pub get_next_item-error :
    (fuel : ℕ) (ctx ctx' : Context) (e : SError)
    → get_next_item_internal fuel ctx ≡ (ctx', error e)
    → get_next_item fuel ctx ≡ (ctx', error e)
unfolding get_next_item
get_next_item-error fuel ctx ctx' e h = ground arith

pub count-end :
    (fuel rounds n : ℕ) (ctx ctx' : Context)
    → get_next_item fuel ctx ≡ (ctx', error item_not_found)
    → count_items fuel (suc rounds) ctx n ≡ success n
unfolding count_items
count-end fuel rounds n ctx ctx' h = rw (h, count_items)

pub count-bad :
    (fuel rounds n : ℕ) (ctx ctx' : Context)
    → get_next_item fuel ctx ≡ (ctx', error bad_format)
    → count_items fuel (suc rounds) ctx n ≡ error bad_format
unfolding count_items
count-bad fuel rounds n ctx ctx' h = rw (h, count_items)

pub count-error :
    (fuel rounds n : ℕ) (ctx ctx' : Context) (e : SError)
    → get_next_item fuel ctx ≡ (ctx', error e)
    → Returns (count_items fuel (suc rounds) ctx n)
unfolding count_items
count-error fuel rounds n ctx ctx' item_not_found h = rw (h, count_items) tt
count-error fuel rounds n ctx ctx' _ h = rw (h, count_items) tt

pub count-success :
    (fuel rounds n : ℕ) (ctx ctx' : Context) (item : Item)
    → get_next_item fuel ctx ≡ (ctx', success item)
    → count_items fuel (suc rounds) ctx n ≡ count_items fuel rounds ctx' (n + 1)
unfolding count_items
count-success fuel rounds n ctx ctx' item h =
    rw (h, count_items) (ap (λ (r : Reading). count_items fuel rounds r.0 (n + 1)) h)

count_items-unique :
    (fuel rounds n : ℕ) (ctx : Context) (all section items : List Item)
    → is_compiled ctx.type ≡ false
    → length ctx.content < fuel
    → length ctx.content - ctx.offset < rounds
    → History fuel ctx all section
    → ReadsAll fuel ctx items
    → count_items fuel rounds ctx n
      ≡ (if unique ctx.type all section items then success (n + length items) else error bad_format)
count_items-unique fuel zero n ctx all section items plain enough few hist reads =
    absurd (omega arith)
count_items-unique fuel (suc rounds) n ctx all section [] plain enough few hist (ctx', e) =
    count-end fuel rounds n ctx ctx' (get_next_item-error fuel ctx ctx' item_not_found e)
    ∙ ap success (omega arith)
count_items-unique fuel (suc rounds) n ctx all section (i ∷ items) plain enough few hist
      (ctx', e, r) =
    let (c, t, s, adv, lim) = internal-advances fuel ctx ctx' i hist.in_bounds e in
    let v = get_next_item-verdict fuel ctx ctx' i all section hist e plain enough in
    elim (Bool-cases (repeats ctx.type i (scope ctx.type i all section))) [
      | inl d ↦ rw d (count-bad fuel rounds n ctx ctx' (v ∙ rw d))
      | inr d ↦ rw d (
          count-success fuel rounds n ctx ctx' i (v ∙ rw d)
          ∙ count_items-unique fuel rounds (n + 1) ctx' (all ++ i ∷ [])
              (next_section ctx.type i section) items (ap is_compiled t ∙ plain) (rw c enough)
              (rw c (omega arith)) (History-next fuel ctx ctx' i all section hist e) r
          ∙ regroup t)
    ]
  where
    total : n + 1 + length items ≡ n + suc (length items)
    total = omega arith

    further : ManifestType → ℕ → Outcome ℕ
    further type m =
        if unique type (all ++ i ∷ []) (next_section ctx.type i section) items
        then success m
        else error bad_format

    regroup :
        {type : ManifestType}
        → type ≡ ctx.type
        → further type (n + 1 + length items) ≡ further ctx.type (n + suc (length items))
    regroup t = λ j. further (t j) (total j)

abbrev pub reset : Context → Context
reset ctx = record ctx { offset = 0; line = 1; section_start = 0 }

pub reset-History : (fuel : ℕ) (ctx : Context) → History fuel (reset ctx) [] []
reset-History fuel ctx = record {
  from_start = λ r s z. z;
  from_section = λ r s h ne e. absurd (ne refl);
  in_bounds = omega arith;
  section_bound = omega arith;
}

-- With fuel above the length of the content, the check of a source manifest whose items can all be
-- read, up to its end, tells whether every item is new in its scope: it gives the number of the
-- items if so, and a bad format if not.
pub check_format-unique :
    (fuel : ℕ) (ctx : Context) (items : List Item)
    → is_compiled ctx.type ≡ false
    → length ctx.content < fuel
    → ReadsAll fuel (reset ctx) items
    → check_format fuel ctx
      ≡ (if unique ctx.type [] [] items then success (length items) else error bad_format)
unfolding check_format
check_format-unique fuel ctx items plain enough r =
    count_items-unique fuel fuel 0 (reset ctx) [] [] items plain enough (omega arith)
      (reset-History fuel ctx) r
    ∙ ap (λ m. if unique ctx.type [] [] items then success m else error bad_format) (omega arith)
