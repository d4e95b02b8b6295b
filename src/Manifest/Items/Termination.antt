-- ===== src/Manifest/Items/Termination.antt =====
-- `libManifest2CheckFormat` returns.
use camerahal.Common.{
  ℕ, zero, suc, ◌+◌, ◌-◌, ◌<◌, ◌≡◌, inl, inr, refl, ap, ◌∙◌, false, List, [], ◌∷◌, ◌++◌, length,
  arith, Bool-cases,
}
use camerahal.Status.{success, error, running}
use camerahal.Manifest.Context.{is_compiled, Context, Item}
use camerahal.Manifest.Reader.{Reading, get_next_item_internal}
use camerahal.Manifest.Reader.Progress.{internal-advances}
use camerahal.Manifest.Reader.Settled.{IsSettled, IsReadable, internal-IsSettled}
use camerahal.Manifest.Items.{count_items, check_format}
use camerahal.Manifest.Items.Reads.{repeats}
use camerahal.Manifest.Items.Unique.{
  scope, next_section, History, History-next, get_next_item-verdict,
}
use camerahal.Manifest.Items.Format.{
  Returns, reset, reset-History, get_next_item-error, count-bad, count-error, count-success,
}

count_items-Returns :
    (fuel rounds n : ℕ) (ctx : Context) (all section : List Item)
    → is_compiled ctx.type ≡ false
    → length ctx.content < fuel
    → length ctx.content - ctx.offset < rounds
    → IsReadable fuel ctx.type ctx.content
    → History fuel ctx all section
    → Returns (count_items fuel rounds ctx n)
count_items-Returns fuel zero n ctx all section plain enough few ok hist = absurd (omega arith)
count_items-Returns fuel (suc rounds) n ctx all section plain enough few ok hist =
    split_on (get_next_item_internal fuel ctx) refl (internal-IsSettled fuel ctx ok)
      λ ctx' all' section'. count_items-Returns fuel rounds (n + 1) ctx' all' section'
  where
    split_on :
        (r : Reading)
        → get_next_item_internal fuel ctx ≡ r
        → IsSettled r
        → ((ctx' : Context) (all' section' : List Item)
            → is_compiled ctx'.type ≡ false
            → length ctx'.content < fuel
            → length ctx'.content - ctx'.offset < rounds
            → IsReadable fuel ctx'.type ctx'.content
            → History fuel ctx' all' section'
            → Returns (count_items fuel rounds ctx' (n + 1)))
        → Returns (count_items fuel (suc rounds) ctx n)
    split_on (ctx', running) e s ih = absurd s
    split_on (ctx', error x) e s ih =
        count-error fuel rounds n ctx ctx' x (get_next_item-error fuel ctx ctx' x e)
    split_on (ctx', success i) e s ih =
        let (c, t, ss, adv, lim) = internal-advances fuel ctx ctx' i hist.in_bounds e in
        let v = get_next_item-verdict fuel ctx ctx' i all section hist e plain enough in
        elim (Bool-cases (repeats ctx.type i (scope ctx.type i all section))) [
          | inl d ↦ rw (count-bad fuel rounds n ctx ctx' (v ∙ rw d)) tt
          | inr d ↦ rw (count-success fuel rounds n ctx ctx' i (v ∙ rw d)) (
              ih ctx' (all ++ i ∷ []) (next_section ctx.type i section) (ap is_compiled t ∙ plain)
                (rw c enough) (rw c (omega arith)) (rw (t, c) ok)
                (History-next fuel ctx ctx' i all section hist e))
        ]

-- The check of a source manifest returns, a count or an error, with fuel above the length of the
-- content: if the manifest has no sections, or if behind every closing bracket only blanks stand
-- before the end of the line.
pub check_format-Returns :
    (fuel : ℕ) (ctx : Context)
    → is_compiled ctx.type ≡ false
    → length ctx.content < fuel
    → IsReadable fuel ctx.type ctx.content
    → Returns (check_format fuel ctx)
unfolding check_format
check_format-Returns fuel ctx plain enough ok =
    count_items-Returns fuel fuel 0 (reset ctx) [] [] plain enough (omega arith) ok
      (reset-History fuel ctx)
