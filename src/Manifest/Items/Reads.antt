-- ===== src/Manifest/Items/Reads.antt =====
-- Sequences of items read one behind the other, and the search for duplicates among them.
use camerahal.Common.{
  ℕ, zero, suc, ◌+◌, ◌≤◌, ◌<◌, ◌≡◌, inl, inr, ap, ◌∙◌, Bool, false, ◌||◌, List, [], ◌∷◌, ◌++◌,
  length, arith, if◌then◌else◌, lt→ltb, Bool-cases,
}
use camerahal.Status.{success}
use camerahal.Manifest.Context.{ManifestType, Context, Item, is_null}
use camerahal.Manifest.Reader.{Reading, get_next_item_internal}
use camerahal.Manifest.Reader.Progress.{internal-advances}
use camerahal.Manifest.Reader.Replay.{view, elsewhere, Enters, internal-elsewhere}
use camerahal.Manifest.Items.{is_duplicate, has_duplicate}

of_view :
    (x : Reading) (o : ℕ) (item : Item)
    → view x ≡ (o, success item)
    → (c : Context) × (x ≡ (c, success item)) × (c.offset ≡ o)
of_view x o item p = (x.0, λ i. (x.0, (p i).1), λ i. (p i).0)

-- Behind an item a section has been entered, if one had been before.
Enters-next :
    (type : ManifestType) (null : Bool) (o s s' : ℕ)
    → 0 < o
    → s' ≡ (if null then o else s)
    → Enters type s
    → Enters type s'
Enters-next type null o s s' h e (inl f) = inl f
Enters-next type null o s s' h e (inr g) = inr (ground arith)

-- Whether an item repeats one of a list.
abbrev pub repeats : ManifestType → Item → List Item → Bool
repeats type item [] = false
repeats type item (i ∷ items) = is_duplicate type item i || repeats type item items

module _ (fuel : ℕ) where
  -- The items are read one behind the other, from a context up to an offset.
  abbrev pub Reads : Context → List Item → ℕ → Type 0
  Reads ctx [] o = ctx.offset ≡ o
  Reads ctx (i ∷ items) o =
      (ctx' : Context) × (get_next_item_internal fuel ctx ≡ (ctx', success i)) × Reads ctx' items o

  -- Each item takes at least one byte.
  pub Reads-length :
      (ctx : Context) (items : List Item) (o : ℕ)
      → ctx.offset ≤ length ctx.content
      → Reads ctx items o
      → (ctx.offset + length items ≤ o) × (o ≤ length ctx.content)
  Reads-length ctx [] o h r = omega arith
  Reads-length ctx (i ∷ items) o h (ctx', e, r) =
      let (c, t, s, adv, lim) = internal-advances fuel ctx ctx' i h e in
      let lim' : ctx'.offset ≤ length ctx'.content = rw c lim in
      let (a, b) = Reads-length ctx' items o lim' r in (omega arith, rw (← c) b)

  -- The search for duplicates, which ignores the results of the reader, ends at the item in hand
  -- if the items before it were read from where it starts and the rounds are enough for them, and
  -- tells whether one of them is repeated.
  pub has_duplicate-repeats :
      (rounds : ℕ) (ctx : Context) (items : List Item) (original : ℕ) (item : Item)
      → length items < rounds
      → ctx.offset ≤ length ctx.content
      → Reads ctx items original
      → has_duplicate fuel rounds ctx original item ≡ success (repeats ctx.type item items)
  unfolding has_duplicate
  has_duplicate-repeats zero ctx items original item n h r = absurd (omega arith)
  has_duplicate-repeats (suc rounds) ctx [] original item n h r = ground arith
  has_duplicate-repeats (suc rounds) ctx (i ∷ items) original item n h (ctx', e, r) =
      let (c, t, s, adv, lim) = internal-advances fuel ctx ctx' i h e in
      let lim' : ctx'.offset ≤ length ctx'.content = rw c lim in
      let (a, b) = Reads-length ctx' items original lim' r in
      let ih = has_duplicate-repeats rounds ctx' items original item (omega arith) lim' r in
      rw (lt→ltb ctx.offset original (omega arith), e)
        (elim (Bool-cases (is_duplicate ctx.type item i)) [
          | inl d ↦ rw d
          | inr d ↦ rw d (ih ∙ ap (λ k. success (repeats k item items)) t)
        ])

  -- Contexts from which the items of `ctx` can be read again: the same content, inside a section.
  pub record Restarts (ctx r : Context) : Type 0 where
    pub same_content : r.content ≡ ctx.content
    pub same_type : r.type ≡ ctx.type
    pub enters : Enters ctx.type r.section_start

  -- One more item behind those that were read.
  pub Reads-snoc :
      (ctx r : Context) (items : List Item) (ctx' : Context) (item : Item)
      → r.offset ≤ length r.content
      → Restarts ctx r
      → Reads r items ctx.offset
      → get_next_item_internal fuel ctx ≡ (ctx', success item)
      → Reads r (items ++ item ∷ []) ctx'.offset
  Reads-snoc ctx r [] ctx' item h same e next =
      let here : r ≡ elsewhere ctx r.line r.section_start = λ i. record {
        content = same.same_content i;
        type = same.same_type i;
        offset = e i;
        line = r.line;
        section_start = r.section_start;
      } in
      of_view (get_next_item_internal fuel r) ctx'.offset item (
        ap (λ c. view (get_next_item_internal fuel c)) here
        ∙ internal-elsewhere fuel ctx r.line r.section_start ctx' item same.enters next)
  Reads-snoc ctx r (i ∷ items) ctx' item h same (r', e, rest) next =
      let (c, t, s, adv, lim) = internal-advances fuel r r' i h e in
      (
        r',
        e,
        Reads-snoc ctx r' items ctx' item (rw c lim)
            (record {
              same_content = c ∙ same.same_content;
              same_type = t ∙ same.same_type;
              enters =
                  Enters-next ctx.type (is_null i.value) r'.offset r.section_start r'.section_start
                    (omega arith) s same.enters;
            })
            rest next,
      )
