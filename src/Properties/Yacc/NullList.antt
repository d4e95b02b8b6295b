-- ===== src/Properties/Yacc/NullList.antt =====
-- SMCPropYacc never adds a property through a NULL list.
use mathlib.Core.Path.{subst}
use camerahal.Common.{
  ℕ, zero, suc, ◌≤◌, ◌≡◌, ◌≢◌, ◌⊎◌, inl, inr, refl, ap, ◌∙◌, Bool, true, false, Option, none, some,
  List, Option-cases, if◌then◌else◌, arith, Bool-cases, length, codes,
}
use camerahal.Status.{
  Outcome, success, error, running, bad_format, item_not_found, item_exists, out_of_memory,
  bad_parameters, underlying_os,
}
use camerahal.Manifest.Context.{
  Context, Item, source_with_sections, has_sections, init_context, is_null,
}
use camerahal.Manifest.Reader.{Reading, get_next_item_internal}
use camerahal.Manifest.Reader.Progress.{internal-advances}
use camerahal.Manifest.Reader.Sections.{internal-property_inside}
use camerahal.Manifest.Items.{get_next_item}
use camerahal.Manifest.Items.Same.{SameItem, get_next_item-SameItem}
use camerahal.Properties.Yacc.{
  ListRef, system_list, public_list, is_eq, ConfFile, Cursor, Parsed, parsed, failed, null_list,
  unfinished, yacc_item, yacc_from, yacc, add_property, route, enter_section, enter_service,
  allocate, added, keep_cursor, is_config, find_section,
}
use camerahal.Properties.Strcmp.{strcasecmp}
use camerahal.Properties.Memory.{Nodes, NodeList}

-- The list of the public properties is one.
abbrev HasPublic : Cursor → Type 0
HasPublic cursor = (ref : ListRef) × (cursor.public ≡ some ref)

-- No write through NULL, and a list for the next property.
abbrev Goes : Parsed (ConfFile × Cursor) → Type 0
Goes (parsed (conf, cursor)) = HasPublic cursor
Goes null_list = ⊥
Goes _ = Unit

abbrev pub IsSafe : Parsed ConfFile → Type 0
IsSafe null_list = ⊥
IsSafe _ = Unit

added-IsSafe :
    (conf : ConfFile) (ref : ListRef) (o : Outcome (Nodes × NodeList)) → IsSafe (added conf ref o)
unfolding added
added-IsSafe conf ref (success (h, l)) = tt
added-IsSafe conf ref (error e) = tt
added-IsSafe conf ref running = tt

add_property-IsSafe :
    (fuel : ℕ) (conf : ConfFile) (ref : ListRef) (name value : List ℕ)
    → IsSafe (add_property fuel conf (some ref) name value)
unfolding add_property
add_property-IsSafe fuel conf ref name value = added-IsSafe (allocate conf name value) ref _

keep_cursor-Goes :
    (cursor : Cursor) (p : Parsed ConfFile)
    → HasPublic cursor
    → IsSafe p
    → Goes (keep_cursor cursor p)
unfolding keep_cursor
keep_cursor-Goes cursor (parsed conf) h s = h
keep_cursor-Goes cursor (failed e) h s = tt
keep_cursor-Goes cursor null_list h s = s
keep_cursor-Goes cursor unfinished h s = tt

route-some :
    (cursor : Cursor) (name value : List ℕ)
    → HasPublic cursor
    → (ref : ListRef) × (route cursor name value ≡ some ref)
unfolding route
route-some cursor name value (ref, e) = elim (Option-cases cursor.private) [
  | inl p ↦ (ref, rw (p, route) e)
  | inr (other, p) ↦ elim (Bool-cases (is_config name value)) [
    | inl c ↦ (other, rw (p, route, c) refl)
    | inr c ↦ (ref, rw (p, route, c) e)
  ]
]

enter_service-Goes :
    (conf : ConfFile) (cursor : Cursor) (o : Outcome (Option ℕ))
    → Goes (enter_service conf cursor o)
unfolding enter_service
enter_service-Goes conf cursor (success none) = tt
enter_service-Goes conf cursor (success (some s)) = (public_list s, refl)
enter_service-Goes conf cursor (error e) = tt
enter_service-Goes conf cursor running = tt

if-Goes :
    (b : Bool) (x y : Parsed (ConfFile × Cursor)) → Goes x → Goes y → Goes (if b then x else y)
if-Goes true x y g h = g
if-Goes false x y g h = h

enter_section-Goes :
    (fuel : ℕ) (conf : ConfFile) (cursor : Cursor) (name : List ℕ)
    → Goes (enter_section fuel conf cursor name)
unfolding enter_section
enter_section-Goes fuel conf cursor name =
    let here : HasPublic (record cursor { public = some system_list }) = (system_list, refl) in
    if-Goes (is_eq (strcasecmp name (codes "Global")))
      (parsed (conf, record cursor { public = some system_list }))
      (enter_service conf cursor (find_section fuel conf name)) here
      (enter_service-Goes conf cursor (find_section fuel conf name))

yacc_item-Goes :
    (fuel : ℕ) (memory : Bool × Bool) (conf : ConfFile) (cursor : Cursor) (item : Item)
    → (is_null item.value ≡ true) ⊎ HasPublic cursor
    → Goes (yacc_item fuel memory conf cursor item)
unfolding yacc_item
yacc_item-Goes fuel (false, more) conf cursor item h = tt
yacc_item-Goes fuel (true, more) conf cursor item h = elim (Option-cases item.value) [
  | inl e ↦ rw (e, yacc_item) (enter_section-Goes fuel conf cursor item.name)
  | inr (value, e) ↦ elim h [
    | inl n ↦ let n' : false ≡ true = rw e at n in cc
    | inr p ↦
        let (ref, r) = route-some cursor item.name value p in
        rw (e, yacc_item)
          (if-Goes more _ _
            (keep_cursor-Goes cursor _ p (rw r (add_property-IsSafe fuel conf ref item.name value)))
            tt)
  ]
]

-- Between two items: the offset is within the content, and behind a section header the list for the
-- public properties is set.
record Between (ctx : Context) (cursor : Cursor) : Type 0 where
  pub sectioned : has_sections ctx.type ≡ true
  pub in_bounds : ctx.offset ≤ length ctx.content
  pub listed : ctx.section_start ≢ 0 → HasPublic cursor

item_is_listed :
    (fuel : ℕ) (ctx ctx' : Context) (cursor : Cursor) (item : Item)
    → Between ctx cursor
    → get_next_item_internal fuel ctx ≡ (ctx', success item)
    → (is_null item.value ≡ true) ⊎ HasPublic cursor
item_is_listed fuel ctx ctx' cursor item b e = elim (Bool-cases (is_null item.value)) [
  | inl n ↦ inl n
  | inr n ↦ inr (b.listed (internal-property_inside fuel ctx ctx' item e b.sectioned n))
]

next-Between :
    (fuel : ℕ) (ctx ctx' : Context) (cursor cursor' : Cursor) (item : Item)
    → Between ctx cursor
    → get_next_item_internal fuel ctx ≡ (ctx', success item)
    → HasPublic cursor'
    → Between ctx' cursor'
next-Between fuel ctx ctx' cursor cursor' item b e h =
    let (c, t, s, adv, lim) = internal-advances fuel ctx ctx' item b.in_bounds e in
    record { sectioned = ap has_sections t ∙ b.sectioned; in_bounds = rw c lim; listed = λ z. h }

yacc_from-IsSafe :
    (fuel rounds : ℕ) (memory : ℕ → Bool × Bool) (ctx : Context) (conf : ConfFile) (cursor : Cursor)
    → Between ctx cursor
    → IsSafe (yacc_from fuel rounds memory ctx conf cursor)
unfolding yacc_from
yacc_from-IsSafe fuel zero memory ctx conf cursor b = tt
yacc_from-IsSafe fuel (suc rounds) memory ctx conf cursor b =
    on_reading (get_next_item fuel ctx) refl
      (λ ctx' conf' cursor'. yacc_from-IsSafe fuel rounds memory ctx' conf' cursor')
  where
    on_item :
        ((ctx' : Context) (conf' : ConfFile) (cursor' : Cursor)
          → Between ctx' cursor'
          → IsSafe (yacc_from fuel rounds memory ctx' conf' cursor'))
        → (ctx' : Context) (item : Item) (p : Parsed (ConfFile × Cursor))
        → get_next_item fuel ctx ≡ (ctx', success item)
        → yacc_item fuel (memory rounds) conf cursor item ≡ p
        → get_next_item_internal fuel ctx ≡ (ctx', success item)
        → Goes p
        → IsSafe (yacc_from fuel (suc rounds) memory ctx conf cursor)
    on_item again ctx' item (parsed (conf', cursor')) e q m g =
        rw (e, yacc_from, q, e)
          (again ctx' conf' cursor' (next-Between fuel ctx ctx' cursor cursor' item b m g))
    on_item again ctx' item (failed x) e q m g = rw (e, yacc_from, q) tt
    on_item again ctx' item null_list e q m g = absurd g
    on_item again ctx' item unfinished e q m g = rw (e, yacc_from, q) tt

    on_reading :
        (m : Reading)
        → get_next_item fuel ctx ≡ m
        → ((ctx' : Context) (conf' : ConfFile) (cursor' : Cursor)
            → Between ctx' cursor'
            → IsSafe (yacc_from fuel rounds memory ctx' conf' cursor'))
        → IsSafe (yacc_from fuel (suc rounds) memory ctx conf cursor)
    on_reading (ctx', running) e again = rw (e, yacc_from) tt
    on_reading (ctx', error bad_format) e again = rw (e, yacc_from) tt
    on_reading (ctx', error item_not_found) e again = rw (e, yacc_from) tt
    on_reading (ctx', error item_exists) e again = rw (e, yacc_from) tt
    on_reading (ctx', error out_of_memory) e again = rw (e, yacc_from) tt
    on_reading (ctx', error bad_parameters) e again = rw (e, yacc_from) tt
    on_reading (ctx', error underlying_os) e again = rw (e, yacc_from) tt
    on_reading (ctx', success item) e again =
        let m : get_next_item_internal fuel ctx ≡ (ctx', success item) =
          subst (SameItem (get_next_item_internal fuel ctx)) e (get_next_item-SameItem fuel ctx) in
        on_item again ctx' item (yacc_item fuel (memory rounds) conf cursor item) e refl m (
          yacc_item-Goes fuel (memory rounds) conf cursor item
            (item_is_listed fuel ctx ctx' cursor item b m))

-- Whatever the configuration file, the lists that are there before, the memory and the fuel,
-- SMCPropYacc never adds a property through a NULL list: the reader gives no property in front of the
-- first section header, and every header that is accepted sets the list.
pub yacc-IsSafe :
    (fuel : ℕ) (memory : ℕ → Bool × Bool) (content : List ℕ) (conf : ConfFile)
    → IsSafe (yacc fuel memory content conf)
unfolding yacc init_context
yacc-IsSafe fuel memory content conf =
    yacc_from-IsSafe fuel fuel memory (init_context content source_with_sections) conf
      (record { public = none; private = none; previous = none })
      (record { sectioned = refl; in_bounds = omega arith; listed = λ z. absurd (z refl) })
