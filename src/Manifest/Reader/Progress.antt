-- ===== src/Manifest/Reader/Progress.antt =====
-- How far one call of the item reader gets: it goes forward exactly when it returns an item.
use mathlib.Core.Path.{subst}
use camerahal.Common.{
  ℕ, zero, suc, ◌-◌, ◌≤◌, ◌<◌, ◌≡◌, inl, inr, refl, not, ◌&&◌, List, [], ◌∷◌, ◌==◌, length, drop,
  take, arith, Bool-cases, length-drop, if◌then◌else◌,
}
use camerahal.Status.{SError, Outcome, success, error, running}
use camerahal.Manifest.Scanner.{scan, Scan-cases, length-scan-le}
use camerahal.Manifest.Chars.{name_first, check_character}
use camerahal.Manifest.Context.{
  is_compiled, has_sections, Context, Item, is_null, is_blank, is_eol, offset_of,
}
use camerahal.Manifest.Loops.{
  between, skip_step, skip_bom, section_step, skip_after_header, name_step, skip_blanks, ValueState,
  value_step,
}
use camerahal.Manifest.Reader.{
  Reading, malformed, header_end, read_section, end_line, initial_value, value_end, read_value,
  read_property, read_item, read_line, get_next_item_internal,
}

-- What a reading does to the context; fewer than `n` bytes remain behind an item.
abbrev pub Moves : Context → ℕ → Reading → Type 0
Moves ctx n (ctx', success item) =
    (ctx'.content ≡ ctx.content)
    × (ctx'.type ≡ ctx.type)
    × (ctx'.section_start ≡ (if is_null item.value then ctx'.offset else ctx.section_start))
    × ((rest : List ℕ) × (ctx'.offset ≡ offset_of ctx rest) × (length rest < n))
Moves ctx n (ctx', error e) =
    (ctx'.content ≡ ctx.content) × (ctx'.type ≡ ctx.type) × (ctx'.offset ≡ ctx.offset)
Moves ctx n (ctx', running) =
    (ctx'.content ≡ ctx.content) × (ctx'.type ≡ ctx.type) × (ctx'.offset ≡ ctx.offset)

length-skip_blanks-le : (l : List ℕ) → length (skip_blanks l) ≤ length l
unfolding skip_blanks
length-skip_blanks-le [] = omega arith
length-skip_blanks-le (c ∷ l) = ground (arith, length-skip_blanks-le l)

length-end_line-le : (ctx : Context) (l : List ℕ) → length (end_line ctx l).0 ≤ length l
unfolding end_line
length-end_line-le ctx [] = omega arith
length-end_line-le ctx (c ∷ []) = ground arith
length-end_line-le ctx (c ∷ d ∷ l) = ground arith

value_end-Moves :
    (ctx : Context) (name start : List ℕ) (s : ValueState) (rest : List ℕ) (n : ℕ)
    → length rest < n
    → Moves ctx n (value_end ctx name start s rest)
unfolding value_end
value_end-Moves ctx name start s rest n h =
    (refl, refl, refl, ((end_line ctx rest).0, refl, omega (arith, length-end_line-le ctx rest)))

read_value-Moves :
    (ctx : Context) (name start : List ℕ) (n : ℕ)
    → length start < n
    → Moves ctx n (read_value ctx name start)
unfolding read_value
read_value-Moves ctx name start n h = elim (Scan-cases (scan value_step initial_value start)) [
  | inl (s, e) ↦ rw (e, read_value) (refl, refl, refl)
  | inr (s, [], e) ↦ rw (e, read_value) (at_end s (omega arith))
  | inr (s, c ∷ rest, e) ↦
      rw (e, read_value)
        (value_end-Moves ctx name start s (c ∷ rest) n
          (omega (arith, length-scan-le value_step initial_value start s (c ∷ rest) e)))
]
  where
    at_end :
        (s : ValueState)
        → 0 < n
        → Moves ctx n
            (if not (s.sequence.count == 0) then malformed ctx else value_end ctx name start s [])
    at_end s z = elim (Bool-cases (s.sequence.count == 0)) [
      | inl e ↦ rw e (value_end-Moves ctx name start s [] n z)
      | inr e ↦ rw e (refl, refl, refl)
    ]

read_property-Moves :
    (ctx : Context) (c : ℕ) (rest : List ℕ) (n : ℕ)
    → length rest < n
    → Moves ctx n (read_property ctx c rest)
unfolding read_property
read_property-Moves ctx c rest n h = elim (Bool-cases (check_character c name_first)) [
  | inr e ↦ rw e (refl, refl, refl)
  | inl e ↦
      rw (e) (elim (Scan-cases (scan (name_step ctx.type) (record { seen = 1; last = 1 }) rest)) [
        | inl (s, e') ↦ rw (e', read_property) (refl, refl, refl)
        | inr (s, [], e') ↦ rw (e', read_property) (refl, refl, refl)
        | inr (s, d ∷ rest', e') ↦
            rw (e', read_property)
              (read_value-Moves ctx (take s.last (c ∷ rest)) (skip_blanks rest') n
                (omega (arith, length-skip_blanks-le rest', length-scan-le _ _ _ _ _ e')))
      ])
]

abbrev Shortens : List ℕ → Outcome (List ℕ) → Type 0
Shortens l (success rest) = length rest ≤ length l
Shortens l _ = Unit

skip_after_header-Shortens : (fuel : ℕ) (l : List ℕ) → Shortens l (skip_after_header fuel l)
unfolding skip_after_header
skip_after_header-Shortens zero l = tt
skip_after_header-Shortens (suc fuel) [] = omega arith
skip_after_header-Shortens (suc fuel) (c ∷ l) = elim (Bool-cases (is_blank c)) [
  | inl e ↦ rw e (weaken (skip_after_header fuel l) (skip_after_header-Shortens fuel l))
  | inr e ↦ rw e (elim (Bool-cases (is_eol c)) [
    | inl e' ↦ rw e' (omega arith)
    | inr e' ↦ rw e' (skip_after_header-Shortens fuel (c ∷ l))
  ])
]
  where
    weaken : (o : Outcome (List ℕ)) → Shortens l o → Shortens (c ∷ l) o
    weaken (success rest) h = omega arith
    weaken (error e) h = tt
    weaken running h = tt

header_end-Moves :
    (fuel : ℕ) (ctx : Context) (name rest : List ℕ) (n : ℕ)
    → length rest < n
    → Moves ctx n (header_end fuel ctx name rest)
unfolding header_end
header_end-Moves fuel ctx name rest n h =
    split_on (skip_after_header fuel rest) refl (skip_after_header-Shortens fuel rest)
  where
    split_on :
        (o : Outcome (List ℕ))
        → skip_after_header fuel rest ≡ o
        → Shortens rest o
        → Moves ctx n (header_end fuel ctx name rest)
    split_on (success rest') e s = rw (e, header_end) (refl, refl, refl, (rest', refl, omega arith))
    split_on (error x) e s = rw (e, header_end) (refl, refl, refl)
    split_on running e s = rw (e, header_end) (refl, refl, refl)

read_section-Moves :
    (fuel : ℕ) (ctx : Context) (start : List ℕ) (n : ℕ)
    → length start < n
    → Moves ctx n (read_section fuel ctx start)
unfolding read_section
read_section-Moves fuel ctx start n h = elim (Scan-cases (scan section_step 0 start)) [
  | inl (s, e) ↦ rw (e, read_section) (refl, refl, refl)
  | inr (s, [], e) ↦ rw (e, read_section) (refl, refl, refl)
  | inr (s, c ∷ rest, e) ↦
      rw (e, read_section)
        (header_end-Moves fuel ctx (take s start) rest n
          (omega (arith, length-scan-le _ _ _ _ _ e)))
]

read_item-Moves :
    (fuel : ℕ) (ctx : Context) (start : List ℕ) (n : ℕ)
    → length start ≤ n
    → Moves ctx n (read_item fuel ctx start)
unfolding read_item
read_item-Moves fuel ctx [] n h = (refl, refl, refl)
read_item-Moves fuel ctx (c ∷ rest) n h = elim (Bool-cases (has_sections ctx.type && c == b'[')) [
  | inl e ↦ rw e (read_section-Moves fuel ctx rest n (omega arith))
  | inr e ↦ rw e (elim (Bool-cases (has_sections ctx.type && ctx.section_start == 0)) [
    | inl e' ↦ rw e' (refl, refl, refl)
    | inr e' ↦ rw e' (read_property-Moves ctx c rest n (omega arith))
  ])
]

with_line :
    (ctx : Context) (l n : ℕ) (r : Reading) → Moves (record ctx { line = l }) n r → Moves ctx n r
with_line ctx l n (ctx', success item) h = h
with_line ctx l n (ctx', error e) h = h
with_line ctx l n (ctx', running) h = h

read_line-Moves :
    (fuel : ℕ) (ctx : Context) (start : List ℕ) (n : ℕ)
    → length start ≤ n
    → Moves ctx n (read_line fuel ctx start)
unfolding read_line
read_line-Moves fuel ctx start n h =
    elim (Scan-cases (scan skip_step (record { mode = between; line = ctx.line }) start)) [
      | inl (s, e) ↦ rw (e, read_line) (refl, refl, refl)
      | inr (s, rest, e) ↦
          rw (e, read_line)
            (with_line ctx s.line n (read_item fuel (record ctx { line = s.line }) rest) (
              read_item-Moves fuel (record ctx { line = s.line }) rest n
                (omega (arith, length-scan-le _ _ _ _ _ e))))
    ]

pub length-skip_bom-le : (l : List ℕ) → length (skip_bom l) ≤ length l
unfolding skip_bom
length-skip_bom-le [] = omega arith
length-skip_bom-le (a ∷ []) = omega arith
length-skip_bom-le (a ∷ b ∷ []) = omega arith
length-skip_bom-le (a ∷ b ∷ c ∷ l) = ground arith

-- The bytes that are left in front of a call.
abbrev pub left : Context → ℕ
left ctx = length ctx.content - ctx.offset

pub internal-Moves :
    (fuel : ℕ) (ctx : Context) → Moves ctx (left ctx) (get_next_item_internal fuel ctx)
unfolding get_next_item_internal
internal-Moves fuel ctx = elim (Bool-cases (is_compiled ctx.type)) [
  | inl e ↦ rw e (
      read_item-Moves fuel ctx (drop ctx.offset ctx.content) (left ctx)
        (omega (arith, length-drop ctx.offset ctx.content)))
  | inr e ↦ rw e (
      read_line-Moves fuel ctx start (left ctx) (
        ground (
          arith,
          length-drop ctx.offset ctx.content,
          length-skip_bom-le (drop ctx.offset ctx.content),
        )))
]
  where
    start : List ℕ
    start =
        if ctx.offset == 0
        then skip_bom (drop ctx.offset ctx.content)
        else drop ctx.offset ctx.content

-- A call from within the content that returns an item leaves the content and the type alone and
-- moves the offset forward, at most to the end of the content; the start of the section becomes
-- the new offset at a section header, and stays at a property.
pub internal-advances :
    (fuel : ℕ) (ctx ctx' : Context) (item : Item)
    → ctx.offset ≤ length ctx.content
    → get_next_item_internal fuel ctx ≡ (ctx', success item)
    → (ctx'.content ≡ ctx.content)
      × (ctx'.type ≡ ctx.type)
      × (ctx'.section_start ≡ (if is_null item.value then ctx'.offset else ctx.section_start))
      × (ctx.offset < ctx'.offset)
      × (ctx'.offset ≤ length ctx.content)
internal-advances fuel ctx ctx' item h e =
    let (c, t, s, (rest, o, l)) = subst (Moves ctx (left ctx)) e (internal-Moves fuel ctx) in
    (c, t, s, omega arith, omega arith)

-- A call that returns an error leaves the offset where it was.
pub internal-error_offset :
    (fuel : ℕ) (ctx ctx' : Context) (x : SError)
    → get_next_item_internal fuel ctx ≡ (ctx', error x)
    → ctx'.offset ≡ ctx.offset
internal-error_offset fuel ctx ctx' x e =
    (subst (Moves ctx (left ctx)) e (internal-Moves fuel ctx)).2
