-- ===== src/Manifest/Reader/WellFormed.antt =====
-- Every item that the reader returns is well formed.
use mathlib.Core.Path.{subst}
use camerahal.Common.{
  ℕ, ◌+◌, ◌<◌, ◌≡◌, inl, inr, refl, Bool, true, false, ◌&&◌, none, some, List, [], ◌∷◌, ◌==◌,
  length, take, drop, take-append, ==→eq, arith, Bool-cases, if◌then◌else◌, All, All-prefix,
  All-suffix, All-drop,
}
use camerahal.Status.{Outcome, success, error, running}
use camerahal.Manifest.Scanner.{
  Action, go, reached, scan, Scan-cases, scan-Scanned, Passes, Passes-All,
}
use camerahal.Manifest.Chars.{name_first, section_name, check_character}
use camerahal.Manifest.Chars.CaseFolding.{IsSectionName}
use camerahal.Manifest.Context.{is_compiled, has_sections, Context, Item, is_blank}
use camerahal.Manifest.Loops.{
  between, skip_step, skip_bom, section_step, skip_after_header, name_step, skip_blanks, ValueState,
  value_step,
}
use camerahal.Manifest.Reader.{
  Reading, header_end, read_section, initial_value, value_end, read_value, read_property, read_item,
  read_line, get_next_item_internal,
}
use camerahal.Manifest.Reader.Names.{IsName, scan-IsName}
use camerahal.Manifest.Reader.Values.{
  IsValue, scan-IsValue, begins_blank, begins_blank-skip, value_step-stop,
}

abbrev pub IsItem : Item → Type 0
IsItem item = elim (item.value) [
  | none ↦ IsSectionName item.name
  | some v ↦ IsName item.name × IsValue v
]

abbrev Yields : Reading → Type 0
Yields (ctx, success item) = IsItem item
Yields _ = Unit

abbrev AreBytes : List ℕ → Type 0
AreBytes = All (λ c. c < 256)

AreBytes-skip_blanks : (l : List ℕ) → AreBytes l → AreBytes (skip_blanks l)
unfolding skip_blanks
AreBytes-skip_blanks [] h = tt
AreBytes-skip_blanks (c ∷ l) h = elim (Bool-cases (is_blank c)) [
  | inl b ↦ rw b (AreBytes-skip_blanks l h.1)
  | inr b ↦ rw b h
]

scan-AreBytes {ℓ} :
    {S : Type ℓ} (step : S → ℕ → Action S) (s : S) (input : List ℕ) (s' : S) (rest : List ℕ)
    → scan step s input ≡ reached s' rest
    → AreBytes input
    → AreBytes rest
scan-AreBytes step s input s' rest h b =
    let w = scan-Scanned step s input s' rest h in
    All-suffix (λ c. c < 256) w.consumed rest (subst AreBytes w.split b)

value_end-Yields :
    (ctx : Context) (name start rest : List ℕ) (s : ValueState)
    → IsName name
    → AreBytes start
    → begins_blank start ≡ false
    → scan value_step initial_value start ≡ reached s rest
    → s.sequence.count ≡ 0
    → Yields (value_end ctx name start s rest)
unfolding value_end
value_end-Yields ctx name start rest s n bytes b e z =
    let w = scan-Scanned value_step initial_value start s rest e in
    (
      n,
      rw (w.split) (
          scan-IsValue w.consumed rest s
            (All-prefix (λ c. c < 256) w.consumed rest (subst AreBytes w.split bytes))
            (subst (λ l. begins_blank l ≡ false) w.split b) w.passes z),
    )

read_value-Yields :
    (ctx : Context) (name start : List ℕ)
    → IsName name
    → AreBytes start
    → begins_blank start ≡ false
    → Yields (read_value ctx name start)
unfolding read_value
read_value-Yields ctx name start n bytes b =
    elim (Scan-cases (scan value_step initial_value start)) [
      | inl (s, e) ↦ rw (e, read_value) tt
      | inr (s, [], e) ↦
          rw (e, read_value)
            (elim (Bool-cases (s.sequence.count == 0)) [
              | inl z ↦ rw z (value_end-Yields ctx name start [] s n bytes b e (==→eq _ 0 z))
              | inr z ↦ rw z tt
            ])
      | inr (s, c ∷ rest, e) ↦
          let w = scan-Scanned value_step initial_value start s (c ∷ rest) e in
          rw (e, read_value)
            (value_end-Yields ctx name start (c ∷ rest) s n bytes b e
              (value_step-stop s c w.leaves))
    ]

read_property-Yields :
    (ctx : Context) (c : ℕ) (rest : List ℕ) → AreBytes rest → Yields (read_property ctx c rest)
unfolding read_property
read_property-Yields ctx c rest bytes = elim (Bool-cases (check_character c name_first)) [
  | inr e ↦ rw e tt
  | inl f ↦
      rw f (elim (Scan-cases (scan (name_step ctx.type) (record { seen = 1; last = 1 }) rest)) [
        | inl (s, e) ↦ rw (e, read_property) tt
        | inr (s, [], e) ↦ rw (e, read_property) tt
        | inr (s, d ∷ rest', e) ↦
            let w =
              scan-Scanned (name_step ctx.type) (record { seen = 1; last = 1 }) rest s (d ∷ rest')
                e in
            let named : IsName (take s.last (c ∷ rest)) =
              rw (w.split) (scan-IsName ctx.type c w.consumed (d ∷ rest') s f w.passes) in
            rw (e, read_property)
              (read_value-Yields ctx (take s.last (c ∷ rest)) (skip_blanks rest') named
                (AreBytes-skip_blanks rest' (scan-AreBytes _ _ rest s (d ∷ rest') e bytes).1)
                (begins_blank-skip rest'))
      ])
]

header_end-Yields :
    (fuel : ℕ) (ctx : Context) (name rest : List ℕ)
    → IsSectionName name
    → Yields (header_end fuel ctx name rest)
unfolding header_end
header_end-Yields fuel ctx name rest n = split_on (skip_after_header fuel rest) refl
  where
    split_on :
        (o : Outcome (List ℕ))
        → skip_after_header fuel rest ≡ o
        → Yields (header_end fuel ctx name rest)
    split_on (success _) e = rw (e, header_end) n
    split_on (error _) e = rw (e, header_end) tt
    split_on running e = rw (e, header_end) tt

section_step-go :
    (n c m : ℕ) → section_step n c ≡ go m → (check_character c section_name ≡ true) × (m ≡ n + 1)
unfolding section_step
section_step-go n c m h = ground arith

section-seen : (n : ℕ) (cs : List ℕ) (m : ℕ) → Passes section_step n cs m → m ≡ n + length cs
section-seen n [] m e = omega arith
section-seen n (c ∷ cs) m (t, e, r) =
    omega (arith, section-seen t cs m r, (section_step-go n c t e).1)

read_section-Yields :
    (fuel : ℕ) (ctx : Context) (start : List ℕ) → Yields (read_section fuel ctx start)
unfolding read_section
read_section-Yields fuel ctx start = elim (Scan-cases (scan section_step 0 start)) [
  | inl (s, e) ↦ rw (e, read_section) tt
  | inr (s, [], e) ↦ rw (e, read_section) tt
  | inr (s, c ∷ rest, e) ↦
      let w = scan-Scanned section_step 0 start s (c ∷ rest) e in
      let all : s ≡ length w.consumed = omega (arith, section-seen 0 w.consumed s w.passes) in
      let chars : IsSectionName w.consumed =
        Passes-All section_step (λ x. check_character x section_name ≡ true)
          (λ n x m g. (section_step-go n x m g).0) 0 w.consumed s w.passes in
      let named : IsSectionName (take s start) =
        rw (w.split, all) (rw (take-append w.consumed (c ∷ rest)) chars) in
      rw (e, read_section) (header_end-Yields fuel ctx (take s start) rest named)
]

read_item-Yields :
    (fuel : ℕ) (ctx : Context) (start : List ℕ) → AreBytes start → Yields (read_item fuel ctx start)
unfolding read_item
read_item-Yields fuel ctx [] b = tt
read_item-Yields fuel ctx (c ∷ rest) b = elim (Bool-cases (has_sections ctx.type && c == b'[')) [
  | inl e ↦ rw e (read_section-Yields fuel ctx rest)
  | inr e ↦ rw e (elim (Bool-cases (has_sections ctx.type && ctx.section_start == 0)) [
    | inl e' ↦ rw e' tt
    | inr e' ↦ rw e' (read_property-Yields ctx c rest b.1)
  ])
]

read_line-Yields :
    (fuel : ℕ) (ctx : Context) (start : List ℕ) → AreBytes start → Yields (read_line fuel ctx start)
unfolding read_line
read_line-Yields fuel ctx start b =
    elim (Scan-cases (scan skip_step (record { mode = between; line = ctx.line }) start)) [
      | inl (s, e) ↦ rw (e, read_line) tt
      | inr (s, rest, e) ↦
          rw (e, read_line)
            (read_item-Yields fuel (record ctx { line = s.line }) rest
              (scan-AreBytes _ _ start s rest e b))
    ]

AreBytes-skip_bom : (l : List ℕ) → AreBytes l → AreBytes (skip_bom l)
unfolding skip_bom
AreBytes-skip_bom [] h = h
AreBytes-skip_bom (a ∷ []) h = h
AreBytes-skip_bom (a ∷ b ∷ []) h = h
AreBytes-skip_bom (a ∷ b ∷ c ∷ l) h = elim (Bool-cases (a == 0xEF && (b == 0xBB && c == 0xBF))) [
  | inl e ↦ rw e h.1.1.1
  | inr e ↦ rw e h
]

internal-Yields :
    (fuel : ℕ) (ctx : Context) → AreBytes ctx.content → Yields (get_next_item_internal fuel ctx)
unfolding get_next_item_internal
internal-Yields fuel ctx b = elim (Bool-cases (is_compiled ctx.type)) [
  | inl e ↦ rw e (read_item-Yields fuel ctx start here)
  | inr e ↦ rw e (read_line-Yields fuel ctx _ (from_start (ctx.offset == 0)))
]
  where
    start : List ℕ
    start = drop ctx.offset ctx.content

    here : AreBytes start
    here = All-drop (λ c. c < 256) ctx.offset ctx.content b

    from_start : (t : Bool) → AreBytes (if t then skip_bom start else start)
    from_start true = AreBytes-skip_bom start here
    from_start false = here

-- An item that is read from bytes is well formed: a section header has a name of section
-- characters; a property has a name that begins with a letter or a digit and goes on with name
-- characters, and a value that is UTF-8 text without NUL, lies on one line, and has no blank at
-- either end.
pub internal-IsItem :
    (fuel : ℕ) (ctx ctx' : Context) (item : Item)
    → All (λ c. c < 256) ctx.content
    → get_next_item_internal fuel ctx ≡ (ctx', success item)
    → IsItem item
internal-IsItem fuel ctx ctx' item b e = subst Yields e (internal-Yields fuel ctx b)
