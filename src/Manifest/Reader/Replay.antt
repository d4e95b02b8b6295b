-- ===== src/Manifest/Reader/Replay.antt =====
-- Reading the same place again, with another line counter and inside another section, gives the same
-- item and stops at the same offset.
use camerahal.Common.{
  ℕ, ◌≡◌, ◌≢◌, ◌⊎◌, inl, inr, refl, ap, ◌∙◌, false, ◌&&◌, List, [], ◌∷◌, ◌==◌, drop, take, arith,
  Bool-cases, if◌then◌else◌,
}
use camerahal.Status.{Outcome, success, error, running}
use camerahal.Manifest.Scanner.{Action, go, stop, fail, Scan, reached, failed, scan, Scan-cases}
use camerahal.Manifest.Chars.{name_first, check_character}
use camerahal.Manifest.Context.{ManifestType, is_compiled, has_sections, Context, Item}
use camerahal.Manifest.Loops.{
  between, skip_step, skip_bom, section_step, skip_after_header, name_step, skip_blanks, ValueState,
  value_step, SkipMode, after_cr, in_comment, in_blank, SkipState,
}
use camerahal.Manifest.Reader.{
  Reading, malformed, header_end, read_section, end_line, initial_value, value_end, read_value,
  read_property, read_item, read_line, get_next_item_internal,
}

-- Where a reading stops, and with what.
abbrev pub view : Reading → ℕ × Outcome Item
view (ctx, o) = (ctx.offset, o)

abbrev pub elsewhere : Context → ℕ → ℕ → Context
elsewhere ctx l s = record ctx { line = l; section_start = s }

module _ (ctx : Context) (l s : ℕ) where
  end_line-elsewhere :
      (rest : List ℕ) → (end_line (elsewhere ctx l s) rest).0 ≡ (end_line ctx rest).0
  unfolding end_line
  end_line-elsewhere [] = refl
  end_line-elsewhere (c ∷ []) = ground arith
  end_line-elsewhere (c ∷ d ∷ rest) = ground arith

  value_end-elsewhere :
      (name start : List ℕ) (v : ValueState) (rest : List ℕ)
      → view (value_end (elsewhere ctx l s) name start v rest)
        ≡ view (value_end ctx name start v rest)
  unfolding value_end
  value_end-elsewhere name start v rest = rw (end_line-elsewhere rest)

  read_value-elsewhere :
      (name start : List ℕ)
      → view (read_value (elsewhere ctx l s) name start) ≡ view (read_value ctx name start)
  unfolding read_value
  read_value-elsewhere name start = elim (Scan-cases (scan value_step initial_value start)) [
    | inl (v, e) ↦ rw (e, read_value)
    | inr (v, [], e) ↦ rw (e, read_value) (ground (arith, value_end-elsewhere name start v []))
    | inr (v, c ∷ rest, e) ↦ rw (e, read_value) (value_end-elsewhere name start v (c ∷ rest))
  ]

  read_property-elsewhere :
      (c : ℕ) (rest : List ℕ)
      → view (read_property (elsewhere ctx l s) c rest) ≡ view (read_property ctx c rest)
  unfolding read_property
  read_property-elsewhere c rest = elim (Bool-cases (check_character c name_first)) [
    | inr e ↦ rw e
    | inl e ↦
        rw e (elim (Scan-cases (scan (name_step ctx.type) (record { seen = 1; last = 1 }) rest)) [
          | inl (v, e') ↦ rw (e', read_property)
          | inr (v, [], e') ↦ rw (e', read_property)
          | inr (v, d ∷ rest', e') ↦
              rw (e', read_property)
                (read_value-elsewhere (take v.last (c ∷ rest)) (skip_blanks rest'))
        ])
  ]

  header_end-elsewhere :
      (fuel : ℕ) (name rest : List ℕ)
      → view (header_end fuel (elsewhere ctx l s) name rest) ≡ view (header_end fuel ctx name rest)
  unfolding header_end
  header_end-elsewhere fuel name rest = split_on (skip_after_header fuel rest) refl
    where
      split_on :
          (o : Outcome (List ℕ))
          → skip_after_header fuel rest ≡ o
          → view (header_end fuel (elsewhere ctx l s) name rest)
            ≡ view (header_end fuel ctx name rest)
      split_on (success _) e = rw (e, header_end)
      split_on (error _) e = rw (e, header_end)
      split_on running e = rw (e, header_end)

  read_section-elsewhere :
      (fuel : ℕ) (start : List ℕ)
      → view (read_section fuel (elsewhere ctx l s) start) ≡ view (read_section fuel ctx start)
  unfolding read_section
  read_section-elsewhere fuel start = elim (Scan-cases (scan section_step 0 start)) [
    | inl (v, e) ↦ rw (e, read_section)
    | inr (v, [], e) ↦ rw (e, read_section)
    | inr (v, c ∷ rest, e) ↦ rw (e, read_section) (header_end-elsewhere fuel (take v start) rest)
  ]

-- Both loops over comments and newlines do the same; only the counted lines differ.
abbrev SameAction : Action SkipState → Action SkipState → Type 0
SameAction (go s) (go t) = s.mode ≡ t.mode
SameAction stop stop = Unit
SameAction fail fail = Unit
SameAction _ _ = ⊥

abbrev SameScan : Scan SkipState → Scan SkipState → Type 0
SameScan (reached s rest) (reached t rest') = rest ≡ rest'
SameScan (failed s) (failed t) = Unit
SameScan _ _ = ⊥

skip_step-SameAction :
    (m : SkipMode) (j k c : ℕ)
    → SameAction
        (skip_step (record { mode = m; line = j }) c)
        (skip_step (record { mode = m; line = k }) c)
unfolding skip_step
skip_step-SameAction between j k c = ground arith
skip_step-SameAction after_cr j k c = ground arith
skip_step-SameAction in_comment j k c = ground arith
skip_step-SameAction in_blank j k c = ground arith

scan-SameScan :
    (input : List ℕ) (m : SkipMode) (j k : ℕ)
    → SameScan
        (scan skip_step (record { mode = m; line = j }) input)
        (scan skip_step (record { mode = m; line = k }) input)
unfolding scan
scan-SameScan [] m j k = refl
scan-SameScan (c ∷ input) m j k =
    split_on (skip_step (record { mode = m; line = j }) c)
      (skip_step (record { mode = m; line = k }) c) refl refl (skip_step-SameAction m j k c)
      (scan-SameScan input)
  where
    split_on :
        (a b : Action SkipState)
        → skip_step (record { mode = m; line = j }) c ≡ a
        → skip_step (record { mode = m; line = k }) c ≡ b
        → SameAction a b
        → ((m : SkipMode) (j k : ℕ)
            → SameScan
                (scan skip_step (record { mode = m; line = j }) input)
                (scan skip_step (record { mode = m; line = k }) input))
        → SameScan
            (scan skip_step (record { mode = m; line = j }) (c ∷ input))
            (scan skip_step (record { mode = m; line = k }) (c ∷ input))
    split_on (go s) (go t) e e' same ih = rw (e, e', scan) (rw same (ih t.mode s.line t.line))
    split_on (go s) stop e e' same ih = absurd same
    split_on (go s) fail e e' same ih = absurd same
    split_on stop (go t) e e' same ih = absurd same
    split_on stop stop e e' same ih = rw (e, e', scan) refl
    split_on stop fail e e' same ih = absurd same
    split_on fail (go t) e e' same ih = absurd same
    split_on fail stop e e' same ih = absurd same
    split_on fail fail e e' same ih = rw (e, e', scan) tt

-- A section has been entered, if the manifest has sections at all.
abbrev pub Enters : ManifestType → ℕ → Type 0
Enters type s = (has_sections type ≡ false) ⊎ (s ≢ 0)

Enters-test : (type : ManifestType) (s : ℕ) → Enters type s → (has_sections type && s == 0) ≡ false
Enters-test type s h = ground arith

read_item-elsewhere :
    (fuel : ℕ) (ctx : Context) (l s : ℕ) (start : List ℕ) (ctx' : Context) (item : Item)
    → Enters ctx.type s
    → read_item fuel ctx start ≡ (ctx', success item)
    → view (read_item fuel (elsewhere ctx l s) start) ≡ (ctx'.offset, success item)
unfolding read_item
read_item-elsewhere fuel ctx l s [] ctx' item h e = let e' = ap (λ (r : Reading). r.1) e in cc
read_item-elsewhere fuel ctx l s (c ∷ rest) ctx' item h e =
    elim (Bool-cases (has_sections ctx.type && c == b'[')) [
      | inl t ↦ rw t (read_section-elsewhere ctx l s fuel rest ∙ ap view (rw t at e))
      | inr t ↦ elim (Bool-cases (has_sections ctx.type && ctx.section_start == 0)) [
        | inl u ↦
            let e' : malformed ctx ≡ (ctx', success item) = rw (t, u) at e in
            let e'' = ap (λ (r : Reading). r.1) e' in cc
        | inr u ↦
            rw (t, Enters-test ctx.type s h)
              (read_property-elsewhere ctx l s c rest ∙ ap view (rw (t, u) at e))
      ]
    ]

read_line-elsewhere :
    (fuel : ℕ) (ctx : Context) (l s : ℕ) (start : List ℕ) (ctx' : Context) (item : Item)
    → Enters ctx.type s
    → read_line fuel ctx start ≡ (ctx', success item)
    → view (read_line fuel (elsewhere ctx l s) start) ≡ (ctx'.offset, success item)
unfolding read_line
read_line-elsewhere fuel ctx l s start ctx' item h e =
    split_on (scan skip_step (from ctx.line) start) (scan skip_step (from l) start) refl refl
      (scan-SameScan start between ctx.line l)
  where
    from : ℕ → SkipState
    from k = record { mode = between; line = k }

    split_on :
        (a b : Scan SkipState)
        → scan skip_step (from ctx.line) start ≡ a
        → scan skip_step (from l) start ≡ b
        → SameScan a b
        → view (read_line fuel (elsewhere ctx l s) start) ≡ (ctx'.offset, success item)
    split_on (reached u r) (reached v r') p q same =
        let e' : read_item fuel (elsewhere ctx u.line ctx.section_start) r ≡ (ctx', success item) =
          rw (p, read_line) at e in
        rw (q, read_line)
          (rw (← same) (
            read_item-elsewhere fuel (elsewhere ctx u.line ctx.section_start) v.line s r ctx' item h
              e'))
    split_on (failed u) b p q same =
        let e' : malformed (elsewhere ctx u.line ctx.section_start) ≡ (ctx', success item) =
          rw (p, read_line) at e in
        let e'' = ap (λ (r : Reading). r.1) e' in cc
    split_on (reached u r) (failed v) p q same = absurd same

-- An item that was read is read again from the same offset of the same content, and up to the same
-- offset, whatever the line counter, and whatever the section if the manifest has them.
pub internal-elsewhere :
    (fuel : ℕ) (ctx : Context) (l s : ℕ) (ctx' : Context) (item : Item)
    → Enters ctx.type s
    → get_next_item_internal fuel ctx ≡ (ctx', success item)
    → view (get_next_item_internal fuel (elsewhere ctx l s)) ≡ (ctx'.offset, success item)
unfolding get_next_item_internal
internal-elsewhere fuel ctx l s ctx' item h e = elim (Bool-cases (is_compiled ctx.type)) [
  | inl t ↦
      rw t (read_item-elsewhere fuel ctx l s (drop ctx.offset ctx.content) ctx' item h (rw t at e))
  | inr t ↦ rw t (read_line-elsewhere fuel ctx l s start ctx' item h (rw t at e))
]
  where
    start : List ℕ
    start =
        if ctx.offset == 0
        then skip_bom (drop ctx.offset ctx.content)
        else drop ctx.offset ctx.content
