-- ===== src/Manifest/Reader/RoundTrip.antt =====
-- A property that is written on a line is read back.
use camerahal.Common.{
  ℕ, suc, ◌+◌, ◌≡◌, inl, inr, refl, ap, ◌∙◌, Bool, true, false, none, some, List, [], ◌∷◌, ◌++◌,
  ◌==◌, length, drop, arith, Option-cases, if◌then◌else◌, All, take-append,
}
use camerahal.Status.{success}
use camerahal.Manifest.Scanner.{go, stop, reached, scan, scan-append, scan-stop, Passes}
use camerahal.Manifest.Chars.{name_first, name_subsequent, check_character}
use camerahal.Manifest.Utf8.{Sequence, initial, utf8_step}
use camerahal.Manifest.Utf8.Encoding.{utf8_run, utf8_run-encode_all}
use camerahal.Manifest.Context.{ManifestType, is_compiled, Context, is_blank, is_eol, lf, offset_of}
use camerahal.Manifest.Loops.{
  between, skip_step, skip_bom, NameState, name_step, skip_blanks, ValueState, value_step,
}
use camerahal.Manifest.Reader.{
  end_line, initial_value, value_end, read_value, read_property, read_item, read_line,
  get_next_item_internal,
}
use camerahal.Manifest.Reader.Replay.{Enters}
use camerahal.Manifest.Reader.Names.{IsName}
use camerahal.Manifest.Reader.Values.{IsValue, begins_blank, Passes-last}

-- A step of the check within a line is a step of the scan.
value_step-go :
    (s : ValueState) (c : ℕ) (q : Sequence)
    → utf8_step s.sequence c ≡ some q
    → is_eol c ≡ false
    → (t : ValueState) × (value_step s c ≡ go t) × (t.sequence ≡ q)
unfolding value_step
value_step-go s c q e l = (
  record { sequence = q; seen = s.seen + 1; last = if is_blank c then s.last else s.seen + 1 },
  rw (e, value_step) (ground arith),
  refl,
)

value-Passes :
    (v : List ℕ) (s : ValueState) (q : Sequence)
    → utf8_run s.sequence v ≡ some q
    → All (λ c. is_eol c ≡ false) v
    → (t : ValueState) × Passes value_step s v t × (t.sequence ≡ q)
value-Passes [] s q e l = (s, refl, ground arith)
value-Passes (c ∷ v) s q e l = elim (Option-cases (utf8_step s.sequence c)) [
  | inl n ↦ let h' : none ≡ some q = rw (n, utf8_run) at e in absurd (cc)
  | inr (u, n) ↦
      let (t, g, eq) = value_step-go s c u n l.0 in
      let run : utf8_run t.sequence v ≡ some q = rw eq (rw (n, utf8_run) at e) in
      let (t', p, eq') = value-Passes v t q run l.1 in (t', (t, g, p), eq')
]

-- A value is gone past to its end, with nothing left open and nothing left off.
value-scanned :
    (v : List ℕ)
    → IsValue v
    → (s : ValueState) × Passes value_step initial_value v s
      × (s.sequence.count ≡ 0)
      × (s.last ≡ length v)
value-scanned v h =
    let (e, run) = utf8_run-encode_all h.code_points 0 h.scalars in
    let run' : utf8_run initial v ≡ some (record { count = 0; char = e }) = rw (h.encoded) run in
    let (s, p, eq) =
      value-Passes v initial_value (record { count = 0; char = e }) run' h.one_line in
    (s, p, ap (λ q. q.count) eq, Passes-last v s p h.ends)

lf-stop : (s : ValueState) → s.sequence.count ≡ 0 → value_step s lf ≡ stop
unfolding value_step utf8_step
lf-stop s z = ground arith

end_line-source :
    (ctx : Context) (l : List ℕ) → is_compiled ctx.type ≡ false → end_line ctx l ≡ (l, ctx.line)
unfolding end_line
end_line-source ctx [] h = refl
end_line-source ctx (c ∷ []) h = rw h
end_line-source ctx (c ∷ d ∷ l) h = rw h

read_value-line :
    (ctx : Context) (name v rest : List ℕ)
    → IsValue v
    → is_compiled ctx.type ≡ false
    → read_value ctx name (v ++ lf ∷ rest) ≡ (
      record ctx { offset = offset_of ctx (lf ∷ rest) },
      success (record { name = name; value = some v }),
    )
unfolding read_value value_end
read_value-line ctx name v rest h plain =
    let (s, p, z, all) = value-scanned v h in
    let reaches : scan value_step initial_value (v ++ lf ∷ rest) ≡ reached s (lf ∷ rest) =
      scan-append value_step initial_value v (lf ∷ rest) s p
      ∙ scan-stop value_step s lf rest (lf-stop s z) in
    rw (reaches, read_value) (rw (end_line-source ctx (lf ∷ rest) plain, all, take-append))

-- The name and the colon behind it.
name_char-step :
    (type : ManifestType) (c n : ℕ)
    → check_character c name_subsequent ≡ true
    → name_step type (record { seen = n; last = n }) c ≡ go (record { seen = n + 1; last = n + 1 })
unfolding name_step check_character
name_char-step type c n h = ground arith

name-Passes :
    (type : ManifestType) (cs : List ℕ) (n m : ℕ)
    → All (λ x. check_character x name_subsequent ≡ true) cs
    → m ≡ n + length cs
    → Passes (name_step type) (record { seen = n; last = n }) cs (record { seen = m; last = m })
name-Passes type [] n m h e = λ i. record { seen = same i; last = same i }
  where
    same : n ≡ m
    same = omega arith
name-Passes type (c ∷ cs) n m h e = (
  record { seen = n + 1; last = n + 1 },
  name_char-step type c n h.0,
  name-Passes type cs (n + 1) m h.1 (omega arith),
)

colon-stop : (type : ManifestType) (s : NameState) → name_step type s b':' ≡ stop
unfolding name_step
colon-stop type s = refl

skip_blanks-value :
    (v rest : List ℕ) → begins_blank v ≡ false → skip_blanks (v ++ lf ∷ rest) ≡ v ++ lf ∷ rest
unfolding skip_blanks
skip_blanks-value [] rest h = refl
skip_blanks-value (c ∷ v) rest h = rw h

-- `name: value` and the rest of the text, behind the first character of the name.
abbrev written : List ℕ → List ℕ → List ℕ → List ℕ
written cs v rest = cs ++ b':' ∷ b' ' ∷ (v ++ lf ∷ rest)

read_property-line :
    (ctx : Context) (c : ℕ) (cs v rest : List ℕ)
    → IsName (c ∷ cs)
    → IsValue v
    → is_compiled ctx.type ≡ false
    → read_property ctx c (written cs v rest) ≡ (
      record ctx { offset = offset_of ctx (lf ∷ rest) },
      success (record { name = c ∷ cs; value = some v }),
    )
unfolding read_property skip_blanks
read_property-line ctx c cs v rest n h plain =
    rw (n.0, reaches, read_property)
      (rw (take-append cs (b':' ∷ b' ' ∷ (v ++ lf ∷ rest)), skip_blanks-value v rest h.begins)
        (read_value-line ctx (c ∷ cs) v rest h plain))
  where
    s : NameState
    s = record { seen = suc (length cs); last = suc (length cs) }

    reaches :
        scan (name_step ctx.type) (record { seen = 1; last = 1 }) (written cs v rest)
        ≡ reached s (b':' ∷ b' ' ∷ (v ++ lf ∷ rest))
    reaches =
        scan-append (name_step ctx.type) (record { seen = 1; last = 1 }) cs _ s
          (name-Passes ctx.type cs 1 (suc (length cs)) n.1 (omega arith))
        ∙ scan-stop (name_step ctx.type) s b':' (b' ' ∷ (v ++ lf ∷ rest)) (colon-stop ctx.type s)

module _ (c : ℕ) (first : check_character c name_first ≡ true) where
  skip_step-name : (l : ℕ) → skip_step (record { mode = between; line = l }) c ≡ stop
  unfolding skip_step check_character
  skip_step-name l = ground arith

  skip_bom-name : (l : List ℕ) → skip_bom (c ∷ l) ≡ c ∷ l
  unfolding skip_bom check_character
  skip_bom-name [] = refl
  skip_bom-name (b ∷ []) = refl
  skip_bom-name (b ∷ d ∷ l) = ground arith

  ne-bracket : (c == b'[') ≡ false
  unfolding check_character
  ne-bracket = ground arith

  read_item-name :
      (fuel : ℕ) (ctx : Context) (l : List ℕ)
      → Enters ctx.type ctx.section_start
      → read_item fuel ctx (c ∷ l) ≡ read_property ctx c l
  unfolding read_item
  read_item-name fuel ctx l h = elim h [
    | inl plain ↦ rw plain
    | inr inside ↦ rw (ne-bracket) (ground arith)
  ]

  read_line-name :
      (fuel : ℕ) (ctx : Context) (l : List ℕ)
      → Enters ctx.type ctx.section_start
      → read_line fuel ctx (c ∷ l) ≡ read_property ctx c l
  unfolding read_line
  read_line-name fuel ctx l h =
      rw
        (
          scan-stop skip_step (record { mode = between; line = ctx.line }) c l
              (skip_step-name ctx.line),
          read_line,
        )
        (read_item-name fuel ctx l h)

-- A property with a well-formed name and value, written as `name: value` at the offset of a source
-- manifest and ended by a line feed, is read back as it is, inside a section if the manifest has
-- sections, and the reader stops at the end of that line.
pub internal-written :
    (fuel : ℕ) (ctx : Context) (c : ℕ) (cs v rest : List ℕ)
    → is_compiled ctx.type ≡ false
    → Enters ctx.type ctx.section_start
    → IsName (c ∷ cs)
    → IsValue v
    → drop ctx.offset ctx.content ≡ c ∷ (cs ++ b':' ∷ b' ' ∷ (v ++ lf ∷ rest))
    → get_next_item_internal fuel ctx ≡ (
      record ctx { offset = offset_of ctx (lf ∷ rest) },
      success (record { name = c ∷ cs; value = some v }),
    )
unfolding get_next_item_internal
internal-written fuel ctx c cs v rest plain h n val here =
    rw (plain, here, skip_bom-name c n.0)
      (same_start (ctx.offset == 0) ∙ read_property-line ctx c cs v rest n val plain)
  where
    text : List ℕ
    text = written cs v rest

    same_start :
        (b : Bool)
        → read_line fuel ctx (if b then c ∷ text else c ∷ text) ≡ read_property ctx c text
    same_start true = read_line-name c n.0 fuel ctx text h
    same_start false = read_line-name c n.0 fuel ctx text h
