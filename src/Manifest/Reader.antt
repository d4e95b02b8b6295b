-- ===== src/Manifest/Reader.antt =====
-- security/tf_daemon/lib_manifest2.c: `static_libManifest2GetNextItemInternal`, which reads one item.
pub mod Progress
pub mod Replay
pub mod Sections
pub mod Headers
pub mod Values
pub mod Names
pub mod WellFormed
pub mod RoundTrip
pub mod Settled
use camerahal.Common.{
  ℕ, ◌+◌, Bool, true, false, not, ◌&&◌, Option, none, some, List, [], ◌∷◌, ◌==◌, if◌then◌else◌,
  take, drop,
}
use camerahal.Status.{Outcome, success, error, running, bad_format, item_not_found}
use camerahal.Manifest.Scanner.{Scan, reached, failed, scan}
use camerahal.Manifest.Chars.{name_first, check_character}
use camerahal.Manifest.Utf8.{Sequence, initial}
use camerahal.Manifest.Context.{
  ManifestType, is_compiled, has_sections, Context, Item, cr, lf, offset_of,
}
use camerahal.Manifest.Loops.{
  SkipState, between, skip_step, skip_bom, section_step, skip_after_header, NameState, name_step,
  skip_blanks, ValueState, value_step,
}

abbrev pub Reading : Type 0
Reading = Context × Outcome Item

-- `goto error` with S_ERROR_BAD_FORMAT.
abbrev pub malformed : Context → Reading
malformed ctx = (ctx, error bad_format)

-- The end of a section header, behind its `]`.
header_end : ℕ → Context → List ℕ → List ℕ → Reading
header_end fuel ctx name rest = elim (skip_after_header fuel rest) [
  | success rest' ↦ (
    record ctx { offset = offset_of ctx rest'; section_start = offset_of ctx rest' },
    success (record { name = name; value = none }),
  )
  | error e ↦ (ctx, error e)
  | running ↦ (ctx, running)
]

-- A section header, from behind its `[`.
unfoldable pub read_section : ℕ → Context → List ℕ → Reading
unfolding header_end
read_section fuel ctx start = elim (scan section_step 0 start) [
  | failed _ ↦ malformed ctx
  | reached seen [] ↦ malformed ctx
  | reached seen (_ ∷ rest) ↦ header_end fuel ctx (take seen start) rest
]

-- In a compiled manifest the end of the line goes with the value.
unfoldable pub end_line : Context → List ℕ → List ℕ × ℕ
end_line ctx [] = ([], ctx.line)
end_line ctx (c ∷ []) =
    if not (is_compiled ctx.type) then (c ∷ [], ctx.line) else ([], ctx.line + 1)
end_line ctx (c ∷ d ∷ rest) =
    if not (is_compiled ctx.type)
    then (c ∷ d ∷ rest, ctx.line)
    else if c == cr && d == lf
    then (rest, ctx.line + 1)
    else (d ∷ rest, ctx.line + 1)

abbrev initial_value : ValueState
initial_value = record { sequence = initial; seen = 0; last = 0 }

value_end : Context → List ℕ → List ℕ → ValueState → List ℕ → Reading
unfolding end_line
value_end ctx name start s rest =
    let (rest', line') = end_line ctx rest in
    (
      record ctx { offset = offset_of ctx rest'; line = line' },
      success (record { name = name; value = some (take s.last start) }),
    )

-- A value, from its first character; at the end of the bytes no sequence may be open.
unfoldable pub read_value : Context → List ℕ → List ℕ → Reading
unfolding value_end
read_value ctx name start = elim (scan value_step initial_value start) [
  | failed _ ↦ malformed ctx
  | reached s [] ↦
      if not (s.sequence.count == 0) then malformed ctx else value_end ctx name start s []
  | reached s (c ∷ rest) ↦ value_end ctx name start s (c ∷ rest)
]

-- A property, from the first character of its name.
unfoldable pub read_property : Context → ℕ → List ℕ → Reading
read_property ctx c rest =
    if not (check_character c name_first)
    then malformed ctx
    else elim (scan (name_step ctx.type) (record { seen = 1; last = 1 }) rest) [
      | failed _ ↦ malformed ctx
      | reached s [] ↦ malformed ctx
      | reached s (_ ∷ rest') ↦ read_value ctx (take s.last (c ∷ rest)) (skip_blanks rest')
    ]

-- What stands at `pCurrent` once comments and newlines are skipped.
unfoldable pub read_item : ℕ → Context → List ℕ → Reading
read_item fuel ctx [] = (ctx, error item_not_found)
read_item fuel ctx (c ∷ rest) =
    if has_sections ctx.type && c == b'['
    then read_section fuel ctx rest
    else if has_sections ctx.type && ctx.section_start == 0
    then malformed ctx
    else read_property ctx c rest

-- The lines that are skipped are counted in the context also when a line is malformed.
unfoldable pub read_line : ℕ → Context → List ℕ → Reading
read_line fuel ctx start =
    elim (scan skip_step (record { mode = between; line = ctx.line }) start) [
      | failed s ↦ malformed (record ctx { line = s.line })
      | reached s rest ↦ read_item fuel (record ctx { line = s.line }) rest
    ]

unfoldable pub get_next_item_internal : ℕ → Context → Reading
get_next_item_internal fuel ctx =
    let start = drop ctx.offset ctx.content in
    if is_compiled ctx.type
    then read_item fuel ctx start
    else read_line fuel ctx (if ctx.offset == 0 then skip_bom start else start)
