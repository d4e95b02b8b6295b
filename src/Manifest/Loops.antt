-- ===== src/Manifest/Loops.antt =====
-- security/tf_daemon/lib_manifest2.c: the loops of `static_libManifest2GetNextItemInternal`.
-- `pCurrent` is the list of the bytes from there to `pEnd`.
use camerahal.Common.{ℕ, zero, suc, ◌+◌, not, ◌&&◌, none, some, List, [], ◌∷◌, ◌==◌, if◌then◌else◌}
use camerahal.Status.{Outcome, success, running}
use camerahal.Manifest.Scanner.{Action, go, stop, fail}
use camerahal.Manifest.Chars.{name_subsequent, section_name, check_character}
use camerahal.Manifest.Utf8.{Sequence, utf8_step}
use camerahal.Manifest.Context.{ManifestType, is_compiled, cr, lf, is_blank, is_eol}

unfoldable pub skip_bom : List ℕ → List ℕ
skip_bom (a ∷ b ∷ c ∷ rest) =
    if a == 0xEF && (b == 0xBB && c == 0xBF) then rest else a ∷ b ∷ c ∷ rest
skip_bom rest = rest

-- Where the loop over comments and newlines stands: between two lines, behind a carriage return,
-- inside a comment, inside a line of whitespace.
pub data SkipMode : Type 0 where
  between after_cr in_comment in_blank : SkipMode

pub record SkipState : Type 0 where
  pub mode : SkipMode
  pub line : ℕ

between_step : ℕ → ℕ → Action SkipState
between_step line c =
    if c == b'#'
    then go (record { mode = in_comment; line = line })
    else if c == cr
    then go (record { mode = after_cr; line = line + 1 })
    else if c == lf
    then go (record { mode = between; line = line + 1 })
    else if is_blank c
    then go (record { mode = in_blank; line = line })
    else stop

mode_step : SkipMode → ℕ → ℕ → Action SkipState
unfolding between_step
mode_step between line c = between_step line c
mode_step after_cr line c =
    if c == lf then go (record { mode = between; line = line }) else between_step line c
mode_step in_comment line c =
    if is_eol c
    then between_step line c
    else if c == 0
    then fail
    else go (record { mode = in_comment; line = line })
mode_step in_blank line c =
    if is_eol c
    then between_step line c
    else if is_blank c
    then go (record { mode = in_blank; line = line })
    else fail

unfoldable pub skip_step : SkipState → ℕ → Action SkipState
unfolding mode_step
skip_step s c = mode_step s.mode s.line c

-- The state is the number of bytes since `*ppName`.
unfoldable pub section_step : ℕ → ℕ → Action ℕ
section_step seen c =
    if c == b']' then stop else if check_character c section_name then go (seen + 1) else fail

-- What follows a section header. A byte that is neither blank nor the end of the line is only
-- logged: the loop goes round with `pCurrent` where it was.
unfoldable pub skip_after_header : ℕ → List ℕ → Outcome (List ℕ)
skip_after_header zero rest = running
skip_after_header (suc fuel) [] = success []
skip_after_header (suc fuel) (c ∷ rest) =
    let further = skip_after_header fuel (if is_blank c then rest else c ∷ rest) in
    if is_blank c then further else if is_eol c then success (c ∷ rest) else further

-- The bytes since `*ppName`, and those up to `pLastNonWhitespaceChar`.
pub record NameState : Type 0 where
  pub seen : ℕ
  pub last : ℕ

unfoldable pub name_step : ManifestType → NameState → ℕ → Action NameState
name_step type s c =
    if c == b':'
    then stop
    else if not (is_compiled type) && is_blank c
    then go (record s { seen = s.seen + 1 })
    else if not (check_character c name_subsequent)
    then fail
    else if not (is_compiled type) && not (s.seen == s.last)
    then fail
    else go (record { seen = s.seen + 1; last = s.seen + 1 })

unfoldable pub skip_blanks : List ℕ → List ℕ
skip_blanks [] = []
skip_blanks (c ∷ rest) = if is_blank c then skip_blanks rest else c ∷ rest

-- The check of the encoding, the bytes since `*ppValue`, and those up to `pLastNonWhitespaceChar`.
pub record ValueState : Type 0 where
  pub sequence : Sequence
  pub seen : ℕ
  pub last : ℕ

unfoldable pub value_step : ValueState → ℕ → Action ValueState
value_step s c = elim (utf8_step s.sequence c) [
  | none ↦ fail
  | some q ↦
      if q.count == 0 && is_eol c
      then stop
      else go (record {
        sequence = q;
        seen = s.seen + 1;
        last = if is_blank c then s.last else s.seen + 1;
      })
]
