-- ===== src/Manifest/Reader/Headers.antt =====
-- The loop behind a section header: where it ends, and the inputs on which it does not.
use mathlib.Core.Path.{subst}
use camerahal.Common.{
  ℕ, zero, suc, ◌+◌, ◌<◌, ◌≡◌, inl, inr, refl, ap, ◌∙◌, Bool, true, false, List, [], ◌∷◌, ◌++◌,
  ◌==◌, length, drop, take-append, arith, Bool-cases, if◌then◌else◌,
}
use mathlib.Core.Option.{none}
use camerahal.Status.{success, running}
use camerahal.Manifest.Scanner.{reached, scan, Passes, scan-append}
use camerahal.Manifest.Chars.{section_name, check_character}
use camerahal.Manifest.Chars.CaseFolding.{IsSectionName}
use camerahal.Manifest.Context.{
  source_with_sections, is_compiled, has_sections, Context, is_blank, is_eol, offset_of,
}
use camerahal.Manifest.Loops.{skip_step, skip_bom, section_step, skip_after_header, skip_blanks}
use camerahal.Manifest.Reader.{
  header_end, read_section, read_item, read_line, get_next_item_internal,
}

-- Whether the blanks in front of some bytes are followed by the end of the line or of the bytes.
abbrev pub ends_line : List ℕ → Bool
ends_line [] = true
ends_line (c ∷ rest) = if is_blank c then ends_line rest else is_eol c

-- With fuel for every byte, the loop ends behind the blanks if the line ends there.
pub skip_after_header-ends :
    (rest : List ℕ) (fuel : ℕ)
    → length rest < fuel
    → ends_line rest ≡ true
    → skip_after_header fuel rest ≡ success (skip_blanks rest)
unfolding skip_after_header skip_blanks
skip_after_header-ends rest zero h e = absurd (omega arith)
skip_after_header-ends [] (suc fuel) h e = refl
skip_after_header-ends (c ∷ rest) (suc fuel) h e = elim (Bool-cases (is_blank c)) [
  | inl b ↦ rw b (skip_after_header-ends rest fuel (omega arith) (rw b at e))
  | inr b ↦ let e' : is_eol c ≡ true = rw b at e in rw (b, e')
]

-- Otherwise no fuel is enough: the loop goes round for ever.
pub skip_after_header-never_ends :
    (fuel : ℕ) (rest : List ℕ) → ends_line rest ≡ false → skip_after_header fuel rest ≡ running
unfolding skip_after_header
skip_after_header-never_ends zero rest e = refl
skip_after_header-never_ends (suc fuel) [] e = cc
skip_after_header-never_ends (suc fuel) (c ∷ rest) e = elim (Bool-cases (is_blank c)) [
  | inl b ↦ rw b (skip_after_header-never_ends fuel rest (rw b at e))
  | inr b ↦
      let e' : is_eol c ≡ false = rw b at e in
      rw (b, e') (skip_after_header-never_ends fuel (c ∷ rest) e)
]

name_char-ne-bracket : (c : ℕ) → check_character c section_name ≡ true → (c == b']') ≡ false
unfolding check_character
name_char-ne-bracket c h = ground arith

-- The scan of a section name goes past its characters.
section_name-Passes :
    (name : List ℕ) (n : ℕ) → IsSectionName name → Passes section_step n name (n + length name)
unfolding section_step
section_name-Passes [] n h = omega arith
section_name-Passes (c ∷ name) n h = (
  n + 1,
  rw (name_char-ne-bracket c h.0, h.0),
  subst (λ m. Passes section_step (n + 1) name m) (omega arith)
      (section_name-Passes name (n + 1) h.1),
)

scan-section_name :
    (name rest : List ℕ)
    → IsSectionName name
    → scan section_step 0 (name ++ b']' ∷ rest) ≡ reached (length name) (b']' ∷ rest)
unfolding scan section_step
scan-section_name name rest h =
    scan-append section_step 0 name (b']' ∷ rest) (length name)
      (subst (Passes section_step 0 name) (omega arith) (section_name-Passes name 0 h))

-- A well-formed section name is read up to its bracket.
read_section-name :
    (fuel : ℕ) (ctx : Context) (name rest : List ℕ)
    → IsSectionName name
    → read_section fuel ctx (name ++ b']' ∷ rest) ≡ header_end fuel ctx name rest
unfolding read_section
read_section-name fuel ctx name rest h =
    rw (scan-section_name name rest h, read_section) (rw take-append)

-- A context in front of a section header.
pub record AtHeader (ctx : Context) (name rest : List ℕ) : Type 0 where
  pub sectioned : ctx.type ≡ source_with_sections
  pub here : drop ctx.offset ctx.content ≡ b'[' ∷ (name ++ b']' ∷ rest)
  pub named : IsSectionName name

skip_bom-bracket : (l : List ℕ) → skip_bom (b'[' ∷ l) ≡ b'[' ∷ l
unfolding skip_bom
skip_bom-bracket [] = refl
skip_bom-bracket (b ∷ []) = refl
skip_bom-bracket (b ∷ c ∷ l) = refl

read_line-bracket :
    (fuel : ℕ) (ctx : Context) (l : List ℕ)
    → read_line fuel ctx (b'[' ∷ l) ≡ read_item fuel ctx (b'[' ∷ l)
unfolding read_line scan skip_step
read_line-bracket fuel ctx l = refl

read_item-header :
    (fuel : ℕ) (ctx : Context) (name rest : List ℕ)
    → AtHeader ctx name rest
    → read_item fuel ctx (b'[' ∷ (name ++ b']' ∷ rest)) ≡ header_end fuel ctx name rest
unfolding read_item
read_item-header fuel ctx name rest h =
    rw (ap has_sections h.sectioned) (read_section-name fuel ctx name rest h.named)

internal-header :
    (fuel : ℕ) (ctx : Context) (name rest : List ℕ)
    → AtHeader ctx name rest
    → get_next_item_internal fuel ctx ≡ header_end fuel ctx name rest
unfolding get_next_item_internal
internal-header fuel ctx name rest h =
    rw (h.here, skip_bom-bracket) (rw sectioned-plain (same_start (ctx.offset == 0) ∙ entered))
  where
    text : List ℕ
    text = b'[' ∷ (name ++ b']' ∷ rest)

    sectioned-plain : is_compiled ctx.type ≡ false
    sectioned-plain = ap is_compiled h.sectioned

    same_start :
        (b : Bool) → read_line fuel ctx (if b then text else text) ≡ read_item fuel ctx text
    same_start true = read_line-bracket fuel ctx _
    same_start false = read_line-bracket fuel ctx _

    entered : read_item fuel ctx text ≡ header_end fuel ctx name rest
    entered = read_item-header fuel ctx name rest h

-- A section header at the offset whose line ends behind blanks is read, with fuel above what
-- remains behind it: its name, no value, and both the offset and the start of the section stand at
-- the end of the line.
pub internal-header_ends :
    (fuel : ℕ) (ctx : Context) (name rest : List ℕ)
    → AtHeader ctx name rest
    → ends_line rest ≡ true
    → length rest < fuel
    → get_next_item_internal fuel ctx ≡ (
      record ctx {
        offset = offset_of ctx (skip_blanks rest);
        section_start = offset_of ctx (skip_blanks rest);
      },
      success (record { name = name; value = none }),
    )
unfolding header_end
internal-header_ends fuel ctx name rest h e enough =
    internal-header fuel ctx name rest h
    ∙ rw (skip_after_header-ends rest fuel enough e, header_end)

-- Behind the bracket of a section header that stands at the offset, anything but blanks in front
-- of the end of the line keeps the reader in its loop for ever: it is still running with whatever
-- fuel.
pub internal-header_never_ends :
    (fuel : ℕ) (ctx : Context) (name rest : List ℕ)
    → AtHeader ctx name rest
    → ends_line rest ≡ false
    → get_next_item_internal fuel ctx ≡ (ctx, running)
unfolding header_end
internal-header_never_ends fuel ctx name rest h e =
    internal-header fuel ctx name rest h ∙ rw (skip_after_header-never_ends fuel rest e, header_end)
