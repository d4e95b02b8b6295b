-- ===== src/Manifest/Tests.antt =====
-- Runs of the manifest reader, and the theorems at concrete inputs.
use camerahal.Common.{ℕ, ◌≡◌, refl, some, List, ◌∷◌, ◌++◌, codes}
use camerahal.Status.{success, error, running, bad_format}
use camerahal.Manifest.Scanner.{scan}
use camerahal.Manifest.Chars.{check_character, clear_case, equal_from, section_name_equal}
use camerahal.Manifest.Utf8.{next_byte, utf8_step}
use camerahal.Manifest.Context.{source_with_sections, init_context, lf}
use camerahal.Manifest.Loops.{
  skip_bom, skip_step, section_step, skip_after_header, name_step, skip_blanks, value_step,
}
use camerahal.Manifest.Reader.{
  get_next_item_internal, read_line, read_item, read_section, read_property, read_value, end_line,
}
use camerahal.Manifest.Items.{
  bytes_equal, is_duplicate, has_duplicate, check_duplicates, get_next_item, count_items,
  check_format,
}

-- Names on its line all that a run of the reader computes with.
unfoldable pub reader : Unit {0}
unfolding scan check_character clear_case equal_from section_name_equal next_byte utf8_step
    init_context skip_bom skip_step section_step skip_after_header name_step skip_blanks value_step
    get_next_item_internal read_line read_item read_section read_property read_value end_line
    bytes_equal is_duplicate has_duplicate check_duplicates get_next_item count_items check_format
reader = tt

abbrev pub text : List ℕ
text = codes "#c" ++ lf ∷ codes "[Global]" ++ lf ∷ codes "name : a value " ++ lf ∷ codes "b:2"

abbrev pub repeated : List ℕ
repeated = codes "[Global]" ++ lf ∷ codes "b: 1" ++ lf ∷ codes "a:" ++ lf ∷ codes "b:2"

-- Text behind a section header on its line.
abbrev pub trailing : List ℕ
trailing = codes "[Global] x" ++ lf ∷ codes "b:1"

check_format-text : check_format 100 (init_context text source_with_sections) ≡ success 3
unfolding reader
check_format-text = refl

check_format-repeated :
    check_format 100 (init_context repeated source_with_sections) ≡ error bad_format
unfolding reader
check_format-repeated = refl

check_format-trailing : check_format 100 (init_context trailing source_with_sections) ≡ running
unfolding reader
check_format-trailing = refl

value_trimmed :
    (get_next_item 9
      (record (init_context text source_with_sections) { offset = 11; section_start = 11 })).1
    ≡ success (record { name = codes "name"; value = some (codes "a value") })
unfolding reader
value_trimmed = refl
