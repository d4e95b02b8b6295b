-- ===== src/Manifest/Chars.antt =====
-- security/tf_daemon/lib_manifest2.c: the characters of names, and the comparison of section names.
pub mod CaseFolding
use camerahal.Common.{
  ℕ, suc, ◌+◌, ◌-◌, ◌*◌, ◌/◌, ◌%◌, Bool, true, false, not, ◌&&◌, ◌||◌, List, [], ◌∷◌, leb, ◌==◌,
  if◌then◌else◌, length,
}

-- CHARACTER_NAME_FIRST, CHARACTER_NAME_SUBSEQUENT and CHARACTER_SECTION_NAME.
pub data CharacterType : Type 0 where
  name_first name_subsequent section_name : CharacterType

abbrev is_name_first : CharacterType → Bool
is_name_first name_first = true
is_name_first _ = false

abbrev is_name_subsequent : CharacterType → Bool
is_name_subsequent name_subsequent = true
is_name_subsequent _ = false

unfoldable pub check_character : ℕ → CharacterType → Bool
check_character x type =
    if leb b'a' x && leb x b'z'
    then true
    else if leb b'A' x && leb x b'Z'
    then true
    else if leb b'0' x && leb x b'9'
    then true
    else if is_name_first type
    then false
    else if x == b'_' || (x == b'.' || x == b'-')
    then true
    else if is_name_subsequent type
    then false
    else if x == b' '
    then true
    else false

-- `x & ~0x20` on a byte: bit 5 is cleared.
unfoldable pub clear_case : ℕ → ℕ
clear_case x = x - 32 * (x / 32 % 2)

-- The loop of `static_sectionNameEqualCaseInsensitive`, over names of one length.
unfoldable pub equal_from : List ℕ → List ℕ → Bool
unfolding clear_case
equal_from (x1 ∷ name1) (x2 ∷ name2) =
    let rest = equal_from name1 name2 in
    if not (clear_case x1 == clear_case x2) then false else rest
equal_from _ _ = true

unfoldable pub section_name_equal : List ℕ → List ℕ → Bool
unfolding equal_from
section_name_equal name1 name2 =
    if not (length name1 == length name2) then false else equal_from name1 name2
