-- ===== src/Manifest/Chars/CaseFolding.antt =====
-- The comparison of section names is equality up to the case of ASCII letters.
use camerahal.Common.{
  ℕ, suc, ◌+◌, ◌≡◌, ◌↔◌, refl, ap, true, ◌&&◌, List, [], ◌∷◌, map, leb, if◌then◌else◌, length, All,
  arith,
}
use camerahal.Manifest.Chars.{
  section_name, check_character, clear_case, equal_from, section_name_equal,
}

-- `tolower` of the C locale.
abbrev pub to_lower : ℕ → ℕ
to_lower x = if leb b'A' x && leb x b'Z' then x + 32 else x

-- Every byte of the name passed `static_checkCharacter` with CHARACTER_SECTION_NAME.
abbrev pub IsSectionName : List ℕ → Type 0
IsSectionName = All (λ x. check_character x section_name ≡ true)

clear_case-eq-of-lower :
    (x y : ℕ)
    → check_character x section_name ≡ true
    → check_character y section_name ≡ true
    → (clear_case x ≡ clear_case y) ↔ (to_lower x ≡ to_lower y)
unfolding check_character clear_case
clear_case-eq-of-lower x y hx hy = ground arith

equal_from-eq-lower :
    (a b : List ℕ)
    → length a ≡ length b
    → IsSectionName a
    → IsSectionName b
    → (equal_from a b ≡ true) ↔ (map to_lower a ≡ map to_lower b)
unfolding equal_from
equal_from-eq-lower [] [] e ha hb = (λ _. refl, λ _. refl)
equal_from-eq-lower [] (y ∷ b) e ha hb = absurd (omega arith)
equal_from-eq-lower (x ∷ a) [] e ha hb = absurd (omega arith)
equal_from-eq-lower (x ∷ a) (y ∷ b) e ha hb = (
  λ h. ground (arith, clear_case-eq-of-lower x y, equal_from-eq-lower a b),
  λ h. ground (arith, clear_case-eq-of-lower x y, equal_from-eq-lower a b),
)

length-map-lower : (a : List ℕ) → length (map to_lower a) ≡ length a
length-map-lower [] = refl
length-map-lower (x ∷ a) = ap suc (length-map-lower a)

-- Two names of section characters compare as equal exactly when they agree up to the case of ASCII
-- letters.
pub section_name_equal-eq-lower :
    (a b : List ℕ)
    → IsSectionName a
    → IsSectionName b
    → (section_name_equal a b ≡ true) ↔ (map to_lower a ≡ map to_lower b)
unfolding section_name_equal
section_name_equal-eq-lower a b ha hb = (
  λ h. ground (arith, equal_from-eq-lower a b),
  λ h. ground (arith, equal_from-eq-lower a b, ap length h, length-map-lower a, length-map-lower b),
)
