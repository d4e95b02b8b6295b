-- ===== src/Properties/Check/Paths.antt =====
-- security/tf_daemon/smc_properties.c: what checkFilePath accepts.
use camerahal.Common.{
  ℕ, ◌+◌, ◌*◌, ◌/◌, ◌%◌, ◌<◌, ◌≡◌, ◌≢◌, ◌⊎◌, ◌↔◌, inl, inr, refl, sym, ap, ◌∙◌, true, false, Option,
  none, some, List, [], ◌∷◌, ◌++◌, ◌==◌, if◌then◌else◌, length, take, take-append, All, arith,
  Bool-cases,
}
use camerahal.Properties.Check.{FileSystem, slash_index, is_directory, check_file_path}

-- The part of a path before its last separator; nothing if it has none.
abbrev pub IsDirectoryPart : List ℕ → List ℕ → Type 0
IsDirectoryPart path dir =
    ((file : List ℕ) × (path ≡ dir ++ b'/' ∷ file) × All (λ c. c ≢ b'/') file)
    ⊎ (All (λ c. c ≢ b'/') path × (dir ≡ []))

-- Digit 14 of the mode in binary is 1. It is so for directories, and for block devices and sockets too.
abbrev pub HasDirectoryBit : ℕ → Type 0
HasDirectoryBit mode =
    (high : ℕ) × (low : ℕ) × (low < 0x4000) × (mode ≡ (2 * high + 1) * 0x4000 + low)

-- There is memory for the directory part, and `stat` gives it a mode with that bit.
abbrev pub IsGoodPath : FileSystem → List ℕ → Type 0
IsGoodPath fs path =
    (fs.has_memory ≡ true)
    × (dir : List ℕ) × IsDirectoryPart path dir
    × (mode : ℕ) × (fs.stat dir ≡ some mode)
    × HasDirectoryBit mode

slash_index_none :
    (path : List ℕ) (i last : ℕ) → All (λ c. c ≢ b'/') path → slash_index path i last ≡ last
unfolding slash_index
slash_index_none [] i last all = refl
slash_index_none (c ∷ path) i last (here, all) =
    let e : (c == b'/') ≡ false = ground arith in rw e (slash_index_none path (i + 1) last all)

slash_index_last :
    (dir file : List ℕ) (i last : ℕ)
    → All (λ c. c ≢ b'/') file
    → slash_index (dir ++ b'/' ∷ file) i last ≡ i + length dir
unfolding slash_index
slash_index_last [] file i last all = slash_index_none file (i + 1) i all ∙ omega arith
slash_index_last (c ∷ dir) file i last all =
    slash_index_last dir file (i + 1) (if c == b'/' then i else last) all ∙ omega arith

-- There is one such part, which is what the loop finds.
part_unique :
    (path dir : List ℕ) → IsDirectoryPart path dir → take (slash_index path 0 0) path ≡ dir
part_unique path dir (inl (file, e, all)) =
    let n = ap (λ p. slash_index p 0 0) e ∙ slash_index_last dir file 0 0 all in
    ap (λ k. take k path) (n ∙ omega arith)
    ∙ ap (take (length dir)) e
    ∙ take-append dir (b'/' ∷ file)
part_unique path dir (inr (all, e)) = ap (λ k. take k path) (slash_index_none path 0 0 all) ∙ sym e

last_slash :
    (path : List ℕ)
    → ((dir : List ℕ) × (file : List ℕ) × (path ≡ dir ++ b'/' ∷ file) × All (λ c. c ≢ b'/') file)
      ⊎ All (λ c. c ≢ b'/') path
last_slash [] = inr tt
last_slash (c ∷ path) = elim (last_slash path) [
  | inl (dir, file, e, all) ↦ inl (c ∷ dir, file, ap (λ p. c ∷ p) e, all)
  | inr all ↦ elim (Bool-cases (c == b'/')) [
    | inl e ↦ let s : c ≡ b'/' = ground arith in inl ([], path, ap (λ x. x ∷ path) s, all)
    | inr e ↦ inr ((λ s. absurd (ground arith)), all)
  ]
]

part_exists : (path : List ℕ) → (dir : List ℕ) × IsDirectoryPart path dir
part_exists path = elim (last_slash path) [
  | inl (dir, file, e, all) ↦ (dir, inl (file, e, all))
  | inr all ↦ ([], inr (all, refl))
]

bit-HasDirectoryBit :
    (o : Option ℕ) → is_directory o ≡ true → (mode : ℕ) × (o ≡ some mode) × HasDirectoryBit mode
unfolding is_directory
bit-HasDirectoryBit none e = absurd cc
bit-HasDirectoryBit (some mode) e =
    let odd : mode / 0x4000 % 2 ≡ 1 = ground arith in
    (mode, refl, (mode / 0x4000 / 2, mode % 0x4000, omega arith, omega arith))

HasDirectoryBit-bit : (mode : ℕ) → HasDirectoryBit mode → is_directory (some mode) ≡ true
unfolding is_directory
HasDirectoryBit-bit mode (high, low, small, e) =
    let odd : mode / 0x4000 % 2 ≡ 1 = omega arith in rw odd refl

-- checkFilePath accepts exactly the good paths.
pub check_file_path-good :
    (fs : FileSystem) (path : List ℕ) → (check_file_path fs path ≡ true) ↔ IsGoodPath fs path
unfolding check_file_path
check_file_path-good fs path = (good, back)
  where
    good : check_file_path fs path ≡ true → IsGoodPath fs path
    good e =
        let (found, part) = part_exists path in
        let memory : fs.has_memory ≡ true = elim (Bool-cases fs.has_memory) [
          | inl m ↦ m
          | inr m ↦ absurd (
              let f : false ≡ true =
                sym (
                  ap
                    (λ b.
                      if b
                      then is_directory (fs.stat (take (slash_index path 0 0) path))
                      else false)
                    m)
                ∙ e in
              cc)
        ] in
        let bit : is_directory (fs.stat (take (slash_index path 0 0) path)) ≡ true =
          sym (
            ap (λ b. if b then is_directory (fs.stat (take (slash_index path 0 0) path)) else false)
              memory)
          ∙ e in
        let there : is_directory (fs.stat found) ≡ true =
          sym (ap (λ d. is_directory (fs.stat d)) (part_unique path found part)) ∙ bit in
        let (mode, e', bit') = bit-HasDirectoryBit (fs.stat found) there in
        (memory, found, part, mode, e', bit')

    back : IsGoodPath fs path → check_file_path fs path ≡ true
    back (memory, found, part, mode, e, bit) = rw memory (
        ap (λ d. is_directory (fs.stat d)) (part_unique path found part)
        ∙ ap is_directory e
        ∙ HasDirectoryBit-bit mode bit)
