-- ===== src/Manifest/Utf8.antt =====
-- security/tf_daemon/lib_manifest2.c: the check, byte by byte, that a property's value is UTF-8.
pub mod Encoding
pub mod Decoding
use camerahal.Common.{
  ℕ, suc, ◌+◌, ◌-◌, ◌*◌, ◌/◌, ◌%◌, Bool, true, false, not, ◌&&◌, ◌||◌, Option, none, some, List, [],
  ◌∷◌, leb, ltb, ◌==◌, if◌then◌else◌,
}

-- `nCurrentSequenceCount`, the continuation bytes that must follow, and `nCurrentChar`.
pub record Sequence : Type 0 where
  pub count : ℕ
  pub char : ℕ

abbrev pub initial : Sequence
initial = record { count = 0; char = 0 }

-- `x & 0x80`, `x & 0xC0` and so on test a field of bits; `c << 6 | y` with `y < 64` is a sum.
start_of_sequence : Sequence → ℕ → Option Sequence
start_of_sequence q x =
    if not (q.count == 0)
    then none
    else if x / 32 % 8 == 6
    then (if x / 2 % 16 == 0 then none else some (record { count = 1; char = x % 32 }))
    else if x / 16 % 16 == 14
    then some (record { count = 2; char = x % 16 })
    else if x / 8 % 32 == 30
    then some (record { count = 3; char = x % 8 })
    else none

-- An encoding that is longer than need be shows in the first continuation byte.
abbrev is_overlong : Sequence → ℕ → Bool
is_overlong q x =
    (q.count == 2 && (q.char == 0 && x / 32 % 2 == 0))
    || (q.count == 3 && (q.char == 0 && x / 16 % 4 == 0))

continuation : Sequence → ℕ → Option Sequence
continuation q x =
    if q.count == 0
    then none
    else if is_overlong q x
    then none
    else some (record { count = q.count - 1; char = q.char * 64 + x % 64 })

unfoldable pub next_byte : Sequence → ℕ → Option Sequence
unfolding start_of_sequence continuation
next_byte q x =
    if x / 128 % 2 == 0
    then (if not (q.count == 0)
        then none
        else if x == 0
        then none
        else some (record { count = 0; char = x }))
    else if x / 64 % 4 == 3
    then start_of_sequence q x
    else if x / 64 % 4 == 2
    then continuation q x
    else none

-- Surrogates and what lies above the last plane.
abbrev pub is_illegal : ℕ → Bool
is_illegal c = (leb 0xD800 c && ltb c 0xE000) || leb 0x110000 c

check_code_point : Sequence → Option Sequence
check_code_point q = if q.count == 0 && is_illegal q.char then none else some q

-- The part of the loop's body that validates; `none` is `goto error`.
unfoldable pub utf8_step : Sequence → ℕ → Option Sequence
unfolding next_byte check_code_point
utf8_step q x = elim (next_byte q x) [ none ↦ none | some q' ↦ check_code_point q' ]
