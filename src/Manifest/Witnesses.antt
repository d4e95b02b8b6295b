-- ===== src/Manifest/Witnesses.antt =====
-- The theorems on the manifest reader, at concrete manifests.
use camerahal.Common.{
  ℕ, ◌≤◌, ◌<◌, ◌≡◌, inl, inr, refl, Bool, true, ◌&&◌, none, some, List, [], ◌∷◌, ◌++◌, codes, All,
  arith, ltb, length, drop, if◌then◌else◌,
}
use camerahal.Status.{success, error, running, bad_format}
use camerahal.Manifest.Chars.CaseFolding.{IsSectionName}
use camerahal.Manifest.Context.{source_with_sections, Context, Item, init_context, lf}
use camerahal.Manifest.Utf8.Encoding.{IsScalar, encode_all, utf8_run, after, utf8_run-encode_all}
use camerahal.Manifest.Utf8.Decoding.{utf8_run-Decoded}
use camerahal.Manifest.Reader.{get_next_item_internal}
use camerahal.Manifest.Reader.Headers.{AtHeader, internal-header_never_ends}
use camerahal.Manifest.Reader.Progress.{internal-advances}
use camerahal.Manifest.Reader.RoundTrip.{internal-written}
use camerahal.Manifest.Reader.Values.{IsValue}
use camerahal.Manifest.Reader.WellFormed.{IsItem, internal-IsItem}
use camerahal.Manifest.Items.{get_next_item, check_format}
use camerahal.Manifest.Items.Format.{
  ReadsAll, Returns, reset, reset-History, unique, check_format-unique,
}
use camerahal.Manifest.Items.Termination.{check_format-Returns}
use camerahal.Manifest.Items.Unique.{get_next_item-verdict}
use camerahal.Manifest.Tests.{reader, repeated, trailing}

abbrev are_bytes : List ℕ → Bool
are_bytes [] = true
are_bytes (c ∷ cs) = ltb c 256 && are_bytes cs

are_bytes-All : (l : List ℕ) → are_bytes l ≡ true → All (λ c. c < 256) l
are_bytes-All [] h = tt
are_bytes-All (c ∷ cs) h = (ground arith, are_bytes-All cs (ground arith))

-- The contexts of a run over `repeated`, from its start on.
abbrev fresh : Context
fresh = init_context repeated source_with_sections

abbrev behind : Context → Context
behind ctx = (get_next_item_internal 100 ctx).0

abbrev global : Item
global = record { name = codes "Global"; value = none }

abbrev b_is : List ℕ → Item
b_is v = record { name = codes "b"; value = some v }

abbrev a_empty : Item
a_empty = record { name = codes "a"; value = some [] }

abbrev items : List Item
items = global ∷ b_is (codes "1") ∷ a_empty ∷ b_is (codes "2") ∷ []

repeated_reads : ReadsAll 100 (reset fresh) items
unfolding reader
repeated_reads = (
  behind (reset fresh),
  refl,
  (
    behind (behind (reset fresh)),
    refl,
    (
      behind (behind (behind (reset fresh))),
      refl,
      (
        behind (behind (behind (behind (reset fresh)))),
        refl,
        (behind (behind (behind (behind (behind (reset fresh))))), refl),
      ),
    ),
  ),
)

check_format-unique_example :
    check_format 100 fresh
    ≡ (if unique source_with_sections [] [] items then success 4 else error bad_format)
unfolding reader
check_format-unique_example = check_format-unique 100 fresh items refl (omega arith) repeated_reads

check_format-Returns_example : Returns (check_format 100 fresh)
unfolding reader
check_format-Returns_example =
    check_format-Returns 100 fresh refl (omega arith) (inr (refl, omega arith))

get_next_item-verdict_example :
    get_next_item 100 (reset fresh) ≡ (behind (reset fresh), success global)
unfolding reader
get_next_item-verdict_example =
    get_next_item-verdict 100 (reset fresh) (behind (reset fresh)) global [] []
      (reset-History 100 fresh) refl refl (omega arith)

-- A context inside the section of `repeated`, in front of its first property.
abbrev inside : Context
inside = behind fresh

internal-IsItem_example : IsItem (b_is (codes "1"))
unfolding reader
internal-IsItem_example =
    internal-IsItem 100 inside (behind inside) (b_is (codes "1")) (are_bytes-All repeated refl) refl

b_1_IsValue : IsValue (codes "1")
unfolding reader
b_1_IsValue = record {
  code_points = 49 ∷ [];
  scalars = (
    record { positive = omega arith; below = omega arith; no_surrogate = inl (omega arith) },
    tt,
  );
  encoded = refl;
  one_line = (refl, tt);
  begins = refl;
  ends = refl;
}

internal-written_example :
    get_next_item_internal 100 (record inside { offset = 9 })
    ≡ (record inside { offset = 13 }, success (b_is (codes "1")))
unfolding reader
internal-written_example =
    internal-written 100 (record inside { offset = 9 }) b'b' [] (codes "1")
      (codes "a:" ++ lf ∷ codes "b:2") refl (inr (λ e. cc)) (refl, tt) b_1_IsValue refl

Global_IsSectionName : IsSectionName (codes "Global")
unfolding reader
Global_IsSectionName = (refl, (refl, (refl, (refl, (refl, (refl, tt))))))

header_here : AtHeader fresh (codes "Global") (drop 8 repeated)
unfolding reader
header_here = record { sectioned = refl; here = refl; named = Global_IsSectionName }

abbrev stuck : Context
stuck = init_context trailing source_with_sections

internal-header_never_ends_example : get_next_item_internal 1000 stuck ≡ (stuck, running)
unfolding reader
internal-header_never_ends_example =
    internal-header_never_ends 1000 stuck (codes "Global") (drop 8 trailing)
      (record { sectioned = refl; here = refl; named = Global_IsSectionName }) refl

internal-advances_example :
    (inside.content ≡ repeated)
    × (inside.type ≡ source_with_sections)
    × (inside.section_start ≡ 8)
    × (0 < inside.offset)
    × (inside.offset ≤ length repeated)
unfolding reader
internal-advances_example = internal-advances 100 fresh inside global (omega arith) refl

euro : All IsScalar (0x41 ∷ 0x20AC ∷ [])
euro = (
  record { positive = omega arith; below = omega arith; no_surrogate = inl (omega arith) },
  (record { positive = omega arith; below = omega arith; no_surrogate = inl (omega arith) }, tt),
)

utf8_run-encode_all_example :
    (e : ℕ) × (utf8_run (after 0) (0x41 ∷ 0xE2 ∷ 0x82 ∷ 0xAC ∷ []) ≡ some (after e))
utf8_run-encode_all_example = utf8_run-encode_all (0x41 ∷ 0x20AC ∷ []) 0 euro

utf8_run-Decoded_example :
    (cs : List ℕ) × All IsScalar cs × (0x41 ∷ 0xE2 ∷ 0x82 ∷ 0xAC ∷ [] ≡ encode_all cs)
unfolding reader
utf8_run-Decoded_example =
    utf8_run-Decoded (0x41 ∷ 0xE2 ∷ 0x82 ∷ 0xAC ∷ []) 0 (after 0x20AC)
      (are_bytes-All (0x41 ∷ 0xE2 ∷ 0x82 ∷ 0xAC ∷ []) refl) refl refl
