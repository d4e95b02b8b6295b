-- ===== src/OmxCore/Registry/Enumeration.antt =====
-- A caller of OMX_ComponentNameEnum that counts up until OMX_ErrorNoMore.
use camerahal.Common.{
  ℕ, zero, suc, ◌+◌, ◌<◌, ◌≡◌, refl, sym, ap, ◌∙◌, true, Option, none, some, List, [], ◌∷◌, ◌++◌,
  append_assoc, map, length, length-append, get_elem?, arith, lt→ltb,
}
use camerahal.OmxCore.Errors.{OmxError, error_none, no_more}
use camerahal.OmxCore.Registry.{Text, ComponentTable, component_name_enum}

-- What the caller makes of one call and of the further ones.
abbrev put : OmxError × Option Text → Option (List Text) → Option (List Text)
put (error_none, some name) (some names) = some (name ∷ names)
put (no_more, _) rest = some []
put _ rest = none

-- The names from an index on, if the calls end with OMX_ErrorNoMore before the fuel does.
abbrev pub enumerate : ℕ → ℕ → List ComponentTable → ℕ → Option (List Text)
enumerate zero count table index = none
enumerate (suc fuel) count table index =
    put (component_name_enum count table true index) (enumerate fuel count table (index + 1))

get_elem?-behind :
    (front : List ComponentTable) (behind : List ComponentTable)
    → get_elem? (front ++ behind) (length front) ≡ get_elem? behind 0
get_elem?-behind [] behind = refl
get_elem?-behind (e ∷ front) behind = get_elem?-behind front behind

enumerate-from :
    (fuel count : ℕ) (front behind : List ComponentTable) (index : ℕ)
    → 0 < count
    → index ≡ length front
    → length behind < fuel
    → enumerate fuel count (front ++ behind) index ≡ some (map (λ c. c.name) behind)
unfolding component_name_enum
enumerate-from zero count front behind index c i e = absurd (omega arith)
enumerate-from (suc fuel) count front [] index c i e =
    rw (i, lt→ltb 0 count c, get_elem?-behind front [])
enumerate-from (suc fuel) count front (b ∷ behind) index c i e =
    let ih =
      enumerate-from fuel count (front ++ b ∷ []) behind (index + 1) c
        (omega (arith, length-append front (b ∷ []))) (omega arith) in
    let ih' : enumerate fuel count (front ++ b ∷ behind) (index + 1)
        ≡ some (map (λ c. c.name) behind) =
      ap (λ t. enumerate fuel count t (index + 1)) (sym (append_assoc front (b ∷ []) behind))
      ∙ ih in
    rw (ih', i, lt→ltb 0 count c, get_elem?-behind front (b ∷ behind))

-- Counting up from 0 on an initialised core ends within one call more than there are components,
-- and lists the names of the whole table in order.
pub enumerate_all :
    (fuel count : ℕ) (table : List ComponentTable)
    → 0 < count
    → length table < fuel
    → enumerate fuel count table 0 ≡ some (map (λ c. c.name) table)
enumerate_all fuel count table c e = enumerate-from fuel count [] table 0 c refl e
