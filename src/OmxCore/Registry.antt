-- ===== src/OmxCore/Registry.antt =====
-- domx/omx_core/src/OMX_Core.c, as built with STATIC_TABLE: the table of components and its queries.
pub mod Building
pub mod Enumeration
pub mod Roles
use Prim.Native.Nat.{Ordering}
use camerahal.Common.{
  ℕ, zero, suc, ◌+◌, Bool, true, false, not, ◌&&◌, ◌||◌, Option, none, some, List, [], ◌∷◌, ◌++◌,
  ltb, ◌==◌, if◌then◌else◌, length, get_elem?, take, codes,
}
use camerahal.Properties.Strcmp.{strcmp}
use camerahal.OmxCore.Errors.{
  OmxError, error_none, undefined_error, invalid_component_name, bad_parameter, no_more,
}

abbrev pub Text : Type 0
Text = List ℕ

abbrev is_eq : Ordering → Bool
is_eq Ordering.eq = true
is_eq _ = false

-- `strcmp(a, b) == 0`
abbrev pub same : Text → Text → Bool
same a b = is_eq (strcmp a b)

abbrev pub max_comp : ℕ
max_comp = 50

abbrev pub max_name_size : ℕ
max_name_size = 128

-- ComponentTable: `nRoles` is the number of the roles.
pub record ComponentTable : Type 0 where
  pub name : Text
  pub roles : List Text

-- A row of `tComponentName`, up to the zeros that fill it: the pointers of the initialiser.
abbrev pub Row : Type 0
Row = List (Option Text)

-- The loop over `k`, which stops at the first NULL of the row.
unfoldable pub roles_of_row : Row → List Text
roles_of_row [] = []
roles_of_row (none ∷ row) = []
roles_of_row (some role ∷ row) = role ∷ roles_of_row row

-- The loop over `j`: whether the table has the name.
unfoldable pub has_name : List ComponentTable → Text → Bool
has_name [] name = false
has_name (entry ∷ table) name = same entry.name name || has_name table name

-- The loop of OMX_BuildComponentTable over the rows, up to one without a name. `found` is
-- `componentfound`, which is never reset.
unfoldable pub build_rows : List Row → List ComponentTable → Bool → List ComponentTable
build_rows [] table found = table
build_rows ([] ∷ rows) table found = table
build_rows ((none ∷ row) ∷ rows) table found = table
build_rows ((some name ∷ row) ∷ rows) table found =
    let found' = found || has_name table name in
    build_rows rows
      (if found' then table else table ++ record { name = name; roles = roles_of_row row } ∷ [])
      found'

unfoldable pub build_component_table : List Row → List ComponentTable
unfolding build_rows
build_component_table rows = build_rows (take max_comp rows) [] false

-- `tComponentName`.
abbrev pub component_names : List Row
component_names =
    (some (codes "OMX.TI.DUCATI1.VIDEO.DECODER")
      ∷ some (codes "video_decoder.mpeg4")
      ∷ some (codes "video_decoder.avc")
      ∷ some (codes "video_decoder.h263")
      ∷ some (codes "video_decoder.wmv")
      ∷ some (codes "video_decoder.vp6")
      ∷ some (codes "video_decoder.vp7")
      ∷ none
      ∷ [])
    ∷ (some (codes "OMX.TI.DUCATI1.VIDEO.DECODER.secure")
        ∷ some (codes "video_decoder.mpeg4")
        ∷ some (codes "video_decoder.avc")
        ∷ some (codes "video_decoder.h263")
        ∷ none
        ∷ [])
    ∷ (some (codes "OMX.TI.DUCATI1.VIDEO.H264D") ∷ some (codes "video_decoder.avc") ∷ none ∷ [])
    ∷ (some (codes "OMX.TI.DUCATI1.VIDEO.H264E") ∷ some (codes "video_encoder.avc") ∷ none ∷ [])
    ∷ (some (codes "OMX.TI.DUCATI1.VIDEO.MPEG4D") ∷ some (codes "video_decoder.mpeg4") ∷ none ∷ [])
    ∷ (some (codes "OMX.TI.DUCATI1.VIDEO.MPEG4E")
        ∷ some (codes "video_encoder.mpeg4")
        ∷ some (codes "video_encoder.h263")
        ∷ none
        ∷ [])
    ∷ (some (codes "OMX.TI.DUCATI1.VIDEO.VP6D") ∷ some (codes "video_decoder.vp6") ∷ none ∷ [])
    ∷ (some (codes "OMX.TI.DUCATI1.VIDEO.VP7D") ∷ some (codes "video_decoder.vp7") ∷ none ∷ [])
    ∷ (some (codes "OMX.TI.DUCATI1.IMAGE.JPEGD") ∷ some (codes "jpeg_decoder.jpeg") ∷ none ∷ [])
    ∷ (some (codes "OMX.TI.DUCATI1.VIDEO.CAMERA") ∷ some (codes "camera.omx") ∷ none ∷ [])
    ∷ (none ∷ none ∷ [])
    ∷ []

-- OMX_ComponentNameEnum with `count`, the table, whether the buffer is given, and `nIndex`; the
-- text that is copied to the buffer, if any.
unfoldable pub component_name_enum : ℕ → List ComponentTable → Bool → ℕ → OmxError × Option Text
component_name_enum count table has_buffer index =
    if not has_buffer
    then (bad_parameter, none)
    else if not (ltb 0 count)
    then (undefined_error, none)
    else elim (get_elem? table index) [
      | none ↦ (no_more, none)
      | some entry ↦ (error_none, some entry.name)
    ]

-- The loop that looks for the name.
unfoldable pub find_component : List ComponentTable → Text → Option ComponentTable
find_component [] name = none
find_component (entry ∷ table) name =
    if same name entry.name then some entry else find_component table name

-- `*pNumRoles` when `roles` is NULL. Behind the table stand entries of zeros.
abbrev n_roles : Option ComponentTable → ℕ
n_roles none = 0
n_roles (some entry) = length entry.roles

-- The roles that are copied to the caller's buffers, in their order.
abbrev copied_roles : Option ComponentTable → ℕ → List Text
copied_roles none num = []
copied_roles (some entry) num = if num == length entry.roles then entry.roles else []

-- OMX_GetRolesOfComponent: the pointers to the name and to the number may be NULL, and so may the
-- buffers. What the number is afterwards, and the roles that were copied.
unfoldable pub get_roles_of_component :
    ℕ → List ComponentTable → Option Text → Option ℕ → Bool → OmxError × Option ℕ × List Text
unfolding find_component
get_roles_of_component count table none num has_buffers = (bad_parameter, num, [])
get_roles_of_component count table (some name) none has_buffers = (bad_parameter, none, [])
get_roles_of_component count table (some name) (some num) has_buffers =
    if not (ltb (length name) max_name_size)
    then (invalid_component_name, some num, [])
    else if not (ltb 0 count)
    then (undefined_error, some num, [])
    else if not has_buffers
    then (error_none, some (n_roles (find_component table name)), [])
    else (error_none, some num, copied_roles (find_component table name) num)

-- The loop over the roles of an entry; each that is asked for takes one of the caller's buffers.
unfoldable pub matches : List Text → Text → Text → List Text
matches [] role name = []
matches (r ∷ roles) role name =
    let rest = matches roles role name in
    if same r role then take max_name_size name ∷ rest else rest

unfoldable pub components_of : List ComponentTable → Text → List Text
unfolding matches
components_of [] role = []
components_of (entry ∷ table) role = matches entry.roles role entry.name ++ components_of table role

-- Whether `componentTable[0].pRoleArray[0]` is set.
abbrev pub is_filled : List ComponentTable → Bool
is_filled [] = false
is_filled (entry ∷ table) = ltb 0 (length entry.roles)

-- OMX_GetComponentsOfRole, with `*pNumComps` afterwards and the names that were copied.
unfoldable pub get_components_of_role :
    ℕ → List ComponentTable → Option Text → Option ℕ → Bool → OmxError × Option ℕ × List Text
unfolding components_of
get_components_of_role count table none num has_buffers = (bad_parameter, num, [])
get_components_of_role count table (some role) none has_buffers = (bad_parameter, none, [])
get_components_of_role count table (some role) (some num) has_buffers =
    let names = components_of table role in
    if not (ltb 0 count)
    then (undefined_error, some num, [])
    else if not (is_filled table)
    then (bad_parameter, some num, [])
    else (error_none, some (length names), if has_buffers then names else [])
