-- ===== src/OmxCore/Handles.antt =====
-- domx/omx_core/src/OMX_Core.c: OMX_Init, OMX_GetHandle, OMX_FreeHandle and OMX_Deinit.
pub mod Slots
pub mod Lifecycle
pub mod Reachable
pub mod LostSlots
use camerahal.Common.{
  ℕ, zero, suc, ◌+◌, ◌-◌, Bool, true, false, not, ◌&&◌, ◌||◌, Option, none, some, List, [], ◌∷◌,
  ◌++◌, ltb, ◌==◌, if◌then◌else◌, length, codes,
}
use camerahal.OmxCore.Errors.{
  OmxError, is_none, error_none, insufficient_resources, undefined_error, invalid_component_name,
  component_not_found, invalid_component, bad_parameter,
}
use camerahal.OmxCore.Registry.{
  Text, max_comp, max_name_size, ComponentTable, component_names, build_component_table,
}

-- What the core does to the dynamic linker, the heap and the components, in order.
pub data Call : Type 0 where
  dlopen : Text → Call
  dlclose : Option ℕ → Call
  free : ℕ → Call
  component_init set_callbacks component_deinit : ℕ → Call

-- The variables of the file. A library and a handle are numbers, NULL is `none`; `mutex_ready` tells
-- that `mutex` is initialised.
pub record Core : Type 0 where
  pub count : ℕ
  pub mutex_ready : Bool
  pub table : List ComponentTable
  pub modules : ℕ → Option ℕ
  pub components : ℕ → Option ℕ
  pub calls : List Call

abbrev pub initial_core : Core
initial_core = record {
  count = 0;
  mutex_ready = false;
  table = [];
  modules = λ i. none;
  components = λ i. none;
  calls = [];
}

abbrev pub set_at : (ℕ → Option ℕ) → ℕ → Option ℕ → ℕ → Option ℕ
set_at slots i v j = if i == j then v else slots j

abbrev pub is_null : Option ℕ → Bool
is_null none = true
is_null (some _) = false

abbrev pub points_to : Option ℕ → ℕ → Bool
points_to none h = false
points_to (some g) h = g == h

-- The first index from `i` on, of those that remain, that passes the test; else the index behind.
unfoldable pub first_index : (ℕ → Bool) → ℕ → ℕ → ℕ
first_index test i zero = i
first_index test i (suc remaining) =
    let rest = first_index test (i + 1) remaining in if test i then i else rest

abbrev pub log : Core → Call → Core
log core c = record core { calls = core.calls ++ c ∷ [] }

-- What the linker, the heap and the component answer in one call of OMX_GetHandle: `mode` is the
-- byte that the driver gave, `dlsym` whether OMX_ComponentInit is found.
pub record Answers : Type 0 where
  pub mode : ℕ
  pub library : Option ℕ
  pub dlsym : Bool
  pub memory : Option ℕ
  pub init : OmxError
  pub callbacks : OmxError

-- The arguments of OMX_GetHandle, any of which may be NULL.
pub record Arguments : Type 0 where
  pub has_handle : Bool
  pub component_name : Option Text
  pub has_callbacks : Bool

-- What the call leaves in `*pHandle`: nothing new, or a pointer.
pub data Stored : Type 0 where
  untouched : Stored
  stored : Option ℕ → Stored

abbrev pub Got : Type 0
Got = Core × OmxError × Stored

unfoldable pub starts_with : Text → Text → Bool
starts_with [] text = true
starts_with (p ∷ prefix) [] = false
starts_with (p ∷ prefix) (c ∷ text) = p == c && starts_with prefix text

-- `strstr(text, part) != NULL`
unfoldable pub has_part : Text → Text → Bool
has_part part [] = starts_with part []
has_part part (c ∷ text) = starts_with part (c ∷ text) || has_part part text

abbrev library_name : Text → Text
library_name name = codes "lib" ++ name ++ codes ".so"

-- From the call of OMX_ComponentInit on, with the library and the handle in slot `i`.
unfoldable pub start_component : Core → Answers → ℕ → Option ℕ → ℕ → Got
start_component core a i library h =
    let inited = log core (component_init h) in
    if is_none a.init then (log inited (set_callbacks h), a.callbacks, stored (some h)) else (
      record (log (log inited (free h)) (dlclose library)) {
        components = set_at core.components i none;
      },
      a.init,
      stored none,
    )

-- From `dlopen` on, with the empty slot `i`.
unfoldable pub load_component : Core → Answers → ℕ → Text → Got
unfolding start_component
load_component core a i name =
    let tried = record (log core (dlopen (library_name name))) {
      modules = set_at core.modules i a.library;
    } in
    if is_null a.library
    then (tried, component_not_found, untouched)
    else if not a.dlsym
    then (tried, invalid_component, untouched)
    else elim a.memory [
      | none ↦ (tried, insufficient_resources, stored none)
      | some h ↦
          start_component (record tried { components = set_at core.components i (some h) }) a i
            a.library h
    ]

abbrev pub free_slot : Core → ℕ
free_slot core = first_index (λ i. is_null (core.modules i)) 0 max_comp

-- From the check of the name on.
unfoldable pub open_component : Core → Answers → Text → Got
unfolding load_component
open_component core a name =
    if not (ltb 0 core.count)
    then (core, undefined_error, untouched)
    else if not (ltb (length name) max_name_size)
    then (core, invalid_component_name, untouched)
    else if free_slot core == max_comp
    then (core, insufficient_resources, untouched)
    else if a.mode == 1 && not (has_part (codes "secure") name)
    then (core, component_not_found, untouched)
    else load_component core a (free_slot core) name

unfoldable pub get_handle : Core → Answers → Arguments → Got
get_handle core a args = elim args.component_name [
  | none ↦ (core, bad_parameter, untouched)
  | some name ↦
      if not args.has_handle
      then (core, bad_parameter, untouched)
      else if not args.has_callbacks
      then (core, bad_parameter, untouched)
      else open_component core a name
]

abbrev pub slot_of : Core → ℕ → ℕ
slot_of core h = first_index (λ i. points_to (core.components i) h) 0 max_comp

-- From ComponentDeInit on, whose error is only logged.
unfoldable pub unload_component : Core → ℕ → ℕ → Core
unload_component core i h =
    record (log (log (log core (component_deinit h)) (dlclose (core.modules i))) (free h)) {
      modules = set_at core.modules i none;
      components = set_at core.components i none;
    }

unfoldable pub free_handle : Core → Option ℕ → Core × OmxError
unfolding unload_component
free_handle core none = (core, bad_parameter)
free_handle core (some h) =
    if not (ltb 0 core.count)
    then (core, undefined_error)
    else if slot_of core h == max_comp
    then (core, bad_parameter)
    else (unload_component core (slot_of core h) h, error_none)

-- The increment of `count`, and what the first call sets up.
abbrev pub enter : Core → Core
enter core =
    if core.count + 1 == 1
    then record core {
      count = core.count + 1;
      mutex_ready = true;
      table = build_component_table component_names;
    }
    else record core { count = core.count + 1 }

-- OMX_Init, with whether the mutex of the library can be obtained and released.
unfoldable pub init : Core → Bool → Bool → Core × OmxError
init core obtained released =
    if not obtained
    then (core, insufficient_resources)
    else if not released
    then (enter core, insufficient_resources)
    else (enter core, error_none)

-- OMX_Deinit goes on without the mutex of the library too, and always returns OMX_ErrorNone.
unfoldable pub deinit : Core → Core × OmxError
deinit core = if not (ltb 0 core.count) then (core, error_none) else (
  record core {
    count = core.count - 1;
    mutex_ready = if core.count - 1 == 0 then false else core.mutex_ready;
  },
  error_none,
)
