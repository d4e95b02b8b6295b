-- ===== src/OmxCore/Tests.antt =====
-- Runs of the core, and the theorems at concrete states.
use camerahal.Common.{
  ℕ, ◌≡◌, refl, true, false, some, List, [], ◌∷◌, length, codes, arith, ◌==◌, if◌then◌else◌,
}
use camerahal.Properties.Strcmp.{strcmp}
use camerahal.OmxCore.Errors.{OmxError, error_none, not_implemented}
use camerahal.OmxCore.Registry.{
  ComponentTable, component_names, roles_of_row, has_name, build_rows, build_component_table,
  component_name_enum, find_component, get_roles_of_component, matches, components_of,
  get_components_of_role,
}
use camerahal.OmxCore.Registry.Building.{Listed, rows_of, build_component_table-table_of}
use camerahal.OmxCore.Registry.Roles.{TwoCalls, get_components_of_role-TwoCalls}
use camerahal.OmxCore.Handles.{
  Core, initial_core, Answers, Arguments, stored, starts_with, has_part, first_index,
  start_component, load_component, open_component, get_handle, unload_component, free_handle, init,
  deinit,
}
use camerahal.OmxCore.Handles.Lifecycle.{IsConsistent, IsFresh}
use camerahal.OmxCore.Handles.Reachable.{
  init_call, deinit_call, get_call, run, run-IsConsistent, Restores, get_handle-Restores,
}
use camerahal.OmxCore.Handles.LostSlots.{IsLost, get_handle-loses_slot}
use camerahal.OmxCore.Tunnel.{
  Request, Answered, request_input, setup_tunnel, is_tunnelled, setup_tunnel-all_or_nothing,
}

unfoldable core : Unit {0}
unfolding strcmp roles_of_row has_name build_rows build_component_table component_name_enum
    find_component get_roles_of_component matches components_of get_components_of_role starts_with
    has_part first_index start_component load_component open_component get_handle unload_component
    free_handle init deinit request_input setup_tunnel
core = tt

abbrev decoder : ComponentTable
decoder = record { name = codes "OMX.D"; roles = codes "video.avc" ∷ codes "video.vp6" ∷ [] }

abbrev encoder : ComponentTable
encoder = record { name = codes "OMX.E"; roles = codes "video.avc" ∷ [] }

abbrev small_table : List ComponentTable
small_table = decoder ∷ encoder ∷ []

abbrev listed : List Listed
listed =
    record { name = codes "OMX.D"; roles = codes "video.avc" ∷ codes "video.vp6" ∷ [] }
    ∷ record { name = codes "OMX.E"; roles = codes "video.avc" ∷ [] }
    ∷ []

-- The table of the source is built with its ten components.
static_table_length : length (build_component_table component_names) ≡ 10
unfolding core
static_table_length = refl

build_component_table-table_of_example : build_component_table (rows_of listed) ≡ small_table
unfolding core
build_component_table-table_of_example = build_component_table-table_of listed (omega arith) refl

get_components_of_role-TwoCalls_example : TwoCalls 1 small_table (codes "video.avc") 0
get_components_of_role-TwoCalls_example =
    get_components_of_role-TwoCalls 1 small_table (codes "video.avc") 0 (omega arith) refl

-- An environment in which a component opens, and one in which it does not start.
abbrev opens : Answers
opens = record {
  mode = 0;
  library = some 70;
  dlsym = true;
  memory = some 80;
  init = error_none;
  callbacks = error_none;
}

abbrev has_no_symbol : Answers
has_no_symbol = record opens { dlsym = false }

abbrev wanted : Arguments
wanted = record { has_handle = true; component_name = some (codes "OMX.D"); has_callbacks = true }

abbrev started : Core
started = run initial_core (init_call true true ∷ [])

started-IsFresh : IsFresh started opens
unfolding core
started-IsFresh j h e p = cc

started-IsConsistent : IsConsistent started
started-IsConsistent = run-IsConsistent (init_call true true ∷ []) tt

run-IsConsistent_example :
    IsConsistent (run initial_core (init_call true true ∷ get_call opens wanted ∷ deinit_call ∷ []))
run-IsConsistent_example =
    run-IsConsistent (init_call true true ∷ get_call opens wanted ∷ deinit_call ∷ [])
      (started-IsFresh, tt)

get_handle-Restores_example :
    (h : ℕ) × ((get_handle started opens wanted).2 ≡ stored (some h))
    × Restores started (get_handle started opens wanted).0 h
unfolding core
get_handle-Restores_example =
    get_handle-Restores started opens wanted started-IsConsistent started-IsFresh refl

get_handle-loses_slot_example :
    IsLost
      (run (get_handle started has_no_symbol wanted).0 (deinit_call ∷ init_call true true ∷ []))
      0
unfolding core
get_handle-loses_slot_example =
    get_handle-loses_slot started has_no_symbol wanted 0 (deinit_call ∷ init_call true true ∷ [])
      started-IsConsistent refl refl (λ e. cc)

-- Components that refuse what they are asked, and give every tunnel up.
abbrev refuses_peer : ℕ → List Answered → Request → OmxError
refuses_peer c asked r =
    if r.component == c then (if r.has_setup then not_implemented else error_none) else error_none

setup_tunnel-all_or_nothing_example :
    (is_tunnelled 3 false (setup_tunnel (refuses_peer 4) (some 3) 1 (some 4) 0).1 ≡ false)
    × (is_tunnelled 4 false (setup_tunnel (refuses_peer 4) (some 3) 1 (some 4) 0).1 ≡ false)
unfolding core
setup_tunnel-all_or_nothing_example =
    setup_tunnel-all_or_nothing (refuses_peer 4) 3 1 4 0 (λ e. absurd (omega arith)) (λ asked. refl)
