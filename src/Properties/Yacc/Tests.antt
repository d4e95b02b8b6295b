-- ===== src/Properties/Yacc/Tests.antt =====
-- Runs of SMCPropYacc.
use camerahal.Common.{ℕ, ◌≡◌, refl, Bool, true, false, none, some, List, [], ◌∷◌, ◌++◌, codes}
use camerahal.Status.{success, item_not_found}
use camerahal.Manifest.Context.{lf}
use camerahal.Manifest.Tests.{reader}
use camerahal.Properties.Memory.{NodeList, fresh_node}
use camerahal.Properties.Tests.{lists}
use camerahal.Properties.Lookup.{get_system_property}
use camerahal.Properties.Yacc.{
  ConfFile, Parsed, parsed, failed, added, add_property, has_prefix, route, or_else, find_section,
  enter_service, enter_section, keep_cursor, yacc_item, yacc_from, yacc,
}
use camerahal.Properties.Yacc.NullList.{IsSafe, yacc-IsSafe}

abbrev no_list : NodeList
no_list = record { root = none; first = none }

-- A CONF_FILE of zeros.
abbrev zeros : ConfFile
zeros = record {
  nodes = λ i. fresh_node none;
  values = λ i. [];
  next_node = 0;
  system = no_list;
  driver_sections = no_list;
  preinstalled_sections = no_list;
  sections = no_list;
  public_of = λ s. no_list;
  private_of = λ s. no_list;
  first_in_scf = none;
  in_scf = λ s. false;
  next_in_scf = λ s. none;
}

abbrev conf_of : Parsed ConfFile → ConfFile
conf_of (parsed conf) = conf
conf_of _ = zeros

abbrev file : List ℕ
file = codes "[Global]" ++ lf ∷ codes "b: 1" ++ lf ∷ codes "a: 23"

abbrev enough : ℕ → Bool × Bool
enough round = (true, true)

yacc-lookup :
    get_system_property 99
      (conf_of (yacc 99 enough file zeros)).nodes
      (conf_of (yacc 99 enough file zeros)).values
      (conf_of (yacc 99 enough file zeros)).system
      (codes "a")
    ≡ success (some (codes "23"))
unfolding reader lists added add_property has_prefix route or_else find_section enter_service
    enter_section keep_cursor yacc_item yacc_from yacc get_system_property
yacc-lookup = refl

-- Without any service, the section of a service is not found.
yacc-no_service : yacc 99 enough (codes "[Service]") zeros ≡ failed item_not_found
unfolding reader lists added add_property has_prefix route or_else find_section enter_service
    enter_section keep_cursor yacc_item yacc_from yacc
yacc-no_service = refl

yacc-IsSafe_example : IsSafe (yacc 99 enough file zeros)
yacc-IsSafe_example = yacc-IsSafe 99 enough file zeros
