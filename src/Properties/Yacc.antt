-- ===== src/Properties/Yacc.antt =====
-- security/tf_daemon/smc_properties_parser.c: SMCPropYacc, which sorts the items of a configuration
-- file into the lists of the system and of the services.
pub mod NullList
pub mod Tests
use Prim.Native.Nat.{Ordering}
use camerahal.Common.{
  ℕ, zero, suc, ◌+◌, ◌&&◌, Bool, true, false, Option, none, some, List, [], ◌∷◌, ltb, ◌==◌,
  if◌then◌else◌, length, codes,
}
use camerahal.Status.{SError, Outcome, success, error, running, item_not_found, out_of_memory}
use camerahal.Manifest.Context.{Context, Item, source_with_sections, init_context}
use camerahal.Manifest.Items.{get_next_item}
use camerahal.Properties.Strcmp.{strcasecmp}
use camerahal.Properties.Memory.{Nodes, NodeList, fresh_node}
use camerahal.Properties.Threaded.{sorted_add, find_element}

-- The lists that the pointers of the function point to; a service is the number of its node.
pub data ListRef : Type 0 where
  system_list : ListRef
  public_list private_list : ℕ → ListRef

-- CONF_FILE with the nodes and what hangs on them; `next_node` is the next that `malloc` gives.
pub record ConfFile : Type 0 where
  pub nodes : Nodes
  pub values : ℕ → List ℕ
  pub next_node : ℕ
  pub system : NodeList
  pub driver_sections : NodeList
  pub preinstalled_sections : NodeList
  pub sections : NodeList
  pub public_of : ℕ → NodeList
  pub private_of : ℕ → NodeList
  pub first_in_scf : Option ℕ
  pub in_scf : ℕ → Bool
  pub next_in_scf : ℕ → Option ℕ

-- `pPublicPropertyList`, `pPrivatePropertyList` and `pPreviousService`.
pub record Cursor : Type 0 where
  pub public : Option ListRef
  pub private : Option ListRef
  pub previous : Option ℕ

-- How the function, or a part of it, ends; `null_list` is a write through a NULL list.
pub data Parsed {ℓ} (A : Type ℓ) : Type ℓ where
  parsed : A → Parsed A
  failed : SError → Parsed A
  null_list : Parsed A
  unfinished : Parsed A

abbrev pub list_of : ConfFile → ListRef → NodeList
list_of conf system_list = conf.system
list_of conf (public_list s) = conf.public_of s
list_of conf (private_list s) = conf.private_of s

abbrev update {ℓ} : {A : Type ℓ} → (ℕ → A) → ℕ → A → ℕ → A
update f i v j = if i == j then v else f j

abbrev set_list : ConfFile → ListRef → NodeList → ConfFile
set_list conf system_list l = record conf { system = l }
set_list conf (public_list s) l = record conf { public_of = update conf.public_of s l }
set_list conf (private_list s) l = record conf { private_of = update conf.private_of s l }

-- What SMCPropListSortedAdd leaves, put back.
unfoldable pub added : ConfFile → ListRef → Outcome (Nodes × NodeList) → Parsed ConfFile
added conf ref (success (h, l)) = parsed (set_list (record conf { nodes = h }) ref l)
added conf ref (error e) = failed e
added conf ref running = unfinished

-- A new PROPERTY with its name and value.
abbrev pub allocate : ConfFile → List ℕ → List ℕ → ConfFile
allocate conf name value = record conf {
  nodes = update conf.nodes conf.next_node (fresh_node (some name));
  values = update conf.values conf.next_node value;
  next_node = conf.next_node + 1;
}

-- The property is put into a list, which must not be NULL.
unfoldable pub add_property : ℕ → ConfFile → Option ListRef → List ℕ → List ℕ → Parsed ConfFile
unfolding added
add_property fuel conf none name value = null_list
add_property fuel conf (some ref) name value =
    let conf' = allocate conf name value in
    added conf' ref (sorted_add fuel conf'.nodes (list_of conf' ref) conf.next_node)

-- `memcmp` of the name, which ends with a zero, and a text without zeros.
unfoldable pub has_prefix : List ℕ → List ℕ → Bool
has_prefix [] name = true
has_prefix (p ∷ prefix) [] = false
has_prefix (p ∷ prefix) (c ∷ name) = p == c && has_prefix prefix name

-- The length that is compared is that of the value.
abbrev pub is_config : List ℕ → List ℕ → Bool
is_config name value =
    ltb (length (codes "config.")) (length value) && has_prefix (codes "config.") name

-- The list for a property.
unfoldable pub route : Cursor → List ℕ → List ℕ → Option ListRef
unfolding has_prefix
route cursor name value = elim cursor.private [
  | none ↦ cursor.public
  | some ref ↦ if is_config name value then some ref else cursor.public
]

-- A search that goes on to the next list when it finds nothing.
unfoldable pub or_else : Outcome (Option ℕ) → Outcome (Option ℕ) → Outcome (Option ℕ)
or_else (success none) next = next
or_else (success (some s)) next = success (some s)
or_else (error e) next = error e
or_else running next = running

unfoldable pub find_section : ℕ → ConfFile → List ℕ → Outcome (Option ℕ)
unfolding or_else
find_section fuel conf name =
    or_else (find_element fuel conf.nodes conf.driver_sections name false) (
      or_else (find_element fuel conf.nodes conf.preinstalled_sections name false)
        (find_element fuel conf.nodes conf.sections name false))

-- The service is linked behind the one before it in the file.
abbrev link_service : ConfFile → Option ℕ → ℕ → ConfFile
link_service conf none s = record conf { in_scf = update conf.in_scf s true; first_in_scf = some s }
link_service conf (some p) s = record conf {
  in_scf = update conf.in_scf s true;
  next_in_scf = update conf.next_in_scf p (some s);
}

unfoldable pub enter_service : ConfFile → Cursor → Outcome (Option ℕ) → Parsed (ConfFile × Cursor)
enter_service conf cursor (success none) = failed item_not_found
enter_service conf cursor (success (some s)) = parsed (
  link_service conf cursor.previous s,
  record { public = some (public_list s); private = some (private_list s); previous = some s },
)
enter_service conf cursor (error e) = failed e
enter_service conf cursor running = unfinished

abbrev pub is_eq : Ordering → Bool
is_eq Ordering.eq = true
is_eq _ = false

-- A section header. In the section of the system the private list stays what it was.
unfoldable pub enter_section : ℕ → ConfFile → Cursor → List ℕ → Parsed (ConfFile × Cursor)
unfolding enter_service
enter_section fuel conf cursor name =
    if is_eq (strcasecmp name (codes "Global"))
    then parsed (conf, record cursor { public = some system_list })
    else enter_service conf cursor (find_section fuel conf name)

unfoldable pub keep_cursor : Cursor → Parsed ConfFile → Parsed (ConfFile × Cursor)
keep_cursor cursor (parsed conf) = parsed (conf, cursor)
keep_cursor cursor (failed e) = failed e
keep_cursor cursor null_list = null_list
keep_cursor cursor unfinished = unfinished

-- An item, with whether there is memory for the copy of its name, and for the rest of a property.
unfoldable pub yacc_item : ℕ → Bool × Bool → ConfFile → Cursor → Item → Parsed (ConfFile × Cursor)
unfolding keep_cursor
yacc_item fuel memory conf cursor item =
    if memory.0
    then elim item.value [
      | none ↦ enter_section fuel conf cursor item.name
      | some value ↦
          if memory.1
          then keep_cursor cursor
              (add_property fuel conf (route cursor item.name value) item.name value)
          else failed out_of_memory
    ]
    else failed out_of_memory

-- The loop, with fuel for its rounds; the memory that there is may be another in each.
unfoldable pub yacc_from : ℕ → ℕ → (ℕ → Bool × Bool) → Context → ConfFile → Cursor → Parsed ConfFile
yacc_from fuel zero memory ctx conf cursor = unfinished
yacc_from fuel (suc rounds) memory ctx conf cursor =
    let (ctx', r) = get_next_item fuel ctx in
    elim r [
      | running ↦ unfinished
      | error item_not_found ↦ parsed conf
      | error e ↦ failed e
      | success item ↦ elim (yacc_item fuel (memory rounds) conf cursor item) [
        | parsed s ↦ yacc_from fuel rounds memory ctx' s.0 s.1
        | failed e ↦ failed e
        | null_list ↦ null_list
        | unfinished ↦ unfinished
      ]
    ]

unfoldable pub yacc : ℕ → (ℕ → Bool × Bool) → List ℕ → ConfFile → Parsed ConfFile
unfolding yacc_from
yacc fuel memory content conf =
    yacc_from fuel fuel memory (init_context content source_with_sections) conf
      (record { public = none; private = none; previous = none })
