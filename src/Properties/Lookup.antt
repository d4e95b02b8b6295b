-- ===== src/Properties/Lookup.antt =====
-- security/tf_daemon/smc_properties_parser.c and smc_properties.c: the values of the properties.
use camerahal.Common.{ℕ, ◌<◌, ◌≡◌, ◌≢◌, ◌⊎◌, inl, inr, refl, true, Option, none, some, List, All}
use camerahal.Status.{Outcome, success, error, running}
use camerahal.Properties.Memory.{Nodes, NodeList, name_of}
use camerahal.Properties.Threaded.{find_element}
use camerahal.Properties.Threaded.Shape.{Tree, in_order, height}
use camerahal.Properties.Threaded.Adding.{IsThreaded}
use camerahal.Properties.Threaded.Finding.{Found, find_element-Found}
use camerahal.Properties.Threaded.Sorted.{Among}

-- `pValue` of the properties, by their nodes.
abbrev pub Values : Type 0
Values = ℕ → List ℕ

value_of : Values → Outcome (Option ℕ) → Outcome (Option (List ℕ))
value_of values (success none) = success none
value_of values (success (some i)) = success (some (values i))
value_of values (error e) = error e
value_of values running = running

-- SMCPropGetSystemProperty, and smcGetPropertyAsString, which calls it.
unfoldable pub get_system_property :
    ℕ → Nodes → Values → NodeList → List ℕ → Outcome (Option (List ℕ))
unfolding value_of
get_system_property fuel h values list name = value_of values (find_element fuel h list name true)

-- The value as a number, or 0; the parser of numbers is that of lib_string2.
number_of : (List ℕ → Option ℕ) → Option (List ℕ) → Option ℕ
number_of parse none = none
number_of parse (some value) = parse value

-- smcGetPropertyAsInt: what it returns, and `*pVal`.
abbrev pub status_of : Option ℕ → ℕ × ℕ
status_of none = (1, 0)
status_of (some n) = (0, n)

int_of : (List ℕ → Option ℕ) → Outcome (Option (List ℕ)) → Outcome (ℕ × ℕ)
unfolding number_of
int_of parse (success v) = success (status_of (number_of parse v))
int_of parse (error e) = error e
int_of parse running = running

unfoldable pub get_property_as_int :
    ℕ → Nodes → Values → NodeList → (List ℕ → Option ℕ) → List ℕ → Outcome (ℕ × ℕ)
unfolding int_of
get_property_as_int fuel h values list parse name =
    int_of parse (get_system_property fuel h values list name)

-- The value of the property of the list that has the name; NULL where none has it.
abbrev pub Gets : Nodes → Values → List ℕ → List ℕ → Outcome (Option (List ℕ)) → Type 0
Gets h values name nodes (success none) = All (λ j. name_of h j ≢ name) nodes
Gets h values name nodes (success (some v)) =
    (i : ℕ) × Among i nodes × (name_of h i ≡ name) × (v ≡ values i)
Gets h values name nodes (error _) = ⊥
Gets h values name nodes running = ⊥

value_of-Gets :
    (h : Nodes) (values : Values) (name nodes : List ℕ) (o : Outcome (Option ℕ))
    → Found h name nodes o
    → Gets h values name nodes (value_of values o)
unfolding value_of
value_of-Gets h values name nodes (success none) f = f
value_of-Gets h values name nodes (success (some i)) f = (i, f.0, f.1, refl)
value_of-Gets h values name nodes (error e) f = f
value_of-Gets h values name nodes running f = f

-- The status is 0 with the number that a property of the list with that name spells, or 1 with the
-- number 0: no property has the name, or the value of the one that has it is not a number.
abbrev pub GetsNumber :
    Nodes → Values → (List ℕ → Option ℕ) → List ℕ → List ℕ → Outcome (ℕ × ℕ) → Type 0
GetsNumber h values parse name nodes (success r) =
    All (λ j. name_of h j ≢ name) nodes × (r ≡ (1, 0))
    ⊎ ((i : ℕ) × Among i nodes × (name_of h i ≡ name) × (r ≡ status_of (parse (values i))))
GetsNumber h values parse name nodes (error _) = ⊥
GetsNumber h values parse name nodes running = ⊥

int_of-GetsNumber :
    (h : Nodes) (values : Values) (parse : List ℕ → Option ℕ) (name nodes : List ℕ)
    (o : Outcome (Option (List ℕ)))
    → Gets h values name nodes o
    → GetsNumber h values parse name nodes (int_of parse o)
unfolding int_of number_of
int_of-GetsNumber h values parse name nodes (success none) g = inl (g, refl)
int_of-GetsNumber h values parse name nodes (success (some v)) (i, a, n, e) = inr (i, a, n, rw e)
int_of-GetsNumber h values parse name nodes (error e) g = g
int_of-GetsNumber h values parse name nodes running g = g

get_system_property-Gets :
    (fuel : ℕ) (h : Nodes) (values : Values) (list : NodeList) (t : Tree) (name : List ℕ)
    → height t < fuel
    → IsThreaded h list t
    → Gets h values name (in_order t) (get_system_property fuel h values list name)
unfolding get_system_property
get_system_property-Gets fuel h values list t name e w =
    value_of-Gets h values name (in_order t) (find_element fuel h list name true)
      (find_element-Found fuel h list t name e w)

-- smcGetPropertyAsInt on a sorted list, with fuel beyond the height of its tree, returns.
-- It gives the number of the property that has the name, or the status 1 with the number 0.
pub get_property_as_int-GetsNumber :
    (fuel : ℕ) (h : Nodes) (values : Values) (list : NodeList) (t : Tree)
    (parse : List ℕ → Option ℕ) (name : List ℕ)
    → height t < fuel
    → IsThreaded h list t
    → GetsNumber h values parse name
        (in_order t)
        (get_property_as_int fuel h values list parse name)
unfolding get_property_as_int
get_property_as_int-GetsNumber fuel h values list t parse name e w =
    int_of-GetsNumber h values parse name (in_order t) (get_system_property fuel h values list name)
      (get_system_property-Gets fuel h values list t name e w)
