-- ===== src/Properties/Threaded.antt =====
-- security/tf_daemon/smc_properties_parser.c: the lists of named nodes, each a search tree and a
-- doubly linked list over the same nodes.
pub mod Shape
pub mod Writes
pub mod Splice
pub mod Sorted
pub mod Insertion
pub mod Growth
pub mod Adding
pub mod Finding
use Prim.Native.Nat.{Ordering}
use camerahal.Common.{ℕ, zero, suc, Bool, true, false, Option, none, some, List, if◌then◌else◌}
use camerahal.Status.{Outcome, success, error, running, item_exists, bad_parameters}
use camerahal.Properties.Strcmp.{strcmp, strcasecmp}
use camerahal.Properties.Memory.{Node, Nodes, NodeList, modify, name_of}

-- `static_listFindNodeElement`, with fuel for the rounds of its loop.
unfoldable pub find_node : ℕ → Nodes → Option ℕ → List ℕ → Bool → Outcome (Option ℕ)
find_node zero h list name is_case_sensitive = running
find_node (suc fuel) h none name is_case_sensitive = success none
find_node (suc fuel) h (some i) name is_case_sensitive =
    elim (if is_case_sensitive then strcmp name (name_of h i) else strcasecmp name (name_of h i)) [
      | Ordering.gt ↦ find_node fuel h (h i).right name is_case_sensitive
      | Ordering.lt ↦ find_node fuel h (h i).left name is_case_sensitive
      | Ordering.eq ↦ success (some i)
    ]

-- A write through a pointer that may be NULL, under the test that it is not.
abbrev modify_at : Nodes → Option ℕ → (Node → Node) → Nodes
modify_at h none f = h
modify_at h (some i) f = modify h i f

-- The assignments that hang `node` under `list` on the right, and link it behind it.
unfoldable pub link_right : Nodes → ℕ → ℕ → Nodes
link_right h list node =
    let h1 = modify h list (λ n. record n { right = some node }) in
    let h2 = modify h1 node (λ n. record n { previous = some list }) in
    let h3 = modify h2 node (λ n. record n { next = (h2 list).next }) in
    let h4 = modify_at h3 (h3 list).next (λ n. record n { previous = some node }) in
    modify h4 list (λ n. record n { next = some node })

-- Those that hang it on the left, and link it in front.
unfoldable pub link_left : Nodes → ℕ → ℕ → Nodes
link_left h list node =
    let h1 = modify h list (λ n. record n { left = some node }) in
    let h2 = modify h1 node (λ n. record n { next = some list }) in
    let h3 = modify h2 node (λ n. record n { previous = (h2 list).previous }) in
    let h4 = modify_at h3 (h3 list).previous (λ n. record n { next = some node }) in
    modify h4 list (λ n. record n { previous = some node })

-- `static_listSortedAddNode`. With S_ERROR_ITEM_EXISTS the nodes are as they were.
unfoldable pub sorted_add_node : ℕ → Nodes → ℕ → ℕ → Outcome Nodes
sorted_add_node zero h list node = running
sorted_add_node (suc fuel) h list node = elim (strcmp (name_of h node) (name_of h list)) [
  | Ordering.gt ↦ elim (h list).right [
    | some r ↦ sorted_add_node fuel h r node
    | none ↦ success (link_right h list node)
  ]
  | Ordering.lt ↦ elim (h list).left [
    | some l ↦ sorted_add_node fuel h l node
    | none ↦ success (link_left h list node)
  ]
  | Ordering.eq ↦ error item_exists
]

abbrev pub is_null : Option ℕ → Bool
is_null none = true
is_null (some _) = false

-- `SMCPropListSortedAdd`.
unfoldable pub add_to : ℕ → Nodes → NodeList → ℕ → Option ℕ → Outcome (Nodes × NodeList)
add_to fuel h list node none = success (h, record { root = some node; first = some node })
add_to fuel h list node (some root) = elim (sorted_add_node fuel h root node) [
  | success h' ↦
      success (h', if is_null (h' node).previous then record list { first = some node } else list)
  | error e ↦ error e
  | running ↦ running
]

unfoldable pub sorted_add : ℕ → Nodes → NodeList → ℕ → Outcome (Nodes × NodeList)
unfolding add_to
sorted_add fuel h list node = elim (h node).name [
  | none ↦ error bad_parameters
  | some _ ↦ add_to fuel h list node list.root
]

-- `SMCPropListFindElement`.
unfoldable pub find_from : ℕ → Nodes → Option ℕ → List ℕ → Bool → Outcome (Option ℕ)
find_from fuel h none name is_case_sensitive = success none
find_from fuel h (some root) name is_case_sensitive =
    find_node fuel h (some root) name is_case_sensitive

unfoldable pub find_element : ℕ → Nodes → NodeList → List ℕ → Bool → Outcome (Option ℕ)
unfolding find_from
find_element fuel h list name is_case_sensitive = find_from fuel h list.root name is_case_sensitive
