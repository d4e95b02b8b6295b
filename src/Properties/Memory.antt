-- ===== src/Properties/Memory.antt =====
-- security/tf_daemon/smc_properties_parser.h: NODE and LIST, and the memory that holds the nodes.
use camerahal.Common.{ℕ, Option, none, some, List, [], ◌==◌, if◌then◌else◌}

-- A pointer is the number of a node; NULL is `none`.
pub record Node : Type 0 where
  pub left : Option ℕ
  pub right : Option ℕ
  pub next : Option ℕ
  pub previous : Option ℕ
  pub name : Option (List ℕ)

abbrev pub Nodes : Type 0
Nodes = ℕ → Node

-- LIST.
pub record NodeList : Type 0 where
  pub root : Option ℕ
  pub first : Option ℕ

-- A node as `memset` leaves it, with its name.
abbrev pub fresh_node : Option (List ℕ) → Node
fresh_node name = record { left = none; right = none; next = none; previous = none; name = name }

-- A write to the fields of a node.
abbrev pub modify : Nodes → ℕ → (Node → Node) → Nodes
modify h i f j = if i == j then f (h j) else h j

-- The bytes that `pName` points to. A node without a name is never put into a list.
abbrev text_of : Option (List ℕ) → List ℕ
text_of none = []
text_of (some bytes) = bytes

abbrev pub name_of : Nodes → ℕ → List ℕ
name_of h i = text_of (h i).name
