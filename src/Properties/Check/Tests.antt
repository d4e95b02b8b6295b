-- ===== src/Properties/Check/Tests.antt =====
-- Runs of the check of the mandatory properties.
use camerahal.Common.{
  ℕ, ◌≡◌, ◌↔◌, refl, Bool, true, false, none, some, List, ◌==◌, if◌then◌else◌, length, codes, arith,
}
use camerahal.Status.{Outcome, success}
use camerahal.Properties.Strcmp.{strcmp}
use camerahal.Properties.Memory.{Nodes, NodeList, fresh_node}
use camerahal.Properties.Threaded.{link_left, link_right, sorted_add_node, add_to, sorted_add}
use camerahal.Properties.Threaded.Shape.{Tree, leaf, branch, in_order}
use camerahal.Properties.Threaded.Adding.{IsThreaded}
use camerahal.Properties.Check.{
  FileSystem, slash_index, check_file_path, mandatory_of, mark, all_found, check_from,
  properties_check,
}
use camerahal.Properties.Check.Verdict.{Passes, properties_check-verdict}

unfoldable checks : Unit {0}
unfolding strcmp link_left link_right sorted_add_node add_to sorted_add slash_index check_file_path
    mandatory_of mark all_found check_from properties_check
checks = tt

-- The four mandatory properties.
abbrev name_of_node : ℕ → List ℕ
name_of_node i =
    if i == 0
    then codes "filesystem.keystore.user.fileName"
    else if i == 1
    then codes "filesystem.keystore.fileName"
    else if i == 2
    then codes "filesystem.storage.fileName"
    else codes "filesystem.mc.fileName"

abbrev unlinked : Nodes
unlinked i = fresh_node (some (name_of_node i))

abbrev no_list : NodeList
no_list = record { root = none; first = none }

abbrev state_of : Outcome (Nodes × NodeList) → Nodes × NodeList
state_of (success s) = s
state_of _ = (unlinked, no_list)

abbrev with_node : ℕ → Nodes × NodeList → Nodes × NodeList
with_node n (h, list) = state_of (sorted_add 9 h list n)

abbrev three : Nodes × NodeList
three = with_node 2 (with_node 1 (with_node 0 (unlinked, no_list)))

abbrev four : Nodes × NodeList
four = with_node 3 three

abbrev four_tree : Tree
four_tree = branch (branch leaf 1 leaf) 0 (branch (branch leaf 3 leaf) 2 leaf)

four_IsThreaded : IsThreaded four.0 four.1 four_tree
unfolding checks
four_IsThreaded = record {
  rep = (refl, (refl, refl, refl), (refl, (refl, refl, refl), refl));
  first = refl;
  links = (refl, refl, (refl, refl, (refl, refl, (refl, refl, tt))));
  distinct = (
    ((λ e. absurd (omega arith)), ((λ e. absurd (omega arith)), ((λ e. absurd (omega arith)), tt))),
    (
      ((λ e. absurd (omega arith)), ((λ e. absurd (omega arith)), tt)),
      (((λ e. absurd (omega arith)), tt), (tt, tt)),
    ),
  );
  sorted = ((refl, (refl, (refl, tt))), ((refl, (refl, tt)), ((refl, tt), (tt, tt))));
}

-- A file system with one directory.
abbrev one_directory : FileSystem
one_directory = record {
  has_memory = true;
  stat = λ path. if length path == 5 then some 0o40755 else none;
}

abbrev value_of_node : ℕ → List ℕ
value_of_node i = codes "/data/file"

all_there : properties_check one_directory four.0 value_of_node 9 four.1 ≡ success true
unfolding checks
all_there = refl

one_missing : properties_check one_directory three.0 value_of_node 9 three.1 ≡ success false
unfolding checks
one_missing = refl

no_directory : properties_check one_directory four.0 (λ i. codes "/tmp/x") 9 four.1 ≡ success false
unfolding checks
no_directory = refl

properties_check-verdict_example :
    (verdict : Bool) × (properties_check one_directory four.0 value_of_node 9 four.1
      ≡ success verdict)
    × ((verdict ≡ true) ↔ Passes one_directory four.0 value_of_node (in_order four_tree))
unfolding checks
properties_check-verdict_example =
    properties_check-verdict one_directory four.0 value_of_node 9 four.1 four_tree (omega arith)
      four_IsThreaded
