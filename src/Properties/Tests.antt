-- ===== src/Properties/Tests.antt =====
-- Runs of the property lists, and the theorems at concrete lists.
use camerahal.Common.{
  ◌-◌, Option, [], ◌∷◌, ℕ, ◌≡◌, ◌==◌, refl, true, none, some, List, codes, arith, if◌then◌else◌,
}
use camerahal.Status.{Outcome, success, error, item_exists}
use camerahal.Properties.Strcmp.{strcmp, strcasecmp}
use camerahal.Properties.Memory.{Nodes, NodeList, fresh_node}
use camerahal.Properties.Threaded.{
  find_node, link_right, link_left, sorted_add_node, add_to, sorted_add, find_from, find_element,
}
use camerahal.Properties.Threaded.Shape.{Tree, leaf, branch, in_order}
use camerahal.Properties.Threaded.Adding.{IsThreaded, IsNew, Added, sorted_add-IsThreaded}
use camerahal.Properties.Threaded.Finding.{Found, find_element-Found, sorted_add-find_element}

unfoldable pub lists : Unit {0}
unfolding strcmp strcasecmp find_node link_right link_left sorted_add_node add_to sorted_add
    find_from find_element
lists = tt

abbrev empty : NodeList
empty = record { root = none; first = none }

-- Four nodes that are in no list.
abbrev name_at : ℕ → List ℕ
name_at i = if i == 0 then codes "m" else if i == 2 then codes "x" else codes "c"

abbrev loose : Nodes
loose i = fresh_node (some (name_at i))

abbrev state_of : Outcome (Nodes × NodeList) → Nodes × NodeList
state_of (success s) = s
state_of _ = (loose, empty)

abbrev add : ℕ → Nodes × NodeList → Nodes × NodeList
add n (h, list) = state_of (sorted_add 9 h list n)

abbrev two : Nodes × NodeList
two = add 1 (add 0 (loose, empty))

abbrev two_tree : Tree
two_tree = branch (branch leaf 1 leaf) 0 leaf

first_of_two : two.1.first ≡ some 1
unfolding lists
first_of_two = refl

taken_name : sorted_add 9 two.0 two.1 3 ≡ error item_exists
unfolding lists
taken_name = refl

two_IsThreaded : IsThreaded two.0 two.1 two_tree
unfolding lists
two_IsThreaded = record {
  rep = (refl, (refl, refl, refl), refl);
  first = refl;
  links = (refl, refl, (refl, refl, tt));
  distinct = (((λ e. absurd (omega arith)), tt), (tt, tt));
  sorted = ((refl, tt), (tt, tt));
}

two_IsNew : IsNew two.0 two_tree 2
unfolding lists
two_IsNew = record {
  bytes = codes "x";
  named = refl;
  bare = (refl, refl);
  absent = ((λ e. absurd (omega arith)), ((λ e. absurd (omega arith)), tt));
  unlinked = refl;
  last = refl;
}

sorted_add-IsThreaded_example : Added two.0 two.1 two_tree 2 (sorted_add 9 two.0 two.1 2)
unfolding lists
sorted_add-IsThreaded_example =
    sorted_add-IsThreaded 9 two.0 two.1 two_tree 2 (omega arith) two_IsThreaded two_IsNew

find_element-Found_example :
    Found two.0 (codes "c") (in_order two_tree) (find_element 9 two.0 two.1 (codes "c") true)
unfolding lists
find_element-Found_example =
    find_element-Found 9 two.0 two.1 two_tree (codes "c") (omega arith) two_IsThreaded

sorted_add-find_element_example :
    find_element 9 (add 2 two).0 (add 2 two).1 (codes "x") true ≡ success (some 2)
unfolding lists
sorted_add-find_element_example =
    sorted_add-find_element 9 9 two.0 (add 2 two).0 two.1 (add 2 two).1 two_tree 2 (omega arith)
      two_IsThreaded two_IsNew refl (omega arith)

-- A parser of numbers that knows one digit.
abbrev parse_digit : List ℕ → Option ℕ
parse_digit [] = none
parse_digit (c ∷ cs) = some (c - b'0')
