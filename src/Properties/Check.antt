-- ===== src/Properties/Check.antt =====
-- security/tf_daemon/smc_properties.c: checkFilePath and smcPropertiesCheck, as built for Android.
pub mod Paths
pub mod Flags
pub mod Verdict
pub mod Tests
use Prim.Native.Nat.{Ordering}
use camerahal.Common.{
  ℕ, zero, suc, ◌+◌, ◌/◌, ◌%◌, ◌<◌, ◌≡◌, inl, inr, refl, ap, ◌∙◌, Bool, true, false, ◌&&◌, Option,
  none, some, Option-cases, List, [], ◌∷◌, ◌==◌, if◌then◌else◌, length, take, codes, arith,
  Bool-cases,
}
use camerahal.Status.{Outcome, success, running}
use camerahal.Properties.Strcmp.{strcmp}
use camerahal.Properties.Memory.{Nodes, NodeList, name_of}
use camerahal.Properties.Threaded.Shape.{Tree, in_order, Links, head_of}
use camerahal.Properties.Threaded.Adding.{IsThreaded}
use camerahal.Properties.Lookup.{Values}

-- Whether there is memory for the name of the directory, and the `st_mode` that `stat` gives.
pub record FileSystem : Type 0 where
  pub has_memory : Bool
  pub stat : List ℕ → Option ℕ

-- The loop over the bytes of the path: the index of its last separator, or 0.
unfoldable pub slash_index : List ℕ → ℕ → ℕ → ℕ
slash_index [] i last = last
slash_index (c ∷ path) i last = slash_index path (i + 1) (if c == b'/' then i else last)

-- `(st_mode & S_IFDIR) == S_IFDIR`
is_directory : Option ℕ → Bool
is_directory none = false
is_directory (some mode) = mode / 0o40000 % 2 == 1

unfoldable pub check_file_path : FileSystem → List ℕ → Bool
unfolding is_directory
check_file_path fs path =
    if fs.has_memory then is_directory (fs.stat (take (slash_index path 0 0) path)) else false

-- MANDATORY_PROPS.
pub data Mandatory : Type 0 where
  file_system keystore_system keystore_user super_partition : Mandatory

is_eq : Ordering → Bool
is_eq Ordering.eq = true
is_eq _ = false

unfoldable pub mandatory_of : List ℕ → Option Mandatory
unfolding is_eq
mandatory_of name =
    if is_eq (strcmp name (codes "filesystem.storage.fileName"))
    then some file_system
    else if is_eq (strcmp name (codes "filesystem.keystore.fileName"))
    then some keystore_system
    else if is_eq (strcmp name (codes "filesystem.keystore.user.fileName"))
    then some keystore_user
    else if is_eq (strcmp name (codes "filesystem.mc.fileName"))
    then some super_partition
    else none

-- `pMandatoryProps`.
pub record MandatoryProps : Type 0 where
  pub file_system_found : Bool
  pub keystore_system_found : Bool
  pub keystore_user_found : Bool
  pub super_partition_found : Bool

unfoldable pub mark : Mandatory → MandatoryProps → MandatoryProps
mark file_system s = record s { file_system_found = true }
mark keystore_system s = record s { keystore_system_found = true }
mark keystore_user s = record s { keystore_user_found = true }
mark super_partition s = record s { super_partition_found = true }

unfoldable pub all_found : MandatoryProps → Bool
all_found s =
    s.file_system_found
    && (s.keystore_system_found && (s.keystore_user_found && s.super_partition_found))

module _ (fs : FileSystem) (h : Nodes) (values : Values) where
  -- The loop along the list, with fuel for its rounds.
  unfoldable pub check_from : ℕ → Option ℕ → MandatoryProps → Outcome Bool
  check_from zero next s = running
  check_from (suc fuel) none s = success (all_found s)
  check_from (suc fuel) (some i) s = elim (mandatory_of (name_of h i)) [
    | none ↦ check_from fuel (h i).next s
    | some k ↦
        let rest = check_from fuel (h i).next (mark k s) in
        if check_file_path fs (values i) then rest else success false
  ]

  unfoldable pub properties_check : ℕ → NodeList → Outcome Bool
  unfolding check_from
  properties_check fuel list = check_from fuel list.first (record {
    file_system_found = false;
    keystore_system_found = false;
    keystore_user_found = false;
    super_partition_found = false;
  })

  -- The mandatory properties that these nodes are, and whether the paths in them are good.
  abbrev pub found_in : List ℕ → MandatoryProps → MandatoryProps
  found_in [] s = s
  found_in (i ∷ nodes) s = elim (mandatory_of (name_of h i)) [
    | none ↦ found_in nodes s
    | some k ↦ found_in nodes (mark k s)
  ]

  abbrev pub are_good : List ℕ → Bool
  are_good [] = true
  are_good (i ∷ nodes) = elim (mandatory_of (name_of h i)) [
    | none ↦ are_good nodes
    | some k ↦ check_file_path fs (values i) && are_good nodes
  ]

  check_from-list :
      (fuel : ℕ) (previous : Option ℕ) (nodes : List ℕ) (s : MandatoryProps)
      → length nodes < fuel
      → Links h previous nodes
      → check_from fuel (head_of nodes) s ≡ success (are_good nodes && all_found (found_in nodes s))
  unfolding check_from
  check_from-list zero previous nodes s e l = absurd (omega arith)
  check_from-list (suc fuel) previous [] s e l = refl
  check_from-list (suc fuel) previous (i ∷ nodes) s e l =
      elim (Option-cases (mandatory_of (name_of h i))) [
        | inl m ↦
            rw (m, l.1, check_from, found_in, are_good)
              (check_from-list fuel (some i) nodes s (omega arith) l.2)
        | inr (k, m) ↦ elim (Bool-cases (check_file_path fs (values i))) [
          | inl g ↦
              rw (m, g, l.1, check_from, found_in, are_good)
                (check_from-list fuel (some i) nodes (mark k s) (omega arith) l.2)
          | inr g ↦ rw (m, g, check_from, are_good) refl
        ]
      ]

-- Nothing found yet.
abbrev pub nothing_found : MandatoryProps
nothing_found = record {
  file_system_found = false;
  keystore_system_found = false;
  keystore_user_found = false;
  super_partition_found = false;
}

-- The check of a sorted list, with fuel for every node, returns what the nodes spell out in their order.
pub properties_check-list :
    (fs : FileSystem) (h : Nodes) (values : Values) (fuel : ℕ) (list : NodeList) (t : Tree)
    → length (in_order t) < fuel
    → IsThreaded h list t
    → properties_check fs h values fuel list
      ≡ success (
          are_good fs h values (in_order t)
          && all_found (found_in fs h values (in_order t) nothing_found))
unfolding properties_check
properties_check-list fs h values fuel list t e w =
    ap (λ p. check_from fs h values fuel p nothing_found) w.first
    ∙ check_from-list fs h values fuel none (in_order t) nothing_found e w.links
