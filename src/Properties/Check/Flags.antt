-- ===== src/Properties/Check/Flags.antt =====
-- security/tf_daemon/smc_properties.c: the mandatory properties, by their names.
use camerahal.Common.{
  ℕ, ◌≡◌, ◌≢◌, ◌⊎◌, inl, inr, refl, sym, ap, ◌∙◌, Bool, true, false, Option, none, some, List,
  if◌then◌else◌, codes, arith, Ordering-cases,
}
use camerahal.Properties.Strcmp.{strcmp, strcmp-eq}
use camerahal.Properties.Check.{
  Mandatory, file_system, keystore_system, keystore_user, super_partition, is_eq, mandatory_of,
  MandatoryProps, mark, all_found, nothing_found,
}

-- The names of the mandatory properties.
abbrev pub mandatory_name : Mandatory → List ℕ
mandatory_name file_system = codes "filesystem.storage.fileName"
mandatory_name keystore_system = codes "filesystem.keystore.fileName"
mandatory_name keystore_user = codes "filesystem.keystore.user.fileName"
mandatory_name super_partition = codes "filesystem.mc.fileName"

pub mandatory_of-name : (k : Mandatory) → mandatory_of (mandatory_name k) ≡ some k
unfolding mandatory_of strcmp
mandatory_of-name file_system = refl
mandatory_of-name keystore_system = refl
mandatory_of-name keystore_user = refl
mandatory_of-name super_partition = refl

is_eq-strcmp : (a b : List ℕ) → is_eq (strcmp a b) ≡ true → a ≡ b
unfolding is_eq
is_eq-strcmp a b e = elim (Ordering-cases (strcmp a b)) [
  | inl o ↦ absurd (let f : false ≡ true = sym (ap is_eq o) ∙ e in cc)
  | inr (inl o) ↦ strcmp-eq a b o
  | inr (inr o) ↦ absurd (let f : false ≡ true = sym (ap is_eq o) ∙ e in cc)
]

this_name :
    (name : List ℕ) (k x : Mandatory) (b : Bool) (rest : Option Mandatory)
    → (b ≡ true → name ≡ mandatory_name x)
    → (rest ≡ some k → name ≡ mandatory_name k)
    → (if b then some x else rest) ≡ some k
    → name ≡ mandatory_name k
this_name name k x true rest here later e =
    let same : x ≡ k = cc in here refl ∙ ap mandatory_name same
this_name name k x false rest here later e = later e

pub name-mandatory_of :
    (name : List ℕ) (k : Mandatory) → mandatory_of name ≡ some k → name ≡ mandatory_name k
unfolding mandatory_of
name-mandatory_of name k e =
    this_name name k file_system _ _ (is_eq-strcmp name (mandatory_name file_system))
      (this_name name k keystore_system _ _ (is_eq-strcmp name (mandatory_name keystore_system)) (
        this_name name k keystore_user _ _ (is_eq-strcmp name (mandatory_name keystore_user)) (
          this_name name k super_partition _ none
            (is_eq-strcmp name (mandatory_name super_partition))
            (λ n. absurd (let f : none ≡ some k = n in cc)))))
      e

-- What the loop has found, by property.
unfoldable pub flag : Mandatory → MandatoryProps → Bool
flag file_system s = s.file_system_found
flag keystore_system s = s.keystore_system_found
flag keystore_user s = s.keystore_user_found
flag super_partition s = s.super_partition_found

pub all_found-flag : (s : MandatoryProps) → all_found s ≡ true → (k : Mandatory) → flag k s ≡ true
unfolding all_found flag
all_found-flag s e file_system = ground arith
all_found-flag s e keystore_system = ground arith
all_found-flag s e keystore_user = ground arith
all_found-flag s e super_partition = ground arith

pub flag-all_found : (s : MandatoryProps) → ((k : Mandatory) → flag k s ≡ true) → all_found s ≡ true
unfolding all_found flag
flag-all_found s e =
    let a = e file_system in
    let b = e keystore_system in
    let c = e keystore_user in let d = e super_partition in ground arith

-- Marking a property sets its flag and leaves the others.
pub flag_here : (k : Mandatory) (s : MandatoryProps) → flag k (mark k s) ≡ true
unfolding flag mark
flag_here file_system s = refl
flag_here keystore_system s = refl
flag_here keystore_user s = refl
flag_here super_partition s = refl

pub flag_stays : (k j : Mandatory) (s : MandatoryProps) → flag k s ≡ true → flag k (mark j s) ≡ true
unfolding flag mark
flag_stays file_system file_system s e = refl
flag_stays file_system keystore_system s e = e
flag_stays file_system keystore_user s e = e
flag_stays file_system super_partition s e = e
flag_stays keystore_system file_system s e = e
flag_stays keystore_system keystore_system s e = refl
flag_stays keystore_system keystore_user s e = e
flag_stays keystore_system super_partition s e = e
flag_stays keystore_user file_system s e = e
flag_stays keystore_user keystore_system s e = e
flag_stays keystore_user keystore_user s e = refl
flag_stays keystore_user super_partition s e = e
flag_stays super_partition file_system s e = e
flag_stays super_partition keystore_system s e = e
flag_stays super_partition keystore_user s e = e
flag_stays super_partition super_partition s e = refl

pub flag_of_mark :
    (k j : Mandatory) (s : MandatoryProps) → flag k (mark j s) ≡ true → (k ≡ j) ⊎ (flag k s ≡ true)
unfolding flag mark
flag_of_mark file_system file_system s e = inl refl
flag_of_mark file_system keystore_system s e = inr e
flag_of_mark file_system keystore_user s e = inr e
flag_of_mark file_system super_partition s e = inr e
flag_of_mark keystore_system file_system s e = inr e
flag_of_mark keystore_system keystore_system s e = inl refl
flag_of_mark keystore_system keystore_user s e = inr e
flag_of_mark keystore_system super_partition s e = inr e
flag_of_mark keystore_user file_system s e = inr e
flag_of_mark keystore_user keystore_system s e = inr e
flag_of_mark keystore_user keystore_user s e = inl refl
flag_of_mark keystore_user super_partition s e = inr e
flag_of_mark super_partition file_system s e = inr e
flag_of_mark super_partition keystore_system s e = inr e
flag_of_mark super_partition keystore_user s e = inr e
flag_of_mark super_partition super_partition s e = inl refl

pub not_yet : (k : Mandatory) → flag k nothing_found ≢ true
unfolding flag
not_yet file_system e = let f : false ≡ true = e in cc
not_yet keystore_system e = let f : false ≡ true = e in cc
not_yet keystore_user e = let f : false ≡ true = e in cc
not_yet super_partition e = let f : false ≡ true = e in cc
