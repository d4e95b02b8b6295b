-- ===== src/Properties/Check/Verdict.antt =====
-- security/tf_daemon/smc_properties.c: the verdict of smcPropertiesCheck.
use camerahal.Common.{
  ℕ, ◌<◌, ◌≡◌, ◌⊎◌, ◌↔◌, inl, inr, refl, sym, ap, ◌∙◌, Bool, true, ◌&&◌, none, some, Option-cases,
  List, [], ◌∷◌, length, arith,
}
use camerahal.Status.{success}
use camerahal.Properties.Memory.{Nodes, NodeList, name_of}
use camerahal.Properties.Threaded.Shape.{Tree, in_order}
use camerahal.Properties.Threaded.Adding.{IsThreaded}
use camerahal.Properties.Threaded.Sorted.{Among}
use camerahal.Properties.Lookup.{Values}
use camerahal.Properties.Check.{
  FileSystem, check_file_path, Mandatory, mandatory_of, MandatoryProps, mark, all_found,
  properties_check, found_in, are_good, nothing_found, properties_check-list,
}
use camerahal.Properties.Check.Paths.{IsGoodPath, check_file_path-good}
use camerahal.Properties.Check.Flags.{
  mandatory_name, mandatory_of-name, name-mandatory_of, flag, all_found-flag, flag-all_found,
  flag_here, flag_stays, flag_of_mark, not_yet,
}

-- Every mandatory property is among the nodes, and the path in each of them is good.
pub record Passes (fs : FileSystem) (h : Nodes) (values : Values) (nodes : List ℕ) : Type 0 where
  pub present : (k : Mandatory) → (i : ℕ) × Among i nodes × (name_of h i ≡ mandatory_name k)
  pub good :
      (i : ℕ) (k : Mandatory)
      → Among i nodes
      → name_of h i ≡ mandatory_name k
      → IsGoodPath fs (values i)

module _ (fs : FileSystem) (h : Nodes) (values : Values) where
  -- A flag is set that was set before, or whose property is among the nodes.
  Present : Mandatory → List ℕ → Type 0
  Present k nodes = (i : ℕ) × Among i nodes × (name_of h i ≡ mandatory_name k)

  found_other :
      (i : ℕ) (nodes : List ℕ) (s : MandatoryProps)
      → mandatory_of (name_of h i) ≡ none
      → found_in fs h values (i ∷ nodes) s ≡ found_in fs h values nodes s
  found_other i nodes s m = rw (m, found_in) refl

  found_one :
      (i : ℕ) (j : Mandatory) (nodes : List ℕ) (s : MandatoryProps)
      → mandatory_of (name_of h i) ≡ some j
      → found_in fs h values (i ∷ nodes) s ≡ found_in fs h values nodes (mark j s)
  found_one i j nodes s m = rw (m, found_in) refl

  flag_kept :
      (k : Mandatory) (nodes : List ℕ) (s : MandatoryProps)
      → flag k s ≡ true
      → flag k (found_in fs h values nodes s) ≡ true
  flag_kept k [] s e = e
  flag_kept k (i ∷ nodes) s e = elim (Option-cases (mandatory_of (name_of h i))) [
    | inl m ↦ ap (flag k) (found_other i nodes s m) ∙ flag_kept k nodes s e
    | inr (j, m) ↦
        ap (flag k) (found_one i j nodes s m) ∙ flag_kept k nodes (mark j s) (flag_stays k j s e)
  ]

  flag-Present :
      (k : Mandatory) (nodes : List ℕ) (s : MandatoryProps)
      → flag k (found_in fs h values nodes s) ≡ true
      → (flag k s ≡ true) ⊎ Present k nodes
  unfolding Present
  flag-Present k [] s e = inl e
  flag-Present k (i ∷ nodes) s e = elim (Option-cases (mandatory_of (name_of h i))) [
    | inl m ↦ elim (flag-Present k nodes s (sym (ap (flag k) (found_other i nodes s m)) ∙ e)) [
      | inl f ↦ inl f
      | inr (a, among, name) ↦ inr (a, inr among, name)
    ]
    | inr (j, m) ↦
        elim (flag-Present k nodes (mark j s) (sym (ap (flag k) (found_one i j nodes s m)) ∙ e)) [
          | inr (a, among, name) ↦ inr (a, inr among, name)
          | inl f ↦ elim (flag_of_mark k j s f) [
            | inr g ↦ inl g
            | inl same ↦
                inr
                  (i, inl refl, name-mandatory_of (name_of h i) k (m ∙ ap (λ x. some x) (sym same)))
          ]
        ]
  ]

  Present-flag :
      (k : Mandatory) (nodes : List ℕ) (s : MandatoryProps)
      → Present k nodes
      → flag k (found_in fs h values nodes s) ≡ true
  unfolding Present
  Present-flag k [] s (a, among, name) = elim among [ ]
  Present-flag k (i ∷ nodes) s (a, inl same, name) =
      let m : mandatory_of (name_of h i) ≡ some k =
        ap (λ x. mandatory_of (name_of h x)) (sym same)
        ∙ ap mandatory_of name
        ∙ mandatory_of-name k in
      ap (flag k) (found_one i k nodes s m) ∙ flag_kept k nodes (mark k s) (flag_here k s)
  Present-flag k (i ∷ nodes) s (a, inr among, name) =
      elim (Option-cases (mandatory_of (name_of h i))) [
        | inl m ↦ ap (flag k) (found_other i nodes s m) ∙ Present-flag k nodes s (a, among, name)
        | inr (j, m) ↦
            ap (flag k) (found_one i j nodes s m) ∙ Present-flag k nodes (mark j s) (a, among, name)
      ]

  good_other :
      (i : ℕ) (nodes : List ℕ)
      → mandatory_of (name_of h i) ≡ none
      → are_good fs h values (i ∷ nodes) ≡ are_good fs h values nodes
  good_other i nodes m = rw (m, are_good) refl

  good_one :
      (i : ℕ) (j : Mandatory) (nodes : List ℕ)
      → mandatory_of (name_of h i) ≡ some j
      → are_good fs h values (i ∷ nodes)
        ≡ (check_file_path fs (values i) && are_good fs h values nodes)
  good_one i j nodes m = rw (m, are_good) refl

  are_good-all :
      (nodes : List ℕ)
      → are_good fs h values nodes ≡ true
      → (i : ℕ) (k : Mandatory) → Among i nodes
      → name_of h i ≡ mandatory_name k
      → IsGoodPath fs (values i)
  are_good-all [] e i k among name = elim among [ ]
  are_good-all (a ∷ nodes) e i k (inl same) name =
      let m : mandatory_of (name_of h a) ≡ some k =
        ap (λ x. mandatory_of (name_of h x)) (sym same)
        ∙ ap mandatory_of name
        ∙ mandatory_of-name k in
      let c = sym (good_one a k nodes m) ∙ e in
      let here : check_file_path fs (values a) ≡ true = ground arith in
      (check_file_path-good fs (values i)).0 (ap (λ x. check_file_path fs (values x)) same ∙ here)
  are_good-all (a ∷ nodes) e i k (inr among) name =
      elim (Option-cases (mandatory_of (name_of h a))) [
        | inl m ↦ are_good-all nodes (sym (good_other a nodes m) ∙ e) i k among name
        | inr (j, m) ↦
            let c = sym (good_one a j nodes m) ∙ e in
            let rest : are_good fs h values nodes ≡ true = ground arith in
            are_good-all nodes rest i k among name
      ]

  all-are_good :
      (nodes : List ℕ)
      → ((i : ℕ) (k : Mandatory)
          → Among i nodes
          → name_of h i ≡ mandatory_name k
          → IsGoodPath fs (values i))
      → are_good fs h values nodes ≡ true
  all-are_good [] g = refl
  all-are_good (a ∷ nodes) g =
      let rest = all-are_good nodes (λ i k among name. g i k (inr among) name) in
      elim (Option-cases (mandatory_of (name_of h a))) [
        | inl m ↦ good_other a nodes m ∙ rest
        | inr (j, m) ↦
            let here =
              (check_file_path-good fs (values a)).1
                (g a j (inl refl) (name-mandatory_of (name_of h a) j m)) in
            good_one a j nodes m ∙ ground arith
      ]

  verdict-Passes :
      (nodes : List ℕ)
      → ((are_good fs h values nodes && all_found (found_in fs h values nodes nothing_found))
          ≡ true)
        ↔ Passes fs h values nodes
  unfolding Present
  verdict-Passes nodes = (
    (λ e.
        let good : are_good fs h values nodes ≡ true = ground arith in
        let all : all_found (found_in fs h values nodes nothing_found) ≡ true = ground arith in
        record {
          present = λ k. elim (flag-Present k nodes nothing_found (all_found-flag _ all k)) [
            | inl f ↦ absurd (not_yet k f)
            | inr p ↦ p
          ];
          good = are_good-all nodes good;
        }),
    (λ p.
        let good = all-are_good nodes p.good in
        let all =
          flag-all_found (found_in fs h values nodes nothing_found)
            (λ k. Present-flag k nodes nothing_found (p.present k)) in
        ground arith),
  )

-- The check of a sorted list, with fuel for every node, returns a verdict, which is true exactly when each
-- of the four mandatory properties is among the nodes of the list, and every node with such a name
-- has a good path: the part before its last separator has a mode, in which the bit of directories is
-- set, and there is memory for that part.
pub properties_check-verdict :
    (fs : FileSystem) (h : Nodes) (values : Values) (fuel : ℕ) (list : NodeList) (t : Tree)
    → length (in_order t) < fuel
    → IsThreaded h list t
    → (verdict : Bool) × (properties_check fs h values fuel list ≡ success verdict)
      × ((verdict ≡ true) ↔ Passes fs h values (in_order t))
properties_check-verdict fs h values fuel list t e w = (
  are_good fs h values (in_order t) && all_found (found_in fs h values (in_order t) nothing_found),
  properties_check-list fs h values fuel list t e w,
  verdict-Passes fs h values (in_order t),
)
