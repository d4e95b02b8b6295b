-- ===== src/OmxCore/Registry/Roles.antt =====
-- The queries by role and by component, each called twice: for the number first, then for the texts.
use mathlib.Core.Path.{subst}
use camerahal.Common.{
  ℕ, ◌<◌, ◌≡◌, ◌⊎◌, ◌↔◌, inl, inr, refl, sym, true, false, some, List, [], ◌∷◌, ◌++◌, length, take,
  arith, lt→ltb, ◌==◌, if◌then◌else◌, Bool-cases, All,
}
use camerahal.Properties.Strcmp.{strcmp_refl, strcmp-eq}
use camerahal.OmxCore.Errors.{error_none}
use camerahal.OmxCore.Registry.{
  Text, same, max_name_size, ComponentTable, find_component, get_roles_of_component, matches,
  components_of, get_components_of_role, is_filled,
}

-- A member of a list.
abbrev pub In : {A : Type 0} → A → List A → Type 0
In a [] = ⊥
In a (x ∷ xs) = (a ≡ x) ⊎ In a xs

In-front : {A : Type 0} (a : A) (xs ys : List A) → In a xs → In a (xs ++ ys)
In-front a [] ys h = elim h [ ]
In-front a (x ∷ xs) ys (inl e) = inl e
In-front a (x ∷ xs) ys (inr h) = inr (In-front a xs ys h)

In-behind : {A : Type 0} (a : A) (xs ys : List A) → In a ys → In a (xs ++ ys)
In-behind a [] ys h = h
In-behind a (x ∷ xs) ys h = inr (In-behind a xs ys h)

In-split : {A : Type 0} (a : A) (xs ys : List A) → In a (xs ++ ys) → In a xs ⊎ In a ys
In-split a [] ys h = inr h
In-split a (x ∷ xs) ys (inl e) = inl (inl e)
In-split a (x ∷ xs) ys (inr h) = elim (In-split a xs ys h) [ inl l ↦ inl (inr l) | inr r ↦ inr r ]

same_refl : (a : Text) → same a a ≡ true
same_refl a = rw (strcmp_refl a)

same→eq : (a b : Text) → same a b ≡ true → a ≡ b
same→eq a b h = strcmp-eq a b (ground arith)

matches-In :
    (roles : List Text) (role name x : Text)
    → In x (matches roles role name)
    → In role roles × (x ≡ take max_name_size name)
unfolding matches
matches-In [] role name x h = elim h [ ]
matches-In (r ∷ roles) role name x h = elim (Bool-cases (same r role)) [
  | inl e ↦ elim (rw e at h) [
    | inl p ↦ (inl (sym (same→eq r role e)), p)
    | inr q ↦ let w = matches-In roles role name x q in (inr w.0, w.1)
  ]
  | inr e ↦ let w = matches-In roles role name x (rw e at h) in (inr w.0, w.1)
]

In-matches :
    (roles : List Text) (role name : Text)
    → In role roles
    → In (take max_name_size name) (matches roles role name)
unfolding matches
In-matches [] role name h = elim h [ ]
In-matches (r ∷ roles) role name (inl e) =
    let s : same r role ≡ true = rw (← e) (same_refl role) in rw s (inl refl)
In-matches (r ∷ roles) role name (inr h) = elim (Bool-cases (same r role)) [
  | inl e ↦ rw e (inr (In-matches roles role name h))
  | inr e ↦ rw e (In-matches roles role name h)
]

-- The name, as it is copied, of a component of the table that has the role.
abbrev pub Offers : List ComponentTable → Text → Text → Type 0
Offers table role x =
    (entry : ComponentTable) × In entry table
    × In role entry.roles
    × (x ≡ take max_name_size entry.name)

components_of-Offers :
    (table : List ComponentTable) (role x : Text)
    → In x (components_of table role)
    → Offers table role x
unfolding components_of
components_of-Offers [] role x h = elim h [ ]
components_of-Offers (entry ∷ table) role x h =
    elim (In-split x (matches entry.roles role entry.name) (components_of table role) h) [
      | inl l ↦ let w = matches-In entry.roles role entry.name x l in (entry, inl refl, w.0, w.1)
      | inr r ↦ let w = components_of-Offers table role x r in (w.0, inr (w.1), w.2, w.3)
    ]

Offers-components_of :
    (table : List ComponentTable) (role : Text) (entry : ComponentTable)
    → In entry table
    → In role entry.roles
    → In (take max_name_size entry.name) (components_of table role)
unfolding components_of
Offers-components_of [] role entry h r = elim h [ ]
Offers-components_of (e ∷ table) role entry (inl p) r = rw p (
    In-front (take max_name_size e.name) (matches e.roles role e.name) (components_of table role)
      (In-matches e.roles role e.name (subst (λ c. In role c.roles) p r)))
Offers-components_of (e ∷ table) role entry (inr h) r =
    In-behind (take max_name_size entry.name) (matches e.roles role e.name)
      (components_of table role) (Offers-components_of table role entry h r)

-- What the two calls of OMX_GetComponentsOfRole give: the number, and then that many names.
abbrev pub TwoCalls : ℕ → List ComponentTable → Text → ℕ → Type 0
TwoCalls count table role num =
    (names : List Text) × (get_components_of_role count table (some role) (some num) false
      ≡ (error_none, some (length names), []))
    × (get_components_of_role count table (some role) (some (length names)) true
        ≡ (error_none, some (length names), names))
    × ((x : Text) → In x names ↔ Offers table role x)

-- Once the core is initialised and the first component has a role, a call without buffers tells
-- how many names a second call copies into the buffers; these are exactly the names, cut at the
-- limit of their length, of the components of the table that have the role.
pub get_components_of_role-TwoCalls :
    (count : ℕ) (table : List ComponentTable) (role : Text) (num : ℕ)
    → 0 < count
    → is_filled table ≡ true
    → TwoCalls count table role num
unfolding get_components_of_role
get_components_of_role-TwoCalls count table role num c f = (
  components_of table role,
  rw (lt→ltb 0 count c, f),
  rw (lt→ltb 0 count c, f),
  λ x. (
    components_of-Offers table role x,
    λ (entry, i, r, e). rw e (Offers-components_of table role entry i r),
  ),
)

-- An entry whose name no entry in front of it has.
find_component-first :
    (front : List ComponentTable) (entry : ComponentTable) (behind : List ComponentTable)
    → All (λ c. same entry.name c.name ≡ false) front
    → find_component (front ++ entry ∷ behind) entry.name ≡ some entry
unfolding find_component
find_component-first [] entry behind a = rw (same_refl entry.name)
find_component-first (c ∷ front) entry behind (n, a) =
    rw n (find_component-first front entry behind a)

-- On an initialised core, for a component of the table whose name is not too long and is not that
-- of one in front of it, OMX_GetRolesOfComponent without buffers tells the number of its roles;
-- called again with that number, it copies the roles, and called with any other number none.
pub get_roles_of_component-roles :
    (count : ℕ) (front : List ComponentTable) (entry : ComponentTable)
    (behind : List ComponentTable) (num : ℕ)
    → 0 < count
    → length entry.name < max_name_size
    → All (λ c. same entry.name c.name ≡ false) front
    → (get_roles_of_component count (front ++ entry ∷ behind) (some entry.name) (some num) false
        ≡ (error_none, some (length entry.roles), []))
      × (get_roles_of_component count (front ++ entry ∷ behind) (some entry.name) (some num) true
          ≡ (error_none, some num, if num == length entry.roles then entry.roles else []))
unfolding get_roles_of_component
get_roles_of_component-roles count front entry behind num c l a =
    let found = find_component-first front entry behind a in
    (
      rw (lt→ltb (length entry.name) max_name_size l, lt→ltb 0 count c, found),
      rw (lt→ltb (length entry.name) max_name_size l, lt→ltb 0 count c, found),
    )
