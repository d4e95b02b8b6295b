-- ===== src/OmxCore/Handles/Slots.antt =====
-- What OMX_GetHandle does to the slots of the libraries and of the handles.
use camerahal.Common.{
  ℕ, zero, suc, ◌+◌, ◌≤◌, ◌<◌, ◌≡◌, ◌≢◌, ◌⊎◌, inl, inr, refl, Bool, true, false, not, ◌&&◌, Option,
  none, some, Option-cases, ltb, ltb→lt, ◌==◌, length, codes, arith, Bool-cases,
}
use camerahal.OmxCore.Errors.{OmxError, is_none}
use camerahal.OmxCore.Registry.{Text, max_comp, max_name_size}
use camerahal.OmxCore.Handles.{
  Core, Answers, Arguments, Stored, stored, Got, set_at, is_null, first_index, free_slot, has_part,
  start_component, load_component, open_component, get_handle,
}

pub first_index_le :
    (test : ℕ → Bool) (i n : ℕ) → (i ≤ first_index test i n) × (first_index test i n ≤ i + n)
unfolding first_index
first_index_le test i zero = (omega arith, omega arith)
first_index_le test i (suc n) =
    let (a, b) = first_index_le test (i + 1) n in (ground arith, ground arith)

pub first_index-holds :
    (test : ℕ → Bool) (i n : ℕ) → first_index test i n < i + n → test (first_index test i n) ≡ true
unfolding first_index
first_index-holds test i zero h = absurd (omega arith)
first_index-holds test i (suc n) h = elim (Bool-cases (test i)) [
  | inl e ↦ rw e e
  | inr e ↦ rw e (first_index-holds test (i + 1) n (omega (arith, rw e at h)))
]

-- The only index that passes is found.
pub first_index_unique :
    (test : ℕ → Bool) (i n k : ℕ)
    → i ≤ k
    → k < i + n
    → test k ≡ true
    → ((j : ℕ) → j < i + n → test j ≡ true → j ≡ k)
    → first_index test i n ≡ k
unfolding first_index
first_index_unique test i zero k a b t u = absurd (omega arith)
first_index_unique test i (suc n) k a b t u = elim (Bool-cases (test i)) [
  | inl e ↦ rw e (u i (omega arith) e)
  | inr e ↦
      let i-k : i ≢ k = λ q. (let t' : test i ≡ true = rw q t in cc) in
      rw e (
        first_index_unique test (i + 1) n k (omega arith) (omega arith) t
          (λ j l. u j (omega arith)))
]

-- The slots are as they were.
pub record Same (core : Core) (got : Got) : Type 0 where
  pub modules_are : (j : ℕ) → got.0.modules j ≡ core.modules j
  pub components_are : (j : ℕ) → got.0.components j ≡ core.components j

-- A library came into an empty slot, which has no handle.
pub record Lost (core : Core) (got : Got) : Type 0 where
  pub slot : ℕ
  pub library : ℕ
  pub in_range : slot < max_comp
  pub was_empty : core.modules slot ≡ none
  pub modules_are : (j : ℕ) → got.0.modules j ≡ set_at core.modules slot (some library) j
  pub components_are :
      (j : ℕ)
      → (got.0.components j ≡ core.components j) ⊎ ((j ≡ slot) × (got.0.components j ≡ none))

-- A library and a handle came into an empty slot, and the caller has the handle.
pub record Opened (core : Core) (a : Answers) (got : Got) : Type 0 where
  pub slot : ℕ
  pub library : ℕ
  pub handle : ℕ
  pub in_range : slot < max_comp
  pub was_empty : core.modules slot ≡ none
  pub modules_are : (j : ℕ) → got.0.modules j ≡ set_at core.modules slot (some library) j
  pub components_are : (j : ℕ) → got.0.components j ≡ set_at core.components slot (some handle) j
  pub memory : a.memory ≡ some handle
  pub stores : got.2 ≡ stored (some handle)
  pub answer : got.1 ≡ a.callbacks
  pub initialised : 0 < got.0.count

abbrev Fails : Got → Type 0
Fails got = is_none got.1 ≡ false

abbrev pub Effect : Core → Answers → Got → Type 0
Effect core a got = (Same core got × Fails got) ⊎ (Lost core got × Fails got) ⊎ Opened core a got

same_slots :
    (core : Core) (a : Answers) (e : OmxError) (s : Stored)
    → is_none e ≡ false
    → Effect core a (core, e, s)
same_slots core a e s h = inl (record { modules_are = λ j. refl; components_are = λ j. refl }, h)

module _ (core : Core) (a : Answers) (i : ℕ) (range : i < max_comp)
    (empty : core.modules i ≡ none) where
  load_component-Effect :
      (name : Text) → 0 < core.count → Effect core a (load_component core a i name)
  unfolding load_component start_component
  load_component-Effect name c = elim (Option-cases a.library) [
    | inl l ↦ rw l (
        inl (
          record { modules_are = λ j. ground (arith, empty, l); components_are = λ j. refl },
          refl,
        ))
    | inr (library, l) ↦ elim (Bool-cases a.dlsym) [
      | inr d ↦
          rw (l, d)
            (inr (
              inl (
                record {
                  slot = i;
                  library = library;
                  in_range = range;
                  was_empty = empty;
                  modules_are = λ j. ground (arith, l);
                  components_are = λ j. inl refl;
                },
                refl,
              )))
      | inl d ↦ elim (Option-cases a.memory) [
        | inl m ↦
            rw (l, d, m)
              (inr (
                inl (
                  record {
                    slot = i;
                    library = library;
                    in_range = range;
                    was_empty = empty;
                    modules_are = λ j. ground (arith, l);
                    components_are = λ j. inl refl;
                  },
                  refl,
                )))
        | inr (h, m) ↦ elim (Bool-cases (is_none a.init)) [
          | inl n ↦
              rw (l, d, m, n)
                (inr (
                  inr (record {
                    slot = i;
                    library = library;
                    handle = h;
                    in_range = range;
                    was_empty = empty;
                    modules_are = λ j. ground (arith, l);
                    components_are = λ j. refl;
                    memory = refl;
                    stores = refl;
                    answer = refl;
                    initialised = c;
                  })))
          | inr n ↦
              rw (l, d, m, n)
                (inr (
                  inl (
                    record {
                      slot = i;
                      library = library;
                      in_range = range;
                      was_empty = empty;
                      modules_are = λ j. ground (arith, l);
                      components_are = λ j. ground arith;
                    },
                    n,
                  )))
        ]
      ]
    ]
  ]

open_component-Effect :
    (core : Core) (a : Answers) (name : Text) → Effect core a (open_component core a name)
unfolding open_component
open_component-Effect core a name = elim (Bool-cases (ltb 0 core.count)) [
  | inr c ↦ rw c (same_slots core a _ _ refl)
  | inl c ↦ elim (Bool-cases (ltb (length name) max_name_size)) [
    | inr l ↦ rw (c, l) (same_slots core a _ _ refl)
    | inl l ↦ elim (Bool-cases (free_slot core == max_comp)) [
      | inl f ↦ rw (c, l, f) (same_slots core a _ _ refl)
      | inr f ↦ elim (Bool-cases (a.mode == 1 && not (has_part (codes "secure") name))) [
        | inl s ↦ rw (c, l, f, s) (same_slots core a _ _ refl)
        | inr s ↦
            let bound = (first_index_le (λ i. is_null (core.modules i)) 0 max_comp).1 in
            let range : free_slot core < max_comp = ground arith in
            let null = first_index-holds (λ i. is_null (core.modules i)) 0 max_comp range in
            rw (c, l, f, s)
              (load_component-Effect core a (free_slot core) range
                (null→none (core.modules (free_slot core)) null) name (ltb→lt 0 core.count c))
      ]
    ]
  ]
]
  where
    null→none : (p : Option ℕ) → is_null p ≡ true → p ≡ none
    null→none none h = refl
    null→none (some x) h = cc

-- Every call of OMX_GetHandle either leaves the slots alone and fails, or fills one empty slot of
-- the libraries: with a handle beside it, which the caller has, and the result is then that of
-- SetCallbacks; or without a handle, and then the call has failed.
pub get_handle-Effect :
    (core : Core) (a : Answers) (args : Arguments) → Effect core a (get_handle core a args)
unfolding get_handle
get_handle-Effect core a args = elim (Option-cases args.component_name) [
  | inl n ↦ rw n (same_slots core a _ _ refl)
  | inr (name, n) ↦ elim (Bool-cases args.has_handle) [
    | inr h ↦ rw (n, h) (same_slots core a _ _ refl)
    | inl h ↦ elim (Bool-cases args.has_callbacks) [
      | inr k ↦ rw (n, h, k) (same_slots core a _ _ refl)
      | inl k ↦ rw (n, h, k) (open_component-Effect core a name)
    ]
  ]
]
