-- ===== src/OmxCore/Handles/Lifecycle.antt =====
-- Sequences of calls of the core, and what holds in every state they reach.
use camerahal.Common.{
  ℕ, ◌+◌, ◌<◌, ◌≡◌, ◌≢◌, ◌⊎◌, inl, inr, refl, sym, ap, ◌∙◌, Bool, true, false, Option, none, some,
  Option-cases, ltb, ◌==◌, ==→eq, arith, Bool-cases,
}
use camerahal.OmxCore.Registry.{Text, max_comp, component_names, build_component_table}
use camerahal.OmxCore.Handles.{
  Core, Answers, Arguments, Got, free_slot, start_component, load_component, open_component,
  get_handle, init, deinit, enter,
}
use camerahal.OmxCore.Handles.Slots.{Same, Lost, Opened, get_handle-Effect}

-- What a call of OMX_GetHandle or OMX_FreeHandle does not touch.
pub record Frame (core core' : Core) : Type 0 where
  pub count_same : core'.count ≡ core.count
  pub ready_same : core'.mutex_ready ≡ core.mutex_ready
  pub table_same : core'.table ≡ core.table

pub Frame-refl : (core : Core) → Frame core core
Frame-refl core = record { count_same = refl; ready_same = refl; table_same = refl }

start_component-Frame :
    (core : Core) (a : Answers) (i : ℕ) (library : Option ℕ) (h : ℕ)
    → Frame core (start_component core a i library h).0
unfolding start_component
start_component-Frame core a i library h = record {
  count_same = ground arith;
  ready_same = ground arith;
  table_same = ground arith;
}

load_component-Frame :
    (core : Core) (a : Answers) (i : ℕ) (name : Text) → Frame core (load_component core a i name).0
unfolding load_component start_component
load_component-Frame core a i name = record {
  count_same = ground arith;
  ready_same = ground arith;
  table_same = ground arith;
}

get_handle-Frame :
    (core : Core) (a : Answers) (args : Arguments) → Frame core (get_handle core a args).0
unfolding get_handle open_component
get_handle-Frame core a args =
    let opened = λ (name : Text). load_component-Frame core a (free_slot core) name in
    elim (Option-cases args.component_name) [
      | inl n ↦ rw n (Frame-refl core)
      | inr (name, n) ↦
          let f = opened name in
          let c = f.count_same in
          let r = f.ready_same in
          let t = f.table_same in
          record {
            count_same = ground (arith, n);
            ready_same = ground (arith, n);
            table_same = ground (arith, n);
          }
    ]

-- What holds of the core between two calls.
pub record IsConsistent (core : Core) : Type 0 where
  pub backed : (j : ℕ) → core.modules j ≡ none → core.components j ≡ none
  pub distinct : (i j h : ℕ) → core.components i ≡ some h → core.components j ≡ some h → i ≡ j
  pub in_range : (j h : ℕ) → core.components j ≡ some h → j < max_comp
  pub built : 0 < core.count → core.table ≡ build_component_table component_names
  pub ready : core.mutex_ready ≡ ltb 0 core.count

-- The heap gives memory that is not in use.
abbrev pub IsFresh : Core → Answers → Type 0
IsFresh core a = (j h : ℕ) → a.memory ≡ some h → core.components j ≢ some h

enter-IsConsistent : (core : Core) → IsConsistent core → IsConsistent (enter core)
enter-IsConsistent core w = elim (Bool-cases (core.count + 1 == 1)) [
  | inl e ↦ rw e (record {
    backed = w.backed;
    distinct = w.distinct;
    in_range = w.in_range;
    built = λ c. refl;
    ready = ground arith;
  })
  | inr e ↦ rw e (record {
    backed = w.backed;
    distinct = w.distinct;
    in_range = w.in_range;
    built = λ c. w.built (ground arith);
    ready = w.ready ∙ ground arith;
  })
]

pub init-IsConsistent :
    (core : Core) (o r : Bool) → IsConsistent core → IsConsistent (init core o r).0
unfolding init
init-IsConsistent core false r w = w
init-IsConsistent core true false w = enter-IsConsistent core w
init-IsConsistent core true true w = enter-IsConsistent core w

pub deinit-IsConsistent : (core : Core) → IsConsistent core → IsConsistent (deinit core).0
unfolding deinit
deinit-IsConsistent core w = elim (Bool-cases (ltb 0 core.count)) [
  | inr e ↦ rw e w
  | inl e ↦ rw e (record {
    backed = w.backed;
    distinct = w.distinct;
    in_range = w.in_range;
    built = λ c. w.built (omega arith);
    ready = let r = w.ready in ground arith;
  })
]

pub framed :
    (core core' : Core)
    → IsConsistent core
    → Frame core core'
    → ((j : ℕ) → core'.modules j ≡ none → core'.components j ≡ none)
    → ((i j h : ℕ) → core'.components i ≡ some h → core'.components j ≡ some h → i ≡ j)
    → ((j h : ℕ) → core'.components j ≡ some h → j < max_comp)
    → IsConsistent core'
framed core core' w f b d r = record {
  backed = b;
  distinct = d;
  in_range = r;
  built = λ c. f.table_same ∙ w.built (rw (← f.count_same) c);
  ready = f.ready_same ∙ w.ready ∙ ap (ltb 0) (sym f.count_same);
}

Same-IsConsistent :
    (core : Core) (got : Got)
    → IsConsistent core
    → Frame core got.0
    → Same core got
    → IsConsistent got.0
Same-IsConsistent core got w f s =
    framed core got.0 w f (λ j e. s.components_are j ∙ w.backed j (sym (s.modules_are j) ∙ e))
      (λ i j h p q. w.distinct i j h (sym (s.components_are i) ∙ p) (sym (s.components_are j) ∙ q))
      (λ j h p. w.in_range j h (sym (s.components_are j) ∙ p))

Lost-IsConsistent :
    (core : Core) (got : Got)
    → IsConsistent core
    → Frame core got.0
    → Lost core got
    → IsConsistent got.0
Lost-IsConsistent core got w f l =
    framed core got.0 w f (λ j e. backed j e (l.components_are j))
      (λ i j h p q.
        w.distinct i j h (old i h p (l.components_are i)) (old j h q (l.components_are j)))
      (λ j h p. w.in_range j h (old j h p (l.components_are j)))
  where
    old :
        (j h : ℕ)
        → got.0.components j ≡ some h
        → (got.0.components j ≡ core.components j) ⊎ ((j ≡ l.slot) × (got.0.components j ≡ none))
        → core.components j ≡ some h
    old j h p (inl e) = sym e ∙ p
    old j h p (inr e) = let n = e.1 in cc

    backed :
        (j : ℕ)
        → got.0.modules j ≡ none
        → (got.0.components j ≡ core.components j) ⊎ ((j ≡ l.slot) × (got.0.components j ≡ none))
        → got.0.components j ≡ none
    backed j e (inr k) = k.1
    backed j e (inl k) = elim (Bool-cases (l.slot == j)) [
      | inl q ↦ let m : got.0.modules j ≡ some l.library = l.modules_are j ∙ rw q in cc
      | inr q ↦
          let m : got.0.modules j ≡ core.modules j = l.modules_are j ∙ rw q in
          k ∙ w.backed j (sym m ∙ e)
    ]

Opened-IsConsistent :
    (core : Core) (a : Answers) (got : Got)
    → IsConsistent core
    → IsFresh core a
    → Frame core got.0
    → Opened core a got
    → IsConsistent got.0
Opened-IsConsistent core a got w fresh f o = framed core got.0 w f backed distinct range
  where
    at : (j : ℕ) → (o.slot == j) ≡ true → got.0.components j ≡ some o.handle
    at j q = o.components_are j ∙ rw q

    off : (j : ℕ) → (o.slot == j) ≡ false → got.0.components j ≡ core.components j
    off j q = o.components_are j ∙ rw q

    backed : (j : ℕ) → got.0.modules j ≡ none → got.0.components j ≡ none
    backed j e = elim (Bool-cases (o.slot == j)) [
      | inl q ↦ let m : got.0.modules j ≡ some o.library = o.modules_are j ∙ rw q in cc
      | inr q ↦
          let m : got.0.modules j ≡ core.modules j = o.modules_are j ∙ rw q in
          off j q ∙ w.backed j (sym m ∙ e)
    ]

    -- The new handle is none of the old ones.
    apart : (j h : ℕ) → (o.slot == j) ≡ false → got.0.components j ≡ some h → o.handle ≢ h
    apart j h q p e = fresh j o.handle o.memory (sym (off j q) ∙ p ∙ ap some (sym e))

    some_injective : (x y : ℕ) → some x ≡ some y → x ≡ y
    some_injective x y e = cc

    distinct : (i j h : ℕ) → got.0.components i ≡ some h → got.0.components j ≡ some h → i ≡ j
    distinct i j h p q = elim (Bool-cases (o.slot == i)) [
      | inl x ↦ elim (Bool-cases (o.slot == j)) [
        | inl y ↦ sym (==→eq o.slot i x) ∙ ==→eq o.slot j y
        | inr y ↦ absurd (apart j h y q (some_injective o.handle h (sym (at i x) ∙ p)))
      ]
      | inr x ↦ elim (Bool-cases (o.slot == j)) [
        | inl y ↦ absurd (apart i h x p (some_injective o.handle h (sym (at j y) ∙ q)))
        | inr y ↦ w.distinct i j h (sym (off i x) ∙ p) (sym (off j y) ∙ q)
      ]
    ]

    range : (j h : ℕ) → got.0.components j ≡ some h → j < max_comp
    range j h p = elim (Bool-cases (o.slot == j)) [
      | inl x ↦ let e = ==→eq o.slot j x in omega (arith, o.in_range)
      | inr x ↦ w.in_range j h (sym (off j x) ∙ p)
    ]

pub get_handle-IsConsistent :
    (core : Core) (a : Answers) (args : Arguments)
    → IsConsistent core
    → IsFresh core a
    → IsConsistent (get_handle core a args).0
get_handle-IsConsistent core a args w fresh =
    let got = get_handle core a args in
    let f = get_handle-Frame core a args in
    elim (get_handle-Effect core a args) [
      | inl (s, _) ↦ Same-IsConsistent core got w f s
      | inr (inl (l, _)) ↦ Lost-IsConsistent core got w f l
      | inr (inr o) ↦ Opened-IsConsistent core a got w fresh f o
    ]
