-- ===== src/OmxCore/Handles/Reachable.antt =====
-- OMX_FreeHandle, and the states that sequences of calls reach.
use camerahal.Common.{
  ℕ, ◌<◌, ◌≡◌, inl, inr, refl, sym, ap, ◌∙◌, Bool, true, false, Option, none, some, List, [], ◌∷◌,
  ltb, lt→ltb, ◌==◌, ==→eq, ==_refl, arith, Bool-cases,
}
use camerahal.OmxCore.Errors.{is_none, error_none}
use camerahal.OmxCore.Registry.{max_comp}
use camerahal.OmxCore.Handles.{
  Core, initial_core, Answers, Arguments, stored, set_at, points_to, slot_of, get_handle,
  unload_component, free_handle, init, deinit,
}
use camerahal.OmxCore.Handles.Slots.{Opened, get_handle-Effect, first_index_unique}
use camerahal.OmxCore.Handles.Lifecycle.{
  framed, IsConsistent, IsFresh, init-IsConsistent, deinit-IsConsistent, get_handle-IsConsistent,
}

unload-IsConsistent :
    (core : Core) (i h : ℕ) → IsConsistent core → IsConsistent (unload_component core i h)
unfolding unload_component
unload-IsConsistent core i h w =
    framed core (unload_component core i h) w
      (record { count_same = refl; ready_same = refl; table_same = refl }) backed distinct range
  where
    old : (j g : ℕ) → set_at core.components i none j ≡ some g → core.components j ≡ some g
    old j g p = elim (Bool-cases (i == j)) [
      | inl q ↦ let p' : none ≡ some g = rw q at p in cc
      | inr q ↦ rw q at p
    ]

    backed : (j : ℕ) → set_at core.modules i none j ≡ none → set_at core.components i none j ≡ none
    backed j e = elim (Bool-cases (i == j)) [ inl q ↦ rw q | inr q ↦ rw q (w.backed j (rw q at e)) ]

    distinct :
        (j k g : ℕ)
        → set_at core.components i none j ≡ some g
        → set_at core.components i none k ≡ some g
        → j ≡ k
    distinct j k g p q = w.distinct j k g (old j g p) (old k g q)

    range : (j g : ℕ) → set_at core.components i none j ≡ some g → j < max_comp
    range j g p = w.in_range j g (old j g p)

free_handle-IsConsistent :
    (core : Core) (h : Option ℕ) → IsConsistent core → IsConsistent (free_handle core h).0
unfolding free_handle
free_handle-IsConsistent core none w = w
free_handle-IsConsistent core (some h) w = elim (Bool-cases (ltb 0 core.count)) [
  | inr c ↦ rw c w
  | inl c ↦ elim (Bool-cases (slot_of core h == max_comp)) [
    | inl e ↦ rw (c, e) w
    | inr e ↦ rw (c, e) (unload-IsConsistent core (slot_of core h) h w)
  ]
]

-- One call of the core, with what the environment answers.
pub data Operation : Type 0 where
  init_call : Bool → Bool → Operation
  deinit_call : Operation
  get_call : Answers → Arguments → Operation
  free_call : Option ℕ → Operation

abbrev pub apply : Core → Operation → Core
apply core (init_call o r) = (init core o r).0
apply core deinit_call = (deinit core).0
apply core (get_call a args) = (get_handle core a args).0
apply core (free_call h) = (free_handle core h).0

abbrev pub run : Core → List Operation → Core
run core [] = core
run core (op ∷ ops) = run (apply core op) ops

-- In every call of OMX_GetHandle the heap gives memory that is not in use.
abbrev pub AllFresh : Core → List Operation → Type 0
AllFresh core [] = Unit
AllFresh core (get_call a args ∷ ops) = IsFresh core a × AllFresh (apply core (get_call a args)) ops
AllFresh core (op ∷ ops) = AllFresh (apply core op) ops

run-from :
    (core : Core) (ops : List Operation)
    → IsConsistent core
    → AllFresh core ops
    → IsConsistent (run core ops)
run-from core [] w f = w
run-from core (init_call o r ∷ ops) w f =
    run-from (init core o r).0 ops (init-IsConsistent core o r w) f
run-from core (deinit_call ∷ ops) w f = run-from (deinit core).0 ops (deinit-IsConsistent core w) f
run-from core (get_call a args ∷ ops) w f =
    run-from (get_handle core a args).0 ops (get_handle-IsConsistent core a args w f.0) f.1
run-from core (free_call h ∷ ops) w f =
    run-from (free_handle core h).0 ops (free_handle-IsConsistent core h w) f

initial-IsConsistent : IsConsistent initial_core
initial-IsConsistent = record {
  backed = λ j e. refl;
  distinct = λ i j h p q. cc;
  in_range = λ j h p. cc;
  built = λ c. absurd (omega arith);
  ready = refl;
}

-- Whatever calls are made from the start, in whatever order and with whatever results, if the heap
-- gives memory that is not in use: a handle has its library beside it, stands in one slot only and
-- within the array; and while the core is initialised its table is built and its mutex ready.
pub run-IsConsistent :
    (ops : List Operation) → AllFresh initial_core ops → IsConsistent (run initial_core ops)
run-IsConsistent ops f = run-from initial_core ops initial-IsConsistent f

-- The slots after OMX_FreeHandle of a handle that OMX_GetHandle stored are those before both.
abbrev pub Restores : Core → Core → ℕ → Type 0
Restores core core' h =
    ((free_handle core' (some h)).1 ≡ error_none)
    × ((j : ℕ) → (free_handle core' (some h)).0.modules j ≡ core.modules j)
    × ((j : ℕ) → (free_handle core' (some h)).0.components j ≡ core.components j)

Opened-Restores :
    (core : Core) (a : Answers) (args : Arguments)
    → IsConsistent core
    → IsFresh core a
    → (o : Opened core a (get_handle core a args))
    → Restores core (get_handle core a args).0 o.handle
unfolding free_handle unload_component
Opened-Restores core a args w fresh o =
    let got = get_handle core a args in
    let here : got.0.components o.slot ≡ some o.handle =
      o.components_are o.slot ∙ rw (==_refl o.slot) in
    let w' = get_handle-IsConsistent core a args w fresh in
    let found : slot_of got.0 o.handle ≡ o.slot =
      first_index_unique (λ i. points_to (got.0.components i) o.handle) 0 max_comp o.slot
        (omega arith) (omega (arith, o.in_range)) (rw here (==_refl o.handle))
        (λ j l p.
          w'.distinct j o.slot o.handle (points_to→some (got.0.components j) o.handle p) here) in
    let inside : (o.slot == max_comp) ≡ false = let r = o.in_range in ground arith in
    let empty = w.backed o.slot o.was_empty in
    (
      rw (lt→ltb 0 got.0.count o.initialised, found, inside),
      λ j.
          rw (lt→ltb 0 got.0.count o.initialised, found, inside)
            (cleared core.modules got.0.modules j (some o.library) o.was_empty (o.modules_are j)),
      λ j.
          rw (lt→ltb 0 got.0.count o.initialised, found, inside)
            (cleared core.components got.0.components j (some o.handle) empty (o.components_are j)),
    )
  where
    points_to→some : (p : Option ℕ) (g : ℕ) → points_to p g ≡ true → p ≡ some g
    points_to→some none g e = cc
    points_to→some (some x) g e = ap some (==→eq x g e)

    cleared :
        (slots slots' : ℕ → Option ℕ) (j : ℕ) (v : Option ℕ)
        → slots o.slot ≡ none
        → slots' j ≡ set_at slots o.slot v j
        → set_at slots' o.slot none j ≡ slots j
    cleared slots slots' j v e k = elim (Bool-cases (o.slot == j)) [
      | inl q ↦ rw q (sym (ap slots (sym (==→eq o.slot j q)) ∙ e))
      | inr q ↦ rw q (k ∙ rw q)
    ]

-- In a consistent state, with memory that is not in use: when OMX_GetHandle returns OMX_ErrorNone,
-- the caller has a handle, and OMX_FreeHandle of it succeeds and puts every slot back.
pub get_handle-Restores :
    (core : Core) (a : Answers) (args : Arguments)
    → IsConsistent core
    → IsFresh core a
    → is_none (get_handle core a args).1 ≡ true
    → (h : ℕ) × ((get_handle core a args).2 ≡ stored (some h))
      × Restores core (get_handle core a args).0 h
get_handle-Restores core a args w fresh e = elim (get_handle-Effect core a args) [
  | inl (_, n) ↦ cc
  | inr (inl (_, n)) ↦ cc
  | inr (inr o) ↦ (o.handle, o.stores, Opened-Restores core a args w fresh o)
]
