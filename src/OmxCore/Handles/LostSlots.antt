-- ===== src/OmxCore/Handles/LostSlots.antt =====
-- Slots that keep a library without a handle.
use mathlib.Core.Path.{subst}
use camerahal.Common.{
  ℕ, ◌<◌, ◌≡◌, ◌≢◌, inl, inr, sym, ap, ◌∙◌, Bool, true, false, Option, none, some, List, [], ◌∷◌,
  ltb, ◌==◌, ==→eq, arith, Bool-cases,
}
use camerahal.OmxCore.Errors.{is_none, error_none}
use camerahal.OmxCore.Registry.{max_comp}
use camerahal.OmxCore.Handles.{
  Core, Answers, Arguments, Got, points_to, slot_of, get_handle, unload_component, free_handle,
  init, deinit,
}
use camerahal.OmxCore.Handles.Slots.{Lost, get_handle-Effect, first_index_le, first_index-holds}
use camerahal.OmxCore.Handles.Lifecycle.{IsConsistent}
use camerahal.OmxCore.Handles.Reachable.{
  Operation, init_call, deinit_call, get_call, free_call, apply, run,
}

-- A slot is taken by a library, and no handle is there to free it by.
pub record IsLost (core : Core) (j : ℕ) : Type 0 where
  pub library : ℕ
  pub taken : core.modules j ≡ some library
  pub no_handle : core.components j ≡ none

module _ (core : Core) (j : ℕ) (l : IsLost core j) where
  elsewhere : (k : ℕ) → core.modules k ≡ none → (k == j) ≡ false
  elsewhere k e = elim (Bool-cases (k == j)) [
    | inr q ↦ q
    | inl q ↦
        let t : core.modules k ≡ some l.library = ap core.modules (==→eq k j q) ∙ l.taken in cc
  ]

  get_handle-IsLost : (a : Answers) (args : Arguments) → IsLost (get_handle core a args).0 j
  get_handle-IsLost a args = elim (get_handle-Effect core a args) [
    | inl (s, _) ↦ record {
      library = l.library;
      taken = s.modules_are j ∙ l.taken;
      no_handle = s.components_are j ∙ l.no_handle;
    }
    | inr (inl (s, _)) ↦ record {
      library = l.library;
      taken = s.modules_are j ∙ rw (elsewhere s.slot s.was_empty) l.taken;
      no_handle = elim (s.components_are j) [ inl e ↦ e ∙ l.no_handle | inr e ↦ e.1 ];
    }
    | inr (inr o) ↦ record {
      library = l.library;
      taken = o.modules_are j ∙ rw (elsewhere o.slot o.was_empty) l.taken;
      no_handle = o.components_are j ∙ rw (elsewhere o.slot o.was_empty) l.no_handle;
    }
  ]

  init-IsLost : (o r : Bool) → IsLost (init core o r).0 j
  unfolding init
  init-IsLost o r = record {
    library = l.library;
    taken = let t = l.taken in ground arith;
    no_handle = let n = l.no_handle in ground arith;
  }

  deinit-IsLost : IsLost (deinit core).0 j
  unfolding deinit
  deinit-IsLost = record {
    library = l.library;
    taken = let t = l.taken in ground arith;
    no_handle = let n = l.no_handle in ground arith;
  }

  -- The slot of a handle is another one.
  other_slot : (h : ℕ) → (slot_of core h == max_comp) ≡ false → (slot_of core h == j) ≡ false
  other_slot h e = elim (Bool-cases (slot_of core h == j)) [
    | inr q ↦ q
    | inl q ↦
        let bound = (first_index_le (λ i. points_to (core.components i) h) 0 max_comp).1 in
        let range : slot_of core h < max_comp = ground arith in
        let here = first_index-holds (λ i. points_to (core.components i) h) 0 max_comp range in
        let here' : points_to (core.components j) h ≡ true =
          subst (λ k. points_to (core.components k) h ≡ true) (==→eq (slot_of core h) j q) here in
        let none_there : points_to (core.components j) h ≡ false = rw (l.no_handle) in cc
  ]

  free_handle-IsLost : (h : Option ℕ) → IsLost (free_handle core h).0 j
  unfolding free_handle unload_component
  free_handle-IsLost none = l
  free_handle-IsLost (some h) = elim (Bool-cases (ltb 0 core.count)) [
    | inr c ↦ rw c l
    | inl c ↦ elim (Bool-cases (slot_of core h == max_comp)) [
      | inl e ↦ rw (c, e) l
      | inr e ↦
          let q = other_slot h e in
          rw (c, e)
            (record { library = l.library; taken = rw q l.taken; no_handle = rw q l.no_handle })
    ]
  ]

  apply-IsLost : (op : Operation) → IsLost (apply core op) j
  apply-IsLost (init_call o r) = init-IsLost o r
  apply-IsLost deinit_call = deinit-IsLost
  apply-IsLost (get_call a args) = get_handle-IsLost a args
  apply-IsLost (free_call h) = free_handle-IsLost h

run-IsLost : (core : Core) (j : ℕ) (ops : List Operation) → IsLost core j → IsLost (run core ops) j
run-IsLost core j [] l = l
run-IsLost core j (op ∷ ops) l = run-IsLost (apply core op) j ops (apply-IsLost core j l op)

Lost-IsLost :
    (core : Core) (got : Got) (j : ℕ)
    → IsConsistent core
    → Lost core got
    → got.0.modules j ≢ core.modules j
    → IsLost got.0 j
Lost-IsLost core got j w s changed = elim (Bool-cases (s.slot == j)) [
  | inr q ↦ absurd (changed (s.modules_are j ∙ rw q))
  | inl q ↦
      let e = ==→eq s.slot j q in
      record {
        library = s.library;
        taken = s.modules_are j ∙ rw q;
        no_handle = elim (s.components_are j) [
          | inl k ↦ k ∙ w.backed j (ap core.modules (sym e) ∙ s.was_empty)
          | inr k ↦ k.1
        ];
      }
]

-- A slot that a failing call of OMX_GetHandle has changed, in a consistent state and with a
-- component whose SetCallbacks would succeed, is taken for ever: whatever calls of the core
-- follow, it holds a library and no handle.
pub get_handle-loses_slot :
    (core : Core) (a : Answers) (args : Arguments) (j : ℕ) (ops : List Operation)
    → IsConsistent core
    → a.callbacks ≡ error_none
    → is_none (get_handle core a args).1 ≡ false
    → (get_handle core a args).0.modules j ≢ core.modules j
    → IsLost (run (get_handle core a args).0 ops) j
get_handle-loses_slot core a args j ops w accepts fails changed =
    let got = get_handle core a args in
    elim (get_handle-Effect core a args) [
      | inl (s, _) ↦ absurd (changed (s.modules_are j))
      | inr (inl (s, _)) ↦ run-IsLost got.0 j ops (Lost-IsLost core got j w s changed)
      | inr (inr o) ↦ let n : is_none got.1 ≡ true = ap is_none (o.answer ∙ accepts) in cc
    ]
