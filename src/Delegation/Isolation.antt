-- ===== src/Delegation/Isolation.antt =====
-- security/tf_daemon/delegation_client.c: an error on a partition ends the work on it, and on it alone.
use camerahal.Common.{
  ℕ, zero, suc, ◌-◌, ◌*◌, ◌/◌, ◌%◌, ◌≡◌, refl, sym, ap, subst, ◌∙◌, inl, inr, true, false,
  Bool-cases, Option, none, some, List, ltb, ◌==◌, drop, arith,
}
use camerahal.Delegation.{Storage, Session, is_success}
use camerahal.Delegation.Instructions.{
  pick, miss, inner, continue, shutdown, notify, Next, ended, exits, goes_on, word_at, independent,
  parameters_of, specific, instruction, run_instructions,
}
use camerahal.Delegation.Untouched.{Untouched, execute-Untouched}

module _ {F : Type 0} (os : Storage F) (sector_size : ℕ) (q : ℕ) where
  -- What one instruction does to a partition that has an error.
  KeptBy : (s : Session F) (n : Next F) → Type 0
  KeptBy s (ended s') = Untouched q s s'
  KeptBy s exits = Unit
  KeptBy s (goes_on s' ws left) = Untouched q s s'

  independent-kept :
      (s : Session F) (id : ℕ) (ws : List ℕ) (left : ℕ) → KeptBy s (independent s id ws left)
  unfolding KeptBy independent
  independent-kept s id ws left = elim (Bool-cases (id == shutdown)) [
    | inl e ↦ rw e tt
    | inr e ↦ elim (Bool-cases (id == notify)) [
      | inr f ↦ rw (e, f) (record { opened = refl; size = refl; state = refl })
      | inl f ↦ elim (Bool-cases (ltb left 8)) [
        | inl g ↦ rw (e, f, g) (record { opened = refl; size = refl; state = refl })
        | inr g ↦ elim (Bool-cases (ltb (99 * 4) (word_at ws 1))) [
          | inl h ↦ rw (e, f, g, h) (record { opened = refl; size = refl; state = refl })
          | inr h ↦ elim (Bool-cases (ltb (left - 8) (word_at ws 1))) [
            | inl k ↦ rw (e, f, g, h, k) (record { opened = refl; size = refl; state = refl })
            | inr k ↦ rw (e, f, g, h, k) (record { opened = refl; size = refl; state = refl })
          ]
        ]
      ]
    ]
  ]

  specific-kept :
      (s : Session F) (id : ℕ) (ws : List ℕ) (left : ℕ)
      → is_success (s.error_states q) ≡ false
      → KeptBy s (specific os sector_size s id ws left)
  unfolding KeptBy specific
  specific-kept s id ws left bad =
      let p = id / 16 % 16 in
      elim (Bool-cases (is_success (s.error_states p))) [
        | inr e ↦ rw e (record { opened = refl; size = refl; state = refl })
        | inl e ↦
            let apart : (p == q) ≡ false = elim (Bool-cases (p == q)) [
              | inr f ↦ f
              | inl f ↦
                  let same : p ≡ q = ground arith in
                  absurd (
                    let g : true ≡ false =
                      sym e ∙ ap (λ k. is_success (s.error_states k)) same ∙ bad in
                    cc)
            ] in
            let u = execute-Untouched os sector_size q s p (id % 16) ws apart in
            elim (Bool-cases (ltb left (parameters_of (id % 16)))) [
              | inl f ↦ rw (e, f) (record { opened = refl; size = refl; state = refl })
              | inr f ↦
                  rw (e, f) (record { opened = u.opened; size = u.size; state = rw apart u.state })
            ]
      ]

  instruction-kept :
      (s : Session F) (id : ℕ) (ws : List ℕ) (left : ℕ)
      → is_success (s.error_states q) ≡ false
      → KeptBy s (instruction os sector_size s id ws left)
  unfolding instruction
  instruction-kept s id ws left bad = elim (Bool-cases (id % 16 == 0)) [
    | inl e ↦ rw e (independent-kept s id ws left)
    | inr e ↦ rw e (specific-kept s id ws left bad)
  ]

  -- The rest of the batch.
  later-kept :
      (go_on : Session F → List ℕ → ℕ → Option (Option (Session F))) (s s' : Session F) (n : Next F)
      → is_success (s.error_states q) ≡ false
      → KeptBy s n
      → ((t : Session F) (ws : List ℕ) (left : ℕ)
          → is_success (t.error_states q) ≡ false
          → go_on t ws left ≡ some (some s')
          → Untouched q t s')
      → continue os sector_size go_on n ≡ some (some s')
      → Untouched q s s'
  unfolding KeptBy continue
  later-kept go_on s s' (ended t) bad u later e = subst (Untouched q s) (inner _ _ e) u
  later-kept go_on s s' exits bad u later e = absurd (let f : none ≡ some s' = cc in cc)
  later-kept go_on s s' (goes_on t ws left) bad u later e =
      let v = later t ws left (ap is_success u.state ∙ bad) e in
      record { opened = v.opened ∙ u.opened; size = v.size ∙ u.size; state = v.state ∙ u.state }

  -- Once there is an error on a partition, the rest of the batch leaves it alone, whatever the instructions
  -- are: it stays open or closed, and its error and its size are sent back as they are.
  pub run_instructions-Untouched :
      (fuel : ℕ) (s s' : Session F) (ws : List ℕ) (left : ℕ)
      → is_success (s.error_states q) ≡ false
      → run_instructions os sector_size fuel s ws left ≡ some (some s')
      → Untouched q s s'
  unfolding run_instructions
  run_instructions-Untouched zero s s' ws left bad e = absurd cc
  run_instructions-Untouched (suc fuel) s s' ws left bad e = elim (Bool-cases (ltb left 4)) [
    | inl f ↦
        subst (Untouched q s) (inner _ _ (pick _ _ _ _ f e))
          (record { opened = refl; size = refl; state = refl })
    | inr f ↦
        later-kept (run_instructions os sector_size fuel) s s' _ bad
          (instruction-kept s (word_at ws 0) (drop 1 ws) (left - 4) bad)
          (λ t ws' left' bad' e'. run_instructions-Untouched fuel t s' ws' left' bad' e')
          (miss _ _ _ _ f e)
  ]
