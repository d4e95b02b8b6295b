-- ===== src/Delegation/Termination.antt =====
-- security/tf_daemon/delegation_client.c: every batch of instructions comes to its end.
use camerahal.Common.{
  ℕ, zero, suc, ◌-◌, ◌*◌, ◌/◌, ◌%◌, ◌≤◌, ◌<◌, ◌≡◌, refl, inl, inr, Bool-cases, Option, none, some,
  List, ltb, ltb→le, ◌==◌, drop, arith,
}
use camerahal.Delegation.{Storage, Session, is_success}
use camerahal.Delegation.Instructions.{
  shutdown, notify, Next, ended, exits, goes_on, word_at, independent, parameters_of, specific,
  instruction, continue, run_instructions,
}

-- What is left in the buffer behind an instruction.
AtMost : {F : Type 0} → ℕ → Next F → Type 0
AtMost n (ended s) = Unit
AtMost n exits = Unit
AtMost n (goes_on s ws left) = left ≤ n

independent-AtMost :
    {F : Type 0}
    → (s : Session F) (id : ℕ) (ws : List ℕ) (left : ℕ) → AtMost left (independent s id ws left)
unfolding AtMost independent
independent-AtMost s id ws left = elim (Bool-cases (id == shutdown)) [
  | inl e ↦ rw e tt
  | inr e ↦ elim (Bool-cases (id == notify)) [
    | inr f ↦ rw (e, f) (omega arith)
    | inl f ↦ elim (Bool-cases (ltb left 8)) [
      | inl g ↦ rw (e, f, g) tt
      | inr g ↦ elim (Bool-cases (ltb (99 * 4) (word_at ws 1))) [
        | inl h ↦ rw (e, f, g, h) tt
        | inr h ↦ elim (Bool-cases (ltb (left - 8) (word_at ws 1))) [
          | inl k ↦ rw (e, f, g, h, k) tt
          | inr k ↦ rw (e, f, g, h, k) (omega arith)
        ]
      ]
    ]
  ]
]

module _ {F : Type 0} (os : Storage F) (sector_size : ℕ) where
  instruction-AtMost :
      (s : Session F) (id : ℕ) (ws : List ℕ) (left : ℕ)
      → AtMost left (instruction os sector_size s id ws left)
  unfolding AtMost instruction specific
  instruction-AtMost s id ws left = elim (Bool-cases (id % 16 == 0)) [
    | inl e ↦ rw e (independent-AtMost s id ws left)
    | inr e ↦ elim (Bool-cases (is_success (s.error_states (id / 16 % 16)))) [
      | inr f ↦ rw (e, f) (omega arith)
      | inl f ↦ elim (Bool-cases (ltb left (parameters_of (id % 16)))) [
        | inl g ↦ rw (e, f, g) tt
        | inr g ↦ rw (e, f, g) (omega arith)
      ]
    ]
  ]

  continues :
      (go_on : Session F → List ℕ → ℕ → Option (Option (Session F))) (n : ℕ) (next : Next F)
      → AtMost n next
      → ((s : Session F) (ws : List ℕ) (left : ℕ)
          → left ≤ n
          → (r : Option (Session F)) × (go_on s ws left ≡ some r))
      → (r : Option (Session F)) × (continue os sector_size go_on next ≡ some r)
  unfolding AtMost continue
  continues go_on n (ended s) h later = (some s, refl)
  continues go_on n exits h later = (none, refl)
  continues go_on n (goes_on s ws left) h later = later s ws left h

  -- With fuel above the number of bytes that the service has written, a batch comes to its end, whatever
  -- the instructions are.
  pub run_instructions-Returns :
      (fuel : ℕ) (s : Session F) (ws : List ℕ) (left : ℕ)
      → left < fuel
      → (r : Option (Session F)) × (run_instructions os sector_size fuel s ws left ≡ some r)
  unfolding run_instructions
  run_instructions-Returns zero s ws left h = absurd (omega arith)
  run_instructions-Returns (suc fuel) s ws left h = elim (Bool-cases (ltb left 4)) [
    | inl e ↦ rw e (some s, refl)
    | inr e ↦
        let enough = ltb→le left 4 e in
        rw e (
          continues (run_instructions os sector_size fuel) (left - 4) _
            (instruction-AtMost s (word_at ws 0) (drop 1 ws) (left - 4))
            (λ s' ws' left' k. run_instructions-Returns fuel s' ws' left' (omega arith)))
  ]
