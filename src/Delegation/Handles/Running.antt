-- ===== src/Delegation/Handles/Running.antt =====
-- security/tf_daemon/delegation_client.c: a batch of instructions uses the files as their interface wants it.
use camerahal.Common.{
  ℕ, zero, suc, ◌-◌, ◌*◌, ◌/◌, ◌%◌, ◌^◌, ◌≡◌, subst, inl, inr, Bool, true, Bool-cases, Option, none,
  some, List, ltb, ◌==◌, drop,
}
use camerahal.Delegation.{Storage, Session, is_success, succeeds, enlarge, partition_set_size}
use camerahal.Delegation.Instructions.{
  pick, miss, inner, Next, ended, exits, goes_on, word_at, independent, parameters_of, execute,
  specific, instruction, continue, run_instructions, shutdown, notify,
}
use camerahal.Delegation.Handles.{
  Protocol, Fits, create-Fits, open-Fits, close-Fits, destroy-Fits, read-Fits, write-Fits,
  sync-Fits,
}

module _ {F : Type 0} (os : Storage F) (sector_size : ℕ) (Matches : F → (ℕ → Bool) → Type 0)
    (laws : Protocol os Matches) where
  enlarge-Matches :
      (bytes : ℕ) (f : F) (o : ℕ → Bool) (p : ℕ)
      → Matches f o
      → o p ≡ true
      → Matches (enlarge os sector_size bytes f p).0 o
  unfolding enlarge
  enlarge-Matches zero f o p m e = m
  enlarge-Matches (suc bytes) f o p m e =
      let k = laws.puts f o p m e in
      elim (Bool-cases (succeeds (os.put f p).1)) [
        | inl g ↦ rw g (enlarge-Matches bytes (os.put f p).0 o p k e)
        | inr g ↦ rw g k
      ]

  set_size-Fits :
      (s : Session F) (p count : ℕ)
      → Fits os sector_size Matches laws s
      → Fits os sector_size Matches laws (partition_set_size os sector_size s p count)
  unfolding Fits partition_set_size
  set_size-Fits s p count m = elim (Bool-cases (s.opened p)) [
    | inr e ↦ rw e m
    | inl e ↦
        let files = (os.seek_end s.files p).0 in
        let k = laws.seeks_end s.files s.opened p m e in
        let current = os.end_of files p / sector_size in
        let larger =
          enlarge-Matches ((count - current) * sector_size % 2 ^ 32) files s.opened p k e in
        let smaller = laws.truncates files s.opened p (count * sector_size % 2 ^ 32) k e in
        elim (Bool-cases (succeeds (os.seek_end s.files p).1)) [
          | inr f ↦ rw (e, f) k
          | inl f ↦ elim (Bool-cases (ltb current count)) [
            | inl g ↦ rw (e, f, g) larger
            | inr g ↦ elim (Bool-cases (ltb count current)) [
              | inl h ↦ rw (e, f, g, h) smaller
              | inr h ↦ rw (e, f, g, h) k
            ]
          ]
        ]
  ]

  execute-Fits :
      (s : Session F) (p operation : ℕ) (ws : List ℕ)
      → Fits os sector_size Matches laws s
      → Fits os sector_size Matches laws (execute os sector_size s p operation ws)
  unfolding execute
  execute-Fits s p operation ws m = elim (Bool-cases (operation == 1)) [
    | inl a ↦ rw a (create-Fits os sector_size Matches laws s p m)
    | inr a ↦ elim (Bool-cases (operation == 2)) [
      | inl b ↦ rw (a, b) (open-Fits os sector_size Matches laws s p m)
      | inr b ↦ elim (Bool-cases (operation == 3)) [
        | inl c ↦
            rw (a, b, c) (read-Fits os sector_size Matches laws s p (word_at ws 0) (word_at ws 1) m)
        | inr c ↦ elim (Bool-cases (operation == 4)) [
          | inl d ↦
              rw (a, b, c, d)
                (write-Fits os sector_size Matches laws s p (word_at ws 0) (word_at ws 1) m)
          | inr d ↦ elim (Bool-cases (operation == 5)) [
            | inl e ↦ rw (a, b, c, d, e) (set_size-Fits s p (word_at ws 0) m)
            | inr e ↦ elim (Bool-cases (operation == 6)) [
              | inl f ↦ rw (a, b, c, d, e, f) (sync-Fits os sector_size Matches laws s p m)
              | inr f ↦ elim (Bool-cases (operation == 7)) [
                | inl g ↦ rw (a, b, c, d, e, f, g) (close-Fits os sector_size Matches laws s p m)
                | inr g ↦ elim (Bool-cases (operation == 8)) [
                  | inl h ↦
                      rw (a, b, c, d, e, f, g, h) (destroy-Fits os sector_size Matches laws s p m)
                  | inr h ↦ rw (a, b, c, d, e, f, g, h) m
                ]
              ]
            ]
          ]
        ]
      ]
    ]
  ]

  Follows : Next F → Type 0
  Follows (ended s) = Fits os sector_size Matches laws s
  Follows exits = Unit
  Follows (goes_on s ws left) = Fits os sector_size Matches laws s

  independent-Fits :
      (s : Session F) (id : ℕ) (ws : List ℕ) (left : ℕ)
      → Fits os sector_size Matches laws s
      → Follows (independent s id ws left)
  unfolding Follows independent Fits
  independent-Fits s id ws left m = elim (Bool-cases (id == shutdown)) [
    | inl e ↦ rw e tt
    | inr e ↦ elim (Bool-cases (id == notify)) [
      | inr f ↦ rw (e, f) m
      | inl f ↦ elim (Bool-cases (ltb left 8)) [
        | inl g ↦ rw (e, f, g) m
        | inr g ↦ elim (Bool-cases (ltb (99 * 4) (word_at ws 1))) [
          | inl h ↦ rw (e, f, g, h) m
          | inr h ↦ elim (Bool-cases (ltb (left - 8) (word_at ws 1))) [
            | inl k ↦ rw (e, f, g, h, k) m
            | inr k ↦ rw (e, f, g, h, k) m
          ]
        ]
      ]
    ]
  ]

  instruction-Fits :
      (s : Session F) (id : ℕ) (ws : List ℕ) (left : ℕ)
      → Fits os sector_size Matches laws s
      → Follows (instruction os sector_size s id ws left)
  unfolding Follows instruction specific Fits
  instruction-Fits s id ws left m =
      let p = id / 16 % 16 in
      let k = execute-Fits s p (id % 16) ws m in
      elim (Bool-cases (id % 16 == 0)) [
        | inl e ↦ rw e (independent-Fits s id ws left m)
        | inr e ↦ elim (Bool-cases (is_success (s.error_states p))) [
          | inr f ↦ rw (e, f) m
          | inl f ↦ elim (Bool-cases (ltb left (parameters_of (id % 16)))) [
            | inl g ↦ rw (e, f, g) m
            | inr g ↦ rw (e, f, g) k
          ]
        ]
      ]

  later-Fits :
      (go_on : Session F → List ℕ → ℕ → Option (Option (Session F))) (s' : Session F) (n : Next F)
      → Follows n
      → ((t : Session F) (ws : List ℕ) (left : ℕ)
          → Fits os sector_size Matches laws t
          → go_on t ws left ≡ some (some s')
          → Fits os sector_size Matches laws s')
      → continue os sector_size go_on n ≡ some (some s')
      → Fits os sector_size Matches laws s'
  unfolding Follows continue
  later-Fits go_on s' (ended t) m later e = subst (Fits os sector_size Matches laws) (inner _ _ e) m
  later-Fits go_on s' exits m later e = absurd (let f : none ≡ some s' = cc in cc)
  later-Fits go_on s' (goes_on t ws left) m later e = later t ws left m e

  -- In every batch of instructions the daemon creates, opens and removes a partition's file only while it
  -- is closed, and uses and closes it only while it is open; at the end the open files are those of
  -- g_pPartitionFiles again.
  pub run_instructions-Matches :
      (fuel : ℕ) (s s' : Session F) (ws : List ℕ) (left : ℕ)
      → Matches s.files s.opened
      → run_instructions os sector_size fuel s ws left ≡ some (some s')
      → Matches s'.files s'.opened
  unfolding run_instructions Fits
  run_instructions-Matches zero s s' ws left m e = absurd cc
  run_instructions-Matches (suc fuel) s s' ws left m e = elim (Bool-cases (ltb left 4)) [
    | inl f ↦ subst (λ t. Matches t.files t.opened) (inner _ _ (pick _ _ _ _ f e)) m
    | inr f ↦
        later-Fits (run_instructions os sector_size fuel) s' _
          (instruction-Fits s (word_at ws 0) (drop 1 ws) (left - 4) m)
          (λ t ws' left' m' e'. run_instructions-Matches fuel t s' ws' left' m' e')
          (miss _ _ _ _ f e)
  ]
