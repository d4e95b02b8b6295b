-- ===== src/Delegation/Instructions.antt =====
-- security/tf_daemon/delegation_client.c: the loop of runSession over the instructions of the service.
use camerahal.Common.{
  ℕ, zero, suc, ◌+◌, ◌-◌, ◌*◌, ◌/◌, ◌%◌, ◌≡◌, Bool, true, false, not, Option, none, some, List, [],
  ◌∷◌, ltb, ◌==◌, if◌then◌else◌, drop,
}
use camerahal.Delegation.{
  s_success, bad_parameters, Storage, Session, is_success, put_at, partition_destroy,
  partition_create, partition_open, partition_close, partition_read, partition_write,
  partition_set_size, partition_sync,
}

-- The values of the instructions; the upper digit of the other ones is the partition.
abbrev pub shutdown : ℕ
shutdown = 0xf0

abbrev pub notify : ℕ
notify = 0xe0

-- A word of the buffer.
abbrev pub word_at : List ℕ → ℕ → ℕ
word_at [] n = 0
word_at (w ∷ ws) zero = w
word_at (w ∷ ws) (suc n) = word_at ws n

-- What comes after an instruction: the batch ends, the daemon exits, or the words from nInstructionsIndex
-- on with the number of bytes that are left.
pub data Next (F : Type 0) : Type 0 where
  ended : Session F → Next F
  exits : Next F
  goes_on : Session F → List ℕ → ℕ → Next F

-- A message is at most 99 characters of 4 bytes; its end is aligned.
unfoldable pub independent : {F : Type 0} → Session F → ℕ → List ℕ → ℕ → Next F
independent s id ws left =
    let size = word_at ws 1 in
    if id == shutdown
    then exits
    else if id == notify
    then if ltb left 8
      then ended s
      else if ltb (99 * 4) size
      then ended s
      else if ltb (left - 8) size
      then ended s
      else goes_on s (drop (2 + (size + 3) / 4) ws) (left - 8 - (size + 3) / 4 * 4)
    else goes_on (record s { error = bad_parameters }) ws left

-- The bytes that the parameters of an instruction take.
abbrev pub parameters_of : ℕ → ℕ
parameters_of operation =
    if operation == 3 then 8 else if operation == 4 then 8 else if operation == 5 then 4 else 0

module _ {F : Type 0} (os : Storage F) (sector_size : ℕ) where
  unfoldable pub execute : Session F → ℕ → ℕ → List ℕ → Session F
  execute s p operation ws =
      if operation == 1
      then partition_create os sector_size s p
      else if operation == 2
      then partition_open os sector_size s p
      else if operation == 3
      then partition_read os sector_size s p (word_at ws 0) (word_at ws 1)
      else if operation == 4
      then partition_write os sector_size s p (word_at ws 0) (word_at ws 1)
      else if operation == 5
      then partition_set_size os sector_size s p (word_at ws 0)
      else if operation == 6
      then partition_sync os sector_size s p
      else if operation == 7
      then partition_close os sector_size s p
      else if operation == 8
      then partition_destroy os sector_size s p
      else s

  abbrev pub with_error_state : Session F → ℕ → Session F
  with_error_state s p = record s { error_states = put_at s.error_states p s.error }

  -- An instruction on a partition is executed only if there is no error on it; else its parameters are left
  -- in the buffer.
  unfoldable pub specific : Session F → ℕ → List ℕ → ℕ → Next F
  specific s id ws left =
      let p = id / 16 % 16 in
      let operation = id % 16 in
      let bytes = parameters_of operation in
      if not (is_success (s.error_states p))
      then goes_on s ws left
      else if ltb left bytes
      then ended s
      else goes_on (with_error_state (execute s p operation ws) p) (drop (bytes / 4) ws)
          (left - bytes)

  unfoldable pub instruction : Session F → ℕ → List ℕ → ℕ → Next F
  instruction s id ws left =
      if id % 16 == 0 then independent s id ws left else specific s id ws left

  -- How a batch ends: the daemon exits, or the state that is sent back.
  unfoldable pub continue :
      (Session F → List ℕ → ℕ → Option (Option (Session F))) → Next F → Option (Option (Session F))
  continue go_on (ended s) = some (some s)
  continue go_on exits = some none
  continue go_on (goes_on s ws left) = go_on s ws left

  unfoldable pub run_instructions : ℕ → Session F → List ℕ → ℕ → Option (Option (Session F))
  unfolding continue
  run_instructions zero s ws left = none
  run_instructions (suc fuel) s ws left =
      let next = instruction s (word_at ws 0) (drop 1 ws) (left - 4) in
      let rest = continue (run_instructions fuel) next in if ltb left 4 then some (some s) else rest

  -- A batch begins without errors.
  unfoldable pub run_batch : ℕ → Session F → List ℕ → ℕ → Option (Option (Session F))
  run_batch fuel s ws size =
      run_instructions fuel
        (record s {
          error = s_success;
          error_states = λ p. s_success;
          open_sizes = λ p. 0;
          sync_executed = 0;
        })
        ws size

-- What a test that is decided leaves of an equation, and the state behind a batch that ends.
pub pick : {A : Type 0} → (b : Bool) (x y z : A) → b ≡ true → (if b then x else y) ≡ z → x ≡ z
pick true x y z t e = e
pick false x y z t e = absurd cc

pub miss : {A : Type 0} → (b : Bool) (x y z : A) → b ≡ false → (if b then x else y) ≡ z → y ≡ z
miss true x y z f e = absurd cc
miss false x y z f e = e

pub inner : {A : Type 0} → (x y : A) → some (some x) ≡ some (some y) → x ≡ y
inner x y e = cc
