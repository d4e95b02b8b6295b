-- ===== src/Pipes/Tests.antt =====
-- Runs of a pipe, and the theorems at concrete pipes.
use camerahal.Common.{◌+◌, ◌≡◌, refl, true, false, some, [], ◌∷◌, length, arith, leb, if◌then◌else◌}
use camerahal.Pipes.{
  err_none, Pipe, System, create_pipe, write_to_pipe, rotate, write_to_front_of_pipe,
  read_from_pipe,
}
use camerahal.Pipes.Queue.{
  Holds, Gives, create_pipe-Holds, write_to_pipe-Holds, read_from_pipe-Holds,
}
use camerahal.Pipes.Front.{
  is_success, TakesAll, in_front, write_to_front_of_pipe-in_front,
  write_to_front_of_pipe-never_succeeds,
}

-- A system whose pipe takes every message and gives what it has.
abbrev roomy : System
roomy = record {
  write = λ bytes message. some (length message);
  read = λ bytes size. some (if leb size (length bytes) then size else length bytes);
}

roomy-Gives : Gives roomy
roomy-Gives bytes size h = ground arith

abbrev empty : Pipe
empty = record {
  bytes = [];
  pipe_size = 64;
  message_size = 4;
  is_fixed_message = 0;
  message_count = 0;
  total_bytes_in_pipe = 0;
}

abbrev two : Pipe
two = record empty { bytes = 7 ∷ 8 ∷ 9 ∷ []; message_count = 2; total_bytes_in_pipe = 3 }

empty-Holds : Holds empty []
empty-Holds = record {
  bytes_are = refl;
  counted = refl;
  sized = refl;
  few = omega arith;
  small = omega arith;
}

two-Holds : Holds two ((7 ∷ 8 ∷ []) ∷ (9 ∷ []) ∷ [])
two-Holds = record {
  bytes_are = refl;
  counted = refl;
  sized = refl;
  few = omega arith;
  small = omega arith;
}

roomy-TakesAll : TakesAll roomy
roomy-TakesAll bytes message = refl

-- A system whose pipe gives one byte at most.
abbrev slow : System
slow = record roomy { read = λ bytes size. some (if leb size 1 then size else 1) }

-- What was not read is written from the memory.
short_read :
    (write_to_front_of_pipe slow two (5 ∷ []) (some (λ i. 100 + i))).0.bytes
    ≡ 8 ∷ 9 ∷ 5 ∷ 7 ∷ 101 ∷ 102 ∷ []
unfolding write_to_front_of_pipe rotate
short_read = refl

create_pipe-Holds_example :
    (pipe : Pipe) × (create_pipe true true 64 4 0 ≡ (err_none, some pipe)) × Holds pipe []
create_pipe-Holds_example = create_pipe-Holds 64 4 0

write_to_pipe-Holds_example :
    ((write_to_pipe roomy two (5 ∷ [])).1 ≡ err_none)
    × Holds (write_to_pipe roomy two (5 ∷ [])).0 ((7 ∷ 8 ∷ []) ∷ (9 ∷ []) ∷ (5 ∷ []) ∷ [])
write_to_pipe-Holds_example =
    write_to_pipe-Holds roomy two ((7 ∷ 8 ∷ []) ∷ (9 ∷ []) ∷ []) (5 ∷ []) two-Holds refl
      (omega arith) (omega arith) (omega arith)

read_from_pipe-Holds_example :
    ((read_from_pipe roomy two 2 true).1 ≡ err_none)
    × ((read_from_pipe roomy two 2 true).2 ≡ 7 ∷ 8 ∷ [])
    × ((read_from_pipe roomy two 2 true).3 ≡ some 2)
    × Holds (read_from_pipe roomy two 2 true).0 ((9 ∷ []) ∷ [])
read_from_pipe-Holds_example =
    read_from_pipe-Holds roomy two (7 ∷ 8 ∷ []) ((9 ∷ []) ∷ []) true two-Holds roomy-Gives
      (omega arith)

write_to_front_of_pipe-never_succeeds_example :
    is_success (write_to_front_of_pipe slow two (5 ∷ []) (some (λ i. 0))).1 ≡ false
write_to_front_of_pipe-never_succeeds_example =
    write_to_front_of_pipe-never_succeeds slow two (5 ∷ []) (some (λ i. 0))

write_to_front_of_pipe-in_front_example :
    write_to_front_of_pipe roomy two (5 ∷ []) (some (λ i. 0))
    ≡ in_front two ((7 ∷ 8 ∷ []) ∷ (9 ∷ []) ∷ []) (5 ∷ [])
write_to_front_of_pipe-in_front_example =
    write_to_front_of_pipe-in_front roomy two ((7 ∷ 8 ∷ []) ∷ (9 ∷ []) ∷ []) (5 ∷ []) (λ i. 0)
      two-Holds roomy-TakesAll roomy-Gives (omega arith) (omega arith) (omega arith)
