-- ===== src/Pipes/Front.antt =====
-- TIMM_OSAL_WriteToFrontOfPipe, on every path.
use camerahal.Common.{
  ℕ, ◌+◌, ◌%◌, ◌^◌, ◌<◌, ◌≡◌, refl, sym, ap, ◌∙◌, inl, inr, Bool, true, false, Bool-cases, Option,
  none, some, List, [], ◌∷◌, length, length-append, ◌==◌, ltb, not, ◌&&◌, ◌||◌, arith, take_all,
  ◌++◌, take, drop, take-append, drop-append, if◌then◌else◌, append-nil,
}
use camerahal.Pipes.{
  OsalError, err_none, err_unknown, err_parameter, word, as_word, increment, bytes_read, bytes_left,
  bytes_written, Pipe, System, temp_bytes, rotate, write_to_front_of_pipe,
}
use camerahal.Pipes.Queue.{Holds, Gives, concat}

abbrev pub is_success : OsalError → Bool
is_success err_none = true
is_success _ = false

rotate-fails :
    (os : System) (pipe : Pipe) (size : ℕ) (memory : Option (ℕ → ℕ))
    → is_success (rotate os pipe size memory).1 ≡ false
unfolding rotate
rotate-fails os pipe size none = refl
rotate-fails os pipe size (some memory) = ground arith

-- TIMM_OSAL_WriteToFrontOfPipe never returns TIMM_OSAL_ERR_NONE, whatever the pipe, the message, the
-- memory and the system.
pub write_to_front_of_pipe-never_succeeds :
    (os : System) (pipe : Pipe) (message : List ℕ) (memory : Option (ℕ → ℕ))
    → is_success (write_to_front_of_pipe os pipe message memory).1 ≡ false
unfolding write_to_front_of_pipe
write_to_front_of_pipe-never_succeeds os pipe message memory =
    let f =
      rotate-fails os
        (record pipe {
          bytes = bytes_written os pipe.bytes message;
          message_count = increment pipe.message_count;
        })
        (length message) memory in
    ground (arith, f)

-- The system takes the whole of every message.
abbrev pub TakesAll : System → Type 0
TakesAll os = (bytes message : List ℕ) → os.write bytes message ≡ some (length message)

-- Bytes that were all read are written again as they are.
temp_bytes_full :
    (memory : ℕ → ℕ) (i : ℕ) (given : List ℕ) → temp_bytes memory (length given) i given ≡ given
temp_bytes_full memory i [] = refl
temp_bytes_full memory i (b ∷ given) = ap (λ l. b ∷ l) (temp_bytes_full memory (i + 1) given)

taken :
    (os : System) (bytes message : List ℕ)
    → TakesAll os
    → bytes_written os bytes message ≡ bytes ++ message
taken os bytes message takes =
    rw (takes bytes message) (ap (λ l. bytes ++ l) (take_all (length message) message refl))

-- The pipe behind the second write, with the error.
abbrev turned : Pipe → ℕ → List ℕ → ℕ → ℕ → Pipe × OsalError
turned pipe size bytes count total =
    if not (count == size)
    then (record pipe { bytes = bytes }, err_parameter)
    else (record pipe { bytes = bytes; total_bytes_in_pipe = (total + size) % word }, err_unknown)

rotated :
    (pipe : Pipe) (size : ℕ) (old message bytes : List ℕ) (count : ℕ)
    → pipe.total_bytes_in_pipe ≡ length old
    → bytes ≡ message ++ old
    → count ≡ length old
    → turned pipe size bytes count pipe.total_bytes_in_pipe
      ≡ turned pipe size (message ++ old) (length old) (length old)
rotated pipe size old message bytes count t same same' =
    ap (λ b. turned pipe size b count pipe.total_bytes_in_pipe) same
    ∙ ap (λ n. turned pipe size (message ++ old) n pipe.total_bytes_in_pipe) same'
    ∙ ap (λ n. turned pipe size (message ++ old) (length old) n) t

-- The pipe with the message behind the others is turned until the message is in front.
rotate-turns :
    (os : System) (pipe : Pipe) (size : ℕ) (memory : ℕ → ℕ) (old message : List ℕ)
    → TakesAll os
    → Gives os
    → pipe.bytes ≡ old ++ message
    → pipe.total_bytes_in_pipe ≡ length old
    → length old < word
    → rotate os pipe size (some memory)
      ≡ turned pipe size (message ++ old) (length old) (length old)
unfolding rotate
rotate-turns os pipe size memory old message takes gives b t small =
    let total = pipe.total_bytes_in_pipe in
    let joined = length-append old message in
    let g : os.read pipe.bytes total ≡ some (length old) =
      ap (os.read pipe.bytes) t ∙ gives pipe.bytes (length old) (rw b (omega arith)) in
    let read : bytes_read os pipe.bytes total ≡ old =
      rw g (ap (take (length old)) b ∙ take-append old message) in
    let left : bytes_left os pipe.bytes total ≡ message =
      rw g (ap (drop (length old)) b ∙ drop-append old message) in
    let temp : temp_bytes memory total 0 (bytes_read os pipe.bytes total) ≡ old =
      ap (temp_bytes memory total 0) read
      ∙ ap (λ n. temp_bytes memory n 0 old) t
      ∙ temp_bytes_full memory 0 old in
    let w : bytes_written os (bytes_left os pipe.bytes total)
          (temp_bytes memory total 0 (bytes_read os pipe.bytes total))
        ≡ message ++ old =
      ap (λ x. bytes_written os x (temp_bytes memory total 0 (bytes_read os pipe.bytes total))) left
      ∙ ap (bytes_written os message) temp
      ∙ taken os message old takes in
    let n : as_word (
          os.write (bytes_left os pipe.bytes total)
            (temp_bytes memory total 0 (bytes_read os pipe.bytes total)))
        ≡ length old =
      ap as_word (takes _ _) ∙ ap (λ x. length x % word) temp ∙ omega arith in
    rotated pipe size old message
      (bytes_written os (bytes_left os pipe.bytes total)
        (temp_bytes memory total 0 (bytes_read os pipe.bytes total)))
      (as_word (
        os.write (bytes_left os pipe.bytes total)
          (temp_bytes memory total 0 (bytes_read os pipe.bytes total))))
      t w n

-- What the call leaves, and its error.
abbrev pub in_front : Pipe → List (List ℕ) → List ℕ → Pipe × OsalError
in_front pipe messages message =
    let total = length (concat messages) in
    let size = length message in
    (
      record pipe {
        bytes = message ++ concat messages;
        message_count = length messages + 1;
        total_bytes_in_pipe = if total == size then total + size else total;
      },
      (if length messages == 0 || total == size then err_unknown else err_parameter),
    )

turned-in_front :
    (pipe : Pipe) (size : ℕ) (bytes : List ℕ) (total count : ℕ)
    → pipe.message_count ≡ count
    → pipe.total_bytes_in_pipe ≡ total
    → (total + size) % word ≡ total + size
    → turned pipe size bytes total total ≡ (
      record pipe {
        bytes = bytes;
        message_count = count;
        total_bytes_in_pipe = if total == size then total + size else total;
      },
      (if total == size then err_unknown else err_parameter),
    )
turned-in_front pipe size bytes total count c t sum = elim (Bool-cases (total == size)) [
  | inl e ↦ rw e (
      ap
        (λ n. (
          record pipe {
            bytes = bytes;
            message_count = n;
            total_bytes_in_pipe = (total + size) % word;
          },
          err_unknown,
        ))
        c
      ∙ ap
          (λ n. (
            record pipe { bytes = bytes; message_count = count; total_bytes_in_pipe = n },
            err_unknown,
          ))
          sum)
  | inr e ↦ rw e (
      ap (λ n. (record pipe { bytes = bytes; message_count = n }, err_parameter)) c
      ∙ ap
          (λ n. (
            record pipe { bytes = bytes; message_count = count; total_bytes_in_pipe = n },
            err_parameter,
          ))
          t)
]

behind_others :
    (os : System) (pipe : Pipe) (messages : List (List ℕ)) (message : List ℕ) (memory : ℕ → ℕ)
    → pipe.bytes ≡ concat messages ++ message
    → pipe.message_count ≡ length messages + 1
    → pipe.total_bytes_in_pipe ≡ length (concat messages)
    → TakesAll os
    → Gives os
    → 0 < length message
    → length messages + 1 < 2 ^ 31
    → length (concat messages) + length message < 2 ^ 31
    → (if ltb 1 pipe.message_count && ltb pipe.message_count (2 ^ 31)
        then rotate os pipe (length message) (some memory)
        else (pipe, err_unknown))
      ≡ in_front pipe messages message
behind_others os pipe [] message memory b c t takes gives some_bytes few small =
    let e : (ltb 1 pipe.message_count && ltb pipe.message_count (2 ^ 31)) ≡ false = ground arith in
    let f : (0 == length message) ≡ false = ground arith in
    rw (e, f)
      (ap (λ x. (record pipe { bytes = x }, err_unknown)) (b ∙ sym (append-nil message))
        ∙ ap (λ x. (record pipe { bytes = message ++ []; message_count = x }, err_unknown)) c
        ∙ ap
            (λ x. (
              record pipe { bytes = message ++ []; message_count = 1; total_bytes_in_pipe = x },
              err_unknown,
            ))
            t)
behind_others os pipe (m ∷ ms) message memory b c t takes gives some_bytes few small =
    let e : (ltb 1 pipe.message_count && ltb pipe.message_count (2 ^ 31)) ≡ true = ground arith in
    let old = concat (m ∷ ms) in
    let size = length message in
    let sum : (length old + size) % word ≡ length old + size = omega arith in
    let f : (length (m ∷ ms) == 0) ≡ false = ground arith in
    let r = rotate-turns os pipe size memory old message takes gives b t (omega arith) in
    rw (e, f)
      (r ∙ turned-in_front pipe size (message ++ old) (length old) (length (m ∷ ms) + 1) c t sum)

-- On a pipe that holds messages, with memory and a system that takes and gives what it is asked to, and
-- with a message that is not empty and leaves both counters below 2 ^ 31: the message stands in front
-- of the others and is counted, but the call fails all the same. Its bytes are not counted, unless
-- the others together are as long as it is.
pub write_to_front_of_pipe-in_front :
    (os : System) (pipe : Pipe) (messages : List (List ℕ)) (message : List ℕ) (memory : ℕ → ℕ)
    → Holds pipe messages
    → TakesAll os
    → Gives os
    → 0 < length message
    → length messages + 1 < 2 ^ 31
    → length (concat messages) + length message < 2 ^ 31
    → write_to_front_of_pipe os pipe message (some memory) ≡ in_front pipe messages message
unfolding write_to_front_of_pipe
write_to_front_of_pipe-in_front os pipe messages message memory h takes gives some_bytes few small =
    let a : (length message == 0) ≡ false = ground arith in
    let b : (length message % word == length message) ≡ true = ground arith in
    let written = bytes_written os pipe.bytes message in
    let put : written ≡ concat messages ++ message =
      taken os pipe.bytes message takes ∙ ap (λ l. l ++ message) h.bytes_are in
    let c : increment pipe.message_count ≡ length messages + 1 =
      ap increment h.counted ∙ omega arith in
    let counted = record pipe { bytes = written; message_count = increment pipe.message_count } in
    let ends =
      behind_others os counted messages message memory put c h.sized takes gives some_bytes few
        small in
    let whole : (as_word (os.write pipe.bytes message) == length message) ≡ true =
      ap (λ o. as_word o == length message) (takes pipe.bytes message) ∙ b in
    rw (a, whole) ends
