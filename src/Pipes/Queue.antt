-- ===== src/Pipes/Queue.antt =====
-- A pipe is a queue of messages, as long as each is read with its own size.
use camerahal.Common.{
  ℕ, ◌+◌, ◌%◌, ◌^◌, ◌≤◌, ◌<◌, ◌≡◌, refl, sym, ap, ◌∙◌, Bool, true, false, some, List, [], ◌∷◌, ◌++◌,
  append_assoc, append-nil, leb, ◌==◌, if◌then◌else◌, length, length-append, take, drop,
  take-append, drop-append, take_all, ◌||◌, arith,
}
use camerahal.Pipes.{
  err_none, err_not_ready, word, Pipe, System, create_pipe, write_to_pipe, read_from_pipe,
  is_pipe_ready, get_pipe_ready_message_count,
}

abbrev pub concat : List (List ℕ) → List ℕ
concat [] = []
concat (m ∷ ms) = m ++ concat ms

concat-append : (ms ns : List (List ℕ)) → concat (ms ++ ns) ≡ concat ms ++ concat ns
concat-append [] ns = refl
concat-append (m ∷ ms) ns =
    ap (λ l. m ++ l) (concat-append ms ns) ∙ sym (append_assoc m (concat ms) (concat ns))

-- The pipe holds these messages: their bytes, their number, and the number of their bytes, both of
-- them within the positive integers.
pub record Holds (pipe : Pipe) (messages : List (List ℕ)) : Type 0 where
  pub bytes_are : pipe.bytes ≡ concat messages
  pub counted : pipe.message_count ≡ length messages
  pub sized : pipe.total_bytes_in_pipe ≡ length (concat messages)
  pub few : length messages < 2 ^ 31
  pub small : length (concat messages) < 2 ^ 31

-- A new pipe holds nothing.
pub create_pipe-Holds :
    (pipe_size message_size is_fixed_message : ℕ)
    → (pipe : Pipe) × (create_pipe true true pipe_size message_size is_fixed_message
        ≡ (err_none, some pipe))
      × Holds pipe []
unfolding create_pipe
create_pipe-Holds pipe_size message_size is_fixed_message = (
  record {
    bytes = [];
    pipe_size = pipe_size;
    message_size = message_size;
    is_fixed_message = is_fixed_message;
    message_count = 0;
    total_bytes_in_pipe = 0;
  },
  refl,
  record { bytes_are = refl; counted = refl; sized = refl; few = omega arith; small = omega arith },
)

-- The system takes the whole of a message that is written to it in this state.
abbrev pub Takes : System → Pipe → List ℕ → Type 0
Takes os pipe message = os.write pipe.bytes message ≡ some (length message)

-- The system gives as many bytes as are asked for when the pipe has them.
abbrev pub Gives : System → Type 0
Gives os = (bytes : List ℕ) (size : ℕ) → size ≤ length bytes → os.read bytes size ≡ some size

-- A message that is not empty, that the system takes, and with which both counters stay below 2 ^
-- 31, is put behind the messages that the pipe holds.
pub write_to_pipe-Holds :
    (os : System) (pipe : Pipe) (messages : List (List ℕ)) (message : List ℕ)
    → Holds pipe messages
    → Takes os pipe message
    → 0 < length message
    → length messages + 1 < 2 ^ 31
    → length (concat messages) + length message < 2 ^ 31
    → ((write_to_pipe os pipe message).1 ≡ err_none)
      × Holds (write_to_pipe os pipe message).0 (messages ++ message ∷ [])
unfolding write_to_pipe
write_to_pipe-Holds os pipe messages message h takes some_bytes few small =
    let a : (length message == 0) ≡ false = ground arith in
    let b : (length message % word == length message) ≡ true = ground arith in
    let c = concat-append messages (message ∷ []) in
    let c' : concat (messages ++ message ∷ []) ≡ concat messages ++ message =
      c ∙ ap (λ l. concat messages ++ l) (append-nil message) in
    let l : length (concat (messages ++ message ∷ [])) ≡ length (concat messages) + length message =
      ap length c' ∙ length-append (concat messages) message in
    let l' : length (messages ++ message ∷ []) ≡ length messages + 1 =
      length-append messages (message ∷ []) in
    (
      rw (takes, a, b) refl,
      rw (takes, a, b)
          (record {
            bytes_are =
                ap (λ t. pipe.bytes ++ t) (take_all (length message) message refl)
                ∙ ap (λ t. t ++ message) h.bytes_are
                ∙ sym c';
            counted = omega (arith, h.counted);
            sized = omega (arith, h.sized);
            few = omega arith;
            small = omega arith;
          }),
    )

-- If the system gives what the pipe has, the message in front, which is not empty, is read with
-- its size: it comes out whole, and the pipe holds the others in their order.
pub read_from_pipe-Holds :
    (os : System) (pipe : Pipe) (message : List ℕ) (messages : List (List ℕ)) (no_suspend : Bool)
    → Holds pipe (message ∷ messages)
    → Gives os
    → 0 < length message
    → ((read_from_pipe os pipe (length message) no_suspend).1 ≡ err_none)
      × ((read_from_pipe os pipe (length message) no_suspend).2 ≡ message)
      × ((read_from_pipe os pipe (length message) no_suspend).3 ≡ some (length message))
      × Holds (read_from_pipe os pipe (length message) no_suspend).0 messages
unfolding read_from_pipe
read_from_pipe-Holds os pipe message messages no_suspend h gives some_bytes =
    let size = length message in
    let total = length-append message (concat messages) in
    let small = h.small in
    let front : pipe.bytes ≡ message ++ concat messages = h.bytes_are in
    let g : os.read pipe.bytes size ≡ some size = gives pipe.bytes size (rw front (omega arith)) in
    let a : (size == 0) ≡ false = ground arith in
    let n : size % word ≡ size = omega arith in
    let b : (size % word == 0) ≡ false = ground arith in
    let counted = h.counted in
    let m : (pipe.message_count == 0) ≡ false = ground arith in
    (
      rw (a, m, g, b) refl,
      rw (a, m, g, b) (ap (take size) front ∙ take-append message (concat messages)),
      rw (a, m, g, b) (ap some n),
      rw (a, m, g, b)
          (record {
            bytes_are = ap (drop size) front ∙ drop-append message (concat messages);
            counted = omega (arith, h.counted, h.few);
            sized = omega (arith, h.sized);
            few = omega (arith, h.few);
            small = omega arith;
          }),
    )

-- A pipe that holds a list of messages is ready exactly when the list is not empty, and the count
-- is the length of the list.
pub is_pipe_ready-Holds :
    (pipe : Pipe) (messages : List (List ℕ))
    → Holds pipe messages
    → (is_pipe_ready pipe ≡ (if length messages == 0 then err_not_ready else err_none))
      × (get_pipe_ready_message_count pipe ≡ (err_none, length messages))
unfolding is_pipe_ready get_pipe_ready_message_count
is_pipe_ready-Holds pipe messages h =
    let few = h.few in
    let inside : leb (2 ^ 31) (length messages) ≡ false = ground arith in
    (rw (h.counted, inside) (or_false (length messages == 0)), rw (h.counted) refl)
  where
    or_false :
        (b : Bool)
        → (if b || false then err_not_ready else err_none) ≡ (if b then err_not_ready else err_none)
    or_false true = refl
    or_false false = refl
