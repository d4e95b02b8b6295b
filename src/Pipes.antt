-- ===== src/Pipes.antt =====
-- domx/mm_osal/src/timm_osal_pipes.c: message pipes on top of the pipes of the operating system.
pub mod Queue
pub mod Front
pub mod Tests
use camerahal.Common.{
  ℕ, zero, suc, ◌+◌, ◌-◌, ◌*◌, ◌%◌, ◌^◌, Bool, true, false, not, ◌&&◌, ◌||◌, Option, none, some,
  List, [], ◌∷◌, ◌++◌, ltb, leb, ◌==◌, if◌then◌else◌, length, take, drop,
}

-- The values of TIMM_OSAL_ERRORTYPE that the pipes return.
pub data OsalError : Type 0 where
  err_none err_alloc err_parameter err_not_ready err_pipe_empty err_unknown err : OsalError

abbrev pub word : ℕ
word = 2 ^ 32

-- TIMM_OSAL_PIPE. `bytes` is what stands in the system's pipe; the counters are 32-bit integers,
-- with the negative ones in the upper half.
pub record Pipe : Type 0 where
  pub bytes : List ℕ
  pub pipe_size : ℕ
  pub message_size : ℕ
  pub is_fixed_message : ℕ
  pub message_count : ℕ
  pub total_bytes_in_pipe : ℕ

-- What `write` and `read` return: the number of bytes taken or given, or `none` for -1. They see the
-- bytes in the pipe, and the bytes or the number of bytes of the call.
pub record System : Type 0 where
  pub write : List ℕ → List ℕ → Option ℕ
  pub read : List ℕ → ℕ → Option ℕ

-- The result as TIMM_OSAL_U32.
abbrev pub as_word : Option ℕ → ℕ
as_word none = word - 1
as_word (some n) = n % word

abbrev moved : Option ℕ → ℕ
moved none = 0
moved (some n) = n

-- The bytes in the pipe after a write, and after a read.
abbrev pub bytes_written : System → List ℕ → List ℕ → List ℕ
bytes_written os bytes message = bytes ++ take (moved (os.write bytes message)) message

abbrev pub bytes_left : System → List ℕ → ℕ → List ℕ
bytes_left os bytes size = drop (moved (os.read bytes size)) bytes

abbrev pub bytes_read : System → List ℕ → ℕ → List ℕ
bytes_read os bytes size = take (moved (os.read bytes size)) bytes

abbrev pub increment : ℕ → ℕ
increment n = (n + 1) % word

abbrev pub decrement : ℕ → ℕ
decrement n = (n + (word - 1)) % word

abbrev pub subtract : ℕ → ℕ → ℕ
subtract n size = (n + (word - size % word)) % word

-- TIMM_OSAL_CreatePipe, with whether there is memory and whether `pipe` succeeds.
unfoldable pub create_pipe : Bool → Bool → ℕ → ℕ → ℕ → OsalError × Option Pipe
create_pipe has_memory has_pipe pipe_size message_size is_fixed_message =
    if not has_memory then (err_alloc, none) else if not has_pipe then (err_unknown, none) else (
      err_none,
      some (record {
        bytes = [];
        pipe_size = pipe_size;
        message_size = message_size;
        is_fixed_message = is_fixed_message;
        message_count = 0;
        total_bytes_in_pipe = 0;
      }),
    )

-- TIMM_OSAL_DeletePipe, with whether its two descriptors can be closed.
unfoldable pub delete_pipe : Option Pipe → Bool → Bool → OsalError
delete_pipe none closes_read closes_write = err_parameter
delete_pipe (some pipe) closes_read closes_write =
    if closes_read && closes_write then err_none else err_unknown

-- TIMM_OSAL_WriteToPipe; `size` is the number of bytes of the message.
unfoldable pub write_to_pipe : System → Pipe → List ℕ → Pipe × OsalError
write_to_pipe os pipe message =
    let size = length message in
    let written = record pipe { bytes = bytes_written os pipe.bytes message } in
    if size == 0
    then (pipe, err_parameter)
    else if not (as_word (os.write pipe.bytes message) == size)
    then (written, err_parameter)
    else (
      record written {
        message_count = increment pipe.message_count;
        total_bytes_in_pipe = (pipe.total_bytes_in_pipe + size) % word;
      },
      err_none,
    )

-- The bytes at `tempPtr` from place `i` on: `n` of them, the first ones those that were read into it, the
-- others what the memory has there.
abbrev pub temp_bytes : (ℕ → ℕ) → ℕ → ℕ → List ℕ → List ℕ
temp_bytes memory zero i given = []
temp_bytes memory (suc n) i [] = memory i ∷ temp_bytes memory n (i + 1) []
temp_bytes memory (suc n) i (b ∷ given) = b ∷ temp_bytes memory n (i + 1) given

-- From the read on, with the message already behind the others: as many bytes as `totalBytesInPipe` says
-- are read, and as many are written again, whatever the read gave.
unfoldable pub rotate : System → Pipe → ℕ → Option (ℕ → ℕ) → Pipe × OsalError
rotate os pipe size none = (pipe, err_parameter)
rotate os pipe size (some memory) =
    let total = pipe.total_bytes_in_pipe in
    let temp = temp_bytes memory total 0 (bytes_read os pipe.bytes total) in
    let rest = bytes_left os pipe.bytes total in
    let turned = record pipe { bytes = bytes_written os rest temp } in
    if not (as_word (os.write rest temp) == size)
    then (turned, err_parameter)
    else (record turned { total_bytes_in_pipe = (total + size) % word }, err_unknown)

-- TIMM_OSAL_WriteToFrontOfPipe, with what TIMM_OSAL_Malloc gives: NULL, or memory with some bytes in it.
unfoldable pub write_to_front_of_pipe : System → Pipe → List ℕ → Option (ℕ → ℕ) → Pipe × OsalError
unfolding rotate
write_to_front_of_pipe os pipe message memory =
    let size = length message in
    let written = record pipe { bytes = bytes_written os pipe.bytes message } in
    let counted = record written { message_count = increment pipe.message_count } in
    let c = increment pipe.message_count in
    if size == 0
    then (pipe, err_parameter)
    else if not (as_word (os.write pipe.bytes message) == size)
    then (written, err_parameter)
    else if ltb 1 c && ltb c (2 ^ 31)
    then rotate os counted size memory
    else (counted, err_unknown)

-- TIMM_OSAL_ReadFromPipe, with `timeout == TIMM_OSAL_NO_SUSPEND`: the bytes that are given, and
-- `*actualSize` if it is set.
unfoldable pub read_from_pipe : System → Pipe → ℕ → Bool → Pipe × OsalError × List ℕ × Option ℕ
read_from_pipe os pipe size no_suspend =
    let n = as_word (os.read pipe.bytes size) in
    let given = bytes_read os pipe.bytes size in
    let left = record pipe { bytes = bytes_left os pipe.bytes size } in
    if size == 0
    then (pipe, err_parameter, [], none)
    else if pipe.message_count == 0 && no_suspend
    then (pipe, err_pipe_empty, [], none)
    else if n == 0
    then (left, err_parameter, given, some n)
    else (
      record left {
        message_count = decrement pipe.message_count;
        total_bytes_in_pipe = subtract pipe.total_bytes_in_pipe size;
      },
      err_none,
      given,
      some n,
    )

-- TIMM_OSAL_ClearPipe, which does nothing.
unfoldable pub clear_pipe : Pipe → Pipe × OsalError
clear_pipe pipe = (pipe, err)

-- TIMM_OSAL_IsPipeReady: `messageCount <= 0` as a signed number.
unfoldable pub is_pipe_ready : Pipe → OsalError
is_pipe_ready pipe =
    if pipe.message_count == 0 || leb (2 ^ 31) pipe.message_count then err_not_ready else err_none

-- TIMM_OSAL_GetPipeReadyMessageCount.
unfoldable pub get_pipe_ready_message_count : Pipe → OsalError × ℕ
get_pipe_ready_message_count pipe = (err_none, pipe.message_count)
