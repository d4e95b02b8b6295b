-- ===== src/Events.antt =====
-- domx/mm_osal/src/timm_osal_events.c: event groups, whose flags some threads set and others wait for.
pub mod Retrieving
pub mod Waiting
pub mod Deadline
pub mod Tests
use Prim.Native.Nat.{bit_and, bit_or}
use camerahal.Common.{
  ℕ, ◌+◌, ◌*◌, ◌%◌, ◌/◌, ◌^◌, Bool, true, false, not, ◌&&◌, ◌||◌, Option, none, some, List, [], ◌∷◌,
  ◌==◌, if◌then◌else◌,
}
use camerahal.Pipes.{OsalError, err_none, err_alloc, err_parameter, err_unknown}

pub data EventOperation : Type 0 where
  event_and event_and_consume event_or event_or_consume : EventOperation

-- TIMM_OSAL_THREAD_EVENT. The mutex orders the calls; a wait lets others in.
pub record EventGroup : Type 0 where
  pub signaled : Bool
  pub flags : ℕ

abbrev pub no_suspend : ℕ
no_suspend = 0

abbrev pub suspend : ℕ
suspend = 0xffffffff

-- TIMM_OSAL_EventCreate, with whether the heap, pthread_mutex_init and pthread_cond_init succeed.
unfoldable pub event_create : Bool → Bool → Bool → OsalError × Option EventGroup
event_create false mutex condition = (err_alloc, none)
event_create true false condition = (err_unknown, none)
event_create true true false = (err_unknown, none)
event_create true true true = (err_none, some (record { signaled = false; flags = 0 }))

-- TIMM_OSAL_EventDelete, with whether the four calls of pthread succeed; the group is freed in any case.
unfoldable pub event_delete : Option EventGroup → Bool → Bool → Bool → Bool → OsalError
event_delete none lock condition unlock mutex = err_parameter
event_delete (some event) lock condition unlock mutex =
    if lock && condition && unlock && mutex then err_none else err_unknown

-- The switch of TIMM_OSAL_EventSet.
abbrev pub combined : ℕ → ℕ → EventOperation → Option ℕ
combined flags event_flags event_and = some (bit_and flags event_flags)
combined flags event_flags event_or = some (bit_or flags event_flags)
combined flags event_flags event_and_consume = none
combined flags event_flags event_or_consume = none

set_to : EventGroup → Bool → Bool → Option ℕ → OsalError × EventGroup
set_to event signal unlock none = (err_parameter, event)
set_to event signal unlock (some flags) = (
  (if signal && unlock then err_none else err_unknown),
  record { signaled = true; flags = flags },
)

-- TIMM_OSAL_EventSet, with whether the calls of pthread that lock, signal and unlock succeed.
unfoldable pub set_event :
    EventGroup → Bool → Bool → Bool → ℕ → EventOperation → OsalError × EventGroup
unfolding set_to
set_event event false signal unlock event_flags operation = (err_unknown, event)
set_event event true signal unlock event_flags operation =
    set_to event signal unlock (combined event.flags event_flags operation)

unfoldable pub event_set :
    Option EventGroup → Bool → Bool → Bool → ℕ → EventOperation → OsalError × Option EventGroup
unfolding set_event
event_set none lock signal unlock event_flags operation = (err_parameter, none)
event_set (some event) lock signal unlock event_flags operation =
    let (error, event') = set_event event lock signal unlock event_flags operation in
    (error, some event')

abbrev and_operation : EventOperation → Bool
and_operation event_and = true
and_operation event_and_consume = true
and_operation event_or = false
and_operation event_or_consume = false

abbrev pub consumes : EventOperation → Bool
consumes event_and = false
consumes event_and_consume = true
consumes event_or = false
consumes event_or_consume = true

-- isolatedFlags as a truth value.
unfoldable pub isolated_flags : ℕ → ℕ → EventOperation → Bool
isolated_flags flags requested operation =
    if and_operation operation
    then bit_and flags requested == requested
    else not (bit_and flags requested == 0)

-- What another thread does while one waits: it sets flags, or it retrieves and consumes them.
pub data Turn : Type 0 where
  sets : ℕ → EventOperation → Turn
  takes : Turn

abbrev pub turn : EventGroup → Turn → EventGroup
turn event (sets flags operation) = (set_event event true true true flags operation).1
turn event takes = record event { flags = 0 }

abbrev pub turns : EventGroup → List Turn → EventGroup
turns event [] = event
turns event (t ∷ ts) = turns (turn event t) ts

-- How a wait for the condition ends, and what happened during the wait.
pub data WaitStatus : Type 0 where
  woken timed_out failed : WaitStatus

pub record Wait : Type 0 where
  pub meanwhile : List Turn
  pub status : WaitStatus

-- The loop without a timeout, which does not look at the status of a wait. `none` when the caller still
-- waits at the end of the list.
unfoldable pub wait_forever : List Wait → EventGroup → ℕ → EventOperation → Option EventGroup
wait_forever [] event requested operation = none
wait_forever (w ∷ ws) event requested operation =
    let event' = turns event w.meanwhile in
    let rest = wait_forever ws event' requested operation in
    if isolated_flags event'.flags requested operation then some event' else rest

timed_end :
    WaitStatus
    → Bool
    → EventGroup
    → Option (WaitStatus × EventGroup)
    → Option (WaitStatus × EventGroup)
timed_end timed_out ready event rest = some (timed_out, event)
timed_end failed ready event rest = some (failed, event)
timed_end woken ready event rest = if ready then some (woken, event) else rest

-- The loop with a timeout.
unfoldable pub wait_until :
    List Wait → EventGroup → ℕ → EventOperation → Option (WaitStatus × EventGroup)
unfolding timed_end
wait_until [] event requested operation = none
wait_until (w ∷ ws) event requested operation =
    let event' = turns event w.meanwhile in
    let rest = wait_until ws event' requested operation in
    timed_end w.status (isolated_flags event'.flags requested operation) event' rest

-- What is returned: the error, the group, and what is written to pRetrievedEvents.
abbrev pub Retrieval : Type 0
Retrieval = OsalError × Option EventGroup × Option ℕ

-- The end of the call, where the flags are consumed, with whether the mutex is unlocked.
abbrev pub consumed : EventOperation → Bool → EventGroup → EventGroup
consumed operation ready event =
    if ready && consumes operation then record event { flags = 0 } else event

finish : EventOperation → Bool → OsalError → EventGroup → Bool → Option ℕ → Retrieval
finish operation unlock error event ready retrieved =
    ((if unlock then error else err_unknown), some (consumed operation ready event), retrieved)

waited_forever : EventOperation → Bool → Option EventGroup → Option Retrieval
unfolding finish
waited_forever operation unlock none = none
waited_forever operation unlock (some event) =
    some (finish operation unlock err_none event true (some event.flags))

-- Behind the loop with a timeout nothing is written for events that were received.
waited_until : EventOperation → Bool → Option (WaitStatus × EventGroup) → Option Retrieval
unfolding finish
waited_until operation unlock none = none
waited_until operation unlock (some (woken, event)) =
    some (finish operation unlock err_unknown event true none)
waited_until operation unlock (some (timed_out, event)) =
    some (finish operation unlock err_none event false (some 0))
waited_until operation unlock (some (failed, event)) =
    some (finish operation unlock err_unknown event false (some 0))

-- TIMM_OSAL_EventRetrieve with what happens in its waits, and whether pthread locks and unlocks.
unfoldable pub event_retrieve :
    Option EventGroup → Bool → Bool → ℕ → EventOperation → ℕ → List Wait → Option Retrieval
unfolding finish waited_forever waited_until
event_retrieve none lock unlock requested operation timeout ws = some (err_parameter, none, none)
event_retrieve (some event) false unlock requested operation timeout ws =
    some (err_unknown, some event, none)
event_retrieve (some event) true unlock requested operation timeout ws =
    if isolated_flags event.flags requested operation
    then some (finish operation unlock err_none event true (some event.flags))
    else if timeout == no_suspend
    then some (finish operation unlock err_none event false (some 0))
    else if timeout == suspend
    then waited_forever operation unlock (wait_forever ws event requested operation)
    else waited_until operation unlock (wait_until ws event requested operation)

-- The end of a wait with a timeout, in seconds and nanoseconds, from the time now in seconds and
-- microseconds; timeout_us is a 32-bit integer.
unfoldable pub timeout_us : ℕ → ℕ → ℕ
timeout_us now_us timeout = (now_us + 1000 * timeout) % 2 ^ 32

unfoldable pub deadline : ℕ → ℕ → ℕ → ℕ × ℕ
unfolding timeout_us
deadline now_s now_us timeout =
    (now_s + timeout_us now_us timeout / 1000000, timeout_us now_us timeout % 1000000 * 1000)
