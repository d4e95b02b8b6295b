-- ===== src/Events/Tests.antt =====
-- Runs of the event groups, and the theorems at concrete groups.
use camerahal.Common.{
  ◌/◌, ◌^◌, ◌<◌, ℕ, ◌+◌, ◌*◌, ◌≡◌, ◌≢◌, ◌⊎◌, refl, true, false, none, some, List, [], ◌∷◌, arith,
}
use camerahal.Pipes.{err_none, err_unknown, err_parameter}
use camerahal.Events.{
  event_and_consume, event_or, EventGroup, suspend, set_event, event_set, isolated_flags, sets,
  takes, Wait, woken, wait_forever, wait_until, event_retrieve, timeout_us, deadline,
}
use camerahal.Events.Retrieving.{
  Received, EndsLimited, event_retrieve-Received, event_retrieve-EndsLimited,
}
use camerahal.Events.Waiting.{event_retrieve-Returns, after_waits}
use camerahal.Events.Deadline.{nanoseconds, deadline-wraps}

abbrev one_flag : EventGroup
one_flag = record { signaled = true; flags = 1 }

-- Another thread takes the flags, and then sets the two that are asked for, one after the other.
abbrev waits : List Wait
waits =
    record { meanwhile = takes ∷ sets 2 event_or ∷ []; status = woken }
    ∷ record { meanwhile = sets 1 event_or ∷ []; status = woken }
    ∷ []

unfoldable events : Unit {0}
unfolding set_event event_set isolated_flags wait_forever wait_until event_retrieve timeout_us
    deadline
events = tt

consume_fails : (event_set (some one_flag) true true true 1 event_and_consume).0 ≡ err_parameter
unfolding events
consume_fails = refl

both_flags :
    event_retrieve (some one_flag) true true 3 event_and_consume suspend waits
    ≡ some (err_none, some (record { signaled = true; flags = 0 }), some 3)
unfolding events
both_flags = refl

both_flags_limited :
    event_retrieve (some one_flag) true true 3 event_and_consume 20 waits
    ≡ some (err_unknown, some (record { signaled = true; flags = 0 }), none)
unfolding events
both_flags_limited = refl

both_ready : isolated_flags (after_waits one_flag waits).flags 3 event_and_consume ≡ true
unfolding events
both_ready = refl

one_not_ready : isolated_flags 1 3 event_and_consume ≡ false
unfolding events
one_not_ready = refl

event_retrieve-Received_example :
    Received 3 event_and_consume 3 (record { signaled = true; flags = 0 })
    ⊎ (◌≡◌ {A = ℕ} 3 0 × (suspend ≢ suspend))
event_retrieve-Received_example =
    event_retrieve-Received one_flag (record { signaled = true; flags = 0 }) 3 event_and_consume
      suspend waits 3 both_flags

event_retrieve-EndsLimited_example :
    EndsLimited 3 event_and_consume
      (err_unknown, some (record { signaled = true; flags = 0 }), none)
event_retrieve-EndsLimited_example =
    event_retrieve-EndsLimited one_flag 3 event_and_consume 20 waits
      (err_unknown, some (record { signaled = true; flags = 0 }), none) one_not_ready (omega arith)
      (omega arith) both_flags_limited

event_retrieve-Returns_example :
    (event' : EventGroup) × (events : ℕ) × (event_retrieve
        (some one_flag)
        true
        true
        3
        event_and_consume
        suspend
        waits
      ≡ some (err_none, some event', some events))
event_retrieve-Returns_example =
    event_retrieve-Returns one_flag 3 event_and_consume
      (record { meanwhile = takes ∷ sets 2 event_or ∷ []; status = woken })
      (record { meanwhile = sets 1 event_or ∷ []; status = woken } ∷ []) both_ready

-- A timeout of 4,294,967 milliseconds ends before now.
wrapped_deadline : nanoseconds (deadline 7 999999 4294967) ≡ 7999703 * 1000
unfolding deadline timeout_us
wrapped_deadline = refl

deadline-wraps_example :
    (nanoseconds (deadline 7 999999 4294967) + (999999 + 1000 * 4294967) / 2 ^ 32 * 2 ^ 32 * 1000
      ≡ (7 * 1000000 + 999999 + 1000 * 4294967) * 1000)
    × ((deadline 7 999999 4294967).1 < 1000000 * 1000)
deadline-wraps_example = deadline-wraps 7 999999 4294967
