-- ===== src/Events/Waiting.antt =====
-- domx/mm_osal/src/timm_osal_events.c: a thread that waits without a timeout.
use camerahal.Common.{
  ℕ, ◌≡◌, inl, inr, refl, sym, ◌∙◌, Bool, true, false, Bool-cases, Option, none, some, List, [],
  ◌∷◌, if◌then◌else◌,
}
use camerahal.Pipes.{err_none}
use camerahal.Events.{
  EventOperation, EventGroup, suspend, isolated_flags, turns, Wait, wait_forever, consumed, finish,
  waited_forever, event_retrieve,
}

-- The group behind all waits.
abbrev pub after_waits : EventGroup → List Wait → EventGroup
after_waits event [] = event
after_waits event (w ∷ ws) = after_waits (turns event w.meanwhile) ws

ends_now :
    (ready : Bool) (event : EventGroup) (rest : Option EventGroup)
    → (ready ≡ false → (end : EventGroup) × (rest ≡ some end))
    → (end : EventGroup) × ((if ready then some event else rest) ≡ some end)
ends_now true event rest later = (event, refl)
ends_now false event rest later = later refl

wait_forever-ends :
    (w : Wait) (ws : List Wait) (event : EventGroup) (requested : ℕ) (operation : EventOperation)
    → isolated_flags (after_waits event (w ∷ ws)).flags requested operation ≡ true
    → (end : EventGroup) × (wait_forever (w ∷ ws) event requested operation ≡ some end)
unfolding wait_forever
wait_forever-ends w [] event requested operation ready =
    ends_now (isolated_flags (turns event w.meanwhile).flags requested operation)
      (turns event w.meanwhile) none (λ r. absurd (let f : true ≡ false = sym ready ∙ r in cc))
wait_forever-ends w (w' ∷ ws) event requested operation ready =
    let event' = turns event w.meanwhile in
    ends_now (isolated_flags event'.flags requested operation) event'
      (wait_forever (w' ∷ ws) event' requested operation)
      (λ r. wait_forever-ends w' ws event' requested operation ready)

-- A retrieval without a timeout returns, without an error, when the flags satisfy the request behind the
-- last of its waits, whatever the other threads did in them.
pub event_retrieve-Returns :
    (event : EventGroup) (requested : ℕ) (operation : EventOperation) (w : Wait) (ws : List Wait)
    → isolated_flags (after_waits event (w ∷ ws)).flags requested operation ≡ true
    → (event' : EventGroup) × (events : ℕ) × (event_retrieve
          (some event)
          true
          true
          requested
          operation
          suspend
          (w ∷ ws)
        ≡ some (err_none, some event', some events))
unfolding event_retrieve waited_forever finish
event_retrieve-Returns event requested operation w ws ready =
    let (end, e) = wait_forever-ends w ws event requested operation ready in
    elim (Bool-cases (isolated_flags event.flags requested operation)) [
      | inl now ↦ (consumed operation true event, event.flags, rw now refl)
      | inr later ↦ (consumed operation true end, end.flags, rw (later, e) refl)
    ]
