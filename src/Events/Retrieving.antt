-- ===== src/Events/Retrieving.antt =====
-- domx/mm_osal/src/timm_osal_events.c: what TIMM_OSAL_EventRetrieve gives.
use camerahal.Common.{
  ℕ, ◌≡◌, ◌≢◌, ◌⊎◌, inl, inr, refl, sym, ap, subst, ◌∙◌, Bool, true, false, Bool-cases, Option,
  none, some, List, [], ◌∷◌, ◌==◌, if◌then◌else◌, arith,
}
use camerahal.Pipes.{err_none, err_unknown}
use camerahal.Events.{
  EventOperation, EventGroup, no_suspend, suspend, consumes, isolated_flags, turns, Wait,
  WaitStatus, woken, timed_out, failed, wait_forever, wait_until, timed_end, Retrieval, consumed,
  finish, waited_forever, waited_until, event_retrieve,
}

-- The flags satisfy the request, and stay or are consumed.
abbrev pub Received : ℕ → EventOperation → ℕ → EventGroup → Type 0
Received requested operation events event =
    (isolated_flags events requested operation ≡ true)
    × (event.flags ≡ (if consumes operation then 0 else events))

-- A loop ends in this round, or in a later one.
this_round :
    (ready : Bool) (event end : EventGroup) (rest : Option EventGroup) {Goal : Type 0}
    → (if ready then some event else rest) ≡ some end
    → (ready ≡ true → event ≡ end → Goal)
    → (rest ≡ some end → Goal)
    → Goal
this_round true event end rest e now later = now refl cc
this_round false event end rest e now later = later e

this_timed_round :
    (status : WaitStatus) (ready : Bool) (event end : EventGroup)
    (rest : Option (WaitStatus × EventGroup)) {Goal : Type 0}
    → timed_end status ready event rest ≡ some (woken, end)
    → (ready ≡ true → event ≡ end → Goal)
    → (rest ≡ some (woken, end) → Goal)
    → Goal
unfolding timed_end
this_timed_round woken true event end rest e now later = now refl cc
this_timed_round woken false event end rest e now later = later e
this_timed_round timed_out ready event end rest e now later =
    absurd (let f : timed_out ≡ woken = cc in cc)
this_timed_round failed ready event end rest e now later =
    absurd (let f : failed ≡ woken = cc in cc)

-- Both loops end only with flags that satisfy the request, the one with a timeout when it was woken.
module _ (requested : ℕ) (operation : EventOperation) where
  wait_forever-ready :
      (ws : List Wait) (event end : EventGroup)
      → wait_forever ws event requested operation ≡ some end
      → isolated_flags end.flags requested operation ≡ true
  unfolding wait_forever
  wait_forever-ready [] event end e = absurd cc
  wait_forever-ready (w ∷ ws) event end e =
      let event' = turns event w.meanwhile in
      this_round (isolated_flags event'.flags requested operation) event' end
        (wait_forever ws event' requested operation) e
        (λ r same. subst (λ v. isolated_flags v.flags requested operation ≡ true) same r)
        (wait_forever-ready ws event' end)

  wait_until-ready :
      (ws : List Wait) (event end : EventGroup)
      → wait_until ws event requested operation ≡ some (woken, end)
      → isolated_flags end.flags requested operation ≡ true
  unfolding wait_until
  wait_until-ready [] event end e = absurd cc
  wait_until-ready (w ∷ ws) event end e =
      let event' = turns event w.meanwhile in
      this_timed_round w.status (isolated_flags event'.flags requested operation) event' end
        (wait_until ws event' requested operation) e
        (λ r same. subst (λ v. isolated_flags v.flags requested operation ≡ true) same r)
        (wait_until-ready ws event' end)

pick : {A : Type 0} → (b : Bool) (x y z : A) → b ≡ true → (if b then x else y) ≡ z → x ≡ z
pick true x y z t e = e
pick false x y z t e = absurd cc

skip : {A : Type 0} → (b : Bool) (x y z : A) → b ≡ false → (if b then x else y) ≡ z → y ≡ z
skip true x y z f e = absurd cc
skip false x y z f e = e

-- What is returned, with the group and the events.
abbrev Returned : Option Retrieval → EventGroup → ℕ → Type 0
Returned r event events = r ≡ some (err_none, some event, some events)

finished :
    (requested : ℕ) (operation : EventOperation) (event event' : EventGroup) (events : ℕ)
    → isolated_flags event.flags requested operation ≡ true
    → Returned (some (finish operation true err_none event true (some event.flags))) event' events
    → Received requested operation events event'
unfolding finish
finished requested operation event event' events ready e =
    let same : consumed operation true event ≡ event' = cc in
    let same' : event.flags ≡ events = cc in
    let kept : (consumed operation true event).flags
        ≡ (if consumes operation then 0 else event.flags) =
      ground arith in
    (
      subst (λ f. isolated_flags f requested operation ≡ true) same' ready,
      ap (λ v. v.flags) (sym same) ∙ kept ∙ ap (λ f. if consumes operation then 0 else f) same',
    )

forever-Received :
    (requested : ℕ) (operation : EventOperation) (o : Option EventGroup) (event' : EventGroup)
    (events : ℕ)
    → ((end : EventGroup) → o ≡ some end → isolated_flags end.flags requested operation ≡ true)
    → Returned (waited_forever operation true o) event' events
    → Received requested operation events event'
unfolding waited_forever
forever-Received requested operation none event' events ready e = absurd cc
forever-Received requested operation (some end) event' events ready e =
    finished requested operation end event' events (ready end refl) e

until-nothing :
    (operation : EventOperation) (o : Option (WaitStatus × EventGroup)) (event' : EventGroup)
    (events : ℕ)
    → Returned (waited_until operation true o) event' events
    → events ≡ 0
unfolding waited_until finish
until-nothing operation none event' events e = absurd cc
until-nothing operation (some (woken, end)) event' events e =
    absurd (let f : err_unknown ≡ err_none = cc in cc)
until-nothing operation (some (timed_out, end)) event' events e = cc
until-nothing operation (some (failed, end)) event' events e = cc

-- When a retrieval returns without an error and pthread does not fail: the events that it gives satisfy
-- the request, and the flags of the group are these events, or 0 if the request consumes them; or it
-- gives 0, which a call that waits without a timeout does not.
pub event_retrieve-Received :
    (event event' : EventGroup) (requested : ℕ) (operation : EventOperation) (timeout : ℕ)
    (ws : List Wait) (events : ℕ)
    → event_retrieve (some event) true true requested operation timeout ws
      ≡ some (err_none, some event', some events)
    → Received requested operation events event' ⊎ ((events ≡ 0) × (timeout ≢ suspend))
unfolding event_retrieve
event_retrieve-Received event event' requested operation timeout ws events e =
    elim (Bool-cases (isolated_flags event.flags requested operation)) [
      | inl ready ↦
          inl (finished requested operation event event' events ready (pick _ _ _ _ ready e))
      | inr not_yet ↦
          let e1 = skip _ _ _ _ not_yet e in
          elim (Bool-cases (timeout == no_suspend)) [
            | inl now ↦
                let e2 = pick _ _ _ _ now e1 in
                inr ((let zero_events : 0 ≡ events = cc in sym zero_events), ground arith)
            | inr later ↦
                let e2 = skip _ _ _ _ later e1 in
                elim (Bool-cases (timeout == suspend)) [
                  | inl forever ↦ inl (
                      forever-Received requested operation
                        (wait_forever ws event requested operation) event' events
                        (wait_forever-ready requested operation ws event) (pick _ _ _ _ forever e2))
                  | inr limited ↦ inr (
                    until-nothing operation (wait_until ws event requested operation) event' events
                        (skip _ _ _ _ limited e2),
                    ground arith,
                  )
                ]
          ]
    ]

-- How a call with a timeout ends that has to wait.
abbrev pub EndsLimited : ℕ → EventOperation → Retrieval → Type 0
EndsLimited requested operation (error, event, retrieved) =
    ((error ≡ err_none) × (retrieved ≡ some 0))
    ⊎ ((error ≡ err_unknown) × (retrieved ≡ some 0))
    ⊎ ((error ≡ err_unknown)
        × (retrieved ≡ none)
        × (end : EventGroup) × (isolated_flags end.flags requested operation ≡ true)
        × (event ≡ some (consumed operation true end)))

same_result : (r r' : Retrieval) → some r ≡ some r' → r ≡ r'
same_result r r' e = cc

until-EndsLimited :
    (requested : ℕ) (operation : EventOperation) (o : Option (WaitStatus × EventGroup))
    (r : Retrieval)
    → ((end : EventGroup)
        → o ≡ some (woken, end)
        → isolated_flags end.flags requested operation ≡ true)
    → waited_until operation true o ≡ some r
    → EndsLimited requested operation r
unfolding waited_until finish
until-EndsLimited requested operation none r ready e = absurd cc
until-EndsLimited requested operation (some (woken, end)) r ready e =
    subst (EndsLimited requested operation) (same_result _ _ e)
      (inr (inr (refl, refl, end, ready end refl, refl)))
until-EndsLimited requested operation (some (timed_out, end)) r ready e =
    subst (EndsLimited requested operation) (same_result _ _ e) (inl (refl, refl))
until-EndsLimited requested operation (some (failed, end)) r ready e =
    subst (EndsLimited requested operation) (same_result _ _ e) (inr (inl (refl, refl)))

-- A retrieval with a timeout that has to wait never gives events: it gives 0, or it is woken by flags that
-- satisfy the request, returns an error all the same, writes no events, and still consumes the flags
-- if the request says so.
pub event_retrieve-EndsLimited :
    (event : EventGroup) (requested : ℕ) (operation : EventOperation) (timeout : ℕ) (ws : List Wait)
    (r : Retrieval)
    → isolated_flags event.flags requested operation ≡ false
    → timeout ≢ no_suspend
    → timeout ≢ suspend
    → event_retrieve (some event) true true requested operation timeout ws ≡ some r
    → EndsLimited requested operation r
unfolding event_retrieve
event_retrieve-EndsLimited event requested operation timeout ws r not_yet later limited e =
    let later' : (timeout == no_suspend) ≡ false = ground arith in
    let limited' : (timeout == suspend) ≡ false = ground arith in
    until-EndsLimited requested operation (wait_until ws event requested operation) r
      (wait_until-ready requested operation ws event)
      (skip _ _ _ _ limited' (skip _ _ _ _ later' (skip _ _ _ _ not_yet e)))
