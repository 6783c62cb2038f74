-- ===== src/ContainerEvents/Quiet.antt =====
-- The listener of container_event_handler.py and its cancellation, in any interleaving.
use public_endorsement_servi.Base.{◌≡◌, refl, ◌⊎◌, inl, inr, Bool, true, false}
use public_endorsement_servi.ContainerEvents.Cancel.{
  Place, testing, accepting, receiving, failing, left, Input, silent, speaks, breaks, Canceller,
  idle, must_shut, finished, Threads, moved, leave, test_event, accept, receive, listener_at,
  listener_step, cancel_at, cancel_step, Step, listens, cancels, Reach, here, next,
  start_container_event_handler,
}

-- The event is set wherever the socket is shut down or `set` was called.
pub record IsSetFirst (t : Threads) : Type 0 where
  pub event_first : t.shut ≡ true → t.event ≡ true
  pub called : t.canceller ≡ must_shut → t.event ≡ true

moved-IsSetFirst : (t : Threads) (place : Place) → IsSetFirst t → IsSetFirst (moved t place)
moved-IsSetFirst t place q = record { event_first = q.event_first; called = q.called }

test_event-IsSetFirst : (b : Bool) (t : Threads) → IsSetFirst t → IsSetFirst (test_event b t)
unfolding test_event
test_event-IsSetFirst true t q = moved-IsSetFirst t left q
test_event-IsSetFirst false t q = moved-IsSetFirst t accepting q

accept-IsSetFirst :
    (b : Bool) (input : Input) (t : Threads) → IsSetFirst t → IsSetFirst (accept b input t)
unfolding accept
accept-IsSetFirst true input t q = moved-IsSetFirst t failing q
accept-IsSetFirst false silent t q = q
accept-IsSetFirst false speaks t q = moved-IsSetFirst t receiving q
accept-IsSetFirst false breaks t q = moved-IsSetFirst t failing q

receive-IsSetFirst : (input : Input) (t : Threads) → IsSetFirst t → IsSetFirst (receive input t)
unfolding receive
receive-IsSetFirst silent t q = q
receive-IsSetFirst speaks t q = moved-IsSetFirst t testing q
receive-IsSetFirst breaks t q = moved-IsSetFirst t failing q

leave-IsSetFirst : (b : Bool) (t : Threads) → IsSetFirst t → IsSetFirst (leave b t)
unfolding leave
leave-IsSetFirst true t q = moved-IsSetFirst t left q
leave-IsSetFirst false t q = record { event_first = q.event_first; called = q.called }

listener_at-IsSetFirst :
    (place : Place) (input : Input) (t : Threads)
    → IsSetFirst t
    → IsSetFirst (listener_at place input t)
unfolding listener_at
listener_at-IsSetFirst testing input t q = test_event-IsSetFirst t.event t q
listener_at-IsSetFirst accepting input t q = accept-IsSetFirst t.shut input t q
listener_at-IsSetFirst receiving input t q = receive-IsSetFirst input t q
listener_at-IsSetFirst failing input t q = leave-IsSetFirst t.event t q
listener_at-IsSetFirst left input t q = q

cancel_at-IsSetFirst :
    (canceller : Canceller) (os_error : Bool) (t : Threads)
    → t.canceller ≡ canceller
    → IsSetFirst t
    → IsSetFirst (cancel_at canceller os_error t)
unfolding cancel_at
cancel_at-IsSetFirst idle os_error t e q = record { event_first = λ h. refl; called = λ h. refl }
cancel_at-IsSetFirst must_shut false t e q = record {
  event_first = λ h. q.called e;
  called = λ h. cc;
}
cancel_at-IsSetFirst must_shut true t e q = record { event_first = q.event_first; called = λ h. cc }
cancel_at-IsSetFirst finished os_error t e q = q

Step-IsSetFirst : {t u : Threads} → Step t u → IsSetFirst t → IsSetFirst u
unfolding listener_step cancel_step
Step-IsSetFirst (listens input t) q = listener_at-IsSetFirst t.place input t q
Step-IsSetFirst (cancels os_error t) q = cancel_at-IsSetFirst t.canceller os_error t refl q

start-IsSetFirst : IsSetFirst start_container_event_handler
start-IsSetFirst = record { event_first = λ h. cc; called = λ h. cc }

Reach-IsSetFirst : {t : Threads} → Reach start_container_event_handler t → IsSetFirst t
Reach-IsSetFirst here = start-IsSetFirst
Reach-IsSetFirst (next r st) = Step-IsSetFirst st (Reach-IsSetFirst r)

-- Two steps of a listener, the first with the input `a`: no error is logged, and they leave the loop
-- or the listener waits for a client in `recv`.
unfoldable pub IsLeaving : Threads → Input → Threads → Type 0
unfolding listener_step
IsLeaving t a end =
    (end.errors ≡ t.errors)
    × ((end.place ≡ left) ⊎ ((t.place ≡ receiving) × (a ≡ silent) × (listener_step a t ≡ t)))

ends_at :
    (place : Place) (a b : Input) (t : Threads)
    → t.place ≡ place
    → t.shut ≡ true
    → t.event ≡ true
    → IsLeaving t a (listener_step b (listener_step a t))
unfolding IsLeaving listener_step listener_at test_event accept receive leave
ends_at testing a b t e s y = (rw (e, y) refl, inl (rw (e, y) refl))
ends_at accepting a b t e s y = (rw (e, s, y) refl, inl (rw (e, s, y) refl))
ends_at receiving silent silent t e s y = (rw (e) refl, inr (e, refl, rw e refl))
ends_at receiving silent speaks t e s y = (rw (e) refl, inr (e, refl, rw e refl))
ends_at receiving silent breaks t e s y = (rw (e) refl, inr (e, refl, rw e refl))
ends_at receiving speaks b t e s y = (rw (e, y) refl, inl (rw (e, y) refl))
ends_at receiving breaks b t e s y = (rw (e, y) refl, inl (rw (e, y) refl))
ends_at failing a b t e s y = (rw (e, y) refl, inl (rw (e, y) refl))
ends_at left a b t e s y = (rw (e) refl, inl (rw (e) refl))

-- Whenever the listening socket is shut down in a run of the two threads, the event was set before.
-- Two more steps of the listener log no error, whatever the clients do, and they bring it out of its
-- loop, unless it is in `recv` on a connection whose client stays silent: there it waits on.
pub Reach-left :
    (t : Threads) (a b : Input)
    → Reach start_container_event_handler t
    → t.shut ≡ true
    → (t.event ≡ true)
      × ((listener_step b (listener_step a t)).errors ≡ t.errors)
      × (((listener_step b (listener_step a t)).place ≡ left)
          ⊎ ((t.place ≡ receiving) × (a ≡ silent) × (listener_step a t ≡ t)))
unfolding IsLeaving
Reach-left t a b r s =
    let set = (Reach-IsSetFirst r).event_first s in
    let (quiet, leaving) = ends_at t.place a b t refl s set in (set, quiet, leaving)
