-- ===== src/ContainerEvents/Cancel.antt =====
-- The cancellation of the listener in container_event_handler.py: `SocketCancelEvent` in one thread
-- and `container_event_listener` in another, step by step. Both `accept` and `recv` can block, and both
-- can fail.
use public_endorsement_servi.Base.{ℕ, suc, Bool, true, false}

-- Where the listener stands: before the test of the loop, in `accept`, in `recv` on a connection, in
-- one of the `except` clauses, or behind the loop with the socket closed.
pub data Place : Type 0 where
  testing accepting receiving failing left : Place

-- What the clients do while the listener takes a step: nothing, so that it waits; connect or send
-- what it waits for; or make the call, or the handling of the event, fail.
pub data Input : Type 0 where
  silent speaks breaks : Input

-- Where `set` stands: not called, between its two statements, or done.
pub data Canceller : Type 0 where
  idle must_shut finished : Canceller

pub record Threads : Type 0 where
  pub event : Bool
  pub shut : Bool
  pub place : Place
  pub canceller : Canceller
  pub errors : ℕ

-- What `start_container_event_handler` sets up.
abbrev pub start_container_event_handler : Threads
start_container_event_handler = record {
  event = false;
  shut = false;
  place = testing;
  canceller = idle;
  errors = 0;
}

abbrev pub moved : Threads → Place → Threads
moved t place = record {
  event = t.event;
  shut = t.shut;
  place = place;
  canceller = t.canceller;
  errors = t.errors;
}

-- if cancel_event.is_set(): break, with an error logged otherwise
unfoldable pub leave : Bool → Threads → Threads
leave true t = moved t left
leave false t = record {
  event = t.event;
  shut = t.shut;
  place = left;
  canceller = t.canceller;
  errors = suc t.errors;
}

-- while not cancel_event.is_set()
unfoldable pub test_event : Bool → Threads → Threads
test_event true t = moved t left
test_event false t = moved t accepting

-- server_socket.accept(): it fails on a socket that is shut down, or for another reason, or a
-- connection comes, or it waits.
unfoldable pub accept : (shut : Bool) → Input → Threads → Threads
accept true input t = moved t failing
accept false silent t = t
accept false speaks t = moved t receiving
accept false breaks t = moved t failing

-- conn.recv(1024) and the handling of what came. The shutdown is that of the listening socket, so it
-- does not wake a `recv` that waits.
unfoldable pub receive : Input → Threads → Threads
receive silent t = t
receive speaks t = moved t testing
receive breaks t = moved t failing

unfoldable pub listener_at : Place → Input → Threads → Threads
unfolding test_event accept receive leave
listener_at testing input t = test_event t.event t
listener_at accepting input t = accept t.shut input t
listener_at receiving input t = receive input t
listener_at failing input t = leave t.event t
listener_at left input t = t

-- One step of the listener.
unfoldable pub listener_step : Input → Threads → Threads
unfolding listener_at
listener_step input t = listener_at t.place input t

-- One step of `set`: the event first, then the socket, whose OSError is ignored.
unfoldable pub cancel_at : Canceller → Bool → Threads → Threads
cancel_at idle os_error t = record {
  event = true;
  shut = t.shut;
  place = t.place;
  canceller = must_shut;
  errors = t.errors;
}
cancel_at must_shut false t = record {
  event = t.event;
  shut = true;
  place = t.place;
  canceller = finished;
  errors = t.errors;
}
cancel_at must_shut true t = record {
  event = t.event;
  shut = t.shut;
  place = t.place;
  canceller = finished;
  errors = t.errors;
}
cancel_at finished os_error t = t

unfoldable pub cancel_step : Bool → Threads → Threads
unfolding cancel_at
cancel_step os_error t = cancel_at t.canceller os_error t

-- The two threads in any order.
pub data Step : Threads → Threads → Type 0 where
  listens : (input : Input) (t : Threads) → Step t (listener_step input t)
  cancels : (os_error : Bool) (t : Threads) → Step t (cancel_step os_error t)

pub data Reach (s : Threads) : Threads → Type 0 where
  here : Reach s s
  next : {t u : Threads} → Reach s t → Step t u → Reach s u
