-- ===== src/ContainerEvents/Listener.antt =====
-- container_event_handler.py: the events that the container sends, and the loop that listens.
use public_endorsement_servi.Base.{
  Bool, true, false, Option, none, some, List, [], ◌∷◌, ◌++◌, if◌then◌else◌, Text, chars, text_eq,
  cut, strip, Outcome, ok, raised, exited, value_error, is_value_error, ◌>>=◌,
}
use public_endorsement_servi.Base.Integers.{ℤ, pos, int_le, int_sub}
use public_endorsement_servi.Base.Decimal.{parse_int}

-- What is logged, besides the progress messages.
pub data Message : Type 0 where
  latency : ℤ → Message
  bad_start : Text → Message
  no_start : Message
  bad_end : Message
  unknown_event : Text → Message
  malformed : Text → Message
  listener_error : Message

-- The part on the environment's DEVKIT_START_TIME_MS.
unfoldable pub latency_message : ℤ → Option Text → Message
unfolding parse_int int_sub
latency_message ts_end none = no_start
latency_message ts_end (some []) = no_start
latency_message ts_end (some (c ∷ start)) = elim (parse_int (c ∷ start)) [
  | ok ts_start ↦ latency (int_sub ts_end ts_start)
  | raised e ↦ bad_start (c ∷ start)
  | exited n ↦ bad_start (c ∷ start)
]

-- except ValueError
unfoldable pub or_bad_end : Outcome (List Message) → Outcome (List Message)
unfolding is_value_error
or_bad_end (ok messages) = ok messages
or_bad_end (raised e) = if is_value_error e then ok (bad_end ∷ []) else raised e
or_bad_end (exited n) = exited n

-- `from_timestamp` is what `datetime.fromtimestamp(ts / 1000, utc).isoformat()` comes to.
module _ (from_timestamp : ℤ → Outcome Text) (start_time_env : Option Text) where
  -- The body of the `try`, once the number is read.
  unfoldable pub end_time_messages : ℤ → Outcome (List Message)
  unfolding int_le latency_message
  end_time_messages ts_end =
      if int_le (pos 0) ts_end
      then (from_timestamp ts_end >>= λ iso_text. ok (latency_message ts_end start_time_env ∷ []))
      else raised (value_error (chars "Timestamp cannot be negative."))

  unfoldable pub handle_entrypoint_end_time_ms : Text → Outcome (List Message)
  unfolding parse_int strip end_time_messages or_bad_end
  handle_entrypoint_end_time_ms value =
      or_bad_end (parse_int (strip value) >>= λ ts_end. end_time_messages ts_end)

  -- The event's name and value; `none` if there is no ':'.
  unfoldable pub dispatch : Text × Option Text → Outcome (List Message)
  unfolding handle_entrypoint_end_time_ms text_eq
  dispatch (text, none) = ok (malformed text ∷ [])
  dispatch (event_name, some event_value) =
      if text_eq event_name (chars "entrypoint_end_time_ms")
      then handle_entrypoint_end_time_ms event_value
      else ok (unknown_event event_name ∷ [])

  -- `decode` is data.decode(errors="replace").
  module _ (decode : Text → Text) where
    unfoldable pub process_container_event : Text → Outcome (List Message)
    unfolding strip cut dispatch
    process_container_event bytes = dispatch (cut b':' (strip (decode bytes)))

    -- What one turn of the loop meets: whether the event is set before it, what accept and recv come
    -- to, and whether the event is set where an exception is handled.
    pub record Turn : Type 0 where
      pub is_set : Bool
      pub received : Outcome Text
      pub is_set_after : Bool

    -- How the listener ends: what it logged, and whether it closed the socket.
    pub record ListenerEnd : Type 0 where
      pub logged : List Message
      pub closed : Bool

    -- The two `except` clauses of the loop log an error unless the event is set; both leave.
    unfoldable pub failure_messages : Bool → List Message
    failure_messages true = []
    failure_messages false = listener_error ∷ []

    -- One turn, if data came: no data is skipped. `some` goes on, `none` leaves the loop.
    unfoldable pub handle_received : Outcome Text → Bool → List Message × Bool
    unfolding process_container_event failure_messages
    handle_received (raised e) set_after = (failure_messages set_after, false)
    handle_received (exited n) set_after = (failure_messages set_after, false)
    handle_received (ok []) set_after = ([], true)
    handle_received (ok (b ∷ bytes)) set_after = elim (process_container_event (b ∷ bytes)) [
      | ok messages ↦ (messages, true)
      | raised e ↦ (failure_messages set_after, false)
      | exited n ↦ (failure_messages set_after, false)
    ]

    -- `while not cancel_event.is_set()`, for the turns that a run meets.
    unfoldable pub listen : List Turn → List Message
    unfolding handle_received
    listen [] = []
    listen (turn ∷ turns) = elim (turn.is_set) [
      | true ↦ []
      | false ↦
          let (messages, goes_on) = handle_received turn.received turn.is_set_after in
          elim goes_on [ true ↦ messages ++ listen turns | false ↦ messages ]
    ]

    -- `listening` tells whether `listen(1)` succeeded; `finally` closes the socket.
    unfoldable pub container_event_listener : Bool → List Turn → ListenerEnd
    unfolding listen
    container_event_listener true turns = record { logged = listen turns; closed = true }
    container_event_listener false turns = record { logged = listener_error ∷ []; closed = true }
