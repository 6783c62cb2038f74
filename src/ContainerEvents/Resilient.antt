-- ===== src/ContainerEvents/Resilient.antt =====
-- The loop of `container_event_listener` in container_event_handler.py, against any events.
use public_endorsement_servi.Base.{
  append_assoc, ◌≡◌, refl, sym, ap, ◌∙◌, true, false, Option, none, some, List, [], ◌∷◌, ◌++◌, ◌⊎◌,
  inl, inr, Bool-cases, Text, chars, text_eq, text_eq_iff, All, cut, strip, Outcome, ok, raised,
  exited, value_error, is_value_error, map, flatten,
}
use public_endorsement_servi.Base.Integers.{ℤ, pos, int_le}
use public_endorsement_servi.Base.Decimal.{parse_int, parse_int-cases}
use public_endorsement_servi.ContainerEvents.Listener.{
  Message, bad_end, unknown_event, malformed, latency_message, or_bad_end, end_time_messages,
  handle_entrypoint_end_time_ms, dispatch, process_container_event, Turn, handle_received, listen,
}

module _ (from_timestamp : ℤ → Outcome Text) (start_time_env : Option Text) where
  -- The conversion of a timestamp gives a text, or fails with a ValueError.
  abbrev pub Converts : ℤ → Type 0
  Converts ts =
      ((text : Text) × (from_timestamp ts ≡ ok text))
      ⊎ ((s : Text) × (from_timestamp ts ≡ raised (value_error s)))

  end_time_caught :
      (ts : ℤ)
      → Converts ts
      → (messages : List Message) × (or_bad_end (end_time_messages from_timestamp start_time_env ts)
          ≡ ok messages)
  unfolding or_bad_end end_time_messages is_value_error
  end_time_caught ts converts = elim (Bool-cases (int_le (pos 0) ts)) [
    | inr f ↦ (bad_end ∷ [], rw (f, or_bad_end, end_time_messages) refl)
    | inl t ↦ elim converts [
      | inl (text, e) ↦
          (latency_message ts start_time_env ∷ [], rw (t, e, or_bad_end, end_time_messages) refl)
      | inr (s, e) ↦ (bad_end ∷ [], rw (t, e, or_bad_end, end_time_messages) refl)
    ]
  ]

  handle_total :
      (value : Text)
      → ((ts : ℤ) → parse_int (strip value) ≡ ok ts → Converts ts)
      → (messages : List Message) × (handle_entrypoint_end_time_ms from_timestamp start_time_env
            value
          ≡ ok messages)
  unfolding handle_entrypoint_end_time_ms or_bad_end is_value_error
  handle_total value converts = elim (parse_int-cases (strip value)) [
    | inl (ts, e) ↦
        let (messages, f) = end_time_caught ts (converts ts e) in
        (messages, rw (e, handle_entrypoint_end_time_ms) f)
    | inr e ↦ (bad_end ∷ [], rw (e, handle_entrypoint_end_time_ms) refl)
  ]

  dispatch_total :
      (event : Text × Option Text)
      → ((value : Text) (ts : ℤ)
          → event ≡ (chars "entrypoint_end_time_ms", some value)
          → parse_int (strip value) ≡ ok ts
          → Converts ts)
      → (messages : List Message) × (dispatch from_timestamp start_time_env event ≡ ok messages)
  unfolding dispatch
  dispatch_total (text, none) converts = (malformed text ∷ [], refl)
  dispatch_total (name, some value) converts =
      elim (Bool-cases (text_eq name (chars "entrypoint_end_time_ms"))) [
        | inl y ↦
            let same : name ≡ chars "entrypoint_end_time_ms" = (text_eq_iff name _).0 y in
            let (messages, e) =
              handle_total value
                (λ ts h. converts value ts (ap (λ (t : Text). (t, some value)) same) h) in
            (messages, rw (y, dispatch) e)
        | inr n ↦ (unknown_event name ∷ [], rw (n, dispatch) refl)
      ]

  module _ (decode : Text → Text) where
    -- What an event logs by itself.
    unfoldable pub event_messages : Text → List Message
    unfolding process_container_event
    event_messages [] = []
    event_messages (b ∷ bytes) =
        elim (process_container_event from_timestamp start_time_env decode (b ∷ bytes)) [
          | ok messages ↦ messages
          | raised e ↦ []
          | exited n ↦ []
        ]

    -- A turn in which the event is not set and `bytes` are received.
    abbrev pub received_turn : Text → Turn from_timestamp start_time_env decode
    received_turn bytes = record { is_set = false; received = ok bytes; is_set_after = false }

    -- A timestamp that `bytes` announce, if any, converts to a text or fails with a ValueError.
    abbrev pub IsInRange : Text → Type 0
    IsInRange bytes =
        (value : Text) (ts : ℤ)
        → cut b':' (strip (decode bytes)) ≡ (chars "entrypoint_end_time_ms", some value)
        → parse_int (strip value) ≡ ok ts
        → Converts ts

    process_total :
        (bytes : Text)
        → IsInRange bytes
        → (messages : List Message) × (process_container_event from_timestamp start_time_env decode
              bytes
            ≡ ok messages)
    unfolding process_container_event
    process_total bytes converts = dispatch_total (cut b':' (strip (decode bytes))) converts

    handle_received-eq :
        (bytes : Text)
        → IsInRange bytes
        → handle_received from_timestamp start_time_env decode (ok bytes) false
          ≡ (event_messages bytes, true)
    unfolding handle_received event_messages
    handle_received-eq [] converts = refl
    handle_received-eq (b ∷ bytes) converts =
        let (messages, e) = process_total (b ∷ bytes) converts in
        rw (e, handle_received, event_messages) refl

    -- Where each timestamp that an event announces converts to a text or fails with a ValueError, no
    -- event stops the listener, be it malformed, unknown or with a bad timestamp: as long as
    -- connections come and the listener is not cancelled, each event logs what it logs by itself, in
    -- order, and the loop goes on with the turns that follow.
    pub listen-events :
        (events : List Text) (turns : List (Turn from_timestamp start_time_env decode))
        → All IsInRange events
        → listen from_timestamp start_time_env decode (map received_turn events ++ turns)
          ≡ flatten (map event_messages events) ++ listen from_timestamp start_time_env decode turns
    unfolding listen
    listen-events [] turns h = refl
    listen-events (bytes ∷ events) turns h =
        let rest = listen from_timestamp start_time_env decode turns in
        rw (handle_received-eq bytes h.0, listen-events events turns h.1)
          (ap (λ r. r.0 ++ (flatten (map event_messages events) ++ rest))
              (handle_received-eq bytes h.0)
            ∙ sym (append_assoc (event_messages bytes) (flatten (map event_messages events)) rest))
