-- ===== src/Notices/Stream.antt =====
-- `Stream` of service/notificationHandler.go: a connection that stays open and is sent the live items.
--
-- A script says what happens in turn: what the `select` of the loop takes, and what other
-- goroutines do to the bus in between. The request's context is done at the script's end.
use host_container.Prelude.{
  ℕ, String, Bool, Option, none, some, List, [], ◌∷◌, ◌++◌, if◌then◌else◌, not, str_eq,
}
use host_container.Bus.{
  Notification, Bus, Received, item, zero_value, blocked, subscribe, unsubscribe, receive,
}
use host_container.Bus.Delivery.{Call, call}

pub data Wake : Type 0 where
  received ticked : Wake
  meanwhile : Call → Wake

pub data Frame : Type 0 where
  notification : Notification → Frame
  empty_notification : Frame
  heartbeat : Frame

-- What `<-ch` writes; where it would block, the `select` does not take it.
abbrev pub frames_of : Received → List Frame
frames_of (item n) = notification n ∷ []
frames_of zero_value = empty_notification ∷ []
frames_of blocked = []

-- What was written, and the bus after the deferred `cancel`; a panic is `none`.
unfoldable pub stream_loop : String → ℕ → List Wake → List Frame → Bus → Option (List Frame × Bus)
stream_loop user ch [] sent b = elim (unsubscribe user ch b) [
  | none ↦ none
  | some b' ↦ some (sent, b')
]
stream_loop user ch (received ∷ ws) sent b =
    let (r, b') = receive ch b in stream_loop user ch ws (sent ++ frames_of r) b'
stream_loop user ch (ticked ∷ ws) sent b = stream_loop user ch ws (sent ++ heartbeat ∷ []) b
stream_loop user ch (meanwhile c ∷ ws) sent b = elim (call c b) [
  | none ↦ none
  | some b' ↦ stream_loop user ch ws sent b'
]

pub data Opened : Type 0 where
  unauthorized not_supported panicked : Opened
  streamed : List Frame → Opened

-- The bus stays as it is where the stream is refused.
unfoldable pub stream : Option String → Bool → List Wake → Bus → Opened × Bus
stream user flushes ws b = elim user [
  | none ↦ (unauthorized, b)
  | some u ↦
      if str_eq u ""
      then (unauthorized, b)
      else if not flushes
      then (not_supported, b)
      else let (ch, b1) = subscribe u b in
        elim (stream_loop u ch ws [] b1) [
          | none ↦ (panicked, b)
          | some (sent, b2) ↦ (streamed sent, b2)
        ]
]
