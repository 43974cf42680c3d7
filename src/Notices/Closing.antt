-- ===== src/Notices/Closing.antt =====
-- A stream that ends leaves no channel behind.
use host_container.Prelude.{
  ℕ, String, ◌≡◌, true, false, some, List, [], ◌∷◌, ◌++◌, arith, inl, inr, eq_iff, ◌≢◌, str_eq,
  Bool-cases,
}
use host_container.Bus.{Bus, subscribe, receive}
use host_container.Bus.Channels.{mem}
use host_container.Bus.Invariant.{IsValid, unsubscribed, subscribe-IsValid}
use host_container.Bus.Delivery.{call-IsValid, receive-IsValid, unsubscribe_cases}
use host_container.Notices.Stream.{
  Wake, received, ticked, meanwhile, Frame, heartbeat, frames_of, stream_loop, streamed, stream,
}

-- The loop ends without a panic, on a valid bus that has the channel no more.
loop_closes :
    (user : String) (ch : ℕ) (ws : List Wake) (sent : List Frame) (b : Bus)
    → IsValid b
    → (all : List Frame) × (b' : Bus) × (stream_loop user ch ws sent b ≡ some (all, b'))
      × IsValid b'
      × (mem ch (b'.subscribers user) ≡ false)
unfolding stream_loop
loop_closes user ch [] sent b v = elim (unsubscribe_cases user ch b v) [
  | inl (e, gone) ↦ (sent, b, ground arith, v, gone)
  | inr (rest, e, v', gone) ↦
      (sent, unsubscribed user ch rest b, ground arith, v', ground (arith, gone, eq_iff user user))
]
loop_closes user ch (received ∷ ws) sent b v =
    loop_closes user ch ws (sent ++ frames_of (receive ch b).0) (receive ch b).1
      (receive-IsValid ch b v)
loop_closes user ch (ticked ∷ ws) sent b v = loop_closes user ch ws (sent ++ heartbeat ∷ []) b v
loop_closes user ch (meanwhile c ∷ ws) sent b v =
    let (b1, e, v1) = call-IsValid c b v in
    let (all, b2, f, v2, gone) = loop_closes user ch ws sent b1 v1 in
    (all, b2, ground arith, v2, gone)

-- A stream that a user with an id opens on a valid bus, where the server can flush, runs to its end
-- without a panic whatever the other goroutines call in the meantime, and leaves a valid bus on
-- which its channel is subscribed no more.
pub stream_closes :
    (user : String) (ws : List Wake) (b : Bus)
    → IsValid b
    → user ≢ ""
    → (sent : List Frame) × (b' : Bus) × (stream (some user) true ws b ≡ (streamed sent, b'))
      × IsValid b'
      × (mem (subscribe user b).0 (b'.subscribers user) ≡ false)
unfolding stream
stream_closes user ws b v named =
    let (all, b', e, v', gone) =
      loop_closes user (subscribe user b).0 ws [] (subscribe user b).1
        (subscribe-IsValid user b v) in
    elim (Bool-cases (str_eq user "")) [
      | inl same ↦ absurd (named ((eq_iff user "").0 same))
      | inr other ↦ (all, b', ground arith, v', gone)
    ]
