-- ===== src/Entry/Serve/Unstreamed.antt =====
-- The stream of the notifications behind the middlewares.
use host_container.World.{World}
use host_container.Auth.{Request}
use host_container.Notices.Stream.{stream, Wake}
use host_container.Entry.Stack.{Writer, routed_writer, response_writer}
use host_container.Entry.Routes.{notification_stream, access_of}
use host_container.Entry.Serve.{Config, handle, guarded, serve}
use host_container.Entry.Serve.Closed.{auth_middleware_cases}
use host_container.Prelude.{
  List, Bool, ◌≡◌, String, ◌⊎◌, false, true, some, refl, inl, Bool-cases, inr, str_eq, arith,
}

-- A writer that wraps another one offers no `http.Flusher` where that one does not.
pub record KeepsLacks (instrument : Writer → Writer) : Type 0 where
  pub no_flusher : (w : Writer) → w.flushes ≡ false → (instrument w).flushes ≡ false

routed_unflushed :
    (instrument : Writer → Writer) (is_websocket : Bool) (w : Writer)
    → KeepsLacks instrument
    → (routed_writer instrument is_websocket w).flushes ≡ false
unfolding routed_writer
routed_unflushed instrument true w law = refl
routed_unflushed instrument false w law = law.no_flusher (response_writer w) refl

module _ (cfg : Config) (law : KeepsLacks cfg.instrument) (ws : List Wake) (r : Request) where
  opened_refused :
      (id : String) (w : World)
      → (((handle cfg (notification_stream ws) r (some id) w).0.status ≡ 401)
          ⊎ ((handle cfg (notification_stream ws) r (some id) w).0.status ≡ 500))
        × ((handle cfg (notification_stream ws) r (some id) w).1 ≡ w)
  unfolding handle stream
  opened_refused id w =
      let lacks = routed_unflushed cfg.instrument false cfg.writer law in
      elim (Bool-cases (str_eq id "")) [
        | inl e ↦ (inl (ground arith), ground arith)
        | inr e ↦ (inr (ground arith), ground arith)
      ]

  -- Where the wrappers of the writers offer no more than what they wrap, every request for the stream
  -- of the notifications, also one of a user who is signed in, is answered 401 or 500, and nobody is
  -- subscribed: nothing changes.
  pub serve-unstreamed :
      (w : World)
      → (((serve cfg (notification_stream ws) r w).0.status ≡ 401)
          ⊎ ((serve cfg (notification_stream ws) r w).0.status ≡ 500))
        × ((serve cfg (notification_stream ws) r w).1 ≡ w)
  unfolding serve guarded access_of
  serve-unstreamed w =
      elim (auth_middleware_cases cfg.out cfg.jwt cfg.hash_key r
        (λ id. handle cfg (notification_stream ws) r (some id)) w) [
          | inl (e, same) ↦ (inl e, same)
          | inr (id, e, proof) ↦ rw e (opened_refused id w)
        ]
