-- ===== src/Containers/Watcher/Unheard.antt =====
-- Whom the notifications of the auto-stop watcher reach.
use host_container.Prelude.{ℕ, String, List, [], ◌∷◌, ◌≡◌, ◌≢◌, true, false, arith}
use host_container.Bus.Channels.{mem}
use host_container.Bus.Invariant.{IsValid}
use host_container.World.{Outside, World}
use host_container.Containers.Lifecycle.{check_and_stop_expired}
use host_container.Containers.Lifecycle.AutoStop.{
  Quiet, Quiet-refl, Quiet-trans, Quiet-check_and_stop_expired,
}
use host_container.Containers.Watcher.{Tick, ticked, closed, start_auto_stop_watcher}

Quiet-watcher :
    (out : Outside) (timeout : ℕ) (ts : List Tick) (w : World)
    → IsValid w.bus
    → Quiet w.bus (start_auto_stop_watcher out timeout ts w).bus
unfolding start_auto_stop_watcher
Quiet-watcher out timeout [] w v = Quiet-refl w.bus v
Quiet-watcher out timeout (closed ∷ ts) w v = Quiet-refl w.bus v
Quiet-watcher out timeout (ticked ∷ ts) w v =
    let q = Quiet-check_and_stop_expired out timeout w v in
    Quiet-trans q (Quiet-watcher out timeout ts (check_and_stop_expired out timeout w).1 q.valid)

-- The auto-stop watcher, started on a valid bus, changes no channel of a user whose id is not the empty
-- text, however many rounds it runs: no user hears that a container was stopped.
pub start_auto_stop_watcher_unheard :
    (out : Outside) (timeout : ℕ) (ts : List Tick) (w : World) (user : String) (ch : ℕ)
    → IsValid w.bus
    → user ≢ ""
    → mem ch (w.bus.subscribers user) ≡ true
    → (start_auto_stop_watcher out timeout ts w).bus.channels ch ≡ w.bus.channels ch
start_auto_stop_watcher_unheard out timeout ts w user ch v named m =
    (Quiet-watcher out timeout ts w v).heard ch apart
  where
    apart : mem ch (w.bus.subscribers "") ≡ false
    apart = ground (arith, v.owned user "" ch m)
