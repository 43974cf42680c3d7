-- ===== src/Containers/Watcher.antt =====
-- `StartAutoStopWatcher` and `StopAutoStopWatcher` of service/hostContainerService.go.
--
-- The goroutine runs on what its `select` takes in turn: the ticker, or the channel that
-- `StopAutoStopWatcher` closes.
pub mod Unheard
use host_container.Prelude.{ℕ, List, [], ◌∷◌}
use host_container.World.{Outside, World}
use host_container.Containers.Lifecycle.{check_and_stop_expired}

pub data Tick : Type 0 where
  ticked closed : Tick

unfoldable pub start_auto_stop_watcher : Outside → ℕ → List Tick → World → World
start_auto_stop_watcher out timeout [] w = w
start_auto_stop_watcher out timeout (closed ∷ ts) w = w
start_auto_stop_watcher out timeout (ticked ∷ ts) w =
    start_auto_stop_watcher out timeout ts (check_and_stop_expired out timeout w).1
