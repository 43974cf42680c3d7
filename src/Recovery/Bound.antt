-- ===== src/Recovery/Bound.antt =====
-- How often a container that keeps crashing is restarted.
use host_container.Prelude.{ℕ, ◌+◌, ◌-◌, ◌≤◌, String, List, [], ◌∷◌, arith}
use host_container.Schema.{UserRow, ContainerRow, PlanRow}
use host_container.World.{Outside, World, Event}
use host_container.Recovery.{open_circuit, mark_starting, mark_stopped, mark_running, handle_crash}
use host_container.Recovery.Steps.{restarts}
use host_container.Recovery.Outcome.{Outcome, Joined}
use host_container.Recovery.Crash.{handle_crash-Settled}

-- What a crash spends of the restarts that are left.
pub outcome_spends :
    {out : Outside} {docker : String} {t : List Event} {limit n : ℕ} {r r' : ContainerRow}
    → Outcome out docker t limit r n r'
    → n + (limit - r'.restart_count) ≤ limit - r.restart_count
unfolding mark_starting mark_stopped mark_running open_circuit
outcome_spends (Outcome.unread x) = omega arith
outcome_spends (Outcome.kept x) = omega arith
outcome_spends (Outcome.unopened c h x) = omega arith
outcome_spends (Outcome.opened c h x) = omega arith
outcome_spends (Outcome.uncounted c h x) = omega arith
outcome_spends (Outcome.unsettled c h x) = omega arith
outcome_spends (Outcome.failed c h x) = omega arith
outcome_spends (Outcome.restarted c h x) = omega arith

-- One crash after the other, each with its exit code.
pub crash_each : Outside → String → List ℕ → World → World
crash_each out docker [] w = w
crash_each out docker (code ∷ codes) w =
    crash_each out docker codes (handle_crash out docker code w).1

-- However often a container of the tables crashes, one crash after the other, and whatever fails on
-- the way, Docker is asked to restart it at most as often as its plan allows beyond the restarts
-- already counted.
pub crash_each_bounded :
    (out : Outside) (codes : List ℕ) {docker : String} {r : ContainerRow} {u : UserRow}
    {p : PlanRow} (w : World)
    → Joined docker r u p w
    → restarts (crash_each out docker codes w).trace
      ≤ restarts w.trace + (p.max_auto_restarts - r.restart_count)
unfolding crash_each
crash_each_bounded out [] w j = omega arith
crash_each_bounded out (code ∷ codes) {docker} w j =
    let s = handle_crash-Settled out code w j in
    omega (
      arith,
      crash_each_bounded out codes (handle_crash out docker code w).1 s.joined,
      s.counted,
      outcome_spends s.outcome,
    )
