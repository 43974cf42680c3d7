-- ===== src/Events/Loop.antt =====
-- `Start`, `listen` and the goroutines of `dispatch` of service/containerEventsService.go, with the sleep
-- of `HandleCrash` of service/recoveryService.go.
--
-- A message starts a goroutine. The scheduler runs any of them, in any order, up to its end or to the
-- sleep of a crash's handler; a handler that was woken runs to its end.
pub mod Spent
pub mod Others
pub mod Turns
pub mod Overlap
use host_container.Prelude.{
  ℕ, String, Bool, List, [], ◌∷◌, ◌++◌, Option, none, some, if◌then◌else◌, leb, ◌&&◌, not, ◌==◌,
  str_eq, get_or,
}
use host_container.World.{
  Outside, World, Result, ok, err, docker_events, sleeps, logged, container_restart,
}
use host_container.Recovery.{
  CrashInfo, has_number, mark_starting, update_where, after_mark, read_crash, give_up, delay_idx,
  backoff_delays,
}
use host_container.Events.{Message, exit_code_of, dispatch}

pub data Goroutine : Type 0 where
  started : Message → Goroutine
  sleeping : CrashInfo → String → ℕ → Goroutine

abbrev pub is_crash : Message → Bool
is_crash m = str_eq m.action "die" && not (exit_code_of m == 0)

module _ (out : Outside) where
  -- `HandleCrash` up to its sleep, or to its end where it does not come to it.
  unfoldable pub until_sleep : String → ℕ → Result CrashInfo × World → Option Goroutine × World
  until_sleep docker_id exit_code (err _, w) = (none, w)
  until_sleep docker_id exit_code (ok c, w) =
      if c.circuit_open
      then (none, w)
      else if leb c.max_restarts c.restart_count
      then (none, (give_up out c w).1)
      else (
        some (sleeping c docker_id exit_code),
        logged (sleeps (get_or backoff_delays (delay_idx c.restart_count) 0)) w,
      )

  -- `HandleCrash` from its sleep on.
  unfoldable pub wake : CrashInfo → String → ℕ → World → World
  wake c docker_id exit_code w =
      (after_mark out c docker_id exit_code
        (update_where out (has_number c.project_id) (mark_starting (out.now w.trace)) w)).1

  -- A goroutine in its turn: what is left of it, and the world. The handlers but that of a crash run to
  -- their end.
  unfoldable pub run_one : Goroutine → World → Option Goroutine × World
  run_one (started m) w =
      if is_crash m
      then until_sleep m.actor_id (exit_code_of m) (read_crash out m.actor_id w)
      else (none, (dispatch out m w).1)
  run_one (sleeping c docker_id exit_code) w = (none, wake c docker_id exit_code w)

abbrev pub left_over : Option Goroutine → List Goroutine
left_over none = []
left_over (some g) = g ∷ []

-- The goroutines that have not ended, and the world.
pub record Server : Type 0 where
  pub goroutines : List Goroutine
  pub world : World

unfoldable pub start_events : World → Server
start_events w = record { goroutines = []; world = logged docker_events w }

-- What may happen next: a message arrives, the stream drops and is asked for again, or a goroutine runs.
pub data Step (out : Outside) : Server → Server → Type 0 where
  arrives :
      {gs : List Goroutine} {w : World} (m : Message)
      → Step out
          (record { goroutines = gs; world = w })
          (record { goroutines = started m ∷ gs; world = w })
  drops :
      {gs : List Goroutine} {w : World}
      → Step out
          (record { goroutines = gs; world = w })
          (record { goroutines = gs; world = logged docker_events w })
  runs :
      {w : World} (before : List Goroutine) (g : Goroutine) (after : List Goroutine)
      → Step out
          (record { goroutines = before ++ g ∷ after; world = w })
          (record {
            goroutines = before ++ (left_over (run_one out g w).0 ++ after);
            world = (run_one out g w).1;
          })
