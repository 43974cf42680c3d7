-- ===== src/Events.antt =====
-- The dispatch of Docker's events to the recovery: service/containerEventsService.go.
pub mod Loop
pub mod Restarts
use host_container.Prelude.{
  ℕ, String, Bool, true, false, Option, none, some, if◌then◌else◌, ◌==◌, str_eq,
}
use host_container.World.{Outside, Action, pure}
use host_container.Recovery.{handle_crash, handle_oom, handle_health_change}

-- A message of Docker's event stream: the action, the container, the attribute `exitCode`. The
-- subscription's filter leaves only containers with the program's label.
pub record Message : Type 0 where
  pub action : String
  pub actor_id : String
  pub exit_code : Option ℕ  -- `none` where `Atoi` fails, which leaves 0

unfoldable pub exit_code_of : Message → ℕ
exit_code_of m = elim m.exit_code [ none ↦ 0 | some n ↦ n ]

pub dispatch : Outside → Message → Action (Unit {0})
unfolding exit_code_of
dispatch out m =
    if str_eq m.action "die"
    then (if exit_code_of m == 0 then pure tt else handle_crash out m.actor_id (exit_code_of m))
    else if str_eq m.action "oom"
    then handle_oom out m.actor_id
    else if str_eq m.action "health_status: healthy"
    then handle_health_change out m.actor_id "healthy"
    else if str_eq m.action "health_status: unhealthy"
    then handle_health_change out m.actor_id "unhealthy"
    else if str_eq m.action "health_status: starting"
    then handle_health_change out m.actor_id "starting"
    else pure tt
