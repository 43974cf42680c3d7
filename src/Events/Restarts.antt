-- ===== src/Events/Restarts.antt =====
-- Which events may restart a container.
use host_container.Prelude.{◌≡◌, ◌⊎◌, refl, String, false, arith, str_eq}
use host_container.Bus.{Notification}
use host_container.World.{Outside, World, Result, ok, err}
use host_container.Recovery.{
  handle_oom, handle_health_change, update_where, persist_and_notify, insert_notification,
  read_owner, notify_owner, unhealthy_notice,
}
use host_container.Recovery.Steps.{restarts}
use host_container.Events.{Message, exit_code_of, dispatch}

module _ (out : Outside) where
  notify-restarts :
      (user : String) (n : Notification) (w : World)
      → restarts (persist_and_notify out user n w).1.trace ≡ restarts w.trace
  unfolding persist_and_notify insert_notification
  notify-restarts user n w = ground arith

  notify_owner-restarts :
      (q : Result (String × String) × World)
      → restarts (notify_owner out q).1.trace ≡ restarts q.1.trace
  unfolding notify_owner
  notify_owner-restarts (err e, w) = refl
  notify_owner-restarts (ok (name, user), w) = notify-restarts user (unhealthy_notice out name w) w

  read_owner-restarts :
      (docker : String) (w : World) → restarts (read_owner out docker w).1.trace ≡ restarts w.trace
  unfolding read_owner
  read_owner-restarts docker w = ground arith

  handle_oom-restarts :
      (docker : String) (w : World) → restarts (handle_oom out docker w).1.trace ≡ restarts w.trace
  unfolding handle_oom update_where
  handle_oom-restarts docker w = ground arith

  handle_health_change-restarts :
      (docker status : String) (w : World)
      → restarts (handle_health_change out docker status w).1.trace ≡ restarts w.trace
  unfolding handle_health_change update_where
  handle_health_change-restarts docker status w =
      grind (arith, notify_owner-restarts, read_owner-restarts docker)

  -- An event other than the death of a container, and a death with the exit code 0, has Docker restart
  -- nothing.
  pub restarts-dispatch :
      (m : Message) (w : World)
      → ((str_eq m.action "die" ≡ false) ⊎ (exit_code_of m ≡ 0))
      → restarts (dispatch out m w).1.trace ≡ restarts w.trace
  unfolding dispatch
  restarts-dispatch m w h = grind (
    arith,
    handle_oom-restarts m.actor_id w,
    handle_health_change-restarts m.actor_id "healthy" w,
    handle_health_change-restarts m.actor_id "unhealthy" w,
    handle_health_change-restarts m.actor_id "starting" w,
  )
