-- ===== src/Events/Loop/Others.antt =====
-- The handlers but that of a crash spend nothing of a container's restarts.
use host_container.Schema.{UserRow, ContainerRow, PlanRow}
use host_container.World.{pure, Outside, World}
use host_container.Recovery.{
  is_docker_id, mark_oom, set_health, update_where, handle_oom, handle_health_change, read_owner,
}
use host_container.Recovery.Steps.{Steps-then}
use host_container.Recovery.Outcome.{Joined}
use host_container.Events.{Message, exit_code_of, dispatch, Action}
use host_container.Events.Loop.{is_crash}
use host_container.Prelude.{
  Bool, true, false, not, ◌&&◌, if◌then◌else◌, String, ◌≡◌, arith, str_eq, refl, ◌==◌,
}
use host_container.Events.Loop.Spent.{
  Spent, mark_oom-Keeps, set_health-Keeps, notify_owner-Steps, read_owner-Steps, Spent-kept,
  Spent-update, Spent-then, Spent-Steps, Spent-if,
}

module _ {docker : String} {r : ContainerRow} {u : UserRow} {p : PlanRow} (out : Outside)
    (w : World) (j : Joined docker r u p w) where
  Spent-oom : Spent docker r u p w (handle_oom out docker w).1
  unfolding handle_oom
  Spent-oom = Spent-update out mark_oom w mark_oom-Keeps j

  Spent-health :
      (status : String) → Spent docker r u p w (handle_health_change out docker status w).1
  unfolding handle_health_change
  Spent-health status =
      let w1 = (update_where out (is_docker_id docker) (set_health status) w).1 in
      let s = Spent-update out (set_health status) w (set_health-Keeps status) j in
      Spent-if (str_eq status "unhealthy") _ _ w1
        (Spent-then s (
          Spent-Steps _ _ s.joined (
            Steps-then (read_owner-Steps out docker w1)
              (notify_owner-Steps out (read_owner out docker w1)))))
        s

  still : Spent docker r u p w w
  still = Spent-kept w w j refl refl refl refl

  Spent-at :
      {a : String} (f : String → Action (Unit {0}))
      → docker ≡ a
      → Spent docker r u p w (f docker w).1
      → Spent docker r u p w (f a w).1
  Spent-at f e s = rw⁻¹ e s

  Spent-die :
      (a b : Bool) (h k : Action (Unit {0}))
      → (a && not b) ≡ false
      → Spent docker r u p w (k w).1
      → Spent docker r u p w ((if a then (if b then pure tt else h) else k) w).1
  Spent-die true true h k e s = still
  Spent-die true false h k e s = absurd (ground arith)
  Spent-die false b h k e s = s

  pub Spent-dispatch :
      (m : Message)
      → docker ≡ m.actor_id
      → is_crash m ≡ false
      → Spent docker r u p w (dispatch out m w).1
  unfolding dispatch
  Spent-dispatch m e other = Spent-die (str_eq m.action "die") (exit_code_of m == 0) _ _ other (
      Spent-if (str_eq m.action "oom") _ _ w (Spent-at (handle_oom out) e Spent-oom) (
        Spent-if (str_eq m.action "health_status: healthy") _ _ w
          (Spent-at (λ a. handle_health_change out a "healthy") e (Spent-health "healthy"))
          (Spent-if (str_eq m.action "health_status: unhealthy") _ _ w
            (Spent-at (λ a. handle_health_change out a "unhealthy") e (Spent-health "unhealthy"))
            (Spent-if (str_eq m.action "health_status: starting") _ _ w
              (Spent-at (λ a. handle_health_change out a "starting") e (Spent-health "starting"))
              still))))
