-- ===== src/Events/Loop/Spent.antt =====
-- What leaves a container in the tables, its counter, and the restarts that Docker was asked for.
use host_container.Schema.{UserRow, ContainerRow, PlanRow}
use host_container.Tables.{find, find-update_if, update, find-holds}
use host_container.World.{Outside, World, Result, ok, err, statement}
use host_container.Recovery.{
  is_docker_id, mark_oom, set_health, update_where, read_owner, notify_owner, unhealthy_notice,
}
use host_container.Recovery.Steps.{restarts, Steps, persist_Steps}
use host_container.Recovery.Outcome.{Joined}
use host_container.Events.{Action}
use host_container.Prelude.{
  String, ◌≡◌, arith, ◌⊎◌, List, some, inl, ap, str_eq, inr, ◌∙◌, refl, Bool-cases, ◌∷◌, Bool,
  if◌then◌else◌, true, false,
}

-- The container is still in the tables with its number and its counter, and no restart was asked for.
pub record Spent (docker : String) (r : ContainerRow) (u : UserRow) (p : PlanRow) (w w' : World)
    : Type 0 where
  pub after : ContainerRow
  pub joined : Joined docker after u p w'
  pub same_id : after.id ≡ r.id
  pub same_count : after.restart_count ≡ r.restart_count
  pub same_restarts : restarts w'.trace ≡ restarts w.trace

-- An update that keeps a row's keys and its counter.
pub record Keeps (f : ContainerRow → ContainerRow) : Type 0 where
  container_id_kept : (x : ContainerRow) → (f x).container_id ≡ x.container_id
  user_id_kept : (x : ContainerRow) → (f x).user_id ≡ x.user_id
  id_kept : (x : ContainerRow) → (f x).id ≡ x.id
  count_kept : (x : ContainerRow) → (f x).restart_count ≡ x.restart_count

pub mark_oom-Keeps : Keeps mark_oom
unfolding mark_oom
mark_oom-Keeps = record {
  container_id_kept = λ x. refl;
  user_id_kept = λ x. refl;
  id_kept = λ x. refl;
  count_kept = λ x. refl;
}

pub set_health-Keeps : (status : String) → Keeps (set_health status)
unfolding set_health
set_health-Keeps status = record {
  container_id_kept = λ x. refl;
  user_id_kept = λ x. refl;
  id_kept = λ x. refl;
  count_kept = λ x. refl;
}

find-update_docker :
    (docker : String) (f : ContainerRow → ContainerRow) {r : ContainerRow}
    (rows : List ContainerRow)
    → ((x : ContainerRow) → (f x).container_id ≡ x.container_id)
    → find (is_docker_id docker) rows ≡ some r
    → find (is_docker_id docker) (update (is_docker_id docker) f rows) ≡ some (f r)
find-update_docker docker f {r} rows keep h =
    find-update_if (is_docker_id docker) (is_docker_id docker) f rows
      (λ x. ap (λ (s : String). str_eq s docker) (keep x))
    ∙ (rw h (rw (find-holds (is_docker_id docker) rows h) refl))

pub notify_owner-Steps :
    (out : Outside) (q : Result (String × String) × World)
    → Steps q.1 (notify_owner out q).1 0 q.1.db.containers
unfolding notify_owner
notify_owner-Steps out (err e, w) = ground arith
notify_owner-Steps out (ok (name, user), w) = persist_Steps out user (unhealthy_notice out name w) w

pub read_owner-Steps :
    (out : Outside) (docker : String) (w : World)
    → Steps w (read_owner out docker w).1 0 w.db.containers
unfolding read_owner
read_owner-Steps out docker w = ground arith

module _ {docker : String} {r : ContainerRow} {u : UserRow} {p : PlanRow} where
  pub Spent-kept :
      (w w' : World)
      → Joined docker r u p w
      → w'.db.containers ≡ w.db.containers
      → w'.db.users ≡ w.db.users
      → w'.db.plans ≡ w.db.plans
      → restarts w'.trace ≡ restarts w.trace
      → Spent docker r u p w w'
  Spent-kept w w' j same_containers same_users same_plans same = record {
    after = r;
    joined = record {
      found = rw same_containers j.found;
      user = rw same_users j.user;
      plan = rw same_plans j.plan;
    };
    same_id = refl;
    same_count = refl;
    same_restarts = same;
  }

  Spent-rows :
      (f : ContainerRow → ContainerRow) (w w' : World)
      → Keeps f
      → Joined docker r u p w
      → (w'.db.containers ≡ w.db.containers)
        ⊎ (w'.db.containers ≡ update (is_docker_id docker) f w.db.containers)
      → w'.db.users ≡ w.db.users
      → w'.db.plans ≡ w.db.plans
      → restarts w'.trace ≡ restarts w.trace
      → Spent docker r u p w w'
  Spent-rows f w w' k j (inl kept) same_users same_plans same =
      Spent-kept w w' j kept same_users same_plans same
  Spent-rows f w w' k j (inr changed) same_users same_plans same = record {
    after = f r;
    joined = record {
      found = rw changed (find-update_docker docker f w.db.containers k.container_id_kept j.found);
      user = rw (same_users, k.user_id_kept r) j.user;
      plan = rw same_plans j.plan;
    };
    same_id = k.id_kept r;
    same_count = k.count_kept r;
    same_restarts = same;
  }

  module _ (out : Outside) (f : ContainerRow → ContainerRow) (w : World) where
    pub Spent-update :
        Keeps f
        → Joined docker r u p w
        → Spent docker r u p w (update_where out (is_docker_id docker) f w).1
    unfolding update_where
    Spent-update k j = elim (Bool-cases (out.fails (statement ∷ w.trace))) [
      | inl failed ↦
          Spent-rows f w (update_where out (is_docker_id docker) f w).1 k j (inl (ground arith))
            (ground arith) (ground arith) (ground arith)
      | inr done ↦
          Spent-rows f w (update_where out (is_docker_id docker) f w).1 k j (inr (ground arith))
            (ground arith) (ground arith) (ground arith)
    ]

  pub Spent-then :
      {v w x : World} (s : Spent docker r u p v w)
      → Spent docker s.after u p w x
      → Spent docker r u p v x
  Spent-then s t = record {
    after = t.after;
    joined = t.joined;
    same_id = t.same_id ∙ s.same_id;
    same_count = t.same_count ∙ s.same_count;
    same_restarts = t.same_restarts ∙ s.same_restarts;
  }

  pub Spent-Steps :
      (w w' : World)
      → Joined docker r u p w
      → Steps w w' 0 w.db.containers
      → Spent docker r u p w w'
  Spent-Steps w w' j s = Spent-kept w w' j s.containers s.users s.plans (omega (arith, s.counted))

  pub Spent-if :
      {v : World} (b : Bool) (m n : Action (Unit {0})) (w : World)
      → Spent docker r u p v (m w).1
      → Spent docker r u p v (n w).1
      → Spent docker r u p v ((if b then m else n) w).1
  Spent-if true m n w s t = s
  Spent-if false m n w s t = t
