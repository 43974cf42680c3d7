-- ===== src/Recovery/Outcome.antt =====
-- How a crash may leave its container, and what follows of the tables.
use host_container.Prelude.{
  ℕ, ◌+◌, ◌≤◌, ◌<◌, String, Bool, true, false, ◌≡◌, ap, ◌∙◌, some, List, if◌then◌else◌, arith,
  str_eq, get_or, ◌∷◌,
}
use host_container.Schema.{UserRow, ContainerRow, PlanRow}
use host_container.Tables.{find, find-update_if}
use host_container.World.{Outside, World, Event, logged, statement, sleeps, container_restart}
use host_container.Recovery.{
  is_docker_id, user_of, plan_of, has_number, open_circuit, mark_starting, mark_stopped,
  mark_running, backoff_delays, delay_idx,
}
use host_container.Recovery.Steps.{restarts, Steps, updated}

-- The log once the handler has read the row at `t` and slept.
abbrev pub slept : ContainerRow → List Event → List Event
slept r t = sleeps (get_or backoff_delays (delay_idx r.restart_count) 0) ∷ statement ∷ t

-- The log once the counter was raised, and a restart asked for.
abbrev pub restarted_at : String → ContainerRow → List Event → List Event
restarted_at docker r t = container_restart docker ∷ statement ∷ slept r t

-- How a crash leaves its row, by which calls after the log `t` are refused, and how many restarts it
-- has asked for. The limit is the plan's.
pub data Outcome (out : Outside) (docker : String) (t : List Event) (limit : ℕ) (r : ContainerRow)
    : ℕ → ContainerRow → Type 0 where
  unread : out.fails (statement ∷ t) ≡ true → Outcome out docker t limit r 0 r
  kept : r.circuit_open ≡ true → Outcome out docker t limit r 0 r
  unopened :
      r.circuit_open ≡ false
      → limit ≤ r.restart_count
      → out.fails (statement ∷ statement ∷ t) ≡ true
      → Outcome out docker t limit r 0 r
  opened :
      r.circuit_open ≡ false
      → limit ≤ r.restart_count
      → out.fails (statement ∷ statement ∷ t) ≡ false
      → Outcome out docker t limit r 0 (open_circuit r)
  -- The statement that raises the counter was refused.
  uncounted :
      r.circuit_open ≡ false
      → r.restart_count < limit
      → out.fails (statement ∷ slept r t) ≡ true
      → Outcome out docker t limit r 0 r
  -- The statement that notes the result of the restart was refused.
  unsettled :
      r.circuit_open ≡ false
      → r.restart_count < limit
      → out.fails (statement ∷ restarted_at docker r t) ≡ true
      → Outcome out docker t limit r 1 (mark_starting (out.now (slept r t)) r)
  failed :
      r.circuit_open ≡ false
      → r.restart_count < limit
      → out.fails (restarted_at docker r t) ≡ true
      → Outcome out docker t limit r 1 (mark_stopped (mark_starting (out.now (slept r t)) r))
  restarted :
      r.circuit_open ≡ false
      → r.restart_count < limit
      → out.fails (restarted_at docker r t) ≡ false
      → Outcome out docker t limit r 1
          (mark_running (out.now (restarted_at docker r t)) (mark_starting (out.now (slept r t)) r))

pub find-updated :
    (docker : String) (done : Bool) (f : ContainerRow → ContainerRow) {id : ℕ} {r : ContainerRow}
    (rows : List ContainerRow)
    → ((x : ContainerRow) → (f x).container_id ≡ x.container_id)
    → id ≡ r.id
    → find (is_docker_id docker) rows ≡ some r
    → find (is_docker_id docker) (updated done id f rows) ≡ some (if done then f r else r)
find-updated docker false f rows keep e h = h
find-updated docker true f {id} {r} rows keep e h =
    find-update_if (has_number id) (is_docker_id docker) f rows
      (λ x. ap (λ (s : String). str_eq s docker) (keep x))
    ∙ (rw h (rw e (ground arith)))

-- The row of a container with the user and the plan that the query joins to it.
pub record Joined (docker : String) (r : ContainerRow) (u : UserRow) (p : PlanRow) (w : World)
    : Type 0 where
  pub found : find (is_docker_id docker) w.db.containers ≡ some r
  pub user : user_of r w.db ≡ some u
  pub plan : plan_of u w.db ≡ some p

-- What a crash of a container, after the log `t`, leaves: its row, joined as before, and the restarts asked for.
pub record Settled (out : Outside) (t : List Event) (docker : String) (r : ContainerRow)
    (u : UserRow) (p : PlanRow) (w w' : World) : Type 0 where
  pub asked : ℕ
  pub after : ContainerRow
  pub outcome : Outcome out docker t p.max_auto_restarts r asked after
  pub joined : Joined docker after u p w'
  pub counted : restarts w'.trace ≡ asked + restarts w.trace

module _ {out : Outside} {t : List Event} {docker : String} {r : ContainerRow} {u : UserRow}
    {p : PlanRow} {w : World} (j : Joined docker r u p w) where
  pub settle :
      (w' : World) (n : ℕ) (rows : List ContainerRow) (r' : ContainerRow)
      → Steps w w' n rows
      → Outcome out docker t p.max_auto_restarts r n r'
      → r'.user_id ≡ r.user_id
      → find (is_docker_id docker) rows ≡ some r'
      → Settled out t docker r u p w w'
  settle w' n rows r' s o same h = record {
    asked = n;
    after = r';
    outcome = o;
    joined = record {
      found = rw s.containers h;
      user = rw (s.users, same) j.user;
      plan = rw s.plans j.plan;
    };
    counted = s.counted;
  }

module _ {docker : String} {r : ContainerRow} {u : UserRow} {p : PlanRow} {w : World}
    (j : Joined docker r u p w) where
  pub logged_Joined : (e : Event) → Joined docker r u p (logged e w)
  logged_Joined e = record { found = j.found; user = j.user; plan = j.plan }
