-- ===== src/Recovery/Steps.antt =====
-- What the steps of `HandleCrash` do to the tables and to the trace, one by one.
use host_container.Prelude.{
  not, ℕ, ◌+◌, String, Bool, true, false, ◌≡◌, ◌⊎◌, ◌∙◌, List, [], ◌∷◌, if◌then◌else◌, arith,
  Bool-cases, inl, inr,
}
use host_container.Schema.{ContainerRow}
use host_container.Tables.{update}
use host_container.World.{
  Outside, World, Event, container_restart, statement, refused, Result, ok, err, Error, call,
}
use host_container.Bus.{Notification}
use host_container.Recovery.{
  CrashInfo, has_number, open_circuit, mark_stopped, mark_running, update_where, after_mark,
  insert_notification, persist_and_notify, give_up, after_restart,
}

abbrev is_restart : Event → Bool
is_restart (container_restart _) = true
is_restart _ = false

-- How often Docker was asked to restart a container.
abbrev pub restarts : List Event → ℕ
restarts [] = 0
restarts (e ∷ es) = let rest = restarts es in if is_restart e then rest + 1 else rest

-- A step whose rows are `rows` and that asked Docker for `n` restarts.
pub record Steps (w w' : World) (n : ℕ) (rows : List ContainerRow) : Type 0 where
  pub containers : w'.db.containers ≡ rows
  pub users : w'.db.users ≡ w.db.users
  pub plans : w'.db.plans ≡ w.db.plans
  pub counted : restarts w'.trace ≡ n + restarts w.trace

pub Steps-then :
    {u v w : World} {m : ℕ} {rows : List ContainerRow}
    → Steps u v 0 rows
    → Steps v w m v.db.containers
    → Steps u w m rows
Steps-then p q = record {
  containers = q.containers ∙ p.containers;
  users = q.users ∙ p.users;
  plans = q.plans ∙ p.plans;
  counted = omega (arith, p.counted, q.counted);
}

-- The rows after an update that may have been refused.
abbrev pub updated :
    Bool → ℕ → (ContainerRow → ContainerRow) → List ContainerRow → List ContainerRow
updated done id f rows = if done then update (has_number id) f rows else rows

-- Whether the next statement is answered.
abbrev pub passes : Outside → List Event → Bool
passes out t = not (out.fails (statement ∷ t))

-- The update that notes the result of a restart.
abbrev pub settled_by : Result (Unit {0}) → ℕ → ContainerRow → ContainerRow
settled_by (ok _) now = mark_running now
settled_by (err _) now = mark_stopped

module _ (out : Outside) where
  pub persist_Steps :
      (user : String) (n : Notification) (w : World)
      → Steps w (persist_and_notify out user n w).1 0 w.db.containers
  unfolding persist_and_notify insert_notification
  persist_Steps user n w = ground arith

  pub update-trace :
      (id : ℕ) (f : ContainerRow → ContainerRow) (w : World)
      → (update_where out (has_number id) f w).1.trace ≡ statement ∷ w.trace
  unfolding update_where
  update-trace id f w = ground arith

  -- An update either is refused or reaches every row with the id.
  pub update_cases :
      (id : ℕ) (f : ContainerRow → ContainerRow) (w : World)
      → (((e : Error) × ((update_where out (has_number id) f w).0 ≡ err e))
          × (out.fails (statement ∷ w.trace) ≡ true)
          × Steps w (update_where out (has_number id) f w).1 0 w.db.containers)
        ⊎ (((update_where out (has_number id) f w).0 ≡ ok tt)
            × Steps w
                (update_where out (has_number id) f w).1
                0
                (update (has_number id) f w.db.containers))
  unfolding update_where
  update_cases id f w = elim (Bool-cases (out.fails (statement ∷ w.trace))) [
    | inl failed ↦ inl ((refused statement, ground arith), failed, ground arith)
    | inr done ↦ inr (ground arith, ground arith)
  ]

  update_Steps :
      (id : ℕ) (f : ContainerRow → ContainerRow) (w : World)
      → Steps w
          (update_where out (has_number id) f w).1
          0
          (updated (passes out w.trace) id f w.db.containers)
  unfolding update_where
  update_Steps id f w = elim (Bool-cases (out.fails (statement ∷ w.trace))) [
    | inl failed ↦ ground arith
    | inr done ↦ ground arith
  ]

  pub give_up-Steps :
      (c : CrashInfo) (w : World)
      → Steps w
          (give_up out c w).1
          0
          (updated (passes out w.trace) c.project_id open_circuit w.db.containers)
  unfolding give_up
  give_up-Steps c w =
      Steps-then (update_Steps c.project_id open_circuit w) (persist_Steps c.user_id _ _)

  after_restart-Steps :
      (c : CrashInfo) (code : ℕ) (p : Result (Unit {0}) × World)
      → Steps p.1 (after_restart out c code p).1 0 (
          updated
            (passes out p.1.trace)
            c.project_id
            (settled_by p.0 (out.now p.1.trace))
            p.1.db.containers)
  unfolding after_restart
  after_restart-Steps c code (err _, w) = update_Steps c.project_id mark_stopped w
  after_restart-Steps c code (ok _, w) =
      Steps-then (update_Steps c.project_id (mark_running (out.now w.trace)) w)
        (persist_Steps c.user_id _ _)

  pub after_mark-Steps :
      (c : CrashInfo) (docker : String) (code : ℕ) (w : World)
      → Steps w (after_mark out c docker code (ok tt, w)).1 1 (
          updated
            (passes out (container_restart docker ∷ w.trace))
            c.project_id
            (settled_by
              (call out (container_restart docker) w).0
              (out.now (container_restart docker ∷ w.trace)))
            w.db.containers)
  unfolding after_mark
  after_mark-Steps c docker code w =
      let s = after_restart-Steps c code (call out (container_restart docker) w) in
      record {
        containers = s.containers;
        users = s.users;
        plans = s.plans;
        counted = omega (arith, s.counted);
      }
