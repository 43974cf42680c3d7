-- ===== src/Events/Loop/Turns.antt =====
-- What a goroutine leaves of its container in one turn.
use host_container.Recovery.Crash.{read_crash_cases}
use host_container.Recovery.Steps.{
  Steps, passes, updated, settled_by, give_up-Steps, after_mark-Steps, update_cases,
}
use host_container.Recovery.Outcome.{find-updated}
use host_container.Recovery.{
  crash_info, open_circuit, mark_starting, mark_stopped, mark_running, after_mark, give_up,
  has_number, backoff_delays, delay_idx, decide_crash, try_restart,
}
use host_container.World.{Result, ok, err, Error, statement, sleeps, container_restart, call}
use host_container.Tables.{find, update}
use host_container.Prelude.{sym, subst, get_or, leb, Option}
use host_container.Schema.{UserRow, ContainerRow, PlanRow}
use host_container.World.{Outside, World, logged}
use host_container.Recovery.{
  handle_crash, decide_crash, try_restart, CrashInfo, read_crash, is_docker_id, update_where,
}
use host_container.Recovery.Steps.{restarts}
use host_container.Recovery.Outcome.{Joined}
use host_container.Events.{Message, exit_code_of}
use host_container.Events.Loop.{started, run_one, Goroutine, sleeping, is_crash, until_sleep, wake}
use host_container.Prelude.{
  Bool-cases, ℕ, Bool, true, false, none, some, ◌⊎◌, inl, inr, ◌<◌, if◌then◌else◌, String, ◌≡◌, ◌+◌,
  arith, List, refl, ◌∷◌,
}
use host_container.Events.Loop.Others.{Spent-dispatch}
use host_container.Events.Loop.Spent.{Spent, Spent-kept, Spent-Steps}

-- The counter was raised once, and one restart asked for.
pub record Woken (docker : String) (r : ContainerRow) (u : UserRow) (p : PlanRow) (w w' : World)
    : Type 0 where
  pub after : ContainerRow
  pub joined : Joined docker after u p w'
  pub same_id : after.id ≡ r.id
  pub raised : after.restart_count ≡ r.restart_count + 1
  pub asked : restarts w'.trace ≡ restarts w.trace + 1

abbrev pub is_sleeping : Goroutine → Bool
is_sleeping (started m) = false
is_sleeping (sleeping c d code) = true

-- A message of the container, or a handler that sleeps on its row.
abbrev pub Fits : String → ℕ → Goroutine → Type 0
Fits docker id (started m) = docker ≡ m.actor_id
Fits docker id (sleeping c d code) = c.project_id ≡ id

module _ {docker : String} {r : ContainerRow} {u : UserRow} {p : PlanRow} (out : Outside)
    (w : World) (j : Joined docker r u p w) where
  -- What a turn leaves of the goroutine and of its container.
  abbrev pub Turned : Goroutine → Option Goroutine × World → Type 0
  Turned g (none, w') = Spent docker r u p w w' ⊎ ((is_sleeping g ≡ true) × Woken docker r u p w w')
  Turned g (some h, w') =
      (is_sleeping g ≡ false)
      × (is_sleeping h ≡ true)
      × Fits docker r.id h
      × (r.restart_count < p.max_auto_restarts)
      × Spent docker r u p w w'

  gives_up : Spent docker r u p w (give_up out (crash_info out r p) (logged statement w)).1
  unfolding crash_info open_circuit
  gives_up =
      by_done (passes out (statement ∷ w.trace))
        (give_up-Steps out (crash_info out r p) (logged statement w))
    where
      by_done :
          (done : Bool)
          → Steps
              (logged statement w)
              (give_up out (crash_info out r p) (logged statement w)).1
              0
              (updated done r.id open_circuit w.db.containers)
          → Spent docker r u p w (give_up out (crash_info out r p) (logged statement w)).1
      by_done false s = Spent-kept w _ j s.containers s.users s.plans (omega (arith, s.counted))
      by_done true s = record {
        after = open_circuit r;
        joined = record {
          found =
              rw s.containers
                (find-updated docker true open_circuit w.db.containers (λ x. refl) refl j.found);
          user = rw s.users j.user;
          plan = rw s.plans j.plan;
        };
        same_id = refl;
        same_count = refl;
        same_restarts = omega (arith, s.counted);
      }

  until_sleep_cases :
      (m : Message) (code : ℕ)
      → Turned (started m) (until_sleep out docker code (read_crash out docker w))
  unfolding until_sleep crash_info
  until_sleep_cases m code = elim (read_crash_cases out code w j) [
    | inl (e, read, lost) ↦ subst family (sym read) (inl (Spent-kept w _ j refl refl refl refl))
    | inr read ↦
        subst family (sym read)
          (by_tests r.circuit_open (leb p.max_auto_restarts r.restart_count) refl)
  ]
    where
      family : Result CrashInfo × World → Type 0
      family q = Turned (started m) (until_sleep out docker code q)

      by_tests :
          (o f : Bool)
          → leb p.max_auto_restarts r.restart_count ≡ f
          → Turned (started m) (
              if o
              then (none, logged statement w)
              else if f
              then (none, (give_up out (crash_info out r p) (logged statement w)).1)
              else (
                some (sleeping (crash_info out r p) docker code),
                logged
                    (sleeps (get_or backoff_delays (delay_idx r.restart_count) 0))
                    (logged statement w),
              ))
      by_tests true f e = inl (Spent-kept w _ j refl refl refl refl)
      by_tests false true e = inl gives_up
      by_tests false false e =
          (refl, refl, refl, ground arith, Spent-kept w _ j refl refl refl refl)

  module _ (c : CrashInfo) (d : String) (code : ℕ) (same : c.project_id ≡ r.id) where
    woken :
        (w2 : World)
        → Steps w w2 0
            (update (has_number c.project_id) (mark_starting (out.now w.trace)) w.db.containers)
        → Woken docker r u p w (after_mark out c d code (ok tt, w2)).1
    unfolding mark_starting mark_stopped mark_running
    woken w2 s =
        let s' = after_mark-Steps out c d code w2 in
        by_result (passes out (container_restart d ∷ w2.trace))
          (call out (container_restart d) w2).0 (out.now (container_restart d ∷ w2.trace)) s'
      where
        marked :
            find (is_docker_id docker) w2.db.containers ≡ some (mark_starting (out.now w.trace) r)
        marked = rw s.containers (
            find-updated docker true (mark_starting (out.now w.trace)) w.db.containers (λ x. refl)
              same j.found)

        left :
            (after : ContainerRow)
            → after.user_id ≡ r.user_id
            → after.id ≡ r.id
            → after.restart_count ≡ r.restart_count + 1
            → (rows : List ContainerRow) → find (is_docker_id docker) rows ≡ some after
            → Steps w2 (after_mark out c d code (ok tt, w2)).1 1 rows
            → Woken docker r u p w (after_mark out c d code (ok tt, w2)).1
        left after owner id one rows found q = record {
          after = after;
          joined = record {
            found = rw q.containers found;
            user = rw (q.users, s.users, owner) j.user;
            plan = rw (q.plans, s.plans) j.plan;
          };
          same_id = id;
          raised = one;
          asked = omega (arith, q.counted, s.counted);
        }

        by_result :
            (done : Bool) (res : Result (Unit {0})) (n : ℕ)
            → Steps w2
                (after_mark out c d code (ok tt, w2)).1
                1
                (updated done c.project_id (settled_by res n) w2.db.containers)
            → Woken docker r u p w (after_mark out c d code (ok tt, w2)).1
        by_result false res n q = left (mark_starting (out.now w.trace) r) refl refl refl _ marked q
        by_result true (err x) n q =
            left (mark_stopped (mark_starting (out.now w.trace) r)) refl refl refl _
              (find-updated docker true mark_stopped w2.db.containers (λ x. refl) same marked) q
        by_result true (ok x) n q =
            left (mark_running n (mark_starting (out.now w.trace) r)) refl refl refl _
              (find-updated docker true (mark_running n) w2.db.containers (λ x. refl) same marked) q

    from_wake :
        (q : Result (Unit {0}) × World)
        → (((e : Error) × (q.0 ≡ err e))
            × (out.fails (statement ∷ w.trace) ≡ true)
            × Steps w q.1 0 w.db.containers)
          ⊎ ((q.0 ≡ ok tt)
              × Steps w q.1 0 (
                  update
                    (has_number c.project_id)
                    (mark_starting (out.now w.trace))
                    w.db.containers))
        → Spent docker r u p w (after_mark out c d code q).1
          ⊎ Woken docker r u p w (after_mark out c d code q).1
    unfolding after_mark
    from_wake (err e, w2) (inl (_, _, s)) = inl (Spent-Steps w w2 j s)
    from_wake (err e, w2) (inr (x, _)) = cc
    from_wake (ok tt, w2) (inl ((e, x), _, _)) = cc
    from_wake (ok tt, w2) (inr (_, s)) = inr (woken w2 s)

    wake_cases :
        Spent docker r u p w (wake out c d code w) ⊎ Woken docker r u p w (wake out c d code w)
    unfolding wake
    wake_cases =
        from_wake (update_where out (has_number c.project_id) (mark_starting (out.now w.trace)) w)
          (update_cases out c.project_id (mark_starting (out.now w.trace)) w)

  pub turned : (g : Goroutine) → Fits docker r.id g → Turned g (run_one out g w)
  unfolding run_one exit_code_of
  turned (started m) e = elim (Bool-cases (is_crash m)) [
    | inl crash ↦ rw (crash, sym e) (until_sleep_cases m (exit_code_of m))
    | inr other ↦ rw other (inl (Spent-dispatch out w j m e other))
  ]
  turned (sleeping c d code) e = elim (wake_cases c d code e) [
    | inl s ↦ inl s
    | inr s ↦ inr (refl, s)
  ]

-- The handler of a crash is its two turns, one after the other.
ended : Outside → Option Goroutine × World → World
ended out (none, w) = w
ended out (some g, w) = (run_one out g w).1

handle_crash-turns :
    (out : Outside) (docker : String) (code : ℕ) (w : World)
    → (handle_crash out docker code w).1
      ≡ ended out (until_sleep out docker code (read_crash out docker w))
unfolding handle_crash decide_crash try_restart until_sleep ended run_one wake
handle_crash-turns out docker code w = by_read (read_crash out docker w)
  where
    by_read :
        (q : Result CrashInfo × World)
        → (decide_crash out docker code q).1 ≡ ended out (until_sleep out docker code q)
    by_read (err e, w1) = refl
    by_read (ok c, w1) = ground arith
