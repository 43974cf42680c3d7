-- ===== src/Recovery/Crash.antt =====
-- What `HandleCrash` does to the crashed container, on every branch and whatever fails.
use host_container.Prelude.{
  List, ap, ℕ, ◌≤◌, ◌<◌, String, Bool, true, false, ◌≡◌, ◌⊎◌, refl, sym, subst, ◌∙◌, some, ◌∷◌,
  if◌then◌else◌, leb, arith, Bool-cases, inl, inr,
}
use host_container.Schema.{UserRow, ContainerRow, PlanRow}
use host_container.Tables.{find, update}
use host_container.World.{
  Outside, World, Event, container_restart, call, statement, refused, Result, ok, err, Error,
  logged,
}
use host_container.Recovery.{
  CrashInfo, is_docker_id, crash_info, has_number, open_circuit, mark_starting, mark_stopped,
  mark_running, update_where, after_mark, read_crash, give_up, try_restart, decide_crash,
  handle_crash,
}
use host_container.Recovery.Steps.{
  restarts, passes, settled_by, update-trace, Steps, updated, update_cases, give_up-Steps,
  after_mark-Steps,
}
use host_container.Recovery.Outcome.{
  slept, restarted_at, Outcome, find-updated, Joined, Settled, settle,
}

-- What was only logged before asked for no restart.
from_log :
    (w w' : World) {x : World} {n : ℕ} {rows : List ContainerRow}
    → Steps w' x n rows
    → w'.db.users ≡ w.db.users
    → w'.db.plans ≡ w.db.plans
    → restarts w'.trace ≡ restarts w.trace
    → Steps w x n rows
from_log w w' s us ps same = record {
  containers = s.containers;
  users = s.users ∙ us;
  plans = s.plans ∙ ps;
  counted = omega (arith, s.counted);
}

abbrev slept_world : ContainerRow → World → World
slept_world r w = record w { trace = slept r w.trace }

abbrev begun : Outside → ContainerRow → World → ContainerRow
begun out r w = mark_starting (out.now (slept r w.trace)) r

unchanged : (w : World) → Steps w (logged statement w) 0 w.db.containers
unchanged w = record { containers = refl; users = refl; plans = refl; counted = omega arith }

module _ (out : Outside) {docker : String} {r : ContainerRow} {u : UserRow} {p : PlanRow} (code : ℕ)
    (w : World) where
  give_up-Settled :
      Joined docker r u p w
      → r.circuit_open ≡ false
      → p.max_auto_restarts ≤ r.restart_count
      → Settled out w.trace docker r u p w (give_up out (crash_info out r p) (logged statement w)).1
  unfolding crash_info open_circuit
  give_up-Settled j closed full =
      by_done (passes out (logged statement w).trace) refl
        (give_up-Steps out (crash_info out r p) (logged statement w))
    where
      by_done :
          (done : Bool)
          → passes out (logged statement w).trace ≡ done
          → Steps
              (logged statement w)
              (give_up out (crash_info out r p) (logged statement w)).1
              0
              (updated done r.id open_circuit w.db.containers)
          → Settled out w.trace docker r u p w
              (give_up out (crash_info out r p) (logged statement w)).1
      by_done false e s =
          settle j _ 0 _ r (from_log w (logged statement w) s refl refl refl)
            (Outcome.unopened closed full (ground arith)) refl j.found
      by_done true e s =
          settle j _ 0 _ (open_circuit r) (from_log w (logged statement w) s refl refl refl)
            (Outcome.opened closed full (ground arith)) refl
            (find-updated docker true open_circuit w.db.containers (λ x. refl) refl j.found)

  -- From the raised counter to the end of the restart.
  after_mark-Settled :
      (w2 : World)
      → Joined docker r u p w
      → r.circuit_open ≡ false
      → r.restart_count < p.max_auto_restarts
      → w2.trace ≡ statement ∷ slept r w.trace
      → Steps
          (slept_world r w)
          w2
          0
          (update (has_number r.id) (mark_starting (out.now (slept r w.trace))) w.db.containers)
      → Settled out w.trace docker r u p w
          (after_mark out (crash_info out r p) docker code (ok tt, w2)).1
  unfolding crash_info mark_starting mark_stopped mark_running
  after_mark-Settled w2 j closed room log s =
      let s' = after_mark-Steps out (crash_info out r p) docker code w2 in
      by_result (passes out (container_restart docker ∷ w2.trace))
        (call out (container_restart docker) w2).0 (out.now (container_restart docker ∷ w2.trace))
        refl refl (ap (λ (es : List Event). out.now (container_restart docker ∷ es)) log)
        (record {
          containers = s'.containers;
          users = s'.users ∙ s.users;
          plans = s'.plans ∙ s.plans;
          counted = omega (arith, s.counted, s'.counted);
        })
    where
      marked : find (is_docker_id docker) w2.db.containers ≡ some (begun out r w)
      marked = rw s.containers (
          find-updated docker true (mark_starting (out.now (slept r w.trace))) w.db.containers
            (λ x. refl) refl j.found)

      by_result :
          (done : Bool) (res : Result (Unit {0})) (n : ℕ)
          → passes out (container_restart docker ∷ w2.trace) ≡ done
          → (call out (container_restart docker) w2).0 ≡ res
          → n ≡ out.now (restarted_at docker r w.trace)
          → Steps w
              (after_mark out (crash_info out r p) docker code (ok tt, w2)).1
              1
              (updated done r.id (settled_by res n) w2.db.containers)
          → Settled out w.trace docker r u p w
              (after_mark out (crash_info out r p) docker code (ok tt, w2)).1
      by_result false res n e g now q =
          settle j _ 1 _ (begun out r w) q (Outcome.unsettled closed room (ground (arith, log)))
            refl marked
      by_result true (err x) n e g now q =
          settle j _ 1 _ (mark_stopped (begun out r w)) q
            (Outcome.failed closed room (ground (arith, log))) refl
            (find-updated docker true mark_stopped w2.db.containers (λ x. refl) refl marked)
      by_result true (ok x) n e g now q =
          settle j _ 1 _ (mark_running n (begun out r w)) q
            (subst
              (λ (m : ℕ).
                Outcome out docker w.trace p.max_auto_restarts r 1 (mark_running m (begun out r w)))
              (sym now) (Outcome.restarted closed room (ground (arith, log))))
            refl
            (find-updated docker true (mark_running n) w2.db.containers (λ x. refl) refl marked)

  from_mark :
      (q : Result (Unit {0}) × World)
      → Joined docker r u p w
      → r.circuit_open ≡ false
      → r.restart_count < p.max_auto_restarts
      → q.1.trace ≡ statement ∷ slept r w.trace
      → (((e : Error) × (q.0 ≡ err e))
          × (out.fails (statement ∷ slept r w.trace) ≡ true)
          × Steps (slept_world r w) q.1 0 w.db.containers)
        ⊎ ((q.0 ≡ ok tt)
            × Steps (slept_world r w) q.1 0 (
                update
                  (has_number r.id)
                  (mark_starting (out.now (slept r w.trace)))
                  w.db.containers))
      → Settled out w.trace docker r u p w (after_mark out (crash_info out r p) docker code q).1
  unfolding after_mark
  from_mark (err e, w2) j closed room log (inl (_, lost, s)) =
      settle j _ 0 _ r (from_log w (slept_world r w) s refl refl refl)
        (Outcome.uncounted closed room lost) refl j.found
  from_mark (err e, w2) j closed room log (inr (x, _)) = cc
  from_mark (ok tt, w2) j closed room log (inl ((e, x), _, _)) = cc
  from_mark (ok tt, w2) j closed room log (inr (_, s)) = after_mark-Settled w2 j closed room log s

  try_restart-Settled :
      Joined docker r u p w
      → r.circuit_open ≡ false
      → r.restart_count < p.max_auto_restarts
      → Settled out w.trace docker r u p w
          (try_restart out (crash_info out r p) docker code (logged statement w)).1
  unfolding try_restart crash_info
  try_restart-Settled j closed room =
      let mark = mark_starting (out.now (slept r w.trace)) in
      from_mark (update_where out (has_number r.id) mark (slept_world r w)) j closed room
        (update-trace out r.id mark (slept_world r w))
        (update_cases out r.id mark (slept_world r w))

  pub read_crash_cases :
      Joined docker r u p w
      → ((e : Error) × (read_crash out docker w ≡ (err e, (logged statement w)))
          × (out.fails (statement ∷ w.trace) ≡ true))
        ⊎ (read_crash out docker w ≡ (ok (crash_info out r p), (logged statement w)))
  unfolding read_crash
  read_crash_cases j = elim (Bool-cases (out.fails (statement ∷ w.trace))) [
    | inl lost ↦ inl (refused statement, ground arith, lost)
    | inr answered ↦ inr (ground (arith, j.found, j.user, j.plan))
  ]

  decide_Settled :
      Joined docker r u p w
      → Settled out w.trace docker r u p w
          (decide_crash out docker code (ok (crash_info out r p), (logged statement w))).1
  unfolding decide_crash crash_info
  decide_Settled j = by_tests r.circuit_open (leb p.max_auto_restarts r.restart_count) refl refl
    where
      by_tests :
          (o f : Bool)
          → r.circuit_open ≡ o
          → leb p.max_auto_restarts r.restart_count ≡ f
          → Settled out w.trace docker r u p w
              (if o
                then (ok tt, (logged statement w))
                else if f
                then give_up out (crash_info out r p) (logged statement w)
                else try_restart out (crash_info out r p) docker code (logged statement w)).1
      by_tests true f e g =
          settle j (logged statement w) 0 _ r (unchanged w) (Outcome.kept e) refl j.found
      by_tests false true e g = give_up-Settled j e (ground arith)
      by_tests false false e g = try_restart-Settled j e (ground arith)

-- A crash of a container that is in the tables leaves its row, and has asked for restarts, in the way
-- that `Outcome` tells by the calls that are refused. With the circuit open nothing changes. At the
-- plan's limit the circuit opens and no restart is asked for, and below it the counter is raised and
-- one restart is asked for, whose result is noted. Nothing changes where the row cannot be read,
-- or the statement that opens the circuit or raises the counter is refused.
pub handle_crash-Settled :
    (out : Outside) (code : ℕ) {docker : String} {r : ContainerRow} {u : UserRow} {p : PlanRow}
    (w : World)
    → Joined docker r u p w
    → Settled out w.trace docker r u p w (handle_crash out docker code w).1
unfolding handle_crash
handle_crash-Settled out code {docker} {r} {u} {p} w j = elim (read_crash_cases out code w j) [
  | inl (e, read, lost) ↦ subst family (sym read) (
      unfold decide_crash in
      settle j (logged statement w) 0 _ r (unchanged w) (Outcome.unread lost) refl j.found)
  | inr read ↦ subst family (sym read) (decide_Settled out code w j)
]
  where
    family : Result CrashInfo × World → Type 0
    family q = Settled out w.trace docker r u p w (decide_crash out docker code q).1
