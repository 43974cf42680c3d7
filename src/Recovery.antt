-- ===== src/Recovery.antt =====
-- The circuit breaker that restarts crashed containers: service/recoveryService.go.
--
-- A handler is one action: two that run at the same time (each has its goroutine) are not
-- interleaved here. Events.Loop cuts that of a crash in two, at its sleep. A sleep is an event of the trace, in seconds.
pub mod Backoff
pub mod Steps
pub mod Outcome
pub mod Crash
pub mod Bound
pub mod Health
use host_container.Prelude.{
  ℕ, ◌+◌, ◌-◌, String, Bool, true, false, Option, none, some, List, [], ◌∷◌, ◌++◌, if◌then◌else◌,
  leb, ltb, ◌==◌, length, str_eq, ◌&&◌, get_or,
}
use host_container.Schema.{Db, UserRow, ContainerRow, PlanRow, NotificationRow}
use host_container.Tables.{find, update, count}
use host_container.World.{
  Outside, World, Event, statement, container_restart, sleeps, Action, Result, ok, err, Error,
  no_rows, access_denied, Bigint, nonneg, negative, matches, Conn, pool, call, cast, query, exec,
  ignore, logged, publish_live, ◌>>=◌, ◌>>◌, pure, fail,
}
use host_container.Bus.{Notification}
use host_container.Text.{concat}

-- backoffDelays, in seconds
abbrev pub backoff_delays : List ℕ
backoff_delays = 5 ∷ 10 ∷ 20 ∷ 40 ∷ 60 ∷ []

-- The index is capped at the last entry.
pub delay_idx : ℕ → ℕ
delay_idx restart_count =
    if leb (length backoff_delays) restart_count then length backoff_delays - 1 else restart_count

-- What the query of `HandleCrash` reads.
pub record CrashInfo : Type 0 where
  pub project_id : ℕ
  pub project_name : String
  pub user_id : String
  pub restart_count : ℕ
  pub circuit_open : Bool
  pub max_restarts : ℕ

abbrev pub is_docker_id : String → ContainerRow → Bool
is_docker_id docker_id r = str_eq r.container_id docker_id

abbrev pub user_of : ContainerRow → Db → Option UserRow
user_of r d = find (λ u. u.id == r.user_id) d.users

abbrev pub plan_of : UserRow → Db → Option PlanRow
plan_of u d = find (λ p. str_eq p.id u.plan_id) d.plans

unfoldable pub crash_info : Outside → ContainerRow → PlanRow → CrashInfo
crash_info out r p = record {
  project_id = r.id;
  project_name = r.project_name;
  user_id = out.to_text r.user_id;
  restart_count = r.restart_count;
  circuit_open = r.circuit_open;
  max_restarts = p.max_auto_restarts;
}

abbrev pub has_number : ℕ → ContainerRow → Bool
has_number id r = id == r.id

unfoldable pub open_circuit : ContainerRow → ContainerRow
open_circuit r = record r { circuit_open = true; status = "stopped" }

unfoldable pub mark_starting : ℕ → ContainerRow → ContainerRow
mark_starting now r = record r {
  restart_count = r.restart_count + 1;
  last_restart_at = some now;
  status = "starting";
}

unfoldable pub mark_stopped : ContainerRow → ContainerRow
mark_stopped r = record r { status = "stopped" }

unfoldable pub mark_running : ℕ → ContainerRow → ContainerRow
mark_running now r = record r { status = "running"; started_at = some now }

unfoldable pub mark_oom : ContainerRow → ContainerRow
mark_oom r = record r { oom_killed = true }

unfoldable pub set_health : String → ContainerRow → ContainerRow
set_health status r = record r { health_status = status }

unfoldable pub reset : ContainerRow → ContainerRow
reset r = record r { circuit_open = false; restart_count = 0; oom_killed = false }

quoted : String → String → String
quoted name rest = concat "Container \"" (concat name (concat "\"" rest))

module _ (out : Outside) where
  -- An UPDATE of containers on the pool.
  unfoldable pub update_where :
      (ContainerRow → Bool) → (ContainerRow → ContainerRow) → Action (Unit {0})
  update_where p f = exec out pool λ d. ok (tt, record d { containers = update p f d.containers })

  unfoldable pub insert_notification : String → Notification → Action (Unit {0})
  insert_notification user n w =
      let now = out.now w.trace in
      exec out pool
        (λ d. cast out user λ k. elim k [
          | nonneg id ↦ ok (
            tt,
            record d {
              notifications =
                  d.notifications
                  ++ record {
                    user_id = id;
                    kind = n.kind;
                    title = n.title;
                    body = n.body;
                    read_at = none;
                    created_at = now;
                  }
                    ∷ [];
            },
          )
          | negative _ ↦ err no_rows
        ])
        w

  unfoldable pub persist_and_notify : String → Notification → Action (Unit {0})
  persist_and_notify user n = do ignore (insert_notification user n); publish_live user n

  circuit_notice : CrashInfo → World → Notification
  circuit_notice c w = record {
    id = out.text w.trace;
    kind = "circuit_breaker_opened";
    title = quoted c.project_name " permanently stopped";
    body = concat "Restarted " (
        concat (out.to_text c.restart_count)
          " times without success. Circuit breaker opened. Fix the issue and reset manually.");
    created_at = out.now w.trace;
  }

  restart_notice : CrashInfo → ℕ → World → Notification
  restart_notice c exit_code w = record {
    id = out.text w.trace;
    kind = "container_restarted";
    title = quoted c.project_name " restarted";
    body = concat "Auto-restarted after crash (exit code " (
        concat (out.to_text exit_code) (
          concat "). Attempt " (
            concat (out.to_text (c.restart_count + 1))
              (concat " of " (concat (out.to_text c.max_restarts) ".")))));
    created_at = out.now w.trace;
  }

  unfoldable pub read_crash : String → Action CrashInfo
  read_crash docker_id = query out pool λ d. elim (find (is_docker_id docker_id) d.containers) [
    | none ↦ err no_rows
    | some r ↦ elim (user_of r d) [
      | none ↦ err no_rows
      | some u ↦ elim (plan_of u d) [ none ↦ err no_rows | some p ↦ ok (crash_info out r p) ]
    ]
  ]

  -- No restart any more: the circuit opens.
  pub give_up : CrashInfo → Action (Unit {0})
  give_up c w =
      let w1 = (update_where (has_number c.project_id) open_circuit w).1 in
      persist_and_notify c.user_id (circuit_notice c w1) w1

  -- What follows the call of `ContainerRestart`, by its result.
  pub after_restart : CrashInfo → ℕ → Result (Unit {0}) × World → Result (Unit {0}) × World
  after_restart c exit_code (err _, w) =
      (ok tt, (update_where (has_number c.project_id) mark_stopped w).1)
  after_restart c exit_code (ok _, w) =
      let w1 = (update_where (has_number c.project_id) (mark_running (out.now w.trace)) w).1 in
      persist_and_notify c.user_id (restart_notice c exit_code w1) w1

  -- What follows the statement that raises the counter: if that is refused nothing more is done.
  unfoldable pub after_mark :
      CrashInfo → String → ℕ → Result (Unit {0}) × World → Result (Unit {0}) × World
  after_mark c docker_id exit_code (err _, w) = (ok tt, w)
  after_mark c docker_id exit_code (ok _, w) =
      after_restart c exit_code (call out (container_restart docker_id) w)

  unfoldable pub try_restart : CrashInfo → String → ℕ → Action (Unit {0})
  try_restart c docker_id exit_code w =
      let w1 = logged (sleeps (get_or backoff_delays (delay_idx c.restart_count) 0)) w in
      after_mark c docker_id exit_code
        (update_where (has_number c.project_id) (mark_starting (out.now w1.trace)) w1)

  unfoldable pub decide_crash : String → ℕ → Result CrashInfo × World → Result (Unit {0}) × World
  decide_crash docker_id exit_code (err _, w) = (ok tt, w)
  decide_crash docker_id exit_code (ok c, w) =
      if c.circuit_open
      then (ok tt, w)
      else if leb c.max_restarts c.restart_count
      then give_up c w
      else try_restart c docker_id exit_code w

  unfoldable pub handle_crash : String → ℕ → Action (Unit {0})
  unfolding decide_crash
  handle_crash docker_id exit_code w = decide_crash docker_id exit_code (read_crash docker_id w)

  unfoldable pub handle_oom : String → Action (Unit {0})
  handle_oom docker_id = ignore (update_where (is_docker_id docker_id) mark_oom)

  pub unhealthy_notice : String → World → Notification
  unhealthy_notice name w = record {
    id = out.text w.trace;
    kind = "container_unhealthy";
    title = quoted name " is unhealthy";
    body = "Health check is failing. Check your application logs.";
    created_at = out.now w.trace;
  }

  unfoldable pub read_owner : String → Action (String × String)
  read_owner docker_id = query out pool λ d. elim (find (is_docker_id docker_id) d.containers) [
    | none ↦ err no_rows
    | some r ↦ ok (r.project_name, out.to_text r.user_id)
  ]

  unfoldable pub notify_owner : Result (String × String) × World → Result (Unit {0}) × World
  notify_owner (err _, w) = (ok tt, w)
  notify_owner (ok (name, user), w) = persist_and_notify user (unhealthy_notice name w) w

  unfoldable pub handle_health_change : String → String → Action (Unit {0})
  handle_health_change docker_id status = do
    ignore (update_where (is_docker_id docker_id) (set_health status))
    if str_eq status "unhealthy" then (λ w. notify_owner (read_owner docker_id w)) else pure tt

  -- An error and no row alike are refused.
  unfoldable pub reset_circuit : String → String → Action (Unit {0})
  reset_circuit user project w =
      let owns = λ (u k : Bigint) (r : ContainerRow). matches k r.id && matches u r.user_id in
      let (r, w') =
        exec out pool
          (λ d. cast out project λ k. cast out user λ u.
            if count (owns u k) d.containers == 0
            then err access_denied
            else ok (tt, record d { containers = update (owns u k) reset d.containers }))
          w in
      (elim r [ ok _ ↦ ok tt | err _ ↦ err access_denied ], w')
