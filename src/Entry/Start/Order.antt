-- ===== src/Entry/Start/Order.antt =====
-- The order of the start, and what stops it.
use host_container.World.{
  Word, Outside, World, Event, Error, Result, ok, err, refused, logged, otel_exporter, db_connect,
  db_ping, migrate_open, migrate_up, docker_client, make_dir, bad_setting,
}
use host_container.Text.{codes, text_eq}
use host_container.Entry.Start.{
  Env, Settings, to_migrate_url, run_migrations, init_db, start_up, apply_pending, read_timeout,
}
use host_container.Prelude.{
  List, ◌∷◌, Bool, [], if◌then◌else◌, ◌++◌, false, true, not, Option, ℕ, some, none, refl, ◌≡◌,
  arith, ◌&&◌,
}

-- A step before the server listens: a call, a call that a refusal may stand for "nothing to do", or a
-- setting that must hold.
pub data StartStep : Type 0 where
  calls : Event → StartStep
  calls_if : Bool → Event → StartStep
  calls_unless_done : Event → StartStep
  needs : Bool → Error → StartStep

abbrev pub or_default : Word → Word → Word
or_default setting fallback = if text_eq setting [] then fallback else setting

abbrev pub is_read : Option ℕ → Bool
is_read none = false
is_read (some t) = true

-- The URL is the one that the migrator is given, and the timeout is what was read of its setting.
abbrev pub plan_of : Env → Word → Option ℕ → List StartStep
plan_of env url timeout =
    calls_if (not (text_eq env.otel_endpoint [])) otel_exporter
    ∷ needs (not (text_eq env.database_url [])) (bad_setting "DATABASE_URL")
    ∷ needs (is_read timeout) (bad_setting "CONTAINER_AUTO_STOP_TIMEOUT")
    ∷ calls (db_connect env.database_url)
    ∷ calls db_ping
    ∷ calls (migrate_open url)
    ∷ calls_unless_done (migrate_up url)
    ∷ calls docker_client
    ∷ calls (make_dir (or_default env.projects_base_path (codes "/tmp/projects")))
    ∷ []

-- The settings of an environment, with the code's defaults.
abbrev pub settings : Env → ℕ → Settings
settings env timeout = record {
  app_addr = or_default env.app_addr (codes ":8080");
  admin_addr = or_default env.admin_addr (codes ":2112");
  service_name = or_default env.service_name (codes "my-go-service");
  base_path = or_default env.projects_base_path (codes "/tmp/projects");
  timeout = timeout;
}

module _ (out : Outside) (no_change : List Event → Bool) where
  -- The steps in turn, up to the first that stops them.
  abbrev pub run_steps : {A : Type 0} → List StartStep → A → World → Result A × World
  run_steps [] a w = (ok a, w)
  run_steps (calls e ∷ ss) a w =
      let rest = run_steps ss a (logged e w) in
      if out.fails (e ∷ w.trace) then (err (refused e), logged e w) else rest
  run_steps (calls_if b e ∷ ss) a w =
      let rest = run_steps ss a (logged e w) in
      let without = run_steps ss a w in
      if b
      then (if out.fails (e ∷ w.trace) then (err (refused e), logged e w) else rest)
      else without
  run_steps (calls_unless_done e ∷ ss) a w =
      let rest = run_steps ss a (logged e w) in
      if out.fails (e ∷ w.trace) && not (no_change (e ∷ w.trace))
      then (err (refused e), logged e w)
      else rest
  run_steps (needs b e ∷ ss) a w = let rest = run_steps ss a w in if b then rest else (err e, w)

  module _ (parse_duration : Word → Option ℕ) (env : Env) where
    abbrev pub timeout_of : Option ℕ
    timeout_of = parse_duration (or_default env.auto_stop_timeout (codes "30m"))

    abbrev pub or_zero : Option ℕ → ℕ
    or_zero none = 0
    or_zero (some t) = t

    -- A start does what the steps of its plan do in turn: it stops at the first call that is refused (a
    -- migration that has nothing left to do is none) or setting that is missing, with that error, or ends
    -- with the settings of the environment and the code's defaults. The migrator is given the URL of the
    -- database with "pgx5" for "postgres" or "postgresql".
    pub start_up-run_steps :
        (w : World)
        → (start_up out no_change parse_duration env w
            ≡ run_steps
                (plan_of env (to_migrate_url env.database_url) timeout_of)
                (settings env (or_zero timeout_of))
                w)
          × ((rest : Word)
              → (to_migrate_url (codes "postgres://" ++ rest) ≡ codes "pgx5://" ++ rest)
                × (to_migrate_url (codes "postgresql://" ++ rest) ≡ codes "pgx5://" ++ rest))
    unfolding start_up init_db run_migrations apply_pending read_timeout to_migrate_url
    start_up-run_steps w = (ground arith, λ rest. (refl, refl))
