-- ===== src/Entry/Start.antt =====
-- The start of the server (main.go up to the routes), with migrations_runner.go and db_config/db.go.
--
-- Reading a setting is a field of `Env`, empty where it is not set. What `time.ParseDuration` reads, and
-- whether the migrator's error is `ErrNoChange`, are parameters; the exporter of the traces, the pool,
-- the migrator and Docker's client are calls. An error here ends the process.
pub mod Order
use host_container.World.{
  Word, Outside, World, Event, Action, Result, ok, err, Error, otel_exporter, db_connect, db_ping,
  migrate_open, migrate_up, docker_client, make_dir, bad_setting, ask, call, ignore, ◌>>=◌, ◌>>◌,
  pure, fail, guard, pool,
}
use host_container.Text.{codes, text_eq, has_prefix}
use host_container.Prelude.{
  Bool, ℕ, if◌then◌else◌, ◌∷◌, List, Option, [], ◌++◌, true, drop, false, length, none, some,
}

pub record Env : Type 0 where
  pub app_addr : Word
  pub admin_addr : Word
  pub service_name : Word
  pub otel_endpoint : Word
  pub projects_base_path : Word
  pub database_url : Word
  pub auto_stop_timeout : Word

pub record Settings : Type 0 where
  pub app_addr : Word
  pub admin_addr : Word
  pub service_name : Word
  pub base_path : Word
  pub timeout : ℕ

abbrev pub or_else_text : Word → Word → Word
or_else_text w d = if text_eq w [] then d else w

abbrev pub settings_of : Env → ℕ → Settings
settings_of env timeout = record {
  app_addr = or_else_text env.app_addr (codes ":8080");
  admin_addr = or_else_text env.admin_addr (codes ":2112");
  service_name = or_else_text env.service_name (codes "my-go-service");
  base_path = or_else_text env.projects_base_path (codes "/tmp/projects");
  timeout = timeout;
}

abbrev pub pgx5 : Word
pgx5 = codes "pgx5://"

-- The loop over the two prefixes.
unfoldable pub replace_scheme : List Word → Word → Word
replace_scheme [] dsn = dsn
replace_scheme (p ∷ ps) dsn =
    let rest = replace_scheme ps dsn in
    if has_prefix p dsn then pgx5 ++ drop (length p) dsn else rest

unfoldable pub to_migrate_url : Word → Word
unfolding replace_scheme
to_migrate_url = replace_scheme (codes "postgresql://" ∷ codes "postgres://" ∷ [])

module _ (out : Outside) (no_change : List Event → Bool) where
  -- `m.Up()`; `ErrNoChange` is no error.
  unfoldable pub apply_pending : Word → Action (Unit {0})
  apply_pending url w =
      let (r, w') = call out (migrate_up url) w in
      (elim r [ ok _ ↦ ok tt | err e ↦ if no_change w'.trace then ok tt else err e ], w')

  unfoldable pub run_migrations : Word → Action (Unit {0})
  run_migrations dsn = do
    call out (migrate_open (to_migrate_url dsn))
    apply_pending (to_migrate_url dsn)

-- The pool of db_config and its `sync.Once`.
pub record DbConfig : Type 0 where
  pub is_done : Bool
  pub has_pool : Bool

module _ (out : Outside) where
  -- What `Init` returns the first time; later it does nothing and returns no error.
  unfoldable pub init_db : Word → DbConfig → Action DbConfig
  init_db dsn c = if c.is_done then pure c else do
    call out (db_connect dsn)
    call out db_ping
    pure (record { is_done = true; has_pool = true })

unfoldable pub read_timeout : Option ℕ → Action ℕ
read_timeout none = fail (bad_setting "CONTAINER_AUTO_STOP_TIMEOUT")
read_timeout (some t) = pure t

module _ (out : Outside) (no_change : List Event → Bool) (parse_duration : Word → Option ℕ) where
  -- `NewContainerManager` is the last step.
  unfoldable pub start_up : Env → Action Settings
  start_up env = do
    if text_eq env.otel_endpoint [] then pure tt else call out otel_exporter
    guard (if text_eq env.database_url [] then false else true) (bad_setting "DATABASE_URL")
    timeout ← read_timeout (parse_duration (or_else_text env.auto_stop_timeout (codes "30m")))
    init_db out env.database_url (record { is_done = false; has_pool = false })
    run_migrations out no_change env.database_url
    call out docker_client
    call out (make_dir (or_else_text env.projects_base_path (codes "/tmp/projects")))
    pure (settings_of env timeout)
