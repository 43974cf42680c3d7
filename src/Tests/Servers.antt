-- ===== src/Tests/Servers.antt =====
-- Examples: the start of the server, its routes and their guards.
use host_container.World.{Word}
use host_container.Entry.Serve.{Config, serve}
use host_container.Entry.Serve.Unstreamed.{KeepsLacks, serve-unstreamed}
use host_container.Entry.Start.{Env, start_up, to_migrate_url}
use host_container.Entry.Start.Order.{plan_of, settings, run_steps, start_up-run_steps}
use host_container.Entry.Routes.{notification_stream}
use host_container.Templates.{Json}
use host_container.Tests.{calm, down, start, World, Event, codes}
use host_container.Tests.Entrances.{small_jwt, bearing}
use host_container.Tests.Passwords.{all_valid}
use host_container.Prelude.{
  ◌≡◌, none, List, String, true, [], ◌⊎◌, Bool, false, some, Option, ℕ, ◌++◌,
}

abbrev text_of : String → String
text_of s = s

abbrev every : String → String → Bool
every s t = true

abbrev no_json : Json
no_json = record { tags_of = λ s. none; ports_of = λ s. none }

abbrev config : Config
config = record {
  out = calm;
  jwt = small_jwt;
  hash_key = text_of;
  hash_token = text_of;
  validator = all_valid;
  valid_key_name = λ s. true;
  verify_password = every;
  base_path = codes "/tmp/projects";
  auto_stop_timeout = 30;
  like = every;
  lower = text_of;
  to_lower = text_of;
  today = 0;
  scan_time = λ t. none;
  json = no_json;
  collation = every;
  allowed_origins = codes "https://a.b";
  unmarshal_resize = λ m. none;
  log_time = λ n. n;
  log_accepts = λ es. true;
  writer = record { hijacks = true; flushes = true };
  instrument = λ w. w;
}

as_is-KeepsLacks : KeepsLacks config.instrument
as_is-KeepsLacks = record { no_flusher = λ w h. h }

serve-unstreamed_example :
    (((serve config (notification_stream []) bearing start).0.status ≡ 401)
      ⊎ ((serve config (notification_stream []) bearing start).0.status ≡ 500))
    × ((serve config (notification_stream []) bearing start).1 ≡ start)
serve-unstreamed_example = serve-unstreamed config as_is-KeepsLacks [] bearing start

abbrev env : Env
env = record {
  app_addr = [];
  admin_addr = [];
  service_name = [];
  otel_endpoint = [];
  projects_base_path = [];
  database_url = codes "postgres://db";
  auto_stop_timeout = [];
}

abbrev changed : List Event → Bool
changed t = false

abbrev half_hour : Word → Option ℕ
half_hour s = some 1800

start_up-run_steps_example :
    (start_up down changed half_hour env start
      ≡ run_steps down changed
          (plan_of env (to_migrate_url env.database_url) (some 1800))
          (settings env 1800)
          start)
    × ((rest : Word)
        → (to_migrate_url (codes "postgres://" ++ rest) ≡ codes "pgx5://" ++ rest)
          × (to_migrate_url (codes "postgresql://" ++ rest) ≡ codes "pgx5://" ++ rest))
start_up-run_steps_example = start_up-run_steps down changed half_hour env start
