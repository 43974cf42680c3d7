-- ===== src/Tests.antt =====
-- A small installation to try the theorems on: one user on the plan `free`, with one container.
-- The children hold one example per theorem.
mod Accounts
mod Passwords
mod Entrances
mod Links
mod Pages
mod Buses
mod Containers
mod Creation
mod Crashes
mod Requests
mod Servers
mod Sockets
mod Catalogues
use host_container.Prelude.{
  ℕ, zero, suc, ◌≡◌, refl, ap, String, Bool, true, false, Option, none, some, List, [], ◌∷◌, length,
}
use Prim.Native.String.{◌∷◌ as cons}
use host_container.Schema.{
  Db, UserRow, PlanRow, ContainerRow, NetworkRow, ContainerNetworkRow, EmailTokenRow, TemplateRow,
}
use host_container.Bus.{Notification, Bus, empty, subscribe}
use host_container.Bus.Invariant.{IsValid, empty-IsValid, subscribe-IsValid}
use host_container.World.{Outside, World, Bigint, nonneg, Event, CastLaws}
use host_container.Text.{codes}
use host_container.Containers.Create.{Project}

-- A number is written with as many strokes.
abbrev pub strokes : ℕ → String
strokes zero = ""
strokes (suc n) = cons "1" (strokes n)

abbrev pub strokes_of : String → Option Bigint
strokes_of s = some (nonneg (length (codes s)))

length-strokes : (n : ℕ) → length (codes (strokes n)) ≡ n
length-strokes zero = refl
length-strokes (suc n) = ap suc (length-strokes n)

-- No call fails; each returns the text "x" and takes a second.
abbrev pub calm : Outside
calm = record {
  fails = λ t. false;
  text = λ t. "x";
  error_text = λ t. "";
  now = λ t. length t;
  to_bigint = strokes_of;
  to_text = strokes;
  texts = λ t. [];
  to_uuid = λ s. some (length (codes s));
  uuid_text = strokes;
  new_uuid = λ t. length t;
}

-- Every call fails.
abbrev pub down : Outside
down = record calm { fails = λ t. true }

pub calm_laws : CastLaws calm
calm_laws = record { read_back = λ n. ap (λ (k : ℕ). some (nonneg k)) (length-strokes n) }

abbrev pub ann : UserRow
ann = record {
  id = 1;
  name = "ann";
  email = "a@b";
  password_hash = "h";
  email_verified_at = none;
  plan_id = "free";
  role = "user";
}

abbrev pub free : PlanRow
free = record {
  id = "free";
  name = "Free";
  max_containers = 2;
  max_memory_mb = 256;
  max_cpu_nanocores = 500;
  auto_stop_minutes = 60;
  price_usd_cents = 0;
  max_networks = 1;
  max_auto_restarts = 2;
}

abbrev pub site : ContainerRow
site = record {
  id = 1;
  container_id = "abc";
  project_name = "site";
  folder_path = codes "/p/site";
  port = "";
  status = "running";
  user_id = 1;
  started_at = some 0;
  image_name = "nginx";
  created_at = some 0;
  restart_count = 1;
  last_restart_at = none;
  health_status = "none";
  oom_killed = false;
  circuit_open = false;
}

abbrev pub token : EmailTokenRow
token = record {
  id = 0;
  user_id = 1;
  token_hash = "t";
  kind = "reset";
  expires_at = 90;
  used_at = none;
}

abbrev pub nginx : TemplateRow
nginx = record {
  id = 1;
  name = "Nginx";
  description = "web server";
  image = "nginx";
  category = "web";
  tags = "[]";
  popular = true;
  icon = none;
  default_ports = "[]";
}

abbrev pub db : Db
db = record {
  users = ann ∷ [];
  containers = site ∷ [];
  plans = free ∷ [];
  networks = [];
  container_networks = record { container_id = 1; network_id = 1; alias = "site" } ∷ [];
  email_tokens = token ∷ [];
  notifications = [];
  api_keys = [];
  templates = nginx ∷ [];
}

-- The user `1` listens.
pub listening : Bus
listening = (subscribe "1" empty).1

pub listening-IsValid : IsValid listening
unfolding listening
listening-IsValid = subscribe-IsValid "1" empty empty-IsValid

abbrev pub start : World
start = record {
  db = db;
  tx = none;
  bus = listening;
  trace = [];
  container_seq = 2;
  user_seq = 2;
  jobs = [];
}

abbrev pub blog : Project
blog = record { id = "7"; name = "blog"; user_id = "1" }

abbrev pub note : Notification
note = record { id = "n"; kind = "k"; title = "t"; body = "b"; created_at = 0 }
