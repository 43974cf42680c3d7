-- ===== src/Schema.antt =====
-- The tables of migrations/*.up.sql, the shape that the SQL statements of the program work on.
--
-- A table is the list of its rows. A column that the program's own statements always fill is not
-- null here. A time is a number. The serial counters are in `World`: they are not transactional.
use host_container.Prelude.{ℕ, String, Bool, Option, List}

pub record UserRow : Type 0 where
  pub id : ℕ
  pub name : String
  pub email : String
  pub password_hash : String
  pub email_verified_at : Option ℕ
  pub plan_id : String
  pub role : String

pub record ContainerRow : Type 0 where
  pub id : ℕ
  pub container_id : String
  pub project_name : String
  pub folder_path : List ℕ  -- the characters of the path
  pub port : String
  pub status : String
  pub user_id : ℕ
  pub started_at : Option ℕ
  pub image_name : String
  pub created_at : Option ℕ
  pub restart_count : ℕ
  pub last_restart_at : Option ℕ
  pub health_status : String
  pub oom_killed : Bool
  pub circuit_open : Bool

pub record PlanRow : Type 0 where
  pub id : String
  pub name : String
  pub max_containers : ℕ
  pub max_memory_mb : ℕ
  pub max_cpu_nanocores : ℕ
  pub auto_stop_minutes : ℕ
  pub price_usd_cents : ℕ
  pub max_networks : ℕ
  pub max_auto_restarts : ℕ

pub record NetworkRow : Type 0 where
  pub id : ℕ
  pub user_id : ℕ
  pub name : String
  pub docker_net_id : String
  pub docker_net_name : String
  pub created_at : ℕ

pub record ContainerNetworkRow : Type 0 where
  pub container_id : ℕ
  pub network_id : ℕ
  pub alias : String

pub record EmailTokenRow : Type 0 where
  pub id : ℕ
  pub user_id : ℕ
  pub token_hash : String
  pub kind : String
  pub expires_at : ℕ
  pub used_at : Option ℕ

pub record NotificationRow : Type 0 where
  pub user_id : ℕ
  pub kind : String
  pub title : String
  pub body : String
  pub read_at : Option ℕ
  pub created_at : ℕ

pub record ApiKeyRow : Type 0 where
  pub id : ℕ
  pub user_id : ℕ
  pub name : String
  pub key_hash : String
  pub key_prefix : List ℕ  -- its characters
  pub last_used_at : Option ℕ
  pub created_at : ℕ

-- `tags` and `default_ports` are JSON texts.
pub record TemplateRow : Type 0 where
  pub id : ℕ
  pub name : String
  pub description : String
  pub image : String
  pub category : String
  pub tags : String
  pub popular : Bool
  pub icon : Option String
  pub default_ports : String

pub record Db : Type 0 where
  pub users : List UserRow
  pub containers : List ContainerRow
  pub plans : List PlanRow
  pub networks : List NetworkRow
  pub container_networks : List ContainerNetworkRow
  pub email_tokens : List EmailTokenRow
  pub notifications : List NotificationRow
  pub api_keys : List ApiKeyRow
  pub templates : List TemplateRow
