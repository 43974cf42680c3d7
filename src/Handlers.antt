-- ===== src/Handlers.antt =====
-- The HTTP handlers of the containers (service/ContainerHandlers.go): the guards of each request,
-- the call of the manager, and the status that its result is answered with.
pub mod Files
pub mod Guards
use host_container.Prelude.{
  map, ℕ, String, Bool, true, false, ◌&&◌, ◌||◌, not, Option, none, some, List, [], ◌∷◌,
  if◌then◌else◌, str_eq,
}
use host_container.Schema.{Db, UserRow, ContainerRow, PlanRow}
use host_container.Tables.{find}
use host_container.World.{
  FilePath, Word, Outside, World, random_read, Action, Result, ok, err, Error, no_rows, Conn, pool,
  matches, ask, query, cast, ◌>>=◌, ◌>>◌,
}
use host_container.Text.{codes}
use host_container.Containers.Repo.{ContainerInfo}
use host_container.Containers.Exec.{exec_command}
use host_container.Containers.Create.{Project, create_container, create_container_with_port}
use host_container.Containers.Lifecycle.{
  start_container, stop_container, remove_container, get_container_info,
}
use host_container.Folder.{Tree}
use host_container.Recovery.{reset_circuit}
use host_container.Http.{
  Method, is_get, is_post, is_delete, Body, message, failed, payload, Response, Handler, respond,
  unless, answer, is_given, or_default,
}

pub record Health : Type 0 where
  pub restart_count : ℕ
  pub last_restart_at : Option ℕ
  pub health_status : String
  pub oom_killed : Bool
  pub circuit_open : Bool
  pub max_restarts : ℕ

-- The data of a reply.
pub data Payload : Type 0 where
  found : ContainerInfo → Payload
  output : String → Payload
  tree : Tree → Payload
  written : FilePath → Payload
  attachment : FilePath → String → Payload  -- the file's name and its content
  health : Health → Payload

-- Lines 174 to 178, and so in each handler of one container.
abbrev pub with_project : Bool → String → Handler Payload → Handler Payload
with_project method_ok project_id rest =
    unless method_ok 405 "method not allowed"
      (unless (is_given project_id) 400 "project_id is required" rest)

unfoldable pub holds_image : String → List String → Bool
holds_image image [] = false
holds_image image (i ∷ is) = str_eq i image || holds_image image is

-- The templates' images, unless there are none or they cannot be read, are the only ones.
unfoldable pub is_allowed : String → Result (List String) → Bool
is_allowed image (err e) = true
is_allowed image (ok []) = true
is_allowed image (ok (i ∷ is)) = holds_image image (i ∷ is)

pub record CreateRequest : Type 0 where
  pub project : Project
  pub image : String
  pub port : String

module _ (out : Outside) (base : FilePath) where
  -- repository/templateRepo.go
  unfoldable pub get_allowed_images : Action (List String)
  get_allowed_images = query out pool (λ d. ok (map (λ t. t.image) d.templates))

  unfoldable pub run_create : CreateRequest → Handler Payload
  run_create req =
      answer
        (if is_given req.port
          then create_container_with_port out base req.project req.image req.port
          else create_container out base req.project req.image)
        (λ e. respond 500 (failed e)) (λ info. respond 201 (payload (found info)))

  unfoldable pub check_image : CreateRequest → Handler Payload
  check_image req w =
      let (allowed, w') = get_allowed_images w in
      unless (is_allowed req.image allowed) 400 "image not allowed — choose a predefined template"
        (run_create req) w'

  -- `uuid.New` reads the random source, and panics where that fails.
  abbrev with_id : CreateRequest → (CreateRequest → Handler Payload) → Handler Payload
  with_id req rest =
      if is_given req.project.id
      then rest req
      else answer (ask out random_read out.text) (λ e. respond 500 (failed e))
          (λ id. rest (record req { project = record (req.project) { id = id } }))

  -- `none` is a body that does not decode.
  unfoldable pub create : Method → Option CreateRequest → Handler Payload
  create m body = unless (is_post m) 405 "method not allowed" (elim body [
    | none ↦ respond 400 (message "invalid request body")
    | some req ↦ unless (is_given req.project.name) 400 "project name is required" (
        unless (is_given req.project.user_id) 400 "user Id is required"
          (with_id req λ r. check_image (record r { image = or_default r.image "alpine:latest" })))
  ])

module _ (out : Outside) where
  -- The manager's timeout of the automatic stop comes first.
  pub get_container : ℕ → Method → String → Handler Payload
  get_container timeout m project_id = with_project (is_get m) project_id (
      answer (get_container_info out timeout project_id) (λ e. respond 404 (failed e))
        (λ info. respond 200 (payload (found info))))

  pub start : Method → String → Handler Payload
  start m project_id = with_project (is_post m) project_id (
      answer (start_container out project_id) (λ e. respond 500 (failed e))
        (λ _. respond 200 (message "container started")))

  pub stop : Method → String → Handler Payload
  stop m project_id = with_project (is_post m) project_id (
      answer (stop_container out project_id) (λ e. respond 500 (failed e))
        (λ _. respond 200 (message "container stopped")))

  pub remove : Method → String → String → Handler Payload
  remove m project_id remove_folder = with_project (is_delete m) project_id (
      answer (remove_container out project_id (str_eq remove_folder "true"))
        (λ e. respond 500 (failed e)) (λ _. respond 200 (message "container removed")))

  -- What the command wrote to stderr takes the place of its output.
  pub exec : Method → String → Option (List Word) → Handler Payload
  exec m project_id body = with_project (is_post m) project_id (elim body [
    | none ↦ respond 400 (message "invalid request body")
    | some [] ↦ respond 400 (message "command is required")
    | some (w ∷ ws) ↦
        answer (exec_command out project_id (w ∷ ws)) (λ e. respond 500 (failed e))
          (λ (o : String × String). respond 200 (payload (output (or_default o.1 o.0))))
  ])

  health_of : ContainerRow → PlanRow → Health
  health_of r p = record {
    restart_count = r.restart_count;
    last_restart_at = r.last_restart_at;
    health_status = r.health_status;
    oom_killed = r.oom_killed;
    circuit_open = r.circuit_open;
    max_restarts = p.max_auto_restarts;
  }

  -- The container joined with its user and the user's plan, if that user owns it.
  unfoldable pub read_health : String → String → Action Health
  unfolding health_of
  read_health project_id user_id = query out pool λ d. cast out project_id λ k.
      cast out user_id λ u. elim (find (λ r. matches k r.id && matches u r.user_id) d.containers) [
        | none ↦ err no_rows
        | some r ↦ elim (find (λ (x : UserRow). matches u x.id) d.users) [
          | none ↦ err no_rows
          | some x ↦ elim (find (λ p. str_eq p.id x.plan_id) d.plans) [
            | none ↦ err no_rows
            | some p ↦ ok (health_of r p)
          ]
        ]
      ]

  pub get_health : Method → String → String → Handler Payload
  get_health m user_id project_id = unless (is_get m) 405 "method not allowed" (
      unless (is_given project_id) 400 "project_id required" (
        answer (read_health project_id user_id) (λ e. respond 404 (message "container not found"))
          (λ h. respond 200 (payload (health h)))))

  -- The first argument says whether the recovery service was set.
  pub reset : Bool → Method → String → String → Handler Payload
  reset has_recovery m user_id project_id = unless (is_post m) 405 "method not allowed" (
      unless has_recovery 500 "recovery service unavailable" (
        unless (is_given project_id) 400 "project_id required" (
          answer (reset_circuit out user_id project_id) (λ e. respond 400 (failed e))
            (λ _. respond 200 (message "")))))
