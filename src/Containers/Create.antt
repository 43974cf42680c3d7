-- ===== src/Containers/Create.antt =====
-- `CreateContainer` and `CreateContainerWithPort` (service/hostContainerService.go).
pub mod Leftover
pub mod Rollback
pub mod Limit
use host_container.Prelude.{
  ℕ, ◌*◌, String, Bool, true, false, Option, none, some, List, [], ◌∷◌, ◌++◌, if◌then◌else◌, ltb,
  length, str_eq,
}
use host_container.Schema.{PlanRow}
use host_container.World.{
  FilePath, ContainerConfig, Outside, World, Event, make_dir, remove_dir, container_create,
  container_start, container_stop, container_remove, container_inspect, Action, Result, ok, err,
  Error, plan_limit, Conn, in_tx, ask, call, clock, guard, ignore, on_error, with_tx, commit, ◌>>=◌,
  ◌>>◌, pure,
}
use host_container.Paths.{join}
use host_container.Text.{codes, concat}
use host_container.Containers.Repo.{
  ContainerInfo, get_containers_for_user, get_plan_for_user, insert_container,
}
use host_container.Containers.Exec.{pull_image_if_needed, install_packages}

-- service/ContainerHandlers.go
pub record Project : Type 0 where
  pub id : String
  pub name : String
  pub user_id : String

unfoldable pub folder_of : FilePath → Project → FilePath
folder_of base project = join (base ∷ codes project.name ∷ codes project.id ∷ [])

-- The two configurations that `ContainerCreate` is given; only the method without a port sets a
-- command, and only the one with a port exposes one.
unfoldable pub container_config :
    FilePath → PlanRow → Project → String → Option String → Option String → ContainerConfig
container_config folder plan project image cmd port = record {
  image = image;
  cmd = cmd;
  user_label = project.user_id;
  mount_source = folder;
  mount_target = "/workspace";
  memory = plan.max_memory_mb * 1024 * 1024;
  nano_cpus = plan.max_cpu_nanocores;
  exposed_port = port;
}

unfoldable pub new_info : String → FilePath → Project → String → String → ℕ → ContainerInfo
new_info cid folder project image port now = record {
  container_id = cid;
  project_id = project.id;
  project_name = project.name;
  image_name = image;
  folder_path = folder;
  port = port;
  status = "running";
  user_id = project.user_id;
  started_at = some now;
  auto_stop_at = none;
  created_at = some now;
}

-- Stored as "hostPort:containerPort".
unfoldable pub port_entry : String → String → String
port_entry assigned container_port =
    if str_eq assigned "" then "" else concat assigned (concat ":" container_port)

module _ (out : Outside) (base : FilePath) where
  -- The plan's limit, read in the transaction.
  unfoldable pub check_limit : Project → Action PlanRow
  check_limit project = do
    (user, containers) ← get_containers_for_user out in_tx project.user_id
    plan ← get_plan_for_user out in_tx project.user_id
    guard (ltb (length containers) plan.max_containers) (plan_limit plan.name plan.max_containers)
    pure plan

  discard_container : String → Action (Unit {0})
  discard_container cid = do ignore (call out (container_stop cid)); call out (container_remove cid)

  -- From a created container to its committed row.
  unfoldable pub launch : Project → String → FilePath → String → Action ContainerInfo
  launch project image folder cid = do
    call out (container_start cid)
    ignore (install_packages out cid (codes "tree" ∷ []))
    now ← clock out
    let info = new_info cid folder project image "" now
    id ← insert_container out in_tx info
    commit out
    pure (record info { project_id = id })

  -- From an existing folder on.
  unfoldable pub build : PlanRow → Project → String → FilePath → Action ContainerInfo
  unfolding discard_container
  build plan project image folder =
      on_error
        (do
          cid ←
              ask out
                (container_create
                  (container_config folder plan project image (some "/bin/sh") none))
                out.text
          on_error (launch project image folder cid) (discard_container cid))
        (call out (remove_dir folder))

  unfoldable pub create_container : Project → String → Action ContainerInfo
  create_container project image = with_tx out (do
    plan ← check_limit project
    pull_image_if_needed out image
    let folder = folder_of base project
    call out (make_dir folder)
    build plan project image folder)

  -- From a started container to its committed row. No failure from here on is cleaned up after.
  unfoldable pub register : Project → String → String → FilePath → String → Action ContainerInfo
  register project image container_port folder cid = do
    ignore (install_packages out cid (codes "tree" ∷ []))
    assigned ← ask out (container_inspect cid) out.text
    now ← clock out
    let info = new_info cid folder project image (port_entry assigned container_port) now
    id ← insert_container out in_tx info
    commit out
    pure (record info { project_id = id })

  unfoldable pub build_with_port :
      PlanRow → Project → String → String → FilePath → Action ContainerInfo
  build_with_port plan project image container_port folder = do
    cid ←
        on_error
          (ask out
            (container_create
              (container_config folder plan project image none (some container_port)))
            out.text)
          (call out (remove_dir folder))
    on_error (call out (container_start cid))
        (do ignore (call out (container_remove cid)); call out (remove_dir folder))
    register project image container_port folder cid

  unfoldable pub create_container_with_port : Project → String → String → Action ContainerInfo
  create_container_with_port project image container_port = with_tx out (do
    plan ← check_limit project
    pull_image_if_needed out image
    let folder = folder_of base project
    call out (make_dir folder)
    build_with_port plan project image container_port folder)
