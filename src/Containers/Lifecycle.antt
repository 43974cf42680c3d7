-- ===== src/Containers/Lifecycle.antt =====
-- Start, stop, remove, look up and stop by age: service/hostContainerService.go.
pub mod Atomicity
pub mod Removal
pub mod AutoStop
use host_container.Prelude.{
  ℕ, ◌+◌, String, Bool, true, false, ◌&&◌, Option, none, some, List, [], ◌∷◌, ◌++◌, map,
  if◌then◌else◌, ◌==◌, str_eq,
}
use host_container.Schema.{Db, ContainerRow, NetworkRow, ContainerNetworkRow}
use host_container.Tables.{find, select, update}
use host_container.World.{
  FilePath, Outside, World, Event, statement, container_start, container_stop, container_remove,
  network_disconnect, remove_dir, Action, Result, ok, err, Error, container_not_found, Conn, pool,
  in_tx, Bigint, matches, ask, call, clock, query, exec, cast, ignore, or_else, with_tx, commit,
  publish_live, ◌>>=◌, ◌>>◌, pure,
}
use host_container.Bus.{Notification}
use host_container.Text.{concat}
use host_container.Containers.Repo.{
  ContainerInfo, has_id, get_container_by_id, update_container, delete_container,
  get_running_older_than,
}

-- UPDATE containers SET health_status='none', oom_killed=false, circuit_open=false
unfoldable pub clear_health : ContainerRow → ContainerRow
clear_health r = record r { health_status = "none"; oom_killed = false; circuit_open = false }

abbrev docker_ids : ℕ → List NetworkRow → List String
docker_ids id networks = map (λ n. n.docker_net_id) (select (λ n. n.id == id) networks)

ids_of_members : Bigint → List NetworkRow → List ContainerNetworkRow → List String
ids_of_members k networks [] = []
ids_of_members k networks (m ∷ ms) =
    (if matches k m.container_id then docker_ids m.network_id networks else [])
    ++ ids_of_members k networks ms

-- The docker ids of the networks that the container is a member of.
unfoldable pub network_ids : Bigint → Db → List String
unfolding ids_of_members
network_ids k d = ids_of_members k d.networks d.container_networks

pub auto_stop_notice : ContainerInfo → ℕ → Notification
auto_stop_notice c now = record {
  id = c.project_id;
  kind = "container_auto_stopped";
  title = "Container auto-stopped";
  body =
      concat "Container \""
        (concat c.project_name "\" was automatically stopped after the idle timeout.");
  created_at = now;
}

module _ (out : Outside) where
  abbrev pub look_up : Conn → String → Action ContainerInfo
  look_up c id = or_else (get_container_by_id out c id) (container_not_found id)

  unfoldable pub stop_container : String → Action (Unit {0})
  stop_container project_id = with_tx out (do
    info ← look_up pool project_id
    update_container out in_tx info.project_id (record info { status = "stopped" })
    call out (container_stop info.container_id)
    commit out)

  unfoldable pub reset_health : String → Action (Unit {0})
  reset_health id = exec out pool λ d.
      cast out id
        λ k. ok (tt, record d { containers = update (has_id k) clear_health d.containers })

  unfoldable pub start_container : String → Action (Unit {0})
  start_container project_id = with_tx out (do
    info ← look_up pool project_id
    now ← clock out
    update_container out in_tx info.project_id
        (record info { status = "running"; started_at = some now })
    call out (container_start info.container_id)
    commit out
    ignore (reset_health info.project_id))

  unfoldable pub disconnect_all : List String → String → Action (Unit {0})
  disconnect_all [] cid w = (ok tt, w)
  disconnect_all (n ∷ ns) cid w =
      disconnect_all ns cid (call out (network_disconnect n cid true) w).1

  -- An error of the query leaves no rows to read.
  unfoldable pub collect_networks : String → Action (List String)
  collect_networks project_id w =
      let (r, w') = query out pool (λ d. cast out project_id λ k. ok (network_ids k d)) w in
      (ok (elim r [ ok ids ↦ ids | err _ ↦ [] ]), w')

  -- After the commit nothing is undone: what fails is only logged.
  unfoldable pub clean_up : List String → ContainerInfo → Bool → Action (Unit {0})
  clean_up nets info remove_folder = do
    disconnect_all nets info.container_id
    ignore (call out (container_stop info.container_id))
    ignore (call out (container_remove info.container_id))
    if remove_folder then ignore (call out (remove_dir info.folder_path)) else pure tt

  unfoldable pub remove_container : String → Bool → Action (Unit {0})
  remove_container project_id remove_folder = with_tx out (do
    info ← look_up in_tx project_id
    nets ← collect_networks project_id
    delete_container out in_tx project_id
    commit out
    clean_up nets info remove_folder)

  pub get_container_info : ℕ → String → Action ContainerInfo
  get_container_info timeout project_id = do
    info ← look_up pool project_id
    pure (
        if str_eq info.status "running"
        then record info {
          auto_stop_at = elim info.started_at [ none ↦ none | some t ↦ some (t + timeout) ];
        }
        else info)

  notify_stopped : ContainerInfo → Result (Unit {0}) × World → Result (Unit {0}) × World
  notify_stopped c (err _, w) = (ok tt, w)
  notify_stopped c (ok _, w) = publish_live c.user_id (auto_stop_notice c (out.now w.trace)) w

  -- The body of the loop of `checkAndStopExpiredContainers`: a failed stop is only logged.
  pub stop_and_notify : ContainerInfo → Action (Unit {0})
  stop_and_notify c w = notify_stopped c (stop_container c.project_id w)

  pub stop_each : List ContainerInfo → Action (Unit {0})
  stop_each [] w = (ok tt, w)
  stop_each (c ∷ cs) w = (stop_and_notify c >> stop_each cs) w

  stop_found : Result (List ContainerInfo) × World → Result (Unit {0}) × World
  stop_found (err _, w) = (ok tt, w)
  stop_found (ok cs, w) = stop_each cs w

  pub check_and_stop_expired : ℕ → Action (Unit {0})
  check_and_stop_expired timeout w = stop_found (get_running_older_than out pool timeout w)
