-- ===== src/Tests/Containers.antt =====
-- Examples: starting, stopping and removing a container.
use host_container.World.{nonneg, begins, refused}
use host_container.Prelude.{
  ◌≡◌, ◌≢◌, refl, some, none, ◌∷◌, if◌then◌else◌, ◌==◌, true, String, List, [],
}
use host_container.Schema.{ContainerRow}
use host_container.Tables.{delete}
use host_container.Bus.{subscribe}
use host_container.Containers.Repo.{scan_info, get_container_by_id, delete_container}
use host_container.Containers.Rows.{row}
use host_container.Containers.Lifecycle.{
  remove_container, collect_networks, network_ids, clean_up, disconnect_all,
}
use host_container.Containers.Lifecycle.Removal.{
  effects, remove_container-atomic, remove_container-removes,
}
use host_container.Containers.Watcher.{Tick, ticked, closed, start_auto_stop_watcher}
use host_container.Containers.Watcher.Unheard.{start_auto_stop_watcher_unheard}
use host_container.Tests.{calm, down, start, listening, listening-IsValid}

remove_container-atomic_example :
    ((remove_container down "1" true start).1.db ≡ start.db)
    × (effects (remove_container down "1" true start).1.trace ≡ effects start.trace)
unfolding remove_container
remove_container-atomic_example =
    remove_container-atomic down "1" true start {e = refused begins} refl

remove_container-removes_example :
    (r : ContainerRow) × (calm.to_bigint "1" ≡ some (nonneg r.id))
    × (row r.id start.db.containers ≡ some r)
    × (row 1 (remove_container calm "1" true start).1.db.containers
        ≡ (if 1 == r.id then none else row 1 start.db.containers))
    × ((remove_container calm "1" true start).1.db.container_networks
        ≡ delete (λ m. r.id == m.container_id) start.db.container_networks)
unfolding remove_container get_container_by_id delete_container scan_info collect_networks
    network_ids clean_up disconnect_all
remove_container-removes_example = remove_container-removes calm "1" true start 1 refl

one≢empty : ◌≢◌ {A = String} "1" ""
one≢empty h = cc

abbrev two_rounds : List Tick
two_rounds = ticked ∷ ticked ∷ closed ∷ []

start_auto_stop_watcher_unheard_example :
    (start_auto_stop_watcher calm 0 two_rounds start).bus.channels 0 ≡ start.bus.channels 0
unfolding listening subscribe
start_auto_stop_watcher_unheard_example =
    start_auto_stop_watcher_unheard calm 0 two_rounds start "1" 0 listening-IsValid one≢empty refl
