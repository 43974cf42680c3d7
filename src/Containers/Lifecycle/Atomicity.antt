-- ===== src/Containers/Lifecycle/Atomicity.antt =====
-- What start, stop and remove leave in the database, by how they end.
use host_container.Prelude.{ℕ, String, ◌≡◌, some, arith}
use host_container.Schema.{ContainerRow}
use host_container.World.{Outside, World, err, Error}
use host_container.Containers.Repo.{get_container_by_id, update_container}
use host_container.Containers.Lifecycle.{stop_container, start_container, reset_health}

module _ (out : Outside) (id : String) (w : World) where
  -- A stop that returns an error leaves the tables as they were.
  stop_container-atomic :
      {e : Error} → (stop_container out id w).0 ≡ err e → (stop_container out id w).1.db ≡ w.db
  unfolding stop_container get_container_by_id update_container
  stop_container-atomic h = ground arith

  -- A start that returns an error leaves the tables as they were.
  start_container-atomic :
      {e : Error} → (start_container out id w).0 ≡ err e → (start_container out id w).1.db ≡ w.db
  unfolding start_container get_container_by_id update_container reset_health
  start_container-atomic h = ground arith

abbrev pub stopped : ContainerRow → ContainerRow
stopped r = record r { status = "stopped" }

abbrev pub started : ℕ → ContainerRow → ContainerRow
started now r = record r { status = "running"; started_at = some now }
