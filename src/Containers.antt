-- ===== src/Containers.antt =====
-- The containers of the users: service/hostContainerService.go over service/repository.go and
-- service/planService.go.
--
-- `Repo` has the SQL, `Create`, `Lifecycle`, `Watcher` and `Exec` the methods of `ContainerManager`, and the
-- modules below those what is proved of them.
pub mod Repo
pub mod Rows
pub mod Exec
pub mod Create
pub mod Lifecycle
pub mod Watcher
