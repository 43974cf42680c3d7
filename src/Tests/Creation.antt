-- ===== src/Tests/Creation.antt =====
-- Examples: creating a container.
use host_container.Prelude.{◌≡◌, ◌<◌, ◌⊎◌, refl, some, none, List, [], ◌∷◌, true, false, str_eq}
use host_container.Schema.{UserRow, PlanRow}
use host_container.Tables.{find}
use host_container.World.{
  Event, Bigint, matches, begins, container_create, container_remove, remove_dir, refused,
}
use host_container.Text.{codes}
use host_container.Containers.Repo.{
  get_containers_for_user, get_plan_for_user, scan_joined, left_join, order_desc, insert_desc,
  insert_container,
}
use host_container.Containers.Exec.{
  install_cmds, join_words, pull_image_if_needed, install_packages, try_install, exec_in_container,
}
use host_container.Containers.Create.{
  container_config, new_info, check_limit, launch, build, create_container,
}
use host_container.Containers.Create.Rollback.{create_container-atomic, build_discards}
use host_container.Containers.Create.Limit.{owned_by, create_container-within_plan}
use host_container.Tests.{calm, down, start, blog, free}

create_container-atomic_example :
    (create_container down (codes "/p") blog "nginx" start).1.db ≡ start.db
unfolding create_container
create_container-atomic_example =
    create_container-atomic down (codes "/p") blog "nginx" start {e = refused begins} refl

abbrev made : List Event
made =
    container_create (container_config (codes "/p/b") free blog "nginx" (some "/bin/sh") none) ∷ []

build_discards_example :
    (t : List Event) × ((build down (codes "/p") free blog "nginx" (codes "/p/b") start).1.trace
      ≡ remove_dir (codes "/p/b") ∷ t)
    × (((down.fails made ≡ true) × (t ≡ made))
        ⊎ ((down.fails made ≡ false)
            × (t' : List Event) × (t ≡ container_remove (down.text made) ∷ t')))
unfolding build
build_discards_example =
    build_discards down (codes "/p") free blog "nginx" (codes "/p/b") start
      {e = refused (
        container_create (container_config (codes "/p/b") free blog "nginx" (some "/bin/sh") none))}
      refl

create_container-within_plan_example :
    (k : Bigint) × (u : UserRow) × (p : PlanRow) × (calm.to_bigint "1" ≡ some k)
    × (find (λ x. matches k x.id) start.db.users ≡ some u)
    × (find (λ x. str_eq x.id u.plan_id) start.db.plans ≡ some p)
    × (owned_by u.id start.db < p.max_containers)
unfolding create_container check_limit get_containers_for_user get_plan_for_user scan_joined
    left_join order_desc insert_desc pull_image_if_needed build launch install_packages try_install
    exec_in_container insert_container install_cmds join_words new_info
create_container-within_plan_example =
    create_container-within_plan calm (codes "/p") blog "nginx" start refl
