-- ===== src/Containers/Create/Rollback.antt =====
-- What a creation leaves in the tables, and that it keeps to the plan.
use host_container.Prelude.{
  ◌≡◌, ◌⊎◌, refl, String, true, false, none, some, List, [], ◌∷◌, arith, Bool-cases, inl, inr,
}
use host_container.Schema.{PlanRow}
use host_container.World.{
  FilePath, Word, Outside, World, err, Error, Event, container_create, container_remove,
  container_stop, remove_dir, in_tx, logged, statement,
}
use host_container.Containers.Repo.{get_containers_for_user, get_plan_for_user, insert_container}
use host_container.Containers.Exec.{
  InstallCmd, exec_in_container, try_install, install_packages, pull_image_if_needed,
}
use host_container.Containers.Create.{
  Project, check_limit, launch, register, build, build_with_port, discard_container,
  create_container, create_container_with_port, container_config,
}

module _ (out : Outside) where
  -- Commands in the container touch neither the tables nor the transaction.
  pub exec_in_container_lem :
      (cid : String) (cmd : List Word) (w : World)
      → ((exec_in_container out cid cmd w).1.db ≡ w.db)
        × ((exec_in_container out cid cmd w).1.tx ≡ w.tx)
  unfolding exec_in_container
  exec_in_container_lem cid cmd w = ground arith

  try_install_lem :
      (cid : String) (ics : List InstallCmd) (w : World)
      → ((try_install out cid ics w).1.db ≡ w.db) × ((try_install out cid ics w).1.tx ≡ w.tx)
  unfolding try_install
  try_install_lem cid [] w = (refl, refl)
  try_install_lem cid (ic ∷ ics) w = ground (
    arith,
    exec_in_container_lem cid ic.check w,
    exec_in_container_lem cid ic.install (exec_in_container out cid ic.check w).1,
    try_install_lem cid ics (exec_in_container out cid ic.check w).1,
  )

  install_packages_lem :
      (cid : String) (packages : List Word) (w : World)
      → ((install_packages out cid packages w).1.db ≡ w.db)
        × ((install_packages out cid packages w).1.tx ≡ w.tx)
  unfolding install_packages
  install_packages_lem cid packages w = try_install_lem cid _ w

  launch-atomic :
      (base : FilePath) (project : Project) (image : String) (folder : FilePath) (cid : String)
      (w : World) {e : Error}
      → (launch out base project image folder cid w).0 ≡ err e
      → (launch out base project image folder cid w).1.db ≡ w.db
  unfolding launch insert_container
  launch-atomic base project image folder cid w h = grind (arith, install_packages_lem)

  register-atomic :
      (base : FilePath) (project : Project) (image port : String) (folder : FilePath) (cid : String)
      (w : World) {e : Error}
      → (register out base project image port folder cid w).0 ≡ err e
      → (register out base project image port folder cid w).1.db ≡ w.db
  unfolding register insert_container
  register-atomic base project image port folder cid w h = grind (arith, install_packages_lem)

  containers_read :
      (u : String) (w : World) → (get_containers_for_user out in_tx u w).1 ≡ logged statement w
  unfolding get_containers_for_user
  containers_read u w = elim (Bool-cases (out.fails (statement ∷ w.trace))) [
    | inl e ↦ rw e refl
    | inr e ↦ rw e refl
  ]

  plan_read : (u : String) (w : World) → (get_plan_for_user out in_tx u w).1 ≡ logged statement w
  unfolding get_plan_for_user
  plan_read u w = elim (Bool-cases (out.fails (statement ∷ w.trace))) [
    | inl e ↦ rw e refl
    | inr e ↦ rw e refl
  ]

  check_limit_lem :
      (base : FilePath) (project : Project) (w : World)
      → ((check_limit out base project w).1.db ≡ w.db)
        × ((check_limit out base project w).1.tx ≡ w.tx)
  unfolding check_limit
  check_limit_lem base project w = grind (arith, containers_read, plan_read)

  pull_lem :
      (image : String) (w : World)
      → ((pull_image_if_needed out image w).1.db ≡ w.db)
        × ((pull_image_if_needed out image w).1.tx ≡ w.tx)
  unfolding pull_image_if_needed
  pull_lem image w = ground arith

  build-atomic :
      (base : FilePath) (plan : PlanRow) (project : Project) (image : String) (folder : FilePath)
      (w : World) {e : Error}
      → (build out base plan project image folder w).0 ≡ err e
      → (build out base plan project image folder w).1.db ≡ w.db
  unfolding build discard_container
  build-atomic base plan project image folder w h = grind (arith, launch-atomic)

  build_with_port-atomic :
      (base : FilePath) (plan : PlanRow) (project : Project) (image port : String)
      (folder : FilePath) (w : World) {e : Error}
      → (build_with_port out base plan project image port folder w).0 ≡ err e
      → (build_with_port out base plan project image port folder w).1.db ≡ w.db
  unfolding build_with_port
  build_with_port-atomic base plan project image port folder w h = grind (arith, register-atomic)

  -- A creation without a port that returns an error leaves the tables as they were.
  pub create_container-atomic :
      (base : FilePath) (project : Project) (image : String) (w : World) {e : Error}
      → (create_container out base project image w).0 ≡ err e
      → (create_container out base project image w).1.db ≡ w.db
  unfolding create_container
  create_container-atomic base project image w h =
      grind (arith, check_limit_lem, pull_lem, build-atomic)

  -- A creation with a port that returns an error leaves the tables as they were.
  create_container_with_port-atomic :
      (base : FilePath) (project : Project) (image port : String) (w : World) {e : Error}
      → (create_container_with_port out base project image port w).0 ≡ err e
      → (create_container_with_port out base project image port w).1.db ≡ w.db
  unfolding create_container_with_port
  create_container_with_port-atomic base project image port w h =
      grind (arith, check_limit_lem, pull_lem, build_with_port-atomic)

  -- A creation without a port that fails once its folder stands removes that folder last, and just
  -- before it the Docker container, if Docker had made one.
  pub build_discards :
      (base : FilePath) (plan : PlanRow) (project : Project) (image : String) (folder : FilePath)
      (w : World) {e : Error}
      → (build out base plan project image folder w).0 ≡ err e
      → (t : List Event) × ((build out base plan project image folder w).1.trace
          ≡ remove_dir folder ∷ t)
        × (let made =
              container_create (container_config folder plan project image (some "/bin/sh") none)
              ∷ w.trace in
            ((out.fails made ≡ true) × (t ≡ made))
            ⊎ ((out.fails made ≡ false)
                × (t' : List Event) × (t ≡ container_remove (out.text made) ∷ t')))
  unfolding build discard_container
  build_discards base plan project image folder w h =
      let made =
        container_create (container_config folder plan project image (some "/bin/sh") none)
        ∷ w.trace in
      elim (Bool-cases (out.fails made)) [
        | inl lost ↦ (made, ground arith, inl (lost, refl))
        | inr answered ↦
            let w1 =
              (launch out base project image folder (out.text made) (
                logged
                  (container_create
                    (container_config folder plan project image (some "/bin/sh") none))
                  w)).1 in
            (
              container_remove (out.text made) ∷ container_stop (out.text made) ∷ w1.trace,
              ground arith,
              inr (answered, container_stop (out.text made) ∷ w1.trace, refl),
            )
      ]
