-- ===== src/Containers/Create/Leftover.antt =====
-- What `CreateContainerWithPort` leaves behind in Docker and on the disk.
use host_container.Prelude.{
  ℕ, ◌+◌, ◌≡◌, refl, Bool, true, false, String, none, some, List, [], ◌∷◌, if◌then◌else◌, arith,
}
use host_container.Schema.{PlanRow}
use host_container.World.{
  FilePath, Word, Event, container_create, container_start, container_remove, remove_dir, Outside,
  World,
}
use host_container.Containers.Repo.{insert_container}
use host_container.Containers.Exec.{InstallCmd, exec_in_container, try_install, install_packages}
use host_container.Containers.Create.{Project, container_config, register, build_with_port}

abbrev is_clean_up : Event → Bool
is_clean_up (container_remove _) = true
is_clean_up (remove_dir _) = true
is_clean_up _ = false

-- How often a container or a folder was removed.
abbrev pub clean_ups : List Event → ℕ
clean_ups [] = 0
clean_ups (e ∷ es) = let rest = clean_ups es in if is_clean_up e then rest + 1 else rest

module _ (out : Outside) where
  exec-clean_ups :
      (cid : String) (cmd : List Word) (w : World)
      → clean_ups (exec_in_container out cid cmd w).1.trace ≡ clean_ups w.trace
  unfolding exec_in_container
  exec-clean_ups cid cmd w = ground arith

  try_install-clean_ups :
      (cid : String) (ics : List InstallCmd) (w : World)
      → clean_ups (try_install out cid ics w).1.trace ≡ clean_ups w.trace
  unfolding try_install
  try_install-clean_ups cid [] w = refl
  try_install-clean_ups cid (ic ∷ ics) w = ground (
    arith,
    exec-clean_ups cid ic.check w,
    exec-clean_ups cid ic.install (exec_in_container out cid ic.check w).1,
    try_install-clean_ups cid ics (exec_in_container out cid ic.check w).1,
  )

  install-clean_ups :
      (cid : String) (ps : List Word) (w : World)
      → clean_ups (install_packages out cid ps w).1.trace ≡ clean_ups w.trace
  unfolding install_packages
  install-clean_ups cid ps w = try_install-clean_ups cid _ w

  register-clean_ups :
      (base : FilePath) (project : Project) (image port : String) (folder : FilePath) (cid : String)
      (w : World)
      → clean_ups (register out base project image port folder cid w).1.trace ≡ clean_ups w.trace
  unfolding register insert_container
  register-clean_ups base project image port folder cid w = grind (arith, install-clean_ups)

  -- A creation with a port whose container was made and started removes neither it nor its folder,
  -- also when it then returns an error.
  pub build_with_port-clean_ups :
      (base : FilePath) (plan : PlanRow) (project : Project) (image port : String)
      (folder : FilePath) (w : World)
      → let made =
          container_create (container_config folder plan project image none (some port))
          ∷ w.trace in
        out.fails made ≡ false
        → out.fails (container_start (out.text made) ∷ made) ≡ false
        → clean_ups (build_with_port out base plan project image port folder w).1.trace
          ≡ clean_ups w.trace
  unfolding build_with_port
  build_with_port-clean_ups base plan project image port folder w made started =
      grind (arith, register-clean_ups)
