-- ===== src/Containers/Exec.antt =====
-- Commands inside a container (service/hostContainerService.go): `ExecCommand`, `execInContainer`,
-- `installPackages`, `pullImageIfNeeded`, `WriteFileToContainer`, and the terminal and log streams.
use host_container.Prelude.{String, List, [], ◌∷◌, ◌++◌}
use host_container.World.{
  FilePath, Word, Outside, image_inspect, image_pull, container_logs, exec_create, exec_attach,
  exec_read, copy_to_container, Action, ok, err, container_not_found, no_package_manager, pool, ask,
  call, or_else, ◌>>=◌, ◌>>◌, pure,
}
use host_container.Paths.{base, dir}
use host_container.Text.{codes}
use host_container.Containers.Repo.{get_container_by_id}

-- strings.Join(packages, " ")
unfoldable pub join_words : List Word → Word
join_words [] = []
join_words (w ∷ []) = w
join_words (w ∷ v ∷ ws) = w ++ b' ' ∷ join_words (v ∷ ws)

pub record InstallCmd : Type 0 where
  pub check : List Word
  pub install : List Word

abbrev shell : Word → List Word
shell line = codes "sh" ∷ codes "-c" ∷ line ∷ []

-- The table of `installPackages`, in the order in which it is tried.
unfoldable pub install_cmds : Word → List InstallCmd
install_cmds pkgs =
    record {
      check = shell (codes "command -v apt-get");
      install = shell (codes "apt-get update && apt-get install -y " ++ pkgs);
    }
    ∷ record {
      check = shell (codes "command -v apk");
      install = shell (codes "apk add --no-cache " ++ pkgs);
    }
    ∷ record {
      check = shell (codes "command -v yum");
      install = shell (codes "yum install -y " ++ pkgs);
    }
    ∷ record {
      check = shell (codes "command -v dnf");
      install = shell (codes "dnf install -y " ++ pkgs);
    }
    ∷ []

module _ (out : Outside) where
  unfoldable pub exec_in_container : String → List Word → Action (Unit {0})
  exec_in_container cid cmd = do
    exec_id ← ask out (exec_create cid cmd) out.text
    call out (exec_attach exec_id)
    call out (exec_read exec_id)

  -- The first package manager that answers installs; what it then returns is returned.
  unfoldable pub try_install : String → List InstallCmd → Action (Unit {0})
  try_install cid [] w = (err (no_package_manager cid), w)
  try_install cid (ic ∷ ics) w =
      let (r, w') = exec_in_container cid ic.check w in
      elim r [ ok _ ↦ exec_in_container cid ic.install w' | err _ ↦ try_install cid ics w' ]

  unfoldable pub install_packages : String → List Word → Action (Unit {0})
  install_packages cid packages = try_install cid (install_cmds (join_words packages))

  unfoldable pub pull_image_if_needed : String → Action (Unit {0})
  pull_image_if_needed image w =
      let (r, w') = call out (image_inspect image) w in
      elim r [ ok _ ↦ (ok tt, w') | err _ ↦ call out (image_pull image) w' ]

  -- stdout and stderr of the command
  pub exec_command : String → List Word → Action (String × String)
  exec_command project_id cmd = do
    info ← or_else (get_container_by_id out pool project_id) (container_not_found project_id)
    exec_id ← ask out (exec_create info.container_id cmd) out.text
    call out (exec_attach exec_id)
    ask out (exec_read exec_id) (λ t. (out.text t, out.error_text t))

  -- The id of the session. Its connection and reader are the caller's.
  pub exec_terminal : String → Action String
  exec_terminal project_id = do
    info ← or_else (get_container_by_id out pool project_id) (container_not_found project_id)
    exec_id ← ask out (exec_create info.container_id (codes "/bin/sh" ∷ [])) out.text
    call out (exec_attach exec_id)
    pure exec_id

  pub stream_logs : String → Action String
  stream_logs project_id = do
    info ← or_else (get_container_by_id out pool project_id) (container_not_found project_id)
    ask out (container_logs info.container_id) out.text

  -- The tar archive holds one file of that name and content; writing it to memory does not fail.
  pub write_file_to_container : String → FilePath → String → Action (Unit {0})
  write_file_to_container project_id dest_path content = do
    info ← or_else (get_container_by_id out pool project_id) (container_not_found project_id)
    exec_in_container info.container_id (codes "mkdir" ∷ codes "-p" ∷ dir dest_path ∷ [])
    call out (copy_to_container info.container_id (dir dest_path) (base dest_path) content)
