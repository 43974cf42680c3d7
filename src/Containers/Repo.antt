-- ===== src/Containers/Repo.antt =====
-- service/repository.go (containers and users of the container manager) and service/planService.go.
use host_container.Prelude.{
  ℕ, ◌+◌, ◌-◌, String, Bool, true, false, ◌&&◌, Option, none, some, List, [], ◌∷◌, ◌++◌, map, ltb,
  ◌==◌, if◌then◌else◌, str_eq,
}
use host_container.Schema.{Db, UserRow, ContainerRow, PlanRow}
use host_container.Tables.{find, select, update, delete}
use host_container.World.{
  FilePath, Outside, Action, ok, err, not_found, user_not_found, no_rows, refused, statement,
  Bigint, nonneg, negative, bad_bigint, matches, Conn, cast, query, exec, view, put, logged,
}

pub record ContainerInfo : Type 0 where
  pub container_id : String
  pub project_id : String
  pub project_name : String
  pub image_name : String
  pub folder_path : FilePath
  pub port : String
  pub status : String
  pub user_id : String
  pub started_at : Option ℕ
  pub auto_stop_at : Option ℕ
  pub created_at : Option ℕ

-- The columns that the SELECT lists of `GetContainerByID`, `UpdateContainer` and
-- `GetRunningContainersOlderThan` scan. The user is not among them.
unfoldable pub scan_info : Outside → ContainerRow → ContainerInfo
scan_info out r = record {
  container_id = r.container_id;
  project_id = out.to_text r.id;
  project_name = r.project_name;
  image_name = r.image_name;
  folder_path = r.folder_path;
  port = r.port;
  status = r.status;
  user_id = "";
  started_at = r.started_at;
  auto_stop_at = none;
  created_at = r.created_at;
}

abbrev pub has_id : Bigint → ContainerRow → Bool
has_id k r = matches k r.id

-- The SET list of `UpdateContainer`.
unfoldable pub write_info : ContainerInfo → ContainerRow → ContainerRow
write_info info r = record r {
  container_id = info.container_id;
  project_name = info.project_name;
  folder_path = info.folder_path;
  port = info.port;
  status = info.status;
  started_at = info.started_at;
  image_name = info.image_name;
}

-- The row that an INSERT of `CreateContainer` makes, with the column defaults.
pub new_row : ℕ → ℕ → ℕ → ContainerInfo → ContainerRow
new_row id user now info = record {
  id = id;
  container_id = info.container_id;
  project_name = info.project_name;
  folder_path = info.folder_path;
  port = info.port;
  status = info.status;
  user_id = user;
  started_at = info.started_at;
  image_name = info.image_name;
  created_at = some now;
  restart_count = 0;
  last_restart_at = none;
  health_status = "none";
  oom_killed = false;
  circuit_open = false;
}

abbrev with_containers : List ContainerRow → Db → Db
with_containers rows d = record d { containers = rows }

-- status = 'running' AND started_at IS NOT NULL AND started_at < $1
pub is_expired : ℕ → ContainerRow → Bool
is_expired cutoff r =
    str_eq r.status "running" && elim r.started_at [ none ↦ false | some t ↦ ltb t cutoff ]

-- A row of `users LEFT JOIN containers`.
pub record JoinedRow : Type 0 where
  pub user : UserRow
  pub container : Option ContainerRow

unfoldable pub insert_desc : ContainerRow → List ContainerRow → List ContainerRow
insert_desc r [] = r ∷ []
insert_desc r (x ∷ xs) = if ltb r.id x.id then x ∷ insert_desc r xs else r ∷ x ∷ xs

-- ORDER BY c.id DESC
unfoldable pub order_desc : List ContainerRow → List ContainerRow
unfolding insert_desc
order_desc [] = []
order_desc (r ∷ rs) = insert_desc r (order_desc rs)

unfoldable pub left_join : UserRow → List ContainerRow → List JoinedRow
left_join u [] = record { user = u; container = none } ∷ []
left_join u (r ∷ rs) = map (λ c. record { user = u; container = some c }) (r ∷ rs)

pub record User : Type 0 where
  pub id : String
  pub name : String
  pub email : String
  pub email_verified : Bool
  pub role : String
  pub plan_id : String

unfoldable pub no_user : User
no_user = record { id = ""; name = ""; email = ""; email_verified = false; role = ""; plan_id = "" }

unfoldable pub is_some : {A : Type 0} → Option A → Bool
is_some none = false
is_some (some a) = true

unfoldable pub scan_user : Outside → UserRow → User
unfolding is_some
scan_user out u = record {
  id = out.to_text u.id;
  name = u.name;
  email = u.email;
  email_verified = is_some u.email_verified_at;
  role = u.role;
  plan_id = u.plan_id;
}

module _ (out : Outside) where
  -- The `for rows.Next()` of `GetContainersForUserByID`; a row with no container is skipped.
  unfoldable pub scan_joined :
      List JoinedRow → User × List ContainerInfo → User × List ContainerInfo
  unfolding scan_user
  scan_joined [] acc = acc
  scan_joined (row ∷ rows) (user, containers) =
      let user' = if str_eq user.id "" then scan_user out row.user else user in
      let containers' : List ContainerInfo = elim row.container [
        | none ↦ containers
        | some c ↦ containers ++ record (scan_info out c) { user_id = out.to_text row.user.id } ∷ []
      ] in
      scan_joined rows (user', containers')

  unfoldable pub get_containers_for_user : Conn → String → Action (User × List ContainerInfo)
  unfolding no_user
  get_containers_for_user c user_id = query out c λ d. cast out user_id λ k.
      elim (find (λ u. matches k u.id) d.users) [
        | none ↦ err user_not_found
        | some u ↦ ok (
            scan_joined (left_join u (order_desc (select (λ r. r.user_id == u.id) d.containers)))
              (no_user, []))
      ]

  unfoldable pub get_plan_for_user : Conn → String → Action PlanRow
  get_plan_for_user c user_id = query out c λ d. cast out user_id λ k.
      elim (find (λ u. matches k u.id) d.users) [
        | none ↦ err no_rows
        | some u ↦ elim (find (λ p. str_eq p.id u.plan_id) d.plans) [
          | none ↦ err no_rows
          | some p ↦ ok p
        ]
      ]

  unfoldable pub get_container_by_id : Conn → String → Action ContainerInfo
  get_container_by_id c id = query out c λ d. cast out id λ k. elim (find (has_id k) d.containers) [
    | none ↦ err not_found
    | some r ↦ ok (scan_info out r)
  ]

  unfoldable pub update_container : Conn → String → ContainerInfo → Action ContainerInfo
  update_container c id info = exec out c λ d. cast out id λ k.
      elim (find (has_id k) d.containers) [
        | none ↦ err not_found
        | some r ↦ ok (
          scan_info out (write_info info r),
          with_containers (update (has_id k) (write_info info) d.containers) d,
        )
      ]

  -- ON DELETE CASCADE takes the row's memberships of networks along.
  unfoldable pub delete_container : Conn → String → Action (Unit {0})
  delete_container c id = exec out c λ d. cast out id λ k. elim (find (has_id k) d.containers) [
    | none ↦ err not_found
    | some r ↦ ok (
      tt,
      record d {
        containers = delete (has_id k) d.containers;
        container_networks = delete (λ m. matches k m.container_id) d.container_networks;
      },
    )
  ]

  unfoldable pub get_running_older_than : Conn → ℕ → Action (List ContainerInfo)
  get_running_older_than c max_age w =
      let cutoff = out.now w.trace - max_age in
      query out c (λ d. ok (map (scan_info out) (select (is_expired cutoff) d.containers))) w

  -- INSERT … RETURNING id::text: the serial gives the id, and the user's id is read as a number.
  unfoldable pub insert_container : Conn → ContainerInfo → Action String
  unfolding new_row
  insert_container c info w =
      let w' = logged statement w in
      if out.fails w'.trace
      then (err (refused statement), w')
      else elim (out.to_bigint info.user_id) [
        | some (nonneg user) ↦
            let row = new_row w.container_seq user (out.now w.trace) info in
            let d = view c w in
            (
              ok (out.to_text w.container_seq),
              put c (with_containers (d.containers ++ row ∷ []) d)
                  (record w' { container_seq = w.container_seq + 1 }),
            )
        | some (negative n) ↦ (err (refused statement), w')
        | none ↦ (err bad_bigint, w')
      ]
