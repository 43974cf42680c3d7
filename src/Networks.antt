-- ===== src/Networks.antt =====
-- service/networkService.go: the private networks of a user, in the database and on Docker's side.
--
-- A time is shown as a number. The tables' UNIQUE columns are tests of the INSERT.
pub mod Listing
pub mod Handlers
pub mod Owned
pub mod Creation
use host_container.Prelude.{
  ℕ, ◌+◌, String, Bool, true, false, ◌&&◌, ◌||◌, Option, none, some, List, [], ◌∷◌, ◌++◌,
  if◌then◌else◌, ltb, ◌==◌, str_eq,
}
use host_container.Schema.{Db, UserRow, PlanRow, NetworkRow, ContainerRow, ContainerNetworkRow}
use host_container.Tables.{find, update, delete, count}
use host_container.World.{
  Outside, Action, Result, ok, err, Error, refused, statement, no_rows, network_limit, not_owned,
  Bigint, matches, network_create, network_connect, network_disconnect, network_inspect,
  network_remove, Conn, pool, cast, cast_uuid, query, exec, ask, call, pure, guard, ignore,
  on_error, ◌>>=◌, ◌>>◌, Event,
}
use host_container.Text.{concat}

pub record ContainerMember : Type 0 where
  pub project_id : String
  pub name : String
  pub alias : String
  pub status : String

pub record NetworkInfo : Type 0 where
  pub id : String
  pub name : String
  pub docker_name : String
  pub created_at : ℕ
  pub members : List ContainerMember

-- WHERE id = $1::uuid AND user_id = $2::bigint
abbrev pub owned_network : ℕ → Bigint → NetworkRow → Bool
owned_network id k n = n.id == id && matches k n.user_id

-- WHERE id = $1::bigint AND user_id = $2::bigint
abbrev pub owned_container : Bigint → Bigint → ContainerRow → Bool
owned_container id k r = matches id r.id && matches k r.user_id

abbrev pub has_member : ℕ → ℕ → ContainerNetworkRow → Bool
has_member container network m = m.container_id == container && m.network_id == network

-- A row that the new one would repeat: the id, Docker's id, Docker's name, or the user's name for it.
unfoldable pub conflicts : NetworkRow → NetworkRow → Bool
conflicts n x =
    x.id == n.id
    || str_eq x.docker_net_id n.docker_net_id
    || str_eq x.docker_net_name n.docker_net_name
    || x.user_id == n.user_id && str_eq x.name n.name

abbrev pub with_networks : List NetworkRow → Db → Db
with_networks ns d = record d { networks = ns }

-- INSERT … ON CONFLICT (container_id, network_id) DO UPDATE SET alias = $3
pub upsert_member : ContainerNetworkRow → List ContainerNetworkRow → List ContainerNetworkRow
upsert_member m ms = elim (find (has_member m.container_id m.network_id) ms) [
  | none ↦ ms ++ m ∷ []
  | some _ ↦ update (has_member m.container_id m.network_id) (λ x. record x { alias = m.alias }) ms
]

unfoldable pub docker_name_of : String → String → String
docker_name_of user_id name = concat (concat (concat "codedock_" user_id) "_") name

module _ (out : Outside) where
  unfoldable pub read_max_networks : String → Action ℕ
  read_max_networks user_id = query out pool λ d. cast out user_id λ k.
      elim (find (λ (u : UserRow). matches k u.id) d.users) [
        | none ↦ err no_rows
        | some u ↦ elim (find (λ (p : PlanRow). str_eq p.id u.plan_id) d.plans) [
          | none ↦ err no_rows
          | some p ↦ ok p.max_networks
        ]
      ]

  -- The error of the count is not looked at: what was not scanned is 0.
  unfoldable pub count_networks : String → Action ℕ
  count_networks user_id w =
      let (r, w') =
        query out pool
          (λ d.
            cast out user_id λ k. ok (count (λ (n : NetworkRow). matches k n.user_id) d.networks))
          w in
      (ok (elim r [ ok n ↦ n | err _ ↦ 0 ]), w')

  -- INSERT … RETURNING id::text, created_at::text
  unfoldable pub insert_network : String → String → String → Action NetworkInfo
  unfolding docker_name_of conflicts
  insert_network user_id name docker_id w =
      let now = out.now w.trace in
      let id = out.new_uuid (statement ∷ w.trace) in
      exec out pool
        (λ d. cast out user_id λ k. elim k [
          | Bigint.negative _ ↦ err (refused statement)
          | Bigint.nonneg user ↦
              let n : NetworkRow = record {
                id = id;
                user_id = user;
                name = name;
                docker_net_id = docker_id;
                docker_net_name = docker_name_of user_id name;
                created_at = now;
              } in
              elim (find (conflicts n) d.networks) [
                | some _ ↦ err (refused statement)
                | none ↦ ok (
                  record {
                    id = out.uuid_text id;
                    name = name;
                    docker_name = docker_name_of user_id name;
                    created_at = now;
                    members = [];
                  },
                  with_networks (d.networks ++ n ∷ []) d,
                )
              ]
        ])
        w

  unfoldable pub create_network : String → String → Action NetworkInfo
  unfolding docker_name_of
  create_network user_id name = do
    max ← read_max_networks user_id
    current ← count_networks user_id
    guard (ltb current max) (network_limit max)
    docker_id ← ask out (network_create (docker_name_of user_id name)) out.text
    on_error (insert_network user_id name docker_id) (call out (network_remove docker_id))

  pub find_network : String → String → Action String
  find_network user_id net_id = query out pool λ d. cast_uuid out net_id λ id. cast out user_id λ k.
      elim (find (owned_network id k) d.networks) [
        | none ↦ err (not_owned "network")
        | some n ↦ ok n.docker_net_id
      ]

  -- Docker's id and the row's.
  pub find_container : String → String → Action (String × ℕ)
  find_container user_id project_id = query out pool λ d. cast out project_id λ id.
      cast out user_id λ k. elim (find (owned_container id k) d.containers) [
        | none ↦ err (not_owned "container")
        | some r ↦ ok (r.container_id, r.id)
      ]

  pub insert_member : ℕ → String → String → Action (Unit {0})
  insert_member container net_id alias = exec out pool λ d. cast_uuid out net_id λ id. ok (
    tt,
    record d {
      container_networks =
          upsert_member (record { container_id = container; network_id = id; alias = alias })
            d.container_networks;
    },
  )

  pub connect_container : String → String → String → String → Action (Unit {0})
  connect_container user_id net_id project_id alias = do
    docker_net ← find_network user_id net_id
    found ← find_container user_id project_id
    call out (network_connect docker_net found.0 alias)
    insert_member found.1 net_id alias

  unfoldable pub delete_member : ℕ → String → Action (Unit {0})
  delete_member container net_id = exec out pool λ d. cast_uuid out net_id λ id.
      ok (
        tt,
        record d { container_networks = delete (has_member container id) d.container_networks },
      )

  unfoldable pub disconnect_container : String → String → String → Action (Unit {0})
  disconnect_container user_id net_id project_id = do
    docker_net ← find_network user_id net_id
    found ← find_container user_id project_id
    call out (network_disconnect docker_net found.0 false)
    delete_member found.1 net_id

  -- Each error is dropped.
  unfoldable pub disconnect_each : String → List String → Action (Unit {0})
  disconnect_each docker_net [] w = (ok tt, w)
  disconnect_each docker_net (c ∷ cs) w =
      disconnect_each docker_net cs (call out (network_disconnect docker_net c true) w).1

  -- An inspection that fails is skipped over.
  unfoldable pub empty_network : String → Action (Unit {0})
  empty_network docker_net w =
      let (r, w') = ask out (network_inspect docker_net) out.texts w in
      elim r [ ok cs ↦ disconnect_each docker_net cs w' | err _ ↦ (ok tt, w') ]

  -- ON DELETE CASCADE takes the memberships along.
  unfoldable pub delete_network_row : String → String → Action (Unit {0})
  delete_network_row user_id net_id = exec out pool λ d. cast_uuid out net_id λ id.
      cast out user_id λ k. elim (find (owned_network id k) d.networks) [
        | none ↦ ok (tt, d)
        | some _ ↦ ok (
          tt,
          record d {
            networks = delete (owned_network id k) d.networks;
            container_networks =
                delete (λ (m : ContainerNetworkRow). m.network_id == id) d.container_networks;
          },
        )
      ]

  unfoldable pub delete_network : String → String → Action (Unit {0})
  delete_network user_id net_id = do
    docker_net ← find_network user_id net_id
    empty_network docker_net
    call out (network_remove docker_net)
    delete_network_row user_id net_id
