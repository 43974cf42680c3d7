-- ===== src/Users.antt =====
-- The users of service/repository.go and service/UserService.go: look-ups, the registration and the deletion.
--
-- The foreign keys say ON DELETE CASCADE, so a deleted user takes
-- the tokens, the notifications, the API keys and the networks along, and a container or a network its memberships.
pub mod Deletion
use host_container.Prelude.{
  ◌+◌, ◌++◌, ℕ, String, Bool, true, false, ◌||◌, none, some, List, [], ◌∷◌, if◌then◌else◌, ◌==◌,
  str_eq,
}
use host_container.Schema.{Db, UserRow, ContainerRow, NetworkRow}
use host_container.Tables.{find, select, delete, count}
use host_container.World.{
  statement, refused, logged, view, put, pure, Outside, Action, ok, err, user_not_found, Bigint,
  matches, Conn, pool, in_tx, cast, query, exec, with_tx, commit, ◌>>=◌, ◌>>◌,
}
use host_container.Containers.Repo.{ContainerInfo, User, scan_user, get_containers_for_user}

pub any_container : ℕ → List ContainerRow → Bool
any_container id [] = false
any_container id (r ∷ rs) = id == r.id || any_container id rs

pub any_network : ℕ → List NetworkRow → Bool
any_network id [] = false
any_network id (n ∷ ns) = id == n.id || any_network id ns

-- DELETE FROM containers WHERE user_id = $1
unfoldable pub delete_containers_of : Bigint → Db → Db
delete_containers_of k d =
    let gone = select (λ (r : ContainerRow). matches k r.user_id) d.containers in
    record d {
      containers = delete (λ r. matches k r.user_id) d.containers;
      container_networks = delete (λ m. any_container m.container_id gone) d.container_networks;
    }

-- The row that an INSERT makes, with the column defaults.
unfoldable pub new_user : ℕ → String → String → String → UserRow
new_user id name email hash = record {
  id = id;
  name = name;
  email = email;
  password_hash = hash;
  email_verified_at = none;
  plan_id = "free";
  role = "user";
}

abbrev pub has_email : String → UserRow → Bool
has_email email u = str_eq u.email email

-- DELETE FROM users WHERE id = $1; the user's containers go along.
unfoldable pub delete_user_row : Bigint → Db → Db
unfolding delete_containers_of
delete_user_row k d' =
    let d = delete_containers_of k d' in
    let gone = select (λ (n : NetworkRow). matches k n.user_id) d.networks in
    record d {
      users = delete (λ u. matches k u.id) d.users;
      email_tokens = delete (λ t. matches k t.user_id) d.email_tokens;
      notifications = delete (λ n. matches k n.user_id) d.notifications;
      networks = delete (λ n. matches k n.user_id) d.networks;
      api_keys = delete (λ a. matches k a.user_id) d.api_keys;
      container_networks = delete (λ m. any_network m.network_id gone) d.container_networks;
    }

module _ (out : Outside) where
  unfoldable pub get_user_by_id : Conn → String → Action User
  get_user_by_id c id = query out c λ d. cast out id λ k.
      elim (find (λ u. matches k u.id) d.users) [
        | none ↦ err user_not_found
        | some u ↦ ok (scan_user out u)
      ]

  unfoldable pub get_user_by_email : Conn → String → Action User
  get_user_by_email c email = query out c λ d. elim (find (has_email email) d.users) [
    | none ↦ err user_not_found
    | some u ↦ ok (scan_user out u)
  ]

  -- The user and the hash of the password.
  unfoldable pub get_user_by_email_with_password : Conn → String → Action (User × String)
  get_user_by_email_with_password c email = query out c λ d. elim (find (has_email email) d.users) [
    | none ↦ err user_not_found
    | some u ↦ ok (scan_user out u, u.password_hash)
  ]

  unfoldable pub delete_user_by_id : Conn → String → Action (Unit {0})
  delete_user_by_id c id = do
    exec out c λ d. cast out id λ k. ok (tt, delete_containers_of k d)
    exec out c λ d. cast out id λ k.
        if count (λ (u : UserRow). matches k u.id) d.users == 0
        then err user_not_found
        else ok (tt, delete_user_row k d)

  unfoldable pub delete_user : String → Action (Unit {0})
  delete_user id = with_tx out (do delete_user_by_id in_tx id; commit out)

  -- INSERT … RETURNING id::text. `email` is UNIQUE, and a conflict uses up a number too.
  unfoldable pub insert_user : Conn → String → String → String → Action String
  insert_user c name email hash w =
      let w' = logged statement w in
      let d = view c w in
      if out.fails w'.trace
      then (err (refused statement), w')
      else elim (find (has_email email) d.users) [
        | some _ ↦ (err (refused statement), record w' { user_seq = w.user_seq + 1 })
        | none ↦ (
          ok (out.to_text w.user_seq),
          put c (record d { users = d.users ++ new_user w.user_seq name email hash ∷ [] })
              (record w' { user_seq = w.user_seq + 1 }),
        )
      ]

  unfoldable pub create_user : String → String → String → Action String
  create_user name email hash =
      with_tx out (do id ← insert_user in_tx name email hash; commit out; pure id)

  pub get_user : String → Action User
  get_user = get_user_by_id pool

  pub get_user_with_containers : String → Action (User × List ContainerInfo)
  get_user_with_containers = get_containers_for_user out pool
