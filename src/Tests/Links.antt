-- ===== src/Tests/Links.antt =====
-- Examples: the networks.
use host_container.Tables.{find, select}
use host_container.Prelude.{
  ◌&&◌, ◌==◌, ℕ, ◌≡◌, ◌⊎◌, refl, true, false, some, [], ◌∷◌, length, if◌then◌else◌,
}
use host_container.Schema.{NetworkRow, ContainerRow}
use host_container.World.{
  Outside, World, Bigint, matches, Error, ok, err, refused, statement, logged, network_create,
  network_connect, network_remove,
}
use host_container.Networks.{
  upsert_member, connect_container, read_max_networks, count_networks, insert_network,
  create_network, docker_name_of,
}
use host_container.Networks.Owned.{connect_container_cases}
use host_container.Networks.Creation.{create_network-undone}
use host_container.Networks.Listing.{list_networks, scan_rows, sort_rows, join_networks}
use host_container.Networks.Listing.Grouping.{summaries}
use host_container.Networks.Listing.Shown.{list_networks-summaries}
use host_container.Tests.{calm, db, start}

abbrev web : NetworkRow
web = record {
  id = 1;
  user_id = 1;
  name = "web";
  docker_net_id = "d";
  docker_net_name = "codedock_1_web";
  created_at = 0;
}

abbrev linked : World
linked = record start { db = record db { networks = web ∷ [] } }

connect_container_cases_example :
    ((e : Error) × (connect_container calm "1" "1" "1" "front" linked
        ≡ (err e, logged statement linked)))
    ⊎ (((e : Error) × (connect_container calm "1" "1" "1" "front" linked
            ≡ (err e, logged statement (logged statement linked))))
        ⊎ ((id : ℕ) × (k k' : Bigint) × (n : NetworkRow) × (r : ContainerRow) × (calm.to_bigint "1"
              ≡ some k)
            × (calm.to_uuid "1" ≡ some id)
            × (find (λ (x : NetworkRow). x.id == id && matches k x.user_id) linked.db.networks
                ≡ some n)
            × (calm.to_bigint "1" ≡ some k')
            × (find
                  (λ (x : ContainerRow). matches k' x.id && matches k x.user_id)
                  linked.db.containers
                ≡ some r)
            × (let t =
                  network_connect n.docker_net_id r.container_id "front"
                  ∷ statement
                  ∷ statement
                  ∷ linked.trace in
                connect_container calm "1" "1" "1" "front" linked ≡ (
                  if calm.fails t
                  then (
                    err (refused (network_connect n.docker_net_id r.container_id "front")),
                    record linked { trace = t },
                  )
                  else if calm.fails (statement ∷ t)
                  then (err (refused statement), record linked { trace = statement ∷ t })
                  else (
                    ok tt,
                    record linked {
                      db = record linked.db {
                        container_networks =
                            upsert_member
                              (record { container_id = r.id; network_id = id; alias = "front" })
                              linked.db.container_networks;
                      };
                      trace = statement ∷ t;
                    },
                  )))))
connect_container_cases_example = connect_container_cases calm "1" "1" "1" "front" linked

-- The fourth call is refused: the insertion, after Docker has made the network.
abbrev late : Outside
late = record calm { fails = λ t. length t == 4 }

create_network-undone_example :
    let made = network_create (docker_name_of "1" "web") ∷ statement ∷ statement ∷ start.trace in
    let after = (create_network late "1" "web" start).1 in
    (after.db ≡ start.db)
    × ((after.trace ≡ statement ∷ start.trace)
        ⊎ ((after.trace ≡ statement ∷ statement ∷ start.trace)
            ⊎ (((after.trace ≡ made) × (late.fails made ≡ true))
                ⊎ ((after.trace ≡ network_remove (late.text made) ∷ statement ∷ made)
                    × (late.fails made ≡ false)))))
unfolding create_network read_max_networks count_networks insert_network
create_network-undone_example =
    create_network-undone late "1" "web" start {e = refused statement} refl

list_networks-summaries_example :
    (list_networks calm "1" linked ≡ (
      ok (
          summaries (
            scan_rows calm (
              sort_rows (
                join_networks linked.db (
                  select
                    (λ (n : NetworkRow). matches (Bigint.nonneg 1) n.user_id)
                    linked.db.networks))))),
      logged statement linked,
    ))
list_networks-summaries_example =
    list_networks-summaries calm "1" linked {k = Bigint.nonneg 1} refl refl
