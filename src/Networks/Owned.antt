-- ===== src/Networks/Owned.antt =====
-- A network and a container are only touched for the user they belong to.
use host_container.Prelude.{
  ℕ, String, ◌≡◌, ◌⊎◌, Bool-cases, Option-cases, true, some, ◌∷◌, arith, if◌then◌else◌, inl, inr,
  ◌==◌, ◌&&◌,
}
use host_container.Schema.{NetworkRow, ContainerRow}
use host_container.Tables.{find, find-holds}
use host_container.World.{
  Outside, World, statement, ok, err, Error, refused, bad_uuid, bad_bigint, not_owned, logged,
  Bigint, matches, network_connect,
}
use host_container.Networks.{
  owned_network, owned_container, find_network, find_container, connect_container, insert_member,
  upsert_member,
}

module _ (out : Outside) (user_id : String) where
  -- What a network's look-up returns.
  find_network_cases :
      (net_id : String) (w : World)
      → ((e : Error) × (find_network out user_id net_id w ≡ (err e, logged statement w)))
        ⊎ ((id : ℕ) × (k : Bigint) × (n : NetworkRow) × (out.to_uuid net_id ≡ some id)
            × (out.to_bigint user_id ≡ some k)
            × (matches k n.user_id ≡ true)
            × (find (owned_network id k) w.db.networks ≡ some n)
            × (find_network out user_id net_id w ≡ (ok n.docker_net_id, logged statement w)))
  unfolding find_network
  find_network_cases net_id w = elim (Bool-cases (out.fails (statement ∷ w.trace))) [
    | inl lost ↦ inl (refused statement, ground arith)
    | inr up ↦ elim (Option-cases (out.to_uuid net_id)) [
      | inl e ↦ inl (bad_uuid, ground arith)
      | inr (id, e) ↦ elim (Option-cases (out.to_bigint user_id)) [
        | inl f ↦ inl (bad_bigint, ground arith)
        | inr (k, f) ↦ elim (Option-cases (find (owned_network id k) w.db.networks)) [
          | inl g ↦ inl (not_owned "network", ground arith)
          | inr (n, g) ↦
              let held = find-holds (owned_network id k) w.db.networks g in
              inr (id, k, n, e, f, ground arith, g, ground arith)
        ]
      ]
    ]
  ]

  -- What a container's look-up returns.
  find_container_cases :
      (project_id : String) (w : World)
      → ((e : Error) × (find_container out user_id project_id w ≡ (err e, logged statement w)))
        ⊎ ((id : Bigint) × (k : Bigint) × (r : ContainerRow) × (out.to_bigint project_id ≡ some id)
            × (out.to_bigint user_id ≡ some k)
            × (matches k r.user_id ≡ true)
            × (find (owned_container id k) w.db.containers ≡ some r)
            × (find_container out user_id project_id w
                ≡ (ok (r.container_id, r.id), logged statement w)))
  unfolding find_container
  find_container_cases project_id w = elim (Bool-cases (out.fails (statement ∷ w.trace))) [
    | inl lost ↦ inl (refused statement, ground arith)
    | inr up ↦ elim (Option-cases (out.to_bigint project_id)) [
      | inl e ↦ inl (bad_bigint, ground arith)
      | inr (id, e) ↦ elim (Option-cases (out.to_bigint user_id)) [
        | inl f ↦ inl (bad_bigint, ground arith)
        | inr (k, f) ↦ elim (Option-cases (find (owned_container id k) w.db.containers)) [
          | inl g ↦ inl (not_owned "container", ground arith)
          | inr (r, g) ↦
              let held = find-holds (owned_container id k) w.db.containers g in
              inr (id, k, r, e, f, ground arith, g, ground arith)
        ]
      ]
    ]
  ]

  -- A connection stops at a refused look-up, with the tables as they were and Docker not called, or
  -- it has found the network and the container that the two ids name among those of the user, and
  -- calls Docker with these two. Then it
  -- fails if Docker refuses, with the tables as they were, fails with Docker connected if the last
  -- statement is refused, and returns otherwise with the membership written.
  pub connect_container_cases :
      (net_id project_id alias : String) (w : World)
      → ((e : Error) × (connect_container out user_id net_id project_id alias w
            ≡ (err e, logged statement w)))
        ⊎ (((e : Error) × (connect_container out user_id net_id project_id alias w
                ≡ (err e, logged statement (logged statement w))))
            ⊎ ((id : ℕ) × (k k' : Bigint) × (n : NetworkRow) × (r : ContainerRow) × (out.to_bigint
                    user_id
                  ≡ some k)
                × (out.to_uuid net_id ≡ some id)
                × (find (λ (x : NetworkRow). x.id == id && matches k x.user_id) w.db.networks
                    ≡ some n)
                × (out.to_bigint project_id ≡ some k')
                × (find
                      (λ (x : ContainerRow). matches k' x.id && matches k x.user_id)
                      w.db.containers
                    ≡ some r)
                × (let t =
                      network_connect n.docker_net_id r.container_id alias
                      ∷ statement
                      ∷ statement
                      ∷ w.trace in
                    connect_container out user_id net_id project_id alias w ≡ (
                      if out.fails t
                      then (
                        err (refused (network_connect n.docker_net_id r.container_id alias)),
                        record w { trace = t },
                      )
                      else if out.fails (statement ∷ t)
                      then (err (refused statement), record w { trace = statement ∷ t })
                      else (
                        ok tt,
                        record w {
                          db = record w.db {
                            container_networks =
                                upsert_member
                                  (record { container_id = r.id; network_id = id; alias = alias })
                                  w.db.container_networks;
                          };
                          trace = statement ∷ t;
                        },
                      )))))
  unfolding connect_container insert_member
  connect_container_cases net_id project_id alias w = elim (find_network_cases net_id w) [
    | inl (e, f) ↦ inl (e, ground arith)
    | inr (id, k, n, e, f, mine, g, h) ↦
        elim (find_container_cases project_id (logged statement w)) [
          | inl (e', f') ↦ inr (inl (e', ground arith))
          | inr (id', k', r, e', f', mine', g', h') ↦
              inr (inr (id, k, id', n, r, f, e, ground arith, e', ground arith, ground arith))
        ]
  ]
