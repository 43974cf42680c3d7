-- ===== src/Networks/Creation.antt =====
-- A network that is created stands in both places, one that is not in neither, and the plan's limit holds.
use host_container.Prelude.{
  ℕ, ◌≤◌, String, ◌≡◌, ◌⊎◌, Bool-cases, Option-cases, true, false, some, [], ◌∷◌, ◌++◌, arith,
  if◌then◌else◌, inl, inr, ltb, str_eq,
}
use host_container.Schema.{UserRow, PlanRow, NetworkRow}
use host_container.Tables.{find, count, count-append}
use host_container.World.{
  Outside, World, statement, ok, err, Error, refused, logged, Bigint, nonneg, negative, matches,
  network_create, network_remove, bad_bigint, no_rows,
}
use host_container.Networks.{
  NetworkInfo, conflicts, docker_name_of, read_max_networks, count_networks, insert_network,
  create_network,
}

module _ (out : Outside) (user_id : String) (w : World) where
  -- What the plan's look-up returns.
  read_max_cases :
      ((e : Error) × (read_max_networks out user_id w ≡ (err e, logged statement w)))
      ⊎ ((k : Bigint) × (u : UserRow) × (p : PlanRow) × (out.to_bigint user_id ≡ some k)
          × (find (λ (x : UserRow). matches k x.id) w.db.users ≡ some u)
          × (find (λ (x : PlanRow). str_eq x.id u.plan_id) w.db.plans ≡ some p)
          × (read_max_networks out user_id w ≡ (ok p.max_networks, logged statement w)))
  unfolding read_max_networks
  read_max_cases = elim (Bool-cases (out.fails (statement ∷ w.trace))) [
    | inl lost ↦ inl (refused statement, ground arith)
    | inr up ↦ elim (Option-cases (out.to_bigint user_id)) [
      | inl e ↦ inl (bad_bigint, ground arith)
      | inr (k, e) ↦ elim (Option-cases (find (λ (x : UserRow). matches k x.id) w.db.users)) [
        | inl f ↦ inl (no_rows, ground arith)
        | inr (u, f) ↦
            elim (Option-cases (find (λ (x : PlanRow). str_eq x.id u.plan_id) w.db.plans)) [
              | inl g ↦ inl (no_rows, ground arith)
              | inr (p, g) ↦ inr (k, u, p, e, f, g, ground arith)
            ]
      ]
    ]
  ]

  -- The count, where it is answered.
  count_answered :
      {k : Bigint}
      → out.to_bigint user_id ≡ some k
      → count_networks out user_id w ≡ (
        ok (
            if out.fails (statement ∷ w.trace)
            then 0
            else count (λ (x : NetworkRow). matches k x.user_id) w.db.networks),
        logged statement w,
      )
  unfolding count_networks
  count_answered e = ground (arith, e)

  -- The insertion is refused, or it appends one row of the user.
  insert_network_cases :
      (name docker_id : String)
      → ((e : Error) × (insert_network out user_id name docker_id w ≡ (err e, logged statement w)))
        ⊎ ((info : NetworkInfo) × (k : Bigint) × (n : NetworkRow) × (out.to_bigint user_id ≡ some k)
            × (matches k n.user_id ≡ true)
            × (insert_network out user_id name docker_id w ≡ (
              ok info,
              record w {
                db = record w.db { networks = w.db.networks ++ n ∷ [] };
                trace = statement ∷ w.trace;
              },
            )))
  unfolding insert_network
  insert_network_cases name docker_id = elim (Bool-cases (out.fails (statement ∷ w.trace))) [
    | inl lost ↦ inl (refused statement, ground arith)
    | inr up ↦ elim (Option-cases (out.to_bigint user_id)) [
      | inl e ↦ inl (bad_bigint, ground arith)
      | inr (negative m, e) ↦ inl (refused statement, ground arith)
      | inr (nonneg user, e) ↦
          let n : NetworkRow = record {
            id = out.new_uuid (statement ∷ w.trace);
            user_id = user;
            name = name;
            docker_net_id = docker_id;
            docker_net_name = docker_name_of user_id name;
            created_at = out.now w.trace;
          } in
          elim (Option-cases (find (conflicts n) w.db.networks)) [
            | inr (x, f) ↦ inl (refused statement, ground arith)
            | inl f ↦ inr (
              record {
                id = out.uuid_text n.id;
                name = name;
                docker_name = n.docker_net_name;
                created_at = n.created_at;
                members = [];
              },
              nonneg user,
              n,
              e,
              ground arith,
              ground arith,
            )
          ]
    ]
  ]

module _ (out : Outside) (user_id name : String) (w : World) where
  -- The number that the creation compares with the plan's.
  abbrev counted_of : Bigint → ℕ
  counted_of k =
      if out.fails (statement ∷ statement ∷ w.trace)
      then 0
      else count (λ (x : NetworkRow). matches k x.user_id) w.db.networks

  -- A creation that fails leaves the tables as they were. It has not called Docker, or Docker has
  -- refused the network, or the network that Docker made is removed by the last call.
  pub create_network-undone :
      {e : Error}
      → (create_network out user_id name w).0 ≡ err e
      → let made = network_create (docker_name_of user_id name) ∷ statement ∷ statement ∷ w.trace in
        let after = (create_network out user_id name w).1 in
        (after.db ≡ w.db)
        × ((after.trace ≡ statement ∷ w.trace)
            ⊎ ((after.trace ≡ statement ∷ statement ∷ w.trace)
                ⊎ (((after.trace ≡ made) × (out.fails made ≡ true))
                    ⊎ ((after.trace ≡ network_remove (out.text made) ∷ statement ∷ made)
                        × (out.fails made ≡ false)))))
  unfolding create_network
  create_network-undone h = elim (read_max_cases out user_id w) [
    | inl (e, f) ↦ (ground arith, inl (ground arith))
    | inr (k, u, p, e, _, _, f) ↦
        let counted = count_answered out user_id (logged statement w) e in
        let made = network_create (docker_name_of user_id name) ∷ statement ∷ statement ∷ w.trace in
        elim (Bool-cases (ltb (counted_of k) p.max_networks)) [
          | inr full ↦ (ground arith, inr (inl (ground arith)))
          | inl room ↦ elim (Bool-cases (out.fails made)) [
            | inl lost ↦ (ground arith, inr (inr (inl (ground arith, lost))))
            | inr up ↦
                elim (insert_network_cases out user_id (record w { trace = made }) name
                  (out.text made)) [
                    | inl (e', g) ↦ (ground arith, inr (inr (inr (ground arith, up))))
                    | inr (info, k', n, e', mine, g) ↦ absurd (ground arith)
                  ]
          ]
        ]
  ]

  -- A creation that returns, where the count was answered, has added one network of the user, and
  -- with it the user has no more than the plan allows.
  pub create_network-within_plan :
      {info : NetworkInfo}
      → (create_network out user_id name w).0 ≡ ok info
      → out.fails (statement ∷ statement ∷ w.trace) ≡ false
      → (k : Bigint) × (u : UserRow) × (p : PlanRow) × (n : NetworkRow) × (out.to_bigint user_id
          ≡ some k)
        × (find (λ (x : UserRow). matches k x.id) w.db.users ≡ some u)
        × (find (λ (x : PlanRow). str_eq x.id u.plan_id) w.db.plans ≡ some p)
        × ((create_network out user_id name w).1.db.networks ≡ w.db.networks ++ n ∷ [])
        × (matches k n.user_id ≡ true)
        × (count
              (λ (x : NetworkRow). matches k x.user_id)
              (create_network out user_id name w).1.db.networks
            ≤ p.max_networks)
  unfolding create_network
  create_network-within_plan h up = elim (read_max_cases out user_id w) [
    | inl (e, f) ↦ absurd (ground arith)
    | inr (k, u, p, e, found, plan, f) ↦
        let counted = count_answered out user_id (logged statement w) e in
        let made = network_create (docker_name_of user_id name) ∷ statement ∷ statement ∷ w.trace in
        elim (Bool-cases (ltb (counted_of k) p.max_networks)) [
          | inr full ↦ absurd (ground arith)
          | inl room ↦ elim (Bool-cases (out.fails made)) [
            | inl lost ↦ absurd (ground arith)
            | inr up' ↦
                elim (insert_network_cases out user_id (record w { trace = made }) name
                  (out.text made)) [
                    | inl (e', g) ↦ absurd (ground arith)
                    | inr (info, k', n, e', mine, g) ↦
                        let more =
                          count-append (λ (x : NetworkRow). matches k x.user_id) w.db.networks n in
                        (k, u, p, n, e, found, plan, ground arith, ground arith, ground arith)
                  ]
          ]
        ]
  ]
