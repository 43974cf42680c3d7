-- ===== src/Containers/Create/Limit.antt =====
-- The plan's limit on the number of containers.
use host_container.Prelude.{
  ℕ, suc, ◌+◌, ◌<◌, ◌≡◌, ◌≢◌, sym, ap, ◌∙◌, refl, String, Bool, some, List, [], ◌∷◌, map, arith,
  length, length-append, ◌==◌, str_eq, Bool-cases, Option-cases, inl, inr,
}
use host_container.Schema.{Db, UserRow, PlanRow, ContainerRow}
use host_container.Tables.{find, select, count}
use host_container.World.{
  Result-cases, FilePath, Outside, World, Result, ok, err, Error, in_tx, logged, begins, statement,
  refused, bad_bigint, user_not_found, cast, Bigint, matches, opened,
}
use host_container.Containers.Repo.{
  ContainerInfo, User, no_user, scan_joined, left_join, insert_desc, order_desc,
  get_containers_for_user, get_plan_for_user,
}
use host_container.Containers.Create.{
  Project, check_limit, create_container, create_container_with_port,
}

-- The number of containers that belong to a user.
abbrev pub owned_by : ℕ → Db → ℕ
owned_by u d = count (λ (r : ContainerRow). r.user_id == u) d.containers

length-select :
    (p : ContainerRow → Bool) (rs : List ContainerRow) → length (select p rs) ≡ count p rs
length-select p [] = refl
length-select p (r ∷ rs) = ground (arith, length-select p rs)

length-insert_desc :
    (r : ContainerRow) (rs : List ContainerRow) → length (insert_desc r rs) ≡ suc (length rs)
unfolding insert_desc
length-insert_desc r [] = refl
length-insert_desc r (x ∷ xs) = ground (arith, length-insert_desc r xs)

length-order_desc : (rs : List ContainerRow) → length (order_desc rs) ≡ length rs
unfolding order_desc
length-order_desc [] = refl
length-order_desc (r ∷ rs) =
    length-insert_desc r (order_desc rs) ∙ ground (arith, length-order_desc rs)

module _ (out : Outside) (u : UserRow) where
  length-scan_containers :
      (rs : List ContainerRow) (acc : User × List ContainerInfo)
      → length (scan_joined out (map (λ c. record { user = u; container = some c }) rs) acc).1
        ≡ length acc.1 + length rs
  unfolding scan_joined
  length-scan_containers [] acc = omega arith
  length-scan_containers (r ∷ rs) acc = length-scan_containers rs _ ∙ grind (arith, length-append)

  -- As many containers are read as the user has rows.
  length-scan_joined :
      (rs : List ContainerRow) (user : User)
      → length (scan_joined out (left_join u rs) (user, [])).1 ≡ length rs
  unfolding left_join scan_joined
  length-scan_joined [] user = refl
  length-scan_joined (r ∷ rs) user = length-scan_containers (r ∷ rs) (user, []) ∙ omega arith

  read_count :
      (d : Db) (user : User)
      → length
          (scan_joined out
            (left_join u (order_desc (select (λ r. r.user_id == u.id) d.containers)))
            (user, [])).1
        ≡ owned_by u.id d
  read_count d user =
      length-scan_joined (order_desc (select (λ r. r.user_id == u.id) d.containers)) user
      ∙ length-order_desc (select (λ r. r.user_id == u.id) d.containers)
      ∙ length-select (λ r. r.user_id == u.id) d.containers

module _ (out : Outside) (base : FilePath) (project : Project) (w : World) where
  containers_found :
      {q : User × List ContainerInfo}
      → (get_containers_for_user out in_tx project.user_id w).0 ≡ ok q
      → (k : Bigint) × (u : UserRow) × (out.to_bigint project.user_id ≡ some k)
        × (find (λ x. matches k x.id) (opened w.tx w.db).users ≡ some u)
        × (length q.1 ≡ owned_by u.id (opened w.tx w.db))
  unfolding get_containers_for_user
  containers_found {q} h = elim (Bool-cases (out.fails (statement ∷ w.trace))) [
    | inl lost ↦ absurd (ok≢err q (refused statement) (sym h ∙ rw lost refl))
    | inr answered ↦ elim (Option-cases (out.to_bigint project.user_id)) [
      | inl e ↦ absurd (ok≢err q (bad_bigint) (sym h ∙ rw (answered, cast, e) refl))
      | inr (k, e) ↦
          elim (Option-cases (find (λ (x : UserRow). matches k x.id) (opened w.tx w.db).users)) [
            | inl f ↦ absurd (ok≢err q (user_not_found) (sym h ∙ rw (answered, cast, e, f) refl))
            | inr (u, f) ↦
                let rows =
                  left_join u
                    (order_desc (select (λ r. r.user_id == u.id) (opened w.tx w.db).containers)) in
                let read : (get_containers_for_user out in_tx project.user_id w).0
                    ≡ ok (scan_joined out rows (no_user, [])) =
                  rw (answered, cast, e, f) refl in
                (
                  k,
                  u,
                  e,
                  f,
                  ap length_of (sym h ∙ read) ∙ read_count out u (opened w.tx w.db) no_user,
                )
          ]
    ]
  ]
    where
      ok≢err : (q : User × List ContainerInfo) (e : Error) → Result.ok q ≢ err e
      ok≢err q e h = cc

      length_of : Result (User × List ContainerInfo) → ℕ
      length_of (ok q) = length q.1
      length_of (err e) = 0

module _ (out : Outside) (base : FilePath) (project : Project) where
  plan_found :
      (w : World) {p : PlanRow} {k : Bigint} {u : UserRow}
      → out.to_bigint project.user_id ≡ some k
      → find (λ x. matches k x.id) (opened w.tx w.db).users ≡ some u
      → (get_plan_for_user out in_tx project.user_id w).0 ≡ ok p
      → find (λ x. str_eq x.id u.plan_id) (opened w.tx w.db).plans ≡ some p
  unfolding get_plan_for_user
  plan_found w {p} {k} {u} e f h = ground (arith, e, f, h)

  containers_read :
      (w : World) → (get_containers_for_user out in_tx project.user_id w).1 ≡ logged statement w
  unfolding get_containers_for_user
  containers_read w = elim (Bool-cases (out.fails (statement ∷ w.trace))) [
    | inl e ↦ rw e refl
    | inr e ↦ rw e refl
  ]

  limit_read :
      (w : World) {p : PlanRow}
      → (check_limit out base project w).0 ≡ ok p
      → (q : User × List ContainerInfo) × ((get_containers_for_user out in_tx project.user_id w).0
          ≡ ok q)
        × ((get_plan_for_user out in_tx project.user_id (logged statement w)).0 ≡ ok p)
        × (length q.1 < p.max_containers)
  unfolding check_limit
  limit_read w h = elim (Result-cases (get_containers_for_user out in_tx project.user_id w).0) [
    | inl (e, f) ↦ absurd (ground arith)
    | inr (q, f) ↦ (q, f, grind (arith, containers_read w), grind (arith, containers_read w))
  ]

  -- The check of the limit passes only for a user with fewer containers than the user's plan allows,
  -- and gives that plan.
  pub check_limit-below :
      (w : World) {p : PlanRow}
      → (check_limit out base project w).0 ≡ ok p
      → (k : Bigint) × (u : UserRow) × (out.to_bigint project.user_id ≡ some k)
        × (find (λ x. matches k x.id) (opened w.tx w.db).users ≡ some u)
        × (find (λ x. str_eq x.id u.plan_id) (opened w.tx w.db).plans ≡ some p)
        × (owned_by u.id (opened w.tx w.db) < p.max_containers)
  check_limit-below w h =
      let (q, read, plan, below) = limit_read w h in
      let (k, u, e, f, same) = containers_found out base project w read in
      (k, u, e, f, plan_found (logged statement w) e f plan, omega (arith, below, same))

  -- A creation without a port returns only for a user who had fewer containers than the user's plan
  -- allows.
  pub create_container-within_plan :
      (image : String) (w : World) {info : ContainerInfo}
      → (create_container out base project image w).0 ≡ ok info
      → (k : Bigint) × (u : UserRow) × (p : PlanRow) × (out.to_bigint project.user_id ≡ some k)
        × (find (λ x. matches k x.id) w.db.users ≡ some u)
        × (find (λ x. str_eq x.id u.plan_id) w.db.plans ≡ some p)
        × (owned_by u.id w.db < p.max_containers)
  unfolding create_container
  create_container-within_plan image w h =
      let w1 : World = record (logged begins w) { tx = some w.db } in
      elim (Result-cases (check_limit out base project w1).0) [
        | inl (e, f) ↦ absurd (ground arith)
        | inr (p, f) ↦
            let (k, u, e, g, plan, below) = check_limit-below w1 f in (k, u, p, e, g, plan, below)
      ]

  -- A creation with a port returns only for a user who had fewer containers than the user's plan
  -- allows.
  create_container_with_port-within_plan :
      (image port : String) (w : World) {info : ContainerInfo}
      → (create_container_with_port out base project image port w).0 ≡ ok info
      → (k : Bigint) × (u : UserRow) × (p : PlanRow) × (out.to_bigint project.user_id ≡ some k)
        × (find (λ x. matches k x.id) w.db.users ≡ some u)
        × (find (λ x. str_eq x.id u.plan_id) w.db.plans ≡ some p)
        × (owned_by u.id w.db < p.max_containers)
  unfolding create_container_with_port
  create_container_with_port-within_plan image port w h =
      let w1 : World = record (logged begins w) { tx = some w.db } in
      elim (Result-cases (check_limit out base project w1).0) [
        | inl (e, f) ↦ absurd (ground arith)
        | inr (p, f) ↦
            let (k, u, e, g, plan, below) = check_limit-below w1 f in (k, u, p, e, g, plan, below)
      ]
