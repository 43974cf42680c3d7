-- ===== src/Containers/Lifecycle/Removal.antt =====
-- `RemoveContainer`: the row goes first, and Docker is only touched once that is committed.
use host_container.Prelude.{
  ℕ, String, Bool, true, false, ◌≡◌, refl, none, some, List, [], ◌∷◌, arith, ◌==◌, if◌then◌else◌,
  Option-cases, inl, inr, ap, ◌∙◌,
}
use host_container.Schema.{ContainerRow}
use host_container.Tables.{find, delete}
use host_container.World.{
  Outside, World, Event, begins, commits, statement, ok, err, Error, Bigint, nonneg, matches,
}
use host_container.Containers.Repo.{ContainerInfo, has_id, get_container_by_id, delete_container}
use host_container.Containers.Rows.{row, found_id, found_nonneg, row-delete}
use host_container.Containers.Lifecycle.{
  remove_container, disconnect_all, collect_networks, clean_up,
}

-- Whether an event is a message to the database.
abbrev pub to_database : Event → Bool
to_database begins = true
to_database commits = true
to_database statement = true
to_database _ = false

-- What a trace holds besides.
abbrev pub effects : List Event → List Event
effects [] = []
effects (e ∷ es) = let rest = effects es in if to_database e then rest else e ∷ rest

module _ (out : Outside) where
  disconnect_all_lem :
      (ns : List String) (cid : String) (w : World)
      → ((disconnect_all out ns cid w).0 ≡ ok tt) × ((disconnect_all out ns cid w).1.db ≡ w.db)
  unfolding disconnect_all
  disconnect_all_lem [] cid w = (refl, refl)
  disconnect_all_lem (n ∷ ns) cid w = disconnect_all_lem ns cid _

  -- The clean-up never fails, and leaves the tables alone.
  clean_up_lem :
      (nets : List String) (info : ContainerInfo) (folder : Bool) (w : World)
      → ((clean_up out nets info folder w).0 ≡ ok tt)
        × ((clean_up out nets info folder w).1.db ≡ w.db)
  unfolding clean_up
  clean_up_lem nets info folder w = ground (arith, disconnect_all_lem nets info.container_id w)

module _ (out : Outside) (id : String) (folder : Bool) (w : World) where
  -- A removal that fails has changed nothing: neither a table nor, since all that precedes the
  -- commit goes to the database, anything in Docker or on the disk.
  pub remove_container-atomic :
      {e : Error}
      → (remove_container out id folder w).0 ≡ err e
      → ((remove_container out id folder w).1.db ≡ w.db)
        × (effects (remove_container out id folder w).1.trace ≡ effects w.trace)
  unfolding remove_container get_container_by_id delete_container collect_networks
  remove_container-atomic h = grind (arith, clean_up_lem)

module _ (out : Outside) (id : String) (folder : Bool) (w : World) where
  removal :
      (remove_container out id folder w).0 ≡ ok tt
      → (r : ContainerRow) × (k : Bigint) × (out.to_bigint id ≡ some k)
        × (find (has_id k) w.db.containers ≡ some r)
        × ((remove_container out id folder w).1.db ≡ record w.db {
          containers = delete (has_id k) w.db.containers;
          container_networks = delete (λ m. matches k m.container_id) w.db.container_networks;
        })
  unfolding remove_container get_container_by_id delete_container collect_networks
  removal h = elim (Option-cases (out.to_bigint id)) [
    | inl e ↦ absurd (ground arith)
    | inr (k, e) ↦ elim (Option-cases (find (has_id k) w.db.containers)) [
      | inl f ↦ absurd (ground arith)
      | inr (r, f) ↦ (r, k, e, f, grind (arith, clean_up_lem))
    ]
  ]

  -- A removal that returns has deleted the row with the number that its id is cast to, and its memberships of networks, and no
  -- other row of a container.
  pub remove_container-removes :
      (j : ℕ)
      → (remove_container out id folder w).0 ≡ ok tt
      → (r : ContainerRow) × (out.to_bigint id ≡ some (nonneg r.id))
        × (row r.id w.db.containers ≡ some r)
        × (row j (remove_container out id folder w).1.db.containers
            ≡ (if j == r.id then none else row j w.db.containers))
        × ((remove_container out id folder w).1.db.container_networks
            ≡ delete (λ m. r.id == m.container_id) w.db.container_networks)
  remove_container-removes j h =
      let (r, k, e, f, changed) = removal h in
      let same : k ≡ nonneg r.id = found_nonneg k w.db.containers f in
      (
        r,
        e ∙ ap some same,
        found_id k w.db.containers f,
        rw (changed, same) (row-delete r.id j w.db.containers),
        rw (changed, same),
      )
