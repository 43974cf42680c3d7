-- ===== src/Recovery/Health.antt =====
-- The reset of the circuit breaker, and who may ask for it.
use mathlib.Core.Option
use host_container.Prelude.{
  ℕ, String, ◌&&◌, ◌≡◌, refl, some, arith, if◌then◌else◌, inl, inr, Option-cases,
}
use host_container.Tables.{update, find-update_if}
use host_container.World.{Outside, World, Bigint, matches, ok, err, Error}
use host_container.Containers.Rows.{row}
use host_container.Recovery.{reset_circuit, reset}

-- A reset that is refused leaves the tables as they were.
reset_circuit-atomic :
    (out : Outside) (user project : String) (w : World) {e : Error}
    → (reset_circuit out user project w).0 ≡ err e
    → (reset_circuit out user project w).1.db ≡ w.db
unfolding reset_circuit
reset_circuit-atomic out user project w h = ground arith

reset_updates :
    (out : Outside) (user project : String) (w : World)
    → (reset_circuit out user project w).0 ≡ ok tt
    → (k u : Bigint) × (out.to_bigint project ≡ some k)
      × (out.to_bigint user ≡ some u)
      × ((reset_circuit out user project w).1.db.containers
          ≡ update (λ r. matches k r.id && matches u r.user_id) reset w.db.containers)
unfolding reset_circuit
reset_updates out user project w h = elim (Option-cases (out.to_bigint project)) [
  | inl e ↦ absurd (ground arith)
  | inr (k, e) ↦ elim (Option-cases (out.to_bigint user)) [
    | inl f ↦ absurd (ground arith)
    | inr (u, f) ↦ (k, u, e, f, ground arith)
  ]
]

-- A reset that returns closes the circuit of the row with that id, if the row is the user's, clears
-- its counter and its flag, and leaves every other row as it was.
reset_circuit-resets :
    (out : Outside) (user project : String) (w : World) (j : ℕ)
    → (reset_circuit out user project w).0 ≡ ok tt
    → (k u : Bigint) × (out.to_bigint project ≡ some k)
      × (out.to_bigint user ≡ some u)
      × (row j (reset_circuit out user project w).1.db.containers
          ≡ Option.map
              (λ r. if matches k r.id && matches u r.user_id then reset r else r)
              (row j w.db.containers))
unfolding reset
reset_circuit-resets out user project w j h =
    let (k, u, e, f, changed) = reset_updates out user project w h in
    (k, u, e, f, rw changed (find-update_if _ _ reset w.db.containers (λ x. refl)))
