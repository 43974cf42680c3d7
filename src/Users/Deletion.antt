-- ===== src/Users/Deletion.antt =====
-- What the deletion of a user takes along, and what it leaves.
use host_container.Prelude.{
  ℕ, ◌≡◌, refl, String, Bool, none, some, List, [], ◌∷◌, if◌then◌else◌, arith, ◌==◌, Option-cases,
  inl, inr,
}
use host_container.Schema.{UserRow, ContainerRow}
use host_container.Tables.{find, select, delete}
use host_container.World.{Outside, World, Bigint, nonneg, negative, matches, ok, err, Error}
use host_container.Users.{delete_containers_of, delete_user_row, delete_user_by_id, delete_user}

find-delete_self : {A : Type 0} (p : A → Bool) (xs : List A) → find p (delete p xs) ≡ none
find-delete_self p [] = refl
find-delete_self p (x ∷ xs) = ground (arith, find-delete_self p xs)

select-delete :
    (k : Bigint) (j : ℕ) (rs : List ContainerRow)
    → select (λ r. r.user_id == j) (delete (λ r. matches k r.user_id) rs)
      ≡ (if matches k j then [] else select (λ r. r.user_id == j) rs)
select-delete k j [] = ground arith
select-delete (nonneg n) j (r ∷ rs) = ground (arith, select-delete (nonneg n) j rs)
select-delete (negative n) j (r ∷ rs) = ground (arith, select-delete (negative n) j rs)

select-delete_twice :
    (k : Bigint) (j : ℕ) (rs : List ContainerRow)
    → select
        (λ r. r.user_id == j)
        (delete (λ r. matches k r.user_id) (delete (λ r. matches k r.user_id) rs))
      ≡ (if matches k j then [] else select (λ r. r.user_id == j) rs)
select-delete_twice k j rs =
    ground (arith, select-delete k j (delete (λ r. matches k r.user_id) rs), select-delete k j rs)

module _ (out : Outside) (id : String) (w : World) where
  -- A deletion of a user that returns an error leaves the tables as they were.
  delete_user-atomic :
      {e : Error} → (delete_user out id w).0 ≡ err e → (delete_user out id w).1.db ≡ w.db
  unfolding delete_user delete_user_by_id
  delete_user-atomic h = ground arith

  deletion :
      (delete_user out id w).0 ≡ ok tt
      → (k : Bigint) × (out.to_bigint id ≡ some k)
        × ((delete_user out id w).1.db ≡ delete_user_row k (delete_containers_of k w.db))
  unfolding delete_user delete_user_by_id
  deletion h = elim (Option-cases (out.to_bigint id)) [
    | inl e ↦ absurd (ground arith)
    | inr (k, e) ↦ (k, e, ground arith)
  ]

  -- A deletion of a user that returns leaves no row of that user in the table of users, and in the
  -- table of containers exactly the rows of every other user.
  pub delete_user-removes :
      (j : ℕ)
      → (delete_user out id w).0 ≡ ok tt
      → (k : Bigint) × (out.to_bigint id ≡ some k)
        × (find (λ u. matches k u.id) (delete_user out id w).1.db.users ≡ none)
        × (select (λ r. r.user_id == j) (delete_user out id w).1.db.containers
            ≡ (if matches k j then [] else select (λ r. r.user_id == j) w.db.containers))
  unfolding delete_user_row delete_containers_of
  delete_user-removes j h =
      let (k, e, changed) = deletion h in
      (
        k,
        e,
        rw changed (find-delete_self (λ (u : UserRow). matches k u.id) w.db.users),
        rw changed (select-delete_twice k j w.db.containers),
      )
