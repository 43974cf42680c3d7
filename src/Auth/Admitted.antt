-- ===== src/Auth/Admitted.antt =====
-- Whom the middleware lets through, and as whom.
use host_container.Prelude.{
  ◌≡◌, ◌⊎◌, String, inl, inr, some, ◌∷◌, arith, str_eq, eq_iff, Bool-cases, Option-cases,
}
use host_container.Schema.{UserRow, ApiKeyRow}
use host_container.Tables.{find}
use host_container.World.{
  Word, Outside, World, statement, ok, err, Error, Bigint, matches, logged, refused, no_rows,
  bad_bigint,
}
use host_container.Jwt.{Jwt, Claims}
use host_container.Http.{Handler}
use host_container.Auth.{Request, token_of, has_key, read_role, admin_only}

-- What proves that a request comes from a user: the key of a row, or a token of the library.
pub data Authentic (out : Outside) (jwt : Jwt) (hash_key : String → String) (r : Request)
    (w : World) (id : String) : Type 0 where
  by_key :
      (k : ApiKeyRow)
      → find (has_key out jwt hash_key r.api_key) w.db.api_keys ≡ some k
      → id ≡ out.to_text k.user_id
      → Authentic out jwt hash_key r w id
  by_token :
      (t : Word) (c : Claims)
      → token_of r ≡ inr t
      → jwt.parse (out.now w.trace) t ≡ some c
      → c.id ≡ some id
      → Authentic out jwt hash_key r w id

module _ (out : Outside) (id : String) (w : World) where
  read_role_cases :
      ((e : Error) × (read_role out id w ≡ (err e, logged statement w)))
      ⊎ ((k : Bigint) × (u : UserRow) × (out.to_bigint id ≡ some k)
          × (find (λ x. matches k x.id) w.db.users ≡ some u)
          × (read_role out id w ≡ (ok u.role, logged statement w)))
  unfolding read_role
  read_role_cases = elim (Bool-cases (out.fails (statement ∷ w.trace))) [
    | inl lost ↦ inl (refused statement, ground arith)
    | inr answered ↦ elim (Option-cases (out.to_bigint id)) [
      | inl e ↦ inl (bad_bigint, ground arith)
      | inr (k, e) ↦ elim (Option-cases (find (λ (x : UserRow). matches k x.id) w.db.users)) [
        | inl f ↦ inl (no_rows, ground arith)
        | inr (u, f) ↦ inr (k, u, e, f, ground arith)
      ]
    ]
  ]

  -- An admin's handler runs only for a user whose row has the role `admin`; anyone else is answered
  -- 403, and only the query for the role was made.
  pub admin_only_cases :
      {A : Type 0} (next : String → Handler A)
      → (((admin_only out next id w).0.status ≡ 403)
          × ((admin_only out next id w).1 ≡ logged statement w))
        ⊎ ((k : Bigint) × (u : UserRow) × (out.to_bigint id ≡ some k)
            × (find (λ x. matches k x.id) w.db.users ≡ some u)
            × (u.role ≡ "admin")
            × (admin_only out next id w ≡ next id (logged statement w)))
  unfolding admin_only
  admin_only_cases next = elim read_role_cases [
    | inl (e, f) ↦ inl (ground arith, ground arith)
    | inr (k, u, e, f, g) ↦ elim (Bool-cases (str_eq u.role "admin")) [
      | inl admin ↦ inr (k, u, e, f, (eq_iff u.role "admin").0 admin, ground arith)
      | inr other ↦ inl (ground arith, ground arith)
    ]
  ]
