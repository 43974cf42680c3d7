-- ===== src/Entry/Serve/Closed.antt =====
-- Whom the routes are open to.
use host_container.World.{Word, Outside, World}
use host_container.Text.{codes, has_prefix}
use host_container.Jwt.{Jwt, verify_token, get_user_id_from_token}
use host_container.Http.{Handler}
use host_container.Auth.{Request}
use host_container.Auth.Admitted.{Authentic}
use host_container.Auth.Plain.{plain_token, auth_middleware}
use host_container.Auth.Plain.Stricter.{plain_token-token_of}
use host_container.Prelude.{◌≡◌, Bool, ◌||◌, arith, String, ◌⊎◌, inl, inr, ⊎-cases, Option-cases}

-- The paths that are not for everyone, by how they begin.
abbrev pub is_private : Word → Bool
is_private p =
    has_prefix (codes "/user") p
    || has_prefix (codes "/containers") p
    || has_prefix (codes "/ws") p
    || has_prefix (codes "/notifications") p
    || has_prefix (codes "/api-keys") p
    || has_prefix (codes "/networks") p
    || has_prefix (codes "/admin") p

abbrev pub is_for_admins : Word → Bool
is_for_admins p = has_prefix (codes "/admin") p

module _ (out : Outside) (jwt : Jwt) (hash_key : String → String) where
  pub auth_middleware_cases :
      {A : Type 0} (r : Request) (next : String → Handler A) (w : World)
      → (((auth_middleware out jwt r next w).0.status ≡ 401)
          × ((auth_middleware out jwt r next w).1 ≡ w))
        ⊎ ((id : String) × (auth_middleware out jwt r next w ≡ next id w)
            × Authentic out jwt hash_key r w id)
  unfolding auth_middleware verify_token get_user_id_from_token
  auth_middleware_cases r next w = elim (⊎-cases (plain_token r)) [
    | inl (reason, e) ↦ inl (ground arith, ground arith)
    | inr (t, e) ↦ elim (Option-cases (jwt.parse (out.now w.trace) t)) [
      | inl f ↦ inl (ground arith, ground arith)
      | inr (c, f) ↦ elim (Option-cases c.id) [
        | inl g ↦ inl (ground arith, ground arith)
        | inr (id, g) ↦
            inr (id, ground arith, Authentic.by_token t c (plain_token-token_of r t e) f g)
      ]
    ]
  ]

-- The tables are as they were, but for the times at which keys were used.
abbrev pub Untouched : World → World → Type 0
Untouched w w' = record w'.db { api_keys = w.db.api_keys } ≡ w.db
