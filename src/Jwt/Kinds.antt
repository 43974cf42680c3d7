-- ===== src/Jwt/Kinds.antt =====
-- What each kind of token is good for, and how long.
use host_container.Prelude.{
  ℕ, ◌+◌, ◌*◌, ◌<◌, ◌≡◌, String, true, false, none, some, arith, refl, sym, ◌∙◌, false, ltb,
  Bool-cases, inl, inr, if◌then◌else◌,
}
use host_container.World.{Word}
use host_container.Jwt.{
  Claims, Jwt, JwtLaws, create_token, create_refresh_token, is_refresh, verify_refresh_token,
  verify_token, get_user_id_from_token,
}

module _ (jwt : Jwt) (now : ℕ) (t : Word) where
  of_parsed :
      {c : Claims}
      → jwt.parse now t ≡ some c
      → (verify_token jwt now t ≡ true)
        × (get_user_id_from_token jwt now t ≡ c.id)
        × (verify_refresh_token jwt now t ≡ (if is_refresh c then c.id else none))
  unfolding verify_token get_user_id_from_token verify_refresh_token
  of_parsed h = ground arith

  of_unparsed :
      jwt.parse now t ≡ none
      → (verify_token jwt now t ≡ false)
        × (get_user_id_from_token jwt now t ≡ none)
        × (verify_refresh_token jwt now t ≡ none)
  unfolding verify_token get_user_id_from_token verify_refresh_token
  of_unparsed h = ground arith

module _ (jwt : Jwt) (laws : JwtLaws jwt) (issued now : ℕ) (user_id : String) {t : Word} where
  -- An access token gives its user for 15 minutes and is refused from then on; it is never taken for a
  -- refresh token.
  create_token_lem :
      (username email : String)
      → create_token jwt issued username email user_id ≡ some t
      → (verify_token jwt now t ≡ ltb now (issued + 15 * 60))
        × (get_user_id_from_token jwt now t
            ≡ (if ltb now (issued + 15 * 60) then some user_id else none))
        × (verify_refresh_token jwt now t ≡ none)
  unfolding create_token verify_token get_user_id_from_token verify_refresh_token is_refresh
  create_token_lem username email h =
      let parsed = laws.parse_signed _ t now h in
      elim (Bool-cases (ltb now (issued + 15 * 60))) [
        | inl e ↦
            let (v, u, r) = of_parsed jwt now t (rw e at parsed) in (v ∙ sym e, u ∙ rw e refl, r)
        | inr e ↦
            let (v, u, r) = of_unparsed jwt now t (rw e at parsed) in (v ∙ sym e, u ∙ rw e refl, r)
      ]

  -- A refresh token gives its user for 7 days, to the refresh and, just as an access token does, to
  -- every request that is authenticated by a token.
  pub create_refresh_token_lem :
      create_refresh_token jwt issued user_id ≡ some t
      → now < issued + 7 * 24 * 3600
      → (verify_refresh_token jwt now t ≡ some user_id)
        × (verify_token jwt now t ≡ true)
        × (get_user_id_from_token jwt now t ≡ some user_id)
  unfolding create_refresh_token verify_token get_user_id_from_token verify_refresh_token is_refresh
  create_refresh_token_lem h before =
      let parsed = laws.parse_signed _ t now h in
      let e : ltb now (issued + 7 * 24 * 3600) ≡ true = ground arith in
      let (v, u, r) = of_parsed jwt now t (rw e at parsed) in (r, v, u)
