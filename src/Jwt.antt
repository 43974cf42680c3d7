-- ===== src/Jwt.antt =====
-- jwt/helper.go: the access and the refresh tokens.
--
-- The library (golang-jwt, HS256 with the secret of the environment) is the parameter `Jwt`. A token
-- is the list of its characters; a claim that is not there, or that is no text, is `none`.
pub mod Kinds
use host_container.Prelude.{
  ℕ, ◌+◌, ◌*◌, ◌≡◌, String, Bool, true, false, Option, none, some, if◌then◌else◌, ltb, str_eq,
}
use host_container.World.{Word}

pub record Claims : Type 0 where
  pub username : Option String
  pub email : Option String
  pub id : Option String
  pub kind : Option String
  pub exp : ℕ

pub record Jwt : Type 0 where
  pub sign : Claims → Option Word
  pub parse : ℕ → Word → Option Claims  -- `Parse` and `Valid`, at a time

-- What the library documents: a token that it signed is valid until it expires, with its claims.
pub record JwtLaws (jwt : Jwt) : Type 0 where
  pub parse_signed :
      (c : Claims) (t : Word) (now : ℕ)
      → jwt.sign c ≡ some t
      → jwt.parse now t ≡ (if ltb now c.exp then some c else none)

pub is_refresh : Claims → Bool
is_refresh c = elim c.kind [ none ↦ false | some k ↦ str_eq k "refresh" ]

module _ (jwt : Jwt) (now : ℕ) where
  unfoldable pub create_token : String → String → String → Option Word
  create_token username email user_id = jwt.sign (record {
    username = some username;
    email = some email;
    id = some user_id;
    kind = some "access";
    exp = now + 15 * 60;
  })

  unfoldable pub create_refresh_token : String → Option Word
  create_refresh_token user_id = jwt.sign (record {
    username = none;
    email = none;
    id = some user_id;
    kind = some "refresh";
    exp = now + 7 * 24 * 3600;
  })

  pub verify_refresh_token : Word → Option String
  verify_refresh_token t = elim (jwt.parse now t) [
    | none ↦ none
    | some c ↦ if is_refresh c then c.id else none
  ]

  unfoldable pub verify_token : Word → Bool
  verify_token t = elim (jwt.parse now t) [ none ↦ false | some c ↦ true ]

  unfoldable pub get_user_id_from_token : Word → Option String
  get_user_id_from_token t = elim (jwt.parse now t) [ none ↦ none | some c ↦ c.id ]
