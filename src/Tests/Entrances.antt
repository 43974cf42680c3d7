-- ===== src/Tests/Entrances.antt =====
-- Examples: tokens, headers and the middlewares.
use host_container.Prelude.{
  ℕ, String, Bool, false, ◌&&◌, Option, none, some, [], ◌∷◌, if◌then◌else◌, ltb, str_eq,
}
use host_container.World.{Word, World}
use host_container.Jwt.{Claims, Jwt}
use host_container.Http.{Handler, payload, respond}
use host_container.Auth.{Request}

-- A library that signs the refresh tokens of the user `1` only, as the time at which they end.
abbrev claims_at : ℕ → Claims
claims_at n = record {
  username = none;
  email = none;
  id = some "1";
  kind = some "refresh";
  exp = n;
}

abbrev signs : Option String → Option String → Option String → Option String → Bool
signs none none (some i) (some k) = str_eq i "1" && str_eq k "refresh"
signs _ _ _ _ = false

abbrev parse_word : ℕ → Word → Option Claims
parse_word now (n ∷ []) = if ltb now n then some (claims_at n) else none
parse_word now _ = none

abbrev pub small_jwt : Jwt
small_jwt = record {
  sign = λ c. if signs c.username c.email c.id c.kind then some (c.exp ∷ []) else none;
  parse = parse_word;
}

-- A handler that shows the user.
abbrev shows : String → Handler String
shows id = respond 200 (payload id)

abbrev pub bearing : Request
bearing = record { api_key = ""; authorization = []; token = 90 ∷ [] }

abbrev hashed : String → String
hashed k = k
