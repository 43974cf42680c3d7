-- ===== src/Auth.antt =====
-- middlware/auth.go: who a request comes from, by an API key or a token, and who is an admin.
--
-- The hash of a key (SHA-256, in hexadecimal) is a parameter. A next handler is a function of the user
-- id that the middleware puts into the request's context.
pub mod Admitted
pub mod Headers
pub mod Plain
use mathlib.Core.Option
use host_container.Prelude.{
  ℕ, zero, suc, ◌+◌, String, Bool, true, false, ◌⊎◌, inl, inr, Option, none, some, List, [], ◌∷◌,
  if◌then◌else◌, length, take, drop, not, str_eq,
}
use host_container.Schema.{Db, UserRow, ApiKeyRow}
use host_container.Tables.{find, update}
use host_container.World.{
  Word, Outside, World, Action, Result, ok, err, Error, no_rows, Conn, pool, matches, query, exec,
  cast,
}
use host_container.Text.{codes, text_eq, has_prefix}
use host_container.Jwt.{Jwt, verify_token, get_user_id_from_token}
use host_container.Http.{Handler, respond, message, unless, answer}

-- The headers `X-API-Key` and `Authorization`, and the parameter `token`; what is not there is empty.
pub record Request : Type 0 where
  pub api_key : String
  pub authorization : Word
  pub token : Word

-- The loop of `splitTwo`: the first index at which the separator stands.
pub index_of : Word → Word → Option ℕ
index_of sep [] = if has_prefix sep [] then some 0 else none
index_of sep (c ∷ cs) =
    let rest = index_of sep cs in if has_prefix sep (c ∷ cs) then some 0 else Option.map suc rest

pub split_two : Word → Word → Option (Word × Word)
split_two s sep = elim (index_of sep s) [
  | none ↦ none
  | some i ↦ some (take i s, drop (i + length sep) s)
]

abbrev pub blank : Word
blank = codes " "

abbrev pub bearer : Word
bearer = codes "Bearer"

-- What follows `Bearer`, or `none` for another header.
pub bearer_of : Option (Word × Word) → Option Word
bearer_of none = none
bearer_of (some (scheme, rest)) = if text_eq scheme bearer then some rest else none

-- The token, or why there is none.
pub token_of : Request → String ⊎ Word
unfolding bearer_of
token_of r =
    let found : String ⊎ Word =
      if text_eq r.authorization []
      then inr []
      else elim (bearer_of (split_two r.authorization blank)) [
        | none ↦ inl "invalid authorization header format"
        | some t ↦ inr t
      ] in
    elim found [
      | inl reason ↦ inl reason
      | inr t ↦
          let given = if text_eq t [] then r.token else t in
          if text_eq given [] then inl "authorization required" else inr given
    ]

module _ (out : Outside) (jwt : Jwt) (hash_key : String → String) where
  -- The user id, or the reason of the refusal.
  pub resolve_jwt : ℕ → Request → String ⊎ String
  resolve_jwt now r = elim (token_of r) [
    | inl reason ↦ inl reason
    | inr t ↦
        if verify_token jwt now t
        then elim (get_user_id_from_token jwt now t) [
          | none ↦ inl "invalid or expired token"
          | some id ↦ inr id
        ]
        else inl "invalid token"
  ]

  abbrev pub has_key : String → ApiKeyRow → Bool
  has_key key k = str_eq k.key_hash (hash_key key)

  -- UPDATE api_keys SET last_used_at = NOW() WHERE key_hash = $1 RETURNING user_id::text
  unfoldable pub resolve_api_key : String → Action String
  resolve_api_key key w =
      let now = out.now w.trace in
      exec out pool
        (λ d. elim (find (has_key key) d.api_keys) [
          | none ↦ err no_rows
          | some k ↦ ok (
            out.to_text k.user_id,
            record d {
              api_keys =
                  update (has_key key) (λ x. record x { last_used_at = some now }) d.api_keys;
            },
          )
        ])
        w

  pub middleware : {A : Type 0} → Request → (String → Handler A) → Handler A
  middleware r next =
      if not (str_eq r.api_key "")
      then answer (resolve_api_key r.api_key) (λ e. respond 401 (message "invalid API key")) next
      else λ w. elim (resolve_jwt (out.now w.trace) r) [
        | inl reason ↦ respond 401 (message reason) w
        | inr id ↦ next id w
      ]

module _ (out : Outside) where
  -- SELECT role FROM users WHERE id = $1::bigint
  pub read_role : String → Action String
  read_role user_id = query out pool λ d. cast out user_id λ k.
      elim (find (λ (u : UserRow). matches k u.id) d.users) [
        | none ↦ err no_rows
        | some u ↦ ok u.role
      ]

  pub admin_only : {A : Type 0} → (String → Handler A) → String → Handler A
  admin_only next user_id =
      answer (read_role user_id) (λ e. respond 403 (message "forbidden"))
        (λ role. unless (str_eq role "admin") 403 "forbidden" (next user_id))
