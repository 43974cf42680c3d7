-- ===== src/ApiKeys.antt =====
-- service/apiKeyHandler.go: the keys that a user makes for programs.
--
-- The hash of a key (SHA-256, in hexadecimal) is a parameter. The random bytes are taken in
-- hexadecimal, 64 characters, so that the slice of the first 20 is in range.
pub mod Issue
pub mod Listing
use host_container.Prelude.{
  ℕ, ◌+◌, String, Bool, true, false, ◌&&◌, ◌||◌, Option, none, some, List, [], ◌∷◌, ◌++◌, take,
  if◌then◌else◌, ltb, ◌==◌, str_eq,
}
use host_container.Schema.{Db, ApiKeyRow}
use host_container.Tables.{find, delete, count}
use host_container.World.{
  Outside, World, Action, Result, ok, err, Error, refused, statement, random_read, not_owned,
  Bigint, nonneg, negative, matches, pool, cast, cast_uuid, query, exec, logged,
}
use host_container.Text.{concat, codes}
use host_container.Http.{
  Method, get, post, is_delete, Handler, message, no_content, payload, respond, unless, answer,
  decoded,
}
use host_container.Networks.Handlers.{user_or_empty}

pub record NewKey : Type 0 where
  pub id : String
  pub key : String
  pub name : String
  pub prefix : List ℕ
  pub created_at : ℕ

abbrev pub max_api_keys_per_user : ℕ
max_api_keys_per_user = 10

abbrev pub api_key_prefix : String
api_key_prefix = "dk_live_"

-- What 32 zero bytes read as: the error of `rand.Read` is not looked at.
abbrev zero_bytes : String
zero_bytes = "0000000000000000000000000000000000000000000000000000000000000000"

abbrev pub of_user : Bigint → ApiKeyRow → Bool
of_user k r = matches k r.user_id

abbrev pub with_keys : List ApiKeyRow → Db → Db
with_keys ks d = record d { api_keys = ks }

-- `key_hash` is UNIQUE, and `id` is the primary key.
abbrev pub same_key : ApiKeyRow → ApiKeyRow → Bool
same_key n x = x.id == n.id || str_eq x.key_hash n.key_hash

abbrev pub owned_key : ℕ → Bigint → ApiKeyRow → Bool
owned_key id k r = r.id == id && matches k r.user_id

module _ (out : Outside) where
  -- The error of the count is not looked at: what was not scanned is 0.
  unfoldable pub count_keys : String → World → ℕ × World
  count_keys user_id w =
      let (r, w') =
        query out pool (λ d. cast out user_id λ k. ok (count (of_user k) d.api_keys)) w in
      (elim r [ ok n ↦ n | err _ ↦ 0 ], w')

  unfoldable pub raw_key : World → String × World
  raw_key w =
      let w' = logged random_read w in
      (concat api_key_prefix (if out.fails w'.trace then zero_bytes else out.text w'.trace), w')

  unfoldable pub delete_key_row : String → String → Action (Unit {0})
  delete_key_row user_id key_id = exec out pool λ d. cast_uuid out key_id λ id.
      cast out user_id λ k. elim (find (owned_key id k) d.api_keys) [
        | none ↦ err (not_owned "key")
        | some _ ↦ ok (tt, with_keys (delete (owned_key id k) d.api_keys) d)
      ]

  unfoldable pub delete_key : Method → Option String → String → Handler (Unit {0})
  delete_key m user key_id = unless (is_delete m) 405 "method not allowed" (
      answer (delete_key_row (user_or_empty user) key_id)
        (λ e. respond 404 (message "key not found")) (λ _. respond 204 no_content))

module _ (out : Outside) (hash_key : String → String) where
  -- INSERT … RETURNING id::text, created_at
  unfoldable pub insert_key : String → String → String → Action NewKey
  insert_key user_id name raw w =
      let now = out.now w.trace in
      let id = out.new_uuid (statement ∷ w.trace) in
      let prefix = take 20 (codes raw) in
      exec out pool
        (λ d. cast out user_id λ k. elim k [
          | negative _ ↦ err (refused statement)
          | nonneg user ↦
              let row : ApiKeyRow = record {
                id = id;
                user_id = user;
                name = name;
                key_hash = hash_key raw;
                key_prefix = prefix;
                last_used_at = none;
                created_at = now;
              } in
              elim (find (same_key row) d.api_keys) [
                | some _ ↦ err (refused statement)
                | none ↦ ok (
                  record {
                    id = out.uuid_text id;
                    key = raw;
                    name = name;
                    prefix = prefix;
                    created_at = now;
                  },
                  with_keys (d.api_keys ++ row ∷ []) d,
                )
              ]
        ])
        w

  unfoldable pub create_key : (String → Bool) → Option String → Option String → Handler NewKey
  create_key valid user body = decoded body "invalid body" λ name.
      unless (valid name) 400 "validation error" (λ w.
        let (n, w1) = count_keys out (user_or_empty user) w in
        unless (ltb n max_api_keys_per_user) 400 "maximum API keys reached (10)"
          (λ w2.
            let (raw, w3) = raw_key out w2 in
            answer (insert_key (user_or_empty user) name raw)
              (λ e. respond 500 (message "internal error")) (λ made. respond 201 (payload made)) w3)
          w1)
