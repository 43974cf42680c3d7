-- ===== src/Tokens.antt =====
-- The single-use tokens of the e-mail links: repository/tokenRepo.go.
--
-- The hash of a token (SHA-256, in hexadecimal) is a parameter, and the raw token is what the
-- random source answers.
pub mod SingleUse
pub mod RoundTrip
use host_container.Prelude.{
  ℕ, ◌+◌, String, Bool, true, false, ◌&&◌, Option, none, some, List, [], ◌∷◌, ◌++◌, if◌then◌else◌,
  ltb, ◌==◌, str_eq, length,
}
use host_container.Schema.{Db, EmailTokenRow}
use host_container.Tables.{find, update}
use host_container.World.{
  Outside, World, Event, statement, random_read, Action, Result, ok, err, Error, refused, no_rows,
  Conn, pool, ask, exec, ignore, ◌>>=◌, ◌>>◌, pure,
}

pub record TokenRecord : Type 0 where
  pub id : ℕ
  pub user_id : ℕ
  pub kind : String

abbrev pub is_unused : EmailTokenRow → Bool
is_unused t = elim t.used_at [ none ↦ true | some _ ↦ false ]

-- WHERE user_id = $1 AND type = $2 AND used_at IS NULL
abbrev pub is_pending : ℕ → String → EmailTokenRow → Bool
is_pending user kind t = t.user_id == user && str_eq t.kind kind && is_unused t

-- WHERE token_hash = $1 AND type = $2 AND used_at IS NULL AND expires_at > NOW()
abbrev pub is_redeemable : String → String → ℕ → EmailTokenRow → Bool
is_redeemable hash kind now t =
    str_eq t.token_hash hash && str_eq t.kind kind && is_unused t && ltb now t.expires_at

abbrev pub use_at : ℕ → EmailTokenRow → EmailTokenRow
use_at now t = record t { used_at = some now }

abbrev pub has_hash : String → EmailTokenRow → Bool
has_hash hash t = str_eq t.token_hash hash

abbrev pub with_tokens : List EmailTokenRow → Db → Db
with_tokens ts d = record d { email_tokens = ts }

unfoldable pub new_token : ℕ → ℕ → String → String → ℕ → EmailTokenRow
new_token id user hash kind expires = record {
  id = id;
  user_id = user;
  token_hash = hash;
  kind = kind;
  expires_at = expires;
  used_at = none;
}

module _ (out : Outside) (hash_token : String → String) where
  unfoldable pub invalidate : ℕ → String → Action (Unit {0})
  invalidate user kind w =
      let now = out.now w.trace in
      exec out pool
        (λ d. ok (tt, with_tokens (update (is_pending user kind) (use_at now) d.email_tokens) d)) w

  -- `token_hash` is UNIQUE. The id is the number of the row.
  unfoldable pub insert_token : ℕ → String → String → ℕ → Action (Unit {0})
  insert_token user hash kind expires = exec out pool λ d.
      elim (find (has_hash hash) d.email_tokens) [
        | some _ ↦ err (refused statement)
        | none ↦ ok (
          tt,
          with_tokens
              (d.email_tokens ++ new_token (length d.email_tokens) user hash kind expires ∷ []) d,
        )
      ]

  -- The error of the invalidation is dropped.
  unfoldable pub create : ℕ → String → ℕ → Action String
  create user kind ttl = do
    raw ← ask out random_read out.text
    ignore (invalidate user kind)
    λ w. (insert_token user (hash_token raw) kind (out.now w.trace + ttl) >> pure raw) w

  unfoldable pub consume : String → String → Action TokenRecord
  consume raw kind w =
      let now = out.now w.trace in
      let redeemable = is_redeemable (hash_token raw) kind now in
      exec out pool
        (λ d. elim (find redeemable d.email_tokens) [
          | none ↦ err no_rows
          | some t ↦ ok (
            record { id = t.id; user_id = t.user_id; kind = t.kind },
            with_tokens (update redeemable (use_at now) d.email_tokens) d,
          )
        ])
        w
