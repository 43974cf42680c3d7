-- ===== src/Tokens/RoundTrip.antt =====
-- A token that was issued can be redeemed: `create`, then `consume`.
use host_container.Prelude.{
  ℕ, ◌+◌, ◌<◌, String, ◌≡◌, refl, Option-cases, false, none, some, List, [], ◌∷◌, ◌++◌, arith,
  if◌then◌else◌, inl, inr, length, eq_iff,
}
use host_container.Schema.{EmailTokenRow}
use host_container.Tables.{find, update}
use host_container.World.{Outside, World, statement, random_read, ok}
use host_container.Tokens.{
  TokenRecord, is_pending, is_redeemable, use_at, has_hash, new_token, invalidate, insert_token,
  create, consume,
}

-- The token that was added is the one that a search finds.
find-added :
    (hash kind : String) (now id user expires : ℕ) (ts : List EmailTokenRow)
    → find (has_hash hash) ts ≡ none
    → now < expires
    → find (is_redeemable hash kind now) (ts ++ new_token id user hash kind expires ∷ [])
      ≡ some (new_token id user hash kind expires)
unfolding new_token
find-added hash kind now id user expires [] h k = ground (arith, eq_iff hash hash, eq_iff kind kind)
find-added hash kind now id user expires (t ∷ ts) h k =
    ground (arith, find-added hash kind now id user expires ts)

module _ (out : Outside) (hash_token : String → String) where
  -- What an issue leaves: the token's hash was not among those before.
  create_leaves :
      (user : ℕ) (kind : String) (ttl : ℕ) (w : World) {raw : String}
      → (create out hash_token user kind ttl w).0 ≡ ok raw
      → (ts : List EmailTokenRow) × (find (has_hash (hash_token raw)) ts ≡ none)
        × ((create out hash_token user kind ttl w).1.db.email_tokens
            ≡ ts
              ++ new_token
                  (length ts)
                  user
                  (hash_token raw)
                  kind
                  (out.now (statement ∷ random_read ∷ w.trace) + ttl)
                ∷ [])
  unfolding create invalidate insert_token
  create_leaves user kind ttl w {raw = raw} h =
      let invalidated =
        if out.fails (statement ∷ random_read ∷ w.trace)
        then w.db.email_tokens
        else update (is_pending user kind) (use_at (out.now (random_read ∷ w.trace)))
            w.db.email_tokens in
      elim (Option-cases (find (has_hash (hash_token raw)) invalidated)) [
        | inl e ↦ (invalidated, e, ground arith)
        | inr (t, e) ↦ absurd (ground arith)
      ]

  pub create-trace :
      (user : ℕ) (kind : String) (ttl : ℕ) (w : World) {raw : String}
      → (create out hash_token user kind ttl w).0 ≡ ok raw
      → (create out hash_token user kind ttl w).1.trace
        ≡ statement ∷ statement ∷ random_read ∷ w.trace
  unfolding create invalidate insert_token
  create-trace user kind ttl w h = ground arith

  -- The token is what the random source answered.
  pub create-raw :
      (user : ℕ) (kind : String) (ttl : ℕ) (w : World) {raw : String}
      → (create out hash_token user kind ttl w).0 ≡ ok raw
      → raw ≡ out.text (random_read ∷ w.trace)
  unfolding create invalidate insert_token
  create-raw user kind ttl w h = ground arith

  -- An issue touches no user.
  pub create-users :
      (user : ℕ) (kind : String) (ttl : ℕ) (w : World)
      → (create out hash_token user kind ttl w).1.db.users ≡ w.db.users
  unfolding create invalidate insert_token
  create-users user kind ttl w = ground arith

  -- A token whose issue returned is redeemed before it expires, from any state that holds the same
  -- tokens and in which the database answers, and names the user and the kind it was issued for.
  pub create-consume :
      (user : ℕ) (kind : String) (ttl : ℕ) (w later : World) {raw : String}
      → (create out hash_token user kind ttl w).0 ≡ ok raw
      → later.db.email_tokens ≡ (create out hash_token user kind ttl w).1.db.email_tokens
      → out.now later.trace < out.now (statement ∷ random_read ∷ w.trace) + ttl
      → out.fails (statement ∷ later.trace) ≡ false
      → (rec : TokenRecord) × ((consume out hash_token raw kind later).0 ≡ ok rec)
        × (rec.user_id ≡ user)
        × (rec.kind ≡ kind)
  unfolding consume new_token
  create-consume user kind ttl w later {raw = raw} h same early up =
      let (ts, fresh, left) = create_leaves user kind ttl w h in
      let found =
        find-added (hash_token raw) kind (out.now later.trace) (length ts) user
          (out.now (statement ∷ random_read ∷ w.trace) + ttl) ts fresh early in
      (record { id = length ts; user_id = user; kind = kind }, ground arith, refl, refl)
