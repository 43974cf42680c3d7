-- ===== src/Accounts/Reset.antt =====
-- The password reset, from the link that is asked for to the sign-in with the new password.
use host_container.Prelude.{
  ℕ, String, ◌≡◌, ◌⊎◌, Bool-cases, Option-cases, true, false, some, List, ◌∷◌, arith, inl, inr, ◌≤◌,
  none, ◌<◌, eq_iff,
}
use host_container.Schema.{UserRow, EmailTokenRow}
use host_container.Tables.{find, update, find-holds}
use host_container.World.{
  Result-cases, Outside, World, CastLaws, mails_reset, hash_password, statement, Event, ok, err,
  Error, refused, no_rows, logged, send_mail,
}
use host_container.Containers.Repo.{scan_user}
use host_container.Users.{has_email}
use host_container.Tokens.SingleUse.{redeemed_gone}
use host_container.Text.{concat}
use host_container.Tokens.{TokenRecord, is_redeemable, use_at, with_tokens, create, consume}
use host_container.Http.{Method, post}
use host_container.Accounts.{Validator, ResetRequest}
use host_container.Accounts.Login.{by_email_answers}
use host_container.Accounts.Links.{
  has_number, set_password, id_int, update_user, mail_link, run_job, reset_password,
}

module _ (out : Outside) (hash_token : String → String) (raw kind : String) (w : World) where
  -- A redemption is refused and leaves the tables, or it uses up the token that it found.
  consume_cases :
      ((e : Error) × (consume out hash_token raw kind w ≡ (err e, logged statement w)))
      ⊎ ((t : EmailTokenRow) × (find
              (is_redeemable (hash_token raw) kind (out.now w.trace))
              w.db.email_tokens
            ≡ some t)
          × (consume out hash_token raw kind w ≡ (
            ok (record { id = t.id; user_id = t.user_id; kind = t.kind }),
            record w {
              db =
                  with_tokens
                    (update
                      (is_redeemable (hash_token raw) kind (out.now w.trace))
                      (use_at (out.now w.trace))
                      w.db.email_tokens)
                    w.db;
              trace = statement ∷ w.trace;
            },
          )))
  unfolding consume
  consume_cases = elim (Bool-cases (out.fails (statement ∷ w.trace))) [
    | inl lost ↦ inl (refused statement, ground arith)
    | inr answered ↦
        elim (Option-cases
          (find (is_redeemable (hash_token raw) kind (out.now w.trace)) w.db.email_tokens)) [
            | inl e ↦ inl (no_rows, ground arith)
            | inr (t, e) ↦ inr (t, e, ground arith)
          ]
  ]

redeemable_facts :
    (hash kind : String) (now : ℕ) (t : EmailTokenRow)
    → is_redeemable hash kind now t ≡ true
    → (t.token_hash ≡ hash) × (t.kind ≡ kind) × (t.used_at ≡ none) × (now < t.expires_at)
redeemable_facts hash kind now t h = elim (Option-cases t.used_at) [
  | inl e ↦ (
    ground (arith, eq_iff t.token_hash hash),
    ground (arith, eq_iff t.kind kind),
    e,
    ground arith,
  )
  | inr (at, e) ↦ absurd (ground arith)
]

module _ (out : Outside) (valid : Validator) (hash_token : String → String) where
  -- A reset that is answered 200 has found the hash of its token in an unused and unexpired row of the
  -- kind, after which no redemption finds it any more, and has given the user of that row, and no
  -- other, the hash that bcrypt made of the new password.
  pub reset_password_sound :
      (m : Method) (req : ResetRequest) (w : World) (later : ℕ)
      → out.now w.trace ≤ later
      → (reset_password out valid hash_token m (some req) w).0.status ≡ 200
      → (t : EmailTokenRow) × (find
            (is_redeemable (hash_token req.token) "password_reset" (out.now w.trace))
            w.db.email_tokens
          ≡ some t)
        × (t.token_hash ≡ hash_token req.token)
        × (t.kind ≡ "password_reset")
        × (t.used_at ≡ none)
        × (out.now w.trace < t.expires_at)
        × (find
              (is_redeemable (hash_token req.token) "password_reset" later)
              (reset_password out valid hash_token m (some req) w).1.db.email_tokens
            ≡ none)
        × ((reset_password out valid hash_token m (some req) w).1.db.users
            ≡ update
                (has_number t.user_id)
                (set_password (out.text (hash_password req.new_password ∷ statement ∷ w.trace)))
                w.db.users)
  unfolding reset_password update_user
  reset_password_sound m req w later monotone h =
      elim (consume_cases out hash_token req.token "password_reset" w) [
        | inl (no_rows, f) ↦ absurd (ground arith)
        | inl (e, f) ↦ absurd (ground arith)
        | inr (t, found, f) ↦
            let held =
              find-holds (is_redeemable (hash_token req.token) "password_reset" (out.now w.trace))
                w.db.email_tokens found in
            let gone =
              redeemed_gone (hash_token req.token) "password_reset" (out.now w.trace) later
                w.db.email_tokens monotone in
            let (hash, kind, unused, current) =
              redeemable_facts (hash_token req.token) "password_reset" (out.now w.trace) t held in
            (t, found, hash, kind, unused, current, ground arith, ground arith)
      ]

  -- And where such a token is found and nothing is refused, it is answered 200.
  pub reset_password_complete :
      (req : ResetRequest) (rec : TokenRecord) (w : World)
      → valid.reset req ≡ true
      → (consume out hash_token req.token "password_reset" w).0 ≡ ok rec
      → ((t : List Event) → out.fails t ≡ false)
      → ((reset_password out valid hash_token post (some req) w).0.status ≡ 200)
        × ((reset_password out valid hash_token post (some req) w).1.db.users
            ≡ update
                (has_number rec.user_id)
                (set_password (out.text (hash_password req.new_password ∷ statement ∷ w.trace)))
                w.db.users)
  unfolding reset_password update_user
  reset_password_complete req rec w v redeemed up =
      elim (consume_cases out hash_token req.token "password_reset" w) [
        | inl (e, f) ↦ absurd (ground arith)
        | inr (t, found, f) ↦
            let a = up (hash_password req.new_password ∷ statement ∷ w.trace) in
            let b = up (statement ∷ hash_password req.new_password ∷ statement ∷ w.trace) in
            ground (arith, v, f, a, b, redeemed)
      ]

module _ (out : Outside) (laws : CastLaws out) (hash_token : String → String)
    (base_url : String) where
  id_int-scan_user : (u : UserRow) → id_int out (scan_user out u) ≡ u.id
  unfolding id_int scan_user
  id_int-scan_user u = let back = laws.read_back u.id in ground arith

  -- A link that was sent carries a token that was issued for it, and sending it changes no table.
  pub mail_link_issues :
      (to : String) (id : ℕ) (subject path kind : String) (ttl : ℕ) (w : World)
      → (mail_link out hash_token base_url to id subject path kind ttl w).0 ≡ ok tt
      → (raw : String) × ((create out hash_token id kind ttl w).0 ≡ ok raw)
        × ((mail_link out hash_token base_url to id subject path kind ttl w).1.trace
            ≡ send_mail to subject (concat base_url (concat path raw))
              ∷ (create out hash_token id kind ttl w).1.trace)
        × ((mail_link out hash_token base_url to id subject path kind ttl w).1.db
            ≡ (create out hash_token id kind ttl w).1.db)
  unfolding mail_link
  mail_link_issues to id subject path kind ttl w h =
      elim (Result-cases ((create out hash_token id kind ttl w).0)) [
        | inl (e, f) ↦ absurd (ground arith)
        | inr (raw, f) ↦ (raw, f, ground arith, ground arith)
      ]

  -- The job of a reset's link, where it returns, is a link sent to the user of the address.
  pub run_job_links :
      (email : String) (w : World) {u : UserRow}
      → find (has_email email) w.db.users ≡ some u
      → (run_job out hash_token base_url (mails_reset email) w).0 ≡ ok tt
      → run_job out hash_token base_url (mails_reset email) w
        ≡ mail_link out hash_token base_url u.email u.id "Reset your Docker Wrapper password"
            "/reset-password?token=" "password_reset" 3600
            (logged statement w)
  unfolding run_job scan_user
  run_job_links email w {u = u} found h =
      let number = id_int-scan_user u in
      elim (by_email_answers out email w) [
        | inl (e, f) ↦ absurd (ground arith)
        | inr (u', found', f) ↦ ground arith
      ]
