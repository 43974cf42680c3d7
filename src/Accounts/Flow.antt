-- ===== src/Accounts/Flow.antt =====
-- A forgotten password, from the link's job over the reset to the sign-in.
use host_container.Prelude.{
  ℕ, ◌+◌, ◌<◌, String, ◌≡◌, refl, sym, ap, ◌∙◌, Bool, true, false, some, List, ◌∷◌, arith,
}
use host_container.Schema.{UserRow}
use host_container.Tables.{find, update, find-update_if}
use host_container.World.{
  Outside, World, CastLaws, mails_reset, send_mail, hash_password, statement, random_read, Event,
  ok, logged,
}
use host_container.Text.{concat}
use mathlib.Core.Path.{ap₂}
use host_container.Users.{has_email}
use host_container.Tokens.{consume}
use host_container.Tokens.RoundTrip.{create-raw, create-trace, create-users, create-consume}
use host_container.Jwt.{Jwt}
use host_container.Http.{post}
use host_container.Accounts.{
  LoginRequest, ResetRequest, Validator, AuthTokenResponse, issue_token_pair, login,
}
use host_container.Accounts.Login.{login_complete}
use host_container.Accounts.Links.{has_number, set_password, run_job, reset_password}
use host_container.Accounts.Reset.{mail_link_issues, run_job_links, reset_password_complete}

-- bcrypt's comparison accepts the password that a hash was made of.
pub record BcryptLaws (out : Outside) (verify : String → String → Bool) : Type 0 where
  pub verifies : (p : String) (t : List Event) → verify (out.text (hash_password p ∷ t)) p ≡ true

-- The address still finds its user, with the new hash.
find-set_password :
    (email hash : String) (users : List UserRow) {u : UserRow}
    → find (has_email email) users ≡ some u
    → find (has_email email) (update (has_number u.id) (set_password hash) users)
      ≡ some (set_password hash u)
unfolding set_password
find-set_password email hash users {u = u} h =
    let moved =
      find-update_if (has_number u.id) (has_email email) (set_password hash) users (λ x. refl) in
    ground arith

module _ (out : Outside) (laws : CastLaws out) (jwt : Jwt) (valid : Validator)
    (verify : String → String → Bool) (bcrypt : BcryptLaws out verify)
    (hash_token : String → String) (base_url : String) where
  -- The link of a forgotten password works. Let no call fail, and the job that sends the link to a user
  -- whose address is confirmed have returned. Then its last call has mailed that user the link with
  -- the token that the random source gave. A reset with this token, in a state with the
  -- same tables and within the hour, is answered 200, and a sign-in with the address and the new
  -- password after it is answered 200 too, where the validator accepts both requests and the
  -- user's tokens can be signed, bcrypt accepts what it hashed, and ids are read back.
  pub forgot_reset_login :
      (email password : String) (w later : World) {u : UserRow} {at : ℕ}
      → find (has_email email) w.db.users ≡ some u
      → u.email_verified_at ≡ some at
      → (run_job out hash_token base_url (mails_reset email) w).0 ≡ ok tt
      → later.db ≡ (run_job out hash_token base_url (mails_reset email) w).1.db
      → out.now later.trace < out.now (statement ∷ random_read ∷ statement ∷ w.trace) + 3600
      → ((t : List Event) → out.fails t ≡ false)
      → valid.reset
          (record { token = out.text (random_read ∷ statement ∷ w.trace); new_password = password })
        ≡ true
      → valid.login (record { email = email; password = password }) ≡ true
      → ((now : ℕ)
          → (t : AuthTokenResponse) × (issue_token_pair jwt now u.name u.email (out.to_text u.id)
              ≡ some t))
      → let changed =
          reset_password out valid hash_token post
            (some (record {
              token = out.text (random_read ∷ statement ∷ w.trace);
              new_password = password;
            }))
            later in
        ((run_job out hash_token base_url (mails_reset email) w).1.trace
          ≡ send_mail u.email "Reset your Docker Wrapper password" (
              concat base_url
                (concat "/reset-password?token=" (out.text (random_read ∷ statement ∷ w.trace))))
            ∷ statement
            ∷ statement
            ∷ random_read
            ∷ statement
            ∷ w.trace)
        × (changed.0.status ≡ 200)
        × ((login out jwt valid verify post
              (some (record { email = email; password = password }))
              changed.1).0.status
            ≡ 200)
  unfolding set_password
  forgot_reset_login email password w later {u = u} {at = at} found confirmed sent same early up
        v_reset v_login signs =
      let links = run_job_links out laws hash_token base_url email w found sent in
      let (raw, made, mailed, kept) =
        mail_link_issues out laws hash_token base_url u.email u.id
          "Reset your Docker Wrapper password" "/reset-password?token=" "password_reset" 3600
          (logged statement w) (ap (λ p. p.0) (sym links) ∙ sent) in
      let given = create-raw out hash_token u.id "password_reset" 3600 (logged statement w) made in
      let calls =
        create-trace out hash_token u.id "password_reset" 3600 (logged statement w) made in
      let users = create-users out hash_token u.id "password_reset" 3600 (logged statement w) in
      let tables = same ∙ ap (λ p. p.1.db) links ∙ kept in
      let (rec, redeemed, whose, _) =
        create-consume out hash_token u.id "password_reset" 3600 (logged statement w) later made
          (ap (λ d. d.email_tokens) tables) early (up (statement ∷ later.trace)) in
      let request : ResetRequest = record {
        token = out.text (random_read ∷ statement ∷ w.trace);
        new_password = password;
      } in
      let matched : (consume out hash_token request.token "password_reset" later).0 ≡ ok rec = cc in
      let (answered, written) =
        reset_password_complete out valid hash_token request rec later v_reset matched up in
      let hash = out.text (hash_password password ∷ statement ∷ later.trace) in
      let moved = find-set_password email hash w.db.users found in
      let credentials : LoginRequest = record { email = email; password = password } in
      let after = (reset_password out valid hash_token post (some request) later).1 in
      let here : find (has_email email) after.db.users ≡ some (set_password hash u) =
        ap (find (has_email email)) (
          written
          ∙ ap (λ n. update (has_number n) (set_password hash) later.db.users) whose
          ∙ ap (update (has_number u.id) (set_password hash)) (ap (λ d. d.users) tables ∙ users))
        ∙ moved in
      let (t, issued) = signs (out.now (statement ∷ after.trace)) in
      let entered =
        login_complete out jwt valid verify credentials (set_password hash u) after v_login
          (up (statement ∷ after.trace)) here (bcrypt.verifies password (statement ∷ later.trace))
          confirmed issued in
      (
        ap (λ p. p.1.trace) links
            ∙ mailed
            ∙ ap₂
                (λ (r : String) (t : List Event).
                  send_mail u.email "Reset your Docker Wrapper password"
                    (concat base_url (concat "/reset-password?token=" r))
                  ∷ t)
                given calls,
        answered,
        ap (λ p. p.0.status) entered,
      )
