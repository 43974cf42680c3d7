-- ===== src/Tests/Passwords.antt =====
-- Examples: signing in, and the links of the e-mails.
use host_container.Text.{concat}
use host_container.World.{
  send_mail, random_read, statement, World, hash_password, logged, mails_reset,
}
use host_container.Prelude.{◌<◌, none, ℕ, ◌+◌, ◌≡◌, refl, String, Bool, true, some, [], ◌∷◌, arith}
use host_container.Schema.{UserRow, EmailTokenRow}
use host_container.Tables.{find, update}
use host_container.Containers.Repo.{scan_user, is_some}
use host_container.Users.{has_email, get_user_by_email, get_user_by_email_with_password}
use host_container.Jwt.{Jwt, create_token, create_refresh_token}
use host_container.Tokens.{new_token, is_redeemable, create, invalidate, insert_token, consume}
use host_container.Http.{post, payload}
use host_container.Accounts.{
  Validator, LoginRequest, ResetRequest, AuthTokenResponse, tokens, issue_token_pair, sign_in,
  login,
}
use host_container.Accounts.Login.{login_sound}
use host_container.Accounts.Links.{
  has_number, set_password, id_int, update_user, mail_link, run_job, reset_password,
}
use host_container.Accounts.Reset.{reset_password_sound}
use host_container.Accounts.Flow.{BcryptLaws, forgot_reset_login}
use host_container.Tests.{calm, calm_laws, db, start, ann}

-- The library signs everything.
abbrev pub lax_jwt : Jwt
lax_jwt = record { sign = λ c. some (c.exp ∷ []); parse = λ now t. none }

abbrev pub all_valid : Validator
all_valid = record { login = λ r. true; register = λ r. true; token = λ t. true; reset = λ r. true }

abbrev same_word : String → String → Bool
same_word h p = true

same_word_laws : BcryptLaws calm same_word
same_word_laws = record { verifies = λ p t. refl }

abbrev known : UserRow
known = record ann { email_verified_at = some 0 }

abbrev here : World
here = record start { db = record db { users = known ∷ [] } }

abbrev hashed : String → String
hashed t = t

abbrev credentials : LoginRequest
credentials = record { email = "a@b"; password = "p" }

login_sound_example :
    (u : UserRow) × (find (has_email "a@b") here.db.users ≡ some u)
    × (same_word u.password_hash "p" ≡ true)
    × ((at : ℕ) × (u.email_verified_at ≡ some at))
    × ((t : AuthTokenResponse) × (issue_token_pair lax_jwt
            (calm.now (statement ∷ []))
            u.name
            u.email
            (calm.to_text u.id)
          ≡ some t)
        × (login calm lax_jwt all_valid same_word post (some credentials) here
            ≡ (record { status = 200; body = payload (tokens t) }, logged statement here)))
unfolding login sign_in scan_user is_some issue_token_pair create_token create_refresh_token
    get_user_by_email_with_password
login_sound_example = login_sound calm lax_jwt all_valid same_word post credentials here refl

abbrev issued : World
issued = (create calm hashed 1 "password_reset" 3600 start).1

abbrev reset_known : ResetRequest
reset_known = record { token = "x"; new_password = "q" }

reset_password_sound_example :
    (t : EmailTokenRow) × (find
        (is_redeemable "x" "password_reset" (calm.now issued.trace))
        issued.db.email_tokens
      ≡ some t)
    × (t.token_hash ≡ "x")
    × (t.kind ≡ "password_reset")
    × (t.used_at ≡ none)
    × (calm.now issued.trace < t.expires_at)
    × (find
          (is_redeemable "x" "password_reset" 9)
          (reset_password calm all_valid hashed post (some reset_known) issued).1.db.email_tokens
        ≡ none)
    × ((reset_password calm all_valid hashed post (some reset_known) issued).1.db.users
        ≡ update
            (has_number t.user_id)
            (set_password (calm.text (hash_password "q" ∷ statement ∷ issued.trace)))
            issued.db.users)
unfolding reset_password update_user create invalidate insert_token consume new_token
reset_password_sound_example =
    reset_password_sound calm all_valid hashed post reset_known issued 9 (omega arith) refl

abbrev mailed : World
mailed = (run_job calm hashed "https://app" (mails_reset "a@b") here).1

abbrev new_credentials : LoginRequest
new_credentials = record { email = "a@b"; password = "q" }

forgot_reset_login_example :
    (mailed.trace
      ≡ send_mail "a@b" "Reset your Docker Wrapper password"
          (concat "https://app" (concat "/reset-password?token=" "x"))
        ∷ statement
        ∷ statement
        ∷ random_read
        ∷ statement
        ∷ here.trace)
    × ((reset_password calm all_valid hashed post (some reset_known) mailed).0.status ≡ 200)
    × ((login calm lax_jwt all_valid same_word post
          (some new_credentials)
          (reset_password calm all_valid hashed post (some reset_known) mailed).1).0.status
        ≡ 200)
unfolding run_job mail_link id_int get_user_by_email scan_user is_some create invalidate
    insert_token issue_token_pair create_token create_refresh_token
forgot_reset_login_example =
    forgot_reset_login calm calm_laws lax_jwt all_valid same_word same_word_laws hashed
      "https://app" "a@b" "q" here mailed {u = known} {at = 0} refl refl refl refl (omega arith)
      (λ t. refl) refl refl
      (λ now.
        (record { access_token = (now + 900) ∷ []; refresh_token = (now + 604800) ∷ [] }, refl))
