-- ===== src/Accounts/Links.antt =====
-- service/userHnadler.go: the links sent by e-mail, and what they are for.
--
-- The mailer is a call that may fail; what it does is in Mail. A job runs when the
-- scheduler lets it, on the state of that time.
use host_container.Prelude.{ℕ, ◌*◌, String, Bool, Option, none, some, if◌then◌else◌, ◌==◌}
use host_container.Schema.{UserRow}
use host_container.Tables.{update}
use host_container.World.{
  Outside, Job, mails_verification, mails_again, mails_reset, send_mail, hash_password, Action, ok,
  Error, no_rows, nonneg, negative, pool, ask, call, exec, pure, ◌>>=◌,
}
use host_container.Text.{concat}
use host_container.Containers.Repo.{User}
use host_container.Users.{get_user_by_email}
use host_container.Tokens.{create, consume}
use host_container.Http.{
  Method, is_post, Handler, message, payload, respond, unless, answer, decoded,
}
use host_container.Accounts.{Validator, ResetRequest, Payload, done, spawn}

-- UPDATE users … WHERE id = $1
abbrev pub has_number : ℕ → UserRow → Bool
has_number id u = u.id == id

unfoldable pub mark_verified : ℕ → UserRow → UserRow
mark_verified now u = record u { email_verified_at = some now }

unfoldable pub set_password : String → UserRow → UserRow
set_password hash u = record u { password_hash = hash }

module _ (out : Outside) where
  -- `IDInt`: `ParseInt` of an id that the database wrote; what does not parse is 0.
  unfoldable pub id_int : User → ℕ
  id_int u = elim (out.to_bigint u.id) [
    | none ↦ 0
    | some k ↦ elim k [ nonneg n ↦ n | negative n ↦ 0 ]
  ]

  unfoldable pub update_user : ℕ → (UserRow → UserRow) → Action (Unit {0})
  update_user id f =
      exec out pool λ d. ok (tt, record d { users = update (has_number id) f d.users })

module _ (out : Outside) (hash_token : String → String) (base_url : String) where
  -- The link goes to the address, with a new token of that kind.
  unfoldable pub mail_link : String → ℕ → String → String → String → ℕ → Action (Unit {0})
  mail_link to id subject path kind ttl = do
    raw ← create out hash_token id kind ttl
    call out (send_mail to subject (concat base_url (concat path raw)))

  verify_subject : String
  verify_subject = "Verify your Docker Wrapper account"

  reset_subject : String
  reset_subject = "Reset your Docker Wrapper password"

  unfoldable pub run_job : Job → Action (Unit {0})
  unfolding verify_subject reset_subject
  run_job (mails_verification email name) = do
    user ← get_user_by_email out pool email
    if id_int out user == 0
        then pure tt
        else mail_link email (id_int out user) verify_subject "/verify-email?token="
            "email_verification" (24 * 3600)
  run_job (mails_again email) = do
    user ← get_user_by_email out pool email
    if user.email_verified
        then pure tt
        else mail_link user.email (id_int out user) verify_subject "/verify-email?token="
            "email_verification" (24 * 3600)
  run_job (mails_reset email) = do
    user ← get_user_by_email out pool email
    mail_link user.email (id_int out user) reset_subject "/reset-password?token=" "password_reset"
        3600

module _ (out : Outside) (valid : Validator) (hash_token : String → String) where
  unfoldable pub verify_email : Method → Option String → Handler Payload
  verify_email m body = unless (is_post m) 405 "method not allowed" (
      decoded body "invalid body" λ raw. unless (valid.token raw) 400 "token required" (
        answer (consume out hash_token raw "email_verification")
          (λ e. respond 400 (message "invalid or expired verification link"))
          (λ rec w.
            answer (update_user out rec.user_id (mark_verified (out.now w.trace)))
              (λ e. respond 500 (message "internal error"))
              (λ _. respond 200 (payload (done "email verified"))) w)))

  abbrev refusal : Error → Handler Payload
  refusal no_rows = respond 400 (message "invalid or expired reset link")
  refusal _ = respond 500 (message "internal error")

  unfoldable pub reset_password : Method → Option ResetRequest → Handler Payload
  reset_password m body = unless (is_post m) 405 "method not allowed" (
      decoded body "invalid body" λ req. unless (valid.reset req) 400 "validation error" (
        answer (consume out hash_token req.token "password_reset") refusal (λ rec.
          answer (ask out (hash_password req.new_password) out.text)
            (λ e. respond 500 (message "internal error"))
            (λ hash.
              answer (update_user out rec.user_id (set_password hash))
                (λ e. respond 500 (message "internal error"))
                (λ _. respond 200 (payload (done "password updated")))))))

-- The address is decoded, and not validated; the reply does not wait for the job.
unfoldable pub resend_verification : Method → Option String → Handler Payload
resend_verification m body = unless (is_post m) 405 "method not allowed" (
    decoded body "invalid body" λ email.
      spawn (mails_again email) (
        respond 200 (payload (done "if that email exists and is unverified, a new link was sent"))))

unfoldable pub forgot_password : Method → Option String → Handler Payload
forgot_password m body = unless (is_post m) 405 "method not allowed" (
    decoded body "invalid body" λ email.
      spawn (mails_reset email)
        (respond 200 (payload (done "if that email exists, a reset link was sent"))))
