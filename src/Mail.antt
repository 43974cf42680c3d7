-- ===== src/Mail.antt =====
-- email/mailer.go: the sending of a mail, as the calls of `net/smtp`.
--
-- A link's mail is one call in Accounts.Links; this is what that call does. `html/template` with the two
-- templates of email/templates.go is a parameter, and so is `net.SplitHostPort`.
pub mod Exchange
use host_container.World.{
  Outside, Action, Result, ok, err, Error, Event, smtp_dial, smtp_client, smtp_auth, smtp_mail,
  smtp_rcpt, smtp_data, smtp_write, smtp_close, smtp_quit, smtp_send, prints, call, ignore, ◌>>=◌,
  ◌>>◌, pool,
}
use host_container.Text.{codes, concat}
use host_container.Prelude.{Bool, String, List, ℕ, not, ◌++◌, str_eq, if◌then◌else◌, ◌∷◌, []}

-- Settings of the environment.
pub record Mailer : Type 0 where
  pub host : String
  pub port : String
  pub user : String
  pub password : String
  pub sender : String

pub data Template : Type 0 where
  verification password_reset : Template

abbrev pub enabled : Mailer → Bool
enabled m = not (str_eq m.host "")

abbrev pub crlf : List ℕ
crlf = 13 ∷ 10 ∷ []

unfoldable pub build_message : String → String → String → List ℕ → List ℕ
build_message sender to subject body =
    codes "From: "
    ++ (codes sender
        ++ (crlf
            ++ (codes "To: "
                ++ (codes to
                    ++ (crlf
                        ++ (codes "Subject: "
                            ++ (codes subject
                                ++ (crlf
                                    ++ (codes "MIME-Version: 1.0"
                                        ++ (crlf
                                            ++ (codes "Content-Type: text/html; charset=UTF-8"
                                                ++ (crlf ++ (crlf ++ body)))))))))))))

-- A deferred call whose error is dropped.
abbrev pub deferring : {A B : Type 0} → Action A → Action B → Action A
deferring body cleanup w = let (r, w') = body w in (r, (cleanup w').1)

module _ (out : Outside) (split_host : String → String) where
  -- The writer is closed whether the write failed or not, and what `Close` returns is dropped.
  unfoldable pub write_message : List ℕ → Action (Unit {0})
  write_message msg = deferring (call out (smtp_write msg)) (call out smtp_close)

  unfoldable pub send_tls : Mailer → String → String → List ℕ → Action (Unit {0})
  unfolding write_message
  send_tls m addr to msg = do
    call out (smtp_dial addr)
    call out (smtp_client (split_host addr))
    deferring
        (do
          call out (smtp_auth m.user m.password m.host)
          call out (smtp_mail m.sender)
          call out (smtp_rcpt to)
          call out smtp_data
          write_message msg)
        (call out smtp_quit)

  unfoldable pub send : Mailer → String → String → List ℕ → Action (Unit {0})
  send m to subject html =
      let msg = build_message m.sender to subject html in
      let addr = concat m.host (concat ":" m.port) in
      if enabled m
      then (if str_eq m.port "465"
          then send_tls m addr to msg
          else call out (smtp_send addr m.sender to msg))
      else ignore (call out (prints html))

  unfoldable pub send_verification_email :
      (Template → String → String → List ℕ) → Mailer → String → String → String → Action (Unit {0})
  send_verification_email render m to name url =
      send m to "Verify your Docker Wrapper account" (render verification name url)

  unfoldable pub send_password_reset_email :
      (Template → String → String → List ℕ) → Mailer → String → String → String → Action (Unit {0})
  send_password_reset_email render m to name url =
      send m to "Reset your Docker Wrapper password" (render password_reset name url)
