-- ===== src/Mail/Exchange.antt =====
-- When a mail over TLS counts as sent.
use host_container.World.{
  Outside, World, Event, Result, ok, err, refused, smtp_dial, smtp_client, smtp_auth, smtp_mail,
  smtp_rcpt, smtp_data, smtp_write,
}
use host_container.Text.{concat}
use host_container.Mail.{Mailer, build_message, write_message, send_tls, send}
use host_container.Prelude.{
  List, Option, String, ℕ, none, some, ◌∷◌, ◌≡◌, if◌then◌else◌, [], arith, str_eq, false, eq_iff,
}

-- The first of these calls that is refused, made in turn after a log.
abbrev pub first_refused : Outside → List Event → List Event → Option Event
first_refused out t [] = none
first_refused out t (e ∷ es) =
    let rest = first_refused out (e ∷ t) es in if out.fails (e ∷ t) then some e else rest

abbrev pub sent_unless : Option Event → Result (Unit {0})
sent_unless none = ok tt
sent_unless (some e) = err (refused e)

-- The exchange up to the text of the mail.
abbrev pub exchange : (String → String) → Mailer → String → String → List ℕ → List Event
exchange split_host m addr to msg =
    smtp_dial addr
    ∷ smtp_client (split_host addr)
    ∷ smtp_auth m.user m.password m.host
    ∷ smtp_mail m.sender
    ∷ smtp_rcpt to
    ∷ smtp_data
    ∷ smtp_write msg
    ∷ []

module _ (out : Outside) (split_host : String → String) (m : Mailer) where
  send_tls-result :
      (addr to : String) (msg : List ℕ) (w : World)
      → (send_tls out split_host m addr to msg w).0
        ≡ sent_unless (first_refused out w.trace (exchange split_host m addr to msg))
  unfolding send_tls write_message
  send_tls-result addr to msg w = ground arith

  -- A mailer with a host and the port 465 returns no error exactly if the server took every call of the
  -- exchange up to the text of the mail, and otherwise the error of the first that it refused. What
  -- it answers when the text is closed, which is when it takes the mail or refuses it, is not heard.
  pub send-unacknowledged :
      (to subject : String) (html : List ℕ) (w : World)
      → str_eq m.host "" ≡ false
      → m.port ≡ "465"
      → (send out split_host m to subject html w).0
        ≡ sent_unless (
            first_refused out w.trace (
              exchange split_host m
                (concat m.host (concat ":" m.port))
                to
                (build_message m.sender to subject html)))
  unfolding send
  send-unacknowledged to subject html w hosted tls =
      let port = (eq_iff m.port "465").1 tls in
      let sent =
        send_tls-result (concat m.host (concat ":" m.port)) to
          (build_message m.sender to subject html) w in
      ground arith
