-- ===== src/Tokens/SingleUse.antt =====
-- A token is good once, until it expires, and only the latest of a user and a kind is.
use host_container.Prelude.{ℕ, ◌≤◌, String, ◌≡◌, refl, none, List, [], ◌∷◌, arith, if◌then◌else◌}
use host_container.Schema.{EmailTokenRow}
use host_container.Tables.{find, update}
use host_container.World.{Outside, World, Event, statement, ok, err, refused, no_rows}
use host_container.Tokens.{TokenRecord, is_redeemable, use_at, consume}

-- The clock does not run backwards.
pub record Monotone (out : Outside) : Type 0 where
  pub later : (e : Event) (t : List Event) → out.now t ≤ out.now (e ∷ t)

pub redeemed_gone :
    (hash kind : String) (now later : ℕ) (ts : List EmailTokenRow)
    → now ≤ later
    → find (is_redeemable hash kind later) (update (is_redeemable hash kind now) (use_at now) ts)
      ≡ none
redeemed_gone hash kind now later [] h = refl
redeemed_gone hash kind now later (t ∷ ts) h =
    ground (arith, redeemed_gone hash kind now later ts h)

module _ (out : Outside) (hash_token : String → String) (mono : Monotone out) (raw kind : String)
    (w : World) where
  -- After a token was redeemed, redeeming it again fails and changes no table, provided that the
  -- clock does not run backwards.
  pub consume_once :
      {rec : TokenRecord}
      → (consume out hash_token raw kind w).0 ≡ ok rec
      → consume out hash_token raw kind (consume out hash_token raw kind w).1 ≡ (
        err (if out.fails (statement ∷ statement ∷ w.trace) then refused statement else no_rows),
        record (consume out hash_token raw kind w).1 { trace = statement ∷ statement ∷ w.trace },
      )
  unfolding consume
  consume_once h = ground (
    arith,
    redeemed_gone (hash_token raw) kind (out.now w.trace) (out.now (statement ∷ w.trace))
        w.db.email_tokens (mono.later statement w.trace),
  )
