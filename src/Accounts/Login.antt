-- ===== src/Accounts/Login.antt =====
-- Who is signed in, and as whom.
use host_container.Prelude.{
  ℕ, ◌≡◌, ◌⊎◌, String, Bool, true, false, some, ◌∷◌, arith, inl, inr, Bool-cases, Option-cases,
}
use host_container.Schema.{UserRow}
use host_container.Tables.{find}
use host_container.World.{
  Outside, World, ok, err, Error, statement, refused, user_not_found, pool, logged,
}
use host_container.Containers.Repo.{scan_user, is_some}
use host_container.Users.{has_email, get_user_by_email, get_user_by_email_with_password}
use host_container.Jwt.{Jwt}
use host_container.Http.{Method, post, payload}
use host_container.Accounts.{
  LoginRequest, Validator, AuthTokenResponse, tokens, issue_token_pair, sign_in, login,
}

module _ (out : Outside) (email : String) (w : World) where
  -- What a look-up for a sign-in returns.
  by_email_cases :
      ((e : Error) × (get_user_by_email_with_password out pool email w
          ≡ (err e, logged statement w)))
      ⊎ ((u : UserRow) × (find (has_email email) w.db.users ≡ some u)
          × (get_user_by_email_with_password out pool email w
              ≡ (ok (scan_user out u, u.password_hash), logged statement w)))
  unfolding get_user_by_email_with_password
  by_email_cases = elim (Bool-cases (out.fails (statement ∷ w.trace))) [
    | inl lost ↦ inl (refused statement, ground arith)
    | inr answered ↦ elim (Option-cases (find (has_email email) w.db.users)) [
      | inl e ↦ inl (user_not_found, ground arith)
      | inr (u, e) ↦ inr (u, e, ground arith)
    ]
  ]

  -- And a look-up for a link.
  pub by_email_answers :
      ((e : Error) × (get_user_by_email out pool email w ≡ (err e, logged statement w)))
      ⊎ ((u : UserRow) × (find (has_email email) w.db.users ≡ some u)
          × (get_user_by_email out pool email w ≡ (ok (scan_user out u), logged statement w)))
  unfolding get_user_by_email
  by_email_answers = elim (Bool-cases (out.fails (statement ∷ w.trace))) [
    | inl lost ↦ inl (refused statement, ground arith)
    | inr answered ↦ elim (Option-cases (find (has_email email) w.db.users)) [
      | inl e ↦ inl (user_not_found, ground arith)
      | inr (u, e) ↦ inr (u, e, ground arith)
    ]
  ]

-- And what it returns where the user exists and the database answers.
by_email_found :
    (out : Outside) (email : String) (w : World) {u : UserRow}
    → out.fails (statement ∷ w.trace) ≡ false
    → find (has_email email) w.db.users ≡ some u
    → get_user_by_email_with_password out pool email w
      ≡ (ok (scan_user out u, u.password_hash), logged statement w)
unfolding get_user_by_email_with_password
by_email_found out email w a b = ground (arith, a, b)

module _ (out : Outside) (jwt : Jwt) (valid : Validator) (verify : String → String → Bool) where
  sign_in_sound :
      (req : LoginRequest) (u : UserRow) (w : World)
      → (sign_in out jwt valid verify req (scan_user out u, u.password_hash) w).0.status ≡ 200
      → (verify u.password_hash req.password ≡ true)
        × ((at : ℕ) × (u.email_verified_at ≡ some at))
        × ((t : AuthTokenResponse) × (issue_token_pair jwt
                (out.now w.trace)
                u.name
                u.email
                (out.to_text u.id)
              ≡ some t)
            × (sign_in out jwt valid verify req (scan_user out u, u.password_hash) w
                ≡ (record { status = 200; body = payload (tokens t) }, w)))
  unfolding sign_in scan_user is_some
  sign_in_sound req u w h = elim (Option-cases u.email_verified_at) [
    | inl e ↦ absurd (ground arith)
    | inr (at, e) ↦
        elim (Option-cases
          (issue_token_pair jwt (out.now w.trace) u.name u.email (out.to_text u.id))) [
            | inl f ↦ absurd (ground arith)
            | inr (t, f) ↦ (ground arith, (at, e), (t, f, ground arith))
          ]
  ]

  -- A login that is answered 200 has found the user of that address, whose stored hash bcrypt verifies
  -- for the given password and whose address was confirmed; the reply holds a pair of tokens made for
  -- that user, and nothing has changed.
  pub login_sound :
      (m : Method) (req : LoginRequest) (w : World)
      → (login out jwt valid verify m (some req) w).0.status ≡ 200
      → (u : UserRow) × (find (has_email req.email) w.db.users ≡ some u)
        × (verify u.password_hash req.password ≡ true)
        × ((at : ℕ) × (u.email_verified_at ≡ some at))
        × ((t : AuthTokenResponse) × (issue_token_pair jwt
                (out.now (statement ∷ w.trace))
                u.name
                u.email
                (out.to_text u.id)
              ≡ some t)
            × (login out jwt valid verify m (some req) w
                ≡ (record { status = 200; body = payload (tokens t) }, logged statement w)))
  unfolding login
  login_sound m req w h = elim (by_email_cases out req.email w) [
    | inl (e, f) ↦ absurd (ground arith)
    | inr (u, found, f) ↦
        let (v, at, (t, issued, signed)) =
          sign_in_sound req u (logged statement w) (ground arith) in
        (u, found, v, at, (t, issued, ground arith))
  ]

  -- The other way round: with the right password and a confirmed address, and where the database
  -- answers and the tokens can be signed, a valid request is answered 200.
  pub login_complete :
      (req : LoginRequest) (u : UserRow) (w : World) {at : ℕ} {t : AuthTokenResponse}
      → valid.login req ≡ true
      → out.fails (statement ∷ w.trace) ≡ false
      → find (has_email req.email) w.db.users ≡ some u
      → verify u.password_hash req.password ≡ true
      → u.email_verified_at ≡ some at
      → issue_token_pair jwt (out.now (statement ∷ w.trace)) u.name u.email (out.to_text u.id)
        ≡ some t
      → login out jwt valid verify post (some req) w
        ≡ (record { status = 200; body = payload (tokens t) }, logged statement w)
  unfolding login sign_in scan_user is_some
  login_complete req u w a b c d e f =
      let found = by_email_found out req.email w b c in ground arith
