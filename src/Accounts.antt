-- ===== src/Accounts.antt =====
-- service/userHnadler.go: signing in, registering, and the user's own record.
--
-- The validator (go-playground/validator) and bcrypt's comparison are parameters, and a new hash is
-- what bcrypt answers. A request's body is what the decoder leaves of it.
pub mod Login
pub mod Links
pub mod Reset
pub mod Flow
use host_container.Prelude.{
  ℕ, String, Bool, true, false, Option, none, some, List, [], ◌∷◌, if◌then◌else◌,
}
use host_container.World.{
  Word, Outside, World, Job, mails_verification, hash_password, Action, Result, ok, err, Error,
  pool, ask,
}
use host_container.Containers.Repo.{User, ContainerInfo}
use host_container.Users.{
  get_user, get_user_by_email_with_password, get_user_with_containers, create_user, delete_user,
}
use host_container.Text.{text_eq}
use host_container.Jwt.{Jwt, create_token, create_refresh_token, verify_refresh_token}
use host_container.Http.{
  Method, is_get, is_post, is_delete, Handler, Body, message, failed, payload, respond, unless,
  answer, decoded,
}
use host_container.Auth.{Request, split_two, blank, bearer_of}

pub record LoginRequest : Type 0 where
  pub email : String
  pub password : String

pub record RegisterRequest : Type 0 where
  pub name : String
  pub email : String
  pub password : String

pub record ResetRequest : Type 0 where
  pub token : String
  pub new_password : String

-- `Validator().Struct` at each type of request.
pub record Validator : Type 0 where
  pub login : LoginRequest → Bool
  pub register : RegisterRequest → Bool
  pub token : String → Bool
  pub reset : ResetRequest → Bool

pub record AuthTokenResponse : Type 0 where
  pub access_token : Word
  pub refresh_token : Word

pub data Payload : Type 0 where
  tokens : AuthTokenResponse → Payload
  access : Word → Payload
  profile : User → Payload
  profile_with : User → List ContainerInfo → Payload
  done : String → Payload

-- `go func() { … }()`
abbrev pub spawn : {A : Type 0} → Job → Handler A → Handler A
spawn j rest w = rest (record w { jobs = j ∷ w.jobs })

-- The user id of the context, if the middleware has set one.
abbrev pub with_user : {A : Type 0} → Option String → (String → Handler A) → Handler A
with_user id rest w = elim id [
  | none ↦ respond 401 (message "user id not found in context") w
  | some u ↦ rest u w
]

unfoldable pub extract_bearer_token : Request → Word
extract_bearer_token r =
    if text_eq r.authorization []
    then r.token
    else elim (bearer_of (split_two r.authorization blank)) [ none ↦ [] | some t ↦ t ]

unfoldable pub issue_token_pair : Jwt → ℕ → String → String → String → Option AuthTokenResponse
issue_token_pair jwt now name email id = elim (create_token jwt now name email id) [
  | none ↦ none
  | some a ↦ elim (create_refresh_token jwt now id) [
    | none ↦ none
    | some r ↦ some (record { access_token = a; refresh_token = r })
  ]
]

module _ (out : Outside) (jwt : Jwt) (valid : Validator) (verify : String → String → Bool) where
  unfoldable pub sign_in : LoginRequest → User × String → Handler Payload
  sign_in req (user, hash) = unless (verify hash req.password) 401 "invalid email or password" (
      unless user.email_verified 403 "email_not_verified" (λ w.
        elim (issue_token_pair jwt (out.now w.trace) user.name user.email user.id) [
          | none ↦ respond 500 (message "internal server error") w
          | some t ↦ respond 200 (payload (tokens t)) w
        ]))

  unfoldable pub login : Method → Option LoginRequest → Handler Payload
  login m body = unless (is_post m) 405 "method not allowed" (
      decoded body "invalid request body" λ req. unless (valid.login req) 400 "validation error" (
        answer (get_user_by_email_with_password out pool req.email)
          (λ e. respond 401 (message "invalid email or password")) (sign_in req)))

module _ (out : Outside) (jwt : Jwt) (valid : Validator) where
  unfoldable pub register : Method → Option RegisterRequest → Handler Payload
  register m body = unless (is_post m) 405 "method not allowed" (
      decoded body "invalid request body" λ req.
        unless (valid.register req) 400 "validation error" (
          answer (ask out (hash_password req.password) out.text)
            (λ e. respond 500 (message "error processing password"))
            (λ hash.
              answer (create_user out req.name req.email hash) (λ e. respond 500 (failed e))
                (λ id. spawn (mails_verification req.email req.name) (
                  respond 201 (
                    payload
                      (done "account created — please verify your email before logging in")))))))

  unfoldable pub refresh_token : Method → Request → Handler Payload
  refresh_token m r = unless (is_post m) 405 "method not allowed" (elim (extract_bearer_token r) [
    | [] ↦ respond 401 (message "refresh token required")
    | c ∷ cs ↦ λ w. elim (verify_refresh_token jwt (out.now w.trace) (c ∷ cs)) [
      | none ↦ respond 401 (message "invalid or expired refresh token") w
      | some id ↦
          answer (get_user out id) (λ e. respond 401 (message "user not found"))
            (λ user w'. elim (create_token jwt (out.now w'.trace) user.name user.email user.id) [
              | none ↦ respond 500 (message "internal server error") w'
              | some t ↦ respond 200 (payload (access t)) w'
            ])
            w
    ]
  ])

module _ (out : Outside) where
  pub read_user : Method → Option String → Handler Payload
  read_user m id = unless (is_get m) 405 "method not allowdoed" (
      with_user id λ u.
        answer (get_user out u) (λ e. respond 404 (message "user not found"))
          (λ user. respond 200 (payload (profile user))))

  pub read_user_with_containers : Method → Option String → Handler Payload
  read_user_with_containers m id = unless (is_get m) 405 "method not allowed" (
      with_user id λ u.
        answer (get_user_with_containers out u) (λ e. respond 404 (message "user not found"))
          (λ (p : User × List ContainerInfo). respond 200 (payload (profile_with p.0 p.1))))

  pub delete_own : Method → Option String → Handler Payload
  delete_own m id = unless (is_delete m) 405 "method not allowed" (
      with_user id λ u.
        answer (delete_user out u) (λ e. respond 500 (failed e))
          (λ _. respond 200 (payload (done "user deleted successfully"))))
