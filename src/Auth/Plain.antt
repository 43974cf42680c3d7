-- ===== src/Auth/Plain.antt =====
-- middlware/Middlware.go: the middleware of the routes that take no API key.
pub mod Stricter
use host_container.Prelude.{
  ℕ, String, Bool, true, false, ◌⊎◌, inl, inr, Option, none, some, List, [], ◌∷◌, if◌then◌else◌,
  ◌==◌,
}
use host_container.World.{Word, Outside}
use host_container.Text.{text_eq}
use host_container.Jwt.{Jwt, verify_token, get_user_id_from_token}
use host_container.Http.{Handler, respond, message}
use host_container.Auth.{Request, blank, bearer}

pub push_first : ℕ → List Word → List Word
push_first c [] = (c ∷ []) ∷ []
push_first c (w ∷ ws) = (c ∷ w) ∷ ws

-- `strings.Split(s, " ")`
pub split_all : Word → List Word
unfolding push_first
split_all [] = [] ∷ []
split_all (c ∷ cs) = let rest = split_all cs in if b' ' == c then [] ∷ rest else push_first c rest

-- The second part, where there are two and the first is `Bearer`.
pub second_of : List Word → Option Word
second_of (scheme ∷ t ∷ []) = if text_eq scheme bearer then some t else none
second_of _ = none

pub plain_token : Request → String ⊎ Word
unfolding second_of
plain_token r =
    let found : String ⊎ Word =
      if text_eq r.authorization [] then inr [] else elim (second_of (split_all r.authorization)) [
        | none ↦ inl "invalid authorization header format"
        | some t ↦ inr t
      ] in
    elim found [
      | inl reason ↦ inl reason
      | inr t ↦
          let given = if text_eq t [] then r.token else t in
          if text_eq given [] then inl "authorization required" else inr given
    ]

unfoldable pub auth_middleware :
    Outside → Jwt → {A : Type 0} → Request → (String → Handler A) → Handler A
auth_middleware out jwt r next w = elim (plain_token r) [
  | inl reason ↦ respond 401 (message reason) w
  | inr t ↦
      if verify_token jwt (out.now w.trace) t
      then elim (get_user_id_from_token jwt (out.now w.trace) t) [
        | none ↦ respond 401 (message "invalid or expired token") w
        | some id ↦ next id w
      ]
      else respond 401 (message "invalid token") w
]
