-- ===== src/Auth/Plain/Stricter.antt =====
-- The two middlewares compared: the plain one reads a header more strictly, and admits no one else.
use host_container.Prelude.{
  String, ◌≡◌, ◌⊎◌, refl, ap, ◌∙◌, Bool-cases, Option-cases, ⊎-cases, true, inl, inr, some, List,
  [], ◌∷◌, arith, ◌==◌, eq_iff,
}
use host_container.World.{Word, Outside, World}
use host_container.Text.{text_eq}
use host_container.Jwt.{Jwt, verify_token, get_user_id_from_token}
use host_container.Http.{Handler}
use host_container.Auth.{
  Request, split_two, blank, bearer, bearer_of, token_of, resolve_jwt, middleware,
}
use host_container.Auth.Headers.{split_first, split_two-eq-split_first}
use host_container.Auth.Plain.{push_first, split_all, second_of, plain_token, auth_middleware}

split_all_some : (s : Word) → (w : Word) × (ws : List Word) × (split_all s ≡ w ∷ ws)
unfolding split_all push_first
split_all_some [] = ([], [], refl)
split_all_some (c ∷ cs) =
    let (w, ws, e) = split_all_some cs in
    elim (Bool-cases (b' ' == c)) [
      | inl here ↦ ([], w ∷ ws, ground arith)
      | inr other ↦ (c ∷ w, ws, ground arith)
    ]

split_all_one : (s b : Word) → split_all s ≡ b ∷ [] → b ≡ s
unfolding split_all push_first
split_all_one [] b h = ground arith
split_all_one (c ∷ cs) b h =
    let (w, ws, e) = split_all_some cs in
    elim (Bool-cases (b' ' == c)) [
      | inl here ↦ absurd (ground arith)
      | inr other ↦ let whole = split_all_one cs w (ground arith) in ground arith
    ]

-- Two parts are what stands before the first blank and what stands after it.
split_all_two : (s a b : Word) → split_all s ≡ a ∷ b ∷ [] → split_first b' ' s ≡ some (a, b)
unfolding split_all push_first split_first
split_all_two [] a b h = absurd (ground arith)
split_all_two (c ∷ cs) a b h =
    let (w, ws, e) = split_all_some cs in
    elim (Bool-cases (b' ' == c)) [
      | inl here ↦ let whole = split_all_one cs b (ground arith) in ground arith
      | inr other ↦ let before = split_all_two cs w b (ground arith) in ground arith
    ]

second_of_two :
    (ps : List Word) (t : Word)
    → second_of ps ≡ some t
    → (w : Word) × (ps ≡ w ∷ t ∷ []) × (text_eq w bearer ≡ true)
unfolding second_of
second_of_two [] t h = absurd (ground arith)
second_of_two (w ∷ []) t h = absurd (ground arith)
second_of_two (w ∷ u ∷ []) t h = elim (Bool-cases (text_eq w bearer)) [
  | inl scheme ↦ (w, ground arith, scheme)
  | inr other ↦ absurd (ground arith)
]
second_of_two (w ∷ u ∷ v ∷ ws) t h = absurd (ground arith)

second_of-bearer_of :
    (s t : Word) → second_of (split_all s) ≡ some t → bearer_of (split_two s blank) ≡ some t
unfolding bearer_of
second_of-bearer_of s t h =
    let (w, e, scheme) = second_of_two (split_all s) t h in
    let parts = split_two-eq-split_first b' ' s ∙ split_all_two s w t e in
    ap bearer_of parts ∙ ground arith

pub plain_token-token_of : (r : Request) (t : Word) → plain_token r ≡ inr t → token_of r ≡ inr t
unfolding plain_token token_of
plain_token-token_of r t h = elim (Bool-cases (text_eq r.authorization [])) [
  | inl empty ↦ ground arith
  | inr given ↦ elim (Option-cases (second_of (split_all r.authorization))) [
    | inl e ↦ absurd (ground arith)
    | inr (u, e) ↦ let same = second_of-bearer_of r.authorization u e in ground arith
  ]
]

module _ (out : Outside) (jwt : Jwt) (hash_key : String → String) where
  -- A request that the plain middleware does not answer 401 itself is let through by the other one, if
  -- it carries no API key, with the same user and in the same state.
  pub auth_middleware-middleware :
      {A : Type 0} (r : Request) (next : String → Handler A) (w : World)
      → r.api_key ≡ ""
      → ((auth_middleware out jwt r next w).0.status ≡ 401)
        ⊎ (auth_middleware out jwt r next w ≡ middleware out jwt hash_key r next w)
  unfolding auth_middleware middleware resolve_jwt
  auth_middleware-middleware r next w none_given = elim (⊎-cases (plain_token r)) [
    | inl (reason, e) ↦ inl (ground arith)
    | inr (t, e) ↦
        let same = plain_token-token_of r t e in
        let nokey = (eq_iff r.api_key "").1 none_given in
        elim (Bool-cases (verify_token jwt (out.now w.trace) t)) [
          | inr bad ↦ inl (ground arith)
          | inl good ↦ elim (Option-cases (get_user_id_from_token jwt (out.now w.trace) t)) [
            | inl f ↦ inl (ground arith)
            | inr (id, f) ↦ inr (ground arith)
          ]
        ]
  ]
