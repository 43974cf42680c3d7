-- ===== src/Http.antt =====
-- What the HTTP handlers share: a request's method, a reply, and the ways to answer.
--
-- The router, the JSON and multipart parsers and the time limits of the contexts are not modelled: a
-- request is what they leave of it. `utils.RespondJSON` and `utils.RespondError` are `respond`.
use host_container.Prelude.{
  ℕ, String, Bool, true, false, not, Option, none, some, if◌then◌else◌, str_eq,
}
use host_container.World.{World, Action, ok, err, Error}

pub data Method : Type 0 where
  get post delete patch other : Method

abbrev pub is_get : Method → Bool
is_get get = true
is_get _ = false

abbrev pub is_post : Method → Bool
is_post post = true
is_post _ = false

abbrev pub is_delete : Method → Bool
is_delete delete = true
is_delete _ = false

abbrev pub is_patch : Method → Bool
is_patch patch = true
is_patch _ = false

-- A message, an error's text, no content, or the data.
pub data Body (A : Type 0) : Type 0 where
  message : String → Body A
  failed : Error → Body A
  no_content : Body A
  payload : A → Body A

pub record Response (A : Type 0) : Type 0 where
  pub status : ℕ
  pub body : Body A

-- A handler's run: what it answers, and what it leaves.
abbrev pub Handler : Type 0 → Type 0
Handler A = World → Response A × World

module _ {A : Type 0} where
  abbrev pub respond : ℕ → Body A → Handler A
  respond status body w = (record { status = status; body = body }, w)

  -- `if !b { RespondError(…); return }`
  abbrev pub unless : Bool → ℕ → String → Handler A → Handler A
  unless b status reason rest w = if b then rest w else respond status (message reason) w

  -- A service's call, answered with one status or the other.
  abbrev pub answer : {B : Type 0} → Action B → (Error → Handler A) → (B → Handler A) → Handler A
  answer m on_err on_ok w = let (r, w') = m w in elim r [ ok b ↦ on_ok b w' | err e ↦ on_err e w' ]

  -- What is decoded from a body: `none` is a body that does not decode.
  abbrev pub decoded : {B : Type 0} → Option B → String → (B → Handler A) → Handler A
  decoded o reason rest w = elim o [ none ↦ respond 400 (message reason) w | some b ↦ rest b w ]

abbrev pub is_given : String → Bool
is_given s = not (str_eq s "")

abbrev pub or_default : String → String → String
or_default s d = if str_eq s "" then d else s
