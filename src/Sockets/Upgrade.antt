-- ===== src/Sockets/Upgrade.antt =====
-- websocket/upgrader.go: which origins may open a connection; and what the three handlers share.
pub mod Allowed
use host_container.Prelude.{◌≡◌, Bool, true, false, ◌&&◌, List, [], ◌∷◌, if◌then◌else◌, ℕ, String}
use host_container.World.{Word, World, Error}
use host_container.Text.{text_eq}
use host_container.Cors.{split_comma, trim_space, holds}

-- The loop of `parseAllowedOrigins`: the set is the list of its members.
pub add_origins : List Word → List Word
add_origins [] = []
add_origins (o ∷ os) =
    let rest = add_origins os in
    let trimmed = trim_space o in if text_eq trimmed [] then rest else trimmed ∷ rest

pub parse_ws_origins : Word → List Word
unfolding add_origins
parse_ws_origins raw = add_origins (split_comma raw)

-- `CheckOrigin` of the upgrader.
pub check_origin : Word → Word → Bool
unfolding parse_ws_origins
check_origin raw origin = if text_eq origin [] then true else holds origin (parse_ws_origins raw)

-- A request to open a connection: its origin, and whether the library finds nothing else amiss.
pub record Handshake : Type 0 where
  pub origin : Word
  pub fits : Bool

-- How a handler ends: with a reply, without a connection, with an error of the manager, or with
-- what its loop leaves.
pub data Outcome (A : Type 0) : Type 0 where
  answered : ℕ → String → Outcome A
  not_upgraded : Outcome A
  failed : Error → Outcome A
  ended : A → Outcome A

-- The first lines of the handlers: the parameter, then the upgrade.
unfoldable pub with_connection :
    {A : Type 0}
    → Word
    → Bool
    → String
    → Handshake
    → (World → Outcome A × World)
    → World
    → Outcome A × World
unfolding check_origin
with_connection raw given reason h rest w =
    if given
    then if h.fits && check_origin raw h.origin then rest w else (not_upgraded, w)
    else (answered 400 reason, w)
