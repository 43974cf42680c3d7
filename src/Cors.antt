-- ===== src/Cors.antt =====
-- middlware/cors.go: the origins of the variable ALLOWED_ORIGINS, and the headers of a reply.
--
-- A text is the list of its characters, and a space one of the ASCII characters that `TrimSpace` takes.
pub mod Origins
use host_container.Prelude.{
  ℕ, Bool, true, false, ◌&&◌, ◌||◌, not, Option, none, some, List, [], ◌∷◌, if◌then◌else◌, ◌==◌,
  leb,
}
use host_container.World.{Word}
use host_container.Text.{text_eq}

abbrev pub comma : ℕ
comma = b','

-- Tab to carriage return, and the blank.
abbrev pub is_space : ℕ → Bool
is_space c = c == b' ' || (leb 9 c && leb c 13)

grow : ℕ → List Word → List Word
grow c [] = (c ∷ []) ∷ []
grow c (w ∷ ws) = (c ∷ w) ∷ ws

-- strings.Split(raw, ",")
pub split_comma : Word → List Word
unfolding grow
split_comma [] = [] ∷ []
split_comma (c ∷ cs) = let rest = split_comma cs in if c == comma then [] ∷ rest else grow c rest

pub trim_left : Word → Word
trim_left [] = []
trim_left (c ∷ cs) = let rest = trim_left cs in if is_space c then rest else c ∷ cs

pub trim_right : Word → Word
trim_right [] = []
trim_right (c ∷ cs) =
    let rest = trim_right cs in if text_eq rest [] && is_space c then [] else c ∷ rest

-- strings.TrimSpace
unfoldable pub trim_space : Word → Word
unfolding trim_left trim_right
trim_space w = trim_right (trim_left w)

unfoldable pub keep_filled : List Word → List Word
keep_filled [] = []
keep_filled (w ∷ ws) =
    let rest = keep_filled ws in if text_eq (trim_space w) [] then rest else trim_space w ∷ rest

-- The set is the list of its members.
unfoldable pub parse_allowed_origins : Word → List Word
unfolding split_comma keep_filled
parse_allowed_origins raw = keep_filled (split_comma raw)

pub holds : Word → List Word → Bool
holds w [] = false
holds w (v ∷ vs) = text_eq v w || holds w vs

-- Whether the request goes on to the next handler, and the origin that the headers allow.
pub record Reply : Type 0 where
  pub passed_on : Bool
  pub allow_origin : Option Word

-- The second argument says whether the method is OPTIONS.
unfoldable pub cors : Word → Bool → Word → Reply
unfolding parse_allowed_origins holds
cors raw is_options origin = record {
  passed_on = not is_options;
  allow_origin =
      if not (text_eq origin []) && holds origin (parse_allowed_origins raw)
      then some origin
      else none;
}
