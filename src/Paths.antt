-- ===== src/Paths.antt =====
-- What the handlers use of Go's `path/filepath` (Unix) and `strings`, and the guard that
-- service/ContainerHandlers.go puts before every file operation.
--
-- A path is the list of its characters. `clean` follows the rules that Go's documentation of
-- `filepath.Clean` states, component by component.
pub mod Components
pub mod Confinement
use host_container.Prelude.{
  ℕ, Bool, true, false, ◌&&◌, ◌||◌, not, List, [], ◌∷◌, ◌++◌, ◌==◌, if◌then◌else◌, String,
}
use mathlib.Core.List.{reverse}
use host_container.World.{FilePath}
use host_container.Text.{codes, text_eq, has_prefix}

abbrev pub Component : Type 0
Component = List ℕ

abbrev pub slash : ℕ
slash = b'/'

abbrev pub dot : Component
dot = b'.' ∷ []

abbrev pub dot_dot : Component
dot_dot = b'.' ∷ b'.' ∷ []

unfoldable pub grow_first : ℕ → List Component → List Component
grow_first c [] = (c ∷ []) ∷ []
grow_first c (x ∷ xs) = (c ∷ x) ∷ xs

-- strings.Split(p, "/")
unfoldable pub split_slash : FilePath → List Component
unfolding grow_first
split_slash [] = [] ∷ []
split_slash (c ∷ cs) =
    let rest = split_slash cs in if c == slash then [] ∷ rest else grow_first c rest

unfoldable pub is_rooted : FilePath → Bool
is_rooted [] = false
is_rooted (c ∷ cs) = c == slash

-- `..` takes the component before it away; at the root it goes nowhere, and in a relative path it
-- stays where nothing is left to take away. The stack has the last component first.
unfoldable pub climb : Bool → List Component → List Component
climb rooted [] = if rooted then [] else dot_dot ∷ []
climb rooted (c ∷ stack) = if text_eq c dot_dot then dot_dot ∷ c ∷ stack else stack

unfoldable pub push : Bool → Component → List Component → List Component
unfolding climb
push rooted c stack =
    if text_eq c [] || text_eq c dot
    then stack
    else if text_eq c dot_dot
    then climb rooted stack
    else c ∷ stack

unfoldable pub resolve : Bool → List Component → List Component → List Component
resolve rooted [] stack = stack
resolve rooted (c ∷ cs) stack = resolve rooted cs (push rooted c stack)

unfoldable pub join_slash : List Component → FilePath
join_slash [] = []
join_slash (c ∷ []) = c
join_slash (c ∷ d ∷ cs) = c ++ slash ∷ join_slash (d ∷ cs)

unfoldable pub render : Bool → List Component → FilePath
unfolding join_slash
render true cs = slash ∷ join_slash cs
render false [] = dot
render false (c ∷ cs) = join_slash (c ∷ cs)

-- filepath.Clean
unfoldable pub clean : FilePath → FilePath
unfolding split_slash is_rooted resolve push render
clean p = render (is_rooted p) (reverse (resolve (is_rooted p) (split_slash p) []))

-- filepath.Join: leading empty elements are ignored.
unfoldable pub join : List FilePath → FilePath
join [] = []
join (p ∷ ps) = if text_eq p [] then join ps else clean (join_slash (p ∷ ps))

last_component : FilePath → Component → Component
last_component [] acc = acc
last_component (c ∷ cs) acc = last_component cs (if c == slash then [] else acc ++ c ∷ [])

drop_slashes : FilePath → FilePath
drop_slashes [] = []
drop_slashes (c ∷ cs) = let rest = drop_slashes cs in if c == slash then rest else c ∷ cs

-- filepath.Base
unfoldable pub base : FilePath → FilePath
unfolding last_component drop_slashes
base p =
    if text_eq p []
    then dot
    else let name = last_component (reverse (drop_slashes (reverse p))) [] in
      if text_eq name [] then slash ∷ [] else name

from_slash : FilePath → FilePath
from_slash [] = []
from_slash (c ∷ cs) = if c == slash then c ∷ cs else from_slash cs

-- The path up to and with its last slash.
up_to_slash : FilePath → FilePath
unfolding from_slash
up_to_slash p = reverse (from_slash (reverse p))

-- filepath.Dir
unfoldable pub dir : FilePath → FilePath
unfolding up_to_slash clean
dir p = clean (up_to_slash p)

abbrev pub workspace : FilePath
workspace = codes "/workspace"

-- `cleanPath := filepath.Clean(p); !strings.HasPrefix(cleanPath, "/workspace")` is the refusal.
unfoldable pub is_within : FilePath → Bool
is_within p = has_prefix workspace (clean p)
